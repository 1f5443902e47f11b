-- ===== src/Base/Text.antt =====
-- Rust's `String` and `str`, as far as the program compares, joins and tests them.
use Prim.Native.Char.{code}
use Prim.Native.Nat.{ℕ}
pub use Prim.Native.String.{String}
use text.Mathlib.Text.{◌==◌ as string_eq}
use text.Mathlib.TextEquality.{eq_iff}
use mathlib.Core.Path.{◌≡◌, refl}
use mathlib.Core.Bool.{Bool, true, false, ◌&&◌, ◌||◌}
use budget_warden.Base.Tests.{leb, ◌==◌}
pub use Prim.Native.String.{◌++◌ as append}
pub use text.Mathlib.Text.{◌==◌ as string_eq}
pub use text.Mathlib.TextEquality.{eq_iff as string_eq_iff}

-- The code points of Unicode's White_Space property, which `char::is_whitespace` tests.
abbrev pub is_whitespace : ℕ → Bool
is_whitespace c =
    (leb 9 c && leb c 13)
    || c == 32
    || c == 0x85
    || c == 0xa0
    || c == 0x1680
    || (leb 0x2000 c && leb c 0x200a)
    || c == 0x2028
    || c == 0x2029
    || c == 0x202f
    || c == 0x205f
    || c == 0x3000

-- `value.trim().is_empty()`: nothing but white space.
unfoldable pub is_blank : String → Bool
is_blank String.[] = true
is_blank (String.◌∷◌ c s) = is_whitespace (code c) && is_blank s

dec_of {ℓ} : {P : Type ℓ} (b : Bool) → (b ≡ true → P) → (P → b ≡ true) → Dec P
dec_of true f g = yes (f refl)
dec_of false f g = no (λ p. cc (g p))

unfoldable pub String-discrete : Discrete String
unfolding dec_of
String-discrete s t = dec_of (string_eq s t) (eq_iff s t).0 (eq_iff s t).1
