-- ===== src/Config/Names.antt =====
-- The texts of src/config/model.rs: `normalized`, and the prefix of custom names.
use Prim.Native.Char.{Char, char, code, IsScalar}
use Prim.Native.String.{[], ◌∷◌}
use budget_warden.Base.{
  ℕ, zero, suc, ◌+◌, min, ◌≤◌, leb, ◌==◌, String, is_blank, is_whitespace, ◌&&◌, if◌then◌else◌,
  arith,
}
use text.Mathlib.Text.{starts_with}

-- `str::trim`: white space off the start and off the end.
unfoldable pub trim_start : String → String
trim_start [] = []
trim_start (c ∷ s) = let rest = trim_start s in if is_whitespace (code c) then rest else c ∷ s

unfoldable pub trim_end : String → String
unfolding is_blank
trim_end [] = []
trim_end (c ∷ s) = let rest = trim_end s in if is_blank (c ∷ s) then [] else c ∷ rest

pub scalar : (n : ℕ) → n ≤ 90 → IsScalar (n + 32)
scalar n h = ground arith

-- `to_ascii_lowercase` and `replace('-', "_")`, of one character. The minimum with Z changes nothing
-- in its branch, and shows that the number is one of a character.
unfoldable pub normalized_char : Char → Char
normalized_char (char n p) =
    if leb b'A' n && leb n b'Z'
    then char (min n 90 + 32) (scalar (min n 90) (omega arith))
    else if n == b'-'
    then "_"
    else char n p

unfoldable pub normalized_chars : String → String
unfolding normalized_char
normalized_chars [] = []
normalized_chars (c ∷ s) = normalized_char c ∷ normalized_chars s

unfoldable pub normalized : String → String
unfolding trim_start trim_end normalized_chars
normalized value = normalized_chars (trim_end (trim_start value))

-- `trim_start_matches("custom:")`, which removes the prefix as often as it stands there. The number
-- says how many characters of a prefix are still to be dropped.
unfoldable pub drop_prefixes : ℕ → String → String
drop_prefixes n [] = []
drop_prefixes (suc n) (c ∷ s) = drop_prefixes n s
drop_prefixes zero (c ∷ s) =
    let rest = drop_prefixes 6 s in if starts_with (c ∷ s) "custom:" then rest else c ∷ s
