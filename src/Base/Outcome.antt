-- ===== src/Base/Outcome.antt =====
-- Rust's `Result<A, E>`, with `?` as the bind of a `do` block, and its `map_err`.
-- A call has a third outcome: it panics, and so does whatever called it.
use mathlib.Core.Path.{◌≡◌, refl}
use mathlib.Core.Logic.{◌⊎◌, inl, inr}
use mathlib.Core.Bool.{Bool, true, false}
use mathlib.Core.Option.{Option, none, some}

pub data Result (E A : Type 0) : Type 0 where
  panic : Result E A
  err : E → Result E A
  ok : A → Result E A

-- `Option::ok_or_else`
abbrev pub ok_or : {E A : Type 0} → Option A → E → Result E A
ok_or none failure = err failure
ok_or (some value) failure = ok value

abbrev pub map_err : {E F A : Type 0} → (E → F) → Result E A → Result F A
map_err f panic = panic
map_err f (err failure) = err (f failure)
map_err f (ok value) = ok value

abbrev and_then : {E A B : Type 0} → (A → Result E B) → Result E A → Result E B
and_then next panic = panic
and_then next (err failure) = err failure
and_then next (ok value) = next value

infixl 5 ◌>>=◌ ◌>>◌
abbrev pub ◌>>=◌ : {E A B : Type 0} → Result E A → (A → Result E B) → Result E B
m >>= next = and_then next m

-- `if c { return Err(e); }`
abbrev pub fail_if : {E : Type 0} → Bool → E → Result E (Unit {0})
fail_if test failure = elim test [ true ↦ err failure | false ↦ ok tt ]

abbrev pub ◌>>◌ : {E B : Type 0} → Result E (Unit {0}) → Result E B → Result E B
first >> second = and_then (λ done. second) first

-- Inversion of a chain that succeeds: its first part does, and what follows does on the value.
pub and_then-ok :
    {E A B : Type 0} (first : Result E A) (next : A → Result E B) {end : B}
    → (first >>= next) ≡ ok end
    → (value : A) × (first ≡ ok value) × (next value ≡ ok end)
and_then-ok panic next e = cc
and_then-ok (err failure) next e = cc
and_then-ok (ok value) next e = (value, refl, e)

pub Result-cases :
    {E A : Type 0} (m : Result E A) → ((a : A) × (m ≡ ok a)) ⊎ ((e : E) × (m ≡ err e)) ⊎ (m ≡ panic)
Result-cases (ok a) = inl (a, refl)
Result-cases (err e) = inr (inl (e, refl))
Result-cases panic = inr (inr refl)

pub fail_if-ok :
    {E B : Type 0} (b : Bool) (e : E) (f : Unit {0} → Result E B) {a : B}
    → (fail_if b e >>= f) ≡ ok a
    → (b ≡ false) × (f tt ≡ ok a)
fail_if-ok true e f h = cc
fail_if-ok false e f h = (refl, h)

pub ok_or-ok : {E A : Type 0} (o : Option A) (e : E) {a : A} → ok_or o e ≡ ok a → o ≡ some a
ok_or-ok none e h = cc
ok_or-ok (some a) e h = cc

pub ok-injective : {E A : Type 0} {a b : A} → ◌≡◌ {A = Result E A} (ok a) (ok b) → a ≡ b
ok-injective h = cc
