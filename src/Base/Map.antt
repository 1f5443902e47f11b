-- ===== src/Base/Map.antt =====
-- Rust's `HashMap`, as an association list over keys with a decidable equality. `insert` puts a
-- new key last and replaces the value of an old one; the order is that of insertion.
use mathlib.Core.List.{List, [], ◌∷◌}
use mathlib.Core.Logic.{◌≢◌, ite}
use mathlib.Core.Option
use mathlib.Core.Option.{Option, none, some}
use mathlib.Core.Path.{◌≡◌, refl}
use native.Mathlib.Omega.{arith}

abbrev pub HashMap : Type 0 → Type 0 → Type 0
HashMap K V = List (K × V)

module _ {K V : Type 0} (dec : Discrete K) where
  unfoldable pub get : K → HashMap K V → Option V
  get k [] = none
  get k ((j, v) ∷ m) = ite (dec j k) (some v) (get k m)

  unfoldable pub insert : K → V → HashMap K V → HashMap K V
  insert k v [] = (k, v) ∷ []
  insert k v ((j, w) ∷ m) = ite (dec j k) ((j, v) ∷ m) ((j, w) ∷ insert k v m)

  -- A write through `get_mut`: nothing happens at a key that is not there.
  unfoldable pub modify : K → (V → V) → HashMap K V → HashMap K V
  modify k f [] = []
  modify k f ((j, w) ∷ m) = ite (dec j k) ((j, f w) ∷ m) ((j, w) ∷ modify k f m)

  pub get-insert_self : (k : K) (v : V) (m : HashMap K V) → get k (insert k v m) ≡ some v
  unfolding get insert
  get-insert_self k v [] = ground arith
  get-insert_self k v ((j, w) ∷ m) = ground (arith, get-insert_self k v m)

  pub get-insert_ne : (k j : K) (v : V) (m : HashMap K V) → k ≢ j → get j (insert k v m) ≡ get j m
  unfolding get insert
  get-insert_ne k j v [] h = ground arith
  get-insert_ne k j v ((i, w) ∷ m) h = ground (arith, get-insert_ne k j v m h)

  pub get-modify_self :
      (k : K) (f : V → V) (v : V) (m : HashMap K V)
      → get k m ≡ some v
      → get k (modify k f m) ≡ some (f v)
  unfolding get modify
  get-modify_self k f v [] e = cc
  get-modify_self k f v ((j, w) ∷ m) e = ground (arith, get-modify_self k f v m)

  pub get-modify_ne :
      (k j : K) (f : V → V) (m : HashMap K V) → k ≢ j → get j (modify k f m) ≡ get j m
  unfolding get modify
  get-modify_ne k j f [] h = refl
  get-modify_ne k j f ((i, w) ∷ m) h = ground (arith, get-modify_ne k j f m h)

  pub modify_absent : (k : K) (f : V → V) (m : HashMap K V) → get k m ≡ none → modify k f m ≡ m
  unfolding get modify
  modify_absent k f [] e = refl
  modify_absent k f ((j, w) ∷ m) e = ground (arith, modify_absent k f m)

  -- Both cases of a write through `get_mut` at once.
  pub get-modify :
      (k j : K) (f : V → V) (m : HashMap K V)
      → get j (modify k f m) ≡ ite (dec k j) (Option.map f (get j m)) (get j m)
  unfolding get modify
  get-modify k j f [] = ground arith
  get-modify k j f ((i, w) ∷ m) = ground (arith, get-modify k j f m)

  pub get-insert :
      (k j : K) (v : V) (m : HashMap K V) → get j (insert k v m) ≡ ite (dec k j) (some v) (get j m)
  unfolding get insert
  get-insert k j v [] = ground arith
  get-insert k j v ((i, w) ∷ m) = ground (arith, get-insert k j v m)
