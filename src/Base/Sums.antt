-- ===== src/Base/Sums.antt =====
-- Sums over the values of a map, and how a write moves them.
use budget_warden.Base.Map.{HashMap, get, insert, modify}
use Prim.Native.Nat.{ℕ, ◌+◌, ◌≤◌}
use mathlib.Core.List.{[], ◌∷◌}
use mathlib.Core.Option.{none, some}
use mathlib.Core.Path.{◌≡◌}
use native.Mathlib.Omega.{arith}

module _ {K V : Type 0} where
  -- The sum of a weight over all values of a map.
  abbrev pub total : (V → ℕ) → HashMap K V → ℕ
  total w [] = 0
  total w ((_, v) ∷ m) = w v + total w m

module _ {K V : Type 0} (dec : Discrete K) (w : V → ℕ) where
  -- A new key adds its weight.
  pub total-insert_new :
      (k : K) (v : V) (m : HashMap K V)
      → get dec k m ≡ none
      → total w (insert dec k v m) ≡ total w m + w v
  unfolding get insert
  total-insert_new k v [] e = omega arith
  total-insert_new k v ((j, x) ∷ m) e = ground (arith, total-insert_new k v m)

  -- A write at a key swaps the old weight for the new one.
  pub total-modify :
      (k : K) (f : V → V) (v : V) (m : HashMap K V)
      → get dec k m ≡ some v
      → total w (modify dec k f m) + w v ≡ total w m + w (f v)
  unfolding get modify
  total-modify k f v [] e = cc
  total-modify k f v ((j, x) ∷ m) e = ground (arith, total-modify k f v m)

  -- No value weighs more than the sum.
  pub weight-le-total : (k : K) (v : V) (m : HashMap K V) → get dec k m ≡ some v → w v ≤ total w m
  unfolding get
  weight-le-total k v [] e = cc
  weight-le-total k v ((j, x) ∷ m) e = ground (arith, weight-le-total k v m)
