-- ===== src/Base/Translate.antt =====
-- Maps whose keys and values are renamed, the keys so that different ones stay different.
use budget_warden.Base.Map.{HashMap, get, insert, modify}
use mathlib.Core.List.{[], ◌∷◌}
use mathlib.Core.Option
use mathlib.Core.Option.{Option, none, some}
use mathlib.Core.Path.{◌≡◌, refl, ap}
use native.Mathlib.Omega.{arith}

abbrev pub translate : {K L V W : Type 0} → (K → L) → (V → W) → HashMap K V → HashMap L W
translate f g [] = []
translate f g ((k, v) ∷ m) = (f k, g v) ∷ translate f g m

module _ {K L V W : Type 0} (dk : Discrete K) (dl : Discrete L) (f : K → L) (g : V → W)
    (injective : (i j : K) → f i ≡ f j → i ≡ j) where
  pub get-translate :
      (k : K) (m : HashMap K V) → get dl (f k) (translate f g m) ≡ Option.map g (get dk k m)
  unfolding get
  get-translate k [] = refl
  get-translate k ((j, v) ∷ m) = elim (dk j k) [
    | yes p ↦ ground (arith, ap f p)
    | no p ↦ ground (arith, get-translate k m, injective j k)
  ]

  pub translate-modify :
      (k : K) (h : V → V) (h' : W → W) (m : HashMap K V)
      → ((v : V) → get dk k m ≡ some v → g (h v) ≡ h' (g v))
      → translate f g (modify dk k h m) ≡ modify dl (f k) h' (translate f g m)
  unfolding get modify
  translate-modify k h h' [] same = refl
  translate-modify k h h' ((j, v) ∷ m) same = elim (dk j k) [
    | yes p ↦ ground (arith, ap f p, same v)
    | no p ↦ ground (arith, translate-modify k h h' m, injective j k)
  ]

  pub translate-insert :
      (k : K) (v : V) (m : HashMap K V)
      → translate f g (insert dk k v m) ≡ insert dl (f k) (g v) (translate f g m)
  unfolding insert
  translate-insert k v [] = refl
  translate-insert k v ((j, w) ∷ m) = elim (dk j k) [
    | yes p ↦ ground (arith, ap f p)
    | no p ↦ ground (arith, translate-insert k v m, injective j k)
  ]
