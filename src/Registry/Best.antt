-- ===== src/Registry/Best.antt =====
-- What `PolicyRegistry::find` of src/broker.rs finds.
use budget_warden.Base.{
  ℕ, ◌≤◌, ◌<◌, ◌≡◌, ◌⊎◌, inl, inr, true, false, Option, none, some, List, [], ◌∷◌, ◌++◌, arith,
  Bool-cases, ltb, ltb→lt, ltb-false, refl, ap, sym, subst, ◌∙◌,
}
use budget_warden.Key.{BudgetKey}
use budget_warden.Key.Pattern.{matches, specificity}
use budget_warden.Policy.{BudgetPolicy}
use budget_warden.Registry.{PolicyRegistry, matching, best_of, most_specific, find}

-- No policy of the list matches the key.
abbrev pub NoneMatch : BudgetKey → List BudgetPolicy → Type 0
NoneMatch key [] = Unit
NoneMatch key (p ∷ ps) = (matches p.key key ≡ false) × NoneMatch key ps

-- The policies that match the key are at most, or less, specific than `n`.
abbrev pub AtMost : BudgetKey → ℕ → List BudgetPolicy → Type 0
AtMost key n [] = Unit
AtMost key n (p ∷ ps) = ((matches p.key key ≡ false) ⊎ (specificity p.key ≤ n)) × AtMost key n ps

abbrev pub Below : BudgetKey → ℕ → List BudgetPolicy → Type 0
Below key n [] = Unit
Below key n (p ∷ ps) = ((matches p.key key ≡ false) ⊎ (specificity p.key < n)) × Below key n ps

-- `p` is the policy for the key: it stands in the list and matches, no earlier match is more
-- specific, and every later match is less specific.
pub record IsBest (key : BudgetKey) (ps : List BudgetPolicy) (p : BudgetPolicy) : Type 0 where
  pub before : List BudgetPolicy
  pub behind : List BudgetPolicy
  pub splits : ps ≡ before ++ p ∷ behind
  pub matched : matches p.key key ≡ true
  pub earlier : AtMost key (specificity p.key) before
  pub later : Below key (specificity p.key) behind

AtMost-mono :
    (key : BudgetKey) (m n : ℕ) (ps : List BudgetPolicy) → m ≤ n → AtMost key m ps → AtMost key n ps
AtMost-mono key m n [] h a = tt
AtMost-mono key m n (p ∷ ps) h ((inl x), a) = (inl x, AtMost-mono key m n ps h a)
AtMost-mono key m n (p ∷ ps) h ((inr x), a) = (inr (omega arith), AtMost-mono key m n ps h a)

AtMost-append :
    (key : BudgetKey) (n : ℕ) (ps qs : List BudgetPolicy)
    → AtMost key n ps
    → AtMost key n qs
    → AtMost key n (ps ++ qs)
AtMost-append key n [] qs a b = b
AtMost-append key n (p ∷ ps) qs a b = (a.0, AtMost-append key n ps qs a.1 b)

-- What the loop over the matches ends with: the policy that it began with, if every match is less
-- specific, or the best of the list.
abbrev Ends : BudgetKey → BudgetPolicy → List BudgetPolicy → BudgetPolicy → Type 0
Ends key b ps r =
    ((r ≡ b) × Below key (specificity b.key) ps)
    ⊎ (IsBest key ps r × (specificity b.key ≤ specificity r.key))

cons-IsBest :
    (key : BudgetKey) (p : BudgetPolicy) (ps : List BudgetPolicy) (r : BudgetPolicy)
    → (matches p.key key ≡ false) ⊎ (specificity p.key ≤ specificity r.key)
    → IsBest key ps r
    → IsBest key (p ∷ ps) r
cons-IsBest key p ps r h b = record {
  before = p ∷ b.before;
  behind = b.behind;
  splits = ap (◌∷◌ p) b.splits;
  matched = b.matched;
  earlier = (h, b.earlier);
  later = b.later;
}

matching-hit :
    (key : BudgetKey) (p : BudgetPolicy) (ps : List BudgetPolicy)
    → matches p.key key ≡ true
    → matching key (p ∷ ps) ≡ p ∷ matching key ps
unfolding matching
matching-hit key p ps h = ground arith

matching-miss :
    (key : BudgetKey) (p : BudgetPolicy) (ps : List BudgetPolicy)
    → matches p.key key ≡ false
    → matching key (p ∷ ps) ≡ matching key ps
unfolding matching
matching-miss key p ps h = ground arith

best_of-lower :
    (b p : BudgetPolicy) (ps : List BudgetPolicy)
    → specificity p.key < specificity b.key
    → best_of b (p ∷ ps) ≡ best_of b ps
unfolding best_of
best_of-lower b p ps h = ap (λ q. best_of q ps) (ground arith)

best_of-raise :
    (b p : BudgetPolicy) (ps : List BudgetPolicy)
    → specificity b.key ≤ specificity p.key
    → best_of b (p ∷ ps) ≡ best_of p ps
unfolding best_of
best_of-raise b p ps h = ap (λ q. best_of q ps) (ground arith)

skip-Ends :
    (key : BudgetKey) (b p : BudgetPolicy) (ps : List BudgetPolicy) {r : BudgetPolicy}
    → (matches p.key key ≡ false) ⊎ (specificity p.key < specificity b.key)
    → Ends key b ps r
    → Ends key b (p ∷ ps) r
skip-Ends key b p ps h (inl (e, l)) = inl (e, (h, l))
skip-Ends key b p ps (inl h) (inr (x, l)) = inr (cons-IsBest key p ps _ (inl h) x, l)
skip-Ends key b p ps (inr h) (inr (x, l)) = inr (cons-IsBest key p ps _ (inr (omega arith)) x, l)

start-IsBest :
    (key : BudgetKey) (p : BudgetPolicy) (ps : List BudgetPolicy) {r : BudgetPolicy}
    → matches p.key key ≡ true
    → Ends key p ps r
    → IsBest key (p ∷ ps) r
start-IsBest key p ps m (inl (e, l)) =
    rw e (record { before = []; behind = ps; splits = refl; matched = m; earlier = tt; later = l })
start-IsBest key p ps m (inr (b, l)) = cons-IsBest key p ps _ (inr l) b

raise-Ends :
    (key : BudgetKey) (b p : BudgetPolicy) (ps : List BudgetPolicy) {r : BudgetPolicy}
    → matches p.key key ≡ true
    → specificity b.key ≤ specificity p.key
    → Ends key p ps r
    → Ends key b (p ∷ ps) r
raise-Ends key b p ps m h (inl (e, l)) = inr (
  start-IsBest key p ps m (inl (e, l)),
  subst (λ q. specificity b.key ≤ specificity q.key) (sym e) h,
)
raise-Ends key b p ps m h (inr (x, l)) = inr (cons-IsBest key p ps _ (inr l) x, omega arith)

best_of-Ends :
    (key : BudgetKey) (b : BudgetPolicy) (ps : List BudgetPolicy)
    → Ends key b ps (best_of b (matching key ps))
best_of-Ends key b [] = inl (unfold matching best_of in refl, tt)
best_of-Ends key b (p ∷ ps) = elim (Bool-cases (matches p.key key)) [
  | inr miss ↦
      subst (Ends key b (p ∷ ps)) (sym (ap (best_of b) (matching-miss key p ps miss)))
        (skip-Ends key b p ps (inl miss) (best_of-Ends key b ps))
  | inl hit ↦ elim (Bool-cases (ltb (specificity p.key) (specificity b.key))) [
    | inl less ↦
        subst (Ends key b (p ∷ ps))
          (sym (ap (best_of b) (matching-hit key p ps hit) ∙ best_of-lower b p _ (ltb→lt _ _ less)))
          (skip-Ends key b p ps (inr (ltb→lt _ _ less)) (best_of-Ends key b ps))
    | inr more ↦
        subst (Ends key b (p ∷ ps))
          (sym
            (ap (best_of b) (matching-hit key p ps hit) ∙ best_of-raise b p _ (ltb-false _ _ more)))
          (raise-Ends key b p ps hit (ltb-false _ _ more) (best_of-Ends key p ps))
  ]
]

-- What a search among the matches finds.
abbrev Finds : BudgetKey → List BudgetPolicy → Option BudgetPolicy → Type 0
Finds key ps found =
    ((found ≡ none) × NoneMatch key ps) ⊎ ((p : BudgetPolicy) × (found ≡ some p) × IsBest key ps p)

miss-Finds :
    (key : BudgetKey) (p : BudgetPolicy) (ps : List BudgetPolicy) {found : Option BudgetPolicy}
    → matches p.key key ≡ false
    → Finds key ps found
    → Finds key (p ∷ ps) found
miss-Finds key p ps m (inl (e, l)) = inl (e, (m, l))
miss-Finds key p ps m (inr (q, e, b)) = inr (q, e, cons-IsBest key p ps q (inl m) b)

most_specific-Finds :
    (key : BudgetKey) (ps : List BudgetPolicy) → Finds key ps (most_specific (matching key ps))
most_specific-Finds key [] = inl (unfold matching most_specific in refl, tt)
most_specific-Finds key (p ∷ ps) = elim (Bool-cases (matches p.key key)) [
  | inl hit ↦ inr (
    best_of p (matching key ps),
    ap most_specific (matching-hit key p ps hit) ∙ (unfold most_specific in refl),
    start-IsBest key p ps hit (best_of-Ends key p ps),
  )
  | inr miss ↦
      subst (Finds key (p ∷ ps)) (sym (ap most_specific (matching-miss key p ps miss)))
        (miss-Finds key p ps miss (most_specific-Finds key ps))
]

-- `find` returns no policy exactly when none matches the key; otherwise it returns one that matches,
-- such that no match is more specific, and of several equally specific ones the last.
pub find-IsBest :
    (registry : PolicyRegistry) (key : BudgetKey)
    → ((find registry key ≡ none) × NoneMatch key registry.policies)
      ⊎ ((p : BudgetPolicy) × (find registry key ≡ some p) × IsBest key registry.policies p)
unfolding find
find-IsBest registry key = most_specific-Finds key registry.policies
