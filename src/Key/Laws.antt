-- ===== src/Key/Laws.antt =====
-- What the key patterns of src/key.rs mean.
use budget_warden.Base.{◌≡◌, ◌↔◌, some, true, string_eq_iff, arith}
use budget_warden.Key.{BudgetKey}
use budget_warden.Key.Pattern.{BudgetKeyPattern, matches, specificity, exact_key, report_key}

-- An exact key is the only key that its pattern matches, and a pattern has one exactly when all
-- three optional components are set.
pub exact_key-matches :
    (p : BudgetKeyPattern) (k q : BudgetKey)
    → exact_key p ≡ some k
    → ((matches p q ≡ true) ↔ (k ≡ q)) × (report_key p ≡ k) × (specificity p ≡ 3)
unfolding exact_key matches report_key specificity
exact_key-matches p k q e = ground (
  arith,
  string_eq_iff p.provider q.provider,
  string_eq_iff k.domain q.domain,
  string_eq_iff k.resource q.resource,
  string_eq_iff k.subject q.subject,
)
