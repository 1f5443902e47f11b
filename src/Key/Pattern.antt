-- ===== src/Key/Pattern.antt =====
-- src/key.rs: `BudgetKeyPattern`, the key of a policy, where `none` matches every value.
use budget_warden.Base.{
  ℕ, ◌+◌, String, string_eq, Bool, true, ◌&&◌, Option, none, some, Result, ok, ◌>>◌,
}
use budget_warden.Error.{BudgetError}
use budget_warden.Key.{BudgetKey, validate_component}

pub record BudgetKeyPattern : Type 0 where
  pub provider : String
  pub domain : Option String
  pub resource : Option String
  pub subject : Option String

-- `BudgetKeyPattern::new`
unfoldable pub new_pattern : String → Result BudgetError BudgetKeyPattern
unfolding validate_component
new_pattern provider = do
  validate_component "provider" provider
  ok (record { provider = provider; domain = none; resource = none; subject = none })

abbrev pub with_domain : BudgetKeyPattern → String → BudgetKeyPattern
with_domain p domain = record p { domain = some domain }

abbrev pub with_resource : BudgetKeyPattern → String → BudgetKeyPattern
with_resource p resource = record p { resource = some resource }

abbrev pub with_subject : BudgetKeyPattern → String → BudgetKeyPattern
with_subject p subject = record p { subject = some subject }

abbrev pub matches_optional : Option String → String → Bool
matches_optional none actual = true
matches_optional (some value) actual = string_eq value actual

unfoldable pub matches : BudgetKeyPattern → BudgetKey → Bool
matches p key =
    string_eq p.provider key.provider
    && matches_optional p.domain key.domain
    && matches_optional p.resource key.resource
    && matches_optional p.subject key.subject

-- 1 for a field that is set: what `flatten().count()` counts.
abbrev pub set_fields : Option String → ℕ
set_fields none = 0
set_fields (some _) = 1

unfoldable pub specificity : BudgetKeyPattern → ℕ
specificity p = set_fields p.domain + set_fields p.resource + set_fields p.subject

-- `?` on an `Option` leaves with `None`.
unfoldable pub exact_key : BudgetKeyPattern → Option BudgetKey
exact_key p = elim p.domain [
  | none ↦ none
  | some d ↦ elim p.resource [
    | none ↦ none
    | some r ↦ elim p.subject [
      | none ↦ none
      | some s ↦ some (record { provider = p.provider; domain = d; resource = r; subject = s })
    ]
  ]
]

abbrev pub or_star : Option String → String
or_star none = "*"
or_star (some value) = value

unfoldable pub report_key : BudgetKeyPattern → BudgetKey
report_key p = record {
  provider = p.provider;
  domain = or_star p.domain;
  resource = or_star p.resource;
  subject = or_star p.subject;
}
