-- ===== src/BudgetUnit.antt =====
-- src/unit.rs: the unit of a budget.
use budget_warden.Base.{String, String-discrete}

pub data BudgetUnit : Type 0 where
  requests tokens credits cents bytes messages : BudgetUnit
  custom : String → BudgetUnit

-- The derived `PartialEq`.
unfoldable pub BudgetUnit-discrete : Discrete BudgetUnit
unfolding String-discrete
BudgetUnit-discrete = hlevel String-discrete

unfoldable pub as_str : BudgetUnit → String
as_str requests = "requests"
as_str tokens = "tokens"
as_str credits = "credits"
as_str cents = "cents"
as_str bytes = "bytes"
as_str messages = "messages"
as_str (custom value) = value
