-- ===== src/Tests/Pacing.antt =====
-- Runs of src/pacing/evaluate.rs.
use budget_warden.Base.{◌≤◌, ◌↔◌, refl, arith, saturating_add, pos, ◌-ℤ◌}
use budget_warden.Pacing.{evaluate_policy, percent_of, paced_limit}
use budget_warden.Pacing.Limits.{evaluate_policy-bounds}
use budget_warden.Pacing.Decisions.{
  Allows, Paced, pace, preserve-Allows_iff, critical_allowed_iff, Allows-priority,
}
use budget_warden.Pacing.Pace.{Allows-later}
use budget_warden.Priority.{normal, important, critical}
use budget_warden.Tests.Data.{utc, utc-millis, careful, careful_policy, first_minute, noon}

evaluate_policy-bounds_example :
    let e = evaluate_policy utc careful_policy 4 3 normal first_minute noon in
    (e.effective_limit ≤ 10) × (e.safe_to_spend_now ≤ 6)
evaluate_policy-bounds_example =
    evaluate_policy-bounds utc careful_policy 4 3 normal first_minute noon

-- At half the window five units are on the pace and two may be ahead of it.
three_fit : Allows utc careful_policy 4 3 normal first_minute noon
unfolding evaluate_policy percent_of paced_limit ◌-ℤ◌
three_fit = refl

preserve-Allows_iff_example :
    Allows utc careful_policy 4 3 normal first_minute noon
    ↔ Paced careful 10 (pace utc careful 10 first_minute noon) 7
preserve-Allows_iff_example =
    preserve-Allows_iff utc careful_policy careful 4 3 normal first_minute noon refl (omega arith)
      (omega arith)

critical_allowed_iff_example :
    Allows utc careful_policy 4 6 critical first_minute noon ↔ (saturating_add 4 6 ≤ 10)
critical_allowed_iff_example = critical_allowed_iff utc careful_policy 4 6 first_minute noon

Allows-priority_example : Allows utc careful_policy 4 3 important first_minute noon
Allows-priority_example =
    Allows-priority utc careful_policy 4 3 normal important first_minute noon (omega arith)
      three_fit

Allows-later_example : Allows utc careful_policy 4 3 normal first_minute (pos 45_000_000_000)
Allows-later_example =
    Allows-later utc utc-millis careful_policy 4 3 normal first_minute noon (pos 45_000_000_000)
      (omega arith) three_fit
