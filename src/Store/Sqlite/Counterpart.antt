-- ===== src/Store/Sqlite/Counterpart.antt =====
-- `commit` and `refund` of src/store/memory.rs as the counterparts of those of src/store/sqlite.rs.
use budget_warden.Base.{
  ℕ, ◌≤◌, ◌≡◌, refl, ap, ◌∙◌, arith, none, some, Bool, true, false, ok, err, ℕ_discrete, Result,
  ◌⊎◌,
}
use budget_warden.Base.Map.{get}
use budget_warden.Error.{StoreError, not_found}
use budget_warden.Error
use budget_warden.Store.Memory
use budget_warden.Store.Memory.{
  CounterKey, MemoryState, ReservationRecord, is_due, cleanup_expired, release,
}
use budget_warden.Store.Memory.Finish.{commit_locked, refund_locked, finish}
use budget_warden.Store.Memory.Lapse.{get-lapse, cleanup_expired-reservations}
use budget_warden.Store.Memory.Ledger.{
  get-cleanup, commit_locked-Settles, refund_locked-Settles, run_out_refused, settled_once,
}
use budget_warden.Store.Memory.Settling.{finish-Finishes, Finishes-too_late}
use budget_warden.Store.Memory.Valid.{IsValid}
use budget_warden.Store.Sql.{Status, other_status}
use budget_warden.Store.Sql.View.{view_status}
use budget_warden.Store.Sqlite.Finish.{
  FinishAction, commits, refunds, committed_delta, final_status,
}
use budget_warden.Store.Sqlite.Finishing.{memory_settle}
use budget_warden.Time.{Timestamp}

pub committed_delta-le :
    (action : FinishAction) (amount : ℕ) → committed_delta action amount ≤ amount
committed_delta-le commits amount = omega arith
committed_delta-le refunds amount = omega arith

-- The same call of the store in memory.
abbrev pub finish_in_memory :
    FinishAction → ℕ → Timestamp → MemoryState → Result StoreError (Unit {0}) × MemoryState
finish_in_memory commits = commit_locked
finish_in_memory refunds = refund_locked

abbrev pub is_known : Status → Bool
is_known (other_status word) = false
is_known _ = true

in_memory :
    (action : FinishAction)
    → finish_in_memory action ≡ finish (memory_settle action) (view_status (final_status action))
unfolding commit_locked refund_locked
in_memory commits = refl
in_memory refunds = refl

-- The store in memory, where there is no reservation, or one that has expired.
module _ (action : FinishAction) (id : ℕ) (now : Timestamp) (s : MemoryState) (v : IsValid s) where
  pub missing_in_memory :
      get ℕ_discrete id s.reservations ≡ none → (finish_in_memory action id now s).0 ≡ err not_found
  unfolding finish
  missing_in_memory n =
      let gone : get ℕ_discrete id (cleanup_expired now s).reservations ≡ none = ground (
        arith,
        ap (get ℕ_discrete id) (cleanup_expired-reservations now s v.distinct),
        get-lapse now id s.reservations,
      ) in
      rw (in_memory action, gone, finish) refl

  pub expired_in_memory :
      (r : ReservationRecord)
      → get ℕ_discrete id s.reservations ≡ some r
      → r.status ≡ Memory.expired
      → (finish_in_memory action id now s).0 ≡ err Error.expired
  expired_in_memory r found a =
      let e : get ℕ_discrete id (cleanup_expired now s).reservations ≡ some r =
        ground (arith, get-cleanup now id r s v found) in
      ap (λ x. x.0)
        (ap (λ f. f id now s) (in_memory action)
          ∙ Finishes-too_late id (cleanup_expired now s) r e a (
              finish-Finishes (memory_settle action) (view_status (final_status action)) id now s
                v))

module _ (id : ℕ) (now : Timestamp) (s : MemoryState) (v : IsValid s) (r : ReservationRecord)
    (found : get ℕ_discrete id s.reservations ≡ some r) where
  pub settled_in_memory :
      (r.status ≡ Memory.committed) ⊎ (r.status ≡ Memory.refunded)
      → (action : FinishAction) → (finish_in_memory action id now s).0 ≡ ok tt
  settled_in_memory a commits = ap (λ x. x.0) (settled_once id now s r v found a).0
  settled_in_memory a refunds = ap (λ x. x.0) (settled_once id now s r v found a).1

  pub refused_in_memory :
      r.status ≡ Memory.active
      → is_due now r ≡ true
      → (action : FinishAction) → (finish_in_memory action id now s).0 ≡ err Error.expired
  refused_in_memory a due commits = ap (λ x. x.0) (run_out_refused id now s r v found a due).0
  refused_in_memory a due refunds = ap (λ x. x.0) (run_out_refused id now s r v found a due).1

  pub accepted_in_memory :
      r.status ≡ Memory.active
      → is_due now r ≡ false
      → (action : FinishAction) → (finish_in_memory action id now s).0 ≡ ok tt
  accepted_in_memory a lasts commits = (commit_locked-Settles id now s r v found a lasts).0
  accepted_in_memory a lasts refunds = (refund_locked-Settles id now s r v found a lasts).0
