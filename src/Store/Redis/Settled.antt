-- ===== src/Store/Redis/Settled.antt =====
-- What `FINISH_SCRIPT` of src/store/redis_store.rs does to an active reservation that is not due.
use budget_warden.Base.{
  ℕ, ◌+◌, ◌<◌, ◌≡◌, ◌≢◌, refl, sym, ap, ◌∙◌, ℤ, pos, leb_ℤ, String, String-discrete, ok, false,
  some, ℕ_discrete, if_pos, if◌then◌else◌,
}
use budget_warden.Store.Memory.{ReservationStatus, active, committed, refunded}
use budget_warden.Store.Redis.{
  Lua, Reservation, Redis, evict, value, update, counted, set_committed, incr_committed,
}
use budget_warden.Store.Redis.Exact.{IsDouble, exact_max}
use budget_warden.Store.Redis.Finishing.{sum_is}
use budget_warden.Store.Redis.Scripts.{and_then as script_then, ◌>>◌, write, answer}
use budget_warden.Store.Redis.Ends.{
  release, set_status, unlist, settle, finish_due, finish_row, finish_status, finish_active,
  finish_script,
}
use budget_warden.Store.Redis.Tally.{active_units, Weight, row_units, units, tally, tally-put}
use budget_warden.Store.Redis.Tracked.{IsTracked, given_out}

-- What commits, and what refunds.
pub data IsFinal : ReservationStatus → Type 0 where
  commits : IsFinal committed
  refunds : IsFinal refunded

pub final-not_active : (s : ReservationStatus) → IsFinal s → s ≢ active
final-not_active _ commits e = cc e
final-not_active _ refunds e = cc e

pub none_active : (s : ReservationStatus) → IsFinal s → (n : ℕ) → active_units s n ≡ 0
none_active _ commits n = refl
none_active _ refunds n = refl

-- The server at the script of a call over a quiet link.
abbrev pub settled_at : ℤ → Redis → Redis
settled_at at r = evict at (evict at r)

module _ (lua : Lua) (double : IsDouble lua) (k : String) (until : ℤ) (ceiling : ℕ)
    (small : ceiling < exact_max) (r : Redis) (t : IsTracked k until ceiling r) (id : ℕ)
    (row : Reservation) (found : r.reservations id ≡ some row) (alive : row.status ≡ active)
    (own : row.counter_key ≡ k) where
  -- The end of the script writes the status, and succeeds.
  settle-writes :
      (target : ReservationStatus)
      → IsFinal target
      → (r' : Redis) × (settle lua target id row r ≡ (ok (pos 1), r'))
        × (r'.sequence ≡ r.sequence)
        × (r'.reservations
            ≡ update ℕ_discrete id (some (record row { status = target })) r.reservations)
  unfolding settle incr_committed release
  settle-writes _ commits = (
    _,
    ap
        (λ n.
          script_then
            (λ _.
              write (set_status lua committed id row) >> (write (unlist lua id) >> answer (pos 1)))
            (counted (set_committed row.counter_key) n (release lua row r)))
        (sum_is lua double k until ceiling small r t id row found alive own),
    refl,
    refl,
  )
  settle-writes _ refunds = (_, refl, refl, refl)

  module _ (target : ReservationStatus) (final : IsFinal target) (now : ℤ)
      (lasts : leb_ℤ row.expires_at now ≡ false) where
    pub finish_script-writes :
        (r' : Redis) × (finish_script lua target id now r ≡ (ok (pos 1), r'))
        × (r'.sequence ≡ r.sequence)
        × (r'.reservations
            ≡ update ℕ_discrete id (some (record row { status = target })) r.reservations)
    unfolding finish_script finish_active
    finish_script-writes =
        let (r', e, seq, rows) = settle-writes target final in
        (
          r',
          ap (λ o. finish_row lua target now id o r) found
              ∙ ap (λ s. finish_status lua target now id row s r) alive
              ∙ ap (λ b. (if b then finish_due lua id row else settle lua target id row) r) lasts
              ∙ e,
          seq,
          rows,
        )

    -- The units of the reservation are no longer held, and spent if they are committed.
    pub counts :
        (w : Weight) (r' : Redis)
        → r'.sequence ≡ r.sequence
        → r'.reservations
          ≡ update ℕ_discrete id (some (record row { status = target })) r.reservations
        → tally w k r' + w active (value row.amount) ≡ tally w k r + w target (value row.amount)
    counts w r' seq rows =
        let before : row_units w k row ≡ w active (value row.amount) =
          if_pos (String-discrete row.counter_key k) own _ _
          ∙ ap (λ s. w s (value row.amount)) alive in
        let after : row_units w k (record row { status = target }) ≡ w target (value row.amount) =
          if_pos (String-discrete row.counter_key k) own _ _ in
        (λ i. tally w k r' + (sym before ∙ ap (units w k) (sym found)) i)
        ∙ tally-put w k r r' (some (record row { status = target })) id seq
            (given_out k until ceiling r t id row found) rows
        ∙ (λ i. tally w k r + after i)
