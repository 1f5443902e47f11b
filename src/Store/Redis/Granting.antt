-- ===== src/Store/Redis/Granting.antt =====
-- `RESERVE_SCRIPT` of src/store/redis_store.rs keeps the invariant of a counter, and what it answers.
use budget_warden.Base.{
  ℕ, ◌+◌, ◌<◌, ◌≡◌, refl, ltb, ℤ, leb_ℤ, String, string_eq, Bool-cases, Option, none, some, inl,
  inr, false,
}
use budget_warden.Store.Memory.{ReservationStatus, active, committed, refunded, expired}
use budget_warden.Store.Redis.{Lua, Reservation, Redis}
use budget_warden.Store.Redis.Exact.{IsDouble, exact_max}
use budget_warden.Store.Redis.Scripts.{
  ReserveCall, committed_at, reserved_at, reserve_new, replay, replay_found, replay_id,
  reserve_script,
}
use budget_warden.Store.Redis.Settling.{same-IsTracked}
use budget_warden.Store.Redis.Tracked.{IsTracked}
use budget_warden.Store.Redis.Entering.{Keeps, enter_rule}

module _ (lua : Lua) (double : IsDouble lua) (k : String) (until : ℤ) (ceiling : ℕ)
    (small : ceiling < exact_max) (c : ReserveCall) (at : ℤ) (before : leb_ℤ until at ≡ false)
    (keeps : Keeps k until ceiling c) where
  pub reserve_new-IsTracked :
      (r : Redis)
      → IsTracked k until ceiling r
      → IsTracked k until ceiling (reserve_new lua c at r).1
  unfolding reserve_new
  reserve_new-IsTracked r t =
      let used = committed_at lua c.counter_key r in
      let reserved = reserved_at lua c.counter_key r in
      elim (Bool-cases (
        ltb (lua.number c.effective_limit)
          (lua.number (lua.number (used + reserved) + lua.number c.amount)))) [
            | inl e ↦ rw e t
            | inr e ↦
                rw e (
                  enter_rule lua double k until ceiling small c at before keeps r t e used reserved)
          ]

  replay-IsTracked :
      (id : ℕ) (row' : Reservation) (s : ReservationStatus) (r : Redis)
      → IsTracked k until ceiling r
      → IsTracked k until ceiling (replay lua c at id row' s r).1
  replay-IsTracked id row' active r t = t
  replay-IsTracked id row' committed r t = t
  replay-IsTracked id row' refunded r t = reserve_new-IsTracked r t
  replay-IsTracked id row' expired r t = reserve_new-IsTracked r t

  replay_found-IsTracked :
      (id : ℕ) (o : Option Reservation) (r : Redis)
      → IsTracked k until ceiling r
      → IsTracked k until ceiling (replay_found lua c at id o r).1
  replay_found-IsTracked id none r t =
      reserve_new-IsTracked _ (same-IsTracked k until ceiling r _ t refl refl refl)
  replay_found-IsTracked id (some row') r t = replay-IsTracked id row' row'.status r t

  replay_id-IsTracked :
      (o : Option ℕ) (r : Redis)
      → IsTracked k until ceiling r
      → IsTracked k until ceiling (replay_id lua c at o r).1
  replay_id-IsTracked none r t = reserve_new-IsTracked r t
  replay_id-IsTracked (some id) r t = replay_found-IsTracked id (r.reservations id) r t

  pub reserve_script-IsTracked :
      (r : Redis)
      → IsTracked k until ceiling r
      → IsTracked k until ceiling (reserve_script lua c at r).1
  unfolding reserve_script
  reserve_script-IsTracked r t = elim (Bool-cases (string_eq c.idempotency "")) [
    | inl e ↦ rw e (reserve_new-IsTracked r t)
    | inr e ↦ rw e (replay_id-IsTracked ((r.idempotency c.idempotency_key).ids c.idempotency) r t)
  ]
