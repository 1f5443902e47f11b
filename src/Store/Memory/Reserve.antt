-- ===== src/Store/Memory/Reserve.antt =====
-- src/store/memory.rs: `reserve_if_allowed` under the write lock.
use budget_warden.Base.{
  ltb, saturating_add, ◌+ℤ◌, Option, none, some, Result, ok, err, panic, if◌then◌else◌, ℕ_discrete,
}
use budget_warden.Base.Map.{HashMap, get, insert}
use budget_warden.Error.{StoreError}
use budget_warden.Ids.{ReservationId, IdempotencyKey}
use budget_warden.Store.{
  StoreReservationResult, CounterUsage, ReserveRequest, used, allowed, denied,
}
use budget_warden.Store.Memory.{
  CounterKey, CounterKey-discrete, index-discrete, counter_key, ReservationStatus, active,
  committed, refunded, expired, ReservationRecord, MemoryState, counter_at, usage_of,
  usage_for_counter, next_reservation_id, cleanup_expired,
}

-- The `match` of `replay_existing_reservation`.
abbrev pub replay_status :
    ReservationId → ReservationRecord → ReservationStatus → CounterUsage → StoreReservationResult
replay_status id r active u = allowed (record { id = id; expires_at = r.expires_at }) u
replay_status id r committed u = allowed (record { id = id; expires_at = r.expires_at }) u
replay_status id r refunded u = denied u
replay_status id r expired u = denied u

unfoldable pub replay_existing_reservation :
    MemoryState → ReservationId → CounterKey → StoreReservationResult
replay_existing_reservation s id k = elim (get ℕ_discrete id s.reservations) [
  | none ↦ denied (usage_for_counter s k)
  | some r ↦ replay_status id r r.status (usage_for_counter s k)
]

-- The lookup of the idempotency key, where the request has one.
unfoldable pub existing : MemoryState → CounterKey → Option IdempotencyKey → Option ReservationId
existing s k none = none
existing s k (some key) = get index-discrete (k, key) s.idempotency

abbrev pub remember :
    CounterKey
    → Option IdempotencyKey
    → ReservationId
    → HashMap (CounterKey × IdempotencyKey) ReservationId
    → HashMap (CounterKey × IdempotencyKey) ReservationId
remember k none id m = m
remember k (some key) id m = insert index-discrete (k, key) id m

-- The reservation is entered under the new identifier.
unfoldable pub enter :
    ReserveRequest
    → CounterKey
    → ReservationId
    → MemoryState
    → Result StoreError StoreReservationResult × MemoryState
enter req k id s =
    let old = counter_at s.counters k in
    let counter = record old { reserved = saturating_add old.reserved req.amount } in
    let expires_at = req.now +ℤ req.reservation_ttl in
    (
      ok (allowed (record { id = id; expires_at = expires_at }) (usage_of counter)),
      record s {
        counters = insert CounterKey-discrete k counter s.counters;
        reservations =
            insert ℕ_discrete id
              (record {
                counter_key = k;
                amount = req.amount;
                expires_at = expires_at;
                status = active;
              })
              s.reservations;
        idempotency = remember k req.idempotency_key id s.idempotency;
      },
    )

-- The part of `reserve_if_allowed` below the replay.
unfoldable pub reserve_new :
    ReserveRequest
    → CounterKey
    → MemoryState
    → Result StoreError StoreReservationResult × MemoryState
unfolding enter next_reservation_id
reserve_new req k s =
    let usage = usage_for_counter s k in
    if ltb req.effective_limit (saturating_add (used usage) req.amount)
    then (ok (denied usage), s)
    else (elim (next_reservation_id s) [
      | ok (id, s') ↦ enter req k id s'
      | err e ↦ (err e, s)
      | panic ↦ (panic, s)
    ])

-- `reserve_if_allowed`, once the lock is held.
unfoldable pub reserve_locked :
    ReserveRequest → MemoryState → Result StoreError StoreReservationResult × MemoryState
unfolding cleanup_expired existing replay_existing_reservation reserve_new
reserve_locked req s0 =
    let s = cleanup_expired req.now s0 in
    let k = counter_key req.key req.window in
    elim (existing s k req.idempotency_key) [
      | some id ↦ (ok (replay_existing_reservation s id k), s)
      | none ↦ reserve_new req k s
    ]
