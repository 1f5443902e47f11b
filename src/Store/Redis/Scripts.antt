-- ===== src/Store/Redis/Scripts.antt =====
-- How the scripts of src/store/redis_store.rs are written down, and the one that reserves, which is run at
-- an instant of the server.
use budget_warden.Base.{
  ℕ, ◌+◌, ltb, ℤ, pos, String, String-discrete, string_eq, Option, none, some, Result, ok, err,
  panic, if◌then◌else◌, ℕ_discrete,
}
use budget_warden.Store.Memory.{ReservationStatus, active, committed, refunded, expired}
use budget_warden.Store.Redis.{
  value, Lua, Reservation, Keyed, Redis, Script, update, expire_counter, expire_keys,
  expire_reservation, incr, incr_reserved, zadd,
}

-- The keys and the arguments of the script that reserves.
pub record ReserveCall : Type 0 where
  pub counter_key : String
  pub idempotency_key : String
  pub amount : ℕ
  pub effective_limit : ℕ
  pub expires_at : ℤ
  pub idempotency : String
  pub retention_expires_at : ℤ

-- What it answers: a reservation, or none, and the usage.
pub record Values : Type 0 where
  pub granted : ℤ
  pub id : ℤ
  pub committed : ℤ
  pub reserved : ℤ
  pub expires_at : ℤ

abbrev pub and_then :
    {A B : Type 0} → (A → Script B) → Result String A × Redis → Result String B × Redis
and_then f (ok a, r) = f a r
and_then f (err e, r) = (err e, r)
and_then f (panic, r) = (panic, r)

infixl 5 ◌>>=◌ ◌>>◌
abbrev pub ◌>>=◌ : {A B : Type 0} → Script A → (A → Script B) → Script B
◌>>=◌ m f r = and_then f (m r)

abbrev pub ◌>>◌ : {B : Type 0} → Script (Unit {0}) → Script B → Script B
m >> k = m >>= λ _. k

abbrev pub write : (Redis → Redis) → Script (Unit {0})
write f r = (ok tt, f r)

abbrev pub answer : {A : Type 0} → A → Script A
answer a r = (ok a, r)

-- `HSET` and `EXPIREAT` of an idempotency key.
abbrev pub remember : ReserveCall → ℤ → ℕ → (String → Keyed) → String → Keyed
remember c at id keys =
    if string_eq c.idempotency ""
    then keys
    else update String-discrete c.idempotency_key
        (expire_keys at c.retention_expires_at (record (keys c.idempotency_key) {
          ids = update String-discrete c.idempotency (some id) (keys c.idempotency_key).ids;
        }))
        keys

-- `HDEL`. The hash that loses its last field goes with its deadline, which here stays until the next
-- write of a key sets another: nothing reads it before.
abbrev pub forget : String → String → Redis → Redis
forget k name r = record r {
  idempotency =
      update String-discrete k
        (record (r.idempotency k) { ids = update String-discrete name none (r.idempotency k).ids })
        r.idempotency;
}

abbrev pub put_reservation : ℕ → Option Reservation → Redis → Redis
put_reservation id row r = record r { reservations = update ℕ_discrete id row r.reservations }

module _ (lua : Lua) where
  -- `tonumber(redis.call('HGET', counter_key, …) or '0')`
  abbrev pub committed_at : String → Redis → ℕ
  committed_at k r = lua.number (r.counters k).committed

  abbrev pub reserved_at : String → Redis → ℕ
  reserved_at k r = lua.number (value (r.counters k).reserved)

  -- The hash of the new reservation, with its deadline: a key whose deadline is not ahead is removed
  -- at once.
  abbrev pub new_row : ReserveCall → ℤ → Option Reservation
  new_row c at = expire_reservation at c.retention_expires_at (record {
    counter_key = c.counter_key;
    amount = lua.text (lua.number c.amount);
    status = active;
    expires_at = c.expires_at;
    deadline = none;
  })

  -- What is written after the counter, all under different keys.
  abbrev pub written : ReserveCall → ℤ → ℕ → Redis → Redis
  written c at id r = record r {
    reservations = update ℕ_discrete id (new_row c at) r.reservations;
    expirations = zadd c.expires_at id r.expirations;
    counters =
        update String-discrete c.counter_key
          (expire_counter at c.retention_expires_at (r.counters c.counter_key)) r.counters;
    idempotency = remember c at id r.idempotency;
  }

  -- From `INCR` on.
  unfoldable pub enter : ReserveCall → ℤ → ℕ → ℕ → Script Values
  unfolding incr incr_reserved zadd String-discrete ℕ_discrete
  enter c at used held = do
    id ← incr lua
    incr_reserved lua c.counter_key (lua.text (lua.number c.amount))
    write (written c at id)
    answer (record {
      granted = pos 1;
      id = pos id;
      committed = lua.reply used;
      reserved = lua.reply (lua.number (held + lua.number c.amount));
      expires_at = c.expires_at;
    })

  -- From the comparison with the limit on.
  unfoldable pub reserve_new : ReserveCall → ℤ → Script Values
  unfolding enter
  reserve_new c at r =
      let used = committed_at c.counter_key r in
      let held = reserved_at c.counter_key r in
      if ltb (lua.number c.effective_limit)
        (lua.number (lua.number (used + held) + lua.number c.amount))
      then (
        ok (record {
          granted = pos 0;
          id = pos 0;
          committed = lua.reply used;
          reserved = lua.reply held;
          expires_at = pos 0;
        }),
        r,
      )
      else enter c at used held r

  -- The tests on the status of the reservation that a key stands for.
  abbrev pub replay : ReserveCall → ℤ → ℕ → Reservation → ReservationStatus → Script Values
  replay c at id row active r = (
    ok (record {
      granted = pos 1;
      id = pos id;
      committed = lua.reply (committed_at c.counter_key r);
      reserved = lua.reply (reserved_at c.counter_key r);
      expires_at = row.expires_at;
    }),
    r,
  )
  replay c at id row committed r = (
    ok (record {
      granted = pos 1;
      id = pos id;
      committed = lua.reply (committed_at c.counter_key r);
      reserved = lua.reply (reserved_at c.counter_key r);
      expires_at = row.expires_at;
    }),
    r,
  )
  replay c at id row refunded r = reserve_new c at r
  replay c at id row expired r = reserve_new c at r

  abbrev pub replay_found : ReserveCall → ℤ → ℕ → Option Reservation → Script Values
  replay_found c at id none r = reserve_new c at (forget c.idempotency_key c.idempotency r)
  replay_found c at id (some row) r = replay c at id row row.status r

  abbrev pub replay_id : ReserveCall → ℤ → Option ℕ → Script Values
  replay_id c at none r = reserve_new c at r
  replay_id c at (some id) r = replay_found c at id (r.reservations id) r

  -- `RESERVE_SCRIPT`
  unfoldable pub reserve_script : ReserveCall → ℤ → Script Values
  unfolding reserve_new String-discrete
  reserve_script c at r =
      if string_eq c.idempotency ""
      then reserve_new c at r
      else replay_id c at ((r.idempotency c.idempotency_key).ids c.idempotency) r
