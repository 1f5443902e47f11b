-- ===== src/Store/Redis/Calls.antt =====
-- The calls of src/store/redis_store.rs, each a sequence of requests to the pool and to the server.
use budget_warden.Base.{
  ℕ, zero, suc, ◌/◌, ◌%◌, ◌==◌, ltb, ◌+ℤ◌, ℤ, pos, negsuc, String, append, Bool, false, Option,
  none, some, Result, ok, err, ok_or, if◌then◌else◌,
}
use budget_warden.Error.{StoreError, not_found, other}
use budget_warden.Error
use budget_warden.Ids.{ReservationId, IdempotencyKey}
use budget_warden.Store.{
  StoreKey, StoreReservationResult, CounterUsage, ReserveRequest, BudgetStore, allowed, denied,
  validate,
}
use budget_warden.Store.Codec.{to_i64, id_from_i64, usage_from_i64, key}
use budget_warden.Store.Memory.{ReservationStatus, committed, refunded}
use budget_warden.Store.Redis.{Lua}
use budget_warden.Store.Redis.Scripts.{ReserveCall, Values, reserve_script}
use budget_warden.Store.Redis.Ends.{cleanup_script, finish_script, usage_script}
use budget_warden.Time.{Timestamp, Chrono}
use budget_warden.Window.{WindowBounds}
use budget_warden.Store.Redis.Requests.{Link, Call, ◌>>=◌, ◌>>◌, lift, invoke, acquire}

-- How `format!` writes a whole number; an `i64` has at most nineteen digits.
abbrev digit : ℕ → String
digit n =
    if n == 0
    then "0"
    else if n == 1
    then "1"
    else if n == 2
    then "2"
    else if n == 3
    then "3"
    else if n == 4
    then "4"
    else if n == 5
    then "5"
    else if n == 6
    then "6"
    else if n == 7
    then "7"
    else if n == 8
    then "8"
    else "9"

unfoldable pub decimal_digits : ℕ → ℕ → String
decimal_digits zero n = ""
decimal_digits (suc fuel) n =
    let higher = decimal_digits fuel (n / 10) in
    if ltb n 10 then digit n else append higher (digit (n % 10))

abbrev pub decimal : ℤ → String
decimal (pos n) = decimal_digits 20 n
decimal (negsuc n) = append "-" (decimal_digits 20 (suc n))

abbrev pub or_empty : Option IdempotencyKey → String
or_empty none = ""
or_empty (some name) = name

module _ (chrono : Chrono) (lua : Lua) where
  unfoldable pub redis_counter_key : StoreKey → WindowBounds → String
  unfolding key decimal_digits
  redis_counter_key k window = append "budget-warden:counter:" (
      append (key k) (
        append ":" (
          append (decimal (chrono.timestamp window.start))
            (append ":" (decimal (chrono.timestamp window.end))))))

  abbrev pub redis_idempotency_key : StoreKey → WindowBounds → String
  redis_idempotency_key k window = append (redis_counter_key k window) ":idempotency"

  abbrev pub discard : ℤ → Call (Unit {0})
  discard n = lift (ok tt)

  unfoldable pub cleanup_expired : Timestamp → Call (Unit {0})
  unfolding invoke cleanup_script
  cleanup_expired now = invoke (λ at. cleanup_script lua (chrono.timestamp now)) >>= discard

  -- The keys and the arguments that the script is given.
  abbrev pub reserve_call : ReserveRequest → ℕ → ℕ → ReserveCall
  reserve_call request amount effective_limit = record {
    counter_key = redis_counter_key request.key request.window;
    idempotency_key = redis_idempotency_key request.key request.window;
    amount = amount;
    effective_limit = effective_limit;
    expires_at = chrono.timestamp (request.now +ℤ request.reservation_ttl);
    idempotency = or_empty request.idempotency_key;
    retention_expires_at = chrono.timestamp (request.window.end +ℤ request.reservation_ttl);
  }

  abbrev pub granted : Values → CounterUsage → Call StoreReservationResult
  granted values usage = do
    id ← lift (id_from_i64 values.id)
    expires_at ←
        lift
          (ok_or (chrono.from_timestamp values.expires_at) (other "redis returned invalid expiry"))
    lift (ok (allowed (record { id = id; expires_at = expires_at }) usage))

  abbrev pub is_zero : ℤ → Bool
  is_zero (pos n) = n == 0
  is_zero (negsuc n) = false

  -- What is made of the script's answer.
  unfoldable pub read_values : Values → Call StoreReservationResult
  unfolding usage_from_i64 id_from_i64
  read_values values = do
    usage ← lift (usage_from_i64 values.committed values.reserved)
    if is_zero values.granted then lift (ok (denied usage)) else granted values usage

  unfoldable pub reserve_if_allowed : ReserveRequest → Call StoreReservationResult
  unfolding validate to_i64 acquire cleanup_expired invoke reserve_script read_values
      redis_counter_key
  reserve_if_allowed request = do
    lift (validate request)
    acquire
    amount ← lift (to_i64 request.amount "amount")
    effective_limit ← lift (to_i64 request.effective_limit "effective limit")
    cleanup_expired request.now
    values ← invoke (reserve_script lua (reserve_call request amount effective_limit))
    read_values values

  -- The `match` on the script's answer.
  abbrev pub finish_result : ℤ → Result StoreError (Unit {0})
  finish_result (pos n) =
      if n == 0
      then err not_found
      else if n == 1
      then ok tt
      else if n == 2
      then ok tt
      else err (other "unexpected redis finish result")
  finish_result (negsuc n) =
      if n == 0 then err Error.expired else err (other "unexpected redis finish result")

  -- `now` is what `Utc::now()` reads.
  unfoldable pub finish : ReservationStatus → ReservationId → Timestamp → Call (Unit {0})
  unfolding acquire to_i64 invoke finish_script
  finish status reservation_id now = do
    acquire
    id ← lift (to_i64 reservation_id "reservation id")
    result ← invoke (λ at. finish_script lua status id (chrono.timestamp now))
    lift (finish_result result)

  unfoldable pub usage : StoreKey → WindowBounds → Timestamp → Call CounterUsage
  unfolding acquire cleanup_expired invoke usage_script usage_from_i64 redis_counter_key
  usage k window now = do
    acquire
    cleanup_expired now
    values ← invoke (λ at. usage_script lua (redis_counter_key k window))
    lift (usage_from_i64 values.0 values.1)

  -- `impl BudgetStore for RedisStore`
  abbrev pub redis_store : BudgetStore Link
  redis_store = record {
    reserve_if_allowed = reserve_if_allowed;
    commit = finish committed;
    refund = finish refunded;
    usage = usage;
  }
