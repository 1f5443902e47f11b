-- ===== src/Store/Redis.antt =====
-- What src/store/redis_store.rs keeps in a Redis server, and the commands of its scripts.
--
-- A map is a function from the texts, or the numbers, that its keys are made of. A hash that is not
-- there reads as one whose fields are 0. Instants of the server are in milliseconds, those that the
-- scripts are given in seconds. Identifiers are below 10^14, so that Lua writes all their digits, and
-- members of the sorted set that have one score are in the order in which they came.
pub mod Tally
pub mod Scripts
pub mod Ends
pub mod Requests
pub mod Calls
pub mod Exact
pub mod Tracked
pub mod Settling
pub mod Finishing
pub mod Entering
pub mod Granting
pub mod Answers
pub mod Reach
pub mod Preserving
pub mod History
pub mod Quiet
pub mod Members
pub mod Listed
pub mod Listing
pub mod Clearing
pub mod Remembering
pub mod Retrying
pub mod Settled
pub mod Ending
use budget_warden.Base.{
  ℕ, suc, ◌+◌, ◌*◌, ◌-◌, leb, ltb, ℤ, pos, negsuc, leb_ℤ, ◌==◌, String, String-discrete, Bool, true,
  false, Option, none, some, List, [], ◌∷◌, Result, ok, err, panic, ite, if◌then◌else◌, ℕ_discrete,
}
use budget_warden.Store.Codec.{i64_max}
use budget_warden.Store.Memory.{ReservationStatus}

-- The text of a number in a field: its digits, or one with an exponent, which no command counts with.
pub data Field : Type 0 where
  digits exponent : ℕ → Field

abbrev pub value : Field → ℕ
value (digits n) = n
value (exponent n) = n

-- What the scripts' language is to the program. Its numbers are doubles: `number` is the one next to
-- a whole number, `text` what a command is given of it, `reply` the integer that a script answers for
-- it.
pub record Lua : Type 0 where
  pub number : ℕ → ℕ
  pub text : ℕ → Field
  pub reply : ℕ → ℤ
  pub overflow_error : String
  pub integer_error : String

-- The hash of a counter, and when it is removed.
pub record Counter : Type 0 where
  pub committed : ℕ
  pub reserved : Field
  pub deadline : Option ℤ

-- The hash of a reservation. `expires_at` is in seconds.
pub record Reservation : Type 0 where
  pub counter_key : String
  pub amount : Field
  pub status : ReservationStatus
  pub expires_at : ℤ
  pub deadline : Option ℤ

-- The hash from the idempotency keys of a counter to identifiers.
pub record Keyed : Type 0 where
  pub ids : String → Option ℕ
  pub deadline : Option ℤ

-- `expirations` is the sorted set, a score with each member.
pub record Redis : Type 0 where
  pub counters : String → Counter
  pub reservations : ℕ → Option Reservation
  pub expirations : List (ℤ × ℕ)
  pub idempotency : String → Keyed
  pub sequence : ℕ

abbrev pub no_counter : Counter
no_counter = record { committed = 0; reserved = digits 0; deadline = none }

abbrev pub no_keys : Keyed
no_keys = record { ids = λ k. none; deadline = none }

abbrev pub fresh : Redis
fresh = record {
  counters = λ k. no_counter;
  reservations = λ id. none;
  expirations = [];
  idempotency = λ k. no_keys;
  sequence = 0;
}

module _ {K V : Type 0} (dec : Discrete K) where
  abbrev pub update : K → V → (K → V) → K → V
  update k v f j = ite (dec k j) v (f j)

-- `s` seconds, in milliseconds.
abbrev pub millis : ℤ → ℤ
millis (pos n) = pos (n * 1000)
millis (negsuc n) = negsuc (suc n * 1000 - 1)

-- A key outlives an instant: the server removes it when its deadline has passed.
abbrev pub outlives : ℤ → Option ℤ → Bool
outlives at none = true
outlives at (some deadline) = leb_ℤ at deadline

abbrev pub if_there : {A : Type 0} → (A → Bool) → Option A → Option A
if_there test none = none
if_there test (some a) = if test a then some a else none

-- What is left at an instant of the server.
unfoldable pub evict : ℤ → Redis → Redis
evict at r = record r {
  counters = λ k. if outlives at (r.counters k).deadline then r.counters k else no_counter;
  reservations = λ id. if_there (λ row. outlives at row.deadline) (r.reservations id);
  idempotency = λ k. if outlives at (r.idempotency k).deadline then r.idempotency k else no_keys;
}

-- `EXPIREAT` at an instant of the server: a deadline that is not ahead removes the key at once.
abbrev pub expire_counter : ℤ → ℤ → Counter → Counter
expire_counter at deadline c =
    if leb_ℤ (millis deadline) at
    then no_counter
    else record c { deadline = some (millis deadline) }

abbrev pub expire_keys : ℤ → ℤ → Keyed → Keyed
expire_keys at deadline i =
    if leb_ℤ (millis deadline) at then no_keys else record i { deadline = some (millis deadline) }

abbrev pub expire_reservation : ℤ → ℤ → Reservation → Option Reservation
expire_reservation at deadline row =
    if leb_ℤ (millis deadline) at
    then none
    else some (record row { deadline = some (millis deadline) })

-- A script answers, or fails, and what it has written stays.
abbrev pub Script : Type 0 → Type 0
Script A = Redis → Result String A × Redis

-- `INCR` of the sequence.
unfoldable pub incr : Lua → Script ℕ
incr lua r =
    if leb (suc r.sequence) i64_max
    then (ok (suc r.sequence), record r { sequence = suc r.sequence })
    else (err lua.overflow_error, r)

-- The sum of `HINCRBY`.
abbrev pub hincrby : Lua → Field → Field → Result String ℕ
hincrby lua (digits n) (digits m) =
    if leb (n + m) i64_max then ok (n + m) else err lua.overflow_error
hincrby lua (digits n) (exponent m) = err lua.integer_error
hincrby lua (exponent n) f = err lua.integer_error

-- `HINCRBY` of the two fields of a counter.
abbrev pub set_reserved : String → Field → Redis → Redis
set_reserved k f r = record r {
  counters = update String-discrete k (record (r.counters k) { reserved = f }) r.counters;
}

abbrev pub set_committed : String → ℕ → Redis → Redis
set_committed k n r = record r {
  counters = update String-discrete k (record (r.counters k) { committed = n }) r.counters;
}

abbrev pub counted :
    (ℕ → Redis → Redis) → Result String ℕ → Redis → Result String (Unit {0}) × Redis
counted write (ok n) r = (ok tt, write n r)
counted write (err e) r = (err e, r)
counted write panic r = (panic, r)

unfoldable pub incr_reserved : Lua → String → Field → Script (Unit {0})
unfolding String-discrete
incr_reserved lua k by r =
    counted (λ n. set_reserved k (digits n)) (hincrby lua (r.counters k).reserved by) r

unfoldable pub incr_committed : Lua → String → Field → Script (Unit {0})
unfolding String-discrete
incr_committed lua k by r =
    counted (set_committed k) (hincrby lua (digits (r.counters k).committed) by) r

-- `ZREM`, and `ZADD` of a member that is not in the set.
unfoldable pub zrem : ℕ → List (ℤ × ℕ) → List (ℤ × ℕ)
zrem id [] = []
zrem id ((score, j) ∷ z) = let rest = zrem id z in if j == id then rest else (score, j) ∷ rest

unfoldable pub zadd : ℤ → ℕ → List (ℤ × ℕ) → List (ℤ × ℕ)
zadd score id [] = (score, id) ∷ []
zadd score id ((s, j) ∷ z) =
    let rest = zadd score id z in if leb_ℤ s score then (s, j) ∷ rest else (score, id) ∷ (s, j) ∷ z

-- `ZRANGEBYSCORE` from `-inf`.
unfoldable pub due : ℤ → List (ℤ × ℕ) → List ℕ
due now [] = []
due now ((score, id) ∷ z) = let rest = due now z in if leb_ℤ score now then id ∷ rest else rest
