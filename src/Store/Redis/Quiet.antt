-- ===== src/Store/Redis/Quiet.antt =====
-- The calls of src/store/redis_store.rs when no request fails and nobody else runs a script.
use budget_warden.Base.{
  ℕ, suc, ◌+◌, ◌≤◌, ◌<◌, ◌≡◌, refl, ap, ◌∙◌, arith, leb, ℤ, ◌+ℤ◌, leb_ℤ, String, Bool, Bool-cases,
  ok, inl, inr, true, false, none, some, [], if◌then◌else◌,
}
use budget_warden.Store.{StoreKey, StoreReservationResult, ReserveRequest, allowed, denied}
use budget_warden.Store.Checks.{IsSound, validate_sound}
use budget_warden.Store.Codec.{i64_max, to_i64, id_from_i64, usage_from_i64}
use budget_warden.Store.Redis.{Lua, Redis, evict, value}
use budget_warden.Store.Redis.Answers.{reserve_new-answers, granting, denying}
use budget_warden.Store.Redis.Calls.{
  cleanup_expired, reserve_call, read_values, redis_counter_key, reserve_if_allowed, usage,
}
use budget_warden.Store.Redis.Requests.{Link, and_then, told, invoke, acquire}
use budget_warden.Store.Redis.Exact.{IsDouble, exact_max, reply-exact}
use budget_warden.Store.Redis.Preserving.{KeepsRequest, reserve_call-Keeps}
use budget_warden.Store.Redis.Reach.{Reach, removes, cleans, Reach-IsTracked}
use budget_warden.Store.Redis.Scripts.{ReserveCall, reserve_new, reserve_script}
use budget_warden.Store.Redis.Ends.{cleanup_script, usage_script}
use budget_warden.Store.Redis.Tally.{held, spent}
use budget_warden.Store.Redis.Tracked.{IsTracked}
use budget_warden.Time.{Timestamp, Chrono}
use budget_warden.Window.{WindowBounds}

-- A link to a server of whose clients only this one runs scripts, at one instant.
abbrev pub quiet : Redis → ℤ → Link
quiet r at = record { server = r; at = at; turns = [] }

pub to_i64-small : (n : ℕ) (name : String) → n ≤ i64_max → to_i64 n name ≡ ok n
unfolding to_i64
to_i64-small n name le = let e : leb n i64_max ≡ true = ground arith in rw e refl

module _ (chrono : Chrono) (lua : Lua) where
  -- The server when the script that reserves, or reads, begins: keys have been removed at each request,
  -- and reservations that are due have lapsed.
  abbrev pub prepared : Timestamp → ℤ → Redis → Redis
  prepared now at r = evict at (cleanup_script lua (chrono.timestamp now) (evict at (evict at r))).1

  -- The call is made before an instant of the server up to which the invariant of the counter holds.
  module _ (double : IsDouble lua) (until : ℤ) (ceiling : ℕ) (small : ceiling < exact_max)
      (key : StoreKey) (window : WindowBounds) (at : ℤ) (before : leb_ℤ until at ≡ false)
      (r : Redis) (h : Reach lua (redis_counter_key chrono lua key window) until ceiling r) where
    abbrev k : String
    k = redis_counter_key chrono lua key window

    pub prepared-Reach : (now : Timestamp) → Reach lua k until ceiling (prepared now at r)
    prepared-Reach now =
        removes at _ before
          (cleans (chrono.timestamp now) _ (removes at _ before (removes at r before h)))

    pub prepared-IsTracked : (now : Timestamp) → IsTracked k until ceiling (prepared now at r)
    prepared-IsTracked now = Reach-IsTracked lua double k until ceiling small _ (prepared-Reach now)

    -- Over a quiet link, `usage` answers exactly what the reservations that are left of the counter
    -- come to, once those that are due have lapsed.
    pub usage-answers :
        (now : Timestamp)
        → (usage chrono lua key window now (quiet r at)).0
          ≡ ok (record {
            committed = spent k (prepared now at r);
            reserved = held k (prepared now at r);
          })
    unfolding usage usage_script usage_from_i64 invoke acquire cleanup_expired
    usage-answers now =
        let t = prepared-IsTracked now in
        λ i.
          usage_from_i64
            ((ap (λ n. lua.reply (lua.number n)) t.committed_is
                ∙ reply-exact lua double (spent k (prepared now at r)) (omega (arith, t.below)))
              i)
            ((ap (λ f. lua.reply (lua.number (value f))) t.reserved_is
                ∙ reply-exact lua double (held k (prepared now at r)) (omega (arith, t.below)))
              i)

  module _ (double : IsDouble lua) (until : ℤ) (ceiling : ℕ) (small : ceiling < exact_max)
      (request : ReserveRequest) (at : ℤ) (before : leb_ℤ until at ≡ false) (r : Redis)
      (h : Reach lua (redis_counter_key chrono lua request.key request.window) until ceiling r)
      (sound : IsSound request) (fits_i64 : request.amount ≤ i64_max)
      (keeps : KeepsRequest lua
        (redis_counter_key chrono lua request.key request.window)
        until
        ceiling
        chrono
        request) where
    abbrev c : ReserveCall
    c = reserve_call chrono lua request request.amount request.effective_limit

    pub reserve-runs :
        reserve_if_allowed chrono lua request (quiet r at)
        ≡ and_then (read_values chrono lua) (
          told (reserve_script lua c at (prepared request.now at r)).0,
          quiet (reserve_script lua c at (prepared request.now at r)).1 at,
        )
    unfolding reserve_if_allowed invoke acquire cleanup_expired
    reserve-runs =
        rw
          (
            validate_sound request sound,
            to_i64-small request.amount "amount" fits_i64,
            to_i64-small request.effective_limit "effective limit"
                (omega (arith, keeps.within refl)),
          )
          refl

    module _ (expires : Timestamp)
        (readable : chrono.from_timestamp
            (chrono.timestamp (request.now +ℤ request.reservation_ttl))
          ≡ some expires)
        (ids : suc (prepared request.now at r).sequence ≤ i64_max)
        (once : request.idempotency_key ≡ none) where
      no_key :
          reserve_script lua c at (prepared request.now at r)
          ≡ reserve_new lua c at (prepared request.now at r)
      unfolding reserve_script
      no_key = rw once refl

      abbrev before_units : ℕ × ℕ
      before_units = (
        spent (redis_counter_key chrono lua request.key request.window) (prepared request.now at r),
        held (redis_counter_key chrono lua request.key request.window) (prepared request.now at r),
      )

      abbrev fits : Bool
      fits = leb (before_units.0 + before_units.1 + request.amount) request.effective_limit

      abbrev result : StoreReservationResult
      result =
          if fits
          then allowed
              (record { id = suc (prepared request.now at r).sequence; expires_at = expires })
              (record { committed = before_units.0; reserved = before_units.1 + request.amount })
          else denied (record { committed = before_units.0; reserved = before_units.1 })

      read_answer :
          (l : Link)
          → read_values chrono lua
              (if fits
                then granting c
                    (suc (prepared request.now at r).sequence)
                    before_units.0
                    (before_units.1 + request.amount)
                else denying before_units.0 before_units.1)
              l
            ≡ (ok result, l)
      unfolding read_values usage_from_i64 id_from_i64
      read_answer l = elim (Bool-cases fits) [ inl e ↦ rw (e, readable) refl | inr e ↦ rw e refl ]

      -- Over a quiet link, a valid request with no idempotency key is granted exactly when its units
      -- fit under its limit with all that the reservations left of the counter come to, once those that
      -- are due have lapsed. It then gets a new identifier, and its units are reserved; otherwise
      -- nothing is counted. The answer is the usage. The server is in a state that scripts make before an
      -- instant, the requests for the counter keep to a ceiling below 2^53 and are retained until then,
      -- the numbers of the scripts are doubles, amount and identifier fit `i64`, and the instant at which
      -- the reservation runs out can be read back.
      pub reserve_if_allowed-decides :
          let (answer, l) = reserve_if_allowed chrono lua request (quiet r at) in
          let k = redis_counter_key chrono lua request.key request.window in
          (answer ≡ ok result)
          × (held k l.server ≡ before_units.1 + (if fits then request.amount else 0))
          × (spent k l.server ≡ before_units.0)
      reserve_if_allowed-decides =
          let p = prepared request.now at r in
          let a =
            reserve_new-answers lua double (redis_counter_key chrono lua request.key request.window)
              until ceiling small c at before
              (reserve_call-Keeps lua _ until ceiling chrono request keeps request.amount
                request.effective_limit
                (to_i64-small request.effective_limit "effective limit"
                  (omega (arith, keeps.within refl))))
              refl p
              (prepared-IsTracked double until ceiling small request.key request.window at before r
                h request.now)
              ids in
          let end = quiet (reserve_new lua c at p).1 at in
          let runs : reserve_if_allowed chrono lua request (quiet r at) ≡ (ok result, end) =
            reserve-runs
            ∙ ap (λ x. and_then (read_values chrono lua) (told x.0, quiet x.1 at)) no_key
            ∙ ap (λ x. and_then (read_values chrono lua) (told x, end)) a.0
            ∙ read_answer end in
          rw runs (refl, a.1, a.2)
