-- ===== src/Store/Redis/Retrying.antt =====
-- A retry of `reserve_if_allowed` of src/store/redis_store.rs after an answer that was lost.
use budget_warden.Base.{
  ℕ, suc, ◌+◌, ◌≤◌, ◌<◌, ◌≡◌, refl, ap, subst, ◌∙◌, arith, ℤ, pos, ◌+ℤ◌, leb_ℤ, String,
  String-discrete, string_eq, ok, err, true, false, none, some, [], ◌∷◌, ℕ_discrete, if◌then◌else◌,
}
use budget_warden.Error.{other}
use budget_warden.Store.{StoreReservationResult, ReserveRequest, allowed}
use budget_warden.Store.Checks.{IsSound, validate_sound}
use budget_warden.Store.Codec.{i64_max, id_from_i64, usage_from_i64}
use budget_warden.Store.Memory.{active}
use budget_warden.Store.Redis.{
  Lua, Reservation, Keyed, Redis, expire_keys, no_keys, millis, value, outlives, update,
}
use budget_warden.Store.Redis.Answers.{granted_answer, after, after-counts, granting}
use budget_warden.Store.Redis.Calls.{
  cleanup_expired, reserve_call, read_values, or_empty, redis_counter_key, redis_idempotency_key,
  reserve_if_allowed,
}
use budget_warden.Store.Redis.Requests.{Turn, Link, and_then, told, invoke, acquire}
use budget_warden.Store.Redis.Entering.{Keeps, ahead, kept_row}
use budget_warden.Store.Redis.Exact.{IsDouble, exact_max, reply-exact}
use budget_warden.Store.Redis.Preserving.{KeepsRequest, reserve_call-Keeps}
use budget_warden.Store.Redis.Quiet.{
  quiet, prepared, prepared-Reach, prepared-IsTracked, to_i64-small, reserve-runs,
}
use budget_warden.Store.Redis.Reach.{Reach, reserves}
use budget_warden.Store.Redis.Remembering.{Remembers, prepared-Remembers, reserve_script-replays}
use budget_warden.Store.Redis.Scripts.{ReserveCall, Values, reserve_new, reserve_script, new_row}
use budget_warden.Store.Redis.Tally.{held, spent, update_self}
use budget_warden.Store.Redis.Tracked.{IsTracked}
use budget_warden.Store.Sql.{Event, works, lost}
use budget_warden.Time.{Timestamp, Chrono}

soon : (at until d : ℤ) → leb_ℤ until at ≡ false → leb_ℤ until d ≡ true → leb_ℤ at d ≡ true
soon at until d h e = ground arith

-- A turn in which others do nothing, and a link over which the third request loses its answer.
abbrev turn : ℤ → Event → Turn
turn at event = record { others = λ r. r; at = at; event = event }

abbrev pub lossy : Redis → ℤ → String → Link
lossy r at message = record {
  server = r;
  at = at;
  turns = turn at works ∷ turn at works ∷ turn at (lost message) ∷ [];
}

module _ (chrono : Chrono) (lua : Lua) (double : IsDouble lua) (until : ℤ) (ceiling : ℕ)
    (small : ceiling < exact_max) (request : ReserveRequest) (at : ℤ)
    (before : leb_ℤ until at ≡ false) (r : Redis)
    (h : Reach lua (redis_counter_key chrono lua request.key request.window) until ceiling r)
    (sound : IsSound request) (fits_i64 : request.amount ≤ i64_max)
    (keeps : KeepsRequest lua
      (redis_counter_key chrono lua request.key request.window)
      until
      ceiling
      chrono
      request)
    (keyed : string_eq (or_empty request.idempotency_key) "" ≡ false)
    (unknown : ((prepared chrono lua request.now at r).idempotency
          (redis_idempotency_key chrono lua request.key request.window)).ids
        (or_empty request.idempotency_key)
      ≡ none)
    (ids : suc (prepared chrono lua request.now at r).sequence ≤ i64_max)
    (room : spent
          (redis_counter_key chrono lua request.key request.window)
          (prepared chrono lua request.now at r)
        + held
            (redis_counter_key chrono lua request.key request.window)
            (prepared chrono lua request.now at r)
        + request.amount
      ≤ request.effective_limit) where
  abbrev k : String
  k = redis_counter_key chrono lua request.key request.window

  abbrev p : Redis
  p = prepared chrono lua request.now at r

  abbrev c : ReserveCall
  c = reserve_call chrono lua request request.amount request.effective_limit

  c-Keeps : Keeps k until ceiling c
  c-Keeps =
      reserve_call-Keeps lua k until ceiling chrono request keeps request.amount
        request.effective_limit
        (to_i64-small request.effective_limit "effective limit" (omega (arith, keeps.within refl)))

  p-IsTracked : IsTracked k until ceiling p
  p-IsTracked =
      prepared-IsTracked chrono lua double until ceiling small request.key request.window at before
        r h request.now

  -- The server once the units are reserved.
  abbrev s : Redis
  s = after lua double k until ceiling small c at before c-Keeps refl p p-IsTracked ids

  -- A key that is not known is no repetition.
  no_repetition : reserve_script lua c at p ≡ reserve_new lua c at p
  unfolding reserve_script
  no_repetition = rw (keyed, unknown) refl

  first_script : (reserve_script lua c at p).1 ≡ s
  first_script =
      ap (λ x. x.1)
        (no_repetition
          ∙ granted_answer lua double k until ceiling small c at before c-Keeps refl p p-IsTracked
              ids room)

  first_call :
      (message : String)
      → reserve_if_allowed chrono lua request (lossy r at message)
        ≡ (err (other message), quiet s at)
  unfolding reserve_if_allowed invoke acquire cleanup_expired
  first_call message =
      rw
        (
          validate_sound request sound,
          to_i64-small request.amount "amount" fits_i64,
          to_i64-small request.effective_limit "effective limit" (omega (arith, keeps.within refl)),
        )
        (ap (λ x. (err (other message), quiet x at)) first_script)

  s-Reach : Reach lua k until ceiling s
  s-Reach = subst (Reach lua k until ceiling) first_script (
      reserves c at p before c-Keeps (
        prepared-Reach chrono lua double until ceiling small request.key request.window at before r
          h request.now))

  -- The reservation that has been written.
  abbrev row : Reservation
  row = record {
    counter_key = k;
    amount = lua.text (lua.number request.amount);
    status = active;
    expires_at = chrono.timestamp (request.now +ℤ request.reservation_ttl);
    deadline = some (millis c.retention_expires_at);
  }

  abbrev key : String
  key = redis_idempotency_key chrono lua request.key request.window

  abbrev name : String
  name = or_empty request.idempotency_key

  -- The hash of the keys.
  abbrev keys : Keyed
  keys = record {
    ids = update String-discrete name (some (suc p.sequence)) (p.idempotency key).ids;
    deadline = some (millis c.retention_expires_at);
  }

  remembered : s.idempotency key ≡ keys
  remembered =
      ap
        (λ b.
          (if b
              then p.idempotency
              else update String-discrete key
                  (expire_keys at c.retention_expires_at (record (p.idempotency key) {
                    ids =
                        update String-discrete name (some (suc p.sequence)) (p.idempotency key).ids;
                  }))
                  p.idempotency)
            key)
        keyed
      ∙ update_self String-discrete key _ p.idempotency
      ∙ ap (λ b. if b then no_keys else keys)
          (ahead at until (millis c.retention_expires_at) before (keeps.retained refl))

  s-Remembers : (at' : ℤ) → leb_ℤ until at' ≡ false → Remembers s key name (suc p.sequence) row at'
  s-Remembers at' before' = record {
    id_is =
        ap (λ x. x.ids name) remembered
        ∙ update_self String-discrete name (some (suc p.sequence)) (p.idempotency key).ids;
    row_is =
        update_self ℕ_discrete (suc p.sequence) (new_row lua c at) p.reservations
        ∙ kept_row lua double k until ceiling small c at before c-Keeps refl;
    alive = refl;
    key_stays =
        ap (λ x. outlives at' x.deadline) remembered
        ∙ soon at' until (millis c.retention_expires_at) before' (keeps.retained refl);
    row_stays = soon at' until (millis c.retention_expires_at) before' (keeps.retained refl);
  }

  module _ (now' : Timestamp) (at' : ℤ) (before' : leb_ℤ until at' ≡ false)
      (later : leb_ℤ
          (chrono.timestamp (request.now +ℤ request.reservation_ttl))
          (chrono.timestamp now')
        ≡ false)
      (expires : Timestamp)
      (readable : chrono.from_timestamp (chrono.timestamp (request.now +ℤ request.reservation_ttl))
        ≡ some expires) where
    abbrev q : Redis
    q = prepared chrono lua now' at' s

    abbrev again : ReserveRequest
    again = record request { now = now' }

    q-IsTracked : IsTracked k until ceiling q
    q-IsTracked =
        prepared-IsTracked chrono lua double until ceiling small request.key request.window at'
          before' s s-Reach now'

    abbrev replayed : Values
    replayed = granting c (suc p.sequence) (spent k q) (held k q)

    second_script :
        reserve_script lua
          (reserve_call chrono lua again request.amount request.effective_limit)
          at'
          q
        ≡ (ok replayed, q)
    second_script =
        let t = q-IsTracked in
        reserve_script-replays key name (suc p.sequence) row at' lua
          (reserve_call chrono lua again request.amount request.effective_limit) at' q refl refl
          keyed
          (prepared-Remembers key name (suc p.sequence) row at' lua chrono k until ceiling now' s
            s-Reach before' later (s-Remembers at' before'))
        ∙ (λ i. (
          ok (record {
            granted = pos 1;
            id = pos (suc p.sequence);
            committed =
                (ap (λ n. lua.reply (lua.number n)) t.committed_is
                    ∙ reply-exact lua double (spent k q) (omega (arith, t.below)))
                  i;
            reserved =
                (ap (λ f. lua.reply (lua.number (value f))) t.reserved_is
                    ∙ reply-exact lua double (held k q) (omega (arith, t.below)))
                  i;
            expires_at = row.expires_at;
          }),
          q,
        ))

    abbrev result : StoreReservationResult
    result =
        allowed (record { id = suc p.sequence; expires_at = expires })
          (record { committed = spent k q; reserved = held k q })

    read_replayed : (l : Link) → read_values chrono lua replayed l ≡ (ok result, l)
    unfolding read_values usage_from_i64 id_from_i64
    read_replayed l = rw readable refl

    second_call : reserve_if_allowed chrono lua again (quiet s at') ≡ (ok result, quiet q at')
    second_call =
        reserve-runs chrono lua double until ceiling small again at' before' s s-Reach
          (record {
            amount_pos = sound.amount_pos;
            limited = sound.limited;
            lasting = sound.lasting;
          })
          fits_i64 (record { within = keeps.within; retained = keeps.retained })
        ∙ ap (λ x. and_then (read_values chrono lua) (told x.0, quiet x.1 at')) second_script
        ∙ read_replayed (quiet q at')

    -- When the answer to a request with a new idempotency key is lost, the request fails although its
    -- units are reserved; the retry, before the reservation runs out, is answered with that reservation,
    -- and reserves nothing more: all that it changes is what lapses and what is removed. The request is
    -- valid, its units fit, its limit is within a ceiling below 2^53, and both calls are made, with nobody
    -- else's in between, before an instant of the server until which it is retained. The server was in a
    -- state that scripts make, the numbers of the scripts are doubles, amount and identifier fit `i64`, and
    -- the instant at which the reservation runs out can be read back.
    pub reserve_if_allowed-retried :
        (message : String)
        → let (first, l) = reserve_if_allowed chrono lua request (lossy r at message) in
          let (second, l') = reserve_if_allowed chrono lua again (quiet l.server at') in
          (first ≡ err (other message))
          × (held k l.server ≡ held k p + request.amount)
          × (second
              ≡ ok (
                  allowed
                    (record { id = suc p.sequence; expires_at = expires })
                    (record { committed = spent k l'.server; reserved = held k l'.server })))
          × (l'.server ≡ prepared chrono lua now' at' l.server)
    reserve_if_allowed-retried message =
        rw (first_call message, second_call)
          (
            refl,
            (after-counts lua double k until ceiling small c at before c-Keeps refl p p-IsTracked
                ids room).0,
            refl,
            refl,
          )
