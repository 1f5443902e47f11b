-- ===== src/Store/Redis/Preserving.antt =====
-- The calls of src/store/redis_store.rs, over connections that fail and among the scripts of other
-- clients, lead from states that scripts make to such states.
use budget_warden.Base.{
  append, ℕ, ◌≤◌, ◌≡◌, ◌≢◌, refl, arith, sym, ap, ◌∙◌, ◌+ℤ◌, ℤ, leb_ℤ, String, Bool-cases, leb,
  List, [], ◌∷◌, Result, ok, ok-injective, err, panic, false, true, inl, inr, ok_or, if◌then◌else◌,
}
use budget_warden.Error.{StoreError, invalid_input, other}
use budget_warden.Store.{StoreKey, ReserveRequest, CounterUsage, validate}
use budget_warden.Store.Codec.{to_i64, i64_max, id_from_i64, usage_from_i64}
use budget_warden.Store.Memory.{ReservationStatus, active}
use budget_warden.Store.Redis.{Lua, Redis, Script, millis}
use budget_warden.Store.Redis.Calls.{
  discard, cleanup_expired, reserve_call, granted, is_zero, read_values, redis_counter_key,
  reserve_if_allowed, finish, usage,
}
use budget_warden.Store.Redis.Requests.{
  Turn, Link, Call, lift, and_then, ◌>>=◌, run_event, run_turn, next_of, next_turn, invoke, acquire,
}
use budget_warden.Store.Redis.Entering.{Keeps}
use budget_warden.Store.Redis.Reach.{Reach, removes, reserves, cleans, finishes}
use budget_warden.Store.Redis.Scripts.{Values, reserve_script}
use budget_warden.Store.Redis.Ends.{cleanup_script, finish_script, usage_script}
use budget_warden.Store.Sql.{Event, works, fails, lost}
use budget_warden.Time.{Timestamp, Chrono}
use budget_warden.Window.{WindowBounds}

pub to_i64-ok : (n : ℕ) (name : String) (m : ℕ) → to_i64 n name ≡ ok m → n ≡ m
unfolding to_i64
to_i64-ok n name m e = elim (Bool-cases (leb n i64_max)) [
  | inl b ↦ ok-injective (
      sym (
        ap
          (λ x.
            if x
            then ok n
            else err (invalid_input (append name " is too large for backend integer")))
          b)
      ∙ e)
  | inr b ↦ cc (
      sym (
        ap
          (λ x.
            if x
            then ok n
            else err (invalid_input (append name " is too large for backend integer")))
          b)
      ∙ e)
]

module _ (lua : Lua) (k : String) (until : ℤ) (ceiling : ℕ) where
  -- The server's clock is before the instant, and others run scripts as well.
  pub record IsOrderly (turn : Turn) : Type 0 where
    pub early : leb_ℤ until turn.at ≡ false
    pub others_reach :
        (r : Redis) → Reach lua k until ceiling r → Reach lua k until ceiling (turn.others r)

  abbrev pub AreOrderly : List Turn → Type 0
  AreOrderly [] = Unit
  AreOrderly (turn ∷ turns) = IsOrderly turn × AreOrderly turns

  pub record IsLive (l : Link) : Type 0 where
    pub reached : Reach lua k until ceiling l.server
    pub now_early : leb_ℤ until l.at ≡ false
    pub orderly : AreOrderly l.turns

  abbrev Preserves : {A : Type 0} → Call A → Type 0
  Preserves m = (l : Link) → IsLive l → IsLive (m l).1

  module _ {A B : Type 0} where
    lift_rule :
        (m : Result StoreError A) (f : A → Call B)
        → ((a : A) → m ≡ ok a → Preserves (f a))
        → Preserves (lift m >>= f)
    lift_rule (ok a) f h l live = h a refl l live
    lift_rule (err e) f h l live = live
    lift_rule panic f h l live = live

    then_case :
        (f : A → Call B) (x : Result StoreError A × Link)
        → IsLive x.1
        → ((a : A) → Preserves (f a))
        → IsLive (and_then f x).1
    then_case f (ok a, l) live h = h a l live
    then_case f (err e, l) live h = live
    then_case f (panic, l) live h = live

    bind_rule :
        (m : Call A) (f : A → Call B)
        → Preserves m
        → ((a : A) → Preserves (f a))
        → Preserves (m >>= f)
    bind_rule m f p h l live = then_case f (m l) (p l live) h

  next_rule :
      (turns : List Turn) (l : Link)
      → AreOrderly turns
      → IsLive l
      → IsOrderly (next_of turns l).0 × IsLive (next_of turns l).1
  next_rule [] l o live = (record { early = live.now_early; others_reach = λ r h. h }, live)
  next_rule (turn ∷ turns) l o live =
      (o.0, record { reached = live.reached; now_early = o.0.early; orderly = o.1 })

  module _ {A : Type 0} (script : ℤ → Script A)
      (kept : (at : ℤ) (r : Redis)
        → leb_ℤ until at ≡ false
        → Reach lua k until ceiling r
        → Reach lua k until ceiling (script at r).1) where
    event_rule :
        (event : Event) (at : ℤ) (r : Redis)
        → leb_ℤ until at ≡ false
        → Reach lua k until ceiling r
        → Reach lua k until ceiling (run_event event (script at r) r).1
    event_rule works at r early h = kept at r early h
    event_rule (fails e) at r early h = h
    event_rule (lost e) at r early h = kept at r early h

    turn_rule :
        (turn : Turn) (l : Link) → IsOrderly turn → IsLive l → IsLive (run_turn script (turn, l)).1
    turn_rule turn l o live = record {
      reached =
          event_rule turn.event turn.at _ o.early
            (removes turn.at _ o.early (o.others_reach l.server live.reached));
      now_early = live.now_early;
      orderly = live.orderly;
    }

    invoke-Preserves : Preserves (invoke script)
    unfolding invoke
    invoke-Preserves l live =
        let (o, live') = next_rule l.turns l live.orderly live in
        turn_rule (next_turn l).0 (next_turn l).1 o live'

    -- A script, and what follows it.
    invoke_rule :
        {B : Type 0} (f : A → Call B)
        → ((a : A) → Preserves (f a))
        → Preserves (invoke script >>= f)
    invoke_rule f h = bind_rule (invoke script) f invoke-Preserves h

  acquire-Preserves : Preserves acquire
  unfolding acquire
  acquire-Preserves = invoke-Preserves (λ at r. (ok tt, r)) (λ at r early h. h)

  module _ (chrono : Chrono) where
    -- A request for the counter keeps to the ceiling, and is retained until the instant.
    pub record KeepsRequest (request : ReserveRequest) : Type 0 where
      pub within :
          redis_counter_key chrono lua request.key request.window ≡ k
          → request.effective_limit ≤ ceiling
      pub retained :
          redis_counter_key chrono lua request.key request.window ≡ k
          → leb_ℤ until (millis (chrono.timestamp (request.window.end +ℤ request.reservation_ttl)))
            ≡ true

    cleanup-Preserves : (now : Timestamp) → Preserves (cleanup_expired chrono lua now)
    unfolding cleanup_expired
    cleanup-Preserves now =
        bind_rule (invoke (λ at. cleanup_script lua (chrono.timestamp now))) (discard chrono lua)
          (invoke-Preserves (λ at. cleanup_script lua (chrono.timestamp now))
            (λ at r early h. cleans (chrono.timestamp now) r h))
          (λ n l live. live)

    pub reserve_call-Keeps :
        (request : ReserveRequest)
        → KeepsRequest request
        → (amount limit : ℕ) → to_i64 request.effective_limit "effective limit" ≡ ok limit
        → Keeps k until ceiling (reserve_call chrono lua request amount limit)
    reserve_call-Keeps request keeps amount limit e = record {
      within = λ own. omega (arith, keeps.within own, to_i64-ok _ _ _ e);
      retained = keeps.retained;
    }

    granted-Preserves :
        (values : Values) (u : CounterUsage) → Preserves (granted chrono lua values u)
    granted-Preserves values u = lift_rule (id_from_i64 values.id) _ (λ id e.
        lift_rule
          (ok_or (chrono.from_timestamp values.expires_at) (other "redis returned invalid expiry"))
          _ (λ t e' l live. live))

    read-Preserves : (values : Values) → Preserves (read_values chrono lua values)
    unfolding read_values
    read-Preserves values = lift_rule (usage_from_i64 values.committed values.reserved) _ (λ u e.
        elim (Bool-cases (is_zero chrono lua values.granted)) [
          | inl z ↦ rw z (λ l live. live)
          | inr z ↦ rw z (granted-Preserves values u)
        ])

    pub reserve-Preserves :
        (request : ReserveRequest)
        → KeepsRequest request
        → Preserves (reserve_if_allowed chrono lua request)
    unfolding reserve_if_allowed
    reserve-Preserves request keeps = lift_rule (validate request) _ (λ valid e0.
        bind_rule acquire _ acquire-Preserves (λ got.
          lift_rule (to_i64 request.amount "amount") _ (λ amount e1.
            lift_rule (to_i64 request.effective_limit "effective limit") _ (λ limit e2.
              bind_rule (cleanup_expired chrono lua request.now) _ (cleanup-Preserves request.now)
                (λ cleaned.
                  invoke_rule (reserve_script lua (reserve_call chrono lua request amount limit))
                    (λ at r early h.
                      reserves (reserve_call chrono lua request amount limit) at r early
                        (reserve_call-Keeps request keeps amount limit e2) h)
                    _ read-Preserves)))))

    pub finish-Preserves :
        (target : ReservationStatus) (id : ℕ) (now : Timestamp)
        → target ≢ active
        → Preserves (finish chrono lua target id now)
    unfolding finish
    finish-Preserves target id now ends = bind_rule acquire _ acquire-Preserves (λ got.
        lift_rule (to_i64 id "reservation id") _ (λ n e.
          invoke_rule (λ at. finish_script lua target n (chrono.timestamp now))
            (λ at r early h. finishes target n (chrono.timestamp now) r ends h) _
            (λ result l live. live)))

    pub usage-Preserves :
        (key : StoreKey) (window : WindowBounds) (now : Timestamp)
        → Preserves (usage chrono lua key window now)
    unfolding usage usage_script
    usage-Preserves key window now = bind_rule acquire _ acquire-Preserves (λ got.
        bind_rule (cleanup_expired chrono lua now) _ (cleanup-Preserves now) (λ cleaned.
          invoke_rule (λ at. usage_script lua (redis_counter_key chrono lua key window))
            (λ at r early h. h) _ (λ values l live. live)))
