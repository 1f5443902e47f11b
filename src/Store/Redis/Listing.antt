-- ===== src/Store/Redis/Listing.antt =====
-- The scripts of src/store/redis_store.rs keep the sorted set.
use budget_warden.Base.{
  ℕ, suc, ◌+◌, ◌≤◌, ◌≡◌, ◌≢◌, refl, sym, ap, subst, arith, ℤ, pos, leb_ℤ, leb, String, string_eq,
  Bool-cases, Option, none, some, List, [], ◌∷◌, Result, ok, err, panic, inl, inr, ltb,
}
use budget_warden.Store.Codec.{i64_max}
use budget_warden.Store.Memory.{ReservationStatus, active, committed, refunded, expired}
use budget_warden.Store.Redis.{
  digits, Lua, Reservation, Redis, Script, millis, due, incr, incr_reserved, incr_committed,
  counted, set_committed, set_reserved, hincrby,
}
use budget_warden.Store.Redis.Entering.{made}
use budget_warden.Store.Redis.Listed.{
  IsListed, fresh-IsListed, same-IsListed, evict-IsListed, end-IsListed, drop-IsListed,
  new-IsListed,
}
use budget_warden.Store.Redis.Reach.{Reach, starts, removes, reserves, cleans, finishes}
use budget_warden.Store.Redis.Scripts.{
  ReserveCall, Values, and_then, ◌>>◌, write, answer, new_row, written, committed_at, reserved_at,
  enter, reserve_new, replay, replay_found, replay_id, reserve_script,
}
use budget_warden.Store.Redis.Ends.{
  set_status, unlist, release, lapse_status, lapse_row, lapse_one, lapse_all, cleanup_script,
  finish_due, settle, finish_active, finish_status, finish_row, finish_script,
}

is_given :
    (r : Redis) (t : IsListed r) (id : ℕ) (row : Reservation)
    → r.reservations id ≡ some row
    → id ≤ r.sequence
is_given r t id row found = elim (Bool-cases (leb id r.sequence)) [
  | inl e ↦ ground arith
  | inr e ↦ cc (found, t.unused id (ground arith))
]

module _ (lua : Lua) where
  module _ (r : Redis) (t : IsListed r) (id : ℕ) (row : Reservation)
      (found : r.reservations id ≡ some row) where
    -- An active reservation that lapses.
    lapsed-IsListed : IsListed (unlist lua id (set_status lua expired id row (release lua row r)))
    unfolding release
    lapsed-IsListed =
        end-IsListed r t _ id (record row { status = expired }) (is_given r t id row found)
          (λ e. cc e) refl refl refl

    sum_rule :
        (target : ReservationStatus) (n : Result String ℕ)
        → target ≢ active
        → IsListed
            (and_then
              (λ _.
                write (set_status lua target id row) >> (write (unlist lua id) >> answer (pos 1)))
              (counted (set_committed row.counter_key) n (release lua row r))).1
    unfolding release
    sum_rule target (ok m) ends =
        end-IsListed r t _ id (record row { status = target }) (is_given r t id row found) ends refl
          refl refl
    sum_rule target (err m) ends = same-IsListed r t _ (omega arith) refl refl
    sum_rule target panic ends = same-IsListed r t _ (omega arith) refl refl

    settle-IsListed :
        (target : ReservationStatus) → target ≢ active → IsListed (settle lua target id row r).1
    unfolding settle incr_committed release
    settle-IsListed active ends = absurd (ends refl)
    settle-IsListed committed ends = sum_rule committed _ ends
    settle-IsListed refunded ends =
        end-IsListed r t _ id (record row { status = refunded }) (is_given r t id row found) ends
          refl refl refl
    settle-IsListed expired ends =
        end-IsListed r t _ id (record row { status = expired }) (is_given r t id row found) ends
          refl refl refl

    active-IsListed :
        (target : ReservationStatus) (now : ℤ)
        → target ≢ active
        → IsListed (finish_active lua target now id row r).1
    unfolding finish_active finish_due
    active-IsListed target now ends = elim (Bool-cases (leb_ℤ row.expires_at now)) [
      | inl e ↦ rw e lapsed-IsListed
      | inr e ↦ rw e (settle-IsListed target ends)
    ]

    status-IsListed :
        (target : ReservationStatus) (now : ℤ) (s : ReservationStatus)
        → target ≢ active
        → IsListed (finish_status lua target now id row s r).1
    status-IsListed target now active ends = active-IsListed target now ends
    status-IsListed target now committed ends = t
    status-IsListed target now refunded ends = t
    status-IsListed target now expired ends = t

  row-IsListed :
      (r : Redis) (t : IsListed r) (id : ℕ) (o : Option Reservation) (target : ReservationStatus)
      (now : ℤ)
      → r.reservations id ≡ o
      → target ≢ active
      → IsListed (finish_row lua target now id o r).1
  row-IsListed r t id none target now e ends = t
  row-IsListed r t id (some row) target now e ends =
      status-IsListed r t id row e target now row.status ends

  finish_script-IsListed :
      (r : Redis) (t : IsListed r) (target : ReservationStatus) (id : ℕ) (now : ℤ)
      → target ≢ active
      → IsListed (finish_script lua target id now r).1
  unfolding finish_script
  finish_script-IsListed r t target id now ends =
      row-IsListed r t id (r.reservations id) target now refl ends

  -- One round of the loop.
  lapse_status-IsListed :
      (r : Redis) (t : IsListed r) (id : ℕ) (row : Reservation) (s : ReservationStatus)
      → r.reservations id ≡ some row
      → row.status ≡ s
      → IsListed (unlist lua id (lapse_status lua id row s r))
  lapse_status-IsListed r t id row active found e = lapsed-IsListed r t id row found
  lapse_status-IsListed r t id row committed found e =
      drop-IsListed r t id (λ x p alive. cc (p, found, e, alive))
  lapse_status-IsListed r t id row refunded found e =
      drop-IsListed r t id (λ x p alive. cc (p, found, e, alive))
  lapse_status-IsListed r t id row expired found e =
      drop-IsListed r t id (λ x p alive. cc (p, found, e, alive))

  lapse_row-IsListed :
      (r : Redis) (t : IsListed r) (id : ℕ) (o : Option Reservation)
      → r.reservations id ≡ o
      → IsListed (unlist lua id (lapse_row lua id o r))
  lapse_row-IsListed r t id none e = drop-IsListed r t id (λ row p. cc (e, p))
  lapse_row-IsListed r t id (some row) e = lapse_status-IsListed r t id row row.status e refl

  pub lapse_one-IsListed : (r : Redis) (id : ℕ) → IsListed r → IsListed (lapse_one lua id r)
  unfolding lapse_one
  lapse_one-IsListed r id t = lapse_row-IsListed r t id (r.reservations id) refl

  lapse_all-IsListed : (ids : List ℕ) (r : Redis) → IsListed r → IsListed (lapse_all lua ids r)
  unfolding lapse_all
  lapse_all-IsListed [] r t = t
  lapse_all-IsListed (id ∷ ids) r t =
      lapse_all-IsListed ids (lapse_one lua id r) (lapse_one-IsListed r id t)

  cleanup_script-IsListed :
      (now : ℤ) (r : Redis) → IsListed r → IsListed (cleanup_script lua now r).1
  unfolding cleanup_script
  cleanup_script-IsListed now r t = lapse_all-IsListed (due now r.expirations) r t

  module _ (c : ReserveCall) (at : ℤ) where
    new_row-expires :
        (row : Reservation) → new_row lua c at ≡ some row → row.expires_at ≡ c.expires_at
    new_row-expires row e = sym (
        ap (λ x. x.expires_at)
          (made (leb_ℤ (millis c.retention_expires_at) at)
            (record {
              counter_key = c.counter_key;
              amount = lua.text (lua.number c.amount);
              status = active;
              expires_at = c.expires_at;
              deadline = some (millis c.retention_expires_at);
            })
            row e))

    entered_rule :
        (r : Redis) (n : Result String ℕ) (f : Unit {0} → Script Values)
        → IsListed r
        → ((r' : Redis) → (f tt r').1 ≡ written lua c at (suc r.sequence) r')
        → IsListed
            (and_then f (
              counted
                (λ m. set_reserved c.counter_key (digits m))
                n
                (record r { sequence = suc r.sequence }))).1
    entered_rule r (ok m) f t writes =
        subst IsListed (sym (writes _))
          (new-IsListed r t _ (new_row lua c at) c.expires_at new_row-expires refl refl refl)
    entered_rule r (err m) f t writes = same-IsListed r t _ (omega arith) refl refl
    entered_rule r panic f t writes = same-IsListed r t _ (omega arith) refl refl

    enter-IsListed :
        (used held : ℕ) (r : Redis) → IsListed r → IsListed (enter lua c at used held r).1
    unfolding enter incr incr_reserved
    enter-IsListed used held r t = elim (Bool-cases (leb (suc r.sequence) i64_max)) [
      | inl e ↦ rw e (
          entered_rule r
            (hincrby lua (r.counters c.counter_key).reserved (lua.text (lua.number c.amount))) _ t
            (λ r'. refl))
      | inr e ↦ rw e t
    ]

    reserve_new-IsListed : (r : Redis) → IsListed r → IsListed (reserve_new lua c at r).1
    unfolding reserve_new
    reserve_new-IsListed r t =
        let used = committed_at lua c.counter_key r in
        let held = reserved_at lua c.counter_key r in
        elim (Bool-cases (
          ltb (lua.number c.effective_limit)
            (lua.number (lua.number (used + held) + lua.number c.amount)))) [
              | inl e ↦ rw e t
              | inr e ↦ rw e (enter-IsListed used held r t)
            ]

    replay-IsListed :
        (id : ℕ) (row : Reservation) (s : ReservationStatus) (r : Redis)
        → IsListed r
        → IsListed (replay lua c at id row s r).1
    replay-IsListed id row active r t = t
    replay-IsListed id row committed r t = t
    replay-IsListed id row refunded r t = reserve_new-IsListed r t
    replay-IsListed id row expired r t = reserve_new-IsListed r t

    found-IsListed :
        (id : ℕ) (o : Option Reservation) (r : Redis)
        → IsListed r
        → IsListed (replay_found lua c at id o r).1
    found-IsListed id none r t =
        reserve_new-IsListed _ (same-IsListed r t _ (omega arith) refl refl)
    found-IsListed id (some row) r t = replay-IsListed id row row.status r t

    id-IsListed : (o : Option ℕ) (r : Redis) → IsListed r → IsListed (replay_id lua c at o r).1
    id-IsListed none r t = reserve_new-IsListed r t
    id-IsListed (some id) r t = found-IsListed id (r.reservations id) r t

    reserve_script-IsListed : (r : Redis) → IsListed r → IsListed (reserve_script lua c at r).1
    unfolding reserve_script
    reserve_script-IsListed r t = elim (Bool-cases (string_eq c.idempotency "")) [
      | inl e ↦ rw e (reserve_new-IsListed r t)
      | inr e ↦ rw e (id-IsListed ((r.idempotency c.idempotency_key).ids c.idempotency) r t)
    ]

  -- In every state that scripts make, whichever clients run them and with keys removed in
  -- between, the sorted set holds every active reservation, each under the instant at which it runs out.
  pub Reach-IsListed :
      (k : String) (until : ℤ) (ceiling : ℕ) (r : Redis) → Reach lua k until ceiling r → IsListed r
  Reach-IsListed k until ceiling _ starts = fresh-IsListed
  Reach-IsListed k until ceiling _ (removes at r before h) =
      evict-IsListed r (Reach-IsListed k until ceiling r h) at
  Reach-IsListed k until ceiling _ (reserves c at r before keeps h) =
      reserve_script-IsListed c at r (Reach-IsListed k until ceiling r h)
  Reach-IsListed k until ceiling _ (cleans now r h) =
      cleanup_script-IsListed now r (Reach-IsListed k until ceiling r h)
  Reach-IsListed k until ceiling _ (finishes target id now r ends h) =
      finish_script-IsListed r (Reach-IsListed k until ceiling r h) target id now ends
