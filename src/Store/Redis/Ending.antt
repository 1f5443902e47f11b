-- ===== src/Store/Redis/Ending.antt =====
-- Repeated commits and refunds of src/store/redis_store.rs.
use budget_warden.Base.{
  ℕ, ◌+◌, ◌≤◌, ◌<◌, ◌≡◌, refl, ap, subst, ◌∙◌, arith, ℤ, pos, leb_ℤ, String, ok, false, some,
  ℕ_discrete,
}
use budget_warden.Store.Codec.{i64_max}
use budget_warden.Store.Memory.{ReservationStatus, active}
use budget_warden.Store.Redis.{Lua, Reservation, Redis, evict, value, update}
use budget_warden.Store.Redis.Calls.{finish, finish_result}
use budget_warden.Store.Redis.Requests.{and_then, told, invoke, acquire, lift}
use budget_warden.Store.Redis.Exact.{IsDouble, exact_max}
use budget_warden.Store.Redis.Quiet.{quiet, to_i64-small}
use budget_warden.Store.Redis.Reach.{Reach, removes, finishes, earlier, Reach-IsTracked}
use budget_warden.Store.Redis.Ends.{finish_row, finish_status, finish_script}
use budget_warden.Store.Redis.Tally.{
  active_units, committed_units, Weight, tally, held, spent, update_self,
}
use budget_warden.Store.Redis.Tracked.{IsTracked, evict-IsTracked, stays_there, same_tally}
use budget_warden.Time.{Timestamp, Chrono}
use budget_warden.Store.Redis.Settled.{
  IsFinal, commits, refunds, settled_at, final-not_active, none_active, finish_script-writes,
  counts,
}

module _ (chrono : Chrono) (lua : Lua) where
  finish-runs :
      (target : ReservationStatus) (id : ℕ) (now : Timestamp) (at : ℤ) (r : Redis)
      → id ≤ i64_max
      → finish chrono lua target id now (quiet r at)
        ≡ and_then
            (λ n. lift (finish_result chrono lua n))
            (
              told (finish_script lua target id (chrono.timestamp now) (settled_at at r)).0,
              quiet (finish_script lua target id (chrono.timestamp now) (settled_at at r)).1 at,
            )
  unfolding finish acquire invoke
  finish-runs target id now at r small = rw (to_i64-small id "reservation id" small) refl

  -- One that has been settled is answered as such.
  replied :
      (target other : ReservationStatus) (id : ℕ) (now : ℤ) (row : Reservation) (r : Redis)
      → IsFinal other
      → r.reservations id ≡ some row
      → row.status ≡ other
      → finish_script lua target id now r ≡ (ok (pos 2), r)
  unfolding finish_script
  replied target _ id now row r commits found e =
      ap (λ o. finish_row lua target now id o r) found
      ∙ ap (λ s. finish_status lua target now id row s r) e
  replied target _ id now row r refunds found e =
      ap (λ o. finish_row lua target now id o r) found
      ∙ ap (λ s. finish_status lua target now id row s r) e

  module _ (double : IsDouble lua) (k : String) (until : ℤ) (ceiling : ℕ)
      (small : ceiling < exact_max) (at at' : ℤ) (before : leb_ℤ until at ≡ false)
      (before' : leb_ℤ until at' ≡ false) (r : Redis) (h : Reach lua k until ceiling r) (id : ℕ)
      (fits : id ≤ i64_max) (row : Reservation)
      (found : (settled_at at r).reservations id ≡ some row) (alive : row.status ≡ active)
      (own : row.counter_key ≡ k) (now now' : Timestamp)
      (lasts : leb_ℤ row.expires_at (chrono.timestamp now) ≡ false)
      (target other : ReservationStatus) (final : IsFinal target) (final' : IsFinal other) where
    t0 : IsTracked k until ceiling (settled_at at r)
    t0 =
        Reach-IsTracked lua double k until ceiling small _
          (removes at _ before (removes at r before h))

    written :
        (r' : Redis) × (finish_script lua target id (chrono.timestamp now) (settled_at at r)
          ≡ (ok (pos 1), r'))
        × (r'.sequence ≡ (settled_at at r).sequence)
        × (r'.reservations
            ≡ update ℕ_discrete id
                (some (record row { status = target }))
                (settled_at at r).reservations)
    written =
        finish_script-writes lua double k until ceiling small (settled_at at r) t0 id row found
          alive own target final (chrono.timestamp now) lasts

    abbrev r1 : Redis
    r1 = written.0

    first_call : finish chrono lua target id now (quiet r at) ≡ (ok tt, quiet r1 at)
    first_call =
        finish-runs target id now at r fits
        ∙ ap (λ x. and_then (λ n. lift (finish_result chrono lua n)) (told x.0, quiet x.1 at))
            written.1

    t1 : IsTracked k until ceiling r1
    t1 = Reach-IsTracked lua double k until ceiling small _ (
        subst (λ x. Reach lua k until ceiling x.1) written.1
          (finishes target id (chrono.timestamp now) _ (final-not_active target final)
            (removes at _ before (removes at r before h))))

    evict_keeps :
        (x : Redis) (row' : Reservation)
        → IsTracked k until ceiling x
        → x.reservations id ≡ some row'
        → row'.counter_key ≡ k
        → (evict at' x).reservations id ≡ some row'
    unfolding evict
    evict_keeps x row' t e same =
        rw (e, stays_there k until ceiling x t at' (earlier at' until before') id row' e same) refl

    row_after : r1.reservations id ≡ some (record row { status = target })
    row_after =
        (λ i. written.3 i id)
        ∙ update_self ℕ_discrete id (some (record row { status = target }))
            (settled_at at r).reservations

    t2 : IsTracked k until ceiling (evict at' r1)
    t2 = evict-IsTracked k until ceiling r1 t1 at' (earlier at' until before')

    row_still : (settled_at at' r1).reservations id ≡ some (record row { status = target })
    row_still =
        evict_keeps (evict at' r1) (record row { status = target }) t2
          (evict_keeps r1 (record row { status = target }) t1 row_after own) own

    second_call :
        finish chrono lua other id now' (quiet r1 at') ≡ (ok tt, quiet (settled_at at' r1) at')
    second_call =
        finish-runs other id now' at' r1 fits
        ∙ ap (λ x. and_then (λ n. lift (finish_result chrono lua n)) (told x.0, quiet x.1 at'))
            (replied other target id (chrono.timestamp now') (record row { status = target })
              (settled_at at' r1) final row_still refl)

    still : (w : Weight) → tally w k (settled_at at' r1) ≡ tally w k r1
    still w =
        same_tally k until ceiling (evict at' r1) t2 at' (earlier at' until before') w
        ∙ same_tally k until ceiling r1 t1 at' (earlier at' until before') w

    moved :
        (w : Weight)
        → tally w k r1 + w active (value row.amount)
          ≡ tally w k (settled_at at r) + w target (value row.amount)
    moved w =
        counts lua double k until ceiling small (settled_at at r) t0 id row found alive own target
          final (chrono.timestamp now) lasts w r1 written.2 written.3

    -- The counter's fields show what the reservations say, before a call and after it.
    shows :
        (x : Redis)
        → IsTracked k until ceiling x
        → (value (x.counters k).reserved ≡ held k x) × ((x.counters k).committed ≡ spent k x)
    shows x t = (ap value t.reserved_is, t.committed_is)

    fields_move :
        (value (r1.counters k).reserved + value row.amount
          ≡ value ((settled_at at r).counters k).reserved)
        × ((r1.counters k).committed
            ≡ ((settled_at at r).counters k).committed + committed_units target (value row.amount))
    fields_move =
        let (before_held, before_spent) = shows (settled_at at r) t0 in
        let (after_held, after_spent) = shows r1 t1 in
        let none_left = none_active target final (value row.amount) in
        (
          omega (arith, before_held, after_held, moved active_units, none_left),
          omega (arith, before_spent, after_spent, moved committed_units),
        )

    fields_stay :
        (value ((settled_at at' r1).counters k).reserved ≡ value (r1.counters k).reserved)
        × (((settled_at at' r1).counters k).committed ≡ (r1.counters k).committed)
    fields_stay =
        let (before_held, before_spent) = shows r1 t1 in
        let (after_held, after_spent) =
          shows (settled_at at' r1)
            (evict-IsTracked k until ceiling (evict at' r1) t2 at' (earlier at' until before')) in
        (
          omega (arith, before_held, after_held, still active_units),
          omega (arith, before_spent, after_spent, still committed_units),
        )

    -- A commit or a refund of an active reservation of the counter, before it runs out, moves its units
    -- once, in the reservations and in the two fields of the counter: they are no longer held, and they
    -- are committed if it is a commit. A further commit or refund is answered with success as well, and
    -- changes nothing but the keys that are removed; it leaves the sums and the two fields. No request fails, the server is in a state that scripts make before an instant with a ceiling below
    -- 2^53, both calls are made before it, the numbers of the scripts are doubles, and the identifier fits
    -- `i64`.
    pub finish-once :
        let (first, l) = finish chrono lua target id now (quiet r at) in
        let (second, l') = finish chrono lua other id now' (quiet l.server at') in
        (first ≡ ok tt)
        × (held k l.server + value row.amount ≡ held k (settled_at at r))
        × (spent k l.server ≡ spent k (settled_at at r) + committed_units target (value row.amount))
        × (value (l.server.counters k).reserved + value row.amount
            ≡ value ((settled_at at r).counters k).reserved)
        × ((l.server.counters k).committed
            ≡ ((settled_at at r).counters k).committed + committed_units target (value row.amount))
        × (second ≡ ok tt)
        × (l'.server ≡ settled_at at' l.server)
        × (held k l'.server ≡ held k l.server)
        × (spent k l'.server ≡ spent k l.server)
        × (value (l'.server.counters k).reserved ≡ value (l.server.counters k).reserved)
        × ((l'.server.counters k).committed ≡ (l.server.counters k).committed)
    finish-once =
        rw (first_call, second_call)
          (
            refl,
            moved active_units ∙ omega (arith, none_active target final (value row.amount)),
            omega (arith, moved committed_units),
            fields_move.0,
            fields_move.1,
            refl,
            refl,
            still active_units,
            still committed_units,
            fields_stay.0,
            fields_stay.1,
          )
