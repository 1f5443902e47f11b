-- ===== src/Store/Redis/Finishing.antt =====
-- `FINISH_SCRIPT` of src/store/redis_store.rs keeps the invariant of a counter.
use budget_warden.Base.{
  ℕ, true, pos, if◌then◌else◌, ◌+◌, ◌≤◌, ◌<◌, ◌≡◌, ◌≢◌, refl, sym, ap, ◌∙◌, arith, ℤ, leb_ℤ, leb,
  String, String-discrete, Bool-cases, Result, ok, ok-injective, err, panic, Option, none, some,
  inl, inr, if_pos,
}
use budget_warden.Store.Codec.{i64_max}
use budget_warden.Store.Memory.{ReservationStatus, active, committed, refunded, expired}
use budget_warden.Store.Redis.{
  digits, value, Lua, Reservation, Redis, incr_committed, hincrby, counted, set_committed,
}
use budget_warden.Store.Redis.Exact.{IsDouble, exact_max}
use budget_warden.Store.Redis.Scripts.{and_then, ◌>>◌, write, answer}
use budget_warden.Store.Redis.Ends.{
  finish_status, finish_row, set_status, unlist, release, finish_due, settle, finish_active,
  finish_script,
}
use budget_warden.Store.Redis.Tally.{update_ne}
use budget_warden.Store.Redis.Tracked.{IsTracked}
use budget_warden.Store.Redis.Settling.{
  same-IsTracked, release_self, release_other, row-le-held, ended-IsTracked, released-IsTracked,
}

within : (n : ℕ) → n ≤ i64_max → leb n i64_max ≡ true
within n h = ground arith

module _ (lua : Lua) (double : IsDouble lua) (k : String) (until : ℤ) (ceiling : ℕ)
    (small : ceiling < exact_max) where
  module _ (r : Redis) (t : IsTracked k until ceiling r) (id : ℕ) (row : Reservation)
      (found : r.reservations id ≡ some row) (alive : row.status ≡ active) where
    finish_due-IsTracked : IsTracked k until ceiling (finish_due lua id row r).1
    unfolding finish_due
    finish_due-IsTracked =
        released-IsTracked lua double k until ceiling small r t id row found alive expired _
          (λ h. cc) refl

    -- The counter, after a release and a sum.
    abbrev sum_of : Result String ℕ
    sum_of =
        hincrby lua (digits ((release lua row r).counters row.counter_key).committed)
          (lua.text (lua.number (value row.amount)))

    -- A sum of the counter itself is exact, and within the range.
    pub sum_is : row.counter_key ≡ k → sum_of ≡ ok ((r.counters k).committed + value row.amount)
    sum_is e =
        let le = row-le-held lua double k until ceiling small r t id row found alive e in
        let v = value row.amount in
        let p : lua.text (lua.number v) ≡ digits v =
          ap lua.text (double.exact v (omega (arith, t.below)))
          ∙ double.written v (omega (arith, t.below)) in
        let c : ((release lua row r).counters row.counter_key).committed
            ≡ (r.counters k).committed =
          ap (λ x. x.committed) (release_self lua row row.counter_key r refl)
          ∙ ap (λ x. (r.counters x).committed) e in
        (λ i. hincrby lua (digits (c i)) (p i))
        ∙ ap (λ b. if b then ok ((r.counters k).committed + v) else err lua.overflow_error)
            (within ((r.counters k).committed + v) (omega (arith, t.below, t.committed_is)))

    sum_rule :
        (n : Result String ℕ)
        → sum_of ≡ n
        → IsTracked k until ceiling
            (and_then
              (λ _.
                write (set_status lua committed id row)
                >> (write (unlist lua id) >> answer (pos 1)))
              (counted (set_committed row.counter_key) n (release lua row r))).1
    unfolding release
    sum_rule (ok m) e =
        ended-IsTracked lua double k until ceiling small r t id row found alive _ committed
          (λ h. cc) refl refl
          (λ own.
            let q = ap (release lua row r).counters own ∙ release_self lua row k r own in
            if_pos (String-discrete row.counter_key k) own _ _
            ∙ (λ i. record (q i) { committed = ok-injective (sym e ∙ sum_is own) i }))
          (λ d.
            update_ne String-discrete row.counter_key k _ (release lua row r).counters d
            ∙ release_other lua row k r d)
    sum_rule (err m) e =
        same-IsTracked k until ceiling r _ t refl refl
          (release_other lua row k r (λ own. cc (e, sum_is own)))
    sum_rule panic e =
        same-IsTracked k until ceiling r _ t refl refl
          (release_other lua row k r (λ own. cc (e, sum_is own)))

    settle-IsTracked :
        (target : ReservationStatus)
        → target ≢ active
        → IsTracked k until ceiling (settle lua target id row r).1
    unfolding settle incr_committed
    settle-IsTracked active d = absurd (d refl)
    settle-IsTracked committed d = sum_rule sum_of refl
    settle-IsTracked refunded d =
        released-IsTracked lua double k until ceiling small r t id row found alive refunded _ d refl
    settle-IsTracked expired d =
        released-IsTracked lua double k until ceiling small r t id row found alive expired _ d refl

  finish_active-IsTracked :
      (target : ReservationStatus) (now : ℤ) (r : Redis) (id : ℕ) (row : Reservation)
      → target ≢ active
      → IsTracked k until ceiling r
      → r.reservations id ≡ some row
      → row.status ≡ active
      → IsTracked k until ceiling (finish_active lua target now id row r).1
  unfolding finish_active
  finish_active-IsTracked target now r id row ends t found alive =
      elim (Bool-cases (leb_ℤ row.expires_at now)) [
        | inl e ↦ rw e (finish_due-IsTracked r t id row found alive)
        | inr e ↦ rw e (settle-IsTracked r t id row found alive target ends)
      ]

  finish_status-IsTracked :
      (target : ReservationStatus) (now : ℤ) (r : Redis) (id : ℕ) (row : Reservation)
      (s : ReservationStatus)
      → target ≢ active
      → IsTracked k until ceiling r
      → r.reservations id ≡ some row
      → row.status ≡ s
      → IsTracked k until ceiling (finish_status lua target now id row s r).1
  finish_status-IsTracked target now r id row active ends t found e =
      finish_active-IsTracked target now r id row ends t found e
  finish_status-IsTracked target now r id row committed ends t found e = t
  finish_status-IsTracked target now r id row refunded ends t found e = t
  finish_status-IsTracked target now r id row expired ends t found e = t

  finish_row-IsTracked :
      (target : ReservationStatus) (now : ℤ) (r : Redis) (id : ℕ) (o : Option Reservation)
      → target ≢ active
      → IsTracked k until ceiling r
      → r.reservations id ≡ o
      → IsTracked k until ceiling (finish_row lua target now id o r).1
  finish_row-IsTracked target now r id none ends t e = t
  finish_row-IsTracked target now r id (some row) ends t e =
      finish_status-IsTracked target now r id row row.status ends t e refl

  pub finish_script-IsTracked :
      (target : ReservationStatus) (id : ℕ) (now : ℤ) (r : Redis)
      → target ≢ active
      → IsTracked k until ceiling r
      → IsTracked k until ceiling (finish_script lua target id now r).1
  unfolding finish_script
  finish_script-IsTracked target id now r ends t =
      finish_row-IsTracked target now r id (r.reservations id) ends t refl
