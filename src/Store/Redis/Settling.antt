-- ===== src/Store/Redis/Settling.antt =====
-- The scripts of src/store/redis_store.rs that end reservations keep the invariant of a counter.
use budget_warden.Base.{
  ℕ, ◌+◌, ◌-◌, ◌≤◌, ◌<◌, ◌≡◌, ◌≢◌, refl, sym, ap, ◌∙◌, arith, ℤ, String, String-discrete, Option,
  none, some, List, [], ◌∷◌, if_pos, if_neg, ℕ_discrete,
}
use budget_warden.Store.Memory.{ReservationStatus, active, committed, refunded, expired}
use budget_warden.Store.Redis.{digits, value, Lua, Reservation, Redis, outlives, update, due}
use budget_warden.Store.Redis.Exact.{IsDouble, exact_max, lowered-exact}
use budget_warden.Store.Redis.Ends.{
  lowered, release, lapse_one, lapse_all, lapse_row, lapse_status, cleanup_script,
}
use budget_warden.Store.Redis.Tally.{
  active_units, committed_units, Weight, tally, tally-same, row_units, held, spent, update_self,
  update_ne, units-le-tally, units,
}
use budget_warden.Store.Redis.Tracked.{IsTracked, move-IsTracked, given_out}

-- Only the counter, its reservations and the sequence matter.
pub same-IsTracked :
    (k : String) (until : ℤ) (ceiling : ℕ) (r r' : Redis)
    → IsTracked k until ceiling r
    → r'.sequence ≡ r.sequence
    → r'.reservations ≡ r.reservations
    → r'.counters k ≡ r.counters k
    → IsTracked k until ceiling r'
same-IsTracked k until ceiling r r' t seq rows counter = record {
  unused = λ id above. (λ i. rows i id) ∙ t.unused id (omega (arith, seq));
  rows_stay = λ id row found. t.rows_stay id row (sym (λ i. rows i id) ∙ found);
  counter_stays = ap (λ c. outlives until c.deadline) counter ∙ t.counter_stays;
  reserved_is = ap (λ c. c.reserved) counter ∙ t.reserved_is ∙ ap digits (sym (same active_units));
  committed_is = ap (λ c. c.committed) counter ∙ t.committed_is ∙ sym (same committed_units);
  below = omega (arith, same active_units, same committed_units, t.below);
}
  where
    same : (w : Weight) → tally w k r' ≡ tally w k r
    same w = tally-same w k r r' seq (λ id i. units w k (rows i id))

module _ (lua : Lua) where
  -- What a release leaves of the counters.
  pub release_self :
      (row : Reservation) (k : String) (r : Redis)
      → row.counter_key ≡ k
      → (release lua row r).counters k
        ≡ record (r.counters k) { reserved = lowered lua (r.counters k).reserved row.amount }
  unfolding release
  release_self row k r e = rw (sym e) (update_self String-discrete row.counter_key _ r.counters)

  pub release_other :
      (row : Reservation) (k : String) (r : Redis)
      → row.counter_key ≢ k
      → (release lua row r).counters k ≡ r.counters k
  unfolding release
  release_other row k r d = update_ne String-discrete row.counter_key k _ r.counters d

-- The units of a reservation of the counter, and of another's.
own_units :
    (w : Weight) (k : String) (row : Reservation)
    → row.counter_key ≡ k
    → row_units w k row ≡ w row.status (value row.amount)
own_units w k row e = if_pos (String-discrete row.counter_key k) e _ _

no_units :
    (w : Weight) (k : String) (row : Reservation) → row.counter_key ≢ k → row_units w k row ≡ 0
no_units w k row d = if_neg (String-discrete row.counter_key k) d _ _

not_active : (s : ReservationStatus) (n : ℕ) → s ≢ active → active_units s n ≡ 0
not_active active n d = absurd (d refl)
not_active committed n d = refl
not_active refunded n d = refl
not_active expired n d = refl

committed_units-le : (s : ReservationStatus) (n : ℕ) → committed_units s n ≤ n
committed_units-le active n = omega arith
committed_units-le committed n = omega arith
committed_units-le refunded n = omega arith
committed_units-le expired n = omega arith

module _ (lua : Lua) (double : IsDouble lua) (k : String) (until : ℤ) (ceiling : ℕ)
    (small : ceiling < exact_max) where
  module _ (r : Redis) (t : IsTracked k until ceiling r) (id : ℕ) (row : Reservation)
      (found : r.reservations id ≡ some row) (alive : row.status ≡ active) where
    -- The units of a reservation of the counter are among those that are held.
    pub row-le-held : row.counter_key ≡ k → value row.amount ≤ held k r
    row-le-held e = omega (
      arith,
      own_units active_units k row e,
      ap (λ s. active_units s (value row.amount)) alive,
      ap (units active_units k) found,
      units-le-tally active_units k r id (given_out k until ceiling r t id row found),
    )

    -- The end of an active reservation.
    pub ended-IsTracked :
        (r' : Redis) (s : ReservationStatus)
        → s ≢ active
        → r'.sequence ≡ r.sequence
        → r'.reservations ≡ update ℕ_discrete id (some (record row { status = s })) r.reservations
        → (row.counter_key ≡ k
            → r'.counters k ≡ record (r.counters k) {
              reserved = lowered lua (r.counters k).reserved row.amount;
              committed = (r.counters k).committed + committed_units s (value row.amount);
            })
        → (row.counter_key ≢ k → r'.counters k ≡ r.counters k)
        → IsTracked k until ceiling r'
    ended-IsTracked r' s ends seq rows here elsewhere =
        let row' = record row { status = s } in
        elim (String-discrete row.counter_key k) [
          | yes e ↦
              let le = row-le-held e in
              let was = own_units active_units k row e in
              let counted = ap (λ x. active_units x (value row.amount)) alive in
              let before = own_units committed_units k row e in
              let uncounted = ap (λ x. committed_units x (value row.amount)) alive in
              let freed = own_units active_units k row' e ∙ not_active s (value row.amount) ends in
              let settled = own_units committed_units k row' e in
              let bound = committed_units-le s (value row.amount) in
              move-IsTracked k until ceiling r t r' id row s found seq rows
                (held k r - value row.amount) (spent k r + committed_units s (value row.amount))
                (ap (λ c. c.deadline) (here e))
                (ap (λ c. c.reserved) (here e)
                  ∙ ap (λ f. lowered lua f row.amount) t.reserved_is
                  ∙ lowered-exact lua double (held k r) (value row.amount) row.amount
                      (omega (arith, t.below)) (omega (arith, t.below)) refl)
                (ap (λ c. c.committed) (here e)
                  ∙ ap (λ n. n + committed_units s (value row.amount)) t.committed_is)
                (omega arith) (omega arith) (omega (arith, t.below))
          | no d ↦
              let was = no_units active_units k row d in
              let before = no_units committed_units k row d in
              let freed = no_units active_units k row' d in
              let settled = no_units committed_units k row' d in
              move-IsTracked k until ceiling r t r' id row s found seq rows (held k r) (spent k r)
                (ap (λ c. c.deadline) (elsewhere d))
                (ap (λ c. c.reserved) (elsewhere d) ∙ t.reserved_is)
                (ap (λ c. c.committed) (elsewhere d) ∙ t.committed_is) (omega arith) (omega arith)
                (omega (arith, t.below))
        ]

  module _ (r : Redis) (t : IsTracked k until ceiling r) (id : ℕ) (row : Reservation)
      (found : r.reservations id ≡ some row) (alive : row.status ≡ active) where
    -- A reservation that ends with no units committed, whatever becomes of the sorted set.
    pub released-IsTracked :
        (s : ReservationStatus) (z : List (ℤ × ℕ))
        → s ≢ active
        → committed_units s (value row.amount) ≡ 0
        → IsTracked k until ceiling (record (release lua row r) {
          reservations = update ℕ_discrete id (some (record row { status = s })) r.reservations;
          expirations = z;
        })
    unfolding release
    released-IsTracked s z ends nothing =
        ended-IsTracked r t id row found alive _ s ends refl refl
          (λ e.
            release_self lua row k r e
            ∙ ap
                (λ n. record (r.counters k) {
                  reserved = lowered lua (r.counters k).reserved row.amount;
                  committed = n;
                })
                (omega (arith, nothing)))
          (λ d. release_other lua row k r d)

  module _ (r : Redis) (t : IsTracked k until ceiling r) (id : ℕ) (z : List (ℤ × ℕ)) where
    lapse_status-IsTracked :
        (row : Reservation) (s : ReservationStatus)
        → r.reservations id ≡ some row
        → row.status ≡ s
        → IsTracked k until ceiling (record (lapse_status lua id row s r) { expirations = z })
    unfolding release
    lapse_status-IsTracked row active found e =
        released-IsTracked r t id row found e expired z (λ h. cc) refl
    lapse_status-IsTracked row committed found e =
        same-IsTracked k until ceiling r _ t refl refl refl
    lapse_status-IsTracked row refunded found e =
        same-IsTracked k until ceiling r _ t refl refl refl
    lapse_status-IsTracked row expired found e = same-IsTracked k until ceiling r _ t refl refl refl

    lapse_row-IsTracked :
        (o : Option Reservation)
        → r.reservations id ≡ o
        → IsTracked k until ceiling (record (lapse_row lua id o r) { expirations = z })
    lapse_row-IsTracked none e = same-IsTracked k until ceiling r _ t refl refl refl
    lapse_row-IsTracked (some row) e = lapse_status-IsTracked row row.status e refl

  lapse_one-IsTracked :
      (r : Redis) (id : ℕ)
      → IsTracked k until ceiling r
      → IsTracked k until ceiling (lapse_one lua id r)
  unfolding lapse_one
  lapse_one-IsTracked r id t = lapse_row-IsTracked r t id _ (r.reservations id) refl

  lapse_all-IsTracked :
      (ids : List ℕ) (r : Redis)
      → IsTracked k until ceiling r
      → IsTracked k until ceiling (lapse_all lua ids r)
  unfolding lapse_all
  lapse_all-IsTracked [] r t = t
  lapse_all-IsTracked (id ∷ ids) r t =
      lapse_all-IsTracked ids (lapse_one lua id r) (lapse_one-IsTracked r id t)

  pub cleanup_script-IsTracked :
      (now : ℤ) (r : Redis)
      → IsTracked k until ceiling r
      → IsTracked k until ceiling (cleanup_script lua now r).1
  unfolding cleanup_script
  cleanup_script-IsTracked now r t = lapse_all-IsTracked (due now r.expirations) r t
