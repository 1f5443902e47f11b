-- ===== src/Store/Redis/Tracked.antt =====
-- The invariant of one counter of src/store/redis_store.rs, up to an instant of the server, and how
-- writes keep it.
use budget_warden.Base.{
  ℕ, suc, ◌+◌, ◌≤◌, ◌<◌, ◌≡◌, refl, sym, ap, ◌∙◌, arith, ℤ, leb_ℤ, leb, String, String-discrete,
  Bool, Bool-cases, Option-cases, true, Option, none, some, some_injective, inl, inr, if_neg,
  if◌then◌else◌, ℕ_discrete,
}
use budget_warden.Store.Memory.{ReservationStatus}
use budget_warden.Store.Redis.{digits, Reservation, Redis, outlives, if_there, evict, update}
use budget_warden.Store.Redis.Tally.{
  active_units, committed_units, Weight, row_units, units, tally, held, spent, update_self,
  update_ne, tally-same, tally-put, tally-new,
}

-- Identifiers that have not been given out have no reservation. Until the instant, the counter and
-- its reservations stay; the counter's two fields are the sums of its reservations, and within a
-- ceiling.
pub record IsTracked (k : String) (until : ℤ) (ceiling : ℕ) (r : Redis) : Type 0 where
  pub unused : (id : ℕ) → r.sequence < id → r.reservations id ≡ none
  pub rows_stay :
      (id : ℕ) (row : Reservation)
      → r.reservations id ≡ some row
      → row.counter_key ≡ k
      → outlives until row.deadline ≡ true
  pub counter_stays : outlives until (r.counters k).deadline ≡ true
  pub reserved_is : (r.counters k).reserved ≡ digits (held k r)
  pub committed_is : (r.counters k).committed ≡ spent k r
  pub below : spent k r + held k r ≤ ceiling

-- An earlier instant is outlived as well.
outlives_earlier :
    (at until : ℤ) (deadline : Option ℤ)
    → leb_ℤ at until ≡ true
    → outlives until deadline ≡ true
    → outlives at deadline ≡ true
outlives_earlier at until none h e = refl
outlives_earlier at until (some d) h e = ground arith

pub there :
    {A : Type 0} (test : A → Bool) (o : Option A) {a : A} → if_there test o ≡ some a → o ≡ some a
there test none e = e
there test (some b) e = elim (Bool-cases (test b)) [
  | inl p ↦ sym (ap (λ c. if c then some b else none) p) ∙ e
  | inr p ↦ cc (sym (ap (λ c. if c then some b else none) p) ∙ e)
]

module _ (k : String) (until : ℤ) (ceiling : ℕ) (r : Redis) (t : IsTracked k until ceiling r) where
  pub given_out : (id : ℕ) (row : Reservation) → r.reservations id ≡ some row → id ≤ r.sequence
  given_out id row found = elim (Bool-cases (leb id r.sequence)) [
    | inl e ↦ ground arith
    | inr e ↦ cc (found, t.unused id (ground arith))
  ]

  -- A write at one reservation, and at its counter.
  module _ (r' : Redis) (id : ℕ) (row : Reservation) (s : ReservationStatus)
      (found : r.reservations id ≡ some row) (seq : r'.sequence ≡ r.sequence)
      (rows : r'.reservations
        ≡ update ℕ_discrete id (some (record row { status = s })) r.reservations) where
    moved :
        (w : Weight)
        → tally w k r' + row_units w k row ≡ tally w k r + row_units w k (record row { status = s })
    moved w =
        ap (λ o. tally w k r' + units w k o) (sym found)
        ∙ tally-put w k r r' (some (record row { status = s })) id seq (given_out id row found) rows

    row_after :
        (j : ℕ) (row' : Reservation)
        → r'.reservations j ≡ some row'
        → row'.counter_key ≡ k
        → outlives until row'.deadline ≡ true
    row_after j row' here same = elim (ℕ_discrete id j) [
      | yes e ↦
          let p : some (record row { status = s }) ≡ some row' =
            sym (update_self ℕ_discrete id (some (record row { status = s })) r.reservations)
            ∙ ap (update ℕ_discrete id (some (record row { status = s })) r.reservations) e
            ∙ sym (λ i. rows i j)
            ∙ here in
          let q = some_injective p in
          ap (λ x. outlives until x.deadline) (sym q)
          ∙ t.rows_stay id row found (ap (λ x. x.counter_key) q ∙ same)
      | no d ↦
          t.rows_stay j row'
            (sym (update_ne ℕ_discrete id j (some (record row { status = s })) r.reservations d)
              ∙ sym (λ i. rows i j)
              ∙ here)
            same
    ]

    -- The fields of the counter move as the units of the reservation do.
    pub move-IsTracked :
        (h c : ℕ)
        → (r'.counters k).deadline ≡ (r.counters k).deadline
        → (r'.counters k).reserved ≡ digits h
        → (r'.counters k).committed ≡ c
        → h + row_units active_units k row
          ≡ held k r + row_units active_units k (record row { status = s })
        → c + row_units committed_units k row
          ≡ spent k r + row_units committed_units k (record row { status = s })
        → c + h ≤ ceiling
        → IsTracked k until ceiling r'
    move-IsTracked h c stays reserved committed held_is spent_is fits = record {
      unused = λ j above.
          (λ i. rows i j)
          ∙ update_ne ℕ_discrete id j (some (record row { status = s })) r.reservations
              (λ e. omega (arith, e, given_out id row found))
          ∙ t.unused j (omega arith);
      rows_stay = row_after;
      counter_stays = ap (outlives until) stays ∙ t.counter_stays;
      reserved_is = reserved ∙ ap digits (omega (arith, moved active_units, held_is));
      committed_is = committed ∙ omega (arith, moved committed_units, spent_is);
      below = omega (arith, moved active_units, held_is, moved committed_units, spent_is);
    }

  -- What the server removes before the instant is not of the counter.
  module _ (at : ℤ) (early : leb_ℤ at until ≡ true) where
    pub stays_there :
        (id : ℕ) (row : Reservation)
        → r.reservations id ≡ some row
        → row.counter_key ≡ k
        → outlives at row.deadline ≡ true
    stays_there id row found same =
        outlives_earlier at until row.deadline early (t.rows_stay id row found same)

    units-evict :
        (w : Weight) (id : ℕ)
        → units w k ((evict at r).reservations id) ≡ units w k (r.reservations id)
    unfolding evict
    units-evict w id = elim (Option-cases (r.reservations id)) [
      | inl e ↦ rw e refl
      | inr (row, e) ↦ rw e (elim (Bool-cases (outlives at row.deadline)) [
        | inl b ↦ rw b refl
        | inr b ↦ rw b (
            sym (
              if_neg (String-discrete row.counter_key k) (λ same. cc (b, stays_there id row e same))
                _ _))
      ])
    ]

    kept_row :
        (id : ℕ) (row : Reservation)
        → (evict at r).reservations id ≡ some row
        → r.reservations id ≡ some row
    unfolding evict
    kept_row id row = there (λ row'. outlives at row'.deadline) (r.reservations id)

    same_counter : (evict at r).counters k ≡ r.counters k
    unfolding evict
    same_counter = rw (outlives_earlier at until (r.counters k).deadline early t.counter_stays) refl

    pub same_tally : (w : Weight) → tally w k (evict at r) ≡ tally w k r
    unfolding evict
    same_tally w = tally-same w k r (evict at r) refl (units-evict w)

    pub evict-IsTracked : IsTracked k until ceiling (evict at r)
    unfolding evict
    evict-IsTracked = record {
      unused = λ id above. rw (t.unused id above) refl;
      rows_stay = λ id row found. t.rows_stay id row (kept_row id row found);
      counter_stays = ap (λ c. outlives until c.deadline) same_counter ∙ t.counter_stays;
      reserved_is =
          ap (λ c. c.reserved) same_counter
          ∙ t.reserved_is
          ∙ ap digits (sym (same_tally active_units));
      committed_is =
          ap (λ c. c.committed) same_counter ∙ t.committed_is ∙ sym (same_tally committed_units);
      below = omega (arith, same_tally active_units, same_tally committed_units, t.below);
    }

  -- A new reservation.
  module _ (r' : Redis) (o : Option Reservation) (seq : r'.sequence ≡ suc r.sequence)
      (rows : r'.reservations ≡ update ℕ_discrete (suc r.sequence) o r.reservations) where
    entered_row :
        ((row : Reservation)
          → o ≡ some row
          → row.counter_key ≡ k
          → outlives until row.deadline ≡ true)
        → (id : ℕ) (row : Reservation) → r'.reservations id ≡ some row
        → row.counter_key ≡ k
        → outlives until row.deadline ≡ true
    entered_row stays id row here same = elim (ℕ_discrete (suc r.sequence) id) [
      | yes e ↦
          stays row
            (sym (update_self ℕ_discrete (suc r.sequence) o r.reservations)
              ∙ ap (update ℕ_discrete (suc r.sequence) o r.reservations) e
              ∙ sym (λ i. rows i id)
              ∙ here)
            same
      | no d ↦
          t.rows_stay id row
            (sym (update_ne ℕ_discrete (suc r.sequence) id o r.reservations d)
              ∙ sym (λ i. rows i id)
              ∙ here)
            same
    ]

    pub enter-IsTracked :
        ((row : Reservation)
          → o ≡ some row
          → row.counter_key ≡ k
          → outlives until row.deadline ≡ true)
        → outlives until (r'.counters k).deadline ≡ true
        → (r'.counters k).reserved ≡ digits (units active_units k o + held k r)
        → (r'.counters k).committed ≡ units committed_units k o + spent k r
        → units committed_units k o + spent k r + (units active_units k o + held k r) ≤ ceiling
        → IsTracked k until ceiling r'
    enter-IsTracked stays counter reserved committed fits = record {
      unused = λ j above.
          (λ i. rows i j)
          ∙ update_ne ℕ_discrete (suc r.sequence) j o r.reservations (λ e. omega (arith, e))
          ∙ t.unused j (omega arith);
      rows_stay = entered_row stays;
      counter_stays = counter;
      reserved_is = reserved ∙ ap digits (sym (tally-new active_units k r r' o seq rows));
      committed_is = committed ∙ sym (tally-new committed_units k r r' o seq rows);
      below = omega (
        arith,
        fits,
        tally-new active_units k r r' o seq rows,
        tally-new committed_units k r r' o seq rows,
      );
    }
