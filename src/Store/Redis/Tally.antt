-- ===== src/Store/Redis/Tally.antt =====
-- What the reservations in the Redis server of src/store/redis_store.rs come to for a counter.
use budget_warden.Base.{
  ℕ, zero, suc, ◌+◌, ◌≤◌, ◌<◌, ◌≡◌, ◌≢◌, arith, refl, sym, ap, ◌∙◌, String, String-discrete, Option,
  none, some, ite, if_pos, if_neg, ℕ_discrete,
}
use budget_warden.Store.Memory.{ReservationStatus, active, committed}
use budget_warden.Store.Redis.{value, Reservation, Redis, update}

abbrev pub sum_to : (ℕ → ℕ) → ℕ → ℕ
sum_to f zero = f zero
sum_to f (suc n) = f (suc n) + sum_to f n

sum_to-same : (f g : ℕ → ℕ) (n : ℕ) → ((j : ℕ) → f j ≡ g j) → sum_to f n ≡ sum_to g n
sum_to-same f g zero same = same zero
sum_to-same f g (suc n) same = omega (arith, same (suc n), sum_to-same f g n same)

sum_to-off :
    (f g : ℕ → ℕ) (i n : ℕ) → n < i → ((j : ℕ) → i ≢ j → f j ≡ g j) → sum_to f n ≡ sum_to g n
sum_to-off f g i zero above same = same zero (λ e. omega (arith, e))
sum_to-off f g i (suc n) above same =
    omega (arith, same (suc n) (λ e. omega (arith, e)), sum_to-off f g i n (omega arith) same)

-- Two families that differ in one place.
sum_to-swap :
    (f g : ℕ → ℕ) (i n : ℕ)
    → i ≤ n
    → ((j : ℕ) → i ≢ j → f j ≡ g j)
    → sum_to g n + f i ≡ sum_to f n + g i
sum_to-swap f g i zero below same = let e : i ≡ zero = omega arith in rw e (omega arith)
sum_to-swap f g i (suc n) below same = elim (ℕ_discrete i (suc n)) [
  | yes e ↦ rw e (omega (arith, sum_to-off f g (suc n) n (omega arith) (rw (sym e) same)))
  | no d ↦ omega (arith, same (suc n) d, sum_to-swap f g i n (omega (arith, d)) same)
]

sum_to-term : (f : ℕ → ℕ) (i n : ℕ) → i ≤ n → f i ≤ sum_to f n
sum_to-term f i zero below = let e : i ≡ zero = omega arith in rw e (omega arith)
sum_to-term f i (suc n) below = elim (ℕ_discrete i (suc n)) [
  | yes e ↦ rw e (omega arith)
  | no d ↦ omega (arith, sum_to-term f i n (omega (arith, d)))
]

-- What a reservation counts for while it is active, and when it has been committed.
abbrev pub active_units : ReservationStatus → ℕ → ℕ
active_units active n = n
active_units _ n = 0

abbrev pub committed_units : ReservationStatus → ℕ → ℕ
committed_units committed n = n
committed_units _ n = 0

abbrev pub Weight : Type 0
Weight = ReservationStatus → ℕ → ℕ

abbrev pub row_units : Weight → String → Reservation → ℕ
row_units w k row = ite (String-discrete row.counter_key k) (w row.status (value row.amount)) 0

abbrev pub units : Weight → String → Option Reservation → ℕ
units w k none = 0
units w k (some row) = row_units w k row

abbrev pub tally : Weight → String → Redis → ℕ
tally w k r = sum_to (λ id. units w k (r.reservations id)) r.sequence

-- What is reserved and what is committed on a counter, by its reservations.
abbrev pub held : String → Redis → ℕ
held = tally active_units

abbrev pub spent : String → Redis → ℕ
spent = tally committed_units

module _ {K V : Type 0} (dec : Discrete K) where
  pub update_self : (k : K) (v : V) (f : K → V) → update dec k v f k ≡ v
  update_self k v f = if_pos (dec k k) refl _ _

  pub update_ne : (k j : K) (v : V) (f : K → V) → k ≢ j → update dec k v f j ≡ f j
  update_ne k j v f d = if_neg (dec k j) d _ _

module _ (w : Weight) (k : String) where
  -- Reservations that count the same.
  pub tally-same :
      (r r' : Redis)
      → r'.sequence ≡ r.sequence
      → ((id : ℕ) → units w k (r'.reservations id) ≡ units w k (r.reservations id))
      → tally w k r' ≡ tally w k r
  tally-same r r' e same =
      (λ i. sum_to (λ id. units w k (r'.reservations id)) (e i)) ∙ sum_to-same _ _ r.sequence same

  module _ (r r' : Redis) (o : Option Reservation) where
    -- A write at one identifier that has been given out.
    pub tally-put :
        (id : ℕ)
        → r'.sequence ≡ r.sequence
        → id ≤ r.sequence
        → r'.reservations ≡ update ℕ_discrete id o r.reservations
        → tally w k r' + units w k (r.reservations id) ≡ tally w k r + units w k o
    tally-put id e below rows =
        let f = λ (j : ℕ). units w k (r.reservations j) in
        let g = λ (j : ℕ). units w k (update ℕ_discrete id o r.reservations j) in
        let moved : tally w k r' ≡ sum_to g r.sequence =
          λ i. sum_to (λ j. units w k (rows i j)) (e i) in
        let here : g id ≡ units w k o =
          ap (units w k) (update_self ℕ_discrete id o r.reservations) in
        omega (
          arith,
          moved,
          here,
          sum_to-swap f g id r.sequence below
              (λ j d. ap (units w k) (sym (update_ne ℕ_discrete id j o r.reservations d))),
        )

    -- A new identifier.
    pub tally-new :
        r'.sequence ≡ suc r.sequence
        → r'.reservations ≡ update ℕ_discrete (suc r.sequence) o r.reservations
        → tally w k r' ≡ units w k o + tally w k r
    tally-new e rows =
        let n = suc r.sequence in
        let f = λ (j : ℕ). units w k (r.reservations j) in
        let g = λ (j : ℕ). units w k (update ℕ_discrete n o r.reservations j) in
        let moved : tally w k r' ≡ g n + sum_to g r.sequence =
          λ i. sum_to (λ j. units w k (rows i j)) (e i) in
        let here : g n ≡ units w k o = ap (units w k) (update_self ℕ_discrete n o r.reservations) in
        omega (
          arith,
          moved,
          here,
          sum_to-off g f n r.sequence (omega arith)
              (λ j d. ap (units w k) (update_ne ℕ_discrete n j o r.reservations d)),
        )

  pub units-le-tally :
      (r : Redis) (id : ℕ) → id ≤ r.sequence → units w k (r.reservations id) ≤ tally w k r
  units-le-tally r id below = sum_to-term (λ j. units w k (r.reservations j)) id r.sequence below
