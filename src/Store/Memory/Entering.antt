-- ===== src/Store/Memory/Entering.antt =====
-- `reserve_if_allowed` of src/store/memory.rs: the invariant, and the limit.
use budget_warden.Base.{
  ◌+◌, ◌≤◌, ◌<◌, ◌≡◌, refl, ap, ite, [], ◌∷◌, none, some, arith, inl, inr, ◌⊎◌, ℕ_discrete, u64_max,
  saturating_add, Option, ◌+ℤ◌,
}
use budget_warden.Base.Map.{HashMap, get, insert, get-insert_ne, get-insert}
use budget_warden.Base.Sums.{total-insert_new}
use budget_warden.Ids.{ReservationId, IdempotencyKey}
use budget_warden.Store.{ReserveRequest}
use budget_warden.Store.Memory.{
  CounterKey, index-discrete, active, CounterRecord, ReservationRecord, MemoryState, counter_at,
}
use budget_warden.Store.Memory.Reserve.{remember, enter}
use budget_warden.Store.Memory.Counters.{counter_at-insert}
use budget_warden.Store.Memory.Valid.{
  IsValid, IsBalanced, IsDistinct, active_weight, committed_weight, held, spent,
}

insert-IsDistinct :
    (id : ReservationId) (r : ReservationRecord) (rs : HashMap ReservationId ReservationRecord)
    → get ℕ_discrete id rs ≡ none
    → IsDistinct rs
    → IsDistinct (insert ℕ_discrete id r rs)
unfolding insert get
insert-IsDistinct id r [] e d = (refl, tt)
insert-IsDistinct id r ((j, x) ∷ rs) e d =
    ground (arith, insert-IsDistinct id r rs, get-insert_ne ℕ_discrete id j r rs)

-- The record that `enter` makes.
abbrev pub entered : ReserveRequest → CounterKey → ReservationRecord
entered req k = record {
  counter_key = k;
  amount = req.amount;
  expires_at = req.now +ℤ req.reservation_ttl;
  status = active;
}

-- An idempotency key is known after `enter` because it has just been entered or was known before.
get-remember :
    (k j : CounterKey) (o : Option IdempotencyKey) (key : IdempotencyKey) (id x : ReservationId)
    (m : HashMap (CounterKey × IdempotencyKey) ReservationId)
    → get index-discrete (j, key) (remember k o id m) ≡ some x
    → ((k ≡ j) × (id ≡ x)) ⊎ (get index-discrete (j, key) m ≡ some x)
get-remember k j none key id x m e = inr e
get-remember k j (some key') key id x m e = elim (index-discrete (k, key') (j, key)) [
  | yes p ↦ inl (ap (λ q. q.0) p, ground (arith, get-insert index-discrete (k, key') (j, key) id m))
  | no p ↦ inr (ground (arith, get-insert index-discrete (k, key') (j, key) id m))
]

-- The counter that `enter` writes.
abbrev pub grown : ReserveRequest → CounterKey → MemoryState → CounterRecord
grown req k s =
    let c = counter_at s.counters k in record c { reserved = saturating_add c.reserved req.amount }

module _ (req : ReserveRequest) (k : CounterKey) (s : MemoryState) (v : IsValid s)
    (amount_pos : 0 < req.amount)
    (fits : (counter_at s.counters k).committed + (counter_at s.counters k).reserved + req.amount
      ≤ u64_max) where
  abbrev pub after : MemoryState
  after = (enter req k (s.next_id + 1) (record s { next_id = s.next_id + 1 })).1

  new_id : get ℕ_discrete (s.next_id + 1) s.reservations ≡ none
  new_id = v.fresh (s.next_id + 1) (omega arith)

  pub held-enter : (j : CounterKey) → held j after ≡ held j s + active_weight j (entered req k)
  unfolding enter
  held-enter j =
      total-insert_new ℕ_discrete (active_weight j) (s.next_id + 1) (entered req k) s.reservations
        new_id

  pub spent-enter : (j : CounterKey) → spent j after ≡ spent j s
  unfolding enter
  spent-enter j = ground (
    arith,
    total-insert_new ℕ_discrete (committed_weight j) (s.next_id + 1) (entered req k) s.reservations
        new_id,
  )

  enter-IsBalanced : (j : CounterKey) → IsBalanced after j
  unfolding enter
  enter-IsBalanced j =
      let b = v.balanced j in
      let c = counter_at-insert s.counters k j (grown req k s) in
      record {
        reserved = ground (arith, held-enter j, c, b.reserved);
        committed = ground (arith, spent-enter j, c, b.committed);
        bounded = ground (arith, held-enter j, spent-enter j, b.bounded, b.reserved, b.committed);
      }

  get-enter :
      (id : ReservationId)
      → get ℕ_discrete id after.reservations
        ≡ ite
            (ℕ_discrete (s.next_id + 1) id)
            (some (entered req k))
            (get ℕ_discrete id s.reservations)
  unfolding enter
  get-enter id = get-insert ℕ_discrete (s.next_id + 1) id (entered req k) s.reservations

  enter-remembered :
      (j : CounterKey) (key : IdempotencyKey) (id : ReservationId)
      → get index-discrete (j, key) after.idempotency ≡ some id
      → (r : ReservationRecord) × (get ℕ_discrete id after.reservations ≡ some r)
        × (r.counter_key ≡ j)
  unfolding enter
  enter-remembered j key id e =
      elim (get-remember k j req.idempotency_key key (s.next_id + 1) id s.idempotency e) [
        | inl (same, new) ↦ (entered req k, ground (arith, get-enter id), same)
        | inr old ↦
            let (r, f, same) = v.remembered j key id old in
            (r, ground (arith, get-enter id, new_id), same)
      ]

  pub enter-IsValid : IsValid (enter req k (s.next_id + 1) (record s { next_id = s.next_id + 1 })).1
  unfolding enter
  enter-IsValid = record {
    distinct = insert-IsDistinct (s.next_id + 1) (entered req k) s.reservations new_id v.distinct;
    fresh = λ id h. ground (arith, get-enter id, v.fresh id (omega arith));
    balanced = enter-IsBalanced;
    positive = λ id r e. ground (arith, get-enter id, v.positive id r);
    remembered = enter-remembered;
  }
