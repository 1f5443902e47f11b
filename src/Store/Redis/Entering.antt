-- ===== src/Store/Redis/Entering.antt =====
-- What `RESERVE_SCRIPT` of src/store/redis_store.rs writes when it reserves, and the invariant of a
-- counter.
use budget_warden.Base.{
  ℕ, suc, ◌+◌, ◌≤◌, ◌<◌, ◌≡◌, ◌≢◌, refl, sym, ap, ◌∙◌, subst, arith, ltb, leb, ℤ, leb_ℤ, String,
  String-discrete, Bool, Bool-cases, Result, ok, ok-injective, err, panic, none, some, inl, inr,
  true, false, if_pos, if_neg, if◌then◌else◌, ℕ_discrete, some_injective,
}
use budget_warden.Store.Codec.{i64_max}
use budget_warden.Store.Memory.{active}
use budget_warden.Store.Redis.{
  digits, value, Lua, Reservation, Redis, update, millis, outlives, counted, set_reserved, hincrby,
  Script, incr, incr_reserved, expire_counter, no_counter,
}
use budget_warden.Store.Redis.Exact.{IsDouble, exact_max, comparison_exact}
use budget_warden.Store.Redis.Scripts.{
  ReserveCall, Values, and_then, new_row, written, committed_at, reserved_at, enter,
}
use budget_warden.Store.Redis.Tally.{
  active_units, committed_units, Weight, units, held, spent, update_self, update_ne,
}
use budget_warden.Store.Redis.Tracked.{IsTracked, enter-IsTracked}

-- A request for the counter keeps to the ceiling, and its deadline is not before the instant.
pub record Keeps (k : String) (until : ℤ) (ceiling : ℕ) (c : ReserveCall) : Type 0 where
  pub within : c.counter_key ≡ k → c.effective_limit ≤ ceiling
  pub retained : c.counter_key ≡ k → leb_ℤ until (millis c.retention_expires_at) ≡ true

within_i64 : (n : ℕ) → n ≤ i64_max → leb n i64_max ≡ true
within_i64 n h = ground arith

pub ahead : (at until d : ℤ) → leb_ℤ until at ≡ false → leb_ℤ until d ≡ true → leb_ℤ d at ≡ false
ahead at until d late h = ground arith

pub made : {A : Type 0} (b : Bool) (x y : A) → (if b then none else some x) ≡ some y → x ≡ y
made true x y e = cc e
made false x y e = some_injective e

module _ (lua : Lua) (double : IsDouble lua) (k : String) (until : ℤ) (ceiling : ℕ)
    (small : ceiling < exact_max) (c : ReserveCall) (at : ℤ) (before : leb_ℤ until at ≡ false)
    (keeps : Keeps k until ceiling c) where
  abbrev row : Reservation
  row = record {
    counter_key = c.counter_key;
    amount = lua.text (lua.number c.amount);
    status = active;
    expires_at = c.expires_at;
    deadline = some (millis c.retention_expires_at);
  }

  pub kept_row : c.counter_key ≡ k → new_row lua c at ≡ some row
  kept_row own =
      ap (λ b. if b then none else some row)
        (ahead at until (millis c.retention_expires_at) before (keeps.retained own))

  -- Another's reservation does not count.
  other_row : (w : Weight) → c.counter_key ≢ k → units w k (new_row lua c at) ≡ 0
  other_row w d = elim (Bool-cases (leb_ℤ (millis c.retention_expires_at) at)) [
    | inl e ↦ rw e refl
    | inr e ↦ rw e (if_neg (String-discrete c.counter_key k) d _ _)
  ]

  new_row-stays :
      (row' : Reservation)
      → new_row lua c at ≡ some row'
      → row'.counter_key ≡ k
      → outlives until row'.deadline ≡ true
  new_row-stays row' e own =
      let p = made (leb_ℤ (millis c.retention_expires_at) at) row row' e in
      ap (λ x. outlives until x.deadline) (sym p) ∙ keeps.retained (ap (λ x. x.counter_key) p ∙ own)

  module _ (r : Redis) (t : IsTracked k until ceiling r) (own : c.counter_key ≡ k) where
    -- What the script reads of the counter is what its reservations come to.
    pub committed_at-spent : committed_at lua c.counter_key r ≡ spent k r
    committed_at-spent =
        ap (λ x. committed_at lua x r) own
        ∙ ap lua.number t.committed_is
        ∙ double.exact (spent k r) (omega (arith, t.below))

    pub reserved_at-held : reserved_at lua c.counter_key r ≡ held k r
    reserved_at-held =
        ap (λ x. reserved_at lua x r) own
        ∙ ap (λ f. lua.number (value f)) t.reserved_is
        ∙ double.exact (held k r) (omega (arith, t.below))

    pub total_counted :
        lua.number (committed_at lua c.counter_key r + reserved_at lua c.counter_key r)
        ≡ spent k r + held k r
    total_counted =
        (λ i. lua.number (committed_at-spent i + reserved_at-held i))
        ∙ double.exact (spent k r + held k r) (omega (arith, t.below))

  module _ (r : Redis) (t : IsTracked k until ceiling r)
      (passes : ltb (lua.number c.effective_limit) (
          lua.number (
            lua.number (committed_at lua c.counter_key r + reserved_at lua c.counter_key r)
            + lua.number c.amount))
        ≡ false) where
    pub fits : c.counter_key ≡ k → spent k r + held k r + c.amount ≤ c.effective_limit
    fits own =
        comparison_exact lua double c.effective_limit (spent k r + held k r) c.amount
          (omega (arith, keeps.within own))
          (ap (λ n. ltb (lua.number c.effective_limit) (lua.number (n + lua.number c.amount)))
              (sym (total_counted r t own))
            ∙ passes)

    amount_text : c.counter_key ≡ k → lua.text (lua.number c.amount) ≡ digits c.amount
    amount_text own =
        ap lua.text (double.exact c.amount (omega (arith, fits own, keeps.within own)))
        ∙ double.written c.amount (omega (arith, fits own, keeps.within own))

    -- The sequence alone has moved.
    no_row : (j : ℕ) → r.reservations j ≡ update ℕ_discrete (suc r.sequence) none r.reservations j
    no_row j = elim (ℕ_discrete (suc r.sequence) j) [
      | yes e ↦
          ap r.reservations (sym e)
          ∙ t.unused (suc r.sequence) (omega arith)
          ∙ sym (update_self ℕ_discrete (suc r.sequence) none r.reservations)
          ∙ ap (update ℕ_discrete (suc r.sequence) none r.reservations) e
      | no d ↦ sym (update_ne ℕ_discrete (suc r.sequence) j none r.reservations d)
    ]

    skipped : IsTracked k until ceiling (record r { sequence = suc r.sequence })
    skipped =
        enter-IsTracked k until ceiling r t (record r { sequence = suc r.sequence }) none refl
          (λ i j. no_row j i) (λ row' e. cc e) t.counter_stays
          (t.reserved_is ∙ ap digits (omega arith)) (t.committed_is ∙ omega arith)
          (omega (arith, t.below))

    -- All has been written.
    entered :
        (r' : Redis)
        → r'.sequence ≡ suc r.sequence
        → r'.reservations ≡ update ℕ_discrete (suc r.sequence) (new_row lua c at) r.reservations
        → (c.counter_key ≡ k
            → r'.counters k ≡ record (r.counters k) {
              reserved = digits (held k r + c.amount);
              deadline = some (millis c.retention_expires_at);
            })
        → (c.counter_key ≢ k → r'.counters k ≡ r.counters k)
        → IsTracked k until ceiling r'
    entered r' seq rows here elsewhere = elim (String-discrete c.counter_key k) [
      | yes own ↦
          let a : units active_units k (new_row lua c at) ≡ c.amount =
            ap (units active_units k) (kept_row own)
            ∙ if_pos (String-discrete c.counter_key k) own _ _
            ∙ ap value (amount_text own) in
          let z : units committed_units k (new_row lua c at) ≡ 0 =
            ap (units committed_units k) (kept_row own)
            ∙ if_pos (String-discrete c.counter_key k) own _ _ in
          enter-IsTracked k until ceiling r t r' (new_row lua c at) seq rows new_row-stays
            (ap (λ x. outlives until x.deadline) (here own) ∙ keeps.retained own)
            (ap (λ x. x.reserved) (here own) ∙ ap digits (omega (arith, a)))
            (ap (λ x. x.committed) (here own) ∙ t.committed_is ∙ omega (arith, z))
            (omega (arith, a, z, fits own, keeps.within own))
      | no d ↦
          let a = other_row active_units d in
          let z = other_row committed_units d in
          enter-IsTracked k until ceiling r t r' (new_row lua c at) seq rows new_row-stays
            (ap (λ x. outlives until x.deadline) (elsewhere d) ∙ t.counter_stays)
            (ap (λ x. x.reserved) (elsewhere d) ∙ t.reserved_is ∙ ap digits (omega (arith, a)))
            (ap (λ x. x.committed) (elsewhere d) ∙ t.committed_is ∙ omega (arith, z))
            (omega (arith, a, z, t.below))
    ]

    -- The sum of the counter's units is exact, and within the range.
    abbrev sum_of : Result String ℕ
    sum_of = hincrby lua (r.counters c.counter_key).reserved (lua.text (lua.number c.amount))

    pub sum_is : c.counter_key ≡ k → sum_of ≡ ok (held k r + c.amount)
    sum_is own =
        (λ i.
          hincrby lua ((ap (λ x. (r.counters x).reserved) own ∙ t.reserved_is) i)
            (amount_text own i))
        ∙ ap (λ b. if b then ok (held k r + c.amount) else err lua.overflow_error)
            (within_i64 (held k r + c.amount) (omega (arith, fits own, keeps.within own)))

    -- The counter, when all has been written.
    pub written_own :
        (m : ℕ)
        → c.counter_key ≡ k
        → m ≡ held k r + c.amount
        → (written lua c at (suc r.sequence) (
              set_reserved c.counter_key
                (digits m)
                (record r { sequence = suc r.sequence }))).counters
            k
          ≡ record (r.counters k) {
            reserved = digits (held k r + c.amount);
            deadline = some (millis c.retention_expires_at);
          }
    written_own m own e =
        let x = record (r.counters c.counter_key) { reserved = digits m } in
        if_pos (String-discrete c.counter_key k) own _ _
        ∙ ap (expire_counter at c.retention_expires_at)
            (update_self String-discrete c.counter_key x r.counters)
        ∙ ap
            (λ b.
              if b
              then no_counter
              else record x { deadline = some (millis c.retention_expires_at) })
            (ahead at until (millis c.retention_expires_at) before (keeps.retained own))
        ∙ (λ i. record (r.counters (own i)) {
          reserved = digits (e i);
          deadline = some (millis c.retention_expires_at);
        })

    -- The sum of the counter succeeds or it fails.
    entered_rule :
        (n : Result String ℕ) (f : Unit {0} → Script Values)
        → sum_of ≡ n
        → ((r' : Redis) → (f tt r').1 ≡ written lua c at (suc r.sequence) r')
        → IsTracked k until ceiling
            (and_then f (
              counted
                (λ m. set_reserved c.counter_key (digits m))
                n
                (record r { sequence = suc r.sequence }))).1
    entered_rule (ok m) f e writes = subst (IsTracked k until ceiling) (sym (writes _)) (
        entered _ refl refl (λ own. written_own m own (ok-injective (sym e ∙ sum_is own)))
          (λ d.
            if_neg (String-discrete c.counter_key k) d _ _
            ∙ update_ne String-discrete c.counter_key k
                (record (r.counters c.counter_key) { reserved = digits m }) r.counters d))
    entered_rule (err m) f e writes = skipped
    entered_rule panic f e writes = skipped

    pub enter_rule :
        (used reserved : ℕ) → IsTracked k until ceiling (enter lua c at used reserved r).1
    unfolding enter incr incr_reserved
    enter_rule used reserved = elim (Bool-cases (leb (suc r.sequence) i64_max)) [
      | inl e ↦ rw e (entered_rule sum_of _ refl (λ r'. refl))
      | inr e ↦ rw e t
    ]
