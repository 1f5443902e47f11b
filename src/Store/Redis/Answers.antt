-- ===== src/Store/Redis/Answers.antt =====
-- What `RESERVE_SCRIPT` of src/store/redis_store.rs answers, and what it counts.
use budget_warden.Base.{
  ℕ, suc, ◌+◌, ◌≤◌, ◌<◌, ◌≡◌, refl, subst, sym, ap, ◌∙◌, arith, ltb, leb, leb→le, ℤ, pos, leb_ℤ,
  String, Bool-cases, Result, ok, inl, inr, true, false, if◌then◌else◌,
}
use budget_warden.Store.Codec.{i64_max}
use budget_warden.Store.Redis.{
  digits, value, Lua, Redis, set_reserved, counted, incr, incr_reserved,
}
use budget_warden.Store.Redis.Exact.{IsDouble, exact_max, comparison_passes}
use budget_warden.Store.Redis.Entering.{
  Keeps, fits, sum_is, written_own, committed_at-spent, reserved_at-held, total_counted,
}
use budget_warden.Store.Redis.Granting.{reserve_new-IsTracked}
use budget_warden.Store.Redis.Scripts.{
  ReserveCall, Values, and_then, written, committed_at, reserved_at, enter, reserve_new,
}
use budget_warden.Store.Redis.Tally.{held, spent}
use budget_warden.Store.Redis.Tracked.{IsTracked}

-- The answers, in numbers: a reservation with the units that are used then, or the units that are.
abbrev pub granting : ReserveCall → ℕ → ℕ → ℕ → Values
granting c id spent held = record {
  granted = pos 1;
  id = pos id;
  committed = pos spent;
  reserved = pos held;
  expires_at = c.expires_at;
}

abbrev pub denying : ℕ → ℕ → Values
denying spent held = record {
  granted = pos 0;
  id = pos 0;
  committed = pos spent;
  reserved = pos held;
  expires_at = pos 0;
}

digits_injective : (n m : ℕ) → digits n ≡ digits m → n ≡ m
digits_injective n m e = ap value e

within_i64 : (n : ℕ) → n ≤ i64_max → leb n i64_max ≡ true
within_i64 n h = ground arith

module _ (lua : Lua) (double : IsDouble lua) (k : String) (until : ℤ) (ceiling : ℕ)
    (small : ceiling < exact_max) (c : ReserveCall) (at : ℤ) (before : leb_ℤ until at ≡ false)
    (keeps : Keeps k until ceiling c) (own : c.counter_key ≡ k) (r : Redis)
    (t : IsTracked k until ceiling r) (ids : suc r.sequence ≤ i64_max) where
  abbrev total : ℕ
  total = spent k r + held k r + c.amount

  test_false :
      total ≤ c.effective_limit
      → ltb (lua.number c.effective_limit) (
          lua.number (
            lua.number (committed_at lua c.counter_key r + reserved_at lua c.counter_key r)
            + lua.number c.amount))
        ≡ false
  test_false h =
      ap (λ n. ltb (lua.number c.effective_limit) (lua.number (n + lua.number c.amount)))
        (total_counted lua double k until ceiling small c at before keeps r t own)
      ∙ comparison_passes lua double c.effective_limit (spent k r + held k r) c.amount
          (omega (arith, keeps.within own)) h

  committed_reply : lua.reply (committed_at lua c.counter_key r) ≡ pos (spent k r)
  committed_reply =
      ap lua.reply (committed_at-spent lua double k until ceiling small c at before keeps r t own)
      ∙ double.answered (spent k r) (omega (arith, t.below))

  reserved_now_reply : lua.reply (reserved_at lua c.counter_key r) ≡ pos (held k r)
  reserved_now_reply =
      ap lua.reply (reserved_at-held lua double k until ceiling small c at before keeps r t own)
      ∙ double.answered (held k r) (omega (arith, t.below))

  reserved_reply :
      total ≤ c.effective_limit
      → lua.reply (lua.number (reserved_at lua c.counter_key r + lua.number c.amount))
        ≡ pos (held k r + c.amount)
  reserved_reply h =
      let bound = keeps.within own in
      (λ i. lua.reply (
        lua.number (
          reserved_at-held lua double k until ceiling small c at before keeps r t own i
          + double.exact c.amount (omega arith) i)))
      ∙ ap lua.reply (double.exact (held k r + c.amount) (omega arith))
      ∙ double.answered (held k r + c.amount) (omega arith)

  enter-answer :
      total ≤ c.effective_limit
      → (enter lua c at (committed_at lua c.counter_key r) (reserved_at lua c.counter_key r) r) ≡ (
        ok (granting c (suc r.sequence) (spent k r) (held k r + c.amount)),
        written lua c at (suc r.sequence) (
            set_reserved c.counter_key
              (digits (held k r + c.amount))
              (record r { sequence = suc r.sequence })),
      )
  unfolding enter incr incr_reserved
  enter-answer h = rw (within_i64 (suc r.sequence) ids) (
      ap rest (sum_is lua double k until ceiling small c at before keeps r t (test_false h) own)
      ∙ ap (λ v. (ok v, (rest (ok (held k r + c.amount))).1)) reported)
    where
      after : Values
      after = record {
        granted = pos 1;
        id = pos (suc r.sequence);
        committed = lua.reply (committed_at lua c.counter_key r);
        reserved = lua.reply (lua.number (reserved_at lua c.counter_key r + lua.number c.amount));
        expires_at = c.expires_at;
      }

      rest : Result String ℕ → Result String Values × Redis
      rest n =
          and_then (λ _ r'. (ok after, written lua c at (suc r.sequence) r'))
            (counted (λ m. set_reserved c.counter_key (digits m)) n
              (record r { sequence = suc r.sequence }))

      reported : after ≡ granting c (suc r.sequence) (spent k r) (held k r + c.amount)
      reported i = record {
        granted = pos 1;
        id = pos (suc r.sequence);
        committed = committed_reply i;
        reserved = reserved_reply h i;
        expires_at = c.expires_at;
      }

  -- The two ends of the script, on the counter's own reservations.
  abbrev values_of : Values
  values_of =
      if leb total c.effective_limit
      then granting c (suc r.sequence) (spent k r) (held k r + c.amount)
      else denying (spent k r) (held k r)

  abbrev counted_units : ℕ
  counted_units = if leb total c.effective_limit then c.amount else 0

  denied_answer :
      c.effective_limit < total → reserve_new lua c at r ≡ (ok (denying (spent k r) (held k r)), r)
  unfolding reserve_new
  denied_answer h =
      elim (Bool-cases (
        ltb (lua.number c.effective_limit) (
          lua.number (
            lua.number (committed_at lua c.counter_key r + reserved_at lua c.counter_key r)
            + lua.number c.amount)))) [
              | inl e ↦ rw e (λ i. (
                ok (record {
                  granted = pos 0;
                  id = pos 0;
                  committed = committed_reply i;
                  reserved = reserved_now_reply i;
                  expires_at = pos 0;
                }),
                r,
              ))
              | inr e ↦ absurd (
                  omega
                    (arith, h, fits lua double k until ceiling small c at before keeps r t e own))
            ]

  abbrev pub after : Redis
  after = written lua c at (suc r.sequence) (
      set_reserved c.counter_key (digits (held k r + c.amount))
        (record r { sequence = suc r.sequence }))

  pub granted_answer :
      total ≤ c.effective_limit
      → reserve_new lua c at r
        ≡ (ok (granting c (suc r.sequence) (spent k r) (held k r + c.amount)), after)
  unfolding reserve_new
  granted_answer h = rw (test_false h) (enter-answer h)

  pub after-counts :
      total ≤ c.effective_limit → (held k after ≡ held k r + c.amount) × (spent k after ≡ spent k r)
  after-counts h =
      let t' : IsTracked k until ceiling after =
        subst (λ x. IsTracked k until ceiling x.1) (granted_answer h)
          (reserve_new-IsTracked lua double k until ceiling small c at before keeps r t) in
      let counter =
        written_own lua double k until ceiling small c at before keeps r t (test_false h)
          (held k r + c.amount) own refl in
      (
        digits_injective _ _ (sym t'.reserved_is ∙ ap (λ x. x.reserved) counter),
        sym t'.committed_is ∙ ap (λ x. x.committed) counter ∙ t.committed_is,
      )

  -- A request that is not a repetition is granted exactly when its units fit under its limit with all
  -- that the counter's reservations come to; then it gets the next identifier and its units are
  -- reserved, and otherwise nothing changes. The answer is the usage: up to an instant of the server to
  -- which the invariant of the counter holds, for a limit below 2^53 to which all requests keep.
  pub reserve_new-answers :
      let (answer, r') = reserve_new lua c at r in
      (answer ≡ ok values_of) × (held k r' ≡ held k r + counted_units) × (spent k r' ≡ spent k r)
  reserve_new-answers = elim (Bool-cases (leb total c.effective_limit)) [
    | inl e ↦
        let h = leb→le total c.effective_limit e in
        rw (e, granted_answer h) (refl, (after-counts h).0, (after-counts h).1)
    | inr e ↦ rw (e, denied_answer (ground arith)) (refl, omega arith, refl)
  ]
