-- ===== src/Store/Redis/Listed.antt =====
-- The sorted set of src/store/redis_store.rs lists every active reservation under the instant at which it
-- runs out.
use budget_warden.Base.{
  ℕ, suc, ◌≤◌, ◌<◌, ◌≡◌, ◌≢◌, refl, sym, ap, ◌∙◌, subst, arith, ℤ, Option, none, some,
  some_injective, inl, inr, ℕ_discrete,
}
use budget_warden.Store.Memory.{active}
use budget_warden.Store.Redis.{Reservation, Redis, outlives, evict, update, zrem, zadd, fresh}
use budget_warden.Store.Redis.Members.{
  Lists, zrem-keeps, zrem-removes, zadd-adds, zadd-keeps, zadd-only,
}
use budget_warden.Store.Redis.Tally.{update_self, update_ne}
use budget_warden.Store.Redis.Tracked.{there}

pub record IsListed (r : Redis) : Type 0 where
  pub unused : (id : ℕ) → r.sequence < id → r.reservations id ≡ none
  pub known : (s : ℤ) (id : ℕ) → Lists s id r.expirations → id ≤ r.sequence
  pub listed :
      (id : ℕ) (row : Reservation)
      → r.reservations id ≡ some row
      → row.status ≡ active
      → Lists row.expires_at id r.expirations
  pub scored :
      (s : ℤ) (id : ℕ) (row : Reservation)
      → Lists s id r.expirations
      → r.reservations id ≡ some row
      → s ≡ row.expires_at

pub fresh-IsListed : IsListed fresh
fresh-IsListed = record {
  unused = λ id above. refl;
  known = λ s id h. absurd h;
  listed = λ id row found. cc found;
  scored = λ s id row h. absurd h;
}

module _ (r : Redis) (t : IsListed r) where
  pub same-IsListed :
      (r' : Redis)
      → r.sequence ≤ r'.sequence
      → r'.reservations ≡ r.reservations
      → r'.expirations ≡ r.expirations
      → IsListed r'
  same-IsListed r' seq rows set = record {
    unused = λ id above. (λ i. rows i id) ∙ t.unused id (omega arith);
    known = λ s id h. omega (arith, t.known s id (subst (Lists s id) set h));
    listed = λ id row found alive.
        subst (Lists row.expires_at id) (sym set)
          (t.listed id row (sym (λ i. rows i id) ∙ found) alive);
    scored = λ s id row h found.
        t.scored s id row (subst (Lists s id) set h) (sym (λ i. rows i id) ∙ found);
  }

  pub evict-IsListed : (at : ℤ) → IsListed (evict at r)
  unfolding evict
  evict-IsListed at = record {
    unused = λ id above. rw (t.unused id above) refl;
    known = t.known;
    listed = λ id row found. t.listed id row (there (λ x. outlives at x.deadline) _ found);
    scored = λ s id row h found. t.scored s id row h (there (λ x. outlives at x.deadline) _ found);
  }

  -- Where nothing has been written.
  elsewhere :
      (r' : Redis) (id : ℕ) (o : Option Reservation)
      → r'.reservations ≡ update ℕ_discrete id o r.reservations
      → (j : ℕ) (row : Reservation) → id ≢ j
      → r'.reservations j ≡ some row
      → r.reservations j ≡ some row
  elsewhere r' id o rows j row d found =
      sym (update_ne ℕ_discrete id j o r.reservations d) ∙ sym (λ i. rows i j) ∙ found

  -- Where it has.
  written_there :
      (r' : Redis) (id : ℕ) (o : Option Reservation)
      → r'.reservations ≡ update ℕ_discrete id o r.reservations
      → (j : ℕ) (row : Reservation) → id ≡ j
      → r'.reservations j ≡ some row
      → o ≡ some row
  written_there r' id o rows j row e found =
      sym (update_self ℕ_discrete id o r.reservations)
      ∙ ap (update ℕ_discrete id o r.reservations) e
      ∙ sym (λ i. rows i j)
      ∙ found

  -- A reservation that ends leaves the set.
  pub end-IsListed :
      (r' : Redis) (id : ℕ) (ended : Reservation)
      → id ≤ r.sequence
      → ended.status ≢ active
      → r'.sequence ≡ r.sequence
      → r'.reservations ≡ update ℕ_discrete id (some ended) r.reservations
      → r'.expirations ≡ zrem id r.expirations
      → IsListed r'
  end-IsListed r' id ended given over seq rows set = record {
    unused = λ j above.
        (λ i. rows i j)
        ∙ update_ne ℕ_discrete id j (some ended) r.reservations (λ e. omega (arith, e))
        ∙ t.unused j (omega arith);
    known = λ s j h.
        omega (arith, t.known s j (zrem-removes s j id r.expirations (subst (Lists s j) set h)).1);
    listed = λ j row found alive. subst (Lists row.expires_at j) (sym set) (elim (ℕ_discrete id j) [
      | yes e ↦ absurd (
          over (
            ap (λ x. x.status)
              (some_injective (written_there r' id (some ended) rows j row e found))
            ∙ alive))
      | no d ↦
          zrem-keeps row.expires_at j id r.expirations d
            (t.listed j row (elsewhere r' id (some ended) rows j row d found) alive)
    ]);
    scored = λ s j row h found.
        let m = zrem-removes s j id r.expirations (subst (Lists s j) set h) in
        t.scored s j row m.1 (elsewhere r' id (some ended) rows j row m.0 found);
  }

  -- A number with no active reservation leaves it.
  pub drop-IsListed :
      (id : ℕ)
      → ((row : Reservation) → r.reservations id ≡ some row → row.status ≢ active)
      → IsListed (record r { expirations = zrem id r.expirations })
  drop-IsListed id over = record {
    unused = t.unused;
    known = λ s j h. t.known s j (zrem-removes s j id r.expirations h).1;
    listed = λ j row found alive.
        zrem-keeps row.expires_at j id r.expirations
          (λ e. over row (ap r.reservations e ∙ found) alive) (t.listed j row found alive);
    scored = λ s j row h. t.scored s j row (zrem-removes s j id r.expirations h).1;
  }

  -- A new reservation enters it.
  pub new-IsListed :
      (r' : Redis) (o : Option Reservation) (expires_at : ℤ)
      → ((row : Reservation) → o ≡ some row → row.expires_at ≡ expires_at)
      → r'.sequence ≡ suc r.sequence
      → r'.reservations ≡ update ℕ_discrete (suc r.sequence) o r.reservations
      → r'.expirations ≡ zadd expires_at (suc r.sequence) r.expirations
      → IsListed r'
  new-IsListed r' o expires_at at_expiry seq rows set = record {
    unused = λ j above.
        (λ i. rows i j)
        ∙ update_ne ℕ_discrete (suc r.sequence) j o r.reservations (λ e. omega (arith, e))
        ∙ t.unused j (omega arith);
    known = λ s j h.
        elim (zadd-only s j expires_at (suc r.sequence) r.expirations (subst (Lists s j) set h)) [
          | inl p ↦ omega (arith, p.1)
          | inr q ↦ omega (arith, t.known s j q)
        ];
    listed = λ j row found alive.
        subst (Lists row.expires_at j) (sym set) (elim (ℕ_discrete (suc r.sequence) j) [
          | yes e ↦
              subst (λ x. Lists x j (zadd expires_at (suc r.sequence) r.expirations))
                (sym (at_expiry row (written_there r' (suc r.sequence) o rows j row e found)))
                (subst (λ i. Lists expires_at i (zadd expires_at (suc r.sequence) r.expirations)) e
                  (zadd-adds expires_at (suc r.sequence) r.expirations))
          | no d ↦
              zadd-keeps row.expires_at j expires_at (suc r.sequence) r.expirations
                (t.listed j row (elsewhere r' (suc r.sequence) o rows j row d found) alive)
        ]);
    scored = λ s j row h found. elim (ℕ_discrete (suc r.sequence) j) [
      | yes e ↦
          elim (zadd-only s j expires_at (suc r.sequence) r.expirations (subst (Lists s j) set h)) [
            | inl p ↦
                sym p.0
                ∙ sym (at_expiry row (written_there r' (suc r.sequence) o rows j row e found))
            | inr q ↦ absurd (omega (arith, e, t.known s j q))
          ]
      | no d ↦
          elim (zadd-only s j expires_at (suc r.sequence) r.expirations (subst (Lists s j) set h)) [
            | inl p ↦ absurd (d p.1)
            | inr q ↦ t.scored s j row q (elsewhere r' (suc r.sequence) o rows j row d found)
          ]
    ];
  }
