-- ===== src/Store/Redis/Clearing.antt =====
-- What `CLEANUP_SCRIPT` of src/store/redis_store.rs clears.
use budget_warden.Base.{
  ℕ, ◌≡◌, ◌≢◌, ◌↔◌, refl, sym, ap, ◌∙◌, ℤ, leb_ℤ, Bool-cases, false, Option, none, some, List, [],
  ◌∷◌, inl, inr, ℕ_discrete, String,
}
use budget_warden.Store.Memory.{ReservationStatus, active, committed, refunded, expired}
use budget_warden.Store.Redis.{Lua, Reservation, Redis, due}
use budget_warden.Store.Redis.Listing.{Reach-IsListed}
use budget_warden.Store.Redis.Members.{Among, due_listed, due-Lists}
use budget_warden.Store.Redis.Reach.{Reach}
use budget_warden.Store.Redis.Ends.{
  release, lapse_status, lapse_row, lapse_one, lapse_all, cleanup_script,
}
use budget_warden.Store.Redis.Tally.{update_self, update_ne}

module _ (lua : Lua) where
  lapse_status-keeps :
      (r : Redis) (id j : ℕ) (row : Reservation) (s : ReservationStatus)
      → id ≢ j
      → (lapse_status lua id row s r).reservations j ≡ r.reservations j
  unfolding release
  lapse_status-keeps r id j row active d =
      update_ne ℕ_discrete id j (some (record row { status = expired })) r.reservations d
  lapse_status-keeps r id j row committed d = refl
  lapse_status-keeps r id j row refunded d = refl
  lapse_status-keeps r id j row expired d = refl

  lapse_row-keeps :
      (r : Redis) (id j : ℕ) (o : Option Reservation)
      → id ≢ j
      → (lapse_row lua id o r).reservations j ≡ r.reservations j
  lapse_row-keeps r id j none d = refl
  lapse_row-keeps r id j (some row) d = lapse_status-keeps r id j row row.status d

  pub lapse_one-keeps :
      (r : Redis) (id j : ℕ) → id ≢ j → (lapse_one lua id r).reservations j ≡ r.reservations j
  unfolding lapse_one
  lapse_one-keeps r id j d = lapse_row-keeps r id j (r.reservations id) d

  lapse_status-ends :
      (r : Redis) (id : ℕ) (row row' : Reservation) (s : ReservationStatus)
      → r.reservations id ≡ some row
      → row.status ≡ s
      → (lapse_status lua id row s r).reservations id ≡ some row'
      → row'.status ≢ active
  unfolding release
  lapse_status-ends r id row row' active found e after alive = cc (
    sym (update_self ℕ_discrete id (some (record row { status = expired })) r.reservations) ∙ after,
    alive,
  )
  lapse_status-ends r id row row' committed found e after alive = cc (found, e, after, alive)
  lapse_status-ends r id row row' refunded found e after alive = cc (found, e, after, alive)
  lapse_status-ends r id row row' expired found e after alive = cc (found, e, after, alive)

  lapse_row-ends :
      (r : Redis) (id : ℕ) (o : Option Reservation) (row' : Reservation)
      → r.reservations id ≡ o
      → (lapse_row lua id o r).reservations id ≡ some row'
      → row'.status ≢ active
  lapse_row-ends r id none row' e after = λ alive. cc (e, after)
  lapse_row-ends r id (some row) row' e after =
      lapse_status-ends r id row row' row.status e refl after

  lapse_one-ends :
      (r : Redis) (id : ℕ) (row : Reservation)
      → (lapse_one lua id r).reservations id ≡ some row
      → row.status ≢ active
  unfolding lapse_one
  lapse_one-ends r id row after = lapse_row-ends r id (r.reservations id) row refl after

  -- An active reservation that is left was there, and was not among those that were due.
  lapse_all-active :
      (ids : List ℕ) (r : Redis) (id : ℕ) (row : Reservation)
      → (lapse_all lua ids r).reservations id ≡ some row
      → row.status ≡ active
      → (r.reservations id ≡ some row) × (Among id ids → ⊥)
  unfolding lapse_all
  lapse_all-active [] r id row found alive = (found, λ h. h)
  lapse_all-active (j ∷ ids) r id row found alive =
      let before = lapse_all-active ids (lapse_one lua j r) id row found alive in
      elim (ℕ_discrete j id) [
        | yes e ↦ absurd (
            lapse_one-ends r id row
              (ap (λ i. (lapse_one lua i r).reservations id) (sym e) ∙ before.0) alive)
        | no d ↦ (
          sym (lapse_one-keeps r j id d) ∙ before.0,
          λ h. elim h [ inl e ↦ d e | inr m ↦ before.1 m ],
        )
      ]

  pub lapse_all-keeps :
      (ids : List ℕ) (r : Redis) (id : ℕ)
      → (Among id ids → ⊥)
      → (lapse_all lua ids r).reservations id ≡ r.reservations id
  unfolding lapse_all
  lapse_all-keeps [] r id d = refl
  lapse_all-keeps (j ∷ ids) r id d =
      lapse_all-keeps ids (lapse_one lua j r) id (λ m. d (inr m))
      ∙ lapse_one-keeps r j id (λ e. d (inl e))

  -- After a cleanup at an instant, in any state that scripts make: the reservations that are still
  -- active are those that were active and run out later, and they are as they were.
  pub cleanup_script-clears :
      (k : String) (until : ℤ) (ceiling : ℕ) (now : ℤ) (r : Redis)
      → Reach lua k until ceiling r
      → (id : ℕ) (row : Reservation) → row.status ≡ active
      → ((cleanup_script lua now r).1.reservations id ≡ some row)
        ↔ ((r.reservations id ≡ some row) × (leb_ℤ row.expires_at now ≡ false))
  unfolding cleanup_script
  cleanup_script-clears k until ceiling now r h id row alive = (
    λ found.
        let before = lapse_all-active (due now r.expirations) r id row found alive in
        (
          before.0,
          elim (Bool-cases (leb_ℤ row.expires_at now)) [
            | inl e ↦ absurd (
                before.1 (
                  due_listed row.expires_at id now r.expirations
                    ((Reach-IsListed lua k until ceiling r h).listed id row before.0 alive) e))
            | inr e ↦ e
          ],
        ),
    λ p.
        lapse_all-keeps (due now r.expirations) r id (λ m.
          let d = due-Lists now id r.expirations m in
          cc (p.1, d.2, (Reach-IsListed lua k until ceiling r h).scored d.0 id row d.1 p.0))
        ∙ p.0,
  )
