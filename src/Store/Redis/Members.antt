-- ===== src/Store/Redis/Members.antt =====
-- The members of the sorted set of src/store/redis_store.rs.
use budget_warden.Base.{
  ℕ, ◌≡◌, ◌≢◌, ◌==◌, refl, ap, ◌∙◌, subst, arith, ℤ, leb_ℤ, Bool-cases, true, List, [], ◌∷◌, ◌⊎◌,
  inl, inr, if◌then◌else◌,
}
use budget_warden.Store.Redis.{zrem, zadd, due}

-- A member with its score, and a number among others.
abbrev pub Lists : ℤ → ℕ → List (ℤ × ℕ) → Type 0
Lists s id [] = ⊥
Lists s id ((t, j) ∷ z) = ((t ≡ s) × (j ≡ id)) ⊎ Lists s id z

abbrev pub Among : ℕ → List ℕ → Type 0
Among id [] = ⊥
Among id (j ∷ ids) = (j ≡ id) ⊎ Among id ids

module _ (s : ℤ) (id : ℕ) where
  pub zrem-keeps : (j : ℕ) (z : List (ℤ × ℕ)) → j ≢ id → Lists s id z → Lists s id (zrem j z)
  unfolding zrem
  zrem-keeps j [] d h = h
  zrem-keeps j ((t, i) ∷ z) d h = elim (Bool-cases (i == j)) [
    | inl e ↦
        rw e (elim h [ inl p ↦ absurd (d (ground (arith, p.1))) | inr q ↦ zrem-keeps j z d q ])
    | inr e ↦ rw e (elim h [ inl p ↦ inl p | inr q ↦ inr (zrem-keeps j z d q) ])
  ]

  pub zrem-removes : (j : ℕ) (z : List (ℤ × ℕ)) → Lists s id (zrem j z) → (j ≢ id) × Lists s id z
  unfolding zrem
  zrem-removes j [] h = absurd h
  zrem-removes j ((t, i) ∷ z) h = elim (Bool-cases (i == j)) [
    | inl e ↦
        let q =
          zrem-removes j z
            (subst (λ b. Lists s id (if b then zrem j z else (t, i) ∷ zrem j z)) e h) in
        (q.0, inr q.1)
    | inr e ↦ elim (subst (λ b. Lists s id (if b then zrem j z else (t, i) ∷ zrem j z)) e h) [
      | inl p ↦ ((λ same. ground (arith, e, p.1, same)), inl p)
      | inr q ↦ let rest = zrem-removes j z q in (rest.0, inr rest.1)
    ]
  ]

  pub zadd-adds : (z : List (ℤ × ℕ)) → Lists s id (zadd s id z)
  unfolding zadd
  zadd-adds [] = inl (refl, refl)
  zadd-adds ((t, i) ∷ z) = elim (Bool-cases (leb_ℤ t s)) [
    | inl e ↦ rw e (inr (zadd-adds z))
    | inr e ↦ rw e (inl (refl, refl))
  ]

  pub zadd-keeps : (t : ℤ) (j : ℕ) (z : List (ℤ × ℕ)) → Lists s id z → Lists s id (zadd t j z)
  unfolding zadd
  zadd-keeps t j [] h = absurd h
  zadd-keeps t j ((u, i) ∷ z) h = elim (Bool-cases (leb_ℤ u t)) [
    | inl e ↦ rw e (elim h [ inl p ↦ inl p | inr q ↦ inr (zadd-keeps t j z q) ])
    | inr e ↦ rw e (inr h)
  ]

  pub zadd-only :
      (t : ℤ) (j : ℕ) (z : List (ℤ × ℕ))
      → Lists s id (zadd t j z)
      → ((t ≡ s) × (j ≡ id)) ⊎ Lists s id z
  unfolding zadd
  zadd-only t j [] h = h
  zadd-only t j ((u, i) ∷ z) h = elim (Bool-cases (leb_ℤ u t)) [
    | inl e ↦
        elim (subst (λ b. Lists s id (if b then (u, i) ∷ zadd t j z else (t, j) ∷ (u, i) ∷ z)) e
          h) [
            | inl p ↦ inr (inl p)
            | inr q ↦ elim (zadd-only t j z q) [ inl p ↦ inl p | inr m ↦ inr (inr m) ]
          ]
    | inr e ↦ subst (λ b. Lists s id (if b then (u, i) ∷ zadd t j z else (t, j) ∷ (u, i) ∷ z)) e h
  ]

  pub due_listed :
      (now : ℤ) (z : List (ℤ × ℕ)) → Lists s id z → leb_ℤ s now ≡ true → Among id (due now z)
  unfolding due
  due_listed now [] h le = absurd h
  due_listed now ((t, j) ∷ z) (inl p) le = rw (ap (λ x. leb_ℤ x now) p.0 ∙ le) (inl p.1)
  due_listed now ((t, j) ∷ z) (inr q) le = elim (Bool-cases (leb_ℤ t now)) [
    | inl e ↦ rw e (inr (due_listed now z q le))
    | inr e ↦ rw e (due_listed now z q le)
  ]

-- A number that is due is a member.
pub due-Lists :
    (now : ℤ) (id : ℕ) (z : List (ℤ × ℕ))
    → Among id (due now z)
    → (s : ℤ) × Lists s id z × (leb_ℤ s now ≡ true)
unfolding due
due-Lists now id [] h = absurd h
due-Lists now id ((t, j) ∷ z) h = elim (Bool-cases (leb_ℤ t now)) [
  | inl e ↦ elim (subst (λ b. Among id (if b then j ∷ due now z else due now z)) e h) [
    | inl p ↦ (t, inl (refl, p), e)
    | inr q ↦ let m = due-Lists now id z q in (m.0, inr m.1, m.2)
  ]
  | inr e ↦
      let m =
        due-Lists now id z (subst (λ b. Among id (if b then j ∷ due now z else due now z)) e h) in
      (m.0, inr m.1, m.2)
]
