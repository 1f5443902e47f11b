-- ===== src/Store/Sqlite/Keys.antt =====
-- Rows with an idempotency key in the tables of src/store/sqlite.rs, when rows are added and expire.
use budget_warden.Base.{
  ℕ, ◌≡◌, ◌≢◌, ◌⊎◌, refl, sym, if_pos, if_neg, ◌∙◌, arith, [], ◌∷◌, none, some, true, false,
  Bool-cases, inl, inr, ℕ_discrete,
}
use budget_warden.Base.Map.{HashMap, get, modify, insert}
use budget_warden.Ids.{IdempotencyKey}
use budget_warden.Store.Sql.{RowKey, ReservationRow, Status, Tables}
use budget_warden.Store.Sql.Statements.{
  first_live, is_taken, is_live, is_due, has_key, with_status, due_rows,
}
use budget_warden.Store.Sqlite.Cleaning.{expired_rows, expired_row}
use budget_warden.Time.{Timestamp}

-- The only row with a key is that of an identifier.
abbrev IsOnly : RowKey → IdempotencyKey → ℕ → ReservationRow → HashMap ℕ ReservationRow → Type 0
IsOnly k key x r [] = ⊥
IsOnly k key x r ((j, y) ∷ rs) =
    ((j ≡ x) × (y ≡ r)) ⊎ ((has_key k key y ≡ false) × IsOnly k key x r rs)

-- An identifier is not among those of rows.
abbrev IsAbsent : ℕ → HashMap ℕ ReservationRow → Type 0
IsAbsent x [] = Unit
IsAbsent x ((j, y) ∷ rs) = (x ≢ j) × IsAbsent x rs

module _ (k : RowKey) (key : IdempotencyKey) (x : ℕ) (r : ReservationRow) where
  pub first_live-IsOnly :
      (rs : HashMap ℕ ReservationRow)
      → has_key k key r ≡ true
      → is_live r.status ≡ true
      → IsOnly k key x r rs
      → first_live k key rs ≡ some (x, r)
  unfolding first_live
  first_live-IsOnly [] same live o = absurd o
  first_live-IsOnly ((j, y) ∷ rs) same live (inl (p, q)) = rw (p, q, same, live) refl
  first_live-IsOnly ((j, y) ∷ rs) same live (inr (differs, o)) =
      rw differs (first_live-IsOnly rs same live o)

  modify-IsOnly :
      (id : ℕ) (status : Status) (rs : HashMap ℕ ReservationRow)
      → x ≢ id
      → IsOnly k key x r rs
      → IsOnly k key x r (modify ℕ_discrete id (with_status status) rs)
  unfolding modify
  modify-IsOnly id status [] ne o = o
  modify-IsOnly id status ((j, y) ∷ rs) ne (inl (p, q)) = elim (ℕ_discrete j id) [
    | yes same ↦ absurd (ne (sym p ∙ same))
    | no differs ↦ rw (if_neg (ℕ_discrete j id) differs) (inl (p, q))
  ]
  modify-IsOnly id status ((j, y) ∷ rs) ne (inr (differs, o)) = elim (ℕ_discrete j id) [
    | yes same ↦ rw (if_pos (ℕ_discrete j id) same) (inr (differs, o))
    | no other ↦
        rw (if_neg (ℕ_discrete j id) other) (inr (differs, modify-IsOnly id status rs ne o))
  ]

  pub expired_rows-IsOnly :
      (rows : HashMap ℕ ReservationRow) (t : Tables)
      → IsAbsent x rows
      → IsOnly k key x r t.reservations
      → IsOnly k key x r (expired_rows rows t).reservations
  expired_rows-IsOnly [] t ne o = o
  expired_rows-IsOnly ((id, y) ∷ rows) t ne o =
      expired_rows-IsOnly rows (expired_row id y t) ne.1
        (modify-IsOnly id Status.expired t.reservations ne.0 o)

  pub insert-IsOnly :
      (rs : HashMap ℕ ReservationRow)
      → is_taken k key rs ≡ false
      → get ℕ_discrete x rs ≡ none
      → IsOnly k key x r (insert ℕ_discrete x r rs)
  unfolding insert is_taken get
  insert-IsOnly [] free new = inl (refl, refl)
  insert-IsOnly ((j, y) ∷ rs) free new = elim (ℕ_discrete j x) [
    | yes same ↦ absurd (ground arith)
    | no differs ↦
        rw (if_neg (ℕ_discrete j x) differs)
          (inr (ground arith, insert-IsOnly rs (ground arith) (ground arith)))
  ]

  pub due_rows-IsAbsent :
      (now : Timestamp) (rs : HashMap ℕ ReservationRow)
      → get ℕ_discrete x rs ≡ none
      → is_due now r ≡ false
      → IsAbsent x (due_rows now (insert ℕ_discrete x r rs))
  unfolding insert get due_rows
  due_rows-IsAbsent now [] new lasts = rw lasts tt
  due_rows-IsAbsent now ((j, y) ∷ rs) new lasts = elim (ℕ_discrete j x) [
    | yes same ↦ absurd (ground arith)
    | no differs ↦
        let rest = due_rows-IsAbsent now rs (ground arith) lasts in
        rw (if_neg (ℕ_discrete j x) differs) (elim (Bool-cases (is_due now y)) [
          | inl due ↦ rw due (λ same. differs (sym same), rest)
          | inr not_due ↦ rw not_due rest
        ])
  ]
