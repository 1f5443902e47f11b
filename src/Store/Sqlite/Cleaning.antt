-- ===== src/Store/Sqlite/Cleaning.antt =====
-- `cleanup_expired` of src/store/sqlite.rs over a connection on which nothing fails, seen as that of
-- src/store/memory.rs.
use budget_warden.Base.{
  ℕ, ◌≡◌, refl, sym, ap, ◌∙◌, arith, List, [], ◌∷◌, none, some, Option-cases, Bool-cases, inl, inr,
  ok, ℕ_discrete,
}
use budget_warden.Base.Map.{HashMap, get, modify, get-modify}
use budget_warden.Store.Memory
use budget_warden.Store.Memory.{expire_one, expire_all, expired_ids, release, set_status}
use budget_warden.Store.Memory.Cleanup.{cleanup_expired-IsValid}
use budget_warden.Store.Memory.Valid.{IsDistinct}
use budget_warden.Store.Sql.{
  Status, active, committed, refunded, expired, other_status, ReservationRow, Tables, Engine,
  Connection, execute,
}
use budget_warden.Store.Sql.Statements.{
  is_active, is_due, due_rows, release_counter, update_status, with_status, released,
}
use budget_warden.Store.Sql.View.{
  view, view_row, view_rows, view_status, AreValid, get-view_rows, view-with_status,
  view-modify_counter,
}
use budget_warden.Store.Sqlite.{expire_rows, cleanup_expired}
use budget_warden.Time.{Timestamp}

-- A connection over which every request is carried out.
abbrev pub calm : Tables → Tables → Connection
calm d w = record { durable = d; working = w; events = [] }

abbrev pub expired_row : ℕ → ReservationRow → Tables → Tables
expired_row id r t = update_status id Status.expired (release_counter r.row_key r.amount t)

abbrev pub expired_rows : HashMap ℕ ReservationRow → Tables → Tables
expired_rows [] t = t
expired_rows ((id, r) ∷ rows) t = expired_rows rows (expired_row id r t)

expire_rows-calm :
    (e : Engine) (rows : HashMap ℕ ReservationRow) (d w : Tables)
    → expire_rows e rows (calm d w) ≡ (ok tt, calm d (expired_rows rows w))
unfolding expire_rows execute
expire_rows-calm e [] d w = refl
expire_rows-calm e ((id, r) ∷ rows) d w = expire_rows-calm e rows d (expired_row id r w)

-- The tables after the reservations that are due have expired.
abbrev pub cleaned : Timestamp → Tables → Tables
cleaned now t = expired_rows (due_rows now t.reservations) t

pub cleanup_expired-calm :
    (e : Engine) (now : Timestamp) (d w : Tables)
    → cleanup_expired e now (calm d w) ≡ (ok tt, calm d (cleaned (e.stored now) w))
unfolding cleanup_expired execute
cleanup_expired-calm e now d w = expire_rows-calm e (due_rows (e.stored now) w.reservations) d w

-- Each row stands in the table, perhaps with another status.
abbrev AreRows : HashMap ℕ ReservationRow → HashMap ℕ ReservationRow → Type 0
AreRows [] rs = Unit
AreRows ((id, r) ∷ rows) rs =
    ((x : ReservationRow) × (get ℕ_discrete id rs ≡ some x)
      × (x.row_key ≡ r.row_key)
      × (x.amount ≡ r.amount))
    × AreRows rows rs

update-AreRows :
    (id : ℕ) (status : Status) (rows rs : HashMap ℕ ReservationRow)
    → AreRows rows rs
    → AreRows rows (modify ℕ_discrete id (with_status status) rs)
update-AreRows id status [] rs a = tt
update-AreRows id status ((j, r) ∷ rows) rs ((x, e, k, m), a) =
    let g = get-modify ℕ_discrete id j (with_status status) rs in
    elim (ℕ_discrete id j) [
      | yes p ↦
          ((with_status status x, ground (arith, g), k, m), update-AreRows id status rows rs a)
      | no p ↦ ((x, ground (arith, g), k, m), update-AreRows id status rows rs a)
    ]

cons-AreRows :
    (id : ℕ) (r : ReservationRow) (now : Timestamp) (rows rs : HashMap ℕ ReservationRow)
    → get ℕ_discrete id rs ≡ none
    → AreRows rows rs
    → AreRows rows ((id, r) ∷ rs)
unfolding get
cons-AreRows id r now [] rs n a = tt
cons-AreRows id r now ((j, y) ∷ rows) rs n ((x, e, k, m), a) =
    ((x, ground arith, k, m), cons-AreRows id r now rows rs n a)

pub absent_row :
    (id : ℕ) (rs : HashMap ℕ ReservationRow)
    → get ℕ_discrete id (view_rows rs) ≡ none
    → get ℕ_discrete id rs ≡ none
absent_row id rs e = elim (Option-cases (get ℕ_discrete id rs)) [
  | inl n ↦ n
  | inr (r, n) ↦ absurd (let m = get-view_rows id rs n in cc)
]

due_rows-AreRows :
    (now : Timestamp) (rs : HashMap ℕ ReservationRow)
    → IsDistinct (view_rows rs)
    → AreRows (due_rows now rs) rs
unfolding due_rows get
due_rows-AreRows now [] d = tt
due_rows-AreRows now ((id, r) ∷ rs) d =
    let rest =
      cons-AreRows id r now (due_rows now rs) rs (absent_row id rs d.0)
        (due_rows-AreRows now rs d.1) in
    elim (Bool-cases (is_due now r)) [
      | inl due ↦ rw due ((r, ground arith, refl, refl), rest)
      | inr alive ↦ rw alive rest
    ]

-- The identifiers of rows.
abbrev ids : HashMap ℕ ReservationRow → List ℕ
ids [] = []
ids ((id, r) ∷ rows) = id ∷ ids rows

view-is_active : (s : Status) → Memory.is_active (view_status s) ≡ is_active s
view-is_active active = refl
view-is_active committed = refl
view-is_active refunded = refl
view-is_active expired = refl
view-is_active (other_status w) = refl

view-due_rows :
    (now : Timestamp) (rs : HashMap ℕ ReservationRow)
    → expired_ids now (view_rows rs) ≡ ids (due_rows now rs)
unfolding due_rows expired_ids
view-due_rows now [] = refl
view-due_rows now ((id, r) ∷ rs) = elim (Bool-cases (is_due now r)) [
  | inl due ↦ rw (view-is_active r.status, due, view-due_rows now rs) refl
  | inr alive ↦ rw (view-is_active r.status, alive, view-due_rows now rs) refl
]

pub view-expired_row :
    (id : ℕ) (r : ReservationRow) (t : Tables)
    → view (expired_row id r t) ≡ (record (view t) {
      counters =
          modify Memory.CounterKey-discrete
            (view_row r).counter_key
            (release r.amount)
            (view t).counters;
      reservations = modify ℕ_discrete id (set_status Memory.expired) (view t).reservations;
    })
view-expired_row id r t =
    rw
      (
        view-with_status id Status.expired t.reservations,
        view-modify_counter r.row_key (released r.amount) (release r.amount) t.counters
            (λ c e. refl),
      )
      refl

view-expired_rows :
    (rows : HashMap ℕ ReservationRow) (t : Tables)
    → AreRows rows t.reservations
    → view (expired_rows rows t) ≡ expire_all (ids rows) (view t)
unfolding expire_all expire_one
view-expired_rows [] t a = refl
view-expired_rows ((id, r) ∷ rows) t ((x, e, k, m), a) =
    view-expired_rows rows (expired_row id r t)
      (update-AreRows id Status.expired rows t.reservations a)
    ∙ ap (expire_all (ids rows)) one
  where
    one : view (expired_row id r t) ≡ expire_one id (view t)
    one = rw (view-expired_row id r t, get-view_rows id t.reservations e, expire_one, k, m) refl

pub view-cleaned :
    (now : Timestamp) (t : Tables)
    → AreValid t
    → view (cleaned now t) ≡ Memory.cleanup_expired now (view t)
unfolding Memory.cleanup_expired
view-cleaned now t v =
    view-expired_rows (due_rows now t.reservations) t
      (due_rows-AreRows now t.reservations v.distinct)
    ∙ ap (λ l. expire_all l (view t)) (sym (view-due_rows now t.reservations))

pub cleaned-AreValid : (now : Timestamp) (t : Tables) → AreValid t → AreValid (cleaned now t)
cleaned-AreValid now t v = rw (view-cleaned now t v) (cleanup_expired-IsValid now (view t) v)
