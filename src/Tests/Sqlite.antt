-- ===== src/Tests/Sqlite.antt =====
-- Runs of src/store/sqlite.rs, over connections that fail and over one that does not.
use budget_warden.Broker
use budget_warden.Broker.Embedded.{sqlite_warden, reserve-Keeps}
use budget_warden.Policy.{BudgetPolicy}
use budget_warden.Registry.{find}
use budget_warden.Store.Sql.Atomic.{over}
use budget_warden.Store.Sqlite.History.{reserve-AreWithin}
use budget_warden.Tests.Data.{utc, registry, plain_policy, asking, search_key}
use budget_warden.Base.{
  ◌≤◌, ◌<◌, ◌⊎◌, some_injective, subst, sym, ◌∙◌, ◌+◌, ◌≡◌, refl, ap, none, some, ok, arith, pos,
  ◌+ℤ◌, List, [], ◌∷◌, ℕ_discrete, false,
}
use budget_warden.Base.Map.{get, insert, modify}
use budget_warden.Store.{ReserveRequest, allowed}
use budget_warden.Store.Memory.{CounterKey}
use budget_warden.Store.Memory.Tasks.{reserve, commit}
use budget_warden.Store.Memory.Valid.{empty-IsValid, held, spent}
use budget_warden.Store.Sql.{
  RowKey, RowKey-discrete, Tables, Engine, ReservationRow, Status, works, fails, lost, empty,
}
use budget_warden.Store.Sql.Atomic.{IsAtomic}
use budget_warden.Store.Sql.View.{view, view_key}
use budget_warden.Store.Sqlite.{row_key, reserve_if_allowed}
use budget_warden.Store.Sqlite.Finish.{finish_reservation, commits, refunds}
use budget_warden.Store.Sqlite.Agreement.{finish_reservation-answers}
use budget_warden.Store.Sqlite.Counterpart.{is_known, finish_in_memory}
use budget_warden.Store.Sqlite.Atomicity.{reserve_if_allowed-IsAtomic}
use budget_warden.Store.Sqlite.Cleaning.{calm}
use budget_warden.Store.Sqlite.Granting.{reserve_if_allowed-answers, Grants, Denies, demand_rows}
use budget_warden.Store.Sqlite.History.{
  Attempt, attempt, attempt_all, attempt_all-AreWithin, attempt-AreWithin,
}
use budget_warden.Store.Sql.Entering.{counter}
use budget_warden.Store.Sqlite.Undisturbed.{row_usage}
use budget_warden.Store.Sqlite.Once.{Try, try_all, finish_reservation-once}
use budget_warden.Store.Sqlite.Retry.{retry_after_expiry}
use budget_warden.Store.Sqlite.Keeping.{AreWithin}
use budget_warden.Tests.Data.{reserving, search_store_key, first_minute, noon}
use budget_warden.Time.{Timestamp}

-- One process alone with its file.
abbrev pub embedded : Engine
embedded = record {
  stored = λ t. t;
  between = λ t. t;
  checks_sums = false;
  overflow_error = "integer overflow";
  unique_error = "UNIQUE constraint failed";
  full_error = "database or disk is full";
}

abbrev pub searches : RowKey
searches = row_key embedded search_store_key first_minute

abbrev pub later : Timestamp
later = pos 31_000_000_000

-- The answer to the first commit is lost, and the commit is made again.
abbrev attempts : List Attempt
attempts =
    record { call = reserve (reserving 6); events = [] }
    ∷ record { call = reserve (reserving 5); events = works ∷ fails "disk I/O error" ∷ [] }
    ∷ record {
      call = commit 1 later;
      events = works ∷ works ∷ works ∷ works ∷ lost "disk I/O error" ∷ [];
    }
    ∷ record { call = commit 1 later; events = [] }
    ∷ []

attempt_all-AreWithin_example :
    AreWithin (view_key searches) 10 (attempt_all embedded attempts empty)
attempt_all-AreWithin_example =
    attempt_all-AreWithin (view_key searches) 10 embedded (λ t w. w) attempts
      ((λ same. omega arith), ((λ same. omega arith), (tt, (tt, tt))))

reserve_if_allowed-IsAtomic_example :
    IsAtomic embedded none (reserve_if_allowed embedded (reserving 6))
reserve_if_allowed-IsAtomic_example = reserve_if_allowed-IsAtomic embedded (reserving 6)

-- A database that holds one reservation of six units.
unfoldable six_rows : Tables
unfolding reserve_if_allowed
six_rows = attempt embedded (reserve (reserving 6)) [] empty

six_rows-AreWithin : (k : CounterKey) → AreWithin k 10 six_rows
unfolding six_rows
six_rows-AreWithin k =
    attempt-AreWithin k 10 embedded (λ t w. w) (reserve (reserving 6)) [] empty
      (λ same. omega arith) (record { valid = empty-IsValid; below = omega arith })

abbrev six_row : ReservationRow
six_row = record {
  row_key = searches;
  amount = 6;
  status = Status.active;
  expires_at = pos 35_000_000_000;
  idempotency_key = none;
}

six_rows-found : get ℕ_discrete 1 six_rows.reservations ≡ some six_row
unfolding six_rows get insert ◌+ℤ◌ RowKey-discrete modify
six_rows-found = refl

reserve_if_allowed-answers_example :
    ((demand_rows embedded (reserving 4) six_rows six_rows ≤ 10)
      × Grants embedded
          (reserving 4)
          six_rows
          six_rows
          (reserve_if_allowed embedded (reserving 4) (calm six_rows six_rows)))
    ⊎ ((10 < demand_rows embedded (reserving 4) six_rows six_rows)
        × Denies embedded
            (reserving 4)
            six_rows
            six_rows
            (reserve_if_allowed embedded (reserving 4) (calm six_rows six_rows)))
unfolding six_rows get RowKey-discrete modify
reserve_if_allowed-answers_example =
    reserve_if_allowed-answers embedded (reserving 4) six_rows six_rows
      (six_rows-AreWithin (view_key searches)).valid refl refl (omega arith) (omega arith)
      (omega arith) refl

finish_reservation-answers_example :
    (finish_reservation embedded refunds 1 later (calm six_rows six_rows)).0
    ≡ (finish_in_memory refunds 1 later (view six_rows)).0
finish_reservation-answers_example =
    finish_reservation-answers embedded refunds 1 later six_rows
      (six_rows-AreWithin (view_key searches)).valid (omega arith)
      (λ k. omega (arith, (six_rows-AreWithin k).below)) six_rows
      (λ r found.
        let h = six_rows-found in let same : r ≡ six_row = cc in ap (λ x. is_known x.status) same)

-- The answer to a commit is lost, the next attempt does not reach the database, and a third one does.
abbrev tries : List Try
tries =
    (later, works ∷ works ∷ works ∷ works ∷ lost "disk I/O error" ∷ [])
    ∷ (later, fails "pool timed out" ∷ [])
    ∷ []

finish_reservation-once_example :
    let (answer, c) =
      finish_reservation embedded commits 1 later
        (calm (try_all embedded commits 1 tries six_rows) empty) in
    (answer ≡ ok tt)
    × (held (view_key searches) (view c.durable) + 6 ≡ held (view_key searches) (view six_rows))
    × (spent (view_key searches) (view c.durable) ≡ spent (view_key searches) (view six_rows) + 6)
    × ((counter searches c.durable).reserved + 6 ≡ held (view_key searches) (view six_rows))
    × ((counter searches c.durable).committed ≡ spent (view_key searches) (view six_rows) + 6)
finish_reservation-once_example =
    finish_reservation-once embedded commits 1 six_rows
      (six_rows-AreWithin (view_key searches)).valid (omega arith)
      (λ k. omega (arith, (six_rows-AreWithin k).below)) six_row six_rows-found refl tries later
      empty (refl, (refl, tt)) refl

-- A job reserves six units, and tries again with the same key six seconds later.
abbrev pub keyed : Timestamp → ReserveRequest
keyed now = record (reserving 6) { idempotency_key = some "job"; now = now }

unfoldable keyed_rows : Tables
unfolding reserve_if_allowed
keyed_rows = attempt embedded (reserve (keyed noon)) [] empty

abbrev keyed_row : ReservationRow
keyed_row = record six_row { idempotency_key = some "job" }

retry_after_expiry_example :
    reserve_if_allowed embedded (keyed (pos 36_000_000_000)) (calm keyed_rows keyed_rows) ≡ (
      ok (
          allowed
            (record { id = 1; expires_at = pos 35_000_000_000 })
            (row_usage (counter searches keyed_rows))),
      calm keyed_rows keyed_rows,
    )
unfolding keyed_rows get RowKey-discrete modify insert ◌+ℤ◌
retry_after_expiry_example =
    retry_after_expiry embedded (keyed (pos 36_000_000_000)) "job" keyed_rows keyed_rows 1 keyed_row
      refl refl (omega arith) (omega arith) refl refl refl (omega arith)

within : (policy : BudgetPolicy) → find registry search_key ≡ some policy → policy.hard_limit ≤ 10
unfolding find
within policy e =
    let plain : find registry search_key ≡ some plain_policy = refl in
    subst (λ p. p.hard_limit ≤ 10) (some_injective (sym plain ∙ e)) (omega arith)

-- Another task reserves between the two calls of the store, and the disk fails now and then.
reserve-Keeps_example :
    AreWithin
      (view_key searches)
      10
      (Broker.reserve utc
        (sqlite_warden embedded registry (pos 5_000_000_000))
        noon
        noon
        (asking 4)
        (λ m. (reserve_if_allowed embedded (reserving 6) m).1)
        (over empty empty (works ∷ works ∷ works ∷ lost "disk I/O error" ∷ []))).1.durable
reserve-Keeps_example =
    reserve-Keeps utc embedded registry (pos 5_000_000_000) noon noon (asking 4) (view_key searches)
      10 (λ m. (reserve_if_allowed embedded (reserving 6) m).1)
      (over empty empty (works ∷ works ∷ works ∷ lost "disk I/O error" ∷ []))
      (λ policy e same. within policy e) (λ t w. w)
      (λ t w.
        reserve-AreWithin (view_key searches) 10 embedded (λ t w. w) (reserving 6) t
          (λ same. omega arith) w)
      (record { valid = empty-IsValid; below = omega arith })
