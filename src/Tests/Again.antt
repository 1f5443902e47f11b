-- ===== src/Tests/Again.antt =====
-- A request with an idempotency key that is made twice of the store of src/store/sqlite.rs.
use budget_warden.Base.{◌≡◌, refl, ok, arith, pos, ◌+ℤ◌}
use budget_warden.Store.{CounterUsage, allowed, validate}
use budget_warden.Store.Memory.Valid.{empty-IsValid}
use budget_warden.Store.Sql.{empty}
use budget_warden.Store.Sql.Statements.{is_taken}
use budget_warden.Store.Sqlite.{reserve_if_allowed}
use budget_warden.Store.Sqlite.Cleaning.{calm, cleaned}
use budget_warden.Store.Sqlite.Repeat.{reserve_again}
use budget_warden.Tests.Data.{noon}
use budget_warden.Tests.Sqlite.{embedded, keyed, later}

reserve_again_example :
    let (answer, c) = reserve_if_allowed embedded (keyed noon) (calm empty empty) in
    let (second, c') = reserve_if_allowed embedded (keyed later) c in
    ((u : CounterUsage) × (answer
        ≡ ok (allowed (record { id = 1; expires_at = noon +ℤ pos 5_000_000_000 }) u)))
    × ((u : CounterUsage) × (second
          ≡ ok (allowed (record { id = 1; expires_at = noon +ℤ pos 5_000_000_000 }) u)))
    × (c'.durable ≡ cleaned later c.durable)
unfolding validate is_taken ◌+ℤ◌
reserve_again_example =
    reserve_again embedded (keyed noon) "job" later empty empty empty-IsValid refl refl
      (omega arith) (omega arith) (omega arith) refl (omega arith) refl
