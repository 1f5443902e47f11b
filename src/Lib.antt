-- ===== src/Lib.antt =====
-- Budget Warden (Rust) decides whether a program may spend units of an outside budget, such as the
-- calls of an API plan: policies set a limit per key and window, a store counts what is reserved
-- and committed, and the warden decides by both. This library models its core.
--
-- The parts of the program, the files that model them, and how they interact:
-- - src/broker.rs: Broker (`BudgetWarden`, its builder, `authorize`, `reserve`), Broker/Report
--   (`usage`, `report`, with src/report/mod.rs) and Registry (`PolicyRegistry`). A call finds the
--   policy of the request, computes the bounds of its window, asks the store for the usage,
--   evaluates the policy, and, for `reserve`, makes a request of the store. Broker/Safety,
--   Broker/Agreement, Broker/Allowing, Broker/Backing and Registry/Best hold the proofs.
--   Broker/Embedded has a warden over the SQLite store, and Broker/Distributed one over the Redis
--   store.
-- - src/pacing/evaluate.rs: Pacing (`evaluate_policy`), with proofs in Pacing/Limits,
--   Pacing/Decisions and Pacing/Pace.
-- - src/store/contract.rs: Store (keys, requests with their validation, and the trait
--   `BudgetStore` as a record of operations over a state `S`, which the warden takes and
--   Store/Memory/Locked fills).
-- - src/store/memory.rs: Store/Memory (the state, the clean-up), Store/Memory/Reserve
--   (`reserve_if_allowed`), Store/Memory/Finish (`commit`, `refund`, `usage`), Store/Memory/Locked
--   (the write lock). The invariant is in Store/Memory/Valid, and the proofs are in the modules
--   beside it.
-- - src/store/sqlite.rs: Store/Sqlite (`cleanup_expired`, `load_usage`, `reserve_if_allowed`,
--   `usage`), Store/Sqlite/Finish (`finish_reservation`, and the store as a `BudgetStore`), over
--   Store/Sql (the tables of migrations/sqlite and a connection with its transactions) and
--   Store/Sql/Statements (the SQL statements). Store/Sql/View sees the tables as a state of the
--   store in memory, whose invariant and lemmas thereby serve both; Store/Sql/Atomic compares a
--   run in which requests fail with one in which none does. The other modules under Store/Sqlite
--   hold the proofs.
-- - src/store/redis_store.rs: Store/Redis (what the server keeps, and the commands),
--   Store/Redis/Scripts (`RESERVE_SCRIPT`), Store/Redis/Ends (`CLEANUP_SCRIPT`, `FINISH_SCRIPT`,
--   `USAGE_SCRIPT`), Store/Redis/Requests (the connection) and Store/Redis/Calls (the calls of the
--   store, and the store as a `BudgetStore`). Store/Redis/Reach has the steps of all clients on
--   one server; Store/Redis/Tracked has the invariant of a counter, and Store/Redis/Listed that of
--   the sorted set. The other modules under Store/Redis hold the proofs.
-- - src/store/codec.rs: Store/Codec.
-- - The setters of the builders are in Broker/Setters, Policy/Setters and Request/Setters.
-- - src/policy.rs: Policy, Policy/Valid. src/window.rs: Window, Window/Bounds, Window/Stable.
--   src/key.rs: Key, Key/Pattern, Key/Laws. src/request.rs: Request. src/usage.rs: Usage.
--   src/reservation.rs: Ids and Reservation. src/decision.rs: Decision and Reservation.
--   src/error.rs, src/priority.rs, src/unit.rs: Error, Priority, BudgetUnit.
-- - src/config/model.rs: Config (settings and their conversion into policies), Config/Names (how
--   names are read), Config/Words (proofs). src/config/toml.rs: Config/Toml, which takes the
--   function of the crate toml that reads a text as a parameter.
-- - Base: Rust's results with a third outcome for a panic, hash maps as association lists, 64-bit
--   arithmetic and integers; Time: instants as nanoseconds. Tests: runs at concrete inputs.
--
-- State and time. A call that changes a store takes its state and returns it with the answer.
-- Under the write lock of the store in memory each call is one step, so that tasks that share it
-- are a list of calls in some order (Store/Memory/Tasks); `reserve` of the warden makes two calls,
-- and what other tasks do in between is its argument. A clock is read once in a call, and the
-- instant is an argument; `commit` and `refund` read the system clock, which is their argument
-- too.
--
-- The database. What SQL says is a function on tables, and the order of a table's rows is that of
-- their insertion. A connection is a list of what becomes of its requests (carried out, failed,
-- carried out with the answer lost) and two copies of the tables, committed and seen by the open
-- transaction, so that a transaction is one step for the others. The rest is the parameter
-- `Engine`: the instant that is read back for one that was written, what others commit between two
-- transactions of one call, whether a sum beyond `i64` is an error, and the texts of the
-- database's own errors. The columns that the schema keeps from being negative are natural
-- numbers.
--
-- The Redis server. A script is a function on what the server keeps. No other script runs
-- meanwhile, and what it has written stays when one of its commands fails. A connection is a list
-- of turns, one for each request: what the scripts of others have made of the server, its clock,
-- at which keys whose deadline has passed are gone, and what becomes of the request. Lua's numbers
-- are the parameter `Lua`: the double next to a whole number, the text and the integer that are
-- made of it. What a theorem needs of doubles is a hypothesis, `IsDouble` of Store/Redis/Exact,
-- and such theorems are about limits below 2^53. Identifiers below 10^14 are assumed, up to which
-- Lua writes all digits.
--
-- Bounds. A `u64` is a natural number with its saturating, checked or wrapping operation written
-- out; the theorems that need a limit below `u64::MAX` say so. Every loop is over a list; the one
-- function with fuel writes a 64-bit number in decimal, with one unit of fuel more than its
-- digits. Everything that chrono and chrono_tz compute, the time zones above all, is the parameter
-- `Chrono` of Time; where a theorem relies on it, what chrono documents is a hypothesis.
--
-- Not modelled: reading a settings file from disk and writing one; the PostgreSQL store, whose
-- transactions can interleave (src/store); the creation of the schema; telemetry; the texts of
-- `Display` and `Debug`; the floating-point value of `percent_used` (kept as an expression), and
-- the instants that chrono cannot represent.
pub mod Base
pub mod Error
pub mod Priority
pub mod BudgetUnit
pub mod Key
pub mod Time
pub mod Window
pub mod Decision
pub mod Policy
pub mod Pacing
pub mod Ids
pub mod Request
pub mod Usage
pub mod Store
pub mod Reservation
pub mod Registry
pub mod Broker
pub mod Config
pub mod Tests
