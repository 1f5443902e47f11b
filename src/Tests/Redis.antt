-- ===== src/Tests/Redis.antt =====
-- Runs of src/store/redis_store.rs, among other clients and over connections that fail.
use budget_warden.Base.{
  suc, ◌+◌, ◌≡◌, ◌↔◌, ◌+ℤ◌, refl, pos, leb, leb_ℤ, none, some, ok, err, arith, false, List, [], ◌∷◌,
  if◌then◌else◌,
}
use budget_warden.Error.{other}
use budget_warden.Store.{ReserveRequest, allowed, denied}
use budget_warden.Store.Checks.{IsSound}
use budget_warden.Store.Memory.{active, committed, refunded}
use budget_warden.Store.Memory.Tasks
use budget_warden.Store.Redis.{value, digits, Reservation, Redis, evict, fresh}
use budget_warden.Store.Redis.Calls.{
  finish, redis_counter_key, redis_idempotency_key, decimal_digits, reserve_if_allowed,
}
use budget_warden.Store.Redis.Requests.{Turn}
use budget_warden.Store.Redis.History.{Attempt, attempt_all, attempt_all-IsTracked}
use budget_warden.Store.Redis.Preserving.{KeepsRequest, IsOrderly}
use budget_warden.Store.Redis.Quiet.{quiet, prepared, reserve_if_allowed-decides}
use budget_warden.Store.Redis.Reach.{finishes, Reach-IsTracked}
use budget_warden.Store.Redis.Scripts.{reserve_script, reserve_new}
use budget_warden.Store.Redis.Ends.{cleanup_script, finish_script, lapse_all}
use budget_warden.Store.Redis.Tally.{held, spent}
use budget_warden.Store.Redis.Tracked.{IsTracked}
use budget_warden.Store.Redis.Retrying.{lossy, reserve_if_allowed-retried}
use budget_warden.Store.Redis.Ending.{finish-once}
use budget_warden.Store.Redis.Settled.{settled_at, commits, refunds}
use budget_warden.Store.Redis.Clearing.{cleanup_script-clears}
use budget_warden.Store.Sql.{lost}
use budget_warden.Tests.Data.{utc, reserving, search_store_key, first_minute, noon}
use budget_warden.Tests.Server.{
  rounding, rounding-IsDouble, searches, half_past, minute_end, reserving-Keeps, calm_turn,
  calm_turn-IsOrderly, six, six-Reach, later,
}

-- Another client commits the first reservation while this one makes its requests.
abbrev other_commits : Turn
other_commits = record {
  others = λ r. (finish_script rounding committed 1 (pos 30) r).1;
  at = half_past;
  event = lost "connection reset";
}

other_commits-IsOrderly : IsOrderly rounding searches minute_end 10 other_commits
other_commits-IsOrderly = record {
  early = refl;
  others_reach = λ r h. finishes committed 1 (pos 30) r (λ e. cc e) h;
}

-- Six units are reserved; another client commits them while the answer to the next request is lost.
abbrev attempts : List Attempt
attempts =
    record { call = Tasks.Call.reserve (reserving 6); turns = [] }
    ∷ record {
      call = Tasks.Call.reserve (reserving 3);
      turns = calm_turn ∷ calm_turn ∷ other_commits ∷ [];
    }
    ∷ record { call = Tasks.Call.refund 2 noon; turns = calm_turn ∷ other_commits ∷ [] }
    ∷ []

attempt_all-IsTracked_example :
    IsTracked searches minute_end 10
      (attempt_all utc rounding attempts
        (record { server = fresh; at = half_past; turns = [] })).server
attempt_all-IsTracked_example =
    attempt_all-IsTracked rounding searches minute_end 10 utc rounding-IsDouble (omega arith)
      attempts half_past refl
      (
        reserving-Keeps 6,
        tt,
        (
          reserving-Keeps 3,
          (calm_turn-IsOrderly, (calm_turn-IsOrderly, (other_commits-IsOrderly, tt))),
          (tt, (calm_turn-IsOrderly, (other_commits-IsOrderly, tt)), tt),
        ),
      )

Reach-IsTracked_example : IsTracked searches minute_end 10 six
Reach-IsTracked_example =
    Reach-IsTracked rounding rounding-IsDouble searches minute_end 10 (omega arith) six six-Reach

reserving-IsSound : IsSound (reserving 4)
reserving-IsSound = record {
  amount_pos = omega arith;
  limited = omega arith;
  lasting = omega arith;
}

abbrev six_prepared : Redis
six_prepared = prepared utc rounding noon half_past six

six_sequence : six_prepared.sequence ≡ 1
unfolding reserve_script evict cleanup_script decimal_digits redis_counter_key reserve_new ◌+ℤ◌
    lapse_all
six_sequence = refl

-- Four more units are the last that fit.
reserve_if_allowed-decides_example :
    (reserve_if_allowed utc rounding (reserving 4) (quiet six half_past)).0
    ≡ ok (
        if leb (spent searches six_prepared + held searches six_prepared + 4) 10
        then allowed
            (record { id = suc six_prepared.sequence; expires_at = pos 35_000_000_000 })
            (record {
              committed = spent searches six_prepared;
              reserved = held searches six_prepared + 4;
            })
        else denied (record {
          committed = spent searches six_prepared;
          reserved = held searches six_prepared;
        }))
unfolding ◌+ℤ◌
reserve_if_allowed-decides_example =
    (reserve_if_allowed-decides utc rounding rounding-IsDouble minute_end 10 (omega arith)
      (reserving 4) half_past refl six six-Reach reserving-IsSound (omega arith) (reserving-Keeps 4)
      (pos 35_000_000_000) refl (rw six_sequence (omega arith)) refl).0

-- A request with a key, whose answer is lost, and which is made again a second later.
abbrev keyed_three : ReserveRequest
keyed_three = record (reserving 3) { idempotency_key = some "search-17" }

keyed_three-Keeps : KeepsRequest rounding searches minute_end 10 utc keyed_three
unfolding ◌+ℤ◌
keyed_three-Keeps = record { within = λ own. omega arith; retained = λ own. refl }

three-unknown :
    (six_prepared.idempotency
        (redis_idempotency_key utc rounding search_store_key first_minute)).ids
      "search-17"
    ≡ none
unfolding reserve_script evict cleanup_script reserve_new ◌+ℤ◌ lapse_all
three-unknown = refl

six_held : held searches six_prepared ≡ 6
unfolding reserve_script evict cleanup_script reserve_new ◌+ℤ◌ lapse_all
six_held = ground arith

six_spent : spent searches six_prepared ≡ 0
unfolding reserve_script evict cleanup_script reserve_new ◌+ℤ◌ lapse_all
six_spent = ground arith

three-Sound : IsSound keyed_three
three-Sound = record { amount_pos = omega arith; limited = omega arith; lasting = omega arith }

reserve_if_allowed-retried_example :
    let (first, l) =
      reserve_if_allowed utc rounding keyed_three (lossy six half_past "connection reset") in
    let (second, l') =
      reserve_if_allowed utc rounding
        (record keyed_three { now = later })
        (quiet l.server (pos 31_000)) in
    (first ≡ err (other "connection reset"))
    × (held searches l.server ≡ held searches six_prepared + 3)
    × (second
        ≡ ok (
            allowed
              (record { id = suc six_prepared.sequence; expires_at = pos 35_000_000_000 })
              (record {
                committed = spent searches l'.server;
                reserved = held searches l'.server;
              })))
    × (l'.server ≡ prepared utc rounding later (pos 31_000) l.server)
unfolding ◌+ℤ◌
reserve_if_allowed-retried_example =
    reserve_if_allowed-retried utc rounding rounding-IsDouble minute_end 10 (omega arith)
      keyed_three half_past refl six six-Reach three-Sound (omega arith) keyed_three-Keeps refl
      three-unknown (rw six_sequence (omega arith)) (omega (arith, six_held, six_spent)) later
      (pos 31_000) refl refl (pos 35_000_000_000) refl "connection reset"

-- The reservation of the six units.
abbrev six_row : Reservation
six_row = record {
  counter_key = searches;
  amount = digits 6;
  status = active;
  expires_at = pos 35;
  deadline = some (pos 65_000);
}

six_row-found : (settled_at half_past six).reservations 1 ≡ some six_row
unfolding reserve_script evict reserve_new ◌+ℤ◌
six_row-found = refl

finish-once_example :
    let (first, l) = finish utc rounding committed 1 later (quiet six half_past) in
    let (second, l') = finish utc rounding refunded 1 later (quiet l.server half_past) in
    (first ≡ ok tt)
    × (held searches l.server + 6 ≡ held searches (settled_at half_past six))
    × (spent searches l.server ≡ spent searches (settled_at half_past six) + 6)
    × (value (l.server.counters searches).reserved + 6
        ≡ value ((settled_at half_past six).counters searches).reserved)
    × ((l.server.counters searches).committed
        ≡ ((settled_at half_past six).counters searches).committed + 6)
    × (second ≡ ok tt)
    × (l'.server ≡ settled_at half_past l.server)
    × (held searches l'.server ≡ held searches l.server)
    × (spent searches l'.server ≡ spent searches l.server)
    × (value (l'.server.counters searches).reserved ≡ value (l.server.counters searches).reserved)
    × ((l'.server.counters searches).committed ≡ (l.server.counters searches).committed)
finish-once_example =
    finish-once utc rounding rounding-IsDouble searches minute_end 10 (omega arith) half_past
      half_past refl refl six six-Reach 1 (omega arith) six_row six_row-found refl refl later later
      refl committed refunded commits refunds

-- Up to the thirty-fourth second the reservation is active.
cleanup_script-clears_example :
    ((cleanup_script rounding (pos 34) six).1.reservations 1 ≡ some six_row)
    ↔ ((six.reservations 1 ≡ some six_row) × (leb_ℤ (pos 35) (pos 34) ≡ false))
cleanup_script-clears_example =
    cleanup_script-clears rounding searches minute_end 10 (pos 34) six six-Reach 1 six_row refl
