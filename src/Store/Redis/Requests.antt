-- ===== src/Store/Redis/Requests.antt =====
-- The connection of src/store/redis_store.rs, and the requests over it.
use budget_warden.Base.{ℤ, String, List, [], ◌∷◌, Result, ok, err, panic}
use budget_warden.Error.{StoreError, other}
use budget_warden.Store.Redis.{Redis, Script, evict}
use budget_warden.Store.Sql.{Event, works, fails, lost}

-- What happens at one request: what the scripts of others have made of the server since the last
-- one, the server's clock, and whether the request is carried out and its answer arrives.
pub record Turn : Type 0 where
  pub others : Redis → Redis
  pub at : ℤ
  pub event : Event

-- When no more turns are given, requests are carried out at the last instant.
pub record Link : Type 0 where
  pub server : Redis
  pub at : ℤ
  pub turns : List Turn

abbrev pub Call : Type 0 → Type 0
Call A = Link → Result StoreError A × Link

abbrev pub and_then :
    {A B : Type 0} → (A → Call B) → Result StoreError A × Link → Result StoreError B × Link
and_then f (ok a, l) = f a l
and_then f (err e, l) = (err e, l)
and_then f (panic, l) = (panic, l)

infixl 5 ◌>>=◌ ◌>>◌
abbrev pub ◌>>=◌ : {A B : Type 0} → Call A → (A → Call B) → Call B
◌>>=◌ m f l = and_then f (m l)

abbrev pub ◌>>◌ : {B : Type 0} → Call (Unit {0}) → Call B → Call B
m >> k = m >>= λ _. k

abbrev pub lift : {A : Type 0} → Result StoreError A → Call A
lift r l = (r, l)

abbrev pub next_of : List Turn → Link → Turn × Link
next_of [] l = (record { others = λ r. r; at = l.at; event = works }, l)
next_of (turn ∷ turns) l = (turn, record l { at = turn.at; turns = turns })

abbrev pub next_turn : Link → Turn × Link
next_turn l = next_of l.turns l

-- The server at a request: others have had their turn, and keys have been removed.
abbrev pub meanwhile : Turn → Redis → Redis
meanwhile turn r = evict turn.at (turn.others r)

abbrev pub told : {A : Type 0} → Result String A → Result StoreError A
told (ok a) = ok a
told (err e) = err (other e)
told panic = panic

-- A script is run or it is not, and the program may not learn what it answers.
abbrev pub run_event :
    {A : Type 0} → Event → Result String A × Redis → Redis → Result StoreError A × Redis
run_event works (a, after) before = (told a, after)
run_event (fails e) (a, after) before = (err (other e), before)
run_event (lost e) (a, after) before = (err (other e), after)

abbrev pub run_turn : {A : Type 0} → (ℤ → Script A) → Turn × Link → Result StoreError A × Link
run_turn script (turn, l) =
    let before = meanwhile turn l.server in
    let (a, after) = run_event turn.event (script turn.at before) before in
    (a, record l { server = after })

-- `Script::invoke_async`, with `redis_error`
unfoldable pub invoke : {A : Type 0} → (ℤ → Script A) → Call A
unfolding evict
invoke script l = run_turn script (next_turn l)

-- `pool.get()`, with `pool_error`
unfoldable pub acquire : Call (Unit {0})
unfolding invoke
acquire = invoke (λ at r. (ok tt, r))
