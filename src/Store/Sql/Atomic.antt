-- ===== src/Store/Sql/Atomic.antt =====
-- What a call leaves behind when some of its requests fail (src/store/sqlite.rs), against the run of
-- the same call in which none does.
use budget_warden.Base.{◌≡◌, refl, ap, List, [], ◌∷◌, Option, some, Result, ok, err, panic, String}
use budget_warden.Error.{StoreError, other}
use budget_warden.Store.Sql.{
  and_then, Tables, Event, works, fails, lost, Engine, Connection, Call, pure, raise, lift, ◌>>=◌,
  execute, select, update, answered, begin, commit_transaction,
}

abbrev pub over : Tables → Tables → List Event → Connection
over d w es = record { durable = d; working = w; events = es }

-- Two runs on the same tables, the second without failures: both are alike so far, or the first has
-- failed. Neither has changed what is committed.
pub data Quietly {A : Type 0} (d : Tables) (x y : Result StoreError A × Connection) : Type 0 where
  alike :
      (r : Result StoreError A) (w : Tables) (es : List Event)
      → x ≡ (r, over d w es)
      → y ≡ (r, over d w [])
      → Quietly d x y
  broken : (e : StoreError) (c : Connection) → x ≡ (err e, c) → c.durable ≡ d → Quietly d x y

-- Two runs from the committed tables `d`, the second without failures: the first has done all that the
-- second has, and says so or has lost the answer; or it has failed and changed nothing. A call
-- with an idempotency key may also have been overtaken by others, whose changes are then there.
pub data Atomically {A : Type 0} (e : Engine) (key : Option String) (d : Tables)
    (x y : Result StoreError A × Connection) : Type 0 where
  finished : x.0 ≡ y.0 → x.1.durable ≡ y.1.durable → Atomically e key d x y
  unanswered : (f : StoreError) → x.0 ≡ err f → x.1.durable ≡ y.1.durable → Atomically e key d x y
  failed : (f : StoreError) → x.0 ≡ err f → x.1.durable ≡ d → Atomically e key d x y
  overtaken : (k : String) → key ≡ some k → x.1.durable ≡ e.between d → Atomically e key d x y

pub record IsQuiet {A : Type 0} (m : Call A) : Type 0 where
  pub quietly : (d w : Tables) (es : List Event) → Quietly d (m (over d w es)) (m (over d w []))

pub record IsAtomic {A : Type 0} (e : Engine) (key : Option String) (m : Call A) : Type 0 where
  pub atomically :
      (d w : Tables) (es : List Event) → Atomically e key d (m (over d w es)) (m (over d w []))

module _ {A : Type 0} where
  pub lift-IsQuiet : (r : Result StoreError A) → IsQuiet (lift r)
  lift-IsQuiet r = record { quietly = λ d w es. alike r w es refl refl }

  pub pure-IsQuiet : (a : A) → IsQuiet (pure a)
  pure-IsQuiet a = record { quietly = λ d w es. alike (ok a) w es refl refl }

  pub lift-IsAtomic :
      {e : Engine} {key : Option String} (r : Result StoreError A) → IsAtomic e key (lift r)
  lift-IsAtomic r = record { atomically = λ d w es. finished refl refl }

  pub raise-IsAtomic :
      {e : Engine} {key : Option String} (f : StoreError) → IsAtomic {A = A} e key (raise f)
  raise-IsAtomic f = record { atomically = λ d w es. finished refl refl }

  execute-Quietly :
      (statement : Tables → Result String A × Tables) (d w : Tables) (es : List Event)
      → Quietly d (execute statement (over d w es)) (execute statement (over d w []))
  unfolding execute
  execute-Quietly statement d w [] =
      alike (answered w (statement w)).0 (answered w (statement w)).1 [] refl refl
  execute-Quietly statement d w (works ∷ es) =
      alike (answered w (statement w)).0 (answered w (statement w)).1 es refl refl
  execute-Quietly statement d w (fails f ∷ es) = broken (other f) _ refl refl
  execute-Quietly statement d w (lost f ∷ es) = broken (other f) _ refl refl

  pub execute-IsQuiet :
      (statement : Tables → Result String A × Tables) → IsQuiet (execute statement)
  execute-IsQuiet statement = record { quietly = execute-Quietly statement }

pub select-IsQuiet : {A : Type 0} (f : Tables → A) → IsQuiet (select f)
select-IsQuiet f = execute-IsQuiet (λ t. (ok (f t), t))

pub update-IsQuiet : (f : Tables → Tables) → IsQuiet (update f)
update-IsQuiet f = execute-IsQuiet (λ t. (ok tt, f t))

begin-Quietly :
    (d w : Tables) (es : List Event) → Quietly d (begin (over d w es)) (begin (over d w []))
unfolding begin
begin-Quietly d w [] = alike (ok tt) d [] refl refl
begin-Quietly d w (works ∷ es) = alike (ok tt) d es refl refl
begin-Quietly d w (fails f ∷ es) = broken (other f) _ refl refl
begin-Quietly d w (lost f ∷ es) = broken (other f) _ refl refl

pub begin-IsQuiet : IsQuiet begin
begin-IsQuiet = record { quietly = begin-Quietly }

module _ {e : Engine} {key : Option String} where
  commit_transaction-Atomically :
      (d w : Tables) (es : List Event)
      → Atomically e key d (commit_transaction (over d w es)) (commit_transaction (over d w []))
  unfolding commit_transaction
  commit_transaction-Atomically d w [] = finished refl refl
  commit_transaction-Atomically d w (works ∷ es) = finished refl refl
  commit_transaction-Atomically d w (fails f ∷ es) = failed (other f) refl refl
  commit_transaction-Atomically d w (lost f ∷ es) = unanswered (other f) refl refl

  pub commit_transaction-IsAtomic : IsAtomic e key commit_transaction
  commit_transaction-IsAtomic = record { atomically = commit_transaction-Atomically }

module _ {A B : Type 0} (f : A → Call B) (d : Tables) {x y : Result StoreError A × Connection} where
  and_then-Quietly :
      ((a : A) → IsQuiet (f a)) → Quietly d x y → Quietly d (and_then f x) (and_then f y)
  and_then-Quietly k (alike (ok a) w es p q) = rw (p, q) ((k a).quietly d w es)
  and_then-Quietly k (alike (err g) w es p q) = rw (p, q) (alike (err g) w es refl refl)
  and_then-Quietly k (alike panic w es p q) = rw (p, q) (alike panic w es refl refl)
  and_then-Quietly k (broken g c p q) = rw p (broken g c refl q)

  and_then-Atomically :
      {e : Engine} {key : Option String}
      → ((a : A) → IsAtomic e key (f a))
      → Quietly d x y
      → Atomically e key d (and_then f x) (and_then f y)
  and_then-Atomically k (alike (ok a) w es p q) = rw (p, q) ((k a).atomically d w es)
  and_then-Atomically k (alike (err g) w es p q) = rw (p, q) (finished refl refl)
  and_then-Atomically k (alike panic w es p q) = rw (p, q) (finished refl refl)
  and_then-Atomically k (broken g c p q) = rw p (failed g refl q)

module _ {A B : Type 0} {m : Call A} {f : A → Call B} (q : IsQuiet m) where
  pub bind-IsQuiet : ((a : A) → IsQuiet (f a)) → IsQuiet (m >>= f)
  bind-IsQuiet k = record { quietly = λ d w es. and_then-Quietly f d k (q.quietly d w es) }

  pub bind-IsAtomic :
      {e : Engine} {key : Option String}
      → ((a : A) → IsAtomic e key (f a))
      → IsAtomic e key (m >>= f)
  bind-IsAtomic k = record { atomically = λ d w es. and_then-Atomically f d k (q.quietly d w es) }

-- A call that makes no request.
abbrev pub IsSilent : {A : Type 0} → Call A → Type 0
IsSilent {A} m = (r : Result StoreError A) × ((c : Connection) → m c ≡ (r, c))

module _ {A B : Type 0} (f : A → Call B) (s : (a : A) → IsSilent (f a)) where
  unfoldable answer : Result StoreError A → Result StoreError B
  answer (ok a) = (s a).0
  answer (err g) = err g
  answer panic = panic

  and_then-answer : (x : Result StoreError A × Connection) → and_then f x ≡ (answer x.0, x.1)
  unfolding answer
  and_then-answer (ok a, c) = (s a).1 c
  and_then-answer (err g, c) = refl
  and_then-answer (panic, c) = refl

  pub and_then-same : (x : Result StoreError A × Connection) → (and_then f x).1 ≡ x.1
  and_then-same x = ap (λ q. q.1) (and_then-answer x)

  answer-Atomically :
      {e : Engine} {key : Option String} (d : Tables) {x y : Result StoreError A × Connection}
      → Atomically e key d x y
      → Atomically e key d (answer x.0, x.1) (answer y.0, y.1)
  unfolding answer
  answer-Atomically d (finished p q) = finished (ap answer p) q
  answer-Atomically d (unanswered g p q) = unanswered g (rw p refl) q
  answer-Atomically d (failed g p q) = failed g (rw p refl) q
  answer-Atomically d (overtaken k p q) = overtaken k p q

  then-Atomically :
      {e : Engine} {key : Option String} (m : Call A)
      → IsAtomic e key m
      → (d w : Tables) (es : List Event)
      → Atomically e key d ((m >>= f) (over d w es)) ((m >>= f) (over d w []))
  then-Atomically m q d w es =
      rw (and_then-answer (m (over d w es)), and_then-answer (m (over d w [])))
        (answer-Atomically d (q.atomically d w es))

  pub then-IsAtomic :
      {e : Engine} {key : Option String} {m : Call A} → IsAtomic e key m → IsAtomic e key (m >>= f)
  then-IsAtomic {m} q = record { atomically = then-Atomically m q }
