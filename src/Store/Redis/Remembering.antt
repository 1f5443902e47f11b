-- ===== src/Store/Redis/Remembering.antt =====
-- How long an idempotency key of src/store/redis_store.rs is remembered.
use budget_warden.Base.{
  ℕ, ◌≡◌, refl, ap, ◌∙◌, ℤ, pos, leb_ℤ, String, string_eq, true, false, Option, none, some, List,
  [], ◌∷◌, ok, if◌then◌else◌,
}
use budget_warden.Store.Memory.{ReservationStatus, active, committed, refunded, expired}
use budget_warden.Store.Redis.{Lua, Reservation, Redis, outlives, evict, due, no_keys}
use budget_warden.Store.Redis.Clearing.{cleanup_script-clears}
use budget_warden.Store.Redis.Quiet.{prepared}
use budget_warden.Store.Redis.Reach.{Reach, removes}
use budget_warden.Store.Redis.Scripts.{ReserveCall, reserve_script, committed_at, reserved_at}
use budget_warden.Store.Redis.Ends.{
  lapse_status, lapse_row, lapse_one, lapse_all, cleanup_script, release,
}
use budget_warden.Time.{Timestamp, Chrono}

-- A key stands for an active reservation, and neither is removed before an instant.
pub record Remembers (r : Redis) (k name : String) (id : ℕ) (row : Reservation) (at : ℤ)
    : Type 0 where
  pub id_is : (r.idempotency k).ids name ≡ some id
  pub row_is : r.reservations id ≡ some row
  pub alive : row.status ≡ active
  pub key_stays : outlives at (r.idempotency k).deadline ≡ true
  pub row_stays : outlives at row.deadline ≡ true

module _ (k name : String) (id : ℕ) (row : Reservation) (at : ℤ) where
  evict-Remembers :
      (r : Redis) → Remembers r k name id row at → Remembers (evict at r) k name id row at
  unfolding evict
  evict-Remembers r m =
      let same : (if outlives at (r.idempotency k).deadline then r.idempotency k else no_keys)
          ≡ r.idempotency k =
        ap (λ b. if b then r.idempotency k else no_keys) m.key_stays in
      record {
        id_is = ap (λ x. x.ids name) same ∙ m.id_is;
        row_is = rw (m.row_is, m.row_stays) refl;
        alive = m.alive;
        key_stays = ap (λ x. outlives at x.deadline) same ∙ m.key_stays;
        row_stays = m.row_stays;
      }

  module _ (lua : Lua) where
    status_keys :
        (r : Redis) (j : ℕ) (x : Reservation) (s : ReservationStatus)
        → (lapse_status lua j x s r).idempotency ≡ r.idempotency
    unfolding release
    status_keys r j x active = refl
    status_keys r j x committed = refl
    status_keys r j x refunded = refl
    status_keys r j x expired = refl

    row_keys :
        (r : Redis) (j : ℕ) (o : Option Reservation)
        → (lapse_row lua j o r).idempotency ≡ r.idempotency
    row_keys r j none = refl
    row_keys r j (some x) = status_keys r j x x.status

    all_keys : (ids : List ℕ) (r : Redis) → (lapse_all lua ids r).idempotency ≡ r.idempotency
    unfolding lapse_all lapse_one
    all_keys [] r = refl
    all_keys (j ∷ ids) r = all_keys ids (lapse_one lua j r) ∙ row_keys r j (r.reservations j)

    -- A cleanup before the reservation runs out.
    cleanup-Remembers :
        (c : String) (until : ℤ) (ceiling : ℕ) (now : ℤ) (r : Redis)
        → Reach lua c until ceiling r
        → leb_ℤ row.expires_at now ≡ false
        → Remembers r k name id row at
        → Remembers (cleanup_script lua now r).1 k name id row at
    unfolding cleanup_script
    cleanup-Remembers c until ceiling now r h later m =
        let same = all_keys (due now r.expirations) r in
        record {
          id_is = (λ i. (same i k).ids name) ∙ m.id_is;
          row_is =
              (cleanup_script-clears lua c until ceiling now r h id row m.alive).1
                (m.row_is, later);
          alive = m.alive;
          key_stays = (λ i. outlives at (same i k).deadline) ∙ m.key_stays;
          row_stays = m.row_stays;
        }

    pub prepared-Remembers :
        (chrono : Chrono) (c : String) (until : ℤ) (ceiling : ℕ) (now : Timestamp) (r : Redis)
        → Reach lua c until ceiling r
        → leb_ℤ until at ≡ false
        → leb_ℤ row.expires_at (chrono.timestamp now) ≡ false
        → Remembers r k name id row at
        → Remembers (prepared chrono lua now at r) k name id row at
    prepared-Remembers chrono c until ceiling now r h before later m = evict-Remembers _ (
        cleanup-Remembers c until ceiling (chrono.timestamp now) (evict at (evict at r))
          (removes at _ before (removes at r before h)) later
          (evict-Remembers _ (evict-Remembers r m)))

    -- A repetition changes nothing.
    pub reserve_script-replays :
        (c : ReserveCall) (now : ℤ) (r : Redis)
        → c.idempotency_key ≡ k
        → c.idempotency ≡ name
        → string_eq name "" ≡ false
        → Remembers r k name id row at
        → reserve_script lua c now r ≡ (
          ok (record {
            granted = pos 1;
            id = pos id;
            committed = lua.reply (committed_at lua c.counter_key r);
            reserved = lua.reply (reserved_at lua c.counter_key r);
            expires_at = row.expires_at;
          }),
          r,
        )
    unfolding reserve_script
    reserve_script-replays c now r ek en nonempty m =
        rw (en, nonempty, ek, m.id_is, m.row_is, m.alive) refl
