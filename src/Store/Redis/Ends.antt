-- ===== src/Store/Redis/Ends.antt =====
-- The scripts of src/store/redis_store.rs that end reservations, and the one that reads a counter.
use budget_warden.Base.{
  ℕ, suc, ◌-◌, ℤ, pos, negsuc, leb_ℤ, String, String-discrete, Option, none, some, List, [], ◌∷◌,
  ok, if◌then◌else◌, ℕ_discrete,
}
use budget_warden.Store.Memory.{ReservationStatus, active, committed, refunded, expired}
use budget_warden.Store.Redis.{
  Field, value, Lua, Reservation, Redis, Script, incr_committed, set_reserved, zrem, due,
}
use budget_warden.Store.Redis.Scripts.{
  ◌>>◌, write, answer, put_reservation, committed_at, reserved_at,
}

module _ (lua : Lua) where
  -- `tonumber(…) - amount`, at least 0, as the field is written.
  abbrev pub lowered : Field → Field → Field
  lowered reserved amount =
      lua.text (lua.number (lua.number (value reserved) - lua.number (value amount)))

  unfoldable pub release : Reservation → Redis → Redis
  unfolding String-discrete
  release row r =
      set_reserved row.counter_key (lowered (r.counters row.counter_key).reserved row.amount) r

  abbrev pub set_status : ReservationStatus → ℕ → Reservation → Redis → Redis
  set_status status id row r = put_reservation id (some (record row { status = status })) r

  abbrev pub unlist : ℕ → Redis → Redis
  unlist id r = record r { expirations = zrem id r.expirations }

  abbrev pub lapse_status : ℕ → Reservation → ReservationStatus → Redis → Redis
  lapse_status id row active r = set_status expired id row (release row r)
  lapse_status id row _ r = r

  abbrev pub lapse_row : ℕ → Option Reservation → Redis → Redis
  lapse_row id none r = r
  lapse_row id (some row) r = lapse_status id row row.status r

  -- One round of the loop in `CLEANUP_SCRIPT`.
  unfoldable pub lapse_one : ℕ → Redis → Redis
  unfolding release zrem ℕ_discrete
  lapse_one id r = unlist id (lapse_row id (r.reservations id) r)

  unfoldable pub lapse_all : List ℕ → Redis → Redis
  unfolding lapse_one
  lapse_all [] r = r
  lapse_all (id ∷ ids) r = lapse_all ids (lapse_one id r)

  unfoldable pub length : List ℕ → ℕ
  length [] = 0
  length (id ∷ ids) = suc (length ids)

  -- `CLEANUP_SCRIPT`
  unfoldable pub cleanup_script : ℤ → Script ℤ
  unfolding due lapse_all length
  cleanup_script now r =
      let ids = due now r.expirations in (ok (lua.reply (length ids)), lapse_all ids r)

  -- The status that the reservation gets, and what is committed for it.
  abbrev pub commit_units : ReservationStatus → Reservation → Script (Unit {0})
  commit_units committed row =
      incr_committed lua row.counter_key (lua.text (lua.number (value row.amount)))
  commit_units _ row = answer tt

  -- The two ends of the script: the reservation is due, or it is not.
  unfoldable pub finish_due : ℕ → Reservation → Script ℤ
  unfolding release zrem ℕ_discrete
  finish_due id row = do
    write (release row)
    write (set_status expired id row)
    write (unlist id)
    answer (negsuc 0)

  unfoldable pub settle : ReservationStatus → ℕ → Reservation → Script ℤ
  unfolding release incr_committed zrem ℕ_discrete
  settle target id row = do
    write (release row)
    commit_units target row
    write (set_status target id row)
    write (unlist id)
    answer (pos 1)

  -- From the comparison with the expiry on.
  unfoldable pub finish_active : ReservationStatus → ℤ → ℕ → Reservation → Script ℤ
  unfolding finish_due settle
  finish_active target now id row =
      if leb_ℤ row.expires_at now then finish_due id row else settle target id row

  abbrev pub finish_status : ReservationStatus → ℤ → ℕ → Reservation → ReservationStatus → Script ℤ
  finish_status target now id row active = finish_active target now id row
  finish_status target now id row committed = answer (pos 2)
  finish_status target now id row refunded = answer (pos 2)
  finish_status target now id row expired = answer (negsuc 0)

  abbrev pub finish_row : ReservationStatus → ℤ → ℕ → Option Reservation → Script ℤ
  finish_row target now id none = answer (pos 0)
  finish_row target now id (some row) = finish_status target now id row row.status

  -- `FINISH_SCRIPT`
  unfoldable pub finish_script : ReservationStatus → ℕ → ℤ → Script ℤ
  unfolding finish_active
  finish_script target id now r = finish_row target now id (r.reservations id) r

  -- `USAGE_SCRIPT`
  unfoldable pub usage_script : String → Script (ℤ × ℤ)
  usage_script k r = (ok (lua.reply (committed_at lua k r), lua.reply (reserved_at lua k r)), r)
