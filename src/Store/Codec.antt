-- ===== src/Store/Codec.antt =====
-- src/store/codec.rs: what the stores convert for their backends, whose integers are `i64`.
use budget_warden.Base.{
  ℕ, leb, ℤ, pos, negsuc, String, append, Result, ok, err, ◌>>=◌, if◌then◌else◌,
}
use budget_warden.Error.{StoreError, invalid_input, other}
use budget_warden.Ids.{ReservationId}
use budget_warden.Store.{StoreKey, CounterUsage, compact}

abbrev pub i64_max : ℕ
i64_max = 0x7fff_ffff_ffff_ffff

unfoldable pub key : StoreKey → String
unfolding compact
key k = compact k

-- An `i64` that is not negative is given by its number.
unfoldable pub to_i64 : ℕ → String → Result StoreError ℕ
to_i64 value name =
    if leb value i64_max
    then ok value
    else err (invalid_input (append name " is too large for backend integer"))

-- `u64::try_from`
abbrev pub to_u64 : ℤ → StoreError → Result StoreError ℕ
to_u64 (pos n) e = ok n
to_u64 (negsuc n) e = err e

unfoldable pub id_from_i64 : ℤ → Result StoreError ReservationId
id_from_i64 value = to_u64 value (other "backend returned negative reservation id")

unfoldable pub usage_from_i64 : ℤ → ℤ → Result StoreError CounterUsage
usage_from_i64 committed reserved = do
  c ← to_u64 committed (other "backend returned negative committed usage")
  r ← to_u64 reserved (other "backend returned negative reserved usage")
  ok (record { committed = c; reserved = r })
