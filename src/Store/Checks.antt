-- ===== src/Store/Checks.antt =====
-- `ReserveRequest::validate` of src/store/contract.rs: what a request that passes it satisfies.
use budget_warden.Base.{
  ◌≤◌, ◌<◌, ◌≡◌, ◌==◌, ltb, leb_ℤ, ◌≤ℤ◌, pos, ◌⊎◌, inl, inr, arith, ok, err, Bool-cases,
}
use budget_warden.Error.{StoreError, invalid_input}
use budget_warden.Store.{ReserveRequest, validate}

-- A request for at least one unit, with a limit within the hard limit and a positive time to live.
pub record IsSound (req : ReserveRequest) : Type 0 where
  pub amount_pos : 0 < req.amount
  pub limited : req.effective_limit ≤ req.hard_limit
  pub lasting : pos 1 ≤ℤ req.reservation_ttl

-- Validation rejects a request with an error, or the request is sound.
pub validate_cases :
    (req : ReserveRequest)
    → ((e : StoreError) × (validate req ≡ err e)) ⊎ ((validate req ≡ ok tt) × IsSound req)
unfolding validate
validate_cases req = elim (Bool-cases (req.amount == 0)) [
  | inl z ↦ inl (invalid_input "amount must be greater than zero", rw (z, validate))
  | inr nz ↦ elim (Bool-cases (ltb req.hard_limit req.effective_limit)) [
    | inl z ↦ inl (invalid_input "effective limit must not exceed hard limit", rw (nz, z, validate))
    | inr le ↦ elim (Bool-cases (leb_ℤ req.reservation_ttl (pos 0))) [
      | inl z ↦ inl (invalid_input "reservation ttl must be positive", rw (nz, le, z, validate))
      | inr p ↦ inr (
        rw (nz, le, p, validate),
        record { amount_pos = ground arith; limited = ground arith; lasting = ground arith },
      )
    ]
  ]
]

-- A sound request passes.
pub validate_sound : (req : ReserveRequest) → IsSound req → validate req ≡ ok tt
unfolding validate
validate_sound req s = ground (arith, s.amount_pos, s.limited, s.lasting)
