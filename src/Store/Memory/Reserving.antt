-- ===== src/Store/Memory/Reserving.antt =====
-- `reserve_if_allowed` of src/store/memory.rs keeps the invariant and the limits.
use budget_warden.Base.{
  ℕ, ◌+◌, ◌≤◌, ◌<◌, ◌≡◌, arith, Option-cases, Bool-cases, inl, inr, ◌⊎◌, u64_max, saturating_add,
  ltb, leb, ok, err,
}
use budget_warden.Store.{ReserveRequest, used, denied}
use budget_warden.Error.{other}
use budget_warden.Store.Memory.{
  CounterKey, counter_key, MemoryState, usage_for_counter, cleanup_expired,
}
use budget_warden.Store.Memory.Reserve.{enter, reserve_new, reserve_locked, existing}
use budget_warden.Store.Memory.Cleanup.{cleanup_expired-IsValid}
use budget_warden.Store.Memory.Entering.{enter-IsValid}
use budget_warden.Store.Memory.Valid.{IsValid}

-- The usage that `reserve_new` compares with the limit, request included.
abbrev pub wanted : ReserveRequest → CounterKey → MemoryState → ℕ
wanted req k s = saturating_add (used (usage_for_counter s k)) req.amount

-- The state after the request has been entered under the next identifier.
abbrev pub entering : ReserveRequest → CounterKey → MemoryState → MemoryState
entering req k s = (enter req k (s.next_id + 1) (record s { next_id = s.next_id + 1 })).1

-- How `reserve_new` ends: it denies, it runs out of identifiers, or it enters the request.
pub reserve_new_cases :
    (req : ReserveRequest) (k : CounterKey) (s : MemoryState)
    → ((req.effective_limit < wanted req k s)
        × (reserve_new req k s ≡ (ok (denied (usage_for_counter s k)), s)))
      ⊎ ((wanted req k s ≤ req.effective_limit)
          × (u64_max < s.next_id + 1)
          × (reserve_new req k s ≡ (err (other "reservation id overflow"), s)))
      ⊎ ((wanted req k s ≤ req.effective_limit)
          × (s.next_id + 1 ≤ u64_max)
          × (reserve_new req k s
              ≡ enter req k (s.next_id + 1) (record s { next_id = s.next_id + 1 })))
unfolding reserve_new
reserve_new_cases req k s = elim (Bool-cases (ltb req.effective_limit (wanted req k s))) [
  | inl over ↦ inl (ground arith, rw (over, reserve_new))
  | inr fits ↦ inr (elim (Bool-cases (leb (s.next_id + 1) u64_max)) [
    | inl more ↦ inr (ground arith, ground arith, rw (fits, more, reserve_new))
    | inr full ↦ inl (ground arith, ground arith, rw (fits, full, reserve_new))
  ])
]

pub reserve_new_rule {ℓ} :
    (P : MemoryState → Type ℓ) (req : ReserveRequest) (k : CounterKey) (s : MemoryState)
    → P s
    → (wanted req k s ≤ req.effective_limit → P (entering req k s))
    → P (reserve_new req k s).1
reserve_new_rule P req k s same new = elim (reserve_new_cases req k s) [
  | inl (_, e) ↦ rw e same
  | inr (inl (_, _, e)) ↦ rw e same
  | inr (inr (fits, _, e)) ↦ rw e (new fits)
]

reserve_new-IsValid :
    (req : ReserveRequest) (k : CounterKey) (s : MemoryState)
    → req.effective_limit < u64_max
    → 0 < req.amount
    → IsValid s
    → IsValid (reserve_new req k s).1
reserve_new-IsValid req k s small amount_pos v =
    reserve_new_rule IsValid req k s v λ fits. enter-IsValid req k s v amount_pos (omega arith)

-- `reserve_locked` cleans up and then ends in the state that it has or in that of `reserve_new`.
pub reserve_locked_rule {ℓ} :
    (P : MemoryState → Type ℓ) (req : ReserveRequest) (s : MemoryState)
    → P (cleanup_expired req.now s)
    → P (reserve_new req (counter_key req.key req.window) (cleanup_expired req.now s)).1
    → P (reserve_locked req s).1
unfolding reserve_locked
reserve_locked_rule P req s same new =
    elim (Option-cases
      (existing (cleanup_expired req.now s) (counter_key req.key req.window) req.idempotency_key)) [
        | inl e ↦ rw (e, reserve_locked) new
        | inr (id, e) ↦ rw (e, reserve_locked) same
      ]

-- A reservation keeps the invariant, whether it is granted, denied, replayed or fails: for a
-- request of at least one unit under a limit below `u64::MAX`.
pub reserve_locked-IsValid :
    (req : ReserveRequest) (s : MemoryState)
    → req.effective_limit < u64_max
    → 0 < req.amount
    → IsValid s
    → IsValid (reserve_locked req s).1
reserve_locked-IsValid req s small amount_pos v =
    let w = cleanup_expired-IsValid req.now s v in
    reserve_locked_rule IsValid req s w (reserve_new-IsValid req _ _ small amount_pos w)
