-- ===== src/Pool/Registry/Withdraw.antt =====
-- pool-control/src/registry.rs: `sandbox_quarantine_pool_slot` and `sandbox_retire_pool_slot`.
use sdkwork_sandbox.Base.{ℕ, none, some, Text, text, get, ◌==◌, if◌then◌else◌, ok, err, and_then}
use sdkwork_sandbox.Pool.Error.{
  RuntimePoolResult, internal, not_ready, stale_fencing, QuarantineReason,
}
use sdkwork_sandbox.Pool.SlotState
use sdkwork_sandbox.Pool.Records.{PoolSlot}
use sdkwork_sandbox.Pool.Registry.Defs.{
  Registry, slot_in, put_slot, any_serviceable, quarantine_claim, quarantine_locked,
}

pub record QuarantineRequest : Type 0 where
  pub pool_slot_id : Text
  pub expected_fencing_token : ℕ
  pub quarantine_reason : QuarantineReason

pub record RetireRequest : Type 0 where
  pub pool_slot_id : Text
  pub expected_fencing_token : ℕ

unfoldable pub quarantine : ℕ → QuarantineRequest → Registry → Registry × RuntimePoolResult PoolSlot
quarantine now r s = elim (get r.pool_slot_id s.slots) [
  | none ↦ (s, err (not_ready any_serviceable none))
  | some x ↦
      if r.expected_fencing_token == x.fencing_token
      then quarantine_locked r.pool_slot_id now s
      else (s, err stale_fencing)
]

unfoldable pub retire_slot : ℕ → Text → Registry → Registry × RuntimePoolResult PoolSlot
retire_slot now id s = elim (get id s.slots) [
  | none ↦ (s, err internal)
  | some x ↦
      if SlotState.can_transition_to x.slot_state SlotState.retired
      then (put_slot id (slot_in SlotState.retired now x) s, ok (slot_in SlotState.retired now x))
      else (s, err internal)
]

-- The active claim of a slot that is retired is closed as quarantined, as by a quarantine.
unfoldable pub retire : ℕ → RetireRequest → Registry → Registry × RuntimePoolResult PoolSlot
retire now r s = elim (get r.pool_slot_id s.slots) [
  | none ↦ (s, err (not_ready (text "any state") none))
  | some x ↦
      if r.expected_fencing_token == x.fencing_token
      then if SlotState.state_eq x.slot_state SlotState.retired
        then (s, ok x)
        else and_then (quarantine_claim r.pool_slot_id s) (λ _. retire_slot now r.pool_slot_id)
      else (s, err stale_fencing)
]
