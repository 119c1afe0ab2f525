-- ===== src/Pool/Registry/Ready.antt =====
-- pool-control/src/registry.rs: `sandbox_mark_pool_slot_ready`.
use sdkwork_sandbox.Base.{
  ℕ, Bool, false, not, ◌||◌, Option, none, some, Text, text, text_eq, get, ◌==◌, if◌then◌else◌, ok,
  err, ◌>>◌, guard, and_then,
}
use sdkwork_sandbox.Pool.Error.{
  RuntimePoolResult, internal, not_ready, slot_quarantined, stale_fencing,
}
use sdkwork_sandbox.Pool.SlotState
use sdkwork_sandbox.Pool.SlotState.{SlotState}
use sdkwork_sandbox.Pool.ClaimState
use sdkwork_sandbox.Pool.Records.{PoolSlot, validate_fingerprint}
use sdkwork_sandbox.Pool.Registry.Defs.{Registry, bump, put_slot, finalize_claim_state}

pub record ReadyRequest : Type 0 where
  pub pool_slot_id : Text
  pub expected_fencing_token : ℕ
  pub preparation_evidence_fingerprint : Text

abbrev pub preparing_or_sanitizing : Text
preparing_or_sanitizing = text "preparing or sanitizing"

abbrev pub holds : Option Text → Text → Bool
holds none t = false
holds (some o) t = text_eq o t

-- The guards on the slot, in their order; evidence that the slot holds already is not fresh.
unfoldable pub ready_admission : ReadyRequest → PoolSlot → RuntimePoolResult (Unit {0})
ready_admission r x = do
  guard (r.expected_fencing_token == x.fencing_token) stale_fencing
  guard (not (SlotState.state_eq x.slot_state SlotState.quarantined)) slot_quarantined
  guard
      (SlotState.state_eq x.slot_state SlotState.preparing
        || SlotState.state_eq x.slot_state SlotState.sanitizing)
      (not_ready preparing_or_sanitizing (some (SlotState.as_str x.slot_state)))
  guard (not (holds x.preparation_evidence_fingerprint r.preparation_evidence_fingerprint)) internal

-- A slot that is sanitized closes its claim as released first.
unfoldable pub release_sanitized :
    Text → PoolSlot → Registry → Registry × RuntimePoolResult (Unit {0})
release_sanitized id x s =
    if SlotState.state_eq x.slot_state SlotState.sanitizing
    then elim (get id s.active_claims_by_slot) [
      | none ↦ (s, err internal)
      | some claim ↦
          and_then (finalize_claim_state claim ClaimState.released s) (λ _ s'. (s', ok tt))
    ]
    else (s, ok tt)

abbrev pub ready_slot : ℕ → Text → PoolSlot → PoolSlot
ready_slot now evidence x = record x {
  slot_state = SlotState.ready;
  preparation_evidence_fingerprint = some evidence;
  version = bump x.version;
  updated_at = now;
}

unfoldable pub ready_write : ℕ → ReadyRequest → Registry → Registry × RuntimePoolResult PoolSlot
ready_write now r s = elim (get r.pool_slot_id s.slots) [
  | none ↦ (s, err internal)
  | some x ↦
      if SlotState.can_transition_to x.slot_state SlotState.ready
      then (
        put_slot r.pool_slot_id (ready_slot now r.preparation_evidence_fingerprint x) s,
        ok (ready_slot now r.preparation_evidence_fingerprint x),
      )
      else (s, err internal)
]

unfoldable pub mark_ready : ℕ → ReadyRequest → Registry → Registry × RuntimePoolResult PoolSlot
mark_ready now r s = elim (validate_fingerprint r.preparation_evidence_fingerprint) [
  | err e ↦ (s, err e)
  | ok _ ↦ elim (get r.pool_slot_id s.slots) [
    | none ↦ (s, err (not_ready preparing_or_sanitizing none))
    | some x ↦ elim (ready_admission r x) [
      | err e ↦ (s, err e)
      | ok _ ↦ and_then (release_sanitized r.pool_slot_id x s) (λ _. ready_write now r)
    ]
  ]
]
