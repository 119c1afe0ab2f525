-- ===== src/Pool/Registry/Release.antt =====
-- pool-control/src/registry.rs: `sandbox_release_pool_claim`.
pub mod Repetition
use sdkwork_sandbox.Base.{ℕ, none, some, Text, text, get, ◌==◌, if◌then◌else◌, ok, err, and_then}
use sdkwork_sandbox.Pool.Error.{
  RuntimePoolResult, internal, not_ready, slot_quarantined, stale_fencing,
}
use sdkwork_sandbox.Pool.SlotState
use sdkwork_sandbox.Pool.ClaimState.{ClaimState}
use sdkwork_sandbox.Pool.Records.{PoolSlot, PoolClaim}
use sdkwork_sandbox.Pool.Registry.Defs.{Registry, slot_in, put_slot, finalize_claim_state}

pub record ReleaseRequest : Type 0 where
  pub pool_claim_id : Text
  pub expected_fencing_token : ℕ

pub record ReleaseOutcome : Type 0 where
  pub pool_claim : PoolClaim
  pub pool_slot : PoolSlot

-- The slot of a claim that is being released is sanitized.
unfoldable pub sanitize_slot : ℕ → Text → Registry → Registry × RuntimePoolResult (Unit {0})
sanitize_slot now id s = elim (get id s.slots) [
  | none ↦ (s, err internal)
  | some x ↦
      if SlotState.can_transition_to x.slot_state SlotState.sanitizing
      then (put_slot id (slot_in SlotState.sanitizing now x) s, ok tt)
      else (s, err internal)
]

-- What the release writes, by the state of the claim; a release in flight or finished is replayed.
unfoldable pub release_move :
    ClaimState → ℕ → PoolClaim → Registry → Registry × RuntimePoolResult (Unit {0})
release_move ClaimState.bound now c s =
    and_then (finalize_claim_state c.pool_claim_id ClaimState.releasing s)
      (λ _. sanitize_slot now c.pool_slot_id)
release_move ClaimState.releasing now c s = (s, ok tt)
release_move ClaimState.released now c s = (s, ok tt)
release_move ClaimState.quarantined now c s = (s, err slot_quarantined)
release_move ClaimState.claiming now c s = (s, err internal)

-- The claim and its slot, read back.
unfoldable pub release_outcome : Text → Text → Registry → RuntimePoolResult ReleaseOutcome
release_outcome claim slot s = elim (get claim s.claims) [
  | none ↦ err internal
  | some c ↦ elim (get slot s.slots) [
    | none ↦ err internal
    | some x ↦ ok (record { pool_claim = c; pool_slot = x })
  ]
]

unfoldable pub release : ℕ → ReleaseRequest → Registry → Registry × RuntimePoolResult ReleaseOutcome
release now r s = elim (get r.pool_claim_id s.claims) [
  | none ↦ (s, err (not_ready (text "bound") none))
  | some c ↦
      if r.expected_fencing_token == c.fencing_token
      then and_then (release_move c.claim_state now c s)
          (λ _ s'. (s', release_outcome r.pool_claim_id c.pool_slot_id s'))
      else (s, err stale_fencing)
]
