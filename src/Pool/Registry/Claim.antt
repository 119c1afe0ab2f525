-- ===== src/Pool/Registry/Claim.antt =====
-- pool-control/src/registry.rs: `sandbox_claim_pool_slot`.
use sdkwork_sandbox.Base.{
  ℕ, suc, not, ◌&&◌, none, some, Text, text, text_eq, get, insert, contains_key, leb, ltb, ◌==◌,
  if◌then◌else◌, u64_max, saturating_add, eqb_ℤ, ok, err, ◌>>=◌, ◌>>◌, guard, ok_or,
}
use sdkwork_sandbox.Pool.Bounds.{claim_attempt_count_max}
use sdkwork_sandbox.Pool.Error.{
  RuntimePoolResult, internal, not_ready, claim_conflict, slot_quarantined, stale_fencing,
  dependency_unavailable, admission_reservation, capacity_reservation, fingerprint_mismatch,
  claim_already_active, runtime_binding_already_claimed, capacity_revision_mismatch,
  claim_attempt_budget_exhausted,
}
use sdkwork_sandbox.Pool.SlotState
use sdkwork_sandbox.Pool.SlotState.{SlotState}
use sdkwork_sandbox.Pool.ClaimState
use sdkwork_sandbox.Pool.Records.{
  ClaimRequest, claim_request_validated, PoolSlot, PoolClaim, fencing_next, id_new,
}
use sdkwork_sandbox.Pool.Registry.Defs.{Registry, bump, attempts_of, note_failed_claim, claim_id_of}

abbrev pub ready_text : Text
ready_text = text "ready"

-- What the guards found: the slot, and the two confirmed inputs of the allocation.
pub record Admitted : Type 0 where
  pub slot : PoolSlot
  pub admission_grant_id : Text
  pub capacity_reservation_id : Text

-- The guards on the slot, in their order.
unfoldable pub slot_admission : ClaimRequest → PoolSlot → RuntimePoolResult (Unit {0})
slot_admission r x = do
  guard (text_eq x.resource_profile_id r.resource_profile_id)
      (not_ready ready_text (some (SlotState.as_str x.slot_state)))
  guard (not (SlotState.state_eq x.slot_state SlotState.quarantined)) slot_quarantined
  guard (SlotState.state_eq x.slot_state SlotState.ready)
      (not_ready ready_text (some (SlotState.as_str x.slot_state)))
  guard (eqb_ℤ x.capacity_revision r.capacity_revision) (claim_conflict capacity_revision_mismatch)
  guard (r.expected_fencing_token == x.fencing_token) stale_fencing

-- The guards whose refusal counts as a failed attempt of the operation, in their order.
unfoldable pub claim_admission : ClaimRequest → Registry → RuntimePoolResult Admitted
claim_admission r s = do
  guard (not (contains_key r.runtime_binding_id s.active_claims_by_binding))
      (claim_conflict runtime_binding_already_claimed)
  grant ← ok_or r.admission_grant_id (dependency_unavailable admission_reservation)
  reservation ← ok_or r.capacity_reservation_id (dependency_unavailable capacity_reservation)
  x ← ok_or (get r.pool_slot_id s.slots) (not_ready ready_text none)
  slot_admission r x
  guard (not (contains_key r.pool_slot_id s.active_claims_by_slot))
      (claim_conflict claim_already_active)
  ok (record { slot = x; admission_grant_id = grant; capacity_reservation_id = reservation })

abbrev pub claim_record : ℕ → ClaimRequest → Admitted → ℕ → Text → PoolClaim
claim_record now r a token id = record {
  tenant_id = r.tenant_id;
  pool_claim_id = id;
  pool_slot_id = r.pool_slot_id;
  admission_grant_id = a.admission_grant_id;
  capacity_reservation_id = a.capacity_reservation_id;
  capacity_revision = r.capacity_revision;
  session_id = r.session_id;
  runtime_binding_id = r.runtime_binding_id;
  operation_id = r.operation_id;
  request_fingerprint = r.request_fingerprint;
  fencing_token = token;
  claim_state = ClaimState.bound;
  version = 0;
  claimed_at = now;
  expires_at = saturating_add u64_max now r.ttl_seconds;
}

-- The slot after `ready -> claiming -> claimed` in one critical section.
abbrev pub claimed_slot : ℕ → ℕ → PoolSlot → PoolSlot
claimed_slot now token x = record x {
  slot_state = SlotState.claimed;
  fencing_token = token;
  version = bump x.version;
  updated_at = now;
}

abbrev pub claim_write : ℕ → PoolClaim → PoolSlot → Registry → Registry
claim_write now c x s = record s {
  slots = insert c.pool_slot_id (claimed_slot now c.fencing_token x) s.slots;
  highest_fencing_token = c.fencing_token;
  claims = insert c.pool_claim_id c s.claims;
  claims_by_operation = insert c.operation_id c.pool_claim_id s.claims_by_operation;
  active_claims_by_slot = insert c.pool_slot_id c.pool_claim_id s.active_claims_by_slot;
  active_claims_by_binding = insert c.runtime_binding_id c.pool_claim_id s.active_claims_by_binding;
}

-- The rest of the method once the sequence number is written.
unfoldable pub claim_named :
    ℕ → ClaimRequest → Admitted → ℕ → Registry → Registry × RuntimePoolResult PoolClaim
claim_named now r a token s = elim (id_new (claim_id_of s.claim_sequence)) [
  | err e ↦ (s, err internal)
  | ok id ↦ elim (get r.pool_slot_id s.slots) [
    | none ↦ (s, err internal)
    | some x ↦
        if SlotState.can_transition_to x.slot_state SlotState.claiming
          && SlotState.can_transition_to SlotState.claiming SlotState.claimed
        then (
          claim_write now (claim_record now r a token id) x s,
          ok (claim_record now r a token id),
        )
        else (s, err internal)
  ]
]

abbrev pub next_sequence : Registry → Registry
next_sequence s = record s { claim_sequence = suc s.claim_sequence }

unfoldable pub claim_commit :
    ℕ → ClaimRequest → Admitted → Registry → Registry × RuntimePoolResult PoolClaim
claim_commit now r a s = elim (fencing_next s.highest_fencing_token) [
  | none ↦ (s, err internal)
  | some token ↦
      if ltb s.claim_sequence u64_max
      then claim_named now r a token (next_sequence s)
      else (s, err internal)
]

unfoldable pub claim_replay :
    ClaimRequest → Text → Registry → Registry × RuntimePoolResult PoolClaim
claim_replay r id s = elim (get id s.claims) [
  | none ↦ (s, err internal)
  | some c ↦
      if text_eq c.request_fingerprint r.request_fingerprint
      then (s, ok c)
      else (note_failed_claim r.operation_id s, err (claim_conflict fingerprint_mismatch))
]

unfoldable pub claim_fresh : ℕ → ClaimRequest → Registry → Registry × RuntimePoolResult PoolClaim
claim_fresh now r s = elim (claim_admission r s) [
  | err e ↦ (note_failed_claim r.operation_id s, err e)
  | ok a ↦ claim_commit now r a s
]

unfoldable pub claim : ℕ → ClaimRequest → Registry → Registry × RuntimePoolResult PoolClaim
claim now r s = elim (claim_request_validated r) [
  | err e ↦ (s, err e)
  | ok _ ↦
      if leb claim_attempt_count_max (attempts_of r.operation_id s)
      then (s, err (claim_conflict claim_attempt_budget_exhausted))
      else elim (get r.operation_id s.claims_by_operation) [
        | some id ↦ claim_replay r id s
        | none ↦ claim_fresh now r s
      ]
]
