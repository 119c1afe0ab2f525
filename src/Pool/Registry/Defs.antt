-- ===== src/Pool/Registry/Defs.antt =====
-- pool-control/src/registry.rs: the registry and the moves that several methods share.
use sdkwork_sandbox.Base.{
  ℕ, Bool, true, false, not, none, some, [], ◌++◌, Text, text, Map, get, insert, remove,
  if◌then◌else◌, saturating_add, i64_max, u32_max, ok, err, and_then, decimal,
}
use sdkwork_sandbox.Pool.Error.{RuntimePoolResult, internal, not_ready}
use sdkwork_sandbox.Pool.SlotState
use sdkwork_sandbox.Pool.SlotState.{SlotState}
use sdkwork_sandbox.Pool.ClaimState
use sdkwork_sandbox.Pool.ClaimState.{ClaimState}
use sdkwork_sandbox.Pool.Records.{PoolSlot, PoolClaim, fencing_initial}

pub record Registry : Type 0 where
  pub slots : Map PoolSlot
  pub claims : Map PoolClaim
  pub claims_by_operation : Map Text
  pub active_claims_by_slot : Map Text
  pub active_claims_by_binding : Map Text
  pub failed_claim_attempts : Map ℕ
  pub claim_sequence : ℕ
  pub highest_fencing_token : ℕ

unfoldable pub empty : Registry
empty = record {
  slots = [];
  claims = [];
  claims_by_operation = [];
  active_claims_by_slot = [];
  active_claims_by_binding = [];
  failed_claim_attempts = [];
  claim_sequence = 0;
  highest_fencing_token = fencing_initial;
}

abbrev pub bump : ℕ → ℕ
bump version = saturating_add i64_max version 1

abbrev pub is_active_claim_state : ClaimState → Bool
is_active_claim_state ClaimState.claiming = true
is_active_claim_state ClaimState.bound = true
is_active_claim_state ClaimState.releasing = true
is_active_claim_state _ = false

abbrev pub attempts_of : Text → Registry → ℕ
attempts_of operation s = elim (get operation s.failed_claim_attempts) [ none ↦ 0 | some n ↦ n ]

abbrev pub note_failed_claim : Text → Registry → Registry
note_failed_claim operation s = record s {
  failed_claim_attempts =
      insert operation (saturating_add u32_max (attempts_of operation s) 1) s.failed_claim_attempts;
}

-- A slot or a claim written back under its key.
abbrev pub put_slot : Text → PoolSlot → Registry → Registry
put_slot id x s = record s { slots = insert id x s.slots }

-- The claim in its next state.
abbrev pub claim_in : ClaimState → PoolClaim → PoolClaim
claim_in next c = record c { claim_state = next; version = bump c.version }

-- The slot in its next state, at the time of the call.
abbrev pub slot_in : SlotState → ℕ → PoolSlot → PoolSlot
slot_in next now x = record x { slot_state = next; version = bump x.version; updated_at = now }

-- The claim written back; a claim that is no longer active leaves both indexes.
abbrev pub write_claim : Text → ClaimState → PoolClaim → Registry → Registry
write_claim id next c s =
    if is_active_claim_state next
    then record s { claims = insert id (claim_in next c) s.claims }
    else record s {
      claims = insert id (claim_in next c) s.claims;
      active_claims_by_slot = remove c.pool_slot_id s.active_claims_by_slot;
      active_claims_by_binding = remove c.runtime_binding_id s.active_claims_by_binding;
    }

unfoldable pub finalize_claim_state :
    Text → ClaimState → Registry → Registry × RuntimePoolResult PoolClaim
finalize_claim_state id next s = elim (get id s.claims) [
  | none ↦ (s, err internal)
  | some c ↦
      if not (ClaimState.can_transition_to c.claim_state next)
      then (s, err internal)
      else (write_claim id next c s, ok (claim_in next c))
]

abbrev pub any_serviceable : Text
any_serviceable = text "any serviceable state"

-- The second half of `sandbox_quarantine_locked`: the slot itself.
unfoldable pub quarantine_slot : Text → ℕ → Registry → Registry × RuntimePoolResult PoolSlot
quarantine_slot id now s = elim (get id s.slots) [
  | none ↦ (s, err internal)
  | some x ↦
      if SlotState.state_eq x.slot_state SlotState.retired
      then (s, err (not_ready any_serviceable (some (text "retired"))))
      else if SlotState.state_eq x.slot_state SlotState.quarantined
      then (s, ok x)
      else if not (SlotState.can_transition_to x.slot_state SlotState.quarantined)
      then (s, err internal)
      else (
        put_slot id (slot_in SlotState.quarantined now x) s,
        ok (slot_in SlotState.quarantined now x),
      )
]

-- The active claim of a slot, if there is one, is closed as quarantined.
unfoldable pub quarantine_claim : Text → Registry → Registry × RuntimePoolResult (Unit {0})
quarantine_claim id s = elim (get id s.active_claims_by_slot) [
  | none ↦ (s, ok tt)
  | some claim ↦
      and_then (finalize_claim_state claim ClaimState.quarantined s) (λ _ s'. (s', ok tt))
]

unfoldable pub quarantine_locked : Text → ℕ → Registry → Registry × RuntimePoolResult PoolSlot
quarantine_locked id now s = and_then (quarantine_claim id s) (λ _. quarantine_slot id now)

-- `format!("sandbox_pool_claim_{sequence}")`.
unfoldable pub claim_id_of : ℕ → Text
claim_id_of sequence = text "sandbox_pool_claim_" ++ decimal sequence
