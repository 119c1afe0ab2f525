-- ===== src/Pool/Records.antt =====
-- pool-control/src/{identity,fencing,slot,claim}.rs: identities, fencing tokens, slots and claims.
-- An identity is a text that its constructor has validated; a token is a number that is not
-- negative, since neither the first token nor a successor nor a conversion is.
use sdkwork_sandbox.Base.{
  ℕ, suc, Bool, not, ◌||◌, Option, none, some, Text, ltb, leb, ◌==◌, if◌then◌else◌, i64_max, ℤ, pos,
  negsuc, is_negative, ok, ◌>>◌, guard, is_opaque, is_fingerprint,
}
use sdkwork_sandbox.Pool.Bounds.{claim_ttl_seconds_max}
use sdkwork_sandbox.Pool.Error.{RuntimePoolResult, internal}
use sdkwork_sandbox.Pool.SlotState.{SlotState}
use sdkwork_sandbox.Pool.ClaimState.{ClaimState}
use sdkwork_sandbox.Pool.PoolClass.{PoolClass}
use sdkwork_sandbox.Pool.Assurance.{IsolationAssurance}

-- `MAX_SANDBOX_POOL_ID_LENGTH`.
abbrev pub id_length_max : ℕ
id_length_max = 128

unfoldable pub validate_opaque : Text → RuntimePoolResult (Unit {0})
validate_opaque value = guard (is_opaque id_length_max value) internal

-- `new` of every identity type.
unfoldable pub id_new : Text → RuntimePoolResult Text
unfolding validate_opaque
id_new value = validate_opaque value >> ok value

abbrev pub fencing_initial : ℕ
fencing_initial = 0

-- `checked_add(1)`.
unfoldable pub fencing_next : ℕ → Option ℕ
fencing_next token = if ltb token i64_max then some (suc token) else none

unfoldable pub fencing_try_from : ℤ → Option ℕ
fencing_try_from (pos n) = some n
fencing_try_from (negsuc n) = none

unfoldable pub validate_fingerprint : Text → RuntimePoolResult (Unit {0})
validate_fingerprint value = guard (is_fingerprint value) internal

pub record PoolSlot : Type 0 where
  pub pool_slot_id : Text
  pub pool_class : PoolClass
  pub resource_profile_id : Text
  pub node_reference : Text
  pub provider_id : Text
  pub provider_kind : Text
  pub isolation_assurance : IsolationAssurance
  pub artifact_manifest_revision : Text
  pub capacity_revision : ℤ
  pub slot_state : SlotState
  pub fencing_token : ℕ
  pub version : ℕ
  pub preparation_evidence_fingerprint : Option Text
  pub created_at : ℕ
  pub updated_at : ℕ

-- `SandboxPoolPreparationRequest`.
pub record PreparationRequest : Type 0 where
  pub pool_slot_id : Text
  pub pool_class : PoolClass
  pub resource_profile_id : Text
  pub node_reference : Text
  pub provider_id : Text
  pub provider_kind : Text
  pub isolation_assurance : IsolationAssurance
  pub artifact_manifest_revision : Text
  pub capacity_revision : ℤ
  pub warm_kvm_evidence_ref : Option Text

unfoldable pub slot_new : PreparationRequest → ℕ → RuntimePoolResult PoolSlot
slot_new r now = do
  guard (not (is_negative r.capacity_revision)) internal
  ok (record {
    pool_slot_id = r.pool_slot_id;
    pool_class = r.pool_class;
    resource_profile_id = r.resource_profile_id;
    node_reference = r.node_reference;
    provider_id = r.provider_id;
    provider_kind = r.provider_kind;
    isolation_assurance = r.isolation_assurance;
    artifact_manifest_revision = r.artifact_manifest_revision;
    capacity_revision = r.capacity_revision;
    slot_state = SlotState.preparing;
    fencing_token = fencing_initial;
    version = 0;
    preparation_evidence_fingerprint = none;
    created_at = now;
    updated_at = now;
  })

pub record PoolClaim : Type 0 where
  pub tenant_id : Text
  pub pool_claim_id : Text
  pub pool_slot_id : Text
  pub admission_grant_id : Text
  pub capacity_reservation_id : Text
  pub capacity_revision : ℤ
  pub session_id : Text
  pub runtime_binding_id : Text
  pub operation_id : Text
  pub request_fingerprint : Text
  pub fencing_token : ℕ
  pub claim_state : ClaimState
  pub version : ℕ
  pub claimed_at : ℕ
  pub expires_at : ℕ

unfoldable pub is_expired_at : PoolClaim → ℕ → Bool
is_expired_at c now = leb c.expires_at now

pub record ClaimRequest : Type 0 where
  pub tenant_id : Text
  pub pool_slot_id : Text
  pub session_id : Text
  pub runtime_binding_id : Text
  pub operation_id : Text
  pub request_fingerprint : Text
  pub admission_grant_id : Option Text
  pub capacity_reservation_id : Option Text
  pub capacity_revision : ℤ
  pub expected_fencing_token : ℕ
  pub ttl_seconds : ℕ
  pub resource_profile_id : Text

unfoldable pub claim_request_validated : ClaimRequest → RuntimePoolResult (Unit {0})
unfolding validate_fingerprint
claim_request_validated r = do
  validate_fingerprint r.request_fingerprint
  guard (not (r.ttl_seconds == 0 || ltb claim_ttl_seconds_max r.ttl_seconds)) internal
