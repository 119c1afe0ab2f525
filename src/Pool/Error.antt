-- ===== src/Pool/Error.antt =====
-- pool-control/src/error.rs: the typed failures of the pool control, and its retry guidance.
use sdkwork_sandbox.Base.{
  ℕ, Bool, true, false, Option, none, some, Text, text, leb, if◌then◌else◌, Result,
}
use sdkwork_sandbox.Pool.Bounds.{retry_after_seconds_max}

-- Construction above the bound fails.
pub record RetryAfter : Type 0 where
  pub seconds : ℕ

unfoldable pub retry_after_new : ℕ → Option RetryAfter
retry_after_new seconds =
    if leb seconds retry_after_seconds_max then some (record { seconds = seconds }) else none

pub data PoolDependency : Type 0 where
  admission_reservation : PoolDependency
  verified_node_inventory : PoolDependency
  capacity_reservation : PoolDependency
  preparation_evidence : PoolDependency
  warm_kvm_evidence : PoolDependency

pub data ClaimConflictKind : Type 0 where
  fingerprint_mismatch : ClaimConflictKind
  claim_already_active : ClaimConflictKind
  runtime_binding_already_claimed : ClaimConflictKind
  capacity_revision_mismatch : ClaimConflictKind
  claim_attempt_budget_exhausted : ClaimConflictKind

pub data QuarantineReason : Type 0 where
  cleanup_uncertain claim_expired transitional_stuck operator_decision : QuarantineReason

-- `not_ready` carries the names of the expected and of the actual state.
pub data RuntimePoolError : Type 0 where
  not_ready : Text → Option Text → RuntimePoolError
  exhausted : RetryAfter → RuntimePoolError
  claim_conflict : ClaimConflictKind → RuntimePoolError
  stale_fencing : RuntimePoolError
  dependency_unavailable : PoolDependency → RuntimePoolError
  cleanup_failed : RuntimePoolError
  slot_quarantined : RuntimePoolError
  internal : RuntimePoolError

-- The stable wire code of a failure.
unfoldable pub error_code : RuntimePoolError → Text
error_code (not_ready expected actual) = text "sandbox_pool_not_ready"
error_code (exhausted r) = text "sandbox_pool_exhausted"
error_code (claim_conflict k) = text "sandbox_pool_claim_conflict"
error_code stale_fencing = text "sandbox_pool_stale_fencing"
error_code (dependency_unavailable d) = text "sandbox_pool_dependency_unavailable"
error_code cleanup_failed = text "sandbox_pool_cleanup_failed"
error_code slot_quarantined = text "sandbox_pool_slot_quarantined"
error_code internal = text "sandbox_pool_internal_failure"

unfoldable pub retryable : RuntimePoolError → Bool
retryable (exhausted r) = true
retryable (dependency_unavailable d) = true
retryable _ = false

unfoldable pub retry_after : RuntimePoolError → Option RetryAfter
retry_after (exhausted r) = some r
retry_after _ = none

abbrev pub RuntimePoolResult {ℓ} : Type ℓ → Type ℓ
RuntimePoolResult A = Result RuntimePoolError A
