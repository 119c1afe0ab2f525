-- ===== src/Session/Error.antt =====
-- service/src/error.rs, repository.rs: the errors of the lifecycle and of a session repository.
use sdkwork_sandbox.Base.{Text, Result}
use sdkwork_sandbox.Provider.Error.{ProviderError}
use sdkwork_sandbox.Session.Kinds.{SessionState, OperationKind, SessionFailure}

pub data RepositoryError : Type 0 where
  not_found : RepositoryError
  version_conflict : RepositoryError
  duplicate_session : RepositoryError
  duplicate_operation : RepositoryError
  runtime_binding_conflict : RepositoryError
  unavailable : RepositoryError
  invalid_stored_data : RepositoryError
  protection_failed : RepositoryError
  unsupported_database_engine : RepositoryError
  lease_conflict : RepositoryError
  invalid_page_request : RepositoryError

abbrev pub RepositoryResult {ℓ} : Type ℓ → Type ℓ
RepositoryResult A = Result RepositoryError A

-- The reasons for `InvariantViolation`.
pub data Violation : Type 0 where
  ledger_at_bound : Violation
  version_exceeds_maximum : Violation
  duplicate_without_owner : Violation
  no_binding_intent : Violation
  no_binding : Violation
  no_in_progress_operation : Violation
  non_transient_session : Violation
  unregistered_provider : Violation
  no_allocation_reference : Violation
  no_final_session : Violation
  lease_duration_bounds : Violation
  provider_timeout_bounds : Violation

pub data LifecycleError : Type 0 where
  duplicate_provider : Text → LifecycleError
  session_not_found : Text → Text → LifecycleError
  invalid_transition : SessionState → OperationKind → LifecycleError
  idempotency_conflict : Text → LifecycleError
  session_id_conflict : Text → Text → LifecycleError
  operation_in_progress : Text → LifecycleError
  operation_previously_failed : Text → SessionFailure → LifecycleError
  no_eligible_provider : LifecycleError
  no_healthy_provider : LifecycleError
  provider_readiness_rejected : Text → LifecycleError
  invariant_violation : Violation → LifecycleError
  lease_unavailable : LifecycleError
  lease_lost : LifecycleError
  repository : RepositoryError → LifecycleError
  provider : ProviderError → LifecycleError

abbrev pub LifecycleResult {ℓ} : Type ℓ → Type ℓ
LifecycleResult A = Result LifecycleError A
