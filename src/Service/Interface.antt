-- ===== src/Service/Interface.antt =====
-- service/src/repository.rs, service.rs: the repository as the record of its calls, and the service.
use sdkwork_sandbox.Base.{ℕ, Bool, Option, List, Text}
use sdkwork_sandbox.Session.Kinds.{SessionState}
use sdkwork_sandbox.Session.Error.{RepositoryResult}
use sdkwork_sandbox.Session.Model.{Session}
use sdkwork_sandbox.Session.Lease.{SessionLease}
use sdkwork_sandbox.Provider.Requests.{Provider}

-- service/src/reconciliation.rs: what the repository lists.
pub record ReconciliationCandidate : Type 0 where
  pub session_id : Text
  pub session_state : SessionState

-- The trait. A call moves the world `W`; durations are in milliseconds.
pub record Repository (W : Type 0) : Type 0 where
  pub find_by_operation : Text → Text → W → W × RepositoryResult (Option Session)
  pub get_session : Text → Text → W → W × RepositoryResult (Option Session)
  pub insert_session : Session → W → W × RepositoryResult (Unit {0})
  pub save_session : Session → ℕ → SessionLease → W → W × RepositoryResult (Unit {0})
  pub acquire_lease : Text → Text → Text → ℕ → W → W × RepositoryResult (Option SessionLease)
  pub renew_lease : SessionLease → ℕ → W → W × RepositoryResult (Option SessionLease)
  pub release_lease : SessionLease → W → W × RepositoryResult Bool
  pub list_requiring_reconciliation :
      Text → Option Text → ℕ → W → W × RepositoryResult (List ReconciliationCandidate)

-- The service, with the source of its fresh identities.
pub record Service (W : Type 0) : Type 0 where
  pub session_repository : Repository W
  pub providers : List (Provider W)
  pub lease_owner_id : Text
  pub lease_duration : ℕ
  pub generate : W → W × Text

-- service/src/command.rs: the command of a start, a stop and a destroy.
pub record LifecycleCommand : Type 0 where
  pub tenant_id : Text
  pub session_id : Text
  pub operation_id : Text
