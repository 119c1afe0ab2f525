-- ===== src/Service/Calls.antt =====
-- service/src/service.rs: the lease, the provider calls, and the writes that every method shares.
use sdkwork_sandbox.Base.{
  ◌==◌, Bool, true, false, ◌&&◌, Option, none, some, List, [], ◌∷◌, Text, text_eq, if◌then◌else◌,
  ok, err,
}
use sdkwork_sandbox.Provider.Error.{ProviderError, ProviderOperation, ProviderResult, timeout}
use sdkwork_sandbox.Provider.Descriptor.{satisfies_requirements, is_ready, ProviderHealthStatus}
use sdkwork_sandbox.Provider.Requests.{
  AllocationRequest, StartRequest, StopRequest, DestroyRequest, Provider,
}
use sdkwork_sandbox.Session.Kinds.{
  OperationKind, SessionFailure, OperationOutcome, succeeded, in_progress, failed_with,
  SessionState,
}
use sdkwork_sandbox.Session.Error.{
  LifecycleResult, RepositoryResult, lease_conflict, repository, provider, session_not_found,
  lease_unavailable, lease_lost, operation_in_progress, operation_previously_failed,
  no_eligible_provider, no_healthy_provider, invariant_violation, unregistered_provider,
  no_allocation_reference,
}
use sdkwork_sandbox.Session.Model.{
  RuntimeBinding, Session, replay_operation, transition, fail_operation, next_version,
  mark_operations_persisted,
}
use sdkwork_sandbox.Session.Lease.{SessionLease}
use sdkwork_sandbox.Service.Action.{
  Action, pure, raise, lift, or_raise, from_repository, ◌>>=◌, ◌>>◌,
}
use sdkwork_sandbox.Service.Interface.{Service}

-- What a release makes of the result of the method: an error is kept, a success needs the release.
abbrev pub release_result :
    {A : Type 0} → LifecycleResult A → RepositoryResult Bool → LifecycleResult A
release_result (err e) released = err e
release_result (ok a) (err e) = err lease_lost
release_result (ok a) (ok false) = err lease_lost
release_result (ok a) (ok true) = ok a

-- Whether a renewal confirms the lease.
abbrev pub is_confirmed : SessionLease → RepositoryResult (Option SessionLease) → Bool
is_confirmed lease (err e) = false
is_confirmed lease (ok none) = false
is_confirmed lease (ok (some renewed)) =
    text_eq renewed.tenant_id lease.tenant_id
    && text_eq renewed.session_id lease.session_id
    && text_eq renewed.lease_owner_id lease.lease_owner_id
    && renewed.fencing_token == lease.fencing_token

-- The outcome of a provider call: without an answer in time it is the error `Timeout`.
abbrev pub answered :
    {W A : Type 0}
    → Provider W
    → ProviderOperation
    → W × Option (ProviderResult A)
    → W × LifecycleResult (ProviderResult A)
answered p operation (w, some r) = (w, ok r)
answered p operation (w, none) = (
  w,
  ok (
      err (record {
        provider_id = p.descriptor.provider_id;
        provider_operation = operation;
        provider_error_kind = timeout;
      })),
)

abbrev pub after_renewal :
    {W A : Type 0}
    → Provider W
    → ProviderOperation
    → SessionLease
    → (W → W × Option (ProviderResult A))
    → W × RepositoryResult (Option SessionLease)
    → W × LifecycleResult (ProviderResult A)
after_renewal p operation lease call (w, renewed) =
    if is_confirmed lease renewed then answered p operation (call w) else (w, err lease_lost)

abbrev pub after_release :
    {W A : Type 0} → LifecycleResult A → W × RepositoryResult Bool → W × LifecycleResult A
after_release r (w, released) = (w, release_result r released)

-- `match` on what a provider answers.
abbrev pub on_answer :
    {W A B : Type 0}
    → ProviderResult A
    → (ProviderError → Action W B)
    → (A → Action W B)
    → Action W B
on_answer (err e) f g = f e
on_answer (ok a) f g = g a

abbrev pub persisted :
    {W : Type 0} → Session → W × RepositoryResult (Unit {0}) → W × LifecycleResult Session
persisted s (w, ok _) = (w, ok (mark_operations_persisted s))
persisted s (w, err lease_conflict) = (w, err lease_lost)
persisted s (w, err e) = (w, err (repository e))

-- The result of an operation that is in the ledger.
abbrev pub replayed_result : Session → Text → OperationOutcome → LifecycleResult Session
replayed_result s id succeeded = ok s
replayed_result s id in_progress = err (operation_in_progress id)
replayed_result s id (failed_with failure) = err (operation_previously_failed id failure)

unfoldable pub replayed :
    Session → Text → OperationKind → LifecycleResult (Option (LifecycleResult Session))
unfolding replay_operation
replayed s id kind = elim (replay_operation s id kind) [
  | err e ↦ err e
  | ok none ↦ ok none
  | ok (some outcome) ↦ ok (some (replayed_result s id outcome))
]

abbrev pub reference_of : RuntimeBinding → LifecycleResult Text
reference_of b = elim b.allocation_reference [
  | none ↦ err (invariant_violation no_allocation_reference)
  | some reference ↦ ok reference
]

abbrev pub allocation_request : Session → RuntimeBinding → SessionLease → AllocationRequest
allocation_request s b lease = record {
  tenant_id = s.tenant_id;
  workspace_id = s.workspace_id;
  session_id = s.session_id;
  sandbox_id = b.sandbox_id;
  runtime_binding_id = b.runtime_binding_id;
  fencing_token = lease.fencing_token;
  required_capabilities = s.required_capabilities;
  minimum_assurance = s.minimum_assurance;
}

abbrev pub start_request_of : Session → RuntimeBinding → SessionLease → Text → StartRequest
start_request_of s b lease reference = record {
  tenant_id = s.tenant_id;
  workspace_id = s.workspace_id;
  session_id = s.session_id;
  sandbox_id = b.sandbox_id;
  runtime_binding_id = b.runtime_binding_id;
  fencing_token = lease.fencing_token;
  allocation_reference = reference;
}

abbrev pub stop_request_of : Session → RuntimeBinding → SessionLease → Text → StopRequest
stop_request_of s b lease reference = record {
  tenant_id = s.tenant_id;
  session_id = s.session_id;
  sandbox_id = b.sandbox_id;
  runtime_binding_id = b.runtime_binding_id;
  fencing_token = lease.fencing_token;
  allocation_reference = reference;
}

abbrev pub destroy_request_for_values : Text → Text → RuntimeBinding → SessionLease → DestroyRequest
destroy_request_for_values tenant session b lease = record {
  tenant_id = tenant;
  session_id = session;
  sandbox_id = b.sandbox_id;
  runtime_binding_id = b.runtime_binding_id;
  fencing_token = lease.fencing_token;
  allocation_reference = b.allocation_reference;
}

abbrev pub destroy_request : Session → RuntimeBinding → SessionLease → DestroyRequest
destroy_request s b lease = destroy_request_for_values s.tenant_id s.session_id b lease

abbrev pub find_provider : {W : Type 0} → Text → List (Provider W) → Option (Provider W)
find_provider id [] = none
find_provider id (p ∷ ps) =
    if text_eq p.descriptor.provider_id id then some p else find_provider id ps

module _ {W : Type 0} (sv : Service W) where
  unfoldable pub acquire_lease : Text → Text → Action W SessionLease
  acquire_lease tenant session = do
    lease ← λ w.
        from_repository
          (sv.session_repository.acquire_lease tenant session sv.lease_owner_id sv.lease_duration w)
    or_raise lease lease_unavailable

  unfoldable pub release_lease :
      SessionLease → W × LifecycleResult Session → W × LifecycleResult Session
  release_lease lease (w, r) = after_release r (sv.session_repository.release_lease lease w)

  -- A provider is called only under a lease that a renewal has just confirmed.
  unfoldable pub execute_provider_call :
      {A : Type 0}
      → Provider W
      → ProviderOperation
      → SessionLease
      → (W → W × Option (ProviderResult A))
      → Action W (ProviderResult A)
  execute_provider_call p operation lease call w =
      after_renewal p operation lease call
        (sv.session_repository.renew_lease lease sv.lease_duration w)

  unfoldable pub get_session : Text → Text → Action W Session
  get_session tenant session = do
    s ← λ w. from_repository (sv.session_repository.get_session tenant session w)
    or_raise s (session_not_found tenant session)

  unfoldable pub provider_by_id : Text → Action W (Provider W)
  provider_by_id id =
      or_raise (find_provider id sv.providers) (invariant_violation unregistered_provider)

  unfoldable pub persist_session : Session → SessionLease → Action W Session
  persist_session s lease = do
    t ← lift (next_version s)
    λ w. persisted t (sv.session_repository.save_session t s.version lease w)

  unfoldable pub fail_with_provider_error :
      Session
      → Text
      → OperationKind
      → SessionFailure
      → ProviderError
      → SessionLease
      → Action W Session
  unfolding persist_session
  fail_with_provider_error s id kind failure e lease = do
    t ← lift (transition SessionState.failed kind s)
    persist_session (fail_operation id failure t) lease
    raise (provider e)

  -- The provider is taken if it reports that it is ready.
  abbrev pub taken_if_ready :
      Provider W → Action W (Provider W) → ProviderHealthStatus → Action W (Provider W)
  taken_if_ready p others status = if is_ready status then pure p else others

  -- The first provider that satisfies the session and reports that it is ready.
  unfoldable pub select_from :
      Session → SessionLease → Bool → List (Provider W) → Action W (Provider W)
  unfolding execute_provider_call satisfies_requirements
  select_from s lease found [] = raise (if found then no_healthy_provider else no_eligible_provider)
  select_from s lease found (p ∷ ps) =
      let next = select_from s lease found ps in
      let others = select_from s lease true ps in
      if satisfies_requirements p.descriptor s.required_capabilities s.minimum_assurance
      then (execute_provider_call p ProviderOperation.health lease p.health >>= λ health.
          on_answer health (λ _. others) (taken_if_ready p others))
      else next

  unfoldable pub select_provider : Session → SessionLease → Action W (Provider W)
  unfolding select_from
  select_provider s lease = select_from s lease false sv.providers
