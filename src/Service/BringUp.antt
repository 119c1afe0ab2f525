-- ===== src/Service/BringUp.antt =====
-- service/src/service.rs: from a binding without an allocation, or with one, to a running session.
-- The start of a session and the reconciliation of a start do this by the same code.
use sdkwork_sandbox.Base.{Text, ok, err, if◌then◌else◌}
use sdkwork_sandbox.Provider.Error.{ProviderError, ProviderOperation}
use sdkwork_sandbox.Provider.Descriptor.{ProviderReadiness, is_running_ready}
use sdkwork_sandbox.Provider.Requests.{Provider}
use sdkwork_sandbox.Session.Kinds.{OperationKind, SessionFailure, SessionState}
use sdkwork_sandbox.Session.Error.{LifecycleResult, provider_readiness_rejected}
use sdkwork_sandbox.Session.Model.{
  RuntimeBinding, Session, set_allocation_reference, set_runtime_binding, clear_runtime_binding,
  transition, fail_operation, complete_operation,
}
use sdkwork_sandbox.Session.Lease.{SessionLease}
use sdkwork_sandbox.Service.Action.{Action, raise, lift, ◌>>=◌, ◌>>◌}
use sdkwork_sandbox.Service.Interface.{Service}
use sdkwork_sandbox.Service.Calls.{
  on_answer, execute_provider_call, persist_session, fail_with_provider_error, allocation_request,
  reference_of, start_request_of, destroy_request, destroy_request_for_values,
}

module _ {W : Type 0} (sv : Service W) (p : Provider W) (id : Text) (lease : SessionLease) where
  -- The allocation is destroyed; if that fails, the start fails for its cleanup.
  unfoldable pub cleaned_up :
      RuntimeBinding → Session → (Session → Action W Session) → Action W Session
  unfolding execute_provider_call fail_with_provider_error clear_runtime_binding
  cleaned_up b s k =
      execute_provider_call sv p ProviderOperation.destroy lease
        (p.destroy (destroy_request s b lease))
      >>= λ answer.
          on_answer answer
            (λ e.
              fail_with_provider_error sv s id OperationKind.start SessionFailure.cleanup e lease)
            (λ _. k (clear_runtime_binding s))

  unfoldable pub start_failed : ProviderError → Session → Action W Session
  unfolding fail_with_provider_error
  start_failed e s =
      fail_with_provider_error sv s id OperationKind.start SessionFailure.provider e lease

  unfoldable pub readiness_rejected : Session → Action W Session
  unfolding persist_session
  readiness_rejected s = do
    t ← lift (transition SessionState.failed OperationKind.start s)
    persist_session sv (fail_operation id SessionFailure.readiness t) lease
    raise (provider_readiness_rejected p.descriptor.provider_id)

  unfoldable pub run_started : Session → Action W Session
  unfolding persist_session
  run_started s = do
    t ← lift (transition SessionState.running OperationKind.start s)
    persist_session sv (complete_operation id t) lease

  unfoldable pub started_or_undone : RuntimeBinding → Session → ProviderReadiness → Action W Session
  unfolding cleaned_up readiness_rejected run_started
  started_or_undone b s readiness =
      if is_running_ready readiness then run_started s else cleaned_up b s readiness_rejected

  -- The provider starts the allocation.
  unfoldable pub bring_up : RuntimeBinding → Session → Action W Session
  unfolding execute_provider_call cleaned_up start_failed started_or_undone
  bring_up b s = do
    reference ← lift (reference_of b)
    answer ←
        execute_provider_call sv p ProviderOperation.start lease
          (p.start (start_request_of s b lease reference))
    on_answer answer (λ e. cleaned_up b s (start_failed e)) (started_or_undone b s)

  -- An allocation that could not be stored is destroyed, and the error of the store is returned.
  unfoldable pub allocation_stored :
      Text → Text → RuntimeBinding → W × LifecycleResult Session → W × LifecycleResult Session
  unfolding bring_up
  allocation_stored tenant session b (w, ok s) = bring_up b s w
  allocation_stored tenant session b (w, err e) =
      let (w', _) =
        execute_provider_call sv p ProviderOperation.destroy lease
          (p.destroy (destroy_request_for_values tenant session b lease)) w in
      (w', err e)

  unfoldable pub allocate_and_bring_up : Text → Text → RuntimeBinding → Session → Action W Session
  unfolding execute_provider_call fail_with_provider_error persist_session allocation_stored
  allocate_and_bring_up tenant session b s = do
    answer ←
        execute_provider_call sv p ProviderOperation.allocate lease
          (p.allocate (allocation_request s b lease))
    on_answer answer
        (λ e. fail_with_provider_error sv s id OperationKind.start SessionFailure.provider e lease)
        (λ reference. λ w. allocation_stored tenant session (set_allocation_reference reference b) (
          persist_session sv (set_runtime_binding (set_allocation_reference reference b) s) lease
            w))
