-- ===== src/Service/Stop.antt =====
-- service/src/service.rs: `stop_sandbox_session`.
use sdkwork_sandbox.Base.{none, some, Text, if◌then◌else◌}
use sdkwork_sandbox.Provider.Error.{ProviderOperation}
use sdkwork_sandbox.Provider.Requests.{Provider}
use sdkwork_sandbox.Session.Kinds.{OperationKind, SessionFailure, SessionState, state_eq}
use sdkwork_sandbox.Session.Error.{invalid_transition, invariant_violation, no_binding}
use sdkwork_sandbox.Session.Model.{
  RuntimeBinding, Session, begin_operation, transition, complete_operation,
}
use sdkwork_sandbox.Session.Lease.{SessionLease}
use sdkwork_sandbox.Service.Action.{Action, raise, lift, or_raise, ◌>>=◌}
use sdkwork_sandbox.Service.Interface.{Service, LifecycleCommand}
use sdkwork_sandbox.Service.Calls.{
  on_answer, acquire_lease, release_lease, execute_provider_call, get_session, provider_by_id,
  persist_session, fail_with_provider_error, replayed, reference_of, stop_request_of,
}

module _ {W : Type 0} (sv : Service W) (lease : SessionLease) where
  -- The provider stops the allocation; the reconciliation of a stop does this too.
  unfoldable pub bring_down : Provider W → Text → RuntimeBinding → Session → Action W Session
  unfolding execute_provider_call fail_with_provider_error persist_session
  bring_down p id b s = do
    reference ← lift (reference_of b)
    answer ←
        execute_provider_call sv p ProviderOperation.stop lease
          (p.stop (stop_request_of s b lease reference))
    on_answer answer
        (λ e. fail_with_provider_error sv s id OperationKind.stop SessionFailure.provider e lease)
        (λ _. lift (transition SessionState.stopped OperationKind.stop s) >>= λ t.
          persist_session sv (complete_operation id t) lease)

module _ {W : Type 0} (sv : Service W) (command : LifecycleCommand) (lease : SessionLease) where
  unfoldable pub stop_fresh : Session → Action W Session
  unfolding provider_by_id persist_session bring_down
  stop_fresh s =
      if state_eq s.session_state SessionState.running
      then (or_raise s.runtime_binding (invariant_violation no_binding) >>= λ b.
          provider_by_id sv b.provider_id >>= λ p.
          lift (begin_operation command.operation_id OperationKind.stop s) >>= λ t.
          lift (transition SessionState.stopping OperationKind.stop t) >>= λ u.
          persist_session sv u lease >>= λ v. bring_down sv lease p command.operation_id b v)
      else raise (invalid_transition s.session_state OperationKind.stop)

  unfoldable pub stop_with_lease : Action W Session
  unfolding get_session replayed stop_fresh
  stop_with_lease = do
    s ← get_session sv command.tenant_id command.session_id
    replay ← lift (replayed s command.operation_id OperationKind.stop)
    elim replay [ some r ↦ lift r | none ↦ stop_fresh s ]

module _ {W : Type 0} (sv : Service W) where
  unfoldable pub stop_session : LifecycleCommand → Action W Session
  unfolding acquire_lease release_lease stop_with_lease
  stop_session command = acquire_lease sv command.tenant_id command.session_id >>= λ lease w.
      release_lease sv lease (stop_with_lease sv command lease w)
