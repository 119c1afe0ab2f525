-- ===== src/Service/Destroy.antt =====
-- service/src/service.rs: `destroy_sandbox_session`.
use sdkwork_sandbox.Base.{Option, none, some, Text, if◌then◌else◌}
use sdkwork_sandbox.Provider.Error.{ProviderOperation}
use sdkwork_sandbox.Provider.Requests.{Provider}
use sdkwork_sandbox.Session.Kinds.{OperationKind, SessionFailure, SessionState, is_resting}
use sdkwork_sandbox.Session.Error.{invalid_transition}
use sdkwork_sandbox.Session.Model.{
  RuntimeBinding, Session, begin_operation, transition, complete_operation, clear_runtime_binding,
}
use sdkwork_sandbox.Session.Lease.{SessionLease}
use sdkwork_sandbox.Service.Action.{Action, pure, raise, lift, ◌>>=◌}
use sdkwork_sandbox.Service.Interface.{Service, LifecycleCommand}
use sdkwork_sandbox.Service.Calls.{
  on_answer, acquire_lease, release_lease, execute_provider_call, get_session, provider_by_id,
  persist_session, fail_with_provider_error, replayed, destroy_request,
}

module _ {W : Type 0} (sv : Service W) (id : Text) (lease : SessionLease) where
  unfoldable pub destroyed_at_last : Session → Action W Session
  unfolding persist_session
  destroyed_at_last s = do
    t ← lift (transition SessionState.destroyed OperationKind.destroy s)
    persist_session sv (complete_operation id t) lease

  -- The provider destroys what the binding names; the reconciliation of a destroy does this too.
  unfoldable pub tear_down : Option (Provider W × RuntimeBinding) → Session → Action W Session
  unfolding execute_provider_call fail_with_provider_error destroyed_at_last clear_runtime_binding
  tear_down none s = destroyed_at_last s
  tear_down (some (p, b)) s = do
    answer ←
        execute_provider_call sv p ProviderOperation.destroy lease
          (p.destroy (destroy_request s b lease))
    on_answer answer
        (λ e. fail_with_provider_error sv s id OperationKind.destroy SessionFailure.cleanup e lease)
        (λ _. destroyed_at_last (clear_runtime_binding s))

-- The provider of a binding, if there is a binding.
module _ {W : Type 0} (sv : Service W) where
  unfoldable pub bound_provider :
      Option RuntimeBinding → Action W (Option (Provider W × RuntimeBinding))
  unfolding provider_by_id
  bound_provider none = pure none
  bound_provider (some b) = provider_by_id sv b.provider_id >>= λ p. pure (some (p, b))

module _ {W : Type 0} (sv : Service W) (command : LifecycleCommand) (lease : SessionLease) where
  unfoldable pub destroy_fresh : Session → Action W Session
  unfolding bound_provider persist_session tear_down
  destroy_fresh s =
      if is_resting s.session_state
      then (bound_provider sv s.runtime_binding >>= λ bound.
          lift (begin_operation command.operation_id OperationKind.destroy s) >>= λ t.
          lift (transition SessionState.destroying OperationKind.destroy t) >>= λ u.
          persist_session sv u lease >>= λ v. tear_down sv command.operation_id lease bound v)
      else raise (invalid_transition s.session_state OperationKind.destroy)

  unfoldable pub destroy_with_lease : Action W Session
  unfolding get_session replayed destroy_fresh
  destroy_with_lease = do
    s ← get_session sv command.tenant_id command.session_id
    replay ← lift (replayed s command.operation_id OperationKind.destroy)
    elim replay [ some r ↦ lift r | none ↦ destroy_fresh s ]

module _ {W : Type 0} (sv : Service W) where
  unfoldable pub destroy_session : LifecycleCommand → Action W Session
  unfolding acquire_lease release_lease destroy_with_lease
  destroy_session command = acquire_lease sv command.tenant_id command.session_id >>= λ lease w.
      release_lease sv lease (destroy_with_lease sv command lease w)
