-- ===== src/Service/Start.antt =====
-- service/src/service.rs: `start_sandbox_session`.
use sdkwork_sandbox.Base.{Option, none, some, ok, if◌then◌else◌}
use sdkwork_sandbox.Provider.Error.{ProviderError, ProviderOperation}
use sdkwork_sandbox.Provider.Requests.{Provider}
use sdkwork_sandbox.Session.Kinds.{OperationKind, SessionFailure, SessionState, is_resting}
use sdkwork_sandbox.Session.Error.{invalid_transition}
use sdkwork_sandbox.Session.Model.{
  RuntimeBinding, Session, new_intent, begin_operation, transition, set_runtime_binding,
}
use sdkwork_sandbox.Session.Lease.{SessionLease}
use sdkwork_sandbox.Service.Action.{Action, pure, raise, lift, ◌>>=◌}
use sdkwork_sandbox.Service.Interface.{Service, LifecycleCommand}
use sdkwork_sandbox.Service.Calls.{
  on_answer, acquire_lease, release_lease, execute_provider_call, get_session, provider_by_id,
  select_provider, persist_session, fail_with_provider_error, replayed, destroy_request,
}
use sdkwork_sandbox.Service.BringUp.{allocate_and_bring_up}

-- A previous binding without an allocation is used again.
abbrev pub reusable : Option RuntimeBinding → Option RuntimeBinding
reusable none = none
reusable (some b) = elim b.allocation_reference [ none ↦ some b | some _ ↦ none ]

-- A previous binding with an allocation is replaced.
abbrev pub replaceable : Option RuntimeBinding → Option RuntimeBinding
replaceable none = none
replaceable (some b) = elim b.allocation_reference [ none ↦ none | some _ ↦ some b ]

module _ {W : Type 0} (sv : Service W) (command : LifecycleCommand) (lease : SessionLease) where
  unfoldable pub start_provider : Session → Option RuntimeBinding → Action W (Provider W)
  unfolding provider_by_id select_provider
  start_provider s (some b) = provider_by_id sv b.provider_id
  start_provider s none = select_provider sv s lease

  unfoldable pub next_binding : Provider W → Option RuntimeBinding → Action W RuntimeBinding
  unfolding new_intent
  next_binding p (some b) = pure b
  next_binding p none = do
    sandbox_id ← λ w. let (w', id) = sv.generate w in (w', ok id)
    binding_id ← λ w. let (w', id) = sv.generate w in (w', ok id)
    pure (new_intent sandbox_id binding_id p.descriptor.provider_id)

  -- The intent is stored before the provider allocates.
  unfoldable pub start_bound : Provider W → Session → RuntimeBinding → Action W Session
  unfolding persist_session allocate_and_bring_up
  start_bound p s b = do
    t ← lift (begin_operation command.operation_id OperationKind.start (set_runtime_binding b s))
    u ← lift (transition SessionState.starting OperationKind.start t)
    v ← persist_session sv u lease
    allocate_and_bring_up sv p command.operation_id lease command.tenant_id command.session_id b v

  -- The previous allocation could not be destroyed.
  unfoldable pub replacement_failed : Session → ProviderError → Action W Session
  unfolding fail_with_provider_error
  replacement_failed s e = do
    t ← lift (begin_operation command.operation_id OperationKind.start s)
    u ← lift (transition SessionState.starting OperationKind.start t)
    fail_with_provider_error sv u command.operation_id OperationKind.start SessionFailure.cleanup e
        lease

  unfoldable pub start_on : Provider W → Session → Option RuntimeBinding → Action W Session
  unfolding provider_by_id execute_provider_call replacement_failed next_binding start_bound
  start_on p s none = next_binding p (reusable s.runtime_binding) >>= start_bound p s
  start_on p s (some previous) = do
    q ← provider_by_id sv previous.provider_id
    answer ←
        execute_provider_call sv q ProviderOperation.destroy lease
          (q.destroy (destroy_request s previous lease))
    on_answer answer (λ e. replacement_failed s e)
        (λ _. next_binding p (reusable s.runtime_binding) >>= start_bound p s)

  unfoldable pub start_fresh : Session → Action W Session
  unfolding start_provider start_on
  start_fresh s =
      if is_resting s.session_state
      then (start_provider s (reusable s.runtime_binding) >>= λ p.
          start_on p s (replaceable s.runtime_binding))
      else raise (invalid_transition s.session_state OperationKind.start)

  unfoldable pub start_with_lease : Action W Session
  unfolding get_session replayed start_fresh
  start_with_lease = do
    s ← get_session sv command.tenant_id command.session_id
    replay ← lift (replayed s command.operation_id OperationKind.start)
    elim replay [ some r ↦ lift r | none ↦ start_fresh s ]

module _ {W : Type 0} (sv : Service W) where
  unfoldable pub start_session : LifecycleCommand → Action W Session
  unfolding acquire_lease release_lease start_with_lease
  start_session command = acquire_lease sv command.tenant_id command.session_id >>= λ lease w.
      release_lease sv lease (start_with_lease sv command lease w)
