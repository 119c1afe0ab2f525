-- ===== src/Service/Stored/Start.antt =====
-- The start of a session: every save passes the test.
use sdkwork_sandbox.Base.{
  ◌≡◌, refl, inl, inr, true, Option, none, some, ok, Bool-cases, is_some, arith,
}
use sdkwork_sandbox.Provider.Error.{ProviderError, ProviderOperation}
use sdkwork_sandbox.Provider.Requests.{Provider}
use sdkwork_sandbox.Session.Kinds.{
  OperationKind, SessionState, SessionFailure, starting, in_progress, is_resting,
}
use sdkwork_sandbox.Session.Ledger.{find_operation}
use sdkwork_sandbox.Session.Model.{
  RuntimeBinding, Session, transition, begin_operation, set_runtime_binding,
}
use sdkwork_sandbox.Session.Persisted.{replayed_state}
use sdkwork_sandbox.Session.Persisted.Stored.{IsStored}
use sdkwork_sandbox.Session.Lease.{SessionLease}
use sdkwork_sandbox.Service.Action.{lift}
use sdkwork_sandbox.Service.Interface.{Service, LifecycleCommand}
use sdkwork_sandbox.Service.Calls.{execute_provider_call, provider_by_id, destroy_request}
use sdkwork_sandbox.Service.BringUp.{allocate_and_bring_up}
use sdkwork_sandbox.Service.Start.{
  reusable, replaceable, start_provider, next_binding, start_bound, replacement_failed, start_on,
  start_fresh,
}
use sdkwork_sandbox.Service.Ensures.{Ensures, lift-Ensures, bind-Ensures}
use sdkwork_sandbox.Service.Lawful.{Harmless, Lawful}
use sdkwork_sandbox.Service.Stored.Moves.{begun-Pending}
use sdkwork_sandbox.Service.Stored.Calls.{
  execute-Ensures, fail-Ensures, on_answer-Ensures, provider_by_id-Ensures, select_provider-Ensures,
}
use sdkwork_sandbox.Service.Stored.BringUp.{allocate_and_bring_up-Ensures}
use sdkwork_sandbox.Service.Stored.Down.{opened-Ensures}

resting_starts :
    (s : SessionState)
    → is_resting s ≡ true
    → replayed_state s OperationKind.start in_progress ≡ some starting
resting_starts s h = ground (arith, h)

replaceable-is_some :
    (b : Option RuntimeBinding) (previous : RuntimeBinding)
    → replaceable b ≡ some previous
    → is_some b ≡ true
replaceable-is_some none previous e = absurd (cc)
replaceable-is_some (some b) previous e = refl

module _ {W : Type 0} (I : W → Type 0) (sv : Service W) (law : Lawful I sv) (c : LifecycleCommand)
    (lease : SessionLease) where
  start_provider-Ensures :
      (s : Session) (b : Option RuntimeBinding)
      → Ensures I (Harmless I) (start_provider sv c lease s b)
  unfolding start_provider
  start_provider-Ensures s (some b) = provider_by_id-Ensures I sv law b.provider_id
  start_provider-Ensures s none = select_provider-Ensures I sv law s lease

  next_binding-Ensures :
      (p : Provider W) (b : Option RuntimeBinding)
      → Ensures I (λ _. Unit) (next_binding sv c lease p b)
  unfolding next_binding
  next_binding-Ensures p (some b) w i = (i, tt)
  next_binding-Ensures p none w i =
      (law.generate_keeps (sv.generate w).0 (law.generate_keeps w i), tt)

  start_bound-Ensures :
      (p : Provider W) (s : Session) (b : RuntimeBinding)
      → Harmless I p
      → IsStored s
      → find_operation c.operation_id s.operations ≡ none
      → is_resting s.session_state ≡ true
      → Ensures I (λ _. Unit) (start_bound sv c lease p s b)
  unfolding start_bound set_runtime_binding
  start_bound-Ensures p s b harmless h fresh rest =
      opened-Ensures I sv law c.operation_id OperationKind.start starting (some b) s lease
        (λ v. allocate_and_bring_up sv p c.operation_id lease c.tenant_id c.session_id b v) h fresh
        (resting_starts s.session_state rest) refl refl
        (λ v pending.
          allocate_and_bring_up-Ensures I sv law p harmless c.operation_id lease c.tenant_id
            c.session_id b v pending.0)

  replacement_failed-Ensures :
      (s : Session) (e : ProviderError)
      → IsStored s
      → find_operation c.operation_id s.operations ≡ none
      → is_resting s.session_state ≡ true
      → is_some s.runtime_binding ≡ true
      → Ensures I (λ _. Unit) (replacement_failed sv c lease s e)
  unfolding replacement_failed
  replacement_failed-Ensures s e h fresh rest bound =
      let r = begin_operation c.operation_id OperationKind.start s in
      bind-Ensures I (λ t. r ≡ ok t) (λ _. Unit) (lift r) _ (lift-Ensures I r)
        (λ t begins.
          bind-Ensures I (λ u. transition starting OperationKind.start t ≡ ok u) (λ _. Unit)
            (lift (transition starting OperationKind.start t)) _
            (lift-Ensures I (transition starting OperationKind.start t))
            (λ u moves.
              fail-Ensures I sv law u.runtime_binding u c.operation_id starting OperationKind.start
                SessionFailure.cleanup e lease
                (begun-Pending c.operation_id OperationKind.start starting s.runtime_binding s t u h
                  fresh (resting_starts s.session_state rest) refl bound begins moves).0
                refl))

  start_on-Ensures :
      (p : Provider W) (s : Session) (previous : Option RuntimeBinding)
      → Harmless I p
      → IsStored s
      → find_operation c.operation_id s.operations ≡ none
      → is_resting s.session_state ≡ true
      → replaceable s.runtime_binding ≡ previous
      → Ensures I (λ _. Unit) (start_on sv c lease p s previous)
  unfolding start_on
  start_on-Ensures p s none harmless h fresh rest e =
      bind-Ensures I (λ _. Unit) (λ _. Unit)
        (next_binding sv c lease p (reusable s.runtime_binding)) _
        (next_binding-Ensures p (reusable s.runtime_binding))
        (λ b _. start_bound-Ensures p s b harmless h fresh rest)
  start_on-Ensures p s (some previous) harmless h fresh rest e =
      bind-Ensures I (Harmless I) (λ _. Unit) (provider_by_id sv previous.provider_id) _
        (provider_by_id-Ensures I sv law previous.provider_id)
        (λ q also.
          bind-Ensures I (λ _. Unit) (λ _. Unit)
            (execute_provider_call sv q ProviderOperation.destroy lease
              (q.destroy (destroy_request s previous lease)))
            _
            (execute-Ensures I sv law q ProviderOperation.destroy lease
              (q.destroy (destroy_request s previous lease))
              (also.destroy_keeps (destroy_request s previous lease)))
            (λ answer _.
              on_answer-Ensures I (λ _. Unit) answer _ _
                (λ e'.
                  replacement_failed-Ensures s e' h fresh rest
                    (replaceable-is_some s.runtime_binding previous e))
                (λ _.
                  bind-Ensures I (λ _. Unit) (λ _. Unit)
                    (next_binding sv c lease p (reusable s.runtime_binding)) _
                    (next_binding-Ensures p (reusable s.runtime_binding))
                    (λ b _. start_bound-Ensures p s b harmless h fresh rest))))

  pub start_fresh-Ensures :
      (s : Session)
      → IsStored s
      → find_operation c.operation_id s.operations ≡ none
      → Ensures I (λ _. Unit) (start_fresh sv c lease s)
  unfolding start_fresh
  start_fresh-Ensures s h fresh = elim (Bool-cases (is_resting s.session_state)) [
    | inr e ↦ rw e (λ w i. (i, tt))
    | inl e ↦ rw e (
        bind-Ensures I (Harmless I) (λ _. Unit)
          (start_provider sv c lease s (reusable s.runtime_binding)) _
          (start_provider-Ensures s (reusable s.runtime_binding))
          (λ p harmless.
            start_on-Ensures p s (replaceable s.runtime_binding) harmless h fresh e refl))
  ]
