-- ===== src/Service/Stored/BringUp.antt =====
-- From a binding to a running session: every save passes the test.
use sdkwork_sandbox.Base.{
  ◌≡◌, refl, sym, subst, inl, inr, true, Option, none, some, Text, ok, err, Bool-cases,
  Option-cases, is_some, arith,
}
use sdkwork_sandbox.Provider.Error.{ProviderError, ProviderOperation}
use sdkwork_sandbox.Provider.Descriptor.{is_running_ready}
use sdkwork_sandbox.Provider.Requests.{Provider}
use sdkwork_sandbox.Session.Kinds.{OperationKind, SessionFailure, starting, failed, running}
use sdkwork_sandbox.Session.Error.{LifecycleResult}
use sdkwork_sandbox.Session.Model.{
  RuntimeBinding, Session, transition, fail_operation, complete_operation, set_runtime_binding,
  clear_runtime_binding, set_allocation_reference, mark_operations_persisted,
}
use sdkwork_sandbox.Session.Persisted.{has_allocation_reference, state_is_consistent}
use sdkwork_sandbox.Session.Lease.{SessionLease}
use sdkwork_sandbox.Service.Action.{Action, lift}
use sdkwork_sandbox.Service.Interface.{Service}
use sdkwork_sandbox.Service.Calls.{
  execute_provider_call, persist_session, reference_of, allocation_request, start_request_of,
  destroy_request, destroy_request_for_values,
}
use sdkwork_sandbox.Service.BringUp.{
  cleaned_up, start_failed, readiness_rejected, run_started, bring_up, allocation_stored,
  allocate_and_bring_up, started_or_undone,
}
use sdkwork_sandbox.Service.Ensures.{Leaves, Ensures, lift-Ensures, bind-Ensures, map-Leaves}
use sdkwork_sandbox.Service.Lawful.{Harmless, Lawful}
use sdkwork_sandbox.Service.Stored.Moves.{
  Pending, Pending-IsStored, saved, failed-IsStored, completed-IsStored,
}
use sdkwork_sandbox.Service.Stored.Calls.{
  execute-Ensures, persist-Ensures, persist-Safe, fail-Ensures, on_answer-Ensures,
}

-- A start in progress keeps its stored form when its binding changes to another.
pub rebound-Pending :
    (id : Text) (b : Option RuntimeBinding) (s : Session)
    → Pending id starting s
    → state_is_consistent starting b ≡ true
    → Pending id starting (record s { runtime_binding = b })
rebound-Pending id b s (e, waits, (o, os, shape, k, w, h, c), a) c' =
    (e, waits, (o, os, shape, k, w, h, c'), a)

pub reference_is_some :
    (b : RuntimeBinding) (r : Text) → reference_of b ≡ ok r → is_some b.allocation_reference ≡ true
reference_is_some b r h = elim (Option-cases b.allocation_reference) [
  | inl e ↦ absurd (ground (arith, h, e))
  | inr (x, e) ↦ ground (arith, e)
]

module _ {W : Type 0} (I : W → Type 0) (sv : Service W) (law : Lawful I sv) (p : Provider W)
    (harmless : Harmless I p) (id : Text) (lease : SessionLease) where
  abbrev Safe : Action W Session → Type 0
  Safe m = Ensures I (λ _. Unit) m

  cleaned_up-Ensures :
      (b : RuntimeBinding) (s : Session) (k : Session → Action W Session)
      → Pending id starting s
      → Ensures I (λ _. Unit) (k (record s { runtime_binding = none }))
      → Ensures I (λ _. Unit) (cleaned_up sv p id lease b s k)
  unfolding cleaned_up clear_runtime_binding
  cleaned_up-Ensures b s k h safe =
      bind-Ensures I (λ _. Unit) (λ _. Unit)
        (execute_provider_call sv p ProviderOperation.destroy lease
          (p.destroy (destroy_request s b lease)))
        _
        (execute-Ensures I sv law p ProviderOperation.destroy lease
          (p.destroy (destroy_request s b lease))
          (harmless.destroy_keeps (destroy_request s b lease)))
        (λ answer _.
          on_answer-Ensures I (λ _. Unit) answer _ (λ _. k (record s { runtime_binding = none }))
            (λ e.
              fail-Ensures I sv law s.runtime_binding s id starting OperationKind.start
                SessionFailure.cleanup e lease h refl)
            (λ _. safe))

  start_failed-Ensures :
      (e : ProviderError) (s : Session)
      → Pending id starting s
      → Ensures I (λ _. Unit) (start_failed sv p id lease e (record s { runtime_binding = none }))
  unfolding start_failed
  start_failed-Ensures e s h =
      fail-Ensures I sv law none s id starting OperationKind.start SessionFailure.provider e lease h
        refl

  readiness_rejected-Ensures :
      (s : Session)
      → Pending id starting s
      → Ensures I
          (λ _. Unit)
          (readiness_rejected sv p id lease (record s { runtime_binding = none }))
  unfolding readiness_rejected
  readiness_rejected-Ensures s h =
      let r = transition failed OperationKind.start (record s { runtime_binding = none }) in
      bind-Ensures I (λ t. r ≡ ok t) (λ _. Unit) (lift r) _ (lift-Ensures I r)
        (λ t m.
          bind-Ensures I (λ _. Unit) (λ _. Unit)
            (persist_session sv (fail_operation id SessionFailure.readiness t) lease) _
            (persist-Safe I sv law (fail_operation id SessionFailure.readiness t) lease (
              failed-IsStored id starting OperationKind.start SessionFailure.readiness none s t h
                refl m))
            (λ u _ w i. (i, tt)))

  run_started-Ensures :
      (s : Session)
      → Pending id starting s
      → has_allocation_reference s.runtime_binding ≡ true
      → Ensures I (λ _. Unit) (run_started sv p id lease s)
  unfolding run_started
  run_started-Ensures s h c =
      let r = transition running OperationKind.start s in
      bind-Ensures I (λ t. r ≡ ok t) (λ _. Unit) (lift r) _ (lift-Ensures I r)
        (λ t m. persist-Safe I sv law (complete_operation id t) lease (
          completed-IsStored id starting running OperationKind.start s.runtime_binding s t h refl c
            m))

  pub bring_up-Ensures :
      (b : RuntimeBinding) (s : Session)
      → Pending id starting s
      → s.runtime_binding ≡ some b
      → Ensures I (λ _. Unit) (bring_up sv p id lease b s)
  unfolding bring_up started_or_undone
  bring_up-Ensures b s h bound =
      bind-Ensures I (λ r. reference_of b ≡ ok r) (λ _. Unit) (lift (reference_of b)) _
        (lift-Ensures I (reference_of b))
        (λ r e.
          bind-Ensures I (λ _. Unit) (λ _. Unit)
            (execute_provider_call sv p ProviderOperation.start lease
              (p.start (start_request_of s b lease r)))
            _
            (execute-Ensures I sv law p ProviderOperation.start lease
              (p.start (start_request_of s b lease r))
              (harmless.start_keeps (start_request_of s b lease r)))
            (λ answer _.
              on_answer-Ensures I (λ _. Unit) answer _ (started_or_undone sv p id lease b s)
                (λ e.
                  cleaned_up-Ensures b s (start_failed sv p id lease e) h
                    (start_failed-Ensures e s h))
                (λ readiness. elim (Bool-cases (is_running_ready readiness)) [
                  | inl t ↦ rw t (run_started-Ensures s h (rw bound (reference_is_some b r e)))
                  | inr t ↦ rw t (
                      cleaned_up-Ensures b s (readiness_rejected sv p id lease) h
                        (readiness_rejected-Ensures s h))
                ])))

  allocation_stored-Leaves :
      (tenant session : Text) (b : RuntimeBinding) (x : W × LifecycleResult Session)
      → Leaves I (λ s. Pending id starting s × (s.runtime_binding ≡ some b)) x
      → Leaves I (λ _. Unit) (allocation_stored sv p id lease tenant session b x)
  unfolding allocation_stored
  allocation_stored-Leaves tenant session b (w, ok s) l = bring_up-Ensures b s l.1.0 l.1.1 w l.0
  allocation_stored-Leaves tenant session b (w, err e) l = (
    (execute-Ensures I sv law p ProviderOperation.destroy lease
        (p.destroy (destroy_request_for_values tenant session b lease))
        (harmless.destroy_keeps (destroy_request_for_values tenant session b lease)) w l.0).0,
    tt,
  )

  bind_allocation-Ensures :
      (b : RuntimeBinding) (s : Session)
      → Pending id starting s
      → Ensures I
          (λ t. Pending id starting t × (t.runtime_binding ≡ some b))
          (persist_session sv (set_runtime_binding b s) lease)
  unfolding set_runtime_binding mark_operations_persisted
  bind_allocation-Ensures b s h w i =
      let pending = rebound-Pending id (some b) s h refl in
      map-Leaves I (λ t. t ≡ saved (set_runtime_binding b s))
        (λ t. Pending id starting t × (t.runtime_binding ≡ some b))
        (persist_session sv (set_runtime_binding b s) lease w)
        (λ t same.
          subst (λ x. Pending id starting x × (x.runtime_binding ≡ some b)) (sym same)
            (pending, refl))
        (persist-Ensures I sv law (set_runtime_binding b s) lease
          (Pending-IsStored id starting (set_runtime_binding b s) pending) w i)

  pub allocate_and_bring_up-Ensures :
      (tenant session : Text) (b : RuntimeBinding) (s : Session)
      → Pending id starting s
      → Ensures I (λ _. Unit) (allocate_and_bring_up sv p id lease tenant session b s)
  unfolding allocate_and_bring_up
  allocate_and_bring_up-Ensures tenant session b s h =
      bind-Ensures I (λ _. Unit) (λ _. Unit)
        (execute_provider_call sv p ProviderOperation.allocate lease
          (p.allocate (allocation_request s b lease)))
        _
        (execute-Ensures I sv law p ProviderOperation.allocate lease
          (p.allocate (allocation_request s b lease))
          (harmless.allocate_keeps (allocation_request s b lease)))
        (λ answer _.
          on_answer-Ensures I (λ _. Unit) answer _ _
            (λ e.
              fail-Ensures I sv law s.runtime_binding s id starting OperationKind.start
                SessionFailure.provider e lease h refl)
            (λ reference w i.
              allocation_stored-Leaves tenant session (set_allocation_reference reference b)
                (persist_session sv (set_runtime_binding (set_allocation_reference reference b) s)
                  lease w)
                (bind_allocation-Ensures (set_allocation_reference reference b) s h w i)))
