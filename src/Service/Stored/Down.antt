-- ===== src/Service/Stored/Down.antt =====
-- The stop and the destroy of a session: every save passes the test.
use sdkwork_sandbox.Base.{
  ◌∙◌, ◌≡◌, refl, sym, subst, inl, inr, true, Option, none, some, Text, ok, Bool-cases, arith,
}
use sdkwork_sandbox.Provider.Error.{ProviderOperation}
use sdkwork_sandbox.Provider.Requests.{Provider}
use sdkwork_sandbox.Session.Kinds.{
  OperationKind, SessionState, SessionFailure, stopping, stopped, running, destroying, destroyed,
  state_eq, in_progress, is_transient, is_resting,
}
use sdkwork_sandbox.Session.Error.{invariant_violation, no_binding}
use sdkwork_sandbox.Session.Ledger.{find_operation}
use sdkwork_sandbox.Session.Model.{
  RuntimeBinding, Session, transition, begin_operation, complete_operation, clear_runtime_binding,
  mark_operations_persisted,
}
use sdkwork_sandbox.Session.Persisted.{state_is_consistent, replayed_state}
use sdkwork_sandbox.Session.Persisted.Stored.{IsStored, state_eq_iff}
use sdkwork_sandbox.Session.Lease.{SessionLease}
use sdkwork_sandbox.Service.Action.{Action, lift, or_raise, ◌>>=◌}
use sdkwork_sandbox.Service.Interface.{Service, LifecycleCommand}
use sdkwork_sandbox.Service.Calls.{
  execute_provider_call, persist_session, reference_of, stop_request_of, destroy_request,
  provider_by_id,
}
use sdkwork_sandbox.Service.Stop.{bring_down, stop_fresh}
use sdkwork_sandbox.Service.Destroy.{destroyed_at_last, tear_down, bound_provider, destroy_fresh}
use sdkwork_sandbox.Service.Ensures.{
  Ensures, lift-Ensures, bind-Ensures, map-Leaves, or_raise-Ensures, pure-Ensures,
}
use sdkwork_sandbox.Service.Lawful.{Harmless, Lawful}
use sdkwork_sandbox.Service.Stored.Moves.{
  Pending, Pending-IsStored, saved, completed-IsStored, begun-Pending,
}
use sdkwork_sandbox.Service.Stored.Calls.{
  execute-Ensures, persist-Ensures, persist-Safe, fail-Ensures, on_answer-Ensures,
  provider_by_id-Ensures,
}

module _ {W : Type 0} (I : W → Type 0) (sv : Service W) (law : Lawful I sv) where
  -- A session that waits is saved, and then is what it was.
  pub persist-Pending :
      (id : Text) (state : SessionState) (b : Option RuntimeBinding) (s : Session)
      (lease : SessionLease)
      → Pending id state s × (s.runtime_binding ≡ b)
      → Ensures I (λ t. Pending id state t × (t.runtime_binding ≡ b)) (persist_session sv s lease)
  unfolding mark_operations_persisted
  persist-Pending id state b s lease h w i =
      map-Leaves I (λ t. t ≡ saved s) (λ t. Pending id state t × (t.runtime_binding ≡ b))
        (persist_session sv s lease w)
        (λ t same. subst (λ x. Pending id state x × (x.runtime_binding ≡ b)) (sym same) h)
        (persist-Ensures I sv law s lease (Pending-IsStored id state s h.0) w i)

  pub bring_down-Ensures :
      (p : Provider W) (id : Text) (lease : SessionLease) (b : RuntimeBinding) (s : Session)
      → Harmless I p
      → Pending id stopping s
      → Ensures I (λ _. Unit) (bring_down sv lease p id b s)
  unfolding bring_down
  bring_down-Ensures p id lease b s harmless h =
      bind-Ensures I (λ r. reference_of b ≡ ok r) (λ _. Unit) (lift (reference_of b)) _
        (lift-Ensures I (reference_of b))
        (λ r e.
          bind-Ensures I (λ _. Unit) (λ _. Unit)
            (execute_provider_call sv p ProviderOperation.stop lease
              (p.stop (stop_request_of s b lease r)))
            _
            (execute-Ensures I sv law p ProviderOperation.stop lease
              (p.stop (stop_request_of s b lease r))
              (harmless.stop_keeps (stop_request_of s b lease r)))
            (λ answer _.
              on_answer-Ensures I (λ _. Unit) answer _ _
                (λ e.
                  fail-Ensures I sv law s.runtime_binding s id stopping OperationKind.stop
                    SessionFailure.provider e lease h refl)
                (λ _.
                  let r = transition stopped OperationKind.stop s in
                  bind-Ensures I (λ t. r ≡ ok t) (λ _. Unit) (lift r) _ (lift-Ensures I r)
                    (λ t m. persist-Safe I sv law (complete_operation id t) lease (
                      completed-IsStored id stopping stopped OperationKind.stop s.runtime_binding s
                        t h refl (stopping_has_reference s h) m)))))
    where
      stopping_has_reference :
          (s : Session)
          → Pending id stopping s
          → state_is_consistent stopped s.runtime_binding ≡ true
      stopping_has_reference s (_, _, (o, os, _, _, _, _, c), _) = c

  destroyed_at_last-Ensures :
      (id : Text) (lease : SessionLease) (s : Session)
      → Pending id destroying s
      → Ensures I (λ _. Unit) (destroyed_at_last sv id lease (record s { runtime_binding = none }))
  unfolding destroyed_at_last
  destroyed_at_last-Ensures id lease s h =
      let r = transition destroyed OperationKind.destroy (record s { runtime_binding = none }) in
      bind-Ensures I (λ t. r ≡ ok t) (λ _. Unit) (lift r) _ (lift-Ensures I r)
        (λ t m.
          persist-Safe I sv law (complete_operation id t) lease (
            completed-IsStored id destroying destroyed OperationKind.destroy none s t h refl refl
              m))

  -- The provider that is to destroy the binding of the session, if it has one.
  abbrev pub IsBound : Session → Option (Provider W × RuntimeBinding) → Type 0
  IsBound s none = s.runtime_binding ≡ none
  IsBound s (some (p, b)) = Harmless I p

  pub tear_down-Ensures :
      (id : Text) (lease : SessionLease) (bound : Option (Provider W × RuntimeBinding))
      (s : Session)
      → Pending id destroying s
      → IsBound s bound
      → Ensures I (λ _. Unit) (tear_down sv id lease bound s)
  unfolding tear_down clear_runtime_binding
  tear_down-Ensures id lease none s h e =
      subst
        (λ x.
          Ensures I (λ _. Unit) (destroyed_at_last sv id lease (record s { runtime_binding = x })))
        (sym e) (destroyed_at_last-Ensures id lease s h)
  tear_down-Ensures id lease (some (p, b)) s h harmless =
      bind-Ensures I (λ _. Unit) (λ _. Unit)
        (execute_provider_call sv p ProviderOperation.destroy lease
          (p.destroy (destroy_request s b lease)))
        _
        (execute-Ensures I sv law p ProviderOperation.destroy lease
          (p.destroy (destroy_request s b lease))
          (harmless.destroy_keeps (destroy_request s b lease)))
        (λ answer _.
          on_answer-Ensures I (λ _. Unit) answer _ _
            (λ e.
              fail-Ensures I sv law s.runtime_binding s id destroying OperationKind.destroy
                SessionFailure.cleanup e lease h refl)
            (λ _. destroyed_at_last-Ensures id lease s h))

  pub bound_provider-Ensures :
      (s : Session) (b : Option RuntimeBinding)
      → s.runtime_binding ≡ b
      → Ensures I (IsBound s) (bound_provider sv b)
  unfolding bound_provider
  bound_provider-Ensures s none e = pure-Ensures I (IsBound s) none e
  bound_provider-Ensures s (some b) e =
      bind-Ensures I (Harmless I) (IsBound s) (provider_by_id sv b.provider_id) _
        (provider_by_id-Ensures I sv law b.provider_id)
        (λ p h. pure-Ensures I (IsBound s) (some (p, b)) h)

  -- An operation begins and is saved; what follows finds the session waiting for it.
  pub opened-Ensures :
      (id : Text) (kind : OperationKind) (n : SessionState) (b : Option RuntimeBinding)
      (s : Session) (lease : SessionLease) (k : Session → Action W Session)
      → IsStored s
      → find_operation id s.operations ≡ none
      → replayed_state s.session_state kind in_progress ≡ some n
      → is_transient n ≡ true
      → state_is_consistent n b ≡ true
      → ((v : Session) → Pending id n v × (v.runtime_binding ≡ b) → Ensures I (λ _. Unit) (k v))
      → Ensures I
          (λ _. Unit)
          (lift (begin_operation id kind (record s { runtime_binding = b })) >>= λ t.
            lift (transition n kind t) >>= λ u. persist_session sv u lease >>= λ v. k v)
  opened-Ensures id kind n b s lease k h fresh e waits c then_safe =
      let r = begin_operation id kind (record s { runtime_binding = b }) in
      bind-Ensures I (λ t. r ≡ ok t) (λ _. Unit) (lift r) _ (lift-Ensures I r)
        (λ t begins.
          bind-Ensures I (λ u. transition n kind t ≡ ok u) (λ _. Unit) (lift (transition n kind t))
            _ (lift-Ensures I (transition n kind t))
            (λ u moves.
              bind-Ensures I (λ v. Pending id n v × (v.runtime_binding ≡ b)) (λ _. Unit)
                (persist_session sv u lease) _
                (persist-Pending id n b u lease
                  (begun-Pending id kind n b s t u h fresh e waits c begins moves))
                then_safe))

  resting_destroys :
      (s : SessionState)
      → is_resting s ≡ true
      → replayed_state s OperationKind.destroy in_progress ≡ some destroying
  resting_destroys s h = ground (arith, h)

  pub destroy_fresh-Ensures :
      (c : LifecycleCommand) (lease : SessionLease) (s : Session)
      → IsStored s
      → find_operation c.operation_id s.operations ≡ none
      → Ensures I (λ _. Unit) (destroy_fresh sv c lease s)
  unfolding destroy_fresh
  destroy_fresh-Ensures c lease s h fresh = elim (Bool-cases (is_resting s.session_state)) [
    | inr e ↦ rw e (λ w i. (i, tt))
    | inl e ↦ rw e (
        bind-Ensures I (IsBound s) (λ _. Unit) (bound_provider sv s.runtime_binding) _
          (bound_provider-Ensures s s.runtime_binding refl)
          (λ bound is.
            opened-Ensures c.operation_id OperationKind.destroy destroying s.runtime_binding s lease
              (λ v. tear_down sv c.operation_id lease bound v) h fresh
              (resting_destroys s.session_state e) refl refl
              (λ v pending.
                tear_down-Ensures c.operation_id lease bound v pending.0
                  (carried bound s v pending.1 is))))
  ]
    where
      carried :
          (bound : Option (Provider W × RuntimeBinding)) (s v : Session)
          → v.runtime_binding ≡ s.runtime_binding
          → IsBound s bound
          → IsBound v bound
      carried none s v e h = e ∙ h
      carried (some (p, b)) s v e h = h

  pub stop_fresh-Ensures :
      (c : LifecycleCommand) (lease : SessionLease) (s : Session)
      → IsStored s
      → find_operation c.operation_id s.operations ≡ none
      → Ensures I (λ _. Unit) (stop_fresh sv c lease s)
  unfolding stop_fresh
  stop_fresh-Ensures c lease s h fresh = elim (Bool-cases (state_eq s.session_state running)) [
    | inr e ↦ rw e (λ w i. (i, tt))
    | inl e ↦ rw e (
        bind-Ensures I (λ b. s.runtime_binding ≡ some b) (λ _. Unit)
          (or_raise s.runtime_binding (invariant_violation no_binding)) _
          (or_raise-Ensures I s.runtime_binding (invariant_violation no_binding))
          (λ b _.
            bind-Ensures I (Harmless I) (λ _. Unit) (provider_by_id sv b.provider_id) _
              (provider_by_id-Ensures I sv law b.provider_id)
              (λ p harmless.
                opened-Ensures c.operation_id OperationKind.stop stopping s.runtime_binding s lease
                  (λ v. bring_down sv lease p c.operation_id b v) h fresh
                  (running_stops s ((state_eq_iff s.session_state running).0 e)) refl
                  (running_has_reference s h ((state_eq_iff s.session_state running).0 e))
                  (λ v pending. bring_down-Ensures p c.operation_id lease b v harmless pending.0))))
  ]
    where
      running_stops :
          (s : Session)
          → s.session_state ≡ running
          → replayed_state s.session_state OperationKind.stop in_progress ≡ some stopping
      running_stops s e = rw e refl

      running_has_reference :
          (s : Session)
          → IsStored s
          → s.session_state ≡ running
          → state_is_consistent stopping s.runtime_binding ≡ true
      running_has_reference s (o, os, _, _, _, _, c) e =
          subst (λ x. state_is_consistent x s.runtime_binding ≡ true) e c
