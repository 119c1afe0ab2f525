-- ===== src/Service/Stored/Reconcile.antt =====
-- The reconciliation of sessions: every save passes the test.
use sdkwork_sandbox.Base.{
  ◌≡◌, refl, subst, inl, inr, Bool, true, some, List, [], ◌∷◌, Text, ok, Option-cases, arith,
}
use sdkwork_sandbox.Provider.Requests.{Provider}
use sdkwork_sandbox.Session.Kinds.{SessionState, starting, stopping, destroying, is_transient}
use sdkwork_sandbox.Session.Ledger.{Operation, find_last, last_operation}
use sdkwork_sandbox.Session.Error.{
  invariant_violation, no_binding, no_binding_intent, LifecycleError,
}
use sdkwork_sandbox.Session.Model.{RuntimeBinding, Session}
use sdkwork_sandbox.Session.Persisted.Replay.{awaited_kind}
use sdkwork_sandbox.Session.Persisted.Stored.{IsStored, Stored, Stored-Awaits}
use sdkwork_sandbox.Session.Lease.{SessionLease}
use sdkwork_sandbox.Service.Action.{Action, lift, or_raise, ◌>>=◌}
use sdkwork_sandbox.Service.Interface.{Service}
use sdkwork_sandbox.Service.Calls.{provider_by_id}
use sdkwork_sandbox.Service.Destroy.{bound_provider}
use sdkwork_sandbox.Service.Reconcile.{
  is_in_progress_of, in_progress_operation_id, reconcile_starting, reconcile_stopping,
  reconcile_destroying, reconcile_in, reconcile_session_with_lease,
}
use sdkwork_sandbox.Service.Ensures.{Ensures, lift-Ensures, or_raise-Ensures, bind-Ensures}
use sdkwork_sandbox.Service.Lawful.{Harmless, Lawful}
use sdkwork_sandbox.Service.Stored.Moves.{Pending}
use sdkwork_sandbox.Service.Stored.Calls.{provider_by_id-Ensures}
use sdkwork_sandbox.Service.Stored.BringUp.{bring_up-Ensures, allocate_and_bring_up-Ensures}
use sdkwork_sandbox.Service.Stored.Down.{
  bring_down-Ensures, tear_down-Ensures, IsBound, bound_provider-Ensures,
}

-- The last entry is the last that satisfies a test, if it does.
find_last-last :
    (p : Operation → Bool) (o : Operation) (os : List Operation)
    → last_operation os ≡ some o
    → p o ≡ true
    → find_last p os ≡ some o
unfolding find_last last_operation
find_last-last p o [] e h = absurd (cc)
find_last-last p o (q ∷ []) e h = ground (arith, e, h)
find_last-last p o (q ∷ r ∷ os) e h = rw (find_last-last p o (r ∷ os) e h) refl

-- The operation in progress that a reconciliation finds is the one that the session waits for.
pub found-Pending :
    (id : Text) (state : SessionState) (s : Session)
    → IsStored s
    → s.session_state ≡ state
    → is_transient state ≡ true
    → in_progress_operation_id (awaited_kind state) s ≡ ok id
    → Pending id state s
unfolding in_progress_operation_id
found-Pending id state s h e waits found =
    let stored : Stored s.operations state s.last_failure s.runtime_binding =
      subst (λ x. Stored s.operations x s.last_failure s.runtime_binding) e h in
    let (o, last, kind, running) =
      Stored-Awaits s.operations state s.last_failure s.runtime_binding stored waits in
    let is_it : is_in_progress_of (awaited_kind state) o ≡ true = ground (arith, kind, running) in
    let at_last =
      find_last-last (is_in_progress_of (awaited_kind state)) o s.operations last is_it in
    (e, waits, stored, (o, last, ground (arith, found, at_last), kind))

module _ {W : Type 0} (I : W → Type 0) (sv : Service W) (law : Lawful I sv)
    (lease : SessionLease) where
  -- The operation that is found, and the rest under it.
  with_found :
      (state : SessionState) (s : Session) (k : Text → Action W Session)
      → IsStored s
      → s.session_state ≡ state
      → is_transient state ≡ true
      → ((id : Text) → Pending id state s → Ensures I (λ _. Unit) (k id))
      → Ensures I (λ _. Unit) (lift (in_progress_operation_id (awaited_kind state) s) >>= k)
  with_found state s k h e waits safe =
      let r = in_progress_operation_id (awaited_kind state) s in
      bind-Ensures I (λ id. r ≡ ok id) (λ _. Unit) (lift r) k (lift-Ensures I r)
        (λ id found. safe id (found-Pending id state s h e waits found))

  -- The binding, and its provider.
  with_provider :
      (s : Session) (e : LifecycleError) (k : RuntimeBinding → Provider W → Action W Session)
      → ((b : RuntimeBinding) (p : Provider W)
          → s.runtime_binding ≡ some b
          → Harmless I p
          → Ensures I (λ _. Unit) (k b p))
      → Ensures I
          (λ _. Unit)
          (or_raise s.runtime_binding e >>= λ b. provider_by_id sv b.provider_id >>= k b)
  with_provider s e k safe =
      bind-Ensures I (λ b. s.runtime_binding ≡ some b) (λ _. Unit) (or_raise s.runtime_binding e) _
        (or_raise-Ensures I s.runtime_binding e)
        (λ b is.
          bind-Ensures I (Harmless I) (λ _. Unit) (provider_by_id sv b.provider_id) (k b)
            (provider_by_id-Ensures I sv law b.provider_id) (λ p harmless. safe b p is harmless))

  reconcile_starting-Ensures :
      (s : Session)
      → IsStored s
      → s.session_state ≡ starting
      → Ensures I (λ _. Unit) (reconcile_starting sv lease s)
  unfolding reconcile_starting
  reconcile_starting-Ensures s h e = with_found starting s _ h e refl (λ id pending.
      with_provider s (invariant_violation no_binding_intent) _ (λ b p is harmless.
        elim (Option-cases b.allocation_reference) [
          | inl n ↦ rw n (
              allocate_and_bring_up-Ensures I sv law p harmless id lease s.tenant_id s.session_id b
                s pending)
          | inr (r, n) ↦ rw n (bring_up-Ensures I sv law p harmless id lease b s pending is)
        ]))

  reconcile_stopping-Ensures :
      (s : Session)
      → IsStored s
      → s.session_state ≡ stopping
      → Ensures I (λ _. Unit) (reconcile_stopping sv lease s)
  unfolding reconcile_stopping
  reconcile_stopping-Ensures s h e = with_found stopping s _ h e refl (λ id pending.
      with_provider s (invariant_violation no_binding) _
        (λ b p is harmless. bring_down-Ensures I sv law p id lease b s harmless pending))

  reconcile_destroying-Ensures :
      (s : Session)
      → IsStored s
      → s.session_state ≡ destroying
      → Ensures I (λ _. Unit) (reconcile_destroying sv lease s)
  unfolding reconcile_destroying
  reconcile_destroying-Ensures s h e = with_found destroying s _ h e refl (λ id pending.
      bind-Ensures I (IsBound I sv law s) (λ _. Unit) (bound_provider sv s.runtime_binding) _
        (bound_provider-Ensures I sv law s s.runtime_binding refl)
        (λ bound is. tear_down-Ensures I sv law id lease bound s pending is))

  reconcile_in-Ensures :
      (state : SessionState) (s : Session)
      → IsStored s
      → s.session_state ≡ state
      → Ensures I (λ _. Unit) (reconcile_in sv lease state s)
  unfolding reconcile_in
  reconcile_in-Ensures starting s h e = reconcile_starting-Ensures s h e
  reconcile_in-Ensures stopping s h e = reconcile_stopping-Ensures s h e
  reconcile_in-Ensures destroying s h e = reconcile_destroying-Ensures s h e
  reconcile_in-Ensures _ s h e = λ w i. (i, tt)

  pub reconcile-Ensures :
      (s : Session) → IsStored s → Ensures I (λ _. Unit) (reconcile_session_with_lease sv lease s)
  unfolding reconcile_session_with_lease
  reconcile-Ensures s h = reconcile_in-Ensures s.session_state s h refl
