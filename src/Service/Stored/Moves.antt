-- ===== src/Service/Stored/Moves.antt =====
-- A session on its way: stored, and waiting for one operation.
use sdkwork_sandbox.Base.{
  refl, inl, inr, Option-cases, Bool-cases, ◌+◌, ◌≡◌, sym, subst, true, false, Option, none, some,
  Text, ok, arith,
}
use sdkwork_sandbox.Session.Ledger.{find_operation, set_outcome}
use sdkwork_sandbox.Session.Kinds.{
  succeeded, in_progress, state_eq, kind_eq, SessionState, failed, OperationKind, SessionFailure,
  failed_with, is_transient,
}
use sdkwork_sandbox.Session.Ledger.{find_operation, set_outcome}
use sdkwork_sandbox.Session.Model.{
  begin_operation, complete_operation, begun, replay_operation, RuntimeBinding, Session, transition,
  fail_operation, next_version, mark_operations_persisted, moved,
}
use sdkwork_sandbox.Session.Model.Moves.{begin_ok, transition_ok, next_version_ok}
use sdkwork_sandbox.Session.Persisted.{
  replayed_state, state_is_consistent, failure_kind_is_valid, leads_to,
  validate_persisted_invariants,
}
use sdkwork_sandbox.Service.Calls.{replayed}
use sdkwork_sandbox.Session.Persisted.Replay.{awaited_kind}
use sdkwork_sandbox.Session.Persisted.Stored.{
  begun-Stored, Stored, IsStored, Awaits, settled-Stored, validate_iff,
}
use sdkwork_sandbox.Service.Calls.{replayed}

-- The session is stored, in a state that waits, and waits for the operation.
abbrev pub Pending : Text → SessionState → Session → Type 0
Pending id state s =
    (s.session_state ≡ state)
    × (is_transient state ≡ true)
    × Stored s.operations state s.last_failure s.runtime_binding
    × Awaits id state s.operations

pub Pending-IsStored :
    (id : Text) (state : SessionState) (s : Session) → Pending id state s → IsStored s
Pending-IsStored id state s (e, _, h, _) =
    subst (λ x. Stored s.operations x s.last_failure s.runtime_binding) (sym e) h

-- The session as the store then has it.
abbrev pub saved : Session → Session
unfolding mark_operations_persisted
saved s = mark_operations_persisted (record s { version = s.version + 1 })

pub next_version-IsValid :
    (s t : Session) → IsStored s → next_version s ≡ ok t → validate_persisted_invariants t ≡ ok tt
next_version-IsValid s t h e =
    let (same, bound) = next_version_ok s t e in
    subst (λ x. validate_persisted_invariants x ≡ ok tt) (sym same)
      ((validate_iff (record s { version = s.version + 1 })).1 (bound, h))

pub failed-IsStored :
    (id : Text) (state : SessionState) (kind : OperationKind) (failure : SessionFailure)
    (b : Option RuntimeBinding) (s t : Session)
    → Pending id state s
    → failure_kind_is_valid (awaited_kind state) (failed_with failure) ≡ true
    → transition failed kind (record s { runtime_binding = b }) ≡ ok t
    → IsStored (fail_operation id failure t)
unfolding fail_operation
failed-IsStored id state kind failure b s t (e, waits, h, a) v m =
    let leads : leads_to (awaited_kind state) (failed_with failure) ≡ failed =
      ground (arith, waits) in
    let settled =
      settled-Stored id s.operations state s.last_failure s.runtime_binding b (failed_with failure)
        h a waits v (rw leads refl) in
    subst (λ x. IsStored (fail_operation id failure x))
      (sym (transition_ok failed kind (record s { runtime_binding = b }) t m).0)
      (subst (λ n. Stored (set_outcome id (failed_with failure) s.operations) n (some failure) b)
        leads settled)

not_failed :
    (state : SessionState)
    → is_transient state ≡ true
    → state_eq (leads_to (awaited_kind state) succeeded) failed ≡ false
not_failed state h = ground (arith, h)

pub completed-IsStored :
    (id : Text) (state target : SessionState) (kind : OperationKind) (b : Option RuntimeBinding)
    (s t : Session)
    → Pending id state s
    → target ≡ leads_to (awaited_kind state) succeeded
    → state_is_consistent target b ≡ true
    → transition target kind (record s { runtime_binding = b }) ≡ ok t
    → IsStored (complete_operation id t)
unfolding complete_operation
completed-IsStored id state target kind b s t (e, waits, h, a) leads c m =
    let settled =
      settled-Stored id s.operations state s.last_failure s.runtime_binding b succeeded h a waits
        (ground (arith, waits)) (subst (λ x. state_is_consistent x b ≡ true) leads c) in
    let plain : state_eq target failed ≡ false = rw leads (not_failed state waits) in
    let failure : (moved target s).last_failure ≡ none = ground (arith, plain) in
    subst (λ x. IsStored (complete_operation id x))
      (sym (transition_ok target kind (record s { runtime_binding = b }) t m).0)
      (subst (λ f. Stored (set_outcome id succeeded s.operations) target f b) (sym failure)
        (subst (λ n. Stored (set_outcome id succeeded s.operations) n none b) (sym leads) settled))

-- No operation with this identity is in the ledger.
pub replayed-none :
    (s : Session) (id : Text) (kind : OperationKind)
    → replayed s id kind ≡ ok none
    → find_operation id s.operations ≡ none
unfolding replayed replay_operation
replayed-none s id kind h = elim (Option-cases (find_operation id s.operations)) [
  | inl e ↦ e
  | inr (o, e) ↦ absurd (elim (Bool-cases (kind_eq o.operation_kind kind)) [
    | inl k ↦ ground (arith, h, e, k)
    | inr k ↦ ground (arith, h, e, k)
  ])
]

pub begun-Pending :
    (id : Text) (kind : OperationKind) (n : SessionState) (b : Option RuntimeBinding)
    (s t u : Session)
    → IsStored s
    → find_operation id s.operations ≡ none
    → replayed_state s.session_state kind in_progress ≡ some n
    → is_transient n ≡ true
    → state_is_consistent n b ≡ true
    → begin_operation id kind (record s { runtime_binding = b }) ≡ ok t
    → transition n kind t ≡ ok u
    → Pending id n u × (u.runtime_binding ≡ b)
begun-Pending id kind n b s t u h fresh e waits c begins moves =
    let t_is = (begin_ok id kind (record s { runtime_binding = b }) t begins).0 in
    let u_is = (transition_ok n kind t u moves).0 in
    let kind_is : kind ≡ awaited_kind n = ground (arith, e, waits) in
    let valid : failure_kind_is_valid kind in_progress ≡ true = ground (arith, e) in
    let plain : state_eq n failed ≡ false = ground (arith, waits) in
    let (stored, awaits) =
      begun-Stored s.operations s.session_state n s.last_failure s.runtime_binding b
        (record { operation_id = id; operation_kind = kind; operation_outcome = in_progress }) h
        fresh refl e kind_is valid c in
    let whole : Session = begun id kind (record s { runtime_binding = b }) in
    let failure : (moved n whole).last_failure ≡ none = ground (arith, plain) in
    subst (λ x. Pending id n x × (x.runtime_binding ≡ b)) (sym u_is)
      (subst (λ x. Pending id n (moved n x) × ((moved n x).runtime_binding ≡ b)) (sym t_is)
        (
          (
            refl,
            waits,
            subst (λ f. Stored (begun id kind s).operations n f b) (sym failure) stored,
            awaits,
          ),
          refl,
        ))
