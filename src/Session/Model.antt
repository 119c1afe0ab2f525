-- ===== src/Session/Model.antt =====
-- service/src/model.rs: a session and its moves.
pub mod Delta
pub mod Moves
pub mod Room
use sdkwork_sandbox.Base.{
  ℕ, ◌+◌, ◌-◌, min, ltb, leb, ◌==◌, Bool, false, not, ◌&&◌, Option, none, some, List, [], ◌∷◌, ◌++◌,
  length, Text, text_eq, if◌then◌else◌, i64_max, ok, err, ◌>>◌, guard,
}
use sdkwork_sandbox.Provider.Capability.{RuntimeCapability, set_eq}
use sdkwork_sandbox.Provider.Assurance.{IsolationAssurance, assurance_eq}
use sdkwork_sandbox.Session.Kinds.{
  SessionState, OperationKind, SessionFailure, OperationOutcome, state_eq, kind_eq, outcome_eq,
  can_transition,
}
use sdkwork_sandbox.Session.Ledger.{
  Operation, find_operation, set_outcome, last_operation, outcome_of, drop,
}
use sdkwork_sandbox.Session.Error.{
  LifecycleResult, idempotency_conflict, invalid_transition, invariant_violation, ledger_at_bound,
  version_exceeds_maximum,
}

abbrev pub max_session_version : ℕ
max_session_version = i64_max

abbrev pub max_session_operations : ℕ
max_session_operations = 10000

-- The bound and one more entry, which is kept for a destroy.
abbrev pub max_session_persisted_operations : ℕ
max_session_persisted_operations = max_session_operations + 1

pub record RuntimeBinding : Type 0 where
  pub sandbox_id : Text
  pub runtime_binding_id : Text
  pub provider_id : Text
  pub allocation_reference : Option Text

unfoldable pub new_intent : Text → Text → Text → RuntimeBinding
new_intent sandbox_id binding_id provider_id = record {
  sandbox_id = sandbox_id;
  runtime_binding_id = binding_id;
  provider_id = provider_id;
  allocation_reference = none;
}

abbrev pub set_allocation_reference : Text → RuntimeBinding → RuntimeBinding
set_allocation_reference reference b = record b { allocation_reference = some reference }

pub record Session : Type 0 where
  pub tenant_id : Text
  pub workspace_id : Text
  pub session_id : Text
  pub session_state : SessionState
  pub required_capabilities : List RuntimeCapability
  pub minimum_assurance : IsolationAssurance
  pub runtime_binding : Option RuntimeBinding
  pub last_failure : Option SessionFailure
  pub operations : List Operation
  pub persisted_operation_count : ℕ
  pub persisted_last_operation_outcome : Option OperationOutcome
  pub version : ℕ

unfoldable pub session_create :
    Text → Text → Text → Text → List RuntimeCapability → IsolationAssurance → Session
session_create tenant workspace session operation capabilities assurance = record {
  tenant_id = tenant;
  workspace_id = workspace;
  session_id = session;
  session_state = SessionState.created;
  required_capabilities = capabilities;
  minimum_assurance = assurance;
  runtime_binding = none;
  last_failure = none;
  operations =
      record {
        operation_id = operation;
        operation_kind = OperationKind.create;
        operation_outcome = OperationOutcome.succeeded;
      }
      ∷ [];
  persisted_operation_count = 0;
  persisted_last_operation_outcome = none;
  version = 0;
}

abbrev pub is_recorded : Option OperationOutcome → Operation → Bool
is_recorded none o = false
is_recorded (some p) o = outcome_eq p o.operation_outcome

-- Where the window of a save begins, when the store is known to hold `frontier` entries.
abbrev pub window_start : Session → ℕ → Option Operation → ℕ
window_start s frontier none = frontier
window_start s frontier (some o) =
    if frontier == length s.operations && not (is_recorded s.persisted_last_operation_outcome o)
    then length s.operations - 1
    else frontier

-- The entries that a save must write.
unfoldable pub operations_to_persist : Session → List Operation
unfolding drop last_operation
operations_to_persist s =
    drop
      (window_start s (min s.persisted_operation_count (length s.operations))
        (last_operation s.operations))
      s.operations

unfoldable pub mark_operations_persisted : Session → Session
unfolding last_operation
mark_operations_persisted s = record s {
  persisted_operation_count = length s.operations;
  persisted_last_operation_outcome = outcome_of (last_operation s.operations);
}

unfoldable pub matches_create :
    Session → Text → Text → List RuntimeCapability → IsolationAssurance → Bool
unfolding set_eq
matches_create s workspace session capabilities assurance =
    text_eq s.workspace_id workspace
    && text_eq s.session_id session
    && set_eq s.required_capabilities capabilities
    && assurance_eq s.minimum_assurance assurance

unfoldable pub replay_operation :
    Session → Text → OperationKind → LifecycleResult (Option OperationOutcome)
unfolding find_operation
replay_operation s id kind = elim (find_operation id s.operations) [
  | none ↦ ok none
  | some o ↦
      if kind_eq o.operation_kind kind
      then ok (some o.operation_outcome)
      else err (idempotency_conflict id)
]

-- The ledger has room: below its bound, or at it for a destroy.
abbrev pub has_room : OperationKind → ℕ → Bool
has_room kind n = not (
    leb max_session_operations n
    && not (kind_eq kind OperationKind.destroy && ltb n max_session_persisted_operations))

-- The session with one more operation, in progress.
abbrev pub begun : Text → OperationKind → Session → Session
begun id kind s = record s {
  operations =
      s.operations
      ++ record {
        operation_id = id;
        operation_kind = kind;
        operation_outcome = OperationOutcome.in_progress;
      }
        ∷ [];
}

unfoldable pub begin_operation : Text → OperationKind → Session → LifecycleResult Session
begin_operation id kind s =
    guard (has_room kind (length s.operations)) (invariant_violation ledger_at_bound)
    >> ok (begun id kind s)

unfoldable pub complete_operation : Text → Session → Session
unfolding set_outcome
complete_operation id s = record s {
  operations = set_outcome id OperationOutcome.succeeded s.operations;
}

unfoldable pub fail_operation : Text → SessionFailure → Session → Session
unfolding set_outcome
fail_operation id failure s = record s {
  operations = set_outcome id (OperationOutcome.failed_with failure) s.operations;
  last_failure = some failure;
}

-- The session in another state, which is a failure only if the state is.
abbrev pub moved : SessionState → Session → Session
moved target s = record s {
  session_state = target;
  last_failure = if state_eq target SessionState.failed then s.last_failure else none;
}

unfoldable pub transition : SessionState → OperationKind → Session → LifecycleResult Session
unfolding can_transition
transition target kind s =
    guard (can_transition s.session_state target) (invalid_transition s.session_state kind)
    >> ok (moved target s)

unfoldable pub set_runtime_binding : RuntimeBinding → Session → Session
set_runtime_binding b s = record s { runtime_binding = some b }

unfoldable pub clear_runtime_binding : Session → Session
clear_runtime_binding s = record s { runtime_binding = none }

-- The session at its next version.
unfoldable pub next_version : Session → LifecycleResult Session
next_version s =
    guard (leb (s.version + 1) max_session_version) (invariant_violation version_exceeds_maximum)
    >> ok (record s { version = s.version + 1 })
