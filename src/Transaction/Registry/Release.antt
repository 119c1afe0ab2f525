-- ===== src/Transaction/Registry/Release.antt =====
-- transaction-control/src/registry.rs: `sandbox_release`.
pub mod Conditions
use sdkwork_sandbox.Base.{
  Bool, true, false, not, ◌&&◌, ◌||◌, none, some, List, [], ◌∷◌, Text, get, insert, remove, ℤ, ok,
  err, ◌>>=◌, ◌>>◌, guard, ok_or,
}
use sdkwork_sandbox.Transaction.Error.{
  WorkspaceRuntimeResult, invalid_request, checkpoint_failed, cleanup_incomplete,
}
use sdkwork_sandbox.Transaction.State
use sdkwork_sandbox.Transaction.State.{TransactionState, can_transition_to}
use sdkwork_sandbox.Transaction.Stage
use sdkwork_sandbox.Transaction.Stage.{
  OrchestrationStage, StageEvidence, OrchestrationLedger, ledger_new, ledger_record, completed_ref,
  orchestration_stages,
}
use sdkwork_sandbox.Transaction.Request.{WorkspaceMountMode}
use sdkwork_sandbox.Transaction.Registry.Record.{
  TerminalOutcome, released, TransactionRecord, Registry, bump, is_read_write, fenced_record,
}

abbrev pub is_checkpoint_stage : OrchestrationStage → Bool
is_checkpoint_stage Stage.checkpoint_candidate_durable = true
is_checkpoint_stage Stage.checkpoint_handoff_durable = true
is_checkpoint_stage _ = false

abbrev pub is_not_applicable : StageEvidence → Bool
is_not_applicable (Stage.completed f) = false
is_not_applicable (Stage.not_applicable f) = true

-- What the loop asks of one stage.
unfoldable pub stage_admission :
    WorkspaceMountMode
    → OrchestrationLedger
    → OrchestrationStage
    → WorkspaceRuntimeResult (Unit {0})
stage_admission mode l stage = do
  evidence ← ok_or (completed_ref l stage) cleanup_incomplete
  guard
      ((not (is_read_write mode) && is_checkpoint_stage stage)
        || not (is_not_applicable evidence && is_checkpoint_stage stage))
      checkpoint_failed

-- `for stage in sandbox_stages`, left at the first refusal.
unfoldable pub stages_admission :
    WorkspaceMountMode
    → OrchestrationLedger
    → List OrchestrationStage
    → WorkspaceRuntimeResult (Unit {0})
unfolding stage_admission
stages_admission mode l [] = ok tt
stages_admission mode l (stage ∷ rest) =
    stage_admission mode l stage >> stages_admission mode l rest

-- Every condition of a release but the state table, in the order of the code.
unfoldable pub release_admission : TransactionRecord → WorkspaceRuntimeResult (Unit {0})
release_admission t = do
  stages_admission t.request.workspace_mount_mode t.ledger orchestration_stages
  guard (not (is_read_write t.request.workspace_mount_mode && not t.checkpoint_handoff_durable))
      checkpoint_failed
  guard (can_transition_to t.state State.released) invalid_request

-- The terminal write: the record closed, its session freed, the outcome recorded.
abbrev pub close :
    Text → TransactionState → TerminalOutcome → TransactionRecord → Registry → Registry
close id final outcome t s = record s {
  transactions = insert id (record t { state = final; version = bump t.version }) s.transactions;
  active_by_binding = remove t.request.session_id s.active_by_binding;
  outcomes_by_operation = insert id outcome s.outcomes_by_operation;
}

unfoldable pub release : Text → ℤ → Registry → Registry × WorkspaceRuntimeResult TerminalOutcome
release id expected s = elim (get id s.outcomes_by_operation) [
  | some recorded ↦ (s, ok recorded)
  | none ↦ elim (fenced_record id expected s) [
    | err e ↦ (s, err e)
    | ok t ↦ elim (release_admission t) [
      | err e ↦ (s, err e)
      | ok _ ↦ (close id State.released released t s, ok released)
    ]
  ]
]
