-- ===== src/Transaction/Registry/Advance.antt =====
-- transaction-control/src/registry.rs: `sandbox_advance_stage`.
use sdkwork_sandbox.Base.{Text, if◌then◌else◌, ℤ, ok, err}
use sdkwork_sandbox.Transaction.Error.{WorkspaceRuntimeResult, invalid_request}
use sdkwork_sandbox.Transaction.State
use sdkwork_sandbox.Transaction.State.{TransactionState, can_transition_to}
use sdkwork_sandbox.Transaction.Stage
use sdkwork_sandbox.Transaction.Stage.{
  OrchestrationStage, StageEvidence, OrchestrationLedger, ledger_new, ledger_record, completed_ref,
  orchestration_stages,
}
use sdkwork_sandbox.Transaction.Registry.Record.{
  TransactionRecord, Registry, bump, refuses_stages, update_record,
}

unfoldable pub state_for_stage : TransactionState → OrchestrationStage → TransactionState
state_for_stage current Stage.admission_confirmed = State.admitted
state_for_stage current Stage.capacity_reservation_confirmed = State.capacity_reserved
state_for_stage current Stage.runtime_binding_fenced = State.runtime_bound
state_for_stage current Stage.projection_attached = State.workspace_attaching
state_for_stage current Stage.environment_ready = State.ready
state_for_stage current Stage.command_admission_opened = State.executing
state_for_stage current Stage.command_admission_frozen_and_drained = State.checkpointing
state_for_stage current _ = current

abbrev move_to : TransactionState → TransactionRecord → TransactionRecord
move_to next t = record t { state = next; version = bump t.version }

-- The ledger is written before the move is tested, and stays written when the test fails.
enter_state :
    TransactionState
    → TransactionRecord
    → TransactionRecord × WorkspaceRuntimeResult TransactionState
enter_state next t =
    if State.state_eq next t.state
    then (move_to next t, ok next)
    else if State.can_transition_to t.state next
    then (move_to next t, ok next)
    else (t, err invalid_request)

unfoldable pub advance_record :
    OrchestrationStage
    → StageEvidence
    → TransactionRecord
    → TransactionRecord × WorkspaceRuntimeResult TransactionState
unfolding enter_state state_for_stage
advance_record stage evidence t =
    if refuses_stages t.state
    then (t, err invalid_request)
    else elim (ledger_record t.ledger stage evidence) [
      | err e ↦ (t, err e)
      | ok l ↦ enter_state (state_for_stage t.state stage) (record t { ledger = l })
    ]

unfoldable pub advance_stage :
    Text
    → OrchestrationStage
    → StageEvidence
    → ℤ
    → Registry
    → Registry × WorkspaceRuntimeResult TransactionState
advance_stage id stage evidence = update_record (advance_record stage evidence) id
