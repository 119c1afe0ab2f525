-- ===== src/Transaction/Registry/Failure.antt =====
-- transaction-control/src/registry.rs: `sandbox_enter_compensation` and `sandbox_quarantine`.
use sdkwork_sandbox.Base.{not, none, some, List, Text, get, if◌then◌else◌, ℤ, ok, err}
use sdkwork_sandbox.Transaction.Error.{WorkspaceRuntimeResult, invalid_request}
use sdkwork_sandbox.Transaction.State
use sdkwork_sandbox.Transaction.State.{TransactionState, can_transition_to}
use sdkwork_sandbox.Transaction.Compensation.{
  CompensationWindow, CompensationAction, window_for_completed_stage, required_actions,
}
use sdkwork_sandbox.Transaction.Registry.Record.{
  TerminalOutcome, quarantined, TransactionRecord, Registry, bump, update_record, fenced_record,
}
use sdkwork_sandbox.Transaction.Registry.Release.{close}

-- The window and the actions that a failure now must undo.
abbrev pub compensation_of : TransactionRecord → CompensationWindow × List CompensationAction
compensation_of t =
    let w = window_for_completed_stage t.ledger.highest_completed_position in
    (w, required_actions w)

unfoldable pub compensate_record :
    TransactionRecord
    → TransactionRecord × WorkspaceRuntimeResult (CompensationWindow × List CompensationAction)
compensate_record t =
    if State.state_eq t.state State.released
    then (t, err invalid_request)
    else if not (can_transition_to t.state State.compensating)
    then (t, err invalid_request)
    else (record t { state = State.compensating; version = bump t.version }, ok (compensation_of t))

unfoldable pub enter_compensation :
    Text
    → ℤ
    → Registry
    → Registry × WorkspaceRuntimeResult (CompensationWindow × List CompensationAction)
enter_compensation = update_record compensate_record

unfoldable pub quarantine : Text → ℤ → Registry → Registry × WorkspaceRuntimeResult TerminalOutcome
quarantine id expected s = elim (get id s.outcomes_by_operation) [
  | some recorded ↦ (s, ok recorded)
  | none ↦ elim (fenced_record id expected s) [
    | err e ↦ (s, err e)
    | ok t ↦
        if can_transition_to t.state State.quarantined
        then (close id State.quarantined quarantined t s, ok quarantined)
        else (s, err invalid_request)
  ]
]
