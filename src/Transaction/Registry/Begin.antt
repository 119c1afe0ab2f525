-- ===== src/Transaction/Registry/Begin.antt =====
-- transaction-control/src/registry.rs: `sandbox_begin`.
use sdkwork_sandbox.Base.{
  ℕ, false, not, none, some, length, Text, text_eq, get, insert, contains_key, leb, if◌then◌else◌,
  ℤ, ltb_ℤ, ok, err, ◌>>=◌, ◌>>◌, guard, ok_or,
}
use sdkwork_sandbox.Transaction.Error.{
  WorkspaceRuntimeResult, invalid_request, writer_conflict, stale_fencing, capacity_unavailable,
}
use sdkwork_sandbox.Transaction.State
use sdkwork_sandbox.Transaction.State.{TransactionState, can_transition_to}
use sdkwork_sandbox.Transaction.Stage.{ledger_new}
use sdkwork_sandbox.Transaction.Request.{TransactionRequest, request_validated}
use sdkwork_sandbox.Transaction.Registry.Record.{
  TransactionRecord, Registry, TransactionHandle, handle_of, reconciliation_batch_size_max,
  checked_next,
}

-- The guards of `sandbox_begin` for an operation that was not seen before, in their order; the
-- result is the fencing token of the new transaction.
unfoldable pub begin_admission : ℕ → TransactionRequest → Registry → WorkspaceRuntimeResult ℤ
begin_admission now r s = do
  guard (not (contains_key r.workspace_runtime_transaction_id s.transactions)) invalid_request
  guard (not (contains_key r.session_id s.active_by_binding)) writer_conflict
  guard (not (ltb_ℤ r.fencing_token s.highest_fencing_token)) stale_fencing
  guard (not (leb reconciliation_batch_size_max (length s.transactions))) capacity_unavailable
  guard (not (leb r.deadline_at now)) invalid_request
  ok_or (checked_next s.highest_fencing_token) invalid_request

abbrev pub begin_record : TransactionRequest → ℤ → TransactionRecord
begin_record r token = record {
  state = State.requested;
  version = 0;
  fencing_token = token;
  request = r;
  ledger = ledger_new;
  candidate = none;
  checkpoint_handoff_durable = false;
}

abbrev pub begin_commit : TransactionRequest → ℤ → Registry → Registry
begin_commit r token s = record s {
  transactions = insert r.workspace_runtime_transaction_id (begin_record r token) s.transactions;
  active_by_binding = insert r.session_id r.workspace_runtime_transaction_id s.active_by_binding;
  fingerprints_by_operation =
      insert r.operation_id r.request_fingerprint s.fingerprints_by_operation;
  highest_fencing_token = token;
}

unfoldable pub begin_replay :
    Text → TransactionRequest → Registry → WorkspaceRuntimeResult TransactionHandle
unfolding handle_of
begin_replay recorded r s =
    if text_eq recorded r.request_fingerprint
    then (do
      t ← ok_or (get r.workspace_runtime_transaction_id s.transactions) invalid_request
      ok (handle_of t))
    else err invalid_request

unfoldable pub begin_fresh :
    ℕ → TransactionRequest → Registry → Registry × WorkspaceRuntimeResult TransactionHandle
begin_fresh now r s = elim (begin_admission now r s) [
  | err e ↦ (s, err e)
  | ok token ↦ (
    begin_commit r token s,
    ok (record {
      workspace_runtime_transaction_id = r.workspace_runtime_transaction_id;
      state = State.requested;
      fencing_token = token;
    }),
  )
]

unfoldable pub begin :
    ℕ → TransactionRequest → Registry → Registry × WorkspaceRuntimeResult TransactionHandle
begin now r s = elim (request_validated r) [
  | err e ↦ (s, err e)
  | ok _ ↦ elim (get r.operation_id s.fingerprints_by_operation) [
    | some recorded ↦ (s, begin_replay recorded r s)
    | none ↦ begin_fresh now r s
  ]
]
