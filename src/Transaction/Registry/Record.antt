-- ===== src/Transaction/Registry/Record.antt =====
-- transaction-control/src/registry.rs: the records, the registry, and the fenced access to one
-- record that opens every method but `sandbox_begin`.
use sdkwork_sandbox.Base.{
  ℕ, zero, suc, Bool, true, false, Option, none, some, [], Text, Map, get, insert, ltb,
  if◌then◌else◌, saturating_add, u64_max, i64_max, ℤ, pos, negsuc, eqb_ℤ, ok, err, ◌>>=◌, ◌>>◌,
  guard, ok_or,
}
use sdkwork_sandbox.Transaction.Error.{WorkspaceRuntimeResult, invalid_request, stale_fencing}
use sdkwork_sandbox.Transaction.State
use sdkwork_sandbox.Transaction.State.{TransactionState, can_transition_to}
use sdkwork_sandbox.Transaction.Stage.{OrchestrationLedger}
use sdkwork_sandbox.Transaction.Checkpoint.{CheckpointCandidate}
use sdkwork_sandbox.Transaction.Request.{
  WorkspaceMountMode, read_only, read_write, TransactionRequest,
}

-- `SANDBOX_RECONCILIATION_BATCH_SIZE_MAX`: how many transactions the registry holds.
abbrev pub reconciliation_batch_size_max : ℕ
reconciliation_batch_size_max = 100

pub data TerminalOutcome : Type 0 where
  released quarantined : TerminalOutcome

pub record TransactionRecord : Type 0 where
  pub state : TransactionState
  pub version : ℕ
  pub fencing_token : ℤ
  pub request : TransactionRequest
  pub ledger : OrchestrationLedger
  pub candidate : Option CheckpointCandidate
  pub checkpoint_handoff_durable : Bool

pub record Registry : Type 0 where
  pub transactions : Map TransactionRecord
  pub active_by_binding : Map Text
  pub outcomes_by_operation : Map TerminalOutcome
  pub fingerprints_by_operation : Map Text
  pub highest_fencing_token : ℤ

unfoldable pub empty : Registry
empty = record {
  transactions = [];
  active_by_binding = [];
  outcomes_by_operation = [];
  fingerprints_by_operation = [];
  highest_fencing_token = pos 0;
}

pub record TransactionHandle : Type 0 where
  pub workspace_runtime_transaction_id : Text
  pub state : TransactionState
  pub fencing_token : ℤ

abbrev pub bump : ℕ → ℕ
bump version = saturating_add u64_max version 1

abbrev pub is_read_write : WorkspaceMountMode → Bool
is_read_write read_write = true
is_read_write read_only = false

-- `i64::checked_add(1)`.
abbrev pub checked_next : ℤ → Option ℤ
checked_next (pos n) = if ltb n i64_max then some (pos (suc n)) else none
checked_next (negsuc zero) = some (pos 0)
checked_next (negsuc (suc n)) = some (negsuc n)

unfoldable pub handle_of : TransactionRecord → TransactionHandle
handle_of t = record {
  workspace_runtime_transaction_id = t.request.workspace_runtime_transaction_id;
  state = t.state;
  fencing_token = t.fencing_token;
}

abbrev pub is_closed : TransactionState → Bool
is_closed State.released = true
is_closed State.quarantined = true
is_closed _ = false

abbrev pub refuses_stages : TransactionState → Bool
refuses_stages State.released = true
refuses_stages State.quarantined = true
refuses_stages State.compensating = true
refuses_stages _ = false

-- `sandbox_record` and `sandbox_check_fencing`, which open every later method.
unfoldable pub fenced_record : Text → ℤ → Registry → WorkspaceRuntimeResult TransactionRecord
fenced_record id expected s = do
  t ← ok_or (get id s.transactions) invalid_request
  guard (eqb_ℤ expected t.fencing_token) stale_fencing
  ok t

abbrev pub put_record : Text → TransactionRecord → Registry → Registry
put_record id t s = record s { transactions = insert id t s.transactions }

-- A method that works on the one record: it is written back whatever the result.
unfoldable pub update_record {ℓ} :
    {A : Type ℓ}
    → (TransactionRecord → TransactionRecord × WorkspaceRuntimeResult A)
    → Text
    → ℤ
    → Registry
    → Registry × WorkspaceRuntimeResult A
update_record f id expected s = elim (fenced_record id expected s) [
  | err e ↦ (s, err e)
  | ok t ↦ (put_record id (f t).0 s, (f t).1)
]
