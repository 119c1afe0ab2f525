-- ===== src/Transaction/Registry/Invariant.antt =====
-- What holds of every record and of the registry between two calls.
use sdkwork_sandbox.Base.{
  ℕ, ◌≤◌, ◌≡◌, true, false, some, Text, get, ltb, ℤ, pos, negsuc, length, if◌then◌else◌, IsSorted,
  is_some,
}
use sdkwork_sandbox.Transaction.State
use sdkwork_sandbox.Transaction.State.{TransactionState}
use sdkwork_sandbox.Transaction.Stage
use sdkwork_sandbox.Transaction.Stage.{OrchestrationStage, is_completed, completed_ref}
use sdkwork_sandbox.Transaction.Stage.Order.{LedgerInv}
use sdkwork_sandbox.Transaction.Checkpoint.{CheckpointCandidate}
use sdkwork_sandbox.Transaction.Registry.Record.{
  TransactionRecord, Registry, TerminalOutcome, released, quarantined, is_read_write, is_closed,
  refuses_stages, reconciliation_batch_size_max,
}

-- The state that a transaction is in when its highest completed stage is the n-th, unless it is
-- being compensated or is over.
abbrev pub state_at : ℕ → TransactionState
state_at n =
    if ltb n 3
    then State.requested
    else if ltb n 4
    then State.admitted
    else if ltb n 5
    then State.capacity_reserved
    else if ltb n 9
    then State.runtime_bound
    else if ltb n 11
    then State.workspace_attaching
    else if ltb n 12
    then State.ready
    else if ltb n 13
    then State.executing
    else State.checkpointing

-- What a read-write transaction leaves behind: a sealed candidate, its handoff, and evidence of
-- both that says completed, not inapplicable.
pub record Durable (t : TransactionRecord) : Type 0 where
  pub handed_off : t.checkpoint_handoff_durable ≡ true
  pub sealed : (c : CheckpointCandidate) × (t.candidate ≡ some c) × (c.is_sealed ≡ true)
  pub candidate_stage :
      (f : Text) × (completed_ref t.ledger Stage.checkpoint_candidate_durable
        ≡ some (Stage.completed f))
  pub handoff_stage :
      (f : Text) × (completed_ref t.ledger Stage.checkpoint_handoff_durable
        ≡ some (Stage.completed f))

pub record Finished (t : TransactionRecord) : Type 0 where
  pub every_stage : (s : OrchestrationStage) → is_completed t.ledger s ≡ true
  pub durable : is_read_write t.request.workspace_mount_mode ≡ true → Durable t

pub record RecordInv (t : TransactionRecord) : Type 0 where
  pub ordered : LedgerInv t.ledger
  pub tracked :
      refuses_stages t.state ≡ false → t.state ≡ state_at t.ledger.highest_completed_position
  pub handoff_sealed :
      t.checkpoint_handoff_durable ≡ true
      → is_read_write t.request.workspace_mount_mode ≡ true
      → (c : CheckpointCandidate) × (t.candidate ≡ some c) × (c.is_sealed ≡ true)
  pub finished : t.state ≡ State.released → Finished t

abbrev pub final_state : TerminalOutcome → TransactionState
final_state released = State.released
final_state quarantined = State.quarantined

-- A token that the registry has given out.
abbrev pub Issued : ℤ → ℤ → Type 0
Issued (pos a) (pos b) = a ≤ b
Issued (pos a) (negsuc b) = ⊥
Issued (negsuc a) b = ⊥

abbrev pub Recorded : Registry → Text → TransactionRecord → Type 0
Recorded s id t = get id s.transactions ≡ some t

pub record Inv (s : Registry) : Type 0 where
  pub records : (id : Text) (t : TransactionRecord) → Recorded s id t → RecordInv t
  pub named :
      (id : Text) (t : TransactionRecord)
      → Recorded s id t
      → t.request.workspace_runtime_transaction_id ≡ id
  pub held :
      (session id : Text)
      → get session s.active_by_binding ≡ some id
      → (t : TransactionRecord) × Recorded s id t
        × (t.request.session_id ≡ session)
        × (is_closed t.state ≡ false)
  pub holds :
      (id : Text) (t : TransactionRecord)
      → Recorded s id t
      → is_closed t.state ≡ false
      → get t.request.session_id s.active_by_binding ≡ some id
  pub outcome_final :
      (id : Text) (o : TerminalOutcome)
      → get id s.outcomes_by_operation ≡ some o
      → (t : TransactionRecord) × Recorded s id t × (t.state ≡ final_state o)
  pub closed_outcome :
      (id : Text) (t : TransactionRecord)
      → Recorded s id t
      → is_closed t.state ≡ true
      → is_some (get id s.outcomes_by_operation) ≡ true
  pub issued :
      (id : Text) (t : TransactionRecord)
      → Recorded s id t
      → Issued t.fencing_token s.highest_fencing_token
  pub started : Issued (pos 0) s.highest_fencing_token
  pub sorted : IsSorted s.transactions
  pub bounded : length s.transactions ≤ reconciliation_batch_size_max
