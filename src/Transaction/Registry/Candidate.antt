-- ===== src/Transaction/Registry/Candidate.antt =====
-- transaction-control/src/registry.rs: the checkpoint candidate of a transaction: attaching it,
-- recording its handoff, and promoting it.
use sdkwork_sandbox.Base.{
  true, not, none, some, is_some, Text, get, if◌then◌else◌, ℤ, ok, err, ◌>>=◌, guard, ok_or,
}
use sdkwork_sandbox.Transaction.Error.{WorkspaceRuntimeResult, invalid_request, checkpoint_failed}
use sdkwork_sandbox.Transaction.Checkpoint.{CheckpointCandidate, CandidatePromotion, promote}
use sdkwork_sandbox.Transaction.Registry.Record.{
  TransactionRecord, Registry, bump, is_read_write, update_record, put_record,
}

unfoldable pub attach_record :
    CheckpointCandidate → TransactionRecord → TransactionRecord × WorkspaceRuntimeResult (Unit {0})
attach_record c t =
    if is_some t.candidate
    then (t, err invalid_request)
    else if not (is_read_write t.request.workspace_mount_mode)
    then (t, err invalid_request)
    else (record t { candidate = some c }, ok tt)

unfoldable pub attach_checkpoint_candidate :
    Text → CheckpointCandidate → ℤ → Registry → Registry × WorkspaceRuntimeResult (Unit {0})
attach_checkpoint_candidate id c = update_record (attach_record c) id

-- What a durable handoff wants of a record.
unfoldable pub handoff_admission : TransactionRecord → WorkspaceRuntimeResult (Unit {0})
handoff_admission t =
    if is_read_write t.request.workspace_mount_mode
    then (do c ← ok_or t.candidate checkpoint_failed; guard c.is_sealed checkpoint_failed)
    else ok tt

unfoldable pub handoff_record :
    TransactionRecord → TransactionRecord × WorkspaceRuntimeResult (Unit {0})
unfolding handoff_admission
handoff_record t = elim (handoff_admission t) [
  | err e ↦ (t, err e)
  | ok _ ↦ (record t { checkpoint_handoff_durable = true; version = bump t.version }, ok tt)
]

unfoldable pub record_checkpoint_handoff :
    Text → ℤ → Registry → Registry × WorkspaceRuntimeResult (Unit {0})
record_checkpoint_handoff = update_record handoff_record

unfoldable pub promote_record :
    Text → TransactionRecord → TransactionRecord × WorkspaceRuntimeResult CandidatePromotion
promote_record expected t = elim t.candidate [
  | none ↦ (t, err checkpoint_failed)
  | some c ↦ (record t { candidate = some (promote c expected).0 }, (promote c expected).1)
]

-- The promotion takes no fencing token.
unfoldable pub promote_checkpoint :
    Text → Text → Registry → Registry × WorkspaceRuntimeResult CandidatePromotion
promote_checkpoint id expected s = elim (get id s.transactions) [
  | none ↦ (s, err invalid_request)
  | some t ↦ (put_record id (promote_record expected t).0 s, (promote_record expected t).1)
]
