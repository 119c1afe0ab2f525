-- ===== src/Transaction/Checkpoint.antt =====
-- transaction-control/src/checkpoint.rs: the checkpoint candidate, its seal, and its promotion by
-- compare-and-swap against the source revision.
pub mod Promotion
use sdkwork_sandbox.Base.{
  ℕ, Bool, true, false, not, ◌&&◌, Option, none, some, [], ◌∷◌, all, Text, text_eq, ℤ, is_negative,
  if◌then◌else◌, ok, err, ◌>>◌, guard, is_opaque, is_fingerprint,
}
use sdkwork_sandbox.Transaction.Error.{
  WorkspaceRuntimeResult, invalid_request, checkpoint_failed, revision_conflict,
}

-- `SANDBOX_REFERENCE_MAX_LENGTH`.
abbrev pub reference_max_length : ℕ
reference_max_length = 512

abbrev pub validated_reference : Text → Bool
validated_reference = is_opaque reference_max_length

pub data CandidatePromotion : Type 0 where
  promoted already_promoted : CandidatePromotion

-- The arguments of `sandbox_new`, which are the descriptive fields of a candidate.
pub record CandidateFields : Type 0 where
  pub workspace_checkpoint_candidate_id : Text
  pub workspace_id : Text
  pub source_workspace_revision_ref : Text
  pub candidate_workspace_revision_ref : Text
  pub workspace_runtime_transaction_id : Text
  pub session_id : Text
  pub runtime_binding_id : Text
  pub fencing_token : ℤ
  pub content_digest : Text
  pub content_size_bytes : ℕ
  pub storage_authority_ref : Text
  pub created_at : ℕ
  pub trace_id : Text

pub record CheckpointCandidate : Type 0 where
  pub fields : CandidateFields
  pub is_sealed : Bool
  pub promoted_expected_source_revision_ref : Option Text

unfoldable pub candidate_new : CandidateFields → WorkspaceRuntimeResult CheckpointCandidate
candidate_new f = do
  guard
      (all validated_reference (
          f.workspace_checkpoint_candidate_id ∷ f.workspace_id ∷ f.source_workspace_revision_ref
          ∷ f.candidate_workspace_revision_ref ∷ f.workspace_runtime_transaction_id ∷ f.session_id
          ∷ f.runtime_binding_id ∷ f.storage_authority_ref ∷ f.trace_id ∷ [])
        && is_fingerprint f.content_digest
        && not (is_negative f.fencing_token))
      invalid_request
  ok (record { fields = f; is_sealed = false; promoted_expected_source_revision_ref = none })

unfoldable pub seal : CheckpointCandidate → CheckpointCandidate
seal c = record c { is_sealed = true }

-- The candidate after the call, and what the call returns.
unfoldable pub promote :
    CheckpointCandidate → Text → CheckpointCandidate × WorkspaceRuntimeResult CandidatePromotion
promote c expected =
    if not c.is_sealed
    then (c, err checkpoint_failed)
    else elim c.promoted_expected_source_revision_ref [
      | some p ↦ (c, (if text_eq p expected then ok already_promoted else err revision_conflict))
      | none ↦
          if not (text_eq c.fields.source_workspace_revision_ref expected)
          then (c, err revision_conflict)
          else (record c { promoted_expected_source_revision_ref = some expected }, ok promoted)
    ]
