-- ===== src/Transaction/Request.antt =====
-- transaction-control/src/registry.rs: the mount mode, the transaction request and its validation.
use sdkwork_sandbox.Base.{
  ℕ, not, List, [], ◌∷◌, all, Text, text, ℤ, is_negative, ◌>>◌, guard, is_fingerprint,
}
use sdkwork_sandbox.Transaction.Error.{WorkspaceRuntimeResult, invalid_request}
use sdkwork_sandbox.Transaction.Checkpoint.{validated_reference}

pub data WorkspaceMountMode : Type 0 where
  read_only read_write : WorkspaceMountMode

unfoldable pub checkpoint_policy : WorkspaceMountMode → Text
checkpoint_policy read_only = text "ReadOnlyNoCheckpoint"
checkpoint_policy read_write = text "DurableCheckpointRequired"

pub record TransactionRequest : Type 0 where
  pub workspace_runtime_transaction_id : Text
  pub tenant_scope_hash : Text
  pub workspace_id : Text
  pub workspace_revision_ref : Text
  pub workspace_authorization_grant_ref : Text
  pub session_id : Text
  pub kernel_execution_placement_ref : Text
  pub kernel_execution_placement_generation : ℕ
  pub operation_id : Text
  pub execution_profile_id : Text
  pub required_capabilities : List Text
  pub minimum_assurance : Text
  pub workload_class_ref : Text
  pub workspace_mount_mode : WorkspaceMountMode
  pub request_fingerprint : Text
  pub fencing_token : ℤ
  pub deadline_at : ℕ
  pub trace_id : Text

abbrev request_references : TransactionRequest → List Text
request_references r =
    r.workspace_runtime_transaction_id ∷ r.tenant_scope_hash ∷ r.workspace_id
    ∷ r.workspace_revision_ref ∷ r.workspace_authorization_grant_ref ∷ r.session_id
    ∷ r.kernel_execution_placement_ref ∷ r.operation_id ∷ r.execution_profile_id
    ∷ r.workload_class_ref ∷ r.trace_id ∷ []

unfoldable pub request_validated : TransactionRequest → WorkspaceRuntimeResult (Unit {0})
request_validated r = do
  guard (all validated_reference (request_references r)) invalid_request
  guard (is_fingerprint r.request_fingerprint) invalid_request
  guard (not (is_negative r.fencing_token)) invalid_request
  guard (all validated_reference r.required_capabilities) invalid_request
