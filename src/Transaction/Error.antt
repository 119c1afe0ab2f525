-- ===== src/Transaction/Error.antt =====
-- transaction-control/src/error.rs: the typed failures of the transaction control.
use sdkwork_sandbox.Base.{Bool, true, false, Text, text, Result}

pub data WorkspaceRuntimeError : Type 0 where
  invalid_request : WorkspaceRuntimeError
  authorization_denied : WorkspaceRuntimeError
  revision_conflict : WorkspaceRuntimeError
  execution_placement_stale : WorkspaceRuntimeError
  writer_conflict : WorkspaceRuntimeError
  admission_rejected : WorkspaceRuntimeError
  capacity_unavailable : WorkspaceRuntimeError
  stale_fencing : WorkspaceRuntimeError
  attachment_failed : WorkspaceRuntimeError
  command_unavailable : WorkspaceRuntimeError
  checkpoint_failed : WorkspaceRuntimeError
  cleanup_incomplete : WorkspaceRuntimeError
  quarantined : WorkspaceRuntimeError
  internal_failure : WorkspaceRuntimeError

-- The stable wire code of a failure.
unfoldable pub error_code : WorkspaceRuntimeError → Text
error_code invalid_request = text "sandbox_workspace_runtime_invalid_request"
error_code authorization_denied = text "sandbox_workspace_runtime_authorization_denied"
error_code revision_conflict = text "sandbox_workspace_runtime_revision_conflict"
error_code execution_placement_stale = text "sandbox_workspace_runtime_execution_placement_stale"
error_code writer_conflict = text "sandbox_workspace_runtime_writer_conflict"
error_code admission_rejected = text "sandbox_workspace_runtime_admission_rejected"
error_code capacity_unavailable = text "sandbox_workspace_runtime_capacity_unavailable"
error_code stale_fencing = text "sandbox_workspace_runtime_stale_fencing"
error_code attachment_failed = text "sandbox_workspace_runtime_attachment_failed"
error_code command_unavailable = text "sandbox_workspace_runtime_command_unavailable"
error_code checkpoint_failed = text "sandbox_workspace_runtime_checkpoint_failed"
error_code cleanup_incomplete = text "sandbox_workspace_runtime_cleanup_incomplete"
error_code quarantined = text "sandbox_workspace_runtime_quarantined"
error_code internal_failure = text "sandbox_workspace_runtime_internal_failure"

-- Whether the caller may try again.
unfoldable pub retryable : WorkspaceRuntimeError → Bool
retryable execution_placement_stale = true
retryable writer_conflict = true
retryable admission_rejected = true
retryable capacity_unavailable = true
retryable stale_fencing = true
retryable attachment_failed = true
retryable command_unavailable = true
retryable checkpoint_failed = true
retryable cleanup_incomplete = true
retryable internal_failure = true
retryable _ = false

abbrev pub WorkspaceRuntimeResult {ℓ} : Type ℓ → Type ℓ
WorkspaceRuntimeResult A = Result WorkspaceRuntimeError A
