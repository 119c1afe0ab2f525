-- ===== src/Transaction/Compensation.antt =====
-- transaction-control/src/compensation.rs: the failure windows and what each must undo.
pub mod Windows
use sdkwork_sandbox.Base.{ℕ, zero, suc, Option, none, some, List, [], ◌∷◌, get_elem?}
use sdkwork_sandbox.Transaction.Stage

pub data CompensationWindow : Type 0 where
  before_capacity_reservation : CompensationWindow
  after_capacity_before_attachment : CompensationWindow
  after_attachment_before_command : CompensationWindow
  during_or_after_write_execution : CompensationWindow

pub data CompensationAction : Type 0 where
  release_admission_reservation : CompensationAction
  record_terminal_operation_outcome : CompensationAction
  release_or_sanitize_pool_claim : CompensationAction
  release_capacity_reservation : CompensationAction
  revoke_claim_grants : CompensationAction
  stop_provider_and_descendants : CompensationAction
  detach_workspace_projection : CompensationAction
  sanitize_runtime_network_and_resources : CompensationAction
  scan_residue_before_release : CompensationAction
  freeze_new_commands : CompensationAction
  drain_or_cancel_active_commands : CompensationAction
  revoke_write_access_and_flush : CompensationAction
  make_checkpoint_candidate_durable : CompensationAction
  make_checkpoint_handoff_durable : CompensationAction
  quarantine_transaction_and_capacity : CompensationAction

unfoldable pub required_actions : CompensationWindow → List CompensationAction
required_actions before_capacity_reservation =
    release_admission_reservation ∷ record_terminal_operation_outcome ∷ []
required_actions after_capacity_before_attachment =
    release_or_sanitize_pool_claim ∷ release_capacity_reservation ∷ release_admission_reservation
    ∷ record_terminal_operation_outcome ∷ []
required_actions after_attachment_before_command =
    revoke_claim_grants ∷ stop_provider_and_descendants ∷ detach_workspace_projection
    ∷ sanitize_runtime_network_and_resources ∷ scan_residue_before_release ∷ []
required_actions during_or_after_write_execution =
    freeze_new_commands ∷ drain_or_cancel_active_commands ∷ revoke_write_access_and_flush
    ∷ make_checkpoint_candidate_durable ∷ make_checkpoint_handoff_durable
    ∷ quarantine_transaction_and_capacity ∷ []

-- The stage at a one-based position, if there is one.
abbrev pub stage_at : ℕ → Option Stage.OrchestrationStage
stage_at zero = none
stage_at (suc i) = get_elem? Stage.orchestration_stages i

unfoldable pub window_of_stage : Option Stage.OrchestrationStage → CompensationWindow
window_of_stage (some Stage.projection_attached) = after_attachment_before_command
window_of_stage (some Stage.effective_readiness_verified) = after_attachment_before_command
window_of_stage (some Stage.environment_ready) = after_attachment_before_command
window_of_stage (some Stage.command_admission_opened) = after_attachment_before_command
window_of_stage (some Stage.command_admission_frozen_and_drained) = during_or_after_write_execution
window_of_stage (some Stage.write_access_revoked_and_flushed) = during_or_after_write_execution
window_of_stage (some Stage.checkpoint_candidate_durable) = during_or_after_write_execution
window_of_stage (some Stage.checkpoint_handoff_durable) = during_or_after_write_execution
window_of_stage (some Stage.provider_and_descendants_stopped) = during_or_after_write_execution
window_of_stage (some Stage.projection_detached) = during_or_after_write_execution
window_of_stage (some Stage.runtime_sanitized) = during_or_after_write_execution
window_of_stage (some Stage.residue_scan_passed) = during_or_after_write_execution
window_of_stage (some Stage.capacity_reservation_confirmed) = after_capacity_before_attachment
window_of_stage (some Stage.runtime_binding_fenced) = after_capacity_before_attachment
window_of_stage (some Stage.pool_claimed_or_path_selected) = after_capacity_before_attachment
window_of_stage _ = before_capacity_reservation

unfoldable pub window_for_completed_stage : ℕ → CompensationWindow
unfolding window_of_stage
window_for_completed_stage completed_position = window_of_stage (stage_at completed_position)
