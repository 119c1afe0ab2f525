-- ===== src/Transaction/Stage.antt =====
-- transaction-control/src/stage.rs: the fixed order of the 21 orchestration stages, and the
-- ledger that records which of them have completed.
pub mod Order
use sdkwork_sandbox.Base.{
  ℕ, zero, suc, ◌+◌, ◌-◌, Bool, not, Option, none, some, List, [], ◌∷◌, Text, text, ltb, ◌==◌,
  is_some, set, replicate, ok, ◌>>◌, guard, is_fingerprint,
}
use sdkwork_sandbox.Transaction.Error.{WorkspaceRuntimeResult, invalid_request}

-- `SANDBOX_ORCHESTRATION_STAGE_COUNT_MAX`: the slots of the completion vector.
abbrev pub orchestration_stage_count_max : ℕ
orchestration_stage_count_max = 32

pub data OrchestrationStage : Type 0 where
  workspace_authorization_verified : OrchestrationStage
  kernel_placement_verified : OrchestrationStage
  admission_confirmed : OrchestrationStage
  capacity_reservation_confirmed : OrchestrationStage
  runtime_binding_fenced : OrchestrationStage
  pool_claimed_or_path_selected : OrchestrationStage
  fresh_grants_verified : OrchestrationStage
  provider_allocate_and_start : OrchestrationStage
  projection_attached : OrchestrationStage
  effective_readiness_verified : OrchestrationStage
  environment_ready : OrchestrationStage
  command_admission_opened : OrchestrationStage
  command_admission_frozen_and_drained : OrchestrationStage
  write_access_revoked_and_flushed : OrchestrationStage
  checkpoint_candidate_durable : OrchestrationStage
  checkpoint_handoff_durable : OrchestrationStage
  provider_and_descendants_stopped : OrchestrationStage
  projection_detached : OrchestrationStage
  runtime_sanitized : OrchestrationStage
  residue_scan_passed : OrchestrationStage
  capacity_and_admission_released : OrchestrationStage

-- The contract order.
abbrev pub orchestration_stages : List OrchestrationStage
orchestration_stages =
    workspace_authorization_verified ∷ kernel_placement_verified ∷ admission_confirmed
    ∷ capacity_reservation_confirmed ∷ runtime_binding_fenced ∷ pool_claimed_or_path_selected
    ∷ fresh_grants_verified ∷ provider_allocate_and_start ∷ projection_attached
    ∷ effective_readiness_verified ∷ environment_ready ∷ command_admission_opened
    ∷ command_admission_frozen_and_drained ∷ write_access_revoked_and_flushed
    ∷ checkpoint_candidate_durable ∷ checkpoint_handoff_durable ∷ provider_and_descendants_stopped
    ∷ projection_detached ∷ runtime_sanitized ∷ residue_scan_passed
    ∷ capacity_and_admission_released ∷ []

-- The one-based position: the discriminant of the enum.
abbrev pub position : OrchestrationStage → ℕ
position workspace_authorization_verified = 1
position kernel_placement_verified = 2
position admission_confirmed = 3
position capacity_reservation_confirmed = 4
position runtime_binding_fenced = 5
position pool_claimed_or_path_selected = 6
position fresh_grants_verified = 7
position provider_allocate_and_start = 8
position projection_attached = 9
position effective_readiness_verified = 10
position environment_ready = 11
position command_admission_opened = 12
position command_admission_frozen_and_drained = 13
position write_access_revoked_and_flushed = 14
position checkpoint_candidate_durable = 15
position checkpoint_handoff_durable = 16
position provider_and_descendants_stopped = 17
position projection_detached = 18
position runtime_sanitized = 19
position residue_scan_passed = 20
position capacity_and_admission_released = 21

-- The contract name of a stage.
unfoldable pub name : OrchestrationStage → Text
name workspace_authorization_verified = text "sandbox_workspace_authorization_and_revision_verified"
name kernel_placement_verified =
    text "sandbox_kernel_execution_placement_reference_and_generation_verified"
name admission_confirmed = text "sandbox_admission_reservation_confirmed_or_local_policy_admitted"
name capacity_reservation_confirmed =
    text
      "sandbox_verified_node_and_capacity_reservation_confirmed_or_local_capacity_marked_not_applicable"
name runtime_binding_fenced = text "sandbox_runtime_binding_persisted_and_fenced"
name pool_claimed_or_path_selected = text "sandbox_pool_claimed_or_cold_or_local_path_selected"
name fresh_grants_verified =
    text "sandbox_fresh_identity_workspace_network_and_resource_grants_verified"
name provider_allocate_and_start = text "sandbox_provider_allocate_and_start"
name projection_attached =
    text "sandbox_workspace_projection_attached_and_guest_or_host_acknowledged"
name effective_readiness_verified =
    text "sandbox_effective_workspace_network_resource_and_command_policy_readiness_verified"
name environment_ready = text "sandbox_environment_ready"
name command_admission_opened = text "sandbox_command_admission_opened"
name command_admission_frozen_and_drained =
    text "sandbox_command_admission_frozen_and_active_commands_drained"
name write_access_revoked_and_flushed =
    text "sandbox_workspace_write_access_revoked_and_writes_flushed"
name checkpoint_candidate_durable =
    text "sandbox_workspace_checkpoint_candidate_made_durable_or_read_only_noop_recorded"
name checkpoint_handoff_durable =
    text "sandbox_checkpoint_handoff_made_durable_or_read_only_noop_recorded"
name provider_and_descendants_stopped = text "sandbox_provider_and_descendants_stopped"
name projection_detached = text "sandbox_workspace_projection_detached"
name runtime_sanitized = text "sandbox_network_resource_and_ephemeral_runtime_sanitized"
name residue_scan_passed =
    text "sandbox_cross_tenant_residue_scan_passed_or_local_zero_residue_verified"
name capacity_and_admission_released =
    text "sandbox_pool_capacity_and_admission_released_or_local_noop_recorded"

pub data StageEvidence : Type 0 where
  completed : Text → StageEvidence
  not_applicable : Text → StageEvidence

abbrev pub evidence_fingerprint : StageEvidence → Text
evidence_fingerprint (completed f) = f
evidence_fingerprint (not_applicable f) = f

unfoldable pub evidence_validated : StageEvidence → WorkspaceRuntimeResult (Unit {0})
evidence_validated e = guard (is_fingerprint (evidence_fingerprint e)) invalid_request

pub record OrchestrationLedger : Type 0 where
  pub slots : List (Option StageEvidence)
  pub highest_completed_position : ℕ

unfoldable pub ledger_new : OrchestrationLedger
ledger_new = record {
  slots = replicate orchestration_stage_count_max none;
  highest_completed_position = 0;
}

-- An index of the completion vector; it is always in range here.
abbrev pub slot : List (Option StageEvidence) → ℕ → Option StageEvidence
slot [] i = none
slot (x ∷ xs) zero = x
slot (x ∷ xs) (suc i) = slot xs i

unfoldable pub completed_ref : OrchestrationLedger → OrchestrationStage → Option StageEvidence
completed_ref l s = slot l.slots (position s - 1)

unfoldable pub is_completed : OrchestrationLedger → OrchestrationStage → Bool
unfolding completed_ref
is_completed l s = is_some (completed_ref l s)

-- A stage completes only as the next one in order, once, and with well-formed evidence.
unfoldable pub ledger_record :
    OrchestrationLedger
    → OrchestrationStage
    → StageEvidence
    → WorkspaceRuntimeResult OrchestrationLedger
unfolding evidence_validated
ledger_record l s e = do
  evidence_validated e
  guard (not (ltb orchestration_stage_count_max (position s))) invalid_request
  guard (not (is_some (slot l.slots (position s - 1)))) invalid_request
  guard (position s == l.highest_completed_position + 1) invalid_request
  ok (record {
    slots = set l.slots (position s - 1) (some e);
    highest_completed_position = position s;
  })
