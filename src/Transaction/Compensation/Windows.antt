-- ===== src/Transaction/Compensation/Windows.antt =====
-- Which stages a compensation window undoes.
use sdkwork_sandbox.Base.{◌≤◌, ◌<◌, ◌≡◌, ◌⊎◌, ◌↔◌, [], ◌∷◌, arith}
use sdkwork_sandbox.Transaction.Stage.{
  OrchestrationStage, workspace_authorization_verified, position,
}
use sdkwork_sandbox.Transaction.Compensation.{
  before_capacity_reservation, window_for_completed_stage, required_actions,
  release_admission_reservation, record_terminal_operation_outcome,
}

-- Once the capacity reservation is confirmed, at position 4, and before the last stage gives it
-- back, the window falls back to the one that precedes the reservation exactly when the highest
-- completed stage is the seventh or the eighth: fresh grants verified, or provider allocated and
-- started. It is exactly at those two that the required actions are only to release the admission
-- reservation and to record the outcome, so that none releases the capacity or stops the provider.
pub window_forgets_capacity :
    (s : OrchestrationStage)
    → 4 ≤ position s
    → position s < 21
    → ((window_for_completed_stage (position s) ≡ before_capacity_reservation)
        ↔ ((position s ≡ 7) ⊎ (position s ≡ 8)))
      × ((required_actions (window_for_completed_stage (position s))
            ≡ release_admission_reservation ∷ record_terminal_operation_outcome ∷ [])
          ↔ ((position s ≡ 7) ⊎ (position s ≡ 8)))
unfolding window_for_completed_stage required_actions
window_forgets_capacity workspace_authorization_verified h k = absurd (omega arith)
window_forgets_capacity _ h k = (ground arith, ground arith)
