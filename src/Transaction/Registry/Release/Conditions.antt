-- ===== src/Transaction/Registry/Release/Conditions.antt =====
-- What `sandbox_release` asks of a record.
use sdkwork_sandbox.Base.{
  ◌-◌, ◌≡◌, refl, inl, inr, true, some, Text, ok, err, arith, Result-cases, Bool-cases, List, [],
  ◌∷◌, All, All-get_elem?, get_elem?,
}
use sdkwork_sandbox.Transaction.State
use sdkwork_sandbox.Transaction.State.{TransactionState, can_transition_to}
use sdkwork_sandbox.Transaction.Stage.{OrchestrationStage, StageEvidence, ledger_new}
use sdkwork_sandbox.Transaction.Registry.Record.{TransactionRecord, released, is_read_write}
use sdkwork_sandbox.Transaction.Registry.Invariant.{RecordInv, Finished}
use sdkwork_sandbox.Transaction.Request.{WorkspaceMountMode}
use sdkwork_sandbox.Transaction.Error.{WorkspaceRuntimeError}
use sdkwork_sandbox.Transaction.Stage
use sdkwork_sandbox.Transaction.Stage.{
  OrchestrationLedger, orchestration_stages, position, completed_ref, is_completed,
}
use sdkwork_sandbox.Transaction.Registry.Release.{
  stage_admission, stages_admission, release_admission,
}
use sdkwork_sandbox.Transaction.Registry.Preservation.Close.{ended}

stage_at_position :
    (s : OrchestrationStage) → get_elem? orchestration_stages (position s - 1) ≡ some s
stage_at_position Stage.workspace_authorization_verified = refl
stage_at_position _ = refl

Passes : WorkspaceMountMode → OrchestrationLedger → OrchestrationStage → Type 0
Passes mode l s = stage_admission mode l s ≡ ok tt

each_stage_admitted :
    (mode : WorkspaceMountMode) (l : OrchestrationLedger) (xs : List OrchestrationStage)
    → stages_admission mode l xs ≡ ok tt
    → All (Passes mode l) xs
unfolding stages_admission Passes
each_stage_admitted mode l [] h = tt
each_stage_admitted mode l (x ∷ xs) h = elim (Result-cases (stage_admission mode l x)) [
  | inr (e, p) ↦ absurd (refused p)
  | inl (a, p) ↦ (p, each_stage_admitted mode l xs (passed p))
]
  where
    refused : {e : WorkspaceRuntimeError} → stage_admission mode l x ≡ err e → ⊥
    refused p = cc (rw (p, stages_admission) at h)

    passed : {a : Unit {0}} → stage_admission mode l x ≡ ok a → stages_admission mode l xs ≡ ok tt
    passed p = rw (p, stages_admission) at h

-- The loop accepts exactly when every one of the 21 stages passes.
every_stage_admitted :
    (mode : WorkspaceMountMode) (l : OrchestrationLedger) (s : OrchestrationStage)
    → stages_admission mode l orchestration_stages ≡ ok tt
    → stage_admission mode l s ≡ ok tt
unfolding Passes
every_stage_admitted mode l s h =
    All-get_elem? (Passes mode l) orchestration_stages (position s - 1) s
      (each_stage_admitted mode l orchestration_stages h) (stage_at_position s)

loop_admits :
    (mode : WorkspaceMountMode) (l : OrchestrationLedger) (xs : List OrchestrationStage)
    → ((s : OrchestrationStage) → stage_admission mode l s ≡ ok tt)
    → stages_admission mode l xs ≡ ok tt
unfolding stages_admission
loop_admits mode l [] h = refl
loop_admits mode l (x ∷ xs) h = rw (h x, stages_admission) (loop_admits mode l xs h)

-- The parts of an accepted release.
record Accepted (t : TransactionRecord) : Type 0 where
  passes : stages_admission t.request.workspace_mount_mode t.ledger orchestration_stages ≡ ok tt
  handed_off :
      is_read_write t.request.workspace_mount_mode ≡ true → t.checkpoint_handoff_durable ≡ true
  legal : can_transition_to t.state State.released ≡ true

release_admission_parts : (t : TransactionRecord) → release_admission t ≡ ok tt → Accepted t
unfolding release_admission
release_admission_parts t h = record {
  passes = ground arith;
  handed_off = ground arith;
  legal = ground arith;
}

completed_of_admitted :
    (mode : WorkspaceMountMode) (l : OrchestrationLedger) (s : OrchestrationStage)
    → stage_admission mode l s ≡ ok tt
    → is_completed l s ≡ true
unfolding stage_admission is_completed
completed_of_admitted mode l s h = ground arith

evidence_of_admitted :
    (mode : WorkspaceMountMode) (l : OrchestrationLedger)
    → is_read_write mode ≡ true
    → stage_admission mode l Stage.checkpoint_candidate_durable ≡ ok tt
    → stage_admission mode l Stage.checkpoint_handoff_durable ≡ ok tt
    → ((f : Text) × (completed_ref l Stage.checkpoint_candidate_durable ≡ some (Stage.completed f)))
      × ((f : Text) × (completed_ref l Stage.checkpoint_handoff_durable ≡ some (Stage.completed f)))
unfolding stage_admission
evidence_of_admitted mode l m h k = ground arith

-- A record that a release accepts is finished.
pub release_admission-Finished :
    (t : TransactionRecord) → RecordInv t → release_admission t ≡ ok tt → Finished t
release_admission-Finished t v h =
    let a = release_admission_parts t h in
    let mode = t.request.workspace_mount_mode in
    let each = λ (s : OrchestrationStage). every_stage_admitted mode t.ledger s a.passes in
    record {
      every_stage = λ s. completed_of_admitted mode t.ledger s (each s);
      durable = λ m.
          let (c, k) =
            evidence_of_admitted mode t.ledger m (each Stage.checkpoint_candidate_durable)
              (each Stage.checkpoint_handoff_durable) in
          record {
            handed_off = a.handed_off m;
            sealed = v.handoff_sealed (a.handed_off m) m;
            candidate_stage = c;
            handoff_stage = k;
          };
    }

pub release_admission_legal :
    (t : TransactionRecord)
    → release_admission t ≡ ok tt
    → can_transition_to t.state State.released ≡ true
release_admission_legal t h = (release_admission_parts t h).legal

-- A stage that has evidence passes, unless it is a checkpoint stage of a read-write transaction
-- whose evidence says inapplicable.
stage_admission-Finished :
    (t : TransactionRecord) (s : OrchestrationStage)
    → Finished t
    → stage_admission t.request.workspace_mount_mode t.ledger s ≡ ok tt
unfolding stage_admission is_completed
stage_admission-Finished t Stage.checkpoint_candidate_durable f =
    elim (Bool-cases (is_read_write t.request.workspace_mount_mode)) [
      | inl m ↦ ground (arith, (f.durable m).candidate_stage)
      | inr m ↦ ground (arith, f.every_stage Stage.checkpoint_candidate_durable)
    ]
stage_admission-Finished t Stage.checkpoint_handoff_durable f =
    elim (Bool-cases (is_read_write t.request.workspace_mount_mode)) [
      | inl m ↦ ground (arith, (f.durable m).handoff_stage)
      | inr m ↦ ground (arith, f.every_stage Stage.checkpoint_handoff_durable)
    ]
stage_admission-Finished t s f = ground (arith, f.every_stage s)

-- Conversely a finished record in a state that may be released is accepted.
pub release_admission_complete :
    (t : TransactionRecord)
    → Finished t
    → can_transition_to t.state State.released ≡ true
    → release_admission t ≡ ok tt
unfolding release_admission
release_admission_complete t f legal =
    let passes =
      loop_admits t.request.workspace_mount_mode t.ledger orchestration_stages
        (λ s. stage_admission-Finished t s f) in
    elim (Bool-cases (is_read_write t.request.workspace_mount_mode)) [
      | inl m ↦ ground (arith, passes, (f.durable m).handed_off)
      | inr m ↦ ground (arith, passes)
    ]

-- The record that a release leaves satisfies the invariant.
pub released-RecordInv :
    (t : TransactionRecord)
    → RecordInv t
    → release_admission t ≡ ok tt
    → RecordInv (ended released t)
released-RecordInv t v h =
    let f = release_admission-Finished t v h in
    record {
      ordered = v.ordered;
      tracked = λ e. absurd (cc);
      handoff_sealed = v.handoff_sealed;
      finished = λ _. record {
        every_stage = f.every_stage;
        durable = λ m.
            let d = f.durable m in
            record {
              handed_off = d.handed_off;
              sealed = d.sealed;
              candidate_stage = d.candidate_stage;
              handoff_stage = d.handoff_stage;
            };
      };
    }
