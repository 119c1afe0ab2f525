-- ===== src/Transaction/Examples.antt =====
-- Concrete transactions: tests of the model, and the theorems at inputs that meet their hypotheses.
use sdkwork_sandbox.Base.{
  All, ℕ, ◌+◌, ◌≤◌, ◌≡◌, ◌≢◌, refl, ◌⊎◌, ◌↔◌, true, false, ◌&&◌, none, some, List, [], ◌∷◌, ◌++◌,
  map, Text, text, text_eq, ne-of_text_eq, is_some, text_compare, contains, starts_with, get,
  insert, remove, replicate, length, pos, ltb_ℤ, i64_max, ok, err, is_ok, is_fingerprint, is_opaque,
  ◌==◌, if◌then◌else◌, arith,
}
use sdkwork_sandbox.Transaction.Error.{invalid_request, revision_conflict}
use sdkwork_sandbox.Transaction.State
use sdkwork_sandbox.Transaction.State.{TransactionState, as_str, parse, can_transition_to}
use sdkwork_sandbox.Transaction.State.Names.{parse-as_str, as_str-of_parse}
use sdkwork_sandbox.Transaction.Stage
use sdkwork_sandbox.Transaction.Stage.{
  OrchestrationStage, StageEvidence, orchestration_stages, position, ledger_new, ledger_record,
  evidence_fingerprint, completed_ref, evidence_validated,
}
use sdkwork_sandbox.Transaction.Checkpoint.{
  CheckpointCandidate, CandidateFields, promote, already_promoted,
}
use sdkwork_sandbox.Transaction.Checkpoint.Promotion.{promote_cas, promote_once}
use sdkwork_sandbox.Transaction.Compensation.{
  before_capacity_reservation, window_for_completed_stage, window_of_stage, required_actions,
  release_admission_reservation, record_terminal_operation_outcome,
}
use sdkwork_sandbox.Transaction.Compensation.Windows.{window_forgets_capacity}
use sdkwork_sandbox.Transaction.Request.{TransactionRequest, read_write, request_validated}
use sdkwork_sandbox.Transaction.Registry.Record.{
  handle_of, update_record, TransactionRecord, Registry, TransactionHandle, released, empty,
  fenced_record, is_closed, refuses_stages,
}
use sdkwork_sandbox.Transaction.Registry.Begin.{
  begin, begin_record, begin_fresh, begin_admission, begin_replay,
}
use sdkwork_sandbox.Transaction.Registry.Advance.{advance_stage, advance_record, state_for_stage}
use sdkwork_sandbox.Transaction.Registry.Candidate.{
  attach_checkpoint_candidate, record_checkpoint_handoff, promote_checkpoint, attach_record,
  handoff_record, handoff_admission, promote_record,
}
use sdkwork_sandbox.Transaction.Registry.Release.{
  release, release_admission, stages_admission, stage_admission,
}
use sdkwork_sandbox.Transaction.Registry.Failure.{enter_compensation, quarantine, compensate_record}
use sdkwork_sandbox.Transaction.Registry.Command.{
  Command, begins, advances, attaches, hands_off, releases, compensates, quarantines, step, run,
}
use sdkwork_sandbox.Transaction.Registry.Invariant.{Recorded, Finished, Inv, final_state, state_at}
use sdkwork_sandbox.Transaction.Registry.Preservation.History.{history-Inv}
use sdkwork_sandbox.Transaction.Registry.Safety.{released-Finished, one_writer, state_tracks_stages}
use sdkwork_sandbox.Transaction.Registry.Finality.{outcome_is_final}
use sdkwork_sandbox.Transaction.Registry.Fencing.{
  may_change, stale_calls_change_nothing, begin_token_above,
}
use sdkwork_sandbox.Transaction.Registry.Acceptance.{advance_in_order, release_accepts}
use sdkwork_sandbox.Transaction.Registry.Replay.{begin_replays, begin_mismatch}

abbrev hex_a : Text
hex_a = replicate 64 b'a'

abbrev hex_b : Text
hex_b = replicate 64 b'b'

abbrev writer : TransactionRequest
writer = record {
  workspace_runtime_transaction_id = text "tx-1";
  tenant_scope_hash = text "tenant";
  workspace_id = text "workspace";
  workspace_revision_ref = text "rev-1";
  workspace_authorization_grant_ref = text "grant";
  session_id = text "session-1";
  kernel_execution_placement_ref = text "placement";
  kernel_execution_placement_generation = 1;
  operation_id = text "op-1";
  execution_profile_id = text "profile";
  required_capabilities = text "exec" ∷ [];
  minimum_assurance = text "micro_vm";
  workload_class_ref = text "class";
  workspace_mount_mode = read_write;
  request_fingerprint = hex_a;
  fencing_token = pos 0;
  deadline_at = 100;
  trace_id = text "trace";
}

abbrev other_writer : TransactionRequest
other_writer = record writer { request_fingerprint = hex_b }

abbrev second_writer : TransactionRequest
second_writer = record writer {
  workspace_runtime_transaction_id = text "tx-2";
  session_id = text "session-2";
  operation_id = text "op-2";
  fencing_token = pos 1;
}

abbrev fields : CandidateFields
fields = record {
  workspace_checkpoint_candidate_id = text "candidate";
  workspace_id = text "workspace";
  source_workspace_revision_ref = text "rev-1";
  candidate_workspace_revision_ref = text "rev-2";
  workspace_runtime_transaction_id = text "tx-1";
  session_id = text "session-1";
  runtime_binding_id = text "binding";
  fencing_token = pos 1;
  content_digest = hex_b;
  content_size_bytes = 10;
  storage_authority_ref = text "storage";
  created_at = 5;
  trace_id = text "trace";
}

abbrev sealed_candidate : CheckpointCandidate
sealed_candidate = record {
  fields = fields;
  is_sealed = true;
  promoted_expected_source_revision_ref = none;
}

abbrev done : StageEvidence
done = Stage.completed hex_a

abbrev tx : Text
tx = text "tx-1"

abbrev every_stage : List Command
every_stage = map (λ s. advances tx s done (pos 1)) orchestration_stages

abbrev begun : List Command
begun = begins 10 writer ∷ []

abbrev ready_to_release : List Command
ready_to_release =
    begun ++ (every_stage ++ (attaches tx sealed_candidate (pos 1) ∷ hands_off tx (pos 1) ∷ []))

abbrev whole_life : List Command
whole_life = ready_to_release ++ (releases tx (pos 1) ∷ [])

record_in : Registry → TransactionRecord
record_in s = elim (get tx s.transactions) [ none ↦ begin_record writer (pos 0) | some t ↦ t ]

live : Registry
live = run empty begun

full : Registry
full = run empty ready_to_release

over : Registry
over = run empty whole_life

-- A run with every part of the model open: proofs by computation name it.
evaluate : Registry → List Command → Registry
unfolding run step begin begin_fresh begin_admission begin_replay handle_of empty advance_stage
    advance_record state_for_stage attach_checkpoint_candidate attach_record
    record_checkpoint_handoff handoff_record handoff_admission promote_checkpoint promote_record
    promote release release_admission stages_admission stage_admission enter_compensation
    compensate_record quarantine update_record fenced_record request_validated is_opaque
    is_fingerprint contains starts_with get insert remove text_eq text_compare ledger_record
    ledger_new completed_ref evidence_validated can_transition_to window_for_completed_stage
    window_of_stage required_actions
evaluate = run

record_in_there :
    (s : Registry) → is_some (get tx s.transactions) ≡ true → Recorded s tx (record_in s)
unfolding record_in
record_in_there s h = ground arith

over_released : (record_in over).state ≡ State.released
unfolding evaluate record_in over
over_released = refl

over_there : Recorded over tx (record_in over)
unfolding evaluate over
over_there = record_in_there over refl

live_there : Recorded live tx (record_in live)
unfolding evaluate live
live_there = record_in_there live refl

full_there : Recorded full tx (record_in full)
unfolding evaluate full
full_there = record_in_there full refl

live-Inv : Inv live
unfolding live
live-Inv = history-Inv begun

full-Inv : Inv full
unfolding full
full-Inv = history-Inv ready_to_release

over-Inv : Inv over
unfolding over
over-Inv = history-Inv whole_life

live_open : is_closed (record_in live).state ≡ false
unfolding evaluate record_in live
live_open = refl

live_accepts : refuses_stages (record_in live).state ≡ false
unfolding evaluate record_in live
live_accepts = refl

full_accepts : refuses_stages (record_in full).state ≡ false
unfolding evaluate record_in full
full_accepts = refl

full_open : is_closed (record_in full).state ≡ false
unfolding evaluate record_in full
full_open = refl

parse-as_str_example : parse (as_str State.capacity_reserved) ≡ some State.capacity_reserved
parse-as_str_example = parse-as_str State.capacity_reserved

as_str-of_parse_example : text "ready" ≡ as_str State.ready
unfolding parse text_eq
as_str-of_parse_example = as_str-of_parse (text "ready") State.ready refl

promote_cas_example :
    is_ok (promote sealed_candidate (text "rev-9")).1
    ≡ (true && text_eq (text "rev-1") (text "rev-9"))
promote_cas_example = (promote_cas sealed_candidate (text "rev-9")).0

promote_once_example : promote (promote sealed_candidate (text "rev-1")).0 (text "rev-9") ≡ (
  (promote sealed_candidate (text "rev-1")).0,
  (if text_eq (text "rev-1") (text "rev-9") then ok already_promoted else err revision_conflict),
)
unfolding evaluate
promote_once_example = promote_once sealed_candidate (text "rev-1") (text "rev-9") refl

window_forgets_capacity_example :
    ((window_for_completed_stage (position Stage.provider_allocate_and_start)
        ≡ before_capacity_reservation)
      ↔ ((position Stage.provider_allocate_and_start ≡ 7)
          ⊎ (position Stage.provider_allocate_and_start ≡ 8)))
    × ((required_actions (window_for_completed_stage (position Stage.provider_allocate_and_start))
          ≡ release_admission_reservation ∷ record_terminal_operation_outcome ∷ [])
        ↔ ((position Stage.provider_allocate_and_start ≡ 7)
            ⊎ (position Stage.provider_allocate_and_start ≡ 8)))
window_forgets_capacity_example =
    window_forgets_capacity Stage.provider_allocate_and_start (omega arith) (omega arith)

released-Finished_example : Finished (record_in (run empty whole_life))
unfolding over
released-Finished_example =
    released-Finished whole_life tx (record_in over) over_there over_released

one_writer_example : tx ≡ tx
unfolding live
one_writer_example =
    one_writer begun tx tx (record_in live) (record_in live) live_there live_there live_open
      live_open refl

state_tracks_stages_example :
    ((record_in full).state ≡ state_at (record_in full).ledger.highest_completed_position)
    × ((record_in full).ledger.highest_completed_position ≤ 21)
    × (length (run empty ready_to_release).transactions ≤ 100)
unfolding full
state_tracks_stages_example =
    state_tracks_stages ready_to_release tx (record_in full) full_there full_accepts

over_outcome : get tx over.outcomes_by_operation ≡ some released
unfolding evaluate over
over_outcome = refl

outcome_is_final_example :
    (get tx (run over begun).outcomes_by_operation ≡ some released)
    × ((t : TransactionRecord) → Recorded (run over begun) tx t → t.state ≡ final_state released)
    × (release tx (pos 7) (run over begun) ≡ (run over begun, ok released))
    × (quarantine tx (pos 7) (run over begun) ≡ (run over begun, ok released))
outcome_is_final_example = outcome_is_final over begun tx released (pos 7) over-Inv over_outcome

live_token : pos 0 ≢ (record_in live).fencing_token
unfolding evaluate record_in live
live_token e = cc

live_outcome : get tx live.outcomes_by_operation ≡ none
unfolding evaluate live
live_outcome = refl

-- Calls by callers with another token, and calls on another transaction.
abbrev stale_calls : List Command
stale_calls =
    advances tx Stage.admission_confirmed done (pos 0)
    ∷ begins 10 second_writer
    ∷ compensates tx (pos 7)
    ∷ quarantines (text "tx-2") (pos 2)
    ∷ releases tx (pos 0)
    ∷ []

stale_calls_may_not : All (λ c. may_change tx (record_in live).fencing_token c ≡ false) stale_calls
unfolding evaluate live record_in
stale_calls_may_not = (refl, (refl, (refl, (refl, (refl, tt)))))

stale_calls_change_nothing_example : Recorded (run live stale_calls) tx (record_in live)
stale_calls_change_nothing_example =
    stale_calls_change_nothing live stale_calls tx (record_in live) live_there stale_calls_may_not

second_handle : TransactionHandle
second_handle = record {
  workspace_runtime_transaction_id = text "tx-2";
  state = State.requested;
  fencing_token = pos 2;
}

begin_token_above_example :
    ((i : Text) (t : TransactionRecord) → Recorded live i t → ltb_ℤ t.fencing_token (pos 2) ≡ true)
    × ((n : ℕ) × (pos 2 ≡ pos n) × (n ≤ i64_max))
unfolding evaluate second_handle live
begin_token_above_example = begin_token_above 10 second_writer live second_handle live-Inv refl refl

advance_in_order_example :
    is_ok (advance_stage tx Stage.admission_confirmed done (record_in live).fencing_token live).1
    ≡ (is_fingerprint hex_a
        && position Stage.admission_confirmed
          == (record_in live).ledger.highest_completed_position + 1)
advance_in_order_example =
    (advance_in_order live tx (record_in live) Stage.admission_confirmed done live-Inv live_there
      live_accepts).0

release_accepts_example : ((release tx (record_in full).fencing_token full).1 ≡ ok released) ↔ (
    Finished (record_in full)
    × (((record_in full).state ≡ State.checkpointing)
        ⊎ ((record_in full).state ≡ State.compensating)))
release_accepts_example = (release_accepts full tx (record_in full) full-Inv full_there full_open).0

writer_handle : TransactionHandle
writer_handle = record {
  workspace_runtime_transaction_id = tx;
  state = State.requested;
  fencing_token = pos 1;
}

begin_replays_example :
    begin 500 writer (begin 10 writer empty).0 ≡ ((begin 10 writer empty).0, ok writer_handle)
unfolding evaluate writer_handle
begin_replays_example = begin_replays 10 500 writer empty writer_handle refl

begin_mismatch_example :
    begin 11 other_writer (begin 10 writer empty).0
    ≡ ((begin 10 writer empty).0, err invalid_request)
unfolding evaluate writer_handle
begin_mismatch_example =
    begin_mismatch 10 11 writer other_writer empty writer_handle refl refl refl
      (ne-of_text_eq hex_b hex_a refl)
