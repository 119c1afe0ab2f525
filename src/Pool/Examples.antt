-- ===== src/Pool/Examples.antt =====
-- A concrete pool: tests of the model, and the theorems at inputs that meet their hypotheses.
use sdkwork_sandbox.Base.{
  All, false, inl, ℕ, suc, ◌+◌, ◌≤◌, ◌≡◌, refl, true, none, some, List, [], ◌∷◌, ◌++◌, length,
  replicate, Text, text, text_eq, text_compare, get, insert, remove, values, pos, ok, err,
  is_fingerprint, is_opaque, contains, starts_with, decimal, arith,
}
use sdkwork_sandbox.Pool.Error.{
  claim_expired, claim_conflict, claim_attempt_budget_exhausted, cleanup_uncertain, retry_after_new,
}
use sdkwork_sandbox.Pool.SlotState
use sdkwork_sandbox.Pool.SlotState.{SlotState}
use sdkwork_sandbox.Pool.SlotState.Paths.{is_withdrawn}
use sdkwork_sandbox.Pool.ClaimState
use sdkwork_sandbox.Pool.PoolClass
use sdkwork_sandbox.Pool.Assurance
use sdkwork_sandbox.Pool.Records.{
  PoolSlot, PoolClaim, PreparationRequest, ClaimRequest, slot_new, id_new, validate_opaque,
  validate_fingerprint, claim_request_validated, fencing_next, is_expired_at,
}
use sdkwork_sandbox.Pool.Registry.Defs.{
  Registry, empty, is_active_claim_state, attempts_of, finalize_claim_state, quarantine_slot,
  quarantine_claim, quarantine_locked, claim_id_of,
}
use sdkwork_sandbox.Pool.Registry.Prepare.{
  prepare, prepare_admission, room_checked, warm_evidence_checked,
}
use sdkwork_sandbox.Pool.Registry.Claim.{
  claim, claim_fresh, claim_replay, claim_commit, claim_named, claim_admission, slot_admission,
}
use sdkwork_sandbox.Pool.Registry.Ready.{
  ReadyRequest, mark_ready, ready_write, release_sanitized, ready_admission,
}
use sdkwork_sandbox.Pool.Registry.Release.{
  ReleaseOutcome, ReleaseRequest, release, release_move, sanitize_slot, release_outcome,
}
use sdkwork_sandbox.Pool.Registry.Withdraw.{
  QuarantineRequest, quarantine, RetireRequest, retire, retire_slot,
}
use sdkwork_sandbox.Pool.Registry.Reconcile.{
  SlotReconciliationReport, visit, reconcile_slots, reconcile_candidates, round_at, rounds,
  expired_by_tenant, stuck_slots,
}
use sdkwork_sandbox.Pool.Registry.Targets.{
  CapacityTarget, TargetReconciliationReport, refill, ready_slot_count, reconcile_targets,
}
use sdkwork_sandbox.Pool.Registry.Command.{
  quarantines, releases, retires, Command, prepares, claims, marks_ready, step, run,
}
use sdkwork_sandbox.Pool.Registry.Slots.{Later}
use sdkwork_sandbox.Pool.Registry.Lifetimes.{step_follows_table, withdrawn_forever}
use sdkwork_sandbox.Pool.Registry.Acceptance.{Claimable, Granted, Entered, claim_takes_ready_slot}
use sdkwork_sandbox.Pool.Registry.Replay.{claim_is_idempotent}
use sdkwork_sandbox.Pool.Registry.Release.Repetition.{release_is_idempotent}
use sdkwork_sandbox.Pool.Registry.Exclusion.{one_active_claim}
use sdkwork_sandbox.Pool.Registry.Reconcile.Bounds.{
  reconcile_within_batch, reported-AreWithdrawn, AreWithdrawn,
}
use sdkwork_sandbox.Pool.Registry.Reconcile.Rounds.{rounds_stop_by_themselves}
use sdkwork_sandbox.Pool.Registry.Targets.Budgets.{total_on, refill_within_node_budget}
use sdkwork_sandbox.Pool.Registry.Fencing.{may_change, ready_slot_needs_token}
use sdkwork_sandbox.Pool.Registry.Attempts.{attempts_within_budget, exhausted_for_good}

abbrev hex_a : Text
hex_a = replicate 64 b'a'

abbrev hex_b : Text
hex_b = replicate 64 b'b'

abbrev slot_a : Text
slot_a = text "slot-a"

abbrev preparation : PreparationRequest
preparation = record {
  pool_slot_id = slot_a;
  pool_class = PoolClass.prepared_slot;
  resource_profile_id = text "profile";
  node_reference = text "node-1";
  provider_id = text "provider";
  provider_kind = text "kind";
  isolation_assurance = Assurance.micro_vm;
  artifact_manifest_revision = text "rev";
  capacity_revision = pos 3;
  warm_kvm_evidence_ref = none;
}

abbrev evidence : ReadyRequest
evidence = record {
  pool_slot_id = slot_a;
  expected_fencing_token = 0;
  preparation_evidence_fingerprint = hex_a;
}

abbrev wanted : ClaimRequest
wanted = record {
  tenant_id = text "tenant";
  pool_slot_id = slot_a;
  session_id = text "session";
  runtime_binding_id = text "binding";
  operation_id = text "op";
  request_fingerprint = hex_a;
  admission_grant_id = some (text "grant");
  capacity_reservation_id = some (text "reservation");
  capacity_revision = pos 3;
  expected_fencing_token = 0;
  ttl_seconds = 60;
  resource_profile_id = text "profile";
}

-- The same claim for another operation.
abbrev rival : ClaimRequest
rival = record wanted { operation_id = text "op-2"; runtime_binding_id = text "binding-2" }

abbrev withdrawal : QuarantineRequest
withdrawal = record {
  pool_slot_id = slot_a;
  expected_fencing_token = 0;
  quarantine_reason = cleanup_uncertain;
}

-- A run with every part of the model open: proofs by computation name it.
evaluate : Registry → List (ℕ × Command) → Registry
unfolding run step empty prepare prepare_admission room_checked warm_evidence_checked slot_new
    retry_after_new claim claim_fresh claim_replay claim_commit claim_named claim_admission
    slot_admission claim_request_validated validate_fingerprint validate_opaque id_new fencing_next
    claim_id_of decimal is_fingerprint is_opaque contains starts_with get insert remove text_eq
    text_compare finalize_claim_state quarantine_slot quarantine_claim quarantine_locked mark_ready
    ready_write release_sanitized ready_admission release release_move sanitize_slot release_outcome
    quarantine retire retire_slot reconcile_slots reconcile_candidates visit round_at rounds
    expired_by_tenant stuck_slots is_expired_at refill ready_slot_count reconcile_targets total_on
    SlotState.can_transition_to ClaimState.can_transition_to SlotState.as_str
evaluate = run

open_calls : List (ℕ × Command)
open_calls = (10, prepares preparation) ∷ (11, marks_ready evidence) ∷ []

-- A pool with one ready slot.
offered : Registry
unfolding open_calls
offered = run empty open_calls

-- The pool after its slot was claimed.
taken : Registry
taken = (claim 20 wanted offered).0

-- The pool after its slot was quarantined.
held : Registry
held = (quarantine 20 withdrawal offered).0

slot_in_pool : Registry → PoolSlot
slot_in_pool s = elim (get slot_a s.slots) [
  | some x ↦ x
  | none ↦ record {
    pool_slot_id = slot_a;
    pool_class = PoolClass.prepared_slot;
    resource_profile_id = [];
    node_reference = [];
    provider_id = [];
    provider_kind = [];
    isolation_assurance = Assurance.micro_vm;
    artifact_manifest_revision = [];
    capacity_revision = pos 0;
    slot_state = SlotState.preparing;
    fencing_token = 0;
    version = 0;
    preparation_evidence_fingerprint = none;
    created_at = 0;
    updated_at = 0;
  }
]

offered_slot : get slot_a offered.slots ≡ some (slot_in_pool offered)
unfolding evaluate offered open_calls slot_in_pool
offered_slot = refl

offered_ready : (slot_in_pool offered).slot_state ≡ SlotState.ready
unfolding evaluate offered open_calls slot_in_pool
offered_ready = refl

held_slot : get slot_a held.slots ≡ some (slot_in_pool held)
unfolding evaluate offered held open_calls slot_in_pool
held_slot = refl

held_withdrawn : is_withdrawn (slot_in_pool held).slot_state ≡ true
unfolding evaluate offered held open_calls slot_in_pool
held_withdrawn = refl

step_follows_table_example :
    (y : PoolSlot) × (get slot_a (step offered (20, claims wanted)).slots ≡ some y)
    × Later false (slot_in_pool offered) y
step_follows_table_example =
    step_follows_table offered 20 (claims wanted) slot_a (slot_in_pool offered) offered_slot

withdrawn_forever_example :
    (y : PoolSlot) × (get slot_a (run held ((30, marks_ready evidence) ∷ [])).slots ≡ some y)
    × (is_withdrawn y.slot_state ≡ true)
withdrawn_forever_example =
    withdrawn_forever ((30, marks_ready evidence) ∷ []) held slot_a (slot_in_pool held) held_slot
      held_withdrawn

first_claim : PoolClaim
first_claim = record {
  tenant_id = text "tenant";
  pool_claim_id = text "sandbox_pool_claim_1";
  pool_slot_id = slot_a;
  admission_grant_id = text "grant";
  capacity_reservation_id = text "reservation";
  capacity_revision = pos 3;
  session_id = text "session";
  runtime_binding_id = text "binding";
  operation_id = text "op";
  request_fingerprint = hex_a;
  fencing_token = 1;
  claim_state = ClaimState.bound;
  version = 0;
  claimed_at = 20;
  expires_at = 80;
}

claim_answers : (claim 20 wanted offered).1 ≡ ok first_claim
unfolding evaluate offered open_calls first_claim
claim_answers = refl

offered_new : get wanted.operation_id offered.claims_by_operation ≡ none
unfolding evaluate offered open_calls
offered_new = refl

claim_takes_ready_slot_example :
    (x : PoolSlot) × Claimable wanted offered x
    × Granted wanted offered first_claim
    × Entered wanted first_claim (claim 20 wanted offered).0
claim_takes_ready_slot_example =
    claim_takes_ready_slot 20 wanted offered first_claim offered_new claim_answers

claim_is_idempotent_example :
    claim 25 wanted ((claim 20 wanted offered).0) ≡ ((claim 20 wanted offered).0, ok first_claim)
claim_is_idempotent_example = claim_is_idempotent 20 25 wanted offered first_claim claim_answers

sweep : SlotReconciliationReport
sweep = record { examined = 1; quarantined = (slot_a, claim_expired) ∷ [] }

sweep_answers : (reconcile_slots 200 10 taken).1 ≡ ok sweep
unfolding evaluate offered taken open_calls sweep
sweep_answers = refl

reconcile_within_batch_example :
    (10 ≤ 100) × (sweep.examined ≤ 10) × (length sweep.quarantined ≤ sweep.examined)
reconcile_within_batch_example = reconcile_within_batch 200 10 taken sweep sweep_answers

reported-AreWithdrawn_example : AreWithdrawn sweep.quarantined ((reconcile_slots 200 10 taken).0)
reported-AreWithdrawn_example = reported-AreWithdrawn 200 10 taken sweep sweep_answers

rounds_stop_by_themselves_example :
    rounds
        (suc (length taken.claims + 5))
        0
        (values (expired_by_tenant 200 (values taken.claims) []))
      ++ stuck_slots 200 (values taken.slots)
    ≡ reconcile_candidates 200 taken
rounds_stop_by_themselves_example = rounds_stop_by_themselves 200 5 taken

abbrev target : CapacityTarget
target = record {
  resource_profile_id = text "profile";
  node_reference = text "node-1";
  ready_target = 20;
}

refills : TargetReconciliationReport
refills = record {
  refill_actions =
      record {
        resource_profile_id = text "profile";
        node_reference = text "node-1";
        refill_count = 16;
      }
      ∷ [];
  examined_profiles = 2;
}

refills_answers : reconcile_targets (target ∷ target ∷ []) offered ≡ ok refills
unfolding evaluate offered open_calls refills
refills_answers = refl

refill_within_node_budget_example :
    (refills.examined_profiles ≤ 100) × (total_on (text "node-1") refills.refill_actions ≤ 16)
refill_within_node_budget_example =
    refill_within_node_budget (target ∷ target ∷ []) offered refills (text "node-1") refills_answers

abbrev retirement : RetireRequest
retirement = record { pool_slot_id = slot_a; expected_fencing_token = 7 }

taken_claim : get (text "sandbox_pool_claim_1") taken.claims ≡ some first_claim
unfolding evaluate offered taken open_calls first_claim
taken_claim = refl

wanted_valid : claim_request_validated rival ≡ ok tt
unfolding evaluate
wanted_valid = refl

-- The pool after eight refused claims of one operation.
tired : Registry
tired = run taken (replicate 8 (30, claims rival))

tired_many : 8 ≤ attempts_of (text "op-2") tired
unfolding evaluate offered taken open_calls tired
tired_many = omega arith

abbrev later_calls : List (ℕ × Command)
later_calls = (31, claims rival) ∷ (32, marks_ready evidence) ∷ []

exhausted_for_good_example :
    claim 40 rival (run tired later_calls)
    ≡ (run tired later_calls, err (claim_conflict claim_attempt_budget_exhausted))
exhausted_for_good_example = exhausted_for_good 40 rival tired later_calls wanted_valid tired_many

claim_calls : List (ℕ × Command)
claim_calls =
    (10, prepares preparation)
    ∷ (11, marks_ready evidence)
    ∷ (20, claims wanted)
    ∷ (21, claims rival)
    ∷ []

claimed_there : get (text "sandbox_pool_claim_1") (run empty claim_calls).claims ≡ some first_claim
unfolding evaluate claim_calls first_claim
claimed_there = refl

claimed_active : is_active_claim_state first_claim.claim_state ≡ true
unfolding first_claim
claimed_active = refl

one_active_claim_example : text "sandbox_pool_claim_1" ≡ text "sandbox_pool_claim_1"
one_active_claim_example =
    one_active_claim claim_calls (text "sandbox_pool_claim_1") (text "sandbox_pool_claim_1")
      first_claim first_claim claimed_there claimed_there claimed_active claimed_active (inl refl)

abbrev release_request : ReleaseRequest
release_request = record { pool_claim_id = text "sandbox_pool_claim_1"; expected_fencing_token = 1 }

freed : ReleaseOutcome
freed = record {
  pool_claim = record first_claim { claim_state = ClaimState.releasing; version = 1 };
  pool_slot = record (slot_in_pool taken) {
    slot_state = SlotState.sanitizing;
    version = 3;
    updated_at = 40;
  };
}

release_answers : (release 40 release_request taken).1 ≡ ok freed
unfolding evaluate offered taken open_calls first_claim slot_in_pool freed
release_answers = refl

claim_named_itself : first_claim.pool_claim_id ≡ text "sandbox_pool_claim_1"
unfolding first_claim
claim_named_itself = refl

release_is_idempotent_example :
    release 50 release_request ((release 40 release_request taken).0)
    ≡ ((release 40 release_request taken).0, ok freed)
release_is_idempotent_example =
    release_is_idempotent 40 50 release_request taken first_claim freed taken_claim
      claim_named_itself release_answers

attempts_within_budget_example : attempts_of (text "op-2") (run empty claim_calls) ≤ 8
attempts_within_budget_example = attempts_within_budget claim_calls (text "op-2")

abbrev stale_calls : List (ℕ × Command)
stale_calls =
    (20, retires (record { pool_slot_id = slot_a; expected_fencing_token = 7 }))
    ∷ (21, quarantines (record withdrawal { expected_fencing_token = 7 }))
    ∷ (22, claims (record wanted { expected_fencing_token = 7 }))
    ∷ (
      23,
      releases (record { pool_claim_id = text "sandbox_pool_claim_1"; expected_fencing_token = 1 }),
    )
    ∷ []

stale_calls_may_not :
    All (λ c. may_change slot_a (slot_in_pool offered).fencing_token c.1 ≡ false) stale_calls
unfolding evaluate offered open_calls slot_in_pool
stale_calls_may_not = (refl, (refl, (refl, (refl, tt))))

ready_slot_needs_token_example :
    get slot_a (run offered stale_calls).slots ≡ some (slot_in_pool offered)
ready_slot_needs_token_example =
    ready_slot_needs_token offered stale_calls slot_a (slot_in_pool offered) offered_slot
      offered_ready stale_calls_may_not
