-- ===== src/Session/Examples.antt =====
-- A concrete session: tests of the model, and the theorems at inputs that meet their hypotheses.
use sdkwork_sandbox.Base.{
  ℕ, zero, suc, ◌+◌, ◌-◌, ◌≤◌, ◌≡◌, ◌≢◌, ◌↔◌, refl, true, some, List, [], ◌∷◌, length, Text, text,
  text_eq, text_compare, ok, err, arith, i64_max, decimal,
}
use sdkwork_sandbox.Provider.Capability.{filesystem, git}
use sdkwork_sandbox.Provider.Assurance.{container}
use sdkwork_sandbox.Session.Kinds.{
  OperationKind, OperationOutcome, can_transition, create, start, stop, destroy, in_progress,
  succeeded, cleanup, failed_with, provider, destroying, failed, running,
}
use sdkwork_sandbox.Session.Ledger.{Operation, find_operation, last_operation, drop}
use sdkwork_sandbox.Session.Error.{
  invariant_violation, ledger_at_bound, idempotency_conflict, invalid_stored_data,
}
use sdkwork_sandbox.Session.Model.{
  Session, RuntimeBinding, session_create, begin_operation, begun, fail_operation, transition,
  next_version, mark_operations_persisted, moved, operations_to_persist, replay_operation,
  max_session_operations, max_session_persisted_operations,
}
use sdkwork_sandbox.Session.Model.Delta.{write_from, save_writes_ledger}
use sdkwork_sandbox.Session.Model.Room.{begin_within_bound, grace_entry_is_spent}
use sdkwork_sandbox.Session.Persisted.Lifecycle.{valid_iff_lived}
use sdkwork_sandbox.Session.Persisted.Lives.{HasLived}
use sdkwork_sandbox.Session.Persisted.{
  replay_ledger, replay_from_create, validate_persisted_invariants,
}

abbrev op : Text → OperationKind → OperationOutcome → Operation
op id kind outcome = record {
  operation_id = id;
  operation_kind = kind;
  operation_outcome = outcome;
}

abbrev new : Session
unfolding session_create
new =
    session_create (text "tenant") (text "workspace") (text "session") (text "op-1")
      (filesystem ∷ git ∷ []) container

abbrev binding : RuntimeBinding
binding = record {
  sandbox_id = text "sandbox";
  runtime_binding_id = text "binding";
  provider_id = text "local";
  allocation_reference = some (text "allocation");
}

abbrev run_ops : List Operation
run_ops = op (text "op-1") create succeeded ∷ op (text "op-2") start succeeded ∷ []

-- A session that runs, and that the store has as it is.
abbrev run_session : Session
run_session = record new {
  session_state = running;
  runtime_binding = some binding;
  operations = run_ops;
  persisted_operation_count = 2;
  persisted_last_operation_outcome = some succeeded;
  version = 3;
}

new_is_valid : validate_persisted_invariants new ≡ ok tt
unfolding new validate_persisted_invariants replay_from_create replay_ledger
new_is_valid = refl

run_is_valid : validate_persisted_invariants run_session ≡ ok tt
unfolding new validate_persisted_invariants replay_from_create replay_ledger text_eq text_compare
run_is_valid = refl

-- A running session without a start in its ledger is refused.
unstarted_is_invalid :
    validate_persisted_invariants (record run_session { operations = new.operations })
    ≡ err invalid_stored_data
unfolding new validate_persisted_invariants replay_from_create replay_ledger
unstarted_is_invalid = refl

-- The window of a session that stops: the stop alone.
stopping_writes_one :
    operations_to_persist (begun (text "op-3") stop run_session)
    ≡ op (text "op-3") stop in_progress ∷ []
unfolding new operations_to_persist last_operation drop
stopping_writes_one = refl

replayed_start : replay_operation run_session (text "op-2") start ≡ ok (some succeeded)
unfolding new replay_operation find_operation text_eq text_compare
replayed_start = refl

replayed_conflict :
    replay_operation run_session (text "op-2") stop ≡ err (idempotency_conflict (text "op-2"))
unfolding new replay_operation find_operation text_eq text_compare
replayed_conflict = refl

valid_iff_lived_example :
    (validate_persisted_invariants run_session ≡ ok tt)
    ↔ ((run_session.version ≤ i64_max) × HasLived run_session)
valid_iff_lived_example = valid_iff_lived run_session

save_writes_ledger_example :
    write_from
      (length (begun (text "op-3") stop run_session).operations
        - length (operations_to_persist (begun (text "op-3") stop run_session)))
      (operations_to_persist (begun (text "op-3") stop run_session))
      run_ops
    ≡ (begun (text "op-3") stop run_session).operations
unfolding new last_operation
save_writes_ledger_example =
    save_writes_ledger (begun (text "op-3") stop run_session) run_ops (refl, refl) (refl, refl)

begin_within_bound_example :
    (length (begun (text "op-3") stop run_session).operations ≡ length run_session.operations + 1)
    × (length (begun (text "op-3") stop run_session).operations ≤ max_session_persisted_operations)
    × (stop ≢ destroy
        → length (begun (text "op-3") stop run_session).operations ≤ max_session_operations)
unfolding new begin_operation
begin_within_bound_example =
    begin_within_bound (text "op-3") stop run_session (begun (text "op-3") stop run_session) refl

-- A create, and starts that have all failed.
failed_starts : ℕ → List Operation
failed_starts zero = []
failed_starts (suc n) = op (decimal n) start (failed_with provider) ∷ failed_starts n

length-failed_starts : (n : ℕ) → length (failed_starts n) ≡ n
unfolding failed_starts
length-failed_starts zero = omega arith
length-failed_starts (suc n) = omega (arith, length-failed_starts n)

-- A session whose 9,999 starts have failed: a ledger of 10,000 entries.
abbrev full_session : Session
unfolding new
full_session = record new {
  session_state = failed;
  last_failure = some provider;
  runtime_binding = some binding;
  operations = op (text "op-1") create succeeded ∷ failed_starts 9999;
  version = 20000;
}

full_length : length full_session.operations ≡ 10000
unfolding new
full_length = omega (arith, length-failed_starts 9999)

abbrev full_begun : Session
full_begun = begun (text "op-x") destroy full_session

full_begins : begin_operation (text "op-x") destroy full_session ≡ ok full_begun
unfolding new begin_operation
full_begins = ground (arith, full_length)

abbrev full_waiting : Session
full_waiting = record (moved destroying full_begun) { version = 20001 }

abbrev full_ended : Session
unfolding fail_operation mark_operations_persisted
full_ended =
    record (fail_operation (text "op-x") cleanup
      (moved failed (mark_operations_persisted full_waiting))) { version = 20002 }

grace_entry_is_spent_example :
    (begin_operation (text "op-y") destroy (mark_operations_persisted full_waiting)
      ≡ err (invariant_violation ledger_at_bound))
    × (begin_operation (text "op-y") destroy (mark_operations_persisted full_ended)
        ≡ err (invariant_violation ledger_at_bound))
    × (can_transition (mark_operations_persisted full_ended).session_state destroying ≡ true)
unfolding new transition can_transition next_version fail_operation mark_operations_persisted
grace_entry_is_spent_example =
    grace_entry_is_spent (text "op-x") (text "op-y") destroy full_session full_begun
      (moved destroying full_begun) full_waiting
      (moved failed (mark_operations_persisted full_waiting)) full_ended
      (omega (arith, full_length)) full_begins refl refl refl refl
