-- ===== src/Transaction/Registry/Finality.antt =====
-- The first terminal outcome of a transaction is its last.
use sdkwork_sandbox.Base.{
  ℕ, ◌≡◌, refl, inl, inr, some, Text, ok, arith, Result-cases, Option-cases, List, [], ◌∷◌, ◌∙◌,
  get, text_eq_iff, get-insert_other, ℤ,
}
use sdkwork_sandbox.Transaction.Request.{TransactionRequest}
use sdkwork_sandbox.Transaction.Registry.Record.{
  TransactionRecord, Registry, TerminalOutcome, released, quarantined, update_record, fenced_record,
}
use sdkwork_sandbox.Transaction.Registry.Invariant.{Inv, Recorded, final_state}
use sdkwork_sandbox.Transaction.Error.{WorkspaceRuntimeResult}
use sdkwork_sandbox.Transaction.Registry.Begin.{begin}
use sdkwork_sandbox.Transaction.Registry.Advance.{advance_stage}
use sdkwork_sandbox.Transaction.Registry.Candidate.{
  attach_checkpoint_candidate, record_checkpoint_handoff, promote_checkpoint,
}
use sdkwork_sandbox.Transaction.Registry.Release.{release}
use sdkwork_sandbox.Transaction.Registry.Failure.{enter_compensation, quarantine}
use sdkwork_sandbox.Transaction.Registry.Command.{
  Command, begins, advances, attaches, hands_off, promotes, releases, compensates, quarantines,
  step, run,
}
use sdkwork_sandbox.Transaction.Registry.Preservation.History.{
  run-Inv, release_cases, quarantine_cases, begin_cases,
}

update_record_outcomes {ℓ} :
    {A : Type ℓ} (f : TransactionRecord → TransactionRecord × WorkspaceRuntimeResult A)
    (s : Registry) (id : Text) (expected : ℤ)
    → (update_record f id expected s).0.outcomes_by_operation ≡ s.outcomes_by_operation
unfolding update_record
update_record_outcomes f s id expected = elim (Result-cases (fenced_record id expected s)) [
  | inr (e, h) ↦ rw (h, update_record) refl
  | inl (t, h) ↦ rw (h, update_record) refl
]

promote_checkpoint_outcomes :
    (s : Registry) (id expected : Text)
    → (promote_checkpoint id expected s).0.outcomes_by_operation ≡ s.outcomes_by_operation
unfolding promote_checkpoint
promote_checkpoint_outcomes s id expected = elim (Option-cases (get id s.transactions)) [
  | inl h ↦ rw (h, promote_checkpoint) refl
  | inr (t, h) ↦ rw (h, promote_checkpoint) refl
]

-- A recorded outcome is not written again.
begin_outcomes :
    (now : ℕ) (r : TransactionRequest) (s : Registry)
    → (begin now r s).0.outcomes_by_operation ≡ s.outcomes_by_operation
begin_outcomes now r s = elim (begin_cases now r s) [
  | inl same ↦ rw same refl
  | inr (token, _, moved) ↦ rw moved refl
]

release_outcomes :
    (s : Registry) (i j : Text) (expected : ℤ) (o : TerminalOutcome)
    → get i s.outcomes_by_operation ≡ some o
    → get i (release j expected s).0.outcomes_by_operation ≡ some o
unfolding release
release_outcomes s i j expected o h = elim (Option-cases (get j s.outcomes_by_operation)) [
  | inr (q, e) ↦ rw (e, release) h
  | inl e ↦ elim (release_cases s j expected) [
    | inl same ↦ rw same h
    | inr (t, _, _, moved) ↦ rw moved (
        get-insert_other i j released s.outcomes_by_operation (ground (arith, text_eq_iff j i)) ∙ h)
  ]
]

quarantine_outcomes :
    (s : Registry) (i j : Text) (expected : ℤ) (o : TerminalOutcome)
    → get i s.outcomes_by_operation ≡ some o
    → get i (quarantine j expected s).0.outcomes_by_operation ≡ some o
unfolding quarantine
quarantine_outcomes s i j expected o h = elim (Option-cases (get j s.outcomes_by_operation)) [
  | inr (q, e) ↦ rw (e, quarantine) h
  | inl e ↦ elim (quarantine_cases s j expected) [
    | inl same ↦ rw same h
    | inr (t, _, _, moved) ↦ rw moved (
        get-insert_other i j quarantined s.outcomes_by_operation (ground (arith, text_eq_iff j i))
        ∙ h)
  ]
]

step_outcomes :
    (s : Registry) (c : Command) (id : Text) (o : TerminalOutcome)
    → get id s.outcomes_by_operation ≡ some o
    → get id (step s c).outcomes_by_operation ≡ some o
unfolding step advance_stage attach_checkpoint_candidate record_checkpoint_handoff
    enter_compensation
step_outcomes s (begins now r) id o h = rw (begin_outcomes now r s) h
step_outcomes s (advances j stage e token) id o h = rw (update_record_outcomes _ s j token) h
step_outcomes s (attaches j c token) id o h = rw (update_record_outcomes _ s j token) h
step_outcomes s (hands_off j token) id o h = rw (update_record_outcomes _ s j token) h
step_outcomes s (promotes j expected) id o h = rw (promote_checkpoint_outcomes s j expected) h
step_outcomes s (releases j token) id o h = release_outcomes s id j token o h
step_outcomes s (compensates j token) id o h = rw (update_record_outcomes _ s j token) h
step_outcomes s (quarantines j token) id o h = quarantine_outcomes s id j token o h

run_outcomes :
    (s : Registry) (cs : List Command) (id : Text) (o : TerminalOutcome)
    → get id s.outcomes_by_operation ≡ some o
    → get id (run s cs).outcomes_by_operation ≡ some o
unfolding run
run_outcomes s [] id o h = h
run_outcomes s (c ∷ cs) id o h = run_outcomes (step s c) cs id o (step_outcomes s c id o h)

final_record :
    (s : Registry) (id : Text) (o : TerminalOutcome) (t : TransactionRecord)
    → Inv s
    → get id s.outcomes_by_operation ≡ some o
    → Recorded s id t
    → t.state ≡ final_state o
final_record s id o t v h there = let (w, at, final) = v.outcome_final id o h in ground arith

-- Once the registry has recorded an outcome of a transaction, then after any further calls the
-- outcome is still recorded, the transaction is in the state of that outcome, and both a release
-- and a quarantine of it, with whatever token, report the outcome and change nothing.
pub outcome_is_final :
    (s : Registry) (cs : List Command) (id : Text) (o : TerminalOutcome) (token : ℤ)
    → Inv s
    → get id s.outcomes_by_operation ≡ some o
    → (get id (run s cs).outcomes_by_operation ≡ some o)
      × ((t : TransactionRecord) → Recorded (run s cs) id t → t.state ≡ final_state o)
      × (release id token (run s cs) ≡ (run s cs, ok o))
      × (quarantine id token (run s cs) ≡ (run s cs, ok o))
unfolding release quarantine
outcome_is_final s cs id o token v h =
    let later = run_outcomes s cs id o h in
    (
      later,
      λ t there. final_record (run s cs) id o t (run-Inv s cs v) later there,
      rw (later, release) refl,
      rw (later, quarantine) refl,
    )
