-- ===== src/Transaction/Registry/Acceptance.antt =====
-- Which calls succeed: the next stage in order, and the release of a finished transaction.
use sdkwork_sandbox.Base.{
  ◌+◌, ◌≡◌, refl, ◌⊎◌, inl, inr, true, false, none, Text, ◌==◌, ok, err, is_ok, arith, Result-cases,
  Option-cases, ◌&&◌, get, get-insert_self, eqb_ℤ_iff, ◌↔◌, is_fingerprint,
}
use sdkwork_sandbox.Transaction.State
use sdkwork_sandbox.Transaction.State.{TransactionState, can_transition_to}
use sdkwork_sandbox.Transaction.Stage.{OrchestrationStage, StageEvidence}
use sdkwork_sandbox.Transaction.Registry.Record.{
  TransactionRecord, Registry, TerminalOutcome, released, is_closed, refuses_stages, update_record,
  fenced_record,
}
use sdkwork_sandbox.Transaction.Registry.Invariant.{Finished, Inv, Recorded, final_state, state_at}
use sdkwork_sandbox.Transaction.Error.{WorkspaceRuntimeError}
use sdkwork_sandbox.Transaction.Stage.{ledger_record, position, evidence_fingerprint}
use sdkwork_sandbox.Transaction.Stage.Order.{ledger_record_accepts, ledger_record_inversion}
use sdkwork_sandbox.Transaction.Registry.Records.{advanced, advance_record_eq}
use sdkwork_sandbox.Transaction.Registry.Advance.{advance_stage}
use sdkwork_sandbox.Transaction.Registry.Release.{release, release_admission, close}
use sdkwork_sandbox.Transaction.Registry.Release.Conditions.{
  release_admission-Finished, release_admission_legal, release_admission_complete,
}

fenced_own :
    (s : Registry) (id : Text) (t : TransactionRecord)
    → Recorded s id t
    → fenced_record id t.fencing_token s ≡ ok t
unfolding fenced_record
fenced_own s id t there = ground (arith, eqb_ℤ_iff t.fencing_token t.fencing_token)

-- With the transaction's token, and while it is neither over nor in compensation, a stage is
-- accepted exactly when its evidence is a fingerprint and it is the one after the highest completed
-- stage. If accepted, the transaction stands in the state of that stage with it completed; if not,
-- the transaction is unchanged.
pub advance_in_order :
    (s : Registry) (id : Text) (t : TransactionRecord) (stage : OrchestrationStage)
    (e : StageEvidence)
    → Inv s
    → Recorded s id t
    → refuses_stages t.state ≡ false
    → let (s', r) = advance_stage id stage e t.fencing_token s in
      (is_ok r ≡ (
        is_fingerprint (evidence_fingerprint e)
        && position stage == t.ledger.highest_completed_position + 1))
      × (is_ok r ≡ true
          → (u : TransactionRecord) × Recorded s' id u
            × (u.state ≡ state_at (position stage))
            × (u.ledger.highest_completed_position ≡ position stage))
      × (is_ok r ≡ false → Recorded s' id t)
unfolding advance_stage update_record
advance_in_order s id t stage e v there going =
    let own = fenced_own s id t there in
    let rv = v.records id t there in
    let accepts = ledger_record_accepts t.ledger stage e rv.ordered in
    let move = advance_record_eq stage e t rv going in
    elim (Result-cases (ledger_record t.ledger stage e)) [
      | inr (x, h) ↦
          rw (own, update_record)
            (rw (move, h)
              (rw h at accepts, λ p. absurd (cc), λ _. get-insert_self id t s.transactions))
      | inl (l, h) ↦
          rw (own, update_record)
            (rw (move, h)
              (
                rw h at accepts,
                λ _. (
                  advanced stage l t,
                  get-insert_self id (advanced stage l t) s.transactions,
                  refl,
                  (ledger_record_inversion t.ledger l stage e h).1,
                ),
                λ p. absurd (cc),
              ))
    ]

no_outcome :
    (s : Registry) (id : Text) (t : TransactionRecord)
    → Inv s
    → Recorded s id t
    → is_closed t.state ≡ false
    → get id s.outcomes_by_operation ≡ none
no_outcome s id t v there going = elim (Option-cases (get id s.outcomes_by_operation)) [
  | inl e ↦ e
  | inr (o, e) ↦ let (w, at, final) = v.outcome_final id o e in absurd (over o w at final)
]
  where
    over :
        (o : TerminalOutcome) (w : TransactionRecord)
        → Recorded s id w
        → w.state ≡ final_state o
        → ⊥
    over o w at final = ground arith

release_open :
    (s : Registry) (id : Text) (t : TransactionRecord)
    → Inv s
    → Recorded s id t
    → is_closed t.state ≡ false
    → release id t.fencing_token s ≡ elim (release_admission t) [
      | err e ↦ (s, err e)
      | ok _ ↦ (close id State.released released t s, ok released)
    ]
unfolding release
release_open s id t v there going =
    rw (no_outcome s id t v there going, fenced_own s id t there, release) refl

-- With the transaction's token, the release of a transaction that is not over succeeds exactly when
-- it is finished (every stage has evidence, and a read-write transaction is durable) and stands in
-- checkpointing or in compensation. A release that is refused changes nothing.
pub release_accepts :
    (s : Registry) (id : Text) (t : TransactionRecord)
    → Inv s
    → Recorded s id t
    → is_closed t.state ≡ false
    → (((release id t.fencing_token s).1 ≡ ok released)
        ↔ (Finished t × ((t.state ≡ State.checkpointing) ⊎ (t.state ≡ State.compensating))))
      × (is_ok (release id t.fencing_token s).1 ≡ false → (release id t.fencing_token s).0 ≡ s)
release_accepts s id t v there going =
    let step = release_open s id t v there going in
    elim (Result-cases (release_admission t)) [
      | inl (a, h) ↦
          rw (step, h)
            (
              (
                λ _. (
                  release_admission-Finished t (v.records id t there) h,
                  from_table t.state (release_admission_legal t h),
                ),
                λ _. refl,
              ),
              λ p. absurd (cc),
            )
      | inr (x, h) ↦
          rw (step, h)
            (
              (
                λ p. absurd (cc),
                λ (f, place).
                    absurd (refused x h (release_admission_complete t f (to_table t.state place))),
              ),
              λ _. refl,
            )
    ]
  where
    from_table :
        (q : TransactionState)
        → can_transition_to q State.released ≡ true
        → (q ≡ State.checkpointing) ⊎ (q ≡ State.compensating)
    from_table q h = unfold can_transition_to in ground arith

    to_table :
        (q : TransactionState)
        → (q ≡ State.checkpointing) ⊎ (q ≡ State.compensating)
        → can_transition_to q State.released ≡ true
    to_table q h = unfold can_transition_to in ground arith

    refused :
        (x : WorkspaceRuntimeError) → release_admission t ≡ err x → release_admission t ≡ ok tt → ⊥
    refused x h k = cc
