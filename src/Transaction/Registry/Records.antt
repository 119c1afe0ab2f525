-- ===== src/Transaction/Registry/Records.antt =====
-- Every method that works on one record keeps the record's invariant.
pub mod Checkpoints
use sdkwork_sandbox.Base.{
  ◌-◌, ◌≡◌, refl, ◌⊎◌, inl, inr, true, false, none, some, Text, ok, err, arith, sym, Result-cases,
  Bool-cases, Option-cases, ◌||◌, ap,
}
use sdkwork_sandbox.Transaction.State
use sdkwork_sandbox.Transaction.State.{TransactionState, can_transition_to}
use sdkwork_sandbox.Transaction.Stage
use sdkwork_sandbox.Transaction.Stage.{
  OrchestrationStage, StageEvidence, OrchestrationLedger, position, ledger_record, is_completed,
  completed_ref, ledger_new, evidence_fingerprint, slot,
}
use sdkwork_sandbox.Transaction.Stage.Order.{ledger_record-LedgerInv, ledger_record_inversion}
use sdkwork_sandbox.Transaction.Checkpoint.{CheckpointCandidate, promote}
use sdkwork_sandbox.Transaction.Checkpoint.Promotion.{promote_cas}
use sdkwork_sandbox.Transaction.Registry.Record.{
  TransactionRecord, bump, is_read_write, is_closed, refuses_stages,
}
use sdkwork_sandbox.Transaction.Registry.Advance.{advance_record, state_for_stage}
use sdkwork_sandbox.Transaction.Registry.Candidate.{attach_record, handoff_record, promote_record}
use sdkwork_sandbox.Transaction.Registry.Failure.{compensate_record}
use sdkwork_sandbox.Transaction.Registry.Invariant.{RecordInv, state_at}

-- What a method on one record leaves alone: the request and the token, and the state of a
-- transaction that is over, which it cannot end either.
pub record Keeps (t u : TransactionRecord) : Type 0 where
  pub request : u.request ≡ t.request
  pub token : u.fencing_token ≡ t.fencing_token
  pub over : (u.state ≡ t.state) ⊎ ((is_closed t.state ≡ false) × (is_closed u.state ≡ false))

pub Keeps-self : (t : TransactionRecord) → Keeps t t
Keeps-self t = record { request = refl; token = refl; over = inl refl }

-- The stage after the highest completed one moves the state to the one of its own position.
pub state_for_stage-state_at :
    (s : OrchestrationStage) → state_for_stage (state_at (position s - 1)) s ≡ state_at (position s)
unfolding state_for_stage
state_for_stage-state_at Stage.workspace_authorization_verified = refl
state_for_stage-state_at _ = refl

-- Each such move is the identity or in the table.
pub state_at_step :
    (s : OrchestrationStage)
    → (State.state_eq (state_at (position s)) (state_at (position s - 1))
        || can_transition_to (state_at (position s - 1)) (state_at (position s)))
      ≡ true
unfolding can_transition_to
state_at_step Stage.workspace_authorization_verified = refl
state_at_step _ = refl

open_state : (s : OrchestrationStage) → refuses_stages (state_at (position s)) ≡ false
open_state Stage.workspace_authorization_verified = refl
open_state _ = refl

-- The record after an accepted stage.
abbrev pub advanced :
    OrchestrationStage → OrchestrationLedger → TransactionRecord → TransactionRecord
advanced s l t = record t { state = state_at (position s); ledger = l; version = bump t.version }

-- While a transaction is neither in compensation nor over, whether a stage is accepted is decided
-- by the ledger alone: the state table never refuses it, so no call leaves a ledger written
-- without the move.
pub advance_record_eq :
    (s : OrchestrationStage) (e : StageEvidence) (t : TransactionRecord)
    → RecordInv t
    → refuses_stages t.state ≡ false
    → advance_record s e t ≡ elim (ledger_record t.ledger s e) [
      | err x ↦ (t, err x)
      | ok l ↦ (advanced s l t, ok (state_at (position s)))
    ]
unfolding advance_record
advance_record_eq s e t v going = elim (Result-cases (ledger_record t.ledger s e)) [
  | inr (x, h) ↦ rw (h, going, advance_record) refl
  | inl (l, h) ↦ accepted l h
]
  where
    accepted :
        (l : OrchestrationLedger)
        → ledger_record t.ledger s e ≡ ok l
        → advance_record s e t ≡ elim (ledger_record t.ledger s e) [
          | err x ↦ (t, err x)
          | ok l' ↦ (advanced s l' t, ok (state_at (position s)))
        ]
    accepted l h = ground (
      arith,
      v.tracked going,
      ledger_record_inversion t.ledger l s e h,
      state_for_stage-state_at s,
      state_at_step s,
    )

not_released : (s : OrchestrationStage) → state_at (position s) ≡ State.released → ⊥
not_released s h = cc (open_state s)

advanced-RecordInv :
    (s : OrchestrationStage) (e : StageEvidence) (l : OrchestrationLedger) (t : TransactionRecord)
    → RecordInv t
    → ledger_record t.ledger s e ≡ ok l
    → RecordInv (advanced s l t)
advanced-RecordInv s e l t v h = record {
  ordered = ledger_record-LedgerInv t.ledger l s e v.ordered h;
  tracked = λ _. ap state_at (sym (ledger_record_inversion t.ledger l s e h).1);
  handoff_sealed = v.handoff_sealed;
  finished = λ r. absurd (not_released s r);
}

-- A method on one record keeps its invariant and what `Keeps` says.
abbrev pub Preserves : TransactionRecord → TransactionRecord → Type 0
Preserves t u = RecordInv u × Keeps t u

pub stays : (t : TransactionRecord) → RecordInv t → Preserves t t
stays t v = (v, Keeps-self t)

pub closed_refuses : (s : TransactionState) → refuses_stages s ≡ false → is_closed s ≡ false
closed_refuses s h = ground arith

advance_cases :
    (s : OrchestrationStage) (e : StageEvidence) (t : TransactionRecord)
    → RecordInv t
    → ((advance_record s e t).0 ≡ t)
      ⊎ ((l : OrchestrationLedger) × (refuses_stages t.state ≡ false)
          × (ledger_record t.ledger s e ≡ ok l)
          × ((advance_record s e t).0 ≡ advanced s l t))
advance_cases s e t v = elim (Bool-cases (refuses_stages t.state)) [
  | inl shut ↦ inl (unfold advance_record in ground arith)
  | inr going ↦ elim (Result-cases (ledger_record t.ledger s e)) [
    | inr (x, h) ↦ inl (ground (arith, advance_record_eq s e t v going))
    | inl (l, h) ↦ inr (l, going, h, ground (arith, advance_record_eq s e t v going))
  ]
]

pub advance_record-Preserves :
    (s : OrchestrationStage) (e : StageEvidence) (t : TransactionRecord)
    → RecordInv t
    → Preserves t (advance_record s e t).0
advance_record-Preserves s e t v = elim (advance_cases s e t v) [
  | inl same ↦ rw same (stays t v)
  | inr (l, going, h, moved) ↦ rw moved (
    advanced-RecordInv s e l t v h,
    record {
      request = refl;
      token = refl;
      over = inr (closed_refuses t.state going, closed_refuses _ (open_state s));
    },
  )
]
