-- ===== src/Transaction/Registry/Records/Checkpoints.antt =====
-- The methods on the checkpoint candidate, and the entry into compensation, keep the invariant of the
-- record.
use sdkwork_sandbox.Base.{
  ◌≡◌, refl, ◌⊎◌, inl, inr, true, false, none, some, Text, arith, Bool-cases, Option-cases,
}
use sdkwork_sandbox.Transaction.State
use sdkwork_sandbox.Transaction.State.{TransactionState, can_transition_to}
use sdkwork_sandbox.Transaction.Checkpoint.{CheckpointCandidate, promote}
use sdkwork_sandbox.Transaction.Checkpoint.Promotion.{promote_cas}
use sdkwork_sandbox.Transaction.Registry.Record.{TransactionRecord, bump, is_read_write, is_closed}
use sdkwork_sandbox.Transaction.Registry.Candidate.{attach_record, handoff_record, promote_record}
use sdkwork_sandbox.Transaction.Registry.Failure.{compensate_record}
use sdkwork_sandbox.Transaction.Registry.Invariant.{RecordInv}
use sdkwork_sandbox.Transaction.Registry.Records.{Preserves, stays}

-- A candidate is attached only where there was none, so no seal is lost.
attached-RecordInv :
    (c : CheckpointCandidate) (t : TransactionRecord)
    → RecordInv t
    → t.candidate ≡ none
    → RecordInv (record t { candidate = some c })
attached-RecordInv c t v e = record {
  ordered = v.ordered;
  tracked = v.tracked;
  handoff_sealed = λ h m. let (d, p, _) = v.handoff_sealed h m in absurd (cc);
  finished = λ r. record {
    every_stage = (v.finished r).every_stage;
    durable = λ m. let (d, p, _) = ((v.finished r).durable m).sealed in absurd (cc);
  };
}

attach_cases :
    (c : CheckpointCandidate) (t : TransactionRecord)
    → ((attach_record c t).0 ≡ t)
      ⊎ ((t.candidate ≡ none) × ((attach_record c t).0 ≡ record t { candidate = some c }))
unfolding attach_record
attach_cases c t = ground arith

pub attach_record-Preserves :
    (c : CheckpointCandidate) (t : TransactionRecord)
    → RecordInv t
    → Preserves t (attach_record c t).0
attach_record-Preserves c t v = elim (attach_cases c t) [
  | inl same ↦ rw same (stays t v)
  | inr (e, moved) ↦
      rw moved
        (attached-RecordInv c t v e, record { request = refl; token = refl; over = inl refl })
]

-- The record after a durable handoff.
abbrev handed : TransactionRecord → TransactionRecord
handed t = record t { checkpoint_handoff_durable = true; version = bump t.version }

handoff_cases :
    (t : TransactionRecord)
    → ((handoff_record t).0 ≡ t)
      ⊎ ((is_read_write t.request.workspace_mount_mode ≡ true
            → (c : CheckpointCandidate) × (t.candidate ≡ some c) × (c.is_sealed ≡ true))
          × ((handoff_record t).0 ≡ handed t))
handoff_cases t = elim (Bool-cases (is_read_write t.request.workspace_mount_mode)) [
  | inr m ↦ inr (λ m'. absurd (cc), unfold handoff_record in ground arith)
  | inl m ↦ elim (Option-cases t.candidate) [
    | inl e ↦ inl (unfold handoff_record in ground arith)
    | inr (c, e) ↦ elim (Bool-cases c.is_sealed) [
      | inl h ↦ inr (λ _. (c, e, h), unfold handoff_record in ground arith)
      | inr h ↦ inl (unfold handoff_record in ground arith)
    ]
  ]
]

pub handoff_record-Preserves :
    (t : TransactionRecord) → RecordInv t → Preserves t (handoff_record t).0
handoff_record-Preserves t v = elim (handoff_cases t) [
  | inl same ↦ rw same (stays t v)
  | inr (sealed, moved) ↦ rw moved (
    record {
      ordered = v.ordered;
      tracked = v.tracked;
      handoff_sealed = λ _ m. sealed m;
      finished = λ r. record {
        every_stage = (v.finished r).every_stage;
        durable = λ m.
            let d = (v.finished r).durable m in
            record {
              handed_off = refl;
              sealed = d.sealed;
              candidate_stage = d.candidate_stage;
              handoff_stage = d.handoff_stage;
            };
      };
    },
    record { request = refl; token = refl; over = inl refl },
  )
]

-- The record after a promotion of its candidate.
abbrev promoted_by : Text → CheckpointCandidate → TransactionRecord → TransactionRecord
promoted_by expected c t = record t { candidate = some (promote c expected).0 }

promote_cases :
    (expected : Text) (t : TransactionRecord)
    → ((promote_record expected t).0 ≡ t)
      ⊎ ((c : CheckpointCandidate) × (t.candidate ≡ some c)
          × ((promote_record expected t).0 ≡ promoted_by expected c t))
promote_cases expected t = elim (Option-cases t.candidate) [
  | inl e ↦ inl (unfold promote_record in ground arith)
  | inr (c, e) ↦ inr (c, e, unfold promote_record in ground arith)
]

-- Promotion keeps the seal.
resealed :
    (expected : Text) (t : TransactionRecord) (c : CheckpointCandidate)
    → t.candidate ≡ some c
    → ((d : CheckpointCandidate) × (t.candidate ≡ some d) × (d.is_sealed ≡ true))
    → (d : CheckpointCandidate) × (some (promote c expected).0 ≡ some d) × (d.is_sealed ≡ true)
resealed expected t c e (d, p, q) =
    ((promote c expected).0, refl, ground (arith, promote_cas c expected))

pub promote_record-Preserves :
    (expected : Text) (t : TransactionRecord)
    → RecordInv t
    → Preserves t (promote_record expected t).0
promote_record-Preserves expected t v = elim (promote_cases expected t) [
  | inl same ↦ rw same (stays t v)
  | inr (c, e, moved) ↦ rw moved (
    record {
      ordered = v.ordered;
      tracked = v.tracked;
      handoff_sealed = λ h m. resealed expected t c e (v.handoff_sealed h m);
      finished = λ r. record {
        every_stage = (v.finished r).every_stage;
        durable = λ m.
            let d = (v.finished r).durable m in
            record {
              handed_off = d.handed_off;
              sealed = resealed expected t c e d.sealed;
              candidate_stage = d.candidate_stage;
              handoff_stage = d.handoff_stage;
            };
      };
    },
    record { request = refl; token = refl; over = inl refl },
  )
]

-- The record in compensation.
abbrev compensating_now : TransactionRecord → TransactionRecord
compensating_now t = record t { state = State.compensating; version = bump t.version }

compensate_cases :
    (t : TransactionRecord)
    → ((compensate_record t).0 ≡ t)
      ⊎ ((is_closed t.state ≡ false) × ((compensate_record t).0 ≡ compensating_now t))
unfolding compensate_record can_transition_to
compensate_cases t = ground arith

pub compensate_record-Preserves :
    (t : TransactionRecord) → RecordInv t → Preserves t (compensate_record t).0
compensate_record-Preserves t v = elim (compensate_cases t) [
  | inl same ↦ rw same (stays t v)
  | inr (going, moved) ↦ rw moved (
    record {
      ordered = v.ordered;
      tracked = λ h. absurd (cc);
      handoff_sealed = v.handoff_sealed;
      finished = λ h. absurd (cc);
    },
    record { request = refl; token = refl; over = inr (going, refl) },
  )
]
