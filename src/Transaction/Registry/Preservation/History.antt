-- ===== src/Transaction/Registry/Preservation/History.antt =====
-- The invariant holds after any history of calls.
use sdkwork_sandbox.Base.{
  ℕ, ◌≡◌, refl, ◌⊎◌, inl, inr, true, false, Text, ok, arith, Result-cases, Bool-cases, Option-cases,
  List, [], ◌∷◌, get, ℤ,
}
use sdkwork_sandbox.Transaction.State
use sdkwork_sandbox.Transaction.State.{TransactionState, can_transition_to}
use sdkwork_sandbox.Transaction.Request.{TransactionRequest, request_validated}
use sdkwork_sandbox.Transaction.Registry.Record.{
  TransactionRecord, Registry, released, quarantined, is_closed, update_record, fenced_record,
  empty,
}
use sdkwork_sandbox.Transaction.Registry.Invariant.{RecordInv, Inv, Recorded}
use sdkwork_sandbox.Transaction.Registry.Records.{Preserves}
use sdkwork_sandbox.Transaction.Error.{WorkspaceRuntimeResult}
use sdkwork_sandbox.Transaction.Registry.Begin.{begin, begin_fresh, begin_admission, begin_commit}
use sdkwork_sandbox.Transaction.Registry.Advance.{advance_record, advance_stage}
use sdkwork_sandbox.Transaction.Registry.Candidate.{
  attach_checkpoint_candidate, record_checkpoint_handoff, promote_checkpoint, promote_record,
  attach_record, handoff_record,
}
use sdkwork_sandbox.Transaction.Registry.Release.{release, release_admission, close}
use sdkwork_sandbox.Transaction.Registry.Release.Conditions.{
  release_admission_legal, released-RecordInv,
}
use sdkwork_sandbox.Transaction.Registry.Failure.{enter_compensation, quarantine, compensate_record}
use sdkwork_sandbox.Transaction.Registry.Command.{
  Command, begins, advances, attaches, hands_off, promotes, releases, compensates, quarantines,
  step, run,
}
use sdkwork_sandbox.Transaction.Registry.Records.{advance_record-Preserves}
use sdkwork_sandbox.Transaction.Registry.Records.Checkpoints.{
  attach_record-Preserves, handoff_record-Preserves, promote_record-Preserves,
  compensate_record-Preserves,
}
use sdkwork_sandbox.Transaction.Registry.Preservation.Put.{put-Inv}
use sdkwork_sandbox.Transaction.Registry.Preservation.Close.{close-Inv, ended}
use sdkwork_sandbox.Transaction.Registry.Preservation.Open.{open-Inv, begin_admission-Admitted}

pub fenced_record-Recorded :
    (s : Registry) (id : Text) (expected : ℤ) (t : TransactionRecord)
    → fenced_record id expected s ≡ ok t
    → Recorded s id t
unfolding fenced_record
fenced_record-Recorded s id expected t h = ground arith

update_record-Inv {ℓ} :
    {A : Type ℓ} (f : TransactionRecord → TransactionRecord × WorkspaceRuntimeResult A)
    (s : Registry) (id : Text) (expected : ℤ)
    → ((t : TransactionRecord) → RecordInv t → Preserves t (f t).0)
    → Inv s
    → Inv (update_record f id expected s).0
unfolding update_record
update_record-Inv f s id expected keep v = elim (Result-cases (fenced_record id expected s)) [
  | inr (e, h) ↦ rw (h, update_record) v
  | inl (t, h) ↦
      let there = fenced_record-Recorded s id expected t h in
      rw (h, update_record) (put-Inv s id t (f t).0 v there (keep t (v.records id t there)))
]

promote_checkpoint-Inv :
    (s : Registry) (id expected : Text) → Inv s → Inv (promote_checkpoint id expected s).0
unfolding promote_checkpoint
promote_checkpoint-Inv s id expected v = elim (Option-cases (get id s.transactions)) [
  | inl h ↦ rw (h, promote_checkpoint) v
  | inr (t, h) ↦
      rw (h, promote_checkpoint)
        (put-Inv s id t (promote_record expected t).0 v h
          (promote_record-Preserves expected t (v.records id t h)))
]

-- A call that may end a transaction leaves the registry alone or makes the terminal write.
pub release_cases :
    (s : Registry) (id : Text) (expected : ℤ)
    → ((release id expected s).0 ≡ s)
      ⊎ ((t : TransactionRecord) × Recorded s id t
          × (release_admission t ≡ ok tt)
          × ((release id expected s).0 ≡ close id State.released released t s))
unfolding release
release_cases s id expected = elim (Option-cases (get id s.outcomes_by_operation)) [
  | inr (o, e) ↦ inl (rw (e, release) refl)
  | inl e ↦ elim (Result-cases (fenced_record id expected s)) [
    | inr (x, h) ↦ inl (rw (e, h, release) refl)
    | inl (t, h) ↦ elim (Result-cases (release_admission t)) [
      | inr (x, k) ↦ inl (rw (e, h, k, release) refl)
      | inl (a, k) ↦
          inr (t, fenced_record-Recorded s id expected t h, k, rw (e, h, k, release) refl)
    ]
  ]
]

pub quarantine_cases :
    (s : Registry) (id : Text) (expected : ℤ)
    → ((quarantine id expected s).0 ≡ s)
      ⊎ ((t : TransactionRecord) × Recorded s id t
          × (can_transition_to t.state State.quarantined ≡ true)
          × ((quarantine id expected s).0 ≡ close id State.quarantined quarantined t s))
unfolding quarantine
quarantine_cases s id expected = elim (Option-cases (get id s.outcomes_by_operation)) [
  | inr (o, e) ↦ inl (rw (e, quarantine) refl)
  | inl e ↦ elim (Result-cases (fenced_record id expected s)) [
    | inr (x, h) ↦ inl (rw (e, h, quarantine) refl)
    | inl (t, h) ↦ elim (Bool-cases (can_transition_to t.state State.quarantined)) [
      | inr k ↦ inl (rw (e, h, k, quarantine) refl)
      | inl k ↦ inr (t, fenced_record-Recorded s id expected t h, k, rw (e, h, k, quarantine) refl)
    ]
  ]
]

pub begin_cases :
    (now : ℕ) (r : TransactionRequest) (s : Registry)
    → ((begin now r s).0 ≡ s)
      ⊎ ((token : ℤ) × (begin_admission now r s ≡ ok token)
          × ((begin now r s).0 ≡ begin_commit r token s))
unfolding begin begin_fresh
begin_cases now r s = elim (Result-cases (request_validated r)) [
  | inr (x, e) ↦ inl (rw (e, begin) refl)
  | inl (a, e) ↦ elim (Option-cases (get r.operation_id s.fingerprints_by_operation)) [
    | inr (f, h) ↦ inl (rw (e, h, begin) refl)
    | inl h ↦ elim (Result-cases (begin_admission now r s)) [
      | inr (x, k) ↦ inl (rw (e, h, k, begin, begin_fresh) refl)
      | inl (token, k) ↦ inr (token, k, rw (e, h, k, begin, begin_fresh) refl)
    ]
  ]
]

live_of_released :
    (t : TransactionRecord)
    → can_transition_to t.state State.released ≡ true
    → is_closed t.state ≡ false
unfolding can_transition_to
live_of_released t h = ground arith

live_of_quarantined :
    (t : TransactionRecord)
    → can_transition_to t.state State.quarantined ≡ true
    → is_closed t.state ≡ false
unfolding can_transition_to
live_of_quarantined t h = ground arith

quarantined-RecordInv : (t : TransactionRecord) → RecordInv t → RecordInv (ended quarantined t)
quarantined-RecordInv t v = record {
  ordered = v.ordered;
  tracked = λ e. absurd (cc);
  handoff_sealed = v.handoff_sealed;
  finished = λ e. absurd (cc);
}

-- Every call keeps the invariant.
pub step-Inv : (s : Registry) (c : Command) → Inv s → Inv (step s c)
unfolding step advance_stage attach_checkpoint_candidate record_checkpoint_handoff
    enter_compensation
step-Inv s (begins now r) v = elim (begin_cases now r s) [
  | inl same ↦ rw same v
  | inr (token, h, moved) ↦
      rw moved (open-Inv s now r token v (begin_admission-Admitted now r s token h))
]
step-Inv s (advances id stage e token) v =
    update_record-Inv (advance_record stage e) s id token (advance_record-Preserves stage e) v
step-Inv s (attaches id c token) v =
    update_record-Inv (attach_record c) s id token (attach_record-Preserves c) v
step-Inv s (hands_off id token) v =
    update_record-Inv handoff_record s id token handoff_record-Preserves v
step-Inv s (promotes id expected) v = promote_checkpoint-Inv s id expected v
step-Inv s (releases id token) v = elim (release_cases s id token) [
  | inl same ↦ rw same v
  | inr (t, there, h, moved) ↦ rw moved (
      close-Inv s id t released v there (live_of_released t (release_admission_legal t h))
        (released-RecordInv t (v.records id t there) h))
]
step-Inv s (compensates id token) v =
    update_record-Inv compensate_record s id token compensate_record-Preserves v
step-Inv s (quarantines id token) v = elim (quarantine_cases s id token) [
  | inl same ↦ rw same v
  | inr (t, there, h, moved) ↦ rw moved (
      close-Inv s id t quarantined v there (live_of_quarantined t h)
        (quarantined-RecordInv t (v.records id t there)))
]

pub empty-Inv : Inv empty
unfolding empty get
empty-Inv = record {
  records = λ j w h. absurd (cc);
  named = λ j w h. absurd (cc);
  held = λ session j h. absurd (cc);
  holds = λ j w h. absurd (cc);
  outcome_final = λ j o h. absurd (cc);
  closed_outcome = λ j w h. absurd (cc);
  issued = λ j w h. absurd (cc);
  started = omega arith;
  sorted = tt;
  bounded = omega arith;
}

pub run-Inv : (s : Registry) (cs : List Command) → Inv s → Inv (run s cs)
unfolding run
run-Inv s [] v = v
run-Inv s (c ∷ cs) v = run-Inv (step s c) cs (step-Inv s c v)

-- Whatever calls are made of a new registry, it satisfies the invariant.
pub history-Inv : (cs : List Command) → Inv (run empty cs)
history-Inv cs = run-Inv empty cs empty-Inv
