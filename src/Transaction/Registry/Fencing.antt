-- ===== src/Transaction/Registry/Fencing.antt =====
-- Fencing tokens: a stale one changes nothing, and a new one is above all others.
use sdkwork_sandbox.Base.{
  ℕ, suc, ◌≤◌, ◌≡◌, inl, inr, none, some, Text, ok, err, arith, Result-cases, get, ℤ, pos, negsuc,
  i64_max, ltb_ℤ, eqb_ℤ, Bool, true, false, ◌&&◌, text_eq, text_eq_iff, Bool-cases, Option-cases,
  get-insert_other, ◌∙◌, All, List, [], ◌∷◌,
}
use sdkwork_sandbox.Transaction.Request.{TransactionRequest}
use sdkwork_sandbox.Transaction.Registry.Record.{
  TransactionRecord, Registry, update_record, fenced_record, checked_next,
}
use sdkwork_sandbox.Transaction.Registry.Invariant.{Inv, Recorded, Issued}
use sdkwork_sandbox.Transaction.Error.{WorkspaceRuntimeError, WorkspaceRuntimeResult, stale_fencing}
use sdkwork_sandbox.Transaction.Request.{request_validated}
use sdkwork_sandbox.Transaction.Registry.Record.{TransactionHandle}
use sdkwork_sandbox.Transaction.Registry.Begin.{begin, begin_fresh, begin_admission}
use sdkwork_sandbox.Transaction.Registry.Advance.{advance_stage}
use sdkwork_sandbox.Transaction.Registry.Candidate.{
  attach_checkpoint_candidate, record_checkpoint_handoff, promote_checkpoint,
}
use sdkwork_sandbox.Transaction.Registry.Release.{release}
use sdkwork_sandbox.Transaction.Registry.Failure.{enter_compensation, quarantine}
use sdkwork_sandbox.Transaction.Registry.Command.{
  Command, begins, advances, attaches, hands_off, promotes, releases, compensates, quarantines,
  step, run,
}
use sdkwork_sandbox.Transaction.Registry.Preservation.History.{
  release_cases, quarantine_cases, begin_cases,
}
use sdkwork_sandbox.Transaction.Registry.Preservation.Open.{begin_admission-Admitted}

-- Whether a call may change a transaction that has this token: a later call under the transaction's
-- own identity and token, or a promotion, which takes no token.
abbrev pub may_change : Text → ℤ → Command → Bool
may_change id n (begins now r) = false
may_change id n (advances j stage e token) = text_eq j id && eqb_ℤ token n
may_change id n (attaches j c token) = text_eq j id && eqb_ℤ token n
may_change id n (hands_off j token) = text_eq j id && eqb_ℤ token n
may_change id n (promotes j expected) = text_eq j id
may_change id n (releases j token) = text_eq j id && eqb_ℤ token n
may_change id n (compensates j token) = text_eq j id && eqb_ℤ token n
may_change id n (quarantines j token) = text_eq j id && eqb_ℤ token n

stale_record :
    (s : Registry) (id j : Text) (t : TransactionRecord) (token : ℤ)
    → Recorded s id t
    → text_eq j id ≡ true
    → (text_eq j id && eqb_ℤ token t.fencing_token) ≡ false
    → fenced_record j token s ≡ err stale_fencing
unfolding fenced_record
stale_record s id j t token there same stale =
    let at : j ≡ id = (text_eq_iff j id).0 same in ground (arith, at, there, same, stale)

update-Recorded {ℓ} :
    {A : Type ℓ} (f : TransactionRecord → TransactionRecord × WorkspaceRuntimeResult A)
    (s : Registry) (id j : Text) (t : TransactionRecord) (token : ℤ)
    → Recorded s id t
    → (text_eq j id && eqb_ℤ token t.fencing_token) ≡ false
    → Recorded (update_record f j token s).0 id t
unfolding update_record
update-Recorded f s id j t token there stale = elim (Bool-cases (text_eq j id)) [
  | inl same ↦ rw (update_record, stale_record s id j t token there same stale) there
  | inr other ↦ elim (Result-cases (fenced_record j token s)) [
    | inr (e, h) ↦ rw (update_record, h) there
    | inl (u, h) ↦
        rw (update_record, h) (get-insert_other id j (f u).0 s.transactions other ∙ there)
  ]
]

release-Recorded :
    (s : Registry) (id j : Text) (t : TransactionRecord) (token : ℤ)
    → Recorded s id t
    → (text_eq j id && eqb_ℤ token t.fencing_token) ≡ false
    → Recorded (release j token s).0 id t
unfolding release
release-Recorded s id j t token there stale = elim (Bool-cases (text_eq j id)) [
  | inl same ↦ elim (Option-cases (get j s.outcomes_by_operation)) [
    | inr (o, e) ↦ rw (release, e) there
    | inl e ↦ rw (release, e, stale_record s id j t token there same stale) there
  ]
  | inr other ↦ elim (release_cases s j token) [
    | inl kept ↦ rw kept there
    | inr (u, _, _, moved) ↦ rw moved (get-insert_other id j _ s.transactions other ∙ there)
  ]
]

quarantine-Recorded :
    (s : Registry) (id j : Text) (t : TransactionRecord) (token : ℤ)
    → Recorded s id t
    → (text_eq j id && eqb_ℤ token t.fencing_token) ≡ false
    → Recorded (quarantine j token s).0 id t
unfolding quarantine
quarantine-Recorded s id j t token there stale = elim (Bool-cases (text_eq j id)) [
  | inl same ↦ elim (Option-cases (get j s.outcomes_by_operation)) [
    | inr (o, e) ↦ rw (quarantine, e) there
    | inl e ↦ rw (quarantine, e, stale_record s id j t token there same stale) there
  ]
  | inr other ↦ elim (quarantine_cases s j token) [
    | inl kept ↦ rw kept there
    | inr (u, _, _, moved) ↦ rw moved (get-insert_other id j _ s.transactions other ∙ there)
  ]
]

-- A transaction that is there is not begun again.
begin-Recorded :
    (now : ℕ) (r : TransactionRequest) (s : Registry) (id : Text) (t : TransactionRecord)
    → Recorded s id t
    → Recorded (begin now r s).0 id t
begin-Recorded now r s id t there = elim (begin_cases now r s) [
  | inl kept ↦ rw kept there
  | inr (token, admitted, moved) ↦
      elim (Bool-cases (text_eq r.workspace_runtime_transaction_id id)) [
        | inl same ↦ absurd (
            begun_twice (begin_admission-Admitted now r s token admitted).new_id
              ((text_eq_iff r.workspace_runtime_transaction_id id).0 same))
        | inr other ↦ rw moved (get-insert_other id _ _ s.transactions other ∙ there)
      ]
]
  where
    begun_twice :
        get r.workspace_runtime_transaction_id s.transactions ≡ none
        → r.workspace_runtime_transaction_id ≡ id
        → ⊥
    begun_twice new same = ground (arith, new, same, there)

promote-Recorded :
    (s : Registry) (id j expected : Text) (t : TransactionRecord)
    → Recorded s id t
    → text_eq j id ≡ false
    → Recorded (promote_checkpoint j expected s).0 id t
unfolding promote_checkpoint
promote-Recorded s id j expected t there other = elim (Option-cases (get j s.transactions)) [
  | inl h ↦ rw (promote_checkpoint, h) there
  | inr (u, h) ↦ rw (promote_checkpoint, h) (get-insert_other id j _ s.transactions other ∙ there)
]

step-Recorded :
    (s : Registry) (c : Command) (id : Text) (t : TransactionRecord)
    → Recorded s id t
    → may_change id t.fencing_token c ≡ false
    → Recorded (step s c) id t
unfolding step advance_stage attach_checkpoint_candidate record_checkpoint_handoff
    enter_compensation
step-Recorded s (begins now r) id t there h = begin-Recorded now r s id t there
step-Recorded s (advances j stage e token) id t there h = update-Recorded _ s id j t token there h
step-Recorded s (attaches j c token) id t there h = update-Recorded _ s id j t token there h
step-Recorded s (hands_off j token) id t there h = update-Recorded _ s id j t token there h
step-Recorded s (promotes j expected) id t there h = promote-Recorded s id j expected t there h
step-Recorded s (releases j token) id t there h = release-Recorded s id j t token there h
step-Recorded s (compensates j token) id t there h = update-Recorded _ s id j t token there h
step-Recorded s (quarantines j token) id t there h = quarantine-Recorded s id j t token there h

-- Only a holder of its token can change a transaction: after any history of calls in which no stage,
-- candidate, handoff, compensation, release or quarantine of this transaction comes with its token,
-- and no promotion is of this transaction, the transaction is exactly what it was. The calls may begin
-- transactions, this one again among them, and do anything with the others.
pub stale_calls_change_nothing :
    (s : Registry) (cs : List Command) (id : Text) (t : TransactionRecord)
    → Recorded s id t
    → All (λ c. may_change id t.fencing_token c ≡ false) cs
    → Recorded (run s cs) id t
unfolding run
stale_calls_change_nothing s [] id t there h = there
stale_calls_change_nothing s (c ∷ cs) id t there h =
    stale_calls_change_nothing (step s c) cs id t (step-Recorded s c id t there h.0) h.1

fresh_begin :
    (now : ℕ) (r : TransactionRequest) (s : Registry) (h : TransactionHandle)
    → get r.operation_id s.fingerprints_by_operation ≡ none
    → (begin now r s).1 ≡ ok h
    → (token : ℤ) × (begin_admission now r s ≡ ok token) × (h.fencing_token ≡ token)
unfolding begin begin_fresh
fresh_begin now r s h new e = elim (Result-cases (request_validated r)) [
  | inr (x, p) ↦ absurd (refused x p)
  | inl (a, p) ↦ elim (Result-cases (begin_admission now r s)) [
    | inr (x, q) ↦ absurd (denied a p x q)
    | inl (token, q) ↦ (token, q, given a p token q)
  ]
]
  where
    refused : (x : WorkspaceRuntimeError) → request_validated r ≡ err x → ⊥
    refused x p = cc (rw (p, begin) at e)

    denied :
        (a : Unit {0})
        → request_validated r ≡ ok a
        → (x : WorkspaceRuntimeError) → begin_admission now r s ≡ err x
        → ⊥
    denied a p x q = cc (rw (p, new, q, begin, begin_fresh) at e)

    given :
        (a : Unit {0})
        → request_validated r ≡ ok a
        → (token : ℤ) → begin_admission now r s ≡ ok token
        → h.fencing_token ≡ token
    given a p token q = ground (arith, (rw (p, new, q, begin, begin_fresh) at e))

below_next :
    (a b c : ℤ) → Issued (pos 0) b → checked_next b ≡ some c → Issued a b → ltb_ℤ a c ≡ true
below_next a b c z n i = ground arith

within_next :
    (b c : ℤ) → Issued (pos 0) b → checked_next b ≡ some c → (n : ℕ) × (c ≡ pos n) × (n ≤ i64_max)
within_next (pos n) c z e = (suc n, ground arith, ground arith)
within_next (negsuc n) c z e = elim z [ ]

-- A begin of an operation that was not seen before gives, if it succeeds, a token above that of
-- every transaction in the registry, and the token is a non-negative number of 64 bits with sign.
pub begin_token_above :
    (now : ℕ) (r : TransactionRequest) (s : Registry) (h : TransactionHandle)
    → Inv s
    → get r.operation_id s.fingerprints_by_operation ≡ none
    → (begin now r s).1 ≡ ok h
    → ((i : Text) (t : TransactionRecord)
        → Recorded s i t
        → ltb_ℤ t.fencing_token h.fencing_token ≡ true)
      × ((n : ℕ) × (h.fencing_token ≡ pos n) × (n ≤ i64_max))
begin_token_above now r s h v new e =
    let (token, q, g) = fresh_begin now r s h new e in
    let next = (begin_admission-Admitted now r s token q).next_token in
    rw g (
      λ i t there.
          below_next t.fencing_token s.highest_fencing_token token v.started next
            (v.issued i t there),
      within_next s.highest_fencing_token token v.started next,
    )
