-- ===== src/Transaction/Registry/Preservation/Open.antt =====
-- The write of a successful `sandbox_begin` keeps the invariant of the registry.
use sdkwork_sandbox.Base.{
  ℕ, ◌<◌, ◌≡◌, refl, inl, inr, false, none, some, Text, ok, arith, sym, ◌∙◌, get, text_eq,
  text_eq_iff, insert_cases, get-insert_other, get-insert_self, insert-IsSorted, length-insert-le,
  length, ℤ, pos,
}
use sdkwork_sandbox.Transaction.Stage.{ledger_new}
use sdkwork_sandbox.Transaction.Stage.Order.{ledger_new-LedgerInv}
use sdkwork_sandbox.Transaction.Request.{TransactionRequest}
use sdkwork_sandbox.Transaction.Registry.Record.{
  TransactionRecord, Registry, is_closed, checked_next, reconciliation_batch_size_max,
}
use sdkwork_sandbox.Transaction.Registry.Invariant.{RecordInv, Inv, Recorded, Issued}
use sdkwork_sandbox.Transaction.Registry.Begin.{begin_admission, begin_record, begin_commit}

-- What the guards of a fresh begin establish.
pub record Admitted (now : ℕ) (r : TransactionRequest) (s : Registry) (token : ℤ) : Type 0 where
  pub new_id : get r.workspace_runtime_transaction_id s.transactions ≡ none
  pub free_session : get r.session_id s.active_by_binding ≡ none
  pub room : length s.transactions < reconciliation_batch_size_max
  pub in_time : now < r.deadline_at
  pub next_token : checked_next s.highest_fencing_token ≡ some token

pub begin_admission-Admitted :
    (now : ℕ) (r : TransactionRequest) (s : Registry) (token : ℤ)
    → begin_admission now r s ≡ ok token
    → Admitted now r s token
unfolding begin_admission
begin_admission-Admitted now r s token h = record {
  new_id = ground arith;
  free_session = ground arith;
  room = ground arith;
  in_time = ground arith;
  next_token = ground arith;
}

pub Issued-next : (a b c : ℤ) → Issued (pos 0) b → checked_next b ≡ some c → Issued a b → Issued a c
Issued-next a b c z n i = ground arith

Issued-fresh : (b c : ℤ) → Issued (pos 0) b → checked_next b ≡ some c → Issued c c
Issued-fresh b c z n = ground arith

begin_record-RecordInv : (r : TransactionRequest) (token : ℤ) → RecordInv (begin_record r token)
unfolding ledger_new
begin_record-RecordInv r token = record {
  ordered = unfold ledger_new in ledger_new-LedgerInv;
  tracked = λ _. refl;
  handoff_sealed = λ h. absurd (cc);
  finished = λ h. absurd (cc);
}

module _ (s : Registry) (now : ℕ) (r : TransactionRequest) (token : ℤ) (v : Inv s)
    (a : Admitted now r s token) where
  abbrev id : Text
  id = r.workspace_runtime_transaction_id

  abbrev t : TransactionRecord
  t = begin_record r token

  abbrev opened : Registry
  opened = begin_commit r token s

  not_here : (j : Text) (w : TransactionRecord) → Recorded s j w → text_eq id j ≡ false
  not_here j w h = ground (arith, text_eq_iff id j, a.new_id)

  kept : (j : Text) (w : TransactionRecord) → Recorded s j w → Recorded opened j w
  kept j w h = get-insert_other j id t s.transactions (not_here j w h) ∙ h

  open_held :
      (session j : Text)
      → get session opened.active_by_binding ≡ some j
      → (w : TransactionRecord) × Recorded opened j w
        × (w.request.session_id ≡ session)
        × (is_closed w.state ≡ false)
  open_held session j h = elim (insert_cases session r.session_id id j s.active_by_binding h) [
    | inl (e, here) ↦ (t, rw here (get-insert_self id t s.transactions), sym e, refl)
    | inr (_, before) ↦
        let (w, at, own, live) = v.held session j before in (w, kept j w at, own, live)
  ]

  open_holds :
      (j : Text) (w : TransactionRecord)
      → Recorded opened j w
      → is_closed w.state ≡ false
      → get w.request.session_id opened.active_by_binding ≡ some j
  open_holds j w h live = elim (insert_cases j id t w s.transactions h) [
    | inl (e, here) ↦ rw (here, e) (get-insert_self r.session_id id s.active_by_binding)
    | inr (_, before) ↦ other (v.holds j w before live)
  ]
    where
      other :
          get w.request.session_id s.active_by_binding ≡ some j
          → get w.request.session_id opened.active_by_binding ≡ some j
      other h =
          get-insert_other w.request.session_id r.session_id id s.active_by_binding
            (ground (arith, text_eq_iff r.session_id w.request.session_id, a.free_session))
          ∙ h

  pub open-Inv : Inv opened
  open-Inv = record {
    records = λ j w h. elim (insert_cases j id t w s.transactions h) [
      | inr (_, before) ↦ v.records j w before
      | inl (e, here) ↦ rw here (begin_record-RecordInv r token)
    ];
    named = λ j w h. elim (insert_cases j id t w s.transactions h) [
      | inr (_, before) ↦ v.named j w before
      | inl (e, here) ↦ rw (e, here) refl
    ];
    held = open_held;
    holds = open_holds;
    outcome_final = λ j o h. let (w, at, final) = v.outcome_final j o h in (w, kept j w at, final);
    closed_outcome = λ j w h over. elim (insert_cases j id t w s.transactions h) [
      | inr (_, before) ↦ v.closed_outcome j w before over
      | inl (e, here) ↦ absurd (cc)
    ];
    issued = λ j w h. elim (insert_cases j id t w s.transactions h) [
      | inr (_, before) ↦
          Issued-next w.fencing_token s.highest_fencing_token token v.started a.next_token
            (v.issued j w before)
      | inl (e, here) ↦ rw here (Issued-fresh s.highest_fencing_token token v.started a.next_token)
    ];
    started = Issued-next (pos 0) s.highest_fencing_token token v.started a.next_token v.started;
    sorted = insert-IsSorted id t s.transactions v.sorted;
    bounded = omega (arith, length-insert-le id t s.transactions, a.room);
  }
