-- ===== src/Transaction/Registry/Preservation/Close.antt =====
-- The terminal write of a release or a quarantine keeps the invariant of the registry.
use sdkwork_sandbox.Base.{
  ◌≡◌, refl, inl, inr, true, false, some, is_some, Text, arith, sym, Bool-cases, ◌∙◌, ap, get,
  text_eq, text_eq_iff, insert_cases, get-insert_other, get-insert_self, remove_cases,
  get-remove_other, insert-IsSorted, length-insert_present,
}
use sdkwork_sandbox.Transaction.Registry.Record.{
  TransactionRecord, Registry, TerminalOutcome, released, quarantined, is_closed, bump,
}
use sdkwork_sandbox.Transaction.Registry.Invariant.{RecordInv, Inv, Recorded, final_state}
use sdkwork_sandbox.Transaction.Registry.Release.{close}

-- The record that a terminal write leaves.
abbrev pub ended : TerminalOutcome → TransactionRecord → TransactionRecord
ended o t = record t { state = final_state o; version = bump t.version }

final_closed : (o : TerminalOutcome) → is_closed (final_state o) ≡ true
final_closed released = refl
final_closed quarantined = refl

module _ (s : Registry) (id : Text) (t : TransactionRecord) (o : TerminalOutcome) (v : Inv s)
    (there : Recorded s id t) (going : is_closed t.state ≡ false) (p : RecordInv (ended o t)) where
  abbrev closed : Registry
  closed = close id (final_state o) o t s

  same_key : (j : Text) → text_eq id j ≡ true → (w : TransactionRecord) → Recorded s j w → t ≡ w
  same_key j same w at = ground (arith, text_eq_iff id j)

  close_held :
      (session j : Text)
      → get session closed.active_by_binding ≡ some j
      → (w : TransactionRecord) × Recorded closed j w
        × (w.request.session_id ≡ session)
        × (is_closed w.state ≡ false)
  close_held session j h =
      let (other, before) = remove_cases session t.request.session_id j s.active_by_binding h in
      let (w, at, own, live) = v.held session j before in
      elim (Bool-cases (text_eq id j)) [
        | inr new ↦ (w, get-insert_other j id (ended o t) s.transactions new ∙ at, own, live)
        | inl same ↦ absurd (elsewhere w other own (same_key j same w at))
      ]
    where
      elsewhere :
          (w : TransactionRecord)
          → text_eq t.request.session_id session ≡ false
          → w.request.session_id ≡ session
          → t ≡ w
          → ⊥
      elsewhere w other own e = cc (
          (text_eq_iff t.request.session_id session).1
            (ap (λ (r : TransactionRecord). r.request.session_id) e ∙ own))

  close_holds :
      (j : Text) (w : TransactionRecord)
      → Recorded closed j w
      → is_closed w.state ≡ false
      → get w.request.session_id closed.active_by_binding ≡ some j
  close_holds j w h live = elim (insert_cases j id (ended o t) w s.transactions h) [
    | inl (e, here) ↦ absurd (shut w here live)
    | inr (new, before) ↦ elim (Bool-cases (text_eq t.request.session_id w.request.session_id)) [
      | inr other ↦
          get-remove_other w.request.session_id t.request.session_id s.active_by_binding other
          ∙ v.holds j w before live
      | inl same ↦ absurd (twice w new same (v.holds j w before live))
    ]
  ]
    where
      shut : (w : TransactionRecord) → w ≡ ended o t → is_closed w.state ≡ false → ⊥
      shut w e live = cc (ap (λ (r : TransactionRecord). is_closed r.state) e, final_closed o)

      twice :
          (w : TransactionRecord)
          → text_eq id j ≡ false
          → text_eq t.request.session_id w.request.session_id ≡ true
          → get w.request.session_id s.active_by_binding ≡ some j
          → ⊥
      twice w new same h = ground (
        arith,
        v.holds id t there going,
        text_eq_iff t.request.session_id w.request.session_id,
        text_eq_iff id j,
      )

  close_outcome :
      (j : Text) (q : TerminalOutcome)
      → get j closed.outcomes_by_operation ≡ some q
      → (w : TransactionRecord) × Recorded closed j w × (w.state ≡ final_state q)
  close_outcome j q h = elim (insert_cases j id o q s.outcomes_by_operation h) [
    | inl (e, here) ↦
        (ended o t, rw e (get-insert_self id (ended o t) s.transactions), ap final_state (sym here))
    | inr (new, before) ↦
        let (w, at, final) = v.outcome_final j q before in
        (w, get-insert_other j id (ended o t) s.transactions new ∙ at, final)
  ]

  close_closed :
      (j : Text) (w : TransactionRecord)
      → Recorded closed j w
      → is_closed w.state ≡ true
      → is_some (get j closed.outcomes_by_operation) ≡ true
  close_closed j w h over = elim (insert_cases j id (ended o t) w s.transactions h) [
    | inl (e, here) ↦ rw (e, get-insert_self id o s.outcomes_by_operation) refl
    | inr (new, before) ↦
        rw (get-insert_other j id o s.outcomes_by_operation new) (v.closed_outcome j w before over)
  ]

  pub close-Inv : Inv closed
  close-Inv = record {
    records = λ j w h. elim (insert_cases j id (ended o t) w s.transactions h) [
      | inr (_, before) ↦ v.records j w before
      | inl (e, here) ↦ rw here p
    ];
    named = λ j w h. elim (insert_cases j id (ended o t) w s.transactions h) [
      | inr (_, before) ↦ v.named j w before
      | inl (e, here) ↦ rw (e, here) (v.named id t there)
    ];
    held = close_held;
    holds = close_holds;
    outcome_final = close_outcome;
    closed_outcome = close_closed;
    issued = λ j w h. elim (insert_cases j id (ended o t) w s.transactions h) [
      | inr (_, before) ↦ v.issued j w before
      | inl (e, here) ↦ rw here (v.issued id t there)
    ];
    started = v.started;
    sorted = insert-IsSorted id (ended o t) s.transactions v.sorted;
    bounded =
        omega
          (arith, length-insert_present id (ended o t) t s.transactions v.sorted there, v.bounded);
  }
