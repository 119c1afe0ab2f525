-- ===== src/Transaction/Registry/Preservation/Put.antt =====
-- A write to one record that keeps what `Keeps` says keeps the invariant of the registry.
use sdkwork_sandbox.Base.{
  ◌≡◌, inl, inr, true, false, some, is_some, Text, arith, sym, Bool-cases, ◌∙◌, ap, get, text_eq,
  text_eq_iff, insert_cases, get-insert_other, get-insert_self, insert-IsSorted,
  length-insert_present,
}
use sdkwork_sandbox.Transaction.Request.{TransactionRequest}
use sdkwork_sandbox.Transaction.Registry.Record.{
  TransactionRecord, Registry, TerminalOutcome, is_closed, put_record,
}
use sdkwork_sandbox.Transaction.Registry.Invariant.{Inv, Recorded, final_state}
use sdkwork_sandbox.Transaction.Registry.Records.{Preserves}

module _ (s : Registry) (id : Text) (t u : TransactionRecord) (v : Inv s) (there : Recorded s id t)
    (p : Preserves t u) where
  closed_alike : is_closed u.state ≡ is_closed t.state
  closed_alike = elim p.1.over [ inl e ↦ ap is_closed e | inr (a, b) ↦ b ∙ sym a ]

  put_held :
      (session j : Text)
      → get session s.active_by_binding ≡ some j
      → (w : TransactionRecord) × Recorded (put_record id u s) j w
        × (w.request.session_id ≡ session)
        × (is_closed w.state ≡ false)
  put_held session j h =
      let (w, at, own, going) = v.held session j h in
      elim (Bool-cases (text_eq id j)) [
        | inr other ↦ (w, get-insert_other j id u s.transactions other ∙ at, own, going)
        | inl same ↦
            let e : j ≡ id = sym ((text_eq_iff id j).0 same) in
            let here : t ≡ w = ground (arith) in
            (
              u,
              rw e (get-insert_self id u s.transactions),
              ap (λ (r : TransactionRequest). r.session_id) (p.1.request) ∙ rw here own,
              closed_alike ∙ rw here going,
            )
      ]

  put_holds :
      (j : Text) (w : TransactionRecord)
      → Recorded (put_record id u s) j w
      → is_closed w.state ≡ false
      → get w.request.session_id s.active_by_binding ≡ some j
  put_holds j w h going = elim (insert_cases j id u w s.transactions h) [
    | inr (_, before) ↦ v.holds j w before going
    | inl (e, here) ↦
        rw (e, here, p.1.request) (v.holds id t there (sym closed_alike ∙ (rw (← here) going)))
  ]

  put_outcome :
      (j : Text) (o : TerminalOutcome)
      → get j s.outcomes_by_operation ≡ some o
      → (w : TransactionRecord) × Recorded (put_record id u s) j w × (w.state ≡ final_state o)
  put_outcome j o h =
      let (w, at, final) = v.outcome_final j o h in
      elim (Bool-cases (text_eq id j)) [
        | inr other ↦ (w, get-insert_other j id u s.transactions other ∙ at, final)
        | inl same ↦
            let e : j ≡ id = sym ((text_eq_iff id j).0 same) in
            let here : t ≡ w = ground (arith) in
            (
              u,
              rw e (get-insert_self id u s.transactions),
              over_final o (ap (λ (r : TransactionRecord). r.state) here ∙ final),
            )
      ]
    where
      over_final : (o : TerminalOutcome) → t.state ≡ final_state o → u.state ≡ final_state o
      over_final o f = ground (arith, p.1.over)

  put_closed :
      (j : Text) (w : TransactionRecord)
      → Recorded (put_record id u s) j w
      → is_closed w.state ≡ true
      → is_some (get j s.outcomes_by_operation) ≡ true
  put_closed j w h over = elim (insert_cases j id u w s.transactions h) [
    | inr (_, before) ↦ v.closed_outcome j w before over
    | inl (e, here) ↦ rw e (v.closed_outcome id t there (sym closed_alike ∙ (rw (← here) over)))
  ]

  pub put-Inv : Inv (put_record id u s)
  put-Inv = record {
    records = λ j w h. elim (insert_cases j id u w s.transactions h) [
      | inr (_, before) ↦ v.records j w before
      | inl (e, here) ↦ rw here p.0
    ];
    named = λ j w h. elim (insert_cases j id u w s.transactions h) [
      | inr (_, before) ↦ v.named j w before
      | inl (e, here) ↦ rw (e, here, p.1.request) (v.named id t there)
    ];
    held = put_held;
    holds = put_holds;
    outcome_final = put_outcome;
    closed_outcome = put_closed;
    issued = λ j w h. elim (insert_cases j id u w s.transactions h) [
      | inr (_, before) ↦ v.issued j w before
      | inl (e, here) ↦ rw (here, p.1.token) (v.issued id t there)
    ];
    started = v.started;
    sorted = insert-IsSorted id u s.transactions v.sorted;
    bounded = omega (arith, length-insert_present id u t s.transactions v.sorted there, v.bounded);
  }
