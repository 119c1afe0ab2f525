-- ===== src/Transaction/Registry/Replay.antt =====
-- Repeating `sandbox_begin`.
use sdkwork_sandbox.Base.{
  ℕ, ◌≡◌, refl, inl, inr, true, false, some, Text, ok, err, arith, Result-cases, Bool-cases,
  Option-cases, ◌∙◌, ap, get, text_eq, text_eq_iff, text_eq_self, get-insert_self, ℤ, ◌≢◌,
}
use sdkwork_sandbox.Transaction.Request.{TransactionRequest}
use sdkwork_sandbox.Transaction.Registry.Record.{TransactionRecord, Registry}
use sdkwork_sandbox.Transaction.Registry.Invariant.{Recorded}
use sdkwork_sandbox.Transaction.Error.{invalid_request}
use sdkwork_sandbox.Transaction.Request.{request_validated}
use sdkwork_sandbox.Transaction.Registry.Record.{TransactionHandle, handle_of}
use sdkwork_sandbox.Transaction.Registry.Begin.{
  begin, begin_fresh, begin_admission, begin_replay, begin_record,
}

-- What a begin that succeeds leaves: its operation under the request's fingerprint, and the
-- transaction that the handle describes.
record Begun (r : TransactionRequest) (s : Registry) (h : TransactionHandle) : Type 0 where
  valid : request_validated r ≡ ok tt
  seen : get r.operation_id s.fingerprints_by_operation ≡ some r.request_fingerprint
  there :
      (t : TransactionRecord) × Recorded s r.workspace_runtime_transaction_id t × (handle_of t ≡ h)

replayed :
    (recorded : Text) (r : TransactionRequest) (s : Registry) (h : TransactionHandle)
    → begin_replay recorded r s ≡ ok h
    → (recorded ≡ r.request_fingerprint)
      × ((t : TransactionRecord) × Recorded s r.workspace_runtime_transaction_id t
          × (handle_of t ≡ h))
unfolding begin_replay
replayed recorded r s h e = elim (Bool-cases (text_eq recorded r.request_fingerprint)) [
  | inr other ↦ absurd (cc (rw other at e))
  | inl same ↦ elim (Option-cases (get r.workspace_runtime_transaction_id s.transactions)) [
    | inl gone ↦ absurd (cc (rw (same, gone) at e))
    | inr (t, at) ↦ ((text_eq_iff recorded r.request_fingerprint).0 same, (t, at, found t same at))
  ]
]
  where
    found :
        (t : TransactionRecord)
        → text_eq recorded r.request_fingerprint ≡ true
        → Recorded s r.workspace_runtime_transaction_id t
        → handle_of t ≡ h
    found t same at = ground (arith, (rw (same, at) at e))

begun_fresh :
    (now : ℕ) (r : TransactionRequest) (s : Registry) (h : TransactionHandle)
    → request_validated r ≡ ok tt
    → (begin_fresh now r s).1 ≡ ok h
    → Begun r (begin_fresh now r s).0 h
unfolding begin_fresh handle_of
begun_fresh now r s h valid e = elim (Result-cases (begin_admission now r s)) [
  | inr (x, q) ↦ absurd (cc (rw (q, begin_fresh) at e))
  | inl (token, q) ↦
      rw (q, begin_fresh)
        (record {
          valid = valid;
          seen = get-insert_self r.operation_id r.request_fingerprint s.fingerprints_by_operation;
          there = (
            begin_record r token,
            get-insert_self r.workspace_runtime_transaction_id (begin_record r token)
                s.transactions,
            same token q,
          );
        })
]
  where
    same : (token : ℤ) → begin_admission now r s ≡ ok token → handle_of (begin_record r token) ≡ h
    same token q = ground (arith, (rw (q, begin_fresh) at e))

begun :
    (now : ℕ) (r : TransactionRequest) (s : Registry) (h : TransactionHandle)
    → (begin now r s).1 ≡ ok h
    → Begun r (begin now r s).0 h
unfolding begin
begun now r s h e = elim (Result-cases (request_validated r)) [
  | inr (x, p) ↦ absurd (cc (rw (p, begin) at e))
  | inl (a, p) ↦ elim (Option-cases (get r.operation_id s.fingerprints_by_operation)) [
    | inl new ↦ rw (p, new, begin) (begun_fresh now r s h p (rw (p, new, begin) at e))
    | inr (recorded, old) ↦ rw (p, old, begin) (again recorded old (rw (p, old, begin) at e) p)
  ]
]
  where
    again :
        (recorded : Text)
        → get r.operation_id s.fingerprints_by_operation ≡ some recorded
        → begin_replay recorded r s ≡ ok h
        → request_validated r ≡ ok tt
        → Begun r s h
    again recorded old q p =
        let (same, there) = replayed recorded r s h q in
        record { valid = p; seen = old ∙ ap some same; there = there }

-- A begin that succeeded may be repeated at any later time, before any other call: it reports the
-- same handle and changes nothing, whatever the deadline and the room are by then.
pub begin_replays :
    (now later : ℕ) (r : TransactionRequest) (s : Registry) (h : TransactionHandle)
    → (begin now r s).1 ≡ ok h
    → begin later r (begin now r s).0 ≡ ((begin now r s).0, ok h)
begin_replays now later r s h e = again (begin now r s).0 (begun now r s h e)
  where
    again : (s' : Registry) → Begun r s' h → begin later r s' ≡ (s', ok h)
    again s' b =
        let (t, at, same) = b.there in
        unfold begin begin_replay in
        rw (b.valid, b.seen, begin)
          (rw (text_eq_self r.request_fingerprint, at, begin_replay) (ap (λ x. (s', ok x)) same))

-- Nor may the operation be used for another request: a valid request of the same operation with
-- another fingerprint is refused as invalid and changes nothing.
pub begin_mismatch :
    (now later : ℕ) (r q : TransactionRequest) (s : Registry) (h : TransactionHandle)
    → (begin now r s).1 ≡ ok h
    → request_validated q ≡ ok tt
    → q.operation_id ≡ r.operation_id
    → q.request_fingerprint ≢ r.request_fingerprint
    → begin later q (begin now r s).0 ≡ ((begin now r s).0, err invalid_request)
begin_mismatch now later r q s h e valid same other = refuse (begin now r s).0 (begun now r s h e)
  where
    refuse : (s' : Registry) → Begun r s' h → begin later q s' ≡ (s', err invalid_request)
    refuse s' b =
        let seen : get q.operation_id s'.fingerprints_by_operation ≡ some r.request_fingerprint =
          rw same b.seen in
        let differs : text_eq r.request_fingerprint q.request_fingerprint ≡ false =
          ground (arith, text_eq_iff r.request_fingerprint q.request_fingerprint) in
        unfold begin begin_replay in rw (valid, seen, begin) (rw (differs, begin_replay) refl)
