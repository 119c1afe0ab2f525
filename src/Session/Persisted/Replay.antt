-- ===== src/Session/Persisted/Replay.antt =====
-- The replay of a ledger: its last entry decides the state, and only the last can be in progress.
use sdkwork_sandbox.Base.{
  subst, ◌≡◌, refl, inl, inr, true, false, Option, none, some, List, [], ◌∷◌, ◌++◌, Text,
  text_eq_self, ok, Bool-cases, Option-cases, arith,
}
use sdkwork_sandbox.Session.Kinds.{
  SessionState, starting, stopping, destroying, OperationKind, start, stop, destroy, SessionFailure,
  OperationOutcome, in_progress, is_transient,
}
use sdkwork_sandbox.Session.Ledger.{Operation, find_operation, set_outcome, last_operation}
use sdkwork_sandbox.Session.Persisted.{
  is_member, failure_kind_is_valid, leads_to, replayed_state, replayed_failure, replay_ledger,
}

-- The operation that a state waits for.
abbrev pub awaited_kind : SessionState → OperationKind
awaited_kind starting = start
awaited_kind stopping = stop
awaited_kind destroying = destroy
awaited_kind _ = OperationKind.create

-- What a replay of one more entry took.
pub replay_cons :
    (seen : List Text) (s t : SessionState) (f g : Option SessionFailure) (o : Operation)
    (os : List Operation)
    → replay_ledger seen s f (o ∷ os) ≡ ok (t, g)
    → (n : SessionState) × (is_member o.operation_id seen ≡ false)
      × (failure_kind_is_valid o.operation_kind o.operation_outcome ≡ true)
      × (replayed_state s o.operation_kind o.operation_outcome ≡ some n)
      × (replay_ledger (o.operation_id ∷ seen) n (replayed_failure o.operation_outcome) os
          ≡ ok (t, g))
unfolding replay_ledger
replay_cons seen s t f g o os h =
    elim (Option-cases (replayed_state s o.operation_kind o.operation_outcome)) [
      | inl e ↦ absurd (ground (arith, h, e))
      | inr (n, e) ↦ (n, ground (arith, h, e), ground (arith, h, e), e, ground (arith, h, e))
    ]

transient_awaits :
    (s n : SessionState) (k : OperationKind) (w : OperationOutcome)
    → replayed_state s k w ≡ some n
    → is_transient n ≡ true
    → (k ≡ awaited_kind n) × (w ≡ in_progress)
transient_awaits s n k w e t = ground arith

transient_is_last :
    (s : SessionState) (k : OperationKind) (w : OperationOutcome)
    → is_transient s ≡ true
    → replayed_state s k w ≡ none
transient_is_last s k w t = ground arith

other_outcome :
    (s n : SessionState) (k : OperationKind) (v w : OperationOutcome)
    → replayed_state s k v ≡ some n
    → replayed_state s k w ≡ some (leads_to k w)
other_outcome s n k v w e = ground arith

-- One more entry replays after the others.
pub replay-append :
    (seen : List Text) (s t n : SessionState) (f g : Option SessionFailure) (os : List Operation)
    (o : Operation)
    → replay_ledger seen s f os ≡ ok (t, g)
    → is_member o.operation_id seen ≡ false
    → find_operation o.operation_id os ≡ none
    → failure_kind_is_valid o.operation_kind o.operation_outcome ≡ true
    → replayed_state t o.operation_kind o.operation_outcome ≡ some n
    → replay_ledger seen s f (os ++ o ∷ []) ≡ ok (n, replayed_failure o.operation_outcome)
unfolding replay_ledger find_operation
replay-append seen s t n f g [] o h m u v e = ground (arith, h, m, v, e)
replay-append seen s t n f g (p ∷ os) o h m u v e =
    let (q, fresh, valid, next, rest) = replay_cons seen s t f g p os h in
    ground (
      arith,
      fresh,
      valid,
      next,
      replay-append (p.operation_id ∷ seen) q t n (replayed_failure p.operation_outcome) g os o
          rest,
    )

-- A session that waits has, as its last entry, the operation in progress that it waits for.
pub replay_awaits :
    (seen : List Text) (s t : SessionState) (f g : Option SessionFailure) (os : List Operation)
    → replay_ledger seen s f os ≡ ok (t, g)
    → is_transient s ≡ false
    → is_transient t ≡ true
    → (o : Operation) × (last_operation os ≡ some o)
      × (o.operation_kind ≡ awaited_kind t)
      × (o.operation_outcome ≡ in_progress)
unfolding replay_ledger last_operation
replay_awaits seen s t f g [] h a b = absurd (cc)
replay_awaits seen s t f g (p ∷ []) h a b =
    let (q, fresh, valid, next, rest) = replay_cons seen s t f g p [] h in
    let same : q ≡ t = ground (arith, rest) in
    let (k, w) =
      transient_awaits s q p.operation_kind p.operation_outcome next (ground (arith, same, b)) in
    (p, refl, ground (arith, k, same), w)
replay_awaits seen s t f g (p ∷ r ∷ os) h a b =
    let (q, fresh, valid, next, rest) = replay_cons seen s t f g p (r ∷ os) h in
    replay_awaits (p.operation_id ∷ seen) q t (replayed_failure p.operation_outcome) g (r ∷ os) rest
      (go_on q (p.operation_id ∷ seen) t (replayed_failure p.operation_outcome) g r os rest) b
  where
    go_on :
        (q : SessionState) (seen : List Text) (t : SessionState) (f g : Option SessionFailure)
        (r : Operation) (os : List Operation)
        → replay_ledger seen q f (r ∷ os) ≡ ok (t, g)
        → is_transient q ≡ false
    go_on q seen t f g r os h = elim (Bool-cases (is_transient q)) [
      | inr e ↦ e
      | inl e ↦
          let (n, _, _, next, _) = replay_cons seen q t f g r os h in
          absurd (cc (transient_is_last q r.operation_kind r.operation_outcome e))
    ]

-- The last entry is under an identity that no entry before it has.
pub last_is_fresh :
    (seen : List Text) (s t : SessionState) (f g : Option SessionFailure) (os : List Operation)
    (o : Operation)
    → replay_ledger seen s f os ≡ ok (t, g)
    → last_operation os ≡ some o
    → is_member o.operation_id seen ≡ false
unfolding last_operation
last_is_fresh seen s t f g [] o h e = absurd (cc)
last_is_fresh seen s t f g (p ∷ []) o h e =
    let (q, fresh, valid, next, rest) = replay_cons seen s t f g p [] h in ground (arith, fresh, e)
last_is_fresh seen s t f g (p ∷ r ∷ os) o h e =
    let (q, fresh, valid, next, rest) = replay_cons seen s t f g p (r ∷ os) h in
    ground (
      arith,
      last_is_fresh (p.operation_id ∷ seen) q t (replayed_failure p.operation_outcome) g (r ∷ os) o
          rest e,
    )

-- The operation in progress takes its outcome: the state it leads to, and the failure it records.
pub replay-settle :
    (seen : List Text) (s t : SessionState) (f g : Option SessionFailure) (os : List Operation)
    (o : Operation) (w : OperationOutcome)
    → replay_ledger seen s f os ≡ ok (t, g)
    → last_operation os ≡ some o
    → failure_kind_is_valid o.operation_kind w ≡ true
    → replay_ledger seen s f (set_outcome o.operation_id w os)
      ≡ ok (leads_to o.operation_kind w, replayed_failure w)
unfolding replay_ledger last_operation set_outcome
replay-settle seen s t f g [] o w h e v = absurd (cc)
replay-settle seen s t f g (p ∷ []) o w h e v =
    let (q, fresh, valid, next, rest) = replay_cons seen s t f g p [] h in
    let same : p ≡ o = ground (arith, e) in
    subst
      (λ x.
        replay_ledger seen s f (set_outcome x.operation_id w (p ∷ []))
        ≡ ok (leads_to x.operation_kind w, replayed_failure w))
      same
      (ground (
        arith,
        fresh,
        text_eq_self p.operation_id,
        other_outcome s q p.operation_kind p.operation_outcome w next,
        v,
        same,
      ))
replay-settle seen s t f g (p ∷ r ∷ os) o w h e v =
    let (q, fresh, valid, next, rest) = replay_cons seen s t f g p (r ∷ os) h in
    let apart =
      last_is_fresh (p.operation_id ∷ seen) q t (replayed_failure p.operation_outcome) g (r ∷ os) o
        rest e in
    let later =
      replay-settle (p.operation_id ∷ seen) q t (replayed_failure p.operation_outcome) g (r ∷ os) o
        w rest e v in
    ground (arith, fresh, valid, next, apart, later)
