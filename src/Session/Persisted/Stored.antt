-- ===== src/Session/Persisted/Stored.antt =====
-- The stored form of a session as a predicate on its fields, and how the moves of a session keep it.
use sdkwork_sandbox.Base.{
  leb, leb→le, ◌≤◌, ◌↔◌, refl, Result-cases, Bool-cases, inl, inr, ◌≡◌, sym, subst, ap, true,
  Option, none, some, List, [], ◌∷◌, ◌++◌, Text, ok, arith,
}
use sdkwork_sandbox.Session.Kinds.{
  SessionState, created, create, SessionFailure, OperationOutcome, in_progress, succeeded,
  is_transient, state_eq, last_failure_eq,
}
use sdkwork_sandbox.Session.Ledger.{Operation, find_operation, set_outcome, last_operation}
use sdkwork_sandbox.Session.Model.{Session, max_session_version, RuntimeBinding}
use sdkwork_sandbox.Session.Persisted.{
  failure_kind_is_valid, leads_to, replayed_state, replayed_failure, replay_ledger,
  replay_from_create, validate_persisted_invariants, state_is_consistent,
}
use sdkwork_sandbox.Session.Persisted.Replay.{
  awaited_kind, replay-append, replay_awaits, replay-settle, last_is_fresh,
}

-- A ledger that begins with a create that has succeeded, whose other entries replay to the state and
-- to the last failure, with a binding that the state allows.
abbrev pub Stored :
    List Operation → SessionState → Option SessionFailure → Option RuntimeBinding → Type 0
Stored ops state failure b =
    (o : Operation) × (os : List Operation) × (ops ≡ o ∷ os)
    × (o.operation_kind ≡ create)
    × (o.operation_outcome ≡ succeeded)
    × (replay_ledger (o.operation_id ∷ []) created none os ≡ ok (state, failure))
    × (state_is_consistent state b ≡ true)

abbrev pub IsStored : Session → Type 0
IsStored s = Stored s.operations s.session_state s.last_failure s.runtime_binding

-- The last entry of a ledger is the operation that its state waits for, under this identity.
abbrev pub Awaits : Text → SessionState → List Operation → Type 0
Awaits id state ops =
    (o : Operation) × (last_operation ops ≡ some o)
    × (o.operation_id ≡ id)
    × (o.operation_kind ≡ awaited_kind state)

last_operation-append :
    (o : Operation) (os : List Operation) → last_operation (os ++ o ∷ []) ≡ some o
unfolding last_operation
last_operation-append o [] = refl
last_operation-append o (p ∷ []) = refl
last_operation-append o (p ∷ q ∷ os) = last_operation-append o (q ∷ os)

-- An operation under a new identity begins, in a state that allows it.
pub begun-Stored :
    (ops : List Operation) (state n : SessionState) (failure : Option SessionFailure)
    (b next : Option RuntimeBinding) (o : Operation)
    → Stored ops state failure b
    → find_operation o.operation_id ops ≡ none
    → o.operation_outcome ≡ in_progress
    → replayed_state state o.operation_kind in_progress ≡ some n
    → o.operation_kind ≡ awaited_kind n
    → failure_kind_is_valid o.operation_kind in_progress ≡ true
    → state_is_consistent n next ≡ true
    → Stored (ops ++ o ∷ []) n none next × Awaits o.operation_id n (ops ++ o ∷ [])
unfolding find_operation
begun-Stored ops state n failure b next o (p, os, shape, k, w, h, c) fresh running e kind valid c' =
    let new : find_operation o.operation_id (p ∷ os) ≡ none =
      subst (λ l. find_operation o.operation_id l ≡ none) shape fresh in
    let replayed =
      replay-append (p.operation_id ∷ []) created state n none failure os o h (ground (arith, new))
        (ground (arith, new)) (ground (arith, running, valid)) (ground (arith, running, e)) in
    (
      (p, os ++ o ∷ [], ap (λ l. l ++ o ∷ []) shape, k, w, ground (arith, replayed, running), c'),
      (o, last_operation-append o ops, refl, kind),
    )

-- The operation that a session waits for ends.
pub settled-Stored :
    (id : Text) (ops : List Operation) (state : SessionState) (failure : Option SessionFailure)
    (b next : Option RuntimeBinding) (w : OperationOutcome)
    → Stored ops state failure b
    → Awaits id state ops
    → is_transient state ≡ true
    → failure_kind_is_valid (awaited_kind state) w ≡ true
    → state_is_consistent (leads_to (awaited_kind state) w) next ≡ true
    → Stored (set_outcome id w ops) (leads_to (awaited_kind state) w) (replayed_failure w) next
unfolding last_operation set_outcome replay_ledger
settled-Stored id ops state failure b next w (p, [], shape, k, u, h, c) a t v c' =
    absurd (ground (arith, h, t))
settled-Stored id ops state failure b next w (p, q ∷ os, shape, k, u, h, c) (o, l, i, kind) t v c' =
    let last : last_operation (p ∷ q ∷ os) ≡ some o =
      subst (λ x. last_operation x ≡ some o) shape l in
    let apart = last_is_fresh (p.operation_id ∷ []) created state none failure (q ∷ os) o h last in
    let valid : failure_kind_is_valid o.operation_kind w ≡ true =
      subst (λ x. failure_kind_is_valid x w ≡ true) (sym kind) v in
    let settled =
      replay-settle (p.operation_id ∷ []) created state none failure (q ∷ os) o w h last valid in
    (
      p,
      set_outcome id w (q ∷ os),
      subst (λ x. set_outcome id w x ≡ p ∷ set_outcome id w (q ∷ os)) (sym shape)
          (ground (arith, apart, i)),
      k,
      u,
      subst
          (λ x.
            replay_ledger (p.operation_id ∷ []) created none (set_outcome x w (q ∷ os))
            ≡ ok (leads_to (awaited_kind state) w, replayed_failure w))
          i
          (subst
            (λ x.
              replay_ledger (p.operation_id ∷ []) created none
                (set_outcome o.operation_id w (q ∷ os))
              ≡ ok (leads_to x w, replayed_failure w))
            kind settled),
      c',
    )

-- A session that waits has the operation it waits for as its last entry.
pub Stored-Awaits :
    (ops : List Operation) (state : SessionState) (failure : Option SessionFailure)
    (b : Option RuntimeBinding)
    → Stored ops state failure b
    → is_transient state ≡ true
    → (o : Operation) × (last_operation ops ≡ some o)
      × (o.operation_kind ≡ awaited_kind state)
      × (o.operation_outcome ≡ in_progress)
unfolding last_operation replay_ledger
Stored-Awaits ops state failure b (p, [], shape, k, u, h, c) t = absurd (ground (arith, h, t))
Stored-Awaits ops state failure b (p, q ∷ os, shape, k, u, h, c) t =
    let (o, l, kind, w) =
      replay_awaits (p.operation_id ∷ []) created state none failure (q ∷ os) h refl t in
    (o, subst (λ x. last_operation x ≡ some o) (sym shape) l, kind, w)

pub state_eq_iff : (a b : SessionState) → (state_eq a b ≡ true) ↔ (a ≡ b)
state_eq_iff a b = ground arith

last_failure_eq_iff : (a b : Option SessionFailure) → (last_failure_eq a b ≡ true) ↔ (a ≡ b)
last_failure_eq_iff a b = ground arith

IsStored-of_valid :
    (s : Session) (ops : List Operation)
    → s.operations ≡ ops
    → validate_persisted_invariants s ≡ ok tt
    → IsStored s
unfolding validate_persisted_invariants replay_from_create
IsStored-of_valid s [] e h = absurd (ground (arith, h, e))
IsStored-of_valid s (o ∷ os) e h =
    elim (Result-cases (replay_ledger (o.operation_id ∷ []) created none os)) [
      | inr (x, r) ↦ absurd (ground (arith, h, e, r))
      | inl ((t, g), r) ↦
          let same = (state_eq_iff t s.session_state).0 (ground (arith, h, e, r)) in
          let failed_same = (last_failure_eq_iff g s.last_failure).0 (ground (arith, h, e, r)) in
          (
            o,
            os,
            e,
            ground (arith, h, e, r),
            ground (arith, h, e, r),
            ground (arith, r, same, failed_same),
            ground (arith, h, e, r),
          )
    ]

valid_of_stored :
    (s : Session)
    → s.version ≤ max_session_version
    → IsStored s
    → validate_persisted_invariants s ≡ ok tt
unfolding validate_persisted_invariants replay_from_create
valid_of_stored s v (o, os, e, k, w, h, c) = ground (
  arith,
  v,
  e,
  k,
  w,
  h,
  c,
  state_eq_iff s.session_state s.session_state,
  last_failure_eq_iff s.last_failure s.last_failure,
)

version_of_valid :
    (s : Session) → validate_persisted_invariants s ≡ ok tt → s.version ≤ max_session_version
unfolding validate_persisted_invariants
version_of_valid s h = elim (Bool-cases (leb s.version max_session_version)) [
  | inl e ↦ leb→le s.version max_session_version e
  | inr e ↦ absurd (ground (arith, h, e))
]

-- The test that both repositories make of a session they are to store succeeds exactly when the
-- version is at most its maximum, the ledger begins with a create that has succeeded, its other
-- entries replay to the state and to the last failure, and the state allows the binding.
pub validate_iff :
    (s : Session)
    → (validate_persisted_invariants s ≡ ok tt) ↔ ((s.version ≤ max_session_version) × IsStored s)
validate_iff s = (
  (λ h. (version_of_valid s h, IsStored-of_valid s s.operations refl h)),
  (λ p. valid_of_stored s p.0 p.1),
)
