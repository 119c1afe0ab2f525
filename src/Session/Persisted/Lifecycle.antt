-- ===== src/Session/Persisted/Lifecycle.antt =====
-- The test of the stored form is the test of a life that a session can have had.
use sdkwork_sandbox.Base.{
  ◌≡◌, ◌≢◌, ◌≤◌, ◌↔◌, refl, sym, subst, true, false, Option, none, some, is_some, List, [], ◌∷◌,
  All, Text, text_eq, text_eq_iff, i64_max, ok, arith, Bool-cases, Option-cases, inl, inr,
}
use sdkwork_sandbox.Session.Kinds.{
  SessionState, created, starting, running, stopping, stopped, failed, destroying, destroyed,
  OperationKind, SessionFailure, OperationOutcome,
}
use sdkwork_sandbox.Session.Error.{RepositoryResult}
use sdkwork_sandbox.Session.Ledger.{Operation}
use sdkwork_sandbox.Session.Model.{Session, RuntimeBinding}
use sdkwork_sandbox.Session.Persisted.{
  is_member, failure_kind_is_valid, replayed_state, replayed_failure, replay_ledger,
  state_is_consistent, validate_persisted_invariants,
}
use sdkwork_sandbox.Session.Persisted.Replay.{replay_cons}
use sdkwork_sandbox.Session.Persisted.Stored.{validate_iff}
use sdkwork_sandbox.Session.Persisted.Lives.{
  created_rests, stopped_rests, failed_rests, Moves, start_waits, start_succeeds, start_fails,
  stop_waits, stop_succeeds, stop_fails, destroy_waits, destroy_succeeds, destroy_fails, Lives,
  at_rest, moves, Binds, created_bare, destroyed_bare, starting_bound, running_allocated,
  stopping_allocated, stopped_allocated, failed_anyhow, destroying_anyhow, Distinct, HasLived,
}

Moves-replays :
    {s n : SessionState} {k : OperationKind} {w : OperationOutcome} {g : Option SessionFailure}
    → Moves s k w n g
    → (replayed_state s k w ≡ some n)
      × (failure_kind_is_valid k w ≡ true)
      × (replayed_failure w ≡ g)
Moves-replays (start_waits created_rests) = (refl, refl, refl)
Moves-replays (start_waits stopped_rests) = (refl, refl, refl)
Moves-replays (start_waits failed_rests) = (refl, refl, refl)
Moves-replays (start_succeeds created_rests) = (refl, refl, refl)
Moves-replays (start_succeeds stopped_rests) = (refl, refl, refl)
Moves-replays (start_succeeds failed_rests) = (refl, refl, refl)
Moves-replays (start_fails f created_rests) = (refl, refl, refl)
Moves-replays (start_fails f stopped_rests) = (refl, refl, refl)
Moves-replays (start_fails f failed_rests) = (refl, refl, refl)
Moves-replays stop_waits = (refl, refl, refl)
Moves-replays stop_succeeds = (refl, refl, refl)
Moves-replays stop_fails = (refl, refl, refl)
Moves-replays (destroy_waits created_rests) = (refl, refl, refl)
Moves-replays (destroy_waits stopped_rests) = (refl, refl, refl)
Moves-replays (destroy_waits failed_rests) = (refl, refl, refl)
Moves-replays (destroy_succeeds created_rests) = (refl, refl, refl)
Moves-replays (destroy_succeeds stopped_rests) = (refl, refl, refl)
Moves-replays (destroy_succeeds failed_rests) = (refl, refl, refl)
Moves-replays (destroy_fails created_rests) = (refl, refl, refl)
Moves-replays (destroy_fails stopped_rests) = (refl, refl, refl)
Moves-replays (destroy_fails failed_rests) = (refl, refl, refl)

ruleset resting = (created_rests, stopped_rests, failed_rests)

ruleset operations = (
  start_waits, start_succeeds, start_fails, stop_waits, stop_succeeds, stop_fails, destroy_waits,
  destroy_succeeds, destroy_fails,
)

replay-Moves :
    (s n : SessionState) (k : OperationKind) (w : OperationOutcome)
    → replayed_state s k w ≡ some n
    → failure_kind_is_valid k w ≡ true
    → Moves s k w n (replayed_failure w)
replay-Moves s n k w e v = grind (arith, resting, operations)

-- None of the identities of a ledger is among those seen.
abbrev Unseen : List Text → List Operation → Type 0
Unseen seen os = All (λ o. is_member o.operation_id seen ≡ false) os

Unseen-cons :
    (id : Text) (seen : List Text) (os : List Operation)
    → Unseen (id ∷ seen) os
    → Unseen seen os × All (λ o. o.operation_id ≢ id) os
Unseen-cons id seen [] h = (tt, tt)
Unseen-cons id seen (o ∷ os) h =
    let rest = Unseen-cons id seen os h.1 in
    (
      (ground (arith, h.0), rest.0),
      ((λ e. ground (arith, h.0, (text_eq_iff id o.operation_id).1 (sym e))), rest.1),
    )

cons-Unseen :
    (id : Text) (seen : List Text) (os : List Operation)
    → Unseen seen os
    → All (λ o. o.operation_id ≢ id) os
    → Unseen (id ∷ seen) os
cons-Unseen id seen [] h k = tt
cons-Unseen id seen (o ∷ os) h k = (
  elim (Bool-cases (text_eq id o.operation_id)) [
    | inl e ↦ absurd (k.0 (sym ((text_eq_iff id o.operation_id).0 e)))
    | inr e ↦ ground (arith, e, h.0)
  ],
  cons-Unseen id seen os h.1 k.1,
)

replay-Lives :
    (seen : List Text) (s t : SessionState) (f g : Option SessionFailure) (os : List Operation)
    → replay_ledger seen s f os ≡ ok (t, g)
    → Lives s f os t g × Distinct os × Unseen seen os
unfolding replay_ledger
replay-Lives seen s t f g [] h = (subst (λ x. Lives s f [] x.0 x.1) (ok_same h) at_rest, tt, tt)
  where
    ok_same :
        {x y : SessionState × Option SessionFailure}
        → ◌≡◌ {A = RepositoryResult (SessionState × Option SessionFailure)} (ok x) (ok y)
        → x ≡ y
    ok_same e = cc
replay-Lives seen s t f g (o ∷ os) h =
    let (n, fresh, valid, next, rest) = replay_cons seen s t f g o os h in
    let (lives, distinct, unseen) =
      replay-Lives (o.operation_id ∷ seen) n t (replayed_failure o.operation_outcome) g os rest in
    let (before, apart) = Unseen-cons o.operation_id seen os unseen in
    (
      moves o (replay-Moves s n o.operation_kind o.operation_outcome next valid) lives,
      (apart, distinct),
      (fresh, before),
    )

Lives-replay :
    (seen : List Text) {s t : SessionState} {f g : Option SessionFailure} {os : List Operation}
    → Lives s f os t g
    → Distinct os
    → Unseen seen os
    → replay_ledger seen s f os ≡ ok (t, g)
unfolding replay_ledger
Lives-replay seen at_rest d u = refl
Lives-replay seen (moves o {os = os} m l) d u =
    let (next, valid, failure) = Moves-replays m in
    let later =
      Lives-replay (o.operation_id ∷ seen) l d.1 (cons-Unseen o.operation_id seen os u.1 d.0) in
    ground (arith, u.0, next, valid, failure, later)

Binds-iff :
    (s : SessionState) (b : Option RuntimeBinding) → (state_is_consistent s b ≡ true) ↔ Binds s b
Binds-iff s b = (allowed s b, allows)
  where
    reference :
        (b : RuntimeBinding)
        → is_some b.allocation_reference ≡ true
        → (a : Text) × (b.allocation_reference ≡ some a)
    reference b h = elim (Option-cases b.allocation_reference) [
      | inl e ↦ absurd (ground (arith, h, e))
      | inr (a, e) ↦ (a, e)
    ]

    allowed :
        (s : SessionState) (b : Option RuntimeBinding) → state_is_consistent s b ≡ true → Binds s b
    allowed created none h = created_bare
    allowed created (some b) h = absurd (cc)
    allowed destroyed none h = destroyed_bare
    allowed destroyed (some b) h = absurd (cc)
    allowed starting none h = absurd (cc)
    allowed starting (some b) h = starting_bound b
    allowed running none h = absurd (cc)
    allowed running (some b) h = let (a, e) = reference b h in running_allocated b a e
    allowed stopping none h = absurd (cc)
    allowed stopping (some b) h = let (a, e) = reference b h in stopping_allocated b a e
    allowed stopped none h = absurd (cc)
    allowed stopped (some b) h = let (a, e) = reference b h in stopped_allocated b a e
    allowed failed b h = failed_anyhow b
    allowed destroying b h = destroying_anyhow b

    allows :
        {s : SessionState} {b : Option RuntimeBinding} → Binds s b → state_is_consistent s b ≡ true
    allows created_bare = refl
    allows destroyed_bare = refl
    allows (starting_bound b) = refl
    allows (running_allocated b a e) = ground (arith, e)
    allows (stopping_allocated b a e) = ground (arith, e)
    allows (stopped_allocated b a e) = ground (arith, e)
    allows (failed_anyhow b) = refl
    allows (destroying_anyhow b) = refl

-- The test that both repositories make of a session they are to store succeeds exactly for a session
-- whose version is at most the greatest signed number of 64 bits, whose operations have distinct
-- identities, begin with a create that has succeeded and then move a new session, start by start, stop
-- by stop and destroy by destroy, to its state and its last failure, and which has a binding of its
-- state: none when created or destroyed, one when starting, one with an allocation when running,
-- stopping or stopped, and any or none when failed or destroying.
pub valid_iff_lived :
    (s : Session) → (validate_persisted_invariants s ≡ ok tt) ↔ ((s.version ≤ i64_max) × HasLived s)
valid_iff_lived s = (
  λ h.
      let (bound, (o, os, ledger, creates, succeeds, replays, consistent)) = (validate_iff s).0 h in
      let (lives, distinct, unseen) =
        replay-Lives (o.operation_id ∷ []) created s.session_state none s.last_failure os replays in
      (
        bound,
        record {
          first = o;
          rest = os;
          ledger = ledger;
          first_creates = creates;
          first_succeeded = succeeds;
          distinct = ((Unseen-cons o.operation_id [] os unseen).1, distinct);
          life = lives;
          binding = (Binds-iff s.session_state s.runtime_binding).0 consistent;
        },
      ),
  λ p.
      let l = p.1 in
      let apart = cons-Unseen l.first.operation_id [] l.rest (none_seen l.rest) l.distinct.0 in
      (validate_iff s).1 (
        p.0,
        (
          l.first,
          l.rest,
          l.ledger,
          l.first_creates,
          l.first_succeeded,
          Lives-replay (l.first.operation_id ∷ []) l.life l.distinct.1 apart,
          (Binds-iff s.session_state s.runtime_binding).1 l.binding,
        ),
      ),
)
  where
    none_seen : (os : List Operation) → Unseen [] os
    none_seen [] = tt
    none_seen (o ∷ os) = (refl, none_seen os)
