-- ===== src/Session/Persisted/Lives.antt =====
-- The lives that a session can have had, as relations between states.
use sdkwork_sandbox.Base.{◌≡◌, ◌≢◌, Option, none, some, List, [], ◌∷◌, All, Text}
use sdkwork_sandbox.Session.Kinds.{
  SessionState, created, starting, running, stopping, stopped, failed, destroying, destroyed,
  OperationKind, start, stop, destroy, create, SessionFailure, provider, cleanup, OperationOutcome,
  in_progress, succeeded, failed_with,
}
use sdkwork_sandbox.Session.Ledger.{Operation}
use sdkwork_sandbox.Session.Model.{Session, RuntimeBinding}

-- The states from which a session can be started or destroyed.
pub data Rests : SessionState → Type 0 where
  created_rests : Rests created
  stopped_rests : Rests stopped
  failed_rests : Rests failed

-- What an operation, by its kind and its outcome, makes of a state: the next one, and the failure it
-- leaves.
pub data Moves
    : SessionState
      → OperationKind
      → OperationOutcome
      → SessionState
      → Option SessionFailure
      → Type 0 where
  start_waits : {s : SessionState} → Rests s → Moves s start in_progress starting none
  start_succeeds : {s : SessionState} → Rests s → Moves s start succeeded running none
  start_fails :
      {s : SessionState} (f : SessionFailure)
      → Rests s
      → Moves s start (failed_with f) failed (some f)
  stop_waits : Moves running stop in_progress stopping none
  stop_succeeds : Moves running stop succeeded stopped none
  stop_fails : Moves running stop (failed_with provider) failed (some provider)
  destroy_waits : {s : SessionState} → Rests s → Moves s destroy in_progress destroying none
  destroy_succeeds : {s : SessionState} → Rests s → Moves s destroy succeeded destroyed none
  destroy_fails :
      {s : SessionState} → Rests s → Moves s destroy (failed_with cleanup) failed (some cleanup)

-- The operations of a ledger move a state, with its last failure, to another.
pub data Lives
    : SessionState
      → Option SessionFailure
      → List Operation
      → SessionState
      → Option SessionFailure
      → Type 0 where
  at_rest : {s : SessionState} {f : Option SessionFailure} → Lives s f [] s f
  moves :
      {s n t : SessionState} {f g h : Option SessionFailure} (o : Operation) {os : List Operation}
      → Moves s o.operation_kind o.operation_outcome n g
      → Lives n g os t h
      → Lives s f (o ∷ os) t h

-- Which binding a session has in a state.
pub data Binds : SessionState → Option RuntimeBinding → Type 0 where
  created_bare : Binds created none
  destroyed_bare : Binds destroyed none
  starting_bound : (b : RuntimeBinding) → Binds starting (some b)
  running_allocated :
      (b : RuntimeBinding) (a : Text) → b.allocation_reference ≡ some a → Binds running (some b)
  stopping_allocated :
      (b : RuntimeBinding) (a : Text) → b.allocation_reference ≡ some a → Binds stopping (some b)
  stopped_allocated :
      (b : RuntimeBinding) (a : Text) → b.allocation_reference ≡ some a → Binds stopped (some b)
  failed_anyhow : (b : Option RuntimeBinding) → Binds failed b
  destroying_anyhow : (b : Option RuntimeBinding) → Binds destroying b

-- No two operations of a ledger have one identity.
abbrev pub Distinct : List Operation → Type 0
Distinct [] = Unit
Distinct (o ∷ os) = All (λ p. p.operation_id ≢ o.operation_id) os × Distinct os

-- A session that has had a life: its ledger begins with a create that has succeeded, no two of its
-- operations have one identity, the operations after the create move the state of a new session to
-- its own state and last failure, and it has a binding of its state.
pub record HasLived (s : Session) : Type 0 where
  pub first : Operation
  pub rest : List Operation
  pub ledger : s.operations ≡ first ∷ rest
  pub first_creates : first.operation_kind ≡ create
  pub first_succeeded : first.operation_outcome ≡ succeeded
  pub distinct : Distinct (first ∷ rest)
  pub life : Lives created none rest s.session_state s.last_failure
  pub binding : Binds s.session_state s.runtime_binding
