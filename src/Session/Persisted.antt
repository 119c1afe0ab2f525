-- ===== src/Session/Persisted.antt =====
-- service/src/repository.rs: what a session must satisfy to be stored.
pub mod Replay
pub mod Stored
pub mod Lives
pub mod Lifecycle
use sdkwork_sandbox.Base.{
  leb, Bool, true, false, not, ◌||◌, Option, none, some, List, [], ◌∷◌, Text, text_eq, is_some, ok,
  err, ◌>>=◌, ◌>>◌, guard, ok_or,
}
use sdkwork_sandbox.Session.Kinds.{
  SessionState, created, starting, running, stopping, stopped, failed, destroying, destroyed,
  OperationKind, start, stop, destroy, create, SessionFailure, provider, cleanup, OperationOutcome,
  in_progress, succeeded, failed_with, state_eq, kind_eq, outcome_eq, last_failure_eq,
}
use sdkwork_sandbox.Session.Ledger.{Operation}
use sdkwork_sandbox.Session.Error.{RepositoryResult, invalid_stored_data}
use sdkwork_sandbox.Session.Model.{RuntimeBinding, Session, max_session_version}

abbrev pub is_member : Text → List Text → Bool
is_member id [] = false
is_member id (j ∷ seen) = text_eq j id || is_member id seen

-- Whether an operation of this kind may have this outcome.
abbrev pub failure_kind_is_valid : OperationKind → OperationOutcome → Bool
failure_kind_is_valid create _ = false
failure_kind_is_valid start _ = true
failure_kind_is_valid stop in_progress = true
failure_kind_is_valid stop succeeded = true
failure_kind_is_valid stop (failed_with provider) = true
failure_kind_is_valid stop (failed_with _) = false
failure_kind_is_valid destroy in_progress = true
failure_kind_is_valid destroy succeeded = true
failure_kind_is_valid destroy (failed_with cleanup) = true
failure_kind_is_valid destroy (failed_with _) = false

-- The states in which an operation leaves the session, by its outcome.
abbrev pub start_leads_to : OperationOutcome → SessionState
start_leads_to in_progress = starting
start_leads_to succeeded = running
start_leads_to (failed_with _) = failed

abbrev pub stop_leads_to : OperationOutcome → SessionState
stop_leads_to in_progress = stopping
stop_leads_to succeeded = stopped
stop_leads_to (failed_with _) = failed

abbrev pub destroy_leads_to : OperationOutcome → SessionState
destroy_leads_to in_progress = destroying
destroy_leads_to succeeded = destroyed
destroy_leads_to (failed_with _) = failed

abbrev pub leads_to : OperationKind → OperationOutcome → SessionState
leads_to create outcome = created
leads_to start outcome = start_leads_to outcome
leads_to stop outcome = stop_leads_to outcome
leads_to destroy outcome = destroy_leads_to outcome

-- One entry of the ledger, replayed.
abbrev pub replayed_state : SessionState → OperationKind → OperationOutcome → Option SessionState
replayed_state created start outcome = some (leads_to start outcome)
replayed_state stopped start outcome = some (leads_to start outcome)
replayed_state failed start outcome = some (leads_to start outcome)
replayed_state running stop outcome = some (leads_to stop outcome)
replayed_state created destroy outcome = some (leads_to destroy outcome)
replayed_state stopped destroy outcome = some (leads_to destroy outcome)
replayed_state failed destroy outcome = some (leads_to destroy outcome)
replayed_state _ _ _ = none

abbrev pub replayed_failure : OperationOutcome → Option SessionFailure
replayed_failure (failed_with f) = some f
replayed_failure _ = none

-- What the entries after the first replay to, from a state and a last failure.
unfoldable pub replay_ledger :
    List Text
    → SessionState
    → Option SessionFailure
    → List Operation
    → RepositoryResult (SessionState × Option SessionFailure)
replay_ledger seen state failure [] = ok (state, failure)
replay_ledger seen state failure (o ∷ os) = do
  guard (not (is_member o.operation_id seen)) invalid_stored_data
  guard (failure_kind_is_valid o.operation_kind o.operation_outcome) invalid_stored_data
  next ← ok_or (replayed_state state o.operation_kind o.operation_outcome) invalid_stored_data
  replay_ledger (o.operation_id ∷ seen) next (replayed_failure o.operation_outcome) os

-- What a whole ledger replays to: the first entry is a create that has succeeded.
unfoldable pub replay_from_create :
    List Operation → RepositoryResult (SessionState × Option SessionFailure)
unfolding replay_ledger
replay_from_create [] = err invalid_stored_data
replay_from_create (o ∷ os) = do
  guard (kind_eq o.operation_kind create) invalid_stored_data
  guard (outcome_eq o.operation_outcome succeeded) invalid_stored_data
  replay_ledger (o.operation_id ∷ []) created none os

abbrev pub has_allocation_reference : Option RuntimeBinding → Bool
has_allocation_reference none = false
has_allocation_reference (some b) = is_some b.allocation_reference

-- Which states have a binding, and which have an allocation.
abbrev pub state_is_consistent : SessionState → Option RuntimeBinding → Bool
state_is_consistent created b = not (is_some b)
state_is_consistent starting b = is_some b
state_is_consistent running b = has_allocation_reference b
state_is_consistent stopping b = has_allocation_reference b
state_is_consistent stopped b = has_allocation_reference b
state_is_consistent failed b = true
state_is_consistent destroying b = true
state_is_consistent destroyed b = not (is_some b)

unfoldable pub validate_persisted_invariants : Session → RepositoryResult (Unit {0})
unfolding replay_from_create
validate_persisted_invariants s = do
  guard (leb s.version max_session_version) invalid_stored_data
  (state, failure) ← replay_from_create s.operations
  guard (state_eq state s.session_state) invalid_stored_data
  guard (last_failure_eq failure s.last_failure) invalid_stored_data
  guard (state_is_consistent s.session_state s.runtime_binding) invalid_stored_data
  ok tt
