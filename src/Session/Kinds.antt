-- ===== src/Session/Kinds.antt =====
-- service/src/model.rs: the states of a session, and what its ledger records.
use sdkwork_sandbox.Base.{ℕ, ◌==◌, ◌+◌, Bool, true, false, Option, none, some}

pub data SessionState : Type 0 where
  created starting running stopping stopped failed destroying destroyed : SessionState

-- The order of declaration, by which derived equality compares.
abbrev pub state_ordinal : SessionState → ℕ
state_ordinal created = 0
state_ordinal starting = 1
state_ordinal running = 2
state_ordinal stopping = 3
state_ordinal stopped = 4
state_ordinal failed = 5
state_ordinal destroying = 6
state_ordinal destroyed = 7

abbrev pub state_eq : SessionState → SessionState → Bool
state_eq a b = state_ordinal a == state_ordinal b

pub data OperationKind : Type 0 where
  create start stop destroy : OperationKind

abbrev pub kind_ordinal : OperationKind → ℕ
kind_ordinal create = 0
kind_ordinal start = 1
kind_ordinal stop = 2
kind_ordinal destroy = 3

abbrev pub kind_eq : OperationKind → OperationKind → Bool
kind_eq a b = kind_ordinal a == kind_ordinal b

pub data SessionFailure : Type 0 where
  provider readiness cleanup : SessionFailure

abbrev pub failure_ordinal : SessionFailure → ℕ
failure_ordinal provider = 0
failure_ordinal readiness = 1
failure_ordinal cleanup = 2

abbrev pub last_failure_eq : Option SessionFailure → Option SessionFailure → Bool
last_failure_eq none none = true
last_failure_eq (some a) (some b) = failure_ordinal a == failure_ordinal b
last_failure_eq _ _ = false

-- The outcome `Failed(failure)` of the source is `failed_with`.
pub data OperationOutcome : Type 0 where
  in_progress succeeded : OperationOutcome
  failed_with : SessionFailure → OperationOutcome

abbrev pub outcome_ordinal : OperationOutcome → ℕ
outcome_ordinal in_progress = 0
outcome_ordinal succeeded = 1
outcome_ordinal (failed_with f) = 2 + failure_ordinal f

abbrev pub outcome_eq : OperationOutcome → OperationOutcome → Bool
outcome_eq a b = outcome_ordinal a == outcome_ordinal b

-- Derived equality with a constructor: `outcome == InProgress`.
abbrev pub is_in_progress : OperationOutcome → Bool
is_in_progress in_progress = true
is_in_progress _ = false

-- The table of `transition_sandbox_session`.
unfoldable pub can_transition : SessionState → SessionState → Bool
can_transition created starting = true
can_transition created destroying = true
can_transition starting running = true
can_transition starting failed = true
can_transition running stopping = true
can_transition stopping stopped = true
can_transition stopping failed = true
can_transition stopped starting = true
can_transition stopped destroying = true
can_transition failed starting = true
can_transition failed destroying = true
can_transition destroying destroyed = true
can_transition destroying failed = true
can_transition _ _ = false

-- The states that a reconciliation resolves.
abbrev pub is_transient : SessionState → Bool
is_transient starting = true
is_transient stopping = true
is_transient destroying = true
is_transient _ = false

-- The states that a start and a destroy begin from.
abbrev pub is_resting : SessionState → Bool
is_resting created = true
is_resting stopped = true
is_resting failed = true
is_resting _ = false
