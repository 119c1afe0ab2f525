-- ===== src/Transaction/State.antt =====
-- transaction-control/src/state.rs: the eleven states of a transaction and their closed table.
pub mod Names
use sdkwork_sandbox.Base.{
  ℕ, ◌==◌, Bool, true, false, Option, none, some, Text, text, text_eq, if◌then◌else◌,
}

pub data TransactionState : Type 0 where
  requested admitted capacity_reserved runtime_bound workspace_attaching ready executing
        checkpointing compensating released quarantined :
      TransactionState

-- The contract name of a state.
unfoldable pub as_str : TransactionState → Text
as_str requested = text "requested"
as_str admitted = text "admitted"
as_str capacity_reserved = text "capacity_reserved"
as_str runtime_bound = text "runtime_bound"
as_str workspace_attaching = text "workspace_attaching"
as_str ready = text "ready"
as_str executing = text "executing"
as_str checkpointing = text "checkpointing"
as_str compensating = text "compensating"
as_str released = text "released"
as_str quarantined = text "quarantined"

-- Parses a contract name; unknown names are rejected.
unfoldable pub parse : Text → Option TransactionState
parse value =
    if text_eq value (text "requested")
    then some requested
    else if text_eq value (text "admitted")
    then some admitted
    else if text_eq value (text "capacity_reserved")
    then some capacity_reserved
    else if text_eq value (text "runtime_bound")
    then some runtime_bound
    else if text_eq value (text "workspace_attaching")
    then some workspace_attaching
    else if text_eq value (text "ready")
    then some ready
    else if text_eq value (text "executing")
    then some executing
    else if text_eq value (text "checkpointing")
    then some checkpointing
    else if text_eq value (text "compensating")
    then some compensating
    else if text_eq value (text "released")
    then some released
    else if text_eq value (text "quarantined")
    then some quarantined
    else none

-- The order of declaration, by which derived equality compares.
abbrev pub ordinal : TransactionState → ℕ
ordinal requested = 0
ordinal admitted = 1
ordinal capacity_reserved = 2
ordinal runtime_bound = 3
ordinal workspace_attaching = 4
ordinal ready = 5
ordinal executing = 6
ordinal checkpointing = 7
ordinal compensating = 8
ordinal released = 9
ordinal quarantined = 10

abbrev pub state_eq : TransactionState → TransactionState → Bool
state_eq a b = ordinal a == ordinal b

-- The closed transition table.
unfoldable pub can_transition_to : TransactionState → TransactionState → Bool
can_transition_to requested admitted = true
can_transition_to requested compensating = true
can_transition_to requested quarantined = true
can_transition_to admitted capacity_reserved = true
can_transition_to admitted compensating = true
can_transition_to admitted quarantined = true
can_transition_to capacity_reserved runtime_bound = true
can_transition_to capacity_reserved compensating = true
can_transition_to capacity_reserved quarantined = true
can_transition_to runtime_bound workspace_attaching = true
can_transition_to runtime_bound compensating = true
can_transition_to runtime_bound quarantined = true
can_transition_to workspace_attaching ready = true
can_transition_to workspace_attaching compensating = true
can_transition_to workspace_attaching quarantined = true
can_transition_to ready executing = true
can_transition_to ready compensating = true
can_transition_to ready quarantined = true
can_transition_to executing checkpointing = true
can_transition_to executing compensating = true
can_transition_to executing quarantined = true
can_transition_to checkpointing released = true
can_transition_to checkpointing compensating = true
can_transition_to checkpointing quarantined = true
can_transition_to compensating released = true
can_transition_to compensating quarantined = true
can_transition_to _ _ = false
