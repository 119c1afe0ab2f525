-- ===== src/Pool/SlotState.antt =====
-- pool-control/src/state.rs: the states of a slot and their closed table.
use sdkwork_sandbox.Base.{
  ℕ, ◌==◌, Bool, true, false, Option, none, some, Text, text, text_eq, if◌then◌else◌,
}
pub mod Paths

pub data SlotState : Type 0 where
  preparing ready claiming claimed sanitizing quarantined retired : SlotState

-- The contract name.
unfoldable pub as_str : SlotState → Text
as_str preparing = text "preparing"
as_str ready = text "ready"
as_str claiming = text "claiming"
as_str claimed = text "claimed"
as_str sanitizing = text "sanitizing"
as_str quarantined = text "quarantined"
as_str retired = text "retired"

-- Parses a contract name; unknown names are rejected.
unfoldable pub parse : Text → Option SlotState
parse value =
    if text_eq value (text "preparing")
    then some preparing
    else if text_eq value (text "ready")
    then some ready
    else if text_eq value (text "claiming")
    then some claiming
    else if text_eq value (text "claimed")
    then some claimed
    else if text_eq value (text "sanitizing")
    then some sanitizing
    else if text_eq value (text "quarantined")
    then some quarantined
    else if text_eq value (text "retired")
    then some retired
    else none

-- The order of declaration, by which derived equality compares.
abbrev pub ordinal : SlotState → ℕ
ordinal preparing = 0
ordinal ready = 1
ordinal claiming = 2
ordinal claimed = 3
ordinal sanitizing = 4
ordinal quarantined = 5
ordinal retired = 6

abbrev pub state_eq : SlotState → SlotState → Bool
state_eq a b = ordinal a == ordinal b

-- The closed transition table.
unfoldable pub can_transition_to : SlotState → SlotState → Bool
can_transition_to preparing ready = true
can_transition_to preparing quarantined = true
can_transition_to preparing retired = true
can_transition_to ready claiming = true
can_transition_to ready quarantined = true
can_transition_to ready retired = true
can_transition_to claiming claimed = true
can_transition_to claiming ready = true
can_transition_to claiming quarantined = true
can_transition_to claiming retired = true
can_transition_to claimed sanitizing = true
can_transition_to claimed quarantined = true
can_transition_to claimed retired = true
can_transition_to sanitizing ready = true
can_transition_to sanitizing quarantined = true
can_transition_to sanitizing retired = true
can_transition_to quarantined retired = true
can_transition_to _ _ = false
