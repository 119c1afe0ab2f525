-- ===== src/Pool/ClaimState.antt =====
-- pool-control/src/state.rs: the states of a claim and their closed table.
use sdkwork_sandbox.Base.{
  ℕ, ◌==◌, Bool, true, false, Option, none, some, Text, text, text_eq, if◌then◌else◌,
}

pub data ClaimState : Type 0 where
  claiming bound releasing released quarantined : ClaimState

-- The contract name.
unfoldable pub as_str : ClaimState → Text
as_str claiming = text "claiming"
as_str bound = text "bound"
as_str releasing = text "releasing"
as_str released = text "released"
as_str quarantined = text "quarantined"

-- Parses a contract name; unknown names are rejected.
unfoldable pub parse : Text → Option ClaimState
parse value =
    if text_eq value (text "claiming")
    then some claiming
    else if text_eq value (text "bound")
    then some bound
    else if text_eq value (text "releasing")
    then some releasing
    else if text_eq value (text "released")
    then some released
    else if text_eq value (text "quarantined")
    then some quarantined
    else none

-- The order of declaration, by which derived equality compares.
abbrev pub ordinal : ClaimState → ℕ
ordinal claiming = 0
ordinal bound = 1
ordinal releasing = 2
ordinal released = 3
ordinal quarantined = 4

abbrev pub state_eq : ClaimState → ClaimState → Bool
state_eq a b = ordinal a == ordinal b

-- The closed transition table.
unfoldable pub can_transition_to : ClaimState → ClaimState → Bool
can_transition_to claiming bound = true
can_transition_to claiming released = true
can_transition_to claiming quarantined = true
can_transition_to bound releasing = true
can_transition_to bound quarantined = true
can_transition_to releasing released = true
can_transition_to releasing quarantined = true
can_transition_to _ _ = false
