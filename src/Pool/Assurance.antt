-- ===== src/Pool/Assurance.antt =====
-- pool-control/src/slot.rs: the isolation assurances.
use sdkwork_sandbox.Base.{ℕ, ◌==◌, Bool, Option, none, some, Text, text, text_eq, if◌then◌else◌}

pub data IsolationAssurance : Type 0 where
  micro_vm container process : IsolationAssurance

-- The contract name.
unfoldable pub as_str : IsolationAssurance → Text
as_str micro_vm = text "micro_vm"
as_str container = text "container"
as_str process = text "process"

-- Parses a contract name; unknown names are rejected.
unfoldable pub parse : Text → Option IsolationAssurance
parse value =
    if text_eq value (text "micro_vm")
    then some micro_vm
    else if text_eq value (text "container")
    then some container
    else if text_eq value (text "process")
    then some process
    else none

-- The order of declaration, by which derived equality compares.
abbrev pub ordinal : IsolationAssurance → ℕ
ordinal micro_vm = 0
ordinal container = 1
ordinal process = 2

abbrev pub assurance_eq : IsolationAssurance → IsolationAssurance → Bool
assurance_eq a b = ordinal a == ordinal b
