-- ===== src/Provider/Assurance.antt =====
-- provider-spi/src/capability.rs: the ladder of isolation assurances.
use sdkwork_sandbox.Base.{
  ℕ, ◌==◌, leb, Bool, Option, none, some, Text, text, text_eq, if◌then◌else◌,
}

pub data IsolationAssurance : Type 0 where
  host_user container user_space_kernel micro_vm dedicated_vm : IsolationAssurance

-- The name on the wire and in the store.
unfoldable pub as_str : IsolationAssurance → Text
as_str host_user = text "host_user"
as_str container = text "container"
as_str user_space_kernel = text "user_space_kernel"
as_str micro_vm = text "micro_vm"
as_str dedicated_vm = text "dedicated_vm"

-- Parses a name; unknown names are rejected.
unfoldable pub parse : Text → Option IsolationAssurance
parse value =
    if text_eq value (text "host_user")
    then some host_user
    else if text_eq value (text "container")
    then some container
    else if text_eq value (text "user_space_kernel")
    then some user_space_kernel
    else if text_eq value (text "micro_vm")
    then some micro_vm
    else if text_eq value (text "dedicated_vm")
    then some dedicated_vm
    else none

-- The order of declaration, which is the ladder.
abbrev pub ordinal : IsolationAssurance → ℕ
ordinal host_user = 0
ordinal container = 1
ordinal user_space_kernel = 2
ordinal micro_vm = 3
ordinal dedicated_vm = 4

abbrev pub assurance_eq : IsolationAssurance → IsolationAssurance → Bool
assurance_eq a b = ordinal a == ordinal b

-- `minimum <= offered`.
abbrev pub is_at_least : IsolationAssurance → IsolationAssurance → Bool
is_at_least offered minimum = leb (ordinal minimum) (ordinal offered)
