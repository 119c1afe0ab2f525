-- ===== src/Provider/Capability.antt =====
-- provider-spi/src/capability.rs: the runtime capabilities, and sets of them.
use sdkwork_sandbox.Base.{
  ℕ, ◌==◌, Bool, true, false, ◌&&◌, ◌||◌, Option, none, some, List, [], ◌∷◌, Text, text, text_eq,
  if◌then◌else◌, Ordering, compare,
}

pub data RuntimeCapability : Type 0 where
  terminal filesystem git build browser port_forward mcp_transport environment : RuntimeCapability

-- The name on the wire and in the store.
unfoldable pub as_str : RuntimeCapability → Text
as_str terminal = text "terminal"
as_str filesystem = text "filesystem"
as_str git = text "git"
as_str build = text "build"
as_str browser = text "browser"
as_str port_forward = text "port_forward"
as_str mcp_transport = text "mcp_transport"
as_str environment = text "environment"

-- Parses a name; unknown names are rejected.
unfoldable pub parse : Text → Option RuntimeCapability
parse value =
    if text_eq value (text "terminal")
    then some terminal
    else if text_eq value (text "filesystem")
    then some filesystem
    else if text_eq value (text "git")
    then some git
    else if text_eq value (text "build")
    then some build
    else if text_eq value (text "browser")
    then some browser
    else if text_eq value (text "port_forward")
    then some port_forward
    else if text_eq value (text "mcp_transport")
    then some mcp_transport
    else if text_eq value (text "environment")
    then some environment
    else none

-- The order of declaration, by which the derived order compares.
abbrev pub ordinal : RuntimeCapability → ℕ
ordinal terminal = 0
ordinal filesystem = 1
ordinal git = 2
ordinal build = 3
ordinal browser = 4
ordinal port_forward = 5
ordinal mcp_transport = 6
ordinal environment = 7

abbrev pub capability_eq : RuntimeCapability → RuntimeCapability → Bool
capability_eq a b = ordinal a == ordinal b

abbrev pub is_member : RuntimeCapability → List RuntimeCapability → Bool
is_member c [] = false
is_member c (d ∷ ds) = capability_eq c d || is_member c ds

-- `BTreeSet::is_subset`.
unfoldable pub is_subset : List RuntimeCapability → List RuntimeCapability → Bool
is_subset [] ds = true
is_subset (c ∷ cs) ds = is_member c ds && is_subset cs ds

-- `BTreeSet::insert`, with the set as the list of its members in their order.
abbrev pub insert_capability : RuntimeCapability → List RuntimeCapability → List RuntimeCapability
insert_capability c [] = c ∷ []
insert_capability c (d ∷ ds) = elim (compare (ordinal c) (ordinal d)) [
  | Ordering.lt ↦ c ∷ d ∷ ds
  | Ordering.eq ↦ d ∷ ds
  | Ordering.gt ↦ d ∷ insert_capability c ds
]

-- `collect` into a `BTreeSet`.
unfoldable pub collect : List RuntimeCapability → List RuntimeCapability
collect [] = []
collect (c ∷ cs) = insert_capability c (collect cs)

-- Equality of two sets, member by member in their order.
unfoldable pub set_eq : List RuntimeCapability → List RuntimeCapability → Bool
set_eq [] [] = true
set_eq (c ∷ cs) (d ∷ ds) = capability_eq c d && set_eq cs ds
set_eq _ _ = false
