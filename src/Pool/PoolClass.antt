-- ===== src/Pool/PoolClass.antt =====
-- pool-control/src/slot.rs: the capacity classes.
use sdkwork_sandbox.Base.{ℕ, ◌==◌, Bool, Option, none, some, Text, text, text_eq, if◌then◌else◌}

pub data PoolClass : Type 0 where
  prepared_slot warm_micro_vm_slot cold_allocation : PoolClass

-- The contract name.
unfoldable pub as_str : PoolClass → Text
as_str prepared_slot = text "sandbox_prepared_slot"
as_str warm_micro_vm_slot = text "sandbox_warm_microvm_slot"
as_str cold_allocation = text "sandbox_cold_allocation"

-- Parses a contract name; unknown names are rejected.
unfoldable pub parse : Text → Option PoolClass
parse value =
    if text_eq value (text "sandbox_prepared_slot")
    then some prepared_slot
    else if text_eq value (text "sandbox_warm_microvm_slot")
    then some warm_micro_vm_slot
    else if text_eq value (text "sandbox_cold_allocation")
    then some cold_allocation
    else none

-- The order of declaration, by which derived equality compares.
abbrev pub ordinal : PoolClass → ℕ
ordinal prepared_slot = 0
ordinal warm_micro_vm_slot = 1
ordinal cold_allocation = 2

abbrev pub class_eq : PoolClass → PoolClass → Bool
class_eq a b = ordinal a == ordinal b
