-- ===== src/Pool/Registry/Targets.antt =====
-- pool-control/src/registry.rs: `sandbox_reconcile_pool_targets` and the readers of the registry.
pub mod Budgets
use sdkwork_sandbox.Base.{
  ℕ, suc, ◌+◌, ◌-◌, Bool, true, not, ◌&&◌, ◌||◌, Option, none, some, List, [], ◌∷◌, length, Text,
  text_eq, Map, get, insert, values, leb, ltb, ◌==◌, if◌then◌else◌, u32_max, ok, err,
}
use sdkwork_sandbox.Pool.Bounds.{
  reconciliation_batch_size_max, per_profile_target_max, refill_operations_per_node_max,
}
use sdkwork_sandbox.Pool.Error.{RuntimePoolResult, internal}
use sdkwork_sandbox.Pool.SlotState
use sdkwork_sandbox.Pool.SlotState.{SlotState}
use sdkwork_sandbox.Pool.Records.{PoolSlot, PoolClaim}
use sdkwork_sandbox.Pool.Registry.Defs.{Registry}

pub record CapacityTarget : Type 0 where
  pub resource_profile_id : Text
  pub node_reference : Text
  pub ready_target : ℕ

pub record RefillAction : Type 0 where
  pub resource_profile_id : Text
  pub node_reference : Text
  pub refill_count : ℕ

pub record TargetReconciliationReport : Type 0 where
  pub refill_actions : List RefillAction
  pub examined_profiles : ℕ

abbrev pub count_slots : Text → SlotState → List PoolSlot → ℕ
count_slots profile st [] = 0
count_slots profile st (x ∷ xs) =
    if text_eq x.resource_profile_id profile && SlotState.state_eq x.slot_state st
    then suc (count_slots profile st xs)
    else count_slots profile st xs

unfoldable pub ready_slot_count : Text → Registry → ℕ
ready_slot_count profile s = count_slots profile SlotState.ready (values s.slots)

unfoldable pub quarantined_slot_count : Text → Registry → ℕ
quarantined_slot_count profile s = count_slots profile SlotState.quarantined (values s.slots)

unfoldable pub slot : Text → Registry → Option PoolSlot
slot id s = get id s.slots

unfoldable pub claim : Text → Registry → Option PoolClaim
claim id s = get id s.claims

unfoldable pub claim_for_operation : Text → Registry → Option PoolClaim
claim_for_operation operation s = elim (get operation s.claims_by_operation) [
  | none ↦ none
  | some id ↦ get id s.claims
]

-- `u32::try_from(n).unwrap_or(u32::MAX)`.
abbrev pub clamp_u32 : ℕ → ℕ
clamp_u32 n = if leb n u32_max then n else u32_max

abbrev pub minimum : ℕ → ℕ → ℕ
minimum a b = if leb a b then a else b

abbrev pub deficit_of : CapacityTarget → Registry → ℕ
deficit_of t s = t.ready_target - clamp_u32 (ready_slot_count t.resource_profile_id s)

-- What the node has been given so far.
abbrev pub spent_on : Text → Map ℕ → ℕ
spent_on node spent = elim (get node spent) [ none ↦ 0 | some n ↦ n ]

abbrev pub refill_count_of : CapacityTarget → Map ℕ → Registry → ℕ
refill_count_of t spent s =
    minimum (deficit_of t s) (refill_operations_per_node_max - spent_on t.node_reference spent)

-- A target without a deficit, or whose node has no room left, is passed over.
abbrev pub passed_over : CapacityTarget → Map ℕ → Registry → Bool
passed_over t spent s =
    deficit_of t s == 0 || refill_operations_per_node_max - spent_on t.node_reference spent == 0

-- The map also gets the entry 0 of a node without room, which reads as a missing one does.
abbrev pub charged : CapacityTarget → Map ℕ → Registry → Map ℕ
charged t spent s =
    if passed_over t spent s
    then spent
    else insert t.node_reference (spent_on t.node_reference spent + refill_count_of t spent s) spent

-- The loop over the targets.
unfoldable pub refill : List CapacityTarget → Map ℕ → Registry → List RefillAction
refill [] spent s = []
refill (t ∷ ts) spent s =
    let rest = refill ts (charged t spent s) s in
    if passed_over t spent s
    then rest
    else record {
      resource_profile_id = t.resource_profile_id;
      node_reference = t.node_reference;
      refill_count = refill_count_of t spent s;
    }
      ∷ rest

abbrev pub targets_in_bounds : List CapacityTarget → Bool
targets_in_bounds [] = true
targets_in_bounds (t ∷ ts) = leb t.ready_target per_profile_target_max && targets_in_bounds ts

unfoldable pub reconcile_targets :
    List CapacityTarget → Registry → RuntimePoolResult TargetReconciliationReport
reconcile_targets targets s =
    if ltb reconciliation_batch_size_max (length targets)
    then err internal
    else if not (targets_in_bounds targets)
    then err internal
    else ok (record { refill_actions = refill targets [] s; examined_profiles = length targets })
