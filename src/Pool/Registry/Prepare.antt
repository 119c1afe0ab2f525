-- ===== src/Pool/Registry/Prepare.antt =====
-- pool-control/src/registry.rs: `sandbox_prepare_pool_slot`.
use sdkwork_sandbox.Base.{
  ℕ, not, Option, none, some, [], ◌∷◌, length, Bool, true, false, is_some, Text, contains_key, leb,
  if◌then◌else◌, ok, err, ◌>>=◌, ◌>>◌, guard, ok_or,
}
use sdkwork_sandbox.Pool.Bounds.{candidate_slot_count_max, exhausted_retry_after_seconds}
use sdkwork_sandbox.Pool.Error.{
  RuntimePoolResult, internal, exhausted, dependency_unavailable, warm_kvm_evidence,
  retry_after_new,
}
use sdkwork_sandbox.Pool.PoolClass.{PoolClass}
use sdkwork_sandbox.Pool.Records.{PreparationRequest, PoolSlot, slot_new}
use sdkwork_sandbox.Pool.Registry.Defs.{Registry, put_slot}

abbrev pub is_present : Option Text → Bool
is_present none = false
is_present (some []) = false
is_present (some (b ∷ bs)) = true

-- A warm slot needs its evidence, and no other class may carry one.
unfoldable pub warm_evidence_checked : PoolClass → Option Text → RuntimePoolResult (Unit {0})
warm_evidence_checked PoolClass.warm_micro_vm_slot evidence =
    guard (is_present evidence) (dependency_unavailable warm_kvm_evidence)
warm_evidence_checked _ evidence = guard (not (is_some evidence)) internal

-- A registry that holds the most slots it may answers with the time after which to try again.
unfoldable pub room_checked : Registry → RuntimePoolResult (Unit {0})
unfolding retry_after_new
room_checked s =
    if leb candidate_slot_count_max (length s.slots)
    then ok_or (retry_after_new exhausted_retry_after_seconds) internal
      >>= (λ after. err (exhausted after))
    else ok tt

-- The guards of the method, in their order, and the slot that it registers.
unfoldable pub prepare_admission : ℕ → PreparationRequest → Registry → RuntimePoolResult PoolSlot
unfolding warm_evidence_checked room_checked slot_new
prepare_admission now r s = do
  warm_evidence_checked r.pool_class r.warm_kvm_evidence_ref
  guard (not (contains_key r.pool_slot_id s.slots)) internal
  room_checked s
  slot_new r now

unfoldable pub prepare : ℕ → PreparationRequest → Registry → Registry × RuntimePoolResult PoolSlot
prepare now r s = elim (prepare_admission now r s) [
  | err e ↦ (s, err e)
  | ok x ↦ (put_slot r.pool_slot_id x s, ok x)
]
