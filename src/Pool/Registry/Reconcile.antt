-- ===== src/Pool/Registry/Reconcile.antt =====
-- pool-control/src/registry.rs: `sandbox_reconcile_pool_slots`.
pub mod Bounds
pub mod Rounds
use sdkwork_sandbox.Base.{
  ℕ, zero, suc, ◌-◌, Bool, false, ◌&&◌, ◌||◌, none, some, List, [], ◌∷◌, ◌++◌, length, get_elem?,
  Text, text_eq, Map, get, insert, values, leb, ltb, ◌==◌, if◌then◌else◌, ok, err,
}
use sdkwork_sandbox.Pool.Bounds.{reconciliation_batch_size_max, cleanup_deadline_seconds_max}
use sdkwork_sandbox.Pool.Error.{
  RuntimePoolResult, internal, QuarantineReason, claim_expired, transitional_stuck,
}
use sdkwork_sandbox.Pool.SlotState
use sdkwork_sandbox.Pool.Records.{PoolSlot, PoolClaim, is_expired_at}
use sdkwork_sandbox.Pool.Registry.Defs.{Registry, is_active_claim_state, quarantine_locked}

pub record SlotReconciliationReport : Type 0 where
  pub examined : ℕ
  pub quarantined : List (Text × QuarantineReason)

abbrev pub Candidates : Type 0
Candidates = List (Text × QuarantineReason)

abbrev pub group_of : Text → Map (List Text) → List Text
group_of tenant groups = elim (get tenant groups) [ none ↦ [] | some slots ↦ slots ]

abbrev pub is_expired : ℕ → PoolClaim → Bool
is_expired now c = is_active_claim_state c.claim_state && is_expired_at c now

abbrev pub grouped : ℕ → PoolClaim → Map (List Text) → Map (List Text)
grouped now c groups =
    if is_expired now c
    then insert c.tenant_id (group_of c.tenant_id groups ++ c.pool_slot_id ∷ []) groups
    else groups

-- The slots of the expired active claims by tenant, each group in the order of the claims.
unfoldable pub expired_by_tenant : ℕ → List PoolClaim → Map (List Text) → Map (List Text)
expired_by_tenant now [] groups = groups
expired_by_tenant now (c ∷ cs) groups = expired_by_tenant now cs (grouped now c groups)

-- One round over the tenants: the entry of each group that has one at this position.
unfoldable pub round_at : ℕ → List (List Text) → Candidates
round_at k [] = []
round_at k (group ∷ groups) = elim (get_elem? group k) [
  | none ↦ round_at k groups
  | some slot ↦ (slot, claim_expired) ∷ round_at k groups
]

-- Rounds until one makes no progress.
unfoldable pub rounds : ℕ → ℕ → List (List Text) → Candidates
rounds zero k groups = []
rounds (suc fuel) k groups = elim (round_at k groups) [
  | [] ↦ []
  | candidate ∷ more ↦ candidate ∷ more ++ rounds fuel (suc k) groups
]

abbrev pub is_stuck : ℕ → PoolSlot → Bool
is_stuck now x =
    (SlotState.state_eq x.slot_state SlotState.claiming
      || SlotState.state_eq x.slot_state SlotState.sanitizing)
    && leb cleanup_deadline_seconds_max (now - x.updated_at)

unfoldable pub stuck_slots : ℕ → List PoolSlot → Candidates
stuck_slots now [] = []
stuck_slots now (x ∷ xs) =
    if is_stuck now x
    then (x.pool_slot_id, transitional_stuck) ∷ stuck_slots now xs
    else stuck_slots now xs

-- No group is longer than the list of claims, so the fuel is never used up.
unfoldable pub reconcile_candidates : ℕ → Registry → Candidates
reconcile_candidates now s =
    rounds (suc (length s.claims)) 0 (values (expired_by_tenant now (values s.claims) []))
    ++ stuck_slots now (values s.slots)

abbrev pub visited_before : Text → List Text → Bool
visited_before id [] = false
visited_before id (v ∷ vs) = text_eq v id || visited_before id vs

-- The report with one more entry, if the slot could be quarantined.
abbrev pub reported :
    Text × QuarantineReason
    → RuntimePoolResult PoolSlot
    → List (Text × QuarantineReason)
    → List (Text × QuarantineReason)
reported candidate (ok x) quarantined = quarantined ++ candidate ∷ []
reported candidate (err e) quarantined = quarantined

-- One visit: the registry, the slots visited and the slots quarantined. A slot is visited once.
abbrev pub visit_one :
    ℕ
    → Text × QuarantineReason
    → List Text
    → Candidates
    → Registry
    → Registry × List Text × Candidates
visit_one now candidate seen quarantined s =
    if visited_before (candidate.0) seen
    then (s, seen, quarantined)
    else (let after = quarantine_locked (candidate.0) now s in
        (after.0, candidate.0 ∷ seen, reported candidate (after.1) quarantined))

-- The visits, by the number examined so far, the slots visited and the slots quarantined.
unfoldable pub visit :
    ℕ → ℕ → Candidates → ℕ → List Text → Candidates → Registry → Registry × SlotReconciliationReport
visit batch now [] examined seen quarantined s =
    (s, record { examined = examined; quarantined = quarantined })
visit batch now (candidate ∷ more) examined seen quarantined s =
    if leb batch examined
    then (s, record { examined = examined; quarantined = quarantined })
    else (let after = visit_one now candidate seen quarantined s in
        visit batch now more (suc examined) (after.1) (after.2) (after.0))

unfoldable pub reconcile_slots :
    ℕ → ℕ → Registry → Registry × RuntimePoolResult SlotReconciliationReport
reconcile_slots now batch s =
    if batch == 0 || ltb reconciliation_batch_size_max batch
    then (s, err internal)
    else (let after = visit batch now (reconcile_candidates now s) 0 [] [] s in
        (after.0, ok (after.1)))
