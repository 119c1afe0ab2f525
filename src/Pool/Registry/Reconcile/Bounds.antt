-- ===== src/Pool/Registry/Reconcile/Bounds.antt =====
-- The bounds of a reconciliation of slots, and what its report says of the slots.
use sdkwork_sandbox.Base.{
  ℕ, suc, ◌≤◌, ◌≡◌, inl, inr, true, false, ◌||◌, some, List, [], ◌∷◌, length, length-append, All,
  All-append, Text, get, leb, ltb, ◌==◌, Bool-cases, Option-cases, Result-cases, ok, err, arith,
}
use sdkwork_sandbox.Pool.Bounds.{reconciliation_batch_size_max}
use sdkwork_sandbox.Pool.Error.{QuarantineReason, RuntimePoolResult}
use sdkwork_sandbox.Pool.SlotState
use sdkwork_sandbox.Pool.SlotState.Paths.{is_withdrawn, stays_withdrawn}
use sdkwork_sandbox.Pool.Records.{PoolSlot}
use sdkwork_sandbox.Pool.Registry.Defs.{
  Registry, quarantine_locked, quarantine_slot, quarantine_claim, slot_in,
}
use sdkwork_sandbox.Pool.Registry.Reconcile.{
  Candidates, SlotReconciliationReport, visit, visit_one, visited_before, reported, reconcile_slots,
  reconcile_candidates,
}
use sdkwork_sandbox.Base.{and_then, get-insert_self}
use sdkwork_sandbox.Pool.Registry.Slots.{Follows, quarantine_locked-Follows}

-- The report of the visits that remain.
visit_bounds :
    (batch now : ℕ) (cs : Candidates) (n : ℕ) (seen : List Text) (done : Candidates) (s : Registry)
    → n ≤ batch
    → length done ≤ n
    → ((visit batch now cs n seen done s).1.examined ≤ batch)
      × (length ((visit batch now cs n seen done s).1.quarantined)
          ≤ (visit batch now cs n seen done s).1.examined)
unfolding visit
visit_bounds batch now [] n seen done s p q = (p, q)
visit_bounds batch now (c ∷ cs) n seen done s p q = elim (Bool-cases (leb batch n)) [
  | inl t ↦ rw (t, visit) (p, q)
  | inr f ↦
      let after = visit_one now c seen done s in
      rw (f, visit)
        (visit_bounds batch now cs (suc n) (after.1) (after.2) (after.0) (ground arith)
          (visit_one_adds now c seen done s n q))
]
  where
    reported_adds :
        (c : Text × QuarantineReason) (o : RuntimePoolResult PoolSlot) (done : Candidates) (n : ℕ)
        → length done ≤ n
        → length (reported c o done) ≤ suc n
    reported_adds c (ok x) done n q = ground (arith, length-append done (c ∷ []))
    reported_adds c (err e) done n q = omega arith

    visit_one_adds :
        (now : ℕ) (c : Text × QuarantineReason) (seen : List Text) (done : Candidates)
        (s : Registry) (n : ℕ)
        → length done ≤ n
        → length ((visit_one now c seen done s).2) ≤ suc n
    visit_one_adds now c seen done s n q = elim (Bool-cases (visited_before (c.0) seen)) [
      | inl t ↦ rw (t) (omega arith)
      | inr f ↦ rw (f) (reported_adds c ((quarantine_locked (c.0) now s).1) done n q)
    ]

report_is :
    {a b : SlotReconciliationReport}
    → ◌≡◌ {A = RuntimePoolResult SlotReconciliationReport} (ok a) (ok b)
    → b ≡ a
report_is e = cc

-- A reconciliation that is accepted examines at most as many candidates as its batch allows, at most
-- one hundred, and quarantines at most as many slots as it examined.
pub reconcile_within_batch :
    (now batch : ℕ) (s : Registry) (report : SlotReconciliationReport)
    → (reconcile_slots now batch s).1 ≡ ok report
    → (batch ≤ 100) × (report.examined ≤ batch) × (length report.quarantined ≤ report.examined)
unfolding reconcile_slots
reconcile_within_batch now batch s report h =
    elim (Bool-cases (batch == 0 || ltb reconciliation_batch_size_max batch)) [
      | inl t ↦ absurd (cc (rw (t, reconcile_slots) at h))
      | inr f ↦
          let bounds =
            visit_bounds batch now (reconcile_candidates now s) 0 [] [] s (omega arith)
              (omega arith) in
          let is = report_is (rw (f, reconcile_slots) at h) in
          let within : (report.examined ≤ batch) × (length report.quarantined ≤ report.examined) =
            rw (is) bounds in
          (ground arith, within.0, within.1)
    ]

-- The slots of a list are out of service.
abbrev pub AreWithdrawn : Candidates → Registry → Type 0
AreWithdrawn done s =
    All (λ c. (y : PoolSlot) × (get (c.0) s.slots ≡ some y) × (is_withdrawn y.slot_state ≡ true))
      done

withdrawn-Follows :
    (done : Candidates) (s t : Registry)
    → Follows false s t
    → AreWithdrawn done s
    → AreWithdrawn done t
withdrawn-Follows [] s t f h = tt
withdrawn-Follows (c ∷ cs) s t f ((x, there, w), h) =
    let (y, after, (same, path, only)) = f (c.0) x there in
    ((y, after, stays_withdrawn path w), withdrawn-Follows cs s t f h)

quarantine_slot_ok :
    (id : Text) (now : ℕ) (s : Registry) (y : PoolSlot)
    → (quarantine_slot id now s).1 ≡ ok y
    → (get id (quarantine_slot id now s).0.slots ≡ some y) × (is_withdrawn y.slot_state ≡ true)
unfolding quarantine_slot
quarantine_slot_ok id now s y h = elim (Option-cases (get id s.slots)) [
  | inl e ↦ absurd (cc (rw (e, quarantine_slot) at h))
  | inr (x, e) ↦ ground (arith, get-insert_self id (slot_in SlotState.quarantined now x) s.slots)
]

quarantined_ok :
    (id : Text) (now : ℕ) (s : Registry) (y : PoolSlot)
    → (quarantine_locked id now s).1 ≡ ok y
    → (get id (quarantine_locked id now s).0.slots ≡ some y) × (is_withdrawn y.slot_state ≡ true)
unfolding quarantine_locked
quarantined_ok id now s y h = at (quarantine_claim id s) h
  where
    at :
        (first : Registry × RuntimePoolResult (Unit {0}))
        → (and_then first (λ _. quarantine_slot id now)).1 ≡ ok y
        → (get id (and_then first (λ _. quarantine_slot id now)).0.slots ≡ some y)
          × (is_withdrawn y.slot_state ≡ true)
    at (t, ok u) h = quarantine_slot_ok id now t y h
    at (t, err e) h = absurd (cc)

visit_one_withdraws :
    (now : ℕ) (c : Text × QuarantineReason) (seen : List Text) (done : Candidates) (s : Registry)
    → AreWithdrawn done s
    → AreWithdrawn ((visit_one now c seen done s).2) ((visit_one now c seen done s).0)
visit_one_withdraws now c seen done s h = elim (Bool-cases (visited_before (c.0) seen)) [
  | inl t ↦ rw (t) h
  | inr f ↦
      let later =
        withdrawn-Follows done s ((quarantine_locked (c.0) now s).0)
          (quarantine_locked-Follows false (c.0) now s) h in
      rw (f) (elim (Result-cases ((quarantine_locked (c.0) now s).1)) [
        | inr (e, q) ↦ rw (q) later
        | inl (y, q) ↦
            let (there, w) = quarantined_ok (c.0) now s y q in
            rw (q) (All-append _ done (c ∷ []) later ((y, there, w), tt))
      ])
]

visit_withdraws :
    (batch now : ℕ) (cs : Candidates) (n : ℕ) (seen : List Text) (done : Candidates) (s : Registry)
    → AreWithdrawn done s
    → AreWithdrawn
        ((visit batch now cs n seen done s).1.quarantined)
        ((visit batch now cs n seen done s).0)
unfolding visit
visit_withdraws batch now [] n seen done s h = h
visit_withdraws batch now (c ∷ cs) n seen done s h = elim (Bool-cases (leb batch n)) [
  | inl t ↦ rw (t, visit) h
  | inr f ↦
      let after = visit_one now c seen done s in
      rw (f, visit)
        (visit_withdraws batch now cs (suc n) (after.1) (after.2) (after.0)
          (visit_one_withdraws now c seen done s h))
]

-- Every slot that the report of a reconciliation names as quarantined is out of service in the
-- registry that the reconciliation leaves.
pub reported-AreWithdrawn :
    (now batch : ℕ) (s : Registry) (report : SlotReconciliationReport)
    → (reconcile_slots now batch s).1 ≡ ok report
    → AreWithdrawn report.quarantined ((reconcile_slots now batch s).0)
unfolding reconcile_slots
reported-AreWithdrawn now batch s report h =
    elim (Bool-cases (batch == 0 || ltb reconciliation_batch_size_max batch)) [
      | inl t ↦ absurd (cc (rw (t, reconcile_slots) at h))
      | inr f ↦
          let is = report_is (rw (f, reconcile_slots) at h) in
          rw (f, reconcile_slots, is)
            (visit_withdraws batch now (reconcile_candidates now s) 0 [] [] s tt)
    ]
