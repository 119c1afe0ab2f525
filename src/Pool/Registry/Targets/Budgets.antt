-- ===== src/Pool/Registry/Targets/Budgets.antt =====
-- The refill actions of a reconciliation of targets stay within the budget of each node.
use sdkwork_sandbox.Base.{
  ℕ, ◌+◌, ◌-◌, ◌≤◌, ◌≡◌, refl, ap, inl, inr, false, List, [], ◌∷◌, length, Text, Map, get, insert,
  text_eq, text_eq_iff, get-insert, if◌then◌else◌, Bool-cases, arith, ok, ltb,
}
use sdkwork_sandbox.Pool.Error.{RuntimePoolResult}
use sdkwork_sandbox.Pool.Registry.Defs.{Registry}
use sdkwork_sandbox.Pool.Registry.Targets.{
  CapacityTarget, RefillAction, TargetReconciliationReport, refill, charged, passed_over, spent_on,
  refill_count_of, reconcile_targets, targets_in_bounds,
}

-- What the actions refill on one node.
unfoldable pub total_on : Text → List RefillAction → ℕ
total_on node [] = 0
total_on node (a ∷ more) =
    let rest = total_on node more in
    if text_eq a.node_reference node then a.refill_count + rest else rest

spent_on-insert :
    (node k : Text) (n : ℕ) (spent : Map ℕ)
    → spent_on node (insert k n spent) ≡ (if text_eq k node then n else spent_on node spent)
spent_on-insert node k n spent = ground (arith, get-insert node k n spent)

charged_on :
    (t : CapacityTarget) (spent : Map ℕ) (s : Registry) (node : Text)
    → passed_over t spent s ≡ false
    → spent_on node (charged t spent s) ≡ (
        if text_eq t.node_reference node
        then spent_on t.node_reference spent + refill_count_of t spent s
        else spent_on node spent)
charged_on t spent s node p = rw (p) (
    spent_on-insert node t.node_reference
      (spent_on t.node_reference spent + refill_count_of t spent s) spent)

count_within :
    (t : CapacityTarget) (spent : Map ℕ) (s : Registry)
    → refill_count_of t spent s + spent_on t.node_reference spent
      ≤ 16 + (spent_on t.node_reference spent - 16)
count_within t spent s = ground arith

total_with :
    (t : CapacityTarget) (ts : List CapacityTarget) (spent : Map ℕ) (s : Registry) (node : Text)
    → passed_over t spent s ≡ false
    → total_on node (refill (t ∷ ts) spent s) ≡ (
        if text_eq t.node_reference node
        then refill_count_of t spent s + total_on node (refill ts (charged t spent s) s)
        else total_on node (refill ts (charged t spent s) s))
unfolding refill total_on
total_with t ts spent s node p = rw (p, refill) refl

-- One more action on a node: its count fits in what the node has left.
fits_on_node :
    (t : CapacityTarget) (spent : Map ℕ) (s : Registry)
    → spent_on t.node_reference spent ≤ 16
    → spent_on t.node_reference spent + refill_count_of t spent s ≤ 16
fits_on_node t spent s h = omega (arith, count_within t spent s)

refill_on_node :
    (ts : List CapacityTarget) (spent : Map ℕ) (s : Registry) (node : Text)
    → spent_on node spent ≤ 16
    → spent_on node spent + total_on node (refill ts spent s) ≤ 16
refill_on_node [] spent s node h = unfold refill total_on in omega arith
refill_on_node (t ∷ ts) spent s node h = elim (Bool-cases (passed_over t spent s)) [
  | inl p ↦
      let same : refill (t ∷ ts) spent s ≡ refill ts spent s =
        unfold refill in rw (p, refill) refl in
      rw (same) (refill_on_node ts spent s node h)
  | inr p ↦
      let now = charged_on t spent s node p in
      let total = total_with t ts spent s node p in
      let rest = refill_on_node ts (charged t spent s) s node in
      elim (Bool-cases (text_eq t.node_reference node)) [
        | inl same ↦
            let e = ap (λ k. spent_on k spent) ((text_eq_iff t.node_reference node).0 same) in
            let at_node = rw (same) at now in
            let in_all = rw (same) at total in
            let room = fits_on_node t spent s (omega (arith, e)) in
            omega (arith, e, at_node, in_all, rest (omega (arith, at_node, room)))
        | inr other ↦
            let at_node = rw (other) at now in
            let in_all = rw (other) at total in
            omega (arith, at_node, in_all, rest (omega (arith, at_node)))
      ]
]

report_is :
    {a b : TargetReconciliationReport}
    → ◌≡◌ {A = RuntimePoolResult TargetReconciliationReport} (ok a) (ok b)
    → b ≡ a
report_is e = cc

-- A reconciliation of targets that is accepted has examined at most one hundred targets, and its
-- actions together refill at most sixteen slots on each node, however the targets are ordered.
pub refill_within_node_budget :
    (ts : List CapacityTarget) (s : Registry) (report : TargetReconciliationReport) (node : Text)
    → reconcile_targets ts s ≡ ok report
    → (report.examined_profiles ≤ 100) × (total_on node report.refill_actions ≤ 16)
unfolding reconcile_targets
refill_within_node_budget ts s report node h = elim (Bool-cases (ltb 100 (length ts))) [
  | inl t ↦ absurd (cc (rw (t, reconcile_targets) at h))
  | inr f ↦ elim (Bool-cases (targets_in_bounds ts)) [
    | inr g ↦ absurd (cc (rw (f, g, reconcile_targets) at h))
    | inl t ↦
        let is = report_is (rw (f, t, reconcile_targets) at h) in
        let within = refill_on_node ts [] s node (unfold get in omega arith) in
        let none_yet : spent_on node [] ≡ 0 = unfold get in refl in
        rw (is) (ground arith, omega (arith, within, none_yet))
  ]
]
