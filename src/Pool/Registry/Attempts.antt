-- ===== src/Pool/Registry/Attempts.antt =====
-- The budget of failed claim attempts of an operation.
mod Silent
use sdkwork_sandbox.Base.{
  ℕ, ◌+◌, ◌≤◌, ◌≡◌, refl, ◌∙◌, subst, sym, inl, inr, true, false, none, some, Text, List, [], ◌∷◌,
  get, leb, ltb, ◌==◌, ◌||◌, suc, saturating_add, u32_max, text_eq, text_eq_iff, get-insert_self,
  get-insert_other, ok, err, arith, Bool-cases, Option-cases, Result-cases, Result, and_then,
}
use sdkwork_sandbox.Pool.Error.{claim_conflict, claim_attempt_budget_exhausted}
use sdkwork_sandbox.Pool.Bounds.{claim_attempt_count_max, reconciliation_batch_size_max}
use sdkwork_sandbox.Pool.Records.{
  PreparationRequest, PoolSlot, PoolClaim, validate_fingerprint, ClaimRequest,
  claim_request_validated,
}
use sdkwork_sandbox.Pool.ClaimState
use sdkwork_sandbox.Pool.ClaimState.{ClaimState}
use sdkwork_sandbox.Pool.SlotState
use sdkwork_sandbox.Pool.Registry.Defs.{
  Registry, empty, attempts_of, note_failed_claim, finalize_claim_state, quarantine_slot,
  quarantine_claim, quarantine_locked,
}
use sdkwork_sandbox.Pool.Registry.Prepare.{prepare}
use sdkwork_sandbox.Pool.Registry.Claim.{
  Admitted, claim, claim_fresh, claim_replay, claim_admission, claim_commit, claim_named,
}
use sdkwork_sandbox.Pool.Registry.Ready.{
  ReadyRequest, ready_admission, mark_ready, release_sanitized, ready_write,
}
use sdkwork_sandbox.Pool.Registry.Release.{
  ReleaseRequest, release_outcome, release, release_move, sanitize_slot,
}
use sdkwork_sandbox.Pool.Registry.Withdraw.{
  QuarantineRequest, RetireRequest, quarantine, retire, retire_slot,
}
use sdkwork_sandbox.Pool.Registry.Reconcile.{
  Candidates, reconcile_slots, reconcile_candidates, visit, visit_one, reported, visited_before,
}
use sdkwork_sandbox.Pool.Registry.Command.{
  Command, prepares, claims, marks_ready, releases, quarantines, retires, reconciles, step, run,
}
use Silent.{
  Uncounted, prepare-Uncounted, mark_ready-Uncounted, release-Uncounted, quarantine-Uncounted,
  retire-Uncounted, reconcile_slots-Uncounted, claim_commit-Uncounted,
}

-- What a call may do to the counters: they grow, and stay within the budget.
abbrev Counts : Registry → Registry → Type 0
Counts s n =
    (op : Text)
    → (attempts_of op s ≤ attempts_of op n)
      × (attempts_of op s ≤ claim_attempt_count_max → attempts_of op n ≤ claim_attempt_count_max)

Uncounted-Counts : (s n : Registry) → Uncounted s n → Counts s n
Uncounted-Counts s n e op = ground (arith, e)

-- A failed claim is counted only below the budget.
note-Counts :
    (operation : Text) (s : Registry)
    → leb claim_attempt_count_max (attempts_of operation s) ≡ false
    → Counts s (note_failed_claim operation s)
note-Counts operation s room op = elim (Bool-cases (text_eq operation op)) [
  | inl same ↦ ground (
    arith,
    room,
    (text_eq_iff operation op).0 same,
    get-insert_self operation (saturating_add u32_max (attempts_of operation s) 1)
        s.failed_claim_attempts,
  )
  | inr other ↦ ground (
    arith,
    get-insert_other op operation (saturating_add u32_max (attempts_of operation s) 1)
        s.failed_claim_attempts other,
  )
]

claim-Counts : (now : ℕ) (r : ClaimRequest) (s : Registry) → Counts s (claim now r s).0
unfolding claim claim_fresh claim_replay
claim-Counts now r s = elim (Result-cases (claim_request_validated r)) [
  | inr (_, v) ↦ rw (claim, v) (Uncounted-Counts s s refl)
  | inl (_, v) ↦ elim (Bool-cases (leb claim_attempt_count_max (attempts_of r.operation_id s))) [
    | inl t ↦ rw (claim, v, t) (Uncounted-Counts s s refl)
    | inr room ↦ elim (Option-cases (get r.operation_id s.claims_by_operation)) [
      | inl e ↦ elim (Result-cases (claim_admission r s)) [
        | inr (_, q) ↦ rw (claim, v, room, e, claim_fresh, q) (note-Counts r.operation_id s room)
        | inl (a, q) ↦
            rw (claim, v, room, e, claim_fresh, q)
              (Uncounted-Counts s (claim_commit now r a s).0 (claim_commit-Uncounted now r a s))
      ]
      | inr (id, e) ↦ elim (Option-cases (get id s.claims)) [
        | inl q ↦ rw (claim, v, room, e, claim_replay, q) (Uncounted-Counts s s refl)
        | inr (c, q) ↦ elim (Bool-cases (text_eq c.request_fingerprint r.request_fingerprint)) [
          | inl same ↦ rw (claim, v, room, e, claim_replay, q, same) (Uncounted-Counts s s refl)
          | inr other ↦
              rw (claim, v, room, e, claim_replay, q, other) (note-Counts r.operation_id s room)
        ]
      ]
    ]
  ]
]

step-Counts : (s : Registry) (c : ℕ × Command) → Counts s (step s c)
unfolding step
step-Counts s (now, prepares r) = Uncounted-Counts s (prepare now r s).0 (prepare-Uncounted now r s)
step-Counts s (now, claims r) = claim-Counts now r s
step-Counts s (now, marks_ready r) =
    Uncounted-Counts s (mark_ready now r s).0 (mark_ready-Uncounted now r s)
step-Counts s (now, releases r) = Uncounted-Counts s (release now r s).0 (release-Uncounted now r s)
step-Counts s (now, quarantines r) =
    Uncounted-Counts s (quarantine now r s).0 (quarantine-Uncounted now r s)
step-Counts s (now, retires r) = Uncounted-Counts s (retire now r s).0 (retire-Uncounted now r s)
step-Counts s (now, reconciles batch) =
    Uncounted-Counts s (reconcile_slots now batch s).0 (reconcile_slots-Uncounted now batch s)

run-Counts : (s : Registry) (cs : List (ℕ × Command)) → Counts s (run s cs)
unfolding run
run-Counts s [] op = (omega arith, λ h. h)
run-Counts s (c ∷ cs) op =
    let one = step-Counts s c op in
    let rest = run-Counts (step s c) cs op in (omega (arith, one.0, rest.0), λ h. rest.1 (one.1 h))

-- Whatever calls are made of a new pool registry, no operation has more than eight failed attempts.
pub attempts_within_budget :
    (cs : List (ℕ × Command)) (operation : Text) → attempts_of operation (run empty cs) ≤ 8
unfolding empty get
attempts_within_budget cs operation = (run-Counts empty cs operation).1 (omega arith)

-- An operation that has had eight failed attempts is refused for good: after any further calls, every
-- valid claim of it is answered with an exhausted budget and changes nothing.
pub exhausted_for_good :
    (now : ℕ) (r : ClaimRequest) (s : Registry) (cs : List (ℕ × Command))
    → claim_request_validated r ≡ ok tt
    → 8 ≤ attempts_of r.operation_id s
    → claim now r (run s cs) ≡ (run s cs, err (claim_conflict claim_attempt_budget_exhausted))
unfolding claim
exhausted_for_good now r s cs valid many =
    let grown = (run-Counts s cs r.operation_id).0 in
    let full : leb claim_attempt_count_max (attempts_of r.operation_id (run s cs)) ≡ true =
      ground (arith, grown, many) in
    rw (valid, full, claim) refl
