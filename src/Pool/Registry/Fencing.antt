-- ===== src/Pool/Registry/Fencing.antt =====
-- A ready slot changes only for a caller that holds its token.
mod Untouched
use sdkwork_sandbox.Base.{
  ℕ, ◌==◌, ◌≡◌, ◌∙◌, refl, sym, ap, inl, inr, Bool, true, false, ◌&&◌, some, none, Text, List, [],
  ◌∷◌, All, get, text_eq, text_eq_iff, get-insert_other, leb, ltb, u64_max, ok, err, arith, Result,
  and_then, Bool-cases, Option-cases, Result-cases,
}
use sdkwork_sandbox.Pool.Bounds.{claim_attempt_count_max}
use sdkwork_sandbox.Pool.Error.{RuntimePoolError, stale_fencing}
use sdkwork_sandbox.Pool.SlotState
use sdkwork_sandbox.Pool.SlotState.{SlotState, can_transition_to}
use sdkwork_sandbox.Pool.ClaimState
use sdkwork_sandbox.Pool.ClaimState.{ClaimState}
use sdkwork_sandbox.Pool.Records.{
  PoolSlot, PoolClaim, PreparationRequest, ClaimRequest, claim_request_validated,
  validate_fingerprint, fencing_next, id_new,
}
use sdkwork_sandbox.Pool.Registry.Defs.{
  Registry, slot_in, attempts_of, note_failed_claim, claim_id_of, put_slot, finalize_claim_state,
  quarantine_claim, quarantine_slot, quarantine_locked,
}
use sdkwork_sandbox.Pool.Registry.Prepare.{prepare, prepare_admission, warm_evidence_checked}
use sdkwork_sandbox.Pool.Registry.Claim.{
  Admitted, claim, claim_fresh, claim_replay, claim_admission, claim_commit, claim_named,
  next_sequence, claimed_slot,
}
use sdkwork_sandbox.Pool.Registry.Acceptance.{admission-Claimable}
use sdkwork_sandbox.Pool.Registry.Ready.{
  ReadyRequest, mark_ready, ready_admission, release_sanitized, ready_write, ready_slot,
}
use sdkwork_sandbox.Pool.Registry.Release.{
  ReleaseRequest, release, release_move, release_outcome, sanitize_slot,
}
use sdkwork_sandbox.Pool.Registry.Withdraw.{
  QuarantineRequest, RetireRequest, quarantine, retire, retire_slot,
}
use sdkwork_sandbox.Pool.Registry.Slots.{quarantine_slot_cases}
use sdkwork_sandbox.Pool.Registry.Slots.Claims.{prepared_new}
use sdkwork_sandbox.Pool.Registry.Command.{
  Command, prepares, claims, marks_ready, releases, quarantines, retires, reconciles, step, run,
}
use Untouched.{
  HasSlot, put_other, and_then-HasSlot, finalize-HasSlot, ready_write-HasSlot, release-HasSlot,
  quarantine-HasSlot, retire-HasSlot,
}

-- Whether a call may change a ready slot that has this token: one that names the slot and the token, or
-- a reconciliation, which takes no token.
abbrev pub may_change : Text → ℕ → Command → Bool
may_change id n (prepares r) = false
may_change id n (claims r) = text_eq r.pool_slot_id id && r.expected_fencing_token == n
may_change id n (marks_ready r) = text_eq r.pool_slot_id id && r.expected_fencing_token == n
may_change id n (releases r) = false
may_change id n (quarantines r) = text_eq r.pool_slot_id id && r.expected_fencing_token == n
may_change id n (retires r) = text_eq r.pool_slot_id id && r.expected_fencing_token == n
may_change id n (reconciles batch) = true

module _ (id : Text) (x : PoolSlot) where
  release_sanitized-HasSlot :
      (k : Text) (y : PoolSlot) (s : Registry)
      → HasSlot id x s
      → HasSlot id x (release_sanitized k y s).0
  unfolding release_sanitized
  release_sanitized-HasSlot k y s there =
      elim (Bool-cases (SlotState.state_eq y.slot_state SlotState.sanitizing)) [
        | inr f ↦ rw (release_sanitized, f) there
        | inl t ↦ elim (Option-cases (get k s.active_claims_by_slot)) [
          | inl e ↦ rw (release_sanitized, t, e) there
          | inr (c, e) ↦
              rw (release_sanitized, t, e)
                (and_then-HasSlot id x (finalize_claim_state c ClaimState.released s)
                  (λ _ t. (t, ok tt)) (finalize-HasSlot id x c ClaimState.released s there)
                  (λ _ t h. h))
        ]
      ]

  mark_ready-HasSlot :
      (now : ℕ) (r : ReadyRequest) (s : Registry)
      → HasSlot id x s
      → (text_eq r.pool_slot_id id && r.expected_fencing_token == x.fencing_token) ≡ false
      → HasSlot id x (mark_ready now r s).0
  unfolding mark_ready ready_admission
  mark_ready-HasSlot now r s there stale =
      elim (Result-cases (validate_fingerprint r.preparation_evidence_fingerprint)) [
        | inr (_, v) ↦ rw (mark_ready, v) there
        | inl (_, v) ↦ elim (Bool-cases (text_eq r.pool_slot_id id)) [
          | inl same ↦
              let at = (text_eq_iff r.pool_slot_id id).0 same in
              ground (arith, v, at, there, same, stale)
          | inr other ↦ elim (Option-cases (get r.pool_slot_id s.slots)) [
            | inl e ↦ rw (mark_ready, v, e) there
            | inr (y, e) ↦ elim (Result-cases (ready_admission r y)) [
              | inr (_, q) ↦ rw (mark_ready, v, e, q) there
              | inl (_, q) ↦
                  rw (mark_ready, v, e, q)
                    (and_then-HasSlot id x (release_sanitized r.pool_slot_id y s)
                      (λ _. ready_write now r) (release_sanitized-HasSlot r.pool_slot_id y s there)
                      (λ _ t h. ready_write-HasSlot id x now r t other h))
            ]
          ]
        ]
      ]

  -- A claim is admitted only with the token of its slot.
  admitted_elsewhere :
      (r : ClaimRequest) (s : Registry) (a : Admitted)
      → HasSlot id x s
      → (text_eq r.pool_slot_id id && r.expected_fencing_token == x.fencing_token) ≡ false
      → claim_admission r s ≡ ok a
      → text_eq r.pool_slot_id id ≡ false
  admitted_elsewhere r s a there stale h = elim (Bool-cases (text_eq r.pool_slot_id id)) [
    | inr other ↦ other
    | inl same ↦
        let at = (text_eq_iff r.pool_slot_id id).0 same in
        let c = admission-Claimable r s a h in absurd (clash at c.slot_there c.token_matches same)
  ]
    where
      clash :
          r.pool_slot_id ≡ id
          → get r.pool_slot_id s.slots ≡ some a.slot
          → r.expected_fencing_token ≡ a.slot.fencing_token
          → text_eq r.pool_slot_id id ≡ true
          → ⊥
      clash at e t same = ground (arith, at, e, t, same, there, stale)

  claim_named-HasSlot :
      (now : ℕ) (r : ClaimRequest) (a : Admitted) (token : ℕ) (s : Registry)
      → text_eq r.pool_slot_id id ≡ false
      → HasSlot id x s
      → HasSlot id x (claim_named now r a token s).0
  unfolding claim_named can_transition_to
  claim_named-HasSlot now r a token s other there =
      elim (Result-cases (id_new (claim_id_of s.claim_sequence))) [
        | inr (_, h) ↦ rw (claim_named, h) there
        | inl (_, h) ↦ elim (Option-cases (get r.pool_slot_id s.slots)) [
          | inl q ↦ rw (claim_named, h, q) there
          | inr (y, q) ↦ elim (Bool-cases (can_transition_to y.slot_state SlotState.claiming)) [
            | inr f ↦ rw (claim_named, h, q, f) there
            | inl t ↦
                rw (claim_named, h, q, t)
                  (put_other id x r.pool_slot_id (claimed_slot now token y) s other there)
          ]
        ]
      ]

  claim_commit-HasSlot :
      (now : ℕ) (r : ClaimRequest) (a : Admitted) (s : Registry)
      → text_eq r.pool_slot_id id ≡ false
      → HasSlot id x s
      → HasSlot id x (claim_commit now r a s).0
  unfolding claim_commit
  claim_commit-HasSlot now r a s other there =
      elim (Option-cases (fencing_next s.highest_fencing_token)) [
        | inl e ↦ rw (claim_commit, e) there
        | inr (token, e) ↦ elim (Bool-cases (ltb s.claim_sequence u64_max)) [
          | inr f ↦ rw (claim_commit, e, f) there
          | inl t ↦
              rw (claim_commit, e, t)
                (claim_named-HasSlot now r a token (next_sequence s) other there)
        ]
      ]

  claim-HasSlot :
      (now : ℕ) (r : ClaimRequest) (s : Registry)
      → HasSlot id x s
      → (text_eq r.pool_slot_id id && r.expected_fencing_token == x.fencing_token) ≡ false
      → HasSlot id x (claim now r s).0
  unfolding claim claim_fresh claim_replay
  claim-HasSlot now r s there stale = elim (Result-cases (claim_request_validated r)) [
    | inr (_, v) ↦ rw (claim, v) there
    | inl (_, v) ↦ elim (Bool-cases (leb claim_attempt_count_max (attempts_of r.operation_id s))) [
      | inl t ↦ rw (claim, v, t) there
      | inr room ↦ elim (Option-cases (get r.operation_id s.claims_by_operation)) [
        | inr (c, e) ↦ rw (claim, v, room, e, claim_replay) (ground (arith, there))
        | inl e ↦ elim (Result-cases (claim_admission r s)) [
          | inr (_, q) ↦ rw (claim, v, room, e, claim_fresh, q) there
          | inl (a, q) ↦
              rw (claim, v, room, e, claim_fresh, q)
                (claim_commit-HasSlot now r a s (admitted_elsewhere r s a there stale q) there)
        ]
      ]
    ]
  ]

  -- A slot that is there is not registered again.
  prepare-HasSlot :
      (now : ℕ) (r : PreparationRequest) (s : Registry)
      → HasSlot id x s
      → HasSlot id x (prepare now r s).0
  unfolding prepare
  prepare-HasSlot now r s there = elim (Result-cases (prepare_admission now r s)) [
    | inr (_, h) ↦ rw (prepare, h) there
    | inl (y, h) ↦ elim (Bool-cases (text_eq r.pool_slot_id id)) [
      | inl same ↦
          absurd (
            ground (arith, (text_eq_iff r.pool_slot_id id).0 same, prepared_new now r s y h, there))
      | inr other ↦ rw (prepare, h) (put_other id x r.pool_slot_id y s other there)
    ]
  ]

  step-HasSlot :
      (s : Registry) (c : ℕ × Command)
      → x.slot_state ≡ SlotState.ready
      → HasSlot id x s
      → may_change id x.fencing_token c.1 ≡ false
      → HasSlot id x (step s c)
  unfolding step
  step-HasSlot s (now, prepares r) ready there h = prepare-HasSlot now r s there
  step-HasSlot s (now, claims r) ready there h = claim-HasSlot now r s there h
  step-HasSlot s (now, marks_ready r) ready there h = mark_ready-HasSlot now r s there h
  step-HasSlot s (now, releases r) ready there h = release-HasSlot id x now r s ready there
  step-HasSlot s (now, quarantines r) ready there h = quarantine-HasSlot id x now r s there h
  step-HasSlot s (now, retires r) ready there h = retire-HasSlot id x now r s there h
  step-HasSlot s (now, reconciles batch) ready there h = absurd (cc)

-- A ready slot changes only for a caller that holds its token, or in a reconciliation: after any
-- history of calls without a reconciliation, in which no claim, evidence, quarantine or retirement of
-- this slot comes with its token, the slot is exactly what it was. The calls may release whatever
-- claims there are, and do anything with the other slots.
pub ready_slot_needs_token :
    (s : Registry) (cs : List (ℕ × Command)) (id : Text) (x : PoolSlot)
    → get id s.slots ≡ some x
    → x.slot_state ≡ SlotState.ready
    → All (λ c. may_change id x.fencing_token c.1 ≡ false) cs
    → get id (run s cs).slots ≡ some x
unfolding run
ready_slot_needs_token s [] id x there ready h = there
ready_slot_needs_token s (c ∷ cs) id x there ready h =
    ready_slot_needs_token (step s c) cs id x (step-HasSlot id x s c ready there h.0) ready h.1
