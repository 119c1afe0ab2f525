-- ===== src/Pool/Registry/Fencing/Untouched.antt =====
-- The calls that leave a ready slot as it was: those of other slots, releases, and stale ones.
use sdkwork_sandbox.Base.{
  ℕ, ◌==◌, ◌≡◌, ◌∙◌, ap, inl, inr, true, false, ◌&&◌, some, Text, get, text_eq, text_eq_iff,
  get-insert_other, ok, err, arith, Result, and_then, Bool-cases, Option-cases,
}
use sdkwork_sandbox.Pool.SlotState
use sdkwork_sandbox.Pool.SlotState.{SlotState, can_transition_to}
use sdkwork_sandbox.Pool.ClaimState.{ClaimState}
use sdkwork_sandbox.Pool.Records.{PoolSlot, PoolClaim}
use sdkwork_sandbox.Pool.Registry.Defs.{
  Registry, slot_in, put_slot, finalize_claim_state, quarantine_claim, quarantine_slot,
  quarantine_locked,
}
use sdkwork_sandbox.Pool.Registry.Ready.{ReadyRequest, ready_write, ready_slot}
use sdkwork_sandbox.Pool.Registry.Release.{
  ReleaseRequest, release, release_move, release_outcome, sanitize_slot,
}
use sdkwork_sandbox.Pool.Registry.Withdraw.{
  QuarantineRequest, RetireRequest, quarantine, retire, retire_slot,
}
use sdkwork_sandbox.Pool.Registry.Slots.{quarantine_slot_cases}

-- The registry has this slot under this identity.
abbrev pub HasSlot : Text → PoolSlot → Registry → Type 0
HasSlot id x s = get id s.slots ≡ some x

module _ (id : Text) (x : PoolSlot) where
  pub put_other :
      (k : Text) (y : PoolSlot) (s : Registry)
      → text_eq k id ≡ false
      → HasSlot id x s
      → HasSlot id x (put_slot k y s)
  put_other k y s other there = get-insert_other id k y s.slots other ∙ there

  pub and_then-HasSlot {ℓ μ} :
      {E : Type ℓ} {A B : Type μ} (first : Registry × Result E A)
      (rest : A → Registry → Registry × Result E B)
      → HasSlot id x first.0
      → ((a : A) (t : Registry) → HasSlot id x t → HasSlot id x (rest a t).0)
      → HasSlot id x (and_then first rest).0
  and_then-HasSlot (t, ok a) rest h k = k a t h
  and_then-HasSlot (t, err e) rest h k = h

  pub finalize-HasSlot :
      (c : Text) (next : ClaimState) (s : Registry)
      → HasSlot id x s
      → HasSlot id x (finalize_claim_state c next s).0
  unfolding finalize_claim_state
  finalize-HasSlot c next s there = ground (arith, there)

  quarantine_claim-HasSlot :
      (k : Text) (s : Registry) → HasSlot id x s → HasSlot id x (quarantine_claim k s).0
  unfolding quarantine_claim
  quarantine_claim-HasSlot k s there = elim (Option-cases (get k s.active_claims_by_slot)) [
    | inl e ↦ rw (quarantine_claim, e) there
    | inr (c, e) ↦
        rw (quarantine_claim, e)
          (and_then-HasSlot (finalize_claim_state c ClaimState.quarantined s) (λ _ t. (t, ok tt))
            (finalize-HasSlot c ClaimState.quarantined s there) (λ _ t h. h))
  ]

  -- The writes to another slot.
  quarantine_slot-HasSlot :
      (k : Text) (now : ℕ) (s : Registry)
      → text_eq k id ≡ false
      → HasSlot id x s
      → HasSlot id x (quarantine_slot k now s).0
  unfolding quarantine_slot
  quarantine_slot-HasSlot k now s other there = elim (Option-cases (get k s.slots)) [
    | inl e ↦ rw (quarantine_slot, e) there
    | inr (y, e) ↦ elim (quarantine_slot_cases k now s y e) [
      | inl same ↦ rw same there
      | inr (_, moved) ↦ rw moved (put_other k (slot_in SlotState.quarantined now y) s other there)
    ]
  ]

  quarantine_locked-HasSlot :
      (k : Text) (now : ℕ) (s : Registry)
      → text_eq k id ≡ false
      → HasSlot id x s
      → HasSlot id x (quarantine_locked k now s).0
  unfolding quarantine_locked
  quarantine_locked-HasSlot k now s other there =
      and_then-HasSlot (quarantine_claim k s) (λ _. quarantine_slot k now)
        (quarantine_claim-HasSlot k s there) (λ _ t h. quarantine_slot-HasSlot k now t other h)

  retire_slot-HasSlot :
      (now : ℕ) (k : Text) (s : Registry)
      → text_eq k id ≡ false
      → HasSlot id x s
      → HasSlot id x (retire_slot now k s).0
  unfolding retire_slot
  retire_slot-HasSlot now k s other there = elim (Option-cases (get k s.slots)) [
    | inl e ↦ rw (retire_slot, e) there
    | inr (y, e) ↦ elim (Bool-cases (can_transition_to y.slot_state SlotState.retired)) [
      | inl t ↦ rw (retire_slot, e, t) (put_other k (slot_in SlotState.retired now y) s other there)
      | inr f ↦ rw (retire_slot, e, f) there
    ]
  ]

  pub ready_write-HasSlot :
      (now : ℕ) (r : ReadyRequest) (s : Registry)
      → text_eq r.pool_slot_id id ≡ false
      → HasSlot id x s
      → HasSlot id x (ready_write now r s).0
  unfolding ready_write
  ready_write-HasSlot now r s other there = elim (Option-cases (get r.pool_slot_id s.slots)) [
    | inl e ↦ rw (ready_write, e) there
    | inr (y, e) ↦ elim (Bool-cases (can_transition_to y.slot_state SlotState.ready)) [
      | inl t ↦
          rw (ready_write, e, t)
            (put_other r.pool_slot_id (ready_slot now r.preparation_evidence_fingerprint y) s other
              there)
      | inr f ↦ rw (ready_write, e, f) there
    ]
  ]

  -- A release writes the slot only as sanitizing, which a ready slot cannot be.
  sanitize_slot-HasSlot :
      (now : ℕ) (k : Text) (s : Registry)
      → x.slot_state ≡ SlotState.ready
      → HasSlot id x s
      → HasSlot id x (sanitize_slot now k s).0
  unfolding sanitize_slot can_transition_to
  sanitize_slot-HasSlot now k s ready there = elim (Option-cases (get k s.slots)) [
    | inl e ↦ rw (sanitize_slot, e) there
    | inr (y, e) ↦ elim (Bool-cases (can_transition_to y.slot_state SlotState.sanitizing)) [
      | inr f ↦ rw (sanitize_slot, e, f) there
      | inl t ↦ elim (Bool-cases (text_eq k id)) [
        | inl same ↦
            let at : k ≡ id = (text_eq_iff k id).0 same in
            let is : y ≡ x = ground (arith, at, e, there) in
            absurd (ready_stays y (ap (λ z. z.slot_state) is ∙ ready) t)
        | inr other ↦
            rw (sanitize_slot, e, t)
              (put_other k (slot_in SlotState.sanitizing now y) s other there)
      ]
    ]
  ]
    where
      ready_stays :
          (y : PoolSlot)
          → y.slot_state ≡ SlotState.ready
          → can_transition_to y.slot_state SlotState.sanitizing ≡ true
          → ⊥
      ready_stays y e t = ground (arith, e, t)

  release_move-HasSlot :
      (st : ClaimState) (now : ℕ) (c : PoolClaim) (s : Registry)
      → x.slot_state ≡ SlotState.ready
      → HasSlot id x s
      → HasSlot id x (release_move st now c s).0
  unfolding release_move
  release_move-HasSlot ClaimState.bound now c s ready there =
      and_then-HasSlot (finalize_claim_state c.pool_claim_id ClaimState.releasing s)
        (λ _. sanitize_slot now c.pool_slot_id)
        (finalize-HasSlot c.pool_claim_id ClaimState.releasing s there)
        (λ _ t h. sanitize_slot-HasSlot now c.pool_slot_id t ready h)
  release_move-HasSlot _ now c s ready there = there

  pub release-HasSlot :
      (now : ℕ) (r : ReleaseRequest) (s : Registry)
      → x.slot_state ≡ SlotState.ready
      → HasSlot id x s
      → HasSlot id x (release now r s).0
  unfolding release
  release-HasSlot now r s ready there = elim (Option-cases (get r.pool_claim_id s.claims)) [
    | inl e ↦ rw (release, e) there
    | inr (c, e) ↦ elim (Bool-cases (r.expected_fencing_token == c.fencing_token)) [
      | inr f ↦ rw (release, e, f) there
      | inl t ↦
          rw (release, e, t)
            (and_then-HasSlot (release_move c.claim_state now c s)
              (λ _ t. (t, release_outcome r.pool_claim_id c.pool_slot_id t))
              (release_move-HasSlot c.claim_state now c s ready there) (λ _ t h. h))
    ]
  ]

  -- The calls that name the slot are refused for their token.
  pub quarantine-HasSlot :
      (now : ℕ) (r : QuarantineRequest) (s : Registry)
      → HasSlot id x s
      → (text_eq r.pool_slot_id id && r.expected_fencing_token == x.fencing_token) ≡ false
      → HasSlot id x (quarantine now r s).0
  unfolding quarantine
  quarantine-HasSlot now r s there stale = elim (Bool-cases (text_eq r.pool_slot_id id)) [
    | inl same ↦
        let at = (text_eq_iff r.pool_slot_id id).0 same in ground (arith, at, there, same, stale)
    | inr other ↦ elim (Option-cases (get r.pool_slot_id s.slots)) [
      | inl e ↦ rw (quarantine, e) there
      | inr (y, e) ↦ elim (Bool-cases (r.expected_fencing_token == y.fencing_token)) [
        | inl t ↦ rw (quarantine, e, t) (quarantine_locked-HasSlot r.pool_slot_id now s other there)
        | inr f ↦ rw (quarantine, e, f) there
      ]
    ]
  ]

  pub retire-HasSlot :
      (now : ℕ) (r : RetireRequest) (s : Registry)
      → HasSlot id x s
      → (text_eq r.pool_slot_id id && r.expected_fencing_token == x.fencing_token) ≡ false
      → HasSlot id x (retire now r s).0
  unfolding retire
  retire-HasSlot now r s there stale = elim (Bool-cases (text_eq r.pool_slot_id id)) [
    | inl same ↦
        let at = (text_eq_iff r.pool_slot_id id).0 same in ground (arith, at, there, same, stale)
    | inr other ↦ elim (Option-cases (get r.pool_slot_id s.slots)) [
      | inl e ↦ rw (retire, e) there
      | inr (y, e) ↦ elim (Bool-cases (r.expected_fencing_token == y.fencing_token)) [
        | inr f ↦ rw (retire, e, f) there
        | inl t ↦ elim (Bool-cases (SlotState.state_eq y.slot_state SlotState.retired)) [
          | inl q ↦ rw (retire, e, t, q) there
          | inr f ↦
              rw (retire, e, t, f)
                (and_then-HasSlot (quarantine_claim r.pool_slot_id s)
                  (λ _. retire_slot now r.pool_slot_id)
                  (quarantine_claim-HasSlot r.pool_slot_id s there)
                  (λ _ u h. retire_slot-HasSlot now r.pool_slot_id u other h))
        ]
      ]
    ]
  ]
