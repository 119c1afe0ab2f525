-- ===== src/Pool/Registry/Attempts/Silent.antt =====
-- The calls that count no failed attempt.
use sdkwork_sandbox.Base.{
  ℕ, ◌≡◌, refl, ◌∙◌, inl, inr, Text, List, [], ◌∷◌, get, leb, ltb, ◌==◌, ◌||◌, suc, ok, err, arith,
  Bool-cases, Option-cases, Result-cases, Result, and_then,
}
use sdkwork_sandbox.Pool.Bounds.{reconciliation_batch_size_max}
use sdkwork_sandbox.Pool.Records.{
  PreparationRequest, PoolSlot, PoolClaim, validate_fingerprint, ClaimRequest,
}
use sdkwork_sandbox.Pool.ClaimState.{ClaimState}
use sdkwork_sandbox.Pool.SlotState
use sdkwork_sandbox.Pool.Registry.Defs.{
  Registry, finalize_claim_state, quarantine_slot, quarantine_claim, quarantine_locked,
}
use sdkwork_sandbox.Pool.Registry.Prepare.{prepare}
use sdkwork_sandbox.Pool.Registry.Claim.{Admitted, claim_commit, claim_named}
use sdkwork_sandbox.Pool.Registry.Ready.{
  ReadyRequest, ready_admission, mark_ready, release_sanitized, ready_write,
}
use sdkwork_sandbox.Pool.Registry.Release.{
  ReleaseRequest, release_outcome, release, release_move, sanitize_slot,
}
use sdkwork_sandbox.Pool.Registry.Withdraw.{
  QuarantineRequest, RetireRequest, quarantine, retire, retire_slot,
}
use sdkwork_sandbox.Pool.Registry.Reconcile.{
  Candidates, reconcile_slots, reconcile_candidates, visit, reported, visited_before,
}

-- A call leaves the counters alone.
abbrev pub Uncounted : Registry → Registry → Type 0
Uncounted s n = n.failed_claim_attempts ≡ s.failed_claim_attempts

Uncounted-and_then {ℓ μ} :
    {E : Type ℓ} {A B : Type μ} (s : Registry) (first : Registry × Result E A)
    (rest : A → Registry → Registry × Result E B)
    → Uncounted s first.0
    → ((a : A) (t : Registry) → Uncounted t (rest a t).0)
    → Uncounted s (and_then first rest).0
Uncounted-and_then s (t, ok a) rest f g = g a t ∙ f
Uncounted-and_then s (t, err e) rest f g = f

finalize-Uncounted :
    (id : Text) (next : ClaimState) (s : Registry) → Uncounted s (finalize_claim_state id next s).0
unfolding finalize_claim_state
finalize-Uncounted id next s = ground arith

quarantine_claim-Uncounted : (id : Text) (s : Registry) → Uncounted s (quarantine_claim id s).0
unfolding quarantine_claim
quarantine_claim-Uncounted id s = elim (Option-cases (get id s.active_claims_by_slot)) [
  | inl e ↦ rw (quarantine_claim, e) refl
  | inr (c, e) ↦
      rw (quarantine_claim, e)
        (Uncounted-and_then s (finalize_claim_state c ClaimState.quarantined s) (λ _ t. (t, ok tt))
          (finalize-Uncounted c ClaimState.quarantined s) (λ _ t. refl))
]

quarantine_slot-Uncounted :
    (id : Text) (now : ℕ) (s : Registry) → Uncounted s (quarantine_slot id now s).0
unfolding quarantine_slot
quarantine_slot-Uncounted id now s = ground arith

quarantine_locked-Uncounted :
    (id : Text) (now : ℕ) (s : Registry) → Uncounted s (quarantine_locked id now s).0
unfolding quarantine_locked
quarantine_locked-Uncounted id now s =
    Uncounted-and_then s (quarantine_claim id s) (λ _. quarantine_slot id now)
      (quarantine_claim-Uncounted id s) (λ _. quarantine_slot-Uncounted id now)

pub prepare-Uncounted :
    (now : ℕ) (r : PreparationRequest) (s : Registry) → Uncounted s (prepare now r s).0
unfolding prepare
prepare-Uncounted now r s = ground arith

release_sanitized-Uncounted :
    (id : Text) (x : PoolSlot) (s : Registry) → Uncounted s (release_sanitized id x s).0
unfolding release_sanitized
release_sanitized-Uncounted id x s =
    elim (Bool-cases (SlotState.state_eq x.slot_state SlotState.sanitizing)) [
      | inr f ↦ rw (release_sanitized, f) refl
      | inl t ↦ elim (Option-cases (get id s.active_claims_by_slot)) [
        | inl e ↦ rw (release_sanitized, t, e) refl
        | inr (c, e) ↦
            rw (release_sanitized, t, e)
              (Uncounted-and_then s (finalize_claim_state c ClaimState.released s)
                (λ _ t. (t, ok tt)) (finalize-Uncounted c ClaimState.released s) (λ _ t. refl))
      ]
    ]

ready_write-Uncounted :
    (now : ℕ) (r : ReadyRequest) (s : Registry) → Uncounted s (ready_write now r s).0
unfolding ready_write
ready_write-Uncounted now r s = ground arith

pub mark_ready-Uncounted :
    (now : ℕ) (r : ReadyRequest) (s : Registry) → Uncounted s (mark_ready now r s).0
unfolding mark_ready
mark_ready-Uncounted now r s =
    elim (Result-cases (validate_fingerprint r.preparation_evidence_fingerprint)) [
      | inr (_, v) ↦ rw (mark_ready, v) refl
      | inl (_, v) ↦ elim (Option-cases (get r.pool_slot_id s.slots)) [
        | inl e ↦ rw (mark_ready, v, e) refl
        | inr (x, e) ↦ elim (Result-cases (ready_admission r x)) [
          | inr (_, q) ↦ rw (mark_ready, v, e, q) refl
          | inl (_, q) ↦
              rw (mark_ready, v, e, q)
                (Uncounted-and_then s (release_sanitized r.pool_slot_id x s)
                  (λ _. ready_write now r) (release_sanitized-Uncounted r.pool_slot_id x s)
                  (λ _. ready_write-Uncounted now r))
        ]
      ]
    ]

sanitize_slot-Uncounted :
    (now : ℕ) (id : Text) (s : Registry) → Uncounted s (sanitize_slot now id s).0
unfolding sanitize_slot
sanitize_slot-Uncounted now id s = ground arith

release_move-Uncounted :
    (st : ClaimState) (now : ℕ) (c : PoolClaim) (s : Registry)
    → Uncounted s (release_move st now c s).0
unfolding release_move
release_move-Uncounted ClaimState.bound now c s =
    Uncounted-and_then s (finalize_claim_state c.pool_claim_id ClaimState.releasing s)
      (λ _. sanitize_slot now c.pool_slot_id)
      (finalize-Uncounted c.pool_claim_id ClaimState.releasing s)
      (λ _. sanitize_slot-Uncounted now c.pool_slot_id)
release_move-Uncounted _ now c s = refl

pub release-Uncounted :
    (now : ℕ) (r : ReleaseRequest) (s : Registry) → Uncounted s (release now r s).0
unfolding release
release-Uncounted now r s = elim (Option-cases (get r.pool_claim_id s.claims)) [
  | inl e ↦ rw (release, e) refl
  | inr (c, e) ↦ elim (Bool-cases (r.expected_fencing_token == c.fencing_token)) [
    | inr f ↦ rw (release, e, f) refl
    | inl t ↦
        rw (release, e, t)
          (Uncounted-and_then s (release_move c.claim_state now c s)
            (λ _ t. (t, release_outcome r.pool_claim_id c.pool_slot_id t))
            (release_move-Uncounted c.claim_state now c s) (λ _ t. refl))
  ]
]

pub quarantine-Uncounted :
    (now : ℕ) (r : QuarantineRequest) (s : Registry) → Uncounted s (quarantine now r s).0
unfolding quarantine
quarantine-Uncounted now r s = elim (Option-cases (get r.pool_slot_id s.slots)) [
  | inl e ↦ rw (quarantine, e) refl
  | inr (x, e) ↦ elim (Bool-cases (r.expected_fencing_token == x.fencing_token)) [
    | inl t ↦ rw (quarantine, e, t) (quarantine_locked-Uncounted r.pool_slot_id now s)
    | inr f ↦ rw (quarantine, e, f) refl
  ]
]

retire_slot-Uncounted : (now : ℕ) (id : Text) (s : Registry) → Uncounted s (retire_slot now id s).0
unfolding retire_slot
retire_slot-Uncounted now id s = ground arith

pub retire-Uncounted : (now : ℕ) (r : RetireRequest) (s : Registry) → Uncounted s (retire now r s).0
unfolding retire
retire-Uncounted now r s = elim (Option-cases (get r.pool_slot_id s.slots)) [
  | inl e ↦ rw (retire, e) refl
  | inr (x, e) ↦ elim (Bool-cases (r.expected_fencing_token == x.fencing_token)) [
    | inr f ↦ rw (retire, e, f) refl
    | inl t ↦ elim (Bool-cases (SlotState.state_eq x.slot_state SlotState.retired)) [
      | inl q ↦ rw (retire, e, t, q) refl
      | inr f ↦
          rw (retire, e, t, f)
            (Uncounted-and_then s (quarantine_claim r.pool_slot_id s)
              (λ _. retire_slot now r.pool_slot_id) (quarantine_claim-Uncounted r.pool_slot_id s)
              (λ _. retire_slot-Uncounted now r.pool_slot_id))
    ]
  ]
]

visit-Uncounted :
    (batch now : ℕ) (cs : Candidates) (n : ℕ) (seen : List Text) (done : Candidates) (s : Registry)
    → Uncounted s (visit batch now cs n seen done s).0
unfolding visit
visit-Uncounted batch now [] n seen done s = refl
visit-Uncounted batch now (c ∷ cs) n seen done s = elim (Bool-cases (leb batch n)) [
  | inl t ↦ rw (visit, t) refl
  | inr f ↦ elim (Bool-cases (visited_before c.0 seen)) [
    | inl v ↦ rw (visit, f, v) (visit-Uncounted batch now cs (suc n) seen done s)
    | inr v ↦
        rw (visit, f, v)
          (visit-Uncounted batch now cs (suc n) (c.0 ∷ seen)
              (reported c (quarantine_locked c.0 now s).1 done) (quarantine_locked c.0 now s).0
            ∙ quarantine_locked-Uncounted c.0 now s)
  ]
]

pub reconcile_slots-Uncounted :
    (now batch : ℕ) (s : Registry) → Uncounted s (reconcile_slots now batch s).0
unfolding reconcile_slots
reconcile_slots-Uncounted now batch s =
    elim (Bool-cases (batch == 0 || ltb reconciliation_batch_size_max batch)) [
      | inl t ↦ rw (reconcile_slots, t) refl
      | inr f ↦
          rw (reconcile_slots, f) (visit-Uncounted batch now (reconcile_candidates now s) 0 [] [] s)
    ]

pub claim_commit-Uncounted :
    (now : ℕ) (r : ClaimRequest) (a : Admitted) (s : Registry)
    → Uncounted s (claim_commit now r a s).0
unfolding claim_commit claim_named
claim_commit-Uncounted now r a s = ground arith
