-- ===== src/Pool/Registry/Slots/Claims.antt =====
-- The slots after a preparation and after a claim.
use sdkwork_sandbox.Base.{
  ℕ, ◌≡◌, refl, inl, inr, Bool, none, Text, get, Bool-cases, Option-cases, Result-cases,
  get-insert_other, text_eq, text_eq_iff, ok, arith, leb, ltb, u64_max,
}
use sdkwork_sandbox.Pool.SlotState.{SlotState, can_transition_to}
use sdkwork_sandbox.Pool.SlotState.Paths.{Reaches-claimed, claimed_not_ready}
use sdkwork_sandbox.Pool.Bounds.{claim_attempt_count_max}
use sdkwork_sandbox.Pool.Records.{
  PoolSlot, PreparationRequest, ClaimRequest, claim_request_validated, id_new, fencing_next,
}
use sdkwork_sandbox.Pool.Registry.Defs.{Registry, claim_id_of, note_failed_claim, attempts_of}
use sdkwork_sandbox.Pool.Registry.Prepare.{prepare, prepare_admission, warm_evidence_checked}
use sdkwork_sandbox.Pool.Registry.Claim.{
  Admitted, claim, claim_fresh, claim_replay, claim_commit, claim_named, claim_admission,
  next_sequence, claim_write, claim_record, claimed_slot,
}
use sdkwork_sandbox.Pool.Registry.Slots.{Follows, Follows-same, Follows-put, Later-self}

pub prepared_new :
    (now : ℕ) (r : PreparationRequest) (s : Registry) (x : PoolSlot)
    → prepare_admission now r s ≡ ok x
    → get r.pool_slot_id s.slots ≡ none
unfolding prepare_admission warm_evidence_checked
prepared_new now r s x h = ground arith

pub prepare-Follows :
    (m : Bool) (now : ℕ) (r : PreparationRequest) (s : Registry) → Follows m s ((prepare now r s).0)
unfolding prepare
prepare-Follows m now r s = elim (Result-cases (prepare_admission now r s)) [
  | inr (e, h) ↦ rw (h, prepare) (Follows-same m s s refl)
  | inl (x, h) ↦
      let fresh = prepared_new now r s x h in
      rw (h, prepare)
        (λ id y there. elim (Bool-cases (text_eq r.pool_slot_id id)) [
          | inl same ↦ absurd (ground (arith, (text_eq_iff r.pool_slot_id id).0 same, fresh, there))
          | inr other ↦ (y, cc (get-insert_other id r.pool_slot_id x s.slots other), Later-self m y)
        ])
]

claim_named-Follows :
    (m : Bool) (now : ℕ) (r : ClaimRequest) (a : Admitted) (token : ℕ) (s : Registry)
    → Follows m s ((claim_named now r a token s).0)
unfolding claim_named can_transition_to
claim_named-Follows m now r a token s =
    elim (Result-cases (id_new (claim_id_of s.claim_sequence))) [
      | inr (e, h) ↦ rw (h, claim_named) (Follows-same m s s refl)
      | inl (id, h) ↦ elim (Option-cases (get r.pool_slot_id s.slots)) [
        | inl q ↦ rw (h, q, claim_named) (Follows-same m s s refl)
        | inr (x, q) ↦ elim (Bool-cases (can_transition_to x.slot_state SlotState.claiming)) [
          | inr f ↦ rw (h, q, f, claim_named) (Follows-same m s s refl)
          | inl t ↦
              rw (h, q, t, claim_named)
                (Follows-put m s (claim_write now (claim_record now r a token id) x s)
                  r.pool_slot_id x (claimed_slot now token x) q
                  (refl, Reaches-claimed x.slot_state t, λ _ z. absurd (claimed_not_ready z)) refl)
        ]
      ]
    ]

claim_commit-Follows :
    (m : Bool) (now : ℕ) (r : ClaimRequest) (a : Admitted) (s : Registry)
    → Follows m s ((claim_commit now r a s).0)
unfolding claim_commit
claim_commit-Follows m now r a s = elim (Option-cases (fencing_next s.highest_fencing_token)) [
  | inl e ↦ rw (e, claim_commit) (Follows-same m s s refl)
  | inr (token, e) ↦ elim (Bool-cases (ltb s.claim_sequence u64_max)) [
    | inl t ↦ rw (e, t, claim_commit) (claim_named-Follows m now r a token (next_sequence s))
    | inr f ↦ rw (e, f, claim_commit) (Follows-same m s s refl)
  ]
]

claim_fresh-Follows :
    (m : Bool) (now : ℕ) (r : ClaimRequest) (s : Registry) → Follows m s ((claim_fresh now r s).0)
unfolding claim_fresh
claim_fresh-Follows m now r s = elim (Result-cases (claim_admission r s)) [
  | inl (a, e) ↦ rw (e, claim_fresh) (claim_commit-Follows m now r a s)
  | inr (x, e) ↦ rw (e, claim_fresh) (Follows-same m s (note_failed_claim r.operation_id s) refl)
]

claim_replay-Follows :
    (m : Bool) (r : ClaimRequest) (id : Text) (s : Registry) → Follows m s ((claim_replay r id s).0)
claim_replay-Follows m r id s = Follows-same m s ((claim_replay r id s).0) same
  where
    same : (claim_replay r id s).0.slots ≡ s.slots
    same = unfold claim_replay in ground arith

pub claim-Follows :
    (m : Bool) (now : ℕ) (r : ClaimRequest) (s : Registry) → Follows m s ((claim now r s).0)
unfolding claim
claim-Follows m now r s = elim (Result-cases (claim_request_validated r)) [
  | inr (x, e) ↦ rw (e, claim) (Follows-same m s s refl)
  | inl (x, e) ↦ elim (Bool-cases (leb claim_attempt_count_max (attempts_of r.operation_id s))) [
    | inl t ↦ rw (e, t, claim) (Follows-same m s s refl)
    | inr f ↦ elim (Option-cases (get r.operation_id s.claims_by_operation)) [
      | inl q ↦ rw (e, f, q, claim) (claim_fresh-Follows m now r s)
      | inr (id, q) ↦ rw (e, f, q, claim) (claim_replay-Follows m r id s)
    ]
  ]
]
