-- ===== src/Pool/Registry/Indexed/Claims.antt =====
-- The indexes after a preparation and after a claim.
use sdkwork_sandbox.Base.{
  ℕ, ◌≡◌, inl, inr, none, Text, get, Bool-cases, Option-cases, Result-cases, text_eq, leb, ltb,
  u64_max,
}
use sdkwork_sandbox.Pool.SlotState.{SlotState, can_transition_to}
use sdkwork_sandbox.Pool.Bounds.{claim_attempt_count_max}
use sdkwork_sandbox.Pool.Records.{
  PoolSlot, PreparationRequest, ClaimRequest, claim_request_validated, id_new, fencing_next,
}
use sdkwork_sandbox.Pool.Registry.Defs.{Registry, claim_id_of, attempts_of}
use sdkwork_sandbox.Pool.Registry.Prepare.{prepare, prepare_admission}
use sdkwork_sandbox.Pool.Registry.Claim.{
  Admitted, claim, claim_fresh, claim_replay, claim_commit, claim_named, claim_admission,
  next_sequence, claim_write, claim_record,
}
use sdkwork_sandbox.Base.{none, insert_cases, get-insert_self}
use sdkwork_sandbox.Pool.Records.{PoolClaim}
use sdkwork_sandbox.Pool.Registry.Acceptance.{admission_slot}
use sdkwork_sandbox.Pool.Registry.Indexed.{Indexed, kept_by_insert}

pub prepare-Indexed :
    (now : ℕ) (r : PreparationRequest) (s : Registry) → Indexed s → Indexed ((prepare now r s).0)
unfolding prepare
prepare-Indexed now r s v = elim (Result-cases (prepare_admission now r s)) [
  | inr (e, h) ↦ rw (h, prepare) v
  | inl (x, h) ↦ rw (h, prepare) v
]

-- A new claim for a slot and a binding without an active claim is put in both indexes.
claim_write-Indexed :
    (now : ℕ) (c : PoolClaim) (x : PoolSlot) (s : Registry)
    → get c.pool_slot_id s.active_claims_by_slot ≡ none
    → get c.runtime_binding_id s.active_claims_by_binding ≡ none
    → Indexed s
    → Indexed (claim_write now c x s)
claim_write-Indexed now c x s free unbound v j d h act =
    elim (insert_cases j c.pool_claim_id c d s.claims h) [
      | inl (same, is) ↦
          rw (is, same)
            (
              get-insert_self c.pool_slot_id c.pool_claim_id s.active_claims_by_slot,
              get-insert_self c.runtime_binding_id c.pool_claim_id s.active_claims_by_binding,
            )
      | inr (other, old) ↦
          let (slot, binding) = v j d old act in
          (
            kept_by_insert c.pool_slot_id d.pool_slot_id j c.pool_claim_id s.active_claims_by_slot
                free slot,
            kept_by_insert c.runtime_binding_id d.runtime_binding_id j c.pool_claim_id
                s.active_claims_by_binding unbound binding,
          )
    ]

claim_named-Indexed :
    (now : ℕ) (r : ClaimRequest) (a : Admitted) (token : ℕ) (s : Registry)
    → get r.pool_slot_id s.active_claims_by_slot ≡ none
    → get r.runtime_binding_id s.active_claims_by_binding ≡ none
    → Indexed s
    → Indexed ((claim_named now r a token s).0)
unfolding claim_named can_transition_to
claim_named-Indexed now r a token s free unbound v =
    elim (Result-cases (id_new (claim_id_of s.claim_sequence))) [
      | inr (e, h) ↦ rw (h, claim_named) v
      | inl (id, h) ↦ elim (Option-cases (get r.pool_slot_id s.slots)) [
        | inl q ↦ rw (h, q, claim_named) v
        | inr (x, q) ↦ elim (Bool-cases (can_transition_to x.slot_state SlotState.claiming)) [
          | inr f ↦ rw (h, q, f, claim_named) v
          | inl t ↦
              rw (h, q, t, claim_named)
                (claim_write-Indexed now (claim_record now r a token id) x s free unbound v)
        ]
      ]
    ]

claim_commit-Indexed :
    (now : ℕ) (r : ClaimRequest) (a : Admitted) (s : Registry)
    → get r.pool_slot_id s.active_claims_by_slot ≡ none
    → get r.runtime_binding_id s.active_claims_by_binding ≡ none
    → Indexed s
    → Indexed ((claim_commit now r a s).0)
unfolding claim_commit
claim_commit-Indexed now r a s free unbound v =
    elim (Option-cases (fencing_next s.highest_fencing_token)) [
      | inl e ↦ rw (e, claim_commit) v
      | inr (token, e) ↦ elim (Bool-cases (ltb s.claim_sequence u64_max)) [
        | inl t ↦
            rw (e, t, claim_commit)
              (claim_named-Indexed now r a token (next_sequence s) free unbound v)
        | inr f ↦ rw (e, f, claim_commit) v
      ]
    ]

claim_fresh-Indexed :
    (now : ℕ) (r : ClaimRequest) (s : Registry) → Indexed s → Indexed ((claim_fresh now r s).0)
unfolding claim_fresh
claim_fresh-Indexed now r s v = elim (Result-cases (claim_admission r s)) [
  | inl (a, e) ↦
      let (there, free, unbound, fits, grant, reservation) = admission_slot r s a e in
      rw (e, claim_fresh) (claim_commit-Indexed now r a s free unbound v)
  | inr (x, e) ↦ rw (e, claim_fresh) v
]

claim_replay-Indexed :
    (r : ClaimRequest) (id : Text) (s : Registry) → Indexed s → Indexed ((claim_replay r id s).0)
unfolding claim_replay
claim_replay-Indexed r id s v = elim (Option-cases (get id s.claims)) [
  | inl e ↦ rw (e, claim_replay) v
  | inr (c, e) ↦ elim (Bool-cases (text_eq c.request_fingerprint r.request_fingerprint)) [
    | inl t ↦ rw (e, t, claim_replay) v
    | inr f ↦ rw (e, f, claim_replay) v
  ]
]

pub claim-Indexed :
    (now : ℕ) (r : ClaimRequest) (s : Registry) → Indexed s → Indexed ((claim now r s).0)
unfolding claim
claim-Indexed now r s v = elim (Result-cases (claim_request_validated r)) [
  | inr (x, e) ↦ rw (e, claim) v
  | inl (x, e) ↦ elim (Bool-cases (leb claim_attempt_count_max (attempts_of r.operation_id s))) [
    | inl t ↦ rw (e, t, claim) v
    | inr f ↦ elim (Option-cases (get r.operation_id s.claims_by_operation)) [
      | inl q ↦ rw (e, f, q, claim) (claim_fresh-Indexed now r s v)
      | inr (id, q) ↦ rw (e, f, q, claim) (claim_replay-Indexed r id s v)
    ]
  ]
]
