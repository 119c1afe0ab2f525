-- ===== src/Pool/Registry/Indexed/Ready.antt =====
-- The indexes after a slot was marked ready.
use sdkwork_sandbox.Base.{ℕ, inl, inr, Text, get, Bool-cases, Option-cases, Result-cases, ok}
use sdkwork_sandbox.Pool.SlotState
use sdkwork_sandbox.Pool.SlotState.{SlotState, can_transition_to}
use sdkwork_sandbox.Pool.ClaimState.{ClaimState}
use sdkwork_sandbox.Pool.Records.{PoolSlot, validate_fingerprint}
use sdkwork_sandbox.Pool.Registry.Defs.{Registry, finalize_claim_state}
use sdkwork_sandbox.Pool.Registry.Ready.{
  ReadyRequest, mark_ready, ready_write, release_sanitized, ready_admission,
}
use sdkwork_sandbox.Pool.Registry.Indexed.{Indexed, and_then-Indexed, finalize-Indexed}

ready_write-Indexed :
    (now : ℕ) (r : ReadyRequest) (s : Registry) → Indexed s → Indexed ((ready_write now r s).0)
unfolding ready_write
ready_write-Indexed now r s v = elim (Option-cases (get r.pool_slot_id s.slots)) [
  | inl e ↦ rw (e, ready_write) v
  | inr (x, e) ↦ elim (Bool-cases (can_transition_to x.slot_state SlotState.ready)) [
    | inr f ↦ rw (e, f, ready_write) v
    | inl t ↦ rw (e, t, ready_write) v
  ]
]

pub release_sanitized-Indexed :
    (id : Text) (x : PoolSlot) (s : Registry) → Indexed s → Indexed ((release_sanitized id x s).0)
unfolding release_sanitized
release_sanitized-Indexed id x s v =
    elim (Bool-cases (SlotState.state_eq x.slot_state SlotState.sanitizing)) [
      | inr f ↦ rw (f, release_sanitized) v
      | inl t ↦ elim (Option-cases (get id s.active_claims_by_slot)) [
        | inl e ↦ rw (t, e, release_sanitized) v
        | inr (c, e) ↦
            rw (t, e, release_sanitized)
              (and_then-Indexed (finalize_claim_state c ClaimState.released s) (λ _ s'. (s', ok tt))
                (finalize-Indexed c ClaimState.released s v) (λ _ t w. w))
      ]
    ]

pub mark_ready-Indexed :
    (now : ℕ) (r : ReadyRequest) (s : Registry) → Indexed s → Indexed ((mark_ready now r s).0)
unfolding mark_ready
mark_ready-Indexed now r s v =
    elim (Result-cases (validate_fingerprint r.preparation_evidence_fingerprint)) [
      | inr (x, e) ↦ rw (e, mark_ready) v
      | inl (u, e) ↦ elim (Option-cases (get r.pool_slot_id s.slots)) [
        | inl q ↦ rw (e, q, mark_ready) v
        | inr (x, q) ↦ elim (Result-cases (ready_admission r x)) [
          | inr (z, a) ↦ rw (e, q, a, mark_ready) v
          | inl (z, a) ↦
              rw (e, q, a, mark_ready)
                (and_then-Indexed (release_sanitized r.pool_slot_id x s) (λ _. ready_write now r)
                  (release_sanitized-Indexed r.pool_slot_id x s v) (λ _. ready_write-Indexed now r))
        ]
      ]
    ]
