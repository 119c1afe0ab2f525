-- ===== src/Pool/Registry/Slots/Ready.antt =====
-- The slots after one was marked ready.
use sdkwork_sandbox.Base.{
  ℕ, refl, inl, inr, Bool, true, Text, get, Bool-cases, Option-cases, Result-cases, ok,
}
use sdkwork_sandbox.Pool.SlotState
use sdkwork_sandbox.Pool.SlotState.{SlotState, can_transition_to}
use sdkwork_sandbox.Pool.SlotState.Paths.{Reaches-one}
use sdkwork_sandbox.Pool.ClaimState.{ClaimState}
use sdkwork_sandbox.Pool.Records.{PoolSlot, validate_fingerprint}
use sdkwork_sandbox.Pool.Registry.Defs.{Registry, put_slot, finalize_claim_state}
use sdkwork_sandbox.Pool.Registry.Ready.{
  ReadyRequest, mark_ready, ready_write, release_sanitized, ready_admission, ready_slot,
}
use sdkwork_sandbox.Pool.Registry.Slots.{
  Follows, Follows-same, Follows-put, Follows-and_then, finalize-Follows,
}

ready_write-Follows :
    (now : ℕ) (r : ReadyRequest) (s : Registry) → Follows true s ((ready_write now r s).0)
unfolding ready_write
ready_write-Follows now r s = elim (Option-cases (get r.pool_slot_id s.slots)) [
  | inl e ↦ rw (e, ready_write) (Follows-same true s s refl)
  | inr (x, e) ↦ elim (Bool-cases (can_transition_to x.slot_state SlotState.ready)) [
    | inr f ↦ rw (e, f, ready_write) (Follows-same true s s refl)
    | inl t ↦
        let y = ready_slot now r.preparation_evidence_fingerprint x in
        rw (e, t, ready_write)
          (Follows-put true s (put_slot r.pool_slot_id y s) r.pool_slot_id x y e
            (refl, Reaches-one x.slot_state SlotState.ready t, λ q _. absurd (cc q)) refl)
  ]
]

pub release_sanitized-Follows :
    (m : Bool) (id : Text) (x : PoolSlot) (s : Registry)
    → Follows m s ((release_sanitized id x s).0)
unfolding release_sanitized
release_sanitized-Follows m id x s =
    elim (Bool-cases (SlotState.state_eq x.slot_state SlotState.sanitizing)) [
      | inr f ↦ rw (f, release_sanitized) (Follows-same m s s refl)
      | inl t ↦ elim (Option-cases (get id s.active_claims_by_slot)) [
        | inl e ↦ rw (t, e, release_sanitized) (Follows-same m s s refl)
        | inr (c, e) ↦
            rw (t, e, release_sanitized)
              (Follows-and_then m s (finalize_claim_state c ClaimState.released s)
                (λ _ s'. (s', ok tt)) (finalize-Follows m c ClaimState.released s)
                (λ _ t. Follows-same m t t refl))
      ]
    ]

pub mark_ready-Follows :
    (now : ℕ) (r : ReadyRequest) (s : Registry) → Follows true s ((mark_ready now r s).0)
unfolding mark_ready
mark_ready-Follows now r s =
    elim (Result-cases (validate_fingerprint r.preparation_evidence_fingerprint)) [
      | inr (x, e) ↦ rw (e, mark_ready) (Follows-same true s s refl)
      | inl (u, e) ↦ elim (Option-cases (get r.pool_slot_id s.slots)) [
        | inl q ↦ rw (e, q, mark_ready) (Follows-same true s s refl)
        | inr (x, q) ↦ elim (Result-cases (ready_admission r x)) [
          | inr (z, a) ↦ rw (e, q, a, mark_ready) (Follows-same true s s refl)
          | inl (z, a) ↦
              rw (e, q, a, mark_ready)
                (Follows-and_then true s (release_sanitized r.pool_slot_id x s)
                  (λ _. ready_write now r) (release_sanitized-Follows true r.pool_slot_id x s)
                  (λ _. ready_write-Follows now r))
        ]
      ]
    ]
