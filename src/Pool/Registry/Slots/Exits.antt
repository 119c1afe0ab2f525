-- ===== src/Pool/Registry/Slots/Exits.antt =====
-- The slots after a release, a quarantine, a retirement and a reconciliation.
use sdkwork_sandbox.Base.{
  ℕ, suc, refl, inl, inr, Bool, List, [], ◌∷◌, Text, get, Bool-cases, Option-cases, ◌==◌, ◌||◌, leb,
  ltb,
}
use sdkwork_sandbox.Pool.SlotState
use sdkwork_sandbox.Pool.SlotState.{SlotState, can_transition_to}
use sdkwork_sandbox.Pool.ClaimState.{ClaimState}
use sdkwork_sandbox.Pool.Bounds.{reconciliation_batch_size_max}
use sdkwork_sandbox.Pool.Error.{QuarantineReason}
use sdkwork_sandbox.Pool.Records.{PoolClaim}
use sdkwork_sandbox.Pool.Registry.Defs.{Registry, quarantine_claim, finalize_claim_state}
use sdkwork_sandbox.Pool.Registry.Release.{
  ReleaseRequest, release, release_move, sanitize_slot, release_outcome,
}
use sdkwork_sandbox.Pool.Registry.Withdraw.{
  QuarantineRequest, quarantine, RetireRequest, retire, retire_slot,
}
use sdkwork_sandbox.Pool.Registry.Reconcile.{
  visit, visit_one, visited_before, Candidates, reconcile_slots, reconcile_candidates,
}
use sdkwork_sandbox.Pool.Registry.Slots.{
  Follows, Follows-same, Follows-trans, Follows-and_then, Follows-move, finalize-Follows,
  quarantine_claim-Follows, quarantine_locked-Follows,
}

sanitize_slot-Follows :
    (m : Bool) (now : ℕ) (id : Text) (s : Registry) → Follows m s ((sanitize_slot now id s).0)
unfolding sanitize_slot
sanitize_slot-Follows m now id s = elim (Option-cases (get id s.slots)) [
  | inl e ↦ rw (e, sanitize_slot) (Follows-same m s s refl)
  | inr (x, e) ↦ elim (Bool-cases (can_transition_to x.slot_state SlotState.sanitizing)) [
    | inl t ↦ rw (e, t, sanitize_slot) (Follows-move m now s id x SlotState.sanitizing e t refl)
    | inr f ↦ rw (e, f, sanitize_slot) (Follows-same m s s refl)
  ]
]

release_move-Follows :
    (m : Bool) (st : ClaimState) (now : ℕ) (c : PoolClaim) (s : Registry)
    → Follows m s ((release_move st now c s).0)
unfolding release_move
release_move-Follows m ClaimState.bound now c s =
    Follows-and_then m s (finalize_claim_state c.pool_claim_id ClaimState.releasing s)
      (λ _. sanitize_slot now c.pool_slot_id)
      (finalize-Follows m c.pool_claim_id ClaimState.releasing s)
      (λ _. sanitize_slot-Follows m now c.pool_slot_id)
release_move-Follows m _ now c s = Follows-same m s s refl

pub release-Follows :
    (m : Bool) (now : ℕ) (r : ReleaseRequest) (s : Registry) → Follows m s ((release now r s).0)
unfolding release
release-Follows m now r s = elim (Option-cases (get r.pool_claim_id s.claims)) [
  | inl e ↦ rw (e, release) (Follows-same m s s refl)
  | inr (c, e) ↦ elim (Bool-cases (r.expected_fencing_token == c.fencing_token)) [
    | inl t ↦
        rw (e, t, release)
          (Follows-and_then m s (release_move c.claim_state now c s)
            (λ _ s'. (s', release_outcome r.pool_claim_id c.pool_slot_id s'))
            (release_move-Follows m c.claim_state now c s) (λ _ t. Follows-same m t t refl))
    | inr f ↦ rw (e, f, release) (Follows-same m s s refl)
  ]
]

pub quarantine-Follows :
    (m : Bool) (now : ℕ) (r : QuarantineRequest) (s : Registry)
    → Follows m s ((quarantine now r s).0)
unfolding quarantine
quarantine-Follows m now r s = elim (Option-cases (get r.pool_slot_id s.slots)) [
  | inl e ↦ rw (e, quarantine) (Follows-same m s s refl)
  | inr (x, e) ↦ elim (Bool-cases (r.expected_fencing_token == x.fencing_token)) [
    | inl t ↦ rw (e, t, quarantine) (quarantine_locked-Follows m r.pool_slot_id now s)
    | inr f ↦ rw (e, f, quarantine) (Follows-same m s s refl)
  ]
]

retire_slot-Follows :
    (m : Bool) (now : ℕ) (id : Text) (s : Registry) → Follows m s ((retire_slot now id s).0)
unfolding retire_slot
retire_slot-Follows m now id s = elim (Option-cases (get id s.slots)) [
  | inl e ↦ rw (e, retire_slot) (Follows-same m s s refl)
  | inr (x, e) ↦ elim (Bool-cases (can_transition_to x.slot_state SlotState.retired)) [
    | inl t ↦ rw (e, t, retire_slot) (Follows-move m now s id x SlotState.retired e t refl)
    | inr f ↦ rw (e, f, retire_slot) (Follows-same m s s refl)
  ]
]

pub retire-Follows :
    (m : Bool) (now : ℕ) (r : RetireRequest) (s : Registry) → Follows m s ((retire now r s).0)
unfolding retire
retire-Follows m now r s = elim (Option-cases (get r.pool_slot_id s.slots)) [
  | inl e ↦ rw (e, retire) (Follows-same m s s refl)
  | inr (x, e) ↦ elim (Bool-cases (r.expected_fencing_token == x.fencing_token)) [
    | inr f ↦ rw (e, f, retire) (Follows-same m s s refl)
    | inl t ↦ elim (Bool-cases (SlotState.state_eq x.slot_state SlotState.retired)) [
      | inl q ↦ rw (e, t, q, retire) (Follows-same m s s refl)
      | inr f ↦
          rw (e, t, f, retire)
            (Follows-and_then m s (quarantine_claim r.pool_slot_id s)
              (λ _. retire_slot now r.pool_slot_id) (quarantine_claim-Follows m r.pool_slot_id s)
              (λ _. retire_slot-Follows m now r.pool_slot_id))
    ]
  ]
]

visit_one-Follows :
    (m : Bool) (now : ℕ) (c : Text × QuarantineReason) (seen : List Text) (done : Candidates)
    (s : Registry)
    → Follows m s ((visit_one now c seen done s).0)
visit_one-Follows m now c seen done s = elim (Bool-cases (visited_before (c.0) seen)) [
  | inl t ↦ rw (t) (Follows-same m s s refl)
  | inr f ↦ rw (f) (quarantine_locked-Follows m (c.0) now s)
]

visit-Follows :
    (m : Bool) (batch now : ℕ) (cs : Candidates) (n : ℕ) (seen : List Text) (done : Candidates)
    (s : Registry)
    → Follows m s ((visit batch now cs n seen done s).0)
unfolding visit
visit-Follows m batch now [] n seen done s = Follows-same m s s refl
visit-Follows m batch now (c ∷ cs) n seen done s = elim (Bool-cases (leb batch n)) [
  | inl t ↦ rw (t, visit) (Follows-same m s s refl)
  | inr f ↦
      let after = visit_one now c seen done s in
      rw (f, visit)
        (Follows-trans m s (after.0) ((visit batch now cs (suc n) (after.1) (after.2) (after.0)).0)
          (visit_one-Follows m now c seen done s)
          (visit-Follows m batch now cs (suc n) (after.1) (after.2) (after.0)))
]

pub reconcile_slots-Follows :
    (m : Bool) (now batch : ℕ) (s : Registry) → Follows m s ((reconcile_slots now batch s).0)
unfolding reconcile_slots
reconcile_slots-Follows m now batch s =
    elim (Bool-cases (batch == 0 || ltb reconciliation_batch_size_max batch)) [
      | inl t ↦ rw (t, reconcile_slots) (Follows-same m s s refl)
      | inr f ↦
          rw (f, reconcile_slots) (visit-Follows m batch now (reconcile_candidates now s) 0 [] [] s)
    ]
