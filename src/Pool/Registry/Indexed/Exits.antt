-- ===== src/Pool/Registry/Indexed/Exits.antt =====
-- The indexes after a release, a quarantine, a retirement and a reconciliation.
use sdkwork_sandbox.Base.{
  ℕ, suc, inl, inr, List, [], ◌∷◌, Text, get, Bool-cases, Option-cases, ◌==◌, ◌||◌, leb, ltb,
}
use sdkwork_sandbox.Pool.SlotState
use sdkwork_sandbox.Pool.SlotState.{SlotState, can_transition_to}
use sdkwork_sandbox.Pool.ClaimState.{ClaimState}
use sdkwork_sandbox.Pool.Bounds.{reconciliation_batch_size_max}
use sdkwork_sandbox.Pool.Error.{QuarantineReason}
use sdkwork_sandbox.Pool.Records.{PoolClaim}
use sdkwork_sandbox.Pool.Registry.Defs.{Registry, quarantine_claim, finalize_claim_state}
use sdkwork_sandbox.Pool.Registry.Release.{
  ReleaseRequest, release, release_move, sanitize_slot, release_outcome,
}
use sdkwork_sandbox.Pool.Registry.Withdraw.{
  QuarantineRequest, quarantine, RetireRequest, retire, retire_slot,
}
use sdkwork_sandbox.Pool.Registry.Reconcile.{
  visit, visit_one, visited_before, Candidates, reconcile_slots, reconcile_candidates,
}
use sdkwork_sandbox.Pool.Registry.Indexed.{
  Indexed, and_then-Indexed, finalize-Indexed, quarantine_claim-Indexed, quarantine_locked-Indexed,
}

sanitize_slot-Indexed :
    (now : ℕ) (id : Text) (s : Registry) → Indexed s → Indexed ((sanitize_slot now id s).0)
unfolding sanitize_slot
sanitize_slot-Indexed now id s v = elim (Option-cases (get id s.slots)) [
  | inl e ↦ rw (e, sanitize_slot) v
  | inr (x, e) ↦ elim (Bool-cases (can_transition_to x.slot_state SlotState.sanitizing)) [
    | inl t ↦ rw (e, t, sanitize_slot) v
    | inr f ↦ rw (e, f, sanitize_slot) v
  ]
]

release_move-Indexed :
    (st : ClaimState) (now : ℕ) (c : PoolClaim) (s : Registry)
    → Indexed s
    → Indexed ((release_move st now c s).0)
unfolding release_move
release_move-Indexed ClaimState.bound now c s v =
    and_then-Indexed (finalize_claim_state c.pool_claim_id ClaimState.releasing s)
      (λ _. sanitize_slot now c.pool_slot_id)
      (finalize-Indexed c.pool_claim_id ClaimState.releasing s v)
      (λ _. sanitize_slot-Indexed now c.pool_slot_id)
release_move-Indexed _ now c s v = v

pub release-Indexed :
    (now : ℕ) (r : ReleaseRequest) (s : Registry) → Indexed s → Indexed ((release now r s).0)
unfolding release
release-Indexed now r s v = elim (Option-cases (get r.pool_claim_id s.claims)) [
  | inl e ↦ rw (e, release) v
  | inr (c, e) ↦ elim (Bool-cases (r.expected_fencing_token == c.fencing_token)) [
    | inl t ↦
        rw (e, t, release)
          (and_then-Indexed (release_move c.claim_state now c s)
            (λ _ s'. (s', release_outcome r.pool_claim_id c.pool_slot_id s'))
            (release_move-Indexed c.claim_state now c s v) (λ _ t w. w))
    | inr f ↦ rw (e, f, release) v
  ]
]

pub quarantine-Indexed :
    (now : ℕ) (r : QuarantineRequest) (s : Registry) → Indexed s → Indexed ((quarantine now r s).0)
unfolding quarantine
quarantine-Indexed now r s v = elim (Option-cases (get r.pool_slot_id s.slots)) [
  | inl e ↦ rw (e, quarantine) v
  | inr (x, e) ↦ elim (Bool-cases (r.expected_fencing_token == x.fencing_token)) [
    | inl t ↦ rw (e, t, quarantine) (quarantine_locked-Indexed r.pool_slot_id now s v)
    | inr f ↦ rw (e, f, quarantine) v
  ]
]

retire_slot-Indexed :
    (now : ℕ) (id : Text) (s : Registry) → Indexed s → Indexed ((retire_slot now id s).0)
unfolding retire_slot
retire_slot-Indexed now id s v = elim (Option-cases (get id s.slots)) [
  | inl e ↦ rw (e, retire_slot) v
  | inr (x, e) ↦ elim (Bool-cases (can_transition_to x.slot_state SlotState.retired)) [
    | inl t ↦ rw (e, t, retire_slot) v
    | inr f ↦ rw (e, f, retire_slot) v
  ]
]

pub retire-Indexed :
    (now : ℕ) (r : RetireRequest) (s : Registry) → Indexed s → Indexed ((retire now r s).0)
unfolding retire
retire-Indexed now r s v = elim (Option-cases (get r.pool_slot_id s.slots)) [
  | inl e ↦ rw (e, retire) v
  | inr (x, e) ↦ elim (Bool-cases (r.expected_fencing_token == x.fencing_token)) [
    | inr f ↦ rw (e, f, retire) v
    | inl t ↦ elim (Bool-cases (SlotState.state_eq x.slot_state SlotState.retired)) [
      | inl q ↦ rw (e, t, q, retire) v
      | inr f ↦
          rw (e, t, f, retire)
            (and_then-Indexed (quarantine_claim r.pool_slot_id s)
              (λ _. retire_slot now r.pool_slot_id) (quarantine_claim-Indexed r.pool_slot_id s v)
              (λ _. retire_slot-Indexed now r.pool_slot_id))
    ]
  ]
]

visit_one-Indexed :
    (now : ℕ) (c : Text × QuarantineReason) (seen : List Text) (done : Candidates) (s : Registry)
    → Indexed s
    → Indexed ((visit_one now c seen done s).0)
visit_one-Indexed now c seen done s v = elim (Bool-cases (visited_before (c.0) seen)) [
  | inl t ↦ rw (t) v
  | inr f ↦ rw (f) (quarantine_locked-Indexed (c.0) now s v)
]

visit-Indexed :
    (batch now : ℕ) (cs : Candidates) (n : ℕ) (seen : List Text) (done : Candidates) (s : Registry)
    → Indexed s
    → Indexed ((visit batch now cs n seen done s).0)
unfolding visit
visit-Indexed batch now [] n seen done s v = v
visit-Indexed batch now (c ∷ cs) n seen done s v = elim (Bool-cases (leb batch n)) [
  | inl t ↦ rw (t, visit) v
  | inr f ↦
      let after = visit_one now c seen done s in
      rw (f, visit)
        (visit-Indexed batch now cs (suc n) (after.1) (after.2) (after.0)
          (visit_one-Indexed now c seen done s v))
]

pub reconcile_slots-Indexed :
    (now batch : ℕ) (s : Registry) → Indexed s → Indexed ((reconcile_slots now batch s).0)
unfolding reconcile_slots
reconcile_slots-Indexed now batch s v =
    elim (Bool-cases (batch == 0 || ltb reconciliation_batch_size_max batch)) [
      | inl t ↦ rw (t, reconcile_slots) v
      | inr f ↦
          rw (f, reconcile_slots) (visit-Indexed batch now (reconcile_candidates now s) 0 [] [] s v)
    ]
