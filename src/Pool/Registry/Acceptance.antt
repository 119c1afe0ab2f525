-- ===== src/Pool/Registry/Acceptance.antt =====
-- When a claim is accepted, and what it writes.
use sdkwork_sandbox.Base.{
  ℕ, suc, ◌≡◌, refl, sym, subst, Map, insert, get-insert_self, inl, inr, true, false, none, some,
  Text, get, leb, ltb, text_eq, text_eq_iff, u64_max, Bool-cases, Option-cases, Result-cases, ok,
  arith, eqb_ℤ_iff,
}
use sdkwork_sandbox.Pool.Bounds.{claim_attempt_count_max}
use sdkwork_sandbox.Pool.Error.{RuntimePoolResult}
use sdkwork_sandbox.Pool.ClaimState
use sdkwork_sandbox.Pool.SlotState
use sdkwork_sandbox.Pool.SlotState.{can_transition_to}
use sdkwork_sandbox.Pool.Records.{
  ClaimRequest, PoolSlot, PoolClaim, claim_request_validated, fencing_next, id_new,
}
use sdkwork_sandbox.Pool.Registry.Defs.{Registry, attempts_of, claim_id_of}
use sdkwork_sandbox.Pool.Registry.Claim.{
  Admitted, slot_admission, claim_admission, claim_record, claim_write, claim_named, claim_commit,
  claimed_slot, next_sequence, claim_replay, claim_fresh, claim,
}

-- What the registry must hold for a claim to be admitted.
pub record Claimable (r : ClaimRequest) (s : Registry) (x : PoolSlot) : Type 0 where
  pub slot_there : get r.pool_slot_id s.slots ≡ some x
  pub slot_ready : x.slot_state ≡ SlotState.ready
  pub profile_matches : x.resource_profile_id ≡ r.resource_profile_id
  pub revision_matches : x.capacity_revision ≡ r.capacity_revision
  pub token_matches : r.expected_fencing_token ≡ x.fencing_token
  pub slot_unclaimed : get r.pool_slot_id s.active_claims_by_slot ≡ none
  pub binding_unclaimed : get r.runtime_binding_id s.active_claims_by_binding ≡ none

pub admission_slot :
    (r : ClaimRequest) (s : Registry) (a : Admitted)
    → claim_admission r s ≡ ok a
    → (get r.pool_slot_id s.slots ≡ some a.slot)
      × (get r.pool_slot_id s.active_claims_by_slot ≡ none)
      × (get r.runtime_binding_id s.active_claims_by_binding ≡ none)
      × (slot_admission r a.slot ≡ ok tt)
      × (r.admission_grant_id ≡ some a.admission_grant_id)
      × (r.capacity_reservation_id ≡ some a.capacity_reservation_id)
unfolding claim_admission
admission_slot r s a h = ground arith

slot_conditions :
    (r : ClaimRequest) (x : PoolSlot)
    → slot_admission r x ≡ ok tt
    → (x.slot_state ≡ SlotState.ready)
      × (text_eq x.resource_profile_id r.resource_profile_id ≡ true)
      × (x.capacity_revision ≡ r.capacity_revision)
      × (r.expected_fencing_token ≡ x.fencing_token)
unfolding slot_admission
slot_conditions r x h = ground (arith, eqb_ℤ_iff x.capacity_revision r.capacity_revision)

pub admission-Claimable :
    (r : ClaimRequest) (s : Registry) (a : Admitted)
    → claim_admission r s ≡ ok a
    → Claimable r s a.slot
admission-Claimable r s a h =
    let (there, unclaimed, unbound, fits, grant, reservation) = admission_slot r s a h in
    let (is_ready, profile, revision, token) = slot_conditions r a.slot fits in
    record {
      slot_there = there;
      slot_ready = is_ready;
      profile_matches = (text_eq_iff a.slot.resource_profile_id r.resource_profile_id).0 profile;
      revision_matches = revision;
      token_matches = token;
      slot_unclaimed = unclaimed;
      binding_unclaimed = unbound;
    }

id_new_same : (t i : Text) → id_new t ≡ ok i → i ≡ t
unfolding id_new
id_new_same t i h = ground arith

next_token : (n t : ℕ) → fencing_next n ≡ some t → t ≡ suc n
unfolding fencing_next
next_token n t h = ground arith

ok_same : {a b : PoolClaim} → ◌≡◌ {A = RuntimePoolResult PoolClaim} (ok a) (ok b) → b ≡ a
ok_same e = cc

-- What an accepted claim is and writes, for the token and the sequence number that it got.
unfoldable pub Written :
    ℕ → ClaimRequest → Admitted → ℕ → PoolSlot → PoolClaim → Registry → Registry → Type 0
Written now r a token x c t after =
    (c ≡ claim_record now r a token (claim_id_of t.claim_sequence))
    × (after ≡ claim_write now c x t)

named_ok :
    (now : ℕ) (r : ClaimRequest) (a : Admitted) (token : ℕ) (t : Registry) (x : PoolSlot)
    (c : PoolClaim)
    → get r.pool_slot_id t.slots ≡ some x
    → (claim_named now r a token t).1 ≡ ok c
    → Written now r a token x c t ((claim_named now r a token t).0)
unfolding Written claim_named can_transition_to
named_ok now r a token t x c e h = elim (Result-cases (id_new (claim_id_of t.claim_sequence))) [
  | inr (z, q) ↦ absurd (cc (rw (q, claim_named) at h))
  | inl (id, q) ↦ elim (Bool-cases (can_transition_to x.slot_state SlotState.claiming)) [
    | inr f ↦ absurd (cc (rw (q, e, f, claim_named) at h))
    | inl ready ↦
        let named = id_new_same (claim_id_of t.claim_sequence) id q in
        let is = ok_same (rw (q, e, ready, claim_named) at h) in
        (rw (is, named) refl, rw (q, e, ready, is, claim_named) refl)
  ]
]

commit_ok :
    (now : ℕ) (r : ClaimRequest) (a : Admitted) (s : Registry) (x : PoolSlot) (c : PoolClaim)
    → get r.pool_slot_id s.slots ≡ some x
    → (claim_commit now r a s).1 ≡ ok c
    → Written now r a
        (suc s.highest_fencing_token)
        x
        c
        (next_sequence s)
        ((claim_commit now r a s).0)
unfolding claim_commit
commit_ok now r a s x c e h = elim (Option-cases (fencing_next s.highest_fencing_token)) [
  | inl q ↦ absurd (cc (rw (q, claim_commit) at h))
  | inr (token, q) ↦ elim (Bool-cases (ltb s.claim_sequence u64_max)) [
    | inr f ↦ absurd (cc (rw (q, f, claim_commit) at h))
    | inl t ↦ rw (sym (next_token s.highest_fencing_token token q)) (
        rw (q, t, claim_commit)
          (named_ok now r a token (next_sequence s) x c e (rw (q, t, claim_commit) at h)))
  ]
]

pub fresh_ok :
    (now : ℕ) (r : ClaimRequest) (s : Registry) (c : PoolClaim)
    → (claim_fresh now r s).1 ≡ ok c
    → (a : Admitted) × (claim_admission r s ≡ ok a)
      × Written now r a
          (suc s.highest_fencing_token)
          a.slot
          c
          (next_sequence s)
          ((claim_fresh now r s).0)
unfolding claim_fresh
fresh_ok now r s c h = elim (Result-cases (claim_admission r s)) [
  | inr (z, q) ↦ absurd (cc (rw (q, claim_fresh) at h))
  | inl (a, q) ↦
      let there = (admission_slot r s a q).0 in
      (a, q, rw (q, claim_fresh) (commit_ok now r a s a.slot c there (rw (q, claim_fresh) at h)))
]

-- The way to an answer that is not an error.
pub answered :
    (now : ℕ) (r : ClaimRequest) (s : Registry) (c : PoolClaim)
    → (claim now r s).1 ≡ ok c
    → (claim_request_validated r ≡ ok tt)
      × (leb claim_attempt_count_max (attempts_of r.operation_id s) ≡ false)
unfolding claim
answered now r s c h = elim (Result-cases (claim_request_validated r)) [
  | inr (z, q) ↦ absurd (cc (rw (q, claim) at h))
  | inl (tt, q) ↦ elim (Bool-cases (leb claim_attempt_count_max (attempts_of r.operation_id s))) [
    | inl t ↦ absurd (cc (rw (q, t, claim) at h))
    | inr f ↦ (q, f)
  ]
]

pub by_fresh :
    (now : ℕ) (r : ClaimRequest) (s : Registry)
    → claim_request_validated r ≡ ok tt
    → leb claim_attempt_count_max (attempts_of r.operation_id s) ≡ false
    → get r.operation_id s.claims_by_operation ≡ none
    → claim now r s ≡ claim_fresh now r s
unfolding claim
by_fresh now r s q f e = rw (q, f, e, claim) refl

pub by_replay :
    (now : ℕ) (r : ClaimRequest) (s : Registry) (id : Text)
    → claim_request_validated r ≡ ok tt
    → leb claim_attempt_count_max (attempts_of r.operation_id s) ≡ false
    → get r.operation_id s.claims_by_operation ≡ some id
    → claim now r s ≡ claim_replay r id s
unfolding claim
by_replay now r s id q f e = rw (q, f, e, claim) refl

-- What the claim says, for the request and the registry that it was made of.
pub record Granted (r : ClaimRequest) (s : Registry) (c : PoolClaim) : Type 0 where
  pub of_slot : c.pool_slot_id ≡ r.pool_slot_id
  pub of_binding : c.runtime_binding_id ≡ r.runtime_binding_id
  pub of_session : c.session_id ≡ r.session_id
  pub of_operation : c.operation_id ≡ r.operation_id
  pub of_fingerprint : c.request_fingerprint ≡ r.request_fingerprint
  pub is_bound : c.claim_state ≡ ClaimState.bound
  pub token_next : c.fencing_token ≡ suc s.highest_fencing_token
  pub identity_next : c.pool_claim_id ≡ claim_id_of (suc s.claim_sequence)

-- What the registry holds of the claim afterwards: the slot is claimed under its token, and the claim
-- stands under its identity and in the indexes by operation, slot and runtime binding.
pub record Entered (r : ClaimRequest) (c : PoolClaim) (n : Registry) : Type 0 where
  pub slot_claimed :
      (y : PoolSlot) × (get r.pool_slot_id n.slots ≡ some y)
      × (y.slot_state ≡ SlotState.claimed)
      × (y.fencing_token ≡ c.fencing_token)
  pub claim_there : get c.pool_claim_id n.claims ≡ some c
  pub by_operation : get r.operation_id n.claims_by_operation ≡ some c.pool_claim_id
  pub by_slot : get r.pool_slot_id n.active_claims_by_slot ≡ some c.pool_claim_id
  pub by_binding : get r.runtime_binding_id n.active_claims_by_binding ≡ some c.pool_claim_id
  pub token_highest : n.highest_fencing_token ≡ c.fencing_token

record-Granted :
    (now : ℕ) (r : ClaimRequest) (s : Registry) (a : Admitted) (c : PoolClaim)
    → c ≡ claim_record now r a (suc s.highest_fencing_token) (claim_id_of (suc s.claim_sequence))
    → Granted r s c
record-Granted now r s a c is = subst (Granted r s) (sym is) (record {
  of_slot = refl;
  of_binding = refl;
  of_session = refl;
  of_operation = refl;
  of_fingerprint = refl;
  is_bound = refl;
  token_next = refl;
  identity_next = refl;
})

-- An insertion under a key that the request names.
held_under : {V : Type 0} (k j : Text) (v : V) (m : Map V) → k ≡ j → get j (insert k v m) ≡ some v
held_under k j v m e = subst (λ i. get i (insert k v m) ≡ some v) e (get-insert_self k v m)

write-Entered :
    (now : ℕ) (r : ClaimRequest) (s t : Registry) (x : PoolSlot) (c : PoolClaim)
    → Granted r s c
    → Entered r c (claim_write now c x t)
write-Entered now r s t x c g = record {
  slot_claimed = (
    claimed_slot now c.fencing_token x,
    held_under c.pool_slot_id r.pool_slot_id (claimed_slot now c.fencing_token x) t.slots g.of_slot,
    refl,
    refl,
  );
  claim_there = get-insert_self c.pool_claim_id c t.claims;
  by_operation =
      held_under c.operation_id r.operation_id c.pool_claim_id t.claims_by_operation g.of_operation;
  by_slot =
      held_under c.pool_slot_id r.pool_slot_id c.pool_claim_id t.active_claims_by_slot g.of_slot;
  by_binding =
      held_under c.runtime_binding_id r.runtime_binding_id c.pool_claim_id
        t.active_claims_by_binding g.of_binding;
  token_highest = refl;
}

-- An operation without a recorded claim is given one only for a slot that is ready, of the requested
-- profile and capacity revision, with the expected fencing token, and neither the slot nor the
-- runtime binding has an active claim. The claim names the slot, the runtime binding, the session,
-- the operation and the fingerprint of the request; it is bound, its token is the one after the
-- highest, and its identity is the next of the sequence. Afterwards the slot is claimed under that
-- token, which is the highest, and the claim stands under its identity and in the indexes by
-- operation, slot and runtime binding.
pub claim_takes_ready_slot :
    (now : ℕ) (r : ClaimRequest) (s : Registry) (c : PoolClaim)
    → get r.operation_id s.claims_by_operation ≡ none
    → (claim now r s).1 ≡ ok c
    → (x : PoolSlot) × Claimable r s x × Granted r s c × Entered r c (claim now r s).0
unfolding Written
claim_takes_ready_slot now r s c new h =
    let (valid, room) = answered now r s c h in
    let e = by_fresh now r s valid room new in
    let (a, admitted, (is, after)) = fresh_ok now r s c (rw (e) at h) in
    let granted = record-Granted now r s a c is in
    (
      a.slot,
      admission-Claimable r s a admitted,
      granted,
      rw (e, after) (write-Entered now r s (next_sequence s) a.slot c granted),
    )
