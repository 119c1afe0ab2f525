-- ===== src/Pool/Registry/Release/Repetition.antt =====
-- A release that is made again.
use sdkwork_sandbox.Base.{
  ℕ, ◌≡◌, refl, sym, ap, subst, ◌∙◌, inl, inr, Bool, true, false, ◌==◌, some, Text, get,
  get-insert_self, Bool-cases, Result-cases, ok, err, and_then, arith,
}
use sdkwork_sandbox.Pool.Error.{RuntimePoolError, RuntimePoolResult}
use sdkwork_sandbox.Pool.ClaimState
use sdkwork_sandbox.Pool.ClaimState.{ClaimState}
use sdkwork_sandbox.Pool.Records.{PoolClaim}
use sdkwork_sandbox.Pool.Registry.Defs.{Registry, claim_in, finalize_claim_state}
use sdkwork_sandbox.Pool.Registry.Release.{
  ReleaseRequest, ReleaseOutcome, release, release_move, release_outcome, sanitize_slot,
}

abbrev is_settled : ClaimState → Bool
is_settled ClaimState.releasing = true
is_settled ClaimState.released = true
is_settled _ = false

-- The claim is being released or is released, and has kept its token and slot.
record Settled (id : Text) (c : PoolClaim) (t : Registry) : Type 0 where
  pub now_is : PoolClaim
  pub there : get id t.claims ≡ some now_is
  pub same_token : now_is.fencing_token ≡ c.fencing_token
  pub same_slot : now_is.pool_slot_id ≡ c.pool_slot_id
  pub settled : is_settled now_is.claim_state ≡ true

sanitize_keeps_claims :
    (now : ℕ) (id : Text) (s : Registry) → (sanitize_slot now id s).0.claims ≡ s.claims
unfolding sanitize_slot
sanitize_keeps_claims now id s = ground arith

finalized :
    (c : PoolClaim) (s : Registry)
    → get c.pool_claim_id s.claims ≡ some c
    → c.claim_state ≡ ClaimState.bound
    → get c.pool_claim_id (finalize_claim_state c.pool_claim_id ClaimState.releasing s).0.claims
      ≡ some (claim_in ClaimState.releasing c)
unfolding finalize_claim_state ClaimState.can_transition_to
finalized c s there is =
    let allowed : ClaimState.can_transition_to c.claim_state ClaimState.releasing ≡ true =
      ground arith in
    rw (there, allowed, finalize_claim_state)
      (get-insert_self c.pool_claim_id (claim_in ClaimState.releasing c) s.claims)

and_then_keeps :
    (first : Registry × RuntimePoolResult PoolClaim) (now : ℕ) (id : Text)
    → (and_then first (λ _. sanitize_slot now id)).0.claims ≡ first.0.claims
and_then_keeps (t, ok a) now id = sanitize_keeps_claims now id t
and_then_keeps (t, err e) now id = refl

move_settles :
    (st : ClaimState) (now : ℕ) (c : PoolClaim) (s : Registry) (u : Unit {0})
    → get c.pool_claim_id s.claims ≡ some c
    → c.claim_state ≡ st
    → (release_move st now c s).1 ≡ ok u
    → Settled c.pool_claim_id c ((release_move st now c s).0)
unfolding release_move
move_settles ClaimState.bound now c s u there is h =
    let first = finalize_claim_state c.pool_claim_id ClaimState.releasing s in
    let same = and_then_keeps first now c.pool_slot_id in
    record {
      now_is = claim_in ClaimState.releasing c;
      there = ap (λ m. get c.pool_claim_id m) same ∙ finalized c s there is;
      same_token = refl;
      same_slot = refl;
      settled = refl;
    }
move_settles ClaimState.releasing now c s u there is h = record {
  now_is = c;
  there = there;
  same_token = refl;
  same_slot = refl;
  settled = ap is_settled is;
}
move_settles ClaimState.released now c s u there is h = record {
  now_is = c;
  there = there;
  same_token = refl;
  same_slot = refl;
  settled = ap is_settled is;
}
move_settles ClaimState.quarantined now c s u there is h = absurd (cc)
move_settles ClaimState.claiming now c s u there is h = absurd (cc)

settled_move :
    (st : ClaimState) (now : ℕ) (c : PoolClaim) (t : Registry)
    → is_settled st ≡ true
    → release_move st now c t ≡ (t, ok tt)
unfolding release_move
settled_move ClaimState.releasing now c t h = refl
settled_move ClaimState.released now c t h = refl
settled_move ClaimState.bound now c t h = absurd (cc)
settled_move ClaimState.quarantined now c t h = absurd (cc)
settled_move ClaimState.claiming now c t h = absurd (cc)

repeats :
    (later : ℕ) (r : ReleaseRequest) (c : PoolClaim) (t : Registry)
    → r.expected_fencing_token == c.fencing_token ≡ true
    → Settled r.pool_claim_id c t
    → release later r t ≡ (t, release_outcome r.pool_claim_id c.pool_slot_id t)
unfolding release
repeats later r c t held v =
    let token : r.expected_fencing_token == v.now_is.fencing_token ≡ true = cc (v.same_token) in
    let moved = settled_move v.now_is.claim_state later v.now_is t v.settled in
    rw (v.there, token, moved, release)
      (ap (λ k. (t, release_outcome r.pool_claim_id k t)) v.same_slot)

release_form :
    (now : ℕ) (r : ReleaseRequest) (s : Registry) (c : PoolClaim) (u : Unit {0})
    → get r.pool_claim_id s.claims ≡ some c
    → r.expected_fencing_token == c.fencing_token ≡ true
    → (release_move c.claim_state now c s).1 ≡ ok u
    → release now r s ≡ (
      (release_move c.claim_state now c s).0,
      release_outcome r.pool_claim_id c.pool_slot_id ((release_move c.claim_state now c s).0),
    )
unfolding release
release_form now r s c u there held h =
    rw (there, held, release) (through (release_move c.claim_state now c s) h)
  where
    through :
        (first : Registry × RuntimePoolResult (Unit {0}))
        → first.1 ≡ ok u
        → and_then first (λ _ t. (t, release_outcome r.pool_claim_id c.pool_slot_id t))
          ≡ (first.0, release_outcome r.pool_claim_id c.pool_slot_id (first.0))
    through (t, ok a) e = refl
    through (t, err z) e = absurd (cc)

-- A release that succeeded, of a claim that stands under its own identity, may be made again at any
-- later time, before any other call: it answers the same claim and slot and changes nothing.
pub release_is_idempotent :
    (now later : ℕ) (r : ReleaseRequest) (s : Registry) (c : PoolClaim) (o : ReleaseOutcome)
    → get r.pool_claim_id s.claims ≡ some c
    → c.pool_claim_id ≡ r.pool_claim_id
    → (release now r s).1 ≡ ok o
    → release later r ((release now r s).0) ≡ ((release now r s).0, ok o)
unfolding release
release_is_idempotent now later r s c o there named h =
    elim (Bool-cases (r.expected_fencing_token == c.fencing_token)) [
      | inr f ↦ absurd (cc (rw (there, f, release) at h))
      | inl held ↦ elim (Result-cases ((release_move c.claim_state now c s).1)) [
        | inr (z, e) ↦ absurd (failed held z e)
        | inl (u, e) ↦
            let form = release_form now r s c u there held e in
            let first = release_move c.claim_state now c s in
            let settles = move_settles c.claim_state now c s u (cc (named, there)) refl e in
            let again =
              repeats later r c (first.0) held (subst (λ i. Settled i c (first.0)) named settles) in
            let answer : release_outcome r.pool_claim_id c.pool_slot_id (first.0) ≡ ok o =
              sym (ap (λ p. p.1) form) ∙ h in
            rw (form) (again ∙ ap (λ x. (first.0, x)) answer)
      ]
    ]
  where
    failed :
        (held : r.expected_fencing_token == c.fencing_token ≡ true)
        → (z : RuntimePoolError) → (release_move c.claim_state now c s).1 ≡ err z
        → ⊥
    failed held z e =
        through (release_move c.claim_state now c s) e (rw (there, held, release) at h)
      where
        through :
            (first : Registry × RuntimePoolResult (Unit {0}))
            → first.1 ≡ err z
            → (and_then first (λ _ t. (t, release_outcome r.pool_claim_id c.pool_slot_id t))).1
              ≡ ok o
            → ⊥
        through (t, ok a) e g = cc
        through (t, err y) e g = cc
