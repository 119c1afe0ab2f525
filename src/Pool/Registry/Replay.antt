-- ===== src/Pool/Registry/Replay.antt =====
-- What the repetition of an accepted claim answers.
use sdkwork_sandbox.Base.{
  ℕ, ◌≡◌, refl, ap, ◌∙◌, inl, inr, true, false, some, Text, get, leb, text_eq, text_eq_iff,
  get-insert_self, Option-cases, ok, arith,
}
use sdkwork_sandbox.Pool.Bounds.{claim_attempt_count_max}
use sdkwork_sandbox.Pool.Records.{ClaimRequest, PoolSlot, PoolClaim, claim_request_validated}
use sdkwork_sandbox.Pool.Registry.Defs.{Registry, attempts_of}
use sdkwork_sandbox.Pool.Registry.Claim.{claim_write, next_sequence, claim_replay, claim}
use sdkwork_sandbox.Pool.Registry.Acceptance.{Written, fresh_ok, answered, by_fresh, by_replay}

replayed :
    (now : ℕ) (r : ClaimRequest) (s : Registry) (c : PoolClaim)
    → claim_request_validated r ≡ ok tt
    → leb claim_attempt_count_max (attempts_of r.operation_id s) ≡ false
    → (id : Text) → get r.operation_id s.claims_by_operation ≡ some id
    → get id s.claims ≡ some c
    → c.request_fingerprint ≡ r.request_fingerprint
    → claim now r s ≡ (s, ok c)
unfolding claim_replay
replayed now r s c valid room id recorded there same =
    let matches = (text_eq_iff c.request_fingerprint r.request_fingerprint).1 same in
    by_replay now r s id valid room recorded ∙ rw (there, matches, claim_replay) refl

written_replays :
    (now later : ℕ) (r : ClaimRequest) (t : Registry) (x : PoolSlot) (c : PoolClaim)
    → claim_request_validated r ≡ ok tt
    → leb claim_attempt_count_max (attempts_of r.operation_id t) ≡ false
    → c.operation_id ≡ r.operation_id
    → c.request_fingerprint ≡ r.request_fingerprint
    → claim later r (claim_write now c x t) ≡ (claim_write now c x t, ok c)
written_replays now later r t x c valid room op same =
    replayed later r (claim_write now c x t) c valid room c.pool_claim_id
      (cc (op, get-insert_self c.operation_id c.pool_claim_id t.claims_by_operation))
      (get-insert_self c.pool_claim_id c t.claims) same

replay_found :
    (r : ClaimRequest) (id : Text) (s : Registry) (c : PoolClaim)
    → (claim_replay r id s).1 ≡ ok c
    → (get id s.claims ≡ some c) × (text_eq c.request_fingerprint r.request_fingerprint ≡ true)
unfolding claim_replay
replay_found r id s c h = ground arith

-- The same request, made again at any later time, answers the same claim and changes nothing.
pub claim_is_idempotent :
    (now later : ℕ) (r : ClaimRequest) (s : Registry) (c : PoolClaim)
    → (claim now r s).1 ≡ ok c
    → claim later r ((claim now r s).0) ≡ ((claim now r s).0, ok c)
unfolding Written
claim_is_idempotent now later r s c h =
    let (valid, room) = answered now r s c h in
    elim (Option-cases (get r.operation_id s.claims_by_operation)) [
      | inl new ↦
          let e = by_fresh now r s valid room new in
          let (a, admitted, (is, after)) = fresh_ok now r s c (rw (e) at h) in
          rw (e, after)
            (written_replays now later r (next_sequence s) a.slot c valid room
              (ap (λ d. d.operation_id) is) (ap (λ d. d.request_fingerprint) is))
      | inr (id, recorded) ↦
          let e = by_replay now r s id valid room recorded in
          let (there, matches) = replay_found r id s c (rw (e) at h) in
          let same = (text_eq_iff c.request_fingerprint r.request_fingerprint).0 matches in
          let first = replayed now r s c valid room id recorded there same in
          rw (first) (replayed later r s c valid room id recorded there same)
    ]
