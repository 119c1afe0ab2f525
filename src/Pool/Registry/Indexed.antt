-- ===== src/Pool/Registry/Indexed.antt =====
-- Every active claim is in both indexes, under its slot and under its runtime binding.
pub mod Claims
pub mod Exits
pub mod Ready
use sdkwork_sandbox.Base.{
  ℕ, ◌≡◌, refl, ap, ◌⊎◌, inl, inr, Bool, true, false, none, some, Text, get, insert, remove,
  text_eq, text_eq_iff, text_eq_self, get-insert_self, get-insert_other, get-remove_other,
  insert_cases, Map, Bool-cases, Option-cases, Result-cases, Result, ok, err, and_then, arith,
}
use sdkwork_sandbox.Pool.ClaimState
use sdkwork_sandbox.Pool.ClaimState.{ClaimState, can_transition_to}
use sdkwork_sandbox.Pool.Records.{PoolClaim}
use sdkwork_sandbox.Pool.Registry.Slots.{quarantine_slot_cases}
use sdkwork_sandbox.Pool.Registry.Defs.{
  Registry, is_active_claim_state, finalize_claim_state, write_claim, claim_in, quarantine_slot,
  quarantine_claim, quarantine_locked,
}

abbrev pub AreIndexed : Map PoolClaim → Map Text → Map Text → Type 0
AreIndexed claims by_slot by_binding =
    (id : Text) (c : PoolClaim)
    → get id claims ≡ some c
    → is_active_claim_state c.claim_state ≡ true
    → (get c.pool_slot_id by_slot ≡ some id) × (get c.runtime_binding_id by_binding ≡ some id)

abbrev pub Indexed : Registry → Type 0
Indexed s = AreIndexed s.claims s.active_claims_by_slot s.active_claims_by_binding

pub and_then-Indexed {ℓ μ} :
    {E : Type ℓ} {A B : Type μ} (first : Registry × Result E A)
    (rest : A → Registry → Registry × Result E B)
    → Indexed (first.0)
    → ((a : A) (t : Registry) → Indexed t → Indexed ((rest a t).0))
    → Indexed ((and_then first rest).0)
and_then-Indexed (t, ok a) rest v g = g a t v
and_then-Indexed (t, err e) rest v g = v

moves_active : (a b : ClaimState) → can_transition_to a b ≡ true → is_active_claim_state a ≡ true
unfolding can_transition_to
moves_active a b h = ground arith

-- A key that another entry stands under is kept by a removal and by a write under a free key.
kept_by_remove :
    (k j : Text) (i id : Text) (m : Map Text)
    → get k m ≡ some id
    → get j m ≡ some i
    → text_eq id i ≡ false
    → get j (remove k m) ≡ some i
kept_by_remove k j i id m h g ne = elim (Bool-cases (text_eq k j)) [
  | inl same ↦ absurd (ground (arith, (text_eq_iff k j).0 same, h, g, ne, text_eq_self id))
  | inr other ↦ cc (get-remove_other j k m other)
]

kept_by_insert :
    (k j : Text) (i id : Text) (m : Map Text)
    → get k m ≡ none
    → get j m ≡ some i
    → get j (insert k id m) ≡ some i
kept_by_insert k j i id m h g = elim (Bool-cases (text_eq k j)) [
  | inl same ↦ absurd (ground (arith, (text_eq_iff k j).0 same, h, g))
  | inr other ↦ cc (get-insert_other j k id m other)
]

write_claim-Indexed :
    (id : Text) (next : ClaimState) (c : PoolClaim) (s : Registry)
    → get id s.claims ≡ some c
    → can_transition_to c.claim_state next ≡ true
    → Indexed s
    → Indexed (write_claim id next c s)
write_claim-Indexed id next c s there moves v =
    let (at_slot, at_binding) = v id c there (moves_active c.claim_state next moves) in
    elim (Bool-cases (is_active_claim_state next)) [
      | inl t ↦ rw (t) (λ j d h act. elim (insert_cases j id (claim_in next c) d s.claims h) [
        | inl (same, is) ↦ rw (is, same) (at_slot, at_binding)
        | inr (other, old) ↦ v j d old act
      ])
      | inr f ↦ rw (f) (λ j d h act. elim (insert_cases j id (claim_in next c) d s.claims h) [
        | inl (same, is) ↦ absurd (ended d is act f)
        | inr (other, old) ↦
            let (slot, binding) = v j d old act in
            (
              kept_by_remove c.pool_slot_id d.pool_slot_id j id s.active_claims_by_slot at_slot slot
                  other,
              kept_by_remove c.runtime_binding_id d.runtime_binding_id j id
                  s.active_claims_by_binding at_binding binding other,
            )
      ])
    ]
  where
    ended :
        (d : PoolClaim)
        → d ≡ claim_in next c
        → is_active_claim_state d.claim_state ≡ true
        → is_active_claim_state next ≡ false
        → ⊥
    ended d is act f = cc (ap (λ e. is_active_claim_state e.claim_state) is)

pub finalize-Indexed :
    (id : Text) (next : ClaimState) (s : Registry)
    → Indexed s
    → Indexed ((finalize_claim_state id next s).0)
unfolding finalize_claim_state
finalize-Indexed id next s v = elim (Option-cases (get id s.claims)) [
  | inl e ↦ rw (e, finalize_claim_state) v
  | inr (c, e) ↦ elim (Bool-cases (can_transition_to c.claim_state next)) [
    | inr f ↦ rw (e, f, finalize_claim_state) v
    | inl t ↦ rw (e, t, finalize_claim_state) (write_claim-Indexed id next c s e t v)
  ]
]

pub quarantine_claim-Indexed :
    (id : Text) (s : Registry) → Indexed s → Indexed ((quarantine_claim id s).0)
unfolding quarantine_claim
quarantine_claim-Indexed id s v = elim (Option-cases (get id s.active_claims_by_slot)) [
  | inr (claim, e) ↦
      rw (e, quarantine_claim)
        (and_then-Indexed (finalize_claim_state claim ClaimState.quarantined s)
          (λ _ s'. (s', ok tt)) (finalize-Indexed claim ClaimState.quarantined s v) (λ _ t w. w))
  | inl e ↦ rw (e, quarantine_claim) v
]

pub quarantine_slot-Indexed :
    (id : Text) (now : ℕ) (s : Registry) → Indexed s → Indexed ((quarantine_slot id now s).0)
quarantine_slot-Indexed id now s v = elim (Option-cases (get id s.slots)) [
  | inl e ↦ unfold quarantine_slot in rw (e, quarantine_slot) v
  | inr (x, e) ↦ elim (quarantine_slot_cases id now s x e) [
    | inl r ↦ rw (r) v
    | inr (t, r) ↦ rw (r) v
  ]
]

pub quarantine_locked-Indexed :
    (id : Text) (now : ℕ) (s : Registry) → Indexed s → Indexed ((quarantine_locked id now s).0)
unfolding quarantine_locked
quarantine_locked-Indexed id now s v =
    and_then-Indexed (quarantine_claim id s) (λ _. quarantine_slot id now)
      (quarantine_claim-Indexed id s v) (λ _. quarantine_slot-Indexed id now)
