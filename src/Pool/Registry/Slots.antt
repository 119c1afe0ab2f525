-- ===== src/Pool/Registry/Slots.antt =====
-- What a call does to the slots that the registry holds: no slot is lost, each keeps what it was
-- registered as, and it moves along the table.
pub mod Claims
pub mod Exits
pub mod Ready
use sdkwork_sandbox.Base.{
  ℕ, ◌≡◌, refl, ◌⊎◌, inl, inr, Bool, true, false, none, some, ℤ, Text, get, insert, text_eq,
  text_eq_iff, get-insert, get-insert_self, get-insert_other, Bool-cases, Option-cases,
  Result-cases, ok, err, arith, Result, and_then,
}
use sdkwork_sandbox.Pool.SlotState
use sdkwork_sandbox.Pool.SlotState.{SlotState, can_transition_to}
use sdkwork_sandbox.Pool.SlotState.Paths.{Reaches, here, Reaches-trans, Reaches-one}
use sdkwork_sandbox.Pool.ClaimState
use sdkwork_sandbox.Pool.ClaimState.{ClaimState}
use sdkwork_sandbox.Pool.PoolClass.{PoolClass}
use sdkwork_sandbox.Pool.Records.{PoolSlot}
use sdkwork_sandbox.Pool.Registry.Defs.{
  Registry, finalize_claim_state, quarantine_slot, quarantine_claim, quarantine_locked, slot_in,
  put_slot, write_claim, note_failed_claim,
}

-- What a slot was registered as.
abbrev pub registered_as : PoolSlot → Text × PoolClass × Text × Text × ℤ
registered_as x =
    (x.pool_slot_id, x.pool_class, x.resource_profile_id, x.node_reference, x.capacity_revision)

-- A later version of a slot; unless the call marks slots ready, it makes none ready.
abbrev pub Later : Bool → PoolSlot → PoolSlot → Type 0
Later marking x y =
    (registered_as y ≡ registered_as x)
    × Reaches x.slot_state y.slot_state
    × (marking ≡ false → y.slot_state ≡ SlotState.ready → x.slot_state ≡ SlotState.ready)

abbrev pub Follows : Bool → Registry → Registry → Type 0
Follows marking s s' =
    (id : Text) (x : PoolSlot)
    → get id s.slots ≡ some x
    → (y : PoolSlot) × (get id s'.slots ≡ some y) × Later marking x y

pub Later-self : (m : Bool) (x : PoolSlot) → Later m x x
Later-self m x = (refl, here, λ _ h. h)

pub Follows-same : (m : Bool) (s s' : Registry) → s'.slots ≡ s.slots → Follows m s s'
Follows-same m s s' e id x h = (x, cc, Later-self m x)

pub Follows-trans : (m : Bool) (s t u : Registry) → Follows m s t → Follows m t u → Follows m s u
Follows-trans m s t u f g id x h =
    let (y, there, (same, path, only)) = f id x h in
    let (z, there', (same', path', only')) = g id y there in
    (z, there', (cc, Reaches-trans path path', λ q r. only q (only' q r)))

pub Follows-put :
    (m : Bool) (s s' : Registry) (k : Text) (x y : PoolSlot)
    → get k s.slots ≡ some x
    → Later m x y
    → s'.slots ≡ insert k y s.slots
    → Follows m s s'
Follows-put m s s' k x y h l e i z j = elim (Bool-cases (text_eq k i)) [
  | inl same ↦
      let at_key = (text_eq_iff k i).0 same in
      let same_slot : z ≡ x = ground (arith, at_key, j, h) in
      (y, cc (get-insert_self k y s.slots), rw (same_slot) l)
  | inr other ↦ (z, cc (get-insert_other i k y s.slots other), Later-self m z)
]

pub Follows-and_then {ℓ μ} :
    {E : Type ℓ} {A B : Type μ} (m : Bool) (s : Registry) (first : Registry × Result E A)
    (rest : A → Registry → Registry × Result E B)
    → Follows m s (first.0)
    → ((a : A) (t : Registry) → Follows m t ((rest a t).0))
    → Follows m s ((and_then first rest).0)
Follows-and_then m s (t, ok a) rest f g = Follows-trans m s t ((rest a t).0) f (g a t)
Follows-and_then m s (t, err e) rest f g = f

state_apart :
    (a : SlotState) → a ≡ SlotState.ready → SlotState.state_eq a SlotState.ready ≡ false → ⊥
state_apart a e f = cc

-- A slot that moves by the table to a state other than ready.
pub Follows-move :
    (m : Bool) (now : ℕ) (s : Registry) (k : Text) (x : PoolSlot) (next : SlotState)
    → get k s.slots ≡ some x
    → can_transition_to x.slot_state next ≡ true
    → SlotState.state_eq next SlotState.ready ≡ false
    → Follows m s (put_slot k (slot_in next now x) s)
Follows-move m now s k x next h t ne =
    Follows-put m s (put_slot k (slot_in next now x) s) k x (slot_in next now x) h
      (refl, Reaches-one x.slot_state next t, λ _ r. absurd (state_apart next r ne)) refl

pub finalize-Follows :
    (m : Bool) (id : Text) (next : ClaimState) (s : Registry)
    → Follows m s ((finalize_claim_state id next s).0)
unfolding finalize_claim_state
finalize-Follows m id next s = Follows-same m s ((finalize_claim_state id next s).0) same
  where
    same : (finalize_claim_state id next s).0.slots ≡ s.slots
    same = ground arith

pub quarantine_claim-Follows :
    (m : Bool) (id : Text) (s : Registry) → Follows m s ((quarantine_claim id s).0)
unfolding quarantine_claim
quarantine_claim-Follows m id s = elim (Option-cases (get id s.active_claims_by_slot)) [
  | inr (claim, e) ↦
      rw (e, quarantine_claim)
        (Follows-and_then m s (finalize_claim_state claim ClaimState.quarantined s)
          (λ _ s'. (s', ok tt)) (finalize-Follows m claim ClaimState.quarantined s)
          (λ _ t. Follows-same m t t refl))
  | inl e ↦ rw (e, quarantine_claim) (Follows-same m s s refl)
]

pub quarantine_slot_cases :
    (id : Text) (now : ℕ) (s : Registry) (x : PoolSlot)
    → get id s.slots ≡ some x
    → ((quarantine_slot id now s).0 ≡ s)
      ⊎ ((can_transition_to x.slot_state SlotState.quarantined ≡ true)
          × ((quarantine_slot id now s).0 ≡ put_slot id (slot_in SlotState.quarantined now x) s))
unfolding quarantine_slot
quarantine_slot_cases id now s x e = ground arith

pub quarantine_slot-Follows :
    (m : Bool) (id : Text) (now : ℕ) (s : Registry) → Follows m s ((quarantine_slot id now s).0)
unfolding quarantine_slot
quarantine_slot-Follows m id now s = elim (Option-cases (get id s.slots)) [
  | inl e ↦ rw (e, quarantine_slot) (Follows-same m s s refl)
  | inr (x, e) ↦ elim (quarantine_slot_cases id now s x e) [
    | inl r ↦ Follows-same m s ((quarantine_slot id now s).0) (cc (r))
    | inr (t, r) ↦ rw (r) (Follows-move m now s id x SlotState.quarantined e t refl)
  ]
]

pub quarantine_locked-Follows :
    (m : Bool) (id : Text) (now : ℕ) (s : Registry) → Follows m s ((quarantine_locked id now s).0)
unfolding quarantine_locked
quarantine_locked-Follows m id now s =
    Follows-and_then m s (quarantine_claim id s) (λ _. quarantine_slot id now)
      (quarantine_claim-Follows m id s) (λ _. quarantine_slot-Follows m id now)
