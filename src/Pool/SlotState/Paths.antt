-- ===== src/Pool/SlotState/Paths.antt =====
-- The states of a slot that others lead to by the table.
use sdkwork_sandbox.Base.{◌≡◌, refl, Bool, true, false, arith}
use sdkwork_sandbox.Pool.SlotState.{
  SlotState, ready, claiming, claimed, quarantined, retired, can_transition_to,
}

pub data Reaches : SlotState → SlotState → Type 0 where
  here : {a : SlotState} → Reaches a a
  via : {a b c : SlotState} → Reaches a b → can_transition_to b c ≡ true → Reaches a c

pub Reaches-trans : {a b c : SlotState} → Reaches a b → Reaches b c → Reaches a c
Reaches-trans p here = p
Reaches-trans p (via q h) = via (Reaches-trans p q) h

pub Reaches-one : (a b : SlotState) → can_transition_to a b ≡ true → Reaches a b
Reaches-one a b h = via here h

-- Out of service.
abbrev pub is_withdrawn : SlotState → Bool
is_withdrawn quarantined = true
is_withdrawn retired = true
is_withdrawn _ = false

step_stays_withdrawn :
    (a b : SlotState) → can_transition_to a b ≡ true → is_withdrawn a ≡ true → is_withdrawn b ≡ true
unfolding can_transition_to
step_stays_withdrawn quarantined retired h w = refl
step_stays_withdrawn quarantined _ h w = ground arith
step_stays_withdrawn _ _ h w = ground arith

pub stays_withdrawn :
    {a b : SlotState} → Reaches a b → is_withdrawn a ≡ true → is_withdrawn b ≡ true
stays_withdrawn here w = w
stays_withdrawn (via {b = b} {c = c} p h) w = step_stays_withdrawn b c h (stays_withdrawn p w)

-- A slot that may be claimed reaches the claimed state, over `claiming`.
pub Reaches-claimed : (a : SlotState) → can_transition_to a claiming ≡ true → Reaches a claimed
unfolding can_transition_to
Reaches-claimed a h = via (Reaches-one a claiming h) refl

pub claimed_not_ready : claimed ≡ ready → ⊥
claimed_not_ready e = cc
