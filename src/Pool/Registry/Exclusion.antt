-- ===== src/Pool/Registry/Exclusion.antt =====
-- At most one active claim of a slot, and of a runtime binding.
use sdkwork_sandbox.Base.{ℕ, ◌≡◌, ◌⊎◌, inl, inr, true, some, List, [], ◌∷◌, Text, get}
use sdkwork_sandbox.Pool.Records.{PoolClaim}
use sdkwork_sandbox.Pool.Registry.Defs.{Registry, empty, is_active_claim_state}
use sdkwork_sandbox.Pool.Registry.Command.{
  Command, prepares, claims, marks_ready, releases, quarantines, retires, reconciles, step, run,
}
use sdkwork_sandbox.Pool.Registry.Indexed.{Indexed}
use sdkwork_sandbox.Pool.Registry.Indexed.Claims.{prepare-Indexed, claim-Indexed}
use sdkwork_sandbox.Pool.Registry.Indexed.Exits.{
  release-Indexed, quarantine-Indexed, retire-Indexed, reconcile_slots-Indexed,
}
use sdkwork_sandbox.Pool.Registry.Indexed.Ready.{mark_ready-Indexed}

step-Indexed : (s : Registry) (c : ℕ × Command) → Indexed s → Indexed (step s c)
unfolding step
step-Indexed s (now, prepares r) v = prepare-Indexed now r s v
step-Indexed s (now, claims r) v = claim-Indexed now r s v
step-Indexed s (now, marks_ready r) v = mark_ready-Indexed now r s v
step-Indexed s (now, releases r) v = release-Indexed now r s v
step-Indexed s (now, quarantines r) v = quarantine-Indexed now r s v
step-Indexed s (now, retires r) v = retire-Indexed now r s v
step-Indexed s (now, reconciles batch) v = reconcile_slots-Indexed now batch s v

run-Indexed : (cs : List (ℕ × Command)) (s : Registry) → Indexed s → Indexed (run s cs)
unfolding run
run-Indexed [] s v = v
run-Indexed (c ∷ cs) s v = run-Indexed cs (step s c) (step-Indexed s c v)

empty-Indexed : Indexed empty
unfolding empty get
empty-Indexed id c h act = absurd (cc (h))

-- Whatever calls are made of a new pool registry, two active claims of one slot are the same claim,
-- and so are two active claims of one runtime binding.
pub one_active_claim :
    (cs : List (ℕ × Command)) (i j : Text) (c d : PoolClaim)
    → get i (run empty cs).claims ≡ some c
    → get j (run empty cs).claims ≡ some d
    → is_active_claim_state c.claim_state ≡ true
    → is_active_claim_state d.claim_state ≡ true
    → (c.pool_slot_id ≡ d.pool_slot_id) ⊎ (c.runtime_binding_id ≡ d.runtime_binding_id)
    → i ≡ j
one_active_claim cs i j c d hc hd ac ad shared =
    let v = run-Indexed cs empty empty-Indexed in
    let (slot_c, binding_c) = v i c hc ac in
    let (slot_d, binding_d) = v j d hd ad in elim shared [ inl e ↦ cc | inr e ↦ cc ]
