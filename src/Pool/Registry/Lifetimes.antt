-- ===== src/Pool/Registry/Lifetimes.antt =====
-- The lifetime of a slot under every call of the pool control.
use sdkwork_sandbox.Base.{ℕ, ◌≡◌, Bool, true, false, some, List, [], ◌∷◌, Text, get}
use sdkwork_sandbox.Pool.SlotState.Paths.{is_withdrawn, stays_withdrawn}
use sdkwork_sandbox.Pool.Records.{PoolSlot}
use sdkwork_sandbox.Pool.Registry.Defs.{Registry}
use sdkwork_sandbox.Pool.Registry.Command.{
  Command, prepares, claims, marks_ready, releases, quarantines, retires, reconciles, step, run,
}
use sdkwork_sandbox.Pool.Registry.Slots.{Later}
use sdkwork_sandbox.Pool.Registry.Slots.Claims.{prepare-Follows, claim-Follows}
use sdkwork_sandbox.Pool.Registry.Slots.Exits.{
  release-Follows, quarantine-Follows, retire-Follows, reconcile_slots-Follows,
}
use sdkwork_sandbox.Pool.Registry.Slots.Ready.{mark_ready-Follows}

-- Whether a call may make a slot ready.
abbrev pub is_marking : Command → Bool
is_marking (marks_ready r) = true
is_marking _ = false

-- No call loses a slot: afterwards the slot is there, registered as the same slot of the same class,
-- profile, node and capacity revision; its state was reached along the transition table; and, unless
-- the call is a `sandbox_mark_pool_slot_ready`, it is ready only if it was ready before.
pub step_follows_table :
    (s : Registry) (now : ℕ) (c : Command) (id : Text) (x : PoolSlot)
    → get id s.slots ≡ some x
    → (y : PoolSlot) × (get id (step s (now, c)).slots ≡ some y) × Later (is_marking c) x y
unfolding step
step_follows_table s now (prepares r) = prepare-Follows false now r s
step_follows_table s now (claims r) = claim-Follows false now r s
step_follows_table s now (marks_ready r) = mark_ready-Follows now r s
step_follows_table s now (releases r) = release-Follows false now r s
step_follows_table s now (quarantines r) = quarantine-Follows false now r s
step_follows_table s now (retires r) = retire-Follows false now r s
step_follows_table s now (reconciles batch) = reconcile_slots-Follows false now batch s

-- A slot that is out of service, quarantined or retired, stays out of service in every history of
-- calls.
pub withdrawn_forever :
    (cs : List (ℕ × Command)) (s : Registry) (id : Text) (x : PoolSlot)
    → get id s.slots ≡ some x
    → is_withdrawn x.slot_state ≡ true
    → (y : PoolSlot) × (get id (run s cs).slots ≡ some y) × (is_withdrawn y.slot_state ≡ true)
unfolding run
withdrawn_forever [] s id x h w = (x, h, w)
withdrawn_forever ((now, c) ∷ cs) s id x h w =
    let (y, there, (same, path, only)) = step_follows_table s now c id x h in
    withdrawn_forever cs (step s (now, c)) id y there (stays_withdrawn path w)
