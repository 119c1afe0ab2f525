-- ===== src/Pool/Registry/Command.antt =====
-- A call of the pool control as data, and a history of calls.
use sdkwork_sandbox.Base.{ℕ, List, [], ◌∷◌}
use sdkwork_sandbox.Pool.Records.{PreparationRequest, ClaimRequest}
use sdkwork_sandbox.Pool.Registry.Defs.{Registry}
use sdkwork_sandbox.Pool.Registry.Prepare.{prepare}
use sdkwork_sandbox.Pool.Registry.Claim.{claim}
use sdkwork_sandbox.Pool.Registry.Ready.{ReadyRequest, mark_ready}
use sdkwork_sandbox.Pool.Registry.Release.{ReleaseRequest, release}
use sdkwork_sandbox.Pool.Registry.Withdraw.{QuarantineRequest, quarantine, RetireRequest, retire}
use sdkwork_sandbox.Pool.Registry.Reconcile.{reconcile_slots}

pub data Command : Type 0 where
  prepares : PreparationRequest → Command
  claims : ClaimRequest → Command
  marks_ready : ReadyRequest → Command
  releases : ReleaseRequest → Command
  quarantines : QuarantineRequest → Command
  retires : RetireRequest → Command
  reconciles : ℕ → Command

-- A call at the time that the clock reads.
unfoldable pub step : Registry → ℕ × Command → Registry
step s (now, prepares r) = (prepare now r s).0
step s (now, claims r) = (claim now r s).0
step s (now, marks_ready r) = (mark_ready now r s).0
step s (now, releases r) = (release now r s).0
step s (now, quarantines r) = (quarantine now r s).0
step s (now, retires r) = (retire now r s).0
step s (now, reconciles batch) = (reconcile_slots now batch s).0

unfoldable pub run : Registry → List (ℕ × Command) → Registry
run s [] = s
run s (c ∷ cs) = run (step s c) cs
