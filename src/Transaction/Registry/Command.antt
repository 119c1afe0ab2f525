-- ===== src/Transaction/Registry/Command.antt =====
-- A call of the registry as data, and a history of calls.
use sdkwork_sandbox.Base.{ℕ, List, [], ◌∷◌, Text, ℤ}
use sdkwork_sandbox.Transaction.Stage.{OrchestrationStage, StageEvidence}
use sdkwork_sandbox.Transaction.Checkpoint.{CheckpointCandidate}
use sdkwork_sandbox.Transaction.Request.{TransactionRequest}
use sdkwork_sandbox.Transaction.Registry.Record.{Registry}
use sdkwork_sandbox.Transaction.Registry.Begin.{begin}
use sdkwork_sandbox.Transaction.Registry.Advance.{advance_stage}
use sdkwork_sandbox.Transaction.Registry.Candidate.{
  attach_checkpoint_candidate, record_checkpoint_handoff, promote_checkpoint,
}
use sdkwork_sandbox.Transaction.Registry.Release.{release}
use sdkwork_sandbox.Transaction.Registry.Failure.{enter_compensation, quarantine}

-- A `begin` carries the reading of the clock.
pub data Command : Type 0 where
  begins : ℕ → TransactionRequest → Command
  advances : Text → OrchestrationStage → StageEvidence → ℤ → Command
  attaches : Text → CheckpointCandidate → ℤ → Command
  hands_off : Text → ℤ → Command
  promotes : Text → Text → Command
  releases : Text → ℤ → Command
  compensates : Text → ℤ → Command
  quarantines : Text → ℤ → Command

unfoldable pub step : Registry → Command → Registry
step s (begins now r) = (begin now r s).0
step s (advances id stage e token) = (advance_stage id stage e token s).0
step s (attaches id c token) = (attach_checkpoint_candidate id c token s).0
step s (hands_off id token) = (record_checkpoint_handoff id token s).0
step s (promotes id expected) = (promote_checkpoint id expected s).0
step s (releases id token) = (release id token s).0
step s (compensates id token) = (enter_compensation id token s).0
step s (quarantines id token) = (quarantine id token s).0

unfoldable pub run : Registry → List Command → Registry
run s [] = s
run s (c ∷ cs) = run (step s c) cs
