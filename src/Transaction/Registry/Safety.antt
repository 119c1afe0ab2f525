-- ===== src/Transaction/Registry/Safety.antt =====
-- What no history of calls can bring about.
use sdkwork_sandbox.Base.{◌≤◌, ◌≡◌, false, Text, arith, List, length}
use sdkwork_sandbox.Transaction.State
use sdkwork_sandbox.Transaction.State.{TransactionState, can_transition_to}
use sdkwork_sandbox.Transaction.Registry.Record.{
  TransactionRecord, is_closed, refuses_stages, empty,
}
use sdkwork_sandbox.Transaction.Registry.Invariant.{Finished, Recorded, state_at}
use sdkwork_sandbox.Transaction.Registry.Command.{Command, run}
use sdkwork_sandbox.Transaction.Registry.Preservation.History.{history-Inv}

-- Whatever calls are made of a new registry, a transaction that is released has evidence of all 21
-- stages, and if it is read-write it has a sealed checkpoint candidate, a recorded handoff, and
-- evidence of the two checkpoint stages that says completed and not inapplicable.
pub released-Finished :
    (cs : List Command) (id : Text) (t : TransactionRecord)
    → Recorded (run empty cs) id t
    → t.state ≡ State.released
    → Finished t
released-Finished cs id t there h = ((history-Inv cs).records id t there).finished h

-- Whatever calls are made of a new registry, two transactions of one session that are neither
-- released nor quarantined are the same transaction.
pub one_writer :
    (cs : List Command) (i j : Text) (t u : TransactionRecord)
    → Recorded (run empty cs) i t
    → Recorded (run empty cs) j u
    → is_closed t.state ≡ false
    → is_closed u.state ≡ false
    → t.request.session_id ≡ u.request.session_id
    → i ≡ j
one_writer cs i j t u at au ot ou same =
    let v = history-Inv cs in
    let first = v.holds i t at ot in let second = v.holds j u au ou in ground arith

-- Whatever calls are made of a new registry, a transaction that is neither over nor in
-- compensation is in the state of its highest completed stage, that stage is at most the 21st, and
-- the registry holds at most 100 transactions.
pub state_tracks_stages :
    (cs : List Command) (id : Text) (t : TransactionRecord)
    → Recorded (run empty cs) id t
    → refuses_stages t.state ≡ false
    → (t.state ≡ state_at t.ledger.highest_completed_position)
      × (t.ledger.highest_completed_position ≤ 21)
      × (length (run empty cs).transactions ≤ 100)
state_tracks_stages cs id t there h =
    let v = history-Inv cs in
    let r = v.records id t there in (r.tracked h, r.ordered.within, v.bounded)
