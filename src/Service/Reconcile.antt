-- ===== src/Service/Reconcile.antt =====
-- service/src/service.rs: `reconcile_sandbox_sessions`, and service/src/reconciliation.rs.
use sdkwork_sandbox.Base.{
  ℕ, ◌==◌, leb, Bool, true, false, ◌&&◌, Option, none, some, List, [], ◌∷◌, length, Text, ok, err,
  guard, if◌then◌else◌,
}
use sdkwork_sandbox.Session.Kinds.{
  SessionState, starting, stopping, destroying, OperationKind, kind_eq, is_in_progress,
  is_transient,
}
use sdkwork_sandbox.Session.Ledger.{Operation, find_last}
use sdkwork_sandbox.Session.Error.{
  LifecycleResult, RepositoryResult, repository, provider, provider_readiness_rejected,
  invariant_violation, lease_lost, session_not_found, not_found, unavailable, invalid_stored_data,
  invalid_page_request, no_binding, no_binding_intent, no_in_progress_operation,
  non_transient_session, no_final_session,
}
use sdkwork_sandbox.Session.Model.{Session}
use sdkwork_sandbox.Session.Lease.{SessionLease}
use sdkwork_sandbox.Service.Action.{
  Action, pure, raise, lift, or_raise, from_repository, ◌>>=◌, ◌>>◌,
}
use sdkwork_sandbox.Service.Interface.{Service, ReconciliationCandidate}
use sdkwork_sandbox.Service.Calls.{release_lease, get_session, provider_by_id}
use sdkwork_sandbox.Service.BringUp.{bring_up, allocate_and_bring_up}
use sdkwork_sandbox.Service.Stop.{bring_down}
use sdkwork_sandbox.Service.Destroy.{tear_down, bound_provider}

pub data ReconciliationOutcome : Type 0 where
  reconciled failed lease_unavailable unreadable vanished : ReconciliationOutcome

pub record ReconciliationItem : Type 0 where
  pub session_id : Text
  pub session_state : SessionState
  pub outcome : ReconciliationOutcome

pub record ReconciliationPage : Type 0 where
  pub items : List ReconciliationItem
  pub next_session_id : Option Text

abbrev pub is_in_progress_of : OperationKind → Operation → Bool
is_in_progress_of kind o = kind_eq o.operation_kind kind && is_in_progress o.operation_outcome

-- The last operation of this kind that is in progress.
unfoldable pub in_progress_operation_id : OperationKind → Session → LifecycleResult Text
unfolding find_last
in_progress_operation_id kind s = elim (find_last (is_in_progress_of kind) s.operations) [
  | none ↦ err (invariant_violation no_in_progress_operation)
  | some o ↦ ok o.operation_id
]

abbrev pub last_candidate : List ReconciliationCandidate → Option Text
last_candidate [] = none
last_candidate (c ∷ []) = some c.session_id
last_candidate (c ∷ d ∷ cs) = last_candidate (d ∷ cs)

abbrev pub is_nonempty : List ReconciliationCandidate → Bool
is_nonempty [] = false
is_nonempty (c ∷ cs) = true

abbrev pub item : Text → SessionState → ReconciliationOutcome → ReconciliationItem
item id state outcome = record { session_id = id; session_state = state; outcome = outcome }

module _ {W : Type 0} (sv : Service W) (lease : SessionLease) where
  unfoldable pub reconcile_starting : Session → Action W Session
  unfolding in_progress_operation_id provider_by_id bring_up allocate_and_bring_up
  reconcile_starting s = do
    id ← lift (in_progress_operation_id OperationKind.start s)
    b ← or_raise s.runtime_binding (invariant_violation no_binding_intent)
    p ← provider_by_id sv b.provider_id
    elim b.allocation_reference [
      | none ↦ allocate_and_bring_up sv p id lease s.tenant_id s.session_id b s
      | some _ ↦ bring_up sv p id lease b s
    ]

  unfoldable pub reconcile_stopping : Session → Action W Session
  unfolding in_progress_operation_id provider_by_id bring_down
  reconcile_stopping s = do
    id ← lift (in_progress_operation_id OperationKind.stop s)
    b ← or_raise s.runtime_binding (invariant_violation no_binding)
    p ← provider_by_id sv b.provider_id
    bring_down sv lease p id b s

  unfoldable pub reconcile_destroying : Session → Action W Session
  unfolding in_progress_operation_id bound_provider tear_down
  reconcile_destroying s = do
    id ← lift (in_progress_operation_id OperationKind.destroy s)
    bound ← bound_provider sv s.runtime_binding
    tear_down sv id lease bound s

  unfoldable pub reconcile_in : SessionState → Session → Action W Session
  unfolding reconcile_starting reconcile_stopping reconcile_destroying
  reconcile_in starting s = reconcile_starting s
  reconcile_in stopping s = reconcile_stopping s
  reconcile_in destroying s = reconcile_destroying s
  reconcile_in _ s = raise (invariant_violation non_transient_session)

  unfoldable pub reconcile_session_with_lease : Session → Action W Session
  unfolding reconcile_in
  reconcile_session_with_lease s = reconcile_in s.session_state s

module _ {W : Type 0} (sv : Service W) (tenant : Text) (c : ReconciliationCandidate) where
  abbrev pub reported_as :
      ReconciliationOutcome → W × LifecycleResult Session → W × LifecycleResult ReconciliationItem
  reported_as outcome (w, ok s) = (w, ok (item c.session_id s.session_state outcome))
  reported_as outcome (w, err (session_not_found _ _)) =
      (w, ok (item c.session_id c.session_state vanished))
  reported_as outcome (w, err e) = (w, err e)

  -- The session is read again, to report its state.
  unfoldable pub reported : ReconciliationOutcome → Action W ReconciliationItem
  unfolding get_session
  reported outcome w = reported_as outcome (get_session sv tenant c.session_id w)

  -- What the result of one session means for the page.
  unfoldable pub report : W × LifecycleResult Session → W × LifecycleResult ReconciliationItem
  unfolding reported
  report (w, ok s) = (w, ok (item c.session_id s.session_state reconciled))
  report (w, err (provider e)) = reported failed w
  report (w, err (provider_readiness_rejected id)) = reported failed w
  report (w, err (invariant_violation v)) = reported failed w
  report (w, err (repository invalid_stored_data)) = reported failed w
  report (w, err lease_lost) = reported lease_unavailable w
  report (w, err e) = (w, err e)

  -- The item is passed over; whether the release succeeds does not matter.
  abbrev pub passed_over :
      SessionLease → ReconciliationOutcome → W → W × LifecycleResult ReconciliationItem
  passed_over lease outcome w =
      let (w', _) = sv.session_repository.release_lease lease w in
      (w', ok (item c.session_id c.session_state outcome))

  unfoldable pub reconcile_held :
      SessionLease → W × LifecycleResult Session → W × LifecycleResult ReconciliationItem
  unfolding reconcile_session_with_lease release_lease report
  reconcile_held lease (w, ok s) =
      if is_transient s.session_state
      then report (release_lease sv lease (reconcile_session_with_lease sv lease s w))
      else report (release_lease sv lease (w, ok s))
  reconcile_held lease (w, err (session_not_found _ _)) = passed_over lease vanished w
  reconcile_held lease (w, err (repository invalid_stored_data)) = passed_over lease unreadable w
  reconcile_held lease (w, err e) = report (release_lease sv lease (w, err e))

  unfoldable pub reconcile_acquired :
      W × RepositoryResult (Option SessionLease) → W × LifecycleResult ReconciliationItem
  unfolding get_session reconcile_held
  reconcile_acquired (w, ok (some lease)) =
      reconcile_held lease (get_session sv tenant c.session_id w)
  reconcile_acquired (w, ok none) = (w, ok (item c.session_id c.session_state lease_unavailable))
  reconcile_acquired (w, err not_found) = (w, ok (item c.session_id c.session_state vanished))
  reconcile_acquired (w, err unavailable) =
      (w, ok (item c.session_id c.session_state lease_unavailable))
  reconcile_acquired (w, err e) = (w, err (repository e))

  unfoldable pub reconcile_item : Action W ReconciliationItem
  unfolding reconcile_acquired
  reconcile_item w = reconcile_acquired (
      sv.session_repository.acquire_lease tenant c.session_id sv.lease_owner_id sv.lease_duration w)

module _ {W : Type 0} (sv : Service W) (tenant : Text) where
  unfoldable pub reconcile_items : List ReconciliationCandidate → Action W (List ReconciliationItem)
  unfolding reconcile_item
  reconcile_items [] = pure []
  reconcile_items (c ∷ cs) = do
    i ← reconcile_item sv tenant c
    is ← reconcile_items cs
    pure (i ∷ is)

  abbrev pub list_after : Option Text → ℕ → Action W (List ReconciliationCandidate)
  list_after after size w =
      from_repository (sv.session_repository.list_requiring_reconciliation tenant after size w)

  -- Where the next page begins, if there is more.
  unfoldable pub next_page : ℕ → List ReconciliationCandidate → Action W (Option Text)
  next_page size cs =
      if length cs == size
      then (or_raise (last_candidate cs) (invariant_violation no_final_session) >>= λ last.
          list_after (some last) 1 >>= λ more. pure (if is_nonempty more then some last else none))
      else pure none

  unfoldable pub reconcile_sessions : Option Text → ℕ → Action W ReconciliationPage
  unfolding next_page reconcile_items
  reconcile_sessions after size = do
    lift (guard (leb 1 size && leb size 200) (repository invalid_page_request))
    cs ← list_after after size
    next ← next_page size cs
    is ← reconcile_items cs
    pure (record { items = is; next_session_id = next })
