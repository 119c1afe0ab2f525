-- ===== src/Service/Stored/Pages.antt =====
-- A page of reconciliations: every save passes the test.
use sdkwork_sandbox.Base.{
  length, ◌==◌, leb, ◌&&◌, guard, ℕ, ◌≡◌, inl, inr, Option, none, some, List, [], ◌∷◌, Text, ok,
  err, Bool-cases,
}
use sdkwork_sandbox.Session.Kinds.{is_transient}
use sdkwork_sandbox.Session.Error.{
  no_final_session, invalid_page_request, RepositoryResult, LifecycleResult, session_not_found,
  not_found, unavailable, repository, invalid_stored_data, provider, provider_readiness_rejected,
  invariant_violation, lease_lost,
}
use sdkwork_sandbox.Session.Model.{Session}
use sdkwork_sandbox.Session.Persisted.Stored.{IsStored}
use sdkwork_sandbox.Session.Lease.{SessionLease}
use sdkwork_sandbox.Service.Interface.{Service, ReconciliationCandidate}
use sdkwork_sandbox.Service.Calls.{get_session, release_lease}
use sdkwork_sandbox.Service.Reconcile.{
  ReconciliationOutcome, failed, lease_unavailable, reported_as, reported, report, reconcile_held,
  list_after, next_page, last_candidate, reconcile_sessions, reconcile_acquired, reconcile_item,
  reconcile_items, reconcile_session_with_lease,
}
use sdkwork_sandbox.Service.Ensures.{Leaves, Ensures, bind-Ensures, lift-Ensures, or_raise-Ensures}
use sdkwork_sandbox.Service.Action.{lift, or_raise, from_repository}
use sdkwork_sandbox.Service.Lawful.{Lawful}
use sdkwork_sandbox.Service.Stored.Calls.{get_session-Ensures, release-Leaves}
use sdkwork_sandbox.Service.Stored.Reconcile.{reconcile-Ensures}

module _ {W : Type 0} (I : W → Type 0) (sv : Service W) (law : Lawful I sv) (tenant : Text) where
  reported-Ensures :
      (c : ReconciliationCandidate) (outcome : ReconciliationOutcome)
      → Ensures I (λ _. Unit) (reported sv tenant c outcome)
  unfolding reported
  reported-Ensures c outcome w i =
      of (get_session sv tenant c.session_id w)
        (get_session-Ensures I sv law tenant c.session_id w i).0
    where
      of :
          (x : W × LifecycleResult Session)
          → I x.0
          → Leaves I (λ _. Unit) (reported_as sv tenant c outcome x)
      of (w, ok s) i = (i, tt)
      of (w, err (session_not_found _ _)) i = (i, tt)
      of (w, err _) i = (i, tt)

  report-Leaves :
      (c : ReconciliationCandidate) (x : W × LifecycleResult Session)
      → I x.0
      → Leaves I (λ _. Unit) (report sv tenant c x)
  unfolding report
  report-Leaves c (w, ok s) i = (i, tt)
  report-Leaves c (w, err (provider e)) i = reported-Ensures c failed w i
  report-Leaves c (w, err (provider_readiness_rejected id)) i = reported-Ensures c failed w i
  report-Leaves c (w, err (invariant_violation v)) i = reported-Ensures c failed w i
  report-Leaves c (w, err (repository invalid_stored_data)) i = reported-Ensures c failed w i
  report-Leaves c (w, err lease_lost) i = reported-Ensures c lease_unavailable w i
  report-Leaves c (w, err _) i = (i, tt)

  reconcile_held-Leaves :
      (c : ReconciliationCandidate) (lease : SessionLease) (x : W × LifecycleResult Session)
      → Leaves I IsStored x
      → Leaves I (λ _. Unit) (reconcile_held sv tenant c lease x)
  unfolding reconcile_held
  reconcile_held-Leaves c lease (w, ok s) l = elim (Bool-cases (is_transient s.session_state)) [
    | inl e ↦ rw e (
        report-Leaves c (release_lease sv lease (reconcile_session_with_lease sv lease s w))
          (release-Leaves I sv law lease (reconcile_session_with_lease sv lease s w)
            (reconcile-Ensures I sv law lease s l.1 w l.0)).0)
    | inr e ↦ rw e (
        report-Leaves c (release_lease sv lease (w, ok s))
          (release-Leaves I sv law lease (w, ok s) (l.0, tt)).0)
  ]
  reconcile_held-Leaves c lease (w, err (session_not_found _ _)) l =
      (law.repository_lawful.release_keeps lease w l.0, tt)
  reconcile_held-Leaves c lease (w, err (repository invalid_stored_data)) l =
      (law.repository_lawful.release_keeps lease w l.0, tt)
  reconcile_held-Leaves c lease (w, err e) l =
      report-Leaves c (release_lease sv lease (w, err e))
        (release-Leaves I sv law lease (w, err e) (l.0, tt)).0

  reconcile_acquired-Leaves :
      (c : ReconciliationCandidate) (x : W × RepositoryResult (Option SessionLease))
      → I x.0
      → Leaves I (λ _. Unit) (reconcile_acquired sv tenant c x)
  unfolding reconcile_acquired
  reconcile_acquired-Leaves c (w, ok (some lease)) i =
      reconcile_held-Leaves c lease (get_session sv tenant c.session_id w)
        (get_session-Ensures I sv law tenant c.session_id w i)
  reconcile_acquired-Leaves c (w, ok none) i = (i, tt)
  reconcile_acquired-Leaves c (w, err not_found) i = (i, tt)
  reconcile_acquired-Leaves c (w, err unavailable) i = (i, tt)
  reconcile_acquired-Leaves c (w, err _) i = (i, tt)

  reconcile_item-Ensures :
      (c : ReconciliationCandidate) → Ensures I (λ _. Unit) (reconcile_item sv tenant c)
  unfolding reconcile_item
  reconcile_item-Ensures c w i =
      reconcile_acquired-Leaves c
        (sv.session_repository.acquire_lease tenant c.session_id sv.lease_owner_id sv.lease_duration
          w)
        (law.repository_lawful.acquire_keeps tenant c.session_id sv.lease_owner_id sv.lease_duration
          w i)

  pub reconcile_items-Ensures :
      (cs : List ReconciliationCandidate) → Ensures I (λ _. Unit) (reconcile_items sv tenant cs)
  unfolding reconcile_items
  reconcile_items-Ensures [] = λ w i. (i, tt)
  reconcile_items-Ensures (c ∷ cs) =
      bind-Ensures I (λ _. Unit) (λ _. Unit) (reconcile_item sv tenant c) _
        (reconcile_item-Ensures c)
        (λ item _.
          bind-Ensures I (λ _. Unit) (λ _. Unit) (reconcile_items sv tenant cs) _
            (reconcile_items-Ensures cs) (λ items _ w i. (i, tt)))

  list_after-Ensures :
      (after : Option Text) (size : ℕ) → Ensures I (λ _. Unit) (list_after sv tenant after size)
  list_after-Ensures after size w i =
      of (sv.session_repository.list_requiring_reconciliation tenant after size w)
        (law.repository_lawful.list_keeps tenant after size w i)
    where
      of :
          (x : W × RepositoryResult (List ReconciliationCandidate))
          → I x.0
          → Leaves I (λ _. Unit) (from_repository x)
      of (w, ok cs) i = (i, tt)
      of (w, err e) i = (i, tt)

  next_page-Ensures :
      (size : ℕ) (cs : List ReconciliationCandidate)
      → Ensures I (λ _. Unit) (next_page sv tenant size cs)
  unfolding next_page
  next_page-Ensures size cs = elim (Bool-cases (length cs == size)) [
    | inr e ↦ rw e (λ w i. (i, tt))
    | inl e ↦ rw e (
        bind-Ensures I (λ last. last_candidate cs ≡ some last) (λ _. Unit)
          (or_raise (last_candidate cs) (invariant_violation no_final_session)) _
          (or_raise-Ensures I (last_candidate cs) (invariant_violation no_final_session))
          (λ last _.
            bind-Ensures I (λ _. Unit) (λ _. Unit) (list_after sv tenant (some last) 1) _
              (list_after-Ensures (some last) 1) (λ more _ w i. (i, tt))))
  ]

  pub reconcile_sessions-Ensures :
      (after : Option Text) (size : ℕ)
      → Ensures I (λ _. Unit) (reconcile_sessions sv tenant after size)
  unfolding reconcile_sessions
  reconcile_sessions-Ensures after size =
      let r = guard (leb 1 size && leb size 200) (repository invalid_page_request) in
      bind-Ensures I (λ a. r ≡ ok a) (λ _. Unit) (lift r) _ (lift-Ensures I r)
        (λ _ _.
          bind-Ensures I (λ _. Unit) (λ _. Unit) (list_after sv tenant after size) _
            (list_after-Ensures after size)
            (λ cs _.
              bind-Ensures I (λ _. Unit) (λ _. Unit) (next_page sv tenant size cs) _
                (next_page-Ensures size cs)
                (λ next _.
                  bind-Ensures I (λ _. Unit) (λ _. Unit) (reconcile_items sv tenant cs) _
                    (reconcile_items-Ensures cs) (λ items _ w i. (i, tt)))))
