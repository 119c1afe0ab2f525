-- ===== src/Service/Stored/Sessions.antt =====
-- The methods of the service, each of which saves only sessions that pass the test.
use sdkwork_sandbox.Base.{ℕ, refl, List, [], ◌∷◌, err, and_then, ◌≡◌, none, some, Option, ok, Text}
use sdkwork_sandbox.Session.Kinds.{OperationKind}
use sdkwork_sandbox.Session.Ledger.{find_operation}
use sdkwork_sandbox.Session.Error.{
  duplicate_operation, version_conflict, duplicate_session, invariant_violation,
  duplicate_without_owner, session_id_conflict, LifecycleError, RepositoryResult, LifecycleResult,
}
use sdkwork_sandbox.Session.Model.{session_create, Session}
use sdkwork_sandbox.Session.Persisted.Stored.{IsStored}
use sdkwork_sandbox.Session.Lease.{SessionLease}
use sdkwork_sandbox.Service.Action.{Action, lift, or_raise, from_repository, ◌>>=◌}
use sdkwork_sandbox.Service.Create.{
  CreateCommand, created_by, create_session, reread, matched, inserted, owned,
}
use sdkwork_sandbox.Service.Reconcile.{reconcile_sessions}
use sdkwork_sandbox.Service.Stored.Pages.{reconcile_sessions-Ensures}
use sdkwork_sandbox.Session.Persisted.{
  validate_persisted_invariants, replay_ledger, replay_from_create,
}
use sdkwork_sandbox.Service.Interface.{Service, LifecycleCommand}
use sdkwork_sandbox.Service.Calls.{acquire_lease, get_session, release_lease, replayed}
use sdkwork_sandbox.Service.Start.{start_session, start_with_lease, start_fresh}
use sdkwork_sandbox.Service.Stop.{stop_session, stop_with_lease, stop_fresh}
use sdkwork_sandbox.Service.Destroy.{destroy_session, destroy_with_lease, destroy_fresh}
use sdkwork_sandbox.Service.Ensures.{
  Holds-any, Ensures, Leaves, lift-Ensures, bind-Ensures, map-Leaves,
}
use sdkwork_sandbox.Service.Lawful.{Lawful}
use sdkwork_sandbox.Service.Stored.Moves.{replayed-none}
use sdkwork_sandbox.Service.Stored.Calls.{acquire-Ensures, get_session-Ensures, release-Leaves}
use sdkwork_sandbox.Service.Stored.Start.{start_fresh-Ensures}
use sdkwork_sandbox.Service.Stored.Down.{stop_fresh-Ensures, destroy_fresh-Ensures}

-- A call of the service.
pub data Call : Type 0 where
  creates : CreateCommand → Call
  starts stops destroys : LifecycleCommand → Call
  reconciles : Text → Option Text → ℕ → Call

-- The world after a call.
unfoldable pub perform : {W : Type 0} → Service W → Call → W → W
unfolding create_session start_session stop_session destroy_session reconcile_sessions
perform sv (creates c) w = (create_session sv c w).0
perform sv (starts c) w = (start_session sv c w).0
perform sv (stops c) w = (stop_session sv c w).0
perform sv (destroys c) w = (destroy_session sv c w).0
perform sv (reconciles tenant after size) w = (reconcile_sessions sv tenant after size w).0

unfoldable pub perform_all : {W : Type 0} → Service W → List Call → W → W
unfolding perform
perform_all sv [] w = w
perform_all sv (c ∷ cs) w = perform_all sv cs (perform sv c w)

-- A new session is stored: its ledger is the create alone.
created-IsValid : (c : CreateCommand) → validate_persisted_invariants (created_by c) ≡ ok tt
unfolding validate_persisted_invariants session_create replay_from_create replay_ledger
created-IsValid c = refl

module _ {W : Type 0} (I : W → Type 0) (sv : Service W) (law : Lawful I sv) where
  -- A command that is not a replay goes on with a stored session that lacks its operation.
  command-Ensures :
      (c : LifecycleCommand) (kind : OperationKind) (k : Session → Action W Session)
      → ((s : Session)
          → IsStored s
          → find_operation c.operation_id s.operations ≡ none
          → Ensures I (λ _. Unit) (k s))
      → Ensures I
          (λ _. Unit)
          (get_session sv c.tenant_id c.session_id >>= λ s.
            lift (replayed s c.operation_id kind) >>= λ replay. elim replay [
              | some r ↦ lift r
              | none ↦ k s
            ])
  command-Ensures c kind k safe =
      bind-Ensures I IsStored (λ _. Unit) (get_session sv c.tenant_id c.session_id) _
        (get_session-Ensures I sv law c.tenant_id c.session_id)
        (λ s stored.
          let r = replayed s c.operation_id kind in
          bind-Ensures I (λ o. r ≡ ok o) (λ _. Unit) (lift r) _ (lift-Ensures I r)
            (λ replay e. go s stored replay e))
    where
      go :
          (s : Session)
          → IsStored s
          → (replay : Option (LifecycleResult Session)) → replayed s c.operation_id kind ≡ ok replay
          → Ensures I (λ _. Unit) (elim replay [ some r ↦ lift r | none ↦ k s ])
      go s stored (some r) e w i =
          map-Leaves I (λ a. r ≡ ok a) (λ _. Unit) (lift r w) (λ _ _. tt) (lift-Ensures I r w i)
      go s stored none e w i = safe s stored (replayed-none s c.operation_id kind e) w i

  leased-Ensures :
      (c : LifecycleCommand) (m : SessionLease → Action W Session)
      → ((lease : SessionLease) → Ensures I (λ _. Unit) (m lease))
      → Ensures I
          (λ _. Unit)
          (acquire_lease sv c.tenant_id c.session_id >>= λ lease w.
            release_lease sv lease (m lease w))
  leased-Ensures c m safe =
      bind-Ensures I (λ _. Unit) (λ _. Unit) (acquire_lease sv c.tenant_id c.session_id) _
        (acquire-Ensures I sv law c.tenant_id c.session_id)
        (λ lease _ w i. release-Leaves I sv law lease (m lease w) (safe lease w i))

  reread-Leaves : (c : CreateCommand) (e : LifecycleError) → Ensures I (λ _. Unit) (reread sv c e)
  unfolding reread
  reread-Leaves c e w i =
      of (sv.session_repository.find_by_operation c.tenant_id c.operation_id w)
        (law.repository_lawful.find_keeps c.tenant_id c.operation_id w i)
    where
      of :
          (x : W × RepositoryResult (Option Session))
          → I x.0
          → Leaves I
              (λ _. Unit)
              (and_then (from_repository x) (λ owner. or_raise owner e >>= λ s w. (w, matched c s)))
      of (w, err _) i = (i, tt)
      of (w, ok none) i = (i, tt)
      of (w, ok (some s)) i = (i, Holds-any (matched c s))

  inserted-Leaves :
      (c : CreateCommand) (x : W × RepositoryResult (Unit {0}))
      → I x.0
      → Leaves I (λ _. Unit) (inserted sv c x)
  unfolding inserted
  inserted-Leaves c (w, ok _) i = (i, tt)
  inserted-Leaves c (w, err duplicate_operation) i =
      reread-Leaves c (invariant_violation duplicate_without_owner) w i
  inserted-Leaves c (w, err version_conflict) i =
      reread-Leaves c (session_id_conflict c.tenant_id c.session_id) w i
  inserted-Leaves c (w, err duplicate_session) i =
      reread-Leaves c (session_id_conflict c.tenant_id c.session_id) w i
  inserted-Leaves c (w, err _) i = (i, tt)

  create-Ensures : (c : CreateCommand) → Ensures I (λ _. Unit) (create_session sv c)
  unfolding create_session owned
  create-Ensures c w i =
      of (sv.session_repository.find_by_operation c.tenant_id c.operation_id w)
        (law.repository_lawful.find_keeps c.tenant_id c.operation_id w i)
    where
      of :
          (x : W × RepositoryResult (Option Session))
          → I x.0
          → Leaves I (λ _. Unit) (and_then (from_repository x) (owned sv c))
      of (w, err _) i = (i, tt)
      of (w, ok (some s)) i = (i, Holds-any (matched c s))
      of (w, ok none) i =
          inserted-Leaves c (sv.session_repository.insert_session (created_by c) w)
            (law.repository_lawful.insert_keeps (created_by c) w i (created-IsValid c))

  perform_keeps : (call : Call) (w : W) → I w → I (perform sv call w)
  unfolding perform start_session stop_session destroy_session start_with_lease stop_with_lease
      destroy_with_lease
  perform_keeps (creates c) w i = (create-Ensures c w i).0
  perform_keeps (starts c) w i =
      (leased-Ensures c (λ lease. start_with_lease sv c lease)
        (λ lease.
          command-Ensures c OperationKind.start (start_fresh sv c lease)
            (start_fresh-Ensures I sv law c lease))
        w i).0
  perform_keeps (stops c) w i =
      (leased-Ensures c (λ lease. stop_with_lease sv c lease)
        (λ lease.
          command-Ensures c OperationKind.stop (stop_fresh sv c lease)
            (stop_fresh-Ensures I sv law c lease))
        w i).0
  perform_keeps (destroys c) w i =
      (leased-Ensures c (λ lease. destroy_with_lease sv c lease)
        (λ lease.
          command-Ensures c OperationKind.destroy (destroy_fresh sv c lease)
            (destroy_fresh-Ensures I sv law c lease))
        w i).0
  perform_keeps (reconciles tenant after size) w i =
      (reconcile_sessions-Ensures I sv law tenant after size w i).0

-- Take any invariant of the world that every call of the providers and of the repository keeps,
-- where an insertion or a save must keep it only for a session that passes the test of the stored
-- form, and where what the repository reads passes that test. Then whatever calls are made of the
-- service, and however the repository and the providers answer, the invariant holds afterwards: the
-- service saves no session that fails the test.
pub saves_pass_the_test :
    {W : Type 0} (I : W → Type 0) (sv : Service W) (calls : List Call) (w : W)
    → Lawful I sv
    → I w
    → I (perform_all sv calls w)
unfolding perform_all
saves_pass_the_test I sv [] w law i = i
saves_pass_the_test I sv (c ∷ cs) w law i =
    saves_pass_the_test I sv cs (perform sv c w) law (perform_keeps I sv law c w i)
