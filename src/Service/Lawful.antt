-- ===== src/Service/Lawful.antt =====
-- What is asked of a repository and of the providers, for an invariant of the world.
use sdkwork_sandbox.Base.{ℕ, ◌≡◌, Option, some, Text, ok, All}
use sdkwork_sandbox.Provider.Requests.{
  AllocationRequest, StartRequest, StopRequest, DestroyRequest, Provider,
}
use sdkwork_sandbox.Session.Model.{Session}
use sdkwork_sandbox.Session.Persisted.{validate_persisted_invariants}
use sdkwork_sandbox.Session.Lease.{SessionLease}
use sdkwork_sandbox.Service.Interface.{Repository, Service}

module _ {W : Type 0} (I : W → Type 0) where
  -- The calls of a provider keep the invariant.
  pub record Harmless (p : Provider W) : Type 0 where
    pub health_keeps : (w : W) → I w → I (p.health w).0
    pub allocate_keeps : (r : AllocationRequest) (w : W) → I w → I (p.allocate r w).0
    pub start_keeps : (r : StartRequest) (w : W) → I w → I (p.start r w).0
    pub stop_keeps : (r : StopRequest) (w : W) → I w → I (p.stop r w).0
    pub destroy_keeps : (r : DestroyRequest) (w : W) → I w → I (p.destroy r w).0

  -- The calls of a repository keep the invariant, an insertion and a save if their session passes the
  -- test; and what is read passes the test.
  pub record LawfulRepository (r : Repository W) : Type 0 where
    pub acquire_keeps : (t s o : Text) (n : ℕ) (w : W) → I w → I (r.acquire_lease t s o n w).0
    pub renew_keeps : (l : SessionLease) (n : ℕ) (w : W) → I w → I (r.renew_lease l n w).0
    pub release_keeps : (l : SessionLease) (w : W) → I w → I (r.release_lease l w).0
    pub get_keeps : (t s : Text) (w : W) → I w → I (r.get_session t s w).0
    pub get_reads :
        (t s : Text) (w : W) (x : Session)
        → I w
        → (r.get_session t s w).1 ≡ ok (some x)
        → validate_persisted_invariants x ≡ ok tt
    pub find_keeps : (t o : Text) (w : W) → I w → I (r.find_by_operation t o w).0
    pub list_keeps :
        (t : Text) (after : Option Text) (n : ℕ) (w : W)
        → I w
        → I (r.list_requiring_reconciliation t after n w).0
    pub insert_keeps :
        (x : Session) (w : W)
        → I w
        → validate_persisted_invariants x ≡ ok tt
        → I (r.insert_session x w).0
    pub save_keeps :
        (x : Session) (n : ℕ) (l : SessionLease) (w : W)
        → I w
        → validate_persisted_invariants x ≡ ok tt
        → I (r.save_session x n l w).0

  pub record Lawful (sv : Service W) : Type 0 where
    pub repository_lawful : LawfulRepository sv.session_repository
    pub providers_harmless : All Harmless sv.providers
    pub generate_keeps : (w : W) → I w → I (sv.generate w).0
