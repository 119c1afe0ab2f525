-- ===== src/Memory/Port.antt =====
-- The repository in memory as the repository of the service, repository-memory/src/lib.rs: the trait
-- is implemented by its calls, in a world that has a clock and whatever else the providers use.
use sdkwork_sandbox.Session.Error.{RepositoryResult}
use sdkwork_sandbox.Service.Interface.{Repository}
use sdkwork_sandbox.Memory.Defs.{
  RepositoryState, get_session, find_by_operation, insert_session, list_requiring_reconciliation,
}
use sdkwork_sandbox.Memory.Leases.{Clock, acquire_lease, renew_lease, release_lease}
use sdkwork_sandbox.Memory.Saves.{save_session}

module _ {V : Type 0} (now : V → Clock) (tick : V → V) where
  -- A call at the time of the clock, which moves on.
  abbrev pub timed :
      {A : Type 0}
      → (Clock → RepositoryState → RepositoryState × RepositoryResult A)
      → RepositoryState × V
      → (RepositoryState × V) × RepositoryResult A
  timed f (m, v) = (((f (now v) m).0, tick v), (f (now v) m).1)

  unfoldable pub memory_repository : Repository (RepositoryState × V)
  unfolding get_session find_by_operation insert_session list_requiring_reconciliation acquire_lease
      renew_lease release_lease save_session
  memory_repository = record {
    find_by_operation = λ t o. timed (λ _. find_by_operation t o);
    get_session = λ t s. timed (λ _. get_session t s);
    insert_session = λ x. timed (λ _. insert_session x);
    save_session = λ x expected lease. timed (λ c. save_session c.instant x expected lease);
    acquire_lease = λ t s o d. timed (λ c. acquire_lease c t s o d);
    renew_lease = λ lease d. timed (λ c. renew_lease c lease d);
    release_lease = λ lease. timed (λ _. release_lease lease);
    list_requiring_reconciliation =
        λ t after n. timed (λ _. list_requiring_reconciliation t after n);
  }
