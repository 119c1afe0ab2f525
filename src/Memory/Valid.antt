-- ===== src/Memory/Valid.antt =====
-- The service over the repository in memory: the sessions that are stored pass the test.
use sdkwork_sandbox.Base.{
  ℕ, leb, ◌+◌, i64_max, ◌≡◌, refl, sym, subst, get, inl, inr, Option, none, some, List, Text, ok,
  Result-cases, Bool-cases, Option-cases, ◌&&◌, arith, All,
}
use sdkwork_sandbox.Provider.Requests.{Provider}
use sdkwork_sandbox.Session.Model.{Session}
use sdkwork_sandbox.Session.Persisted.{validate_persisted_invariants}
use sdkwork_sandbox.Session.Lease.{SessionLease}
use sdkwork_sandbox.Service.Interface.{Service}
use sdkwork_sandbox.Service.Lawful.{Harmless, LawfulRepository, Lawful}
use sdkwork_sandbox.Service.Stored.Sessions.{Call, perform_all, saves_pass_the_test}
use sdkwork_sandbox.Memory.Keys.{find, store, is_stored, store_cases}
use sdkwork_sandbox.Memory.Defs.{
  MemoryLease, RepositoryState, empty, get_session, find_by_operation, insert_session,
  insert_admission, list_requiring_reconciliation,
}
use sdkwork_sandbox.Memory.Leases.{
  Clock, acquire_lease, acquire_entry, renew_lease, renew_entry, release_lease, release_entry,
  write_expiry, taken, is_owned, is_held, is_unexpired, duration_is_valid,
}
use sdkwork_sandbox.Memory.Saves.{save_session, save_admission}
use sdkwork_sandbox.Memory.Port.{memory_repository}

-- A lease is written beside the sessions.
write_expiry-sessions :
    (now : Clock) (d : ℕ) (t s : Text) (l : MemoryLease) (m : RepositoryState)
    → (write_expiry now d t s l m).0.sessions ≡ m.sessions
unfolding write_expiry
write_expiry-sessions now d t s l m = elim (Bool-cases (leb (now.unix_millis + d) i64_max)) [
  | inl k ↦ rw (write_expiry, k) refl
  | inr k ↦ rw (write_expiry, k) refl
]

acquire_entry-sessions :
    (now : Clock) (d : ℕ) (t s o : Text) (e : Option MemoryLease) (m : RepositoryState)
    → (acquire_entry now d t s o e m).0.sessions ≡ m.sessions
acquire_entry-sessions now d t s o none m = refl
acquire_entry-sessions now d t s o (some l) m =
    elim (Bool-cases (is_unexpired l.expires_at now.instant)) [
      | inl u ↦ rw u refl
      | inr u ↦ elim (Bool-cases (leb (l.fencing_token + 1) i64_max)) [
        | inr top ↦ rw (u, top) refl
        | inl top ↦ rw (u, top) (write_expiry-sessions now d t s (taken o l) m)
      ]
    ]

acquire-sessions :
    (now : Clock) (t s o : Text) (d : ℕ) (m : RepositoryState)
    → (acquire_lease now t s o d m).0.sessions ≡ m.sessions
unfolding acquire_lease
acquire-sessions now t s o d m = elim (Bool-cases (duration_is_valid d)) [
  | inr v ↦ rw v refl
  | inl v ↦ elim (Bool-cases (is_stored t s m.sessions)) [
    | inr k ↦ rw (v, k) refl
    | inl k ↦ rw (v, k) (acquire_entry-sessions now d t s o (find t s m.leases) m)
  ]
]

renew_entry-sessions :
    (now : Clock) (d : ℕ) (lease : SessionLease) (e : Option MemoryLease) (m : RepositoryState)
    → (renew_entry now d lease e m).0.sessions ≡ m.sessions
renew_entry-sessions now d lease none m = refl
renew_entry-sessions now d lease (some l) m = elim (Bool-cases (is_held lease l now.instant)) [
  | inr k ↦ rw k refl
  | inl k ↦ rw k (write_expiry-sessions now d lease.tenant_id lease.session_id l m)
]

renew-sessions :
    (now : Clock) (lease : SessionLease) (d : ℕ) (m : RepositoryState)
    → (renew_lease now lease d m).0.sessions ≡ m.sessions
unfolding renew_lease
renew-sessions now lease d m = elim (Bool-cases (duration_is_valid d)) [
  | inr v ↦ rw v refl
  | inl v ↦
      rw v (renew_entry-sessions now d lease (find lease.tenant_id lease.session_id m.leases) m)
]

release_entry-sessions :
    (lease : SessionLease) (e : Option MemoryLease) (m : RepositoryState)
    → (release_entry lease e m).0.sessions ≡ m.sessions
unfolding release_lease
release_entry-sessions lease none m = refl
release_entry-sessions lease (some l) m = elim (Bool-cases (is_owned lease l)) [
  | inr k ↦ rw k refl
  | inl k ↦ rw k refl
]

release-sessions :
    (lease : SessionLease) (m : RepositoryState) → (release_lease lease m).0.sessions ≡ m.sessions
unfolding release_lease
release-sessions lease m =
    release_entry-sessions lease (find lease.tenant_id lease.session_id m.leases) m

-- Every session that is stored passes the test.
abbrev pub Valid : RepositoryState → Type 0
Valid m =
    (t s : Text) (x : Session)
    → find t s m.sessions ≡ some x
    → validate_persisted_invariants x ≡ ok tt

same_sessions-Valid : (m n : RepositoryState) → n.sessions ≡ m.sessions → Valid m → Valid n
same_sessions-Valid m n e v t s x h = v t s x (rw e at h)

empty-Valid : Valid empty
unfolding empty find get
empty-Valid t s x h = absurd (cc)

store-Valid :
    (x : Session) (m : RepositoryState)
    → validate_persisted_invariants x ≡ ok tt
    → Valid m
    → (t s : Text) (y : Session) → find t s (store x.tenant_id x.session_id x m.sessions) ≡ some y
    → validate_persisted_invariants y ≡ ok tt
store-Valid x m h v t s y e = elim (store_cases t x.tenant_id s x.session_id x m.sessions) [
  | inl (_, _, new) ↦
      subst (λ o. o ≡ some y → validate_persisted_invariants y ≡ ok tt) (sym new)
        (λ same. subst (λ z. validate_persisted_invariants z ≡ ok tt) (ground (arith, same)) h) e
  | inr old ↦ v t s y (rw old at e)
]

insert-Valid :
    (x : Session) (m : RepositoryState)
    → validate_persisted_invariants x ≡ ok tt
    → Valid m
    → Valid (insert_session x m).0
unfolding insert_session
insert-Valid x m h v = elim (Result-cases (insert_admission x m)) [
  | inr (_, r) ↦ rw (insert_session, r) v
  | inl (_, r) ↦ rw (insert_session, r) (store-Valid x m h v)
]

save-Valid :
    (now : ℕ) (x : Session) (expected : ℕ) (lease : SessionLease) (m : RepositoryState)
    → validate_persisted_invariants x ≡ ok tt
    → Valid m
    → Valid (save_session now x expected lease m).0
unfolding save_session
save-Valid now x expected lease m h v =
    elim (Result-cases (save_admission now x expected lease m)) [
      | inr (_, r) ↦ rw (save_session, r) v
      | inl (_, r) ↦ rw (save_session, r) (store-Valid x m h v)
    ]

list-same :
    (t : Text) (after : Option Text) (n : ℕ) (m : RepositoryState)
    → (list_requiring_reconciliation t after n m).0 ≡ m
unfolding list_requiring_reconciliation
list-same t after n m = elim (Bool-cases (leb 1 n && leb n 200)) [
  | inl e ↦ rw (list_requiring_reconciliation, e) refl
  | inr e ↦ rw (list_requiring_reconciliation, e) refl
]

find_by_operation-same : (t o : Text) (m : RepositoryState) → (find_by_operation t o m).0 ≡ m
unfolding find_by_operation
find_by_operation-same t o m = elim (Option-cases (find t o m.operations)) [
  | inl e ↦ rw (find_by_operation, e) refl
  | inr (_, e) ↦ rw (find_by_operation, e) refl
]

module _ {V : Type 0} (now : V → Clock) (tick : V → V) where
  -- The sessions of a world.
  abbrev pub ValidWorld : RepositoryState × V → Type 0
  ValidWorld (m, v) = Valid m

  -- The repository in memory does what the service asks of a repository.
  memory_repository-Lawful : LawfulRepository ValidWorld (memory_repository now tick)
  unfolding memory_repository get_session
  memory_repository-Lawful = record {
    acquire_keeps = λ t s o n (m, v) i.
        same_sessions-Valid m (acquire_lease (now v) t s o n m).0
          (acquire-sessions (now v) t s o n m) i;
    renew_keeps = λ l n (m, v) i.
        same_sessions-Valid m (renew_lease (now v) l n m).0 (renew-sessions (now v) l n m) i;
    release_keeps =
        λ l (m, v) i. same_sessions-Valid m (release_lease l m).0 (release-sessions l m) i;
    get_keeps = λ t s (m, v) i. i;
    get_reads = λ t s (m, v) x i e. i t s x (ground (arith, e));
    find_keeps = λ t o (m, v) i. subst Valid (sym (find_by_operation-same t o m)) i;
    list_keeps = λ t after n (m, v) i. subst Valid (sym (list-same t after n m)) i;
    insert_keeps = λ x (m, v) i h. insert-Valid x m h i;
    save_keeps = λ x n l (m, v) i h. save-Valid (now v).instant x n l m h i;
  }

  -- The service over the repository in memory.
  abbrev pub over_memory :
      List (Provider (RepositoryState × V))
      → Text
      → ℕ
      → (RepositoryState × V → (RepositoryState × V) × Text)
      → Service (RepositoryState × V)
  over_memory ps owner duration generate = record {
    session_repository = memory_repository now tick;
    providers = ps;
    lease_owner_id = owner;
    lease_duration = duration;
    generate = generate;
  }

  -- The session service over the repository in memory, from an empty repository on: after any calls of
  -- the service, and however the clock goes, every session that is stored passes the test of the
  -- stored form. The providers and the source of identities may do what they like with the rest of
  -- the world, but leave the stored sessions such that they pass the test.
  pub memory_sessions_are_valid :
      (ps : List (Provider (RepositoryState × V))) (owner : Text) (duration : ℕ)
      (generate : RepositoryState × V → (RepositoryState × V) × Text) (calls : List Call) (v : V)
      (t s : Text) (x : Session)
      → All (Harmless ValidWorld) ps
      → ((w : RepositoryState × V) → ValidWorld w → ValidWorld (generate w).0)
      → find t s (perform_all (over_memory ps owner duration generate) calls (empty, v)).0.sessions
        ≡ some x
      → validate_persisted_invariants x ≡ ok tt
  memory_sessions_are_valid ps owner duration generate calls v t s x harmless keeps e =
      let law : Lawful ValidWorld (over_memory ps owner duration generate) = record {
        repository_lawful = memory_repository-Lawful;
        providers_harmless = harmless;
        generate_keeps = keeps;
      } in
      saves_pass_the_test ValidWorld (over_memory ps owner duration generate) calls (empty, v) law
        empty-Valid t s x e
