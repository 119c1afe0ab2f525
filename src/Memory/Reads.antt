-- ===== src/Memory/Reads.antt =====
-- What has been written to the repository is read back.
use sdkwork_sandbox.Base.{
  ◌⊎◌, ◌≡◌, ap, subst, refl, inl, inr, some, List, [], ◌∷◌, Text, text_eq, text_eq_iff,
  Result-cases, Bool-cases, arith, Map, ℕ, ok,
}
use sdkwork_sandbox.Session.Ledger.{Operation, find_operation}
use sdkwork_sandbox.Session.Model.{Session}
use sdkwork_sandbox.Session.Lease.{SessionLease}
use sdkwork_sandbox.Memory.Keys.{find, store, store_cases, find-store_self}
use sdkwork_sandbox.Memory.Defs.{
  RepositoryState, get_session, find_by_operation, insert_session, insert_admission,
  store_operations,
}
use sdkwork_sandbox.Memory.Saves.{save_session, save_admission, save_write}

-- An operation that the session owns stays its own.
store_operations-owned :
    (t s id : Text) (os : List Operation) (m : Map (Map Text))
    → find t id m ≡ some s
    → find t id (store_operations t s os m) ≡ some s
store_operations-owned t s id [] m h = h
store_operations-owned t s id (o ∷ os) m h =
    store_operations-owned t s id os (store t o.operation_id s m)
      (elim (store_cases t t id o.operation_id s m) [ inl (_, _, e) ↦ e | inr e ↦ rw e h ])

store_operations-find :
    (t s id : Text) (o : Operation) (os : List Operation) (m : Map (Map Text))
    → find_operation id os ≡ some o
    → find t id (store_operations t s os m) ≡ some s
unfolding find_operation
store_operations-find t s id o [] m h = absurd (cc)
store_operations-find t s id o (p ∷ os) m h = elim (Bool-cases (text_eq p.operation_id id)) [
  | inl e ↦ store_operations-owned t s id os (store t p.operation_id s m) (
      subst (λ x. find t x (store t p.operation_id s m) ≡ some s)
        ((text_eq_iff p.operation_id id).0 e) (find-store_self t p.operation_id s m))
  | inr e ↦ store_operations-find t s id o os (store t p.operation_id s m) (ground (arith, h, e))
]

-- The repository has this session under its identity, and its operations are those of the session.
abbrev pub Has : Session → RepositoryState → Type 0
Has x m =
    (find x.tenant_id x.session_id m.sessions ≡ some x)
    × ((id : Text) (o : Operation)
        → find_operation id x.operations ≡ some o
        → find x.tenant_id id m.operations ≡ some x.session_id)

save_write-Has : (x : Session) (m : RepositoryState) → Has x (save_write x m)
unfolding store
save_write-Has x m = (
  find-store_self x.tenant_id x.session_id x m.sessions,
  λ id o h. store_operations-find x.tenant_id x.session_id id o x.operations m.operations h,
)

inserted-Has : (x : Session) (m n : RepositoryState) → insert_session x m ≡ (n, ok tt) → Has x n
unfolding insert_session store
inserted-Has x m n h = elim (Result-cases (insert_admission x m)) [
  | inl (_, e) ↦ subst (Has x) (ap (λ p. p.0) (rw (insert_session, e) at h)) (save_write-Has x m)
  | inr (_, e) ↦ absurd (ground (arith, h, e))
]

saved-Has :
    (now : ℕ) (x : Session) (expected : ℕ) (lease : SessionLease) (m n : RepositoryState)
    → save_session now x expected lease m ≡ (n, ok tt)
    → Has x n
unfolding save_session
saved-Has now x expected lease m n h = elim (Result-cases (save_admission now x expected lease m)) [
  | inl (_, e) ↦ subst (Has x) (ap (λ p. p.0) (rw (save_session, e) at h)) (save_write-Has x m)
  | inr (_, e) ↦ absurd (ground (arith, h, e))
]

-- A session that an insertion or a save has just written is read back as it was written, both under
-- its identity and by each operation of its ledger, and neither read changes the repository.
pub written_is_read :
    (now : ℕ) (x : Session) (expected : ℕ) (lease : SessionLease) (m n : RepositoryState)
    → (insert_session x m ≡ (n, ok tt)) ⊎ (save_session now x expected lease m ≡ (n, ok tt))
    → (get_session x.tenant_id x.session_id n ≡ (n, ok (some x)))
      × ((id : Text) (o : Operation)
          → find_operation id x.operations ≡ some o
          → find_by_operation x.tenant_id id n ≡ (n, ok (some x)))
unfolding get_session find_by_operation
written_is_read now x expected lease m n h =
    let (here, owned) = has h in
    (rw (get_session, here) refl, λ id o e. rw (find_by_operation, owned id o e, here) refl)
  where
    has :
        (insert_session x m ≡ (n, ok tt)) ⊎ (save_session now x expected lease m ≡ (n, ok tt))
        → Has x n
    has (inl i) = inserted-Has x m n i
    has (inr w) = saved-Has now x expected lease m n w
