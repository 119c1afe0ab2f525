-- ===== src/Memory/Saves.antt =====
-- repository-memory/src/lib.rs: `save_sandbox_session`.
use sdkwork_sandbox.Base.{
  ℕ, ◌+◌, leb, ◌==◌, Bool, true, false, not, ◌&&◌, Option, none, some, List, [], ◌∷◌, Text, text_eq,
  Map, if◌then◌else◌, i64_max, ok, err, ◌>>=◌, ◌>>◌, guard, ok_or,
}
use sdkwork_sandbox.Session.Ledger.{Operation}
use sdkwork_sandbox.Session.Error.{
  RepositoryResult, not_found, lease_conflict, version_conflict, duplicate_operation,
}
use sdkwork_sandbox.Session.Model.{Session}
use sdkwork_sandbox.Session.Persisted.{validate_persisted_invariants}
use sdkwork_sandbox.Session.Lease.{SessionLease}
use sdkwork_sandbox.Memory.Keys.{find, store}
use sdkwork_sandbox.Memory.Defs.{RepositoryState, store_operations}
use sdkwork_sandbox.Memory.Leases.{is_held}

abbrev pub is_of_another : Text → Option Text → Bool
is_of_another session none = false
is_of_another session (some owner) = not (text_eq owner session)

-- An operation of the session that another session has.
abbrev pub any_is_of_another : Text → Text → List Operation → Map (Map Text) → Bool
any_is_of_another tenant session [] m = false
any_is_of_another tenant session (o ∷ os) m =
    let rest = any_is_of_another tenant session os m in
    if is_of_another session (find tenant o.operation_id m) then true else rest

-- The guards of a save, in their order.
unfoldable pub save_admission :
    ℕ → Session → ℕ → SessionLease → RepositoryState → RepositoryResult (Unit {0})
unfolding validate_persisted_invariants find
save_admission now s expected lease m = do
  validate_persisted_invariants s
  current ← ok_or (find s.tenant_id s.session_id m.sessions) not_found
  l ← ok_or (find s.tenant_id s.session_id m.leases) lease_conflict
  guard (is_held lease l now) lease_conflict
  guard (leb (expected + 1) i64_max) version_conflict
  guard (current.version == expected && s.version == expected + 1) version_conflict
  guard (not (any_is_of_another s.tenant_id s.session_id s.operations m.operations))
      duplicate_operation

abbrev pub save_write : Session → RepositoryState → RepositoryState
unfolding store
save_write s m = record m {
  operations = store_operations s.tenant_id s.session_id s.operations m.operations;
  sessions = store s.tenant_id s.session_id s m.sessions;
}

unfoldable pub save_session :
    ℕ → Session → ℕ → SessionLease → RepositoryState → RepositoryState × RepositoryResult (Unit {0})
unfolding save_admission store
save_session now s expected lease m = elim (save_admission now s expected lease m) [
  | err e ↦ (m, err e)
  | ok _ ↦ (save_write s m, ok tt)
]
