-- ===== src/Service/Create.antt =====
-- service/src/service.rs: `create_sandbox_session` and `get_sandbox_session`.
use sdkwork_sandbox.Base.{Option, none, some, List, Text, ok, err, if◌then◌else◌}
use sdkwork_sandbox.Provider.Capability.{RuntimeCapability}
use sdkwork_sandbox.Provider.Assurance.{IsolationAssurance}
use sdkwork_sandbox.Session.Error.{
  RepositoryResult, duplicate_operation, version_conflict, duplicate_session, LifecycleError,
  LifecycleResult, repository, idempotency_conflict, session_id_conflict, invariant_violation,
  duplicate_without_owner,
}
use sdkwork_sandbox.Session.Model.{
  Session, session_create, matches_create, mark_operations_persisted,
}
use sdkwork_sandbox.Service.Action.{Action, or_raise, from_repository, ◌>>=◌}
use sdkwork_sandbox.Service.Interface.{Service}

-- service/src/command.rs.
pub record CreateCommand : Type 0 where
  pub tenant_id : Text
  pub workspace_id : Text
  pub session_id : Text
  pub operation_id : Text
  pub required_capabilities : List RuntimeCapability
  pub minimum_assurance : IsolationAssurance

abbrev pub created_by : CreateCommand → Session
created_by c =
    session_create c.tenant_id c.workspace_id c.session_id c.operation_id c.required_capabilities
      c.minimum_assurance

-- A session that owns the operation is the answer, if it is the session of the command.
unfoldable pub matched : CreateCommand → Session → LifecycleResult Session
unfolding matches_create
matched c s =
    if matches_create s c.workspace_id c.session_id c.required_capabilities c.minimum_assurance
    then ok s
    else err (idempotency_conflict c.operation_id)

module _ {W : Type 0} (sv : Service W) (c : CreateCommand) where
  abbrev pub find_owner : Action W (Option Session)
  find_owner w =
      from_repository (sv.session_repository.find_by_operation c.tenant_id c.operation_id w)

  -- After a conflict the owner of the operation is read again.
  unfoldable pub reread : LifecycleError → Action W Session
  unfolding matched
  reread without = do owner ← find_owner; s ← or_raise owner without; λ w. (w, matched c s)

  unfoldable pub inserted : W × RepositoryResult (Unit {0}) → W × LifecycleResult Session
  unfolding session_create mark_operations_persisted reread
  inserted (w, ok _) = (w, ok (mark_operations_persisted (created_by c)))
  inserted (w, err duplicate_operation) = reread (invariant_violation duplicate_without_owner) w
  inserted (w, err version_conflict) = reread (session_id_conflict c.tenant_id c.session_id) w
  inserted (w, err duplicate_session) = reread (session_id_conflict c.tenant_id c.session_id) w
  inserted (w, err e) = (w, err (repository e))

  -- The owner of the operation answers; without one the session is new.
  unfoldable pub owned : Option Session → Action W Session
  unfolding matched inserted session_create
  owned (some s) w = (w, matched c s)
  owned none w = inserted (sv.session_repository.insert_session (created_by c) w)

  unfoldable pub create_session : Action W Session
  unfolding owned
  create_session = find_owner >>= owned
