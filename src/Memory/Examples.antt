-- ===== src/Memory/Examples.antt =====
-- A concrete repository: tests of the model, and the theorems at inputs that meet their hypotheses.
use sdkwork_sandbox.Base.{
  ℕ, ◌+◌, ◌<◌, ◌≡◌, refl, false, some, [], ◌∷◌, Text, text, text_eq, text_compare, get, insert, pos,
  ok, is_ok, inl, List, true, suc, ◌*◌,
}
use sdkwork_sandbox.Provider.Assurance.{container}
use sdkwork_sandbox.Session.Kinds.{running, create, start, succeeded, in_progress}
use sdkwork_sandbox.Session.Ledger.{Operation, find_operation}
use sdkwork_sandbox.Session.Model.{
  begin_operation, set_runtime_binding, transition, next_version, complete_operation, Session,
  session_create,
}
use sdkwork_sandbox.Session.Persisted.{
  replay_ledger, replay_from_create, validate_persisted_invariants,
}
use sdkwork_sandbox.Session.Lease.{SessionLease, lease_new, fencing_token_new}
use sdkwork_sandbox.Memory.Keys.{find, store}
use sdkwork_sandbox.Memory.Defs.{
  RepositoryState, empty, insert_session, insert_admission, get_session, find_by_operation,
}
use sdkwork_sandbox.Memory.Leases.{Clock, acquire_lease, write_expiry, session_lease}
use sdkwork_sandbox.Memory.Saves.{save_session}
use sdkwork_sandbox.Memory.Command.{inserts, releases, step, run}
use sdkwork_sandbox.Memory.Reads.{written_is_read}
use sdkwork_sandbox.Memory.Valid.{ValidWorld, over_memory, memory_sessions_are_valid}
use sdkwork_sandbox.Service.Lawful.{Harmless}
use sdkwork_sandbox.Service.Interface.{Service}
use sdkwork_sandbox.Provider.Requests.{Provider}
use sdkwork_sandbox.Provider.Descriptor.{is_running_ready, ready}
use sdkwork_sandbox.Service.Stored.Sessions.{Call, creates, starts, perform_all}
use sdkwork_sandbox.Memory.Port.{memory_repository}
use sdkwork_sandbox.Memory.Fencing.Supersession.{later_lease_is_newer, superseded_lease_cannot_save}

abbrev tenant : Text
tenant = text "tenant"

abbrev id : Text
id = text "session"

abbrev new : Session
unfolding session_create
new = session_create tenant (text "workspace") id (text "op-1") [] container

abbrev at : ℕ → Clock
at n = record { instant = n; unix_millis = 1000 + n }

abbrev lease : Text → ℕ → ℕ → SessionLease
lease owner token expires = record {
  tenant_id = tenant;
  session_id = id;
  lease_owner_id = owner;
  fencing_token = token;
  expires_at_unix_millis = pos expires;
}

abbrev first_lease : SessionLease
first_lease = lease (text "owner-a") 1 1105

abbrev second_lease : SessionLease
second_lease = lease (text "owner-b") 2 1305

first_is_given :
    (acquire_lease (at 5) tenant id (text "owner-a") 100 (run ((at 1, inserts new) ∷ []) empty)).1
    ≡ ok (some first_lease)
unfolding run step insert_session insert_admission acquire_lease write_expiry session_lease
    lease_new fencing_token_new find store get insert text_compare validate_persisted_invariants
    replay_from_create replay_ledger empty new text_eq
first_is_given = refl

second_is_given :
    (acquire_lease (at 205) tenant id (text "owner-b") 100 (
      run []
        (acquire_lease
          (at 5)
          tenant
          id
          (text "owner-a")
          100
          (run ((at 1, inserts new) ∷ []) empty)).0)).1
    ≡ ok (some second_lease)
unfolding run step insert_session insert_admission acquire_lease write_expiry session_lease
    lease_new fencing_token_new find store get insert text_compare validate_persisted_invariants
    replay_from_create replay_ledger empty new text_eq
second_is_given = refl

later_lease_is_newer_example : first_lease.fencing_token < second_lease.fencing_token
later_lease_is_newer_example =
    later_lease_is_newer ((at 1, inserts new) ∷ []) [] (at 5) (at 205) tenant id (text "owner-a")
      (text "owner-b") 100 100 first_lease second_lease first_is_given second_is_given

-- The repository after the second acquisition and its release.
abbrev last_state : RepositoryState
last_state =
    run ((at 210, releases second_lease) ∷ [])
      (acquire_lease (at 205) tenant id (text "owner-b") 100 (
        run []
          (acquire_lease (at 5) tenant id (text "owner-a") 100
            (run ((at 1, inserts new) ∷ []) empty)).0)).0

superseded_lease_cannot_save_example :
    ((save_session 220 (record new { version = 1 }) 0 first_lease last_state).0 ≡ last_state)
    × (is_ok (save_session 220 (record new { version = 1 }) 0 first_lease last_state).1 ≡ false)
unfolding new
superseded_lease_cannot_save_example =
    superseded_lease_cannot_save ((at 1, inserts new) ∷ []) []
      ((at 210, releases second_lease) ∷ []) (at 5) (at 205) 220 (text "owner-a") (text "owner-b")
      100 100 first_lease second_lease (record new { version = 1 }) 0 first_is_given second_is_given
      last_state refl

-- The repository after the insertion.
abbrev one_session : RepositoryState
unfolding insert_session
one_session = (insert_session new empty).0

insert_succeeds : insert_session new empty ≡ (one_session, ok tt)
unfolding insert_session insert_admission find store get insert text_compare
    validate_persisted_invariants replay_from_create replay_ledger empty new text_eq
insert_succeeds = refl

written_is_read_example :
    (get_session new.tenant_id new.session_id one_session ≡ (one_session, ok (some new)))
    × ((id : Text) (o : Operation)
        → find_operation id new.operations ≡ some o
        → find_by_operation new.tenant_id id one_session ≡ (one_session, ok (some new)))
written_is_read_example =
    written_is_read 220 new 0 first_lease empty one_session (inl insert_succeeds)

-- The service over the repository, with a clock of one second for each call.
abbrev seconds : ℕ → Clock
seconds n = at (n * 1000)

abbrev local : Provider (RepositoryState × ℕ)
local = record {
  descriptor = record {
    provider_id = text "local";
    provider_kind = text "local";
    capabilities = [];
    isolation_assurance = container;
  };
  health = λ w. (w, some (ok ready));
  allocate = λ r w. (w, some (ok (text "allocation")));
  start = λ r w. (
    w,
    some (ok (record { provider_ready = true; policy_enforced = true; workspace_attached = true })),
  );
  stop = λ r w. (w, some (ok tt));
  destroy = λ r w. (w, some (ok tt));
}

local-Harmless : Harmless (ValidWorld seconds suc) local
local-Harmless = record {
  health_keeps = λ w i. i;
  allocate_keeps = λ r w i. i;
  start_keeps = λ r w i. i;
  stop_keeps = λ r w i. i;
  destroy_keeps = λ r w i. i;
}

abbrev calls : List Call
calls =
    creates (record {
      tenant_id = tenant;
      workspace_id = text "workspace";
      session_id = id;
      operation_id = text "op-1";
      required_capabilities = [];
      minimum_assurance = container;
    })
    ∷ starts (record { tenant_id = tenant; session_id = id; operation_id = text "op-2" })
    ∷ []

abbrev over : Service (RepositoryState × ℕ)
over = over_memory seconds suc (local ∷ []) (text "owner") 60000 (λ w. (w, text "generated"))

-- The session that is stored after the two calls.
abbrev running_session : Session
unfolding new
running_session = record new {
  session_state = running;
  runtime_binding = some (record {
    sandbox_id = text "generated";
    runtime_binding_id = text "generated";
    provider_id = text "local";
    allocation_reference = some (text "allocation");
  });
  operations =
      record { operation_id = text "op-1"; operation_kind = create; operation_outcome = succeeded }
      ∷ record { operation_id = text "op-2"; operation_kind = start; operation_outcome = succeeded }
      ∷ [];
  persisted_operation_count = 2;
  persisted_last_operation_outcome = some in_progress;
  version = 3;
}

started_is_stored :
    find tenant id (perform_all over calls (empty, 0)).0.sessions ≡ some running_session
unfolding find perform_all memory_repository get empty insert text_eq write_expiry begin_operation
    set_runtime_binding transition next_version is_running_ready complete_operation
started_is_stored = refl

memory_sessions_are_valid_example : validate_persisted_invariants running_session ≡ ok tt
memory_sessions_are_valid_example =
    memory_sessions_are_valid seconds suc (local ∷ []) (text "owner") 60000
      (λ w. (w, text "generated")) calls 0 tenant id running_session (local-Harmless, tt) (λ w i. i)
      started_is_stored
