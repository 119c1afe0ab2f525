-- ===== src/Service/Examples.antt =====
-- A service over one stored session and one provider: tests of the model, and the theorems at inputs
-- that meet their hypotheses.
use sdkwork_sandbox.Base.{
  ◌≡◌, refl, true, Option, none, some, List, [], ◌∷◌, Text, text, subst, text_eq, pos, ok, arith,
}
use sdkwork_sandbox.Provider.Capability.{filesystem}
use sdkwork_sandbox.Provider.Assurance.{container}
use sdkwork_sandbox.Provider.Descriptor.{is_running_ready, ready}
use sdkwork_sandbox.Provider.Requests.{Provider}
use sdkwork_sandbox.Session.Kinds.{SessionState, destroyed}
use sdkwork_sandbox.Session.Model.{
  begin_operation, set_runtime_binding, transition, next_version, complete_operation, Session,
}
use sdkwork_sandbox.Session.Persisted.{validate_persisted_invariants}
use sdkwork_sandbox.Session.Lease.{SessionLease}
use sdkwork_sandbox.Service.Interface.{Repository, Service, LifecycleCommand}
use sdkwork_sandbox.Service.Create.{CreateCommand}
use sdkwork_sandbox.Service.Lawful.{Lawful}
use sdkwork_sandbox.Service.Stored.Sessions.{
  Call, creates, starts, stops, destroys, perform, perform_all, saves_pass_the_test,
}

-- The world of the example: the session that is stored, if there is one.
abbrev World : Type 0
World = Option Session

abbrev lease : SessionLease
lease = record {
  tenant_id = text "tenant";
  session_id = text "session";
  lease_owner_id = text "owner";
  fencing_token = 1;
  expires_at_unix_millis = pos 1000;
}

abbrev store_of_one : Repository World
store_of_one = record {
  find_by_operation = λ t o w. (w, ok w);
  get_session = λ t s w. (w, ok w);
  insert_session = λ s w. (some s, ok tt);
  save_session = λ s n l w. (some s, ok tt);
  acquire_lease = λ t s o n w. (w, ok (some lease));
  renew_lease = λ l n w. (w, ok (some l));
  release_lease = λ l w. (w, ok true);
  list_requiring_reconciliation = λ t a n w. (w, ok []);
}

abbrev local : Provider World
local = record {
  descriptor = record {
    provider_id = text "local";
    provider_kind = text "local";
    capabilities = filesystem ∷ [];
    isolation_assurance = container;
  };
  health = λ w. (w, some (ok ready));
  allocate = λ r w. (w, some (ok (text "allocation")));
  start = λ r w. (
    w,
    some (ok (record { provider_ready = true; policy_enforced = true; workspace_attached = true })),
  );
  stop = λ r w. (w, some (ok tt));
  destroy = λ r w. (w, some (ok tt));
}

abbrev service : Service World
service = record {
  session_repository = store_of_one;
  providers = local ∷ [];
  lease_owner_id = text "owner";
  lease_duration = 60000;
  generate = λ w. (w, text "generated");
}

-- What is stored passes the test.
IsValid : World → Type 0
IsValid none = Unit
IsValid (some s) = validate_persisted_invariants s ≡ ok tt

read-IsValid :
    (w : World) (x : Session) → IsValid w → w ≡ some x → validate_persisted_invariants x ≡ ok tt
unfolding IsValid
read-IsValid w x i e = subst IsValid e i

service-Lawful : Lawful IsValid service
unfolding IsValid
service-Lawful = record {
  repository_lawful = record {
    acquire_keeps = λ t s o n w i. i;
    renew_keeps = λ l n w i. i;
    release_keeps = λ l w i. i;
    get_keeps = λ t s w i. i;
    get_reads = λ t s w x i e. read-IsValid w x i (ground (arith, e));
    find_keeps = λ t o w i. i;
    list_keeps = λ t a n w i. i;
    insert_keeps = λ x w i v. v;
    save_keeps = λ x n l w i v. v;
  };
  providers_harmless = (
    record {
      health_keeps = λ w i. i;
      allocate_keeps = λ r w i. i;
      start_keeps = λ r w i. i;
      stop_keeps = λ r w i. i;
      destroy_keeps = λ r w i. i;
    },
    tt,
  );
  generate_keeps = λ w i. i;
}

abbrev command : Text → LifecycleCommand
command id = record { tenant_id = text "tenant"; session_id = text "session"; operation_id = id }

abbrev creation : CreateCommand
creation = record {
  tenant_id = text "tenant";
  workspace_id = text "workspace";
  session_id = text "session";
  operation_id = text "op-1";
  required_capabilities = filesystem ∷ [];
  minimum_assurance = container;
}

abbrev calls : List Call
calls =
    creates creation
    ∷ starts (command (text "op-2"))
    ∷ stops (command (text "op-3"))
    ∷ destroys (command (text "op-4"))
    ∷ []

saves_pass_the_test_example : IsValid (perform_all service calls none)
unfolding IsValid
saves_pass_the_test_example = saves_pass_the_test IsValid service calls none service-Lawful tt

state_of : World → Option SessionState
state_of none = none
state_of (some s) = some s.session_state

-- The four calls leave the session destroyed.
life_ends_destroyed : state_of (perform_all service calls none) ≡ some destroyed
unfolding state_of perform_all perform text_eq begin_operation set_runtime_binding transition
    next_version is_running_ready complete_operation
life_ends_destroyed = refl
