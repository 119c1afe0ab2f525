-- ===== src/Memory/Defs.antt =====
-- repository-memory/src/lib.rs: the state, the reads, and the insertion of a session.
use sdkwork_sandbox.Base.{
  ℕ, zero, suc, leb, Bool, true, false, not, ◌&&◌, Option, none, some, List, [], ◌∷◌, Text,
  text_compare, Ordering, Map, if◌then◌else◌, ok, err, ◌>>◌, guard,
}
use sdkwork_sandbox.Session.Kinds.{is_transient}
use sdkwork_sandbox.Session.Ledger.{Operation}
use sdkwork_sandbox.Session.Error.{
  RepositoryResult, version_conflict, duplicate_operation, invalid_page_request,
}
use sdkwork_sandbox.Session.Model.{Session}
use sdkwork_sandbox.Session.Persisted.{validate_persisted_invariants}
use sdkwork_sandbox.Service.Interface.{ReconciliationCandidate}
use sdkwork_sandbox.Memory.Keys.{find, store, is_stored, under}
use sdkwork_sandbox.Base.{get}

-- Instants and durations are in milliseconds.
pub record MemoryLease : Type 0 where
  pub lease_owner_id : Option Text
  pub fencing_token : ℕ
  pub expires_at : Option ℕ
  pub expires_at_unix_millis : Option ℕ

pub record RepositoryState : Type 0 where
  pub sessions : Map (Map Session)
  pub operations : Map (Map Text)
  pub leases : Map (Map MemoryLease)

unfoldable pub empty : RepositoryState
empty = record { sessions = []; operations = []; leases = [] }

unfoldable pub get_session :
    Text → Text → RepositoryState → RepositoryState × RepositoryResult (Option Session)
unfolding find
get_session tenant session m = (m, ok (find tenant session m.sessions))

unfoldable pub find_by_operation :
    Text → Text → RepositoryState → RepositoryState × RepositoryResult (Option Session)
unfolding find
find_by_operation tenant operation m = elim (find tenant operation m.operations) [
  | none ↦ (m, ok none)
  | some session ↦ (m, ok (find tenant session m.sessions))
]

-- The operations that are in the repository already.
abbrev pub any_is_stored : Text → List Operation → Map (Map Text) → Bool
any_is_stored tenant [] m = false
any_is_stored tenant (o ∷ os) m =
    let rest = any_is_stored tenant os m in if is_stored tenant o.operation_id m then true else rest

abbrev pub store_operations : Text → Text → List Operation → Map (Map Text) → Map (Map Text)
store_operations tenant session [] m = m
store_operations tenant session (o ∷ os) m =
    store_operations tenant session os (store tenant o.operation_id session m)

abbrev pub no_lease : MemoryLease
no_lease = record {
  lease_owner_id = none;
  fencing_token = 0;
  expires_at = none;
  expires_at_unix_millis = none;
}

unfoldable pub insert_admission : Session → RepositoryState → RepositoryResult (Unit {0})
unfolding find validate_persisted_invariants
insert_admission s m = do
  validate_persisted_invariants s
  guard (not (is_stored s.tenant_id s.session_id m.sessions)) version_conflict
  guard (not (any_is_stored s.tenant_id s.operations m.operations)) duplicate_operation

unfoldable pub insert_session :
    Session → RepositoryState → RepositoryState × RepositoryResult (Unit {0})
unfolding insert_admission store
insert_session s m = elim (insert_admission s m) [
  | err e ↦ (m, err e)
  | ok _ ↦ (
    record m {
      operations = store_operations s.tenant_id s.session_id s.operations m.operations;
      sessions = store s.tenant_id s.session_id s m.sessions;
      leases = store s.tenant_id s.session_id no_lease m.leases;
    },
    ok tt,
  )
]

-- The entries above an identity, in their order.
abbrev pub entries_after : Option Text → Map Session → Map Session
entries_after none m = m
entries_after (some id) [] = []
entries_after (some id) ((k, s) ∷ m) = elim (text_compare id k) [
  | Ordering.lt ↦ (k, s) ∷ entries_after (some id) m
  | _ ↦ entries_after (some id) m
]

abbrev pub reconciliation_page : ℕ → Map Session → List ReconciliationCandidate
reconciliation_page size [] = []
reconciliation_page zero ((k, s) ∷ m) = []
reconciliation_page (suc n) ((k, s) ∷ m) =
    let rest = reconciliation_page (suc n) m in
    let taken = reconciliation_page n m in
    if is_transient s.session_state
    then record { session_id = k; session_state = s.session_state } ∷ taken
    else rest

unfoldable pub list_requiring_reconciliation :
    Text
    → Option Text
    → ℕ
    → RepositoryState
    → RepositoryState × RepositoryResult (List ReconciliationCandidate)
list_requiring_reconciliation tenant after size m =
    if leb 1 size && leb size 200
    then (m, ok (reconciliation_page size (entries_after after (under (get tenant m.sessions)))))
    else (m, err invalid_page_request)
