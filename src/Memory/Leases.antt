-- ===== src/Memory/Leases.antt =====
-- repository-memory/src/lib.rs: the lease of a session.
use sdkwork_sandbox.Base.{
  ℕ, ◌+◌, leb, ltb, ◌==◌, Bool, true, false, not, ◌&&◌, Option, none, some, Text, text_eq,
  if◌then◌else◌, ok, err, ◌>>=◌, ok_or, i64_max, pos,
}
use sdkwork_sandbox.Session.Error.{RepositoryResult, not_found, lease_conflict, invalid_stored_data}
use sdkwork_sandbox.Session.Lease.{SessionLease, lease_new, fencing_token_new}
use sdkwork_sandbox.Memory.Keys.{find, store, is_stored}
use sdkwork_sandbox.Memory.Defs.{MemoryLease, RepositoryState}

-- The two clocks: the monotonic instant, and the milliseconds of the Unix epoch.
pub record Clock : Type 0 where
  pub instant : ℕ
  pub unix_millis : ℕ

abbrev pub owner_is : Option Text → Text → Bool
owner_is none id = false
owner_is (some owner) id = text_eq owner id

abbrev pub is_unexpired : Option ℕ → ℕ → Bool
is_unexpired none now = false
is_unexpired (some expires) now = ltb now expires

-- The lease is that of the caller, by its owner and its token.
abbrev pub is_owned : SessionLease → MemoryLease → Bool
is_owned lease l =
    owner_is l.lease_owner_id lease.lease_owner_id && l.fencing_token == lease.fencing_token

-- The caller owns the lease, and it has not expired.
abbrev pub is_held : SessionLease → MemoryLease → ℕ → Bool
is_held lease l now = is_owned lease l && is_unexpired l.expires_at now

abbrev pub duration_is_valid : ℕ → Bool
duration_is_valid duration = leb 1 duration && leb duration 300000

-- The lease as it is given to the caller.
unfoldable pub session_lease : Text → Text → MemoryLease → RepositoryResult SessionLease
unfolding lease_new fencing_token_new
session_lease tenant session l = do
  owner ← ok_or l.lease_owner_id invalid_stored_data
  token ← ok_or (fencing_token_new l.fencing_token) invalid_stored_data
  expires ← ok_or l.expires_at_unix_millis invalid_stored_data
  lease_new tenant session owner token (pos expires)

abbrev pub some_of : RepositoryResult SessionLease → RepositoryResult (Option SessionLease)
some_of (ok lease) = ok (some lease)
some_of (err e) = err e

abbrev pub put_lease : Text → Text → MemoryLease → RepositoryState → RepositoryState
put_lease tenant session l m = record m { leases = store tenant session l m.leases }

-- The lease with its new expiry by both clocks.
abbrev pub extended : Clock → ℕ → MemoryLease → MemoryLease
extended now duration l = record l {
  expires_at = some (now.instant + duration);
  expires_at_unix_millis = some (now.unix_millis + duration);
}

-- The lease with its new expiry by the first clock alone.
abbrev pub half_extended : Clock → ℕ → MemoryLease → MemoryLease
half_extended now duration l = record l { expires_at = some (now.instant + duration) }

-- The expiry is written; when the Unix time overflows, the first half is written already.
unfoldable pub write_expiry :
    Clock
    → ℕ
    → Text
    → Text
    → MemoryLease
    → RepositoryState
    → RepositoryState × RepositoryResult (Option SessionLease)
unfolding session_lease store
write_expiry now duration tenant session l m =
    if leb (now.unix_millis + duration) i64_max
    then (
      put_lease tenant session (extended now duration l) m,
      some_of (session_lease tenant session (extended now duration l)),
    )
    else (put_lease tenant session (half_extended now duration l) m, err lease_conflict)

-- The entry of an acquired lease: its next token, and its owner.
abbrev pub taken : Text → MemoryLease → MemoryLease
taken owner l = record l { fencing_token = l.fencing_token + 1; lease_owner_id = some owner }

abbrev pub acquire_entry :
    Clock
    → ℕ
    → Text
    → Text
    → Text
    → Option MemoryLease
    → RepositoryState
    → RepositoryState × RepositoryResult (Option SessionLease)
acquire_entry now duration tenant session owner none m = (m, err invalid_stored_data)
acquire_entry now duration tenant session owner (some l) m =
    if is_unexpired l.expires_at now.instant
    then (m, ok none)
    else if not (leb (l.fencing_token + 1) i64_max)
    then (m, err lease_conflict)
    else write_expiry now duration tenant session (taken owner l) m

unfoldable pub acquire_lease :
    Clock
    → Text
    → Text
    → Text
    → ℕ
    → RepositoryState
    → RepositoryState × RepositoryResult (Option SessionLease)
unfolding find
acquire_lease now tenant session owner duration m =
    if not (duration_is_valid duration)
    then (m, err lease_conflict)
    else if not (is_stored tenant session m.sessions)
    then (m, err not_found)
    else acquire_entry now duration tenant session owner (find tenant session m.leases) m

abbrev pub renew_entry :
    Clock
    → ℕ
    → SessionLease
    → Option MemoryLease
    → RepositoryState
    → RepositoryState × RepositoryResult (Option SessionLease)
renew_entry now duration lease none m = (m, err not_found)
renew_entry now duration lease (some l) m =
    if is_held lease l now.instant
    then write_expiry now duration lease.tenant_id lease.session_id l m
    else (m, ok none)

unfoldable pub renew_lease :
    Clock
    → SessionLease
    → ℕ
    → RepositoryState
    → RepositoryState × RepositoryResult (Option SessionLease)
unfolding find
renew_lease now lease duration m =
    if not (duration_is_valid duration)
    then (m, err lease_conflict)
    else renew_entry now duration lease (find lease.tenant_id lease.session_id m.leases) m

abbrev pub released : MemoryLease → MemoryLease
released l = record l { lease_owner_id = none; expires_at = none; expires_at_unix_millis = none }

abbrev pub release_entry :
    SessionLease → Option MemoryLease → RepositoryState → RepositoryState × RepositoryResult Bool
unfolding store
release_entry lease none m = (m, err not_found)
release_entry lease (some l) m =
    if is_owned lease l
    then (put_lease lease.tenant_id lease.session_id (released l) m, ok true)
    else (m, ok false)

unfoldable pub release_lease :
    SessionLease → RepositoryState → RepositoryState × RepositoryResult Bool
unfolding find store
release_lease lease m = release_entry lease (find lease.tenant_id lease.session_id m.leases) m
