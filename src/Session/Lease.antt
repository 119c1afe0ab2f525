-- ===== src/Session/Lease.antt =====
-- service/src/repository.rs: the lease of a session, and provider-spi/src/identity.rs: its token.
use sdkwork_sandbox.Base.{
  ℕ, ◌==◌, leb, not, ◌||◌, Text, i64_max, ℤ, pos, ltb_ℤ, ok, ◌>>◌, guard, Option, none, some,
  if◌then◌else◌,
}
use sdkwork_sandbox.Session.Error.{RepositoryResult, invalid_stored_data}

pub record SessionLease : Type 0 where
  pub tenant_id : Text
  pub session_id : Text
  pub lease_owner_id : Text
  pub fencing_token : ℕ
  pub expires_at_unix_millis : ℤ

-- `SandboxFencingToken::new`: the token, if it is in its range.
unfoldable pub fencing_token_new : ℕ → Option ℕ
fencing_token_new value = if value == 0 || not (leb value i64_max) then none else some value

unfoldable pub lease_new : Text → Text → Text → ℕ → ℤ → RepositoryResult SessionLease
lease_new tenant session owner token expires =
    guard (ltb_ℤ (pos 0) expires) invalid_stored_data
    >> ok (record {
      tenant_id = tenant;
      session_id = session;
      lease_owner_id = owner;
      fencing_token = token;
      expires_at_unix_millis = expires;
    })
