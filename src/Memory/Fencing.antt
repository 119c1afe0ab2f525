-- ===== src/Memory/Fencing.antt =====
-- The fencing tokens of the leases never go back.
pub mod Supersession
use sdkwork_sandbox.Base.{
  get, ℕ, ◌+◌, ◌≤◌, ◌<◌, ◌≡◌, refl, subst, sym, inl, inr, Bool, true, false, not, ◌&&◌, Option,
  none, some, List, [], ◌∷◌, Text, text_eq, text_eq_iff, if◌then◌else◌, is_some, leb, i64_max, ok,
  err, is_ok, Bool-cases, Option-cases, Result-cases, arith,
}
use sdkwork_sandbox.Session.Model.{Session}
use sdkwork_sandbox.Session.Error.{RepositoryResult}
use sdkwork_sandbox.Session.Persisted.{validate_persisted_invariants}
use sdkwork_sandbox.Session.Lease.{SessionLease}
use sdkwork_sandbox.Memory.Keys.{
  find, store, is_stored, store_cases, is_stored-store, is_stored-store_self,
}
use sdkwork_sandbox.Memory.Defs.{
  MemoryLease, RepositoryState, empty, insert_session, insert_admission, no_lease,
}
use sdkwork_sandbox.Memory.Leases.{
  Clock, acquire_lease, acquire_entry, renew_lease, renew_entry, release_lease, release_entry,
  write_expiry, put_lease, extended, half_extended, taken, released, is_owned, is_held,
  is_unexpired, duration_is_valid,
}
use sdkwork_sandbox.Memory.Saves.{save_session, save_admission}
use sdkwork_sandbox.Memory.Command.{Command, inserts, saves, acquires, renews, releases, step, run}

abbrev pub token_in : Option MemoryLease → ℕ
token_in none = 0
token_in (some l) = l.fencing_token

-- The token that the repository has for a session.
unfoldable pub token_of : Text → Text → RepositoryState → ℕ
unfolding find
token_of tenant session m = token_in (find tenant session m.leases)

-- Only sessions that are there have a lease.
abbrev pub Leased : RepositoryState → Type 0
Leased m = (t s : Text) → is_stored t s m.leases ≡ true → is_stored t s m.sessions ≡ true

-- What a call may do to the tokens.
abbrev pub Follows : RepositoryState → RepositoryState → Type 0
Follows m n = Leased n × ((t s : Text) → token_of t s m ≤ token_of t s n)

same-Follows : (m : RepositoryState) → Leased m → Follows m m
same-Follows m v = (v, λ t s. omega arith)

-- A lease is written over one with a token that is no greater.
put_lease-Follows :
    (tenant session : Text) (l n : MemoryLease) (m : RepositoryState)
    → Leased m
    → find tenant session m.leases ≡ some l
    → l.fencing_token ≤ n.fencing_token
    → Follows m (put_lease tenant session n m)
unfolding token_of
put_lease-Follows tenant session l n m v e h = (
  (λ t s k. elim (store_cases t tenant s session n m.leases) [
    | inl (et, es, _) ↦ v t s (ground (arith, e, et, es))
    | inr same ↦ v t s (rw same at k)
  ]),
  (λ t s. elim (store_cases t tenant s session n m.leases) [
    | inl (et, es, now) ↦ ground (arith, e, et, es, now, h)
    | inr same ↦ ground (arith, same)
  ]),
)

-- Writing an expiry keeps the token.
write_expiry-Follows :
    (now : Clock) (duration : ℕ) (tenant session : Text) (l n : MemoryLease) (m : RepositoryState)
    → Leased m
    → find tenant session m.leases ≡ some l
    → l.fencing_token ≤ n.fencing_token
    → Follows m (write_expiry now duration tenant session n m).0
unfolding write_expiry
write_expiry-Follows now duration tenant session l n m v e h =
    elim (Bool-cases (leb (now.unix_millis + duration) i64_max)) [
      | inl k ↦
          rw (k, write_expiry)
            (put_lease-Follows tenant session l (extended now duration n) m v e h)
      | inr k ↦
          rw (k, write_expiry)
            (put_lease-Follows tenant session l (half_extended now duration n) m v e h)
    ]

pub acquire-Follows :
    (now : Clock) (tenant session owner : Text) (duration : ℕ) (m : RepositoryState)
    → Leased m
    → Follows m (acquire_lease now tenant session owner duration m).0
unfolding acquire_lease
acquire-Follows now tenant session owner duration m v =
    elim (Bool-cases (duration_is_valid duration)) [
      | inr d ↦ rw d (same-Follows m v)
      | inl d ↦ elim (Bool-cases (is_stored tenant session m.sessions)) [
        | inr k ↦ rw (d, k) (same-Follows m v)
        | inl k ↦ rw (d, k) (entry (find tenant session m.leases) refl)
      ]
    ]
  where
    entry :
        (o : Option MemoryLease)
        → find tenant session m.leases ≡ o
        → Follows m (acquire_entry now duration tenant session owner o m).0
    entry none e = same-Follows m v
    entry (some l) e = elim (Bool-cases (is_unexpired l.expires_at now.instant)) [
      | inl u ↦ rw u (same-Follows m v)
      | inr u ↦ elim (Bool-cases (leb (l.fencing_token + 1) i64_max)) [
        | inr top ↦ rw (u, top) (same-Follows m v)
        | inl top ↦
            rw (u, top)
              (write_expiry-Follows now duration tenant session l (taken owner l) m v e
                (omega arith))
      ]
    ]

renew-Follows :
    (now : Clock) (lease : SessionLease) (duration : ℕ) (m : RepositoryState)
    → Leased m
    → Follows m (renew_lease now lease duration m).0
unfolding renew_lease
renew-Follows now lease duration m v = elim (Bool-cases (duration_is_valid duration)) [
  | inr d ↦ rw d (same-Follows m v)
  | inl d ↦ rw d (entry (find lease.tenant_id lease.session_id m.leases) refl)
]
  where
    entry :
        (o : Option MemoryLease)
        → find lease.tenant_id lease.session_id m.leases ≡ o
        → Follows m (renew_entry now duration lease o m).0
    entry none e = same-Follows m v
    entry (some l) e = elim (Bool-cases (is_held lease l now.instant)) [
      | inr k ↦ rw k (same-Follows m v)
      | inl k ↦ rw k (
          write_expiry-Follows now duration lease.tenant_id lease.session_id l l m v e
            (omega arith))
    ]

release-Follows :
    (lease : SessionLease) (m : RepositoryState) → Leased m → Follows m (release_lease lease m).0
unfolding release_lease
release-Follows lease m v = entry (find lease.tenant_id lease.session_id m.leases) refl
  where
    entry :
        (o : Option MemoryLease)
        → find lease.tenant_id lease.session_id m.leases ≡ o
        → Follows m (release_entry lease o m).0
    entry none e = same-Follows m v
    entry (some l) e = elim (Bool-cases (is_owned lease l)) [
      | inr k ↦ rw k (same-Follows m v)
      | inl k ↦
          rw k
            (put_lease-Follows lease.tenant_id lease.session_id l (released l) m v e (omega arith))
    ]

save-Follows :
    (now : ℕ) (x : Session) (expected : ℕ) (lease : SessionLease) (m : RepositoryState)
    → Leased m
    → Follows m (save_session now x expected lease m).0
unfolding save_session token_of
save-Follows now x expected lease m v =
    elim (Result-cases (save_admission now x expected lease m)) [
      | inr (e, r) ↦ rw (r, save_session) (same-Follows m v)
      | inl (_, r) ↦
          rw (r, save_session)
            (
              (λ t s k. is_stored-store t x.tenant_id s x.session_id x m.sessions (v t s k)),
              (λ t s. omega arith),
            )
    ]

insert_is_new :
    (x : Session) (m : RepositoryState)
    → insert_admission x m ≡ ok tt
    → is_stored x.tenant_id x.session_id m.sessions ≡ false
unfolding insert_admission
insert_is_new x m h = elim (Bool-cases (is_stored x.tenant_id x.session_id m.sessions)) [
  | inr e ↦ e
  | inl e ↦ absurd (elim (Result-cases (validate_persisted_invariants x)) [
    | inl (_, r) ↦ ground (arith, h, e, r)
    | inr (_, r) ↦ ground (arith, h, e, r)
  ])
]

new_has_no_token :
    (x : Session) (m : RepositoryState)
    → Leased m
    → is_stored x.tenant_id x.session_id m.sessions ≡ false
    → token_of x.tenant_id x.session_id m ≡ 0
unfolding token_of
new_has_no_token x m v h = elim (Option-cases (find x.tenant_id x.session_id m.leases)) [
  | inl e ↦ rw e refl
  | inr (l, e) ↦ absurd (cc (v x.tenant_id x.session_id (rw e refl)))
]

-- A session is inserted only if it is new, so that it had no lease.
insert-Follows : (x : Session) (m : RepositoryState) → Leased m → Follows m (insert_session x m).0
unfolding insert_session token_of
insert-Follows x m v = elim (Result-cases (insert_admission x m)) [
  | inr (e, r) ↦ rw (r, insert_session) (same-Follows m v)
  | inl (_, r) ↦
      rw (r, insert_session)
        (
          (λ t s k. elim (store_cases t x.tenant_id s x.session_id no_lease m.leases) [
            | inl (et, es, _) ↦
                ground (arith, is_stored-store_self x.tenant_id x.session_id x m.sessions, et, es)
            | inr same ↦
                is_stored-store t x.tenant_id s x.session_id x m.sessions (v t s (rw same at k))
          ]),
          (λ t s. elim (store_cases t x.tenant_id s x.session_id no_lease m.leases) [
            | inl (et, es, now) ↦
                ground (arith, new_has_no_token x m v (insert_is_new x m r), et, es)
            | inr same ↦ ground (arith, same)
          ]),
        )
]

step-Follows : (m : RepositoryState) (c : Clock × Command) → Leased m → Follows m (step m c)
unfolding step
step-Follows m (now, inserts s) v = insert-Follows s m v
step-Follows m (now, saves s expected lease) v = save-Follows now.instant s expected lease m v
step-Follows m (now, acquires tenant session owner duration) v =
    acquire-Follows now tenant session owner duration m v
step-Follows m (now, renews lease duration) v = renew-Follows now lease duration m v
step-Follows m (now, releases lease) v = release-Follows lease m v

pub run-Follows :
    (cs : List (Clock × Command)) (m : RepositoryState) → Leased m → Follows m (run cs m)
unfolding run
run-Follows [] m v = same-Follows m v
run-Follows (c ∷ cs) m v =
    let one = step-Follows m c v in
    let rest = run-Follows cs (step m c) one.0 in
    (rest.0, λ t s. omega (arith, one.1 t s, rest.1 t s))

pub empty-Leased : Leased empty
unfolding empty find get
empty-Leased t s k = absurd (cc k)
