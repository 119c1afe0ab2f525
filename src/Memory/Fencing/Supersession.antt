-- ===== src/Memory/Fencing/Supersession.antt =====
-- A lease that another acquisition has superseded is of no more use.
use sdkwork_sandbox.Base.{
  ltb_ℤ, ℕ, ◌+◌, ◌<◌, ◌≡◌, refl, sym, subst, ap, ◌∙◌, inl, inr, false, Option, none, some, List,
  Text, leb, i64_max, ok, is_ok, Bool-cases, Option-cases, Result-cases, arith, pos, ◌==◌, not,
  ◌||◌,
}
use sdkwork_sandbox.Session.Model.{Session}
use sdkwork_sandbox.Session.Error.{RepositoryResult}
use sdkwork_sandbox.Session.Persisted.{validate_persisted_invariants}
use sdkwork_sandbox.Session.Lease.{SessionLease, lease_new, fencing_token_new}
use sdkwork_sandbox.Memory.Keys.{find, is_stored, find-store_self}
use sdkwork_sandbox.Memory.Defs.{MemoryLease, RepositoryState, empty}
use sdkwork_sandbox.Memory.Leases.{
  Clock, acquire_lease, acquire_entry, session_lease, some_of, write_expiry, extended, taken,
  is_unexpired, is_held, duration_is_valid, put_lease,
}
use sdkwork_sandbox.Memory.Saves.{save_session, save_admission}
use sdkwork_sandbox.Memory.Command.{Command, run}
use sdkwork_sandbox.Memory.Fencing.{token_of, run-Follows, acquire-Follows, empty-Leased}

-- The lease that a caller is given has the token of the entry.
given_token :
    (tenant session : Text) (l : MemoryLease) (a : SessionLease)
    → some_of (session_lease tenant session l) ≡ ok (some a)
    → a.fencing_token ≡ l.fencing_token
unfolding session_lease lease_new fencing_token_new
given_token tenant session l a h = elim (Option-cases l.lease_owner_id) [
  | inl e ↦ absurd (ground (arith, h, e))
  | inr (owner, e) ↦ elim (Option-cases l.expires_at_unix_millis) [
    | inl f ↦ absurd (elim (Option-cases (fencing_token_new l.fencing_token)) [
      | inl g ↦ ground (arith, h, e, f, g)
      | inr (n, g) ↦ ground (arith, h, e, f, g)
    ])
    | inr (expires, f) ↦
        elim (Bool-cases (l.fencing_token == 0 || not (leb l.fencing_token i64_max))) [
          | inl g ↦ absurd (ground (arith, h, e, f, g))
          | inr g ↦ elim (Bool-cases (ltb_ℤ (pos 0) (pos expires))) [
            | inl k ↦ ground (arith, h, e, f, g, k)
            | inr k ↦ absurd (ground (arith, h, e, f, g, k))
          ]
        ]
  ]
]

token_put :
    (tenant session : Text) (l : MemoryLease) (m : RepositoryState)
    → token_of tenant session (put_lease tenant session l m) ≡ l.fencing_token
unfolding token_of
token_put tenant session l m = rw (find-store_self tenant session l m.leases) refl

token_is :
    (tenant session : Text) (l : MemoryLease) (m : RepositoryState)
    → find tenant session m.leases ≡ some l
    → token_of tenant session m ≡ l.fencing_token
unfolding token_of
token_is tenant session l m e = rw e refl

abbrev Raises :
    Text
    → Text
    → RepositoryState
    → RepositoryState × RepositoryResult (Option SessionLease)
    → Type 0
Raises tenant session m x =
    (a : SessionLease)
    → x.1 ≡ ok (some a)
    → (a.fencing_token ≡ token_of tenant session m + 1)
      × (token_of tenant session x.0 ≡ token_of tenant session m + 1)

write-Raises :
    (now : Clock) (duration : ℕ) (tenant session : Text) (l : MemoryLease) (m : RepositoryState)
    → l.fencing_token ≡ token_of tenant session m + 1
    → Raises tenant session m (write_expiry now duration tenant session l m)
unfolding write_expiry
write-Raises now duration tenant session l m e =
    elim (Bool-cases (leb (now.unix_millis + duration) i64_max)) [
      | inr k ↦ rw (k, write_expiry) (λ a h. absurd (cc h))
      | inl k ↦
          rw (k, write_expiry)
            (λ a h. (
              given_token tenant session (extended now duration l) a h ∙ e,
              token_put tenant session (extended now duration l) m ∙ e,
            ))
    ]

-- An acquisition that gives a lease gives it the next token.
acquire-Raises :
    (now : Clock) (tenant session owner : Text) (duration : ℕ) (m : RepositoryState)
    → Raises tenant session m (acquire_lease now tenant session owner duration m)
unfolding acquire_lease
acquire-Raises now tenant session owner duration m =
    elim (Bool-cases (duration_is_valid duration)) [
      | inr d ↦ rw d (λ a h. absurd (cc h))
      | inl d ↦ elim (Bool-cases (is_stored tenant session m.sessions)) [
        | inr k ↦ rw (d, k) (λ a h. absurd (cc h))
        | inl k ↦ rw (d, k) (entry (find tenant session m.leases) refl)
      ]
    ]
  where
    entry :
        (o : Option MemoryLease)
        → find tenant session m.leases ≡ o
        → Raises tenant session m (acquire_entry now duration tenant session owner o m)
    entry none e = λ a h. absurd (cc h)
    entry (some l) e = elim (Bool-cases (is_unexpired l.expires_at now.instant)) [
      | inl u ↦ rw u (λ a h. absurd (cc h))
      | inr u ↦ elim (Bool-cases (leb (l.fencing_token + 1) i64_max)) [
        | inr top ↦ rw (u, top) (λ a h. absurd (cc h))
        | inl top ↦
            rw (u, top)
              (write-Raises now duration tenant session (taken owner l) m
                (ap (λ n. n + 1) (sym (token_is tenant session l m e))))
      ]
    ]

-- A save by a lease whose token is not the repository's is refused, and changes nothing.
stale_save :
    (now : ℕ) (x : Session) (expected : ℕ) (a : SessionLease) (m : RepositoryState)
    → a.fencing_token < token_of x.tenant_id x.session_id m
    → ((save_session now x expected a m).0 ≡ m)
      × (is_ok (save_session now x expected a m).1 ≡ false)
unfolding save_session
stale_save now x expected a m h = elim (Result-cases (save_admission now x expected a m)) [
  | inr (e, r) ↦ rw (r, save_session) (refl, refl)
  | inl (_, r) ↦ absurd (refused r)
]
  where
    refused : save_admission now x expected a m ≡ ok tt → ⊥
    refused r = elim (Result-cases (validate_persisted_invariants x)) [
      | inr (_, v) ↦ ground (arith, r, v)
      | inl (_, v) ↦ elim (Option-cases (find x.tenant_id x.session_id m.sessions)) [
        | inl e ↦ ground (arith, r, v, e)
        | inr (s, e) ↦ elim (Option-cases (find x.tenant_id x.session_id m.leases)) [
          | inl f ↦ ground (arith, r, v, e, f)
          | inr (l, f) ↦ elim (Bool-cases (is_held a l now)) [
            | inr k ↦ ground (arith, r, v, e, f, k)
            | inl k ↦ ground (arith, k, h, token_is x.tenant_id x.session_id l m f)
          ]
        ]
      ]
    ]

-- Between two acquisitions of a session that each give a lease, whatever calls are made, the second
-- lease has the greater token.
pub later_lease_is_newer :
    (cs ds : List (Clock × Command)) (first second : Clock) (t s o p : Text) (d d' : ℕ)
    (a b : SessionLease)
    → (acquire_lease first t s o d (run cs empty)).1 ≡ ok (some a)
    → (acquire_lease second t s p d' (run ds (acquire_lease first t s o d (run cs empty)).0)).1
      ≡ ok (some b)
    → a.fencing_token < b.fencing_token
later_lease_is_newer cs ds first second t s o p d d' a b h k =
    let m = run cs empty in
    let leased = (run-Follows cs empty empty-Leased).0 in
    let n = (acquire_lease first t s o d m).0 in
    let grown = (run-Follows ds n (acquire-Follows first t s o d m leased).0).1 t s in
    let one = acquire-Raises first t s o d m a h in
    let two = acquire-Raises second t s p d' (run ds n) b k in
    omega (arith, one.0, one.1, two.0, grown)

-- When another acquisition of the session has given a lease, a save by the earlier lease is refused
-- and changes nothing, whatever calls are made before, between and after, and however long the
-- earlier lease was to last.
pub superseded_lease_cannot_save :
    (cs ds es : List (Clock × Command)) (first second : Clock) (now : ℕ) (o p : Text) (d d' : ℕ)
    (a b : SessionLease) (x : Session) (expected : ℕ)
    → (acquire_lease first x.tenant_id x.session_id o d (run cs empty)).1 ≡ ok (some a)
    → (acquire_lease second x.tenant_id x.session_id p d'
        (run ds (acquire_lease first x.tenant_id x.session_id o d (run cs empty)).0)).1
      ≡ ok (some b)
    → (last : RepositoryState)
    → last
      ≡ run es
          (acquire_lease second x.tenant_id x.session_id p d'
            (run ds (acquire_lease first x.tenant_id x.session_id o d (run cs empty)).0)).0
    → ((save_session now x expected a last).0 ≡ last)
      × (is_ok (save_session now x expected a last).1 ≡ false)
superseded_lease_cannot_save cs ds es first second now o p d d' a b x expected h k last e =
    let t = x.tenant_id in
    let s = x.session_id in
    let m = run cs empty in
    let leased = (run-Follows cs empty empty-Leased).0 in
    let n = (acquire_lease first t s o d m).0 in
    let later = run-Follows ds n (acquire-Follows first t s o d m leased).0 in
    let u = (acquire_lease second t s p d' (run ds n)).0 in
    let final = (run-Follows es u (acquire-Follows second t s p d' (run ds n) later.0).0).1 t s in
    let one = acquire-Raises first t s o d m a h in
    let two = acquire-Raises second t s p d' (run ds n) b k in
    let newer = later_lease_is_newer cs ds first second t s o p d d' a b h k in
    stale_save now x expected a last (
      subst (λ z. a.fencing_token < token_of t s z) (sym e)
        (omega (arith, newer, two.0, two.1, final)))
