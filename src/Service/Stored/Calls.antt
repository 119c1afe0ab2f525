-- ===== src/Service/Stored/Calls.antt =====
-- The shared calls of the service, under an invariant of the world.
use sdkwork_sandbox.Base.{
  ◌∙◌, arith, ap, ◌≡◌, refl, subst, inl, inr, Bool, true, false, Option, none, some, List, [], ◌∷◌,
  Text, ok, err, Bool-cases, text_eq, All,
}
use sdkwork_sandbox.Provider.Error.{ProviderError, ProviderOperation, ProviderResult}
use sdkwork_sandbox.Provider.Descriptor.{satisfies_requirements, is_ready, ProviderHealthStatus}
use sdkwork_sandbox.Provider.Requests.{Provider}
use sdkwork_sandbox.Session.Kinds.{OperationKind, SessionState, SessionFailure, failed, failed_with}
use sdkwork_sandbox.Session.Error.{
  LifecycleResult, RepositoryResult, lease_conflict, session_not_found, invariant_violation,
  unregistered_provider,
}
use sdkwork_sandbox.Session.Model.{
  RuntimeBinding, mark_operations_persisted, Session, next_version, transition, fail_operation,
}
use sdkwork_sandbox.Session.Model.Moves.{next_version_ok}
use sdkwork_sandbox.Session.Persisted.{failure_kind_is_valid}
use sdkwork_sandbox.Session.Persisted.Replay.{awaited_kind}
use sdkwork_sandbox.Session.Persisted.Stored.{IsStored, validate_iff}
use sdkwork_sandbox.Session.Lease.{SessionLease}
use sdkwork_sandbox.Service.Action.{Action, lift, or_raise, from_repository}
use sdkwork_sandbox.Service.Interface.{Service}
use sdkwork_sandbox.Service.Calls.{
  on_answer, taken_if_ready, answered, after_renewal, persisted, is_confirmed, find_provider,
  acquire_lease, release_lease, execute_provider_call, get_session, provider_by_id, persist_session,
  fail_with_provider_error, select_from, select_provider,
}
use sdkwork_sandbox.Service.Ensures.{
  Holds, Leaves, Ensures, lift-Ensures, or_raise-Ensures, bind-Ensures, and_then-Leaves, map-Leaves,
  pure-Ensures,
}
use sdkwork_sandbox.Service.Lawful.{Harmless, Lawful}
use sdkwork_sandbox.Service.Stored.Moves.{Pending, saved, next_version-IsValid, failed-IsStored}

module _ {W : Type 0} (I : W → Type 0) where
  answered-Leaves :
      {A : Type 0} (p : Provider W) (operation : ProviderOperation)
      (x : W × Option (ProviderResult A))
      → I x.0
      → Leaves I (λ _. Unit) (answered p operation x)
  answered-Leaves p operation (w, some r) i = (i, tt)
  answered-Leaves p operation (w, none) i = (i, tt)

  after_renewal-Leaves :
      {A : Type 0} (p : Provider W) (operation : ProviderOperation) (lease : SessionLease)
      (call : W → W × Option (ProviderResult A)) (x : W × RepositoryResult (Option SessionLease))
      → ((w : W) → I w → I (call w).0)
      → I x.0
      → Leaves I (λ _. Unit) (after_renewal p operation lease call x)
  after_renewal-Leaves p operation lease call (w, r) h i =
      elim (Bool-cases (is_confirmed lease r)) [
        | inl e ↦ rw e (answered-Leaves p operation (call w) (h w i))
        | inr e ↦ rw e (i, tt)
      ]

  from_repository-Leaves :
      {A : Type 0} (x : W × RepositoryResult A)
      → I x.0
      → Leaves I (λ a. x.1 ≡ ok a) (from_repository x)
  from_repository-Leaves (w, ok a) i = (i, refl)
  from_repository-Leaves (w, err e) i = (i, tt)

  persisted-Leaves :
      (Q : Session → Type 0) (s : Session) (x : W × RepositoryResult (Unit {0}))
      → Q (mark_operations_persisted s)
      → I x.0
      → Leaves I Q (persisted s x)
  persisted-Leaves Q s (w, ok _) q i = (i, q)
  persisted-Leaves Q s (w, err lease_conflict) q i = (i, tt)
  persisted-Leaves Q s (w, err _) q i = (i, tt)

  pub on_answer-Ensures :
      {A B : Type 0} (R : B → Type 0) (r : ProviderResult A) (f : ProviderError → Action W B)
      (g : A → Action W B)
      → ((e : ProviderError) → Ensures I R (f e))
      → ((a : A) → Ensures I R (g a))
      → Ensures I R (on_answer r f g)
  on_answer-Ensures R (err e) f g h k = h e
  on_answer-Ensures R (ok a) f g h k = k a

-- What every provider has, a provider that is found has.
pub find_provider-All :
    {W : Type 0} (P : Provider W → Type 0) (id : Text) (ps : List (Provider W)) (p : Provider W)
    → All P ps
    → find_provider id ps ≡ some p
    → P p
find_provider-All P id [] p h e = absurd (cc)
find_provider-All P id (q ∷ ps) p h e = elim (Bool-cases (text_eq q.descriptor.provider_id id)) [
  | inl t ↦ subst P (ground (arith, t, e)) h.0
  | inr t ↦ find_provider-All P id ps p h.1 (ground (arith, t, e))
]

module _ {W : Type 0} (I : W → Type 0) (sv : Service W) (law : Lawful I sv) where
  pub execute-Ensures :
      {A : Type 0} (p : Provider W) (operation : ProviderOperation) (lease : SessionLease)
      (call : W → W × Option (ProviderResult A))
      → ((w : W) → I w → I (call w).0)
      → Ensures I (λ _. Unit) (execute_provider_call sv p operation lease call)
  unfolding execute_provider_call
  execute-Ensures p operation lease call h w i =
      after_renewal-Leaves I p operation lease call
        (sv.session_repository.renew_lease lease sv.lease_duration w) h
        (law.repository_lawful.renew_keeps lease sv.lease_duration w i)

  pub persist-Ensures :
      (s : Session) (lease : SessionLease)
      → IsStored s
      → Ensures I (λ t. t ≡ saved s) (persist_session sv s lease)
  unfolding persist_session mark_operations_persisted
  persist-Ensures s lease h =
      bind-Ensures I (λ t. next_version s ≡ ok t) (λ t. t ≡ saved s) (lift (next_version s)) _
        (lift-Ensures I (next_version s))
        (λ t e w i.
          persisted-Leaves I (λ u. u ≡ saved s) t
            (sv.session_repository.save_session t s.version lease w)
            (ap mark_operations_persisted (next_version_ok s t e).0)
            (law.repository_lawful.save_keeps t s.version lease w i (next_version-IsValid s t h e)))

  pub persist-Safe :
      (s : Session) (lease : SessionLease)
      → IsStored s
      → Ensures I (λ _. Unit) (persist_session sv s lease)
  persist-Safe s lease h w i =
      map-Leaves I (λ t. t ≡ saved s) (λ _. Unit) (persist_session sv s lease w) (λ _ _. tt)
        (persist-Ensures s lease h w i)

  -- A failure is stored, and then returned.
  pub fail-Ensures :
      (b : Option RuntimeBinding) (s : Session) (id : Text) (state : SessionState)
      (kind : OperationKind) (failure : SessionFailure) (e : ProviderError) (lease : SessionLease)
      → Pending id state s
      → failure_kind_is_valid (awaited_kind state) (failed_with failure) ≡ true
      → Ensures I
          (λ _. Unit)
          (fail_with_provider_error sv (record s { runtime_binding = b }) id kind failure e lease)
  unfolding fail_with_provider_error
  fail-Ensures b s id state kind failure e lease h v =
      let r = transition failed kind (record s { runtime_binding = b }) in
      bind-Ensures I (λ t. r ≡ ok t) (λ _. Unit) (lift r) _ (lift-Ensures I r)
        (λ t m.
          bind-Ensures I (λ _. Unit) (λ _. Unit)
            (persist_session sv (fail_operation id failure t) lease) _
            (persist-Safe (fail_operation id failure t) lease
              (failed-IsStored id state kind failure b s t h v m))
            (λ u _ w i. (i, tt)))

  pub provider_by_id-Ensures : (id : Text) → Ensures I (Harmless I) (provider_by_id sv id)
  unfolding provider_by_id
  provider_by_id-Ensures id w i =
      map-Leaves I (λ p. find_provider id sv.providers ≡ some p) (Harmless I)
        (or_raise (find_provider id sv.providers) (invariant_violation unregistered_provider) w)
        (λ p e. find_provider-All (Harmless I) id sv.providers p law.providers_harmless e)
        (or_raise-Ensures I (find_provider id sv.providers)
          (invariant_violation unregistered_provider) w i)

  pub get_session-Ensures :
      (tenant session : Text) → Ensures I IsStored (get_session sv tenant session)
  unfolding get_session
  get_session-Ensures tenant session w i =
      let x = sv.session_repository.get_session tenant session w in
      and_then-Leaves I (λ o. x.1 ≡ ok o) IsStored (from_repository x)
        (λ o. or_raise o (session_not_found tenant session))
        (from_repository-Leaves I x (law.repository_lawful.get_keeps tenant session w i))
        (λ o e v j.
          map-Leaves I (λ s. o ≡ some s) IsStored (or_raise o (session_not_found tenant session) v)
            (λ s is.
              ((validate_iff s).0
                (law.repository_lawful.get_reads tenant session w s i (e ∙ ap ok is))).1)
            (or_raise-Ensures I o (session_not_found tenant session) v j))

  taken_if_ready-Ensures :
      (p : Provider W) (others : Action W (Provider W)) (status : ProviderHealthStatus)
      → Harmless I p
      → Ensures I (Harmless I) others
      → Ensures I (Harmless I) (taken_if_ready sv p others status)
  taken_if_ready-Ensures p others status h k = elim (Bool-cases (is_ready status)) [
    | inl r ↦ rw r (pure-Ensures I (Harmless I) p h)
    | inr r ↦ rw r k
  ]

  select_from-Ensures :
      (s : Session) (lease : SessionLease) (found : Bool) (ps : List (Provider W))
      → All (Harmless I) ps
      → Ensures I (Harmless I) (select_from sv s lease found ps)
  unfolding select_from
  select_from-Ensures s lease found [] h = λ w i. (i, tt)
  select_from-Ensures s lease found (p ∷ ps) h =
      elim (Bool-cases
        (satisfies_requirements p.descriptor s.required_capabilities s.minimum_assurance)) [
          | inr e ↦ rw e (select_from-Ensures s lease found ps h.1)
          | inl e ↦ rw e (
              bind-Ensures I (λ _. Unit) (Harmless I)
                (execute_provider_call sv p ProviderOperation.health lease p.health) _
                (execute-Ensures p ProviderOperation.health lease p.health h.0.health_keeps)
                (λ health _.
                  on_answer-Ensures I (Harmless I) health (λ _. select_from sv s lease true ps)
                    (taken_if_ready sv p (select_from sv s lease true ps))
                    (λ _. select_from-Ensures s lease true ps h.1)
                    (λ status.
                      taken_if_ready-Ensures p (select_from sv s lease true ps) status h.0
                        (select_from-Ensures s lease true ps h.1))))
        ]

  pub select_provider-Ensures :
      (s : Session) (lease : SessionLease) → Ensures I (Harmless I) (select_provider sv s lease)
  unfolding select_provider
  select_provider-Ensures s lease =
      select_from-Ensures s lease false sv.providers law.providers_harmless

  -- The lease: an acquisition, and the release after a method.
  pub acquire-Ensures :
      (tenant session : Text) → Ensures I (λ _. Unit) (acquire_lease sv tenant session)
  unfolding acquire_lease
  acquire-Ensures tenant session w i =
      let x =
        sv.session_repository.acquire_lease tenant session sv.lease_owner_id sv.lease_duration w in
      and_then-Leaves I (λ o. x.1 ≡ ok o) (λ _. Unit) (from_repository x) _
        (from_repository-Leaves I x (
          law.repository_lawful.acquire_keeps tenant session sv.lease_owner_id sv.lease_duration w
            i))
        (λ o e v j.
          map-Leaves I (λ l. o ≡ some l) (λ _. Unit) (or_raise o _ v) (λ _ _. tt)
            (or_raise-Ensures I o _ v j))

  pub release-Leaves :
      (lease : SessionLease) (x : W × LifecycleResult Session)
      → Leaves I (λ _. Unit) x
      → Leaves I (λ _. Unit) (release_lease sv lease x)
  unfolding release_lease
  release-Leaves lease (w, r) l = (law.repository_lawful.release_keeps lease w l.0, nothing _)
    where
      nothing : (r : LifecycleResult Session) → Holds (λ _. Unit) r
      nothing (ok s) = tt
      nothing (err e) = tt
