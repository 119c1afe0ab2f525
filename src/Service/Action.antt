-- ===== src/Service/Action.antt =====
-- A method of the service: it moves the world, and it returns a result. What it did to the world
-- before an error stays.
use sdkwork_sandbox.Base.{Option, none, some, ok, err, and_then}
use sdkwork_sandbox.Session.Error.{LifecycleError, repository, LifecycleResult, RepositoryResult}

abbrev pub Action : Type 0 → Type 0 → Type 0
Action W A = W → W × LifecycleResult A

module _ {W A : Type 0} where
  abbrev pub pure : A → Action W A
  pure a w = (w, ok a)

  abbrev pub raise : LifecycleError → Action W A
  raise e w = (w, err e)

  -- A result that needs no call.
  abbrev pub lift : LifecycleResult A → Action W A
  lift r w = (w, r)

  abbrev pub or_raise : Option A → LifecycleError → Action W A
  or_raise none e w = (w, err e)
  or_raise (some a) e w = (w, ok a)

  -- `?` on a result of the repository.
  abbrev pub from_repository : W × RepositoryResult A → W × LifecycleResult A
  from_repository (w, ok a) = (w, ok a)
  from_repository (w, err e) = (w, err (repository e))

infixl 5 ◌>>=◌ ◌>>◌
abbrev pub ◌>>=◌ : {W A B : Type 0} → Action W A → (A → Action W B) → Action W B
◌>>=◌ m f w = and_then (m w) f

abbrev pub ◌>>◌ : {W A B : Type 0} → Action W A → Action W B → Action W B
m >> k = m >>= λ _. k
