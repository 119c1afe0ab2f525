-- ===== src/Service/Ensures.antt =====
-- What a method of the service keeps of the world, and what it ensures of its result.
use sdkwork_sandbox.Base.{◌≡◌, refl, Option, none, some, ok, err, and_then}
use sdkwork_sandbox.Session.Error.{LifecycleError, LifecycleResult}
use sdkwork_sandbox.Service.Action.{Action, pure, raise, lift, or_raise, ◌>>=◌}

abbrev pub Holds : {A : Type 0} → (A → Type 0) → LifecycleResult A → Type 0
Holds Q (ok a) = Q a
Holds Q (err e) = Unit

-- Nothing is claimed of the result.
pub Holds-any : {A : Type 0} (r : LifecycleResult A) → Holds (λ _. Unit) r
Holds-any (ok a) = tt
Holds-any (err e) = tt

module _ {W : Type 0} (I : W → Type 0) where
  -- A world and a result that a call may leave.
  abbrev pub Leaves : {A : Type 0} → (A → Type 0) → W × LifecycleResult A → Type 0
  Leaves Q x = I x.0 × Holds Q x.1

  abbrev pub Ensures : {A : Type 0} → (A → Type 0) → Action W A → Type 0
  Ensures Q m = (w : W) → I w → Leaves Q (m w)

  pub pure-Ensures : {A : Type 0} (Q : A → Type 0) (a : A) → Q a → Ensures Q (pure a)
  pure-Ensures Q a q w i = (i, q)

  pub raise-Ensures : {A : Type 0} (Q : A → Type 0) (e : LifecycleError) → Ensures Q (raise e)
  raise-Ensures Q e w i = (i, tt)

  -- A result that is there is known by its equation.
  pub lift-Ensures : {A : Type 0} (r : LifecycleResult A) → Ensures (λ a. r ≡ ok a) (lift r)
  lift-Ensures (ok a) w i = (i, refl)
  lift-Ensures (err e) w i = (i, tt)

  pub or_raise-Ensures :
      {A : Type 0} (o : Option A) (e : LifecycleError) → Ensures (λ a. o ≡ some a) (or_raise o e)
  or_raise-Ensures none e w i = (i, tt)
  or_raise-Ensures (some a) e w i = (i, refl)

  pub and_then-Leaves :
      {A B : Type 0} (Q : A → Type 0) (R : B → Type 0) (x : W × LifecycleResult A)
      (f : A → Action W B)
      → Leaves Q x
      → ((a : A) → Q a → Ensures R (f a))
      → Leaves R (and_then x f)
  and_then-Leaves Q R (w, ok a) f l k = k a l.1 w l.0
  and_then-Leaves Q R (w, err e) f l k = (l.0, tt)

  pub bind-Ensures :
      {A B : Type 0} (Q : A → Type 0) (R : B → Type 0) (m : Action W A) (f : A → Action W B)
      → Ensures Q m
      → ((a : A) → Q a → Ensures R (f a))
      → Ensures R (m >>= f)
  bind-Ensures Q R m f h k w i = and_then-Leaves Q R (m w) f (h w i) k

  pub map-Leaves :
      {A : Type 0} (Q R : A → Type 0) (x : W × LifecycleResult A)
      → ((a : A) → Q a → R a)
      → Leaves Q x
      → Leaves R x
  map-Leaves Q R (w, ok a) f l = (l.0, f a l.1)
  map-Leaves Q R (w, err e) f l = (l.0, tt)
