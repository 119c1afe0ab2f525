-- ===== src/Base/Maps/Defs.antt =====
-- `BTreeMap<String, V>`: an association list that `insert` keeps in the order of its keys.
use Prim.Native.Nat.{◌+◌, ◌≤◌, Ordering}
use mathlib.Core.Path.{◌≡◌, refl}
use mathlib.Core.Logic.{◌≢◌, ◌⊎◌, inl, inr}
use mathlib.Core.Bool.{Bool, false}
use mathlib.Core.Option.{Option, none, some}
use mathlib.Core.List.{List, [], ◌∷◌}
use native.Mathlib.Omega.{arith}
use sdkwork_sandbox.Base.Tests.{if◌then◌else◌, is_some}
use sdkwork_sandbox.Base.Lists.{length}
use sdkwork_sandbox.Base.Bytes.{
  Text, text_eq, text_compare, text_eq_iff, text_eq_self, eq-of_text_compare, text_compare_self,
}

abbrev pub Map {ℓ} : Type ℓ → Type ℓ
Map V = List (Text × V)

module _ {ℓ} {V : Type ℓ} where
  unfoldable pub get : Text → Map V → Option V
  get k [] = none
  get k ((j, v) ∷ m) = if text_eq j k then some v else get k m

  unfoldable pub insert : Text → V → Map V → Map V
  unfolding text_compare
  insert k v [] = (k, v) ∷ []
  insert k v ((j, w) ∷ m) = elim (text_compare k j) [
    | Ordering.lt ↦ (k, v) ∷ (j, w) ∷ m
    | Ordering.eq ↦ (k, v) ∷ m
    | Ordering.gt ↦ (j, w) ∷ insert k v m
  ]

  unfoldable pub remove : Text → Map V → Map V
  remove k [] = []
  remove k ((j, v) ∷ m) = if text_eq j k then remove k m else (j, v) ∷ remove k m

  abbrev pub values : Map V → List V
  values [] = []
  values ((j, v) ∷ m) = v ∷ values m

  abbrev pub contains_key : Text → Map V → Bool
  contains_key k m = is_some (get k m)

pub compare-cases :
    (a b : Text)
    → ((text_compare a b ≡ Ordering.lt) ⊎ (text_compare a b ≡ Ordering.eq))
      ⊎ (text_compare a b ≡ Ordering.gt)
compare-cases a b = of (text_compare a b)
  where
    of : (o : Ordering) → ((o ≡ Ordering.lt) ⊎ (o ≡ Ordering.eq)) ⊎ (o ≡ Ordering.gt)
    of Ordering.lt = inl (inl refl)
    of Ordering.eq = inl (inr refl)
    of Ordering.gt = inr refl

pub not_gt_of_eq : (a b : Text) → text_compare a b ≡ Ordering.gt → a ≢ b
not_gt_of_eq a b h e = cc (text_compare_self a)

module _ {ℓ} {V : Type ℓ} where
  pub get-insert :
      (j k : Text) (v : V) (m : Map V)
      → get j (insert k v m) ≡ (if text_eq k j then some v else get j m)
  unfolding get insert
  get-insert j k v [] = refl
  get-insert j k v ((i, w) ∷ m) = elim (compare-cases k i) [
    | inl (inl e) ↦ rw (e, insert) refl
    | inl (inr e) ↦
        rw (e, insert) (ground (arith, eq-of_text_compare k i e, text_eq_iff k j, text_eq_iff i j))
    | inr e ↦
        rw (e, insert)
          (ground (arith, not_gt_of_eq k i e, text_eq_iff k j, text_eq_iff i j, get-insert j k v m))
  ]

  pub get-remove :
      (j k : Text) (m : Map V) → get j (remove k m) ≡ (if text_eq k j then none else get j m)
  unfolding get remove
  get-remove j k [] = ground arith
  get-remove j k ((i, w) ∷ m) =
      ground (arith, text_eq_iff i k, text_eq_iff k j, text_eq_iff i j, get-remove j k m)

  pub get-insert_self : (k : Text) (v : V) (m : Map V) → get k (insert k v m) ≡ some v
  get-insert_self k v m = ground (arith, get-insert k k v m, text_eq_self k)

  pub get-remove_self : (k : Text) (m : Map V) → get k (remove k m) ≡ none
  get-remove_self k m = ground (arith, get-remove k k m, text_eq_self k)

  pub length-insert-le : (k : Text) (v : V) (m : Map V) → length (insert k v m) ≤ length m + 1
  unfolding insert
  length-insert-le k v [] = omega arith
  length-insert-le k v ((i, w) ∷ m) = ground (arith, length-insert-le k v m)

  -- A write under a key that is there already adds no entry, in a map whose keys are in order.
  pub length-le-insert : (k : Text) (v : V) (m : Map V) → length m ≤ length (insert k v m)
  unfolding insert
  length-le-insert k v [] = omega arith
  length-le-insert k v ((i, w) ∷ m) = ground (arith, length-le-insert k v m)

  -- What a key holds after a write: the value written, or what it held before.
  pub insert_cases :
      (j k : Text) (v w : V) (m : Map V)
      → get j (insert k v m) ≡ some w
      → ((j ≡ k) × (w ≡ v)) ⊎ ((text_eq k j ≡ false) × (get j m ≡ some w))
  insert_cases j k v w m h = ground (arith, get-insert j k v m, text_eq_iff k j)

  pub get-insert_other :
      (j k : Text) (v : V) (m : Map V) → text_eq k j ≡ false → get j (insert k v m) ≡ get j m
  get-insert_other j k v m h = ground (arith, get-insert j k v m)

  -- What a key holds after a removal, it held before, and it is another key.
  pub remove_cases :
      (j k : Text) (w : V) (m : Map V)
      → get j (remove k m) ≡ some w
      → (text_eq k j ≡ false) × (get j m ≡ some w)
  remove_cases j k w m h = ground (arith, get-remove j k m)

  pub get-remove_other :
      (j k : Text) (m : Map V) → text_eq k j ≡ false → get j (remove k m) ≡ get j m
  get-remove_other j k m h = ground (arith, get-remove j k m)
