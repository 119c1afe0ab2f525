-- ===== src/Base/Maps/Sorted.antt =====
-- The keys of a map stand in their order, so a write to a key that is there adds no entry.
use Prim.Native.Nat.{suc, Ordering}
use mathlib.Core.Path.{◌≡◌, refl, ap}
use mathlib.Core.Logic.{inl, inr}
use mathlib.Core.Option.{none, some}
use mathlib.Core.List.{[], ◌∷◌}
use native.Mathlib.Omega.{arith}
use sdkwork_sandbox.Base.Tests.{Bool-cases}
use sdkwork_sandbox.Base.Lists.{length, All}
use sdkwork_sandbox.Base.Bytes.{
  Text, text_eq, text_compare, text_eq_iff, eq-of_text_compare, text_compare_self,
}
use sdkwork_sandbox.Base.Maps.Defs.{Map, get, insert, compare-cases, not_gt_of_eq}

pub text_compare_trans :
    (a b c : Text)
    → text_compare a b ≡ Ordering.lt
    → text_compare b c ≡ Ordering.lt
    → text_compare a c ≡ Ordering.lt
unfolding text_compare
text_compare_trans [] [] c h k = cc
text_compare_trans [] (b ∷ bs) [] h k = cc
text_compare_trans [] (b ∷ bs) (c ∷ cs) h k = refl
text_compare_trans (a ∷ as') [] c h k = cc
text_compare_trans (a ∷ as') (b ∷ bs) [] h k = cc
text_compare_trans (a ∷ as') (b ∷ bs) (c ∷ cs) h k = ground (arith, text_compare_trans as' bs cs)

pub text_compare_flip :
    (a b : Text) → text_compare a b ≡ Ordering.gt → text_compare b a ≡ Ordering.lt
unfolding text_compare
text_compare_flip [] [] h = cc
text_compare_flip [] (b ∷ bs) h = cc
text_compare_flip (a ∷ as') [] h = refl
text_compare_flip (a ∷ as') (b ∷ bs) h = ground (arith, text_compare_flip as' bs)

module _ {ℓ} {V : Type ℓ} where
  abbrev pub Above : Text → Map V → Type 0
  Above k = All (λ e. text_compare k e.0 ≡ Ordering.lt)

  abbrev pub IsSorted : Map V → Type 0
  IsSorted [] = Unit
  IsSorted ((k, v) ∷ m) = Above k m × IsSorted m

module _ {ℓ} {V : Type ℓ} where
  Above-trans : (j k : Text) (m : Map V) → text_compare j k ≡ Ordering.lt → Above k m → Above j m
  Above-trans j k [] h a = tt
  Above-trans j k ((i, w) ∷ m) h a = (text_compare_trans j k i h a.0, Above-trans j k m h a.1)

  Above-insert :
      (j k : Text) (v : V) (m : Map V)
      → text_compare j k ≡ Ordering.lt
      → Above j m
      → Above j (insert k v m)
  unfolding insert
  Above-insert j k v [] h a = (h, tt)
  Above-insert j k v ((i, w) ∷ m) h a = elim (compare-cases k i) [
    | inl (inl e) ↦ rw (e, insert) (h, a)
    | inl (inr e) ↦ rw (e, insert) (h, a.1)
    | inr e ↦ rw (e, insert) (a.0, Above-insert j k v m h a.1)
  ]

  pub insert-IsSorted : (k : Text) (v : V) (m : Map V) → IsSorted m → IsSorted (insert k v m)
  unfolding insert
  insert-IsSorted k v [] h = (tt, tt)
  insert-IsSorted k v ((i, w) ∷ m) h = elim (compare-cases k i) [
    | inl (inl e) ↦ rw (e, insert) ((e, Above-trans k i m e h.0), h)
    | inl (inr e) ↦ rw (e, insert) (let p = eq-of_text_compare k i e in rw p h)
    | inr e ↦
        rw (e, insert)
          (Above-insert i k v m (text_compare_flip k i e) h.0, insert-IsSorted k v m h.1)
  ]

  get-Above : (k : Text) (m : Map V) → Above k m → get k m ≡ none
  unfolding get
  get-Above k [] a = refl
  get-Above k ((i, w) ∷ m) a = elim (Bool-cases (text_eq i k)) [
    | inl e ↦ absurd (lt_irrefl i k ((text_eq_iff i k).0 e) a.0)
    | inr e ↦ rw (e, get) (get-Above k m a.1)
  ]
    where
      lt_irrefl : (a b : Text) → a ≡ b → text_compare b a ≡ Ordering.lt → ⊥
      lt_irrefl a b e h = cc (text_compare_self a)

  pub length-insert_present :
      (k : Text) (v u : V) (m : Map V)
      → IsSorted m
      → get k m ≡ some u
      → length (insert k v m) ≡ length m
  unfolding get insert
  length-insert_present k v u [] h g = cc
  length-insert_present k v u ((i, w) ∷ m) h g = elim (compare-cases k i) [
    | inl (inl e) ↦ absurd (never (get-Above k ((i, w) ∷ m) (e, Above-trans k i m e h.0)))
    | inl (inr e) ↦ rw (e, insert) refl
    | inr e ↦
        rw (e, insert)
          (ap suc (
            length-insert_present k v u m h.1
              (ground (arith, text_eq_iff i k, not_gt_of_eq k i e))))
  ]
    where
      never : get k ((i, w) ∷ m) ≡ none → ⊥
      never p = cc
