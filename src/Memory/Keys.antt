-- ===== src/Memory/Keys.antt =====
-- Maps under a key of two parts, the first of which is the tenant.
use sdkwork_sandbox.Base.{
  ◌⊎◌, subst, refl, ◌≡◌, ◌&&◌, Option, none, some, [], Text, text_eq, text_eq_iff, Map, get, insert,
  get-insert, if◌then◌else◌, is_some, Bool, arith, Bool-cases, inl, inr, true, text_eq_self,
}

module _ {V : Type 0} where
  abbrev pub under : Option (Map V) → Map V
  under none = []
  under (some m) = m

  unfoldable pub find : Text → Text → Map (Map V) → Option V
  find tenant k m = get k (under (get tenant m))

  unfoldable pub store : Text → Text → V → Map (Map V) → Map (Map V)
  store tenant k v m = insert tenant (insert k v (under (get tenant m))) m

  abbrev pub is_stored : Text → Text → Map (Map V) → Bool
  is_stored tenant k m = is_some (find tenant k m)

  pub find-store :
      (t u j k : Text) (v : V) (m : Map (Map V))
      → find t j (store u k v m) ≡ (if text_eq u t && text_eq k j then some v else find t j m)
  unfolding find store
  find-store t u j k v m = elim (Bool-cases (text_eq u t)) [
    | inl e ↦
        let same : u ≡ t = (text_eq_iff u t).0 e in
        rw (get-insert t u (insert k v (under (get u m))) m, e, get-insert j k v (under (get u m)))
          (subst
            (λ x.
              (if text_eq k j then some v else get j (under (get u m)))
              ≡ (if text_eq k j then some v else get j (under (get x m))))
            same refl)
    | inr e ↦ rw (get-insert t u (insert k v (under (get u m))) m, e) refl
  ]

  -- What is found after a write: the value written, or what was found before.
  pub store_cases :
      (t u j k : Text) (v : V) (m : Map (Map V))
      → ((u ≡ t) × (k ≡ j) × (find t j (store u k v m) ≡ some v))
        ⊎ (find t j (store u k v m) ≡ find t j m)
  store_cases t u j k v m = elim (Bool-cases (text_eq u t && text_eq k j)) [
    | inl e ↦ inl (
      (text_eq_iff u t).0 (ground (arith, e)),
      (text_eq_iff k j).0 (ground (arith, e)),
      rw (find-store t u j k v m, e) refl,
    )
    | inr e ↦ inr (rw (find-store t u j k v m, e) refl)
  ]

  pub is_stored-store :
      (t u j k : Text) (v : V) (m : Map (Map V))
      → is_stored t j m ≡ true
      → is_stored t j (store u k v m) ≡ true
  is_stored-store t u j k v m h = elim (store_cases t u j k v m) [
    | inl (_, _, e) ↦ rw e refl
    | inr e ↦ rw e h
  ]

  pub is_stored-store_self :
      (t k : Text) (v : V) (m : Map (Map V)) → is_stored t k (store t k v m) ≡ true
  is_stored-store_self t k v m = rw (find-store t t k k v m, text_eq_self t, text_eq_self k) refl

  pub find-store_self : (t k : Text) (v : V) (m : Map (Map V)) → find t k (store t k v m) ≡ some v
  find-store_self t k v m = rw (find-store t t k k v m, text_eq_self t, text_eq_self k) refl
