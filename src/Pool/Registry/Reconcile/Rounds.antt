-- ===== src/Pool/Registry/Reconcile/Rounds.antt =====
-- The rounds over the tenants end before their fuel does.
use sdkwork_sandbox.Base.{
  ℕ, zero, suc, ◌+◌, ◌≤◌, ◌≡◌, refl, ap, inl, inr, none, List, [], ◌∷◌, ◌++◌, length, get_elem?,
  length-append, All, Text, Map, text_compare, Ordering, get, insert, values, Bool-cases, arith,
  text_eq,
}
use sdkwork_sandbox.Pool.Records.{PoolClaim}
use sdkwork_sandbox.Pool.Registry.Defs.{Registry}
use sdkwork_sandbox.Pool.Registry.Reconcile.{
  Candidates, round_at, rounds, group_of, grouped, is_expired, expired_by_tenant,
  reconcile_candidates, stuck_slots,
}

-- Every group has at most so many entries.
abbrev Within : ℕ → List (List Text) → Type 0
Within n groups = All (λ g. length g ≤ n) groups

Within-mono : (n k : ℕ) (groups : List (List Text)) → n ≤ k → Within n groups → Within k groups
Within-mono n k [] p h = tt
Within-mono n k (g ∷ groups) p (h, rest) = (omega arith, Within-mono n k groups p rest)

past_the_end : (g : List Text) (k : ℕ) → length g ≤ k → get_elem? g k ≡ none
past_the_end [] k h = refl
past_the_end (x ∷ g) zero h = absurd (omega arith)
past_the_end (x ∷ g) (suc k) h = past_the_end g k (omega arith)

round_past : (k : ℕ) (groups : List (List Text)) → Within k groups → round_at k groups ≡ []
unfolding round_at
round_past k [] h = refl
round_past k (g ∷ groups) (h, rest) = rw (past_the_end g k h, round_at) (round_past k groups rest)

rounds_step :
    (f g k : ℕ) (groups : List (List Text))
    → rounds f (suc k) groups ≡ rounds g (suc k) groups
    → rounds (suc f) k groups ≡ rounds (suc g) k groups
unfolding rounds
rounds_step f g k groups e =
    ap
      (λ after. elim (round_at k groups) as (λ _. Candidates) [
        | [] ↦ []
        | candidate ∷ more ↦ candidate ∷ more ++ after
      ])
      e

rounds_end :
    (fuel extra k : ℕ) (groups : List (List Text))
    → Within (k + fuel) groups
    → rounds (suc (fuel + extra)) k groups ≡ rounds (suc fuel) k groups
unfolding rounds
rounds_end zero extra k groups h =
    let none_left = round_past k groups (Within-mono (k + 0) k groups (omega arith) h) in
    rw (none_left, rounds) refl
rounds_end (suc fuel) extra k groups h =
    let one_more : suc fuel + extra ≡ suc (fuel + extra) = omega arith in
    let later = Within-mono (k + suc fuel) (suc k + fuel) groups (omega arith) h in
    rw (one_more) (
      rounds_step (suc (fuel + extra)) (suc fuel) k groups
        (rounds_end fuel extra (suc k) groups later))

Within-get :
    (n : ℕ) (tenant : Text) (m : Map (List Text))
    → Within n (values m)
    → length (group_of tenant m) ≤ n
unfolding get
Within-get n tenant [] h = omega arith
Within-get n tenant ((j, g) ∷ m) (h, rest) = elim (Bool-cases (text_eq j tenant)) [
  | inl t ↦ let e : group_of tenant ((j, g) ∷ m) ≡ g = rw (t, get, group_of) refl in rw (e) h
  | inr f ↦
      let e : group_of tenant ((j, g) ∷ m) ≡ group_of tenant m = rw (f, get, group_of) refl in
      rw (e) (Within-get n tenant m rest)
]

Within-insert :
    (n : ℕ) (tenant : Text) (g : List Text) (m : Map (List Text))
    → length g ≤ n
    → Within n (values m)
    → Within n (values (insert tenant g m))
unfolding insert
Within-insert n tenant g [] p h = (p, tt)
Within-insert n tenant g ((j, w) ∷ m) p (h, rest) =
    elim (text_compare tenant j)
      as (λ o. Within n (
        values (elim o [
          | Ordering.lt ↦ (tenant, g) ∷ (j, w) ∷ m
          | Ordering.eq ↦ (tenant, g) ∷ m
          | Ordering.gt ↦ (j, w) ∷ insert tenant g m
        ]))) [
          | Ordering.lt ↦ (p, (h, rest))
          | Ordering.eq ↦ (p, rest)
          | Ordering.gt ↦ (h, Within-insert n tenant g m p rest)
        ]

Within-grouped :
    (now n : ℕ) (c : PoolClaim) (m : Map (List Text))
    → Within n (values m)
    → Within (suc n) (values (grouped now c m))
Within-grouped now n c m h = elim (Bool-cases (is_expired now c)) [
  | inr f ↦ rw (f) (Within-mono n (suc n) (values m) (omega arith) h)
  | inl t ↦
      let old = Within-get n c.tenant_id m h in
      rw (t) (
        Within-insert (suc n) c.tenant_id (group_of c.tenant_id m ++ c.pool_slot_id ∷ []) m
          (omega (arith, old, length-append (group_of c.tenant_id m) (c.pool_slot_id ∷ [])))
          (Within-mono n (suc n) (values m) (omega arith) h))
]

Within-expired :
    (now n : ℕ) (cs : List PoolClaim) (m : Map (List Text))
    → Within n (values m)
    → Within (n + length cs) (values (expired_by_tenant now cs m))
unfolding expired_by_tenant
Within-expired now n [] m h = Within-mono n (n + 0) (values m) (omega arith) h
Within-expired now n (c ∷ cs) m h =
    Within-mono (suc n + length cs) (n + suc (length cs)) _ (omega arith)
      (Within-expired now (suc n) cs (grouped now c m) (Within-grouped now n c m h))

length-values : (m : Map PoolClaim) → length (values m) ≡ length m
length-values [] = refl
length-values ((k, c) ∷ m) = omega (arith, length-values m)

-- More fuel than the candidates are computed with changes nothing: the rounds stop by themselves, at
-- the first one that makes no progress, as the loop does.
pub rounds_stop_by_themselves :
    (now extra : ℕ) (s : Registry)
    → rounds (suc (length s.claims + extra)) 0 (values (expired_by_tenant now (values s.claims) []))
        ++ stuck_slots now (values s.slots)
      ≡ reconcile_candidates now s
unfolding reconcile_candidates
rounds_stop_by_themselves now extra s =
    let groups = values (expired_by_tenant now (values s.claims) []) in
    let within =
      Within-mono (0 + length (values s.claims)) (0 + length s.claims) groups
        (omega (arith, length-values s.claims)) (Within-expired now 0 (values s.claims) [] tt) in
    ap (λ rs. rs ++ stuck_slots now (values s.slots))
      (rounds_end (length s.claims) extra 0 groups within)
