-- ===== src/Session/Model/Delta.antt =====
-- A save that writes a window of the ledger leaves in the store what a save of the whole ledger would.
use sdkwork_sandbox.Base.{
  ◌∙◌, ℕ, zero, suc, ◌-◌, ◌≤◌, min, ◌==◌, ◌≡◌, refl, sym, ap, subst, inl, inr, ◌⊎◌, true, Option,
  none, some, List, [], ◌∷◌, length, Bool-cases, arith,
}
use sdkwork_sandbox.Session.Kinds.{OperationOutcome, outcome_eq}
use sdkwork_sandbox.Session.Ledger.{Operation, last_operation, outcome_of, drop}
use sdkwork_sandbox.Session.Model.{Session, operations_to_persist, window_start, is_recorded}

-- The rows of a session by their sequence numbers, after a window is written from one of them on.
unfoldable pub write_from : ℕ → List Operation → List Operation → List Operation
write_from zero [] rows = rows
write_from zero (w ∷ ws) [] = w ∷ ws
write_from zero (w ∷ ws) (r ∷ rows) = w ∷ write_from zero ws rows
write_from (suc n) ws [] = []
write_from (suc n) ws (r ∷ rows) = r ∷ write_from n ws rows

-- The ledger is the rows with entries appended, or the rows with another outcome of the last.
abbrev pub Extends : List Operation → List Operation → Type 0
Extends [] ops = Unit
Extends (r ∷ rows) [] = ⊥
Extends (r ∷ []) (o ∷ []) =
    (r.operation_id ≡ o.operation_id) × (r.operation_kind ≡ o.operation_kind)
Extends (r ∷ []) (o ∷ p ∷ ops) = r ≡ o
Extends (r ∷ q ∷ rows) (o ∷ ops) = (r ≡ o) × Extends (q ∷ rows) ops

-- The session knows how many rows the store has, and the outcome of the last.
abbrev pub Recorded : List Operation → Session → Type 0
Recorded rows s =
    (s.persisted_operation_count ≡ length rows)
    × (s.persisted_last_operation_outcome ≡ outcome_of (last_operation rows))

write_all : (ws : List Operation) → write_from zero ws [] ≡ ws
unfolding write_from
write_all [] = refl
write_all (w ∷ ws) = refl

-- More entries than rows: the window is what follows the rows.
append_window :
    (rows ops : List Operation)
    → Extends rows ops
    → suc (length rows) ≤ length ops
    → write_from (length rows) (drop (length rows) ops) rows ≡ ops
unfolding write_from drop
append_window [] ops e l = write_all ops
append_window (r ∷ rows) [] e l = absurd (e)
append_window (r ∷ []) (o ∷ []) e l = absurd (omega arith)
append_window (r ∷ []) (o ∷ p ∷ ops) e l = ap (λ x. x ∷ p ∷ ops) e
append_window (r ∷ q ∷ rows) (o ∷ ops) (e, es) l =
    let rest = append_window (q ∷ rows) ops es (omega arith) in ground (arith, e, rest)

-- As many entries as rows: the window is the last entry.
last_window :
    (rows ops : List Operation)
    → Extends rows ops
    → length rows ≡ length ops
    → write_from (length ops - 1) (drop (length ops - 1) ops) rows ≡ ops
unfolding write_from drop
last_window [] [] e l = refl
last_window [] (o ∷ ops) e l = absurd (omega arith)
last_window (r ∷ rows) [] e l = absurd (e)
last_window (r ∷ []) (o ∷ []) e l = refl
last_window (r ∷ []) (o ∷ p ∷ ops) e l = absurd (omega arith)
last_window (r ∷ q ∷ rows) (o ∷ []) e l = absurd (omega arith)
last_window (r ∷ q ∷ rows) (o ∷ p ∷ ops) (e, es) l =
    let rest = last_window (q ∷ rows) (p ∷ ops) es (omega arith) in ground (arith, e, rest)

outcome_eq_iff : (a b : OperationOutcome) → outcome_eq a b ≡ true → a ≡ b
outcome_eq_iff a b h = ground arith

-- As many entries as rows, and the last outcome is the recorded one: nothing has changed.
unchanged :
    (rows ops : List Operation)
    → Extends rows ops
    → length rows ≡ length ops
    → outcome_of (last_operation rows) ≡ outcome_of (last_operation ops)
    → rows ≡ ops
unfolding last_operation
unchanged [] [] e l w = refl
unchanged [] (o ∷ ops) e l w = absurd (omega arith)
unchanged (r ∷ rows) [] e l w = absurd (e)
unchanged (r ∷ []) (o ∷ []) e l w = ground (arith, e, w)
unchanged (r ∷ []) (o ∷ p ∷ ops) e l w = absurd (omega arith)
unchanged (r ∷ q ∷ rows) (o ∷ []) e l w = absurd (omega arith)
unchanged (r ∷ q ∷ rows) (o ∷ p ∷ ops) (e, es) l w =
    let rest = unchanged (q ∷ rows) (p ∷ ops) es (omega arith) w in ground (arith, e, rest)

length-drop : (n : ℕ) (ops : List Operation) → length (drop n ops) ≡ length ops - n
unfolding drop
length-drop zero ops = omega arith
length-drop (suc n) [] = omega arith
length-drop (suc n) (o ∷ ops) = omega (arith, length-drop n ops)

drop_all : (ops : List Operation) → drop (length ops) ops ≡ []
unfolding drop
drop_all [] = refl
drop_all (o ∷ ops) = drop_all ops

write_nothing : (rows : List Operation) → write_from (length rows) [] rows ≡ rows
unfolding write_from
write_nothing [] = refl
write_nothing (r ∷ rows) = ap (λ x. r ∷ x) (write_nothing rows)

Extends-le : (rows ops : List Operation) → Extends rows ops → length rows ≤ length ops
Extends-le [] ops e = omega arith
Extends-le (r ∷ rows) [] e = absurd (e)
Extends-le (r ∷ []) (o ∷ ops) e = omega arith
Extends-le (r ∷ q ∷ rows) (o ∷ ops) (e, es) = omega (arith, Extends-le (q ∷ rows) ops es)

-- A window of a ledger, written back where it was taken.
Restores : List Operation → List Operation → ℕ → Type 0
Restores rows ops j = write_from (length ops - length (drop j ops)) (drop j ops) rows ≡ ops

Restores-at :
    (rows ops : List Operation) (j : ℕ)
    → j ≤ length ops
    → write_from j (drop j ops) rows ≡ ops
    → Restores rows ops j
unfolding Restores
Restores-at rows ops j l h =
    subst (λ n. write_from n (drop j ops) rows ≡ ops) (omega (arith, length-drop j ops)) h

Restores-unchanged : (rows ops : List Operation) → rows ≡ ops → Restores rows ops (length ops)
Restores-unchanged rows ops e = Restores-at rows ops (length ops) (omega arith) (
    rw (drop_all ops) (subst (λ x. write_from (length ops) [] x ≡ ops) (sym e) (write_nothing ops)))

no_last : (ops : List Operation) → last_operation ops ≡ none → length ops ≡ 0
unfolding last_operation
no_last [] e = refl
no_last (o ∷ []) e = absurd (cc)
no_last (o ∷ p ∷ ops) e = absurd (omega (arith, no_last (p ∷ ops) e))

empty_rows : (rows ops : List Operation) → Extends rows ops → length ops ≡ 0 → rows ≡ ops
empty_rows [] [] e l = refl
empty_rows [] (o ∷ ops) e l = absurd (omega arith)
empty_rows (r ∷ rows) [] e l = absurd (e)
empty_rows (r ∷ rows) (o ∷ ops) e l = absurd (omega arith)

recorded_outcome :
    (p : Option OperationOutcome) (o : Operation)
    → is_recorded p o ≡ true
    → p ≡ some o.operation_outcome
recorded_outcome none o h = absurd (cc)
recorded_outcome (some w) o h = ap some (outcome_eq_iff w o.operation_outcome h)

-- The three places where a window can begin.
start_cases :
    (s : Session) (rows : List Operation) (o : Option Operation)
    → last_operation s.operations ≡ o
    → Recorded rows s
    → Extends rows s.operations
    → (((window_start s (min s.persisted_operation_count (length s.operations)) o ≡ length rows)
          × (suc (length rows) ≤ length s.operations))
        ⊎ ((window_start s (min s.persisted_operation_count (length s.operations)) o
              ≡ length s.operations - 1)
            × (length rows ≡ length s.operations)))
      ⊎ ((window_start s (min s.persisted_operation_count (length s.operations)) o
            ≡ length s.operations)
          × (rows ≡ s.operations))
start_cases s rows none l (count, recorded) e =
    let n = no_last s.operations l in
    inr (omega (arith, count, n, Extends-le rows s.operations e), empty_rows rows s.operations e n)
start_cases s rows (some o) l (count, recorded) e =
    let bound = Extends-le rows s.operations e in
    elim (Bool-cases (length rows == length s.operations)) [
      | inr ne ↦ inl (inl (ground (arith, count, ne, bound), ground (arith, ne, bound)))
      | inl eq ↦ elim (Bool-cases (is_recorded s.persisted_last_operation_outcome o)) [
        | inr changed ↦ inl (inr (ground (arith, eq, changed, count), ground (arith, eq)))
        | inl same ↦ inr (
          ground (arith, eq, same, count),
          unchanged rows s.operations e (ground (arith, eq))
              (rw l (sym recorded ∙ recorded_outcome s.persisted_last_operation_outcome o same)),
        )
      ]
    ]

-- When the store has the rows that the session has recorded, and the ledger is those rows with
-- entries appended, or with another outcome of the last one, then the window that a save writes, at
-- the sequence number that its length gives it, turns the rows into the whole ledger.
pub save_writes_ledger :
    (s : Session) (rows : List Operation)
    → Recorded rows s
    → Extends rows s.operations
    → write_from
        (length s.operations - length (operations_to_persist s))
        (operations_to_persist s)
        rows
      ≡ s.operations
unfolding operations_to_persist Restores
save_writes_ledger s rows known e =
    elim (start_cases s rows (last_operation s.operations) refl known e) [
      | inl (inl (j, l)) ↦ rw j (
          Restores-at rows s.operations (length rows) (omega arith)
            (append_window rows s.operations e l))
      | inl (inr (j, l)) ↦ rw j (
          Restores-at rows s.operations (length s.operations - 1) (omega arith)
            (last_window rows s.operations e l))
      | inr (j, same) ↦ rw j (Restores-unchanged rows s.operations same)
    ]
