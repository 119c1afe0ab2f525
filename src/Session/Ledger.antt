-- ===== src/Session/Ledger.antt =====
-- service/src/model.rs: the ledger of a session's operations.
use sdkwork_sandbox.Base.{
  ℕ, zero, suc, Bool, Option, none, some, List, [], ◌∷◌, Text, text_eq, if◌then◌else◌,
}
use sdkwork_sandbox.Session.Kinds.{OperationKind, OperationOutcome}

pub record Operation : Type 0 where
  pub operation_id : Text
  pub operation_kind : OperationKind
  pub operation_outcome : OperationOutcome

-- `iter().find(|operation| operation.id == id)`.
unfoldable pub find_operation : Text → List Operation → Option Operation
find_operation id [] = none
find_operation id (o ∷ os) = if text_eq o.operation_id id then some o else find_operation id os

-- `iter_mut().find(..)`, and the outcome of what was found set.
unfoldable pub set_outcome : Text → OperationOutcome → List Operation → List Operation
set_outcome id outcome [] = []
set_outcome id outcome (o ∷ os) =
    if text_eq o.operation_id id
    then record o { operation_outcome = outcome } ∷ os
    else o ∷ set_outcome id outcome os

-- `last()`.
unfoldable pub last_operation : List Operation → Option Operation
last_operation [] = none
last_operation (o ∷ []) = some o
last_operation (o ∷ p ∷ os) = last_operation (p ∷ os)

abbrev pub outcome_of : Option Operation → Option OperationOutcome
outcome_of none = none
outcome_of (some o) = some o.operation_outcome

-- `iter().rev().find(p)`.
unfoldable pub find_last : (Operation → Bool) → List Operation → Option Operation
find_last p [] = none
find_last p (o ∷ os) = elim (find_last p os) [
  | some q ↦ some q
  | none ↦ if p o then some o else none
]

-- The slice from an index on.
unfoldable pub drop : ℕ → List Operation → List Operation
drop zero os = os
drop (suc n) [] = []
drop (suc n) (o ∷ os) = drop n os
