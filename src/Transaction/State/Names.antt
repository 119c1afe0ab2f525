-- ===== src/Transaction/State/Names.antt =====
-- The contract names of the transaction states: parsing and printing are inverse.
use sdkwork_sandbox.Base.{◌≡◌, refl, some, Text, text, text_eq, text_eq_iff, arith}
use sdkwork_sandbox.Transaction.State.{TransactionState, requested, as_str, parse}

-- Every state is read back from its own contract name.
pub parse-as_str : (s : TransactionState) → parse (as_str s) ≡ some s
unfolding parse as_str text_eq
parse-as_str requested = refl
parse-as_str _ = refl

-- A name is read as a state only if it is, byte for byte, the contract name of that state.
pub as_str-of_parse : (t : Text) (s : TransactionState) → parse t ≡ some s → t ≡ as_str s
unfolding parse as_str
as_str-of_parse t s h = ground (
  arith,
  text_eq_iff t (text "requested"),
  text_eq_iff t (text "admitted"),
  text_eq_iff t (text "capacity_reserved"),
  text_eq_iff t (text "runtime_bound"),
  text_eq_iff t (text "workspace_attaching"),
  text_eq_iff t (text "ready"),
  text_eq_iff t (text "executing"),
  text_eq_iff t (text "checkpointing"),
  text_eq_iff t (text "compensating"),
  text_eq_iff t (text "released"),
  text_eq_iff t (text "quarantined"),
)
