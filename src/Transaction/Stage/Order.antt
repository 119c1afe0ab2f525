-- ===== src/Transaction/Stage/Order.antt =====
-- The ledger: exactly the stages up to the highest completed one carry evidence.
use sdkwork_sandbox.Base.{
  ℕ, zero, suc, ◌+◌, ◌-◌, ◌≤◌, ◌<◌, ◌≡◌, refl, false, ◌&&◌, Option, none, some, is_some, List, [],
  ◌∷◌, length, set, ltb, ◌==◌, if◌then◌else◌, ok, is_ok, is_fingerprint, arith, replicate, leb,
}
use sdkwork_sandbox.Transaction.Stage.{
  OrchestrationStage, workspace_authorization_verified, StageEvidence, OrchestrationLedger,
  position, slot, completed_ref, is_completed, ledger_new, ledger_record, evidence_fingerprint,
  evidence_validated,
}

pub record LedgerInv (l : OrchestrationLedger) : Type 0 where
  pub within : l.highest_completed_position ≤ 21
  pub sized : length l.slots ≡ 32
  pub filled : (i : ℕ) → is_some (slot l.slots i) ≡ ltb i l.highest_completed_position

pub position_bounds : (s : OrchestrationStage) → (1 ≤ position s) × (position s ≤ 21)
position_bounds workspace_authorization_verified = omega arith
position_bounds _ = omega arith

slot-set :
    (xs : List (Option StageEvidence)) (i j : ℕ) (v : Option StageEvidence)
    → i < length xs
    → slot (set xs i v) j ≡ (if i == j then v else slot xs j)
slot-set [] i j v h = absurd (omega arith)
slot-set (x ∷ xs) zero zero v h = refl
slot-set (x ∷ xs) zero (suc j) v h = ground arith
slot-set (x ∷ xs) (suc i) zero v h = ground arith
slot-set (x ∷ xs) (suc i) (suc j) v h = ground (arith, slot-set xs i j v)

length-set :
    (xs : List (Option StageEvidence)) (i : ℕ) (v : Option StageEvidence)
    → length (set xs i v) ≡ length xs
length-set [] i v = refl
length-set (x ∷ xs) zero v = refl
length-set (x ∷ xs) (suc i) v = omega (arith, length-set xs i v)

nothing : (n i : ℕ) → is_some (slot (replicate n none) i) ≡ false
nothing zero i = refl
nothing (suc n) zero = refl
nothing (suc n) (suc i) = nothing n i

pub ledger_new-LedgerInv : LedgerInv ledger_new
unfolding ledger_new
ledger_new-LedgerInv = record {
  within = omega arith;
  sized = refl;
  filled = λ i. ground (arith, nothing 32 i);
}

-- What a successful record did.
pub ledger_record_inversion :
    (l l' : OrchestrationLedger) (s : OrchestrationStage) (e : StageEvidence)
    → ledger_record l s e ≡ ok l'
    → (position s ≡ l.highest_completed_position + 1)
      × (l'.highest_completed_position ≡ position s)
      × (l'.slots ≡ set l.slots (position s - 1) (some e))
unfolding ledger_record
ledger_record_inversion l l' s e h = ground arith

-- Recording a stage keeps the ledger well formed: the completed stages are always exactly a
-- beginning of the contract order.
pub ledger_record-LedgerInv :
    (l l' : OrchestrationLedger) (s : OrchestrationStage) (e : StageEvidence)
    → LedgerInv l
    → ledger_record l s e ≡ ok l'
    → LedgerInv l'
ledger_record-LedgerInv l l' s e v h =
    let (next, high, slots) = ledger_record_inversion l l' s e h in
    record {
      within = omega (arith, position_bounds s);
      sized = rw slots (omega (arith, length-set l.slots (position s - 1) (some e)));
      filled = λ i. rw slots (
          ground (
            arith,
            position_bounds s,
            v.filled i,
            v.sized,
            slot-set l.slots (position s - 1) i (some e),
          ));
    }

-- In a well-formed ledger a stage is accepted exactly when its evidence is a fingerprint and it is
-- the stage after the highest completed one.
pub ledger_record_accepts :
    (l : OrchestrationLedger) (s : OrchestrationStage) (e : StageEvidence)
    → LedgerInv l
    → is_ok (ledger_record l s e)
      ≡ (is_fingerprint (evidence_fingerprint e) && position s == l.highest_completed_position + 1)
unfolding ledger_record evidence_validated
ledger_record_accepts l s e v =
    ground (arith, position_bounds s, v.within, v.filled (position s - 1))

-- A stage counts as completed exactly when it is not above the highest completed position.
pub is_completed_iff :
    (l : OrchestrationLedger) (s : OrchestrationStage)
    → LedgerInv l
    → is_completed l s ≡ leb (position s) l.highest_completed_position
unfolding is_completed completed_ref
is_completed_iff l s v = ground (arith, position_bounds s, v.filled (position s - 1))
