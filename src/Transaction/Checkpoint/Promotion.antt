-- ===== src/Transaction/Checkpoint/Promotion.antt =====
-- The promotion of a checkpoint candidate is one compare-and-swap.
use sdkwork_sandbox.Base.{
  ◌≡◌, true, false, ◌&&◌, none, some, Text, text_eq, text_eq_iff, ok, err, is_ok, if◌then◌else◌,
  arith, Option-cases, inl, inr,
}
use sdkwork_sandbox.Transaction.Error.{revision_conflict, checkpoint_failed}
use sdkwork_sandbox.Transaction.Checkpoint.{CheckpointCandidate, promote, already_promoted}

-- A promotion by a revision that a candidate was promoted by, or that is its source, and no other.
abbrev pub expected_revision : CheckpointCandidate → Text
expected_revision c = elim c.promoted_expected_source_revision_ref [
  | some p ↦ p
  | none ↦ c.fields.source_workspace_revision_ref
]

-- A promotion succeeds exactly when the candidate is sealed and the caller names the revision that
-- the candidate was promoted by before, or else the candidate's source revision. It fails with a
-- revision conflict, or a failed checkpoint if the candidate is not sealed. When it fails the
-- candidate is unchanged, and it never changes the descriptive fields nor the seal.
pub promote_cas :
    (c : CheckpointCandidate) (expected : Text)
    → (is_ok (promote c expected).1 ≡ (c.is_sealed && text_eq (expected_revision c) expected))
      × (is_ok (promote c expected).1 ≡ false → (promote c expected).0 ≡ c)
      × ((promote c expected).0.fields ≡ c.fields)
      × ((promote c expected).0.is_sealed ≡ c.is_sealed)
      × (c.is_sealed ≡ false → (promote c expected).1 ≡ err checkpoint_failed)
      × (c.is_sealed ≡ true
          → is_ok (promote c expected).1 ≡ false
          → (promote c expected).1 ≡ err revision_conflict)
unfolding promote
promote_cas c expected = ground arith

promote_fresh :
    (c : CheckpointCandidate) (expected later : Text)
    → c.promoted_expected_source_revision_ref ≡ none
    → is_ok (promote c expected).1 ≡ true
    → promote (promote c expected).0 later ≡ (
      (promote c expected).0,
      (if text_eq expected later then ok already_promoted else err revision_conflict),
    )
unfolding promote
promote_fresh c expected later e h = ground arith

promote_again :
    (c : CheckpointCandidate) (expected later p : Text)
    → c.promoted_expected_source_revision_ref ≡ some p
    → is_ok (promote c expected).1 ≡ true
    → promote (promote c expected).0 later ≡ (
      (promote c expected).0,
      (if text_eq expected later then ok already_promoted else err revision_conflict),
    )
unfolding promote
promote_again c expected later p e h = ground (arith, text_eq_iff p expected)

-- After a successful promotion every later promotion by the same revision reports that it was
-- already promoted, and every one by another revision conflicts; neither changes the candidate.
pub promote_once :
    (c : CheckpointCandidate) (expected later : Text)
    → is_ok (promote c expected).1 ≡ true
    → promote (promote c expected).0 later ≡ (
      (promote c expected).0,
      (if text_eq expected later then ok already_promoted else err revision_conflict),
    )
promote_once c expected later h = elim (Option-cases c.promoted_expected_source_revision_ref) [
  | inl e ↦ promote_fresh c expected later e h
  | inr (p, e) ↦ promote_again c expected later p e h
]
