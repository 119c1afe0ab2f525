-- ===== src/Session/Model/Room.antt =====
-- The bound of the ledger, and the one entry above it that a destroy may take.
use sdkwork_sandbox.Base.{
  ℕ, ◌+◌, ◌≤◌, ◌≡◌, refl, ◌≢◌, ◌∙◌, ap, true, List, [], ◌∷◌, length, length-append, Text, ok, err,
  arith,
}
use sdkwork_sandbox.Session.Kinds.{
  SessionState, OperationKind, destroy, destroying, failed, cleanup, failed_with, OperationOutcome,
  can_transition,
}
use sdkwork_sandbox.Session.Model.Moves.{begin_ok, transition_ok, next_version_ok}
use sdkwork_sandbox.Session.Ledger.{Operation, set_outcome}
use sdkwork_sandbox.Session.Error.{invariant_violation, ledger_at_bound}
use sdkwork_sandbox.Session.Model.{
  Session, next_version, mark_operations_persisted, begin_operation, begun, fail_operation,
  transition, has_room, max_session_operations, max_session_persisted_operations,
}

pub length-set_outcome :
    (id : Text) (w : OperationOutcome) (os : List Operation)
    → length (set_outcome id w os) ≡ length os
unfolding set_outcome
length-set_outcome id w [] = omega arith
length-set_outcome id w (o ∷ os) = ground (arith, length-set_outcome id w os)

length-begun :
    (id : Text) (kind : OperationKind) (s : Session)
    → length (begun id kind s).operations ≡ length s.operations + 1
length-begun id kind s = length-append s.operations _

room_bound :
    (kind : OperationKind) (n : ℕ)
    → has_room kind n ≡ true
    → (n + 1 ≤ max_session_persisted_operations) × (kind ≢ destroy → n + 1 ≤ max_session_operations)
room_bound OperationKind.create n h = (ground (arith, h), λ k. ground (arith, h))
room_bound OperationKind.start n h = (ground (arith, h), λ k. ground (arith, h))
room_bound OperationKind.stop n h = (ground (arith, h), λ k. ground (arith, h))
room_bound destroy n h = (ground (arith, h), λ k. absurd (k refl))

-- An operation that begins adds one entry to the ledger, which then has at most 10,001 entries, and
-- at most 10,000 if the operation is not a destroy.
pub begin_within_bound :
    (id : Text) (kind : OperationKind) (s t : Session)
    → begin_operation id kind s ≡ ok t
    → (length t.operations ≡ length s.operations + 1)
      × (length t.operations ≤ max_session_persisted_operations)
      × (kind ≢ destroy → length t.operations ≤ max_session_operations)
begin_within_bound id kind s t h =
    let (e, room) = begin_ok id kind s t h in
    let grown : length t.operations ≡ length s.operations + 1 =
      ap (λ x. length x.operations) e ∙ length-begun id kind s in
    let (top, ordinary) = room_bound kind (length s.operations) room in
    (grown, omega (arith, grown, top), λ k. omega (arith, grown, ordinary k))

length-moved :
    (target : SessionState) (kind : OperationKind) (s t : Session)
    → transition target kind s ≡ ok t
    → length t.operations ≡ length s.operations
length-moved target kind s t h = ap (λ x. length x.operations) (transition_ok target kind s t h).0

length-saved :
    (s t : Session)
    → next_version s ≡ ok t
    → length (mark_operations_persisted t).operations ≡ length s.operations
unfolding mark_operations_persisted
length-saved s t h = ap (λ x. length x.operations) (next_version_ok s t h).0

no_room :
    (id : Text) (kind : OperationKind) (s : Session)
    → max_session_persisted_operations ≤ length s.operations
    → begin_operation id kind s ≡ err (invariant_violation ledger_at_bound)
unfolding begin_operation
no_room id kind s l = ground (arith, l)

-- A destroy that begins in a ledger of 10,000 entries takes the one entry above the bound for good.
-- Take the destroy as the service makes it: it begins, the session moves to destroying and is saved;
-- its provider call fails, the session moves to failed, the failure is recorded and the session is
-- saved. Then no operation can begin, neither while the session is destroying nor afterwards, not even
-- another destroy, although a session that has failed may be destroyed.
pub grace_entry_is_spent :
    (id next : Text) (kind : OperationKind) (s t u v w x : Session)
    → max_session_operations ≤ length s.operations
    → begin_operation id destroy s ≡ ok t
    → transition destroying destroy t ≡ ok u
    → next_version u ≡ ok v
    → transition failed destroy (mark_operations_persisted v) ≡ ok w
    → next_version (fail_operation id cleanup w) ≡ ok x
    → (begin_operation next kind (mark_operations_persisted v)
        ≡ err (invariant_violation ledger_at_bound))
      × (begin_operation next kind (mark_operations_persisted x)
          ≡ err (invariant_violation ledger_at_bound))
      × (can_transition (mark_operations_persisted x).session_state destroying ≡ true)
unfolding fail_operation mark_operations_persisted can_transition
grace_entry_is_spent id next kind s t u v w x l h m p q r =
    let grown : length t.operations ≡ length s.operations + 1 =
      ap (λ y. length y.operations) (begin_ok id destroy s t h).0 ∙ length-begun id destroy s in
    let waiting = length-saved u v p ∙ length-moved destroying destroy t u m in
    let ended =
      length-saved (fail_operation id cleanup w) x r
      ∙ length-set_outcome id (failed_with cleanup) w.operations
      ∙ length-moved failed destroy (mark_operations_persisted v) w q in
    let state : x.session_state ≡ failed =
      ap (λ y. y.session_state) (next_version_ok (fail_operation id cleanup w) x r).0
      ∙ ap (λ y. y.session_state)
          (transition_ok failed destroy (mark_operations_persisted v) w q).0 in
    (
      no_room next kind (mark_operations_persisted v) (omega (arith, l, grown, waiting)),
      no_room next kind (mark_operations_persisted x) (omega (arith, l, grown, waiting, ended)),
      rw state refl,
    )
