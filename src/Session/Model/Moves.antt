-- ===== src/Session/Model/Moves.antt =====
-- What the moves that can fail leave, when they do not.
use sdkwork_sandbox.Base.{◌+◌, ◌≤◌, ◌≡◌, leb, leb→le, true, inl, inr, Text, ok, Bool-cases, arith}
use sdkwork_sandbox.Session.Kinds.{OperationKind, SessionState, can_transition}
use sdkwork_sandbox.Base.{length}
use sdkwork_sandbox.Session.Model.{
  Session, begin_operation, begun, has_room, transition, moved, next_version, max_session_version,
}

pub begin_ok :
    (id : Text) (kind : OperationKind) (s t : Session)
    → begin_operation id kind s ≡ ok t
    → (t ≡ begun id kind s) × (has_room kind (length s.operations) ≡ true)
unfolding begin_operation
begin_ok id kind s t h = elim (Bool-cases (has_room kind (length s.operations))) [
  | inl e ↦ (ground (arith, h, e), e)
  | inr e ↦ absurd (ground (arith, h, e))
]

pub transition_ok :
    (target : SessionState) (kind : OperationKind) (s t : Session)
    → transition target kind s ≡ ok t
    → (t ≡ moved target s) × (can_transition s.session_state target ≡ true)
unfolding transition
transition_ok target kind s t h = elim (Bool-cases (can_transition s.session_state target)) [
  | inl e ↦ (ground (arith, h, e), e)
  | inr e ↦ absurd (ground (arith, h, e))
]

pub next_version_ok :
    (s t : Session)
    → next_version s ≡ ok t
    → (t ≡ record s { version = s.version + 1 }) × (s.version + 1 ≤ max_session_version)
unfolding next_version
next_version_ok s t h = elim (Bool-cases (leb (s.version + 1) max_session_version)) [
  | inl e ↦ (ground (arith, h, e), leb→le (s.version + 1) max_session_version e)
  | inr e ↦ absurd (ground (arith, h, e))
]
