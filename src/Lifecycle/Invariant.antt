-- ===== src/Lifecycle/Invariant.antt =====
-- What holds of a task between two calls of transitions.go.
use hmntsk.Prelude.{
  String, ◌==◌, ◌≡◌, ap, sym, ◌∙◌, subst, true, false, none, is_some, List, [], ◌∷◌, arith,
  if◌then◌else◌,
}
use hmntsk.Status.{
  Status, created, ready, reserved, in_progress, suspended, exited, unset, same, among, valid,
  is_suspendable, is_terminal,
}
use hmntsk.Errors.{ok}
use hmntsk.Task.{Task, Time}
use hmntsk.Event.{Event}
use hmntsk.Record.{transition}
use hmntsk.Lifecycle.{Call, apply, activates, cancels}
use hmntsk.Lifecycle.Effect.{effect, apply-effect}
use hmntsk.Lifecycle.Legality.{admits, is_ok, is_ok-apply}

-- The state that the work is in: a suspended task's is the one that it came from.
abbrev pub position : Task → Status
position t = if same suspended t.status then t.suspended_from else t.status

pub record IsWellFormed (t : Task) : Type 0 where
  pub known : valid t.status ≡ true
  pub parked : same suspended t.status ≡ true → is_suspendable t.suspended_from ≡ true
  pub not_parked :
      among (suspended ∷ exited ∷ []) t.status ≡ false → same unset t.suspended_from ≡ true
  pub pooled : among (created ∷ ready ∷ []) (position t) ≡ true → (t.assignee == "") ≡ true
  pub held : among (reserved ∷ in_progress ∷ []) (position t) ≡ true → (t.assignee == "") ≡ false
  pub worked : same in_progress (position t) ≡ true → is_some t.started_at ≡ true
  pub closed : is_some t.closed_at ≡ is_terminal t.status
  pub unleased : is_terminal t.status ≡ true → t.locked_until ≡ none

effect-IsWellFormed :
    (t : Task) (c : Call) (now : Time)
    → IsWellFormed t
    → admits t c ≡ true
    → IsWellFormed (effect t c now).0
unfolding effect transition valid is_suspendable is_terminal
effect-IsWellFormed t (activates actor assignee) now w a = ground arith
effect-IsWellFormed t _ now w a = ground arith

-- Every accepted call keeps a well-formed task well-formed.
pub apply-IsWellFormed :
    (t : Task) (c : Call) (now : Time) {r : Task × List Event}
    → IsWellFormed t
    → apply t c now ≡ ok r
    → IsWellFormed r.0
apply-IsWellFormed t c now w h =
    subst (λ (r : Task × List Event). IsWellFormed r.0) (apply-effect t c now h)
      (effect-IsWellFormed t c now w (sym (is_ok-apply t c now) ∙ ap is_ok h))

-- Cancelling a suspended task leaves `suspended_from` set on a task that is closed.
pub cancel-suspended :
    (t : Task) (actor reason : String) (now : Time) {r : Task × List Event}
    → IsWellFormed t
    → t.status ≡ suspended
    → apply t (cancels actor reason) now ≡ ok r
    → (r.0.status ≡ exited) × (is_suspendable r.0.suspended_from ≡ true)
unfolding apply transition
cancel-suspended t actor reason now w s h = ground arith
