-- ===== src/Lifecycle/Legality.antt =====
-- transitions.go against transition_table.go.
use hmntsk.Prelude.{
  String, ◌==◌, ◌≡◌, ◌⊎◌, Bool, true, false, ◌&&◌, ◌||◌, not, List, arith, [], ◌∷◌,
}
use hmntsk.Status.{
  created, ready, reserved, in_progress, suspended, same, among, is_suspendable, can_transition,
  is_terminal,
}
use hmntsk.Operation.{op_escalate}
use hmntsk.Errors.{ok, err, Sentinel, matches, illegal_transition}
use hmntsk.Task.{Task, Time}
use hmntsk.Event.{Event}
use hmntsk.Record.{Outcome, transition}
use hmntsk.Transitions.{supersedes}
use hmntsk.Lifecycle.{
  Call, apply, activates, faults, claims, releases, starts, completes, fails, delegates, suspends,
  resumes, escalates, obsoletes, cancels, operation_of,
}

-- A call that is accepted moves the task along a row of the transition table, but for an
-- escalation that leaves the task in its state.
pub apply-legal :
    (t : Task) (c : Call) (now : Time) {t' : Task} {es : List Event}
    → apply t c now ≡ ok (t', es)
    → (can_transition t.status t'.status ≡ true)
      ⊎ ((operation_of c ≡ op_escalate) × (t'.status ≡ t.status))
unfolding apply transition
apply-legal t (activates actor assignee) now h = ground arith
apply-legal t _ now h = ground arith

abbrev pub refused_as : Sentinel → Outcome → Bool
refused_as s (ok r) = false
refused_as s (err e) = matches e s

-- A terminal task refuses every call, and the error is an illegal transition.
pub apply-terminal :
    (t : Task) (c : Call) (now : Time)
    → is_terminal t.status ≡ true
    → refused_as illegal_transition (apply t c now) ≡ true
unfolding apply is_terminal matches
apply-terminal t (activates actor assignee) now h = ground arith
apply-terminal t _ now h = ground arith

abbrev pub is_ok : Outcome → Bool
is_ok (ok r) = true
is_ok (err e) = false

-- The actor is named, somebody holds the task, and it is the actor.
abbrev pub holds : Task → String → Bool
holds t actor = not (actor == "") && not (t.assignee == "") && t.assignee == actor

-- The actor holds the task, or is named and nobody does.
abbrev pub may_park : Task → String → Bool
may_park t actor = not (actor == "") && (t.assignee == "" || t.assignee == actor)

abbrev pub started_states : Task → Bool
started_states t = among (reserved ∷ in_progress ∷ []) t.status

-- Who may make which call, and in which states.
abbrev pub admits : Task → Call → Bool
admits t (activates _ _) = same created t.status
admits t (faults _) = same created t.status || same in_progress t.status
admits t (claims actor) = same ready t.status && not (actor == "")
admits t (releases actor _) = same reserved t.status && holds t actor
admits t (starts actor) = same reserved t.status && holds t actor
admits t (completes actor _ _) = same in_progress t.status && holds t actor
admits t (fails actor _) = same in_progress t.status && holds t actor
admits t (delegates actor target _) = started_states t && holds t actor && not (target == "")
admits t (suspends actor _) = (same ready t.status || started_states t) && may_park t actor
admits t (resumes actor _) =
    same suspended t.status && is_suspendable t.suspended_from && may_park t actor
admits t (escalates _ policy _) =
    same ready t.status
    || same reserved t.status
    || (same in_progress t.status && not (supersedes policy))
admits t (obsoletes _ _) = same ready t.status || same reserved t.status
admits t (cancels _ _) = same ready t.status || started_states t || same suspended t.status

-- A call is accepted exactly when its states and its actor admit it.
pub is_ok-apply : (t : Task) (c : Call) (now : Time) → is_ok (apply t c now) ≡ admits t c
unfolding apply
is_ok-apply t (activates actor assignee) now = ground arith
is_ok-apply t _ now = ground arith
