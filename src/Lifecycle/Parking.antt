-- ===== src/Lifecycle/Parking.antt =====
-- Suspending and resuming, and closing a task from any state, in transitions.go.
use hmntsk.Prelude.{String, ◌≡◌, Bool, true, false, List, inc64, arith, if◌then◌else◌}
use hmntsk.Status.{created, same, is_terminal, valid}
use hmntsk.Errors.{ok}
use hmntsk.Task.{Task, Time, normalize_time}
use hmntsk.Event.{Event}
use hmntsk.Record.{Outcome, transition}
use hmntsk.Lifecycle.{Call, apply, suspends, resumes, faults, cancels}
use hmntsk.Lifecycle.Invariant.{IsWellFormed}
use hmntsk.Lifecycle.Legality.{may_park, is_ok}

-- Suspending a well-formed task and resuming it, by actors who may, gives the task back, two
-- versions later and updated at the time of the resumption.
pub resume-suspend :
    (t : Task) (actor actor' comment comment' : String) (now now' : Time) {r r' : Task × List Event}
    → IsWellFormed t
    → apply t (suspends actor comment) now ≡ ok r
    → apply r.0 (resumes actor' comment') now' ≡ ok r'
    → r'.0 ≡ record t { version = inc64 (inc64 t.version); updated_at = normalize_time now' }
unfolding apply transition normalize_time
resume-suspend t actor actor' comment comment' now now' w h h' = ground arith

-- The resumption is accepted exactly if the actor holds the task, or nobody does.
pub resume-suspend_accepted :
    (t : Task) (actor actor' comment comment' : String) (now now' : Time) {r : Task × List Event}
    → apply t (suspends actor comment) now ≡ ok r
    → is_ok (apply r.0 (resumes actor' comment') now') ≡ may_park t actor'
unfolding apply transition
resume-suspend_accepted t actor actor' comment comment' now now' h = ground arith

-- The call that closes a task which is still open.
abbrev pub closing : Task → String → Call
closing t reason = if same created t.status then faults reason else cancels "" reason

pub closes : Outcome → Bool
closes (ok r) = is_terminal r.0.status
closes _ = false

-- Every open task can be closed by one call, which needs no actor.
pub apply-closing :
    (t : Task) (reason : String) (now : Time)
    → valid t.status ≡ true
    → is_terminal t.status ≡ false
    → closes (apply t (closing t reason) now) ≡ true
unfolding apply transition closes is_terminal valid
apply-closing t reason now v h = ground arith
