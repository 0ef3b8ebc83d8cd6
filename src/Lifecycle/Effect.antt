-- ===== src/Lifecycle/Effect.antt =====
-- What an accepted call of transitions.go makes of a task, without the guards; the proofs about
-- accepted calls go through it.
use hmntsk.Prelude.{◌==◌, ◌≡◌, List, some, inc64, arith, if◌then◌else◌}
use hmntsk.Status.{
  ready, reserved, in_progress, suspended, completed, failed, error, exited, obsolete, unset,
}
use hmntsk.Operation.{
  op_create, op_claim, op_release, op_start, op_complete, op_fail, op_delegate, op_suspend,
  op_resume, op_escalate, op_cancel, op_obsolete, op_fault,
}
use hmntsk.Errors.{ok}
use hmntsk.Task.{Task, Time, normalize_time}
use hmntsk.Event.{Event}
use hmntsk.Record.{transition}
use hmntsk.Transitions.{or_now, with_output, widened, supersedes}
use hmntsk.Lifecycle.{
  Call, apply, activates, faults, claims, releases, starts, completes, fails, delegates, suspends,
  resumes, escalates, obsoletes, cancels,
}

unfoldable pub effect : Task → Call → Time → Task × List Event
unfolding normalize_time
effect t (activates actor assignee) now =
    transition t op_create (if assignee == "" then ready else reserved) actor "" now
      (λ n. record n { assignee = assignee })
effect t (faults reason) now =
    transition t op_fault error "" reason now (λ n. record n { reason = reason })
effect t (claims actor) now =
    transition t op_claim reserved actor "" now (λ n. record n { assignee = actor })
effect t (releases actor comment) now =
    transition t op_release ready actor comment now (λ n. record n { assignee = "" })
effect t (starts actor) now =
    transition t op_start in_progress actor "" now
      (λ n. record n { started_at = or_now n.started_at (normalize_time now) })
effect t (completes actor output comment) now =
    with_output output
      (transition t op_complete completed actor comment now (λ n. record n { output = output }))
effect t (fails actor reason) now =
    transition t op_fail failed actor reason now (λ n. record n { reason = reason })
effect t (delegates actor target comment) now =
    transition t op_delegate reserved actor comment now (λ n. record n { assignee = target })
effect t (suspends actor comment) now =
    transition t op_suspend suspended actor comment now
      (λ n. record n { suspended_from = t.status })
effect t (resumes actor comment) now =
    transition t op_resume t.suspended_from actor comment now
      (λ n. record n { suspended_from = unset })
effect t (escalates actor policy comment) now =
    if supersedes policy
    then transition t op_obsolete obsolete actor comment now (λ n. record n { reason = comment })
    else transition t op_escalate t.status actor comment now (λ n. record n {
      escalation_count = inc64 t.escalation_count;
      escalated_at = some (normalize_time now);
      candidates = widened n.candidates policy;
    })
effect t (obsoletes actor reason) now =
    transition t op_obsolete obsolete actor reason now (λ n. record n { reason = reason })
effect t (cancels actor reason) now =
    transition t op_cancel exited actor reason now (λ n. record n { reason = reason })

pub apply-effect :
    (t : Task) (c : Call) (now : Time) {r : Task × List Event}
    → apply t c now ≡ ok r
    → effect t c now ≡ r
unfolding apply effect
apply-effect t (activates actor assignee) now h = ground arith
apply-effect t _ now h = ground arith
