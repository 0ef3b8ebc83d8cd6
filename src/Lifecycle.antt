-- ===== src/Lifecycle.antt =====
-- The operations of transitions.go under one name: a call with its arguments, and what applying it
-- to a task at a time gives.
pub mod Effect
pub mod Invariant
pub mod Frame
pub mod History
pub mod Legality
pub mod Parking
pub mod Reports
use hmntsk.Prelude.{String, Option, List, [], ◌∷◌, ◌++◌}
use hmntsk.Errors.{ok, err}
use hmntsk.Operation.{
  Operation, op_create, op_claim, op_release, op_start, op_complete, op_fail, op_delegate,
  op_suspend, op_resume, op_escalate, op_cancel, op_obsolete, op_fault,
}
use hmntsk.Task.{Task, Time, EscalationPolicy}
use hmntsk.Event.{TransitionRecord, records_of}
use hmntsk.Record.{Outcome}
use hmntsk.Transitions.{
  activate, fault, claim, release, start, complete, fail, delegate, suspend, resume, obsolete_task,
  escalate, cancel,
}

pub data Call : Type 0 where
  activates : String → String → Call
  faults : String → Call
  claims : String → Call
  releases : String → String → Call
  starts : String → Call
  completes : String → String → String → Call
  fails : String → String → Call
  delegates : String → String → String → Call
  suspends : String → String → Call
  resumes : String → String → Call
  escalates : String → Option EscalationPolicy → String → Call
  obsoletes : String → String → Call
  cancels : String → String → Call

unfoldable pub apply : Task → Call → Time → Outcome
unfolding activate fault claim release start complete fail delegate suspend resume obsolete_task
    escalate cancel
apply t (activates actor assignee) now = activate t actor assignee now
apply t (faults reason) now = fault t reason now
apply t (claims actor) now = claim t actor now
apply t (releases actor comment) now = release t actor comment now
apply t (starts actor) now = start t actor now
apply t (completes actor output comment) now = complete t actor output comment now
apply t (fails actor reason) now = fail t actor reason now
apply t (delegates actor target comment) now = delegate t actor target comment now
apply t (suspends actor comment) now = suspend t actor comment now
apply t (resumes actor comment) now = resume t actor comment now
apply t (escalates actor policy comment) now = escalate t actor policy comment now
apply t (obsoletes actor reason) now = obsolete_task t actor reason now
apply t (cancels actor reason) now = cancel t actor reason now

abbrev pub operation_of : Call → Operation
operation_of (activates _ _) = op_create
operation_of (faults _) = op_fault
operation_of (claims _) = op_claim
operation_of (releases _ _) = op_release
operation_of (starts _) = op_start
operation_of (completes _ _ _) = op_complete
operation_of (fails _ _) = op_fail
operation_of (delegates _ _ _) = op_delegate
operation_of (suspends _ _) = op_suspend
operation_of (resumes _ _) = op_resume
operation_of (escalates _ _ _) = op_escalate
operation_of (obsoletes _ _) = op_obsolete
operation_of (cancels _ _) = op_cancel

-- A call that is accepted replaces the task and adds its records to the history; one that is
-- refused changes nothing.
abbrev pub after : Task × List TransitionRecord → Outcome → Task × List TransitionRecord
after (t, log) (ok (t', es)) = (t', log ++ records_of es)
after (t, log) (err e) = (t, log)

unfoldable pub run :
    Task × List TransitionRecord → List (Call × Time) → Task × List TransitionRecord
run s [] = s
run s ((c, now) ∷ cs) = run (after s (apply s.0 c now)) cs
