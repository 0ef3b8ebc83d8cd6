-- ===== src/Transitions.antt =====
-- transitions.go: the lifecycle operations as pure functions of a task. An operation that fails
-- returns its error alone; the source returns the unchanged task and no events beside it.
use hmntsk.Prelude.{
  String, ◌==◌, Bool, true, false, not, List, [], ◌∷◌, ◌++◌, Option, none, some, inc64, contains,
  if◌then◌else◌,
}
use hmntsk.Status.{
  created, ready, reserved, in_progress, suspended, completed, failed, error, exited, obsolete,
  unset, among, is_suspendable,
}
use hmntsk.Operation.{
  op_create, op_claim, op_release, op_start, op_complete, op_fail, op_delegate, op_suspend,
  op_resume, op_escalate, op_cancel, op_obsolete, op_fault,
}
use hmntsk.Errors.{ok, err, ◌>>◌, transition_error, validation_error}
use hmntsk.Task.{
  Task, Time, CandidatePool, EscalationPolicy, EscalationAction, widen, supersede, normalize_time,
}
use hmntsk.Event.{Event}
use hmntsk.Record.{
  Outcome, require_from, require_actor, require_assignee, require_assignee_if_held, transition,
}

unfoldable pub activate : Task → String → String → Time → Outcome
unfolding require_from
activate t actor assignee now =
    let to = if assignee == "" then ready else reserved in
    do
      require_from t op_create to (created ∷ [])
      ok (transition t op_create to actor "" now (λ n. record n { assignee = assignee }))

unfoldable pub fault : Task → String → Time → Outcome
unfolding require_from
fault t reason now = do
  require_from t op_fault error (created ∷ in_progress ∷ [])
  ok (transition t op_fault error "" reason now (λ n. record n { reason = reason }))

unfoldable pub claim : Task → String → Time → Outcome
unfolding require_from require_actor
claim t actor now = do
  require_from t op_claim reserved (ready ∷ [])
  require_actor t.id op_claim actor
  ok (transition t op_claim reserved actor "" now (λ n. record n { assignee = actor }))

unfoldable pub release : Task → String → String → Time → Outcome
unfolding require_from require_assignee
release t actor comment now = do
  require_from t op_release ready (reserved ∷ [])
  require_assignee t op_release actor
  ok (transition t op_release ready actor comment now (λ n. record n { assignee = "" }))

abbrev pub or_now : Option Time → Time → Option Time
or_now none now = some now
or_now (some s) now = some s

unfoldable pub start : Task → String → Time → Outcome
unfolding require_from require_assignee normalize_time
start t actor now = do
  require_from t op_start in_progress (reserved ∷ [])
  require_assignee t op_start actor
  ok (
      transition t op_start in_progress actor "" now
        (λ n. record n { started_at = or_now n.started_at (normalize_time now) }))

abbrev pub with_output : String → Task × List Event → Task × List Event
with_output output (t, []) = (t, [])
with_output output (t, e ∷ es) = (t, record e { output = output } ∷ es)

unfoldable pub complete : Task → String → String → String → Time → Outcome
unfolding require_from require_assignee
complete t actor output comment now = do
  require_from t op_complete completed (in_progress ∷ [])
  require_assignee t op_complete actor
  ok (
      with_output output
        (transition t op_complete completed actor comment now (λ n. record n { output = output })))

unfoldable pub fail : Task → String → String → Time → Outcome
unfolding require_from require_assignee
fail t actor reason now = do
  require_from t op_fail failed (in_progress ∷ [])
  require_assignee t op_fail actor
  ok (transition t op_fail failed actor reason now (λ n. record n { reason = reason }))

unfoldable pub delegate : Task → String → String → String → Time → Outcome
unfolding require_from require_assignee
delegate t actor target comment now = do
  require_from t op_delegate reserved (reserved ∷ in_progress ∷ [])
  require_assignee t op_delegate actor
  (if target == ""
      then err (
          validation_error "request"
            (record { pointer = "/delegate"; detail = "no delegate was named" } ∷ []))
      else ok (
          transition t op_delegate reserved actor comment now
            (λ n. record n { assignee = target })))

unfoldable pub suspend : Task → String → String → Time → Outcome
unfolding require_from require_assignee_if_held
suspend t actor comment now = do
  require_from t op_suspend suspended (ready ∷ reserved ∷ in_progress ∷ [])
  require_assignee_if_held t op_suspend actor
  ok (
      transition t op_suspend suspended actor comment now
        (λ n. record n { suspended_from = t.status }))

unfoldable pub resume : Task → String → String → Time → Outcome
unfolding require_from is_suspendable require_assignee_if_held
resume t actor comment now =
    if not (is_suspendable t.suspended_from)
    then err (transition_error t.id op_resume t.status t.suspended_from)
    else (do
      require_from t op_resume t.suspended_from (suspended ∷ [])
      require_assignee_if_held t op_resume actor
      ok (
          transition t op_resume t.suspended_from actor comment now
            (λ n. record n { suspended_from = unset })))

unfoldable pub obsolete_task : Task → String → String → Time → Outcome
unfolding require_from
obsolete_task t actor reason now = do
  require_from t op_obsolete obsolete (ready ∷ reserved ∷ [])
  ok (transition t op_obsolete obsolete actor reason now (λ n. record n { reason = reason }))

unfoldable pub append_missing : List String → List String → List String
append_missing base [] = base
append_missing base (x ∷ xs) = append_missing (if contains base x then base else base ++ x ∷ []) xs

abbrev is_widen : EscalationAction → Bool
is_widen widen = true
is_widen _ = false

abbrev is_supersede : EscalationAction → Bool
is_supersede supersede = true
is_supersede _ = false

-- What escalation does to the pool: only a widening policy adds to it.
unfoldable pub widened : CandidatePool → Option EscalationPolicy → CandidatePool
widened p none = p
widened p (some policy) =
    if is_widen policy.action
    then record p {
      users = append_missing p.users policy.add_users;
      groups = append_missing p.groups policy.add_groups;
    }
    else p

abbrev pub supersedes : Option EscalationPolicy → Bool
supersedes none = false
supersedes (some policy) = is_supersede policy.action

unfoldable pub escalate : Task → String → Option EscalationPolicy → String → Time → Outcome
unfolding obsolete_task normalize_time widened
escalate t actor policy comment now =
    if supersedes policy
    then obsolete_task t actor comment now
    else if among (ready ∷ reserved ∷ in_progress ∷ []) t.status
    then ok (
        transition t op_escalate t.status actor comment now (λ n. record n {
          escalation_count = inc64 t.escalation_count;
          escalated_at = some (normalize_time now);
          candidates = widened n.candidates policy;
        }))
    else err (transition_error t.id op_escalate t.status t.status)

unfoldable pub cancel : Task → String → String → Time → Outcome
unfolding require_from
cancel t actor reason now = do
  require_from t op_cancel exited (ready ∷ reserved ∷ in_progress ∷ suspended ∷ [])
  ok (transition t op_cancel exited actor reason now (λ n. record n { reason = reason }))
