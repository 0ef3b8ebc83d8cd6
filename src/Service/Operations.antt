-- ===== src/Service/Operations.antt =====
-- service.go: the operations, each as the step that it runs inside `mutate`.
use hmntsk.Prelude.{String, ◌==◌, List, [], ◌∷◌, Option, none, some, if◌then◌else◌}
use hmntsk.Status.{Status, reserved, in_progress, same}
use hmntsk.Operation.{op_claim, op_save_progress}
use hmntsk.Errors.{
  Error, Result, ok, err, ◌>>=◌, ◌>>◌, ◌<>◌, Formatter, message, transition_error, validation_error,
}
use hmntsk.Task.{Task, EscalationPolicy, normalize_time}
use hmntsk.Event.{Event, records_of}
use hmntsk.Record.{Outcome, require_from, require_assignee, transition}
use hmntsk.Transitions.{
  claim, release, start, complete, fail, delegate, suspend, resume, escalate, cancel, or_now,
}
use hmntsk.Assignment.{authorize, authorize_delegate, assign}
use hmntsk.Registry.{
  Registry, TypeSpec, CreateRequest, lookup_spec, validate_input, validate_shape, validate_output,
  new_task,
}
use hmntsk.Store.{M, Store, lift}
use hmntsk.Store
use hmntsk.Service.{Env, TaskRequest, Produced, Step, OpResult, persist_outcome, mutate, finish}

-- A transition with its records, when nothing else can refuse it.
abbrev pub recorded : Outcome → Result Produced
recorded o = do r ← o; ok (r.0, r.1, records_of r.1)

-- An absent payload is an empty object.
abbrev pub defaulted_payload : String → String
defaulted_payload p = if p == "" then "{}" else p

unfoldable pub claim_step : Env → TaskRequest → Step
claim_step env req task now = do
  r ← claim task req.actor now
  authorize env.resolver task op_claim req.actor
  ok (r.0, r.1, records_of r.1)

unfoldable pub release_step : TaskRequest → Step
release_step req task now = recorded (release task req.actor req.comment now)

unfoldable pub start_step : TaskRequest → Step
start_step req task now = recorded (start task req.actor now)

unfoldable pub complete_step : Env → TaskRequest → String → Step
complete_step env req output task now = do
  r ← complete task req.actor output req.comment now
  validate_output env.registry task.task_type (defaulted_payload output)
  ok (r.0, r.1, records_of r.1)

unfoldable pub fail_step : TaskRequest → Step
fail_step req task now = recorded (fail task req.actor req.comment now)

unfoldable pub delegate_step : Env → TaskRequest → String → Step
delegate_step env req target task now = do
  r ← delegate task req.actor target req.comment now
  authorize_delegate env.resolver task req.actor target
  ok (r.0, r.1, records_of r.1)

unfoldable pub suspend_step : TaskRequest → Step
suspend_step req task now = recorded (suspend task req.actor req.comment now)

unfoldable pub resume_step : TaskRequest → Step
resume_step req task now = recorded (resume task req.actor req.comment now)

-- escalationPolicy: the task's own policy, or its type's; a type that is not registered has none.
abbrev default_policy : Result TypeSpec → Option EscalationPolicy
default_policy (ok spec) = spec.default_escalation
default_policy (err e) = none

unfoldable pub escalation_policy : Registry → Task → Option EscalationPolicy
escalation_policy r task = elim task.escalation [
  | some p ↦ some p
  | none ↦ default_policy (lookup_spec r task.task_type)
]

unfoldable pub escalate_step : Env → TaskRequest → Step
escalate_step env req task now =
    recorded (escalate task req.actor (escalation_policy env.registry task) req.comment now)

unfoldable pub cancel_step : TaskRequest → Step
cancel_step req task now = recorded (cancel task req.actor req.comment now)

-- applyJSONPatch of patch.go, around the third-party patch library.
abbrev invalid_patch : String → Error
invalid_patch detail = validation_error "patch" (record { pointer = ""; detail = detail } ∷ [])

abbrev apply_decoded : Formatter → String → Result (String → Result String) → Result String
apply_decoded f document (err e) =
    err (invalid_patch ("is not a valid RFC 6902 patch: " <> message f e))
apply_decoded f document (ok patch) = elim (patch (if document == "" then "{}" else document)) [
  | ok merged ↦ ok merged
  | err e ↦ err (invalid_patch ("could not be applied: " <> message f e))
]

unfoldable pub apply_json_patch : Env → String → String → Result String
apply_json_patch env document patch =
    if patch == ""
    then ok document
    else apply_decoded env.formatter document (env.decode_patch patch)

-- Where a progress save leaves the task: the first save starts it.
abbrev save_target : Task → Result Status
save_target task =
    if same task.status reserved
    then (do require_from task op_save_progress in_progress (reserved ∷ []); ok in_progress)
    else if same task.status in_progress
    then ok in_progress
    else err (transition_error task.id op_save_progress task.status in_progress)

unfoldable pub save_progress_step : Env → TaskRequest → String → Step
unfolding normalize_time
save_progress_step env req patch task now = do
  to ← save_target task
  require_assignee task op_save_progress req.actor
  merged ← apply_json_patch env task.progress patch
  validate_shape env.registry task.task_type merged
  let started = same task.status reserved
  let saved = transition task op_save_progress to req.actor req.comment now (λ n. record n {
    progress = merged;
    started_at = if started then or_now n.started_at (normalize_time now) else n.started_at;
  })
  ok (saved.0, [], (if started then records_of saved.1 else []))

module _ {S : Type 0} (st : Store S) where
  pub claim_task : Env → TaskRequest → M S OpResult
  claim_task env req = mutate st env req (claim_step env req)

  pub release_task : Env → TaskRequest → M S OpResult
  release_task env req = mutate st env req (release_step req)

  pub start_task : Env → TaskRequest → M S OpResult
  start_task env req = mutate st env req (start_step req)

  pub complete_task : Env → TaskRequest → String → M S OpResult
  complete_task env req output = mutate st env req (complete_step env req output)

  pub fail_task : Env → TaskRequest → M S OpResult
  fail_task env req = mutate st env req (fail_step req)

  pub delegate_task : Env → TaskRequest → String → M S OpResult
  delegate_task env req target = mutate st env req (delegate_step env req target)

  pub suspend_task : Env → TaskRequest → M S OpResult
  suspend_task env req = mutate st env req (suspend_step req)

  pub resume_task : Env → TaskRequest → M S OpResult
  resume_task env req = mutate st env req (resume_step req)

  unfoldable pub escalate_task : Env → TaskRequest → M S OpResult
  escalate_task env req = mutate st env req (escalate_step env req)

  pub cancel_task : Env → TaskRequest → M S OpResult
  cancel_task env req = mutate st env req (cancel_step req)

  pub save_progress : Env → TaskRequest → String → M S OpResult
  save_progress env req patch = mutate st env req (save_progress_step env req patch)

  abbrev given_id : Env → String → Result String
  given_id env id = if id == "" then env.new_id else ok id

  create_scope : Env → TypeSpec → String → CreateRequest → M S (Task × List Event)
  create_scope env spec id req =
      Store.◌>>=◌
        (lift (
          assign env.formatter env.resolver (some env.strategy) (new_task spec id req env.now)
            env.now))
        (λ placed. Store.◌>>◌ (st.create_task placed.0) (
          Store.◌>>=◌ (persist_outcome st env placed.1 (records_of placed.1))
            (λ stamped. lift (ok (placed.0, stamped)))))

  pub create_task : Env → CreateRequest → M S OpResult
  unfolding create_scope
  create_task env req s =
      Store.◌>>=◌
        (lift (do
          spec ← lookup_spec env.registry req.task_type
          validate_input env.registry req.task_type (defaulted_payload req.input)
          id ← given_id env req.id
          ok (spec, id)))
        (λ (checked : TypeSpec × String).
          Store.◌>>=◌ (st.do_tx env.cancelled (create_scope env checked.0 checked.1 req))
            (λ outcome. lift (ok (finish env outcome.0 outcome.1 (st.in_transaction s)))))
        s
