-- ===== src/Registry.antt =====
-- registry.go and create.go: the task types and the task that a request creates. The JSON Schema
-- compiler and the comparison of JSON documents are arguments: both rest on third-party or
-- standard JSON code.
use hmntsk.Prelude.{
  String, ◌==◌, Bool, ◌&&◌, not, Option, none, some, ℤ, pos, ltb_ℤ, eqb_ℤ, Map, get, put, is_some,
  if◌then◌else◌,
}
use hmntsk.Status.{created, unset, priority_valid}
use hmntsk.Errors.{
  Result, ok, err, ◌>>=◌, ◌<>◌, Formatter, message, unregistered_type_error, configuration_error,
}
use hmntsk.Task.{
  Task, Time, CandidatePool, EscalationPolicy, CorrelationData, CallbackTarget, normalize_time,
  normalize_time_ptr, add_duration, pool_equal, policy_equal,
}

pub record TypeSpec : Type 0 where
  pub name : String
  pub title : String
  pub description : String
  pub input_schema : String
  pub output_schema : String
  pub default_priority : ℤ
  pub default_deadline : ℤ
  pub default_escalation : Option EscalationPolicy
  pub default_assignment : CandidatePool
  pub metadata : Map String

-- A compiled schema: what it says of a payload, under the subject's name.
abbrev pub Validator : Type 0
Validator = String → String → Result (Unit {0})

-- The schema compiler, its relaxation to shapes, and the comparisons that Go's library makes.
pub record Compiler : Type 0 where
  pub compile : String → String → Result Validator
  pub compile_relaxed : String → String → Result Validator
  pub equal_json : String → String → Bool
  pub equal_maps : Map String → Map String → Bool

pub record RegisteredType : Type 0 where
  pub spec : TypeSpec
  pub input : Validator
  pub shape : Validator
  pub output : Validator

abbrev pub Registry : Type 0
Registry = Map RegisteredType

unfoldable pub spec_equal : Compiler → TypeSpec → TypeSpec → Bool
spec_equal c s o =
    s.name == o.name
    && s.title == o.title
    && s.description == o.description
    && eqb_ℤ s.default_priority o.default_priority
    && eqb_ℤ s.default_deadline o.default_deadline
    && policy_equal s.default_escalation o.default_escalation
    && pool_equal s.default_assignment o.default_assignment
    && c.equal_maps s.metadata o.metadata
    && c.equal_json s.input_schema o.input_schema
    && c.equal_json s.output_schema o.output_schema

abbrev invalid_schema : Formatter → String → String → Result Validator → Result Validator
invalid_schema f name which (ok v) = ok v
invalid_schema f name which (err e) = err (
    configuration_error
      ("task type " <> f.quote name <> " has an invalid " <> which <> " schema: " <> message f e))

compile_type : Formatter → Compiler → TypeSpec → Result RegisteredType
compile_type f c spec = do
  input ← invalid_schema f spec.name "input" (c.compile (spec.name <> ".input") spec.input_schema)
  shape ← c.compile_relaxed spec.name spec.input_schema
  output ←
      invalid_schema f spec.name "output" (c.compile (spec.name <> ".output") spec.output_schema)
  ok (record { spec = spec; input = input; shape = shape; output = output })

-- Adding under a name that may be taken: an equal registration is accepted and changes nothing.
add_type :
    Formatter
    → Compiler
    → Registry
    → TypeSpec
    → RegisteredType
    → Option RegisteredType
    → Result Registry
add_type f c r spec entry none = ok (put r spec.name entry)
add_type f c r spec entry (some existing) =
    if spec_equal c existing.spec spec
    then ok r
    else err (
        configuration_error (
          "task type "
          <> f.quote spec.name
          <> " is already registered with a different configuration"))

unfoldable pub register : Formatter → Compiler → Registry → TypeSpec → Result Registry
unfolding compile_type add_type
register f c r spec =
    if spec.name == ""
    then err (configuration_error "task type name must not be empty")
    else if not (priority_valid spec.default_priority)
    then err (
        configuration_error (
          "task type "
          <> f.quote spec.name
          <> ": default priority "
          <> f.decimal spec.default_priority
          <> " is outside the range 0..10"))
    else if ltb_ℤ spec.default_deadline (pos 0)
    then err (
        configuration_error
          ("task type " <> f.quote spec.name <> ": default deadline must not be negative"))
    else (do entry ← compile_type f c spec; add_type f c r spec entry (get r spec.name))

abbrev registered : String → Option RegisteredType → Result RegisteredType
registered name none = err (unregistered_type_error name)
registered name (some e) = ok e

unfoldable pub lookup_type : Registry → String → Result RegisteredType
lookup_type r name = registered name (get r name)

unfoldable pub lookup_spec : Registry → String → Result TypeSpec
unfolding lookup_type
lookup_spec r name = do entry ← lookup_type r name; ok entry.spec

unfoldable pub has_type : Registry → String → Bool
has_type r name = is_some (get r name)

unfoldable pub validate_input : Registry → String → String → Result (Unit {0})
unfolding lookup_type
validate_input r name payload = do entry ← lookup_type r name; entry.input "input" payload

unfoldable pub validate_shape : Registry → String → String → Result (Unit {0})
unfolding lookup_type
validate_shape r name payload = do entry ← lookup_type r name; entry.shape "progress" payload

unfoldable pub validate_output : Registry → String → String → Result (Unit {0})
unfolding lookup_type
validate_output r name payload = do entry ← lookup_type r name; entry.output "output" payload

pub record CreateRequest : Type 0 where
  pub task_type : String
  pub actor : String
  pub id : String
  pub input : String
  pub priority : Option ℤ
  pub due_at : Option Time
  pub deadline : Option ℤ
  pub candidates : Option CandidatePool
  pub escalation : Option EscalationPolicy
  pub correlation : CorrelationData
  pub callback : Option CallbackTarget

abbrev pub or_value {ℓ} : {A : Type ℓ} → Option A → A → A
or_value none d = d
or_value (some a) d = a

abbrev or_policy : Option EscalationPolicy → Option EscalationPolicy → Option EscalationPolicy
or_policy none d = d
or_policy (some p) d = some p

default_due : TypeSpec → Time → Option Time
default_due spec at =
    if ltb_ℤ (pos 0) spec.default_deadline
    then some (normalize_time (add_duration at spec.default_deadline))
    else none

deadline_due : TypeSpec → Option ℤ → Time → Option Time
unfolding default_due
deadline_due spec none at = default_due spec at
deadline_due spec (some d) at =
    if ltb_ℤ (pos 0) d then some (normalize_time (add_duration at d)) else default_due spec at

unfoldable pub resolve_due_at : TypeSpec → CreateRequest → Time → Option Time
unfolding deadline_due normalize_time_ptr
resolve_due_at spec req at = elim req.due_at [
  | some due ↦ some (normalize_time due)
  | none ↦ deadline_due spec req.deadline at
]

unfoldable pub new_task : TypeSpec → String → CreateRequest → Time → Task
unfolding normalize_time
new_task spec id req now = record {
  id = id;
  task_type = spec.name;
  version = pos 0;
  status = created;
  suspended_from = unset;
  priority = or_value req.priority spec.default_priority;
  assignee = "";
  candidates = or_value req.candidates spec.default_assignment;
  correlation = req.correlation;
  callback = req.callback;
  escalation = or_policy req.escalation spec.default_escalation;
  input = req.input;
  progress = "";
  output = "";
  reason = "";
  created_by = req.actor;
  escalation_count = pos 0;
  created_at = normalize_time now;
  updated_at = normalize_time now;
  due_at = resolve_due_at spec req (normalize_time now);
  started_at = none;
  closed_at = none;
  escalated_at = none;
  locked_by = "";
  locked_until = none;
}
