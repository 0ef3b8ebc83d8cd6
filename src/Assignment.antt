-- ===== src/Assignment.antt =====
-- assignment.go: who may act on a task, and where a new task goes. The host's directory and its
-- assignment strategy are arguments.
pub mod Eligibility
pub mod Fixed
pub mod Placement
use hmntsk.Prelude.{
  String, ◌==◌, Bool, true, false, ◌&&◌, not, List, [], ◌∷◌, Option, none, some, is_nil, contains,
  add_key, delete_key, sort_strings, if◌then◌else◌,
}
use hmntsk.Operation.{
  Operation, op_create, op_claim, op_release, op_start, op_save_progress, op_complete, op_fail,
  op_delegate, op_suspend, op_resume, op_escalate, op_cancel, op_obsolete, op_fault,
}
use hmntsk.Errors.{
  Error, Result, ok, err, ◌>>=◌, ◌>>◌, ◌<>◌, Formatter, message, authorization_error,
  group_resolution_error, configuration_error,
}
use hmntsk.Task.{Task, Time, CandidatePool}
use hmntsk.Record.{Outcome, require_actor, require_assignee, require_assignee_if_held}
use hmntsk.Transitions.{fault, activate}

-- GroupResolver, which the host implements.
pub record Directory : Type 0 where
  pub groups_of : String → Result (List String)
  pub members_of : String → Result (List String)

-- A resolver's own error is wrapped, and is never a denial.
abbrev pub wrap {ℓ} : {A : Type ℓ} → String → List String → Result A → Result A
wrap actor groups (ok a) = ok a
wrap actor groups (err cause) = err (group_resolution_error actor groups cause)

abbrev pub no_directory : Error
no_directory = configuration_error "no group resolver is configured"

-- Is one of the actor's groups among the pool's?
unfoldable pub shares_group : List String → List String → Bool
shares_group [] groups = false
shares_group (g ∷ gs) groups =
    let rest = shares_group gs groups in if contains groups g then true else rest

eligible_by_group : Option Directory → CandidatePool → String → Result Bool
unfolding shares_group
eligible_by_group none pool actor = err (group_resolution_error actor pool.groups no_directory)
eligible_by_group (some d) pool actor = do
  gs ← wrap actor pool.groups (d.groups_of actor)
  ok (shares_group gs pool.groups)

unfoldable pub is_eligible : Option Directory → CandidatePool → String → Result Bool
unfolding eligible_by_group
is_eligible resolver pool actor =
    if actor == ""
    then ok false
    else if contains pool.excluded actor
    then ok false
    else if contains pool.users actor
    then ok true
    else if is_nil pool.groups
    then ok false
    else eligible_by_group resolver pool actor

-- The loop that adds named actors to the set.
unfoldable pub add_named : List String → List String → List String
add_named set [] = set
add_named set (u ∷ us) = add_named (if u == "" then set else add_key set u) us

add_group : Option Directory → CandidatePool → String → List String → Result (List String)
add_group none pool g set = err (group_resolution_error "" pool.groups no_directory)
add_group (some d) pool g set = do
  members ← wrap "" (g ∷ []) (d.members_of g)
  ok (add_named set members)

-- The loop over the pool's groups.
unfoldable pub add_groups :
    Option Directory → CandidatePool → List String → List String → Result (List String)
unfolding add_group
add_groups resolver pool [] set = ok set
add_groups resolver pool (g ∷ gs) set = do
  set' ← add_group resolver pool g set
  add_groups resolver pool gs set'

unfoldable pub delete_all : List String → List String → List String
delete_all set [] = set
delete_all set (x ∷ xs) = delete_all (delete_key set x) xs

unfoldable pub resolve_candidates : Option Directory → CandidatePool → Result (List String)
resolve_candidates resolver pool = do
  set ← add_groups resolver pool pool.groups (add_named [] pool.users)
  ok (sort_strings (delete_all set pool.excluded))

-- AssignmentStrategy, and the engine's default.
abbrev pub Strategy : Type 0
Strategy = Task → List String → Result String

abbrev pub single_candidate : List String → String
single_candidate (a ∷ []) = a
single_candidate _ = ""

abbrev pub single_candidate_strategy : Strategy
single_candidate_strategy task eligible = ok (single_candidate eligible)

place : Formatter → Task → List String → Time → Result String → Outcome
place f task eligible now (err e) = fault task ("assignment strategy failed: " <> message f e) now
place f task eligible now (ok assignee) =
    if not (assignee == "") && not (contains eligible assignee)
    then fault task ("assignment strategy chose an ineligible actor: " <> assignee) now
    else activate task task.created_by assignee now

assign_among : Formatter → Strategy → Task → Time → Result (List String) → Outcome
unfolding place
assign_among f strategy task now (err e) =
    fault task ("candidate resolution failed: " <> message f e) now
assign_among f strategy task now (ok eligible) =
    if is_nil eligible
    then fault task "no actor is eligible for this task" now
    else place f task eligible now (strategy task eligible)

abbrev or_default : Option Strategy → Strategy
or_default none = single_candidate_strategy
or_default (some s) = s

unfoldable pub assign : Formatter → Option Directory → Option Strategy → Task → Time → Outcome
unfolding assign_among
assign f resolver strategy task now =
    assign_among f (or_default strategy) task now (resolve_candidates resolver task.candidates)

-- An eligibility verdict as an error; a resolver's fault passes through.
unfoldable pub require_eligible : Option Directory → Task → Operation → String → Result (Unit {0})
require_eligible resolver task op actor = do
  require_actor task.id op actor
  eligible ← is_eligible resolver task.candidates actor
  if eligible
      then ok tt
      else err (authorization_error task.id actor op "actor is not in the task's candidate pool")

unfoldable pub authorize : Option Directory → Task → Operation → String → Result (Unit {0})
unfolding require_eligible require_assignee require_assignee_if_held
authorize resolver task op_claim actor = require_eligible resolver task op_claim actor
authorize resolver task op_release actor = require_assignee task op_release actor
authorize resolver task op_start actor = require_assignee task op_start actor
authorize resolver task op_save_progress actor = require_assignee task op_save_progress actor
authorize resolver task op_complete actor = require_assignee task op_complete actor
authorize resolver task op_fail actor = require_assignee task op_fail actor
authorize resolver task op_delegate actor = require_assignee task op_delegate actor
authorize resolver task op_suspend actor = require_assignee_if_held task op_suspend actor
authorize resolver task op_resume actor = require_assignee_if_held task op_resume actor
authorize resolver task op actor = ok tt

unfoldable pub authorize_delegate : Option Directory → Task → String → String → Result (Unit {0})
unfolding require_eligible require_assignee
authorize_delegate resolver task actor target = do
  require_assignee task op_delegate actor
  require_eligible resolver task op_delegate target
