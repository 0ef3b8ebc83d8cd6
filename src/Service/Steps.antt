-- ===== src/Service/Steps.antt =====
-- service.go: every operation that runs in `mutate`, under one name, and what its step keeps.
use hmntsk.Prelude.{String, ◌≡◌, refl, subst, List, inc64, arith}
use hmntsk.Errors.{ok-injective, Result, ok, err, ◌>>=◌}
use hmntsk.Task.{Task, Time}
use hmntsk.Event.{Event, records_of}
use hmntsk.Record.{Outcome, transition, require_from, require_assignee}
use hmntsk.Lifecycle.{
  Call, apply, claims, releases, starts, completes, fails, delegates, suspends, resumes, escalates,
  cancels,
}
use hmntsk.Lifecycle.Frame.{apply-Kept}
use hmntsk.Lifecycle.Reports.{apply-Moved}
use hmntsk.Lifecycle.Invariant.{IsWellFormed, apply-IsWellFormed}
use hmntsk.Service.{Env, TaskRequest, Produced, Step}
use hmntsk.Service.Operations.{
  claim_step, release_step, start_step, complete_step, fail_step, delegate_step, suspend_step,
  resume_step, escalation_policy, escalate_step, cancel_step, save_progress_step, defaulted_payload,
}
use hmntsk.Assignment.{authorize, authorize_delegate}
use hmntsk.Registry.{validate_output}
use hmntsk.Operation.{op_claim}
use hmntsk.Status.{valid, is_suspendable, is_terminal}

pub data Op : Type 0 where
  claim_op release_op start_op fail_op suspend_op resume_op escalate_op cancel_op : Op
  complete_op delegate_op save_progress_op : String → Op

abbrev pub step_of : Env → TaskRequest → Op → Step
step_of env req claim_op = claim_step env req
step_of env req release_op = release_step req
step_of env req start_op = start_step req
step_of env req fail_op = fail_step req
step_of env req suspend_op = suspend_step req
step_of env req resume_op = resume_step req
step_of env req escalate_op = escalate_step env req
step_of env req cancel_op = cancel_step req
step_of env req (complete_op output) = complete_step env req output
step_of env req (delegate_op target) = delegate_step env req target
step_of env req (save_progress_op patch) = save_progress_step env req patch

-- What every step gives: the same task in its next version, still well-formed.
pub record Follows (t t' : Task) : Type 0 where
  pub same_id : t'.id ≡ t.id
  pub next_version : t'.version ≡ inc64 t.version
  pub still : IsWellFormed t → IsWellFormed t'

apply-Follows :
    (t : Task) (c : Call) (now : Time) (r : Task × List Event)
    → apply t c now ≡ ok r
    → Follows t r.0
apply-Follows t c now r h = record {
  same_id = (apply-Kept t c now h).0.same_id;
  next_version = (apply-Moved t c now h).0;
  still = λ w. apply-IsWellFormed t c now w h;
}

-- A step that records an outcome, possibly after one more check.
recorded-Follows :
    (t : Task) (c : Call) (now : Time) (check : Result (Unit {0})) (p : Produced)
    → (apply t c now >>= λ r. check >>= λ _. ok (r.0, r.1, records_of r.1)) ≡ ok p
    → Follows t p.0
recorded-Follows t c now check p h = follow (apply t c now) check refl h
  where
    follow :
        (o : Outcome) (k : Result (Unit {0}))
        → apply t c now ≡ o
        → (o >>= λ r. k >>= λ _. ok (r.0, r.1, records_of r.1)) ≡ ok p
        → Follows t p.0
    follow (ok r) (ok _) e h =
        subst (λ (q : Produced). Follows t q.0) (ok-injective h) (apply-Follows t c now r e)
    follow (ok r) (err x) e h = cc
    follow (err x) k e h = cc

save-IsWellFormed :
    (env : Env) (req : TaskRequest) (patch : String) (t : Task) (now : Time) (p : Produced)
    → save_progress_step env req patch t now ≡ ok p
    → IsWellFormed t
    → IsWellFormed p.0
unfolding save_progress_step transition require_from require_assignee valid is_suspendable
    is_terminal
save-IsWellFormed env req patch t now p h w = ground arith

save-Follows :
    (env : Env) (req : TaskRequest) (patch : String) (t : Task) (now : Time) (p : Produced)
    → save_progress_step env req patch t now ≡ ok p
    → Follows t p.0
save-Follows env req patch t now p h = record {
  same_id = unfold save_progress_step transition in ground arith;
  next_version = unfold save_progress_step transition in ground arith;
  still = λ w. save-IsWellFormed env req patch t now p h w;
}

-- Every step that succeeds gives the same task in its next version, and keeps it well-formed.
pub step_of-Follows :
    (env : Env) (req : TaskRequest) (op : Op) (t : Task) (now : Time) (p : Produced)
    → step_of env req op t now ≡ ok p
    → Follows t p.0
unfolding apply claim_step release_step start_step fail_step suspend_step resume_step escalate_step
    cancel_step complete_step delegate_step
step_of-Follows env req claim_op t now p h =
    recorded-Follows t (claims req.actor) now (authorize env.resolver t op_claim req.actor) p h
step_of-Follows env req release_op t now p h =
    recorded-Follows t (releases req.actor req.comment) now (ok tt) p h
step_of-Follows env req start_op t now p h = recorded-Follows t (starts req.actor) now (ok tt) p h
step_of-Follows env req fail_op t now p h =
    recorded-Follows t (fails req.actor req.comment) now (ok tt) p h
step_of-Follows env req suspend_op t now p h =
    recorded-Follows t (suspends req.actor req.comment) now (ok tt) p h
step_of-Follows env req resume_op t now p h =
    recorded-Follows t (resumes req.actor req.comment) now (ok tt) p h
step_of-Follows env req escalate_op t now p h =
    recorded-Follows t (escalates req.actor (escalation_policy env.registry t) req.comment) now
      (ok tt) p h
step_of-Follows env req cancel_op t now p h =
    recorded-Follows t (cancels req.actor req.comment) now (ok tt) p h
step_of-Follows env req (complete_op output) t now p h =
    recorded-Follows t (completes req.actor output req.comment) now
      (validate_output env.registry t.task_type (defaulted_payload output)) p h
step_of-Follows env req (delegate_op target) t now p h =
    recorded-Follows t (delegates req.actor target req.comment) now
      (authorize_delegate env.resolver t req.actor target) p h
step_of-Follows env req (save_progress_op patch) t now p h = save-Follows env req patch t now p h
