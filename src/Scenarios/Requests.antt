-- ===== src/Scenarios/Requests.antt =====
-- Requests to the service over the in-memory store.
use hmntsk.Prelude.{
  get, contains, String, ◌==◌, ◌≡◌, refl, subst, Bool, true, false, List, [], ◌∷◌, none, some, pos,
  inc64, eq_iff, if◌then◌else◌,
}
use hmntsk.Status.{reserved}
use hmntsk.Operation.{op_claim}
use hmntsk.Errors.{Result, ok, err, conflict_error}
use hmntsk.Task.{Task}
use hmntsk.Event.{Event, records_of}
use hmntsk.Record.{transition}
use hmntsk.Transitions.{claim}
use hmntsk.Memstore.{
  do_tx, get_task, update_task, append_history, append_events, in_transaction, World, mem_store,
}
use hmntsk.Memstore.Laws.{mem_laws}
use hmntsk.Assignment.{single_candidate_strategy, authorize, is_eligible}
use hmntsk.Service.{persist_outcome, stamp, finish, deliver, Env, TaskRequest, OpResult, mutate}
use hmntsk.Service.Operations.{claim_step}
use hmntsk.Service.Steps.{claim_op, step_of, Follows, step_of-Follows}
use hmntsk.Service.Refinement.{mutate_spec, IsKeyed}
use hmntsk.Service.Atomic.{seen, mutate-refines}
use hmntsk.Service.Concurrency.{some-injective, keeps_id, no_lost_update}
use hmntsk.Scenarios.{offered}

abbrev host : Env
host = record {
  now = 5000;
  mint = λ n. ok "e1";
  new_id = ok "t2";
  cancelled = false;
  formatter = record { quote = λ s. s; decimal = λ n. ""; items = λ xs. "" };
  resolver = none;
  strategy = single_candidate_strategy;
  registry = [];
  handlers = [];
  decode_patch = λ p. ok (λ d. ok d);
}

abbrev by_ann : TaskRequest
by_ann = record { task_id = "t1"; actor = "ann"; version = some (pos 1); comment = "" }

abbrev by_bob : TaskRequest
by_bob = record by_ann { actor = "bob" }

abbrev stocked : World
stocked = record {
  committed = record { tasks = ("t1", offered) ∷ []; history = λ k. []; outbox = [] };
  tx = none;
}

abbrev claimed : Task × List Event
claimed = transition offered op_claim reserved "ann" "" 5000 (λ n. record n { assignee = "ann" })

claim_runs :
    step_of host by_ann claim_op offered 5000 ≡ ok (claimed.0, claimed.1, records_of claimed.1)
unfolding claim_step claim authorize is_eligible contains
claim_runs = refl

step_of-Follows_example : Follows offered claimed.0
step_of-Follows_example =
    step_of-Follows host by_ann claim_op offered 5000 (claimed.0, claimed.1, records_of claimed.1)
      claim_runs

under_key :
    (b : Bool) (k : String) (t : Task)
    → ("t1" == k) ≡ b
    → (if b then some offered else none) ≡ some t
    → t.id ≡ k
under_key true k t e h = subst (λ (x : Task). x.id ≡ k) (some-injective h) ((eq_iff "t1" k).0 e)
under_key false k t e h = cc

stocked-IsKeyed : IsKeyed (mem_laws.view stocked)
unfolding mem_laws get
stocked-IsKeyed k t h = under_key ("t1" == k) k t refl h

mutate-refines_example :
    seen mem_store mem_laws (mutate mem_store host by_ann (step_of host by_ann claim_op) stocked)
    ≡ mutate_spec host by_ann (step_of host by_ann claim_op) (mem_laws.view stocked)
unfolding in_transaction
mutate-refines_example =
    mutate-refines mem_store mem_laws host by_ann (step_of host by_ann claim_op) stocked refl
      stocked-IsKeyed (keeps_id host by_ann claim_op)

abbrev first : Result OpResult × World
first = mutate mem_store host by_ann (step_of host by_ann claim_op) stocked

abbrev named : List Event → List Event
named [] = []
named (e ∷ es) = record e { id = "e1" } ∷ named es

abbrev answer : OpResult
answer = record { task = claimed.0; events = named claimed.1; pending = []; reported = [] }

first_succeeds : first.0 ≡ ok answer
unfolding mutate do_tx get_task get claim_step claim authorize is_eligible contains update_task
    transition persist_outcome append_history stamp append_events finish in_transaction deliver
first_succeeds = refl

no_lost_update_example :
    seen mem_store mem_laws (mutate mem_store host by_bob (step_of host by_bob claim_op) first.1)
    ≡ (err (conflict_error "t1" (pos 1) (inc64 (pos 1))), mem_laws.view first.1)
unfolding in_transaction
no_lost_update_example =
    no_lost_update mem_store mem_laws host host by_ann by_bob claim_op claim_op stocked (pos 1) refl
      stocked-IsKeyed refl refl refl first_succeeds
