-- ===== src/Service.antt =====
-- service.go: the lifecycle operations over a store. The clock's reading, the directory, the
-- strategy, the registry, the handlers and the identifiers to come are in the environment.
pub mod Operations
pub mod Steps
pub mod Refinement
pub mod Failures
pub mod Atomic
pub mod Concurrency
use hmntsk.Prelude.{
  ℕ, zero, suc, String, ◌==◌, Bool, true, false, ◌&&◌, ◌||◌, not, List, [], ◌∷◌, ◌++◌, Option, none,
  some, ℤ, eqb_ℤ, is_nil, if◌then◌else◌,
}
use hmntsk.Status.{Status, reserved, in_progress, same}
use hmntsk.Operation.{op_claim, op_save_progress}
use hmntsk.Errors
use hmntsk.Errors.{
  Error, Result, ok, err, Formatter, validation_error, conflict_error, transition_error,
}
use hmntsk.Task.{Task, Time, EscalationPolicy, normalize_time}
use hmntsk.Event.{Event, TransitionRecord, records_of}
use hmntsk.Record.{Outcome, require_from, require_assignee, transition}
use hmntsk.Transitions.{
  claim, release, start, complete, fail, delegate, suspend, resume, escalate, cancel, or_now,
}
use hmntsk.Assignment.{Directory, Strategy, assign, authorize, authorize_delegate}
use hmntsk.Registry.{
  Registry, CreateRequest, lookup_spec, validate_input, validate_shape, validate_output, new_task,
}
use hmntsk.Store.{M, Store, continue, ◌>>=◌, ◌>>◌, lift}

-- `now` is what the clock reads in the call, `mint n` the n-th event identifier that the generator
-- gives in it, `new_id` the next task identifier, `cancelled` whether the context is cancelled by
-- the end of the scope, and `decode_patch` what the patch library makes of an RFC 6902 document.
pub record Env : Type 0 where
  pub now : Time
  pub mint : ℕ → Result String
  pub new_id : Result String
  pub cancelled : Bool
  pub formatter : Formatter
  pub resolver : Option Directory
  pub strategy : Strategy
  pub registry : Registry
  pub handlers : List (Event → Option Error)
  pub decode_patch : String → Result (String → Result String)

pub record TaskRequest : Type 0 where
  pub task_id : String
  pub actor : String
  pub version : Option ℤ
  pub comment : String

-- What an operation computes inside the transaction: the next task, its events and its records.
abbrev pub Produced : Type 0
Produced = Task × List Event × List TransitionRecord

abbrev pub Step : Type 0
Step = Task → Time → Result Produced

-- Result; `reported` are the dispatch errors that went to the error handler.
pub record OpResult : Type 0 where
  pub task : Task
  pub events : List Event
  pub pending : List Event
  pub reported : List Error

unfoldable pub stamp : Env → ℕ → List Event → Result (List Event)
stamp env n [] = ok []
stamp env n (e ∷ es) =
    let rest = stamp env (if e.id == "" then suc n else n) es in
    if e.id == ""
    then Errors.◌>>=◌ (env.mint n) (λ i. Errors.◌>>=◌ rest (λ r. ok (record e { id = i } ∷ r)))
    else Errors.◌>>=◌ rest (λ r. ok (e ∷ r))

abbrev handle_event : List (Event → Option Error) → Event → List Error
handle_event [] e = []
handle_event (h ∷ hs) e = elim (h e) [ none ↦ handle_event hs e | some x ↦ x ∷ handle_event hs e ]

-- The errors of the handlers, for each event in turn.
unfoldable pub deliver : List (Event → Option Error) → List Event → List Error
deliver hs [] = []
deliver hs (e ∷ es) = handle_event hs e ++ deliver hs es

-- When the host began the transaction, the events wait for the host to dispatch them.
unfoldable pub finish : Env → Task → List Event → Bool → OpResult
finish env task events true = record {
  task = task;
  events = events;
  pending = events;
  reported = [];
}
finish env task events false = record {
  task = task;
  events = events;
  pending = [];
  reported = deliver env.handlers events;
}

abbrev pub check_version : TaskRequest → Task → Result (Unit {0})
check_version req current = elim req.version [
  | none ↦ ok tt
  | some v ↦
      if eqb_ℤ v current.version then ok tt else err (conflict_error req.task_id v current.version)
]

abbrev pub require_task_id : TaskRequest → Result (Unit {0})
require_task_id req =
    if req.task_id == ""
    then err
        (validation_error "request" (record { pointer = "/taskId"; detail = "is required" } ∷ []))
    else ok tt

module _ {S : Type 0} (st : Store S) where
  -- The stamped events are also what the caller of persistOutcome goes on with.
  unfoldable pub persist_outcome : Env → List Event → List TransitionRecord → M S (List Event)
  persist_outcome env events records = do
    (if is_nil records then lift (ok tt) else st.append_history records)
    (if is_nil events
        then lift (ok [])
        else (do stamped ← lift (stamp env 0 events); st.append_events stamped; lift (ok stamped)))

  unfoldable pub mutate_scope : Env → TaskRequest → Step → M S (Task × List Event)
  mutate_scope env req step = do
    current ← st.get_task req.task_id
    lift (check_version req current)
    produced ← lift (step current env.now)
    st.update_task produced.0 current.version
    stamped ← persist_outcome env produced.1 produced.2
    lift (ok (produced.0, stamped))

  unfoldable pub mutate : Env → TaskRequest → Step → M S OpResult
  unfolding mutate_scope
  mutate env req step s =
      (do
        lift (require_task_id req)
        outcome ← st.do_tx env.cancelled (mutate_scope env req step)
        lift (ok (finish env outcome.0 outcome.1 (st.in_transaction s))))
        s
