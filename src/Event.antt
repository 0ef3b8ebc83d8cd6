-- ===== src/Event.antt =====
-- history.go and event.go: transition records and the events that carry them.
use hmntsk.Prelude.{String, ℤ, Option, List, [], ◌∷◌}
use hmntsk.Status.{Status}
use hmntsk.Operation.{Operation, EventType}
use hmntsk.Task.{Time, CandidatePool, CorrelationData, CallbackTarget}

pub record TransitionRecord : Type 0 where
  pub task_id : String
  pub version : ℤ
  pub operation : Operation
  pub from : Status
  pub to : Status
  pub actor : String
  pub comment : String
  pub at : Time

pub record Event : Type 0 where
  pub id : String
  pub event_type : EventType
  pub task_id : String
  pub task_type : String
  pub status : Status
  pub version : ℤ
  pub actor : String
  pub assignee : String
  pub candidates : CandidatePool
  pub previous_assignee : String
  pub created_by : String
  pub occurred_at : Time
  pub correlation : CorrelationData
  pub callback : Option CallbackTarget
  pub transition : TransitionRecord
  pub reason : String
  pub output : String

-- recordsOf of service.go: the transition records that the events carry.
abbrev pub records_of : List Event → List TransitionRecord
records_of [] = []
records_of (e ∷ es) = e.transition ∷ records_of es
