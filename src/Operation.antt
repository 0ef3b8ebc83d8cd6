-- ===== src/Operation.antt =====
-- history.go: the lifecycle operations. event.go: the kinds of event, one for each operation but
-- SaveProgress.
use hmntsk.Prelude.{ℕ, String, Bool, false, ◌||◌, List, [], ◌∷◌, Option, none, some, eqb}

pub data Operation : Type 0 where
  op_create op_claim op_release op_start op_save_progress op_complete op_fail : Operation
  op_delegate op_suspend op_resume op_escalate op_cancel op_obsolete op_fault : Operation

pub data EventType : Type 0 where
  event_created event_claimed event_released event_started event_delegated : EventType
  event_completed event_failed event_suspended event_resumed event_escalated : EventType
  event_cancelled event_obsoleted event_errored : EventType
  -- the empty string, which the catalogue does not hold
  untyped : EventType

abbrev pub operation_name : Operation → String
operation_name op_create = "Create"
operation_name op_claim = "Claim"
operation_name op_release = "Release"
operation_name op_start = "Start"
operation_name op_save_progress = "SaveProgress"
operation_name op_complete = "Complete"
operation_name op_fail = "Fail"
operation_name op_delegate = "Delegate"
operation_name op_suspend = "Suspend"
operation_name op_resume = "Resume"
operation_name op_escalate = "Escalate"
operation_name op_cancel = "Cancel"
operation_name op_obsolete = "Obsolete"
operation_name op_fault = "Fault"

-- The map `operationEventTypes`; a missing key is `none`.
unfoldable pub event_type_for_operation : Operation → Option EventType
event_type_for_operation op_create = some event_created
event_type_for_operation op_claim = some event_claimed
event_type_for_operation op_release = some event_released
event_type_for_operation op_start = some event_started
event_type_for_operation op_delegate = some event_delegated
event_type_for_operation op_complete = some event_completed
event_type_for_operation op_fail = some event_failed
event_type_for_operation op_suspend = some event_suspended
event_type_for_operation op_resume = some event_resumed
event_type_for_operation op_escalate = some event_escalated
event_type_for_operation op_cancel = some event_cancelled
event_type_for_operation op_obsolete = some event_obsoleted
event_type_for_operation op_fault = some event_errored
event_type_for_operation op_save_progress = none

-- Indexing the map: a missing key reads as the empty string.
abbrev pub or_untyped : Option EventType → EventType
or_untyped none = untyped
or_untyped (some e) = e

abbrev pub event_code : EventType → ℕ
event_code event_created = 0
event_code event_claimed = 1
event_code event_released = 2
event_code event_started = 3
event_code event_delegated = 4
event_code event_completed = 5
event_code event_failed = 6
event_code event_suspended = 7
event_code event_resumed = 8
event_code event_escalated = 9
event_code event_cancelled = 10
event_code event_obsoleted = 11
event_code event_errored = 12
event_code untyped = 13

abbrev pub event_catalogue : List EventType
event_catalogue =
    event_created ∷ event_claimed ∷ event_released ∷ event_started ∷ event_delegated
    ∷ event_completed ∷ event_failed ∷ event_suspended ∷ event_resumed ∷ event_escalated
    ∷ event_cancelled ∷ event_obsoleted ∷ event_errored ∷ []

abbrev in_catalogue : List EventType → EventType → Bool
in_catalogue [] e = false
in_catalogue (x ∷ xs) e = eqb (event_code e) (event_code x) || in_catalogue xs e

unfoldable pub event_type_valid : EventType → Bool
event_type_valid e = in_catalogue event_catalogue e
