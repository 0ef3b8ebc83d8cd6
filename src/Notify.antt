-- ===== src/Notify.antt =====
-- notify/notification.go, notify/errors.go and notify/clock.go: notifications, the drafts they are
-- published from, their validation, and the errors of the notification library. A copy (Clone) is
-- the value itself, since the model has no aliasing. `len` of a text counts its bytes in UTF-8.
pub mod Port
pub mod Memory
pub mod Closing
pub mod Marking
pub mod Listing
pub mod Pruning
pub mod Publishing
pub mod Retaining
pub mod Dispatching
pub mod Mailing
pub mod Leases
pub mod Email
use Prim.Native.String.{len}
use hmntsk.Prelude.{
  String, ◌==◌, Bool, true, false, ◌&&◌, not, List, [], ◌∷◌, ◌++◌, Option, none, some, ℤ, pos, ltb,
  ltb_ℤ, Map, if◌then◌else◌,
}
use hmntsk.Task.{Time}

-- The three states, and any other text a query may name.
pub data State : Type 0 where
  state_active state_read state_closed : State
  other_state : String → State

unfoldable pub is_valid_state : State → Bool
is_valid_state state_active = true
is_valid_state state_read = true
is_valid_state state_closed = true
is_valid_state (other_state s) = false

-- s == t
unfoldable pub same_state : State → State → Bool
same_state state_active state_active = true
same_state state_read state_read = true
same_state state_closed state_closed = true
same_state (other_state s) (other_state t) = s == t
same_state s t = false

-- string(s)
unfoldable pub state_name : State → String
state_name state_active = "ACTIVE"
state_name state_read = "READ"
state_name state_closed = "CLOSED"
state_name (other_state s) = s

pub record Notification : Type 0 where
  pub id : String
  pub recipient : String
  pub source_id : String
  pub subject : String
  pub subject_version : ℤ
  pub kind : String
  pub state : State
  pub closed_reason : String
  pub title : String
  pub links : Map String
  pub data_text : String
  pub created_at : Time
  pub read_at : Option Time
  pub closed_at : Option Time
  pub inactive_at : Option Time

pub record Draft : Type 0 where
  pub recipient : String
  pub source_id : String
  pub subject : String
  pub kind : String
  pub title : String
  pub subject_version : ℤ
  pub links : Map String
  pub data_text : String
  pub coalesce : Bool

pub record ValidationIssue : Type 0 where
  pub pointer : String
  pub detail : String

-- `foreign` is an error of code that is not under src: a generator, a broadcaster, a mailer.
pub data Error : Type 0 where
  not_found unauthorized too_many_streams unavailable : Error
  configuration_error : String → Error
  validation_error : String → List ValidationIssue → Error
  foreign : String → Error

pub data Result {ℓ} (A : Type ℓ) : Type ℓ where
  ok : A → Result A
  err : Error → Result A

unfoldable pub validate_identifier : String → String → List ValidationIssue
validate_identifier pointer value =
    if value == ""
    then record { pointer = pointer; detail = "is required" } ∷ []
    else if ltb 255 (len value)
    then record { pointer = pointer; detail = "is longer than 255 bytes" } ∷ []
    else []

-- What a draft and a close successor have in common.
pub record Content : Type 0 where
  pub source_id : String
  pub subject : String
  pub kind : String
  pub subject_version : ℤ
  pub data_text : String

abbrev issue_if : Bool → String → String → List ValidationIssue
issue_if true pointer detail = record { pointer = pointer; detail = detail } ∷ []
issue_if false pointer detail = []

unfoldable validate_kind : String → List ValidationIssue
validate_kind kind =
    if kind == ""
    then record { pointer = "/kind"; detail = "is required" } ∷ []
    else issue_if (ltb 100 (len kind)) "/kind" "is longer than 100 bytes"

-- `valid_json` is json.Valid.
unfoldable pub validate_content :
    (valid_json : String → Bool) → Content → Bool → List ValidationIssue
unfolding validate_identifier validate_kind
validate_content valid_json c with_subject =
    validate_identifier "/sourceId" c.source_id
    ++ (if with_subject then validate_identifier "/subject" c.subject else [])
    ++ validate_kind c.kind
    ++ issue_if (ltb_ℤ c.subject_version (pos 0)) "/subjectVersion" "must not be negative"
    ++ issue_if (ltb 0 (len c.data_text) && not (valid_json c.data_text)) "/data"
        "is not valid JSON"

-- No error where there is no issue.
unfoldable pub invalid : String → List ValidationIssue → Option Error
invalid subject [] = none
invalid subject (i ∷ is) = some (validation_error subject (i ∷ is))

unfoldable pub validate_draft : (valid_json : String → Bool) → Draft → Option Error
unfolding validate_content validate_identifier invalid
validate_draft valid_json d = invalid "draft" (
    validate_content valid_json
      (record {
        source_id = d.source_id;
        subject = d.subject;
        kind = d.kind;
        subject_version = d.subject_version;
        data_text = d.data_text;
      })
      true
    ++ validate_identifier "/recipient" d.recipient)
