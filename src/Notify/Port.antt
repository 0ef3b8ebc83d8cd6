-- ===== src/Notify/Port.antt =====
-- notify/store.go: the requests to a store of notifications and its results, their validation, and
-- the stamping of successors.
use Prim.Native.String.{len}
use hmntsk.Prelude.{
  ℕ, ◌+◌, suc, String, ◌==◌, Bool, true, false, ◌||◌, List, [], ◌∷◌, ◌++◌, Option, none, some, ℤ,
  pos, ltb, ltb_ℤ, contains, Map,
}
use hmntsk.Errors.{Formatter, ◌<>◌}
use hmntsk.Task.{Time}
use hmntsk.Notify.{
  state_active, Notification, ValidationIssue, Error, Result, ok, err, validate_identifier,
  validate_content, invalid,
}

-- A notification that is stamped with its identifier, its creation time and its state.
pub record Insertion : Type 0 where
  pub notification : Notification
  pub coalesce : Bool

pub record InsertResult : Type 0 where
  pub created : List Notification
  pub duplicates : ℕ
  pub suppressed : ℕ
  pub coalesced : ℕ

abbrev pub no_insertions : InsertResult
no_insertions = record { created = []; duplicates = 0; suppressed = 0; coalesced = 0 }

unfoldable pub add_result : InsertResult → InsertResult → InsertResult
add_result r other = record {
  created = r.created ++ other.created;
  duplicates = r.duplicates + other.duplicates;
  suppressed = r.suppressed + other.suppressed;
  coalesced = r.coalesced + other.coalesced;
}

pub record Successor : Type 0 where
  pub source_id : String
  pub kind : String
  pub title : String
  pub subject_version : ℤ
  pub links : Map String
  pub data_text : String

pub record CloseRequest : Type 0 where
  pub subject : String
  pub kinds : List String
  pub version : ℤ
  pub reason : String
  pub except_for : String
  pub successor : Option Successor
  pub successor_skip : List String

abbrev pub issue_if : Bool → String → String → List ValidationIssue
issue_if true pointer detail = record { pointer = pointer; detail = detail } ∷ []
issue_if false pointer detail = []

-- The kinds from position i on.
unfoldable kind_issues : Formatter → ℕ → List String → List ValidationIssue
kind_issues f i [] = []
kind_issues f i (kind ∷ kinds) =
    issue_if (kind == "" || ltb 100 (len kind)) ("/kinds/" <> f.decimal (pos i))
      "must be between 1 and 100 bytes"
    ++ kind_issues f (suc i) kinds

unfoldable pub prefix_issues : String → List ValidationIssue → List ValidationIssue
prefix_issues prefix [] = []
prefix_issues prefix (i ∷ is) =
    record { pointer = prefix <> i.pointer; detail = i.detail } ∷ prefix_issues prefix is

unfoldable successor_issues : (valid_json : String → Bool) → Option Successor → List ValidationIssue
unfolding prefix_issues
successor_issues valid_json none = []
successor_issues valid_json (some s) = prefix_issues "/successor" (
    validate_content valid_json
      (record {
        source_id = s.source_id;
        subject = "";
        kind = s.kind;
        subject_version = s.subject_version;
        data_text = s.data_text;
      })
      false)

unfoldable pub validate_close :
    Formatter → (valid_json : String → Bool) → CloseRequest → Option Error
unfolding kind_issues successor_issues
validate_close f valid_json r = invalid "close" (
    validate_identifier "/subject" r.subject
    ++ issue_if (ltb_ℤ r.version (pos 0)) "/version" "must not be negative"
    ++ kind_issues f 0 r.kinds
    ++ issue_if (ltb 255 (len r.reason)) "/reason" "is longer than 255 bytes"
    ++ successor_issues valid_json r.successor)

-- A generator of identifiers as its state: a call returns an identifier, or fails, and the state
-- after it.
pub record IdGenerator (G : Type 0) : Type 0 where
  pub new_id : G → Result String × G

abbrev stamped : CloseRequest → Successor → String → Time → String → Insertion
stamped r s recipient at id = record {
  notification = record {
    id = id;
    recipient = recipient;
    source_id = s.source_id;
    subject = r.subject;
    subject_version = s.subject_version;
    kind = s.kind;
    state = state_active;
    closed_reason = "";
    title = s.title;
    links = s.links;
    data_text = s.data_text;
    created_at = at;
    read_at = none;
    closed_at = none;
    inactive_at = none;
  };
  coalesce = false;
}

-- The next call, where the one before it did not fail.
infixr 5 ◌and_next◌
abbrev pub ◌and_next◌ {ℓ ℓ'} :
    {G : Type 0} {A : Type ℓ} {B : Type ℓ'} → Result A × G → (A → G → Result B × G) → Result B × G
(ok a, g) and_next next = next a g
(err e, g) and_next next = (err e, g)

module _ {G : Type 0} (ids : IdGenerator G) where
  unfoldable pub stamp_all :
      CloseRequest → Successor → Time → List String → G → Result (List Insertion) × G
  stamp_all r s at [] g = (ok [], g)
  stamp_all r s at (recipient ∷ recipients) g = elim (contains r.successor_skip recipient) [
    | true ↦ stamp_all r s at recipients g
    | false ↦ ids.new_id g and_next λ id g1. stamp_all r s at recipients g1 and_next λ rest g2.
        (ok (stamped r s recipient at id ∷ rest), g2)
  ]

  -- Nothing where the request has no successor.
  unfoldable pub successor_insertions :
      CloseRequest → List String → Time → G → Result (List Insertion) × G
  unfolding stamp_all
  successor_insertions r recipients at g = elim r.successor [
    | none ↦ (ok [], g)
    | some s ↦ stamp_all r s at recipients g
  ]

pub record CloseResult : Type 0 where
  pub closed : ℕ
  pub recipients : List String
  pub successors : List Notification
  pub successors_suppressed : ℕ

pub data RetentionStrategy : Type 0 where
  evict_oldest_active retain_active : RetentionStrategy
  other_strategy : String → RetentionStrategy

unfoldable pub is_valid_strategy : RetentionStrategy → Bool
is_valid_strategy evict_oldest_active = true
is_valid_strategy retain_active = true
is_valid_strategy (other_strategy s) = false

-- s == EvictOldestActive
abbrev pub evicts_active : RetentionStrategy → Bool
evicts_active evict_oldest_active = true
evicts_active _ = false

pub record PruneRequest : Type 0 where
  pub now : Time
  pub max_per_recipient : ℤ
  pub max_age : ℤ
  pub strategy : RetentionStrategy
  pub watermark_retention : ℤ
  pub batch : ℤ

pub record PruneResult : Type 0 where
  pub deleted_for_age : ℕ
  pub deleted_for_count : ℕ
  pub evicted_active : ℕ
  pub watermarks_deleted : ℕ
  pub recipients : List String
