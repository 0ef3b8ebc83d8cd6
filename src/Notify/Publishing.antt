-- ===== src/Notify/Publishing.antt =====
-- notify/service.go and notify/authorize.go: the service over a store, which validates, stamps and
-- stores, and signals the recipients of each change. The clock is an argument. A broadcast is
-- reported as the signals given to the broadcaster: its errors reach a handler and nothing else.
pub mod Accounts
pub mod Pages
use hmntsk.Prelude.{
  ℕ, suc, String, ◌==◌, Bool, true, false, List, [], ◌∷◌, ◌++◌, Option, none, some, pos, ltb,
  is_nil, Map, get, put, sort_strings, if◌then◌else◌, eqb,
}
use hmntsk.Errors.{Formatter, ◌<>◌}
use hmntsk.Task.{Time, normalize_time}
use hmntsk.Notify.{
  Draft, Notification, ValidationIssue, Error, unauthorized, validation_error, Result, ok, err,
  state_active, validate_identifier, validate_draft, invalid,
}
use hmntsk.Notify.Port.{
  Insertion, InsertResult, no_insertions, add_result, prefix_issues, IdGenerator, ◌and_next◌,
  CloseRequest, CloseResult, validate_close,
}
use hmntsk.Notify.Memory.{MemoryStore, insert_all}
use hmntsk.Notify.Closing.{close}
use hmntsk.Notify.Marking.{get_notification, count_active, mark_read, mark_all_read, compact}
use hmntsk.Notify.Listing.{Codec, ListQuery, Page, validate_query, list_notifications}

pub data Change : Type 0 where
  change_created change_read change_closed change_pruned : Change

pub record Signal : Type 0 where
  pub recipient : String
  pub change : Change
  pub at : Time

-- One signal for each distinct recipient, in their order.
abbrev signals_of : Change → Time → List String → List Signal
signals_of change at [] = []
signals_of change at (r ∷ rs) =
    record { recipient = r; change = change; at = at } ∷ signals_of change at rs

unfoldable pub signals_for : List String → Change → Time → List Signal
unfolding compact sort_strings
signals_for recipients change at = signals_of change at (compact (sort_strings recipients))

unfoldable pub recipients_of : List Notification → List String
recipients_of [] = []
recipients_of (n ∷ ns) = n.recipient ∷ recipients_of ns

-- The issues of a validation error with a prefix, nothing where there is no such error.
unfoldable pub prefixed : String → Option Error → List ValidationIssue
unfolding prefix_issues
prefixed prefix (some (validation_error subject issues)) = prefix_issues prefix issues
prefixed prefix (some _) = []
prefixed prefix none = []

unfoldable pub draft_issues :
    Formatter → (valid_json : String → Bool) → ℕ → List Draft → List ValidationIssue
unfolding prefixed validate_draft
draft_issues f valid_json i [] = []
draft_issues f valid_json i (d ∷ drafts) =
    prefixed ("/drafts/" <> f.decimal (pos i)) (validate_draft valid_json d)
    ++ draft_issues f valid_json (suc i) drafts

abbrev pub stamped_draft : Draft → Time → String → Insertion
stamped_draft d now id = record {
  notification = record {
    id = id;
    recipient = d.recipient;
    source_id = d.source_id;
    subject = d.subject;
    subject_version = d.subject_version;
    kind = d.kind;
    state = state_active;
    closed_reason = "";
    title = d.title;
    links = d.links;
    data_text = d.data_text;
    created_at = now;
    read_at = none;
    closed_at = none;
    inactive_at = none;
  };
  coalesce = d.coalesce;
}

abbrev pub or_no_insertions : Option (List Insertion) → List Insertion
or_no_insertions none = []
or_no_insertions (some is) = is

-- bySubject[subject] = append(bySubject[subject], insertion)
unfoldable pub add_insertion : Map (List Insertion) → String → Insertion → Map (List Insertion)
add_insertion groups subject i =
    put groups subject (or_no_insertions (get groups subject) ++ i ∷ [])

unfoldable pub subjects_in : Map (List Insertion) → List String
subjects_in [] = []
subjects_in ((subject, is) ∷ groups) = subject ∷ subjects_in groups

-- Each subject in its own call of the store; the in-memory store does not fail.
unfoldable pub insert_subjects :
    Map (List Insertion) → List String → MemoryStore → InsertResult → MemoryStore × InsertResult
unfolding add_result insert_all
insert_subjects groups [] s r = (s, r)
insert_subjects groups (subject ∷ subjects) s r =
    let done = insert_all subject (or_no_insertions (get groups subject)) s in
    insert_subjects groups subjects done.0 (add_result r done.1)

-- What an operation returns, with the store after it and the signals it broadcast.
pub record Outcome (A : Type 0) : Type 0 where
  pub result : Result A
  pub store : MemoryStore
  pub signals : List Signal

abbrev pub refused : {A : Type 0} → MemoryStore → Error → Outcome A
refused s e = record { result = err e; store = s; signals = [] }

module _ {G : Type 0} (ids : IdGenerator G) where
  -- The insertions by subject, or the generator's error.
  unfoldable pub group_drafts :
      List Draft → Time → Map (List Insertion) → G → Result (Map (List Insertion)) × G
  unfolding add_insertion
  group_drafts [] now groups g = (ok groups, g)
  group_drafts (d ∷ drafts) now groups g = ids.new_id g and_next λ id g1.
      group_drafts drafts now (add_insertion groups d.subject (stamped_draft d now id)) g1

  abbrev pub published_all :
      Time → MemoryStore → Result (Map (List Insertion)) × G → Outcome InsertResult × G
  published_all now s (err e, g) = (refused s e, g)
  published_all now s (ok groups, g) =
      let done = insert_subjects groups (sort_strings (subjects_in groups)) s no_insertions in
      (
        record {
          result = ok done.1;
          store = done.0;
          signals = signals_for (recipients_of done.1.created) change_created now;
        },
        g,
      )

  abbrev pub publish_checked :
      List ValidationIssue → List Draft → Time → MemoryStore → G → Outcome InsertResult × G
  publish_checked (i ∷ is) drafts clock s g = (refused s (validation_error "publish" (i ∷ is)), g)
  publish_checked [] [] clock s g =
      (record { result = ok no_insertions; store = s; signals = [] }, g)
  publish_checked [] (d ∷ drafts) clock s g =
      let now = normalize_time clock in published_all now s (group_drafts (d ∷ drafts) now [] g)

  unfoldable pub publish :
      Formatter
      → (valid_json : String → Bool) → List Draft
      → Time
      → MemoryStore
      → G
      → Outcome InsertResult × G
  unfolding draft_issues group_drafts insert_subjects subjects_in signals_for recipients_of
      sort_strings normalize_time
  publish f valid_json drafts clock s g =
      publish_checked (draft_issues f valid_json 0 drafts) drafts clock s g

  abbrev closed_outcome : Time → Result CloseResult × MemoryStore × G → Outcome CloseResult × G
  closed_outcome at (err e, s, g) = (refused s e, g)
  closed_outcome at (ok r, s, g) = (
    record {
      result = ok r;
      store = s;
      signals =
          signals_for r.recipients change_closed at
          ++ signals_for (recipients_of r.successors) change_created at;
    },
    g,
  )

  unfoldable pub close_notifications :
      Formatter
      → (valid_json : String → Bool) → CloseRequest
      → Time
      → MemoryStore
      → G
      → Outcome CloseResult × G
  unfolding validate_close close signals_for recipients_of normalize_time
  close_notifications f valid_json req clock s g = elim (validate_close f valid_json req) [
    | some e ↦ (refused s e, g)
    | none ↦ let at = normalize_time clock in closed_outcome at (close ids req at s g)
  ]

-- What runs where there is no error.
abbrev pub checked {ℓ} : {A : Type ℓ} → Option Error → Result A → Result A
checked (some e) r = err e
checked none r = r

abbrev required_if : Bool → String → String → List ValidationIssue
required_if true pointer detail = record { pointer = pointer; detail = detail } ∷ []
required_if false pointer detail = []

unfoldable pub get_own : String → String → MemoryStore → Result Notification
unfolding validate_identifier invalid get_notification
get_own recipient id s =
    checked
      (invalid "request"
        (validate_identifier "/recipient" recipient ++ required_if (id == "") "/id" "is required"))
      (get_notification recipient id s)

unfoldable pub list_own : Formatter → Codec → ListQuery → MemoryStore → Result Page
unfolding validate_query list_notifications
list_own f c q s = checked (validate_query f c q) (list_notifications c q s)

unfoldable pub count_own : String → MemoryStore → Result ℕ
unfolding validate_identifier invalid count_active
count_own recipient s =
    checked (invalid "request" (validate_identifier "/recipient" recipient))
      (ok (count_active recipient s.notifications))

-- A signal where something was marked.
abbrev marked_outcome : String → Time → Result ℕ × MemoryStore → Outcome ℕ
marked_outcome recipient at (err e, s) = refused s e
marked_outcome recipient at (ok marked, s) = record {
  result = ok marked;
  store = s;
  signals = if ltb 0 marked then signals_for (recipient ∷ []) change_read at else [];
}

unfoldable pub mark_own_read : String → List String → Time → MemoryStore → Outcome ℕ
unfolding validate_identifier invalid mark_read signals_for normalize_time
mark_own_read recipient names clock s =
    elim (invalid "request" (
      validate_identifier "/recipient" recipient
      ++ required_if (is_nil names) "/ids" "at least one identifier is required")) [
        | some e ↦ refused s e
        | none ↦
            let at = normalize_time clock in
            marked_outcome recipient at (mark_read recipient names at s)
      ]

-- The zero instant means now.
unfoldable pub mark_all_own_read : String → Time → Time → MemoryStore → Outcome ℕ
unfolding validate_identifier invalid mark_all_read signals_for normalize_time
mark_all_own_read recipient through clock s =
    elim (invalid "request" (validate_identifier "/recipient" recipient)) [
      | some e ↦ refused s e
      | none ↦
          let at = normalize_time clock in
          marked_outcome recipient at
            (mark_all_read recipient (if eqb through 0 then at else normalize_time through) at s)
    ]

-- The default policy of subscriptions.
unfoldable pub self_only : String → String → Result (Unit {0})
self_only actor recipient =
    if actor == "" then err unauthorized else if recipient == actor then ok tt else err unauthorized
