-- ===== src/Scenarios/Notes.antt =====
-- Two notifications in the in-memory store, and what becomes of them.
use hmntsk.Prelude.{
  ℕ, suc, ◌≤◌, String, ◌≡◌, refl, true, false, List, [], ◌∷◌, none, some, pos, length, contains,
  get, ◌⊎◌, put, add_key,
}
use hmntsk.Prelude.Tables.{find, store}
use hmntsk.Notify.Publishing.{Outcome}
use hmntsk.Notify.Publishing.Accounts.{counts, publish-counts}
use hmntsk.Notify.{Notification, state_active, ok, err, not_found, Draft, validate_identifier}
use hmntsk.Notify.Port.{
  Insertion, no_insertions, CloseRequest, PruneRequest, evict_oldest_active, IdGenerator,
  InsertResult, CloseResult, successor_insertions,
}
use hmntsk.Notify.Memory.{
  MemoryStore, new_memory_store, insert_all, insert_each, insert_one, put_notification,
}
use hmntsk.Notify.Memory.Indexes.{IsIndexed}
use hmntsk.Notify.Memory.Inserting.{AreFresh, insert_each-IsIndexed}
use hmntsk.Notify.Memory.Redelivery.{AreRedelivered, insert_all-again, Redelivers}
use hmntsk.Notify.Memory.Runs.{Keeps}
use hmntsk.Notify.Memory.Calls.{
  call, mark_call, insert_call, call-Keeps, new_store-IsIndexed, start, after, reached_unique,
}
use hmntsk.Notify.Memory.Closed.{get-close_subject, closed_about}
use hmntsk.Notify.Memory.Suppression.{close-insert_all}
use hmntsk.Notify.Memory.Floors.{covers}
use hmntsk.Notify.Memory.Removals.{Prunes}
use hmntsk.Notify.Memory.Retention.{removable}
use hmntsk.Notify.Memory.Pruned.{prune-Prunes, prune-bound}
use hmntsk.Notify.Memory.Unread.{Marks, mark_read-count}
use hmntsk.Notify.Closing.{close, close_subject}
use hmntsk.Notify.Marking.{mark_read, owns_all}
use hmntsk.Notify.Pruning.{prune, held_by}
use hmntsk.Notify.Publishing.{draft_issues, publish}
use hmntsk.Errors.{Formatter}
use hmntsk.Notify.Publishing.Pages.{IsOwnPage, list_own-IsOwnPage}
use hmntsk.Notify.Listing.{
  Codec, ListQuery, Page, list_notifications, page_of, validate_query, decode_cursor, state_issues,
}
use hmntsk.Notify.Publishing.{list_own}

abbrev pub note : String → String → String → Notification
note id recipient source = record {
  id = id;
  recipient = recipient;
  source_id = source;
  subject = "task-1";
  subject_version = pos 1;
  kind = "offer";
  state = state_active;
  closed_reason = "";
  title = "";
  links = [];
  data_text = "";
  created_at = 5000;
  read_at = none;
  closed_at = none;
  inactive_at = none;
}

abbrev pub inserted : String → String → String → Insertion
inserted id recipient source = record { notification = note id recipient source; coalesce = false }

abbrev pub offers : List Insertion
offers = inserted "n1" "alice" "e1" ∷ inserted "n2" "bob" "e1" ∷ []

abbrev again : List Insertion
again = inserted "n3" "alice" "e1" ∷ inserted "n4" "bob" "e1" ∷ []

-- Numbered identifiers.
abbrev counter : IdGenerator ℕ
counter = record { new_id = λ k. (ok "s1", suc k) }

fresh_offers : AreFresh offers []
unfolding get contains
fresh_offers = (refl, refl, (refl, refl, tt))

abbrev pub stored : MemoryStore
stored = (insert_all "task-1" offers new_memory_store).0

fresh_new : AreFresh offers new_memory_store.notifications
unfolding new_memory_store
fresh_new = fresh_offers

pub stored-IsIndexed : IsIndexed stored
unfolding insert_all
stored-IsIndexed =
    insert_each-IsIndexed "task-1" offers new_memory_store no_insertions
      (new_store-IsIndexed, fresh_new)

redelivered : AreRedelivered offers again
redelivered = (same "n1" "n3" "alice", (same "n2" "n4" "bob", tt))
  where
    same : (i j r : String) → Redelivers (inserted i r "e1") (inserted j r "e1")
    same i j r = record {
      recipient = refl;
      source_id = refl;
      subject_version = refl;
      kind = refl;
      coalesce = refl;
    }

insert_all-again_example :
    ((insert_all "task-1" again stored).0 ≡ stored)
    × ((insert_all "task-1" again stored).1.created ≡ [])
insert_all-again_example =
    insert_all-again "task-1" offers again new_memory_store new_store-IsIndexed fresh_new
      redelivered

call-Keeps_example : Keeps stored (call counter (mark_call "alice" ("n1" ∷ []) 9000) stored 0).0
call-Keeps_example =
    call-Keeps counter (mark_call "alice" ("n1" ∷ []) 9000) stored 0 stored-IsIndexed tt

abbrev closing : CloseRequest
closing = record {
  subject = "task-1";
  kinds = "offer" ∷ [];
  version = pos 2;
  reason = "claimed";
  except_for = "bob";
  successor = none;
  successor_skip = [];
}

get-close_subject_example :
    get (close_subject closing 9000 stored).0.notifications "n1"
    ≡ closed_about closing 9000 (get stored.notifications "n1")
get-close_subject_example = get-close_subject closing 9000 stored "n1" stored-IsIndexed

covers_offers : covers closing "offer" ≡ true
unfolding contains
covers_offers = refl

abbrev stale : List Insertion
stale = inserted "n3" "alice" "e2" ∷ inserted "n4" "carol" "e2" ∷ []

abbrev closed_one : CloseResult
closed_one = record {
  closed = 1;
  recipients = "alice" ∷ [];
  successors = [];
  successors_suppressed = 0;
}

closes : (close counter closing 9000 stored 0).0 ≡ ok closed_one
unfolding close successor_insertions get insert_all insert_each insert_one find new_memory_store
    store put add_key contains
closes = refl

close-insert_all_example :
    let s' = (close counter closing 9000 stored 0).1 in
    insert_all "task-1" stale s' ≡ (s', record no_insertions { suppressed = 2 })
close-insert_all_example =
    close-insert_all counter closing 9000 stored 0 stale closed_one closes
      ((covers_offers, refl), ((covers_offers, refl), tt))

abbrev keep_one : PruneRequest
keep_one = record {
  now = 100000;
  max_per_recipient = pos 1;
  max_age = pos 50000;
  strategy = evict_oldest_active;
  watermark_retention = pos 1000;
  batch = pos 10;
}

prune-Prunes_example : Prunes (removable keep_one) stored (prune keep_one stored).0
prune-Prunes_example = prune-Prunes keep_one stored stored-IsIndexed

prune-bound_example : length (held_by "alice" (prune keep_one stored).0.notifications) ≤ 1
prune-bound_example = prune-bound keep_one "alice" stored stored-IsIndexed refl refl

mark_read-count_example :
    Marks "alice" stored (mark_read "alice" ("n1" ∷ []) 9000 stored)
    ⊎ (owns_all stored.notifications "alice" ("n1" ∷ []) ≡ false)
      × (mark_read "alice" ("n1" ∷ []) 9000 stored ≡ (err not_found, stored))
mark_read-count_example = mark_read-count "alice" ("n1" ∷ []) 9000 stored

abbrev inserting : MemoryStore
inserting = (call counter (insert_call "task-1" offers) new_memory_store 0).0

stored_first : get inserting.notifications "n1" ≡ some (note "n1" "alice" "e1")
unfolding call insert_all insert_each insert_one new_memory_store get put_notification put find
    store
stored_first = refl

reached_unique_example : ◌≡◌ {A = String} "n1" "n1"
unfolding call
reached_unique_example =
    reached_unique counter 0 0 inserting "n1" "n1" (note "n1" "alice" "e1") (note "n1" "alice" "e1")
      (after (insert_call "task-1" offers) new_memory_store 0 start fresh_new) stored_first
      stored_first refl refl

abbrev draft : String → Draft
draft recipient = record {
  recipient = recipient;
  source_id = "e7";
  subject = "task-2";
  kind = "offer";
  title = "";
  subject_version = pos 1;
  links = [];
  data_text = "";
  coalesce = false;
}

abbrev plain : Formatter
plain = record { quote = λ s. s; decimal = λ n. "0"; items = λ ss. "" }

no_issues : draft_issues plain (λ s. true) 0 (draft "alice" ∷ draft "bob" ∷ []) ≡ []
unfolding draft_issues
no_issues = refl

abbrev published : Outcome InsertResult
published = (publish counter plain (λ s. true) (draft "alice" ∷ draft "bob" ∷ []) 9000 stored 0).0

publish-counts_example : (r : InsertResult) × (published.result ≡ ok r) × (counts r ≡ 2)
publish-counts_example =
    publish-counts counter (λ g. ("s1", refl)) plain (λ s. true) (draft "alice" ∷ draft "bob" ∷ [])
      9000 stored 0 no_issues

abbrev blank_codec : Codec
blank_codec = record { encode = λ payload. payload.id; decode = λ s. none; digest = λ s. s }

-- The open notifications of alice, one on a page.
abbrev alices : ListQuery
alices = record {
  recipient = "alice";
  states = state_active ∷ [];
  kinds = [];
  subject = "";
  limit = pos 1;
  cursor = "";
}

abbrev first_page : Page
first_page = page_of blank_codec alices none stored

first_page_listed : list_own plain blank_codec alices stored ≡ ok first_page
unfolding list_own list_notifications validate_query state_issues decode_cursor validate_identifier
first_page_listed = refl

list_own-IsOwnPage_example : IsOwnPage alices first_page
list_own-IsOwnPage_example =
    list_own-IsOwnPage plain blank_codec alices stored first_page first_page_listed
