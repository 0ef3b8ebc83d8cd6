-- ===== src/Notify/Memory.antt =====
-- notify/memory.go: the in-memory store of notifications. Every method runs under one lock, so a
-- method is one step from a state to the next. A loop over a Go map walks the association list in
-- its order.
pub mod Indexes
pub mod Advances
pub mod Updates
pub mod Inserting
pub mod Redelivery
pub mod Closed
pub mod Floors
pub mod Suppression
pub mod Unread
pub mod Bounds
pub mod Quota
pub mod Removals
pub mod Retention
pub mod Pruned
pub mod Runs
pub mod Calls
pub mod Candidates
use hmntsk.Prelude.{
  ◌+◌, String, ◌==◌, Bool, false, ◌&&◌, ◌||◌, not, List, [], ◌∷◌, ◌++◌, Option, none, some, ℤ, pos,
  negsuc, ltb_ℤ, is_some, is_nil, Map, get, put, add_key, delete_key, if◌then◌else◌,
}
use hmntsk.Prelude.Tables.{PairKey, PairMap, erase, erase_pair, find, store}
use hmntsk.Task.{Time}
use hmntsk.Notify.{state_closed, other_state, same_state, Notification}
use hmntsk.Notify.Port.{Insertion, InsertResult, no_insertions}
use hmntsk.Notify.Email.{EmailDelivery}

pub record Watermark : Type 0 where
  pub version : ℤ
  pub updated_at : Time

-- Watermarks stand under a subject and a kind, sources under a source and a recipient.
pub record MemoryStore : Type 0 where
  pub notifications : Map Notification
  pub watermarks : PairMap Watermark
  pub sources : PairMap String
  pub subjects : Map (List String)
  pub deliveries : Map EmailDelivery

unfoldable pub new_memory_store : MemoryStore
new_memory_store = record {
  notifications = [];
  watermarks = [];
  sources = [];
  subjects = [];
  deliveries = [];
}

abbrev pub all_kinds : String
all_kinds = "*"

-- What a Go map gives for a key it does not have.
abbrev zero_notification : Notification
zero_notification = record {
  id = "";
  recipient = "";
  source_id = "";
  subject = "";
  subject_version = pos 0;
  kind = "";
  state = other_state "";
  closed_reason = "";
  title = "";
  links = [];
  data_text = "";
  created_at = 0;
  read_at = none;
  closed_at = none;
  inactive_at = none;
}

abbrev pub or_zero : Option Notification → Notification
or_zero none = zero_notification
or_zero (some n) = n

abbrev pub or_no_ids : Option (List String) → List String
or_no_ids none = []
or_no_ids (some ids) = ids

-- The instant that is there stays.
abbrev pub first_instant : Option Time → Time → Option Time
first_instant none at = some at
first_instant (some instant) at = some instant

-- s.subjects[subject]
abbrev pub ids_of : Map (List String) → String → List String
ids_of subjects subject = or_no_ids (get subjects subject)

unfoldable pub put_notification : Notification → MemoryStore → MemoryStore
put_notification n s = record s {
  notifications = put s.notifications n.id n;
  sources = store s.sources (n.source_id, n.recipient) n.id;
  subjects = put s.subjects n.subject (add_key (ids_of s.subjects n.subject) n.id);
}

-- A subject without identifiers left is deleted.
abbrev pub put_ids : Map (List String) → String → List String → Map (List String)
put_ids subjects subject ids =
    if is_nil ids then erase subjects subject else put subjects subject ids

unfoldable pub remove_notification : Notification → MemoryStore → MemoryStore
remove_notification n s = record s {
  notifications = erase s.notifications n.id;
  sources = erase_pair s.sources (n.source_id, n.recipient);
  subjects = put_ids s.subjects n.subject (delete_key (ids_of s.subjects n.subject) n.id);
}

abbrev pub raised : Option Watermark → ℤ → ℤ
raised none floor = floor
raised (some mark) floor = if ltb_ℤ floor mark.version then mark.version else floor

unfoldable pub floor : PairMap Watermark → String → String → ℤ
floor watermarks subject kind =
    raised (find watermarks (subject, all_kinds))
      (raised (find watermarks (subject, kind)) (negsuc 0))

-- One of the identified notifications is the recipient's, of the kind, and not closed.
unfoldable pub has_open : Map Notification → List String → String → String → Bool
unfolding same_state
has_open notifications [] recipient kind = false
has_open notifications (id ∷ ids) recipient kind =
    let n = or_zero (get notifications id) in
    (n.recipient == recipient && n.kind == kind && not (same_state n.state state_closed))
    || has_open notifications ids recipient kind

unfoldable pub ensure_watermark : PairKey → Time → PairMap Watermark → PairMap Watermark
ensure_watermark key at watermarks =
    if is_some (find watermarks key)
    then watermarks
    else store watermarks key (record { version = negsuc 0; updated_at = at })

unfoldable pub insert_one :
    String → Insertion → MemoryStore × InsertResult → MemoryStore × InsertResult
unfolding floor has_open put_notification ensure_watermark
insert_one subject i (s, r) =
    let n = record i.notification { subject = subject } in
    if ltb_ℤ n.subject_version (floor s.watermarks subject n.kind)
    then (s, record r { suppressed = r.suppressed + 1 })
    else if i.coalesce && has_open s.notifications (ids_of s.subjects subject) n.recipient n.kind
    then (s, record r { coalesced = r.coalesced + 1 })
    else if is_some (find s.sources (n.source_id, n.recipient))
    then (s, record r { duplicates = r.duplicates + 1 })
    else (
      record (put_notification n s) {
        watermarks = ensure_watermark (subject, all_kinds) n.created_at s.watermarks;
      },
      record r { created = r.created ++ n ∷ [] },
    )

unfoldable pub insert_each :
    String → List Insertion → MemoryStore × InsertResult → MemoryStore × InsertResult
insert_each subject [] (s, r) = (s, r)
insert_each subject (i ∷ is) (s, r) = insert_each subject is (insert_one subject i (s, r))

unfoldable pub insert_all : String → List Insertion → MemoryStore → MemoryStore × InsertResult
insert_all subject is s = insert_each subject is (s, no_insertions)
