-- ===== src/Notify/Pruning.antt =====
-- Prune of notify/memory.go: the age bound, the count bound of each recipient, and the expiry of
-- watermarks.
use Prim.Native.Nat.{compare, Ordering}
use Prim.Native.String.{then as or_else, compare as compare_texts}
use hmntsk.Prelude.{
  ℕ, ◌+◌, ◌-◌, zero, suc, String, ◌==◌, Bool, true, false, ◌&&◌, ◌||◌, not, List, [], ◌∷◌, ◌++◌,
  Option, none, some, ltb, is_some, Map, get, length, sort_strings, add_key, if◌then◌else◌, negsuc,
  to_ℕ,
}
use hmntsk.Prelude.Tables.{PairMap}
use hmntsk.Prelude.Orders.{flip}
use hmntsk.Prelude.Ranking.{sort_by}
use hmntsk.Task.{Time}
use hmntsk.Notify.{state_active, same_state, Notification, ℤ, ltb_ℤ, pos}
use hmntsk.Notify.Port.{PruneRequest, PruneResult, evicts_active}
use hmntsk.Notify.Memory.{MemoryStore, Watermark, remove_notification}

abbrev pub no_pruned : PruneResult
no_pruned = record {
  deleted_for_age = 0;
  deleted_for_count = 0;
  evicted_active = 0;
  watermarks_deleted = 0;
  recipients = [];
}

-- An instant that is there and before the other.
abbrev pub is_before : Option Time → Time → Bool
is_before none cutoff = false
is_before (some instant) cutoff = ltb instant cutoff

unfoldable pub has_aged : Time → Notification → Bool
unfolding same_state
has_aged cutoff n = not (same_state n.state state_active) && is_before n.inactive_at cutoff

-- The store without the aged ones of the entries, and how many there were.
unfoldable pub prune_age : Time → Map Notification → MemoryStore × ℕ → MemoryStore × ℕ
unfolding has_aged remove_notification
prune_age cutoff [] acc = acc
prune_age cutoff ((id, n) ∷ m) (s, deleted) =
    prune_age cutoff m
      (if has_aged cutoff n then (remove_notification n s, deleted + 1) else (s, deleted))

-- newestFirst: by the creation time, then by the identifier, the later first.
unfoldable pub newest_first : Notification → Notification → Ordering
newest_first a b = or_else (compare b.created_at a.created_at) (compare_texts b.id a.id)

unfoldable pub oldest_first : Notification → Notification → Ordering
unfolding newest_first
oldest_first a b = flip (newest_first a b)

-- byRecipient[recipient]
unfoldable pub held_by : String → Map Notification → List Notification
held_by recipient [] = []
held_by recipient ((id, n) ∷ m) =
    let rest = held_by recipient m in if n.recipient == recipient then n ∷ rest else rest

-- The keys of byRecipient.
unfoldable pub recipients_in : Map Notification → List String
recipients_in [] = []
recipients_in ((id, n) ∷ m) = add_key (recipients_in m) n.recipient

abbrev pub is_active : Notification → Bool
is_active n = same_state n.state state_active

abbrev pub same_bool : Bool → Bool → Bool
same_bool true b = b
same_bool false b = not b

-- Up to n are removed, those ACTIVE or those inactive, from the front; with the number removed.
unfoldable pub evict : List Notification → ℕ → Bool → MemoryStore → MemoryStore × ℕ
unfolding remove_notification same_state
evict held zero active s = (s, 0)
evict [] (suc n) active s = (s, 0)
evict (candidate ∷ held) (suc n) active s = elim (same_bool (is_active candidate) active) [
  | true ↦ let rest = evict held n active (remove_notification candidate s) in (rest.0, rest.1 + 1)
  | false ↦ evict held (suc n) active s
]

abbrev pub evict_active :
    PruneRequest
    → String
    → List Notification
    → ℕ
    → MemoryStore × PruneResult
    → MemoryStore × PruneResult
evict_active req recipient held zero acc = acc
evict_active req recipient held (suc excess) (s, r) =
    if evicts_active req.strategy
    then (let done = evict held (suc excess) true s in
        (
          done.0,
          record r {
            evicted_active = r.evicted_active + done.1;
            recipients = r.recipients ++ recipient ∷ [];
          },
        ))
    else (s, r)

-- The inactive ones first, then, where the strategy allows it, the ACTIVE ones.
abbrev pub evict_excess :
    PruneRequest
    → String
    → List Notification
    → ℕ
    → MemoryStore × PruneResult
    → MemoryStore × PruneResult
evict_excess req recipient held excess (s, r) =
    let done = evict held excess false s in
    evict_active req recipient held (excess - done.1)
      (done.0, record r { deleted_for_count = r.deleted_for_count + done.1 })

-- The groups are those of the store before the loop.
unfoldable pub prune_recipients :
    PruneRequest
    → ℕ
    → Map Notification
    → List String
    → MemoryStore × PruneResult
    → MemoryStore × PruneResult
unfolding held_by oldest_first sort_by evict
prune_recipients req bound groups [] acc = acc
prune_recipients req bound groups (recipient ∷ recipients) acc =
    let held = held_by recipient groups in
    prune_recipients req bound groups recipients
      (evict_excess req recipient (sort_by oldest_first held) (length held - bound) acc)

unfoldable pub prune_count :
    PruneRequest → ℕ → MemoryStore × PruneResult → MemoryStore × PruneResult
unfolding prune_recipients recipients_in sort_strings
prune_count req bound (s, r) =
    prune_recipients req bound s.notifications (sort_strings (recipients_in s.notifications)) (s, r)

-- The mark is deleted: its subject has no notification left, and it last changed before the cutoff.
unfoldable pub has_expired : Time → Map (List String) → String → Watermark → Bool
has_expired cutoff subjects subject mark =
    not (is_some (get subjects subject) || not (ltb mark.updated_at cutoff))

-- A loop that deletes under the key it is at.
unfoldable pub prune_marks : Time → Map (List String) → PairMap Watermark → PairMap Watermark × ℕ
unfolding has_expired
prune_marks cutoff subjects [] = ([], 0)
prune_marks cutoff subjects ((key, mark) ∷ marks) =
    let rest = prune_marks cutoff subjects marks in
    if has_expired cutoff subjects key.0 mark
    then (rest.0, rest.1 + 1)
    else ((key, mark) ∷ rest.0, rest.1)

-- The instant a duration before.
abbrev pub cutoff_at : Time → ℤ → Time
cutoff_at now (pos d) = now - d
cutoff_at now (negsuc d) = now + (d + 1)

unfoldable pub age_step : PruneRequest → MemoryStore → MemoryStore × PruneResult
unfolding prune_age
age_step req s =
    if ltb_ℤ (pos 0) req.max_age
    then (let done = prune_age (cutoff_at req.now req.max_age) s.notifications (s, 0) in
        (done.0, record no_pruned { deleted_for_age = done.1 }))
    else (s, no_pruned)

unfoldable pub count_step : PruneRequest → MemoryStore × PruneResult → MemoryStore × PruneResult
unfolding prune_count
count_step req acc =
    if ltb_ℤ (pos 0) req.max_per_recipient
    then prune_count req (to_ℕ req.max_per_recipient) acc
    else acc

unfoldable pub watermark_step : PruneRequest → MemoryStore × PruneResult → MemoryStore × PruneResult
unfolding prune_marks
watermark_step req (s, r) =
    if ltb_ℤ (pos 0) req.watermark_retention
    then (let done =
          prune_marks (cutoff_at req.now req.watermark_retention) s.subjects s.watermarks in
        (
          record s { watermarks = done.0 },
          record r { watermarks_deleted = r.watermarks_deleted + done.1 },
        ))
    else (s, r)

unfoldable pub prune : PruneRequest → MemoryStore → MemoryStore × PruneResult
unfolding age_step count_step watermark_step
prune req s = watermark_step req (count_step req (age_step req s))
