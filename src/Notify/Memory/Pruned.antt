-- ===== src/Notify/Memory/Pruned.antt =====
-- Prune of notify/memory.go as a whole: what it deletes and what it keeps.
use hmntsk.Prelude.{
  String, eq_iff, ◌≡◌, refl, ◌∙◌, true, false, List, [], ◌∷◌, Map, contains, add_key, sort_strings,
  insert_sorted, contains-sort_strings, contains-insert_sorted, str_ltb, ltb_ℤ, pos, to_ℕ,
  Bool-cases, inl, inr, arith, length, contains-add_key, ◌≤◌, subst, sym,
}
use hmntsk.Prelude.Tables.{PairMap}
use hmntsk.Task.{Time}
use hmntsk.Notify.{Notification}
use hmntsk.Notify.Port.{PruneRequest, PruneResult, evicts_active}
use hmntsk.Notify.Memory.{MemoryStore, Watermark}
use hmntsk.Notify.Memory.Indexes.{IsIndexed, with_marks-IsIndexed}
use hmntsk.Notify.Memory.Removals.{
  Prunes, Prunes-refl, Prunes-trans, Prunes-weaken, prune_age-Prunes,
}
use hmntsk.Notify.Memory.Candidates.{values-Candidates}
use hmntsk.Notify.Memory.Retention.{AreDistinct, removable, prune_recipients-Prunes}
use hmntsk.Notify.Pruning.{
  age_step, count_step, watermark_step, prune, prune_count, recipients_in, has_aged, cutoff_at,
  prune_marks, prune_age, held_by,
}
use hmntsk.Notify.Memory.Quota.{prune_recipients-bound, prune_recipients-other}

insert_sorted-AreDistinct :
    (a : String) (xs : List String)
    → contains xs a ≡ false
    → AreDistinct xs
    → AreDistinct (insert_sorted a xs)
unfolding contains insert_sorted
insert_sorted-AreDistinct a [] h d = (h, tt)
insert_sorted-AreDistinct a (x ∷ xs) h d = elim (Bool-cases (str_ltb x a)) [
  | inl e ↦ rw e (
    ground (arith, contains-insert_sorted a xs x, d.0, h, eq_iff a x, eq_iff x a),
    insert_sorted-AreDistinct a xs (ground (arith, h)) d.1,
  )
  | inr e ↦ rw e (h, d)
]

sort_strings-AreDistinct : (xs : List String) → AreDistinct xs → AreDistinct (sort_strings xs)
unfolding sort_strings
sort_strings-AreDistinct [] d = tt
sort_strings-AreDistinct (x ∷ xs) d =
    insert_sorted-AreDistinct x (sort_strings xs) (contains-sort_strings xs x ∙ d.0)
      (sort_strings-AreDistinct xs d.1)

add_key-AreDistinct : (xs : List String) (a : String) → AreDistinct xs → AreDistinct (add_key xs a)
unfolding add_key
add_key-AreDistinct xs a d = elim (Bool-cases (contains xs a)) [
  | inl e ↦ rw e d
  | inr e ↦ rw e (e, d)
]

recipients_in-AreDistinct : (m : Map Notification) → AreDistinct (recipients_in m)
unfolding recipients_in
recipients_in-AreDistinct [] = tt
recipients_in-AreDistinct ((k, n) ∷ m) =
    add_key-AreDistinct (recipients_in m) n.recipient (recipients_in-AreDistinct m)

pub sorted_recipients-AreDistinct :
    (m : Map Notification) → AreDistinct (sort_strings (recipients_in m))
sorted_recipients-AreDistinct m =
    sort_strings-AreDistinct (recipients_in m) (recipients_in-AreDistinct m)

aged_removable :
    (req : PruneRequest) (cutoff : Time) (n : Notification)
    → has_aged cutoff n ≡ true
    → removable req n ≡ true
unfolding has_aged
aged_removable req cutoff n h = ground arith

pub age_step-Prunes :
    (req : PruneRequest) (s : MemoryStore)
    → IsIndexed s
    → Prunes (removable req) s (age_step req s).0
unfolding age_step
age_step-Prunes req s k =
    let cutoff = cutoff_at req.now req.max_age in
    elim (Bool-cases (ltb_ℤ (pos 0) req.max_age)) [
      | inl e ↦ rw e (
          Prunes-weaken (has_aged cutoff) (removable req) s
            (prune_age cutoff s.notifications (s, 0)).0 (aged_removable req cutoff)
            (prune_age-Prunes cutoff s.notifications s 0 k (
              values-Candidates (has_aged cutoff) s.notifications s.notifications k.distinct
                k.own_id (λ id n j t. j))))
      | inr e ↦ rw e (Prunes-refl (removable req) s k)
    ]

pub count_step-Prunes :
    (req : PruneRequest) (s : MemoryStore) (r : PruneResult)
    → IsIndexed s
    → Prunes (removable req) s (count_step req (s, r)).0
unfolding count_step prune_count
count_step-Prunes req s r k = elim (Bool-cases (ltb_ℤ (pos 0) req.max_per_recipient)) [
  | inl e ↦ rw e (
      prune_recipients-Prunes req (to_ℕ req.max_per_recipient) s.notifications
        (sort_strings (recipients_in s.notifications)) s r k.distinct k.own_id
        (sorted_recipients-AreDistinct s.notifications) k (λ id n j t. j))
  | inr e ↦ rw e (Prunes-refl (removable req) s k)
]

marks-Prunes :
    (req : PruneRequest) (s : MemoryStore) (w : PairMap Watermark)
    → IsIndexed s
    → Prunes (removable req) s (record s { watermarks = w })
marks-Prunes req s w k = record {
  indexed = with_marks-IsIndexed s w k;
  only = λ id n e. e;
  kept = λ id n e. inl e;
}

watermark_step-Prunes :
    (req : PruneRequest) (s : MemoryStore) (r : PruneResult)
    → IsIndexed s
    → Prunes (removable req) s (watermark_step req (s, r)).0
unfolding watermark_step
watermark_step-Prunes req s r k = elim (Bool-cases (ltb_ℤ (pos 0) req.watermark_retention)) [
  | inl e ↦ rw e (
      marks-Prunes req s
        (prune_marks (cutoff_at req.now req.watermark_retention) s.subjects s.watermarks).0 k)
  | inr e ↦ rw e (Prunes-refl (removable req) s k)
]

-- A pass keeps the indexes and brings nothing in; a notification that it deletes is not ACTIVE,
-- unless the strategy allows to evict ACTIVE ones.
pub prune-Prunes :
    (req : PruneRequest) (s : MemoryStore) → IsIndexed s → Prunes (removable req) s (prune req s).0
unfolding prune
prune-Prunes req s k =
    let aged = age_step req s in
    let counted = count_step req aged in
    let first = age_step-Prunes req s k in
    let next = count_step-Prunes req aged.0 aged.1 first.indexed in
    Prunes-trans (removable req) s aged.0 (prune req s).0 first (
      Prunes-trans (removable req) aged.0 counted.0 (prune req s).0 next
        (watermark_step-Prunes req counted.0 counted.1 next.indexed))

no_recipient :
    (recipient : String) (m : Map Notification)
    → contains (recipients_in m) recipient ≡ false
    → length (held_by recipient m) ≡ 0
unfolding recipients_in held_by
no_recipient recipient [] h = refl
no_recipient recipient ((k, n) ∷ m) h =
    ground
      (arith, h, contains-add_key (recipients_in m) n.recipient recipient, no_recipient recipient m)

count_step-bound :
    (req : PruneRequest) (recipient : String) (s : MemoryStore) (r : PruneResult)
    → evicts_active req.strategy ≡ true
    → ltb_ℤ (pos 0) req.max_per_recipient ≡ true
    → IsIndexed s
    → length (held_by recipient (count_step req (s, r)).0.notifications)
      ≤ to_ℕ req.max_per_recipient
unfolding count_step prune_count
count_step-bound req recipient s r e b k =
    let m = s.notifications in
    let recipients = sort_strings (recipients_in m) in
    let bound = to_ℕ req.max_per_recipient in
    let distinct = sorted_recipients-AreDistinct m in
    elim (Bool-cases (contains recipients recipient)) [
      | inl h ↦ rw b (
          prune_recipients-bound req bound m k.distinct k.own_id recipients recipient s r e h refl
            distinct k (λ id n j t. j))
      | inr h ↦ rw b (
          omega (
            arith,
            prune_recipients-other req bound m k.distinct k.own_id recipients recipient s r h
                distinct k (λ id n j t. j),
            no_recipient recipient m (sym (contains-sort_strings (recipients_in m) recipient) ∙ h),
          ))
    ]

watermark_step-notifications :
    (req : PruneRequest) (s : MemoryStore) (r : PruneResult)
    → (watermark_step req (s, r)).0.notifications ≡ s.notifications
unfolding watermark_step
watermark_step-notifications req s r = elim (Bool-cases (ltb_ℤ (pos 0) req.watermark_retention)) [
  | inl e ↦ rw e refl
  | inr e ↦ rw e refl
]

-- After a pass over agreeing indexes with a positive count bound and the strategy that may evict
-- ACTIVE notifications, no recipient has more notifications than the bound.
pub prune-bound :
    (req : PruneRequest) (recipient : String) (s : MemoryStore)
    → IsIndexed s
    → evicts_active req.strategy ≡ true
    → ltb_ℤ (pos 0) req.max_per_recipient ≡ true
    → length (held_by recipient (prune req s).0.notifications) ≤ to_ℕ req.max_per_recipient
unfolding prune
prune-bound req recipient s k e b =
    let aged = age_step req s in
    let counted = count_step req aged in
    let first = age_step-Prunes req s k in
    subst (λ m. length (held_by recipient m) ≤ to_ℕ req.max_per_recipient)
      (sym (watermark_step-notifications req counted.0 counted.1))
      (count_step-bound req recipient aged.0 aged.1 e b first.indexed)
