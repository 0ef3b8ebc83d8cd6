-- ===== src/Notify/Memory/Bounds.antt =====
-- Prune of notify/memory.go: how many notifications of a recipient are left.
use Prim.Native.Nat.{Ordering}
use hmntsk.Prelude.{
  ℕ, ◌+◌, min, zero, suc, String, ◌==◌, eq_iff, ◌≡◌, refl, ap, ◌∙◌, subst, Bool, true, false, List,
  [], ◌∷◌, none, some, length, Map, get, if◌then◌else◌, Bool-cases, inl, inr, arith,
}
use hmntsk.Prelude.Tables.{erase, HasDistinctKeys}
use hmntsk.Prelude.Ranking.{is_lt, insert_by, sort_by}
use hmntsk.Notify.{Notification}
use hmntsk.Notify.Memory.{MemoryStore, remove_notification}
use hmntsk.Notify.Memory.Indexes.{IsIndexed, remove_notification-IsIndexed}
use hmntsk.Notify.Memory.Removals.{Candidates, takes, removed-Candidates}
use hmntsk.Notify.Pruning.{held_by, evict, is_active}
use hmntsk.Notify.Memory.Retention.{AreHeldBy}

-- How many of the notifications may be taken.
abbrev pub count_takes : Bool → List Notification → ℕ
count_takes active [] = 0
count_takes active (n ∷ ns) = (if takes active n then 1 else 0) + count_takes active ns

pub evict-removed :
    (held : List Notification) (n : ℕ) (active : Bool) (s : MemoryStore)
    → (evict held n active s).1 ≡ min n (count_takes active held)
unfolding evict
evict-removed held zero active s = omega arith
evict-removed [] (suc n) active s = omega arith
evict-removed (c ∷ held) (suc n) active s = elim (Bool-cases (takes active c)) [
  | inl e ↦ rw (evict, e) (omega (arith, evict-removed held n active (remove_notification c s)))
  | inr e ↦ rw (evict, e) (omega (arith, evict-removed held (suc n) active s))
]

erase-absent : (m : Map Notification) (id : String) → get m id ≡ none → erase m id ≡ m
unfolding erase get
erase-absent [] id h = refl
erase-absent ((k, v) ∷ m) id h = ground (arith, erase-absent m id)

length-held_by-erase :
    (recipient : String) (m : Map Notification) (id : String) (n : Notification)
    → HasDistinctKeys m
    → get m id ≡ some n
    → length (held_by recipient (erase m id)) + (if n.recipient == recipient then 1 else 0)
      ≡ length (held_by recipient m)
unfolding held_by erase get
length-held_by-erase recipient [] id n d h = cc
length-held_by-erase recipient ((k, v) ∷ m) id n d h = elim (Bool-cases (k == id)) [
  | inl e ↦
      let named : get m id ≡ none = subst (λ j. get m j ≡ none) ((eq_iff k id).0 e) d.0 in
      ground (arith, e, named, erase-absent m id, h)
  | inr e ↦ ground (arith, e, h, length-held_by-erase recipient m id n d.1)
]

-- Removing candidates of a recipient lowers the number of its notifications by as many.
pub remove-length :
    (recipient : String) (c : Notification) (s : MemoryStore)
    → IsIndexed s
    → get s.notifications c.id ≡ some c
    → length (held_by recipient (remove_notification c s).notifications)
        + (if c.recipient == recipient then 1 else 0)
      ≡ length (held_by recipient s.notifications)
unfolding remove_notification
remove-length recipient c s k there =
    length-held_by-erase recipient s.notifications c.id c k.distinct there

pub evict-length :
    (recipient : String) (held : List Notification) (n : ℕ) (active : Bool) (s : MemoryStore)
    → IsIndexed s
    → Candidates (takes active) held s.notifications
    → AreHeldBy recipient held
    → length (held_by recipient (evict held n active s).0.notifications) + (evict held n active s).1
      ≡ length (held_by recipient s.notifications)
unfolding evict
evict-length recipient held zero active s k c a = omega arith
evict-length recipient [] (suc n) active s k c a = omega arith
evict-length recipient (x ∷ held) (suc n) active s k c a = elim (Bool-cases (takes active x)) [
  | inl e ↦
      let s1 = remove_notification x s in
      let rest =
        evict-length recipient held n active s1 (remove_notification-IsIndexed x s k (c.0 e))
          (removed-Candidates (takes active) held x s c.1 c.2) a.1 in
      rw (evict, e) (ground (arith, rest, remove-length recipient x s k (c.0 e), a.0))
  | inr e ↦ rw (evict, e) (evict-length recipient held (suc n) active s k c.2 a.1)
]

-- Each notification is ACTIVE or not.
pub count_takes-both :
    (held : List Notification) → count_takes false held + count_takes true held ≡ length held
count_takes-both [] = omega arith
count_takes-both (n ∷ held) = elim (Bool-cases (is_active n)) [
  | inl e ↦ rw e (omega (arith, count_takes-both held))
  | inr e ↦ rw e (omega (arith, count_takes-both held))
]

length-insert_by :
    (c : Notification → Notification → Ordering) (n : Notification) (ns : List Notification)
    → length (insert_by c n ns) ≡ suc (length ns)
unfolding insert_by
length-insert_by c n [] = refl
length-insert_by c n (x ∷ ns) = elim (Bool-cases (is_lt (c x n))) [
  | inl e ↦ rw e (ap suc (length-insert_by c n ns))
  | inr e ↦ rw e refl
]

pub length-sort_by :
    (c : Notification → Notification → Ordering) (ns : List Notification)
    → length (sort_by c ns) ≡ length ns
unfolding sort_by
length-sort_by c [] = refl
length-sort_by c (n ∷ ns) = length-insert_by c n (sort_by c ns) ∙ ap suc (length-sort_by c ns)
