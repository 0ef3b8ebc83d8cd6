-- ===== src/Notify/Memory/Retention.antt =====
-- Prune of notify/memory.go keeps the indexes, and what it may delete.
use hmntsk.Prelude.{
  ℕ, ◌+◌, ◌-◌, zero, suc, length, String, ◌==◌, ◌≡◌, refl, Bool, true, false, ◌&&◌, ◌||◌, not, List,
  [], ◌∷◌, Map, Bool-cases, inl, inr, arith, contains, contains_of_eq, eq_iff, eq_refl,
}
use hmntsk.Prelude.Tables.{HasDistinctKeys}
use hmntsk.Notify.Memory.Candidates.{
  HasOwnIds, IsWithin, values-Candidates, held_by-Candidates, sort_by-Candidates,
}
use hmntsk.Prelude.Ranking.{All, sort_by-All, sort_by}
use hmntsk.Notify.{Notification}
use hmntsk.Notify.Port.{PruneRequest, PruneResult, evicts_active}
use hmntsk.Notify.Memory.{MemoryStore}
use hmntsk.Notify.Memory.Indexes.{IsIndexed}
use hmntsk.Notify.Memory.Removals.{
  Candidates, Prunes, Prunes-refl, Prunes-trans, Prunes-weaken, takes, evict-Prunes,
}
use hmntsk.Notify.Pruning.{
  evict, evict_active, evict_excess, is_active, held_by, prune_recipients, oldest_first,
}

-- Every one may be taken.
abbrev pub anything : Notification → Bool
anything n = true

abbrev pub inactive_of : String → Notification → Bool
inactive_of recipient n = n.recipient == recipient && not (is_active n)

-- The count bound may delete it.
abbrev pub removable : PruneRequest → Notification → Bool
removable req n = not (is_active n) || evicts_active req.strategy

abbrev pub removable_of : PruneRequest → String → Notification → Bool
removable_of req recipient n = n.recipient == recipient && removable req n

abbrev pub AreHeldBy : String → List Notification → Type 0
AreHeldBy recipient = All (λ n. n.recipient == recipient ≡ true)

All-map :
    {A : Type 0} (P Q : A → Type 0) (xs : List A) → ((x : A) → P x → Q x) → All P xs → All Q xs
All-map P Q [] f a = tt
All-map P Q (x ∷ xs) f a = (f x a.0, All-map P Q xs f a.1)

-- What a pass does not take stays a candidate.
pub still-Candidates :
    (go taken : Notification → Bool) (ns : List Notification) (s s' : MemoryStore)
    → Prunes go s s'
    → ((n : Notification) → taken n ≡ true → go n ≡ false)
    → Candidates anything ns s.notifications
    → Candidates taken ns s'.notifications
still-Candidates go taken [] s s' p h c = tt
still-Candidates go taken (n ∷ ns) s s' p h c = (
  λ e. elim (p.kept n.id n (c.0 refl)) [
    | inl there ↦ there
    | inr gone ↦ ground (arith, h n e, gone)
  ],
  c.1,
  still-Candidates go taken ns s s' p h c.2,
)

pub narrow-Candidates :
    (taken : Notification → Bool) (ns : List Notification) (m : Map Notification)
    → Candidates anything ns m
    → Candidates taken ns m
narrow-Candidates taken [] m c = tt
narrow-Candidates taken (n ∷ ns) m c = (λ e. c.0 refl, c.1, narrow-Candidates taken ns m c.2)

module _ (req : PruneRequest) (recipient : String) (held : List Notification) where
  module _ (mine : AreHeldBy recipient held) where
    pub evict_inactive-Prunes :
        (n : ℕ) (s : MemoryStore)
        → IsIndexed s
        → Candidates anything held s.notifications
        → Prunes (inactive_of recipient) s (evict held n false s).0
    evict_inactive-Prunes n s k c =
        evict-Prunes (inactive_of recipient) held n false s k
          (narrow-Candidates (takes false) held s.notifications c)
          (All-map (λ m. m.recipient == recipient ≡ true)
            (λ m. takes false m ≡ true → inactive_of recipient m ≡ true) held
            (λ m h e. ground (arith, h, e)) mine)

    evict_active-Prunes :
        (excess : ℕ) (s : MemoryStore) (r : PruneResult)
        → IsIndexed s
        → Candidates (takes true) held s.notifications
        → Prunes (removable_of req recipient) s (evict_active req recipient held excess (s, r)).0
    evict_active-Prunes zero s r k c = Prunes-refl (removable_of req recipient) s k
    evict_active-Prunes (suc excess) s r k c = elim (Bool-cases (evicts_active req.strategy)) [
      | inl e ↦ rw e (
          evict-Prunes (removable_of req recipient) held (suc excess) true s k c (
            All-map (λ m. m.recipient == recipient ≡ true)
              (λ m. takes true m ≡ true → removable_of req recipient m ≡ true) held
              (λ m h j. ground (arith, h, e)) mine))
      | inr e ↦ rw e (Prunes-refl (removable_of req recipient) s k)
    ]

    pub evict_excess-Prunes :
        (excess : ℕ) (s : MemoryStore) (r : PruneResult)
        → IsIndexed s
        → Candidates anything held s.notifications
        → Prunes (removable_of req recipient) s (evict_excess req recipient held excess (s, r)).0
    evict_excess-Prunes excess s r k c =
        let done = evict held excess false s in
        let first = evict_inactive-Prunes excess s k c in
        Prunes-trans (removable_of req recipient) s done.0
          (evict_excess req recipient held excess (s, r)).0
          (Prunes-weaken (inactive_of recipient) (removable_of req recipient) s done.0
            (λ n h. ground (arith, h)) first)
          (evict_active-Prunes (excess - done.1) done.0
            (record r { deleted_for_count = r.deleted_for_count + done.1 }) first.indexed
            (still-Candidates (inactive_of recipient) (takes true) held s done.0 first
              (λ n h. ground (arith, h)) c))

-- Of the recipients to come nothing was deleted.
abbrev pub Untouched : Map Notification → List String → MemoryStore → Type 0
Untouched groups recipients s =
    IsWithin (λ n. contains recipients n.recipient) groups s.notifications

held_by-mine :
    (recipient : String) (m : Map Notification) → AreHeldBy recipient (held_by recipient m)
unfolding held_by
held_by-mine recipient [] = tt
held_by-mine recipient ((k, n) ∷ m) = elim (Bool-cases (n.recipient == recipient)) [
  | inl e ↦ rw (held_by, e) (e, held_by-mine recipient m)
  | inr e ↦ rw (held_by, e) (held_by-mine recipient m)
]

all_of :
    (recipients : List String) (recipient : String) (ns : List Notification) (m : Map Notification)
    → contains recipients recipient ≡ true
    → AreHeldBy recipient ns
    → Candidates (λ n. contains recipients n.recipient) ns m
    → Candidates anything ns m
all_of recipients recipient [] m h a c = tt
all_of recipients recipient (n ∷ ns) m h a c = (
  λ e. c.0 (
      contains_of_eq recipients recipient n.recipient h
        (ground (arith, a.0, eq_iff n.recipient recipient, eq_refl recipient))),
  c.1,
  all_of recipients recipient ns m h a.1 c.2,
)

-- The oldest first.
abbrev pub sorted_held : String → Map Notification → List Notification
sorted_held recipient groups = sort_by oldest_first (held_by recipient groups)

pub sorted-mine :
    (recipient : String) (m : Map Notification) → AreHeldBy recipient (sorted_held recipient m)
sorted-mine recipient m =
    sort_by-All (λ n. n.recipient == recipient ≡ true) oldest_first (held_by recipient m)
      (held_by-mine recipient m)

pub sorted-Candidates :
    (groups : Map Notification) (recipients : List String) (recipient : String) (s : MemoryStore)
    → HasDistinctKeys groups
    → HasOwnIds groups
    → contains recipients recipient ≡ true
    → Untouched groups recipients s
    → Candidates anything (sorted_held recipient groups) s.notifications
sorted-Candidates groups recipients recipient s d o h u =
    let taken : Notification → Bool = λ n. contains recipients n.recipient in
    sort_by-Candidates oldest_first anything (held_by recipient groups) s.notifications (
      all_of recipients recipient (held_by recipient groups) s.notifications h
        (held_by-mine recipient groups)
        (held_by-Candidates taken recipient groups s.notifications
          (values-Candidates taken groups s.notifications d o u)))

-- What is deleted of one recipient leaves the others alone.
pub rest-Untouched :
    (req : PruneRequest) (groups : Map Notification) (recipient : String) (recipients : List String)
    (s s' : MemoryStore)
    → contains recipients recipient ≡ false
    → Untouched groups (recipient ∷ recipients) s
    → Prunes (removable_of req recipient) s s'
    → Untouched groups recipients s'
unfolding contains
rest-Untouched req groups recipient recipients s s' h u p id n e c =
    elim (p.kept id n (u id n e (ground arith))) [
      | inl there ↦ there
      | inr gone ↦ ground (arith, eq_iff n.recipient recipient)
    ]

-- No text stands twice.
abbrev pub AreDistinct : List String → Type 0
AreDistinct [] = Unit {0}
AreDistinct (x ∷ xs) = (contains xs x ≡ false) × AreDistinct xs

pub own_member : (a : String) (xs : List String) → contains (a ∷ xs) a ≡ true
unfolding contains
own_member a xs = ground (arith, eq_refl a)

pub prune_recipients-Prunes :
    (req : PruneRequest) (bound : ℕ) (groups : Map Notification) (recipients : List String)
    (s : MemoryStore) (r : PruneResult)
    → HasDistinctKeys groups
    → HasOwnIds groups
    → AreDistinct recipients
    → IsIndexed s
    → Untouched groups recipients s
    → Prunes (removable req) s (prune_recipients req bound groups recipients (s, r)).0
unfolding prune_recipients
prune_recipients-Prunes req bound groups [] s r d o a k u = Prunes-refl (removable req) s k
prune_recipients-Prunes req bound groups (recipient ∷ recipients) s r d o a k u =
    let held = sorted_held recipient groups in
    let excess = length (held_by recipient groups) - bound in
    let done = evict_excess req recipient held excess (s, r) in
    let once = evict_excess-Prunes req recipient held (sorted-mine recipient groups) excess s r k (
      sorted-Candidates groups (recipient ∷ recipients) recipient s d o
        (own_member recipient recipients) u) in
    Prunes-trans (removable req) s done.0
      (prune_recipients req bound groups (recipient ∷ recipients) (s, r)).0
      (Prunes-weaken (removable_of req recipient) (removable req) s done.0
        (λ n h. ground (arith, h)) once)
      (prune_recipients-Prunes req bound groups recipients done.0 done.1 d o a.1 once.indexed
        (rest-Untouched req groups recipient recipients s done.0 a.0 u once))
