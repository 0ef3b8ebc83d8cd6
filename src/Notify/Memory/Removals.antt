-- ===== src/Notify/Memory/Removals.antt =====
-- Prune of notify/memory.go: which notifications its loops remove.
use hmntsk.Prelude.{
  ℕ, ◌+◌, zero, suc, String, ◌==◌, eq_iff, ◌≡◌, ◌⊎◌, Bool, true, false, List, [], ◌∷◌, some,
  contains, Map, get, Bool-cases, inl, inr, arith,
}
use hmntsk.Prelude.Tables.{erase, get-erase}
use hmntsk.Prelude.Ranking.{All}
use hmntsk.Notify.{Notification, Time}
use hmntsk.Notify.Memory.{MemoryStore, remove_notification}
use hmntsk.Notify.Memory.Indexes.{IsIndexed, remove_notification-IsIndexed}
use hmntsk.Notify.Pruning.{evict, same_bool, is_active, prune_age, has_aged}

abbrev pub ids_held : List Notification → List String
ids_held [] = []
ids_held (n ∷ ns) = n.id ∷ ids_held ns

-- Different notifications, of which those that may be taken are there.
abbrev pub Candidates : (Notification → Bool) → List Notification → Map Notification → Type 0
Candidates taken [] m = Unit {0}
Candidates taken (n ∷ ns) m =
    (taken n ≡ true → get m n.id ≡ some n)
    × (contains (ids_held ns) n.id ≡ false)
    × Candidates taken ns m

erase-Candidates :
    (taken : Notification → Bool) (ns : List Notification) (m : Map Notification) (id : String)
    → contains (ids_held ns) id ≡ false
    → Candidates taken ns m
    → Candidates taken ns (erase m id)
unfolding contains
erase-Candidates taken [] m id h p = tt
erase-Candidates taken (n ∷ ns) m id h p = (
  λ e. ground (arith, get-erase m id n.id, p.0 e, eq_iff id n.id, eq_iff n.id id),
  p.1,
  erase-Candidates taken ns m id (ground arith) p.2,
)

-- What the loops of pruning keep of a store.
pub record Prunes (can_go : Notification → Bool) (s s' : MemoryStore) : Type 0 where
  pub indexed : IsIndexed s'
  pub only :
      (id : String) (n : Notification)
      → get s'.notifications id ≡ some n
      → get s.notifications id ≡ some n
  pub kept :
      (id : String) (n : Notification)
      → get s.notifications id ≡ some n
      → (get s'.notifications id ≡ some n) ⊎ (can_go n ≡ true)

module _ (can_go : Notification → Bool) where
  pub Prunes-refl : (s : MemoryStore) → IsIndexed s → Prunes can_go s s
  Prunes-refl s k = record { indexed = k; only = λ id n e. e; kept = λ id n e. inl e }

  pub Prunes-trans :
      (s s1 s2 : MemoryStore) → Prunes can_go s s1 → Prunes can_go s1 s2 → Prunes can_go s s2
  Prunes-trans s s1 s2 h k = record {
    indexed = k.indexed;
    only = λ id n e. h.only id n (k.only id n e);
    kept = λ id n e. elim (h.kept id n e) [ inl there ↦ k.kept id n there | inr gone ↦ inr gone ];
  }

  remove-Prunes :
      (n : Notification) (s : MemoryStore)
      → IsIndexed s
      → get s.notifications n.id ≡ some n
      → can_go n ≡ true
      → Prunes can_go s (remove_notification n s)
  unfolding remove_notification
  remove-Prunes n s k there allowed = record {
    indexed = remove_notification-IsIndexed n s k there;
    only = λ id m e. ground (arith, get-erase s.notifications n.id id);
    kept = λ id m e. elim (Bool-cases (n.id == id)) [
      | inl same ↦ inr (ground (arith, eq_iff n.id id))
      | inr other ↦ inl (ground (arith, get-erase s.notifications n.id id))
    ];
  }

  pub Prunes-weaken :
      (may_go : Notification → Bool) (s s' : MemoryStore)
      → ((n : Notification) → can_go n ≡ true → may_go n ≡ true)
      → Prunes can_go s s'
      → Prunes may_go s s'
  Prunes-weaken may_go s s' h p = record {
    indexed = p.indexed;
    only = p.only;
    kept = λ id n e. elim (p.kept id n e) [ inl there ↦ inl there | inr gone ↦ inr (h n gone) ];
  }

abbrev pub takes : Bool → Notification → Bool
takes active n = same_bool (is_active n) active

pub removed-Candidates :
    (taken : Notification → Bool) (held : List Notification) (c : Notification) (s : MemoryStore)
    → contains (ids_held held) c.id ≡ false
    → Candidates taken held s.notifications
    → Candidates taken held (remove_notification c s).notifications
unfolding remove_notification
removed-Candidates taken held c s h p = erase-Candidates taken held s.notifications c.id h p

module _ (can_go : Notification → Bool) where
  pub evict-Prunes :
      (held : List Notification) (n : ℕ) (active : Bool) (s : MemoryStore)
      → IsIndexed s
      → Candidates (takes active) held s.notifications
      → All (λ c. takes active c ≡ true → can_go c ≡ true) held
      → Prunes can_go s (evict held n active s).0
  unfolding evict
  evict-Prunes held zero active s k p a = Prunes-refl can_go s k
  evict-Prunes [] (suc n) active s k p a = Prunes-refl can_go s k
  evict-Prunes (c ∷ held) (suc n) active s k p a = elim (Bool-cases (takes active c)) [
    | inl e ↦
        let once = remove-Prunes can_go c s k (p.0 e) (a.0 e) in
        rw (evict, e)
          (Prunes-trans can_go s (remove_notification c s)
            (evict held n active (remove_notification c s)).0 once
            (evict-Prunes held n active (remove_notification c s) once.indexed
              (removed-Candidates (takes active) held c s p.1 p.2) a.1))
    | inr e ↦ rw (evict, e) (evict-Prunes held (suc n) active s k p.2 a.1)
  ]

abbrev pub values : Map Notification → List Notification
values [] = []
values ((k, n) ∷ m) = n ∷ values m

pub prune_age-Prunes :
    (cutoff : Time) (m : Map Notification) (s : MemoryStore) (deleted : ℕ)
    → IsIndexed s
    → Candidates (has_aged cutoff) (values m) s.notifications
    → Prunes (has_aged cutoff) s (prune_age cutoff m (s, deleted)).0
unfolding prune_age
prune_age-Prunes cutoff [] s deleted k p = Prunes-refl (has_aged cutoff) s k
prune_age-Prunes cutoff ((id, n) ∷ m) s deleted k p = elim (Bool-cases (has_aged cutoff n)) [
  | inl e ↦
      let once = remove-Prunes (has_aged cutoff) n s k (p.0 e) e in
      rw (prune_age, e)
        (Prunes-trans (has_aged cutoff) s (remove_notification n s)
          (prune_age cutoff m (remove_notification n s, deleted + 1)).0 once
          (prune_age-Prunes cutoff m (remove_notification n s) (deleted + 1) once.indexed
            (removed-Candidates (has_aged cutoff) (values m) n s p.1 p.2)))
  | inr e ↦ rw (prune_age, e) (prune_age-Prunes cutoff m s deleted k p.2)
]
