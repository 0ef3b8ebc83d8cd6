-- ===== src/Notify/Memory/Quota.antt =====
-- Prune of notify/memory.go: the count bound holds for every recipient after it.
use hmntsk.Prelude.{
  ℕ, ◌+◌, ◌-◌, ◌≤◌, min, zero, suc, String, ◌==◌, eq_iff, ◌≡◌, refl, ◌∙◌, Bool, true, false, List,
  [], ◌∷◌, length, Bool-cases, inl, inr, arith, contains, subst, sym,
}
use hmntsk.Notify.{Notification, Map}
use hmntsk.Notify.Port.{PruneRequest, PruneResult, evicts_active}
use hmntsk.Notify.Memory.{MemoryStore, remove_notification}
use hmntsk.Notify.Memory.Indexes.{IsIndexed, remove_notification-IsIndexed}
use hmntsk.Notify.Memory.Removals.{Candidates, takes, removed-Candidates, Prunes}
use hmntsk.Notify.Memory.Retention.{
  anything, AreHeldBy, evict_inactive-Prunes, narrow-Candidates, still-Candidates, inactive_of,
  sorted_held, Untouched, sorted-mine, removable_of, AreDistinct, sorted-Candidates, rest-Untouched,
  own_member, evict_excess-Prunes,
}
use hmntsk.Notify.Memory.Bounds.{
  count_takes, count_takes-both, evict-removed, evict-length, remove-length, length-sort_by,
}
use hmntsk.Notify.Pruning.{
  held_by, evict, evict_active, evict_excess, prune_recipients, oldest_first,
}
use hmntsk.Prelude.Tables.{HasDistinctKeys}
use hmntsk.Notify.Memory.Candidates.{HasOwnIds}

module _ (req : PruneRequest) (recipient : String) (held : List Notification) where
  module _ (mine : AreHeldBy recipient held) (evicts : evicts_active req.strategy ≡ true) where
    evict_active-length :
        (excess : ℕ) (s : MemoryStore) (r : PruneResult)
        → IsIndexed s
        → Candidates (takes true) held s.notifications
        → length (held_by recipient (evict_active req recipient held excess (s, r)).0.notifications)
            + min excess (count_takes true held)
          ≡ length (held_by recipient s.notifications)
    evict_active-length zero s r k c = omega arith
    evict_active-length (suc excess) s r k c = rw evicts (
        omega (
          arith,
          evict-length recipient held (suc excess) true s k c mine,
          evict-removed held (suc excess) true s,
        ))

    -- All notifications of the recipient, with what is over the bound.
    evict_excess-bound :
        (bound : ℕ) (s : MemoryStore) (r : PruneResult)
        → IsIndexed s
        → Candidates anything held s.notifications
        → length held ≡ length (held_by recipient s.notifications)
        → length (
            held_by recipient
              (evict_excess req recipient held (length held - bound) (s, r)).0.notifications)
          ≤ bound
    evict_excess-bound bound s r k c all =
        let excess = length held - bound in
        let done = evict held excess false s in
        let first = evict_inactive-Prunes req recipient held mine excess s k c in
        omega (
          arith,
          all,
          count_takes-both held,
          evict-removed held excess false s,
          evict-length recipient held excess false s k
              (narrow-Candidates (takes false) held s.notifications c) mine,
          evict_active-length (excess - done.1) done.0
              (record r { deleted_for_count = r.deleted_for_count + done.1 }) first.indexed
              (still-Candidates (inactive_of recipient) (takes true) held s done.0 first
                (λ n h. ground (arith, h)) c),
        )

  -- Of another recipient nothing is removed.
  module _ (mine : AreHeldBy recipient held) (other : String)
      (apart : (recipient == other) ≡ false) where
    evict-other :
        (ns : List Notification) (n : ℕ) (active : Bool) (s : MemoryStore)
        → IsIndexed s
        → Candidates (takes active) ns s.notifications
        → AreHeldBy recipient ns
        → length (held_by other (evict ns n active s).0.notifications)
          ≡ length (held_by other s.notifications)
    unfolding evict
    evict-other ns zero active s k c a = refl
    evict-other [] (suc n) active s k c a = refl
    evict-other (x ∷ ns) (suc n) active s k c a = elim (Bool-cases (takes active x)) [
      | inl e ↦
          let s1 = remove_notification x s in
          let rest =
            evict-other ns n active s1 (remove_notification-IsIndexed x s k (c.0 e))
              (removed-Candidates (takes active) ns x s c.1 c.2) a.1 in
          rw (evict, e)
            (ground (
              arith,
              rest,
              remove-length other x s k (c.0 e),
              a.0,
              eq_iff x.recipient recipient,
              eq_iff x.recipient other,
              eq_iff recipient other,
            ))
      | inr e ↦ rw (evict, e) (evict-other ns (suc n) active s k c.2 a.1)
    ]

    evict_active-other :
        (excess : ℕ) (s : MemoryStore) (r : PruneResult)
        → IsIndexed s
        → Candidates (takes true) held s.notifications
        → length (held_by other (evict_active req recipient held excess (s, r)).0.notifications)
          ≡ length (held_by other s.notifications)
    evict_active-other zero s r k c = refl
    evict_active-other (suc excess) s r k c = elim (Bool-cases (evicts_active req.strategy)) [
      | inl e ↦ rw e (evict-other held (suc excess) true s k c mine)
      | inr e ↦ rw e refl
    ]

    evict_excess-other :
        (excess : ℕ) (s : MemoryStore) (r : PruneResult)
        → IsIndexed s
        → Candidates anything held s.notifications
        → length (held_by other (evict_excess req recipient held excess (s, r)).0.notifications)
          ≡ length (held_by other s.notifications)
    evict_excess-other excess s r k c =
        let done = evict held excess false s in
        let first = evict_inactive-Prunes req recipient held mine excess s k c in
        evict_active-other (excess - done.1) done.0
          (record r { deleted_for_count = r.deleted_for_count + done.1 }) first.indexed
          (still-Candidates (inactive_of recipient) (takes true) held s done.0 first
            (λ n h. ground (arith, h)) c)
        ∙ evict-other held excess false s k (narrow-Candidates (takes false) held s.notifications c)
            mine

-- One round of the loop.
abbrev round :
    PruneRequest
    → ℕ
    → Map Notification
    → String
    → MemoryStore × PruneResult
    → MemoryStore × PruneResult
round req bound groups recipient acc =
    evict_excess req recipient (sorted_held recipient groups)
      (length (held_by recipient groups) - bound) acc

module _ (req : PruneRequest) (bound : ℕ) (groups : Map Notification) (d : HasDistinctKeys groups)
    (o : HasOwnIds groups) where
  round-Prunes :
      (recipient : String) (recipients : List String) (s : MemoryStore) (r : PruneResult)
      → IsIndexed s
      → Untouched groups (recipient ∷ recipients) s
      → Prunes (removable_of req recipient) s (round req bound groups recipient (s, r)).0
  round-Prunes recipient recipients s r k u =
      evict_excess-Prunes req recipient (sorted_held recipient groups)
        (sorted-mine recipient groups) (length (held_by recipient groups) - bound) s r k
        (sorted-Candidates groups (recipient ∷ recipients) recipient s d o
          (own_member recipient recipients) u)

  round-other :
      (recipient other : String) (recipients : List String) (s : MemoryStore) (r : PruneResult)
      → (recipient == other) ≡ false
      → IsIndexed s
      → Untouched groups (recipient ∷ recipients) s
      → length (held_by other (round req bound groups recipient (s, r)).0.notifications)
        ≡ length (held_by other s.notifications)
  round-other recipient other recipients s r h k u =
      evict_excess-other req recipient (sorted_held recipient groups) (sorted-mine recipient groups)
        other h (length (held_by recipient groups) - bound) s r k
        (sorted-Candidates groups (recipient ∷ recipients) recipient s d o
          (own_member recipient recipients) u)

  round-bound :
      (recipient : String) (recipients : List String) (s : MemoryStore) (r : PruneResult)
      → evicts_active req.strategy ≡ true
      → length (held_by recipient s.notifications) ≡ length (held_by recipient groups)
      → IsIndexed s
      → Untouched groups (recipient ∷ recipients) s
      → length (held_by recipient (round req bound groups recipient (s, r)).0.notifications) ≤ bound
  round-bound recipient recipients s r e all k u =
      let held = sorted_held recipient groups in
      let same : length held ≡ length (held_by recipient groups) =
        length-sort_by oldest_first (held_by recipient groups) in
      subst
        (λ n.
          length
            (held_by recipient (evict_excess req recipient held (n - bound) (s, r)).0.notifications)
          ≤ bound)
        same
        (evict_excess-bound req recipient held (sorted-mine recipient groups) e bound s r k
          (sorted-Candidates groups (recipient ∷ recipients) recipient s d o
            (own_member recipient recipients) u)
          (same ∙ sym all))

  pub prune_recipients-other :
      (recipients : List String) (other : String) (s : MemoryStore) (r : PruneResult)
      → contains recipients other ≡ false
      → AreDistinct recipients
      → IsIndexed s
      → Untouched groups recipients s
      → length (held_by other (prune_recipients req bound groups recipients (s, r)).0.notifications)
        ≡ length (held_by other s.notifications)
  unfolding prune_recipients contains
  prune_recipients-other [] other s r h a k u = refl
  prune_recipients-other (recipient ∷ recipients) other s r h a k u =
      let done = round req bound groups recipient (s, r) in
      let once = round-Prunes recipient recipients s r k u in
      prune_recipients-other recipients other done.0 done.1 (ground (arith, h)) a.1 once.indexed
        (rest-Untouched req groups recipient recipients s done.0 a.0 u once)
      ∙ round-other recipient other recipients s r (ground (arith, h)) k u

  pub prune_recipients-bound :
      (recipients : List String) (target : String) (s : MemoryStore) (r : PruneResult)
      → evicts_active req.strategy ≡ true
      → contains recipients target ≡ true
      → length (held_by target s.notifications) ≡ length (held_by target groups)
      → AreDistinct recipients
      → IsIndexed s
      → Untouched groups recipients s
      → length
          (held_by target (prune_recipients req bound groups recipients (s, r)).0.notifications)
        ≤ bound
  unfolding prune_recipients contains
  prune_recipients-bound [] target s r e h all a k u = cc
  prune_recipients-bound (recipient ∷ recipients) target s r e h all a k u =
      let done = round req bound groups recipient (s, r) in
      let once = round-Prunes recipient recipients s r k u in
      let left = rest-Untouched req groups recipient recipients s done.0 a.0 u once in
      elim (Bool-cases (recipient == target)) [
        | inl same ↦
            let named : recipient ≡ target = (eq_iff recipient target).0 same in
            let first =
              round-bound recipient recipients s r e
                (subst (λ x. length (held_by x s.notifications) ≡ length (held_by x groups))
                  (sym named) all)
                k u in
            omega (
              arith,
              prune_recipients-other recipients target done.0 done.1
                  (subst (λ x. contains recipients x ≡ false) named a.0) a.1 once.indexed left,
              subst (λ x. length (held_by x done.0.notifications) ≤ bound) named first,
            )
        | inr other ↦
            prune_recipients-bound recipients target done.0 done.1 e (ground (arith, h, other))
              (round-other recipient target recipients s r other k u ∙ all) a.1 once.indexed left
      ]
