-- ===== src/Notify/Memory/Unread.antt =====
-- CountActive of notify/memory.go together with MarkRead and MarkAllRead.
use hmntsk.Prelude.{
  ℕ, ◌+◌, ◌==◌, ◌⊎◌, none, String, eq_iff, ◌≡◌, refl, Bool, true, false, List, [], ◌∷◌, some,
  is_some, Map, get, put, get-put, if◌then◌else◌, arith, contains, subst, eq_refl, Bool-cases, sym,
  inl, ◌∙◌, inr, sort_strings, contains-sort_strings,
}
use hmntsk.Task.{Time, normalize_time}
use hmntsk.Notify.{
  Notification, State, state_active, state_read, state_closed, other_state, same_state, Option, ok,
  err, Result, not_found,
}
use hmntsk.Notify.Marking.{
  is_active_of, count_active, mark_through, marks_through, own, mark_notification, marked_in,
  mark_all_read, mark_read, mark_each, owns_all, compact,
}
use hmntsk.Notify.Memory.{MemoryStore, or_zero}
use hmntsk.Notify.Memory.Updates.{contains-compact}

count_active-mark_through :
    (recipient : String) (through at : Time) (m : Map Notification)
    → count_active recipient (mark_through recipient through at m).0
        + (mark_through recipient through at m).1
      ≡ count_active recipient m
unfolding mark_through count_active marks_through is_active_of same_state
count_active-mark_through recipient through at [] = refl
count_active-mark_through recipient through at ((id, n) ∷ m) =
    ground (arith, count_active-mark_through recipient through at m)

abbrev one_if : Bool → ℕ
one_if b = if b then 1 else 0

-- Replacing a notification changes the count by its own part.
count_active-put :
    (recipient : String) (m : Map Notification) (id : String) (a b : Notification)
    → get m id ≡ some a
    → count_active recipient (put m id b) + one_if (is_active_of recipient a)
      ≡ count_active recipient m + one_if (is_active_of recipient b)
unfolding count_active get put
count_active-put recipient [] id a b h = cc
count_active-put recipient ((k, n) ∷ m) id a b h =
    ground (arith, count_active-put recipient m id a b)

-- The identifiers have notifications of the recipient.
abbrev pub AreOwned : Map Notification → String → List String → Type 0
AreOwned m recipient [] = Unit {0}
AreOwned m recipient (id ∷ ids) =
    (is_some (own recipient (get m id)) ≡ true) × AreOwned m recipient ids

own_marked :
    (recipient : String) (m : Map Notification) (id j : String) (a b : Notification)
    → get m id ≡ some a
    → b.recipient ≡ a.recipient
    → is_some (own recipient (get m j)) ≡ true
    → is_some (own recipient (get (put m id b) j)) ≡ true
own_marked recipient m id j a b e r h = ground (arith, get-put m id j b, eq_iff id j)

put-AreOwned :
    (recipient : String) (m : Map Notification) (id : String) (a b : Notification)
    (ids : List String)
    → get m id ≡ some a
    → b.recipient ≡ a.recipient
    → AreOwned m recipient ids
    → AreOwned (put m id b) recipient ids
put-AreOwned recipient m id a b [] e r h = tt
put-AreOwned recipient m id a b (j ∷ ids) e r h =
    (own_marked recipient m id j a b e r h.0, put-AreOwned recipient m id a b ids e r h.1)

marked_recipient : (at : Time) (n : Notification) → (mark_notification at n).recipient ≡ n.recipient
unfolding mark_notification
marked_recipient at n = by_state n.state
  where
    by_state : (s : State) → (marked_in s at n).recipient ≡ n.recipient
    by_state state_active = refl
    by_state state_read = refl
    by_state state_closed = refl
    by_state (other_state s) = refl

marked_inactive :
    (at : Time) (n : Notification) → same_state (mark_notification at n).state state_active ≡ false
unfolding mark_notification same_state
marked_inactive at n = by_state n.state refl
  where
    by_state : (s : State) → n.state ≡ s → same_state (marked_in s at n).state state_active ≡ false
    by_state state_active e = refl
    by_state state_read e = rw e refl
    by_state state_closed e = rw e refl
    by_state (other_state s) e = rw e refl

own_found :
    (recipient : String) (o : Option Notification)
    → is_some (own recipient o) ≡ true
    → (a : Notification) × (o ≡ some a) × ((a.recipient == recipient) ≡ true)
own_found recipient none h = cc
own_found recipient (some a) h = (a, refl, ground arith)

one_marked :
    (recipient : String) (at : Time) (m : Map Notification) (id : String) (a : Notification) (k : ℕ)
    → get m id ≡ some a
    → (a.recipient == recipient) ≡ true
    → count_active recipient (put m id (mark_notification at a))
        + (if same_state a.state state_active then k + 1 else k)
      ≡ count_active recipient m + k
unfolding is_active_of
one_marked recipient at m id a k e mine = ground (
  arith,
  count_active-put recipient m id a (mark_notification at a) e,
  mine,
  marked_inactive at a,
)

mark_each-count :
    (recipient : String) (at : Time) (ids : List String) (m : Map Notification) (k : ℕ)
    → AreOwned m recipient ids
    → count_active recipient (mark_each at ids (m, k)).0 + (mark_each at ids (m, k)).1
      ≡ count_active recipient m + k
unfolding mark_each
mark_each-count recipient at [] m k h = refl
mark_each-count recipient at (id ∷ ids) m k h =
    let (a, e, mine) = own_found recipient (get m id) h.0 in
    let b = mark_notification at a in
    let k' = if same_state a.state state_active then k + 1 else k in
    subst
      (λ o.
        count_active recipient
            (mark_each at ids (
              put m id (mark_notification at (or_zero o)),
              (if same_state (or_zero o).state state_active then k + 1 else k),
            )).0
          + (mark_each at ids (
            put m id (mark_notification at (or_zero o)),
            (if same_state (or_zero o).state state_active then k + 1 else k),
          )).1
        ≡ count_active recipient m + k)
      (sym e)
      (mark_each-count recipient at ids (put m id b) k'
          (put-AreOwned recipient m id a b ids e (marked_recipient at a) h.1)
        ∙ one_marked recipient at m id a k e mine)

owns_all-AreOwned :
    (m : Map Notification) (recipient : String) (ids : List String)
    → ((id : String) → contains ids id ≡ true → is_some (own recipient (get m id)) ≡ true)
    → AreOwned m recipient ids
unfolding contains
owns_all-AreOwned m recipient [] h = tt
owns_all-AreOwned m recipient (id ∷ ids) h = (
  h id (ground (arith, eq_refl id)),
  owns_all-AreOwned m recipient ids (λ j e. h j (ground arith)),
)

owned_one :
    (m : Map Notification) (recipient : String) (ids : List String) (id : String)
    → owns_all m recipient ids ≡ true
    → contains ids id ≡ true
    → is_some (own recipient (get m id)) ≡ true
unfolding owns_all contains
owned_one m recipient [] id h e = cc
owned_one m recipient (x ∷ ids) id h e = ground (arith, owned_one m recipient ids id, eq_iff x id)

-- The operation marked so many: it returns the number, and the recipient's ACTIVE notifications
-- after it and that number make those before it.
abbrev pub Marks : String → MemoryStore → Result ℕ × MemoryStore → Type 0
Marks recipient s done =
    (marked : ℕ) × (done.0 ≡ ok marked)
    × (count_active recipient done.1.notifications + marked
        ≡ count_active recipient s.notifications)

-- MarkRead returns the number of the recipient's notifications that it took out of ACTIVE, or else
-- some identifier is not one of the recipient's notifications, the error is ErrNotFound, and the
-- store is as it was.
pub mark_read-count :
    (recipient : String) (ids : List String) (at : Time) (s : MemoryStore)
    → Marks recipient s (mark_read recipient ids at s)
      ⊎ (owns_all s.notifications recipient ids ≡ false)
        × (mark_read recipient ids at s ≡ (err not_found, s))
unfolding mark_read
mark_read-count recipient ids at s =
    let now = normalize_time at in
    let names = compact (sort_strings ids) in
    elim (Bool-cases (owns_all s.notifications recipient ids)) [
      | inl e ↦ inl (
          rw (mark_read, e)
            (
              (mark_each now names (s.notifications, 0)).1,
              refl,
              mark_each-count recipient now names s.notifications 0 (
                    owns_all-AreOwned s.notifications recipient names (λ id j.
                      owned_one s.notifications recipient ids id e (
                        sym (contains-sort_strings ids id)
                        ∙ contains-compact (sort_strings ids) id j)))
                  ∙ omega arith,
            ))
      | inr e ↦ inr (e, rw (mark_read, e) refl)
    ]

-- MarkAllRead returns the number of the recipient's notifications that it took out of ACTIVE.
pub mark_all_read-count :
    (recipient : String) (through at : Time) (s : MemoryStore)
    → Marks recipient s (mark_all_read recipient through at s)
unfolding mark_all_read
mark_all_read-count recipient through at s = (
  (mark_through recipient through (normalize_time at) s.notifications).1,
  refl,
  count_active-mark_through recipient through (normalize_time at) s.notifications,
)
