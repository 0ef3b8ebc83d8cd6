-- ===== src/Notify/Memory/Updates.antt =====
-- notify/memory.go: closing and marking only advance notifications, and keep the indexes.
use hmntsk.Prelude.{
  ℕ, ◌+◌, String, ◌==◌, eq_iff, ◌≡◌, refl, sym, ap, ◌∙◌, subst, true, List, [], ◌∷◌, Option, none,
  some, is_some, contains, Map, get, put, get-put, sort_strings, contains-sort_strings, Bool-cases,
  Option-cases, inl, inr, arith, if◌then◌else◌, eq_refl,
}
use hmntsk.Prelude.Tables.{HasDistinctKeys, put-HasDistinctKeys}
use hmntsk.Task.{Time}
use hmntsk.Notify.{
  Notification, State, state_active, state_read, state_closed, other_state, same_state,
}
use hmntsk.Notify.Port.{CloseRequest}
use hmntsk.Notify.Memory.{MemoryStore, or_zero, ids_of, first_instant, add_key}
use hmntsk.Notify.Memory.Indexes.{IsIndexed, is_about}
use hmntsk.Notify.Memory.Advances.{
  Advances, Advances-refl, MapAdvances, MapAdvances-refl, MapAdvances-trans, put-MapAdvances, is_in,
  OptionAdvances,
}
use hmntsk.Notify.Closing.{closes, close_notification, close_each}
use hmntsk.Notify.Marking.{
  own, owns_all, compact, compact_after, mark_active, mark_notification, mark_each, marked_in,
  mark_through, marks_through, is_active_of,
}

close-Advances :
    (req : CloseRequest) (at : Time) (n : Notification)
    → closes req n ≡ true
    → Advances n (close_notification req at n)
unfolding closes close_notification same_state
close-Advances req at n h = record {
  content = refl;
  active = λ e. ground arith;
  closed = λ e. ground arith;
  reason = λ e. ground arith;
  inactive = λ e j. stays n.inactive_at j;
}
  where
    stays : (o : Option Time) → is_some o ≡ true → first_instant o at ≡ o
    stays none j = cc
    stays (some t) j = refl

mark_active-Advances :
    (at : Time) (n : Notification) → is_in state_active n ≡ true → Advances n (mark_active at n)
unfolding same_state
mark_active-Advances at n h = record {
  content = refl;
  active = λ e. ground arith;
  closed = λ e. ground arith;
  reason = λ e. refl;
  inactive = λ e j. ground arith;
}

marked_in-Advances :
    (st : State) (at : Time) (n : Notification) → n.state ≡ st → Advances n (marked_in st at n)
unfolding same_state
marked_in-Advances state_active at n h =
    mark_active-Advances at n (ap (λ x. same_state x state_active) h)
marked_in-Advances state_closed at n h = record {
  content = refl;
  active = λ e. e;
  closed = λ e. e;
  reason = λ e. refl;
  inactive = λ e j. refl;
}
marked_in-Advances state_read at n h = Advances-refl n
marked_in-Advances (other_state text) at n h = Advances-refl n

mark-Advances : (at : Time) (n : Notification) → Advances n (mark_notification at n)
unfolding mark_notification
mark-Advances at n = marked_in-Advances n.state at n refl

-- Each of the identifiers has a notification.
abbrev pub AreThere : Map Notification → List String → Type 0
AreThere m [] = Unit {0}
AreThere m (id ∷ ids) = (is_some (get m id) ≡ true) × AreThere m ids

pub is_some-get-put :
    (m : Map Notification) (id j : String) (n : Notification)
    → is_some (get m j) ≡ true
    → is_some (get (put m id n) j) ≡ true
is_some-get-put m id j n h = ground (arith, get-put m id j n)

pub put-AreThere :
    (m : Map Notification) (id : String) (n : Notification) (ids : List String)
    → AreThere m ids
    → AreThere (put m id n) ids
put-AreThere m id n [] h = tt
put-AreThere m id n (j ∷ ids) h = (is_some-get-put m id j n h.0, put-AreThere m id n ids h.1)

-- The map after one more notification of it advanced.
abbrev Advanced : Map Notification → Map Notification → Type 0
Advanced m m' = MapAdvances m m' × HasDistinctKeys m'

put_one :
    (m : Map Notification) (id : String) (b : Notification)
    → is_some (get m id) ≡ true
    → Advances (or_zero (get m id)) b
    → MapAdvances m (put m id b)
put_one m id b there h = elim (Option-cases (get m id)) [
  | inl e ↦ ground (arith, there)
  | inr (n, e) ↦ put-MapAdvances m id n b e (subst (λ o. Advances (or_zero o) b) e h)
]

Advanced-put :
    (m m' : Map Notification) (id : String) (b : Notification)
    → is_some (get m id) ≡ true
    → Advances (or_zero (get m id)) b
    → Advanced (put m id b) m'
    → Advanced m m'
Advanced-put m m' id b there h rest =
    (MapAdvances-trans m (put m id b) m' (put_one m id b there h) rest.0, rest.1)

pub mark_each-Advanced :
    (at : Time) (ids : List String) (m : Map Notification) (marked : ℕ)
    → AreThere m ids
    → HasDistinctKeys m
    → Advanced m (mark_each at ids (m, marked)).0
unfolding mark_each
mark_each-Advanced at [] m marked a d = (MapAdvances-refl m, d)
mark_each-Advanced at (id ∷ ids) m marked a d =
    let n = or_zero (get m id) in
    let b = mark_notification at n in
    Advanced-put m
      (mark_each at ids
        (put m id b, (if same_state n.state state_active then marked + 1 else marked))).0
      id b a.0 (mark-Advances at n)
      (mark_each-Advanced at ids (put m id b)
        (if same_state n.state state_active then marked + 1 else marked)
        (put-AreThere m id b ids a.1) (put-HasDistinctKeys m id b d))

pub close_each-Advanced :
    (req : CloseRequest) (at : Time) (ids : List String) (m : Map Notification) (c : ℕ)
    (recipients : List String)
    → AreThere m ids
    → HasDistinctKeys m
    → Advanced m (close_each req at ids (m, c, recipients)).0
unfolding close_each
close_each-Advanced req at [] m c recipients a d = (MapAdvances-refl m, d)
close_each-Advanced req at (id ∷ ids) m c recipients a d =
    let n = or_zero (get m id) in
    let b = close_notification req at n in
    elim (Bool-cases (closes req (or_zero (get m id)))) [
      | inl e ↦
          rw (close_each, e)
            (Advanced-put m
              (close_each req at ids (put m id b, c + 1, add_key recipients n.recipient)).0 id b a.0
              (close-Advances req at n e)
              (close_each-Advanced req at ids (put m id b) (c + 1) (add_key recipients n.recipient)
                (put-AreThere m id b ids a.1) (put-HasDistinctKeys m id b d)))
      | inr e ↦ rw (close_each, e) (close_each-Advanced req at ids m c recipients a.1 d)
    ]

-- What an index by subject finds is there.
about_is_some :
    (subject : String) (o : Option Notification) → is_about subject o ≡ true → is_some o ≡ true
about_is_some subject none h = cc
about_is_some subject (some n) h = refl

pub AreThere-of :
    (m : Map Notification) (ids : List String)
    → ((id : String) → contains ids id ≡ true → is_some (get m id) ≡ true)
    → AreThere m ids
unfolding contains
AreThere-of m [] h = tt
AreThere-of m (id ∷ ids) h =
    (h id (ground (arith, eq_refl id)), AreThere-of m ids (λ j e. h j (ground arith)))

pub subject-AreThere :
    (s : MemoryStore) (subject : String)
    → IsIndexed s
    → AreThere s.notifications (ids_of s.subjects subject)
subject-AreThere s subject k =
    AreThere-of s.notifications (ids_of s.subjects subject)
      (λ id e. about_is_some subject (get s.notifications id) (k.subject_of subject id e))

-- The identifiers of a request, sorted and compacted, are among those of the request.
contains-compact_after :
    (a : String) (xs : List String) (b : String)
    → contains (compact_after a xs) b ≡ true
    → contains xs b ≡ true
unfolding contains compact_after
contains-compact_after a [] b h = h
contains-compact_after a (x ∷ xs) b h =
    ground (arith, contains-compact_after a xs b, contains-compact_after x xs b)

pub contains-compact :
    (xs : List String) (b : String) → contains (compact xs) b ≡ true → contains xs b ≡ true
unfolding contains compact
contains-compact [] b h = h
contains-compact (x ∷ xs) b h = ground (arith, contains-compact_after x xs b)

own-is_some :
    (recipient : String) (o : Option Notification)
    → is_some (own recipient o) ≡ true
    → is_some o ≡ true
own-is_some recipient none h = h
own-is_some recipient (some n) h = refl

pub owned :
    (m : Map Notification) (recipient : String) (ids : List String) (id : String)
    → owns_all m recipient ids ≡ true
    → contains ids id ≡ true
    → is_some (get m id) ≡ true
unfolding owns_all contains
owned m recipient [] id h e = cc
owned m recipient (x ∷ ids) id h e =
    ground (arith, owned m recipient ids id, own-is_some recipient (get m x), eq_iff x id)

pub request-AreThere :
    (m : Map Notification) (recipient : String) (ids : List String)
    → owns_all m recipient ids ≡ true
    → AreThere m (compact (sort_strings ids))
request-AreThere m recipient ids h = AreThere-of m (compact (sort_strings ids)) (λ id e.
    owned m recipient ids id h
      (sym (contains-sort_strings ids id) ∙ contains-compact (sort_strings ids) id e))

through_was_active :
    (recipient : String) (through : Time) (n : Notification)
    → marks_through recipient through n ≡ true
    → is_in state_active n ≡ true
unfolding marks_through is_active_of
through_was_active recipient through n h = ground arith

through-OptionAdvances :
    (recipient : String) (through at : Time) (m : Map Notification)
    → MapAdvances m (mark_through recipient through at m).0
unfolding mark_through get
through-OptionAdvances recipient through at [] id = tt
through-OptionAdvances recipient through at ((k, n) ∷ m) id = elim (Bool-cases (k == id)) [
  | inl here ↦ elim (Bool-cases (marks_through recipient through n)) [
    | inl e ↦ rw here (
        rw (mark_through, e)
          (rw here (mark_active-Advances at n (through_was_active recipient through n e))))
    | inr e ↦ rw here (rw (mark_through, e) (rw here (Advances-refl n)))
  ]
  | inr other ↦ elim (Bool-cases (marks_through recipient through n)) [
    | inl e ↦
        rw other
          (rw (mark_through, e) (rw other (through-OptionAdvances recipient through at m id)))
    | inr e ↦
        rw other
          (rw (mark_through, e) (rw other (through-OptionAdvances recipient through at m id)))
  ]
]

pub still_none : (o : Option Notification) → OptionAdvances none o → o ≡ none
still_none none h = refl
still_none (some n) h = elim h [ ]

through-HasDistinctKeys :
    (recipient : String) (through at : Time) (m : Map Notification)
    → HasDistinctKeys m
    → HasDistinctKeys (mark_through recipient through at m).0
unfolding mark_through
through-HasDistinctKeys recipient through at [] d = tt
through-HasDistinctKeys recipient through at ((k, n) ∷ m) d =
    let rest = (mark_through recipient through at m).0 in
    let free : get rest k ≡ none = still_none (get rest k) (
      subst (λ o. OptionAdvances o (get rest k)) d.0
        (through-OptionAdvances recipient through at m k)) in
    elim (Bool-cases (marks_through recipient through n)) [
      | inl e ↦ rw (mark_through, e) (free, through-HasDistinctKeys recipient through at m d.1)
      | inr e ↦ rw (mark_through, e) (free, through-HasDistinctKeys recipient through at m d.1)
    ]

pub mark_through-Advanced :
    (recipient : String) (through at : Time) (m : Map Notification)
    → HasDistinctKeys m
    → Advanced m (mark_through recipient through at m).0
mark_through-Advanced recipient through at m d = (
  through-OptionAdvances recipient through at m,
  through-HasDistinctKeys recipient through at m d,
)
