-- ===== src/Notify/Memory/Runs.antt =====
-- notify/memory.go: what every operation that changes the store keeps.
use hmntsk.Prelude.{
  ℕ, String, ◌≡◌, refl, sym, ◌∙◌, subst, Bool, List, [], ◌∷◌, Option, none, some, Map, get,
  sort_strings, Bool-cases, inl, inr,
}
use hmntsk.Prelude.Tables.{HasDistinctKeys}
use hmntsk.Task.{Time, normalize_time}
use hmntsk.Notify.{Notification, Result, ok, err}
use hmntsk.Notify.Port.{Insertion, CloseRequest}
use hmntsk.Notify.Memory.{
  MemoryStore, ids_of, insert_all, insert_each, no_insertions, EmailDelivery,
}
use hmntsk.Notify.Memory.Indexes.{IsIndexed, with_marks-IsIndexed, with_deliveries-IsIndexed}
use hmntsk.Notify.Mailing.{
  EmailCall, claim_call, record_call, purge_call, email_call, claim_emails, record_emails,
  purge_email_records,
}
use hmntsk.Notify.Memory.Advances.{
  Advances, Advances-refl, OptionAdvances, MapAdvances, advance-IsIndexed, some-injective,
}
use hmntsk.Notify.Memory.Updates.{
  close_each-Advanced, mark_each-Advanced, mark_through-Advanced, subject-AreThere,
  request-AreThere, still_none,
}
use hmntsk.Notify.Memory.Inserting.{
  AreFresh, Prepared, insert_each-IsIndexed, insert_each-Kept, Kept,
}
use hmntsk.Notify.Memory.Removals.{Prunes}
use hmntsk.Notify.Closing.{close_subject, close_result, after_stamping, closed_marks, close_each}
use hmntsk.Notify.Marking.{mark_read, mark_all_read, owns_all, mark_each, compact, mark_through}

-- Where a notification was, it is gone or has advanced.
pub record Keeps (s s' : MemoryStore) : Type 0 where
  pub indexed : IsIndexed s'
  pub history :
      (id : String) (a b : Notification)
      → get s.notifications id ≡ some a
      → get s'.notifications id ≡ some b
      → Advances a b

same-Advances : (a b : Notification) → some a ≡ some b → Advances a b
same-Advances a b e = subst (λ n. Advances a n) (some-injective e) (Advances-refl a)

Keeps-refl : (s : MemoryStore) → IsIndexed s → Keeps s s
Keeps-refl s k = record { indexed = k; history = λ id a b e j. same-Advances a b (sym e ∙ j) }

Keeps-Kept : (s s' : MemoryStore) → IsIndexed s' → Kept s s' → Keeps s s'
Keeps-Kept s s' k h = record {
  indexed = k;
  history = λ id a b e j. same-Advances a b (sym (h id a e) ∙ j);
}

advanced_then :
    (o o' : Option Notification) (a b : Notification)
    → OptionAdvances o o'
    → o ≡ some a
    → ((n : Notification) → o' ≡ some n → some n ≡ some b)
    → Advances a b
advanced_then none o' a b h e f = cc
advanced_then (some x) none a b h e f = elim h [ ]
advanced_then (some x) (some y) a b h e f =
    subst (λ n. Advances a n) (some-injective (f y refl))
      (subst (λ n. Advances n y) (some-injective e) h)

-- Where everything was kept, more may be inserted after the notifications advanced.
Keeps-then :
    (s s1 s2 : MemoryStore)
    → MapAdvances s.notifications s1.notifications
    → Kept s1 s2
    → IsIndexed s2
    → Keeps s s2
Keeps-then s s1 s2 h k i = record {
  indexed = i;
  history = λ id a b e j.
      advanced_then (get s.notifications id) (get s1.notifications id) a b (h id) e
        (λ n l. sym (k id n l) ∙ j);
}

pub Keeps-Prunes : (go : Notification → Bool) (s s' : MemoryStore) → Prunes go s s' → Keeps s s'
Keeps-Prunes go s s' p = record {
  indexed = p.indexed;
  history = λ id a b e j. same-Advances a b (sym e ∙ p.only id b j);
}

with_same :
    (m : Map Notification) (is : List Insertion) (m' : Map Notification)
    → MapAdvances m m'
    → AreFresh is m
    → AreFresh is m'
with_same m [] m' h f = tt
with_same m (i ∷ is) m' h f = (
  still_none (get m' i.notification.id)
      (subst (λ o. OptionAdvances o (get m' i.notification.id)) f.0 (h i.notification.id)),
  f.1,
  with_same m is m' h f.2,
)

pub insert-Keeps :
    (subject : String) (is : List Insertion) (s : MemoryStore)
    → Prepared is s
    → Keeps s (insert_all subject is s).0
unfolding insert_all
insert-Keeps subject is s p =
    Keeps-Kept s (insert_each subject is (s, no_insertions)).0
      (insert_each-IsIndexed subject is s no_insertions p)
      (insert_each-Kept subject is s no_insertions p)

-- A close up to its successors.
pub close_subject-Advanced :
    (req : CloseRequest) (at : Time) (s : MemoryStore)
    → IsIndexed s
    → MapAdvances s.notifications (close_subject req at s).0.notifications
      × IsIndexed (close_subject req at s).0
unfolding close_subject
close_subject-Advanced req at s k =
    let ids = ids_of s.subjects req.subject in
    let done =
      close_each-Advanced req at ids s.notifications 0 [] (subject-AreThere s req.subject k)
        k.distinct in
    let m = (close_each req at ids (s.notifications, 0, [])).0 in
    (
      done.0,
      advance-IsIndexed (record s { watermarks = closed_marks req at s.watermarks }) m
          (with_marks-IsIndexed s (closed_marks req at s.watermarks) k) done.0 done.1,
    )

result-Keeps :
    (req : CloseRequest) (closed : ℕ) (recipients : List String) (s s1 : MemoryStore)
    (is : List Insertion)
    → MapAdvances s.notifications s1.notifications
    → IsIndexed s1
    → AreFresh is s.notifications
    → Keeps s (close_result req closed recipients s1 is).1
unfolding insert_all
result-Keeps req closed recipients s s1 [] h k f = Keeps-then s s1 s1 h (λ id n e. e) k
result-Keeps req closed recipients s s1 (i ∷ is) h k f =
    let p : Prepared (i ∷ is) s1 = (k, with_same s.notifications (i ∷ is) s1.notifications h f) in
    Keeps-then s s1 (insert_each req.subject (i ∷ is) (s1, no_insertions)).0 h
      (insert_each-Kept req.subject (i ∷ is) s1 no_insertions p)
      (insert_each-IsIndexed req.subject (i ∷ is) s1 no_insertions p)

-- The insertions of a stamping that did not fail.
abbrev pub Stamped : {G : Type 0} → Result (List Insertion) × G → Map Notification → Type 0
Stamped (ok is, g) m = AreFresh is m
Stamped (err e, g) m = Unit {0}

pub stamping-Keeps :
    {G : Type 0} (req : CloseRequest) (closed : ℕ) (recipients : List String) (s s1 : MemoryStore)
    (stamping : Result (List Insertion) × G)
    → MapAdvances s.notifications s1.notifications
    → IsIndexed s1
    → Stamped stamping s.notifications
    → Keeps s (after_stamping req closed recipients s1 stamping).1
stamping-Keeps req closed recipients s s1 (ok is, g) h k f =
    result-Keeps req closed recipients s s1 is h k f
stamping-Keeps req closed recipients s s1 (err e, g) h k f = Keeps-then s s1 s1 h (λ id n e. e) k

with_marked :
    (s : MemoryStore) (m : Map Notification)
    → IsIndexed s
    → MapAdvances s.notifications m × HasDistinctKeys m
    → Keeps s (record s { notifications = m })
with_marked s m k a =
    Keeps-then s (record s { notifications = m }) (record s { notifications = m }) a.0 (λ id n e. e)
      (advance-IsIndexed s m k a.0 a.1)

pub mark-Keeps :
    (recipient : String) (ids : List String) (at : Time) (s : MemoryStore)
    → IsIndexed s
    → Keeps s (mark_read recipient ids at s).1
unfolding mark_read
mark-Keeps recipient ids at s k = elim (Bool-cases (owns_all s.notifications recipient ids)) [
  | inl e ↦ rw e (
      with_marked s
        (mark_each (normalize_time at) (compact (sort_strings ids)) (s.notifications, 0)).0 k
        (mark_each-Advanced (normalize_time at) (compact (sort_strings ids)) s.notifications 0
          (request-AreThere s.notifications recipient ids e) k.distinct))
  | inr e ↦ rw e (Keeps-refl s k)
]

pub mark_all-Keeps :
    (recipient : String) (through at : Time) (s : MemoryStore)
    → IsIndexed s
    → Keeps s (mark_all_read recipient through at s).1
unfolding mark_all_read
mark_all-Keeps recipient through at s k =
    with_marked s (mark_through recipient through (normalize_time at) s.notifications).0 k
      (mark_through-Advanced recipient through (normalize_time at) s.notifications k.distinct)

with_deliveries-Keeps :
    (s : MemoryStore) (d : Map EmailDelivery) → IsIndexed s → Keeps s (record s { deliveries = d })
with_deliveries-Keeps s d k = record {
  indexed = with_deliveries-IsIndexed s d k;
  history = λ id a b e j. same-Advances a b (sym e ∙ j);
}

-- The operations on emails change the deliveries only.
pub email-Keeps : (c : EmailCall) (s : MemoryStore) → IsIndexed s → Keeps s (email_call c s)
unfolding claim_emails record_emails purge_email_records
email-Keeps (claim_call claim) s k = with_deliveries-Keeps s _ k
email-Keeps (record_call r) s k = with_deliveries-Keeps s _ k
email-Keeps (purge_call limit) s k = with_deliveries-Keeps s _ k
