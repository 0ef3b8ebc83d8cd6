-- ===== src/Notify/Memory/Closed.antt =====
-- Close of notify/memory.go: which notifications it closes, and what it suppresses from then on.
use hmntsk.Prelude.{
  ℕ, ◌+◌, String, ◌==◌, eq_iff, eq_refl, ◌≡◌, refl, sym, ap, ◌∙◌, subst, Bool, true, false, ◌||◌,
  List, [], ◌∷◌, Option, none, some, is_some, contains, add_key, Map, get, put, get-put,
  if◌then◌else◌, Bool-cases, Option-cases, inl, inr, arith,
}
use hmntsk.Task.{Time}
use hmntsk.Notify.{Notification, same_state}
use hmntsk.Notify.Port.{CloseRequest}
use hmntsk.Notify.Memory.{or_zero, MemoryStore, ids_of}
use hmntsk.Notify.Memory.Updates.{AreThere, put-AreThere, subject-AreThere}
use hmntsk.Notify.Closing.{closes, close_notification, close_each, close_subject}
use hmntsk.Notify.Memory.Indexes.{is_about, IsIndexed}

-- A notification after a close of its subject.
abbrev pub closed_if : CloseRequest → Time → Notification → Notification
closed_if req at n = if closes req n then close_notification req at n else n

abbrev closed_option : CloseRequest → Time → Bool → Option Notification → Option Notification
closed_option req at reached none = none
closed_option req at reached (some n) = some (if reached then closed_if req at n else n)

closes-close_notification :
    (req : CloseRequest) (at : Time) (n : Notification)
    → closes req (close_notification req at n) ≡ false
unfolding closes close_notification same_state
closes-close_notification req at n = refl

closed_if-twice :
    (req : CloseRequest) (at : Time) (n : Notification)
    → closed_if req at (closed_if req at n) ≡ closed_if req at n
closed_if-twice req at n = elim (Bool-cases (closes req n)) [
  | inl e ↦ rw e (rw (closes-close_notification req at n) refl)
  | inr e ↦ rw e (rw e refl)
]

-- One round of the loop.
close_one : CloseRequest → Time → String → Map Notification → Map Notification
close_one req at id m =
    let n = or_zero (get m id) in if closes req n then put m id (close_notification req at n) else m

own_round :
    (req : CloseRequest) (at : Time) (id : String) (m : Map Notification) (n : Notification)
    → get m id ≡ some n
    → get (close_one req at id m) id ≡ some (closed_if req at n)
unfolding close_one
own_round req at id m n e = elim (Bool-cases (closes req n)) [
  | inl c ↦ rw e (rw c (rw (get-put m id id (close_notification req at n)) (rw (eq_refl id) refl)))
  | inr c ↦ rw e (rw c e)
]

other_round :
    (req : CloseRequest) (at : Time) (id j : String) (m : Map Notification)
    → (id == j) ≡ false
    → get (close_one req at id m) j ≡ get m j
unfolding close_one
other_round req at id j m h =
    ground (arith, get-put m id j (close_notification req at (or_zero (get m id))))

unchanged :
    (req : CloseRequest) (at : Time) (o : Option Notification) → closed_option req at false o ≡ o
unchanged req at none = refl
unchanged req at (some n) = refl

get-close_one :
    (req : CloseRequest) (at : Time) (id j : String) (m : Map Notification)
    → is_some (get m id) ≡ true
    → get (close_one req at id m) j ≡ closed_option req at (id == j) (get m j)
get-close_one req at id j m h = elim (Option-cases (get m id)) [
  | inl e ↦ ground (arith, h, e)
  | inr (n, e) ↦ elim (Bool-cases (id == j)) [
    | inl same ↦
        subst (λ k. get (close_one req at id m) k ≡ closed_option req at (id == k) (get m k))
          ((eq_iff id j).0 same)
          (own_round req at id m n e ∙ sym (rw (eq_refl id) (ap (closed_option req at true) e)))
    | inr other ↦
        rw other (ground (arith, other_round req at id j m other, unchanged req at (get m j)))
  ]
]

closed_option-twice :
    (req : CloseRequest) (at : Time) (a b : Bool) (o : Option Notification)
    → closed_option req at b (closed_option req at a o) ≡ closed_option req at (a || b) o
closed_option-twice req at a b none = refl
closed_option-twice req at true true (some n) = ap some (closed_if-twice req at n)
closed_option-twice req at true false (some n) = refl
closed_option-twice req at false b (some n) = refl

close_one-AreThere :
    (req : CloseRequest) (at : Time) (id : String) (m : Map Notification) (ids : List String)
    → AreThere m ids
    → AreThere (close_one req at id m) ids
unfolding close_one
close_one-AreThere req at id m ids h = elim (Bool-cases (closes req (or_zero (get m id)))) [
  | inl e ↦ rw e (put-AreThere m id (close_notification req at (or_zero (get m id))) ids h)
  | inr e ↦ rw e h
]

close_each-close_one :
    (req : CloseRequest) (at : Time) (id : String) (ids : List String) (m : Map Notification)
    (c : ℕ) (recipients : List String)
    → (c' : ℕ) × (recipients' : List String) × (close_each req at (id ∷ ids) (m, c, recipients)
        ≡ close_each req at ids (close_one req at id m, c', recipients'))
unfolding close_one close_each
close_each-close_one req at id ids m c recipients =
    elim (Bool-cases (closes req (or_zero (get m id)))) [
      | inl e ↦ (c + 1, add_key recipients (or_zero (get m id)).recipient, rw (close_each, e) refl)
      | inr e ↦ (c, recipients, rw (close_each, e) refl)
    ]

get-close_each :
    (req : CloseRequest) (at : Time) (ids : List String) (m : Map Notification) (c : ℕ)
    (recipients : List String) (j : String)
    → AreThere m ids
    → get (close_each req at ids (m, c, recipients)).0 j
      ≡ closed_option req at (contains ids j) (get m j)
unfolding contains close_each
get-close_each req at [] m c recipients j h = sym (unchanged req at (get m j))
get-close_each req at (id ∷ ids) m c recipients j h =
    let round = close_each-close_one req at id ids m c recipients in
    ap (λ x. get x.0 j) round.2
    ∙ (get-close_each req at ids (close_one req at id m) round.0 round.1 j
          (close_one-AreThere req at id m ids h.1)
        ∙ (ap (closed_option req at (contains ids j)) (get-close_one req at id j m h.0)
            ∙ closed_option-twice req at (id == j) (contains ids j) (get m j)))

-- The identifier of a subject is in its index, of another subject it is not.
indexed_subject :
    (s : MemoryStore) (subject id : String)
    → IsIndexed s
    → contains (ids_of s.subjects subject) id ≡ is_about subject (get s.notifications id)
indexed_subject s subject id k = elim (Bool-cases (contains (ids_of s.subjects subject) id)) [
  | inl e ↦ rw e (sym (k.subject_of subject id e))
  | inr e ↦ elim (Option-cases (get s.notifications id)) [
    | inl j ↦ rw e (rw j refl)
    | inr (n, j) ↦ ground (arith, e, j, k.by_subject id n, eq_iff n.subject subject)
  ]
]

abbrev pub closed_about : CloseRequest → Time → Option Notification → Option Notification
closed_about req at none = none
closed_about req at (some n) = some (if n.subject == req.subject then closed_if req at n else n)

about_closed :
    (req : CloseRequest) (at : Time) (o : Option Notification)
    → closed_option req at (is_about req.subject o) o ≡ closed_about req at o
about_closed req at none = refl
about_closed req at (some n) = refl

-- A close over agreeing indexes leaves, under every identifier, what was there with the request's
-- notifications closed: those of its subject that are not closed yet, at or below its version, of
-- its kinds (or of any, where it names none), and not of the recipient it spares. Successors come
-- after that.
pub get-close_subject :
    (req : CloseRequest) (at : Time) (s : MemoryStore) (id : String)
    → IsIndexed s
    → get (close_subject req at s).0.notifications id ≡ closed_about req at (get s.notifications id)
unfolding close_subject
get-close_subject req at s id k =
    get-close_each req at (ids_of s.subjects req.subject) s.notifications 0 [] id
      (subject-AreThere s req.subject k)
    ∙ (ap (λ b. closed_option req at b (get s.notifications id))
          (indexed_subject s req.subject id k)
        ∙ about_closed req at (get s.notifications id))
