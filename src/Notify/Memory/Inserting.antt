-- ===== src/Notify/Memory/Inserting.antt =====
-- Insert of notify/memory.go: it keeps the indexes and what is stored, and counts every insertion.
use hmntsk.Prelude.{
  ℕ, ◌+◌, String, eq_iff, ◌≡◌, refl, sym, ap, ◌∙◌, subst, Bool, true, false, ◌&&◌, List, [], ◌∷◌,
  ◌++◌, Option, none, some, is_some, contains, Map, get, put, get-put, length, ltb_ℤ, Bool-cases,
  inl, inr, arith, ◌⊎◌,
}
use hmntsk.Prelude.Tables.{find}
use hmntsk.Notify.{Notification}
use hmntsk.Notify.Port.{Insertion, InsertResult}
use hmntsk.Notify.Memory.{
  insert_all, MemoryStore, ids_of, floor, has_open, put_notification, ensure_watermark, all_kinds,
  insert_one, insert_each, no_insertions,
}
use hmntsk.Notify.Memory.Indexes.{
  IsIndexed, source_key, put_notification-IsIndexed, with_marks-IsIndexed,
}

-- The notification as it is inserted.
abbrev pub placed : String → Insertion → Notification
placed subject i = record i.notification { subject = subject }

abbrev pub is_suppressed : String → Insertion → MemoryStore → Bool
is_suppressed subject i s =
    ltb_ℤ i.notification.subject_version (floor s.watermarks subject i.notification.kind)

abbrev pub is_absorbed : String → Insertion → MemoryStore → Bool
is_absorbed subject i s =
    i.coalesce
    && has_open s.notifications (ids_of s.subjects subject) i.notification.recipient
        i.notification.kind

abbrev pub is_duplicate : Insertion → MemoryStore → Bool
is_duplicate i s = is_some (find s.sources (source_key i.notification))

-- The state after a creation.
abbrev pub after_creation : String → Insertion → MemoryStore → MemoryStore
after_creation subject i s = record (put_notification (placed subject i) s) {
  watermarks = ensure_watermark (subject, all_kinds) i.notification.created_at s.watermarks;
}

-- What may become of one insertion.
abbrev pub Inserted :
    String → Insertion → MemoryStore → InsertResult → MemoryStore × InsertResult → Type 0
Inserted subject i s r after =
    (is_suppressed subject i s ≡ true) × (after ≡ (s, record r { suppressed = r.suppressed + 1 }))
    ⊎ (is_absorbed subject i s ≡ true) × (after ≡ (s, record r { coalesced = r.coalesced + 1 }))
    ⊎ (is_duplicate i s ≡ true) × (after ≡ (s, record r { duplicates = r.duplicates + 1 }))
    ⊎ (is_suppressed subject i s ≡ false)
      × (is_absorbed subject i s ≡ false)
      × (is_duplicate i s ≡ false)
      × (after
          ≡ (after_creation subject i s, record r { created = r.created ++ placed subject i ∷ [] }))

pub insert_one-Inserted :
    (subject : String) (i : Insertion) (s : MemoryStore) (r : InsertResult)
    → Inserted subject i s r (insert_one subject i (s, r))
unfolding insert_one
insert_one-Inserted subject i s r = elim (Bool-cases (is_suppressed subject i s)) [
  | inl low ↦ inl (low, rw low refl)
  | inr high ↦ elim (Bool-cases (is_absorbed subject i s)) [
    | inl absorbed ↦ inr (inl (absorbed, rw high (rw absorbed refl)))
    | inr absent ↦ elim (Bool-cases (is_duplicate i s)) [
      | inl known ↦ inr (inr (inl (known, rw high (rw absent (rw known refl)))))
      | inr new ↦ inr (inr (inr (high, absent, new, rw high (rw absent (rw new refl)))))
    ]
  ]
]

counted : InsertResult → ℕ
counted r = length r.created + r.duplicates + r.suppressed + r.coalesced

pub length-append : {A : Type 0} (xs ys : List A) → length (xs ++ ys) ≡ length xs + length ys
length-append [] ys = omega arith
length-append (x ∷ xs) ys = omega (arith, length-append xs ys)

-- Every insertion is counted once.
insert_one-counted :
    (subject : String) (i : Insertion) (s : MemoryStore) (r : InsertResult)
    → counted (insert_one subject i (s, r)).1 ≡ counted r + 1
unfolding counted
insert_one-counted subject i s r = elim (insert_one-Inserted subject i s r) [
  | inl (h, e) ↦ ap (λ a. counted a.1) e ∙ omega arith
  | inr (inl (h, e)) ↦ ap (λ a. counted a.1) e ∙ omega arith
  | inr (inr (inl (h, e))) ↦ ap (λ a. counted a.1) e ∙ omega arith
  | inr (inr (inr (h, j, l, e))) ↦
      ap (λ a. counted a.1) e ∙ omega (arith, length-append r.created (placed subject i ∷ []))
]

insert_each-counted :
    (subject : String) (is : List Insertion) (s : MemoryStore) (r : InsertResult)
    → counted (insert_each subject is (s, r)).1 ≡ counted r + length is
unfolding insert_each
insert_each-counted subject [] s r = omega arith
insert_each-counted subject (i ∷ is) s r =
    let next = insert_one subject i (s, r) in
    omega (arith, insert_each-counted subject is next.0 next.1, insert_one-counted subject i s r)

-- New identifiers, none twice.
abbrev pub ids_in : List Insertion → List String
ids_in [] = []
ids_in (i ∷ is) = i.notification.id ∷ ids_in is

abbrev pub AreFresh : List Insertion → Map Notification → Type 0
AreFresh [] m = Unit {0}
AreFresh (i ∷ is) m =
    (get m i.notification.id ≡ none)
    × (contains (ids_in is) i.notification.id ≡ false)
    × AreFresh is m

put-AreFresh :
    (is : List Insertion) (m : Map Notification) (n : Notification)
    → contains (ids_in is) n.id ≡ false
    → AreFresh is m
    → AreFresh is (put m n.id n)
unfolding contains
put-AreFresh [] m n h f = tt
put-AreFresh (i ∷ is) m n h f = (
  ground (
    arith,
    get-put m n.id i.notification.id n,
    f.0,
    eq_iff i.notification.id n.id,
    eq_iff n.id i.notification.id,
  ),
  f.1,
  put-AreFresh is m n (ground arith) f.2,
)

pub is_none : {A : Type 0} (o : Option A) → is_some o ≡ false → o ≡ none
is_none none h = refl
is_none (some a) h = cc

creation-IsIndexed :
    (subject : String) (i : Insertion) (s : MemoryStore)
    → IsIndexed s
    → get s.notifications i.notification.id ≡ none
    → is_duplicate i s ≡ false
    → IsIndexed (after_creation subject i s)
creation-IsIndexed subject i s k fresh new =
    with_marks-IsIndexed (put_notification (placed subject i) s)
      (ensure_watermark (subject, all_kinds) i.notification.created_at s.watermarks)
      (put_notification-IsIndexed (placed subject i) s k fresh
        (is_none (find s.sources (source_key i.notification)) new))

created_fresh :
    (subject : String) (i : Insertion) (is : List Insertion) (s : MemoryStore)
    → AreFresh (i ∷ is) s.notifications
    → AreFresh is (after_creation subject i s).notifications
unfolding put_notification
created_fresh subject i is s f = put-AreFresh is s.notifications (placed subject i) f.1 f.2

abbrev pub Prepared : List Insertion → MemoryStore → Type 0
Prepared is s = IsIndexed s × AreFresh is s.notifications

pub insert_one-Prepared :
    (subject : String) (i : Insertion) (is : List Insertion) (s : MemoryStore) (r : InsertResult)
    → Prepared (i ∷ is) s
    → Prepared is (insert_one subject i (s, r)).0
insert_one-Prepared subject i is s r p = elim (insert_one-Inserted subject i s r) [
  | inl (h, e) ↦ subst (λ a. Prepared is a.0) (sym e) (p.0, p.1.2)
  | inr (inl (h, e)) ↦ subst (λ a. Prepared is a.0) (sym e) (p.0, p.1.2)
  | inr (inr (inl (h, e))) ↦ subst (λ a. Prepared is a.0) (sym e) (p.0, p.1.2)
  | inr (inr (inr (h, j, new, e))) ↦
      subst (λ a. Prepared is a.0) (sym e)
        (creation-IsIndexed subject i s p.0 p.1.0 new, created_fresh subject i is s p.1)
]

pub insert_each-IsIndexed :
    (subject : String) (is : List Insertion) (s : MemoryStore) (r : InsertResult)
    → Prepared is s
    → IsIndexed (insert_each subject is (s, r)).0
unfolding insert_each
insert_each-IsIndexed subject [] s r p = p.0
insert_each-IsIndexed subject (i ∷ is) s r p =
    let next = insert_one subject i (s, r) in
    insert_each-IsIndexed subject is next.0 next.1 (insert_one-Prepared subject i is s r p)

-- What is stored stays as it is.
abbrev pub Kept : MemoryStore → MemoryStore → Type 0
Kept s s' =
    (id : String) (n : Notification)
    → get s.notifications id ≡ some n
    → get s'.notifications id ≡ some n

creation-Kept :
    (subject : String) (i : Insertion) (s : MemoryStore)
    → get s.notifications i.notification.id ≡ none
    → Kept s (after_creation subject i s)
unfolding put_notification
creation-Kept subject i s fresh id n h = ground (
  arith,
  get-put s.notifications i.notification.id id (placed subject i),
  eq_iff i.notification.id id,
)

pub insert_one-Kept :
    (subject : String) (i : Insertion) (s : MemoryStore) (r : InsertResult)
    → get s.notifications i.notification.id ≡ none
    → Kept s (insert_one subject i (s, r)).0
insert_one-Kept subject i s r fresh = elim (insert_one-Inserted subject i s r) [
  | inl (h, e) ↦ subst (λ a. Kept s a.0) (sym e) (λ id n j. j)
  | inr (inl (h, e)) ↦ subst (λ a. Kept s a.0) (sym e) (λ id n j. j)
  | inr (inr (inl (h, e))) ↦ subst (λ a. Kept s a.0) (sym e) (λ id n j. j)
  | inr (inr (inr (h, j, new, e))) ↦
      subst (λ a. Kept s a.0) (sym e) (creation-Kept subject i s fresh)
]

pub insert_each-Kept :
    (subject : String) (is : List Insertion) (s : MemoryStore) (r : InsertResult)
    → Prepared is s
    → Kept s (insert_each subject is (s, r)).0
unfolding insert_each
insert_each-Kept subject [] s r p id n h = h
insert_each-Kept subject (i ∷ is) s r p id n h =
    let next = insert_one subject i (s, r) in
    insert_each-Kept subject is next.0 next.1 (insert_one-Prepared subject i is s r p) id n
      (insert_one-Kept subject i s r p.1.0 id n h)

-- As many insertions as there are, created, known, suppressed or absorbed.
pub insert_all-counted :
    (subject : String) (is : List Insertion) (s : MemoryStore)
    → let r = (insert_all subject is s).1 in
      length r.created + r.duplicates + r.suppressed + r.coalesced ≡ length is
unfolding insert_all counted
insert_all-counted subject is s = omega (arith, insert_each-counted subject is s no_insertions)
