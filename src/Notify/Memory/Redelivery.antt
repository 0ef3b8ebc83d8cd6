-- ===== src/Notify/Memory/Redelivery.antt =====
-- Insert of notify/memory.go: publishing the same again changes nothing.
use hmntsk.Prelude.{
  zero, suc, String, eq_iff, eq_refl, ◌≡◌, refl, sym, ◌∙◌, subst, Bool, true, false, ◌||◌, List, [],
  ◌∷◌, Option, none, some, ℤ, pos, negsuc, ltb_ℤ, is_some, add_key, Map, get, put, get-put,
  if◌then◌else◌, Bool-cases, inl, inr, arith,
}
use hmntsk.Prelude.Tables.{PairMap, PairKey, find, store, find-store, same_key}
use hmntsk.Task.{Time}
use hmntsk.Notify.{Notification}
use hmntsk.Notify.Port.{Insertion, InsertResult, no_insertions}
use hmntsk.Notify.Memory.{
  MemoryStore, Watermark, raised, floor, has_open, ids_of, put_notification, ensure_watermark,
  all_kinds, insert_one, insert_each, insert_all,
}
use hmntsk.Notify.Memory.Indexes.{IsIndexed, source_key}
use hmntsk.Notify.Memory.Updates.{AreThere, subject-AreThere}
use hmntsk.Notify.Memory.Inserting.{
  is_suppressed, is_absorbed, is_duplicate, after_creation, placed, insert_one-Inserted, Prepared,
  insert_one-Prepared, AreFresh, is_none,
}

-- Nothing is created of it.
abbrev pub is_refused : String → Insertion → MemoryStore → Bool
is_refused subject i s = is_suppressed subject i s || is_absorbed subject i s || is_duplicate i s

raised_floor : (o : Option Watermark) → ltb_ℤ (raised o (negsuc 0)) (negsuc 0) ≡ false
raised_floor none = refl
raised_floor (some mark) = go mark.version
  where
    go : (v : ℤ) → ltb_ℤ (if ltb_ℤ (negsuc 0) v then v else negsuc 0) (negsuc 0) ≡ false
    go (pos n) = refl
    go (negsuc zero) = refl
    go (negsuc (suc n)) = ground arith

abbrev lowest : Time → Watermark
lowest at = record { version = negsuc 0; updated_at = at }

-- A mark at -1 raises no floor.
raised-lowest :
    (at : Time) (o : Option Watermark)
    → raised (some (lowest at)) (raised o (negsuc 0)) ≡ raised o (negsuc 0)
raised-lowest at o = rw (raised_floor o) refl

floor_stored :
    (w : PairMap Watermark) (subject kind : String) (at : Time)
    → find w (subject, all_kinds) ≡ none
    → floor (store w (subject, all_kinds) (lowest at)) subject kind ≡ floor w subject kind
unfolding floor
floor_stored w subject kind at e =
    let first : find (store w (subject, all_kinds) (lowest at)) (subject, all_kinds)
        ≡ some (lowest at) =
      ground (
        arith,
        find-store w (subject, all_kinds) (subject, all_kinds) (lowest at),
        eq_refl subject,
        eq_refl all_kinds,
      ) in
    let second = find-store w (subject, all_kinds) (subject, kind) (lowest at) in
    elim (Bool-cases (same_key (subject, all_kinds) (subject, kind))) [
      | inl same ↦
          let named : all_kinds ≡ kind = (eq_iff all_kinds kind).0 (ground (arith, same)) in
          subst
            (λ k. floor (store w (subject, all_kinds) (lowest at)) subject k ≡ floor w subject k)
            named (rw first (rw e refl))
      | inr other ↦
          rw first (rw second (rw other (rw e (raised-lowest at (find w (subject, kind))))))
    ]

pub floor_ensured :
    (w : PairMap Watermark) (subject kind : String) (at : Time)
    → floor (ensure_watermark (subject, all_kinds) at w) subject kind ≡ floor w subject kind
unfolding ensure_watermark
floor_ensured w subject kind at = elim (Bool-cases (is_some (find w (subject, all_kinds)))) [
  | inl e ↦ rw e refl
  | inr e ↦ rw e (floor_stored w subject kind at (is_none (find w (subject, all_kinds)) e))
]

has_open-put :
    (m : Map Notification) (n : Notification) (ids : List String) (recipient kind : String)
    → get m n.id ≡ none
    → AreThere m ids
    → has_open m ids recipient kind ≡ true
    → has_open (put m n.id n) ids recipient kind ≡ true
unfolding has_open
has_open-put m n [] recipient kind h a e = e
has_open-put m n (id ∷ ids) recipient kind h a e =
    ground
      (arith, has_open-put m n ids recipient kind h a.1, get-put m n.id id n, a.0, eq_iff n.id id)

has_open-add_key :
    (m : Map Notification) (ids : List String) (id recipient kind : String)
    → has_open m ids recipient kind ≡ true
    → has_open m (add_key ids id) recipient kind ≡ true
unfolding has_open add_key
has_open-add_key m ids id recipient kind e = ground arith

find_stored :
    (m : PairMap String) (k j : PairKey) (id : String)
    → is_some (find m j) ≡ true
    → is_some (find (store m k id) j) ≡ true
find_stored m k j id h = ground (arith, find-store m k j id)

-- What is refused stays refused.
creation-refuses :
    (subject : String) (k i : Insertion) (s : MemoryStore)
    → IsIndexed s
    → get s.notifications k.notification.id ≡ none
    → is_refused subject i s ≡ true
    → is_refused subject i (after_creation subject k s) ≡ true
unfolding put_notification
creation-refuses subject k i s x fresh h =
    let n = i.notification in
    let ids = ids_of s.subjects subject in
    ground (
      arith,
      h,
      floor_ensured s.watermarks subject n.kind k.notification.created_at,
      find_stored s.sources (source_key k.notification) (source_key n) k.notification.id,
      has_open-put s.notifications (placed subject k) ids n.recipient n.kind fresh
          (subject-AreThere s subject x),
      get-put s.subjects subject subject (add_key ids k.notification.id),
      eq_refl subject,
      has_open-add_key (put s.notifications k.notification.id (placed subject k)) ids
          k.notification.id n.recipient n.kind,
    )

-- What was created is refused.
creation-own :
    (subject : String) (i : Insertion) (s : MemoryStore)
    → is_refused subject i (after_creation subject i s) ≡ true
unfolding put_notification
creation-own subject i s = ground (
  arith,
  find-store s.sources (source_key i.notification) (source_key i.notification) i.notification.id,
  eq_refl i.notification.source_id,
  eq_refl i.notification.recipient,
)

insert_one-refuses :
    (subject : String) (k i : Insertion) (s : MemoryStore) (r : InsertResult)
    → IsIndexed s
    → get s.notifications k.notification.id ≡ none
    → is_refused subject i s ≡ true
    → is_refused subject i (insert_one subject k (s, r)).0 ≡ true
insert_one-refuses subject k i s r x fresh h = elim (insert_one-Inserted subject k s r) [
  | inl (b, e) ↦ subst (λ a. is_refused subject i a.0 ≡ true) (sym e) h
  | inr (inl (b, e)) ↦ subst (λ a. is_refused subject i a.0 ≡ true) (sym e) h
  | inr (inr (inl (b, e))) ↦ subst (λ a. is_refused subject i a.0 ≡ true) (sym e) h
  | inr (inr (inr (b, j, l, e))) ↦
      subst (λ a. is_refused subject i a.0 ≡ true) (sym e)
        (creation-refuses subject k i s x fresh h)
]

insert_one-own :
    (subject : String) (i : Insertion) (s : MemoryStore) (r : InsertResult)
    → is_refused subject i (insert_one subject i (s, r)).0 ≡ true
insert_one-own subject i s r = elim (insert_one-Inserted subject i s r) [
  | inl (b, e) ↦ subst (λ a. is_refused subject i a.0 ≡ true) (sym e) (ground (arith, b))
  | inr (inl (b, e)) ↦ subst (λ a. is_refused subject i a.0 ≡ true) (sym e) (ground (arith, b))
  | inr (inr (inl (b, e))) ↦
      subst (λ a. is_refused subject i a.0 ≡ true) (sym e) (ground (arith, b))
  | inr (inr (inr (b, j, l, e))) ↦
      subst (λ a. is_refused subject i a.0 ≡ true) (sym e) (creation-own subject i s)
]

insert_each-refuses :
    (subject : String) (ks : List Insertion) (i : Insertion) (s : MemoryStore) (r : InsertResult)
    → Prepared ks s
    → is_refused subject i s ≡ true
    → is_refused subject i (insert_each subject ks (s, r)).0 ≡ true
unfolding insert_each
insert_each-refuses subject [] i s r p h = h
insert_each-refuses subject (k ∷ ks) i s r p h =
    let next = insert_one subject k (s, r) in
    insert_each-refuses subject ks i next.0 next.1 (insert_one-Prepared subject k ks s r p)
      (insert_one-refuses subject k i s r p.0 p.1.0 h)

abbrev pub AreRefused : String → List Insertion → MemoryStore → Type 0
AreRefused subject [] s = Unit {0}
AreRefused subject (i ∷ is) s = (is_refused subject i s ≡ true) × AreRefused subject is s

insert_each-AreRefused :
    (subject : String) (is : List Insertion) (s : MemoryStore) (r : InsertResult)
    → Prepared is s
    → AreRefused subject is (insert_each subject is (s, r)).0
unfolding insert_each
insert_each-AreRefused subject [] s r p = tt
insert_each-AreRefused subject (i ∷ is) s r p =
    let next = insert_one subject i (s, r) in
    let prepared = insert_one-Prepared subject i is s r p in
    (
      insert_each-refuses subject is i next.0 next.1 prepared (insert_one-own subject i s r),
      insert_each-AreRefused subject is next.0 next.1 prepared,
    )

-- The same publication again: its identifiers and instants may be others, and its contents.
pub record Redelivers (i j : Insertion) : Type 0 where
  pub recipient : j.notification.recipient ≡ i.notification.recipient
  pub source_id : j.notification.source_id ≡ i.notification.source_id
  pub subject_version : j.notification.subject_version ≡ i.notification.subject_version
  pub kind : j.notification.kind ≡ i.notification.kind
  pub coalesce : j.coalesce ≡ i.coalesce

abbrev pub AreRedelivered : List Insertion → List Insertion → Type 0
AreRedelivered [] [] = Unit {0}
AreRedelivered (i ∷ is) (j ∷ js) = Redelivers i j × AreRedelivered is js
AreRedelivered _ _ = ⊥

redelivery-refused :
    (subject : String) (i j : Insertion) (s : MemoryStore)
    → Redelivers i j
    → is_refused subject j s ≡ is_refused subject i s
redelivery-refused subject i j s d =
    rw d.recipient (rw d.source_id (rw d.subject_version (rw d.kind (rw d.coalesce refl))))

redelivery-AreRefused :
    (subject : String) (is js : List Insertion) (s : MemoryStore)
    → AreRedelivered is js
    → AreRefused subject is s
    → AreRefused subject js s
redelivery-AreRefused subject [] [] s d h = tt
redelivery-AreRefused subject [] (j ∷ js) s d h = elim d [ ]
redelivery-AreRefused subject (i ∷ is) [] s d h = elim d [ ]
redelivery-AreRefused subject (i ∷ is) (j ∷ js) s d h =
    (redelivery-refused subject i j s d.0 ∙ h.0, redelivery-AreRefused subject is js s d.1 h.1)

abbrev Refused : MemoryStore → InsertResult → MemoryStore × InsertResult → Type 0
Refused s r after = (after.0 ≡ s) × (after.1.created ≡ r.created)

insert_one-Refused :
    (subject : String) (i : Insertion) (s : MemoryStore) (r : InsertResult)
    → is_refused subject i s ≡ true
    → Refused s r (insert_one subject i (s, r))
insert_one-Refused subject i s r h = elim (insert_one-Inserted subject i s r) [
  | inl (b, e) ↦ subst (λ a. Refused s r a) (sym e) (refl, refl)
  | inr (inl (b, e)) ↦ subst (λ a. Refused s r a) (sym e) (refl, refl)
  | inr (inr (inl (b, e))) ↦ subst (λ a. Refused s r a) (sym e) (refl, refl)
  | inr (inr (inr (b, j, l, e))) ↦ ground (arith, h, b, j, l)
]

insert_each-Refused :
    (subject : String) (is : List Insertion) (s : MemoryStore) (r : InsertResult)
    → AreRefused subject is s
    → Refused s r (insert_each subject is (s, r))
unfolding insert_each
insert_each-Refused subject [] s r h = (refl, refl)
insert_each-Refused subject (i ∷ is) s r h =
    let next = insert_one subject i (s, r) in
    let one = insert_one-Refused subject i s r h.0 in
    let rest =
      insert_each-Refused subject is next.0 next.1
        (subst (λ x. AreRefused subject is x) (sym one.0) h.1) in
    (rest.0 ∙ one.0, rest.1 ∙ one.1)

-- Inserting again what was inserted into a store with agreeing indexes, with the same recipients,
-- sources, versions, kinds and coalescing, leaves the store as it is and creates nothing. The first
-- time the identifiers were new.
pub insert_all-again :
    (subject : String) (is js : List Insertion) (s : MemoryStore)
    → IsIndexed s
    → AreFresh is s.notifications
    → AreRedelivered is js
    → let s1 = (insert_all subject is s).0 in
      ((insert_all subject js s1).0 ≡ s1) × ((insert_all subject js s1).1.created ≡ [])
unfolding insert_all
insert_all-again subject is js s k f d =
    let s1 = (insert_each subject is (s, no_insertions)).0 in
    insert_each-Refused subject js s1 no_insertions (
      redelivery-AreRefused subject is js s1 d
        (insert_each-AreRefused subject is s no_insertions (k, f)))
