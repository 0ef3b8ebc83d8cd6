-- ===== src/Notify/Memory/Indexes.antt =====
-- notify/memory.go: the indexes by source and by subject agree with the notifications.
use hmntsk.Prelude.{
  String, ◌==◌, eq_iff, ◌≡◌, ◌≢◌, refl, Bool, true, false, ◌&&◌, not, List, [], ◌∷◌, Option, none,
  some, is_nil, get, put, get-put, contains, contains-add_key, add_key, delete_key,
  contains-delete_key, arith,
}
use hmntsk.Prelude.Tables.{
  PairKey, PairMap, same_key, erase, get-erase, find, store, find-store, erase_pair,
  find-erase_pair, HasDistinctKeys, put-HasDistinctKeys, erase-HasDistinctKeys,
}
use hmntsk.Notify.{Notification, Map}
use hmntsk.Notify.Memory.{
  MemoryStore, Watermark, ids_of, put_ids, put_notification, remove_notification, EmailDelivery,
}

abbrev pub source_key : Notification → PairKey
source_key n = (n.source_id, n.recipient)

abbrev pub has_key : PairKey → Option Notification → Bool
has_key k none = false
has_key k (some n) = same_key (source_key n) k

abbrev pub is_about : String → Option Notification → Bool
is_about subject none = false
is_about subject (some n) = n.subject == subject

-- A notification is found under its identifier by its source and recipient, and by its subject;
-- what an index finds is there; a subject in the index has a notification; and no identifier
-- stands twice.
pub record IsIndexed (s : MemoryStore) : Type 0 where
  pub own_id : (id : String) (n : Notification) → get s.notifications id ≡ some n → n.id ≡ id
  pub by_source :
      (id : String) (n : Notification)
      → get s.notifications id ≡ some n
      → find s.sources (source_key n) ≡ some id
  pub by_subject :
      (id : String) (n : Notification)
      → get s.notifications id ≡ some n
      → contains (ids_of s.subjects n.subject) id ≡ true
  pub source_of :
      (k : PairKey) (id : String)
      → find s.sources k ≡ some id
      → has_key k (get s.notifications id) ≡ true
  pub subject_of :
      (subject id : String)
      → contains (ids_of s.subjects subject) id ≡ true
      → is_about subject (get s.notifications id) ≡ true
  pub occupied : (subject : String) → get s.subjects subject ≢ some []
  pub distinct : HasDistinctKeys s.notifications

add_key-occupied : (ids : List String) (id : String) → add_key ids id ≢ []
unfolding add_key contains
add_key-occupied [] id h = ground arith
add_key-occupied (x ∷ ids) id h = ground arith

contains-is_nil : (ids : List String) (id : String) → is_nil ids ≡ true → contains ids id ≡ false
unfolding contains
contains-is_nil [] id h = refl
contains-is_nil (x ∷ ids) id h = cc

not_empty : (ids : List String) → is_nil ids ≡ false → ids ≢ []
not_empty [] h = cc
not_empty (x ∷ ids) h = cc

module _ (n : Notification) (s : MemoryStore) (k : IsIndexed s) where
  module _ (fresh : get s.notifications n.id ≡ none)
      (new : find s.sources (source_key n) ≡ none) where
    put_own_id :
        (id : String) (m : Notification) → get (put s.notifications n.id n) id ≡ some m → m.id ≡ id
    put_own_id id m h =
        ground (arith, get-put s.notifications n.id id n, k.own_id id m, eq_iff n.id id)

    put_by_source :
        (id : String) (m : Notification)
        → get (put s.notifications n.id n) id ≡ some m
        → find (store s.sources (source_key n) n.id) (source_key m) ≡ some id
    put_by_source id m h = ground (
      arith,
      get-put s.notifications n.id id n,
      find-store s.sources (source_key n) (source_key m) n.id,
      k.by_source id m,
      eq_iff n.id id,
      eq_iff n.source_id m.source_id,
      eq_iff n.recipient m.recipient,
    )

    put_by_subject :
        (id : String) (m : Notification)
        → get (put s.notifications n.id n) id ≡ some m
        → contains
            (ids_of
              (put s.subjects n.subject (add_key (ids_of s.subjects n.subject) n.id))
              m.subject)
            id
          ≡ true
    put_by_subject id m h = ground (
      arith,
      get-put s.notifications n.id id n,
      get-put s.subjects n.subject m.subject (add_key (ids_of s.subjects n.subject) n.id),
      contains-add_key (ids_of s.subjects n.subject) n.id id,
      k.by_subject id m,
      eq_iff n.id id,
      eq_iff n.subject m.subject,
    )

    put_source_of :
        (j : PairKey) (id : String)
        → find (store s.sources (source_key n) n.id) j ≡ some id
        → has_key j (get (put s.notifications n.id n) id) ≡ true
    put_source_of j id h = ground (
      arith,
      get-put s.notifications n.id id n,
      find-store s.sources (source_key n) j n.id,
      k.source_of j id,
      eq_iff n.id id,
    )

    put_subject_of :
        (subject id : String)
        → contains
            (ids_of (put s.subjects n.subject (add_key (ids_of s.subjects n.subject) n.id)) subject)
            id
          ≡ true
        → is_about subject (get (put s.notifications n.id n) id) ≡ true
    put_subject_of subject id h = ground (
      arith,
      get-put s.notifications n.id id n,
      get-put s.subjects n.subject subject (add_key (ids_of s.subjects n.subject) n.id),
      contains-add_key (ids_of s.subjects n.subject) n.id id,
      k.subject_of subject id,
      eq_iff n.id id,
      eq_iff n.subject subject,
    )

    put_occupied :
        (subject : String)
        → get (put s.subjects n.subject (add_key (ids_of s.subjects n.subject) n.id)) subject
          ≢ some []
    put_occupied subject h = ground (
      arith,
      get-put s.subjects n.subject subject (add_key (ids_of s.subjects n.subject) n.id),
      add_key-occupied (ids_of s.subjects n.subject) n.id,
      k.occupied subject,
    )

    pub put_notification-IsIndexed : IsIndexed (put_notification n s)
    unfolding put_notification
    put_notification-IsIndexed = record {
      own_id = put_own_id;
      by_source = put_by_source;
      by_subject = put_by_subject;
      source_of = put_source_of;
      subject_of = put_subject_of;
      occupied = put_occupied;
      distinct = put-HasDistinctKeys s.notifications n.id n k.distinct;
    }

  remove_own_id :
      (id : String) (m : Notification) → get (erase s.notifications n.id) id ≡ some m → m.id ≡ id
  remove_own_id id m h = ground (arith, get-erase s.notifications n.id id, k.own_id id m)

  -- A notification that is there.
  module _ (there : get s.notifications n.id ≡ some n) where
    remove_by_source :
        (id : String) (m : Notification)
        → get (erase s.notifications n.id) id ≡ some m
        → find (erase_pair s.sources (source_key n)) (source_key m) ≡ some id
    remove_by_source id m h = ground (
      arith,
      get-erase s.notifications n.id id,
      find-erase_pair s.sources (source_key n) (source_key m),
      k.by_source id m,
      k.by_source n.id n there,
      eq_iff n.id id,
      eq_iff n.source_id m.source_id,
      eq_iff n.recipient m.recipient,
    )

    ids_left :
        (subject id : String)
        → contains
            (ids_of
              (put_ids s.subjects n.subject (delete_key (ids_of s.subjects n.subject) n.id))
              subject)
            id
          ≡ (not (n.subject == subject && n.id == id) && contains (ids_of s.subjects subject) id)
    unfolding contains
    ids_left subject id =
        let rest = delete_key (ids_of s.subjects n.subject) n.id in
        ground (
          arith,
          get-erase s.subjects n.subject subject,
          get-put s.subjects n.subject subject rest,
          contains-delete_key (ids_of s.subjects n.subject) n.id id,
          contains-is_nil rest id,
          eq_iff n.subject subject,
        )

    remove_by_subject :
        (id : String) (m : Notification)
        → get (erase s.notifications n.id) id ≡ some m
        → contains
            (ids_of
              (put_ids s.subjects n.subject (delete_key (ids_of s.subjects n.subject) n.id))
              m.subject)
            id
          ≡ true
    remove_by_subject id m h = ground (
      arith,
      get-erase s.notifications n.id id,
      ids_left m.subject id,
      k.by_subject id m,
      eq_iff n.id id,
    )

    remove_source_of :
        (j : PairKey) (id : String)
        → find (erase_pair s.sources (source_key n)) j ≡ some id
        → has_key j (get (erase s.notifications n.id) id) ≡ true
    remove_source_of j id h = ground (
      arith,
      get-erase s.notifications n.id id,
      find-erase_pair s.sources (source_key n) j,
      k.source_of j id,
      there,
      eq_iff n.id id,
    )

    remove_subject_of :
        (subject id : String)
        → contains
            (ids_of
              (put_ids s.subjects n.subject (delete_key (ids_of s.subjects n.subject) n.id))
              subject)
            id
          ≡ true
        → is_about subject (get (erase s.notifications n.id) id) ≡ true
    remove_subject_of subject id h = ground (
      arith,
      get-erase s.notifications n.id id,
      ids_left subject id,
      k.subject_of subject id,
      there,
      eq_iff n.id id,
    )

    remove_occupied :
        (subject : String)
        → get (put_ids s.subjects n.subject (delete_key (ids_of s.subjects n.subject) n.id)) subject
          ≢ some []
    remove_occupied subject h =
        let rest = delete_key (ids_of s.subjects n.subject) n.id in
        ground (
          arith,
          get-erase s.subjects n.subject subject,
          get-put s.subjects n.subject subject rest,
          k.occupied subject,
          not_empty rest,
        )

    pub remove_notification-IsIndexed : IsIndexed (remove_notification n s)
    unfolding remove_notification
    remove_notification-IsIndexed = record {
      own_id = remove_own_id;
      by_source = remove_by_source;
      by_subject = remove_by_subject;
      source_of = remove_source_of;
      subject_of = remove_subject_of;
      occupied = remove_occupied;
      distinct = erase-HasDistinctKeys s.notifications n.id k.distinct;
    }

-- The watermarks have no index.
pub with_marks-IsIndexed :
    (s : MemoryStore) (w : PairMap Watermark)
    → IsIndexed s
    → IsIndexed (record s { watermarks = w })
with_marks-IsIndexed s w k = record {
  own_id = k.own_id;
  by_source = k.by_source;
  by_subject = k.by_subject;
  source_of = k.source_of;
  subject_of = k.subject_of;
  occupied = k.occupied;
  distinct = k.distinct;
}

pub with_deliveries-IsIndexed :
    (s : MemoryStore) (d : Map EmailDelivery)
    → IsIndexed s
    → IsIndexed (record s { deliveries = d })
with_deliveries-IsIndexed s d k = record {
  own_id = k.own_id;
  by_source = k.by_source;
  by_subject = k.by_subject;
  source_of = k.source_of;
  subject_of = k.subject_of;
  occupied = k.occupied;
  distinct = k.distinct;
}
