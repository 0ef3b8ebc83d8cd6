-- ===== src/Notify/Memory/Advances.antt =====
-- notify/memory.go: what closing and marking may change of a notification.
use hmntsk.Prelude.{
  String, ◌==◌, eq_iff, eq_refl, ◌≡◌, refl, ap, ◌∙◌, subst, Bool, true, false, Option, none, some,
  is_some, contains, Map, get, put, get-put, Bool-cases, inl, inr, arith,
}
use hmntsk.Prelude.Tables.{PairKey, HasDistinctKeys, find}
use hmntsk.Notify.{Notification, State, state_active, state_closed, same_state}
use hmntsk.Notify.Memory.{MemoryStore, ids_of}
use hmntsk.Notify.Memory.Indexes.{IsIndexed, source_key, has_key, is_about}

-- What the publisher wrote and the stamp.
abbrev pub published : Notification → Notification
published n = record n {
  state = state_active;
  closed_reason = "";
  read_at = none;
  closed_at = none;
  inactive_at = none;
}

abbrev pub is_in : State → Notification → Bool
is_in s n = same_state n.state s

-- What was published stays; ACTIVE is never entered; CLOSED is never left, and its reason stays;
-- the instant of becoming inactive stays once it is set on a notification that is not ACTIVE.
pub record Advances (a b : Notification) : Type 0 where
  pub content : published b ≡ published a
  pub active : is_in state_active b ≡ true → is_in state_active a ≡ true
  pub closed : is_in state_closed a ≡ true → is_in state_closed b ≡ true
  pub reason : is_in state_closed a ≡ true → b.closed_reason ≡ a.closed_reason
  pub inactive :
      is_in state_active a ≡ false → is_some a.inactive_at ≡ true → b.inactive_at ≡ a.inactive_at

pub Advances-refl : (a : Notification) → Advances a a
Advances-refl a = record {
  content = refl;
  active = λ h. h;
  closed = λ h. h;
  reason = λ h. refl;
  inactive = λ h j. refl;
}

not_active :
    (a b : Notification)
    → Advances a b
    → is_in state_active a ≡ false
    → is_in state_active b ≡ false
not_active a b k h = elim (Bool-cases (is_in state_active b)) [
  | inl e ↦ ground (arith, k.active e)
  | inr e ↦ e
]

pub Advances-trans : (a b c : Notification) → Advances a b → Advances b c → Advances a c
Advances-trans a b c h k = record {
  content = k.content ∙ h.content;
  active = λ e. h.active (k.active e);
  closed = λ e. k.closed (h.closed e);
  reason = λ e. k.reason (h.closed e) ∙ h.reason e;
  inactive =
      λ e j. k.inactive (not_active a b h e) (ap is_some (h.inactive e j) ∙ j) ∙ h.inactive e j;
}

-- Under one key, before and after.
abbrev pub OptionAdvances : Option Notification → Option Notification → Type 0
OptionAdvances none none = Unit {0}
OptionAdvances (some a) (some b) = Advances a b
OptionAdvances _ _ = ⊥

abbrev pub MapAdvances : Map Notification → Map Notification → Type 0
MapAdvances m m' = (id : String) → OptionAdvances (get m id) (get m' id)

OptionAdvances-refl : (o : Option Notification) → OptionAdvances o o
OptionAdvances-refl none = tt
OptionAdvances-refl (some a) = Advances-refl a

pub MapAdvances-refl : (m : Map Notification) → MapAdvances m m
MapAdvances-refl m id = OptionAdvances-refl (get m id)

OptionAdvances-trans :
    (o p q : Option Notification) → OptionAdvances o p → OptionAdvances p q → OptionAdvances o q
OptionAdvances-trans none none none h k = tt
OptionAdvances-trans none none (some c) h k = elim k [ ]
OptionAdvances-trans none (some b) q h k = elim h [ ]
OptionAdvances-trans (some a) none q h k = elim h [ ]
OptionAdvances-trans (some a) (some b) none h k = elim k [ ]
OptionAdvances-trans (some a) (some b) (some c) h k = Advances-trans a b c h k

pub MapAdvances-trans :
    (m m1 m2 : Map Notification) → MapAdvances m m1 → MapAdvances m1 m2 → MapAdvances m m2
MapAdvances-trans m m1 m2 h k id =
    OptionAdvances-trans (get m id) (get m1 id) (get m2 id) (h id) (k id)

pub put-MapAdvances :
    (m : Map Notification) (id : String) (a b : Notification)
    → get m id ≡ some a
    → Advances a b
    → MapAdvances m (put m id b)
put-MapAdvances m id a b e h j = elim (Bool-cases (id == j)) [
  | inl same ↦
      subst (λ i. OptionAdvances (get m i) (get (put m id b) i)) ((eq_iff id j).0 same)
        (rw e (rw (get-put m id id b) (rw (eq_refl id) h)))
  | inr other ↦ rw (get-put m id j b) (rw other (OptionAdvances-refl (get m j)))
]

pub some-injective {ℓ} : {A : Type ℓ} {a b : A} → some a ≡ some b → a ≡ b
some-injective h = cc

-- What was there before a notification that is there now.
pub earlier :
    (o o' : Option Notification) (b : Notification)
    → OptionAdvances o o'
    → o' ≡ some b
    → (a : Notification) × (o ≡ some a) × Advances a b
earlier none none b h e = cc
earlier none (some c) b h e = elim h [ ]
earlier (some a) none b h e = elim h [ ]
earlier (some a) (some c) b h e = (a, refl, subst (λ x. Advances a x) (some-injective e) h)

advance-has_key :
    (k : PairKey) (o o' : Option Notification) → OptionAdvances o o' → has_key k o' ≡ has_key k o
advance-has_key k none none h = refl
advance-has_key k none (some c) h = elim h [ ]
advance-has_key k (some a) none h = elim h [ ]
advance-has_key k (some a) (some b) h = ap (λ n. has_key k (some n)) h.content

advance-is_about :
    (subject : String) (o o' : Option Notification)
    → OptionAdvances o o'
    → is_about subject o' ≡ is_about subject o
advance-is_about subject none none h = refl
advance-is_about subject none (some c) h = elim h [ ]
advance-is_about subject (some a) none h = elim h [ ]
advance-is_about subject (some a) (some b) h = ap (λ n. is_about subject (some n)) h.content

-- The indexes name what was published, and so they agree with notifications that advance.
pub advance-IsIndexed :
    (s : MemoryStore) (m : Map Notification)
    → IsIndexed s
    → MapAdvances s.notifications m
    → HasDistinctKeys m
    → IsIndexed (record s { notifications = m })
advance-IsIndexed s m k h d = record {
  own_id = λ id b e.
      let was = earlier (get s.notifications id) (get m id) b (h id) e in
      ap (λ n. n.id) was.2.content ∙ k.own_id id was.0 was.1;
  by_source = λ id b e.
      let was = earlier (get s.notifications id) (get m id) b (h id) e in
      ap (λ n. find s.sources (source_key n)) was.2.content ∙ k.by_source id was.0 was.1;
  by_subject = λ id b e.
      let was = earlier (get s.notifications id) (get m id) b (h id) e in
      ap (λ n. contains (ids_of s.subjects n.subject) id) was.2.content
      ∙ k.by_subject id was.0 was.1;
  source_of =
      λ j id e. advance-has_key j (get s.notifications id) (get m id) (h id) ∙ k.source_of j id e;
  subject_of = λ subject id e.
      advance-is_about subject (get s.notifications id) (get m id) (h id)
      ∙ k.subject_of subject id e;
  occupied = k.occupied;
  distinct = d;
}
