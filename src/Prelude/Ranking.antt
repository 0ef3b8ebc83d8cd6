-- ===== src/Prelude/Ranking.antt =====
-- slices.SortFunc with a comparison that is an order, on values of which no two are level, and what
-- it gives together with a filter.
use Prim.Native.Nat.{Ordering}
use mathlib.Core.Path.{◌≡◌, refl, sym, ap, ◌∙◌}
use mathlib.Core.Logic.{inl, inr}
use mathlib.Core.Bool.{Bool, true, false, ◌&&◌}
use mathlib.Core.List.{List, [], ◌∷◌, ◌++◌}
use native.Mathlib.Omega.{arith}
use hmntsk.Prelude.Tests.{if◌then◌else◌, Bool-cases}
use hmntsk.Prelude.Orders.{IsOrder, flip}

abbrev pub is_lt : Ordering → Bool
is_lt Ordering.lt = true
is_lt _ = false

abbrev pub is_gt : Ordering → Bool
is_gt Ordering.gt = true
is_gt _ = false

abbrev pub is_level : Ordering → Bool
is_level Ordering.eq = true
is_level _ = false

unfoldable pub keep : {A : Type 0} → (A → Bool) → List A → List A
keep p [] = []
keep p (x ∷ xs) = if p x then x ∷ keep p xs else keep p xs

unfoldable pub insert_by : {A : Type 0} → (A → A → Ordering) → A → List A → List A
insert_by c x [] = x ∷ []
insert_by c x (y ∷ ys) = if is_lt (c y x) then y ∷ insert_by c x ys else x ∷ y ∷ ys

unfoldable pub sort_by : {A : Type 0} → (A → A → Ordering) → List A → List A
unfolding insert_by
sort_by c [] = []
sort_by c (x ∷ xs) = insert_by c x (sort_by c xs)

pub keep-and :
    {A : Type 0} (p q : A → Bool) (xs : List A) → keep (λ x. p x && q x) xs ≡ keep q (keep p xs)
unfolding keep
keep-and p q [] = refl
keep-and p q (x ∷ xs) = ground (arith, keep-and p q xs)

gt_of : (o : Ordering) → is_lt o ≡ false → is_level o ≡ false → flip o ≡ Ordering.lt
gt_of Ordering.lt h k = cc
gt_of Ordering.eq h k = cc
gt_of Ordering.gt h k = refl

lt_is : (o : Ordering) → is_lt o ≡ true → o ≡ Ordering.lt
lt_is Ordering.lt h = refl
lt_is Ordering.eq h = cc
lt_is Ordering.gt h = cc

own_flip : (o : Ordering) → o ≡ flip o → is_gt o ≡ false
own_flip Ordering.lt h = refl
own_flip Ordering.eq h = refl
own_flip Ordering.gt h = cc

module _ {A : Type 0} (c : A → A → Ordering) where
  -- Before every value of the list.
  abbrev pub Before : A → List A → Type 0
  Before x [] = Unit {0}
  Before x (y ∷ ys) = (c x y ≡ Ordering.lt) × Before x ys

  abbrev pub IsAscending : List A → Type 0
  IsAscending [] = Unit {0}
  IsAscending (x ∷ xs) = Before x xs × IsAscending xs

  -- Level with no value of the list.
  abbrev pub Apart : A → List A → Type 0
  Apart x [] = Unit {0}
  Apart x (y ∷ ys) = (is_level (c y x) ≡ false) × Apart x ys

  abbrev pub AreApart : List A → Type 0
  AreApart [] = Unit {0}
  AreApart (x ∷ xs) = Apart x xs × AreApart xs

  module _ (k : IsOrder c) where
    Before-trans : (x y : A) (ys : List A) → c x y ≡ Ordering.lt → Before y ys → Before x ys
    Before-trans x y [] h b = tt
    Before-trans x y (z ∷ ys) h b = (k.trans x y z h b.0, Before-trans x y ys h b.1)

    insert_by-Before :
        (z x : A) (xs : List A) → c z x ≡ Ordering.lt → Before z xs → Before z (insert_by c x xs)
    unfolding insert_by
    insert_by-Before z x [] h b = (h, tt)
    insert_by-Before z x (y ∷ ys) h b = elim (Bool-cases (is_lt (c y x))) [
      | inl lt ↦ rw lt (b.0, insert_by-Before z x ys h b.1)
      | inr more ↦ rw more (h, b)
    ]

    turned : (x y : A) → is_lt (c y x) ≡ false → is_level (c y x) ≡ false → c x y ≡ Ordering.lt
    turned x y h l = k.flips y x ∙ gt_of (c y x) h l

    insert_by-IsAscending :
        (x : A) (xs : List A) → IsAscending xs → Apart x xs → IsAscending (insert_by c x xs)
    unfolding insert_by
    insert_by-IsAscending x [] a d = (tt, tt)
    insert_by-IsAscending x (y ∷ ys) a d = elim (Bool-cases (is_lt (c y x))) [
      | inl lt ↦
          rw lt (insert_by-Before y x ys (lt_is (c y x) lt) a.0, insert_by-IsAscending x ys a.1 d.1)
      | inr more ↦ rw more (
          let here : c x y ≡ Ordering.lt = turned x y more d.0 in
          ((here, Before-trans x y ys here a.0), a))
    ]

    insert_by-Apart :
        (z x : A) (xs : List A) → is_level (c x z) ≡ false → Apart z xs → Apart z (insert_by c x xs)
    unfolding insert_by
    insert_by-Apart z x [] h b = (h, tt)
    insert_by-Apart z x (y ∷ ys) h b = elim (Bool-cases (is_lt (c y x))) [
      | inl lt ↦ rw lt (b.0, insert_by-Apart z x ys h b.1)
      | inr more ↦ rw more (h, b)
    ]

    sort_by-Apart : (z : A) (xs : List A) → Apart z xs → Apart z (sort_by c xs)
    unfolding sort_by
    sort_by-Apart z [] b = tt
    sort_by-Apart z (x ∷ xs) b = insert_by-Apart z x (sort_by c xs) b.0 (sort_by-Apart z xs b.1)

    pub sort_by-IsAscending : (xs : List A) → AreApart xs → IsAscending (sort_by c xs)
    unfolding sort_by
    sort_by-IsAscending [] d = tt
    sort_by-IsAscending (x ∷ xs) d =
        insert_by-IsAscending x (sort_by c xs) (sort_by-IsAscending xs d.1) (sort_by-Apart x xs d.0)

    keep-Before : (p : A → Bool) (x : A) (xs : List A) → Before x xs → Before x (keep p xs)
    unfolding keep
    keep-Before p x [] b = tt
    keep-Before p x (y ∷ ys) b = elim (Bool-cases (p y)) [
      | inl yes_p ↦ rw yes_p (b.0, keep-Before p x ys b.1)
      | inr other ↦ rw other (keep-Before p x ys b.1)
    ]

    insert_by-first : (x : A) (ys : List A) → Before x ys → insert_by c x ys ≡ x ∷ ys
    unfolding insert_by
    insert_by-first x [] b = refl
    insert_by-first x (y ∷ ys) b = rw (k.flips x y) (rw b.0 refl)

    Before-last :
        (z : A) (xs : List A) (x : A) (ys : List A) → Before z (xs ++ x ∷ ys) → c z x ≡ Ordering.lt
    Before-last z [] x ys b = b.0
    Before-last z (w ∷ xs) x ys b = Before-last z xs x ys b.1

    before_it :
        (p : A → Bool) (x y : A) (ys : List A)
        → is_lt (c y x) ≡ true
        → keep p (insert_by c x ys) ≡ (if p x then insert_by c x (keep p ys) else keep p ys)
        → keep p (insert_by c x (y ∷ ys))
          ≡ (if p x then insert_by c x (keep p (y ∷ ys)) else keep p (y ∷ ys))
    unfolding keep insert_by
    before_it p x y ys lt h = ground arith

    after_it :
        (p : A → Bool) (x y : A) (ys : List A)
        → is_lt (c y x) ≡ false
        → c x y ≡ Ordering.lt
        → Before y ys
        → keep p (insert_by c x (y ∷ ys))
          ≡ (if p x then insert_by c x (keep p (y ∷ ys)) else keep p (y ∷ ys))
    unfolding keep insert_by
    after_it p x y ys more here b =
        ground
          (arith, insert_by-first x (keep p ys) (keep-Before p x ys (Before-trans x y ys here b)))

    keep-insert_by :
        (p : A → Bool) (x : A) (xs : List A)
        → IsAscending xs
        → Apart x xs
        → keep p (insert_by c x xs) ≡ (if p x then insert_by c x (keep p xs) else keep p xs)
    keep-insert_by p x [] a d = unfold keep insert_by in refl
    keep-insert_by p x (y ∷ ys) a d = elim (Bool-cases (is_lt (c y x))) [
      | inl lt ↦ before_it p x y ys lt (keep-insert_by p x ys a.1 d.1)
      | inr more ↦ after_it p x y ys more (turned x y more d.0) a.0
    ]

    kept :
        (p : A → Bool) (x : A) (xs : List A)
        → Apart x xs
        → AreApart xs
        → keep p (insert_by c x (sort_by c xs))
          ≡ (if p x then insert_by c x (keep p (sort_by c xs)) else keep p (sort_by c xs))
    kept p x xs d e =
        keep-insert_by p x (sort_by c xs) (sort_by-IsAscending xs e) (sort_by-Apart x xs d)

    pub sort_by-keep :
        (p : A → Bool) (xs : List A) → AreApart xs → sort_by c (keep p xs) ≡ keep p (sort_by c xs)
    unfolding sort_by keep
    sort_by-keep p [] d = refl
    sort_by-keep p (x ∷ xs) d = elim (Bool-cases (p x)) [
      | inl taken ↦
          rw taken
            (ap (insert_by c x) (sort_by-keep p xs d.1) ∙ sym (kept p x xs d.0 d.1 ∙ rw taken refl))
      | inr other ↦ rw other (sort_by-keep p xs d.1 ∙ sym (kept p x xs d.0 d.1 ∙ rw other refl))
    ]

    self_level : (x : A) → is_gt (c x x) ≡ false
    self_level x = own_flip (c x x) (k.flips x x)

    keep_all : (x : A) (ys : List A) → Before x ys → keep (λ t. is_gt (c t x)) ys ≡ ys
    unfolding keep
    keep_all x [] b = refl
    keep_all x (y ∷ ys) b = rw (k.flips x y) (rw b.0 (ap (λ l. y ∷ l) (keep_all x ys b.1)))

    -- What comes after a value of a sorted list.
    pub keep-after :
        (xs : List A) (x : A) (ys : List A)
        → IsAscending (xs ++ x ∷ ys)
        → keep (λ t. is_gt (c t x)) (xs ++ x ∷ ys) ≡ ys
    unfolding keep
    keep-after [] x ys a = rw (self_level x) (keep_all x ys a.0)
    keep-after (z ∷ xs) x ys a = rw (Before-last z xs x ys a.0) (keep-after xs x ys a.1)

    pub keep-IsAscending : (p : A → Bool) (xs : List A) → IsAscending xs → IsAscending (keep p xs)
    unfolding keep
    keep-IsAscending p [] a = tt
    keep-IsAscending p (x ∷ xs) a = elim (Bool-cases (p x)) [
      | inl taken ↦ rw taken (keep-Before p x xs a.0, keep-IsAscending p xs a.1)
      | inr other ↦ rw other (keep-IsAscending p xs a.1)
    ]

module _ {A : Type 0} (P : A → Type 0) where
  abbrev pub All : List A → Type 0
  All [] = Unit {0}
  All (x ∷ xs) = P x × All xs

  pub keep-All : (p : A → Bool) (xs : List A) → All xs → All (keep p xs)
  unfolding keep
  keep-All p [] a = tt
  keep-All p (x ∷ xs) a = elim (Bool-cases (p x)) [
    | inl taken ↦ rw taken (a.0, keep-All p xs a.1)
    | inr other ↦ rw other (keep-All p xs a.1)
  ]

  insert_by-All :
      (c : A → A → Ordering) (x : A) (xs : List A) → P x → All xs → All (insert_by c x xs)
  unfolding insert_by
  insert_by-All c x [] h a = (h, tt)
  insert_by-All c x (y ∷ ys) h a = elim (Bool-cases (is_lt (c y x))) [
    | inl lt ↦ rw lt (a.0, insert_by-All c x ys h a.1)
    | inr more ↦ rw more (h, a)
  ]

  pub sort_by-All : (c : A → A → Ordering) (xs : List A) → All xs → All (sort_by c xs)
  unfolding sort_by
  sort_by-All c [] a = tt
  sort_by-All c (x ∷ xs) a = insert_by-All c x (sort_by c xs) a.0 (sort_by-All c xs a.1)

  pub All-last : (xs : List A) (x : A) (ys : List A) → All (xs ++ x ∷ ys) → P x
  All-last [] x ys a = a.0
  All-last (z ∷ xs) x ys a = All-last xs x ys a.1

  pub All-right : (xs ys : List A) → All (xs ++ ys) → All ys
  All-right [] ys a = a
  All-right (x ∷ xs) ys a = All-right xs ys a.1

pub keep_everything : {A : Type 0} (xs : List A) → keep (λ x. true) xs ≡ xs
unfolding keep
keep_everything [] = refl
keep_everything (x ∷ xs) = ap (λ l. x ∷ l) (keep_everything xs)
