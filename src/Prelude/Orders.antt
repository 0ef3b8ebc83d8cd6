-- ===== src/Prelude/Orders.antt =====
-- Three-valued comparisons, as Go's cmp.Compare and strings.Compare, and how they are composed.
use Prim.Native.Nat.compare
use Prim.Native.Nat.{ℕ, zero, suc, Ordering, compare}
use Prim.Native.Char.{Char, code}
use Prim.Native.String.compare as texts
use Prim.Native.String.{String, [], ◌∷◌, then, compare as compare_texts}
use text.Mathlib.TextEquality.{path_by_compare}
use mathlib.Core.Path.{◌≡◌, refl, sym, ◌∙◌, ap}
use mathlib.Core.Logic.{◌⊎◌, inl, inr}
use native.Mathlib.Omega.{arith, compare-eq}
use hmntsk.Prelude.Int.{ℤ, pos, negsuc}

-- -c of a comparison
abbrev pub flip : Ordering → Ordering
flip Ordering.lt = Ordering.gt
flip Ordering.eq = Ordering.eq
flip Ordering.gt = Ordering.lt

pub record IsOrder {ℓ} {A : Type ℓ} (c : A → A → Ordering) : Type ℓ where
  pub flips : (a b : A) → c b a ≡ flip (c a b)
  pub trans : (a b d : A) → c a b ≡ Ordering.lt → c b d ≡ Ordering.lt → c a d ≡ Ordering.lt
  pub same : (a b d : A) → c a b ≡ Ordering.eq → c a d ≡ c b d

flip-flip : (o : Ordering) → flip (flip o) ≡ o
flip-flip Ordering.lt = refl
flip-flip Ordering.eq = refl
flip-flip Ordering.gt = refl

flip-then : (o r : Ordering) → flip (then o r) ≡ then (flip o) (flip r)
flip-then Ordering.lt r = refl
flip-then Ordering.eq r = refl
flip-then Ordering.gt r = refl

then-lt :
    (o r : Ordering)
    → then o r ≡ Ordering.lt
    → (o ≡ Ordering.lt) ⊎ ((o ≡ Ordering.eq) × (r ≡ Ordering.lt))
then-lt Ordering.lt r h = inl refl
then-lt Ordering.eq r h = inr (refl, h)
then-lt Ordering.gt r h = cc

then-eq : (o r : Ordering) → then o r ≡ Ordering.eq → (o ≡ Ordering.eq) × (r ≡ Ordering.eq)
then-eq Ordering.lt r h = cc
then-eq Ordering.eq r h = (refl, h)
then-eq Ordering.gt r h = cc

flip-lt : (o : Ordering) → flip o ≡ Ordering.lt → o ≡ Ordering.gt
flip-lt Ordering.lt h = cc
flip-lt Ordering.eq h = cc
flip-lt Ordering.gt h = refl

flip-eq : (o : Ordering) → flip o ≡ Ordering.eq → o ≡ Ordering.eq
flip-eq Ordering.lt h = cc
flip-eq Ordering.eq h = refl
flip-eq Ordering.gt h = cc

module _ {ℓ} {A : Type ℓ} where
  -- Replacing what is compared with by an equal one, on the right.
  pub same_right :
      (c : A → A → Ordering) (k : IsOrder c) (a b d : A) → c a b ≡ Ordering.eq → c d a ≡ c d b
  same_right c k a b d h = k.flips a d ∙ ap flip (k.same a b d h) ∙ sym (k.flips b d)

  -- The first comparison decides, and a second one where it is level.
  pub then_trans :
      (c : A → A → Ordering) (k : IsOrder c) (a b d : A) (p q r : Ordering)
      → (p ≡ Ordering.lt → q ≡ Ordering.lt → r ≡ Ordering.lt)
      → then (c a b) p ≡ Ordering.lt
      → then (c b d) q ≡ Ordering.lt
      → then (c a d) r ≡ Ordering.lt
  then_trans c k a b d p q r next h j = elim (then-lt (c a b) p h) [
    | inl l ↦ elim (then-lt (c b d) q j) [
      | inl m ↦ ap (λ o. then o r) (k.trans a b d l m)
      | inr (m, n) ↦ ap (λ o. then o r) (sym (same_right c k b d a m) ∙ l)
    ]
    | inr (l, l') ↦ elim (then-lt (c b d) q j) [
      | inl m ↦ ap (λ o. then o r) (k.same a b d l ∙ m)
      | inr (m, n) ↦ ap (λ o. then o r) (k.same a b d l ∙ m) ∙ next l' n
    ]
  ]

  pub level-IsOrder : IsOrder (λ (a b : A). Ordering.eq)
  level-IsOrder = record { flips = λ a b. refl; trans = λ a b d h k. h; same = λ a b d h. refl }

  pub flip-IsOrder : (c : A → A → Ordering) → IsOrder c → IsOrder (λ a b. flip (c a b))
  flip-IsOrder c k = record {
    flips = λ a b. ap flip (k.flips a b);
    trans = λ a b d h j. sym (k.flips a d) ∙ k.trans d b a (k.flips b d ∙ j) (k.flips a b ∙ h);
    same = λ a b d h. ap flip (k.same a b d (flip-eq (c a b) h));
  }

  pub then-IsOrder :
      (c c' : A → A → Ordering) → IsOrder c → IsOrder c' → IsOrder (λ a b. then (c a b) (c' a b))
  then-IsOrder c c' k k' = record {
    flips = λ a b.
        ap (λ o. then o (c' b a)) (k.flips a b)
        ∙ ap (then (flip (c a b))) (k'.flips a b)
        ∙ sym (flip-then (c a b) (c' a b));
    trans = λ a b d h j. then_trans c k a b d (c' a b) (c' b d) (c' a d) (k'.trans a b d) h j;
    same = λ a b d h.
        let (e, e') = then-eq (c a b) (c' a b) h in
        ap (λ o. then o (c' a d)) (k.same a b d e) ∙ ap (then (c b d)) (k'.same a b d e');
  }

pub on-IsOrder {ℓ ℓ'} :
    {A : Type ℓ} {B : Type ℓ'} (c : A → A → Ordering) (f : B → A)
    → IsOrder c
    → IsOrder (λ x y. c (f x) (f y))
on-IsOrder c f k = record {
  flips = λ a b. k.flips (f a) (f b);
  trans = λ a b d. k.trans (f a) (f b) (f d);
  same = λ a b d. k.same (f a) (f b) (f d);
}

numbers_flip : (m n : ℕ) → compare n m ≡ flip (compare m n)
numbers_flip zero zero = compare.zero-zero ∙ ap flip (sym compare.zero-zero)
numbers_flip zero (suc n) = compare.suc-zero n ∙ ap flip (sym (compare.zero-suc n))
numbers_flip (suc m) zero = compare.zero-suc m ∙ ap flip (sym (compare.suc-zero m))
numbers_flip (suc m) (suc n) =
    compare.suc-suc n m ∙ numbers_flip m n ∙ ap flip (sym (compare.suc-suc m n))

numbers_trans :
    (a b d : ℕ) → compare a b ≡ Ordering.lt → compare b d ≡ Ordering.lt → compare a d ≡ Ordering.lt
numbers_trans a b d h k = ground (arith)

pub compare-IsOrder : IsOrder compare
compare-IsOrder = record {
  flips = numbers_flip;
  trans = numbers_trans;
  same = λ a b d h. ap (λ n. compare n d) (compare-eq a b h);
}

-- cmp.Compare of two signed numbers
abbrev pub compare_ℤ : ℤ → ℤ → Ordering
compare_ℤ (pos a) (pos b) = compare a b
compare_ℤ (pos a) (negsuc b) = Ordering.gt
compare_ℤ (negsuc a) (pos b) = Ordering.lt
compare_ℤ (negsuc a) (negsuc b) = compare b a

ints_flip : (a b : ℤ) → compare_ℤ b a ≡ flip (compare_ℤ a b)
ints_flip (pos a) (pos b) = numbers_flip a b
ints_flip (pos a) (negsuc b) = refl
ints_flip (negsuc a) (pos b) = refl
ints_flip (negsuc a) (negsuc b) = numbers_flip b a

ints_trans :
    (a b d : ℤ)
    → compare_ℤ a b ≡ Ordering.lt
    → compare_ℤ b d ≡ Ordering.lt
    → compare_ℤ a d ≡ Ordering.lt
ints_trans (pos a) (pos b) (pos d) h k = numbers_trans a b d h k
ints_trans (pos a) (pos b) (negsuc d) h k = cc
ints_trans (pos a) (negsuc b) d h k = cc
ints_trans (negsuc a) (pos b) (pos d) h k = refl
ints_trans (negsuc a) (pos b) (negsuc d) h k = cc
ints_trans (negsuc a) (negsuc b) (pos d) h k = refl
ints_trans (negsuc a) (negsuc b) (negsuc d) h k = numbers_trans d b a k h

ints_same : (a b d : ℤ) → compare_ℤ a b ≡ Ordering.eq → compare_ℤ a d ≡ compare_ℤ b d
ints_same (pos a) (pos b) d h = ap (λ n. compare_ℤ (pos n) d) (compare-eq a b h)
ints_same (pos a) (negsuc b) d h = cc
ints_same (negsuc a) (pos b) d h = cc
ints_same (negsuc a) (negsuc b) d h = ap (λ n. compare_ℤ (negsuc n) d) (sym (compare-eq b a h))

pub compare_ℤ-IsOrder : IsOrder compare_ℤ
compare_ℤ-IsOrder = record { flips = ints_flip; trans = ints_trans; same = ints_same }

texts_flip : (s t : String) → compare_texts t s ≡ flip (compare_texts s t)
texts_flip [] [] = texts.nil-nil ∙ ap flip (sym texts.nil-nil)
texts_flip [] (d ∷ t) = texts.cons-nil d t ∙ ap flip (sym (texts.nil-cons d t))
texts_flip (c ∷ s) [] = texts.nil-cons c s ∙ ap flip (sym (texts.cons-nil c s))
texts_flip (c ∷ s) (d ∷ t) =
    texts.cons-cons d c t s
    ∙ ap (λ o. then o (compare_texts t s)) (numbers_flip (code c) (code d))
    ∙ ap (then (flip (compare (code c) (code d)))) (texts_flip s t)
    ∙ sym (flip-then (compare (code c) (code d)) (compare_texts s t))
    ∙ ap flip (sym (texts.cons-cons c d s t))

characters-IsOrder : IsOrder (λ (c d : Char). compare (code c) (code d))
characters-IsOrder = on-IsOrder compare code compare-IsOrder

texts_trans :
    (s t u : String)
    → compare_texts s t ≡ Ordering.lt
    → compare_texts t u ≡ Ordering.lt
    → compare_texts s u ≡ Ordering.lt
texts_trans [] [] [] h k = let e : Ordering.eq ≡ Ordering.lt = sym texts.nil-nil ∙ h in cc
texts_trans [] (d ∷ t) [] h k =
    let e : Ordering.gt ≡ Ordering.lt = sym (texts.cons-nil d t) ∙ k in cc
texts_trans [] t (e ∷ u) h k = texts.nil-cons e u
texts_trans (c ∷ s) [] u h k =
    let e : Ordering.gt ≡ Ordering.lt = sym (texts.cons-nil c s) ∙ h in cc
texts_trans (c ∷ s) (d ∷ t) [] h k =
    let e : Ordering.gt ≡ Ordering.lt = sym (texts.cons-nil d t) ∙ k in cc
texts_trans (c ∷ s) (d ∷ t) (e ∷ u) h k =
    texts.cons-cons c e s u
    ∙ then_trans (λ (x y : Char). compare (code x) (code y)) characters-IsOrder c d e
        (compare_texts s t) (compare_texts t u) (compare_texts s u) (texts_trans s t u)
        (sym (texts.cons-cons c d s t) ∙ h) (sym (texts.cons-cons d e t u) ∙ k)

pub compare_texts-IsOrder : IsOrder compare_texts
compare_texts-IsOrder = record {
  flips = texts_flip;
  trans = texts_trans;
  same = λ s t u h. ap (λ v. compare_texts v u) (path_by_compare s t h);
}
