-- ===== src/Query/Paging/Pages.antt =====
-- memstore/memstore.go: the pages of a query, one after the other.
use Prim.Native.Nat.{Ordering, compare}
use Prim.Native.String.{then as or_else, compare as compare_texts}
use text.Mathlib.TextEquality.{path_by_compare}
use hmntsk.Prelude.{
  String, ◌==◌, ◌≡◌, refl, ap, ◌∙◌, subst, eq_iff, Bool, true, false, ◌&&◌, List, [], ◌∷◌, ◌++◌,
  Option, none, some, Bool-cases, inl, inr,
}
use hmntsk.Prelude.Orders.{
  IsOrder, flip, level-IsOrder, flip-IsOrder, then-IsOrder, on-IsOrder, compare-IsOrder, compare_ℤ,
  compare_ℤ-IsOrder, compare_texts-IsOrder,
}
use hmntsk.Prelude.Ranking.{
  is_level, Apart, AreApart, keep, keep-and, keep_everything, sort_by, sort_by-keep,
  sort_by-IsAscending, keep-after, IsAscending, keep-IsAscending,
}
use hmntsk.Task.{Task, Time}
use hmntsk.Query.{Query, ResolvedQuery, matches_query, matches_candidate}
use hmntsk.Query.Paging.{
  Position, position_of, directed, by_priority, by_due, compared_if, compare_due, compare_positions,
  compare_tasks, is_after, matched_after,
}

directed-IsOrder :
    {A : Type 0} (desc : Bool) (c : A → A → Ordering)
    → IsOrder c
    → IsOrder (λ a b. directed desc (c a b))
directed-IsOrder true c k = flip-IsOrder c k
directed-IsOrder false c k = k

compared_if-IsOrder :
    {A : Type 0} (used : Bool) (c : A → A → Ordering)
    → IsOrder c
    → IsOrder (λ a b. compared_if used (c a b))
compared_if-IsOrder true c k = k
compared_if-IsOrder false c k = level-IsOrder

compare_due-IsOrder : (desc : Bool) → IsOrder (compare_due desc)
compare_due-IsOrder desc = record { flips = flips; trans = trans; same = same }
  where
    k : IsOrder (λ a b. directed desc (compare a b))
    k = directed-IsOrder desc compare compare-IsOrder

    flips : (a b : Option Time) → compare_due desc b a ≡ flip (compare_due desc a b)
    flips none none = refl
    flips none (some b) = refl
    flips (some a) none = refl
    flips (some a) (some b) = k.flips a b

    trans :
        (a b d : Option Time)
        → compare_due desc a b ≡ Ordering.lt
        → compare_due desc b d ≡ Ordering.lt
        → compare_due desc a d ≡ Ordering.lt
    trans none none d h j = cc
    trans none (some b) d h j = cc
    trans (some a) none none h j = cc
    trans (some a) none (some d) h j = cc
    trans (some a) (some b) none h j = refl
    trans (some a) (some b) (some d) h j = k.trans a b d h j

    same :
        (a b d : Option Time)
        → compare_due desc a b ≡ Ordering.eq
        → compare_due desc a d ≡ compare_due desc b d
    same none none d h = refl
    same none (some b) d h = cc
    same (some a) none d h = cc
    same (some a) (some b) none h = refl
    same (some a) (some b) (some d) h = k.same a b d h

-- The comparison of positions is an order, whatever the ordering and the direction.
pub compare_positions-IsOrder : (q : Query) → IsOrder (compare_positions q)
unfolding compare_positions
compare_positions-IsOrder q =
    let desc = q.descending in
    then-IsOrder _ _
      (compared_if-IsOrder (by_priority q.order_by) _ (
        directed-IsOrder desc _
          (on-IsOrder compare_ℤ (λ (p : Position). p.priority) compare_ℤ-IsOrder)))
      (then-IsOrder _ _
        (compared_if-IsOrder (by_due q.order_by) _
          (on-IsOrder (compare_due desc) (λ (p : Position). p.due_at) (compare_due-IsOrder desc)))
        (directed-IsOrder desc _
          (on-IsOrder compare_texts (λ (p : Position). p.id) compare_texts-IsOrder)))

compare_tasks-IsOrder : (q : Query) → IsOrder (compare_tasks q)
compare_tasks-IsOrder q = on-IsOrder (compare_positions q) position_of (compare_positions-IsOrder q)

-- Tasks of different identifiers.
abbrev NotNamed : Task → List Task → Type 0
NotNamed t [] = Unit {0}
NotNamed t (u ∷ us) = ((u.id == t.id) ≡ false) × NotNamed t us

abbrev pub AreDifferent : List Task → Type 0
AreDifferent [] = Unit {0}
AreDifferent (t ∷ ts) = NotNamed t ts × AreDifferent ts

level_last : (o p r : Ordering) → is_level (or_else o (or_else p r)) ≡ true → is_level r ≡ true
level_last Ordering.lt p r h = cc
level_last Ordering.gt p r h = cc
level_last Ordering.eq Ordering.lt r h = cc
level_last Ordering.eq Ordering.gt r h = cc
level_last Ordering.eq Ordering.eq r h = h

level_directed : (desc : Bool) (o : Ordering) → is_level (directed desc o) ≡ true → o ≡ Ordering.eq
level_directed true Ordering.lt h = cc
level_directed true Ordering.eq h = refl
level_directed true Ordering.gt h = cc
level_directed false Ordering.lt h = cc
level_directed false Ordering.eq h = refl
level_directed false Ordering.gt h = cc

level_same :
    (q : Query) (t u : Task) → is_level (compare_tasks q u t) ≡ true → (u.id == t.id) ≡ true
unfolding compare_positions position_of
level_same q t u h = (eq_iff u.id t.id).1 (
    path_by_compare u.id t.id
      (level_directed q.descending (compare_texts u.id t.id) (level_last _ _ _ h)))

not_level :
    (q : Query) (t u : Task) → (u.id == t.id) ≡ false → is_level (compare_tasks q u t) ≡ false
not_level q t u h = elim (Bool-cases (is_level (compare_tasks q u t))) [
  | inl level ↦ let clash : (u.id == t.id) ≡ true = level_same q t u level in cc
  | inr apart ↦ apart
]

different-Apart :
    (q : Query) (t : Task) (ts : List Task) → NotNamed t ts → Apart (compare_tasks q) t ts
different-Apart q t [] d = tt
different-Apart q t (u ∷ us) d = (not_level q t u d.0, different-Apart q t us d.1)

different-AreApart : (q : Query) (ts : List Task) → AreDifferent ts → AreApart (compare_tasks q) ts
different-AreApart q [] d = tt
different-AreApart q (t ∷ ts) d = (different-Apart q t ts d.0, different-AreApart q ts d.1)

-- The query as it continues at a cursor.
abbrev pub from_cursor : ResolvedQuery → String → ResolvedQuery
from_cursor r cur = record r { query = record r.query { cursor = cur } }

-- Every matching task, in the query's order.
abbrev pub all_matched : ResolvedQuery → List Task → List Task
all_matched r ts = sort_by (compare_tasks r.query) (keep (λ t. matches_query t r) ts)

module _ (r : ResolvedQuery) (ts : List Task) (d : AreDifferent ts) where
  abbrev pub found : Task → Bool
  found t = matches_query t r

  abbrev pub ranked : List Task
  ranked = keep found (sort_by (compare_tasks r.query) ts)

  pub ranked_lem : all_matched r ts ≡ ranked
  ranked_lem =
      sort_by-keep (compare_tasks r.query) (compare_tasks-IsOrder r.query) found ts
        (different-AreApart r.query ts d)

  matched_after_lem :
      (after : Option Position) → matched_after r after ts ≡ keep (is_after r.query after) ranked
  unfolding matched_after
  matched_after_lem after =
      sort_by-keep (compare_tasks r.query) (compare_tasks-IsOrder r.query)
        (λ t. found t && is_after r.query after t) ts (different-AreApart r.query ts d)
      ∙ keep-and found (is_after r.query after) (sort_by (compare_tasks r.query) ts)

  pub matched_first : matched_after r none ts ≡ ranked
  matched_first = matched_after_lem none ∙ keep_everything ranked

  pub matched_next :
      (xs : List Task) (x : Task) (ys : List Task)
      → ranked ≡ xs ++ x ∷ ys
      → matched_after r (some (position_of x)) ts ≡ ys
  matched_next xs x ys e =
      matched_after_lem (some (position_of x))
      ∙ ap (keep (is_after r.query (some (position_of x)))) e
      ∙ keep-after (compare_tasks r.query) (compare_tasks-IsOrder r.query) xs x ys (
          subst (IsAscending (compare_tasks r.query)) e (
            keep-IsAscending (compare_tasks r.query) (compare_tasks-IsOrder r.query) found
              (sort_by (compare_tasks r.query) ts)
              (sort_by-IsAscending (compare_tasks r.query) (compare_tasks-IsOrder r.query) ts
                (different-AreApart r.query ts d))))

pub same_matched :
    (r : ResolvedQuery) (cur : String) (after : Option Position) (ts : List Task)
    → matched_after (from_cursor r cur) after ts ≡ matched_after r after ts
unfolding matched_after matches_query matches_candidate compare_positions
same_matched r cur after ts = refl
