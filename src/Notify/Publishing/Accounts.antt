-- ===== src/Notify/Publishing/Accounts.antt =====
-- Publish of notify/service.go: every draft is accounted for.
use hmntsk.Prelude.{
  ℕ, ◌+◌, String, eq_iff, eq_refl, ◌≡◌, refl, false, List, [], ◌∷◌, ◌++◌, none, length, contains,
  Map, get, put, insert_sorted, sort_strings, arith, ap, ◌∙◌, subst, sym,
}
use hmntsk.Prelude.Tables.{HasDistinctKeys, put-HasDistinctKeys}
use hmntsk.Notify.Port.{◌and_next◌, Insertion, InsertResult, add_result, IdGenerator, no_insertions}
use hmntsk.Notify.Memory.{MemoryStore, insert_all}
use hmntsk.Notify.Memory.Inserting.{insert_all-counted, length-append}
use hmntsk.Notify.Publishing.{
  or_no_insertions, add_insertion, subjects_in, insert_subjects, Result, group_drafts, ok,
  Formatter, Draft, Bool, publish, Time, Outcome, published_all, draft_issues, stamped_draft, err,
  ValidationIssue, publish_checked, normalize_time,
}

abbrev Groups : Type 0
Groups = Map (List Insertion)

-- What is published on a subject.
abbrev size_at : Groups → String → ℕ
size_at groups subject = length (or_no_insertions (get groups subject))

total : Groups → ℕ
total [] = 0
total ((subject, is) ∷ groups) = length is + total groups

total-put :
    (m : Groups) (k : String) (v : List Insertion)
    → total (put m k v) + size_at m k ≡ total m + length v
unfolding total get put
total-put [] k v = omega arith
total-put ((j, w) ∷ m) k v = ground (arith, total-put m k v)

total-add_insertion :
    (m : Groups) (k : String) (i : Insertion) → total (add_insertion m k i) ≡ total m + 1
unfolding add_insertion
total-add_insertion m k i =
    let old = or_no_insertions (get m k) in
    omega (arith, total-put m k (old ++ i ∷ []), length-append old (i ∷ []))

sum_sizes : Groups → List String → ℕ
sum_sizes m [] = 0
sum_sizes m (k ∷ ks) = size_at m k + sum_sizes m ks

sum_sizes-insert_sorted :
    (m : Groups) (k : String) (ks : List String)
    → sum_sizes m (insert_sorted k ks) ≡ size_at m k + sum_sizes m ks
unfolding sum_sizes insert_sorted
sum_sizes-insert_sorted m k [] = refl
sum_sizes-insert_sorted m k (j ∷ ks) = ground (arith, sum_sizes-insert_sorted m k ks)

sum_sizes-sort_strings :
    (m : Groups) (ks : List String) → sum_sizes m (sort_strings ks) ≡ sum_sizes m ks
unfolding sum_sizes sort_strings
sum_sizes-sort_strings m [] = refl
sum_sizes-sort_strings m (k ∷ ks) =
    omega (arith, sum_sizes-insert_sorted m k (sort_strings ks), sum_sizes-sort_strings m ks)

-- A key more does not count at other keys.
sum_sizes_cons :
    (k : String) (v : List Insertion) (m : Groups) (ks : List String)
    → contains ks k ≡ false
    → sum_sizes ((k, v) ∷ m) ks ≡ sum_sizes m ks
unfolding sum_sizes get contains
sum_sizes_cons k v m [] h = refl
sum_sizes_cons k v m (j ∷ ks) h = ground (arith, sum_sizes_cons k v m ks, eq_iff j k, eq_iff k j)

contains-subjects_in :
    (m : Groups) (k : String) → get m k ≡ none → contains (subjects_in m) k ≡ false
unfolding subjects_in contains get
contains-subjects_in [] k h = refl
contains-subjects_in ((j, v) ∷ m) k h = ground (arith, contains-subjects_in m k)

sum_sizes-subjects_in : (m : Groups) → HasDistinctKeys m → sum_sizes m (subjects_in m) ≡ total m
unfolding sum_sizes subjects_in total get
sum_sizes-subjects_in [] d = refl
sum_sizes-subjects_in ((k, v) ∷ m) d = ground (
  arith,
  eq_refl k,
  sum_sizes_cons k v m (subjects_in m) (contains-subjects_in m k d.0),
  sum_sizes-subjects_in m d.1,
)

abbrev pub counts : InsertResult → ℕ
counts r = length r.created + r.duplicates + r.suppressed + r.coalesced

insert_subjects-counts :
    (groups : Groups) (subjects : List String) (s : MemoryStore) (r : InsertResult)
    → counts (insert_subjects groups subjects s r).1 ≡ counts r + sum_sizes groups subjects
unfolding insert_subjects sum_sizes add_result
insert_subjects-counts groups [] s r = omega arith
insert_subjects-counts groups (k ∷ ks) s r =
    let is = or_no_insertions (get groups k) in
    let done = insert_all k is s in
    omega (
      arith,
      insert_subjects-counts groups ks done.0 (add_result r done.1),
      insert_all-counted k is s,
      length-append r.created done.1.created,
    )

from_none : (n : ℕ) → total [] + n ≡ n
unfolding total
from_none n = omega arith

pub ok-injective {ℓ} : {A : Type ℓ} {a b : A} → ok a ≡ ok b → a ≡ b
ok-injective h = cc

and_next-ok :
    {G : Type 0} {A B : Type 0} (first : Result A × G) (next : A → G → Result B × G) (a : A)
    → first.0 ≡ ok a
    → (first and_next next) ≡ next a first.1
and_next-ok (ok b, g) next a e = ap (λ x. next x g) (ok-injective e)
and_next-ok (err e', g) next a e = cc

-- The generator does not fail.
abbrev pub IsSteady : {G : Type 0} → IdGenerator G → Type 0
IsSteady {G = G} ids = (g : G) → (id : String) × ((ids.new_id g).0 ≡ ok id)

abbrev Grouped : {G : Type 0} → ℕ → Result Groups × G → Type 0
Grouped n done =
    (groups : Groups) × (done.0 ≡ ok groups) × (total groups ≡ n) × HasDistinctKeys groups

add_insertion-HasDistinctKeys :
    (m : Groups) (k : String) (i : Insertion)
    → HasDistinctKeys m
    → HasDistinctKeys (add_insertion m k i)
unfolding add_insertion
add_insertion-HasDistinctKeys m k i d =
    put-HasDistinctKeys m k (or_no_insertions (get m k) ++ i ∷ []) d

module _ {G : Type 0} (ids : IdGenerator G) (steady : IsSteady ids) where
  group_drafts-Grouped :
      (drafts : List Draft) (now : Time) (groups : Groups) (g : G)
      → HasDistinctKeys groups
      → Grouped (total groups + length drafts) (group_drafts ids drafts now groups g)
  unfolding group_drafts
  group_drafts-Grouped [] now groups g d = (groups, refl, omega arith, d)
  group_drafts-Grouped (x ∷ drafts) now groups g d =
      let minted = steady g in
      let i = stamped_draft x now minted.0 in
      let added = add_insertion groups x.subject i in
      let rest =
        group_drafts-Grouped drafts now added (ids.new_id g).1
          (add_insertion-HasDistinctKeys groups x.subject i d) in
      let step =
        and_next-ok (ids.new_id g)
          (λ id g1.
            group_drafts ids drafts now (add_insertion groups x.subject (stamped_draft x now id))
              g1)
          minted.0 minted.1 in
      (
        rest.0,
        ap (λ p. p.0) step ∙ rest.1,
        rest.2 ∙ omega (arith, total-add_insertion groups x.subject i),
        rest.3,
      )

  module _ (f : Formatter) (valid_json : String → Bool) where
    abbrev Accounted : List Draft → Outcome InsertResult → Type 0
    Accounted drafts done = (r : InsertResult) × (done.result ≡ ok r) × (counts r ≡ length drafts)

    published-Accounted :
        (drafts : List Draft) (now : Time) (s : MemoryStore) (grouping : Result Groups × G)
        → Grouped (length drafts) grouping
        → Accounted drafts (published_all ids now s grouping).0
    published-Accounted drafts now s (err e, g) h = cc
    published-Accounted drafts now s (ok groups, g) h =
        let same : groups ≡ h.0 = ok-injective h.1 in
        let subjects = sort_strings (subjects_in groups) in
        (
          (insert_subjects groups subjects s no_insertions).1,
          refl,
          omega (
            arith,
            insert_subjects-counts groups subjects s no_insertions,
            sum_sizes-sort_strings groups (subjects_in groups),
            sum_sizes-subjects_in groups (subst HasDistinctKeys (sym same) h.3),
            ap total same,
            h.2,
          ),
        )

    checked-Accounted :
        (issues : List ValidationIssue) (drafts : List Draft) (clock : Time) (s : MemoryStore)
        (g : G)
        → issues ≡ []
        → Accounted drafts (publish_checked ids issues drafts clock s g).0
    unfolding group_drafts
    checked-Accounted (i ∷ is) drafts clock s g h = cc
    checked-Accounted [] [] clock s g h = (no_insertions, refl, refl)
    checked-Accounted [] (x ∷ drafts) clock s g h =
        let now = normalize_time clock in
        let grouping = group_drafts ids (x ∷ drafts) now [] g in
        published-Accounted (x ∷ drafts) now s grouping (
          subst (λ n. Grouped n grouping) (from_none (length (x ∷ drafts)))
            (group_drafts-Grouped (x ∷ drafts) now [] g tt))

    -- Where no draft has an issue and the generator of identifiers does not fail, a publish returns
    -- a result, and in it each draft is created, a duplicate, suppressed or coalesced.
    pub publish-counts :
        (drafts : List Draft) (clock : Time) (s : MemoryStore) (g : G)
        → draft_issues f valid_json 0 drafts ≡ []
        → Accounted drafts (publish ids f valid_json drafts clock s g).0
    unfolding publish
    publish-counts drafts clock s g h =
        checked-Accounted (draft_issues f valid_json 0 drafts) drafts clock s g h
