-- ===== src/Query/Buckets.antt =====
-- service.go: CountBuckets against Count.
use hmntsk.Prelude.{
  length, ltb, ℕ, String, ◌==◌, ◌≡◌, refl, sym, ◌∙◌, ap, Bool, true, false, ◌||◌, List, [], ◌∷◌,
  Option, none, some, contains, sort_strings, contains-sort_strings, Map, get, put, get-put, arith,
  eq_iff, Bool-cases, inl, inr, if◌then◌else◌, subst,
}
use hmntsk.Errors.{Error, ◌>>◌, Result, ok, err, Formatter, >>=-eq-ok, ok-injective}
use hmntsk.Assignment.{Directory}
use hmntsk.Query.{
  validate_all, empty_query, validate, Query, ResolvedQuery, Cache, cached, remember, groups_asked,
  resolve_groups, resolve_query, count, bucket, names_of, count_each, count_buckets,
}

-- What is cached is what the directory answers.
abbrev pub Holds : Option Directory → Cache → Type 0
Holds d cache =
    (a : String) (gs : List String) → cached cache a ≡ some gs → groups_asked d a ≡ ok gs

remember-Holds :
    (d : Option Directory) (cache : Cache) (k : String) (gs : List String)
    → Holds d cache
    → groups_asked d k ≡ ok gs
    → Holds d (remember cache k gs)
unfolding cached remember
remember-Holds d none k gs h e a hs p = cc
remember-Holds d (some m) k gs h e a hs p =
    ground (arith, get-put m k a gs, h a hs, eq_iff k a, eq_iff a k)

-- With the cache and without, a query resolves to the same.
resolve_groups-eq :
    (d : Option Directory) (q : Query) (cache : Cache) (o : Option (List String))
    (r : ResolvedQuery × Cache)
    → Holds d cache
    → cached cache q.candidate ≡ o
    → resolve_groups d q cache o ≡ ok r
    → (resolve_groups d q none none ≡ ok (r.0, none)) × Holds d r.1
unfolding resolve_groups remember
resolve_groups-eq d q cache (some gs) r h e p =
    let asked = h q.candidate gs e in
    let same = ok-injective p in
    (
      rw asked (ap (λ (x : ResolvedQuery × Cache). ok (x.0, none)) same),
      subst (λ (x : ResolvedQuery × Cache). Holds d x.1) same h,
    )
resolve_groups-eq d q cache none r h e p =
    let (gs, asked, last) = >>=-eq-ok (groups_asked d q.candidate) _ p in
    let same = ok-injective last in
    (
      rw asked (ap (λ (x : ResolvedQuery × Cache). ok (x.0, none)) same),
      subst (λ (x : ResolvedQuery × Cache). Holds d x.1) same
          (remember-Holds d cache q.candidate gs h asked),
    )

named_or_not :
    (b : Bool) (d : Option Directory) (q : Query) (cache : Cache) (r : ResolvedQuery × Cache)
    → Holds d cache
    → (if b
        then ok (record { query = q; candidate_groups = [] }, cache)
        else resolve_groups d q cache (cached cache q.candidate))
      ≡ ok r
    → ((if b
          then ok (record { query = q; candidate_groups = [] }, none)
          else resolve_groups d q none none)
        ≡ ok (r.0, none))
      × Holds d r.1
named_or_not true d q cache r h p =
    let same = ok-injective p in
    (
      ap (λ (x : ResolvedQuery × Cache). ok (x.0, none)) same,
      subst (λ (x : ResolvedQuery × Cache). Holds d x.1) same h,
    )
named_or_not false d q cache r h p =
    resolve_groups-eq d q cache (cached cache q.candidate) r h refl p

resolve_query-eq :
    (f : Formatter) (d : Option Directory) (q : Query) (cache : Cache) (r : ResolvedQuery × Cache)
    → Holds d cache
    → resolve_query f d q cache ≡ ok r
    → (resolve_query f d q none ≡ ok (r.0, none)) × Holds d r.1
unfolding resolve_query cached
resolve_query-eq f d q cache r h p =
    let (_, v, rest) = >>=-eq-ok (validate f q) _ p in
    let (alone, holds) = named_or_not (q.candidate == "") d q cache r h rest in (rw v alone, holds)

neither : (a b : Bool) → (a || b) ≡ false → (a ≡ false) × (b ≡ false)
neither a b h = ground arith

first_of : (a b : Bool) → (a || b) ≡ true → b ≡ false → a ≡ true
first_of a b h e = ground arith

-- One bucket's count does not depend on the buckets counted before it.
count_each-count :
    (f : Formatter) (d : Option Directory) (counts : ResolvedQuery → Result ℕ) (buckets : Map Query)
    (ns : List String) (cache : Cache) (done done' : Map ℕ) (n : String)
    → Holds d cache
    → count_each f d counts buckets ns cache done ≡ ok done'
    → (contains ns n ≡ false → get done' n ≡ get done n)
      × (contains ns n ≡ true
          → (c : ℕ) × (count f d counts (bucket buckets n) ≡ ok c) × (get done' n ≡ some c))
unfolding count_each count contains
count_each-count f d counts buckets [] cache done done' n h p =
    (λ m. ap (λ (x : Map ℕ). get x n) (sym (ok-injective p)), λ m. cc)
count_each-count f d counts buckets (k ∷ ns) cache done done' n h p =
    let (r, resolved, p1) = >>=-eq-ok (resolve_query f d (bucket buckets k) cache) _ p in
    let (c, counted, p2) = >>=-eq-ok (counts r.0) _ p1 in
    let (fresh, holds) = resolve_query-eq f d (bucket buckets k) cache r h resolved in
    let (kept, found) =
      count_each-count f d counts buckets ns r.1 (put done k c) done' n holds p2 in
    (
      λ m.
          let (other, later) = neither (k == n) (contains ns n) m in
          kept later ∙ get-put done k n c ∙ ap (λ b. if b then some c else get done n) other,
      λ m. elim (Bool-cases (contains ns n)) [
        | inl later ↦ found later
        | inr last ↦
            let same = first_of (k == n) (contains ns n) m last in
            let kn = (eq_iff k n).0 same in
            (
              c,
              subst (λ (x : String). count f d counts (bucket buckets x) ≡ ok c) kn
                  (rw fresh counted),
              kept last ∙ get-put done k n c ∙ ap (λ b. if b then some c else get done n) same,
            )
      ],
    )

contains-names_of :
    (buckets : Map Query) (n : String) (q : Query)
    → get buckets n ≡ some q
    → contains (names_of buckets) n ≡ true
unfolding contains get
contains-names_of [] n q h = cc
contains-names_of ((k, r) ∷ m) n q h = ground (arith, contains-names_of m n q)

empty-Holds : (d : Option Directory) → Holds d (some [])
unfolding cached get
empty-Holds d a gs h = cc

passed :
    (b : Bool) (e : Error) (v : Result (Unit {0})) (m : Result (Map ℕ)) {t : Map ℕ}
    → (if b then err e else (v >> m)) ≡ ok t
    → m ≡ ok t
passed true e v m h = cc
passed false e (err x) m h = cc
passed false e (ok u) m h = h

-- When the buckets are counted, the count of each is what counting its query alone gives, whatever
-- group memberships the buckets before it left in the cache.
pub count_buckets-count :
    (f : Formatter) (d : Option Directory) (counts : ResolvedQuery → Result ℕ) (buckets : Map Query)
    (name : String) (q : Query) {totals : Map ℕ}
    → count_buckets f d counts buckets ≡ ok totals
    → get buckets name ≡ some q
    → (c : ℕ) × (count f d counts q ≡ ok c) × (get totals name ≡ some c)
unfolding count_buckets
count_buckets-count f d counts buckets name q {totals} h e =
    let names = sort_strings (names_of buckets) in
    let p =
      passed (ltb 32 (length buckets)) _ (validate_all f buckets names)
        (count_each f d counts buckets names (some []) []) h in
    let listed =
      contains-sort_strings (names_of buckets) name ∙ contains-names_of buckets name q e in
    let (_, found) =
      count_each-count f d counts buckets names (some []) [] totals name (empty-Holds d) p in
    let (c, counted, kept) = found listed in
    (
      c,
      subst
          (λ (o : Option Query).
            count f d counts (elim o [ some x ↦ x | none ↦ empty_query ]) ≡ ok c)
          e counted,
      kept,
    )
