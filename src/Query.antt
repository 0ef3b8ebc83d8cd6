-- ===== src/Query.antt =====
-- query.go, the queries of service.go, and the filters of memstore/memstore.go; what the store's
-- Count gives is an argument. Ordering, pages and cursors stand in Paging.
pub mod Buckets
pub mod Inbox
pub mod Paging
use hmntsk.Prelude.{
  ℕ, suc, String, ◌==◌, Bool, true, false, ◌&&◌, ◌||◌, not, List, [], ◌∷◌, Option, none, some, ℤ,
  pos, ltb, leb_ℤ, ltb_ℤ, is_nil, contains, length, sort_strings, Map, get, put, if◌then◌else◌,
}
use hmntsk.Status.{Status, among}
use hmntsk.Errors.{
  Error, Result, ok, err, ◌>>=◌, ◌>>◌, ◌<>◌, Formatter, validation_error, group_resolution_error,
}
use hmntsk.Task.{Task, Time, before}
use hmntsk.Assignment.{Directory, wrap, no_directory, shares_group}

pub data Ordering : Type 0 where
  order_created order_priority order_due order_urgency : Ordering
  unsupported : String → Ordering

pub record Query : Type 0 where
  pub assignee : String
  pub candidate : String
  pub statuses : List Status
  pub types : List String
  pub owner_type : String
  pub owner_ref : String
  pub activity_key : String
  pub group : String
  pub due_before : Option Time
  pub order_by : Ordering
  pub limit : ℤ
  pub cursor : String
  pub descending : Bool

-- The page size: 50 by default, 500 at most.
unfoldable pub effective_limit : Query → ℤ
effective_limit q =
    if leb_ℤ q.limit (pos 0) then pos 50 else if ltb_ℤ (pos 500) q.limit then pos 500 else q.limit

unfoldable pub validate : Formatter → Query → Result (Unit {0})
validate f q = elim q.order_by [
  | unsupported o ↦ err (
      validation_error "request"
        (record { pointer = ""; detail = "ordering " <> f.quote o <> " is not supported" } ∷ []))
  | _ ↦ ok tt
]

pub record ResolvedQuery : Type 0 where
  pub query : Query
  pub candidate_groups : List String

-- Group memberships that were resolved before; `none` is Go's nil map.
abbrev pub Cache : Type 0
Cache = Option (Map (List String))

unfoldable pub cached : Cache → String → Option (List String)
cached none a = none
cached (some m) a = get m a

unfoldable pub remember : Cache → String → List String → Cache
remember none a gs = none
remember (some m) a gs = some (put m a gs)

unfoldable pub groups_asked : Option Directory → String → Result (List String)
groups_asked none a = err (group_resolution_error a [] no_directory)
groups_asked (some d) a = wrap a [] (d.groups_of a)

unfoldable pub resolve_groups :
    Option Directory → Query → Cache → Option (List String) → Result (ResolvedQuery × Cache)
resolve_groups d q cache (some gs) = ok (record { query = q; candidate_groups = gs }, cache)
resolve_groups d q cache none = do
  gs ← groups_asked d q.candidate
  ok (record { query = q; candidate_groups = gs }, remember cache q.candidate gs)

unfoldable pub resolve_query :
    Formatter → Option Directory → Query → Cache → Result (ResolvedQuery × Cache)
unfolding resolve_groups
resolve_query f d q cache = do
  validate f q
  (if q.candidate == ""
      then ok (record { query = q; candidate_groups = [] }, cache)
      else resolve_groups d q cache (cached cache q.candidate))

-- Count, over the store's.
unfoldable pub count : Formatter → Option Directory → (ResolvedQuery → Result ℕ) → Query → Result ℕ
count f d counts q = do r ← resolve_query f d q none; counts r.0

abbrev pub empty_query : Query
empty_query = record {
  assignee = "";
  candidate = "";
  statuses = [];
  types = [];
  owner_type = "";
  owner_ref = "";
  activity_key = "";
  group = "";
  due_before = none;
  order_by = order_created;
  limit = pos 0;
  cursor = "";
  descending = false;
}

-- buckets[name]
abbrev pub bucket : Map Query → String → Query
bucket buckets name = elim (get buckets name) [ some q ↦ q | none ↦ empty_query ]

abbrev pub names_of : Map Query → List String
names_of [] = []
names_of ((k, q) ∷ m) = k ∷ names_of m

unfoldable pub validate_all : Formatter → Map Query → List String → Result (Unit {0})
validate_all f buckets [] = ok tt
validate_all f buckets (n ∷ ns) = do validate f (bucket buckets n); validate_all f buckets ns

unfoldable pub count_each :
    Formatter
    → Option Directory
    → (ResolvedQuery → Result ℕ)
    → Map Query
    → List String
    → Cache
    → Map ℕ
    → Result (Map ℕ)
count_each f d counts buckets [] cache done = ok done
count_each f d counts buckets (n ∷ ns) cache done = do
  r ← resolve_query f d (bucket buckets n) cache
  c ← counts r.0
  count_each f d counts buckets ns r.1 (put done n c)

unfoldable pub count_buckets :
    Formatter → Option Directory → (ResolvedQuery → Result ℕ) → Map Query → Result (Map ℕ)
count_buckets f d counts buckets =
    let names = sort_strings (names_of buckets) in
    if ltb 32 (length buckets)
    then err (
        validation_error "request" (
          record {
            pointer = "";
            detail =
                f.decimal (pos (length buckets))
                <> " buckets exceed the limit of "
                <> f.decimal (pos 32);
          }
          ∷ []))
    else (do validate_all f buckets names; count_each f d counts buckets names (some []) [])

-- matchesCandidate of the in-memory store.
unfoldable pub matches_candidate : Task → ResolvedQuery → Bool
matches_candidate t r =
    if r.query.candidate == ""
    then true
    else if contains t.candidates.excluded r.query.candidate
    then false
    else if not (t.assignee == "")
    then t.assignee == r.query.candidate
    else if contains t.candidates.users r.query.candidate
    then true
    else shares_group r.candidate_groups t.candidates.groups

-- A filter on a text that only applies when it is given.
abbrev fits : String → String → Bool
fits wanted value = if wanted == "" then true else value == wanted

abbrev due_fits : Option Time → Option Time → Bool
due_fits none due = true
due_fits (some limit) none = false
due_fits (some limit) (some due) = ltb due limit

unfoldable pub matches_query : Task → ResolvedQuery → Bool
unfolding matches_candidate
matches_query t r =
    let q = r.query in
    if not (fits q.assignee t.assignee)
    then false
    else if not (is_nil q.statuses) && not (among q.statuses t.status)
    then false
    else if not (is_nil q.types) && not (contains q.types t.task_type)
    then false
    else if not (fits q.owner_type t.correlation.owner_type)
    then false
    else if not (fits q.owner_ref t.correlation.owner_ref)
    then false
    else if not (fits q.activity_key t.correlation.activity_key)
    then false
    else if not (q.group == "") && not (contains t.candidates.groups q.group)
    then false
    else if not (due_fits q.due_before t.due_at)
    then false
    else matches_candidate t r

-- The in-memory store's Count over the tasks that the scope sees.
unfoldable pub count_matching : List Task → ResolvedQuery → ℕ
count_matching [] r = 0
count_matching (t ∷ ts) r =
    let rest = count_matching ts r in if matches_query t r then suc rest else rest
