-- ===== src/Query/Paging.antt =====
-- query.go, Query of service.go and Query of memstore/memstore.go: pages of tasks in an order, and the
-- cursors that continue them.
pub mod Pages
pub mod Collecting
use Prim.Native.Nat.{Ordering, compare}
use Prim.Native.String.{then as or_else, compare as compare_texts}
use hmntsk.Prelude.{
  ℕ, zero, suc, String, ◌==◌, Bool, true, false, ◌&&◌, ◌||◌, not, List, [], ◌∷◌, Option, none, some,
  ℤ, to_ℕ, ltb, length, if◌then◌else◌,
}
use hmntsk.Prelude.Orders.{flip, compare_ℤ}
use hmntsk.Prelude.Ranking.{is_gt, keep, sort_by}
use hmntsk.Errors.{Error, Result, ok, err, ◌>>=◌, ◌>>◌, ◌<>◌, Formatter, validation_error}
use hmntsk.Task.{Task, Time}
use hmntsk.Assignment.{Directory}
use hmntsk.Query
use hmntsk.Query.{
  Query, ResolvedQuery, order_created, order_priority, order_due, order_urgency, unsupported,
  validate, effective_limit, matches_query, resolve_query,
}
use Prim.Native.Nat.{compare}

pub record Position : Type 0 where
  pub priority : ℤ
  pub due_at : Option Time
  pub id : String

unfoldable pub position_of : Task → Position
position_of t = record { priority = t.priority; due_at = t.due_at; id = t.id }

abbrev pub directed : Bool → Ordering → Ordering
directed true o = flip o
directed false o = o

abbrev pub by_priority : Query.Ordering → Bool
by_priority order_priority = true
by_priority order_urgency = true
by_priority _ = false

abbrev pub by_due : Query.Ordering → Bool
by_due order_due = true
by_due order_urgency = true
by_due _ = false

-- A comparison that only some orderings make.
abbrev pub compared_if : Bool → Ordering → Ordering
compared_if true o = o
compared_if false o = Ordering.eq

-- No deadline comes last in either direction.
abbrev pub compare_due : Bool → Option Time → Option Time → Ordering
compare_due desc none none = Ordering.eq
compare_due desc none (some b) = Ordering.gt
compare_due desc (some a) none = Ordering.lt
compare_due desc (some a) (some b) = directed desc (compare a b)

unfoldable pub compare_positions : Query → Position → Position → Ordering
compare_positions q a b =
    or_else
      (compared_if (by_priority q.order_by)
        (directed q.descending (compare_ℤ a.priority b.priority)))
      (or_else (compared_if (by_due q.order_by) (compare_due q.descending a.due_at b.due_at))
        (directed q.descending (compare_texts a.id b.id)))

pub record Cursor : Type 0 where
  pub ordering : Query.Ordering
  pub descending : Bool
  pub after : Position

-- encoding/json with encoding/base64, on the struct of a cursor; `none` where either fails.
pub record Codec : Type 0 where
  pub encode : Cursor → String
  pub decode : String → Option Cursor

unfoldable pub encode_cursor : Codec → Query → Position → String
encode_cursor c q after =
    c.encode (record { ordering = q.order_by; descending = q.descending; after = after })

unfoldable pub invalid_cursor : String → Error
invalid_cursor reason =
    validation_error "request"
      (record { pointer = ""; detail = "the cursor is not valid: " <> reason } ∷ [])

abbrev pub order_text : Query.Ordering → String
order_text order_created = ""
order_text order_priority = "priority"
order_text order_due = "due"
order_text order_urgency = "urgency"
order_text (unsupported o) = o

abbrev pub same_way : Bool → Bool → Bool
same_way true b = b
same_way false b = not b

abbrev pub continued : Query → Option Cursor → Result Position
continued q none = err (invalid_cursor "it was not issued by this store")
continued q (some c) =
    if c.after.id == ""
    then err (invalid_cursor "it was not issued by this store")
    else if not (order_text c.ordering == order_text q.order_by)
        || not (same_way c.descending q.descending)
    then err (invalid_cursor "it continues a different ordering or direction")
    else ok c.after

unfoldable pub decode_cursor : Codec → Query → Result Position
decode_cursor c q = continued q (c.decode q.cursor)

abbrev pub cursor_position : Codec → Query → Result (Option Position)
cursor_position c q = if q.cursor == "" then ok none else (do p ← decode_cursor c q; ok (some p))

abbrev pub is_after : Query → Option Position → Task → Bool
is_after q none t = true
is_after q (some p) t = is_gt (compare_positions q (position_of t) p)

-- The comparison of the tasks' positions.
abbrev pub compare_tasks : Query → Task → Task → Ordering
compare_tasks q a b = compare_positions q (position_of a) (position_of b)

unfoldable pub matched_after : ResolvedQuery → Option Position → List Task → List Task
unfolding compare_positions position_of
matched_after r after ts =
    sort_by (compare_tasks r.query) (keep (λ t. matches_query t r && is_after r.query after t) ts)

pub record Page : Type 0 where
  pub tasks : List Task
  pub next_cursor : String

-- matched[:limit]
unfoldable pub take : {A : Type 0} → ℕ → List A → List A
take zero xs = []
take (suc n) [] = []
take (suc n) (x ∷ xs) = x ∷ take n xs

-- The cursor after the last one; a page that is continued is not empty.
unfoldable pub cursor_after : Codec → Query → List Task → String
cursor_after c q [] = ""
cursor_after c q (t ∷ []) = encode_cursor c q (position_of t)
cursor_after c q (t ∷ u ∷ ts) = cursor_after c q (u ∷ ts)

unfoldable pub page_of : Codec → Query → List Task → Page
unfolding cursor_after
page_of c q ms =
    let limit = to_ℕ (effective_limit q) in
    if ltb limit (length ms)
    then record { tasks = take limit ms; next_cursor = cursor_after c q (take limit ms) }
    else record { tasks = ms; next_cursor = "" }

-- Query of the store, over the tasks that the scope sees.
unfoldable pub query_tasks : Formatter → Codec → List Task → ResolvedQuery → Result Page
unfolding matched_after page_of
query_tasks f c ts r = do
  validate f r.query
  after ← cursor_position c r.query
  ok (page_of c r.query (matched_after r after ts))

-- Query of the service, over the store's.
unfoldable pub query_page :
    Formatter → Option Directory → (ResolvedQuery → Result Page) → Query → Result Page
query_page f d queries q = do r ← resolve_query f d q none; queries r.0
