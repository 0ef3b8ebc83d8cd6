-- ===== src/Notify/Listing.antt =====
-- The listings of notify/store.go and List of notify/memory.go: queries, pages, and the cursors that
-- continue them. The JSON and base64 text of a cursor and the hash in its fingerprint are
-- parameters.
use Prim.Native.Char.{nul}
use hmntsk.Prelude.{
  ℕ, zero, suc, String, ◌==◌, Bool, true, false, ◌&&◌, ◌||◌, not, List, [], ◌∷◌, ◌++◌, map, Option,
  none, some, ℤ, pos, ltb, eqb, ltb_ℤ, leb_ℤ, is_nil, contains, sort_strings, str_ltb, to_ℕ, Map,
  if◌then◌else◌,
}
use hmntsk.Prelude.Ranking.{sort_by}
use hmntsk.Errors.{Formatter, ◌<>◌}
use hmntsk.Task.{Time, normalize_time}
use hmntsk.Notify.{
  State, is_valid_state, same_state, state_name, Notification, ValidationIssue, Error,
  validation_error, Result, ok, err, validate_identifier, invalid,
}
use hmntsk.Notify.Port.{issue_if}
use hmntsk.Notify.Memory.{MemoryStore}
use hmntsk.Notify.Pruning.{newest_first}

unfoldable pub contains_state : List State → State → Bool
unfolding same_state
contains_state [] s = false
contains_state (x ∷ xs) s = same_state x s || contains_state xs s

pub record ListQuery : Type 0 where
  pub recipient : String
  pub states : List State
  pub kinds : List String
  pub subject : String
  pub limit : ℤ
  pub cursor : String

pub record Page : Type 0 where
  pub notifications : List Notification
  pub next_cursor : String

pub record CursorPosition : Type 0 where
  pub created_at : Time
  pub id : String

-- The fields of a cursor with its time as an instant.
pub record CursorPayload : Type 0 where
  pub created_at : Time
  pub id : String
  pub filter : String

-- The text of a payload, as encoding/json and encoding/base64 write it, and the payload of a text,
-- none where it has none; and the first eight bytes of the SHA-256 hash of a text, in hexadecimal.
pub record Codec : Type 0 where
  pub encode : CursorPayload → String
  pub decode : String → Option CursorPayload
  pub digest : String → String

-- strings.Join
unfoldable join : List String → String → String
join [] separator = ""
join (part ∷ []) separator = part
join (part ∷ next ∷ parts) separator = part <> separator <> join (next ∷ parts) separator

abbrev zero_byte : String
zero_byte = String.◌∷◌ nul String.[]

unfoldable pub fingerprint : Codec → ListQuery → String
unfolding join state_name sort_strings
fingerprint c q = c.digest (
    join
      (q.recipient
        ∷ join (sort_strings (map state_name q.states)) ","
        ∷ join (sort_strings q.kinds) ","
        ∷ q.subject
        ∷ [])
      zero_byte)

unfoldable pub encode_cursor : Codec → ListQuery → CursorPosition → String
unfolding fingerprint normalize_time
encode_cursor c q position = c.encode (record {
  created_at = normalize_time position.created_at;
  id = position.id;
  filter = fingerprint c q;
})

unfoldable pub refused : String → Error
refused detail = validation_error "request" (record { pointer = "/cursor"; detail = detail } ∷ [])

unfoldable pub read_payload : Codec → ListQuery → CursorPayload → Result (Option CursorPosition)
unfolding refused fingerprint normalize_time
read_payload c q payload =
    if payload.id == ""
    then err (refused "is not a cursor")
    else if payload.filter == fingerprint c q
    then ok (some (record { created_at = normalize_time payload.created_at; id = payload.id }))
    else err (refused "belongs to another recipient or filter set")

-- No position where the query has no cursor.
unfoldable pub decode_cursor : Codec → ListQuery → Result (Option CursorPosition)
unfolding read_payload refused
decode_cursor c q = if q.cursor == "" then ok none else elim (c.decode q.cursor) [
  | none ↦ err (refused "is not a cursor")
  | some payload ↦ read_payload c q payload
]

unfoldable pub state_issues : Formatter → ℕ → List State → List ValidationIssue
unfolding is_valid_state
state_issues f i [] = []
state_issues f i (s ∷ states) =
    issue_if (not (is_valid_state s)) ("/states/" <> f.decimal (pos i))
      "is not ACTIVE, READ or CLOSED"
    ++ state_issues f (suc i) states

abbrev pub cursor_error : Result (Option CursorPosition) → Option Error
cursor_error (ok position) = none
cursor_error (err e) = some e

-- The cursor is read where there is no other issue.
abbrev pub checked_with : Codec → ListQuery → List ValidationIssue → Option Error
checked_with c q [] = cursor_error (decode_cursor c q)
checked_with c q (i ∷ is) = invalid "request" (i ∷ is)

unfoldable pub validate_query : Formatter → Codec → ListQuery → Option Error
unfolding state_issues
validate_query f c q = checked_with c q (
    validate_identifier "/recipient" q.recipient
    ++ issue_if (ltb_ℤ q.limit (pos 0) || ltb_ℤ (pos 500) q.limit) "/limit"
        "must be between 1 and 500"
    ++ state_issues f 0 q.states)

unfoldable pub effective_limit : ListQuery → ℕ
effective_limit q = if leb_ℤ q.limit (pos 0) then 50 else to_ℕ q.limit

-- matches of notify/memory.go.
unfoldable pub matches : ListQuery → Notification → Bool
matches q n =
    if not (n.recipient == q.recipient)
    then false
    else if not (is_nil q.states) && not (contains_state q.states n.state)
    then false
    else if not (is_nil q.kinds) && not (contains q.kinds n.kind)
    then false
    else if not (q.subject == "") && not (n.subject == q.subject)
    then false
    else true

-- before of notify/memory.go: the notification comes after the position in a listing.
unfoldable pub is_after : CursorPosition → Notification → Bool
is_after position n =
    if eqb n.created_at position.created_at
    then str_ltb n.id position.id
    else ltb n.created_at position.created_at

abbrev pub continues : Option CursorPosition → Notification → Bool
continues none n = true
continues (some position) n = is_after position n

unfoldable pub matched : ListQuery → Option CursorPosition → Map Notification → List Notification
unfolding matches is_after
matched q position [] = []
matched q position ((id, n) ∷ m) =
    let rest = matched q position m in
    if matches q n && continues position n then n ∷ rest else rest

-- The first of the list, and the last of them where there are more.
unfoldable pub take : ℕ → List Notification → List Notification
take zero ns = []
take (suc k) [] = []
take (suc k) (n ∷ ns) = n ∷ take k ns

-- The last of the first k notifications, where there are more than k.
unfoldable pub last_of_page : ℕ → List Notification → Option Notification
last_of_page k [] = none
last_of_page zero (n ∷ ns) = none
last_of_page (suc zero) (n ∷ []) = none
last_of_page (suc zero) (n ∷ next ∷ ns) = some n
last_of_page (suc (suc k)) (n ∷ ns) = last_of_page (suc k) ns

abbrev pub cursor_after : Codec → ListQuery → Option Notification → String
cursor_after c q none = ""
cursor_after c q (some n) = encode_cursor c q (record { created_at = n.created_at; id = n.id })

unfoldable pub page_of : Codec → ListQuery → Option CursorPosition → MemoryStore → Page
unfolding matched newest_first sort_by take last_of_page encode_cursor effective_limit
page_of c q position s =
    let sorted = sort_by newest_first (matched q position s.notifications) in
    record {
      notifications = take (effective_limit q) sorted;
      next_cursor = cursor_after c q (last_of_page (effective_limit q) sorted);
    }

abbrev pub listed : Codec → ListQuery → MemoryStore → Result (Option CursorPosition) → Result Page
listed c q s (err e) = err e
listed c q s (ok position) = ok (page_of c q position s)

unfoldable pub list_notifications : Codec → ListQuery → MemoryStore → Result Page
unfolding page_of decode_cursor
list_notifications c q s = listed c q s (decode_cursor c q)
