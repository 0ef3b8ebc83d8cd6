-- ===== src/Notify/Marking.antt =====
-- Get, CountActive, MarkRead and MarkAllRead of notify/memory.go.
use hmntsk.Prelude.{
  ℕ, ◌+◌, String, ◌==◌, Bool, true, ◌&&◌, not, List, [], ◌∷◌, Option, none, some, ltb, Map, get,
  put, sort_strings, if◌then◌else◌, is_some,
}
use hmntsk.Task.{Time, normalize_time}
use hmntsk.Notify.{
  state_active, state_read, state_closed, other_state, same_state, Notification, not_found, Result,
  ok, err, State,
}
use hmntsk.Notify.Memory.{MemoryStore, or_zero, first_instant}

-- The recipient's notification under the identifier.
abbrev pub own : String → Option Notification → Option Notification
own recipient none = none
own recipient (some n) = if n.recipient == recipient then some n else none

abbrev pub found : Option Notification → Result Notification
found none = err not_found
found (some n) = ok n

unfoldable pub get_notification : String → String → MemoryStore → Result Notification
get_notification recipient id s = found (own recipient (get s.notifications id))

unfoldable pub is_active_of : String → Notification → Bool
unfolding same_state
is_active_of recipient n = n.recipient == recipient && same_state n.state state_active

unfoldable pub count_active : String → Map Notification → ℕ
unfolding is_active_of
count_active recipient [] = 0
count_active recipient ((id, n) ∷ m) =
    (if is_active_of recipient n then 1 else 0) + count_active recipient m

-- slices.Compact: of equal neighbours the first.
unfoldable pub compact_after : String → List String → List String
compact_after a [] = []
compact_after a (b ∷ bs) = if a == b then compact_after a bs else b ∷ compact_after b bs

unfoldable pub compact : List String → List String
unfolding compact_after
compact [] = []
compact (a ∷ as_list) = a ∷ compact_after a as_list

unfoldable pub owns_all : Map Notification → String → List String → Bool
owns_all m recipient [] = true
owns_all m recipient (id ∷ ids) = is_some (own recipient (get m id)) && owns_all m recipient ids

abbrev pub mark_active : Time → Notification → Notification
mark_active at n = record n { state = state_read; read_at = some at; inactive_at = some at }

abbrev pub marked_in : State → Time → Notification → Notification
marked_in state_active at n = mark_active at n
marked_in state_closed at n = record n { read_at = first_instant n.read_at at }
marked_in state_read at n = n
marked_in (other_state text) at n = n

-- The notification after it is marked read.
unfoldable pub mark_notification : Time → Notification → Notification
mark_notification at n = marked_in n.state at n

unfoldable pub mark_each : Time → List String → Map Notification × ℕ → Map Notification × ℕ
unfolding same_state mark_notification
mark_each at [] acc = acc
mark_each at (id ∷ ids) (m, marked) =
    let n = or_zero (get m id) in
    mark_each at ids (
      put m id (mark_notification at n),
      (if same_state n.state state_active then marked + 1 else marked),
    )

abbrev pub with_notifications : MemoryStore → Map Notification × ℕ → Result ℕ × MemoryStore
with_notifications s (m, marked) = (ok marked, record s { notifications = m })

-- The number of notifications that left ACTIVE, MarkResult.
unfoldable pub mark_read : String → List String → Time → MemoryStore → Result ℕ × MemoryStore
unfolding owns_all mark_each compact sort_strings normalize_time
mark_read recipient ids at s =
    if owns_all s.notifications recipient ids
    then with_notifications s
        (mark_each (normalize_time at) (compact (sort_strings ids)) (s.notifications, 0))
    else (err not_found, s)

-- MarkAllRead takes the notification.
unfoldable pub marks_through : String → Time → Notification → Bool
unfolding is_active_of
marks_through recipient through n = is_active_of recipient n && not (ltb through n.created_at)

-- A loop that writes under the key it is at.
unfoldable pub mark_through : String → Time → Time → Map Notification → Map Notification × ℕ
unfolding marks_through
mark_through recipient through at [] = ([], 0)
mark_through recipient through at ((id, n) ∷ m) =
    let rest = mark_through recipient through at m in
    if marks_through recipient through n
    then ((id, mark_active at n) ∷ rest.0, rest.1 + 1)
    else ((id, n) ∷ rest.0, rest.1)

unfoldable pub mark_all_read : String → Time → Time → MemoryStore → Result ℕ × MemoryStore
unfolding mark_through normalize_time
mark_all_read recipient through at s =
    with_notifications s (mark_through recipient through (normalize_time at) s.notifications)
