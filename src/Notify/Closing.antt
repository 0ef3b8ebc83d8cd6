-- ===== src/Notify/Closing.antt =====
-- Close of notify/memory.go: the marks it raises, the notifications it closes, their successors.
use hmntsk.Prelude.{
  ℕ, ◌+◌, String, ◌==◌, Bool, true, false, ◌&&◌, ◌||◌, not, List, [], ◌∷◌, Option, none, some, ℤ,
  ltb_ℤ, is_nil, Map, get, put, contains, sort_strings, add_key, if◌then◌else◌,
}
use hmntsk.Prelude.Tables.{PairKey, PairMap, find, store}
use hmntsk.Task.{Time, normalize_time}
use hmntsk.Notify.{state_closed, same_state, Notification, Result, ok, err}
use hmntsk.Notify.Port.{Insertion, CloseRequest, CloseResult, IdGenerator, successor_insertions}
use hmntsk.Notify.Memory.{
  Watermark, MemoryStore, all_kinds, or_zero, ids_of, ensure_watermark, insert_all, first_instant,
}

-- A mark is raised to the version, never lowered.
abbrev pub raise_to : Option Watermark → ℤ → ℤ
raise_to none version = version
raise_to (some mark) version = if ltb_ℤ mark.version version then version else mark.version

unfoldable pub raise_mark : PairKey → ℤ → Time → PairMap Watermark → PairMap Watermark
raise_mark key version at watermarks =
    store watermarks key
      (record { version = raise_to (find watermarks key) version; updated_at = at })

unfoldable pub raise_marks : String → List String → ℤ → Time → PairMap Watermark → PairMap Watermark
unfolding raise_mark
raise_marks subject [] version at watermarks = watermarks
raise_marks subject (kind ∷ kinds) version at watermarks =
    raise_marks subject kinds version at (raise_mark (subject, kind) version at watermarks)

-- Every kind where the request names none.
unfoldable pub closed_marks : CloseRequest → Time → PairMap Watermark → PairMap Watermark
unfolding ensure_watermark raise_marks
closed_marks req at watermarks =
    raise_marks req.subject (if is_nil req.kinds then all_kinds ∷ [] else req.kinds) req.version at
      (ensure_watermark (req.subject, all_kinds) at watermarks)

-- The close reaches the notification.
unfoldable pub closes : CloseRequest → Notification → Bool
unfolding same_state
closes req n =
    if same_state n.state state_closed || ltb_ℤ req.version n.subject_version
    then false
    else if not (is_nil req.kinds) && not (contains req.kinds n.kind)
    then false
    else if not (req.except_for == "") && n.recipient == req.except_for
    then false
    else true

unfoldable pub close_notification : CloseRequest → Time → Notification → Notification
close_notification req at n = record n {
  state = state_closed;
  closed_reason = req.reason;
  closed_at = some at;
  inactive_at = first_instant n.inactive_at at;
}

-- The notifications, the number closed and the set of their recipients after the identifiers.
unfoldable pub close_each :
    CloseRequest
    → Time
    → List String
    → Map Notification × ℕ × List String
    → Map Notification × ℕ × List String
unfolding closes close_notification
close_each req at [] acc = acc
close_each req at (id ∷ ids) (notifications, closed, recipients) =
    let n = or_zero (get notifications id) in
    close_each req at ids (
      if closes req n
      then (
        put notifications id (close_notification req at n),
        closed + 1,
        add_key recipients n.recipient,
      )
      else (notifications, closed, recipients))

-- Successors are inserted where there are any.
abbrev pub close_result :
    CloseRequest → ℕ → List String → MemoryStore → List Insertion → Result CloseResult × MemoryStore
close_result req closed recipients s [] = (
  ok (record {
    closed = closed;
    recipients = recipients;
    successors = [];
    successors_suppressed = 0;
  }),
  s,
)
close_result req closed recipients s (i ∷ is) =
    let inserted = insert_all req.subject (i ∷ is) s in
    (
      ok (record {
        closed = closed;
        recipients = recipients;
        successors = inserted.1.created;
        successors_suppressed = inserted.1.suppressed;
      }),
      inserted.0,
    )

-- A failure keeps what was closed.
abbrev pub after_stamping :
    {G : Type 0}
    → CloseRequest
    → ℕ
    → List String
    → MemoryStore
    → Result (List Insertion) × G
    → Result CloseResult × MemoryStore × G
after_stamping req closed recipients s (ok is, g) =
    let done = close_result req closed recipients s is in (done.0, done.1, g)
after_stamping req closed recipients s (err e, g) = (err e, s, g)

abbrev pub closing_state : MemoryStore → PairMap Watermark → Map Notification → MemoryStore
closing_state s watermarks notifications = record s {
  watermarks = watermarks;
  notifications = notifications;
}

-- The state before successors, with the number closed and the set of their recipients.
unfoldable pub close_subject : CloseRequest → Time → MemoryStore → MemoryStore × ℕ × List String
unfolding closed_marks close_each
close_subject req at s =
    let done = close_each req at (ids_of s.subjects req.subject) (s.notifications, 0, []) in
    (closing_state s (closed_marks req at s.watermarks) done.0, done.1, done.2)

module _ {G : Type 0} (ids : IdGenerator G) where
  unfoldable pub close :
      CloseRequest → Time → MemoryStore → G → Result CloseResult × MemoryStore × G
  unfolding close_subject normalize_time sort_strings
  close req given s g =
      let at = normalize_time given in
      let done = close_subject req at s in
      let recipients = sort_strings done.2 in
      after_stamping req done.1 recipients done.0 (successor_insertions ids req recipients at g)
