-- ===== src/Outbox.antt =====
-- outbox.go and memstore/outbox.go: the delivery state of the recorded events. The store's row and
-- the port's entry have the same fields, and a copy is the value, so one record stands for both.
pub mod Claims
pub mod Leased
pub mod Rows
pub mod Settled
use hmntsk.Prelude.{
  ℕ, zero, suc, String, ◌==◌, Bool, true, false, ◌&&◌, ◌||◌, not, List, [], ◌∷◌, ◌++◌, Option, none,
  some, ℤ, pos, leb_ℤ, to_ℕ, is_some, ltb, eqb, contains, str_ltb, Map, get, put, if◌then◌else◌,
}
use hmntsk.Errors.{Error, Result, ok, err, configuration_error, outbox_not_found_error}
use hmntsk.Task.{Time, normalize_time, add_duration, before}
use hmntsk.Store.{M}
use hmntsk.Memstore.{OutboxRow, replace_row, World, Tx, Data}

-- Delivered, DeadLettered and Pending of an entry.
unfoldable pub delivered : OutboxRow → Bool
delivered e = is_some e.published_at

unfoldable pub dead_lettered : OutboxRow → Bool
dead_lettered e = not (is_some e.next_attempt_at) && not (is_some e.published_at)

unfoldable pub pending : OutboxRow → Bool
pending e = is_some e.next_attempt_at && not (is_some e.published_at)

unfoldable pub row_leased : OutboxRow → Time → Bool
row_leased e now = before now e.locked_until

unfoldable pub has_accepted : OutboxRow → String → Bool
has_accepted e sink = contains e.accepted sink

pub record OutboxClaim : Type 0 where
  pub now : Time
  pub owner : String
  pub duration : ℤ
  pub limit : ℤ

pub record AttemptRecord : Type 0 where
  pub event_id : String
  pub attempts : ℤ
  pub next_attempt_at : Time
  pub last_error : String

pub record Acceptance : Type 0 where
  pub event_id : String
  pub accepted : List String
  pub published_at : Option Time
  pub next_attempt_at : Option Time
  pub attempts : ℤ
  pub last_error : String

-- `accepted` is `none` for Go's nil slice.
pub record DeadLetter : Type 0 where
  pub event_id : String
  pub attempts : ℤ
  pub last_error : String
  pub accepted : Option (List String)

abbrev not_after : Option Time → Time → Bool
not_after none now = false
not_after (some at) now = not (ltb now at)

unfoldable pub row_due : OutboxRow → Time → Bool
row_due row now =
    if is_some row.published_at || not (is_some row.next_attempt_at)
    then false
    else if before now row.locked_until
    then false
    else not_after row.next_attempt_at now

-- release: every settlement drops the lease.
unfoldable pub release_row : OutboxRow → OutboxRow
release_row row = record row { locked_by = ""; locked_until = none }

abbrev pub or_row : Option OutboxRow → OutboxRow → OutboxRow
or_row none row = row
or_row (some edited) row = edited

-- The committed rows as the scope has edited them.
unfoldable pub edit_rows : Map OutboxRow → List OutboxRow → List OutboxRow
edit_rows edits [] = []
edit_rows edits (row ∷ rows) = or_row (get edits row.event.id) row ∷ edit_rows edits rows

unfoldable pub outbox_snapshot : World → List OutboxRow
unfolding edit_rows
outbox_snapshot w = elim w.tx [
  | none ↦ w.committed.outbox
  | some t ↦ edit_rows t.outbox_edits w.committed.outbox ++ t.outbox
]

-- The first row with the identifier.
unfoldable pub find_row : List OutboxRow → String → Option OutboxRow
find_row [] id = none
find_row (row ∷ rows) id = if row.event.id == id then some row else find_row rows id

abbrev pub found_row : String → Option OutboxRow → Result OutboxRow
found_row id none = err (outbox_not_found_error id)
found_row id (some row) = ok row

unfoldable pub outbox_entry : String → M World OutboxRow
unfolding outbox_snapshot find_row
outbox_entry id w = (found_row id (find_row (outbox_snapshot w) id), w)

-- Oldest first, by the time that they occurred and then by identifier.
abbrev pub row_before : OutboxRow → OutboxRow → Bool
row_before left right =
    if eqb left.event.occurred_at right.event.occurred_at
    then str_ltb left.event.id right.event.id
    else ltb left.event.occurred_at right.event.occurred_at

unfoldable pub insert_row : OutboxRow → List OutboxRow → List OutboxRow
insert_row row [] = row ∷ []
insert_row row (other ∷ rows) =
    if row_before other row then other ∷ insert_row row rows else row ∷ other ∷ rows

unfoldable pub sort_rows : List OutboxRow → List OutboxRow
unfolding insert_row
sort_rows [] = []
sort_rows (row ∷ rows) = insert_row row (sort_rows rows)

unfoldable pub lease_row : OutboxClaim → Time → OutboxRow → OutboxRow
lease_row c now row = record row {
  locked_by = c.owner;
  locked_until = some (add_duration now c.duration);
}

-- The loop over the candidates, while fewer are claimed than the limit.
unfoldable pub lease_due : OutboxClaim → Time → ℕ → List OutboxRow → List OutboxRow
unfolding lease_row
lease_due c now zero rows = []
lease_due c now (suc n) [] = []
lease_due c now (suc n) (row ∷ rows) = elim (row_due row now) [
  | true ↦ lease_row c now row ∷ lease_due c now n rows
  | false ↦ lease_due c now (suc n) rows
]

unfoldable pub edit_all : Map OutboxRow → List OutboxRow → Map OutboxRow
edit_all edits [] = edits
edit_all edits (row ∷ rows) = edit_all (put edits row.event.id row) rows

-- DefaultOutboxBatch
abbrev pub claim_limit : OutboxClaim → ℕ
claim_limit c = if leb_ℤ c.limit (pos 0) then 50 else to_ℕ c.limit

unfoldable pub claim_due_events : OutboxClaim → M World (List OutboxRow)
unfolding outbox_snapshot sort_rows lease_due edit_all normalize_time
claim_due_events c w = elim w.tx [
  | none ↦ (err (configuration_error "claimdueevents must run inside a transaction"), w)
  | some t ↦
      let claimed =
        lease_due c (normalize_time c.now) (claim_limit c) (sort_rows (outbox_snapshot w)) in
      (
        ok claimed,
        record w { tx = some (record t { outbox_edits = edit_all t.outbox_edits claimed }) },
      )
]

-- Does the scope itself hold a row with the identifier?
unfoldable pub holds_row : List OutboxRow → String → Bool
holds_row [] id = false
holds_row (row ∷ rows) id = row.event.id == id || holds_row rows id

-- A row that the scope appended itself is changed where it stands, and any other by an edit.
unfoldable pub stage_row : Tx → String → OutboxRow → Tx
unfolding holds_row replace_row
stage_row t id edited =
    if holds_row t.outbox id
    then record t { outbox = replace_row t.outbox id edited }
    else record t { outbox_edits = put t.outbox_edits id edited }

unfoldable pub edit_found :
    World → Tx → String → (OutboxRow → OutboxRow) → Option OutboxRow → Result (Unit {0}) × World
unfolding stage_row
edit_found w t id edit none = (err (outbox_not_found_error id), w)
edit_found w t id edit (some row) = (ok tt, record w { tx = some (stage_row t id (edit row)) })

unfoldable pub edit_outbox : String → String → (OutboxRow → OutboxRow) → M World Unit
unfolding edit_found outbox_snapshot find_row
edit_outbox operation id edit w = elim w.tx [
  | none ↦ (err (configuration_error operation), w)
  | some t ↦ edit_found w t id edit (find_row (outbox_snapshot w) id)
]

unfoldable pub attempted_row : AttemptRecord → OutboxRow → OutboxRow
unfolding release_row normalize_time
attempted_row a row = release_row (record row {
  attempts = a.attempts;
  next_attempt_at = some (normalize_time a.next_attempt_at);
  last_error = a.last_error;
})

abbrev rescheduled : Option Time → OutboxRow → OutboxRow
rescheduled none row = row
rescheduled (some at) row = record row { next_attempt_at = some (normalize_time at) }

abbrev published_or : Option Time → Option Time → OutboxRow → OutboxRow
published_or (some at) next row = record row {
  published_at = some (normalize_time at);
  last_error = "";
}
published_or none next row = rescheduled next row

unfoldable pub accepted_row : Acceptance → OutboxRow → OutboxRow
unfolding release_row normalize_time
accepted_row a row = release_row (
    published_or a.published_at a.next_attempt_at
      (record row { accepted = a.accepted; attempts = a.attempts; last_error = a.last_error }))

abbrev accepted_or : Option (List String) → List String → List String
accepted_or none old = old
accepted_or (some new) old = new

unfoldable pub dead_row : DeadLetter → OutboxRow → OutboxRow
unfolding release_row
dead_row d row = release_row (record row {
  attempts = d.attempts;
  last_error = d.last_error;
  next_attempt_at = none;
  accepted = accepted_or d.accepted row.accepted;
})

unfoldable pub record_attempt : AttemptRecord → M World Unit
unfolding edit_outbox attempted_row
record_attempt a =
    edit_outbox "recordattempt must run inside a transaction" a.event_id (attempted_row a)

unfoldable pub mark_accepted : Acceptance → M World Unit
unfolding edit_outbox accepted_row
mark_accepted a =
    edit_outbox "markaccepted must run inside a transaction" a.event_id (accepted_row a)

unfoldable pub mark_dead_lettered : DeadLetter → M World Unit
unfolding edit_outbox dead_row
mark_dead_lettered d =
    edit_outbox "markdeadlettered must run inside a transaction" d.event_id (dead_row d)
