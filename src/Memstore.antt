-- ===== src/Memstore.antt =====
-- memstore/memstore.go and memstore/outbox.go: the in-memory store. The store and the transaction
-- that Go keeps in the context are one state. Transactions are serialised by a mutex, so one is
-- open at most. Task maps are association lists; the history, whose keys are never listed, is a
-- function.
pub mod Views
pub mod Writes
pub mod Scopes
pub mod Laws
use hmntsk.Prelude.{
  String, ◌==◌, Bool, true, false, List, [], ◌∷◌, ◌++◌, Option, none, some, ℤ, pos, eqb_ℤ, is_some,
  is_nil, Map, get, put, if◌then◌else◌,
}
use hmntsk.Errors.{Error, Result, ok, err, conflict_error, not_found_error, configuration_error}
use hmntsk.Task.{Task, Time, normalize, normalize_time}
use hmntsk.Event.{Event, TransitionRecord}
use hmntsk.Store.{M, Store, lift, records_for, context_cancelled}

pub record OutboxRow : Type 0 where
  pub event : Event
  pub attempts : ℤ
  pub next_attempt_at : Option Time
  pub last_error : String
  pub accepted : List String
  pub published_at : Option Time
  pub locked_by : String
  pub locked_until : Option Time

abbrev pub History : Type 0
History = String → List TransitionRecord

-- The committed state.
pub record Data : Type 0 where
  pub tasks : Map Task
  pub history : History
  pub outbox : List OutboxRow

-- One transaction's staged writes.
pub record Tx : Type 0 where
  pub tasks : Map Task
  pub history : History
  pub outbox : List OutboxRow
  pub outbox_edits : Map OutboxRow

pub record World : Type 0 where
  pub committed : Data
  pub tx : Option Tx

unfoldable pub new_store : World
new_store = record { committed = record { tasks = []; history = λ k. []; outbox = [] }; tx = none }

unfoldable pub new_tx : Tx
new_tx = record { tasks = []; history = λ k. []; outbox = []; outbox_edits = [] }

-- maps.Copy: an entry of the second map replaces that of the first.
unfoldable pub merge : Map Task → Map Task → Map Task
merge m [] = m
merge m ((k, t) ∷ rest) = put (merge m rest) k t

-- The first row with the identifier is replaced.
unfoldable pub replace_row : List OutboxRow → String → OutboxRow → List OutboxRow
replace_row [] id edited = []
replace_row (row ∷ rows) id edited =
    if row.event.id == id then edited ∷ rows else row ∷ replace_row rows id edited

unfoldable pub apply_edits : List OutboxRow → Map OutboxRow → List OutboxRow
unfolding replace_row
apply_edits rows [] = rows
apply_edits rows ((id, edited) ∷ edits) = apply_edits (replace_row rows id edited) edits

unfoldable pub commit : Data → Tx → Data
unfolding merge apply_edits
commit d t = record {
  tasks = merge d.tasks t.tasks;
  history = λ k. d.history k ++ t.history k;
  outbox = apply_edits (d.outbox ++ t.outbox) t.outbox_edits;
}

unfoldable pub in_transaction : World → Bool
in_transaction w = is_some w.tx

-- What the transaction staged reaches the committed state, and the transaction is over.
unfoldable pub committed_with : Data → Option Tx → World
unfolding commit
committed_with d none = record { committed = d; tx = none }
committed_with d (some t) = record { committed = commit d t; tx = none }

-- How a scope that began its transaction ends: rolled back, or committed.
unfoldable pub close_scope : {A : Type 0} → Bool → World → Result A × World → Result A × World
unfolding committed_with
close_scope cancelled before (err e, w) = (err e, before)
close_scope cancelled before (ok a, w) =
    if cancelled then (err context_cancelled, before) else (ok a, committed_with w.committed w.tx)

-- A nested call joins the open transaction.
unfoldable pub do_tx : {A : Type 0} → Bool → M World A → M World A
unfolding close_scope new_tx
do_tx cancelled m w = elim w.tx [
  | some t ↦ m w
  | none ↦ close_scope cancelled w (m (record w { tx = some new_tx }))
]

abbrev pub found_task : String → Option Task → Result Task
found_task id none = err (not_found_error id)
found_task id (some t) = ok t

-- The staged task before the committed one.
abbrev pub read_task : Data → Option Tx → String → Option Task
read_task d none id = get d.tasks id
read_task d (some t) id = elim (get t.tasks id) [ some task ↦ some task | none ↦ get d.tasks id ]

unfoldable pub get_task : String → M World Task
get_task id w = (found_task id (read_task w.committed w.tx id), w)

outside_transaction : String → Error
outside_transaction operation = configuration_error operation

abbrev stage_task : World → Tx → Task → World
stage_task w t task = record w {
  tx = some (record t { tasks = put t.tasks task.id (normalize task) });
}

create_over : World → Tx → Task → Option Task → Result (Unit {0}) × World
create_over w t task none = (ok tt, stage_task w t task)
create_over w t task (some _) = (err (conflict_error task.id (pos 0) (pos 0)), w)

unfoldable pub create_task : Task → M World Unit
unfolding create_over outside_transaction
create_task task w = elim w.tx [
  | none ↦ (err (outside_transaction "create must run inside a transaction"), w)
  | some t ↦ create_over w t task (read_task w.committed (some t) task.id)
]

update_over : World → Tx → Task → ℤ → Option Task → Result (Unit {0}) × World
update_over w t task expected none = (err (not_found_error task.id), w)
update_over w t task expected (some current) =
    if eqb_ℤ current.version expected
    then (ok tt, stage_task w t task)
    else (err (conflict_error task.id expected current.version), w)

unfoldable pub update_task : Task → ℤ → M World Unit
unfolding update_over outside_transaction
update_task task expected w = elim w.tx [
  | none ↦ (err (outside_transaction "update must run inside a transaction"), w)
  | some t ↦ update_over w t task expected (read_task w.committed (some t) task.id)
]

unfoldable pub append_history : List TransitionRecord → M World Unit
unfolding outside_transaction
append_history [] w = (ok tt, w)
append_history (r ∷ rs) w = elim w.tx [
  | none ↦ (err (outside_transaction "appendhistory must run inside a transaction"), w)
  | some t ↦ (
    ok tt,
    record w { tx = some (record t { history = λ k. t.history k ++ records_for k (r ∷ rs) }) },
  )
]

unfoldable pub history_of : World → String → List TransitionRecord
history_of w k = elim w.tx [
  | none ↦ w.committed.history k
  | some t ↦ w.committed.history k ++ t.history k
]

-- A recorded event is due as soon as it is recorded.
unfoldable pub new_rows : List Event → List OutboxRow
unfolding normalize_time
new_rows [] = []
new_rows (e ∷ es) =
    record {
      event = e;
      attempts = pos 0;
      next_attempt_at = some (normalize_time e.occurred_at);
      last_error = "";
      accepted = [];
      published_at = none;
      locked_by = "";
      locked_until = none;
    }
    ∷ new_rows es

unfoldable pub append_events : List Event → M World Unit
unfolding outside_transaction new_rows
append_events es w = elim w.tx [
  | none ↦ (err (configuration_error "events may only be appended inside a transaction"), w)
  | some t ↦ (ok tt, record w { tx = some (record t { outbox = t.outbox ++ new_rows es }) })
]

-- The store as the service is given it.
abbrev pub mem_store : Store World
mem_store = record {
  in_transaction = in_transaction;
  do_tx = do_tx;
  get_task = get_task;
  create_task = create_task;
  update_task = update_task;
  append_history = append_history;
  append_events = append_events;
}
