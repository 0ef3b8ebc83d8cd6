-- ===== src/Memstore/Views.antt =====
-- What a client sees of the in-memory store, and how it composes.
use hmntsk.Prelude.{
  String, ◌≡◌, refl, ap, List, [], ◌∷◌, ◌++◌, Option, none, some, Map, get, get-put, arith,
}
use hmntsk.Task.{Task}
use hmntsk.Event.{Event, TransitionRecord}
use hmntsk.Store.{View}
use hmntsk.Memstore.{World, Data, Tx, OutboxRow, new_tx, merge, committed_with, read_task, new_rows}

abbrev pub row_events : List OutboxRow → List Event
row_events [] = []
row_events (r ∷ rs) = r.event ∷ row_events rs

-- Every event recorded, the staged ones last.
abbrev pub all_events : Data → Option Tx → List Event
all_events d none = row_events d.outbox
all_events d (some t) = row_events (d.outbox ++ t.outbox)

abbrev pub past : Data → Option Tx → String → List TransitionRecord
past d none k = d.history k
past d (some t) k = d.history k ++ t.history k

-- What a client of the store sees, within the open transaction if there is one.
abbrev pub mem_view : World → View
mem_view w = record {
  tasks = read_task w.committed w.tx;
  log = past w.committed w.tx;
  events = all_events w.committed w.tx;
}

abbrev pub mem_begin : World → World
mem_begin w = record w { tx = some new_tx }

abbrev pub mem_commit : World → World
mem_commit w = committed_with w.committed w.tx

-- The scope has edited no row of the outbox.
abbrev pub PlainTx : Option Tx → Type 0
PlainTx none = ⊥
PlainTx (some t) = t.outbox_edits ≡ []

pub get-merge :
    (m m' : Map Task) (k : String)
    → get (merge m m') k ≡ (elim (get m' k) [ some task ↦ some task | none ↦ get m k ])
unfolding merge get
get-merge m [] k = refl
get-merge m ((j, t) ∷ m') k = ground (arith, get-put (merge m m') j k t, get-merge m m' k)

pub row_events-append :
    (rs rs' : List OutboxRow) → row_events (rs ++ rs') ≡ row_events rs ++ row_events rs'
row_events-append [] rs' = refl
row_events-append (r ∷ rs) rs' = ap (λ es. r.event ∷ es) (row_events-append rs rs')

pub row_events-new_rows : (es : List Event) → row_events (new_rows es) ≡ es
unfolding new_rows
row_events-new_rows [] = refl
row_events-new_rows (e ∷ es) = ap (λ es. e ∷ es) (row_events-new_rows es)
