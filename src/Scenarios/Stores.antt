-- ===== src/Scenarios/Stores.antt =====
-- The in-memory store with one task in it.
use hmntsk.Prelude.{◌≡◌, refl, [], ◌∷◌, some}
use hmntsk.Memstore.{Data, Tx, committed_with}
use hmntsk.Memstore.Views.{mem_view}
use hmntsk.Memstore.Writes.{world}
use hmntsk.Memstore.Scopes.{view-committed}
use hmntsk.Scenarios.{offered, held}

abbrev stored : Data
stored = record { tasks = ("t1", offered) ∷ []; history = λ k. []; outbox = [] }

abbrev staged : Tx
staged = record { tasks = ("t1", held) ∷ []; history = λ k. []; outbox = []; outbox_edits = [] }

view-committed_example :
    mem_view (committed_with stored (some staged)) ≡ mem_view (world stored (some staged))
view-committed_example = view-committed stored (some staged) refl
