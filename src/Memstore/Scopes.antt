-- ===== src/Memstore/Scopes.antt =====
-- The scopes of the in-memory store: how they begin, join and commit, and what keeps them open.
use mathlib.Core.List.{append-nil}
use hmntsk.Prelude.{
  ◌≡◌, refl, ap, Bool, true, false, List, [], ◌∷◌, ◌++◌, Option, none, some, ℤ, get, is_some, arith,
  Option-cases, inl, inr, Bool-cases,
}
use hmntsk.Task.{Task}
use hmntsk.Event.{Event, TransitionRecord}
use hmntsk.Store.{M, settle}
use hmntsk.Memstore.{
  World, Data, Tx, new_tx, apply_edits, do_tx, committed_with, read_task, create_task, update_task,
  append_history, append_events, eqb_ℤ,
}
use hmntsk.Memstore.Views.{row_events, mem_view, mem_begin, mem_commit, PlainTx, get-merge}
use hmntsk.Memstore.Writes.{world}

pub joins :
    {A : Type 0} (cancelled : Bool) (m : M World A) (d : Data) (o : Option Tx)
    → is_some o ≡ true
    → do_tx cancelled m (world d o) ≡ m (world d o)
unfolding do_tx
joins cancelled m d none h = cc
joins cancelled m d (some t) h = refl

pub begins :
    {A : Type 0} (cancelled : Bool) (m : M World A) (d : Data) (o : Option Tx)
    → is_some o ≡ false
    → do_tx cancelled m (world d o)
      ≡ settle cancelled mem_commit (world d o) (m (mem_begin (world d o)))
unfolding do_tx
begins cancelled m d (some t) h = cc
begins cancelled m d none h = ground arith

-- What a scope sees of its own writes, over those committed before, is what everyone sees once it
-- has committed: the tasks, the history of each and the events in order. The scope has edited no
-- row of the outbox.
pub view-committed :
    (d : Data) (o : Option Tx) → PlainTx o → mem_view (committed_with d o) ≡ mem_view (world d o)
unfolding committed_with apply_edits
view-committed d none p = elim p [ ]
view-committed d (some t) p = λ i. record {
  tasks = λ k. get-merge d.tasks t.tasks k i;
  log = λ k. d.history k ++ t.history k;
  events = row_events (ap (λ es. apply_edits (d.outbox ++ t.outbox) es) p i);
}

pub view-begun :
    (d : Data) (o : Option Tx)
    → is_some o ≡ false
    → mem_view (world d (some new_tx)) ≡ mem_view (world d o)
unfolding new_tx get
view-begun d (some t) h = cc
view-begun d none h = λ i. record {
  tasks = get d.tasks;
  log = λ k. append-nil (d.history k) i;
  events = row_events (append-nil d.outbox i);
}

-- A write leaves the transaction open, and edits no row of the outbox.
pub stays_open_update :
    (t : Task) (v : ℤ) (d : Data) (o : Option Tx)
    → is_some o ≡ true
    → is_some (update_task t v (world d o)).1.tx ≡ true
unfolding update_task
stays_open_update t v d none h = cc
stays_open_update t v d (some x) h = ground arith

pub stays_open_create :
    (t : Task) (d : Data) (o : Option Tx)
    → is_some o ≡ true
    → is_some (create_task t (world d o)).1.tx ≡ true
unfolding create_task
stays_open_create t d none h = cc
stays_open_create t d (some x) h = ground arith

pub stays_open_history :
    (rs : List TransitionRecord) (d : Data) (o : Option Tx)
    → is_some o ≡ true
    → is_some (append_history rs (world d o)).1.tx ≡ true
unfolding append_history
stays_open_history rs d none h = cc
stays_open_history [] d (some x) h = refl
stays_open_history (r ∷ rs) d (some x) h = refl

pub stays_plain_update :
    (t : Task) (v : ℤ) (d : Data) (o : Option Tx)
    → PlainTx o
    → PlainTx (update_task t v (world d o)).1.tx
unfolding update_task
stays_plain_update t v d none p = elim p [ ]
stays_plain_update t v d (some x) p = elim (Option-cases (read_task d (some x) t.id)) [
  | inl e ↦ rw e p
  | inr (current, e) ↦ elim (Bool-cases (eqb_ℤ current.version v)) [
    | inl same ↦ rw (e, same) p
    | inr other ↦ rw (e, other) p
  ]
]

pub stays_plain_create :
    (t : Task) (d : Data) (o : Option Tx) → PlainTx o → PlainTx (create_task t (world d o)).1.tx
unfolding create_task
stays_plain_create t d none p = elim p [ ]
stays_plain_create t d (some x) p = elim (Option-cases (read_task d (some x) t.id)) [
  | inl e ↦ rw e p
  | inr (current, e) ↦ rw e p
]

pub stays_plain_history :
    (rs : List TransitionRecord) (d : Data) (o : Option Tx)
    → PlainTx o
    → PlainTx (append_history rs (world d o)).1.tx
unfolding append_history
stays_plain_history rs d none p = elim p [ ]
stays_plain_history [] d (some x) p = p
stays_plain_history (r ∷ rs) d (some x) p = p

pub stays_plain_events :
    (es : List Event) (d : Data) (o : Option Tx)
    → PlainTx o
    → PlainTx (append_events es (world d o)).1.tx
unfolding append_events
stays_plain_events es d none p = elim p [ ]
stays_plain_events es d (some x) p = p

pub closed_after : (d : Data) (o : Option Tx) → is_some (committed_with d o).tx ≡ false
unfolding committed_with
closed_after d none = refl
closed_after d (some t) = refl

pub plain_begun : PlainTx (some new_tx)
unfolding new_tx
plain_begun = refl
