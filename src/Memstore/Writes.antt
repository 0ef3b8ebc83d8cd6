-- ===== src/Memstore/Writes.antt =====
-- What the writes of the in-memory store return, and what they show, inside a transaction.
use mathlib.Core.List.{append_assoc, append-nil}
use hmntsk.Prelude.{
  String, ◌==◌, ◌≡◌, refl, sym, ap, ◌∙◌, true, List, [], ◌∷◌, ◌++◌, Option, none, some, ℤ, put,
  get-put, is_some, arith, if◌then◌else◌, Option-cases, inl, inr, Bool-cases,
}
use hmntsk.Errors.{Result, ok}
use hmntsk.Task.{Task, normalize}
use hmntsk.Event.{Event, TransitionRecord}
use hmntsk.Store.{found, checked, absent, written, set_task, add_records, add_events, records_for}
use hmntsk.Memstore.{
  World, Data, Tx, read_task, found_task, create_task, update_task, append_history, new_rows,
  append_events, eqb_ℤ,
}
use hmntsk.Memstore.Views.{row_events, mem_view, row_events-append, row_events-new_rows}

abbrev pub world : Data → Option Tx → World
world d o = record { committed = d; tx = o }

pub updated :
    (t : Task) (v : ℤ) (d : Data) (o : Option Tx)
    → is_some o ≡ true
    → (update_task t v (world d o)).0 ≡ checked t.id v (read_task d o t.id)
unfolding update_task
updated t v d none h = cc
updated t v d (some x) h = ground arith

pub staged_at :
    (d : Data) (x : Tx) (t : Task) (k : String)
    → read_task d (some (record x { tasks = put x.tasks t.id (normalize t) })) k
      ≡ (if t.id == k then some (normalize t) else read_task d (some x) k)
staged_at d x t k = ground (arith, get-put x.tasks t.id k (normalize t))

-- A staged write of a task is seen.
pub view-staged :
    (d : Data) (x : Tx) (t : Task)
    → mem_view (world d (some (record x { tasks = put x.tasks t.id (normalize t) })))
      ≡ set_task (normalize t) (mem_view (world d (some x)))
unfolding normalize
view-staged d x t = λ i. record (mem_view (world d (some x))) { tasks = λ k. staged_at d x t k i }

pub view-updated :
    (t : Task) (v : ℤ) (d : Data) (o : Option Tx)
    → is_some o ≡ true
    → mem_view (update_task t v (world d o)).1
      ≡ written
          (checked t.id v (read_task d o t.id))
          (set_task (normalize t))
          (mem_view (world d o))
unfolding update_task
view-updated t v d none h = cc
view-updated t v d (some x) h = elim (Option-cases (read_task d (some x) t.id)) [
  | inl e ↦ rw e
  | inr (current, e) ↦ elim (Bool-cases (eqb_ℤ current.version v)) [
    | inl same ↦ rw (e, same) (view-staged d x t)
    | inr other ↦ rw (e, other)
  ]
]

pub created :
    (t : Task) (d : Data) (o : Option Tx)
    → is_some o ≡ true
    → (create_task t (world d o)).0 ≡ absent t.id (read_task d o t.id)
unfolding create_task
created t d none h = cc
created t d (some x) h = ground arith

pub view-created :
    (t : Task) (d : Data) (o : Option Tx)
    → is_some o ≡ true
    → mem_view (create_task t (world d o)).1
      ≡ written (absent t.id (read_task d o t.id)) (set_task (normalize t)) (mem_view (world d o))
unfolding create_task
view-created t d none h = cc
view-created t d (some x) h = elim (Option-cases (read_task d (some x) t.id)) [
  | inl e ↦ rw e (view-staged d x t)
  | inr (current, e) ↦ rw e
]

pub history_done :
    (rs : List TransitionRecord) (d : Data) (o : Option Tx)
    → is_some o ≡ true
    → (append_history rs (world d o)).0 ≡ ok tt
unfolding append_history
history_done rs d none h = cc
history_done [] d (some x) h = refl
history_done (r ∷ rs) d (some x) h = refl

pub view-history :
    (rs : List TransitionRecord) (d : Data) (o : Option Tx)
    → is_some o ≡ true
    → mem_view (append_history rs (world d o)).1 ≡ add_records rs (mem_view (world d o))
unfolding append_history records_for
view-history rs d none h = cc
view-history [] d (some x) h = λ i. record (mem_view (world d (some x))) {
  log = λ k. sym (append-nil (d.history k ++ x.history k)) i;
}
view-history (r ∷ rs) d (some x) h = λ i. record (mem_view (world d (some x))) {
  log = λ k. sym (append_assoc (d.history k) (x.history k) (records_for k (r ∷ rs))) i;
}

pub events_done :
    (es : List Event) (d : Data) (o : Option Tx)
    → is_some o ≡ true
    → (append_events es (world d o)).0 ≡ ok tt
unfolding append_events
events_done es d none h = cc
events_done es d (some x) h = refl

pub all_events-append :
    (es : List Event) (d : Data) (x : Tx)
    → row_events (d.outbox ++ (x.outbox ++ new_rows es)) ≡ row_events (d.outbox ++ x.outbox) ++ es
all_events-append es d x =
    ap row_events (sym (append_assoc d.outbox x.outbox (new_rows es)))
    ∙ row_events-append (d.outbox ++ x.outbox) (new_rows es)
    ∙ ap (λ ns. row_events (d.outbox ++ x.outbox) ++ ns) (row_events-new_rows es)

pub view-events :
    (es : List Event) (d : Data) (o : Option Tx)
    → is_some o ≡ true
    → mem_view (append_events es (world d o)).1 ≡ add_events es (mem_view (world d o))
unfolding append_events
view-events es d none h = cc
view-events es d (some x) h =
    λ i. record (mem_view (world d (some x))) { events = all_events-append es d x i }

pub found_read :
    (id : String) (o : Option Task) (w : World)
    → ◌≡◌ {A = Result Task × World} (found_task id o, w) (found id o, w)
found_read id none w = refl
found_read id (some t) w = refl
