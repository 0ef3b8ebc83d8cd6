-- ===== src/Store.antt =====
-- ports.go: the ports that the service is given as one store, and what they promise.
-- A store carries the transaction that Go keeps in the context. `cancelled` says whether the
-- context is cancelled by the time the scope ends; a panic of the scope is not modelled.
use hmntsk.Prelude.{
  String, ◌==◌, ◌≡◌, Bool, true, false, List, [], ◌∷◌, ◌++◌, Option, none, some, ℤ, eqb_ℤ,
  if◌then◌else◌,
}
use hmntsk.Errors.{Error, Result, ok, err, conflict_error, not_found_error, foreign}
use hmntsk.Task.{Task, normalize, normalize_time}
use hmntsk.Event.{Event, TransitionRecord}

-- A call that reads and writes the store and may fail; what it wrote before it failed stays.
abbrev pub M : Type 0 → Type 0 → Type 0
M S A = S → Result A × S

module _ {S A B : Type 0} where
  abbrev pub continue : Result A → (A → M S B) → M S B
  continue (ok a) f s = f a s
  continue (err e) f s = (err e, s)

  infixl 5 ◌>>=◌ ◌>>◌
  abbrev pub ◌>>=◌ : M S A → (A → M S B) → M S B
  ◌>>=◌ m f s = continue (m s).0 f (m s).1

  abbrev pub ◌>>◌ : M S A → M S B → M S B
  m >> k = m >>= λ _. k

abbrev pub lift : {S A : Type 0} → Result A → M S A
lift r s = (r, s)

-- ctx.Err() after a cancellation
abbrev pub context_cancelled : Error
context_cancelled = foreign "context canceled"

pub record Store (S : Type 0) : Type 1 where
  pub in_transaction : S → Bool
  pub do_tx : {A : Type 0} → Bool → M S A → M S A
  pub get_task : String → M S Task
  pub create_task : Task → M S Unit
  pub update_task : Task → ℤ → M S Unit
  pub append_history : List TransitionRecord → M S Unit
  pub append_events : List Event → M S Unit

-- What a client of the store can see: the tasks by their identifiers, the history of each, and the
-- events recorded so far.
pub record View : Type 0 where
  pub tasks : String → Option Task
  pub log : String → List TransitionRecord
  pub events : List Event

abbrev pub set_task : Task → View → View
set_task t v = record v { tasks = λ k. if t.id == k then some t else v.tasks k }

-- The records of one task, their times normalised as they are stored.
unfoldable pub records_for : String → List TransitionRecord → List TransitionRecord
unfolding normalize_time
records_for k [] = []
records_for k (r ∷ rs) =
    let rest = records_for k rs in
    if r.task_id == k then record r { at = normalize_time r.at } ∷ rest else rest

abbrev pub add_records : List TransitionRecord → View → View
add_records rs v = record v { log = λ k. v.log k ++ records_for k rs }

abbrev pub add_events : List Event → View → View
add_events es v = record v { events = v.events ++ es }

abbrev pub found : String → Option Task → Result Task
found id none = err (not_found_error id)
found id (some t) = ok t

-- A write is conditional on the version that its caller read.
abbrev pub checked : String → ℤ → Option Task → Result (Unit {0})
checked id expected none = err (not_found_error id)
checked id expected (some current) =
    if eqb_ℤ current.version expected
    then ok tt
    else err (conflict_error id expected current.version)

abbrev pub written : Result (Unit {0}) → (View → View) → View → View
written (ok _) f v = f v
written (err _) f v = v

abbrev pub absent : String → Option Task → Result (Unit {0})
absent id none = ok tt
absent id (some t) = err (conflict_error id (ℤ.pos 0) (ℤ.pos 0))

-- How a scope ends that began its own transaction, from the state before it.
abbrev pub settle : {S A : Type 0} → Bool → (S → S) → S → Result A × S → Result A × S
settle cancelled commit s (err e, s') = (err e, s)
settle cancelled commit s (ok a, s') =
    if cancelled then (err context_cancelled, s) else (ok a, commit s')

-- The promises. `begin` and `commit` are the two ends of a scope, and `IsPlain` holds in a scope
-- that has only written tasks, history and new events.
pub record Laws {S : Type 0} (st : Store S) : Type 1 where
  pub view : S → View
  pub begin : S → S
  pub commit : S → S
  pub IsPlain : S → Type 0
  pub do_joined :
      {A : Type 0} (cancelled : Bool) (m : M S A) (s : S)
      → st.in_transaction s ≡ true
      → st.do_tx cancelled m s ≡ m s
  pub do_began :
      {A : Type 0} (cancelled : Bool) (m : M S A) (s : S)
      → st.in_transaction s ≡ false
      → st.do_tx cancelled m s ≡ settle cancelled commit s (m (begin s))
  pub begin-open : (s : S) → st.in_transaction (begin s) ≡ true
  pub begin-IsPlain : (s : S) → IsPlain (begin s)
  pub view-begin : (s : S) → st.in_transaction s ≡ false → view (begin s) ≡ view s
  pub view-commit : (s : S) → IsPlain s → view (commit s) ≡ view s
  pub commit-closed : (s : S) → st.in_transaction (commit s) ≡ false
  pub get_lem : (id : String) (s : S) → st.get_task id s ≡ (found id ((view s).tasks id), s)
  pub update-result :
      (t : Task) (v : ℤ) (s : S)
      → st.in_transaction s ≡ true
      → (st.update_task t v s).0 ≡ checked t.id v ((view s).tasks t.id)
  pub update-view :
      (t : Task) (v : ℤ) (s : S)
      → st.in_transaction s ≡ true
      → view (st.update_task t v s).1
        ≡ written (checked t.id v ((view s).tasks t.id)) (set_task (normalize t)) (view s)
  pub update-open :
      (t : Task) (v : ℤ) (s : S)
      → st.in_transaction s ≡ true
      → st.in_transaction (st.update_task t v s).1 ≡ true
  pub update-IsPlain : (t : Task) (v : ℤ) (s : S) → IsPlain s → IsPlain (st.update_task t v s).1
  pub create-result :
      (t : Task) (s : S)
      → st.in_transaction s ≡ true
      → (st.create_task t s).0 ≡ absent t.id ((view s).tasks t.id)
  pub create-view :
      (t : Task) (s : S)
      → st.in_transaction s ≡ true
      → view (st.create_task t s).1
        ≡ written (absent t.id ((view s).tasks t.id)) (set_task (normalize t)) (view s)
  pub create-open :
      (t : Task) (s : S)
      → st.in_transaction s ≡ true
      → st.in_transaction (st.create_task t s).1 ≡ true
  pub create-IsPlain : (t : Task) (s : S) → IsPlain s → IsPlain (st.create_task t s).1
  pub history-result :
      (rs : List TransitionRecord) (s : S)
      → st.in_transaction s ≡ true
      → (st.append_history rs s).0 ≡ ok tt
  pub history-view :
      (rs : List TransitionRecord) (s : S)
      → st.in_transaction s ≡ true
      → view (st.append_history rs s).1 ≡ add_records rs (view s)
  pub history-open :
      (rs : List TransitionRecord) (s : S)
      → st.in_transaction s ≡ true
      → st.in_transaction (st.append_history rs s).1 ≡ true
  pub history-IsPlain :
      (rs : List TransitionRecord) (s : S) → IsPlain s → IsPlain (st.append_history rs s).1
  pub events-result :
      (es : List Event) (s : S) → st.in_transaction s ≡ true → (st.append_events es s).0 ≡ ok tt
  pub events-view :
      (es : List Event) (s : S)
      → st.in_transaction s ≡ true
      → view (st.append_events es s).1 ≡ add_events es (view s)
  pub events-IsPlain : (es : List Event) (s : S) → IsPlain s → IsPlain (st.append_events es s).1
