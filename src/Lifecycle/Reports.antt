-- ===== src/Lifecycle/Reports.antt =====
-- The version, the event and the record that an accepted call of transitions.go leaves behind.
use hmntsk.Prelude.{◌≡◌, subst, List, [], ◌∷◌, inc64, arith}
use hmntsk.Errors.{ok}
use hmntsk.Task.{Task, Time}
use hmntsk.Event.{Event}
use hmntsk.Record.{transition}
use hmntsk.Lifecycle.{Call, apply, activates}
use hmntsk.Lifecycle.Effect.{effect, apply-effect}

-- The event tells the new state and carries the record of the move.
pub record ReportsMove (t t' : Task) (e : Event) : Type 0 where
  pub status_new : e.status ≡ t'.status
  pub version_new : e.version ≡ t'.version
  pub holder_new : e.assignee ≡ t'.assignee
  pub pool_new : e.candidates ≡ t'.candidates
  pub from_old : e.transition.from ≡ t.status
  pub to_new : e.transition.to ≡ t'.status
  pub version_kept : e.transition.version ≡ t'.version
  pub task_kept : e.transition.task_id ≡ t.id
  pub same_time : e.occurred_at ≡ t'.updated_at

abbrev pub Reports : Task → Task → List Event → Type 0
Reports t t' (e ∷ []) = ReportsMove t t' e
Reports t t' _ = ⊥

-- The version is the next one, and there is one event, which reports the move.
abbrev pub Moved : Task → Task × List Event → Type 0
Moved t (t', es) = (t'.version ≡ inc64 t.version) × Reports t t' es

effect-Moved : (t : Task) (c : Call) (now : Time) → Moved t (effect t c now)
unfolding effect transition
effect-Moved t (activates actor assignee) now = ground arith
effect-Moved t _ now = ground arith

-- An accepted call raises the version by one and produces exactly one event. The event has the new
-- task's status, version, holder, pool and time, and its record goes from the old state to the new.
pub apply-Moved :
    (t : Task) (c : Call) (now : Time) {r : Task × List Event} → apply t c now ≡ ok r → Moved t r
apply-Moved t c now h = subst (Moved t) (apply-effect t c now h) (effect-Moved t c now)
