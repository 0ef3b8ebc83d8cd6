-- ===== src/Lifecycle/Frame.antt =====
-- What the calls of transitions.go leave alone, who holds the task afterwards, and how the
-- candidate pool grows.
use hmntsk.Prelude.{
  String, ◌==◌, ◌≡◌, subst, ◌||◌, Option, none, List, [], ◌∷◌, ◌++◌, contains, contains-append,
  contains_of_eq, arith, if◌then◌else◌, Bool-cases, inl, inr,
}
use hmntsk.Errors.{ok}
use hmntsk.Task.{Task, Time, EscalationPolicy}
use hmntsk.Event.{Event}
use hmntsk.Record.{transition}
use hmntsk.Transitions.{append_missing, widened}
use hmntsk.Lifecycle.{Call, apply, activates, claims, releases, delegates, escalates}
use hmntsk.Lifecycle.Effect.{effect, apply-effect}

-- Two tasks agree on what a task is given when it is created, and on its saved progress.
pub record SameOrigin (t t' : Task) : Type 0 where
  pub same_id : t'.id ≡ t.id
  pub same_type : t'.task_type ≡ t.task_type
  pub same_priority : t'.priority ≡ t.priority
  pub same_correlation : t'.correlation ≡ t.correlation
  pub same_callback : t'.callback ≡ t.callback
  pub same_policy : t'.escalation ≡ t.escalation
  pub same_input : t'.input ≡ t.input
  pub same_progress : t'.progress ≡ t.progress
  pub same_creator : t'.created_by ≡ t.created_by
  pub same_creation : t'.created_at ≡ t.created_at
  pub same_deadline : t'.due_at ≡ t.due_at

-- Who holds the task after a call.
abbrev pub holder_after : Task → Call → String
holder_after t (activates actor assignee) = assignee
holder_after t (claims actor) = actor
holder_after t (releases actor comment) = ""
holder_after t (delegates actor target comment) = target
holder_after t _ = t.assignee

-- The policy by which a call widens the pool.
abbrev pub policy_of : Call → Option EscalationPolicy
policy_of (escalates actor policy comment) = policy
policy_of _ = none

abbrev pub Kept : Task → Call → Task → Type 0
Kept t c t' =
    SameOrigin t t'
    × (t'.assignee ≡ holder_after t c)
    × (t'.candidates ≡ widened t.candidates (policy_of c))

effect-Kept : (t : Task) (c : Call) (now : Time) → Kept t c (effect t c now).0
unfolding effect transition widened
effect-Kept t (activates actor assignee) now = ground arith
effect-Kept t _ now = ground arith

-- An accepted call leaves the task's origin and progress alone. Its holder changes only by
-- activation, claim, release and delegation, and its pool only by the policy of an escalation.
pub apply-Kept :
    (t : Task) (c : Call) (now : Time) {r : Task × List Event} → apply t c now ≡ ok r → Kept t c r.0
apply-Kept t c now h =
    subst (λ (r : Task × List Event). Kept t c r.0) (apply-effect t c now h) (effect-Kept t c now)

contains-snoc :
    (base : List String) (x a : String)
    → contains (if contains base x then base else base ++ x ∷ []) a ≡ (contains base a || x == a)
unfolding contains
contains-snoc base x a = elim (Bool-cases (contains base x)) [
  | inl old ↦ rw old (ground (arith, contains_of_eq base x a old))
  | inr new ↦ rw new (ground (arith, contains-append base (x ∷ []) a))
]

-- The appended list names exactly the actors of both.
pub contains-append_missing :
    (base extra : List String) (a : String)
    → contains (append_missing base extra) a ≡ (contains base a || contains extra a)
unfolding append_missing contains
contains-append_missing base [] a = ground arith
contains-append_missing base (x ∷ xs) a = ground (
  arith,
  contains-append_missing (if contains base x then base else base ++ x ∷ []) xs a,
  contains-snoc base x a,
)
