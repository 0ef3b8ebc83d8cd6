-- ===== src/Lifecycle/History.antt =====
-- The history that a sequence of calls of transitions.go leaves, as service.go records it.
use hmntsk.Prelude.{◌≡◌, refl, sym, ap, subst, ◌∙◌, ◌⊎◌, true, List, [], ◌∷◌, ◌++◌, ℤ, inc64, arith}
use hmntsk.Status.{Status, can_transition, is_suspendable, is_terminal}
use hmntsk.Operation.{op_escalate}
use hmntsk.Errors.{ok, err, illegal_transition}
use hmntsk.Task.{Task, Time}
use hmntsk.Event.{Event, TransitionRecord, records_of}
use hmntsk.Record.{Outcome, transition}
use hmntsk.Lifecycle.{Call, apply, after, run, activates}
use hmntsk.Lifecycle.Invariant.{IsWellFormed, apply-IsWellFormed}
use hmntsk.Lifecycle.Effect.{effect, apply-effect}
use hmntsk.Lifecycle.Legality.{admits, is_ok, is_ok-apply, refused_as, apply-terminal}

-- A row of the table, or an escalation in place.
abbrev pub IsLegal : TransitionRecord → Type 0
IsLegal r = (can_transition r.from r.to ≡ true) ⊎ ((r.operation ≡ op_escalate) × (r.to ≡ r.from))

-- The records lead from one state and version to another: each starts where the one before it
-- ended, makes a legal move, and has the next version.
abbrev pub Linked : Status → ℤ → List TransitionRecord → Status → ℤ → Type 0
Linked s v [] s' v' = (s ≡ s') × (v ≡ v')
Linked s v (r ∷ rs) s' v' =
    (r.from ≡ s) × IsLegal r × (r.version ≡ inc64 v) × Linked r.to r.version rs s' v'

pub Linked-append :
    (s : Status) (v : ℤ) (rs : List TransitionRecord) (s' s'' : Status) (v' v'' : ℤ)
    (rs' : List TransitionRecord)
    → Linked s v rs s' v'
    → Linked s' v' rs' s'' v''
    → Linked s v (rs ++ rs') s'' v''
Linked-append s v [] s' s'' v' v'' rs' (p, q) l =
    subst (λ x. Linked x v rs' s'' v'') (sym p) (subst (λ y. Linked s' y rs' s'' v'') (sym q) l)
Linked-append s v (r ∷ rs) s' s'' v' v'' rs' (p, legal, q, rest) l =
    (p, legal, q, Linked-append r.to r.version rs s' s'' v' v'' rs' rest l)

effect-Linked :
    (t : Task) (c : Call) (now : Time)
    → admits t c ≡ true
    → Linked t.status t.version
        (records_of (effect t c now).1)
        (effect t c now).0.status
        (effect t c now).0.version
unfolding effect transition can_transition is_suspendable
effect-Linked t (activates actor assignee) now a = ground arith
effect-Linked t _ now a = ground arith

pub apply-Linked :
    (t : Task) (c : Call) (now : Time) (r : Task × List Event)
    → apply t c now ≡ ok r
    → Linked t.status t.version (records_of r.1) r.0.status r.0.version
apply-Linked t c now r h =
    subst
      (λ (r : Task × List Event). Linked t.status t.version (records_of r.1) r.0.status r.0.version)
      (apply-effect t c now h) (effect-Linked t c now (sym (is_ok-apply t c now) ∙ ap is_ok h))

-- A task beside its history.
abbrev pub State : Type 0
State = Task × List TransitionRecord

-- Each task keeps its identity, and its history leads from creation to where it stands.
abbrev pub Accounts : Status → ℤ → State → Type 0
Accounts s v (t, log) = Linked s v log t.status t.version

after-Accounts :
    (s : Status) (v : ℤ) (t : Task) (log : List TransitionRecord) (c : Call) (now : Time)
    (o : Outcome)
    → apply t c now ≡ o
    → Accounts s v (t, log)
    → Accounts s v (after (t, log) o)
after-Accounts s v t log c now (ok r) h l =
    Linked-append s v log t.status r.0.status t.version r.0.version (records_of r.1) l
      (apply-Linked t c now r h)
after-Accounts s v t log c now (err e) h l = l

-- If the history so far does, then whatever calls are made, accepted or refused, the history of a
-- task leads step by step from
-- where it started to the task's state and version: each record starts where the one before it
-- ended, makes a legal move and has the next version.
pub run-Accounts :
    (s : Status) (v : ℤ) (cs : List (Call × Time)) (t : Task) (log : List TransitionRecord)
    → Linked s v log t.status t.version
    → Accounts s v (run (t, log) cs)
unfolding run
run-Accounts s v [] t log l = l
run-Accounts s v ((c, now) ∷ cs) t log l =
    let next = after (t, log) (apply t c now) in
    run-Accounts s v cs next.0 next.1 (after-Accounts s v t log c now (apply t c now) refl l)

after-IsWellFormed :
    (t : Task) (log : List TransitionRecord) (c : Call) (now : Time) (o : Outcome)
    → apply t c now ≡ o
    → IsWellFormed t
    → IsWellFormed (after (t, log) o).0
after-IsWellFormed t log c now (ok r) h w = apply-IsWellFormed t c now w h
after-IsWellFormed t log c now (err e) h w = w

-- A well-formed task stays well-formed, whatever calls are made.
pub run-IsWellFormed :
    (cs : List (Call × Time)) (t : Task) (log : List TransitionRecord)
    → IsWellFormed t
    → IsWellFormed (run (t, log) cs).0
unfolding run
run-IsWellFormed [] t log w = w
run-IsWellFormed ((c, now) ∷ cs) t log w =
    let next = after (t, log) (apply t c now) in
    run-IsWellFormed cs next.0 next.1 (after-IsWellFormed t log c now (apply t c now) refl w)

after-refused : (s : State) (o : Outcome) → refused_as illegal_transition o ≡ true → after s o ≡ s
after-refused s (ok r) h = cc
after-refused s (err e) h = refl

-- Once a task is closed, no sequence of calls changes it or adds to its history.
pub run-terminal :
    (cs : List (Call × Time)) (s : State) → is_terminal s.0.status ≡ true → run s cs ≡ s
unfolding run
run-terminal [] s h = refl
run-terminal ((c, now) ∷ cs) s h =
    rw (after-refused s (apply s.0 c now) (apply-terminal s.0 c now h)) (run-terminal cs s h)
