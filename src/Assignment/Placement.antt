-- ===== src/Assignment/Placement.antt =====
-- assignment.go: where `Assign` puts a newly created task.
use hmntsk.Prelude.{
  String, ◌≡◌, refl, Bool, true, false, List, [], ◌∷◌, Option, none, contains, arith, eq_refl,
  eq_iff,
}
use hmntsk.Status.{Status, created, ready, reserved, error, among}
use hmntsk.Errors.{Error, ok, err, Formatter, message, ◌<>◌}
use hmntsk.Task.{Task, Time}
use hmntsk.Event.{Event}
use hmntsk.Record.{Outcome, transition}
use hmntsk.Transitions.{fault, activate}
use hmntsk.Assignment.{Directory, Strategy, resolve_candidates, single_candidate, assign}
use hmntsk.Assignment.Eligibility.{resolve_candidates-named}

abbrev pub lands : Outcome → Bool
lands (ok r) = among (ready ∷ reserved ∷ error ∷ []) r.0.status
lands (err e) = false

-- A created task always leaves CREATED, whatever the directory and the strategy answer: it becomes
-- READY, RESERVED or ERROR.
pub assign-lands :
    (f : Formatter) (d : Option Directory) (s : Option Strategy) (t : Task) (now : Time)
    → t.status ≡ created
    → lands (assign f d s t now) ≡ true
unfolding assign fault activate transition
assign-lands f d s t now h = ground arith

-- A created task whose pool resolves is only ever reserved for an actor whom it resolves to.
pub assign-eligible :
    (f : Formatter) (d : Option Directory) (s : Option Strategy) (t : Task) (now : Time)
    {es : List String} {r : Task × List Event}
    → t.status ≡ created
    → resolve_candidates d t.candidates ≡ ok es
    → assign f d s t now ≡ ok r
    → r.0.status ≡ reserved
    → contains es r.0.assignee ≡ true
unfolding assign fault activate transition
assign-eligible f d s t now h e a p = ground arith

-- The state that the default strategy leads to.
abbrev pub default_status : List String → Status
default_status [] = error
default_status (a ∷ []) = reserved
default_status _ = ready

-- With no strategy of the host's, a created task that nobody holds and whose pool resolves is
-- reserved for its only candidate, left READY
-- and unheld if there are several, and faulted if there are none.
pub assign_default :
    (f : Formatter) (d : Option Directory) (t : Task) (now : Time) (es : List String)
    {r : Task × List Event}
    → t.status ≡ created
    → t.assignee ≡ ""
    → resolve_candidates d t.candidates ≡ ok es
    → assign f d none t now ≡ ok r
    → (r.0.status ≡ default_status es) × (r.0.assignee ≡ single_candidate es)
unfolding assign fault activate transition contains
assign_default f d t now [] h u e a = ground arith
assign_default f d t now (x ∷ []) h u e a =
    ground (arith, resolve_candidates-named d t.candidates e, eq_refl x, eq_iff x "", u)
assign_default f d t now (x ∷ y ∷ zs) h u e a = ground arith

unresolved_faults :
    (f : Formatter) (d : Option Directory) (s : Option Strategy) (t : Task) (now : Time) {e : Error}
    {r : Task × List Event}
    → t.status ≡ created
    → resolve_candidates d t.candidates ≡ err e
    → assign f d s t now ≡ ok r
    → (r.0.status ≡ error) × (r.0.reason ≡ "candidate resolution failed: " <> message f e)
unfolding assign fault activate transition
unresolved_faults f d s t now h e a = ground arith

-- A task in ERROR for the reason, and no error of the call.
abbrev pub IsFaulted : String → Outcome → Type 0
IsFaulted reason (ok r) = (r.0.status ≡ error) × (r.0.reason ≡ reason)
IsFaulted reason (err e) = ⊥

-- A created task whose pool cannot be resolved is faulted: the call succeeds, and what it returns is
-- in ERROR, with the resolver's error as the reason.
pub assign_unresolved :
    (f : Formatter) (d : Option Directory) (s : Option Strategy) (t : Task) (now : Time) (e : Error)
    → t.status ≡ created
    → resolve_candidates d t.candidates ≡ err e
    → IsFaulted ("candidate resolution failed: " <> message f e) (assign f d s t now)
assign_unresolved f d s t now e h u =
    by_outcome (assign f d s t now) refl (assign-lands f d s t now h)
  where
    by_outcome :
        (o : Outcome)
        → assign f d s t now ≡ o
        → lands o ≡ true
        → IsFaulted ("candidate resolution failed: " <> message f e) o
    by_outcome (ok r) a l = unresolved_faults f d s t now h u a
    by_outcome (err x) a l = cc
