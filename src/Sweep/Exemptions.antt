-- ===== src/Sweep/Exemptions.antt =====
-- sweep.go: a task that the sweep does not exempt, and the escalation that follows.
use hmntsk.Prelude.{
  refl, if◌then◌else◌, ◌∙◌, ◌||◌, ◌==◌, String, ◌≡◌, true, false, not, ◌&&◌, Option, arith, Bool,
}
use hmntsk.Status.{suspended, ready, reserved, created, in_progress, same, valid, is_terminal}
use hmntsk.Task.{Task, Time, EscalationPolicy}
use hmntsk.Transitions.{supersedes}
use hmntsk.Lifecycle.{escalates, apply}
use hmntsk.Lifecycle.Legality.{is_ok, is_ok-apply}
use hmntsk.Sweep.{exemption}

-- No reason was given for the first two cases.
neither_reason :
    (a b : Bool) (rest : String)
    → ((if a then "the task is already closed" else if b then "the task is suspended" else rest)
        == "")
      ≡ true
    → (a ≡ false) × (b ≡ false)
neither_reason true b rest h = cc
neither_reason false true rest h = cc
neither_reason false false rest h = (refl, refl)

open_and_active :
    (t : Task) (policy : Option EscalationPolicy)
    → (exemption t policy == "") ≡ true
    → (is_terminal t.status ≡ false) × (same t.status suspended ≡ false)
unfolding exemption
open_and_active t policy h = neither_reason (is_terminal t.status) (same t.status suspended) _ h

movable :
    (t : Task) (policy : Option EscalationPolicy)
    → valid t.status ≡ true
    → same created t.status ≡ false
    → is_terminal t.status ≡ false
    → same t.status suspended ≡ false
    → (same ready t.status
        || same reserved t.status
        || (same in_progress t.status && not (supersedes policy)))
      ≡ not (same in_progress t.status && supersedes policy)
unfolding valid is_terminal
movable t policy v n live active = ground arith

-- Once a task has left CREATED, its escalation is accepted if the sweep does not exempt it, but for
-- a superseding policy on a task that is in progress.
pub exemption-escalates :
    (t : Task) (actor comment : String) (policy : Option EscalationPolicy) (now : Time)
    → valid t.status ≡ true
    → same created t.status ≡ false
    → (exemption t policy == "") ≡ true
    → is_ok (apply t (escalates actor policy comment) now)
      ≡ not (same in_progress t.status && supersedes policy)
exemption-escalates t actor comment policy now v n h =
    let (live, active) = open_and_active t policy h in
    is_ok-apply t (escalates actor policy comment) now ∙ movable t policy v n live active
