-- ===== src/Scenarios/Moves.antt =====
-- One task through the calls of transitions.go.
use hmntsk.Prelude.{◌≡◌, refl, ◌⊎◌, true, List, [], ◌∷◌, pos, inc64}
use hmntsk.Status.{ready, reserved, suspended, exited, unset, is_suspendable, can_transition}
use hmntsk.Operation.{op_claim, op_suspend, op_resume, op_cancel, op_escalate}
use hmntsk.Errors.{ok}
use hmntsk.Task.{Task, Time, normalize_time}
use hmntsk.Event.{Event}
use hmntsk.Record.{transition}
use hmntsk.Lifecycle.{Call, apply, run, operation_of, claims, starts, suspends, resumes, cancels}
use hmntsk.Lifecycle.Legality.{apply-legal, is_ok, is_ok-apply, admits}
use hmntsk.Lifecycle.Reports.{Moved, apply-Moved}
use hmntsk.Lifecycle.Frame.{Kept, apply-Kept}
use hmntsk.Lifecycle.Invariant.{IsWellFormed, apply-IsWellFormed, cancel-suspended}
use hmntsk.Lifecycle.Parking.{resume-suspend}
use hmntsk.Lifecycle.History.{Accounts, run-Accounts, run-IsWellFormed}
use hmntsk.Scenarios.{
  offered, held, parked, offered-IsWellFormed, held-IsWellFormed, parked-IsWellFormed,
}

apply-legal_example :
    (can_transition ready reserved ≡ true)
    ⊎ ((operation_of (claims "ann") ≡ op_escalate) × (reserved ≡ ready))
unfolding apply transition
apply-legal_example = apply-legal offered (claims "ann") 5000 refl

is_ok-apply_example : is_ok (apply held (starts "ann") 5000) ≡ admits held (starts "ann")
is_ok-apply_example = is_ok-apply held (starts "ann") 5000

abbrev claimed : Task × List Event
claimed = transition offered op_claim reserved "ann" "" 5000 (λ n. record n { assignee = "ann" })

claim_runs : apply offered (claims "ann") 5000 ≡ ok claimed
unfolding apply transition
claim_runs = refl

apply-Moved_example : Moved offered claimed
apply-Moved_example = apply-Moved offered (claims "ann") 5000 claim_runs

apply-Kept_example : Kept offered (claims "ann") claimed.0
apply-Kept_example = apply-Kept offered (claims "ann") 5000 claim_runs

apply-IsWellFormed_example : IsWellFormed claimed.0
apply-IsWellFormed_example =
    apply-IsWellFormed offered (claims "ann") 5000 offered-IsWellFormed claim_runs

abbrev parked_then : Task × List Event
parked_then =
    transition held op_suspend suspended "ann" "lunch" 5000
      (λ n. record n { suspended_from = reserved })

suspend_runs : apply held (suspends "ann" "lunch") 5000 ≡ ok parked_then
unfolding apply transition
suspend_runs = refl

abbrev back : Task × List Event
back =
    transition parked_then.0 op_resume reserved "ann" "" 7000
      (λ n. record n { suspended_from = unset })

resume_runs : apply parked_then.0 (resumes "ann" "") 7000 ≡ ok back
unfolding apply transition
resume_runs = refl

resume-suspend_example :
    back.0 ≡ record held { version = inc64 (inc64 held.version); updated_at = normalize_time 7000 }
resume-suspend_example =
    resume-suspend held "ann" "ann" "lunch" "" 5000 7000 held-IsWellFormed suspend_runs resume_runs

abbrev cancelled : Task × List Event
cancelled = transition parked op_cancel exited "" "stop" 5000 (λ n. record n { reason = "stop" })

cancel_runs : apply parked (cancels "" "stop") 5000 ≡ ok cancelled
unfolding apply transition
cancel_runs = refl

cancel-suspended_example :
    (cancelled.0.status ≡ exited) × (is_suspendable cancelled.0.suspended_from ≡ true)
cancel-suspended_example =
    cancel-suspended parked "" "stop" 5000 parked-IsWellFormed refl cancel_runs

abbrev life : List (Call × Time)
life = (claims "ann", 5000) ∷ (claims "bob", 6000) ∷ (starts "ann", 7000) ∷ []

run-Accounts_example : Accounts ready (pos 1) (run (offered, []) life)
run-Accounts_example = run-Accounts ready (pos 1) life offered [] (refl, refl)

run-IsWellFormed_example : IsWellFormed (run (offered, []) life).0
run-IsWellFormed_example = run-IsWellFormed life offered [] offered-IsWellFormed
