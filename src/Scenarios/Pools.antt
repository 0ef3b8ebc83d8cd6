-- ===== src/Scenarios/Pools.antt =====
-- A directory with one group, and the pools that name it.
use hmntsk.Prelude.{
  get, add_key, delete_key, arith, eq_iff, if◌then◌else◌, ◌==◌, ◌≡◌, refl, true, List, [], ◌∷◌,
  none, some, contains, sort_strings,
}
use hmntsk.Status.{reserved, error}
use hmntsk.Errors.{Error, group_resolution_error, ok, err, Formatter, message, ◌<>◌}
use hmntsk.Task.{Task, CandidatePool}
use hmntsk.Event.{Event}
use hmntsk.Record.{transition}
use hmntsk.Operation.{op_create, op_fault}
use hmntsk.Transitions.{activate, fault}
use hmntsk.Assignment.{
  Directory, shares_group, add_groups, add_named, delete_all, no_directory, is_eligible,
  resolve_candidates, assign,
}
use hmntsk.Assignment.Fixed.{
  new_static_assignment, static_directory, new_static_assignment-IsConsistent,
}
use hmntsk.Assignment.Eligibility.{IsConsistent, is_eligible-resolve_candidates}
use hmntsk.Assignment.Placement.{lands, assign-lands, assign-eligible, assign_unresolved, IsFaulted}
use hmntsk.Scenarios.{new_one}

-- Ann and Bob are the reviewers.
abbrev pub reviewers : Directory
reviewers = record {
  groups_of = λ a.
      ok (if a == "ann" then "reviewers" ∷ [] else if a == "bob" then "reviewers" ∷ [] else []);
  members_of = λ g. ok (if g == "reviewers" then "ann" ∷ "bob" ∷ [] else []);
}

abbrev pub but_bob : CandidatePool
but_bob = record { users = "cyn" ∷ []; groups = "reviewers" ∷ []; excluded = "bob" ∷ [] }

abbrev pub plain : Formatter
plain = record { quote = λ s. s; decimal = λ n. ""; items = λ xs. "" }

reviewers-IsConsistent : IsConsistent reviewers
unfolding contains
reviewers-IsConsistent = record {
  agrees = λ a g gs ms h h'. ground (
    arith,
    eq_iff a "ann",
    eq_iff "ann" a,
    eq_iff a "bob",
    eq_iff "bob" a,
    eq_iff g "reviewers",
    eq_iff "reviewers" g,
  );
}

resolves : resolve_candidates (some reviewers) but_bob ≡ ok ("ann" ∷ "cyn" ∷ [])
unfolding resolve_candidates add_groups add_named delete_all contains sort_strings delete_key
    add_key
resolves = refl

is_eligible-resolve_candidates_example : true ≡ contains ("ann" ∷ "cyn" ∷ []) "ann"
is_eligible-resolve_candidates_example =
    is_eligible-resolve_candidates reviewers but_bob "ann" reviewers-IsConsistent
      (unfold is_eligible shares_group contains in refl) resolves

assign-lands_example : lands (assign plain (some reviewers) none new_one 5000) ≡ true
assign-lands_example = assign-lands plain (some reviewers) none new_one 5000 refl

abbrev lone : Task
lone = record new_one { candidates = record { users = "ann" ∷ []; groups = []; excluded = [] } }

abbrev placed : Task × List Event
placed = transition lone op_create reserved "sys" "" 5000 (λ n. record n { assignee = "ann" })

places : assign plain none none lone 5000 ≡ ok placed
unfolding assign resolve_candidates add_groups add_named delete_all contains activate transition
    sort_strings add_key
places = refl

lone_resolves : resolve_candidates none lone.candidates ≡ ok ("ann" ∷ [])
unfolding resolve_candidates add_groups add_named delete_all contains sort_strings add_key
lone_resolves = refl

assign-eligible_example : contains ("ann" ∷ []) placed.0.assignee ≡ true
assign-eligible_example =
    assign-eligible plain none none lone 5000 refl lone_resolves places (unfold transition in refl)

-- A pool with a group, and nobody to ask about it.
abbrev unanswered : Task
unanswered = record new_one { candidates = but_bob }

abbrev no_answer : Error
no_answer = group_resolution_error "" ("reviewers" ∷ []) no_directory

unresolved : resolve_candidates none unanswered.candidates ≡ err no_answer
unfolding resolve_candidates add_groups add_named contains
unresolved = refl

abbrev faulted : Task × List Event
faulted =
    transition unanswered op_fault error ""
      ("candidate resolution failed: " <> message plain no_answer) 5000
      (λ n. record n { reason = "candidate resolution failed: " <> message plain no_answer })

faults_it : assign plain none none unanswered 5000 ≡ ok faulted
unfolding assign resolve_candidates add_groups add_named contains fault transition
faults_it = refl

assign_unresolved_example :
    IsFaulted
      ("candidate resolution failed: " <> message plain no_answer)
      (assign plain none none unanswered 5000)
assign_unresolved_example =
    assign_unresolved plain none none unanswered 5000 no_answer refl unresolved

new_static_assignment-IsConsistent_example : IsConsistent (
    static_directory
      (new_static_assignment (("reviewers", "ann" ∷ "bob" ∷ []) ∷ ("admins", "ann" ∷ []) ∷ [])))
new_static_assignment-IsConsistent_example =
    new_static_assignment-IsConsistent
      (("reviewers", "ann" ∷ "bob" ∷ []) ∷ ("admins", "ann" ∷ []) ∷ [])
      (unfold get in (refl, (refl, tt)))
