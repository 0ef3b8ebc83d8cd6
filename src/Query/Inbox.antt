-- ===== src/Query/Inbox.antt =====
-- The candidate filter of memstore/memstore.go against IsEligible of assignment.go.
use hmntsk.Prelude.{
  inl, inr, [], ◌∷◌, refl, String, ◌==◌, ◌≡◌, Bool, true, false, not, ◌&&◌, List, none, some,
  contains, is_nil, arith, if◌then◌else◌,
}
use hmntsk.Errors.{ok, Result-cases, Formatter}
use hmntsk.Task.{Task}
use hmntsk.Assignment.{Directory, is_eligible}
use hmntsk.Assignment.Eligibility.{shares_group-nil}
use hmntsk.Query.{
  groups_asked, resolve_groups, cached, remember, Query, ResolvedQuery, resolve_query,
  matches_candidate,
}

is_nil_cases : (xs : List String) → is_nil xs ≡ true → xs ≡ []
is_nil_cases [] h = refl
is_nil_cases (x ∷ xs) h = cc

-- A query that is resolved for a candidate finds an unheld task exactly if the candidate is
-- eligible for it, when the directory answers both, and a held task exactly if the candidate
-- holds it and is not excluded.
pub matches_candidate-resolve_query :
    (f : Formatter) (d : Directory) (q : Query) (t : Task) {r : ResolvedQuery} {b : Bool}
    → (q.candidate == "") ≡ false
    → resolve_query f (some d) q none ≡ ok (r, none)
    → is_eligible (some d) t.candidates q.candidate ≡ ok b
    → matches_candidate t r ≡ (
        if t.assignee == ""
        then b
        else (t.assignee == q.candidate) && not (contains t.candidates.excluded q.candidate))
unfolding resolve_query matches_candidate is_eligible groups_asked resolve_groups cached remember
matches_candidate-resolve_query f d q t n h e = elim (Result-cases (d.groups_of q.candidate)) [
  | inl (gs, a) ↦ ground (arith, shares_group-nil gs, is_nil_cases t.candidates.groups)
  | inr (x, a) ↦ ground arith
]
