-- ===== src/Scenarios/Pages.antt =====
-- Two tasks that are asked for one at a time.
use hmntsk.Prelude.{
  ◌<◌, ◌==◌, ◌≡◌, refl, List, [], ◌∷◌, none, some, pos, arith, length, if◌then◌else◌,
}
use hmntsk.Errors.{ok, Formatter}
use hmntsk.Task.{Task}
use hmntsk.Prelude.Ranking.{keep, sort_by, insert_by}
use hmntsk.Query.{
  ResolvedQuery, order_priority, validate, empty_query, matches_query, matches_candidate,
}
use hmntsk.Query.Paging.{Codec, position_of, compare_positions}
use hmntsk.Query.Paging.Pages.{all_matched}
use hmntsk.Query.Paging.Collecting.{cursor_at, IsResumable, collect, collect-all_matched}
use hmntsk.Scenarios.{offered, held}

abbrev other : Task
other = record held { id = "t2"; priority = pos 2 }

abbrev one_by_one : ResolvedQuery
one_by_one = record {
  query = record empty_query { order_by = order_priority; limit = pos 1 };
  candidate_groups = [];
}

abbrev both : List Task
both = offered ∷ other ∷ []

-- A store's encoding, on the two cursors that it issues here.
abbrev codec : Codec
codec = record {
  encode = λ k. k.after.id;
  decode = λ s.
      if s == "t1"
      then some (cursor_at one_by_one.query offered)
      else if s == "t2"
      then some (cursor_at one_by_one.query other)
      else none;
}

abbrev quoted : Formatter
quoted = record { quote = λ s. s; decimal = λ n. ""; items = λ xs. "" }

offered-IsResumable : IsResumable codec one_by_one.query offered
unfolding position_of
offered-IsResumable = record { named = refl; given = refl; decodes = refl }

other-IsResumable : IsResumable codec one_by_one.query other
unfolding position_of
other-IsResumable = record { named = refl; given = refl; decodes = refl }

supported : validate quoted one_by_one.query ≡ ok tt
unfolding validate
supported = refl

few : length (all_matched one_by_one both) < 3
unfolding keep sort_by insert_by matches_query matches_candidate compare_positions position_of
few = omega arith

collect-all_matched_example :
    collect quoted codec both one_by_one 3 "" ≡ ok (all_matched one_by_one both)
collect-all_matched_example =
    collect-all_matched quoted codec one_by_one both 3 supported ((refl, tt), (tt, tt))
      (offered-IsResumable, (other-IsResumable, tt)) few
