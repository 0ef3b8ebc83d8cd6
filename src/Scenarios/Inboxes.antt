-- ===== src/Scenarios/Inboxes.antt =====
-- Queries over one task, and a sweep of it.
use hmntsk.Prelude.{
  ℕ, ◌==◌, ◌≡◌, refl, true, ◌&&◌, not, [], ◌∷◌, some, contains, get, if◌then◌else◌, Map,
  sort_strings, put,
}
use hmntsk.Errors.{ok, Result}
use hmntsk.Task.{Task}
use hmntsk.Assignment.{is_eligible, shares_group}
use hmntsk.Query.{
  Query, ResolvedQuery, empty_query, count, count_buckets, count_matching, resolve_query,
  matches_candidate, count_each, validate_all, validate, matches_query, cached, remember,
  resolve_groups, groups_asked,
}
use hmntsk.Query.Buckets.{count_buckets-count}
use hmntsk.Query.Inbox.{matches_candidate-resolve_query}
use hmntsk.Scenarios.{offered}
use hmntsk.Scenarios.Pools.{reviewers, plain, but_bob}

abbrev open_work : Task
open_work = record offered { candidates = but_bob; due_at = some 4000 }

abbrev for_ann : Query
for_ann = record empty_query { candidate = "ann" }

abbrev badges : Map Query
badges = ("mine", for_ann) ∷ ("all", empty_query) ∷ []

abbrev totals : Map ℕ
totals = ("all", 1) ∷ ("mine", 1) ∷ []

abbrev in_store : ResolvedQuery → Result ℕ
in_store r = ok (count_matching (open_work ∷ []) r)

counted : count_buckets plain (some reviewers) in_store badges ≡ ok totals
unfolding count_buckets validate_all count_each resolve_query validate cached get remember
    resolve_groups groups_asked count_matching matches_query contains shares_group put sort_strings
counted = refl

count_buckets-count_example :
    (c : ℕ) × (count plain (some reviewers) in_store for_ann ≡ ok c) × (get totals "mine" ≡ some c)
unfolding get
count_buckets-count_example =
    count_buckets-count plain (some reviewers) in_store badges "mine" for_ann counted refl

abbrev resolved : ResolvedQuery
resolved = record { query = for_ann; candidate_groups = "reviewers" ∷ [] }

matches_candidate-resolve_query_example : matches_candidate open_work resolved ≡ (
    if open_work.assignee == ""
    then true
    else (open_work.assignee == "ann") && not (contains open_work.candidates.excluded "ann"))
matches_candidate-resolve_query_example =
    matches_candidate-resolve_query plain reviewers for_ann open_work refl
      (unfold resolve_query validate cached remember resolve_groups groups_asked in refl)
      (unfold is_eligible contains shares_group in refl)
