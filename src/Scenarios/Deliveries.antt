-- ===== src/Scenarios/Deliveries.antt =====
-- An event in the outbox, and a relay with two sinks of which one is down.
use hmntsk.Prelude.{
  inc64, map, ◌||◌, String, ◌≡◌, refl, true, false, List, [], ◌∷◌, none, some, get, put, pos, arith,
  contains, map, ◌||◌,
}
use hmntsk.Status.{ready}
use hmntsk.Operation.{op_create, event_created}
use hmntsk.Errors.{ok, foreign, Formatter}
use hmntsk.Event.{Event}
use hmntsk.Task.{normalize_time}
use hmntsk.Memstore.{
  close_scope, committed_with, merge, apply_edits, replace_row, new_tx, OutboxRow, World, Data, Tx,
  commit, do_tx,
}
use hmntsk.Outbox.{
  edit_outbox, mark_accepted, edit_found, stage_row, holds_row, has_accepted, accepted_row, pending,
  outbox_snapshot, edit_rows, sort_rows, insert_row, lease_due, edit_all, OutboxClaim, find_row,
  delivered, dead_lettered, holds_row, row_due, lease_row, claim_due_events, release_row,
}
use hmntsk.Outbox.Leased.{IsUnique}
use hmntsk.Outbox.Claims.{IsClaim, claim_due_events-IsClaim, claim_due_events-disjoint}
use hmntsk.Outbox.Settled.{IsTidy}
use hmntsk.Relay.Counts.{accounted, relay_pass-accounted}
use hmntsk.Relay.{settle_all, start_pass, Pass, decide, relay_pass, claim_of}
use hmntsk.Sink.{
  offer_all, offer, take_outcome, Relay, Sink, delivered_outcome, retryable, fan_out, name_sinks,
  name_each,
}
use hmntsk.Relay.Attempts.{
  attempt_row, Turn, attempt_rows, attempt_rows-ends, attempt_rows-all_taken,
}
use hmntsk.Relay.FanOut.{replaced, fan_out-replaced}
use hmntsk.Relay.Passes.{Passed, relay_pass-Passed}
use hmntsk.Relay.Published.{all_taken}
use hmntsk.Relay.Verdicts.{takers, open_sinks, settled_row, settled_row-accepted}
use hmntsk.Scenarios.{two_users}

abbrev readied : Event
readied = record {
  id = "e1";
  event_type = event_created;
  task_id = "t1";
  task_type = "review";
  status = ready;
  version = pos 2;
  actor = "sys";
  assignee = "";
  candidates = two_users;
  previous_assignee = "";
  created_by = "sys";
  occurred_at = 1000;
  correlation = record { owner_type = ""; owner_ref = ""; activity_key = ""; extra = [] };
  callback = none;
  transition = record {
    task_id = "t1";
    version = pos 2;
    operation = op_create;
    from = ready;
    to = ready;
    actor = "sys";
    comment = "";
    at = 1000;
  };
  reason = "";
  output = "";
}

abbrev fresh : OutboxRow
fresh = record {
  event = readied;
  attempts = pos 0;
  next_attempt_at = some 1000;
  last_error = "";
  accepted = [];
  published_at = none;
  locked_by = "";
  locked_until = none;
}

abbrev half_taken : OutboxRow
half_taken = record fresh { accepted = "bus" ∷ []; attempts = pos 1 }

abbrev up : Sink
up = record { name = "bus"; deliver = λ a. record { status = delivered_outcome; cause = none } }

abbrev down : Sink
down = record {
  name = "hook";
  deliver = λ a. record { status = retryable; cause = some (foreign "refused") };
}

abbrev plain : Formatter
plain = record { quote = λ s. s; decimal = λ n. ""; items = λ xs. "" }

abbrev two_sinks : Relay
two_sinks = record {
  sinks = up ∷ down ∷ [];
  owner = "relay-1";
  lease = pos 60000;
  batch = pos 10;
  max_attempts = pos 2;
  backoff = 1000;
  ceiling = 8000;
  jitter = λ d. d;
  mint = λ n. ok "d";
  formatter = plain;
}

abbrev one_sink : Relay
one_sink = record two_sinks { sinks = up ∷ [] }

abbrev kept : Data
kept = record { tasks = []; history = λ k. []; outbox = fresh ∷ [] }

abbrev open_store : World
open_store = record { committed = kept; tx = none }

kept-IsUnique : IsUnique kept.outbox
unfolding find_row
kept-IsUnique = (refl, tt)

abbrev turn : Turn
turn = record { now = 9000; tallies = []; minted = 0 }

relay_pass-Passed_example :
    let after = (relay_pass two_sinks (λ k. false) 9000 open_store).1 in
    (ls : List OutboxRow) × ((do_tx false
        (claim_due_events (claim_of two_sinks (normalize_time 9000)))
        open_store).0
      ≡ ok ls)
    × (after.tx ≡ none)
    × ((j : String)
        → Passed two_sinks
            (normalize_time 9000)
            (find_row kept.outbox j)
            (find_row ls j)
            (find_row after.committed.outbox j))
relay_pass-Passed_example = relay_pass-Passed two_sinks 9000 open_store refl kept-IsUnique

attempt_rows-ends_example :
    let row = attempt_rows two_sinks (turn ∷ turn ∷ []) fresh in
    (delivered row || dead_lettered row) ≡ true
attempt_rows-ends_example =
    attempt_rows-ends two_sinks (turn ∷ turn ∷ []) fresh 0 2 refl refl (omega arith) (omega arith)
      (omega arith)

one_name : name_sinks one_sink.sinks ≡ ok ("bus" ∷ [])
unfolding name_sinks name_each contains
one_name = refl

two_names : name_sinks two_sinks.sinks ≡ ok ("bus" ∷ "hook" ∷ [])
unfolding name_sinks name_each contains
two_names = refl

bus_delivers : delivered (attempt_rows one_sink (turn ∷ []) fresh) ≡ true
unfolding delivered attempt_rows attempt_row settled_row decide fan_out offer_all offer take_outcome
    has_accepted contains accepted_row release_row normalize_time pending inc64 get put
bus_delivers = refl

attempt_rows-all_taken_example :
    all_taken (attempt_rows one_sink (turn ∷ []) fresh).accepted one_sink.sinks ≡ true
attempt_rows-all_taken_example =
    attempt_rows-all_taken one_sink (turn ∷ []) fresh ("bus" ∷ []) one_name
      (unfold delivered in refl) bus_delivers

settled_row-accepted_example :
    (settled_row (decide two_sinks fresh 9000 (fan_out two_sinks fresh [] 0).fan) fresh).accepted
    ≡ takers two_sinks fresh (open_sinks fresh two_sinks.sinks) 0
settled_row-accepted_example = settled_row-accepted two_sinks fresh 9000 [] 0

fan_out-replaced_example :
    fan_out
      (record two_sinks { sinks = map (replaced half_taken down.deliver) two_sinks.sinks })
      half_taken
      []
      0
    ≡ fan_out two_sinks half_taken [] 0
fan_out-replaced_example = fan_out-replaced two_sinks half_taken down.deliver [] 0

abbrev claim_one : OutboxClaim
claim_one = record { now = 9000; owner = "relay-1"; duration = pos 60000; limit = pos 10 }

abbrev claim_two : OutboxClaim
claim_two = record claim_one { owner = "relay-2"; now = 12000 }

claim_due_events-IsClaim_example :
    let done = do_tx false (claim_due_events claim_one) open_store in
    (ls : List OutboxRow) × (done.0 ≡ ok ls) × IsClaim claim_one kept ls done.1
claim_due_events-IsClaim_example = claim_due_events-IsClaim claim_one open_store refl kept-IsUnique

abbrev leased_fresh : OutboxRow
leased_fresh = record fresh { locked_by = "relay-1"; locked_until = some 69000 }

first_claims : (do_tx false (claim_due_events claim_one) open_store).0 ≡ ok (leased_fresh ∷ [])
unfolding do_tx close_scope committed_with commit merge apply_edits replace_row new_tx
    claim_due_events outbox_snapshot edit_rows sort_rows insert_row lease_due lease_row row_due
    edit_all normalize_time find_row get put
first_claims = refl

second_claims_none :
    (do_tx false
      (claim_due_events claim_two)
      (do_tx false (claim_due_events claim_one) open_store).1).0
    ≡ ok []
unfolding do_tx close_scope committed_with commit merge apply_edits replace_row new_tx
    claim_due_events outbox_snapshot edit_rows sort_rows insert_row lease_due lease_row row_due
    edit_all normalize_time find_row get put
second_claims_none = refl

claim_due_events-disjoint_example : find_row [] "e1" ≡ none
claim_due_events-disjoint_example =
    claim_due_events-disjoint claim_one claim_two 60000 (leased_fresh ∷ []) [] open_store "e1"
      leased_fresh refl (unfold normalize_time in omega arith) refl kept-IsUnique first_claims
      second_claims_none (unfold find_row in refl)

abbrev scope : Tx
scope = record {
  tasks = [];
  history = λ k. [];
  outbox = [];
  outbox_edits = ("e1", half_taken) ∷ [];
}

scope-IsTidy : IsTidy kept scope
unfolding get holds_row
scope-IsTidy = record { keyed = (refl, refl, tt); unedited = λ id h. cc; fresh = λ id h. cc }

abbrev claimed_store : World
claimed_store = (do_tx false (claim_due_events (claim_of two_sinks 9000)) open_store).1

abbrev one_pass : Pass
one_pass =
    (settle_all two_sinks (λ k. false) 1 9000 (leased_fresh ∷ [])
      (start_pass two_sinks (leased_fresh ∷ [])) claimed_store).0

one_pass_runs : (relay_pass two_sinks (λ k. false) 9000 open_store).0 ≡ ok one_pass
unfolding relay_pass do_tx close_scope committed_with commit merge apply_edits replace_row new_tx
    claim_due_events outbox_snapshot edit_rows sort_rows insert_row lease_due lease_row row_due
    edit_all normalize_time find_row get put
one_pass_runs = refl

relay_pass-accounted_example : accounted one_pass.result ≡ one_pass.result.claimed
relay_pass-accounted_example =
    relay_pass-accounted two_sinks (λ k. false) 9000 open_store one_pass one_pass_runs

-- A scope that appends an event, claims it and settles it: the claim's edit is applied after the append
-- when the scope commits, so the settlement is lost.
abbrev own_scope : World
own_scope = record {
  committed = record kept { outbox = [] };
  tx = some (record new_tx { outbox = fresh ∷ [] });
}

abbrev claimed_scope : World
claimed_scope = (claim_due_events claim_one own_scope).1

abbrev settled_scope : World
settled_scope =
    (mark_accepted
      (record {
        event_id = "e1";
        accepted = "bus" ∷ [];
        published_at = some 9000;
        next_attempt_at = none;
        attempts = pos 1;
        last_error = "";
      })
      claimed_scope).1

settlement_lost :
    (committed_with settled_scope.committed settled_scope.tx).committed.outbox ≡ leased_fresh ∷ []
unfolding mark_accepted edit_outbox edit_found stage_row holds_row accepted_row release_row do_tx
    close_scope committed_with commit merge apply_edits replace_row new_tx claim_due_events
    outbox_snapshot edit_rows sort_rows insert_row lease_due lease_row row_due edit_all
    normalize_time find_row get put
settlement_lost = refl
