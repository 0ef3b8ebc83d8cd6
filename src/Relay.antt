-- ===== src/Relay.antt =====
-- relay/relay.go: one pass of the relay over the durable events, with the relay's operations of
-- relayport.go. Run is a timer loop, and is not modelled.
pub mod Attempts
pub mod Backoff
pub mod Counts
pub mod FanOut
pub mod Passes
pub mod Published
pub mod Settling
pub mod Verdicts
use hmntsk.Prelude.{
  ◌+◌, ◌*◌, ◌^◌, to_ℕ, ℕ, zero, suc, String, ◌==◌, Bool, true, false, ◌&&◌, ◌||◌, not, List, [],
  ◌∷◌, ◌++◌, Option, none, some, ℤ, pos, inc64, leb_ℤ, ltb, length, is_nil, contains, Map, get, put,
  if◌then◌else◌,
}
use hmntsk.Errors
use hmntsk.Errors.{Error, Result, ok, err, Formatter, message, configuration_error, foreign, ◌<>◌}
use hmntsk.Task.{Time, normalize_time, add_duration}
use hmntsk.Event.{Event}
use hmntsk.Store.{M}
use hmntsk.Memstore.{OutboxRow, World, do_tx}
use hmntsk.Outbox.{
  OutboxClaim, AttemptRecord, Acceptance, DeadLetter, has_accepted, claim_due_events,
  record_attempt, mark_accepted, mark_dead_lettered,
}
use hmntsk.Sink.{
  Attempt, Fan, Offering, Outcome, OutcomeStatus, Relay, Sink, SinkResult, attempt_of,
  delivered_outcome, fan_out, join_failures, last_error, mint_errors, name_each, name_sinks,
  no_results, offer, offer_all, or_unexplained, permanent, refuse, retryable, take_outcome,
  tally_of, unclassified, unclassified_error, unexplained, verdict_valid,
}

pub record PassResult : Type 0 where
  pub claimed : ℕ
  pub delivered : ℕ
  pub retried : ℕ
  pub dead_lettered : ℕ
  pub unsettled : ℕ
  pub sinks : Map SinkResult

-- What is written down about one event.
pub data Settlement : Type 0 where
  publish reschedule : Acceptance → Settlement
  bury : DeadLetter → Settlement
  retry : AttemptRecord → Settlement

-- min(backoff * 2^attempts, ceiling)
unfoldable pub backoff_delay : ℕ → ℕ → ℤ → ℕ
backoff_delay backoff ceiling attempts =
    let delay = backoff * 2 ^ to_ℕ attempts in if ltb ceiling delay then ceiling else delay

unfoldable pub next_attempt : Relay → Time → ℤ → Time
next_attempt r now attempts = now + r.jitter (backoff_delay r.backoff r.ceiling attempts)

unfoldable pub decide : Relay → OutboxRow → Time → Fan → Settlement
unfolding last_error next_attempt
decide r entry now fan =
    let attempts = inc64 entry.attempts in
    if is_nil fan.failures
    then publish (record {
      event_id = entry.event.id;
      accepted = fan.accepted;
      published_at = some now;
      next_attempt_at = none;
      attempts = attempts;
      last_error = "";
    })
    else if fan.permanent || leb_ℤ r.max_attempts attempts
    then bury (record {
      event_id = entry.event.id;
      attempts = attempts;
      last_error = last_error fan;
      accepted = some fan.accepted;
    })
    else if ltb (length entry.accepted) (length fan.accepted)
    then reschedule (record {
      event_id = entry.event.id;
      accepted = fan.accepted;
      published_at = none;
      next_attempt_at = some (next_attempt r now entry.attempts);
      attempts = attempts;
      last_error = last_error fan;
    })
    else retry (record {
      event_id = entry.event.id;
      attempts = attempts;
      next_attempt_at = next_attempt r now entry.attempts;
      last_error = last_error fan;
    })

-- MarkEventAccepted, MarkEventDeadLettered and RecordDeliveryAttempt.
unfoldable pub write_settlement : Bool → Settlement → M World Unit
write_settlement cancelled (publish a) = do_tx cancelled (mark_accepted a)
write_settlement cancelled (reschedule a) = do_tx cancelled (mark_accepted a)
write_settlement cancelled (bury d) = do_tx cancelled (mark_dead_lettered d)
write_settlement cancelled (retry a) = do_tx cancelled (record_attempt a)

abbrev counted : Settlement → PassResult → PassResult
counted (publish a) p = record p { delivered = suc p.delivered }
counted (reschedule a) p = record p { retried = suc p.retried }
counted (bury d) p = record p { dead_lettered = suc p.dead_lettered }
counted (retry a) p = record p { retried = suc p.retried }

abbrev counted_if : Result (Unit {0}) → Settlement → PassResult → PassResult
counted_if (ok _) s p = counted s p
counted_if (err e) s p = record p { unsettled = suc p.unsettled }

-- A pass: its result so far, the identifiers asked for, and the causes that went to the error
-- handler, which is given them under the event's identifier.
pub record Pass : Type 0 where
  pub result : PassResult
  pub minted : ℕ
  pub reported : List Error

abbrev settle_errors : Result (Unit {0}) → List Error
settle_errors (ok _) = []
settle_errors (err e) = e ∷ []

unfoldable pub settle_event : Relay → Bool → Time → OutboxRow → Pass → World → Pass × World
unfolding fan_out decide write_settlement
settle_event r cancelled now entry p w =
    let o = fan_out r entry p.result.sinks p.minted in
    let s = decide r entry now o.fan in
    let written = write_settlement cancelled s w in
    (
      record {
        result = counted_if written.0 s (record p.result { sinks = o.tallies });
        minted = o.minted;
        reported = p.reported ++ o.reported ++ settle_errors written.0;
      },
      written.1,
    )

-- `cancelled n` is whether the context is cancelled by the end of the n-th scope of the pass.
unfoldable pub settle_all :
    Relay → (ℕ → Bool) → ℕ → Time → List OutboxRow → Pass → World → Pass × World
settle_all r cancelled n now [] p w = (p, w)
settle_all r cancelled n now (e ∷ es) p w =
    let next = settle_event r (cancelled n) now e p w in
    settle_all r cancelled (suc n) now es next.0 next.1

abbrev empty_tallies : List Sink → Map SinkResult
empty_tallies [] = []
empty_tallies (s ∷ ss) = put (empty_tallies ss) s.name no_results

abbrev pub claim_of : Relay → Time → OutboxClaim
claim_of r now = record {
  now = now;
  owner = r.owner;
  duration = if leb_ℤ r.lease (pos 0) then pos 300000000000 else r.lease;
  limit = if leb_ℤ r.batch (pos 0) then pos 50 else r.batch;
}

abbrev pub start_pass : Relay → List OutboxRow → Pass
start_pass r claimed = record {
  result = record {
    claimed = length claimed;
    delivered = 0;
    retried = 0;
    dead_lettered = 0;
    unsettled = 0;
    sinks = empty_tallies r.sinks;
  };
  minted = 0;
  reported = [];
}

abbrev pub settle_claimed :
    Relay → (ℕ → Bool) → Time → Result (List OutboxRow) × World → Result Pass × World
settle_claimed r cancelled now (err e, w) = (err e, w)
settle_claimed r cancelled now (ok claimed, w) =
    let done = settle_all r cancelled 1 now claimed (start_pass r claimed) w in (ok done.0, done.1)

-- Relay: the clock reads `clock`.
unfoldable pub relay_pass : Relay → (ℕ → Bool) → Time → M World Pass
unfolding normalize_time settle_all
relay_pass r cancelled clock w =
    settle_claimed r cancelled (normalize_time clock)
      (do_tx (cancelled 0) (claim_due_events (claim_of r (normalize_time clock))) w)
