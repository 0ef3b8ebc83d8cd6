-- ===== src/Sink.antt =====
-- relay/sink.go, and of relay/relay.go a relay's settings, nameSinks and the fan-out of one event to
-- the sinks.
use hmntsk.Prelude.{
  ℕ, suc, String, ◌==◌, Bool, true, false, List, [], ◌∷◌, ◌++◌, Option, none, some, ℤ, inc64,
  contains, Map, get, put, if◌then◌else◌,
}
use hmntsk.Errors
use hmntsk.Errors.{Error, Result, ok, err, Formatter, message, configuration_error, foreign, ◌<>◌}
use hmntsk.Event.{Event}
use hmntsk.Memstore.{OutboxRow}
use hmntsk.Outbox.{has_accepted}

-- `unclassified` stands for every value outside the three verdicts.
pub data OutcomeStatus : Type 0 where
  unclassified delivered_outcome retryable permanent : OutcomeStatus

unfoldable pub verdict_valid : OutcomeStatus → Bool
verdict_valid unclassified = false
verdict_valid _ = true

-- `cause` is `none` for Go's nil error.
pub record Outcome : Type 0 where
  pub status : OutcomeStatus
  pub cause : Option Error

pub record Attempt : Type 0 where
  pub event : Event
  pub delivery_id : String
  pub number : ℤ

pub record Sink : Type 0 where
  pub name : String
  pub deliver : Attempt → Outcome

-- `mint n` is the n-th delivery identifier of the pass, and `jitter` what the random component makes
-- of a delay. A back-off and a ceiling are positive, and below 2^53 ns, where float64 is exact.
pub record Relay : Type 0 where
  pub sinks : List Sink
  pub owner : String
  pub lease : ℤ
  pub batch : ℤ
  pub max_attempts : ℤ
  pub backoff : ℕ
  pub ceiling : ℕ
  pub jitter : ℕ → ℕ
  pub mint : ℕ → Result String
  pub formatter : Formatter

pub record SinkResult : Type 0 where
  pub delivered : ℕ
  pub retryable : ℕ
  pub permanent : ℕ
  pub unclassified : ℕ
  pub skipped : ℕ

-- The loop of nameSinks over the sinks, with the names seen before.
unfoldable pub name_each : List Sink → List String → Result (List String)
name_each [] seen = ok []
name_each (s ∷ ss) seen =
    if s.name == ""
    then err (
        configuration_error
          "every sink must be named; per-sink acceptance is recorded under the name")
    else if contains seen s.name
    then err (
        configuration_error (
          "two sinks are named " <> s.name
          <> "; acceptance recorded for one would be read as acceptance by the other"))
    else Errors.◌>>=◌ (name_each ss (s.name ∷ seen)) (λ names. ok (s.name ∷ names))

-- nameSinks
unfoldable pub name_sinks : List Sink → Result (List String)
unfolding name_each
name_sinks [] = err (
    configuration_error
      "a relay needs at least one sink; one with none would mark every event delivered having delivered it nowhere")
name_sinks (s ∷ ss) = name_each (s ∷ ss) []

pub record Fan : Type 0 where
  pub accepted : List String
  pub failures : List String
  pub permanent : Bool

-- strings.Join(failures, "; ")
unfoldable pub join_failures : List String → String
join_failures [] = ""
join_failures (f ∷ []) = f
join_failures (f ∷ g ∷ fs) = f <> "; " <> join_failures (g ∷ fs)

unfoldable pub last_error : Fan → String
unfolding join_failures
last_error f = join_failures f.failures

-- The state of the pass around one fan-out: what it came to, the tallies, the causes that went to
-- the error handler, and how many delivery identifiers were asked for.
pub record Offering : Type 0 where
  pub fan : Fan
  pub tallies : Map SinkResult
  pub reported : List Error
  pub minted : ℕ

abbrev pub no_results : SinkResult
no_results = record { delivered = 0; retryable = 0; permanent = 0; unclassified = 0; skipped = 0 }

abbrev pub tally_of : Map SinkResult → String → SinkResult
tally_of m name = elim (get m name) [ some r ↦ r | none ↦ no_results ]

abbrev pub unexplained : Error
unexplained = foreign "the sink reported a failure without saying what went wrong"

abbrev pub unclassified_error : Error
unclassified_error =
    foreign
      "the sink returned an unclassified outcome, which is a bug in the sink rather than a verdict about its destination"

abbrev pub or_unexplained : Option Error → Error
or_unexplained none = unexplained
or_unexplained (some e) = e

-- refused
unfoldable pub refuse : Formatter → String → Error → Offering → Offering
refuse f name cause o = record o {
  fan = record o.fan { failures = o.fan.failures ++ (name <> ": " <> message f cause) ∷ [] };
  reported = o.reported ++ cause ∷ [];
}

abbrev tallied : String → SinkResult → Offering → Offering
tallied name r o = record o { tallies = put o.tallies name r }

abbrev forever : Offering → Offering
forever o = record o { fan = record o.fan { permanent = true } }

-- What one sink's verdict adds.
unfoldable pub take_outcome : Formatter → String → Outcome → OutcomeStatus → Offering → Offering
unfolding refuse
take_outcome f name outcome delivered_outcome o =
    let r = tally_of o.tallies name in
    tallied name (record r { delivered = suc r.delivered })
      (record o { fan = record o.fan { accepted = o.fan.accepted ++ name ∷ [] } })
take_outcome f name outcome retryable o =
    let r = tally_of o.tallies name in
    tallied name (record r { retryable = suc r.retryable })
      (refuse f name (or_unexplained outcome.cause) o)
take_outcome f name outcome permanent o =
    let r = tally_of o.tallies name in
    tallied name (record r { permanent = suc r.permanent })
      (refuse f name (or_unexplained outcome.cause) (forever o))
take_outcome f name outcome unclassified o =
    let r = tally_of o.tallies name in
    tallied name (record r { unclassified = suc r.unclassified })
      (refuse f name unclassified_error (forever o))

-- A delivery identifier that cannot be minted is reported, and the delivery goes on without it.
abbrev minted_id : Result String → String
minted_id (ok i) = i
minted_id (err e) = ""

abbrev pub mint_errors : Result String → List Error
mint_errors (ok i) = []
mint_errors (err e) = e ∷ []

abbrev pub attempt_of : Relay → OutboxRow → ℕ → Attempt
attempt_of r entry n = record {
  event = entry.event;
  delivery_id = minted_id (r.mint n);
  number = inc64 entry.attempts;
}

-- One sink is offered the event, unless it has taken it before.
unfoldable pub offer : Relay → OutboxRow → Sink → Offering → Offering
unfolding take_outcome has_accepted
offer r entry sink o =
    if has_accepted entry sink.name
    then (let t = tally_of o.tallies sink.name in
        tallied sink.name (record t { skipped = suc t.skipped }) o)
    else (let outcome = sink.deliver (attempt_of r entry o.minted) in
        take_outcome r.formatter sink.name outcome outcome.status (record o {
          reported = o.reported ++ mint_errors (r.mint o.minted);
          minted = suc o.minted;
        }))

unfoldable pub offer_all : Relay → OutboxRow → List Sink → Offering → Offering
offer_all r entry [] o = o
offer_all r entry (s ∷ ss) o = offer_all r entry ss (offer r entry s o)

unfoldable pub fan_out : Relay → OutboxRow → Map SinkResult → ℕ → Offering
fan_out r entry tallies minted = offer_all r entry r.sinks (record {
  fan = record { accepted = entry.accepted; failures = []; permanent = false };
  tallies = tallies;
  reported = [];
  minted = minted;
})
