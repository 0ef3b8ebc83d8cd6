-- ===== src/Relay/FanOut.antt =====
-- relay/relay.go: which sinks are offered an event, and when every sink has taken it.
use hmntsk.Prelude.{
  ℕ, ◌≡◌, refl, ap, ◌∙◌, List, [], ◌∷◌, map, Map, Bool-cases, inl, inr, if◌then◌else◌,
}
use hmntsk.Memstore.{OutboxRow}
use hmntsk.Outbox.{has_accepted}
use hmntsk.Sink.{Relay, Sink, SinkResult, Attempt, Outcome, Offering, offer, offer_all, fan_out}

-- The sink, or another one of its name that answers differently, if it has taken the event.
abbrev pub replaced : OutboxRow → (Attempt → Outcome) → Sink → Sink
replaced entry deliver s = if has_accepted entry s.name then record s { deliver = deliver } else s

module _ (r : Relay) (entry : OutboxRow) (deliver : Attempt → Outcome) where
  quiet : Relay
  quiet = record r { sinks = map (replaced entry deliver) r.sinks }

  offer-replaced :
      (s : Sink) (o : Offering) → offer quiet entry (replaced entry deliver s) o ≡ offer r entry s o
  unfolding offer quiet
  offer-replaced s o = elim (Bool-cases (has_accepted entry s.name)) [
    | inl taken ↦ rw taken (rw taken)
    | inr other ↦ rw other (rw other)
  ]

  offer_all-replaced :
      (ss : List Sink) (o : Offering)
      → offer_all quiet entry (map (replaced entry deliver) ss) o ≡ offer_all r entry ss o
  unfolding offer_all
  offer_all-replaced [] o = refl
  offer_all-replaced (s ∷ ss) o =
      ap (offer_all quiet entry (map (replaced entry deliver) ss)) (offer-replaced s o)
      ∙ offer_all-replaced ss (offer r entry s o)

-- A sink that has taken the event is not offered it again: the fan-out is the same whatever such
-- sinks would answer.
pub fan_out-replaced :
    (r : Relay) (entry : OutboxRow) (deliver : Attempt → Outcome) (tallies : Map SinkResult) (n : ℕ)
    → fan_out (record r { sinks = map (replaced entry deliver) r.sinks }) entry tallies n
      ≡ fan_out r entry tallies n
unfolding fan_out quiet
fan_out-replaced r entry deliver tallies n = offer_all-replaced r entry deliver r.sinks _
