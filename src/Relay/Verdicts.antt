-- ===== src/Relay/Verdicts.antt =====
-- relay/relay.go: what is written down about an event, attempt after attempt.
use mathlib.Core.List.{append_assoc, append-nil}
use hmntsk.Prelude.{
  if◌then◌else◌, ℕ, suc, String, ◌≡◌, refl, sym, ap, ◌∙◌, false, List, [], ◌∷◌, ◌++◌, ltb, length,
  arith, Map, Bool-cases, inl, inr, Bool, true, not,
}
use hmntsk.Errors.{Formatter}
use hmntsk.Task.{Time}
use hmntsk.Memstore.{OutboxRow}
use hmntsk.Outbox.{attempted_row, accepted_row, dead_row, release_row, has_accepted}
use hmntsk.Relay.{Settlement, publish, reschedule, bury, retry, decide}
use hmntsk.Sink.{
  Relay, Sink, SinkResult, Outcome, OutcomeStatus, unclassified, delivered_outcome, retryable,
  permanent, Fan, Offering, refuse, take_outcome, attempt_of, mint_errors, offer, offer_all,
  fan_out,
}
use hmntsk.Prelude.Ranking.{keep}

-- The row that each write leaves in the outbox.
unfoldable pub settled_row : Settlement → OutboxRow → OutboxRow
settled_row (publish a) row = accepted_row a row
settled_row (reschedule a) row = accepted_row a row
settled_row (bury d) row = dead_row d row
settled_row (retry a) row = attempted_row a row

abbrev StartsWith : List String → List String → Type 0
StartsWith xs ys = (zs : List String) × (ys ≡ xs ++ zs)

same_length : (xs zs : List String) → ltb (length xs) (length (xs ++ zs)) ≡ false → xs ++ zs ≡ xs
same_length [] [] h = refl
same_length [] (z ∷ zs) h = ground (arith)
same_length (x ∷ xs) zs h = ap (λ ys. x ∷ ys) (same_length xs zs (ground (arith)))

is_delivered : OutcomeStatus → Bool
is_delivered delivered_outcome = true
is_delivered _ = false

-- Of sinks that are offered an event one after the other, from the n-th delivery identifier on, the
-- names of those that take it.
pub takers : Relay → OutboxRow → List Sink → ℕ → List String
unfolding is_delivered
takers r entry [] n = []
takers r entry (s ∷ ss) n =
    let rest = takers r entry ss (suc n) in
    if is_delivered (s.deliver (attempt_of r entry n)).status then s.name ∷ rest else rest

-- The sinks that have not taken the event before.
abbrev pub open_sinks : OutboxRow → List Sink → List Sink
open_sinks entry = keep (λ s. not (has_accepted entry s.name))

module _ (r : Relay) (entry : OutboxRow) where
  take_outcome-accepted :
      (f : Formatter) (name : String) (a : Outcome) (s : OutcomeStatus) (o : Offering)
      → (take_outcome f name a s o).fan.accepted
        ≡ (o.fan.accepted ++ (if is_delivered s then name ∷ [] else []))
  unfolding take_outcome refuse is_delivered
  take_outcome-accepted f name a delivered_outcome o = refl
  take_outcome-accepted f name a unclassified o = sym (append-nil o.fan.accepted)
  take_outcome-accepted f name a retryable o = sym (append-nil o.fan.accepted)
  take_outcome-accepted f name a permanent o = sym (append-nil o.fan.accepted)

  take_outcome-minted :
      (f : Formatter) (name : String) (a : Outcome) (s : OutcomeStatus) (o : Offering)
      → (take_outcome f name a s o).minted ≡ o.minted
  unfolding take_outcome refuse
  take_outcome-minted f name a delivered_outcome o = refl
  take_outcome-minted f name a unclassified o = refl
  take_outcome-minted f name a retryable o = refl
  take_outcome-minted f name a permanent o = refl

  asked : Offering → Offering
  asked o = record o {
    reported = o.reported ++ mint_errors (r.mint o.minted);
    minted = suc o.minted;
  }

  offer_new :
      (s : Sink) (o : Offering)
      → has_accepted entry s.name ≡ false
      → offer r entry s o
        ≡ take_outcome r.formatter s.name
            (s.deliver (attempt_of r entry o.minted))
            (s.deliver (attempt_of r entry o.minted)).status
            (asked o)
  unfolding offer asked
  offer_new s o h = rw h refl

  if_append :
      (b : Bool) (x : String) (xs ys : List String)
      → (xs ++ (if b then x ∷ [] else [])) ++ ys ≡ xs ++ (if b then x ∷ ys else ys)
  if_append true x xs ys = append_assoc xs (x ∷ []) ys
  if_append false x xs ys = ap (λ zs. zs ++ ys) (append-nil xs)

  offer_all-accepted :
      (ss : List Sink) (o : Offering)
      → (offer_all r entry ss o).fan.accepted
        ≡ o.fan.accepted ++ takers r entry (open_sinks entry ss) o.minted
  unfolding offer_all takers keep asked
  offer_all-accepted [] o = sym (append-nil o.fan.accepted)
  offer_all-accepted (s ∷ ss) o = elim (Bool-cases (has_accepted entry s.name)) [
    | inl taken ↦
        rw taken (offer_all-accepted ss (offer r entry s o) ∙ unfold offer in rw taken refl)
    | inr new ↦
        let a = s.deliver (attempt_of r entry o.minted) in
        let next = take_outcome r.formatter s.name a a.status (asked o) in
        rw new (
          ap (λ p. (offer_all r entry ss p).fan.accepted) (offer_new s o new)
          ∙ (offer_all-accepted ss next
              ∙ rw (take_outcome-minted r.formatter s.name a a.status (asked o)) (
                  rw (take_outcome-accepted r.formatter s.name a a.status (asked o)) (
                    if_append (is_delivered a.status) s.name o.fan.accepted
                      (takers r entry (open_sinks entry ss) (suc o.minted))))))
  ]

  pub fan_out-accepted :
      (tallies : Map SinkResult) (n : ℕ)
      → (fan_out r entry tallies n).fan.accepted
        ≡ entry.accepted ++ takers r entry (open_sinks entry r.sinks) n
  unfolding fan_out
  fan_out-accepted tallies n = offer_all-accepted r.sinks _

not_longer :
    (xs ys : List String) → StartsWith xs ys → ltb (length xs) (length ys) ≡ false → ys ≡ xs
not_longer xs ys (zs, e) h =
    e ∙ same_length xs zs (ap (λ ws. ltb (length xs) (length ws)) (sym e) ∙ h)

settled-accepted :
    (r : Relay) (entry : OutboxRow) (now : Time) (fan : Fan)
    → (ltb (length entry.accepted) (length fan.accepted) ≡ false → fan.accepted ≡ entry.accepted)
    → (settled_row (decide r entry now fan) entry).accepted ≡ fan.accepted
unfolding settled_row decide accepted_row dead_row attempted_row release_row
settled-accepted r entry now fan same = ground arith

-- Every way to settle an event writes down the names recorded before the attempt, in their order,
-- and then exactly those of the sinks that took the event now: of the sinks that had not taken it
-- before, in the relay's order, those that answered this attempt with a delivery.
pub settled_row-accepted :
    (r : Relay) (entry : OutboxRow) (now : Time) (tallies : Map SinkResult) (n : ℕ)
    → (settled_row (decide r entry now (fan_out r entry tallies n).fan) entry).accepted
      ≡ entry.accepted ++ takers r entry (open_sinks entry r.sinks) n
settled_row-accepted r entry now tallies n =
    let fan = (fan_out r entry tallies n).fan in
    let all = fan_out-accepted r entry tallies n in
    let more : StartsWith entry.accepted fan.accepted =
      (takers r entry (open_sinks entry r.sinks) n, all) in
    settled-accepted r entry now fan (not_longer entry.accepted fan.accepted more) ∙ all
