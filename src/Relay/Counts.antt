-- ===== src/Relay/Counts.antt =====
-- relay/relay.go: the counters of a pass.
use hmntsk.Prelude.{◌+◌, ℕ, suc, ◌≡◌, refl, subst, ap, ◌∙◌, Bool, List, [], ◌∷◌, length, arith}
use hmntsk.Errors.{Result, ok, err}
use hmntsk.Task.{Time}
use hmntsk.Memstore.{OutboxRow, World}
use hmntsk.Relay.{
  PassResult, Pass, Settlement, publish, reschedule, bury, retry, counted_if, settle_event,
  settle_all, start_pass, settle_claimed, relay_pass,
}
use hmntsk.Sink.{Relay}

-- Every event that the counters hold.
abbrev pub accounted : PassResult → ℕ
accounted p = p.delivered + p.retried + p.dead_lettered + p.unsettled

accounted_one :
    (o : Result (Unit {0})) (s : Settlement) (p : PassResult)
    → (accounted (counted_if o s p) ≡ suc (accounted p)) × ((counted_if o s p).claimed ≡ p.claimed)
accounted_one (err e) s p = (omega arith, refl)
accounted_one (ok u) (publish a) p = (omega arith, refl)
accounted_one (ok u) (reschedule a) p = (omega arith, refl)
accounted_one (ok u) (bury d) p = (omega arith, refl)
accounted_one (ok u) (retry a) p = (omega arith, refl)

settle_event-accounted :
    (r : Relay) (b : Bool) (now : Time) (e : OutboxRow) (p : Pass) (w : World)
    → let q = (settle_event r b now e p w).0 in
      (accounted q.result ≡ suc (accounted p.result)) × (q.result.claimed ≡ p.result.claimed)
unfolding settle_event
settle_event-accounted r b now e p w = accounted_one _ _ _

settle_all-accounted :
    (r : Relay) (cancelled : ℕ → Bool) (n : ℕ) (now : Time) (es : List OutboxRow) (p : Pass)
    (w : World)
    → let q = (settle_all r cancelled n now es p w).0 in
      (accounted q.result ≡ accounted p.result + length es) × (q.result.claimed ≡ p.result.claimed)
unfolding settle_all
settle_all-accounted r cancelled n now [] p w = (omega arith, refl)
settle_all-accounted r cancelled n now (e ∷ es) p w =
    let next = settle_event r (cancelled n) now e p w in
    let one = settle_event-accounted r (cancelled n) now e p w in
    let rest = settle_all-accounted r cancelled (suc n) now es next.0 next.1 in
    (omega (arith, one.0, rest.0), rest.1 ∙ one.1)

pass_or : Pass → Result Pass → Pass
pass_or p (ok q) = q
pass_or p (err e) = p

settled_accounted :
    (r : Relay) (cancelled : ℕ → Bool) (now : Time) (o : Result (List OutboxRow) × World) (p : Pass)
    → (settle_claimed r cancelled now o).0 ≡ ok p
    → accounted p.result ≡ p.result.claimed
unfolding pass_or
settled_accounted r cancelled now (err e, w) p h = cc
settled_accounted r cancelled now (ok es, w) p h =
    let all = settle_all-accounted r cancelled 1 now es (start_pass r es) w in
    subst (λ (s : Pass). accounted s.result ≡ s.result.claimed) (ap (pass_or p) h)
      (omega (arith, all.0, all.1))

-- The counters of a pass account for every event that it claimed: each is delivered, retried,
-- dead-lettered or unsettled, and only one of these, whatever the sinks and the store answer.
pub relay_pass-accounted :
    (r : Relay) (cancelled : ℕ → Bool) (clock : Time) (w : World) (p : Pass)
    → (relay_pass r cancelled clock w).0 ≡ ok p
    → accounted p.result ≡ p.result.claimed
unfolding relay_pass
relay_pass-accounted r cancelled clock w p h = settled_accounted r cancelled _ _ p h
