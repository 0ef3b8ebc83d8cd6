-- ===== src/Relay/Passes.antt =====
-- relay/relay.go: a whole pass over the in-memory store, from the claim to the last settlement.
use hmntsk.Prelude.{
  String, ◌≡◌, sym, ap, ◌∙◌, subst, false, List, [], ◌∷◌, Option, none, some, arith, eq_iff,
}
use hmntsk.Errors.{Result, ok, err}
use hmntsk.Task.{Time, normalize_time}
use hmntsk.Memstore.{OutboxRow, World, Data, do_tx}
use hmntsk.Outbox.{find_row, claim_due_events}
use hmntsk.Outbox.Leased.{IsUnique, Leases}
use hmntsk.Outbox.Claims.{Claimed, claim_due_events-IsClaim}
use hmntsk.Relay.{claim_of, start_pass, settle_claimed, settle_all, relay_pass}
use hmntsk.Sink.{Relay}
use hmntsk.Relay.Attempts.{Turn, attempt_row}
use hmntsk.Relay.Settling.{AreStored, Became, settle_all-Became}

-- What a pass makes of one entry: a claimed one was due, and is left as an attempt on it under the
-- pass's lease makes it; any other stays as it was.
abbrev pub Passed : Relay → Time → Option OutboxRow → Option OutboxRow → Option OutboxRow → Type 0
Passed r now before none after = after ≡ before
Passed r now before (some x) after =
    Leases (claim_of r now) now before (some x)
    × ((t : Turn) × (t.now ≡ now) × (after ≡ some (attempt_row r t x)))

passed :
    (r : Relay) (now : Time) (before mid new after : Option OutboxRow)
    → Claimed (claim_of r now) now before new mid
    → Became r now new mid after
    → Passed r now before new after
passed r now before mid none after c b = b ∙ c
passed r now before mid (some x) after (l, m) b = (l, b)

normalized : (t : Time) → normalize_time (normalize_time t) ≡ normalize_time t
unfolding normalize_time
normalized t = omega arith

all_stored :
    (d : Data) (ls : List OutboxRow)
    → ((j : String) (x : OutboxRow) → find_row ls j ≡ some x → find_row d.outbox j ≡ some x)
    → IsUnique ls
    → AreStored d ls
unfolding find_row
all_stored d [] h u = tt
all_stored d (e ∷ es) h u = (
  h e.event.id e (ground (arith, eq_iff e.event.id e.event.id)),
  all_stored d es (λ j x f. h j x (ground (arith, f, u.0, eq_iff e.event.id j))) u.1,
)

stored_claims :
    (r : Relay) (now : Time) (before new after : Option OutboxRow) (x : OutboxRow)
    → Claimed (claim_of r now) now before new after
    → new ≡ some x
    → after ≡ some x
stored_claims r now before none after x c e = cc
stored_claims r now before (some y) after x (l, m) e = m ∙ e

settled_after :
    (r : Relay) (now : Time) (ls : List OutboxRow) (o : Result (List OutboxRow) × World)
    → o.0 ≡ ok ls
    → (settle_claimed r (λ k. false) now o).1
      ≡ (settle_all r (λ k. false) 1 now ls (start_pass r ls) o.1).1
settled_after r now ls (ok xs, w) e =
    ap (λ l. (settle_all r (λ k. false) 1 now l (start_pass r l) w).1) (ap unwrap e)
  where
    unwrap : Result (List OutboxRow) → List OutboxRow
    unwrap (ok l) = l
    unwrap (err f) = []
settled_after r now ls (err f, w) e = cc

-- A pass over a store of different events, which no transaction holds and in whose scopes no context is
-- cancelled: each entry that its claim hands out was due, and ends as one attempt at the pass's time
-- makes it, and every other entry stays as it was.
pub relay_pass-Passed :
    (r : Relay) (clock : Time) (w : World)
    → w.tx ≡ none
    → IsUnique w.committed.outbox
    → let after = (relay_pass r (λ k. false) clock w).1 in
      (ls : List OutboxRow) × ((do_tx false
          (claim_due_events (claim_of r (normalize_time clock)))
          w).0
        ≡ ok ls)
      × (after.tx ≡ none)
      × ((j : String)
          → Passed r
              (normalize_time clock)
              (find_row w.committed.outbox j)
              (find_row ls j)
              (find_row after.committed.outbox j))
unfolding relay_pass
relay_pass-Passed r clock w h u =
    let now = normalize_time clock in
    let claim = do_tx false (claim_due_events (claim_of r now)) w in
    let (ls, e, k) = claim_due_events-IsClaim (claim_of r now) w h u in
    let before = λ (j : String). find_row w.committed.outbox j in
    let mid = λ (j : String). find_row claim.1.committed.outbox j in
    let entries : (j : String) → Claimed (claim_of r now) now (before j) (find_row ls j) (mid j) =
      λ j.
        subst (λ n. Claimed (claim_of r now) n (before j) (find_row ls j) (mid j))
          (normalized clock) (k.entries j) in
    let done = settle_all-Became r 1 now ls (start_pass r ls) claim.1 k.closed k.different (
      all_stored claim.1.committed ls
        (λ j x. stored_claims r now (before j) (find_row ls j) (mid j) x (entries j))
        k.different) in
    subst
      (λ v.
        (xs : List OutboxRow) × (claim.0 ≡ ok xs)
        × (v.tx ≡ none)
        × ((j : String) → Passed r now (before j) (find_row xs j) (find_row v.committed.outbox j)))
      (sym (settled_after r now ls claim e))
      (ls, e, done.0, λ j. passed r now (before j) (mid j) (find_row ls j) _ (entries j) (done.1 j))
