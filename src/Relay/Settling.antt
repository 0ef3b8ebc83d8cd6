-- ===== src/Relay/Settling.antt =====
-- relay/relay.go and relayport.go: what a pass leaves in the in-memory store of the events that it
-- has claimed.
use hmntsk.Prelude.{
  Bool, ℕ, suc, String, ◌==◌, ◌≡◌, refl, sym, ap, ◌∙◌, subst, true, false, List, [], ◌∷◌, Option,
  none, some, arith, eq_iff, if◌then◌else◌,
}
use hmntsk.Task.{Time}
use hmntsk.Memstore.{OutboxRow, World, Data}
use hmntsk.Outbox.{
  find_row, accepted_row, dead_row, attempted_row, release_row, mark_accepted, mark_dead_lettered,
  record_attempt,
}
use hmntsk.Outbox.Leased.{IsUnique}
use hmntsk.Outbox.Settled.{AfterEdit, edit_outbox-committed}
use hmntsk.Relay.{
  Pass, Settlement, publish, reschedule, bury, retry, decide, write_settlement, settle_event,
  settle_all,
}
use hmntsk.Sink.{Fan, Relay, fan_out}
use hmntsk.Relay.Verdicts.{settled_row}
use hmntsk.Relay.Attempts.{Turn, attempt_row}

abbrev settled_id : Settlement → String
settled_id (publish a) = a.event_id
settled_id (reschedule a) = a.event_id
settled_id (bury d) = d.event_id
settled_id (retry a) = a.event_id

settled_row-id : (s : Settlement) (row : OutboxRow) → (settled_row s row).event.id ≡ row.event.id
unfolding settled_row accepted_row dead_row attempted_row release_row
settled_row-id (publish a) row = ground arith
settled_row-id (reschedule a) row = ground arith
settled_row-id (bury d) row = refl
settled_row-id (retry a) row = refl

-- A verdict written to a store that no transaction holds changes the entry that it names, and no
-- other; when there is no such entry it fails and changes nothing.
pub write_settlement-committed :
    (d : Data) (s : Settlement)
    → AfterEdit
        (write_settlement false s (record { committed = d; tx = none }))
        (settled_row s)
        d
        (settled_id s)
        (find_row d.outbox (settled_id s))
unfolding write_settlement settled_row mark_accepted mark_dead_lettered record_attempt accepted_row
    dead_row attempted_row release_row
write_settlement-committed d (publish a) =
    edit_outbox-committed d _ a.event_id (settled_row (publish a)) (settled_row-id (publish a))
write_settlement-committed d (reschedule a) =
    edit_outbox-committed d _ a.event_id (settled_row (reschedule a))
      (settled_row-id (reschedule a))
write_settlement-committed d (bury l) =
    edit_outbox-committed d _ l.event_id (settled_row (bury l)) (settled_row-id (bury l))
write_settlement-committed d (retry a) =
    edit_outbox-committed d _ a.event_id (settled_row (retry a)) (settled_row-id (retry a))

decide-id :
    (r : Relay) (entry : OutboxRow) (now : Time) (fan : Fan)
    → settled_id (decide r entry now fan) ≡ entry.event.id
unfolding decide
decide-id r entry now fan = ground arith

closed : (w : World) → w.tx ≡ none → w ≡ record { committed = w.committed; tx = none }
closed w h = λ i. record { committed = w.committed; tx = h i }

-- One claimed event is settled: the store is closed again, the event's entry is what the attempt
-- makes of it and no other entry changes.
abbrev IsSettled : Relay → Time → OutboxRow → Data → World → Type 0
IsSettled r now e d w =
    (w.tx ≡ none)
    × ((t : Turn) × (t.now ≡ now)
        × ((j : String)
            → find_row w.committed.outbox j
              ≡ (if e.event.id == j then some (attempt_row r t e) else find_row d.outbox j)))

settle_event-IsSettled :
    (r : Relay) (d : Data) (now : Time) (e : OutboxRow) (p : Pass)
    → find_row d.outbox e.event.id ≡ some e
    → IsSettled r now e d (settle_event r false now e p (record { committed = d; tx = none })).1
unfolding settle_event attempt_row
settle_event-IsSettled r d now e p h =
    let s = decide r e now (fan_out r e p.result.sinks p.minted).fan in
    let after = write_settlement false s (record { committed = d; tx = none }) in
    let named : AfterEdit after (settled_row s) d e.event.id (find_row d.outbox e.event.id) =
      subst (λ k. AfterEdit after (settled_row s) d k (find_row d.outbox k))
        (decide-id r e now (fan_out r e p.result.sinks p.minted).fan)
        (write_settlement-committed d s) in
    let there : AfterEdit after (settled_row s) d e.event.id (some e) =
      subst (λ o. AfterEdit after (settled_row s) d e.event.id o) h named in
    (there.1, (record { now = now; tallies = p.result.sinks; minted = p.minted }, refl, there.2))

-- Each entry is the one that the store holds under its identifier.
abbrev pub AreStored : Data → List OutboxRow → Type 0
AreStored d [] = Unit {0}
AreStored d (e ∷ es) = (find_row d.outbox e.event.id ≡ some e) × AreStored d es

still_stored :
    (r : Relay) (d : Data) (now : Time) (e : OutboxRow) (w : World) (es : List OutboxRow)
    → IsSettled r now e d w
    → find_row es e.event.id ≡ none
    → AreStored d es
    → AreStored w.committed es
unfolding find_row
still_stored r d now e w [] s n a = tt
still_stored r d now e w (x ∷ es) s n a = (
  ground (arith, s.1.2 x.event.id, eq_iff e.event.id x.event.id, eq_iff x.event.id e.event.id),
  still_stored r d now e w es s (ground (arith)) a.1,
)

-- What became of the entry of one identifier, by whether it was among the claimed ones.
abbrev pub Became : Relay → Time → Option OutboxRow → Option OutboxRow → Option OutboxRow → Type 0
Became r now none before after = after ≡ before
Became r now (some e) before after = (t : Turn) × (t.now ≡ now) × (after ≡ some (attempt_row r t e))

step-Became :
    (r : Relay) (now : Time) (e : OutboxRow) (t : Turn) (same : Bool)
    (o before mid after : Option OutboxRow)
    → t.now ≡ now
    → mid ≡ (if same then some (attempt_row r t e) else before)
    → (same ≡ true → o ≡ none)
    → Became r now o mid after
    → Became r now (if same then some e else o) before after
step-Became r now e t true none before mid after at m new rest = (t, at, rest ∙ m)
step-Became r now e t true (some x) before mid after at m new rest =
    let clash : some x ≡ none = new refl in cc
step-Became r now e t false none before mid after at m new rest = rest ∙ m
step-Became r now e t false (some x) before mid after at m new rest = rest

-- Settling the claimed entries one by one, each in a transaction of its own, leaves of each what its
-- one attempt makes of it and leaves every other entry as it was, when each of them is stored, their
-- identifiers differ and no context is cancelled.
pub settle_all-Became :
    (r : Relay) (n : ℕ) (now : Time) (es : List OutboxRow) (p : Pass) (w : World)
    → w.tx ≡ none
    → IsUnique es
    → AreStored w.committed es
    → let after = (settle_all r (λ k. false) n now es p w).1 in
      (after.tx ≡ none)
      × ((j : String)
          → Became r now
              (find_row es j)
              (find_row w.committed.outbox j)
              (find_row after.committed.outbox j))
unfolding settle_all find_row
settle_all-Became r n now [] p w h u a = (h, λ j. refl)
settle_all-Became r n now (e ∷ es) p w h u a =
    let next = settle_event r false now e p w in
    let s : IsSettled r now e w.committed next.1 =
      subst (λ v. IsSettled r now e w.committed (settle_event r false now e p v).1)
        (sym (closed w h)) (settle_event-IsSettled r w.committed now e p a.0) in
    let rest =
      settle_all-Became r (suc n) now es next.0 next.1 s.0 u.1
        (still_stored r w.committed now e next.1 es s u.0 a.1) in
    (
      rest.0,
      λ j.
          step-Became r now e s.1.0 (e.event.id == j) (find_row es j)
            (find_row w.committed.outbox j) (find_row next.1.committed.outbox j) _ s.1.1 (s.1.2 j)
            (λ same. ap (find_row es) (sym ((eq_iff e.event.id j).0 same)) ∙ u.0) (rest.1 j),
    )
