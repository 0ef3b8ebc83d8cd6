-- ===== src/Relay/Attempts.antt =====
-- relay/relay.go: an event through the passes of a relay that each claim it and write its verdict.
use hmntsk.Prelude.{
  ◌∙◌, sym, ◌⊎◌, ◌+◌, ◌<◌, ◌≤◌, ℕ, String, ◌≡◌, refl, true, false, ◌||◌, List, [], ◌∷◌, pos, inc64,
  length, arith, Map, Bool-cases, inl, inr, if◌then◌else◌, ap,
}
use hmntsk.Task.{Time}
use hmntsk.Memstore.{OutboxRow}
use hmntsk.Outbox.{
  pending, delivered, dead_lettered, attempted_row, accepted_row, dead_row, release_row,
}
use hmntsk.Errors.{ok}
use hmntsk.Relay.Published.{is_publish, all_taken, decide-all_taken}
use hmntsk.Relay.{decide}
use hmntsk.Sink.{name_sinks, Relay, SinkResult, Fan, fan_out}
use hmntsk.Relay.Verdicts.{settled_row, settled_row-accepted, fan_out-accepted}

-- When an attempt is made, and the tallies and identifiers of the pass before it.
pub record Turn : Type 0 where
  pub now : Time
  pub tallies : Map SinkResult
  pub minted : ℕ

unfoldable pub attempt_row : Relay → Turn → OutboxRow → OutboxRow
unfolding settled_row
attempt_row r t entry =
    settled_row (decide r entry t.now (fan_out r entry t.tallies t.minted).fan) entry

-- Attempts are made as long as the entry is pending.
unfoldable pub attempt_rows : Relay → List Turn → OutboxRow → OutboxRow
unfolding attempt_row
attempt_rows r [] entry = entry
attempt_rows r (t ∷ ts) entry =
    let rest = attempt_rows r ts (attempt_row r t entry) in if pending entry then rest else entry

decided :
    (r : Relay) (entry : OutboxRow) (now : Time) (fan : Fan) (a m : ℕ)
    → entry.attempts ≡ pos a
    → r.max_attempts ≡ pos m
    → a < m
    → m ≤ 9223372036854775807
    → let row = settled_row (decide r entry now fan) entry in
      (pending row ≡ false) ⊎ ((row.attempts ≡ pos (a + 1)) × (a + 1 < m))
unfolding decide settled_row accepted_row dead_row attempted_row release_row pending inc64
decided r entry now fan a m ea em lt le = rw (ea, em) (ground (arith))

attempt_rows-not_pending :
    (r : Relay) (ts : List Turn) (entry : OutboxRow)
    → pending entry ≡ false
    → attempt_rows r ts entry ≡ entry
unfolding attempt_rows
attempt_rows-not_pending r [] entry h = refl
attempt_rows-not_pending r (t ∷ ts) entry h = rw h refl

not_pending :
    (entry : OutboxRow) → pending entry ≡ false → (delivered entry || dead_lettered entry) ≡ true
unfolding pending delivered dead_lettered
not_pending entry h = ground arith

attempt_rows-pending :
    (r : Relay) (t : Turn) (ts : List Turn) (entry : OutboxRow)
    → pending entry ≡ true
    → attempt_rows r (t ∷ ts) entry ≡ attempt_rows r ts (attempt_row r t entry)
unfolding attempt_rows
attempt_rows-pending r t ts entry h = rw h refl

-- An entry comes to an end: while it has had fewer attempts than the relay's limit, at most 2^63 - 1,
-- the attempts that are left make it delivered or dead-lettered, whatever the sinks answer.
pub attempt_rows-ends :
    (r : Relay) (ts : List Turn) (entry : OutboxRow) (a m : ℕ)
    → entry.attempts ≡ pos a
    → r.max_attempts ≡ pos m
    → a < m
    → m ≤ 9223372036854775807
    → m ≤ a + length ts
    → let row = attempt_rows r ts entry in (delivered row || dead_lettered row) ≡ true
attempt_rows-ends r [] entry a m ea em lt le enough = ground (arith)
attempt_rows-ends r (t ∷ ts) entry a m ea em lt le enough = elim (Bool-cases (pending entry)) [
  | inr over ↦ rw (attempt_rows-not_pending r (t ∷ ts) entry over) (not_pending entry over)
  | inl p ↦ elim (decided r entry t.now (fan_out r entry t.tallies t.minted).fan a m ea em lt le) [
    | inl over ↦ rw (attempt_rows-pending r t ts entry p) (
        rw (attempt_rows-not_pending r ts (attempt_row r t entry) (unfold attempt_row in over))
          (not_pending (attempt_row r t entry) (unfold attempt_row in over)))
    | inr (next, lt2) ↦ rw (attempt_rows-pending r t ts entry p) (
        attempt_rows-ends r ts (attempt_row r t entry) (a + 1) m (unfold attempt_row in next) em lt2
          le (omega (arith, enough)))
  ]
]

attempt_row-accepted :
    (r : Relay) (t : Turn) (entry : OutboxRow)
    → (attempt_row r t entry).accepted ≡ (fan_out r entry t.tallies t.minted).fan.accepted
unfolding attempt_row
attempt_row-accepted r t entry =
    settled_row-accepted r entry t.now t.tallies t.minted
    ∙ sym (fan_out-accepted r entry t.tallies t.minted)

published :
    (r : Relay) (entry : OutboxRow) (now : Time) (fan : Fan)
    → delivered entry ≡ false
    → delivered (settled_row (decide r entry now fan) entry) ≡ is_publish (decide r entry now fan)
unfolding decide settled_row accepted_row dead_row attempted_row release_row delivered
published r entry now fan h = ground arith

pending-delivered : (entry : OutboxRow) → delivered entry ≡ true → pending entry ≡ false
unfolding pending delivered
pending-delivered entry h = ground arith

attempt_row-all_taken :
    (r : Relay) (t : Turn) (entry : OutboxRow) (names : List String)
    → name_sinks r.sinks ≡ ok names
    → delivered entry ≡ false
    → delivered (attempt_row r t entry) ≡ true
    → all_taken (attempt_row r t entry).accepted r.sinks ≡ true
attempt_row-all_taken r t entry names h d e = rw (attempt_row-accepted r t entry) (
    sym (decide-all_taken r entry t.now t.tallies t.minted names h)
    ∙ sym (published r entry t.now (fan_out r entry t.tallies t.minted).fan d)
    ∙ unfold attempt_row in e)

-- For sinks that nameSinks accepts and an entry that is not delivered: however the attempts go, if
-- the entry is delivered after them then the name of every sink is recorded on it.
pub attempt_rows-all_taken :
    (r : Relay) (ts : List Turn) (entry : OutboxRow) (names : List String)
    → name_sinks r.sinks ≡ ok names
    → delivered entry ≡ false
    → delivered (attempt_rows r ts entry) ≡ true
    → all_taken (attempt_rows r ts entry).accepted r.sinks ≡ true
attempt_rows-all_taken r [] entry names h d e = unfold attempt_rows in cc
attempt_rows-all_taken r (t ∷ ts) entry names h d e = elim (Bool-cases (pending entry)) [
  | inr over ↦
      (let same : delivered entry ≡ true =
          ap delivered (sym (attempt_rows-not_pending r (t ∷ ts) entry over)) ∙ e in
        cc)
  | inl p ↦ elim (Bool-cases (delivered (attempt_row r t entry))) [
    | inl done ↦ rw (attempt_rows-pending r t ts entry p) (
        rw
          (attempt_rows-not_pending r ts (attempt_row r t entry)
            (pending-delivered (attempt_row r t entry) done))
          (attempt_row-all_taken r t entry names h d done))
    | inr more ↦ rw (attempt_rows-pending r t ts entry p) (
        attempt_rows-all_taken r ts (attempt_row r t entry) names h more
          (ap delivered (sym (attempt_rows-pending r t ts entry p)) ∙ e))
  ]
]
