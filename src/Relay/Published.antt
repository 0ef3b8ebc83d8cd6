-- ===== src/Relay/Published.antt =====
-- relay/relay.go: when the settlement of an event publishes it.
use hmntsk.Prelude.{
  suc, ℕ, ◌==◌, String, ◌≡◌, refl, ap, ◌∙◌, Bool, true, false, ◌&&◌, ◌||◌, List, [], ◌∷◌, ◌++◌,
  is_nil, contains, arith, eq_iff, Bool-cases, inl, inr, Map,
}
use hmntsk.Errors
use hmntsk.Errors.{Result, ok, err, Formatter}
use hmntsk.Task.{Time}
use hmntsk.Memstore.{OutboxRow}
use hmntsk.Outbox.{has_accepted}
use hmntsk.Relay.{Settlement, publish, decide}
use hmntsk.Sink.{
  attempt_of, mint_errors, Relay, Sink, SinkResult, Outcome, OutcomeStatus, unclassified,
  delivered_outcome, retryable, permanent, Offering, name_each, refuse, take_outcome, offer,
  offer_all, fan_out, name_sinks,
}

abbrev pub is_publish : Settlement → Bool
is_publish (publish a) = true
is_publish _ = false

-- Is the name of every sink in the list?
abbrev pub all_taken : List String → List Sink → Bool
all_taken names [] = true
all_taken names (s ∷ ss) = contains names s.name && all_taken names ss

abbrev NotNamed : String → List Sink → Type 0
NotNamed x [] = Unit {0}
NotNamed x (s ∷ ss) = ((s.name == x) ≡ false) × NotNamed x ss

-- Sinks of different names.
abbrev pub IsDistinct : List Sink → Type 0
IsDistinct [] = Unit {0}
IsDistinct (s ∷ ss) = NotNamed s.name ss × IsDistinct ss

contains-snoc :
    (xs : List String) (x y : String) → contains (xs ++ x ∷ []) y ≡ (contains xs y || x == y)
unfolding contains
contains-snoc [] x y = ground (arith, eq_iff x y)
contains-snoc (z ∷ xs) x y = ground (arith, contains-snoc xs x y)

is_nil-snoc : (xs : List String) (x : String) → is_nil (xs ++ x ∷ []) ≡ false
is_nil-snoc [] x = refl
is_nil-snoc (z ∷ xs) x = refl

-- One sink's verdict: what it does to the names and to the refusals.
take_outcome-failures :
    (f : Formatter) (name : String) (a : Outcome) (s : OutcomeStatus) (o : Offering)
    → contains o.fan.accepted name ≡ false
    → is_nil (take_outcome f name a s o).fan.failures
      ≡ (is_nil o.fan.failures && contains (take_outcome f name a s o).fan.accepted name)
unfolding take_outcome refuse
take_outcome-failures f name a delivered_outcome o h =
    rw contains-snoc (ground (arith, eq_iff name name))
take_outcome-failures f name a unclassified o h = rw is_nil-snoc (ground (arith))
take_outcome-failures f name a retryable o h = rw is_nil-snoc (ground (arith))
take_outcome-failures f name a permanent o h = rw is_nil-snoc (ground (arith))

take_outcome-other :
    (f : Formatter) (name : String) (a : Outcome) (s : OutcomeStatus) (o : Offering) (x : String)
    → (name == x) ≡ false
    → contains (take_outcome f name a s o).fan.accepted x ≡ contains o.fan.accepted x
unfolding take_outcome refuse
take_outcome-other f name a delivered_outcome o x h = rw contains-snoc (ground (arith))
take_outcome-other f name a unclassified o x h = refl
take_outcome-other f name a retryable o x h = refl
take_outcome-other f name a permanent o x h = refl

module _ (r : Relay) (entry : OutboxRow) where
  abbrev asked : Offering → Offering
  asked o = record o {
    reported = o.reported ++ mint_errors (r.mint o.minted);
    minted = suc o.minted;
  }

  abbrev answer : Sink → Offering → Outcome
  answer s o = s.deliver (attempt_of r entry o.minted)

  offer-failures :
      (s : Sink) (o : Offering)
      → contains o.fan.accepted s.name ≡ has_accepted entry s.name
      → is_nil (offer r entry s o).fan.failures
        ≡ (is_nil o.fan.failures && contains (offer r entry s o).fan.accepted s.name)
  unfolding offer
  offer-failures s o h = elim (Bool-cases (has_accepted entry s.name)) [
    | inl taken ↦ rw taken (ground (arith))
    | inr other ↦ rw other (
        take_outcome-failures r.formatter s.name (answer s o) (answer s o).status (asked o)
          (h ∙ other))
  ]

  offer-other :
      (s : Sink) (o : Offering) (x : String)
      → (s.name == x) ≡ false
      → contains (offer r entry s o).fan.accepted x ≡ contains o.fan.accepted x
  unfolding offer
  offer-other s o x h = elim (Bool-cases (has_accepted entry s.name)) [
    | inl taken ↦ rw taken refl
    | inr other ↦
        rw other
          (take_outcome-other r.formatter s.name (answer s o) (answer s o).status (asked o) x h)
  ]

  offer_all-other :
      (ss : List Sink) (o : Offering) (x : String)
      → NotNamed x ss
      → contains (offer_all r entry ss o).fan.accepted x ≡ contains o.fan.accepted x
  unfolding offer_all
  offer_all-other [] o x h = refl
  offer_all-other (s ∷ ss) o x h =
      offer_all-other ss (offer r entry s o) x h.1 ∙ offer-other s o x h.0

  -- Sinks that have not been offered the event yet stand as the row says.
  abbrev Unoffered : List Sink → Offering → Type 0
  Unoffered [] o = Unit {0}
  Unoffered (s ∷ ss) o =
      (contains o.fan.accepted s.name ≡ has_accepted entry s.name) × Unoffered ss o

  offer-Unoffered :
      (s : Sink) (ss : List Sink) (o : Offering)
      → NotNamed s.name ss
      → Unoffered ss o
      → Unoffered ss (offer r entry s o)
  offer-Unoffered s [] o h u = tt
  offer-Unoffered s (t ∷ ss) o h u = (
    offer-other s o t.name (ground (arith, h.0, eq_iff s.name t.name, eq_iff t.name s.name)) ∙ u.0,
    offer-Unoffered s ss o h.1 u.1,
  )

  offer_all-failures :
      (ss : List Sink) (o : Offering)
      → IsDistinct ss
      → Unoffered ss o
      → is_nil (offer_all r entry ss o).fan.failures
        ≡ (is_nil o.fan.failures && all_taken (offer_all r entry ss o).fan.accepted ss)
  unfolding offer_all
  offer_all-failures [] o d u = ground arith
  offer_all-failures (s ∷ ss) o d u =
      let now = offer r entry s o in
      let later = offer_all-failures ss now d.1 (offer-Unoffered s ss o d.0 u.1) in
      let kept = offer_all-other ss now s.name d.0 in
      let here = offer-failures s o u.0 in ground (arith, later, kept, here)

start-Unoffered :
    (r : Relay) (entry : OutboxRow) (ss : List Sink) (o : Offering)
    → o.fan.accepted ≡ entry.accepted
    → Unoffered r entry ss o
unfolding has_accepted
start-Unoffered r entry [] o h = tt
start-Unoffered r entry (s ∷ ss) o h =
    (ap (λ xs. contains xs s.name) h, start-Unoffered r entry ss o h)

decide-publish :
    (r : Relay) (entry : OutboxRow) (now : Time) (o : Offering)
    → is_publish (decide r entry now o.fan) ≡ is_nil o.fan.failures
unfolding decide
decide-publish r entry now o = ground arith

named_rest :
    (x : String) (o : Result (List String)) (names : List String)
    → Errors.◌>>=◌ o (λ ns. ok (x ∷ ns)) ≡ ok names
    → (ns : List String) × (o ≡ ok ns)
named_rest x (ok ns) names h = (ns, refl)
named_rest x (err e) names h = cc

name_each-cons :
    (s : Sink) (ss : List Sink) (seen names : List String)
    → name_each (s ∷ ss) seen ≡ ok names
    → (contains seen s.name ≡ false) × ((ns : List String) × (name_each ss (s.name ∷ seen) ≡ ok ns))
unfolding name_each
name_each-cons s ss seen names = elim (Bool-cases (s.name == "")) [
  | inl none ↦ rw none (λ h. cc)
  | inr named ↦ elim (Bool-cases (contains seen s.name)) [
    | inl twice ↦ rw (named, twice) (λ h. cc)
    | inr new ↦ rw (named, new) (λ h. (refl, named_rest s.name _ names h))
  ]
]

name_each-NotNamed :
    (ss : List Sink) (seen names : List String) (x : String)
    → name_each ss seen ≡ ok names
    → contains seen x ≡ true
    → NotNamed x ss
name_each-NotNamed [] seen names x h c = tt
name_each-NotNamed (s ∷ ss) seen names x h c =
    let (new, (ns, rest)) = name_each-cons s ss seen names h in
    (
      ground (arith, new, c, eq_iff s.name x),
      name_each-NotNamed ss (s.name ∷ seen) ns x rest (unfold contains in ground (arith, c)),
    )

name_each-IsDistinct :
    (ss : List Sink) (seen names : List String) → name_each ss seen ≡ ok names → IsDistinct ss
name_each-IsDistinct [] seen names h = tt
name_each-IsDistinct (s ∷ ss) seen names h =
    let (new, (ns, rest)) = name_each-cons s ss seen names h in
    (
      name_each-NotNamed ss (s.name ∷ seen) ns s.name rest
          (unfold contains in ground (arith, eq_iff s.name s.name)),
      name_each-IsDistinct ss (s.name ∷ seen) ns rest,
    )

-- A relay that could be made has sinks of different names.
named_sinks-IsDistinct :
    (ss : List Sink) (names : List String) → name_sinks ss ≡ ok names → IsDistinct ss
unfolding name_sinks
named_sinks-IsDistinct [] names h = tt
named_sinks-IsDistinct (s ∷ ss) names h = name_each-IsDistinct (s ∷ ss) [] names h

-- For sinks that nameSinks accepts, an attempt publishes the event exactly when the names that it
-- came to, those recorded before and those of the sinks that took the event now, hold the name of
-- every sink.
pub decide-all_taken :
    (r : Relay) (entry : OutboxRow) (now : Time) (tallies : Map SinkResult) (n : ℕ)
    (names : List String)
    → name_sinks r.sinks ≡ ok names
    → let fan = (fan_out r entry tallies n).fan in
      is_publish (decide r entry now fan) ≡ all_taken fan.accepted r.sinks
unfolding fan_out
decide-all_taken r entry now tallies n names h =
    decide-publish r entry now (fan_out r entry tallies n)
    ∙ offer_all-failures r entry r.sinks _ (named_sinks-IsDistinct r.sinks names h)
        (start-Unoffered r entry r.sinks _ refl)
