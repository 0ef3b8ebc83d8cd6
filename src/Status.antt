-- ===== src/Status.antt =====
-- status.go and transition_table.go: the lifecycle states and the table of legal moves.
-- A status is a Go string; the ten constants and the empty string are modelled.
pub mod Graph
use hmntsk.Prelude.{ℕ, String, Bool, true, false, ◌&&◌, ◌||◌, List, [], ◌∷◌, ℤ, pos, eqb, leb_ℤ}

pub data Status : Type 0 where
  created ready reserved in_progress suspended completed failed error exited obsolete : Status
  unset : Status

-- Statuses are compared as the strings that they are: one number for each.
abbrev pub code : Status → ℕ
code created = 0
code ready = 1
code reserved = 2
code in_progress = 3
code suspended = 4
code completed = 5
code failed = 6
code error = 7
code exited = 8
code obsolete = 9
code unset = 10

abbrev pub same : Status → Status → Bool
same a b = eqb (code a) (code b)

abbrev pub among : List Status → Status → Bool
among [] s = false
among (x ∷ xs) s = same x s || among xs s

abbrev pub all_statuses : List Status
all_statuses =
    created ∷ ready ∷ reserved ∷ in_progress ∷ suspended ∷ completed ∷ failed ∷ error ∷ exited
    ∷ obsolete ∷ []

unfoldable pub valid : Status → Bool
valid s = among all_statuses s

unfoldable pub is_terminal : Status → Bool
is_terminal completed = true
is_terminal failed = true
is_terminal error = true
is_terminal exited = true
is_terminal obsolete = true
is_terminal _ = false

unfoldable pub is_suspendable : Status → Bool
is_suspendable ready = true
is_suspendable reserved = true
is_suspendable in_progress = true
is_suspendable _ = false

abbrev pub Transition : Type 0
Transition = Status × Status

abbrev pub legal_transitions : List Transition
legal_transitions =
    (created, ready)
    ∷ (created, reserved)
    ∷ (created, error)
    ∷ (ready, reserved)
    ∷ (ready, suspended)
    ∷ (ready, obsolete)
    ∷ (ready, exited)
    ∷ (reserved, ready)
    ∷ (reserved, in_progress)
    ∷ (reserved, reserved)
    ∷ (reserved, suspended)
    ∷ (reserved, obsolete)
    ∷ (reserved, exited)
    ∷ (in_progress, reserved)
    ∷ (in_progress, completed)
    ∷ (in_progress, failed)
    ∷ (in_progress, error)
    ∷ (in_progress, suspended)
    ∷ (in_progress, exited)
    ∷ (suspended, ready)
    ∷ (suspended, reserved)
    ∷ (suspended, in_progress)
    ∷ (suspended, exited)
    ∷ []

-- The index of the table: is the pair among its keys?
abbrev pub listed : List Transition → Status → Status → Bool
listed [] from to = false
listed ((a, b) ∷ ts) from to = (same a from && same b to) || listed ts from to

unfoldable pub can_transition : Status → Status → Bool
can_transition from to = listed legal_transitions from to

-- The targets of the table's rows that leave one state, in the table's order.
unfoldable pub targets : List Transition → Status → List Status
targets [] from = []
targets ((a, b) ∷ ts) from =
    let rest = targets ts from in elim (same a from) [ true ↦ b ∷ rest | false ↦ rest ]

unfoldable pub allowed_transitions : Status → List Status
unfolding targets
allowed_transitions from = targets legal_transitions from

-- Priority: lower is more urgent.
unfoldable pub priority_valid : ℤ → Bool
priority_valid p = leb_ℤ (pos 0) p && leb_ℤ p (pos 10)

abbrev pub status_name : Status → String
status_name created = "CREATED"
status_name ready = "READY"
status_name reserved = "RESERVED"
status_name in_progress = "IN_PROGRESS"
status_name suspended = "SUSPENDED"
status_name completed = "COMPLETED"
status_name failed = "FAILED"
status_name error = "ERROR"
status_name exited = "EXITED"
status_name obsolete = "OBSOLETE"
status_name unset = ""
