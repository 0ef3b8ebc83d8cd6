-- ===== src/Status/Graph.antt =====
-- transition_table.go: the two readings of the table of legal moves.
use hmntsk.Prelude.{◌||◌, Bool, false, ◌&&◌, ap, ◌≡◌, refl, true, List, [], ◌∷◌, is_nil}
use hmntsk.Status.{
  unset, Status, Transition, same, among, listed, targets, legal_transitions, can_transition,
  allowed_transitions, is_terminal, valid,
}

one_row :
    (leaves : Bool) (b to : Status) (rest : List Status) (more : Bool)
    → among rest to ≡ more
    → among (elim leaves [ true ↦ b ∷ rest | false ↦ rest ]) to ≡ ((leaves && same b to) || more)
one_row true b to rest more h = ap (λ x. same b to || x) h
one_row false b to rest more h = h

among-targets :
    (ts : List Transition) (from to : Status) → among (targets ts from) to ≡ listed ts from to
unfolding targets
among-targets [] from to = refl
among-targets ((a, b) ∷ ts) from to =
    one_row (same a from) b to (targets ts from) (listed ts from to) (among-targets ts from to)

terminal-is_nil : (s : Status) → valid s ≡ true → is_terminal s ≡ is_nil (allowed_transitions s)
unfolding allowed_transitions is_terminal valid targets
terminal-is_nil unset v = cc
terminal-is_nil _ v = refl

-- From a state that is one of the ten, a state is among the allowed next states exactly if the
-- table permits the move, and the first is terminal exactly if it allows none.
pub allowed_transitions-can_transition :
    (from to : Status)
    → valid from ≡ true
    → (among (allowed_transitions from) to ≡ can_transition from to)
      × (is_terminal from ≡ is_nil (allowed_transitions from))
unfolding allowed_transitions can_transition
allowed_transitions-can_transition from to v =
    (among-targets legal_transitions from to, terminal-is_nil from v)
