-- ===== src/Assignment/Eligibility.antt =====
-- assignment.go: the two readings of a candidate pool, "may this actor act?" and "who may?".
use hmntsk.Prelude.{
  inl, inr, String, ◌==◌, ◌≡◌, refl, Bool, true, false, ◌&&◌, ◌||◌, not, List, [], ◌∷◌, Option,
  none, some, is_nil, contains, add_key, delete_key, contains-sort_strings, contains-add_key,
  contains-delete_key, arith, if◌then◌else◌, eq_iff,
}
use hmntsk.Errors.{Result, ok, err, Result-cases}
use hmntsk.Task.{CandidatePool}
use hmntsk.Assignment.{
  Directory, shares_group, is_eligible, add_named, add_groups, delete_all, resolve_candidates,
}

contains-add_named :
    (set us : List String) (a : String)
    → contains (add_named set us) a ≡ (contains set a || contains us a && not (a == ""))
unfolding add_named contains
contains-add_named set [] a = ground arith
contains-add_named set (u ∷ us) a = ground (
  arith,
  contains-add_named (if u == "" then set else add_key set u) us a,
  contains-add_key set u a,
  eq_iff u a,
  eq_iff u "",
  eq_iff a "",
)

contains-delete_all :
    (set xs : List String) (a : String)
    → contains (delete_all set xs) a ≡ (contains set a && not (contains xs a))
unfolding delete_all contains
contains-delete_all set [] a = ground arith
contains-delete_all set (x ∷ xs) a =
    ground (arith, contains-delete_all (delete_key set x) xs a, contains-delete_key set x a)

abbrev pub lists : Result (List String) → String → Bool
lists (ok ms) a = contains ms a
lists (err e) a = false

-- Does the directory list the actor as a member of one of the groups?
unfoldable pub member_of_any : Directory → List String → String → Bool
member_of_any d [] a = false
member_of_any d (g ∷ gs) a = lists (d.members_of g) a || member_of_any d gs a

contains-add_groups :
    (d : Directory) (pool : CandidatePool) (gs set : List String) (a : String) (set' : List String)
    → add_groups (some d) pool gs set ≡ ok set'
    → contains set' a ≡ (contains set a || member_of_any d gs a && not (a == ""))
unfolding add_groups member_of_any
contains-add_groups d pool [] set a set' h = ground arith
contains-add_groups d pool (g ∷ gs) set a set' h = elim (Result-cases (d.members_of g)) [
  | inl (ms, e) ↦
      ground (
        arith,
        contains-add_groups d pool gs (add_named set ms) a set',
        contains-add_named set ms a,
      )
  | inr (x, e) ↦ ground arith
]

shares_group-cons :
    (hs gs : List String) (g : String)
    → shares_group hs (g ∷ gs) ≡ (contains hs g || shares_group hs gs)
unfolding shares_group contains
shares_group-cons [] gs g = refl
shares_group-cons (h ∷ hs) gs g = ground (arith, shares_group-cons hs gs g, eq_iff g h, eq_iff h g)

pub shares_group-nil : (hs : List String) → shares_group hs [] ≡ false
unfolding shares_group contains
shares_group-nil [] = refl
shares_group-nil (h ∷ hs) = shares_group-nil hs

contains-nil : (a : String) → contains [] a ≡ false
unfolding contains
contains-nil a = refl

-- A directory whose two questions agree: a group is among an actor's groups exactly when the
-- actor is among its members. Nothing is asked of the calls that fail.
pub record IsConsistent (d : Directory) : Type 0 where
  pub agrees :
      (a g : String) (gs ms : List String)
      → d.groups_of a ≡ ok gs
      → d.members_of g ≡ ok ms
      → contains gs g ≡ contains ms a

-- Who a pool resolves to, without the sets and the order: the named users and the members of the
-- named groups, the excluded left out.
abbrev pub may_act : Directory → CandidatePool → String → Bool
may_act d pool a =
    not (a == "")
    && (contains pool.users a || member_of_any d pool.groups a)
    && not (contains pool.excluded a)

-- A pool that is resolved names exactly the actors who may act.
pub contains-resolve_candidates :
    (d : Directory) (pool : CandidatePool) (a : String) {es : List String}
    → resolve_candidates (some d) pool ≡ ok es
    → contains es a ≡ may_act d pool a
unfolding resolve_candidates
contains-resolve_candidates d pool a h =
    elim (Result-cases (add_groups (some d) pool pool.groups (add_named [] pool.users))) [
      | inl (set, e) ↦ ground (
        arith,
        contains-add_groups d pool pool.groups (add_named [] pool.users) a set,
        contains-add_named [] pool.users a,
        contains-sort_strings (delete_all set pool.excluded) a,
        contains-delete_all set pool.excluded a,
        contains-nil a,
      )
      | inr (x, e) ↦ ground arith
    ]

-- With a consistent directory that answers, sharing a group is being a member of one.
shares_group-eq-member_of_any :
    (d : Directory) (pool : CandidatePool) (a : String) (gs groups set : List String)
    (set' : List String)
    → IsConsistent d
    → d.groups_of a ≡ ok gs
    → add_groups (some d) pool groups set ≡ ok set'
    → shares_group gs groups ≡ member_of_any d groups a
unfolding add_groups member_of_any
shares_group-eq-member_of_any d pool a gs [] set set' c e h = shares_group-nil gs
shares_group-eq-member_of_any d pool a gs (g ∷ groups) set set' c e h =
    elim (Result-cases (d.members_of g)) [
      | inl (ms, m) ↦ ground (
        arith,
        shares_group-cons gs groups g,
        c.agrees a g gs ms e m,
        shares_group-eq-member_of_any d pool a gs groups (add_named set ms) set' c e,
      )
      | inr (x, m) ↦ ground arith
    ]

shares_group-resolved :
    (d : Directory) (pool : CandidatePool) (a : String) (gs : List String) {es : List String}
    → IsConsistent d
    → d.groups_of a ≡ ok gs
    → resolve_candidates (some d) pool ≡ ok es
    → shares_group gs pool.groups ≡ member_of_any d pool.groups a
unfolding resolve_candidates
shares_group-resolved d pool a gs c e h =
    elim (Result-cases (add_groups (some d) pool pool.groups (add_named [] pool.users))) [
      | inl (set, r) ↦
          shares_group-eq-member_of_any d pool a gs pool.groups (add_named [] pool.users) set c e r
      | inr (x, r) ↦ ground arith
    ]

member_of_any-nil :
    (d : Directory) (gs : List String) (a : String)
    → is_nil gs ≡ true
    → member_of_any d gs a ≡ false
unfolding member_of_any
member_of_any-nil d [] a h = refl
member_of_any-nil d (g ∷ gs) a h = cc

-- The two readings agree: with a consistent directory, an actor is found eligible exactly when the
-- pool resolves to them, whenever both questions are answered.
pub is_eligible-resolve_candidates :
    (d : Directory) (pool : CandidatePool) (a : String) {b : Bool} {es : List String}
    → IsConsistent d
    → is_eligible (some d) pool a ≡ ok b
    → resolve_candidates (some d) pool ≡ ok es
    → b ≡ contains es a
unfolding is_eligible
is_eligible-resolve_candidates d pool a {es} c h r = elim (Result-cases (d.groups_of a)) [
  | inl (gs, e) ↦ ground (
    arith,
    contains-resolve_candidates d pool a r,
    shares_group-resolved d pool a gs c e r,
    member_of_any-nil d pool.groups a,
  )
  | inr (x, e) ↦
      ground (arith, contains-resolve_candidates d pool a r, member_of_any-nil d pool.groups a)
]

unresolved_without_directory :
    (pool : CandidatePool) (gs set : List String) {es : List String}
    → add_groups none pool gs set ≡ ok es
    → set ≡ es
unfolding add_groups
unresolved_without_directory pool [] set h = ground arith
unresolved_without_directory pool (g ∷ gs) set h = ground arith

named_without_directory :
    (pool : CandidatePool) {es : List String}
    → resolve_candidates none pool ≡ ok es
    → contains es "" ≡ false
unfolding resolve_candidates
named_without_directory pool h =
    elim (Result-cases (add_groups none pool pool.groups (add_named [] pool.users))) [
      | inl (set, e) ↦ ground (
        arith,
        unresolved_without_directory pool pool.groups (add_named [] pool.users) e,
        contains-add_named [] pool.users "",
        contains-sort_strings (delete_all set pool.excluded) "",
        contains-delete_all set pool.excluded "",
        contains-nil "",
      )
      | inr (x, e) ↦ ground arith
    ]

-- A pool never resolves to the empty name, with a directory or without.
pub resolve_candidates-named :
    (d : Option Directory) (pool : CandidatePool) {es : List String}
    → resolve_candidates d pool ≡ ok es
    → contains es "" ≡ false
resolve_candidates-named (some d) pool h = ground (arith, contains-resolve_candidates d pool "" h)
resolve_candidates-named none pool h = named_without_directory pool h
