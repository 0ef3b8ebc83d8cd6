-- ===== src/Assignment/Fixed.antt =====
-- assignment.go: StaticAssignment, the directory of a fixed map from groups to members.
use hmntsk.Prelude.{
  String, ◌==◌, ◌≡◌, refl, sym, ap, ◌∙◌, subst, eq_refl, Bool, true, false, ◌&&◌, ◌||◌, List, [],
  ◌∷◌, ◌++◌, Option, none, some, contains, contains-append, sort_strings, contains-sort_strings,
  Map, get, put, get-put, arith, eq_iff, if◌then◌else◌, Bool-cases, inl, inr,
}
use hmntsk.Errors.{ok}
use hmntsk.Assignment.{Directory}
use hmntsk.Assignment.Eligibility.{IsConsistent}

pub record StaticAssignment : Type 0 where
  pub members : Map (List String)
  pub groups : Map (List String)

-- A missing key is Go's nil slice.
abbrev pub or_nil : Option (List String) → List String
or_nil none = []
or_nil (some xs) = xs

abbrev pub got : Map (List String) → String → List String
got m k = or_nil (get m k)

-- static.groups[actor] = append(static.groups[actor], group), for each actor.
unfoldable pub add_members : Map (List String) → String → List String → Map (List String)
add_members m group [] = m
add_members m group (a ∷ actors) = add_members (put m a (got m a ++ group ∷ [])) group actors

unfoldable pub add_all : Map (List String) → Map (List String) → Map (List String)
unfolding add_members
add_all m [] = m
add_all m ((group, actors) ∷ rest) = add_all (add_members m group actors) rest

unfoldable pub sort_groups : Map (List String) → Map (List String)
sort_groups [] = []
sort_groups ((actor, groups) ∷ m) = (actor, sort_strings groups) ∷ sort_groups m

unfoldable pub new_static_assignment : Map (List String) → StaticAssignment
unfolding add_all sort_groups
new_static_assignment members = record {
  members = members;
  groups = sort_groups (add_all [] members);
}

-- GroupsOf and MembersOf
unfoldable pub static_directory : StaticAssignment → Directory
static_directory s = record {
  groups_of = λ a. ok (got s.groups a);
  members_of = λ g. ok (got s.members g);
}

-- Each key once, as in a Go map.
abbrev pub HasOwnKeys : Map (List String) → Type 0
HasOwnKeys [] = Unit {0}
HasOwnKeys ((k, v) ∷ m) = (get m k ≡ none) × HasOwnKeys m

or_nil_if :
    (b : Bool) (v : List String) (o : Option (List String))
    → or_nil (if b then some v else o) ≡ (if b then v else or_nil o)
or_nil_if true v o = refl
or_nil_if false v o = refl

got-put :
    (m : Map (List String)) (k j : String) (v : List String)
    → got (put m k v) j ≡ (if k == j then v else got m j)
got-put m k j v = ap or_nil (get-put m k j v) ∙ or_nil_if (k == j) v (get m j)

got-cons :
    (m : Map (List String)) (k j : String) (v : List String)
    → got ((k, v) ∷ m) j ≡ (if k == j then v else got m j)
unfolding get
got-cons m k j v = or_nil_if (k == j) v (get m j)

contains-snoc :
    (xs : List String) (g h : String) → contains (xs ++ g ∷ []) h ≡ (contains xs h || g == h)
unfolding contains
contains-snoc xs g h = ground (arith, contains-append xs (g ∷ []) h)

contains-put :
    (m : Map (List String)) (x g a h : String)
    → contains (got (put m x (got m x ++ g ∷ [])) a) h
      ≡ (contains (got m a) h || (x == a && g == h))
contains-put m x g a h = elim (Bool-cases (x == a)) [
  | inl same ↦
      subst
        (λ y.
          contains (got (put m x (got m x ++ g ∷ [])) y) h
          ≡ (contains (got m y) h || (x == y && g == h)))
        ((eq_iff x a).0 same)
        (ap (λ l. contains l h) (got-put m x x (got m x ++ g ∷ []))
          ∙ rw (eq_refl x) (contains-snoc (got m x) g h))
  | inr other ↦
      ap (λ l. contains l h) (got-put m x a (got m x ++ g ∷ [])) ∙ rw other (ground (arith))
]

contains-add_members :
    (m : Map (List String)) (g : String) (actors : List String) (a h : String)
    → contains (got (add_members m g actors) a) h
      ≡ (contains (got m a) h || (contains actors a && g == h))
unfolding add_members contains
contains-add_members m g [] a h = ground arith
contains-add_members m g (x ∷ actors) a h =
    ground (
      arith,
      contains-add_members (put m x (got m x ++ g ∷ [])) g actors a h,
      contains-put m x g a h,
    )

absent :
    (m : Map (List String)) (g h a : String) → get m g ≡ none → g ≡ h → contains (got m h) a ≡ false
unfolding contains
absent m g h a n e = ap (λ o. contains (or_nil o) a) (ap (get m) (sym e) ∙ n)

contains-if :
    (b : Bool) (xs ys : List String) (a : String)
    → contains (if b then xs else ys) a ≡ (if b then contains xs a else contains ys a)
contains-if true xs ys a = refl
contains-if false xs ys a = refl

contains-got_cons :
    (m : Map (List String)) (k j a : String) (v : List String)
    → contains (got ((k, v) ∷ m) j) a ≡ (if k == j then contains v a else contains (got m j) a)
contains-got_cons m k j a v =
    ap (λ l. contains l a) (got-cons m k j v) ∙ contains-if (k == j) v (got m j) a

contains-add_all :
    (m ms : Map (List String)) (a h : String)
    → HasOwnKeys ms
    → contains (got (add_all m ms) a) h ≡ (contains (got m a) h || contains (got ms h) a)
contains-add_all m [] a h k = unfold add_all get contains in ground arith
contains-add_all m ((g, actors) ∷ ms) a h k =
    more m g actors ms a h k (contains-add_all (add_members m g actors) ms a h k.1)
  where
    more :
        (m : Map (List String)) (g : String) (actors : List String) (ms : Map (List String))
        (a h : String)
        → HasOwnKeys ((g, actors) ∷ ms)
        → contains (got (add_all (add_members m g actors) ms) a) h
          ≡ (contains (got (add_members m g actors) a) h || contains (got ms h) a)
        → contains (got (add_all m ((g, actors) ∷ ms)) a) h
          ≡ (contains (got m a) h || contains (got ((g, actors) ∷ ms) h) a)
    more m g actors ms a h k ih =
        unfold add_all in
        ground (
          arith,
          ih,
          contains-add_members m g actors a h,
          contains-got_cons ms g h a actors,
          absent ms g h a k.0,
          eq_iff g h,
        )

contains-sort_groups :
    (m : Map (List String)) (a h : String)
    → contains (got (sort_groups m) a) h ≡ contains (got m a) h
unfolding sort_groups
contains-sort_groups [] a h = refl
contains-sort_groups ((x, gs) ∷ m) a h = ground (
  arith,
  contains-got_cons (sort_groups m) x a h (sort_strings gs),
  contains-got_cons m x a h gs,
  contains-sort_strings gs h,
  contains-sort_groups m a h,
)

empty_groups : (a g : String) → contains (got [] a) g ≡ false
unfolding get contains
empty_groups a g = refl

-- A directory of a fixed map answers consistently: a group is among an actor's groups exactly when
-- the map lists the actor under the group.
pub new_static_assignment-IsConsistent :
    (members : Map (List String))
    → HasOwnKeys members
    → IsConsistent (static_directory (new_static_assignment members))
unfolding static_directory new_static_assignment
new_static_assignment-IsConsistent members k = record {
  agrees = λ a g gs ms h h'. ground (
    arith,
    contains-sort_groups (add_all [] members) a g,
    contains-add_all [] members a g k,
    empty_groups a g,
  );
}
