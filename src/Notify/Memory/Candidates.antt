-- ===== src/Notify/Memory/Candidates.antt =====
-- Prune of notify/memory.go: the notifications that its loops go through are there, and different.
use Prim.Native.Nat.{Ordering}
use hmntsk.Prelude.{
  String, ◌==◌, eq_iff, eq_refl, ◌≡◌, refl, sym, ap, ◌∙◌, subst, Bool, true, false, ◌||◌, List, [],
  ◌∷◌, none, some, contains, Map, get, Bool-cases, inl, inr, arith,
}
use hmntsk.Prelude.Tables.{HasDistinctKeys}
use hmntsk.Prelude.Ranking.{is_lt, insert_by, sort_by}
use hmntsk.Notify.{Notification}
use hmntsk.Notify.Memory.Removals.{Candidates, ids_held, values}
use hmntsk.Notify.Pruning.{held_by}

-- Entries of a map, each under its identifier.
abbrev pub HasOwnIds : Map Notification → Type 0
HasOwnIds m = (id : String) (n : Notification) → get m id ≡ some n → n.id ≡ id

-- Those that may be taken are in the other map too.
abbrev pub IsWithin : (Notification → Bool) → Map Notification → Map Notification → Type 0
IsWithin taken m big =
    (id : String) (n : Notification) → get m id ≡ some n → taken n ≡ true → get big id ≡ some n

tail_within :
    (k : String) (v : Notification) (m : Map Notification)
    → get m k ≡ none
    → (id : String) (n : Notification) → get m id ≡ some n
    → get ((k, v) ∷ m) id ≡ some n
unfolding get
tail_within k v m h id n e = ground (arith, eq_iff k id)

first_within : (k : String) (v : Notification) (m : Map Notification) → get ((k, v) ∷ m) k ≡ some v
unfolding get
first_within k v m = ground (arith, eq_refl k)

values-absent :
    (m : Map Notification) (id : String)
    → HasDistinctKeys m
    → HasOwnIds m
    → get m id ≡ none
    → contains (ids_held (values m)) id ≡ false
unfolding contains get
values-absent [] id d o h = refl
values-absent ((k, v) ∷ m) id d o h =
    let own : v.id ≡ k = o k v (first_within k v m) in
    ground (
      arith,
      values-absent m id d.1 (λ j n e. o j n (tail_within k v m d.0 j n e)),
      eq_iff v.id id,
      eq_iff k id,
    )

pub values-Candidates :
    (taken : Notification → Bool) (m big : Map Notification)
    → HasDistinctKeys m
    → HasOwnIds m
    → IsWithin taken m big
    → Candidates taken (values m) big
values-Candidates taken [] big d o w = tt
values-Candidates taken ((k, v) ∷ m) big d o w =
    let own : v.id ≡ k = o k v (first_within k v m) in
    let rest : HasOwnIds m = λ j n e. o j n (tail_within k v m d.0 j n e) in
    (
      λ e. subst (λ i. get big i ≡ some v) (sym own) (w k v (first_within k v m) e),
      subst (λ i. contains (ids_held (values m)) i ≡ false) (sym own)
          (values-absent m k d.1 rest d.0),
      values-Candidates taken m big d.1 rest (λ j n e t. w j n (tail_within k v m d.0 j n e) t),
    )

contains-held_by :
    (recipient : String) (m : Map Notification) (id : String)
    → contains (ids_held (values m)) id ≡ false
    → contains (ids_held (held_by recipient m)) id ≡ false
unfolding contains held_by
contains-held_by recipient [] id h = refl
contains-held_by recipient ((k, v) ∷ m) id h = ground (arith, contains-held_by recipient m id)

pub held_by-Candidates :
    (taken : Notification → Bool) (recipient : String) (m big : Map Notification)
    → Candidates taken (values m) big
    → Candidates taken (held_by recipient m) big
unfolding held_by
held_by-Candidates taken recipient [] big p = tt
held_by-Candidates taken recipient ((k, v) ∷ m) big p =
    elim (Bool-cases (v.recipient == recipient)) [
      | inl e ↦
          rw (held_by, e)
            (
              p.0,
              contains-held_by recipient m v.id p.1,
              held_by-Candidates taken recipient m big p.2,
            )
      | inr e ↦ rw (held_by, e) (held_by-Candidates taken recipient m big p.2)
    ]

module _ (c : Notification → Notification → Ordering) where
  contains-insert_by :
      (n : Notification) (ns : List Notification) (id : String)
      → contains (ids_held (insert_by c n ns)) id ≡ (n.id == id || contains (ids_held ns) id)
  unfolding contains insert_by
  contains-insert_by n [] id = refl
  contains-insert_by n (x ∷ ns) id = ground (arith, contains-insert_by n ns id)

  contains-sort_by :
      (ns : List Notification) (id : String)
      → contains (ids_held (sort_by c ns)) id ≡ contains (ids_held ns) id
  unfolding contains sort_by
  contains-sort_by [] id = refl
  contains-sort_by (n ∷ ns) id =
      contains-insert_by n (sort_by c ns) id ∙ ap (λ b. n.id == id || b) (contains-sort_by ns id)

  insert-apart :
      (taken : Notification → Bool) (n x : Notification) (ns : List Notification)
      (m : Map Notification)
      → Candidates taken (n ∷ x ∷ ns) m
      → contains (ids_held (insert_by c n ns)) x.id ≡ false
  unfolding contains
  insert-apart taken n x ns m p =
      ground (arith, contains-insert_by n ns x.id, p.1, p.2.1, eq_iff n.id x.id, eq_iff x.id n.id)

  insert_by-Candidates :
      (taken : Notification → Bool) (n : Notification) (ns : List Notification)
      (m : Map Notification)
      → Candidates taken (n ∷ ns) m
      → Candidates taken (insert_by c n ns) m
  unfolding insert_by contains
  insert_by-Candidates taken n [] m p = p
  insert_by-Candidates taken n (x ∷ ns) m p = elim (Bool-cases (is_lt (c x n))) [
    | inl e ↦ rw e (
      p.2.0,
      (insert-apart taken n x ns m p),
      insert_by-Candidates taken n ns m (p.0, (ground (arith, p.1)), p.2.2),
    )
    | inr e ↦ rw e p
  ]

  pub sort_by-Candidates :
      (taken : Notification → Bool) (ns : List Notification) (m : Map Notification)
      → Candidates taken ns m
      → Candidates taken (sort_by c ns) m
  unfolding sort_by
  sort_by-Candidates taken [] m p = tt
  sort_by-Candidates taken (n ∷ ns) m p =
      insert_by-Candidates taken n (sort_by c ns) m
        (p.0, contains-sort_by ns n.id ∙ p.1, sort_by-Candidates taken ns m p.2)
