-- ===== src/Outbox/Leased.antt =====
-- memstore/outbox.go: the rows that a claim picks out, in order, up to its limit.
use hmntsk.Prelude.{
  sym, ap, ◌≤◌, ℕ, zero, suc, String, ◌==◌, ◌≡◌, refl, ◌∙◌, true, false, List, [], ◌∷◌, Option,
  none, some, get, put, Map, get-put, arith, eq_iff, ltb, length, Bool-cases, Option-cases, inl,
  inr, if◌then◌else◌,
}
use hmntsk.Task.{Time}
use hmntsk.Memstore.{OutboxRow, replace_row}
use hmntsk.Outbox.{
  OutboxClaim, find_row, row_due, insert_row, sort_rows, lease_row, lease_due, edit_all,
}
use hmntsk.Outbox.Rows.{KeyedRows, first_found, find_row-replace_row, put-KeyedRows}

-- Rows of different identifiers.
abbrev pub IsUnique : List OutboxRow → Type 0
IsUnique [] = Unit {0}
IsUnique (e ∷ es) = (find_row es e.event.id ≡ none) × IsUnique es

find_row-insert_row :
    (x : OutboxRow) (rs : List OutboxRow) (j : String)
    → find_row rs x.event.id ≡ none
    → find_row (insert_row x rs) j ≡ (if x.event.id == j then some x else find_row rs j)
unfolding find_row insert_row
find_row-insert_row x [] j n = refl
find_row-insert_row x (r ∷ rs) j n = ground (
  arith,
  find_row-insert_row x rs j,
  eq_iff r.event.id x.event.id,
  eq_iff r.event.id j,
  eq_iff x.event.id j,
)

insert_row-IsUnique :
    (x : OutboxRow) (rs : List OutboxRow)
    → find_row rs x.event.id ≡ none
    → IsUnique rs
    → IsUnique (insert_row x rs)
unfolding find_row insert_row
insert_row-IsUnique x [] n u = (refl, tt)
insert_row-IsUnique x (r ∷ rs) n u = ground (
  arith,
  insert_row-IsUnique x rs,
  find_row-insert_row x rs r.event.id,
  eq_iff r.event.id x.event.id,
  eq_iff x.event.id r.event.id,
)

pub find_row-sort_rows :
    (rs : List OutboxRow) (j : String) → IsUnique rs → find_row (sort_rows rs) j ≡ find_row rs j
unfolding find_row sort_rows
find_row-sort_rows [] j u = refl
find_row-sort_rows (r ∷ rs) j u =
    find_row-insert_row r (sort_rows rs) j (find_row-sort_rows rs r.event.id u.1 ∙ u.0)
    ∙ rw (find_row-sort_rows rs j u.1) refl

pub sort_rows-IsUnique : (rs : List OutboxRow) → IsUnique rs → IsUnique (sort_rows rs)
unfolding sort_rows
sort_rows-IsUnique [] u = tt
sort_rows-IsUnique (r ∷ rs) u =
    insert_row-IsUnique r (sort_rows rs) (find_row-sort_rows rs r.event.id u.1 ∙ u.0)
      (sort_rows-IsUnique rs u.1)

-- A claimed row is the due row of its identifier, leased.
abbrev pub Leases : OutboxClaim → Time → Option OutboxRow → Option OutboxRow → Type 0
Leases c now before none = Unit {0}
Leases c now before (some x) =
    (row : OutboxRow) × (before ≡ some row) × (row_due row now ≡ true) × (x ≡ lease_row c now row)

module _ (c : OutboxClaim) (now : Time) (n : ℕ) (r : OutboxRow) (rs : List OutboxRow) where
  lease_due-due :
      row_due r now ≡ true
      → lease_due c now (suc n) (r ∷ rs) ≡ lease_row c now r ∷ lease_due c now n rs
  unfolding lease_due
  lease_due-due h = ground arith

  lease_due-early :
      row_due r now ≡ false → lease_due c now (suc n) (r ∷ rs) ≡ lease_due c now (suc n) rs
  unfolding lease_due
  lease_due-early h = ground arith

lease_due-absent :
    (c : OutboxClaim) (now : Time) (n : ℕ) (rs : List OutboxRow) (j : String)
    → find_row rs j ≡ none
    → find_row (lease_due c now n rs) j ≡ none
unfolding find_row lease_due lease_row
lease_due-absent c now zero rs j a = refl
lease_due-absent c now (suc n) [] j a = refl
lease_due-absent c now (suc n) (r ∷ rs) j a =
    ground (arith, lease_due-absent c now n rs j, lease_due-absent c now (suc n) rs j)

cons-Leases :
    (c : OutboxClaim) (now : Time) (r : OutboxRow) (j : String) (rs ls : List OutboxRow)
    → row_due r now ≡ true
    → Leases c now (find_row rs j) (find_row ls j)
    → Leases c now (find_row (r ∷ rs) j) (find_row (lease_row c now r ∷ ls) j)
unfolding find_row lease_row
cons-Leases c now r j rs ls due rest = elim (Bool-cases (r.event.id == j)) [
  | inl same ↦ rw same (r, refl, due, refl)
  | inr other ↦ rw other rest
]

skip-Leases :
    (c : OutboxClaim) (now : Time) (r : OutboxRow) (j : String) (rs : List OutboxRow)
    (new : Option OutboxRow)
    → (r.event.id ≡ j → new ≡ none)
    → Leases c now (find_row rs j) new
    → Leases c now (find_row (r ∷ rs) j) new
unfolding find_row
skip-Leases c now r j rs none gone rest = tt
skip-Leases c now r j rs (some x) gone rest = elim (Bool-cases (r.event.id == j)) [
  | inl same ↦ let clash : some x ≡ none = gone ((eq_iff r.event.id j).0 same) in cc
  | inr other ↦ rw other rest
]

cons-IsUnique :
    (c : OutboxClaim) (now : Time) (r : OutboxRow) (ls : List OutboxRow)
    → find_row ls r.event.id ≡ none
    → IsUnique ls
    → IsUnique (lease_row c now r ∷ ls)
unfolding lease_row
cons-IsUnique c now r ls n u = (n, u)

pub find_row-lease_due :
    (c : OutboxClaim) (now : Time) (n : ℕ) (rs : List OutboxRow) (j : String)
    → IsUnique rs
    → Leases c now (find_row rs j) (find_row (lease_due c now n rs) j)
find_row-lease_due c now zero rs j u = unfold lease_due find_row in tt
find_row-lease_due c now (suc n) [] j u = unfold lease_due find_row in tt
find_row-lease_due c now (suc n) (r ∷ rs) j u = elim (Bool-cases (row_due r now)) [
  | inl due ↦
      rw (lease_due-due c now n r rs due)
        (cons-Leases c now r j rs (lease_due c now n rs) due (find_row-lease_due c now n rs j u.1))
  | inr early ↦ rw (lease_due-early c now n r rs early) (
      skip-Leases c now r j rs (find_row (lease_due c now (suc n) rs) j)
        (λ same. lease_due-absent c now (suc n) rs j (ap (find_row rs) (sym same) ∙ u.0))
        (find_row-lease_due c now (suc n) rs j u.1))
]

pub lease_due-IsUnique :
    (c : OutboxClaim) (now : Time) (n : ℕ) (rs : List OutboxRow)
    → IsUnique rs
    → IsUnique (lease_due c now n rs)
lease_due-IsUnique c now zero rs u = unfold lease_due in tt
lease_due-IsUnique c now (suc n) [] u = unfold lease_due in tt
lease_due-IsUnique c now (suc n) (r ∷ rs) u = elim (Bool-cases (row_due r now)) [
  | inl due ↦ rw (lease_due-due c now n r rs due) (
      cons-IsUnique c now r (lease_due c now n rs) (lease_due-absent c now n rs r.event.id u.0)
        (lease_due-IsUnique c now n rs u.1))
  | inr early ↦ rw (lease_due-early c now n r rs early) (lease_due-IsUnique c now (suc n) rs u.1)
]

pub length-lease_due :
    (c : OutboxClaim) (now : Time) (n : ℕ) (rs : List OutboxRow) → length (lease_due c now n rs) ≤ n
unfolding lease_due
length-lease_due c now zero rs = omega arith
length-lease_due c now (suc n) [] = omega arith
length-lease_due c now (suc n) (r ∷ rs) =
    ground (arith, length-lease_due c now n rs, length-lease_due c now (suc n) rs)

-- With room to spare, nothing that is due is passed over.
pub lease_due-all :
    (c : OutboxClaim) (now : Time) (n : ℕ) (rs : List OutboxRow) (j : String) (row : OutboxRow)
    → ltb (length (lease_due c now n rs)) n ≡ true
    → find_row rs j ≡ some row
    → row_due row now ≡ true
    → find_row (lease_due c now n rs) j ≡ some (lease_row c now row)
unfolding find_row lease_due lease_row
lease_due-all c now zero rs j row room f d = ground (arith)
lease_due-all c now (suc n) [] j row room f d = cc
lease_due-all c now (suc n) (r ∷ rs) j row room f d =
    ground (arith, lease_due-all c now n rs j row, lease_due-all c now (suc n) rs j row)

pub get-edit_all :
    (m : Map OutboxRow) (rs : List OutboxRow) (j : String)
    → IsUnique rs
    → get (edit_all m rs) j ≡ first_found (find_row rs j) (get m j)
unfolding find_row edit_all
get-edit_all m [] j u = refl
get-edit_all m (r ∷ rs) j u =
    get-edit_all (put m r.event.id r) rs j u.1 ∙ elim (Bool-cases (r.event.id == j)) [
      | inl same ↦
          rw (same, get-put m r.event.id j r)
            (rw same (rw (ap (find_row rs) (sym ((eq_iff r.event.id j).0 same)) ∙ u.0) refl))
      | inr other ↦ rw (other, get-put m r.event.id j r) (rw other refl)
    ]

pub edit_all-KeyedRows :
    (m : Map OutboxRow) (rs : List OutboxRow) → KeyedRows m → KeyedRows (edit_all m rs)
unfolding edit_all
edit_all-KeyedRows m [] k = k
edit_all-KeyedRows m (r ∷ rs) k =
    edit_all-KeyedRows (put m r.event.id r) rs (put-KeyedRows m r.event.id r refl k)

pub replace_row-IsUnique :
    (rs : List OutboxRow) (k : String) (x : OutboxRow)
    → x.event.id ≡ k
    → IsUnique rs
    → IsUnique (replace_row rs k x)
unfolding replace_row
replace_row-IsUnique [] k x e u = tt
replace_row-IsUnique (r ∷ rs) k x e u = ground (
  arith,
  replace_row-IsUnique rs k x e,
  find_row-replace_row rs k x r.event.id e,
  eq_iff r.event.id k,
  eq_iff k r.event.id,
  Option-cases (find_row rs r.event.id),
)
