-- ===== src/Outbox/Rows.antt =====
-- memstore/outbox.go: finding rows among committed, edited and appended ones.
use hmntsk.Prelude.{
  String, ◌==◌, ◌≡◌, refl, ◌∙◌, false, List, [], ◌∷◌, ◌++◌, Option, none, some, Map, get, put,
  get-put, arith, eq_iff, Option-cases, inl, inr, if◌then◌else◌,
}
use hmntsk.Memstore.{OutboxRow, replace_row, apply_edits}
use hmntsk.Outbox.{or_row, edit_rows, find_row, holds_row}

-- Edits stand under the identifiers of their rows, each once.
abbrev pub KeyedRows : Map OutboxRow → Type 0
KeyedRows [] = Unit {0}
KeyedRows ((k, r) ∷ m) = (r.event.id ≡ k) × (get m k ≡ none) × KeyedRows m

abbrev pub or_found : Option OutboxRow → Option OutboxRow → Option OutboxRow
or_found edit none = none
or_found edit (some row) = some (or_row edit row)

abbrev pub first_found : Option OutboxRow → Option OutboxRow → Option OutboxRow
first_found none o = o
first_found (some row) o = some row

pub find_row-append :
    (rs rs' : List OutboxRow) (id : String)
    → find_row (rs ++ rs') id ≡ first_found (find_row rs id) (find_row rs' id)
unfolding find_row
find_row-append [] rs' id = refl
find_row-append (r ∷ rs) rs' id = ground (arith, find_row-append rs rs' id)

pub find_row-id :
    (rs : List OutboxRow) (id : String) (r : OutboxRow) → find_row rs id ≡ some r → r.event.id ≡ id
unfolding find_row
find_row-id [] id r h = cc
find_row-id (x ∷ rs) id r h = ground (arith, find_row-id rs id r, eq_iff x.event.id id)

pub holds_row-find_row :
    (rs : List OutboxRow) (id : String) → holds_row rs id ≡ false → find_row rs id ≡ none
unfolding find_row holds_row
holds_row-find_row [] id h = refl
holds_row-find_row (x ∷ rs) id h = ground (arith, holds_row-find_row rs id)

get-keyed :
    (m : Map OutboxRow) (k : String) (r : OutboxRow)
    → KeyedRows m
    → get m k ≡ some r
    → r.event.id ≡ k
unfolding get
get-keyed [] k r w h = cc
get-keyed ((j, x) ∷ m) k r w h = ground (arith, get-keyed m k r, eq_iff j k)

pub find_row-edit_rows :
    (m : Map OutboxRow) (rs : List OutboxRow) (id : String)
    → KeyedRows m
    → find_row (edit_rows m rs) id ≡ or_found (get m id) (find_row rs id)
unfolding find_row edit_rows
find_row-edit_rows m [] id w = refl
find_row-edit_rows m (r ∷ rs) id w = elim (Option-cases (get m r.event.id)) [
  | inl e ↦ rw e (ground (arith, find_row-edit_rows m rs id w, eq_iff r.event.id id))
  | inr (x, e) ↦ rw e (
      ground (
        arith,
        find_row-edit_rows m rs id w,
        get-keyed m r.event.id x w e,
        eq_iff r.event.id id,
        eq_iff x.event.id id,
      ))
]

pub find_row-replace_row :
    (rs : List OutboxRow) (k : String) (x : OutboxRow) (id : String)
    → x.event.id ≡ k
    → find_row (replace_row rs k x) id
      ≡ (if k == id then or_found (some x) (find_row rs id) else find_row rs id)
unfolding find_row replace_row
find_row-replace_row [] k x id e = ground arith
find_row-replace_row (r ∷ rs) k x id e = ground (
  arith,
  find_row-replace_row rs k x id,
  eq_iff r.event.id k,
  eq_iff r.event.id id,
  eq_iff k id,
  eq_iff x.event.id id,
)

pub put-KeyedRows :
    (m : Map OutboxRow) (k : String) (x : OutboxRow)
    → x.event.id ≡ k
    → KeyedRows m
    → KeyedRows (put m k x)
unfolding put get
put-KeyedRows [] k x e w = (e, refl, tt)
put-KeyedRows ((j, y) ∷ m) k x e w =
    ground (arith, put-KeyedRows m k x, get-put m k j x, eq_iff j k, eq_iff k j)

-- Committing the edits one by one finds what the scope saw.
pub find_row-apply_edits :
    (m : Map OutboxRow) (rs : List OutboxRow) (id : String)
    → KeyedRows m
    → find_row (apply_edits rs m) id ≡ or_found (get m id) (find_row rs id)
unfolding apply_edits get
find_row-apply_edits [] rs id w = elim (Option-cases (find_row rs id)) [
  | inl e ↦ rw e
  | inr (r, e) ↦ rw e
]
find_row-apply_edits ((k, x) ∷ m) rs id w =
    find_row-apply_edits m (replace_row rs k x) id w.2
    ∙ ground (arith, find_row-replace_row rs k x id, eq_iff k id)
