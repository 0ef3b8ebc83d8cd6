-- ===== src/Outbox/Settled.antt =====
-- memstore/outbox.go: what the writes of a relay leave in the outbox, in a scope and after it.
use mathlib.Core.List.{append-nil}
use hmntsk.Prelude.{
  ◌⊎◌, String, ◌==◌, ◌≡◌, refl, sym, ap, ◌∙◌, true, false, List, [], ◌∷◌, ◌++◌, Option, none, some,
  get, put, arith, eq_iff, Bool-cases, Option-cases, inl, inr, if◌then◌else◌,
}
use hmntsk.Errors.{Result, ok, err, outbox_not_found_error}
use hmntsk.Memstore.{
  close_scope, committed_with, OutboxRow, World, Data, Tx, new_tx, apply_edits, commit, do_tx,
}
use hmntsk.Outbox.{edit_found, edit_rows, outbox_snapshot, find_row, holds_row, edit_outbox}
use hmntsk.Outbox.Rows.{
  KeyedRows, or_found, first_found, find_row-append, find_row-id, holds_row-find_row,
  find_row-edit_rows, find_row-apply_edits,
}

-- The entry that a reader of the store finds.
abbrev pub entry_at : Data → Option Tx → String → Option OutboxRow
entry_at d o id = find_row (outbox_snapshot (record { committed = d; tx = o })) id

-- The rows that the scope appended are neither edited apart nor among the committed ones.
pub record IsTidy (d : Data) (t : Tx) : Type 0 where
  pub keyed : KeyedRows t.outbox_edits
  pub unedited : (id : String) → holds_row t.outbox id ≡ true → get t.outbox_edits id ≡ none
  pub fresh : (id : String) → holds_row t.outbox id ≡ true → find_row d.outbox id ≡ none

entry_in_scope :
    (d : Data) (t : Tx) (id : String)
    → KeyedRows t.outbox_edits
    → entry_at d (some t) id
      ≡ first_found (or_found (get t.outbox_edits id) (find_row d.outbox id)) (find_row t.outbox id)
unfolding outbox_snapshot
entry_in_scope d t id w =
    find_row-append (edit_rows t.outbox_edits d.outbox) t.outbox id
    ∙ ap (λ o. first_found o (find_row t.outbox id))
        (find_row-edit_rows t.outbox_edits d.outbox id w)

own_row :
    (edit old own : Option OutboxRow)
    → (own ≡ none) ⊎ ((edit ≡ none) × (old ≡ none))
    → or_found edit (first_found old own) ≡ first_found (or_found edit old) own
own_row none none own h = ground arith
own_row none (some r) own h = refl
own_row (some e) none own h = ground arith
own_row (some e) (some r) own h = refl

own_or_not :
    (d : Data) (t : Tx) (id : String)
    → IsTidy d t
    → (find_row t.outbox id ≡ none)
      ⊎ ((get t.outbox_edits id ≡ none) × (find_row d.outbox id ≡ none))
own_or_not d t id w = elim (Bool-cases (holds_row t.outbox id)) [
  | inl own ↦ inr (w.unedited id own, w.fresh id own)
  | inr other ↦ inl (holds_row-find_row t.outbox id other)
]

-- What a scope sees of each entry is what everyone finds once it has committed.
pub entry_at-commit :
    (d : Data) (t : Tx) (id : String)
    → IsTidy d t
    → entry_at (commit d t) none id ≡ entry_at d (some t) id
unfolding commit outbox_snapshot
entry_at-commit d t id w =
    find_row-apply_edits t.outbox_edits (d.outbox ++ t.outbox) id w.keyed
    ∙ ap (or_found (get t.outbox_edits id)) (find_row-append d.outbox t.outbox id)
    ∙ own_row (get t.outbox_edits id) (find_row d.outbox id) (find_row t.outbox id)
        (own_or_not d t id w)
    ∙ sym (entry_in_scope d t id w.keyed)

abbrev pub AfterEdit :
    Result (Unit {0}) × World → (OutboxRow → OutboxRow) → Data → String → Option OutboxRow → Type 0
AfterEdit o edit d id none =
    o ≡ (err (outbox_not_found_error id), record { committed = d; tx = none })
AfterEdit o edit d id (some row) =
    (o.0 ≡ ok tt)
    × (o.1.tx ≡ none)
    × ((j : String)
        → find_row o.1.committed.outbox j
          ≡ (if id == j then some (edit row) else find_row d.outbox j))

fresh_rows :
    (rs : List OutboxRow) (id : String) → find_row (edit_rows [] rs ++ []) id ≡ find_row rs id
unfolding get
fresh_rows rs id =
    find_row-append (edit_rows [] rs) [] id
    ∙ ap (λ o. first_found o (find_row [] id)) (find_row-edit_rows [] rs id tt)
    ∙ same_found (find_row rs id)
  where
    same_found : (o : Option OutboxRow) → first_found (or_found none o) (find_row [] id) ≡ o
    same_found none = unfold find_row in refl
    same_found (some r) = refl

one_edit :
    (d : Data) (id : String) (x row : OutboxRow) (j : String)
    → x.event.id ≡ id
    → find_row d.outbox id ≡ some row
    → find_row (apply_edits (d.outbox ++ []) ((id, x) ∷ [])) j
      ≡ (if id == j then some x else find_row d.outbox j)
unfolding get
one_edit d id x row j e h =
    find_row-apply_edits ((id, x) ∷ []) (d.outbox ++ []) j (e, refl, tt)
    ∙ rw append-nil (elim (Bool-cases (id == j)) [
      | inl same ↦
          let there : find_row d.outbox j ≡ some row =
            ap (find_row d.outbox) (sym ((eq_iff id j).0 same)) ∙ h in
          rw (same, there)
      | inr other ↦
          rw other (elim (Option-cases (find_row d.outbox j)) [ inl n ↦ rw n | inr (r, n) ↦ rw n ])
    ])

committed_edit :
    (d : Data) (id : String) (edit : OutboxRow → OutboxRow) (o : Option OutboxRow)
    → ((r : OutboxRow) → (edit r).event.id ≡ r.event.id)
    → find_row d.outbox id ≡ o
    → AfterEdit
        (close_scope false
          (record { committed = d; tx = none })
          (edit_found (record { committed = d; tx = some new_tx }) new_tx id edit o))
        edit
        d
        id
        o
unfolding close_scope edit_found new_tx committed_with commit put
committed_edit d id edit none keeps h = refl
committed_edit d id edit (some row) keeps h =
    (refl, refl, λ j. one_edit d id (edit row) row j (keeps row ∙ find_row-id d.outbox id row h) h)

-- A write to the outbox in a transaction of its own changes the entry that it names as the write
-- says, and no other entry; when there is no such entry it fails and changes nothing.
pub edit_outbox-committed :
    (d : Data) (operation id : String) (edit : OutboxRow → OutboxRow)
    → ((r : OutboxRow) → (edit r).event.id ≡ r.event.id)
    → AfterEdit
        (do_tx false (edit_outbox operation id edit) (record { committed = d; tx = none }))
        edit
        d
        id
        (find_row d.outbox id)
unfolding do_tx edit_outbox
edit_outbox-committed d operation id edit keeps =
    rw (fresh_rows d.outbox id) (committed_edit d id edit (find_row d.outbox id) keeps refl)
