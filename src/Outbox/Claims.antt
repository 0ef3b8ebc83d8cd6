-- ===== src/Outbox/Claims.antt =====
-- memstore/outbox.go: ClaimDueEvents in a transaction of its own, and two claims one after the other.
use mathlib.Core.List.{append-nil}
use hmntsk.Prelude.{
  ◌+◌, ◌<◌, ◌≤◌, ℕ, String, ◌≡◌, refl, sym, ap, ◌∙◌, subst, true, false, List, [], ◌∷◌, ◌++◌,
  Option, none, some, get, pos, arith, ltb, length, Map,
}
use hmntsk.Errors.{Result, ok, err}
use hmntsk.Task.{Time, normalize_time}
use hmntsk.Memstore.{
  replace_row, OutboxRow, World, Data, new_tx, close_scope, committed_with, commit, apply_edits,
  do_tx,
}
use hmntsk.Outbox.{
  OutboxClaim, claim_limit, edit_rows, find_row, row_due, lease_row, lease_due, sort_rows, edit_all,
  claim_due_events,
}
use hmntsk.Outbox.Rows.{first_found, KeyedRows, or_found, find_row-apply_edits}
use hmntsk.Outbox.Leased.{
  IsUnique, Leases, find_row-sort_rows, sort_rows-IsUnique, find_row-lease_due, lease_due-IsUnique,
  length-lease_due, lease_due-all, get-edit_all, edit_all-KeyedRows, replace_row-IsUnique,
}

-- What a claim makes of one entry: a claimed one was due and is stored as it was handed out, with
-- the claim's lease, and any other stays as it was.
abbrev pub Claimed :
    OutboxClaim → Time → Option OutboxRow → Option OutboxRow → Option OutboxRow → Type 0
Claimed c now before none after = after ≡ before
Claimed c now before (some x) after = Leases c now before (some x) × (after ≡ some x)

pub record IsClaim (c : OutboxClaim) (d : Data) (ls : List OutboxRow) (w : World) : Type 0 where
  pub closed : w.tx ≡ none
  pub different : IsUnique ls
  pub within : length ls ≤ claim_limit c
  pub entries :
      (j : String)
      → Claimed c
          (normalize_time c.now)
          (find_row d.outbox j)
          (find_row ls j)
          (find_row w.committed.outbox j)
  pub complete :
      (j : String) (row : OutboxRow)
      → ltb (length ls) (claim_limit c) ≡ true
      → find_row d.outbox j ≡ some row
      → row_due row (normalize_time c.now) ≡ true
      → find_row ls j ≡ some (lease_row c (normalize_time c.now) row)
  pub stays : IsUnique w.committed.outbox

unedited : (rs : List OutboxRow) → edit_rows [] rs ≡ rs
unfolding edit_rows get
unedited [] = refl
unedited (r ∷ rs) = ap (λ l. r ∷ l) (unedited rs)

abbrev claimed_rows : OutboxClaim → Data → List OutboxRow
claimed_rows c d = lease_due c (normalize_time c.now) (claim_limit c) (sort_rows d.outbox)

abbrev after_claim : OutboxClaim → World → Result (List OutboxRow) × World
after_claim c w = do_tx false (claim_due_events c) w

abbrev leased_outbox : OutboxClaim → Data → List OutboxRow
leased_outbox c d = apply_edits (d.outbox ++ []) (edit_all [] (claimed_rows c d))

claim_outcome :
    (c : OutboxClaim) (d : Data)
    → let done = after_claim c (record { committed = d; tx = none }) in
      (done.0 ≡ ok (claimed_rows c d))
      × (done.1.tx ≡ none)
      × (done.1.committed.outbox ≡ leased_outbox c d)
unfolding do_tx close_scope claim_due_events committed_with commit new_tx
claim_outcome c d = rw (append-nil (edit_rows [] d.outbox) ∙ unedited d.outbox) (refl, refl, refl)

or_found-Claimed :
    (c : OutboxClaim) (now : Time) (before new after : Option OutboxRow)
    → Leases c now before new
    → after ≡ or_found new before
    → Claimed c now before new after
or_found-Claimed c now none none after l e = e
or_found-Claimed c now (some r) none after l e = e
or_found-Claimed c now none (some x) after (r, h, p, q) e = cc
or_found-Claimed c now (some y) (some x) after l e = (l, e)

apply_edits-IsUnique :
    (m : Map OutboxRow) (rs : List OutboxRow)
    → KeyedRows m
    → IsUnique rs
    → IsUnique (apply_edits rs m)
unfolding apply_edits
apply_edits-IsUnique [] rs k u = u
apply_edits-IsUnique ((i, x) ∷ m) rs k u =
    apply_edits-IsUnique m (replace_row rs i x) k.2 (replace_row-IsUnique rs i x k.0 u)

found_alone : (o : Option OutboxRow) (id : String) → first_found o (get [] id) ≡ o
unfolding get
found_alone none id = refl
found_alone (some r) id = refl

module _ (c : OutboxClaim) (d : Data) (u : IsUnique d.outbox) where
  rows_differ : IsUnique (claimed_rows c d)
  rows_differ = lease_due-IsUnique c _ _ (sort_rows d.outbox) (sort_rows-IsUnique d.outbox u)

  leased_entry :
      (j : String)
      → find_row (leased_outbox c d) j
        ≡ or_found (find_row (claimed_rows c d) j) (find_row d.outbox j)
  leased_entry j =
      find_row-apply_edits (edit_all [] (claimed_rows c d)) (d.outbox ++ []) j
        (edit_all-KeyedRows [] (claimed_rows c d) tt)
      ∙ rw (append-nil d.outbox, get-edit_all [] (claimed_rows c d) j rows_differ)
          (rw (found_alone (find_row (claimed_rows c d) j) j) refl)

  claimed_rows-Leases :
      (j : String)
      → Leases c (normalize_time c.now) (find_row d.outbox j) (find_row (claimed_rows c d) j)
  claimed_rows-Leases j =
      subst (λ o. Leases c (normalize_time c.now) o (find_row (claimed_rows c d) j))
        (find_row-sort_rows d.outbox j u)
        (find_row-lease_due c (normalize_time c.now) (claim_limit c) (sort_rows d.outbox) j
          (sort_rows-IsUnique d.outbox u))

  outbox_differs : IsUnique (leased_outbox c d)
  outbox_differs =
      apply_edits-IsUnique (edit_all [] (claimed_rows c d)) (d.outbox ++ [])
        (edit_all-KeyedRows [] (claimed_rows c d) tt) (rw (append-nil d.outbox) u)

  after_claim-IsClaim :
      let w = (after_claim c (record { committed = d; tx = none })).1 in
      IsClaim c d (claimed_rows c d) w
  after_claim-IsClaim =
      let out = claim_outcome c d in
      record {
        closed = out.1;
        different = rows_differ;
        within = length-lease_due c (normalize_time c.now) (claim_limit c) (sort_rows d.outbox);
        entries = λ j.
            or_found-Claimed c (normalize_time c.now) (find_row d.outbox j)
              (find_row (claimed_rows c d) j) _ (claimed_rows-Leases j)
              (ap (λ rs. find_row rs j) out.2 ∙ leased_entry j);
        complete = λ j row room here due.
            lease_due-all c (normalize_time c.now) (claim_limit c) (sort_rows d.outbox) j row room
              (find_row-sort_rows d.outbox j u ∙ here) due;
        stays = subst IsUnique (sym out.2) outbox_differs;
      }

-- A claim in a transaction of its own succeeds: it hands out different events, no more than its
-- limit, each of them due and leased to the claimer in the store; it changes no other entry, and
-- hands out all that is due when that is less than the limit.
pub claim_due_events-IsClaim :
    (c : OutboxClaim) (w : World)
    → w.tx ≡ none
    → IsUnique w.committed.outbox
    → let done = do_tx false (claim_due_events c) w in
      (ls : List OutboxRow) × (done.0 ≡ ok ls) × IsClaim c w.committed ls done.1
claim_due_events-IsClaim c w h u =
    subst
      (λ v.
        (ls : List OutboxRow) × ((after_claim c v).0 ≡ ok ls)
        × IsClaim c w.committed ls (after_claim c v).1)
      (λ i. record { committed = w.committed; tx = sym h i })
      (
        claimed_rows c w.committed,
        (claim_outcome c w.committed).0,
        after_claim-IsClaim c w.committed u,
      )

leased_not_due :
    (c : OutboxClaim) (row : OutboxRow) (n : ℕ) (now later : Time)
    → c.duration ≡ pos n
    → later < now + n
    → row_due (lease_row c now row) later ≡ false
unfolding row_due lease_row
leased_not_due c row n now later e lt = rw e (ground (arith))

not_again :
    (c c' : OutboxClaim) (n : ℕ) (x : OutboxRow) (before mid new after : Option OutboxRow)
    → c.duration ≡ pos n
    → normalize_time c'.now < normalize_time c.now + n
    → Claimed c (normalize_time c.now) before (some x) mid
    → Claimed c' (normalize_time c'.now) mid new after
    → new ≡ none
not_again c c' n x before mid none after e lt a b = refl
not_again c c' n x before mid (some y) after e lt ((r0, h0, p0, q0), there)
      ((row, here, due, q), b) =
    let held : row_due (lease_row c (normalize_time c.now) r0) (normalize_time c'.now) ≡ false =
      leased_not_due c r0 n (normalize_time c.now) (normalize_time c'.now) e lt in
    cc

abbrev handed_out : Result (List OutboxRow) → List OutboxRow
handed_out (ok ls) = ls
handed_out (err e) = []

claimed_is :
    (c : OutboxClaim) (w : World) (ls : List OutboxRow)
    → w.tx ≡ none
    → IsUnique w.committed.outbox
    → (after_claim c w).0 ≡ ok ls
    → IsClaim c w.committed ls (after_claim c w).1
claimed_is c w ls h u e =
    let (l, e1, k) = claim_due_events-IsClaim c w h u in
    subst (λ xs. IsClaim c w.committed xs (after_claim c w).1) (ap handed_out (sym e1 ∙ e)) k

-- Two claims, one after the other in transactions of their own, never hand out the same event
-- while the lease of the first one lasts.
pub claim_due_events-disjoint :
    (c c' : OutboxClaim) (n : ℕ) (ls ls' : List OutboxRow) (w : World) (j : String) (x : OutboxRow)
    → c.duration ≡ pos n
    → normalize_time c'.now < normalize_time c.now + n
    → w.tx ≡ none
    → IsUnique w.committed.outbox
    → (do_tx false (claim_due_events c) w).0 ≡ ok ls
    → (do_tx false (claim_due_events c') (do_tx false (claim_due_events c) w).1).0 ≡ ok ls'
    → find_row ls j ≡ some x
    → find_row ls' j ≡ none
claim_due_events-disjoint c c' n ls ls' w j x e lt h u one two f =
    let k = claimed_is c w ls h u one in
    let k' = claimed_is c' (after_claim c w).1 ls' k.closed k.stays two in
    let mid = find_row (after_claim c w).1.committed.outbox j in
    not_again c c' n x (find_row w.committed.outbox j) mid (find_row ls' j) _ e lt
      (subst (λ o. Claimed c (normalize_time c.now) (find_row w.committed.outbox j) o mid) f
        (k.entries j))
      (k'.entries j)
