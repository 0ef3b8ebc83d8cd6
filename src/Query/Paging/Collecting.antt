-- ===== src/Query/Paging/Collecting.antt =====
-- memstore/memstore.go: what a client gets that follows the cursors to the last page.
use mathlib.Core.List.{append_assoc}
use hmntsk.Prelude.{
  ◌-◌, ◌≤◌, ◌<◌, ℕ, zero, suc, String, ◌==◌, ◌≡◌, refl, sym, ap, ◌∙◌, subst, eq_refl, Bool, true,
  false, List, [], ◌∷◌, ◌++◌, Option, none, some, to_ℕ, ltb, length, arith, Bool-cases, inl, inr,
  if◌then◌else◌,
}
use hmntsk.Prelude.Ranking.{All, All-last, All-right, keep-All, sort_by-All, sort_by}
use hmntsk.Errors.{Result, ok, err, ◌>>=◌, Formatter, foreign}
use hmntsk.Task.{Task}
use hmntsk.Query.{Query, ResolvedQuery, validate, effective_limit, matches_query}
use hmntsk.Query.Paging.{
  Position, position_of, compare_tasks, Cursor, Codec, encode_cursor, decode_cursor,
  cursor_position, order_text, same_way, continued, matched_after, take, cursor_after, page_of,
  query_tasks,
}
use hmntsk.Query.Paging.Pages.{
  from_cursor, AreDifferent, all_matched, ranked, ranked_lem, matched_first, matched_next,
  same_matched,
}

-- Page after page, from a cursor on.
unfoldable pub collect :
    Formatter → Codec → List Task → ResolvedQuery → ℕ → String → Result (List Task)
collect f c ts r zero cur = err (foreign "there are more pages")
collect f c ts r (suc n) cur = do
  p ← query_tasks f c ts (from_cursor r cur)
  (if p.next_cursor == ""
      then ok p.tasks
      else (do rest ← collect f c ts r n p.next_cursor; ok (p.tasks ++ rest)))

-- What a page leaves for the next ones.
drop : {A : Type 0} → ℕ → List A → List A
drop zero xs = xs
drop (suc n) [] = []
drop (suc n) (x ∷ xs) = drop n xs

take-drop : {A : Type 0} (n : ℕ) (xs : List A) → take n xs ++ drop n xs ≡ xs
unfolding take drop
take-drop zero xs = refl
take-drop (suc n) [] = refl
take-drop (suc n) (x ∷ xs) = ap (λ l. x ∷ l) (take-drop n xs)

length-drop : {A : Type 0} (n : ℕ) (xs : List A) → length (drop n xs) ≤ length xs
unfolding drop
length-drop zero xs = omega arith
length-drop (suc n) [] = omega arith
length-drop (suc n) (x ∷ xs) = omega (arith, length-drop n xs)

limit_given : (q : Query) → 1 ≤ to_ℕ (effective_limit q)
unfolding effective_limit
limit_given q = ground arith

-- The cursor after a task.
abbrev pub cursor_at : Query → Task → Cursor
cursor_at q t = record { ordering = q.order_by; descending = q.descending; after = position_of t }

-- The task has an identifier, and the encoding of the cursor after it is not empty and is read back.
pub record IsResumable (c : Codec) (q : Query) (t : Task) : Type 0 where
  pub named : (t.id == "") ≡ false
  pub given : (c.encode (cursor_at q t) == "") ≡ false
  pub decodes : c.decode (c.encode (cursor_at q t)) ≡ some (cursor_at q t)

cursor_last :
    (c : Codec) (q : Query) (t : Task) (ts : List Task)
    → (xs : List Task) × (x : Task) × (t ∷ ts ≡ xs ++ x ∷ [])
      × (cursor_after c q (t ∷ ts) ≡ encode_cursor c q (position_of x))
unfolding cursor_after
cursor_last c q t [] = ([], t, refl, refl)
cursor_last c q t (u ∷ ts) =
    let (xs, x, e, k) = cursor_last c q u ts in (t ∷ xs, x, ap (λ l. t ∷ l) e, k)

cursor_after-append :
    (c : Codec) (q : Query) (xs : List Task) (y : Task) (ys : List Task)
    → cursor_after c q (xs ++ y ∷ ys) ≡ cursor_after c q (y ∷ ys)
unfolding cursor_after
cursor_after-append c q [] y ys = refl
cursor_after-append c q (x ∷ []) y ys = refl
cursor_after-append c q (x ∷ z ∷ xs) y ys = cursor_after-append c q (z ∷ xs) y ys

same_way_self : (b : Bool) → same_way b b ≡ true
same_way_self true = refl
same_way_self false = refl

module _ (f : Formatter) (c : Codec) (r : ResolvedQuery) where
  abbrev at : String → Query
  at cur = (from_cursor r cur).query

  own_cursor :
      (cur : String) (x : Task)
      → IsResumable c r.query x
      → continued (at cur) (some (cursor_at r.query x)) ≡ ok (position_of x)
  unfolding position_of
  own_cursor cur x h =
      rw h.named
        (rw (eq_refl (order_text r.query.order_by)) (rw (same_way_self r.query.descending) refl))

  decode-encode :
      (x : Task)
      → IsResumable c r.query x
      → decode_cursor c (at (encode_cursor c r.query (position_of x))) ≡ ok (position_of x)
  unfolding decode_cursor encode_cursor
  decode-encode x h =
      ap (continued (at (c.encode (cursor_at r.query x)))) h.decodes
      ∙ own_cursor (c.encode (cursor_at r.query x)) x h

  encode_given :
      (x : Task) → IsResumable c r.query x → (encode_cursor c r.query (position_of x) == "") ≡ false
  unfolding encode_cursor
  encode_given x h = h.given

  read-encode :
      (x : Task)
      → IsResumable c r.query x
      → cursor_position c (at (encode_cursor c r.query (position_of x))) ≡ ok (some (position_of x))
  read-encode x h = rw (encode_given x h) (rw (decode-encode x h) refl)

  validate_at : (cur : String) → validate f (at cur) ≡ validate f r.query
  unfolding validate
  validate_at cur = refl

  cursor_after_at :
      (cur : String) (ms : List Task) → cursor_after c (at cur) ms ≡ cursor_after c r.query ms
  unfolding cursor_after encode_cursor
  cursor_after_at cur [] = refl
  cursor_after_at cur (t ∷ []) = refl
  cursor_after_at cur (t ∷ u ∷ ts) = cursor_after_at cur (u ∷ ts)

  page_of_at : (cur : String) (ms : List Task) → page_of c (at cur) ms ≡ page_of c r.query ms
  unfolding page_of effective_limit
  page_of_at cur ms = rw (cursor_after_at cur (take (to_ℕ (effective_limit r.query)) ms)) refl

  empty_read : cursor_position c (at "") ≡ ok none
  empty_read = refl

  module _ (ts : List Task) (v : validate f r.query ≡ ok tt) (d : AreDifferent ts) where
    page_at :
        (cur : String) (after : Option Position) (ms : List Task)
        → cursor_position c (at cur) ≡ ok after
        → matched_after r after ts ≡ ms
        → query_tasks f c ts (from_cursor r cur) ≡ ok (page_of c r.query ms)
    unfolding query_tasks
    page_at cur after ms e m = rw (validate_at cur ∙ v) (
        rw e (
          ap (λ l. ok (page_of c (at cur) l)) (same_matched r cur after ts ∙ m)
          ∙ ap ok (page_of_at cur ms)))

    page_after :
        (xs ys : List Task)
        → ranked r ts d ≡ xs ++ ys
        → All (IsResumable c r.query) (xs ++ ys)
        → query_tasks f c ts (from_cursor r (cursor_after c r.query xs)) ≡ ok (page_of c r.query ys)
    page_after [] ys e a =
        unfold cursor_after in page_at "" none ys empty_read (matched_first r ts d ∙ e)
    page_after (x ∷ xs) ys e a =
        let (ws, w, e1, e2) = cursor_last c r.query x xs in
        let split : (x ∷ xs) ++ ys ≡ ws ++ w ∷ ys =
          ap (λ l. l ++ ys) e1 ∙ append_assoc ws (w ∷ []) ys in
        rw e2 (
          page_at (encode_cursor c r.query (position_of w)) (some (position_of w)) ys
            (read-encode w (
              All-last (IsResumable c r.query) ws w ys
                (subst (All (IsResumable c r.query)) split a)))
            (matched_next r ts d ws w ys (e ∙ split)))

    last_page :
        (ys : List Task)
        → ltb (to_ℕ (effective_limit r.query)) (length ys) ≡ false
        → page_of c r.query ys ≡ record { tasks = ys; next_cursor = "" }
    unfolding page_of
    last_page ys h = rw h refl

    more_pages :
        (m : ℕ) (ys : List Task)
        → to_ℕ (effective_limit r.query) ≡ suc m
        → ltb (suc m) (length ys) ≡ true
        → page_of c r.query ys ≡ record {
          tasks = take (suc m) ys;
          next_cursor = cursor_after c r.query (take (suc m) ys);
        }
    unfolding page_of
    more_pages m ys e h = rw e (rw h refl)

    collect-rest :
        (n : ℕ) (xs ys : List Task)
        → ranked r ts d ≡ xs ++ ys
        → All (IsResumable c r.query) (xs ++ ys)
        → length ys < n
        → collect f c ts r n (cursor_after c r.query xs) ≡ ok ys
    unfolding collect take
    collect-rest zero xs ys e a lt = ground (arith, lt)
    collect-rest (suc n) xs [] e a lt =
        rw (page_after xs [] e a ∙ ap ok (last_page [] (ground (arith)))) refl
    collect-rest (suc n) xs (y ∷ ys) e a lt =
        elim (Bool-cases (ltb (to_ℕ (effective_limit r.query)) (length (y ∷ ys)))) [
          | inr last ↦ rw (page_after xs (y ∷ ys) e a ∙ ap ok (last_page (y ∷ ys) last)) refl
          | inl more ↦
              let m = to_ℕ (effective_limit r.query) - 1 in
              let size : to_ℕ (effective_limit r.query) ≡ suc m =
                omega (arith, limit_given r.query) in
              let over : ltb (suc m) (length (y ∷ ys)) ≡ true =
                ap (λ l. ltb l (length (y ∷ ys))) (sym size) ∙ more in
              let (ws, w, e1, e2) = cursor_last c r.query y (take m ys) in
              let tail : y ∷ ys ≡ ws ++ w ∷ drop m ys =
                ap (λ l. y ∷ l) (sym (take-drop m ys))
                ∙ ap (λ l. l ++ drop m ys) e1
                ∙ append_assoc ws (w ∷ []) (drop m ys) in
              let given : (cursor_after c r.query (y ∷ take m ys) == "") ≡ false = rw e2 (
                encode_given w (
                  All-last (IsResumable c r.query) ws w (drop m ys) (
                    subst (All (IsResumable c r.query)) tail
                      (All-right (IsResumable c r.query) xs (y ∷ ys) a)))) in
              let split : xs ++ y ∷ ys ≡ (xs ++ y ∷ take m ys) ++ drop m ys =
                ap (λ l. xs ++ y ∷ l) (sym (take-drop m ys))
                ∙ sym (append_assoc xs (y ∷ take m ys) (drop m ys)) in
              let rest : collect f c ts r n (cursor_after c r.query (y ∷ take m ys))
                  ≡ ok (drop m ys) =
                ap (collect f c ts r n) (sym (cursor_after-append c r.query xs y (take m ys)))
                ∙ collect-rest n (xs ++ y ∷ take m ys) (drop m ys) (e ∙ split)
                    (subst (All (IsResumable c r.query)) split a)
                    (omega (arith, lt, length-drop m ys)) in
              rw (page_after xs (y ∷ ys) e a ∙ ap ok (more_pages m (y ∷ ys) size over))
                (rw given (rw rest (ap (λ l. ok (y ∷ l)) (take-drop m ys))))
        ]

-- Following the cursors from the first page gives every task that matches, each once and in the
-- query's order, when the tasks do not change between the pages: for a supported ordering, tasks of
-- different identifiers whose cursors are read back, and more pages allowed than there are
-- matching tasks.
pub collect-all_matched :
    (f : Formatter) (c : Codec) (r : ResolvedQuery) (ts : List Task) (n : ℕ)
    → validate f r.query ≡ ok tt
    → AreDifferent ts
    → All (IsResumable c r.query) ts
    → length (all_matched r ts) < n
    → collect f c ts r n "" ≡ ok (all_matched r ts)
unfolding cursor_after
collect-all_matched f c r ts n v d a lt =
    collect-rest f c r ts v d n [] (ranked r ts d) refl
      (keep-All (IsResumable c r.query) (λ t. matches_query t r)
        (sort_by (compare_tasks r.query) ts)
        (sort_by-All (IsResumable c r.query) (compare_tasks r.query) ts a))
      (subst (λ l. length l < n) (ranked_lem r ts d) lt)
    ∙ ap ok (sym (ranked_lem r ts d))
