-- ===== src/Notify/Publishing/Pages.antt =====
-- List of notify/service.go over the in-memory store: whose notifications a page holds, and how many.
use hmntsk.Prelude.{
  ℕ, ◌≤◌, if◌then◌else◌, zero, suc, String, ◌==◌, ◌≡◌, refl, sym, ◌∙◌, subst, Bool, true, false,
  ◌&&◌, ◌||◌, List, [], ◌∷◌, ◌++◌, Option, none, ℤ, pos, negsuc, ltb_ℤ, leb_ℤ, to_ℕ, length, Map,
  Bool-cases, Option-cases, inl, inr, arith,
}
use hmntsk.Prelude.Ranking.{All, sort_by-All, sort_by}
use hmntsk.Errors.{Formatter}
use hmntsk.Notify.{Notification, ValidationIssue, Result, ok, err, validate_identifier, invalid}
use hmntsk.Notify.Port.{issue_if}
use hmntsk.Notify.Memory.{MemoryStore}
use hmntsk.Notify.Listing.{
  Codec, ListQuery, Page, CursorPosition, matches, matched, take, effective_limit, page_of, listed,
  list_notifications, validate_query, checked_with, state_issues, decode_cursor, continues,
}
use hmntsk.Notify.Pruning.{newest_first}
use hmntsk.Notify.Publishing.Accounts.{ok-injective}
use hmntsk.Notify.Publishing.{list_own}

abbrev pub AreOf : String → List Notification → Type 0
AreOf recipient = All (λ n. n.recipient == recipient ≡ true)

own_match :
    (q : ListQuery) (n : Notification) → matches q n ≡ true → (n.recipient == q.recipient) ≡ true
unfolding matches
own_match q n h = ground (arith, h)

matched-AreOf :
    (q : ListQuery) (position : Option CursorPosition) (m : Map Notification)
    → AreOf q.recipient (matched q position m)
unfolding matched
matched-AreOf q position [] = tt
matched-AreOf q position ((id, n) ∷ m) = elim (Bool-cases (matches q n && continues position n)) [
  | inl e ↦ rw (matched, e) (own_match q n (ground (arith, e)), matched-AreOf q position m)
  | inr e ↦ rw (matched, e) (matched-AreOf q position m)
]

take-All :
    (P : Notification → Type 0) (k : ℕ) (ns : List Notification) → All P ns → All P (take k ns)
unfolding take
take-All P zero ns a = tt
take-All P (suc k) [] a = tt
take-All P (suc k) (n ∷ ns) a = (a.0, take-All P k ns a.1)

length-take : (k : ℕ) (ns : List Notification) → length (take k ns) ≤ k
unfolding take
length-take zero ns = omega arith
length-take (suc k) [] = omega arith
length-take (suc k) (n ∷ ns) = omega (arith, length-take k ns)

limit_bound : (q : ListQuery) → ltb_ℤ (pos 500) q.limit ≡ false → effective_limit q ≤ 500
unfolding effective_limit
limit_bound q h = by_limit q.limit h
  where
    by_limit : (l : ℤ) → ltb_ℤ (pos 500) l ≡ false → (if leb_ℤ l (pos 0) then 50 else to_ℕ l) ≤ 500
    by_limit (pos n) e = ground arith
    by_limit (negsuc n) e = ground arith

no_issue :
    (b : Bool) (pointer detail : String) (rest : List ValidationIssue)
    → issue_if b pointer detail ++ rest ≡ []
    → b ≡ false
no_issue true pointer detail rest h = cc
no_issue false pointer detail rest h = refl

tail_empty : (xs ys zs : List ValidationIssue) → (xs ++ ys) ++ zs ≡ [] → ys ++ zs ≡ []
tail_empty [] ys zs h = h
tail_empty (x ∷ xs) ys zs h = cc

checked_none :
    (c : Codec) (q : ListQuery) (issues : List ValidationIssue)
    → checked_with c q issues ≡ none
    → issues ≡ []
unfolding invalid
checked_none c q [] h = refl
checked_none c q (i ∷ is) h = cc

valid_limit :
    (f : Formatter) (c : Codec) (q : ListQuery)
    → validate_query f c q ≡ none
    → ltb_ℤ (pos 500) q.limit ≡ false
unfolding validate_query
valid_limit f c q h =
    let over = ltb_ℤ (pos 500) q.limit in
    let issues = validate_identifier "/recipient" q.recipient in
    let rest = state_issues f 0 q.states in
    let bound = issue_if (ltb_ℤ q.limit (pos 0) || over) "/limit" "must be between 1 and 500" in
    let none_left : bound ++ rest ≡ [] =
      tail_empty issues bound rest (checked_none c q ((issues ++ bound) ++ rest) h) in
    let inside : (ltb_ℤ q.limit (pos 0) || over) ≡ false =
      no_issue (ltb_ℤ q.limit (pos 0) || over) "/limit" "must be between 1 and 500" rest
        none_left in
    ground (arith, inside)

abbrev pub IsOwnPage : ListQuery → Page → Type 0
IsOwnPage q page = AreOf q.recipient page.notifications × (length page.notifications ≤ 500)

page_of-IsOwnPage :
    (c : Codec) (q : ListQuery) (position : Option CursorPosition) (s : MemoryStore)
    → ltb_ℤ (pos 500) q.limit ≡ false
    → IsOwnPage q (page_of c q position s)
unfolding page_of
page_of-IsOwnPage c q position s h =
    let found = matched q position s.notifications in
    let sorted = sort_by newest_first found in
    (
      take-All (λ n. n.recipient == q.recipient ≡ true) (effective_limit q) sorted
          (sort_by-All (λ n. n.recipient == q.recipient ≡ true) newest_first found
            (matched-AreOf q position s.notifications)),
      omega (arith, length-take (effective_limit q) sorted, limit_bound q h),
    )

listed-page :
    (c : Codec) (q : ListQuery) (s : MemoryStore) (r : Result (Option CursorPosition)) (page : Page)
    → listed c q s r ≡ ok page
    → (position : Option CursorPosition) × (page_of c q position s ≡ page)
listed-page c q s (err e) page h = cc
listed-page c q s (ok position) page h = (position, ok-injective h)

-- A page that the service lists holds notifications of the query's recipient only, and at most 500.
pub list_own-IsOwnPage :
    (f : Formatter) (c : Codec) (q : ListQuery) (s : MemoryStore) (page : Page)
    → list_own f c q s ≡ ok page
    → IsOwnPage q page
unfolding list_own list_notifications
list_own-IsOwnPage f c q s page h = elim (Option-cases (validate_query f c q)) [
  | inl e ↦
      let read : listed c q s (decode_cursor c q) ≡ ok page = sym (rw e refl) ∙ h in
      let at = listed-page c q s (decode_cursor c q) page read in
      subst (IsOwnPage q) at.1 (page_of-IsOwnPage c q at.0 s (valid_limit f c q e))
  | inr (x, e) ↦ ground (arith, h, e)
]
