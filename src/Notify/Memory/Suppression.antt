-- ===== src/Notify/Memory/Suppression.antt =====
-- notify/memory.go: insertions after a close, below the marks that it raised.
use hmntsk.Prelude.{
  ℕ, ◌+◌, String, ◌≡◌, refl, ap, ◌∙◌, true, List, [], ◌∷◌, ltb_ℤ, inl, inr, arith, sort_strings,
  length,
}
use hmntsk.Prelude.Ranking.{All}
use hmntsk.Task.{Time, normalize_time}
use hmntsk.Notify.Port.{
  CloseRequest, CloseResult, Insertion, IdGenerator, InsertResult, successor_insertions,
}
use hmntsk.Notify.Memory.{MemoryStore, floor, insert_all, insert_each, insert_one, no_insertions}
use hmntsk.Notify.Memory.Inserting.{is_suppressed, insert_one-Inserted}
use hmntsk.Notify.Closing.{closed_marks, close, close_subject, close_result, after_stamping}
use hmntsk.Notify.{Result, ok, err}
use hmntsk.Notify.Memory.Redelivery.{floor_ensured}
use hmntsk.Notify.Memory.Floors.{below_trans, covers, floor-closed_marks}

-- Insertions leave every floor where it is.
insert_one-floor :
    (subject : String) (i : Insertion) (s : MemoryStore) (r : InsertResult) (kind : String)
    → floor (insert_one subject i (s, r)).0.watermarks subject kind
      ≡ floor s.watermarks subject kind
insert_one-floor subject i s r kind = elim (insert_one-Inserted subject i s r) [
  | inl (b, e) ↦ ap (λ a. floor a.0.watermarks subject kind) e
  | inr (inl (b, e)) ↦ ap (λ a. floor a.0.watermarks subject kind) e
  | inr (inr (inl (b, e))) ↦ ap (λ a. floor a.0.watermarks subject kind) e
  | inr (inr (inr (b, j, l, e))) ↦
      ap (λ a. floor a.0.watermarks subject kind) e
      ∙ floor_ensured s.watermarks subject kind i.notification.created_at
]

insert_each-floor :
    (subject : String) (is : List Insertion) (s : MemoryStore) (r : InsertResult) (kind : String)
    → floor (insert_each subject is (s, r)).0.watermarks subject kind
      ≡ floor s.watermarks subject kind
unfolding insert_each
insert_each-floor subject [] s r kind = refl
insert_each-floor subject (i ∷ is) s r kind =
    let next = insert_one subject i (s, r) in
    insert_each-floor subject is next.0 next.1 kind ∙ insert_one-floor subject i s r kind

result-floor :
    (req : CloseRequest) (closed : ℕ) (recipients : List String) (s : MemoryStore)
    (is : List Insertion) (kind : String)
    → floor (close_result req closed recipients s is).1.watermarks req.subject kind
      ≡ floor s.watermarks req.subject kind
unfolding insert_all
result-floor req closed recipients s [] kind = refl
result-floor req closed recipients s (i ∷ is) kind =
    insert_each-floor req.subject (i ∷ is) s no_insertions kind

stamping-floor :
    {G : Type 0} (req : CloseRequest) (closed : ℕ) (recipients : List String) (s : MemoryStore)
    (stamping : Result (List Insertion) × G) (kind : String)
    → floor (after_stamping req closed recipients s stamping).1.watermarks req.subject kind
      ≡ floor s.watermarks req.subject kind
stamping-floor req closed recipients s (ok is, g) kind =
    result-floor req closed recipients s is kind
stamping-floor req closed recipients s (err e, g) kind = refl

insert_one-suppressed :
    (subject : String) (i : Insertion) (s : MemoryStore) (r : InsertResult)
    → is_suppressed subject i s ≡ true
    → insert_one subject i (s, r) ≡ (s, record r { suppressed = r.suppressed + 1 })
unfolding insert_one
insert_one-suppressed subject i s r h = rw h refl

-- Insertions that all are suppressed.
abbrev AreSuppressed : String → List Insertion → MemoryStore → Type 0
AreSuppressed subject is s = All (λ i. is_suppressed subject i s ≡ true) is

insert_each-suppressed :
    (subject : String) (is : List Insertion) (s : MemoryStore) (r : InsertResult)
    → AreSuppressed subject is s
    → insert_each subject is (s, r) ≡ (s, record r { suppressed = r.suppressed + length is })
unfolding insert_each
insert_each-suppressed subject [] s r h = ap (λ k. (s, record r { suppressed = k })) (omega arith)
insert_each-suppressed subject (i ∷ is) s r h =
    let more = record r { suppressed = r.suppressed + 1 } in
    ap (insert_each subject is) (insert_one-suppressed subject i s r h.0)
    ∙ (insert_each-suppressed subject is s more h.1
        ∙ ap (λ k. (s, record r { suppressed = k })) (omega arith))

-- Of a kind that the request closes, with a version below its own.
abbrev pub IsStale : CloseRequest → Insertion → Type 0
IsStale req i =
    (covers req i.notification.kind ≡ true)
    × (ltb_ℤ i.notification.subject_version req.version ≡ true)

module _ {G : Type 0} (ids : IdGenerator G) (req : CloseRequest) (given : Time) (s : MemoryStore)
    (g : G) where
  close-is_suppressed :
      (i : Insertion)
      → IsStale req i
      → is_suppressed req.subject i (close ids req given s g).1 ≡ true
  unfolding close close_subject
  close-is_suppressed i h =
      let at = normalize_time given in
      let closed = close_subject req at s in
      let recipients = sort_strings closed.2 in
      let stamping = successor_insertions ids req recipients at g in
      ap (ltb_ℤ i.notification.subject_version)
        (stamping-floor req closed.1 recipients closed.0 stamping i.notification.kind)
      ∙ below_trans i.notification.subject_version req.version
          (floor (closed_marks req at s.watermarks) req.subject i.notification.kind) h.1
          (floor-closed_marks req i.notification.kind at s.watermarks h.0)

  close-AreSuppressed :
      (is : List Insertion)
      → All (IsStale req) is
      → AreSuppressed req.subject is (close ids req given s g).1
  close-AreSuppressed [] h = tt
  close-AreSuppressed (i ∷ is) h = (close-is_suppressed i h.0, close-AreSuppressed is h.1)

  -- Right after a close that succeeded, insertions on its subject that are all of kinds that it closes and
  -- have versions below its own are suppressed: they leave the store as it is, create nothing, and
  -- each is counted as suppressed.
  pub close-insert_all :
      (is : List Insertion) (r : CloseResult)
      → (close ids req given s g).0 ≡ ok r
      → All (IsStale req) is
      → let s' = (close ids req given s g).1 in
        insert_all req.subject is s' ≡ (s', record no_insertions { suppressed = length is })
  unfolding insert_all
  close-insert_all is r done h =
      insert_each-suppressed req.subject is (close ids req given s g).1 no_insertions
        (close-AreSuppressed is h)
      ∙ ap (λ k. ((close ids req given s g).1, record no_insertions { suppressed = k }))
          (omega arith)
