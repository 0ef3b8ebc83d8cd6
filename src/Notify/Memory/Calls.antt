-- ===== src/Notify/Memory/Calls.antt =====
-- notify/memory.go, notify/memory_email.go: sequences of the operations that change the store.
use hmntsk.Prelude.{String, ◌≡◌, sym, ◌∙◌, List, some, get, sort_strings, ap, contains}
use hmntsk.Task.{Time, normalize_time}
use hmntsk.Notify.{Notification}
use hmntsk.Notify.Port.{Insertion, CloseRequest, PruneRequest, IdGenerator, successor_insertions}
use hmntsk.Notify.Memory.{MemoryStore, insert_all, new_memory_store}
use hmntsk.Notify.Memory.Indexes.{IsIndexed}
use hmntsk.Notify.Memory.Advances.{some-injective}
use hmntsk.Notify.Memory.Inserting.{AreFresh}
use hmntsk.Notify.Memory.Retention.{removable}
use hmntsk.Notify.Memory.Pruned.{prune-Prunes}
use hmntsk.Notify.Mailing.{EmailCall, email_call}
use hmntsk.Notify.Closing.{close, close_subject}
use hmntsk.Notify.Marking.{mark_read, mark_all_read}
use hmntsk.Notify.Pruning.{prune}
use hmntsk.Notify.Memory.Runs.{
  Keeps, Keeps-Prunes, email-Keeps, Stamped, stamping-Keeps, insert-Keeps, mark-Keeps,
  mark_all-Keeps, close_subject-Advanced,
}
use hmntsk.Prelude.Tables.{find}

pub data Call : Type 0 where
  insert_call : String → List Insertion → Call
  close_call : CloseRequest → Time → Call
  mark_call : String → List String → Time → Call
  mark_all_call : String → Time → Time → Call
  prune_call : PruneRequest → Call
  mail_call : EmailCall → Call

module _ {G : Type 0} (ids : IdGenerator G) where
  unfoldable pub call : Call → MemoryStore → G → MemoryStore × G
  unfolding insert_all close mark_read mark_all_read prune
  call (insert_call subject is) s g = ((insert_all subject is s).0, g)
  call (close_call req at) s g = let done = close ids req at s g in (done.1, done.2)
  call (mark_call recipient names at) s g = ((mark_read recipient names at s).1, g)
  call (mark_all_call recipient through at) s g = ((mark_all_read recipient through at s).1, g)
  call (prune_call req) s g = ((prune req s).0, g)
  call (mail_call c) s g = (email_call c s, g)

  -- Identifiers are new: those of an insertion, and those of the successors of a close.
  abbrev pub HasNewIds : Call → MemoryStore → G → Type 0
  HasNewIds (insert_call subject is) s g = AreFresh is s.notifications
  HasNewIds (close_call req at) s g =
      Stamped
        (successor_insertions ids req (sort_strings (close_subject req (normalize_time at) s).2)
          (normalize_time at) g)
        s.notifications
  HasNewIds (mark_call recipient names at) s g = Unit {0}
  HasNewIds (mark_all_call recipient through at) s g = Unit {0}
  HasNewIds (prune_call req) s g = Unit {0}
  HasNewIds (mail_call c) s g = Unit {0}

  -- Every operation that changes the store, those on emails included, on one whose indexes agree and with new identifiers for
  -- what it inserts, keeps the indexes agreeing; and a notification that is there before and after
  -- it keeps what was published, does not become ACTIVE again, and stays CLOSED for its reason.
  pub call-Keeps :
      (c : Call) (s : MemoryStore) (g : G) → IsIndexed s → HasNewIds c s g → Keeps s (call c s g).0
  unfolding call close
  call-Keeps (insert_call subject is) s g k f = insert-Keeps subject is s (k, f)
  call-Keeps (close_call req at) s g k f =
      let done = close_subject-Advanced req (normalize_time at) s k in
      let closed = close_subject req (normalize_time at) s in
      stamping-Keeps req closed.1 (sort_strings closed.2) s closed.0
        (successor_insertions ids req (sort_strings closed.2) (normalize_time at) g) done.0 done.1 f
  call-Keeps (mark_call recipient names at) s g k f = mark-Keeps recipient names at s k
  call-Keeps (mark_all_call recipient through at) s g k f = mark_all-Keeps recipient through at s k
  call-Keeps (prune_call req) s g k f =
      Keeps-Prunes (removable req) s (prune req s).0 (prune-Prunes req s k)
  call-Keeps (mail_call c) s g k f = email-Keeps c s k

  -- The store and the generator after calls that had new identifiers.
  pub data Reaches (s : MemoryStore) (g : G) : MemoryStore → G → Type 0 where
    start : Reaches s g s g
    after :
        (c : Call) (s' : MemoryStore) (g' : G)
        → Reaches s g s' g'
        → HasNewIds c s' g'
        → Reaches s g (call c s' g').0 (call c s' g').1

  pub reached-IsIndexed :
      {s : MemoryStore} {g : G} (s' : MemoryStore) (g' : G)
      → IsIndexed s
      → Reaches s g s' g'
      → IsIndexed s'
  reached-IsIndexed s' g' k start = k
  reached-IsIndexed s' g' k (after c s1 g1 r f) =
      let was = reached-IsIndexed s1 g1 k r in let step = call-Keeps c s1 g1 was f in step.indexed

pub new_store-IsIndexed : IsIndexed new_memory_store
unfolding new_memory_store get contains find
new_store-IsIndexed = record {
  own_id = λ id n e. cc;
  by_source = λ id n e. cc;
  by_subject = λ id n e. cc;
  source_of = λ k id e. cc;
  subject_of = λ subject id e. cc;
  occupied = λ subject e. cc;
  distinct = tt;
}

indexed_unique :
    (s : MemoryStore) (i j : String) (m n : Notification)
    → IsIndexed s
    → get s.notifications i ≡ some m
    → get s.notifications j ≡ some n
    → m.source_id ≡ n.source_id
    → m.recipient ≡ n.recipient
    → i ≡ j
indexed_unique s i j m n k a b e f = some-injective (
    sym (k.by_source i m a)
    ∙ (ap (λ x. find s.sources (x, m.recipient)) e
        ∙ (ap (λ x. find s.sources (n.source_id, x)) f ∙ k.by_source j n b)))

-- A store that calls make of the new one does not hold two notifications of one source for one
-- recipient: of two with the same source and the same recipient, the identifiers are the same. The
-- calls insert and close under new identifiers.
pub reached_unique :
    {G : Type 0} (ids : IdGenerator G) (g g' : G) (s : MemoryStore) (i j : String)
    (m n : Notification)
    → Reaches ids new_memory_store g s g'
    → get s.notifications i ≡ some m
    → get s.notifications j ≡ some n
    → m.source_id ≡ n.source_id
    → m.recipient ≡ n.recipient
    → i ≡ j
reached_unique ids g g' s i j m n r =
    indexed_unique s i j m n (reached-IsIndexed ids s g' new_store-IsIndexed r)
