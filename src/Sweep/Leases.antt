-- ===== src/Sweep/Leases.antt =====
-- memstore/memstore.go: what ClaimOverdue claims.
use hmntsk.Prelude.{
  is_nil, contains, ◌+◌, ◌-◌, ◌%◌, ltb, ◌||◌, if◌then◌else◌, sym, subst, ℤ, ℕ, zero, suc, ◌≤◌, ◌≡◌,
  Bool, true, false, not, ◌&&◌, List, [], ◌∷◌, some, pos, length, arith,
}
use hmntsk.Task.{
  before, add_duration, Task, Time, normalize, normalize_time, normalize_time_ptr, is_overdue,
  is_leased,
}
use hmntsk.Sweep.{LeaseRequest, claimable, leased, claim_batch}

one_more :
    (b : Bool) (x : Task) (xs ys : List Task) (n : ℕ)
    → length xs ≤ n
    → length ys ≤ suc n
    → length (elim b [ true ↦ x ∷ xs | false ↦ ys ]) ≤ suc n
one_more true x xs ys n h k = ground arith
one_more false x xs ys n h k = k

-- A batch holds at most as many tasks as were asked for.
pub length-claim_batch :
    (l : LeaseRequest) (now : Time) (n : ℕ) (ts : List Task) → length (claim_batch l now n ts) ≤ n
unfolding claim_batch
length-claim_batch l now zero ts = ground arith
length-claim_batch l now (suc n) [] = ground arith
length-claim_batch l now (suc n) (t ∷ ts) =
    one_more (claimable l now t) (leased l now t) (claim_batch l now n ts)
      (claim_batch l now (suc n) ts) n (length-claim_batch l now n ts)
      (length-claim_batch l now (suc n) ts)

still_later :
    (now d : ℕ) → 1000 ≤ d → let at = now - now % 1000 in ltb at (at + d - (at + d) % 1000) ≡ true
still_later now d h = ground arith

busy :
    (overdue held other : Bool)
    → held ≡ true
    → (if not overdue || held then false else other) ≡ false
busy overdue held other h = ground arith

lease_holds :
    (l : LeaseRequest) (now : Time) (d : ℕ) (t : Task)
    → l.duration ≡ pos d
    → 1000 ≤ d
    → is_leased (leased l (normalize_time now) t) (normalize_time now) ≡ true
unfolding leased is_leased normalize normalize_time normalize_time_ptr
lease_holds l now d t e h =
    subst
      (λ (x : ℤ).
        before (now - now % 1000)
          (some (add_duration (now - now % 1000) x - add_duration (now - now % 1000) x % 1000))
        ≡ true)
      (sym e) (still_later now d h)

-- A task that was just leased for a microsecond or more is claimable by no other sweeper at the
-- same instant.
claimable-leased :
    (l l' : LeaseRequest) (now : Time) (d : ℕ) (t : Task)
    → l.duration ≡ pos d
    → 1000 ≤ d
    → claimable l' (normalize_time now) (leased l (normalize_time now) t) ≡ false
unfolding claimable leased normalize
claimable-leased l l' now d t e h =
    busy (is_overdue (leased l (normalize_time now) t) (normalize_time now))
      (is_leased (leased l (normalize_time now) t) (normalize_time now))
      (if not (is_nil l'.types) && not (contains l'.types t.task_type) then false else true)
      (lease_holds l now d t e h)
