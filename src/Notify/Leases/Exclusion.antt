-- ===== src/Notify/Leases/Exclusion.antt =====
-- notify/memory_email.go: a lease excludes later claims, whatever the other owners do.
use hmntsk.Prelude.{
  String, ◌==◌, ◌≡◌, refl, true, false, List, [], ◌∷◌, contains, get, ltb, Bool-cases, inl, inr,
  sym, ◌∙◌, eq_iff, subst, ap, is_some, sort_strings, contains-sort_strings,
}
use hmntsk.Task.{Time, normalize_time}
use hmntsk.Notify.{Notification}
use hmntsk.Notify.Memory.{MemoryStore}
use hmntsk.Notify.Mailing.{
  EmailClaim, claimable, claim_emails, limited, record_emails, EmailCall, claim_call, email_call,
  purge_email_records, record_call, purge_call,
}
use hmntsk.Notify.Leases.{IsLeased, IsLeased-claimable, lease_emails-IsLeased, candidate_ids}
use hmntsk.Notify.Mailing.{orphans}
use hmntsk.Prelude.Ranking.{All}
use hmntsk.Notify.Memory.Indexes.{IsIndexed}
use hmntsk.Notify.Memory.Runs.{email-Keeps}
use hmntsk.Notify.Marking.{compact}
use hmntsk.Notify.Leases.Rows.{
  record_each-untouched, orphans-contains, limited-contains, erase_all-untouched,
}
use hmntsk.Notify.Leases.Dues.{
  AreOthers, due_to, lease_end, lease_emails-untouched, lease_emails-candidates, due_to-All,
  claim_emails-present,
}

-- Claims at instants before the lease is over, records of other owners, and purges.
abbrev pub IsElsewhere : String → Time → EmailCall → Type 0
IsElsewhere owner until (claim_call claim) = ltb (normalize_time claim.now) until ≡ true
IsElsewhere owner until (record_call r) = owner == r.owner ≡ false
IsElsewhere owner until (purge_call limit) = Unit {0}

abbrev pub after_calls : List EmailCall → MemoryStore → MemoryStore
after_calls [] s = s
after_calls (c ∷ cs) s = after_calls cs (email_call c s)

-- The store holds the notification, and the owner's lease on it runs.
record IsHeld (owner : String) (until : Time) (j : String) (s : MemoryStore) : Type 0 where
  indexed : IsIndexed s
  present : is_some (get s.notifications j) ≡ true
  leased : IsLeased owner until (get s.deliveries j)

other_id :
    (owner : String) (until : Time) (j : String) (claim : EmailClaim) (s : MemoryStore)
    (id : String) (n : Notification)
    → IsHeld owner until j s
    → ltb (normalize_time claim.now) until ≡ true
    → n.id ≡ id
    → claimable claim (normalize_time claim.now) n (get s.deliveries id) ≡ true
    → n.id == j ≡ false
other_id owner until j claim s id n k h own c = elim (Bool-cases (n.id == j)) [
  | inr e ↦ e
  | inl e ↦
      let same : id ≡ j = sym own ∙ (eq_iff n.id j).0 e in
      let busy =
        IsLeased-claimable owner until (normalize_time claim.now) claim n (get s.deliveries id) h
          (subst (λ x. IsLeased owner until (get s.deliveries x)) (sym same) k.leased) in
      cc
]

-- What is due to a claim does not hold a notification whose lease runs.
due_to-AreOthers :
    (owner : String) (until : Time) (j : String) (claim : EmailClaim) (s : MemoryStore)
    → IsHeld owner until j s
    → ltb (normalize_time claim.now) until ≡ true
    → AreOthers j (due_to claim s)
due_to-AreOthers owner until j claim s k h =
    due_to-All (λ n. n.id == j ≡ false) claim s k.indexed
      (λ id n e c. other_id owner until j claim s id n k h (k.indexed.own_id id n e) c)

claim_emails-others :
    (owner : String) (until : Time) (j : String) (claim : EmailClaim) (s : MemoryStore)
    → IsHeld owner until j s
    → ltb (normalize_time claim.now) until ≡ true
    → contains (candidate_ids (claim_emails claim s).0) j ≡ false
unfolding claim_emails
claim_emails-others owner until j claim s k h =
    lease_emails-candidates claim (normalize_time claim.now) (lease_end claim) (due_to claim s)
      s.deliveries j (due_to-AreOthers owner until j claim s k h)

email_call-IsLeased :
    (owner : String) (until : Time) (j : String) (c : EmailCall) (s : MemoryStore)
    → IsHeld owner until j s
    → IsElsewhere owner until c
    → get (email_call c s).deliveries j ≡ get s.deliveries j
unfolding claim_emails record_emails purge_email_records
email_call-IsLeased owner until j (claim_call claim) s k h =
    lease_emails-untouched claim (normalize_time claim.now) (lease_end claim) (due_to claim s)
      s.deliveries j (due_to-AreOthers owner until j claim s k h)
email_call-IsLeased owner until j (record_call r) s k h =
    record_each-untouched r (normalize_time r.at) owner until (compact (sort_strings r.ids))
      s.deliveries j h k.leased
email_call-IsLeased owner until j (purge_call limit) s k h =
    let gone = orphans s.notifications s.deliveries in
    erase_all-untouched (limited limit (sort_strings gone)) s.deliveries j (
      limited-contains limit (sort_strings gone) j
        (contains-sort_strings gone j ∙ orphans-contains s.notifications s.deliveries j k.present))

email_call-notifications :
    (c : EmailCall) (s : MemoryStore) → (email_call c s).notifications ≡ s.notifications
unfolding claim_emails record_emails purge_email_records
email_call-notifications (claim_call claim) s = refl
email_call-notifications (record_call r) s = refl
email_call-notifications (purge_call limit) s = refl

email_call-IsHeld :
    (owner : String) (until : Time) (j : String) (c : EmailCall) (s : MemoryStore)
    → IsHeld owner until j s
    → IsElsewhere owner until c
    → IsHeld owner until j (email_call c s)
email_call-IsHeld owner until j c s k h =
    let keeps = email-Keeps c s k.indexed in
    record {
      indexed = keeps.indexed;
      present = ap (λ m. is_some (get m j)) (email_call-notifications c s) ∙ k.present;
      leased =
          subst (IsLeased owner until) (sym (email_call-IsLeased owner until j c s k h)) k.leased;
    }

after_calls-IsHeld :
    (owner : String) (until : Time) (j : String) (cs : List EmailCall) (s : MemoryStore)
    → IsHeld owner until j s
    → All (IsElsewhere owner until) cs
    → IsHeld owner until j (after_calls cs s)
after_calls-IsHeld owner until j [] s k h = k
after_calls-IsHeld owner until j (c ∷ cs) s k h =
    after_calls-IsHeld owner until j cs (email_call c s) (email_call-IsHeld owner until j c s k h.0)
      h.1

claimed-IsHeld :
    (claim : EmailClaim) (s : MemoryStore) (j : String)
    → IsIndexed s
    → contains (candidate_ids (claim_emails claim s).0) j ≡ true
    → IsHeld claim.owner (lease_end claim) j (claim_emails claim s).1
unfolding claim_emails
claimed-IsHeld claim s j k h =
    let keeps = email-Keeps (claim_call claim) s k in
    record {
      indexed = unfold claim_emails in keeps.indexed;
      present = claim_emails-present claim s j k h;
      leased =
          lease_emails-IsLeased claim (normalize_time claim.now) (lease_end claim) (due_to claim s)
            s.deliveries j h;
    }

-- On a store whose indexes agree, a notification that a claim returned is not claimed again before
-- the lease is over, while nothing comes in between but claims at instants before the first claim's
-- now plus its lease, records of other owners, and purges: the next claim at such an instant, of
-- whichever owner, does not return it.
pub claim_emails_exclusive :
    (claim next : EmailClaim) (calls : List EmailCall) (s : MemoryStore) (id : String)
    → IsIndexed s
    → contains (candidate_ids (claim_emails claim s).0) id ≡ true
    → All (IsElsewhere claim.owner (lease_end claim)) calls
    → ltb (normalize_time next.now) (lease_end claim) ≡ true
    → contains (candidate_ids (claim_emails next (after_calls calls (claim_emails claim s).1)).0) id
      ≡ false
claim_emails_exclusive claim next calls s id k h es early =
    claim_emails-others claim.owner (lease_end claim) id next
      (after_calls calls (claim_emails claim s).1)
      (after_calls-IsHeld claim.owner (lease_end claim) id calls (claim_emails claim s).1
        (claimed-IsHeld claim s id k h) es)
      early
