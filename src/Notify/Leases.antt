-- ===== src/Notify/Leases.antt =====
-- notify/memory_email.go: what a claim leaves for the notifications that it returns.
pub mod Rows
pub mod Dues
pub mod Exclusion
use hmntsk.Prelude.{
  String, ◌==◌, ◌≡◌, refl, true, false, List, [], ◌∷◌, Option, none, some, contains, Map, get, put,
  get-put, ltb, Bool-cases, inl, inr, arith, ◌⊎◌, sym, ◌∙◌, eq_iff, subst, ap, eq_refl,
}
use hmntsk.Task.{Time, add_duration, normalize_time}
use hmntsk.Notify.{Notification, ℤ, ltb_ℤ, pos}
use hmntsk.Notify.Email.{
  EmailStatus, claimed, sending, sent, retry, skipped, failed, abandoned, unset_email,
  EmailDelivery,
}
use hmntsk.Notify.Memory.{MemoryStore}
use hmntsk.Notify.Mailing.{
  EmailClaim, EmailCandidate, claimable, lease_email, lease_emails, claim_emails, or_zero_delivery,
  status_claimed, limited, due_emails, record_each, held_delivery, EmailRecord,
}
use hmntsk.Prelude.Ranking.{All, sort_by, sort_by-All}
use hmntsk.Notify.Pruning.{oldest_first}
use hmntsk.Prelude.Tables.{HasDistinctKeys}

-- The owner's lease on the delivery runs until the instant, and the status is one that a claim gives.
abbrev pub IsLeased : String → Time → Option EmailDelivery → Type 0
IsLeased owner until none = ⊥
IsLeased owner until (some d) =
    (d.owner ≡ owner) × (d.lease_until ≡ some until) × ((d.status ≡ claimed) ⊎ (d.status ≡ sending))

lease_email-IsLeased :
    (claim : EmailClaim) (now until : Time) (d : EmailDelivery)
    → IsLeased claim.owner until (some (lease_email claim now until d))
unfolding lease_email
lease_email-IsLeased claim now until d = (refl, refl, by_status d.status)
  where
    by_status : (s : EmailStatus) → (status_claimed s ≡ claimed) ⊎ (status_claimed s ≡ sending)
    by_status sending = inr refl
    by_status claimed = inl refl
    by_status sent = inl refl
    by_status retry = inl refl
    by_status skipped = inl refl
    by_status failed = inl refl
    by_status abandoned = inl refl
    by_status unset_email = inl refl

-- While the lease runs no claim takes it.
pub IsLeased-claimable :
    (owner : String) (until later : Time) (claim : EmailClaim) (n : Notification)
    (o : Option EmailDelivery)
    → ltb later until ≡ true
    → IsLeased owner until o
    → claimable claim later n o ≡ false
unfolding claimable
IsLeased-claimable owner until later claim n none h l = elim l [ ]
IsLeased-claimable owner until later claim n (some d) h l = elim l.2 [
  | inl e ↦ rw e (rw l.1 (rw h refl))
  | inr e ↦ rw e (rw l.1 (rw h refl))
]

put-IsLeased :
    (claim : EmailClaim) (now until : Time) (deliveries : Map EmailDelivery) (id j : String)
    (d : EmailDelivery)
    → IsLeased claim.owner until (get deliveries j)
    → IsLeased claim.owner until (get (put deliveries id (lease_email claim now until d)) j)
put-IsLeased claim now until deliveries id j d h =
    let x = lease_email claim now until d in
    elim (Bool-cases (id == j)) [
      | inl e ↦ rw (get-put deliveries id j x) (rw e (lease_email-IsLeased claim now until d))
      | inr e ↦ rw (get-put deliveries id j x) (rw e h)
    ]

lease_emails-stays :
    (claim : EmailClaim) (now until : Time) (ns : List Notification)
    (deliveries : Map EmailDelivery) (j : String)
    → IsLeased claim.owner until (get deliveries j)
    → IsLeased claim.owner until (get (lease_emails claim now until ns deliveries).1 j)
unfolding lease_emails
lease_emails-stays claim now until [] deliveries j h = h
lease_emails-stays claim now until (n ∷ ns) deliveries j h =
    let d = or_zero_delivery (get deliveries n.id) in
    lease_emails-stays claim now until ns (put deliveries n.id (lease_email claim now until d)) j
      (put-IsLeased claim now until deliveries n.id j d h)

abbrev pub candidate_ids : List EmailCandidate → List String
candidate_ids [] = []
candidate_ids (c ∷ cs) = c.notification.id ∷ candidate_ids cs

pub lease_emails-IsLeased :
    (claim : EmailClaim) (now until : Time) (ns : List Notification)
    (deliveries : Map EmailDelivery) (j : String)
    → contains (candidate_ids (lease_emails claim now until ns deliveries).0) j ≡ true
    → IsLeased claim.owner until (get (lease_emails claim now until ns deliveries).1 j)
unfolding lease_emails contains
lease_emails-IsLeased claim now until [] deliveries j h = cc
lease_emails-IsLeased claim now until (n ∷ ns) deliveries j h =
    let d = or_zero_delivery (get deliveries n.id) in
    let x = lease_email claim now until d in
    elim (Bool-cases (n.id == j)) [
      | inl e ↦
          lease_emails-stays claim now until ns (put deliveries n.id x) j
            (rw (get-put deliveries n.id j x) (rw e (lease_email-IsLeased claim now until d)))
      | inr e ↦
          lease_emails-IsLeased claim now until ns (put deliveries n.id x) j (ground (arith, h, e))
    ]
