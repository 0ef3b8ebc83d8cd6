-- ===== src/Notify/Mailing.antt =====
-- notify/memory_email.go with the requests of notify/email.go: the delivery state of emails in the
-- in-memory store, one row for a notification, leased to the dispatcher that claims it.
use hmntsk.Prelude.{
  ℕ, ◌+◌, zero, suc, String, ◌==◌, Bool, true, false, ◌&&◌, not, List, [], ◌∷◌, Option, none, some,
  ℤ, pos, ltb, ltb_ℤ, to_ℕ, length, is_some, Map, get, put, sort_strings, if◌then◌else◌,
}
use hmntsk.Prelude.Tables.{erase}
use hmntsk.Prelude.Ranking.{sort_by}
use hmntsk.Task.{Time, add_duration, normalize_time}
use hmntsk.Notify.{Notification}
use hmntsk.Notify.Email.{
  EmailStatus, claimed, sending, sent, retry, skipped, failed, abandoned, unset_email,
  EmailDelivery,
}
use hmntsk.Notify.Memory.{MemoryStore}
use hmntsk.Notify.Marking.{compact}
use hmntsk.Notify.Pruning.{is_active, oldest_first}

pub record EmailClaim : Type 0 where
  pub now : Time
  pub owner : String
  pub lease : ℤ
  pub created_until : Time
  pub created_from : Time
  pub limit : ℤ

pub record EmailCandidate : Type 0 where
  pub notification : Notification
  pub status : EmailStatus
  pub batch_id : String
  pub attempts : ℕ

pub record EmailRecord : Type 0 where
  pub owner : String
  pub ids : List String
  pub status : EmailStatus
  pub batch_id : String
  pub reason : String
  pub next_attempt_at : Option Time
  pub attempt : Bool
  pub at : Time

-- None, or not after the instant.
abbrev pub is_over : Time → Option Time → Bool
is_over now none = true
is_over now (some instant) = not (ltb now instant)

unfoldable pub qualifies : EmailClaim → Notification → Bool
qualifies claim n =
    is_active n
    && not (ltb claim.created_until n.created_at)
    && not (ltb n.created_at claim.created_from)

-- The claim may take the notification, by its delivery.
unfoldable pub claimable : EmailClaim → Time → Notification → Option EmailDelivery → Bool
unfolding qualifies
claimable claim now n none = qualifies claim n
claimable claim now n (some d) = elim d.status [
  | sending ↦ is_over now d.lease_until
  | claimed ↦ is_over now d.lease_until && is_over now d.next_attempt_at && qualifies claim n
  | retry ↦ is_over now d.lease_until && is_over now d.next_attempt_at && qualifies claim n
  | sent ↦ false
  | skipped ↦ false
  | failed ↦ false
  | abandoned ↦ false
  | unset_email ↦ false
]

unfoldable pub due_emails :
    EmailClaim → Time → Map EmailDelivery → Map Notification → List Notification
unfolding claimable
due_emails claim now deliveries [] = []
due_emails claim now deliveries ((id, n) ∷ m) =
    let rest = due_emails claim now deliveries m in
    if claimable claim now n (get deliveries id) then n ∷ rest else rest

unfoldable pub first_of : {A : Type 0} → ℕ → List A → List A
first_of zero xs = []
first_of (suc k) [] = []
first_of (suc k) (x ∷ xs) = x ∷ first_of k xs

-- Cut at the limit where it is positive.
abbrev pub limited : {A : Type 0} → ℤ → List A → List A
limited limit xs =
    if ltb_ℤ (pos 0) limit && ltb (to_ℕ limit) (length xs) then first_of (to_ℕ limit) xs else xs

abbrev pub zero_delivery : EmailDelivery
zero_delivery = record {
  status = unset_email;
  batch_id = "";
  owner = "";
  lease_until = none;
  attempts = 0;
  next_attempt_at = none;
  reason = "";
  sent_at = none;
  updated_at = 0;
}

abbrev pub or_zero_delivery : Option EmailDelivery → EmailDelivery
or_zero_delivery none = zero_delivery
or_zero_delivery (some d) = d

abbrev pub status_claimed : EmailStatus → EmailStatus
status_claimed sending = sending
status_claimed _ = claimed

unfoldable pub lease_email : EmailClaim → Time → Time → EmailDelivery → EmailDelivery
lease_email claim now until d = record d {
  status = status_claimed d.status;
  owner = claim.owner;
  lease_until = some until;
  updated_at = now;
}

unfoldable pub lease_emails :
    EmailClaim
    → Time
    → Time
    → List Notification
    → Map EmailDelivery
    → List EmailCandidate × Map EmailDelivery
unfolding lease_email
lease_emails claim now until [] deliveries = ([], deliveries)
lease_emails claim now until (n ∷ ns) deliveries =
    let d = lease_email claim now until (or_zero_delivery (get deliveries n.id)) in
    let rest = lease_emails claim now until ns (put deliveries n.id d) in
    (
      record { notification = n; status = d.status; batch_id = d.batch_id; attempts = d.attempts }
          ∷ rest.0,
      rest.1,
    )

unfoldable pub claim_emails : EmailClaim → MemoryStore → List EmailCandidate × MemoryStore
unfolding due_emails lease_emails oldest_first sort_by normalize_time first_of
claim_emails claim s =
    let now = normalize_time claim.now in
    let until = normalize_time (add_duration now claim.lease) in
    let due = sort_by oldest_first (due_emails claim now s.deliveries s.notifications) in
    let done = lease_emails claim now until (limited claim.limit due) s.deliveries in
    (done.0, record s { deliveries = done.1 })

abbrev unless_empty : String → String → String
unless_empty text old = if text == "" then old else text

-- The fields that every outcome writes.
abbrev written : EmailRecord → Time → EmailDelivery → EmailDelivery
written r at d = record d {
  status = r.status;
  updated_at = at;
  next_attempt_at = none;
  batch_id = unless_empty r.batch_id d.batch_id;
  reason = unless_empty r.reason d.reason;
  attempts = if r.attempt then d.attempts + 1 else d.attempts;
}

abbrev released : EmailDelivery → EmailDelivery
released d = record d { owner = ""; lease_until = none }

-- SENDING keeps the lease, every other status releases it.
unfoldable pub apply_email_record : EmailRecord → Time → EmailDelivery → EmailDelivery
apply_email_record r at d = elim r.status [
  | sending ↦ written r at d
  | retry ↦ released (record (written r at d) { next_attempt_at = r.next_attempt_at })
  | sent ↦ released (record (written r at d) { sent_at = some at })
  | claimed ↦ released (written r at d)
  | skipped ↦ released (written r at d)
  | failed ↦ released (written r at d)
  | abandoned ↦ released (written r at d)
  | unset_email ↦ released (written r at d)
]

abbrev pub held_delivery : String → Option EmailDelivery → Option EmailDelivery
held_delivery owner none = none
held_delivery owner (some d) = if d.owner == owner then some d else none

unfoldable pub record_each :
    EmailRecord → Time → List String → Map EmailDelivery → Map EmailDelivery × ℕ
unfolding apply_email_record
record_each r at [] deliveries = (deliveries, 0)
record_each r at (id ∷ ids) deliveries = elim (held_delivery r.owner (get deliveries id)) [
  | none ↦ record_each r at ids deliveries
  | some d ↦
      let rest = record_each r at ids (put deliveries id (apply_email_record r at d)) in
      (rest.0, rest.1 + 1)
]

unfoldable pub record_emails : EmailRecord → MemoryStore → ℕ × MemoryStore
unfolding record_each compact sort_strings normalize_time
record_emails r s =
    let done = record_each r (normalize_time r.at) (compact (sort_strings r.ids)) s.deliveries in
    (done.1, record s { deliveries = done.0 })

-- The rows without a notification.
unfoldable pub orphans : Map Notification → Map EmailDelivery → List String
orphans m [] = []
orphans m ((id, d) ∷ deliveries) =
    let rest = orphans m deliveries in if is_some (get m id) then rest else id ∷ rest

unfoldable pub erase_all : List String → Map EmailDelivery → Map EmailDelivery
unfolding erase
erase_all [] deliveries = deliveries
erase_all (id ∷ ids) deliveries = erase_all ids (erase deliveries id)

unfoldable pub purge_email_records : ℤ → MemoryStore → ℕ × MemoryStore
unfolding orphans erase_all sort_strings first_of
purge_email_records limit s =
    let gone = limited limit (sort_strings (orphans s.notifications s.deliveries)) in
    (length gone, record s { deliveries = erase_all gone s.deliveries })

-- The operations of an EmailStore.
pub data EmailCall : Type 0 where
  claim_call : EmailClaim → EmailCall
  record_call : EmailRecord → EmailCall
  purge_call : ℤ → EmailCall

abbrev pub email_call : EmailCall → MemoryStore → MemoryStore
email_call (claim_call claim) s = (claim_emails claim s).1
email_call (record_call r) s = (record_emails r s).1
email_call (purge_call limit) s = (purge_email_records limit s).1
