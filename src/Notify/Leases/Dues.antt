-- ===== src/Notify/Leases/Dues.antt =====
-- notify/memory_email.go: the notifications that a claim takes.
use hmntsk.Prelude.{
  zero, String, ◌==◌, ◌≡◌, refl, true, false, List, [], ◌∷◌, none, some, contains, Map, get, put,
  get-put, ltb, Bool-cases, inl, inr, arith, sym, ◌∙◌, eq_iff, ap, eq_refl, to_ℕ, ℕ, is_some, suc,
  length,
}
use hmntsk.Task.{Time, add_duration, normalize_time}
use hmntsk.Notify.{Notification, ℤ, ltb_ℤ, pos}
use hmntsk.Notify.Email.{EmailDelivery}
use hmntsk.Notify.Memory.{MemoryStore}
use hmntsk.Notify.Mailing.{
  EmailClaim, claimable, lease_email, lease_emails, claim_emails, or_zero_delivery, limited,
  due_emails,
}
use hmntsk.Notify.Leases.{candidate_ids}
use hmntsk.Notify.Mailing.{first_of}
use hmntsk.Prelude.{◌&&◌}
use hmntsk.Prelude.Ranking.{All, sort_by, sort_by-All}
use hmntsk.Notify.Pruning.{oldest_first}
use hmntsk.Prelude.Tables.{HasDistinctKeys}
use hmntsk.Notify.Memory.Indexes.{IsIndexed}

-- Notifications that are not the one.
abbrev pub AreOthers : String → List Notification → Type 0
AreOthers j = All (λ n. n.id == j ≡ false)

get_below :
    (id k : String) (n x : Notification) (m : Map Notification)
    → get m id ≡ none
    → get m k ≡ some x
    → get ((id, n) ∷ m) k ≡ some x
unfolding get
get_below id k n x m absent e = elim (Bool-cases (id == k)) [
  | inl h ↦ ground (arith, e, absent, ap (get m) ((eq_iff id k).0 h))
  | inr h ↦ rw (get, h) e
]

-- What is due to a claim is in the store, and the claim may take it.
due_emails-All :
    (P : Notification → Type 0) (claim : EmailClaim) (now : Time) (deliveries : Map EmailDelivery)
    (m : Map Notification)
    → HasDistinctKeys m
    → ((id : String) (n : Notification)
        → get m id ≡ some n
        → claimable claim now n (get deliveries id) ≡ true
        → P n)
    → All P (due_emails claim now deliveries m)
unfolding due_emails get
due_emails-All P claim now deliveries [] d f = tt
due_emails-All P claim now deliveries ((id, n) ∷ m) d f =
    let ih =
      due_emails-All P claim now deliveries m d.1 (λ k x e. f k x (get_below id k n x m d.0 e)) in
    elim (Bool-cases (claimable claim now n (get deliveries id))) [
      | inr e ↦ rw (due_emails, e) ih
      | inl e ↦ rw (due_emails, e) (f id n (ground (arith, eq_refl id)) e, ih)
    ]

first_of-All :
    (P : Notification → Type 0) (k : ℕ) (ns : List Notification) → All P ns → All P (first_of k ns)
unfolding first_of
first_of-All P zero ns a = tt
first_of-All P (suc k) [] a = tt
first_of-All P (suc k) (n ∷ ns) a = (a.0, first_of-All P k ns a.1)

limited-All :
    (P : Notification → Type 0) (limit : ℤ) (ns : List Notification)
    → All P ns
    → All P (limited limit ns)
limited-All P limit ns a = elim (Bool-cases (ltb_ℤ (pos 0) limit && ltb (to_ℕ limit) (length ns))) [
  | inl e ↦ rw e (first_of-All P (to_ℕ limit) ns a)
  | inr e ↦ rw e a
]

abbrev pub lease_end : EmailClaim → Time
lease_end claim = normalize_time (add_duration (normalize_time claim.now) claim.lease)

-- The notifications that a claim takes.
abbrev pub due_to : EmailClaim → MemoryStore → List Notification
due_to claim s = limited claim.limit (
    sort_by oldest_first (due_emails claim (normalize_time claim.now) s.deliveries s.notifications))

module _ (claim : EmailClaim) (now until : Time) where
  pub lease_emails-untouched :
      (ns : List Notification) (deliveries : Map EmailDelivery) (j : String)
      → AreOthers j ns
      → get (lease_emails claim now until ns deliveries).1 j ≡ get deliveries j
  unfolding lease_emails
  lease_emails-untouched [] deliveries j a = refl
  lease_emails-untouched (n ∷ ns) deliveries j a =
      let x = lease_email claim now until (or_zero_delivery (get deliveries n.id)) in
      lease_emails-untouched ns (put deliveries n.id x) j a.1
      ∙ rw (get-put deliveries n.id j x) (rw a.0 refl)

  pub lease_emails-candidates :
      (ns : List Notification) (deliveries : Map EmailDelivery) (j : String)
      → AreOthers j ns
      → contains (candidate_ids (lease_emails claim now until ns deliveries).0) j ≡ false
  unfolding lease_emails contains
  lease_emails-candidates [] deliveries j a = refl
  lease_emails-candidates (n ∷ ns) deliveries j a =
      let x = lease_email claim now until (or_zero_delivery (get deliveries n.id)) in
      ground (arith, a.0, lease_emails-candidates ns (put deliveries n.id x) j a.1)

pub due_to-All :
    (P : Notification → Type 0) (claim : EmailClaim) (s : MemoryStore)
    → IsIndexed s
    → ((id : String) (n : Notification)
        → get s.notifications id ≡ some n
        → claimable claim (normalize_time claim.now) n (get s.deliveries id) ≡ true
        → P n)
    → All P (due_to claim s)
due_to-All P claim s k f =
    let due = due_emails claim (normalize_time claim.now) s.deliveries s.notifications in
    limited-All P claim.limit (sort_by oldest_first due) (
      sort_by-All P oldest_first due (
        due_emails-All P claim (normalize_time claim.now) s.deliveries s.notifications k.distinct
          f))

lease_emails-present :
    (m : Map Notification) (claim : EmailClaim) (now until : Time) (ns : List Notification)
    (deliveries : Map EmailDelivery) (j : String)
    → All (λ n. is_some (get m n.id) ≡ true) ns
    → contains (candidate_ids (lease_emails claim now until ns deliveries).0) j ≡ true
    → is_some (get m j) ≡ true
unfolding lease_emails contains
lease_emails-present m claim now until [] deliveries j a h = cc
lease_emails-present m claim now until (n ∷ ns) deliveries j a h =
    let x = lease_email claim now until (or_zero_delivery (get deliveries n.id)) in
    elim (Bool-cases (n.id == j)) [
      | inl e ↦ sym (ap (λ i. is_some (get m i)) ((eq_iff n.id j).0 e)) ∙ a.0
      | inr e ↦
          lease_emails-present m claim now until ns (put deliveries n.id x) j a.1
            (ground (arith, h, e))
    ]

-- A claim returns notifications of the store.
pub claim_emails-present :
    (claim : EmailClaim) (s : MemoryStore) (j : String)
    → IsIndexed s
    → contains (candidate_ids (claim_emails claim s).0) j ≡ true
    → is_some (get s.notifications j) ≡ true
unfolding claim_emails
claim_emails-present claim s j k h =
    lease_emails-present s.notifications claim (normalize_time claim.now) (lease_end claim)
      (due_to claim s) s.deliveries j
      (due_to-All (λ n. is_some (get s.notifications n.id) ≡ true) claim s k
        (λ id n e c. ap (λ i. is_some (get s.notifications i)) (k.own_id id n e) ∙ ap is_some e))
      h
