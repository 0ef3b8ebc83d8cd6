-- ===== src/Notify/Leases/Rows.antt =====
-- notify/memory_email.go: rows that a record of another owner and a purge leave alone.
use hmntsk.Prelude.{
  zero, String, ◌==◌, ◌≡◌, refl, true, false, List, [], ◌∷◌, Option, none, some, contains, Map, get,
  put, get-put, ltb, Bool-cases, inl, inr, arith, sym, ◌∙◌, eq_iff, subst, ap, to_ℕ, ℕ,
  Option-cases, is_some, suc, length,
}
use hmntsk.Task.{Time}
use hmntsk.Notify.{Notification, ℤ, ltb_ℤ, pos}
use hmntsk.Notify.Email.{EmailDelivery}
use hmntsk.Notify.Mailing.{limited, record_each, held_delivery, EmailRecord, apply_email_record}
use hmntsk.Notify.Leases.{IsLeased}
use hmntsk.Notify.Mailing.{first_of, held_delivery, record_each, orphans, erase_all}
use hmntsk.Prelude.{◌&&◌}
use hmntsk.Prelude.Tables.{erase, get-erase}

-- Owners do not write over what another owner holds.
held_other :
    (owner other : String) (until : Time) (o : Option EmailDelivery)
    → owner == other ≡ false
    → IsLeased owner until o
    → held_delivery other o ≡ none
held_other owner other until none h l = refl
held_other owner other until (some d) h l = rw l.0 (rw h refl)

held_apart :
    (owner other : String) (until : Time) (deliveries : Map EmailDelivery) (id j : String)
    (d : EmailDelivery)
    → owner == other ≡ false
    → IsLeased owner until (get deliveries j)
    → held_delivery other (get deliveries id) ≡ some d
    → id == j ≡ false
held_apart owner other until deliveries id j d h l e = elim (Bool-cases (id == j)) [
  | inr f ↦ f
  | inl f ↦
      let held = held_other owner other until (get deliveries j) h l in
      let same = ap (λ x. held_delivery other (get deliveries x)) ((eq_iff id j).0 f) in
      let clash : none ≡ some d = sym held ∙ (sym same ∙ e) in cc
]

pub record_each-untouched :
    (r : EmailRecord) (at : Time) (owner : String) (until : Time) (ids : List String)
    (deliveries : Map EmailDelivery) (j : String)
    → owner == r.owner ≡ false
    → IsLeased owner until (get deliveries j)
    → get (record_each r at ids deliveries).0 j ≡ get deliveries j
unfolding record_each
record_each-untouched r at owner until [] deliveries j h l = refl
record_each-untouched r at owner until (id ∷ ids) deliveries j h l =
    elim (Option-cases (held_delivery r.owner (get deliveries id))) [
      | inl e ↦ rw (record_each, e) (record_each-untouched r at owner until ids deliveries j h l)
      | inr (d, e) ↦
          let away = held_apart owner r.owner until deliveries id j d h l e in
          let next = put deliveries id (apply_email_record r at d) in
          let still : get next j ≡ get deliveries j =
            get-put deliveries id j (apply_email_record r at d) ∙ rw away refl in
          rw (record_each, e)
            (record_each-untouched r at owner until ids next j h
                (subst (IsLeased owner until) (sym still) l)
              ∙ still)
    ]

-- A purge leaves the rows of notifications that are there.
pub orphans-contains :
    (m : Map Notification) (deliveries : Map EmailDelivery) (j : String)
    → is_some (get m j) ≡ true
    → contains (orphans m deliveries) j ≡ false
unfolding orphans contains
orphans-contains m [] j h = refl
orphans-contains m ((id, d) ∷ deliveries) j h =
    let ih = orphans-contains m deliveries j h in
    elim (Bool-cases (id == j)) [
      | inl e ↦ ground (arith, ih, h, ap (λ x. is_some (get m x)) ((eq_iff id j).0 e))
      | inr e ↦ ground (arith, ih, e)
    ]

first_of-contains :
    (k : ℕ) (xs : List String) (j : String)
    → contains xs j ≡ false
    → contains (first_of k xs) j ≡ false
unfolding first_of contains
first_of-contains zero xs j h = refl
first_of-contains (suc k) [] j h = refl
first_of-contains (suc k) (x ∷ xs) j h = ground (arith, first_of-contains k xs j)

pub limited-contains :
    (limit : ℤ) (xs : List String) (j : String)
    → contains xs j ≡ false
    → contains (limited limit xs) j ≡ false
limited-contains limit xs j h =
    elim (Bool-cases (ltb_ℤ (pos 0) limit && ltb (to_ℕ limit) (length xs))) [
      | inl e ↦ rw e (first_of-contains (to_ℕ limit) xs j h)
      | inr e ↦ rw e h
    ]

pub erase_all-untouched :
    (ids : List String) (deliveries : Map EmailDelivery) (j : String)
    → contains ids j ≡ false
    → get (erase_all ids deliveries) j ≡ get deliveries j
unfolding erase_all contains
erase_all-untouched [] deliveries j h = refl
erase_all-untouched (id ∷ ids) deliveries j h =
    erase_all-untouched ids (erase deliveries id) j (ground (arith, h))
    ∙ ground (arith, h, get-erase deliveries id j)
