-- ===== src/Notify/Dispatching/Options.antt =====
-- What the options of notify/email_dispatcher.go leave a dispatcher with.
use hmntsk.Prelude.{
  String, false, List, Option, none, some, ℤ, pos, leb_ℤ, ltb_ℤ, ◌≡◌, inl, inr, Bool-cases, arith,
  refl, sym, subst, ◌∙◌,
}
use hmntsk.Notify.{Error, ok}
use hmntsk.Notify.Publishing.Accounts.{ok-injective}
use hmntsk.Notify.Dispatching.{
  EmailConfig, EmailDispatcher, validate_email_config, apply_email_config, written_over, set,
  not_positive, base_not_positive, ceiling_below, base_of, ceiling_of, default_dispatcher,
  checked_lag,
}

-- Limits that are positive, and a ceiling that is no shorter than the base of the backoff.
pub record IsBounded {Filter Handler : Type 0} (d : EmailDispatcher Filter Handler) : Type 0 where
  pub batch : leb_ℤ d.batch (pos 0) ≡ false
  pub claim : leb_ℤ d.claim (pos 0) ≡ false
  pub lease : leb_ℤ d.lease (pos 0) ≡ false
  pub attempts : leb_ℤ d.attempts (pos 0) ≡ false
  pub backoff : leb_ℤ d.backoff (pos 0) ≡ false
  pub ceiling : ltb_ℤ d.ceiling d.backoff ≡ false

set_positive :
    (n : ℤ) (o : Option ℤ)
    → not_positive o ≡ false
    → leb_ℤ n (pos 0) ≡ false
    → leb_ℤ (set n o) (pos 0) ≡ false
set_positive n none h k = k
set_positive n (some m) h k = h

set_base :
    (n : ℤ) (o : Option (ℤ × ℤ))
    → base_not_positive o ≡ false
    → leb_ℤ n (pos 0) ≡ false
    → leb_ℤ (set n (base_of o)) (pos 0) ≡ false
set_base n none h k = k
set_base n (some limits) h k = h

set_ceiling :
    (n m : ℤ) (o : Option (ℤ × ℤ))
    → ceiling_below o ≡ false
    → ltb_ℤ m n ≡ false
    → ltb_ℤ (set m (ceiling_of o)) (set n (base_of o)) ≡ false
set_ceiling n m none h k = k
set_ceiling n m (some limits) h k = h

module _ {Filter Handler : Type 0} (c : EmailConfig Filter Handler) where
  accepted_limits :
      validate_email_config c ≡ none
      → (not_positive c.batch ≡ false)
        × (not_positive c.claim ≡ false)
        × (not_positive c.lease ≡ false)
        × (not_positive c.attempts ≡ false)
        × (base_not_positive c.backoff ≡ false)
        × (ceiling_below c.backoff ≡ false)
  unfolding validate_email_config
  accepted_limits h =
      (ground arith, ground arith, ground arith, ground arith, ground arith, ground arith)

  written_over-IsBounded :
      (email_kinds : List String → Filter) (d : EmailDispatcher Filter Handler)
      → validate_email_config c ≡ none
      → IsBounded d
      → IsBounded (written_over email_kinds c d)
  unfolding written_over
  written_over-IsBounded email_kinds d h b =
      let a = accepted_limits h in
      record {
        batch = set_positive d.batch c.batch a.0 b.batch;
        claim = set_positive d.claim c.claim a.1 b.claim;
        lease = set_positive d.lease c.lease a.2 b.lease;
        attempts = set_positive d.attempts c.attempts a.3 b.attempts;
        backoff = set_base d.backoff c.backoff a.4 b.backoff;
        ceiling = set_ceiling d.backoff d.ceiling c.backoff a.5 b.ceiling;
      }

default-IsBounded :
    {Filter Handler : Type 0}
    → (every_kind : Filter) (silent : Handler) → IsBounded (default_dispatcher every_kind silent)
unfolding default_dispatcher
default-IsBounded every_kind silent = record {
  batch = refl;
  claim = refl;
  lease = refl;
  attempts = refl;
  backoff = refl;
  ceiling = refl;
}

checked_lag-ok :
    {Filter Handler : Type 0}
    → (e : Option Error) (done d : EmailDispatcher Filter Handler) → checked_lag e done ≡ ok d
    → (e ≡ none) × (done ≡ d) × (leb_ℤ done.max_lag done.grace ≡ false)
checked_lag-ok (some e) done d h = cc
checked_lag-ok none done d h = elim (Bool-cases (leb_ℤ done.max_lag done.grace)) [
  | inl l ↦ cc
  | inr l ↦ (refl, ok-injective (sym (rw l refl) ∙ h), l)
]

-- Options that are accepted over the defaults leave a dispatcher whose limits, lease and backoff are
-- positive, whose backoff ceiling is no shorter than its base, and whose max lag is longer than its
-- grace delay.
pub accepted-IsBounded :
    {Filter Handler : Type 0}
    → (c : EmailConfig Filter Handler) (email_kinds : List String → Filter) (every_kind : Filter)
      (silent : Handler) (d : EmailDispatcher Filter Handler)
    → apply_email_config email_kinds c (default_dispatcher every_kind silent) ≡ ok d
    → IsBounded d × (leb_ℤ d.max_lag d.grace ≡ false)
unfolding apply_email_config
accepted-IsBounded c email_kinds every_kind silent d h =
    let start = default_dispatcher every_kind silent in
    let done = written_over email_kinds c start in
    let a = checked_lag-ok (validate_email_config c) done d h in
    subst (λ x. IsBounded x × (leb_ℤ x.max_lag x.grace ≡ false)) a.1
      (written_over-IsBounded c email_kinds start a.0 (default-IsBounded every_kind silent), a.2)
