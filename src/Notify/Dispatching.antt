-- ===== src/Notify/Dispatching.antt =====
-- notify/email_dispatcher.go: the options of an email dispatcher and what it is built with. An option
-- that was not given is none; the texts of the refusals are kept. A filter and an error handler are
-- of types of the host, and none inside some is its nil.
pub mod Options
use hmntsk.Prelude.{
  String, ◌==◌, Bool, true, false, ◌&&◌, ◌||◌, not, List, Option, none, some, ℤ, pos, leb_ℤ, ltb_ℤ,
  is_some, is_nil, ◌≡◌, if◌then◌else◌,
}
use hmntsk.Errors.{◌<>◌}
use hmntsk.Notify.{Error, configuration_error, Result, ok, err}

-- WithEmailBackoff gives the base and the ceiling together.
pub record EmailConfig (Filter Handler : Type 0) : Type 0 where
  pub grace : Option ℤ
  pub without_grace : Bool
  pub max_lag : Option ℤ
  pub batch : Option ℤ
  pub claim : Option ℤ
  pub lease : Option ℤ
  pub attempts : Option ℤ
  pub backoff : Option (ℤ × ℤ)
  pub filter : Option (Option Filter)
  pub kinds : Option (List String)
  pub guarantee : Option String
  pub owner : Option String
  pub on_error : Option (Option Handler)

pub record EmailDispatcher (Filter Handler : Type 0) : Type 0 where
  pub grace : ℤ
  pub max_lag : ℤ
  pub batch : ℤ
  pub claim : ℤ
  pub lease : ℤ
  pub attempts : ℤ
  pub backoff : ℤ
  pub ceiling : ℤ
  pub filter : Filter
  pub guarantee : String
  pub owner : String
  pub on_error : Handler

abbrev pub at_most_once : String
at_most_once = "AT_MOST_ONCE"

abbrev pub at_least_once : String
at_least_once = "AT_LEAST_ONCE"

unfoldable pub is_valid_guarantee : String → Bool
is_valid_guarantee g = g == at_most_once || g == at_least_once

abbrev pub not_positive : Option ℤ → Bool
not_positive none = false
not_positive (some n) = leb_ℤ n (pos 0)

abbrev pub base_not_positive : Option (ℤ × ℤ) → Bool
base_not_positive none = false
base_not_positive (some limits) = leb_ℤ limits.0 (pos 0)

abbrev pub ceiling_below : Option (ℤ × ℤ) → Bool
ceiling_below none = false
ceiling_below (some limits) = ltb_ℤ limits.1 limits.0

abbrev is_none_given : {A : Type 0} → Option (Option A) → Bool
is_none_given (some none) = true
is_none_given _ = false

abbrev no_kinds : Option (List String) → Bool
no_kinds none = false
no_kinds (some kinds) = is_nil kinds

abbrev is_blank : Option String → Bool
is_blank none = false
is_blank (some text) = text == ""

-- The refusal of a guarantee that is not one of the two.
unfoldable pub guarantee_refusal : Option String → Option Error
unfolding is_valid_guarantee
guarantee_refusal none = none
guarantee_refusal (some g) =
    if is_valid_guarantee g
    then none
    else some (
        configuration_error ("the delivery guarantee " <> g <> " is not AtMostOnce or AtLeastOnce"))

unfoldable pub validate_rest : {Filter Handler : Type 0} → EmailConfig Filter Handler → Option Error
validate_rest c =
    if is_blank c.owner
    then some (configuration_error "the email owner must not be empty")
    else if is_none_given c.on_error
    then some (configuration_error "the email error handler must not be nil")
    else none

abbrev or_else : Option Error → Option Error → Option Error
or_else none e = e
or_else (some e) other = some e

unfoldable pub validate_email_config :
    {Filter Handler : Type 0} → EmailConfig Filter Handler → Option Error
unfolding guarantee_refusal validate_rest
validate_email_config c =
    if is_some c.grace && c.without_grace
    then some (
        configuration_error
          "the email grace delay is both set and removed; choose WithEmailGraceDelay or WithoutEmailGraceDelay")
    else if not_positive c.grace
    then some (
        configuration_error
          "the email grace delay must be positive; use WithoutEmailGraceDelay to remove it")
    else if not_positive c.max_lag
    then some (configuration_error "the email max lag must be positive")
    else if not_positive c.batch
    then some (configuration_error "the email batch limit must be positive")
    else if not_positive c.claim
    then some (configuration_error "the email claim limit must be positive")
    else if not_positive c.lease
    then some (configuration_error "the email lease must be positive")
    else if not_positive c.attempts
    then some (configuration_error "the email attempt limit must be positive")
    else if base_not_positive c.backoff
    then some (configuration_error "the email backoff must be positive")
    else if ceiling_below c.backoff
    then some (configuration_error "the email backoff ceiling must be no shorter than its base")
    else if is_some c.filter && is_some c.kinds
    then some (
        configuration_error
          "an email filter and email kinds are both set; choose WithEmailFilter or WithEmailKinds")
    else if is_none_given c.filter
    then some (configuration_error "the email filter must not be nil")
    else if no_kinds c.kinds
    then some (configuration_error "WithEmailKinds needs at least one kind")
    else or_else (guarantee_refusal c.guarantee) (validate_rest c)

-- setDuration and setInt: a given value in place of the default.
abbrev pub set : {A : Type 0} → A → Option A → A
set default none = default
set default (some value) = value

abbrev pub base_of : Option (ℤ × ℤ) → Option ℤ
base_of none = none
base_of (some limits) = some limits.0

abbrev pub ceiling_of : Option (ℤ × ℤ) → Option ℤ
ceiling_of none = none
ceiling_of (some limits) = some limits.1

-- The given one, where there is one that is not nil.
abbrev given : {A : Type 0} → A → Option (Option A) → A
given default none = default
given default (some none) = default
given default (some (some a)) = a

unfoldable pub filter_of :
    {Filter Handler : Type 0}
    → (List String → Filter)
    → EmailConfig Filter Handler
    → Filter
    → Filter
filter_of email_kinds c default = elim c.filter [
  | some filter ↦ given default (some filter)
  | none ↦ elim c.kinds [ some kinds ↦ email_kinds kinds | none ↦ default ]
]

unfoldable pub written_over :
    {Filter Handler : Type 0}
    → (List String → Filter)
    → EmailConfig Filter Handler
    → EmailDispatcher Filter Handler
    → EmailDispatcher Filter Handler
unfolding filter_of
written_over email_kinds c d = record {
  grace = if c.without_grace then pos 0 else set d.grace c.grace;
  max_lag = set d.max_lag c.max_lag;
  batch = set d.batch c.batch;
  claim = set d.claim c.claim;
  lease = set d.lease c.lease;
  attempts = set d.attempts c.attempts;
  backoff = set d.backoff (base_of c.backoff);
  ceiling = set d.ceiling (ceiling_of c.backoff);
  filter = filter_of email_kinds c d.filter;
  guarantee = set d.guarantee c.guarantee;
  owner = set d.owner c.owner;
  on_error = given d.on_error c.on_error;
}

abbrev pub checked_lag :
    {Filter Handler : Type 0}
    → Option Error
    → EmailDispatcher Filter Handler
    → Result (EmailDispatcher Filter Handler)
checked_lag (some e) d = err e
checked_lag none d =
    if leb_ℤ d.max_lag d.grace
    then err (configuration_error "the email max lag must be longer than the grace delay")
    else ok d

-- apply of emailConfig, after which a dispatcher needs more lag than grace.
unfoldable pub apply_email_config :
    {Filter Handler : Type 0}
    → (List String → Filter)
    → EmailConfig Filter Handler
    → EmailDispatcher Filter Handler
    → Result (EmailDispatcher Filter Handler)
unfolding validate_email_config written_over
apply_email_config email_kinds c d =
    checked_lag (validate_email_config c) (written_over email_kinds c d)

-- The dispatcher that the options are written over: 5 minutes of grace, 24 hours of lag, a lease of 5
-- minutes, a backoff of a minute up to an hour.
unfoldable pub default_dispatcher :
    {Filter Handler : Type 0} → Filter → Handler → EmailDispatcher Filter Handler
default_dispatcher every_kind silent = record {
  grace = pos 300000000000;
  max_lag = pos 86400000000000;
  batch = pos 20;
  claim = pos 500;
  lease = pos 300000000000;
  attempts = pos 5;
  backoff = pos 60000000000;
  ceiling = pos 3600000000000;
  filter = every_kind;
  guarantee = at_most_once;
  owner = "";
  on_error = silent;
}
