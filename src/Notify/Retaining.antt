-- ===== src/Notify/Retaining.antt =====
-- notify/pruner.go: the bounds a pruner is built with, and a pass over the store. An option that was
-- not given is none; the texts of the refusals are kept.
use hmntsk.Prelude.{
  String, Bool, false, ◌&&◌, not, Option, none, some, ℤ, pos, leb_ℤ, is_some, if◌then◌else◌,
}
use hmntsk.Errors.{◌<>◌}
use hmntsk.Task.{Time, normalize_time}
use hmntsk.Notify.{Error, configuration_error, Result, ok, err, List}
use hmntsk.Notify.Port.{
  RetentionStrategy, evict_oldest_active, retain_active, other_strategy, is_valid_strategy,
  PruneRequest, PruneResult,
}
use hmntsk.Notify.Memory.{MemoryStore}
use hmntsk.Notify.Pruning.{prune}
use hmntsk.Notify.Publishing.{Signal, signals_for, change_pruned}

pub record PruneConfig : Type 0 where
  pub max_per_recipient : Option ℤ
  pub without_count : Bool
  pub max_age : Option ℤ
  pub without_age : Bool
  pub strategy : Option RetentionStrategy
  pub watermark_retention : Option ℤ
  pub batch : Option ℤ

abbrev not_positive : Option ℤ → Bool
not_positive none = false
not_positive (some n) = leb_ℤ n (pos 0)

abbrev not_valid : Option RetentionStrategy → Bool
not_valid none = false
not_valid (some s) = not (is_valid_strategy s)

abbrev strategy_name : Option RetentionStrategy → String
strategy_name none = ""
strategy_name (some evict_oldest_active) = "EVICT_OLDEST_ACTIVE"
strategy_name (some retain_active) = "RETAIN_ACTIVE"
strategy_name (some (other_strategy text)) = text

-- The first contradiction, or a bound without meaning.
unfoldable pub validate_config : PruneConfig → Option Error
unfolding is_valid_strategy
validate_config c =
    if is_some c.max_per_recipient && c.without_count
    then some (
        configuration_error
          "the count bound is both set and removed; choose WithMaxPerRecipient or WithoutMaxPerRecipient")
    else if not_positive c.max_per_recipient
    then some (
        configuration_error
          "the count bound must be positive; use WithoutMaxPerRecipient to remove it")
    else if is_some c.max_age && c.without_age
    then some (
        configuration_error
          "the age bound is both set and removed; choose WithMaxAge or WithoutMaxAge")
    else if not_positive c.max_age
    then some (configuration_error "the age bound must be positive; use WithoutMaxAge to remove it")
    else if c.without_count && c.without_age
    then some (configuration_error "a pruner with both bounds removed could never prune anything")
    else if not_valid c.strategy
    then some (
        configuration_error (
          "the retention strategy "
          <> strategy_name c.strategy
          <> " is not EvictOldestActive or RetainActive"))
    else if not_positive c.watermark_retention
    then some (configuration_error "the watermark retention must be positive")
    else if not_positive c.batch
    then some (configuration_error "the prune batch must be positive")
    else none

abbrev or_else {ℓ} : {A : Type ℓ} → A → Option A → A
or_else a none = a
or_else a (some b) = b

-- The bounds with their defaults, in nanoseconds: 500 notifications, 90 days, 7 days, 1000 rows.
unfoldable pub request_of : PruneConfig → PruneRequest
request_of c = record {
  now = 0;
  max_per_recipient = if c.without_count then pos 0 else or_else (pos 500) c.max_per_recipient;
  max_age = if c.without_age then pos 0 else or_else (pos 7776000000000000) c.max_age;
  strategy = or_else evict_oldest_active c.strategy;
  watermark_retention = or_else (pos 604800000000000) c.watermark_retention;
  batch = or_else (pos 1000) c.batch;
}

-- The request of a new pruner over a service.
unfoldable pub new_pruner : PruneConfig → Result PruneRequest
unfolding validate_config request_of
new_pruner c = elim (validate_config c) [ some e ↦ err e | none ↦ ok (request_of c) ]

-- A pass: the store after it, its result, and the signals to those who lost ACTIVE notifications.
unfoldable pub prune_pass :
    PruneRequest → Time → MemoryStore → MemoryStore × PruneResult × List Signal
unfolding prune signals_for normalize_time
prune_pass request clock s =
    let now = normalize_time clock in
    let done = prune (record request { now = now }) s in
    (done.0, done.1, signals_for done.1.recipients change_pruned now)
