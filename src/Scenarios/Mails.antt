-- ===== src/Scenarios/Mails.antt =====
-- Email dispatchers built from options, and claims of emails.
use hmntsk.Prelude.{
  String, Bool, true, false, List, [], ◌∷◌, none, some, pos, ◌≡◌, refl, leb_ℤ, contains, ltb, get,
}
use hmntsk.Scenarios.Notes.{stored, stored-IsIndexed}
use hmntsk.Notify.Leases.Exclusion.{claim_emails_exclusive, IsElsewhere, after_calls}
use hmntsk.Notify.Leases.Dues.{lease_end}
use hmntsk.Notify.Leases.{candidate_ids}
use hmntsk.Prelude.Ranking.{All}
use hmntsk.Notify.Mailing.{
  EmailClaim, EmailRecord, claim_emails, claim_call, record_call, purge_call,
}
use hmntsk.Notify.Email.{sent}
use hmntsk.Task.{normalize_time}
use hmntsk.Notify.Memory.{insert_all, insert_each, insert_one, new_memory_store}
use hmntsk.Prelude.Tables.{find, store}
use hmntsk.Prelude.{put}
use hmntsk.Notify.{ok, same_state}
use hmntsk.Notify.Dispatching.{
  EmailConfig, EmailDispatcher, at_least_once, apply_email_config, default_dispatcher, written_over,
  validate_email_config,
}
use hmntsk.Notify.Dispatching.Options.{IsBounded, accepted-IsBounded}

-- Options that replace a part of the defaults.
abbrev eager : EmailConfig Bool String
eager = record {
  grace = some (pos 60000000000);
  without_grace = false;
  max_lag = none;
  batch = some (pos 5);
  claim = none;
  lease = none;
  attempts = some (pos 2);
  backoff = some (pos 1000000000, pos 8000000000);
  filter = none;
  kinds = some ("offer" ∷ []);
  guarantee = some at_least_once;
  owner = some "mailer-1";
  on_error = none;
}

abbrev only : List String → Bool
only kinds = false

abbrev mailer : EmailDispatcher Bool String
mailer = written_over only eager (default_dispatcher true "silent")

mailer_built : apply_email_config only eager (default_dispatcher true "silent") ≡ ok mailer
unfolding apply_email_config written_over default_dispatcher validate_email_config
mailer_built = refl

accepted-IsBounded_example : IsBounded mailer × (leb_ℤ mailer.max_lag mailer.grace ≡ false)
accepted-IsBounded_example = accepted-IsBounded eager only true "silent" mailer mailer_built

abbrev dispatch : EmailClaim
dispatch = record {
  now = 20000;
  owner = "d1";
  lease = pos 60000;
  created_until = 20000;
  created_from = 0;
  limit = pos 10;
}

-- Another dispatcher, before the lease is over.
abbrev rival : EmailClaim
rival = record dispatch { now = 50000; owner = "d2" }

abbrev stolen : EmailRecord
stolen = record {
  owner = "d2";
  ids = "n1" ∷ [];
  status = sent;
  batch_id = "";
  reason = "";
  next_attempt_at = none;
  attempt = false;
  at = 60000;
}

claimed_note : contains (candidate_ids (claim_emails dispatch stored).0) "n1" ≡ true
unfolding claim_emails contains get same_state insert_all insert_each insert_one find
    new_memory_store store put
claimed_note = refl

rivals :
    All
      (IsElsewhere "d1" (lease_end dispatch))
      (claim_call rival ∷ record_call stolen ∷ purge_call (pos 5) ∷ [])
unfolding normalize_time
rivals = (refl, (refl, (tt, tt)))

rival_early : ltb (normalize_time 50000) (lease_end dispatch) ≡ true
unfolding normalize_time
rival_early = refl

claim_emails_exclusive_example :
    let s' =
      after_calls
        (claim_call rival ∷ record_call stolen ∷ purge_call (pos 5) ∷ [])
        (claim_emails dispatch stored).1 in
    contains (candidate_ids (claim_emails rival s').0) "n1" ≡ false
claim_emails_exclusive_example =
    claim_emails_exclusive dispatch rival
      (claim_call rival ∷ record_call stolen ∷ purge_call (pos 5) ∷ []) stored "n1" stored-IsIndexed
      claimed_note rivals rival_early
