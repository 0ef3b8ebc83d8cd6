-- ===== src/Notify/Email.antt =====
-- notify/email.go and the delivery state of notify/memory_email.go: the values of email delivery.
use hmntsk.Prelude.{ℕ, String, Bool, true, false, Option}
use hmntsk.Task.{Time}

-- `unset_email` is the empty text, the status of a delivery that is not recorded.
pub data EmailStatus : Type 0 where
  claimed sending sent retry skipped failed abandoned : EmailStatus
  unset_email : EmailStatus

unfoldable pub is_valid_email : EmailStatus → Bool
is_valid_email unset_email = false
is_valid_email _ = true

pub record EmailDelivery : Type 0 where
  pub status : EmailStatus
  pub batch_id : String
  pub owner : String
  pub lease_until : Option Time
  pub attempts : ℕ
  pub next_attempt_at : Option Time
  pub reason : String
  pub sent_at : Option Time
  pub updated_at : Time
