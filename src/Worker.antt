-- ===== src/Worker.antt =====
-- apps/backend/src/worker/email-processor.ts, `createEmailProcessor`. The rows are those of the
-- database `T`, the keys those of the Redis server `R`; the mailer is a function to what it returns
-- or throws. A run has the two times and the two random UUIDs that it takes, and the server's time.
pub mod Delivery
pub mod Statements
pub mod Rows
pub mod Effects
pub mod Outcomes
pub mod OneRow
pub mod Sending
mod Examples
use abhishek_bhat2005_reachi.Base.{
  ℕ, zero, suc, ◌+◌, Bool, true, false, not, ◌&&◌, ◌||◌, Option, none, some, Text, Result, ok, err,
  ◌==◌, ltb, leb, find, if◌then◌else◌,
}
use abhishek_bhat2005_reachi.Base.Table.{Table}
use abhishek_bhat2005_reachi.Schema.{Tables, Db, Email, Batch, Sender}
use abhishek_bhat2005_reachi.RateLimit.Server.{Redis}
use abhishek_bhat2005_reachi.RateLimit.{RateConfig, SenderPolicy, RateLimitDecision, reserve}
use Delivery.{Classification, Property, Thrown, classify_delivery_error}
use Statements.{
  Claim, DeliveryReceipt, FailureResult, is_terminal, is_processing, is_retryable,
  record_rate_limit, claim_email, record_accepted, record_failure,
}

pub record EmailMessage : Type 0 where
  pub scheduled_email_id : ℕ
  pub from_name : Text
  pub from_email : Text
  pub recipient_email : Text
  pub subject : Text
  pub body_text : Text

abbrev pub Mailer : Type 0
Mailer = EmailMessage → Result Thrown DeliveryReceipt

-- A job of the queue: `attempts` is `job.opts.attempts`.
pub record Job : Type 0 where
  pub scheduled_email_id : ℕ
  pub attempts_made : ℕ
  pub attempts : Option ℕ

-- How a run ends: it returns; it moves the job to a later time and throws `DelayedError`; it throws
-- `UnrecoverableError`, the error that is tried again, or an exception of the database or of Redis.
pub data JobOutcome : Type 0 where
  returned : JobOutcome
  delayed : ℕ → JobOutcome
  unrecoverable : FailureResult → JobOutcome
  transient_failure : JobOutcome
  crashed : JobOutcome

pub record Run : Type 0 where
  pub now : ℕ
  pub finished : ℕ
  pub clock : ℕ
  pub attempt_token : ℕ
  pub claim_token : ℕ

pub record Loaded : Type 0 where
  pub email : Email
  pub batch : Batch
  pub sender : Sender

abbrev joined : Email → Option Batch → Option Sender → Option Loaded
joined email (some batch) (some sender) =
    some (record { email = email; batch = batch; sender = sender })
joined email _ _ = none

-- `throw new Error("The claimed email could not be finalized")`.
abbrev pub plain_error : Thrown
plain_error = Thrown.object Property.other Property.other

-- `throw new RejectedDeliveryError()` on a receipt that accepts no recipient.
abbrev pub accepted : Result Thrown DeliveryReceipt → Result Thrown DeliveryReceipt
accepted (err e) = err e
accepted (ok receipt) =
    if receipt.accepted_count == 0 then err Thrown.rejected_delivery else ok receipt

abbrev pub is_final_retry : Job → Bool
is_final_retry job = leb (elim job.attempts [ none ↦ 1 | some n ↦ n ]) (job.attempts_made + 1)

abbrev pub message_of : Loaded → EmailMessage
message_of l = record {
  scheduled_email_id = l.email.id;
  from_name = l.sender.display_name;
  from_email = l.sender.email;
  recipient_email = l.email.recipient_email;
  subject = l.batch.subject;
  body_text = l.batch.body_text;
}

abbrev pub sender_policy : Loaded → SenderPolicy
sender_policy l = record {
  sender_id = l.email.sender_id;
  hourly_limit = l.sender.hourly_limit;
  minimum_delay_ms = l.sender.minimum_delay_ms;
}

module _ (T : Tables) where
  -- `findUnique` with the email's batch and sender, which the foreign keys guarantee.
  unfoldable pub load : ℕ → Db T → Option Loaded
  load email_id db = elim (find (λ e. e.id == email_id) (T.emails.rows db.emails)) [
    | none ↦ none
    | some email ↦
        joined email (find (λ b. b.id == email.batch_id) (T.batches.rows db.batches))
          (find (λ s. s.id == email.sender_id) (T.senders.rows db.senders))
  ]

module _ (T : Tables) (backoff : ℕ) where
  -- The handler of the exceptions of a delivery.
  unfoldable pub fail : Job → Claim → Thrown → ℕ → Db T → JobOutcome × Db T
  fail job claim error finished db =
      elim (record_failure T claim (classify_delivery_error error) (is_final_retry job) backoff
        error finished db) [
          | none ↦ (JobOutcome.crashed, db)
          | some (result, db') ↦ (
            if is_retryable result
                then JobOutcome.transient_failure
                else JobOutcome.unrecoverable result,
            db',
          )
        ]

  -- What follows the claim, for what the mailer returned or threw.
  unfoldable pub finish : Job → Claim → Result Thrown DeliveryReceipt → ℕ → Db T → JobOutcome × Db T
  finish job claim (err error) finished db = fail job claim error finished db
  finish job claim (ok receipt) finished db = elim (record_accepted T claim receipt finished db) [
    | none ↦ fail job claim plain_error finished db
    | some db' ↦ (JobOutcome.returned, db')
  ]

-- The database and the keys.
pub record World (T : Tables) (R : Redis) : Type 0 where
  pub db : Db T
  pub store : R.Store

module _ (T : Tables) (R : Redis) (config : RateConfig) (backoff : ℕ) (mailer : Mailer) where
  -- From the claim on.
  unfoldable pub claim_and_send : Job → Run → Loaded → World T R → JobOutcome × World T R
  claim_and_send job run l w = elim (claim_email T l.email.id run.now run.claim_token w.db) [
    | none ↦ (JobOutcome.crashed, w)
    | some (none, db) ↦ (JobOutcome.returned, record w { db = db })
    | some (some claim, db) ↦
        let (outcome, db') =
          finish T backoff job claim (accepted (mailer (message_of l))) run.finished db in
        (outcome, record w { db = db' })
  ]

  -- A refused email: `recordRateLimit` and `moveToDelayed`.
  unfoldable pub postpone : Run → ℕ → ℕ → World T R → JobOutcome × World T R
  postpone run email_id next w =
      elim (record_rate_limit T email_id next run.now run.attempt_token w.db) [
        | none ↦ (JobOutcome.crashed, w)
        | some (_, db) ↦ (JobOutcome.delayed next, record w { db = db })
      ]

  -- From the reservation on.
  unfoldable pub admit : Job → Run → Loaded → World T R → JobOutcome × World T R
  admit job run l w =
      let (decision, store) =
        reserve R config (sender_policy l) l.email.id run.now run.clock w.store in
      let w' = record w { store = store } in
      elim decision [
        | none ↦ (JobOutcome.crashed, w')
        | some d ↦
            if d.admitted
            then claim_and_send job run l w'
            else postpone run l.email.id d.next_available_at w'
      ]

  -- The processor.
  unfoldable pub process : Job → Run → World T R → JobOutcome × World T R
  process job run w = elim (load T job.scheduled_email_id w.db) [
    | none ↦ (JobOutcome.returned, w)
    | some l ↦
        if is_terminal l.email.status || is_processing l.email.status
        then (JobOutcome.returned, w)
        else if ltb run.now l.email.next_attempt_at
        then (JobOutcome.delayed l.email.next_attempt_at, w)
        else admit job run l w
  ]
