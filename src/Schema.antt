-- ===== src/Schema.antt =====
-- apps/backend/prisma/schema.prisma: the rows of the five tables. A UUID is the 128-bit number by
-- which PostgreSQL stores and compares it, and a time is a number of milliseconds since the epoch.
use abhishek_bhat2005_reachi.Base.{
  ℕ, Bool, false, ◌&&◌, ◌||◌, Option, none, some, Text, text_eq, ◌==◌, some_is,
}
use abhishek_bhat2005_reachi.Base.Table.{Table, list_table}

pub data BatchStatus : Type 0 where
  creating scheduled partially_failed completed : BatchStatus

pub data EmailStatus : Type 0 where
  scheduled rate_limited processing retryable sent failed delivery_unknown cancelled : EmailStatus

pub data AttemptOutcome : Type 0 where
  claimed rate_limited smtp_accepted definite_failure transient_failure delivery_unknown :
      AttemptOutcome

pub record User : Type 0 where
  pub id : ℕ
  pub google_subject : Text
  pub email : Text
  pub name : Text
  pub avatar_url : Option Text
  pub last_login_at : ℕ

pub record Sender : Type 0 where
  pub id : ℕ
  pub user_id : ℕ
  pub display_name : Text
  pub email : Text
  pub normalized_email : Text
  pub is_default : Bool
  pub is_active : Bool
  pub hourly_limit : ℕ
  pub minimum_delay_ms : ℕ

pub record Batch : Type 0 where
  pub id : ℕ
  pub user_id : ℕ
  pub sender_id : ℕ
  pub idempotency_key : Text
  pub subject : Text
  pub body_text : Text
  pub start_at : ℕ
  pub requested_hourly_limit : ℕ
  pub requested_minimum_delay_ms : ℕ
  pub source_filename : Text
  pub total_rows : ℕ
  pub valid_recipient_count : ℕ
  pub invalid_recipient_count : ℕ
  pub duplicate_recipient_count : ℕ
  pub status : BatchStatus

pub record Email : Type 0 where
  pub id : ℕ
  pub batch_id : ℕ
  pub sender_id : ℕ
  pub recipient_email : Text
  pub normalized_recipient_email : Text
  pub sequence_number : ℕ
  pub scheduled_at : ℕ
  pub next_attempt_at : ℕ
  pub sent_at : Option ℕ
  pub status : EmailStatus
  pub bull_job_id : Text
  pub idempotency_key : Text
  pub attempt_count : ℕ
  pub processing_token : Option ℕ
  pub processing_started_at : Option ℕ
  pub smtp_message_id : Option Text
  pub ethereal_preview_url : Option Text
  pub last_error_code : Option Text
  pub last_error_message : Option Text
  pub rate_limited_until : Option ℕ

-- `response_metadata` is the pair of the accepted and the rejected count.
pub record Attempt : Type 0 where
  pub email_id : ℕ
  pub attempt_number : ℕ
  pub attempt_token : ℕ
  pub started_at : ℕ
  pub finished_at : Option ℕ
  pub outcome : AttemptOutcome
  pub response_metadata : Option (ℕ × ℕ)
  pub error_code : Option Text
  pub error_message : Option Text

-- The unique constraints: a new row may not agree with one that is there in any of these.
unfoldable pub user_conflict : User → User → Bool
user_conflict r s =
    r.id == s.id || text_eq r.google_subject s.google_subject || text_eq r.email s.email

unfoldable pub sender_conflict : Sender → Sender → Bool
sender_conflict r s =
    r.id == s.id || (r.user_id == s.user_id && text_eq r.normalized_email s.normalized_email)

unfoldable pub batch_conflict : Batch → Batch → Bool
batch_conflict r s =
    r.id == s.id || (r.user_id == s.user_id && text_eq r.idempotency_key s.idempotency_key)

-- Null tokens do not conflict.
same_token : Option ℕ → Option ℕ → Bool
same_token none o = false
same_token (some t) o = some_is o t

unfoldable pub email_conflict : Email → Email → Bool
unfolding same_token
email_conflict r s =
    r.id == s.id
    || text_eq r.bull_job_id s.bull_job_id
    || text_eq r.idempotency_key s.idempotency_key
    || same_token r.processing_token s.processing_token
    || (r.batch_id == s.batch_id
        && text_eq r.normalized_recipient_email s.normalized_recipient_email)

unfoldable pub attempt_conflict : Attempt → Attempt → Bool
attempt_conflict r s =
    r.attempt_token == s.attempt_token
    || (r.email_id == s.email_id && r.attempt_number == s.attempt_number)

pub record Tables : Type 1 where
  pub users : Table User user_conflict
  pub senders : Table Sender sender_conflict
  pub batches : Table Batch batch_conflict
  pub emails : Table Email email_conflict
  pub attempts : Table Attempt attempt_conflict

-- The state of the database.
pub record Db (T : Tables) : Type 0 where
  pub users : T.users.State
  pub senders : T.senders.State
  pub batches : T.batches.State
  pub emails : T.emails.State
  pub attempts : T.attempts.State

-- A database whose tables are lists of rows.
abbrev pub list_tables : Tables
list_tables = record {
  users = list_table User user_conflict;
  senders = list_table Sender sender_conflict;
  batches = list_table Batch batch_conflict;
  emails = list_table Email email_conflict;
  attempts = list_table Attempt attempt_conflict;
}
