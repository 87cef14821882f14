-- ===== src/Samples.antt =====
-- Rows, jobs and keys that the examples share.
pub mod Cursors
use abhishek_bhat2005_reachi.Base.{ℕ, true, none, some, List, [], ◌∷◌, codes, ◌+◌}
use abhishek_bhat2005_reachi.Schema.{
  Db, list_tables, Email, Batch, Sender, EmailStatus, BatchStatus,
}
use abhishek_bhat2005_reachi.RateLimit.Server.{function_redis}
use abhishek_bhat2005_reachi.RateLimit.{RateConfig}
use abhishek_bhat2005_reachi.Api.{EmailApiConfig}
use abhishek_bhat2005_reachi.Worker.{World, Job, Run}

abbrev pub rate_config : RateConfig
rate_config = record {
  bullmq_prefix = 98 ∷ [];
  rate_limit_reservation_ttl_ms = 3600000;
  uuid_text = λ id. id ∷ [];
  number_text = λ n. n ∷ [];
}

abbrev pub sender : Sender
sender = record {
  id = 7;
  user_id = 1;
  display_name = codes "Ada";
  email = codes "ada@example.org";
  normalized_email = codes "ada@example.org";
  is_default = true;
  is_active = true;
  hourly_limit = 2;
  minimum_delay_ms = 1000;
}

abbrev pub batch : Batch
batch = record {
  id = 5;
  user_id = 1;
  sender_id = 7;
  idempotency_key = 1 ∷ [];
  subject = codes "Hello";
  body_text = codes "Hello";
  start_at = 1000;
  requested_hourly_limit = 2;
  requested_minimum_delay_ms = 1000;
  source_filename = codes "leads.csv";
  total_rows = 2;
  valid_recipient_count = 2;
  invalid_recipient_count = 0;
  duplicate_recipient_count = 0;
  status = BatchStatus.scheduled;
}

abbrev pub email : ℕ → Email
email id = record {
  id = id;
  batch_id = 5;
  sender_id = 7;
  recipient_email = id ∷ [];
  normalized_recipient_email = id ∷ [];
  sequence_number = 0;
  scheduled_at = 1000;
  next_attempt_at = 1000;
  sent_at = none;
  status = EmailStatus.scheduled;
  bull_job_id = id ∷ [];
  idempotency_key = id ∷ [];
  attempt_count = 0;
  processing_token = none;
  processing_started_at = none;
  smtp_message_id = none;
  ethereal_preview_url = none;
  last_error_code = none;
  last_error_message = none;
  rate_limited_until = none;
}

abbrev pub sent_email : ℕ → Email
sent_email id = record (email id) { status = EmailStatus.sent; sent_at = some 500 }

abbrev pub db_of : List Email → Db list_tables
db_of emails = record {
  users = [];
  senders = sender ∷ [];
  batches = batch ∷ [];
  emails = emails;
  attempts = [];
}

abbrev pub world_of : List Email → World list_tables function_redis
world_of emails = record { db = db_of emails; store = λ key. none }

abbrev pub job : ℕ → Job
job id = record { scheduled_email_id = id; attempts_made = 0; attempts = some 3 }

abbrev pub run : ℕ → ℕ → Run
run now token = record {
  now = now;
  finished = now;
  clock = now;
  attempt_token = token + 100;
  claim_token = token;
}

abbrev pub api_config : EmailApiConfig
api_config = record {
  api_max_page_size = 50;
  api_page_size = 20;
  default_emails_per_hour = 10;
  default_min_send_delay_ms = 500;
  max_upload_bytes = 100000;
  max_emails_per_hour = 100;
  min_send_delay_ms = 100;
  max_send_delay_ms = 60000;
  max_subject_length = 200;
  max_body_length = 1000;
  max_leads_per_batch = 10;
  max_schedule_horizon_days = 1;
}
