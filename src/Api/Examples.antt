-- ===== src/Api/Examples.antt =====
-- A request for a batch that is accepted.
use abhishek_bhat2005_reachi.Base.{
  ◌==◌, ◌≡◌, ◌≤◌, ◌<◌, ◌+◌, refl, true, false, none, some, List, [], ◌∷◌, ok, codes, Text, text_eq,
  length, All, any,
}
use abhishek_bhat2005_reachi.Schema.{
  batch_conflict, email_conflict, Batch, BatchStatus, list_tables, Email,
}
use abhishek_bhat2005_reachi.Samples.{db_of, api_config}
use abhishek_bhat2005_reachi.Leads.Strings.{trim, split_lines, split_address}
use abhishek_bhat2005_reachi.Leads.{
  parse_lead_file, file_candidates, is_supported_mime, text_candidates, parse_candidates,
  normalize_email, ParsedLead,
}
use abhishek_bhat2005_reachi.Scheduling.{
  create_email_batch, creation_transaction, insert_batch, chunks, create_bull_job_id, create_chunks,
  create_many, create_recipient_idempotency_key, email_rows, with_limits,
}
use abhishek_bhat2005_reachi.Api.{
  idempotency_key_schema, schedule_new, schedule_schema, parse_file_or_throw, schedule_leads,
  enqueue_and_respond, BatchRequest, BatchResponse, Surroundings, post_email_batches,
}
use abhishek_bhat2005_reachi.Api.Batches.{post_email_batches-times}

abbrev surroundings : Surroundings list_tables
surroundings = record {
  platform = record {
    is_email = λ s. any (λ c. c == 64) s;
    decode_utf8 = λ bytes. some bytes;
    parse_csv = λ s. none;
    extname = λ name. codes ".txt";
  };
  printing = record { uuid_text = λ id. id ∷ []; sha256_hex = λ s. s };
  basename = λ s. s;
  enqueue_batch = λ id. true;
  new = record { batch_id = 20; email_id = λ n. 30 + n };
  now = 1000;
  meanwhile = λ d. d;
  before = λ d. d;
  after = λ d. d;
  conflicts = false;
}

abbrev request : BatchRequest
request = record {
  user = some 1;
  idempotency_key = some (codes "key-0001");
  body = some (record {
    sender_id = 7;
    subject = codes "Hi";
    body = codes "Hi";
    start_at = 2000;
    hourly_limit = 10;
    minimum_delay_ms = 500;
  });
  file = some (record {
    buffer = codes "a@b,c@d";
    original_name = codes "leads.txt";
    mime_type = codes "text/plain";
  });
}

abbrev lead : Text → ParsedLead
lead s = record { email = s; normalized_email = s }

-- The batch of the two leads of the file.
abbrev made : Batch
made = record {
  id = 20;
  user_id = 1;
  sender_id = 7;
  idempotency_key = codes "key-0001";
  subject = codes "Hi";
  body_text = codes "Hi";
  start_at = 2000;
  requested_hourly_limit = 10;
  requested_minimum_delay_ms = 500;
  source_filename = codes "leads.txt";
  total_rows = 2;
  valid_recipient_count = 2;
  invalid_recipient_count = 0;
  duplicate_recipient_count = 0;
  status = BatchStatus.scheduled;
}

abbrev response : BatchResponse
response = record { status = 201; replayed = false; batch = made; invalid_rows = [] }

accepted :
    (post_email_batches list_tables api_config surroundings request (db_of [])).answer ≡ ok response
unfolding post_email_batches text_eq idempotency_key_schema schedule_new schedule_schema trim
    parse_file_or_throw parse_lead_file file_candidates is_supported_mime text_candidates
    split_lines schedule_leads parse_candidates normalize_email split_address create_email_batch
    creation_transaction insert_batch enqueue_and_respond chunks create_bull_job_id create_chunks
    create_many create_recipient_idempotency_key email_rows with_limits batch_conflict
    email_conflict
accepted = refl

post_email_batches-times_example :
    (es : List Email) × ((post_email_batches list_tables api_config surroundings request
        (db_of [])).db.emails
      ≡ es)
    × All (λ e. (1000 ≤ e.scheduled_at) × (e.scheduled_at ≤ 86401000)) es
    × (length es ≡ 2)
    × (0 < length es)
    × ((post_email_batches list_tables api_config surroundings request (db_of [])).queued ≡ some 20)
post_email_batches-times_example =
    post_email_batches-times list_tables api_config surroundings request (db_of []) response
      accepted refl
