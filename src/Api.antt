-- ===== src/Api.antt =====
-- apps/backend/src/email/router.ts: the routes that write. The bodies and parameters of a request
-- are what zod's coercions make of them, which is not part of this repository; the bounds that the
-- schemas state are written out.
pub mod Batches
pub mod Senders
pub mod Defaults
pub mod Lists
pub mod Pages
pub mod Reads
mod Examples
mod SenderExamples
mod ListExamples
use abhishek_bhat2005_reachi.Base.{
  ℕ, zero, suc, ◌+◌, ◌-◌, ◌*◌, Bool, true, false, not, ◌&&◌, ◌||◌, Option, none, some, List, [],
  ◌∷◌, Text, codes, ◌==◌, leb, ltb, any, length, Result, ok, err, HttpError, if◌then◌else◌,
}
use abhishek_bhat2005_reachi.Schema.{Tables, Db, Batch}
use abhishek_bhat2005_reachi.Leads.{
  Platform, LeadParseResult, LeadFileError, InvalidLead, parse_lead_file,
}
use abhishek_bhat2005_reachi.Leads.Strings.{trim}
use abhishek_bhat2005_reachi.Scheduling.{
  CreateBatchInput, CreatedBatchResult, CreationError, Identifiers, Printing, find_existing_batch,
  create_email_batch,
}

pub record EmailApiConfig : Type 0 where
  pub api_max_page_size : ℕ
  pub api_page_size : ℕ
  pub default_emails_per_hour : ℕ
  pub default_min_send_delay_ms : ℕ
  pub max_upload_bytes : ℕ
  pub max_emails_per_hour : ℕ
  pub min_send_delay_ms : ℕ
  pub max_send_delay_ms : ℕ
  pub max_subject_length : ℕ
  pub max_body_length : ℕ
  pub max_leads_per_batch : ℕ
  pub max_schedule_horizon_days : ℕ

pub record ScheduleInput : Type 0 where
  pub sender_id : ℕ
  pub subject : Text
  pub body : Text
  pub start_at : ℕ
  pub hourly_limit : ℕ
  pub minimum_delay_ms : ℕ

pub record UploadedFile : Type 0 where
  pub buffer : List ℕ
  pub original_name : Text
  pub mime_type : Text

-- A request for a batch: the user of the session, the header, the coerced body and the upload.
pub record BatchRequest : Type 0 where
  pub user : Option ℕ
  pub idempotency_key : Option Text
  pub body : Option ScheduleInput
  pub file : Option UploadedFile

abbrev pub is_between : ℕ → ℕ → ℕ → Bool
is_between low high n = leb low n && leb n high

-- `[A-Za-z0-9._~-]`.
is_key_character : ℕ → Bool
is_key_character c =
    is_between 65 90 c
    || is_between 97 122 c
    || is_between 48 57 c
    || c == 46
    || c == 95
    || c == 126
    || c == 45

-- `idempotencyKeySchema`.
unfoldable pub idempotency_key_schema : Option Text → Option Text
unfolding is_key_character
idempotency_key_schema none = none
idempotency_key_schema (some key) =
    if is_between 8 255 (length key) && not (any (λ c. not (is_key_character c)) key)
    then some key
    else none

-- `policyFields`.
abbrev pub is_policy : EmailApiConfig → ℕ → ℕ → Bool
is_policy config hourly_limit minimum_delay_ms =
    is_between 1 config.max_emails_per_hour hourly_limit
    && is_between config.min_send_delay_ms config.max_send_delay_ms minimum_delay_ms

-- `scheduleSchema`.
unfoldable pub schedule_schema : EmailApiConfig → Option ScheduleInput → Option ScheduleInput
schedule_schema config none = none
schedule_schema config (some input) =
    let subject = trim input.subject in
    if is_between 1 config.max_subject_length (length subject)
      && is_between 1 config.max_body_length (length input.body)
      && is_policy config input.hourly_limit input.minimum_delay_ms
    then some (record input { subject = subject })
    else none

abbrev pub http_error : {A : Type 0} → ℕ → Text → Result CreationError A
http_error status code = err (CreationError.http (record { status = status; code = code }))

abbrev file_error : LeadFileError → Result CreationError LeadParseResult
file_error LeadFileError.too_many_leads = http_error 413 (codes "TOO_MANY_LEADS")
file_error LeadFileError.invalid_file = http_error 422 (codes "INVALID_FILE")
file_error LeadFileError.unsupported_file = http_error 422 (codes "UNSUPPORTED_FILE")

abbrev parsed_or_error : Result LeadFileError LeadParseResult → Result CreationError LeadParseResult
parsed_or_error (ok leads) = ok leads
parsed_or_error (err e) = file_error e

unfoldable pub parse_file_or_throw :
    Platform → EmailApiConfig → Option UploadedFile → Result CreationError LeadParseResult
parse_file_or_throw P config none = http_error 400 (codes "LEADS_FILE_REQUIRED")
parse_file_or_throw P config (some file) =
    parsed_or_error
      (parse_lead_file P file.buffer file.original_name file.mime_type config.max_leads_per_batch)

-- `batchCreationResponse`, with its status code.
pub record BatchResponse : Type 0 where
  pub status : ℕ
  pub replayed : Bool
  pub batch : Batch
  pub invalid_rows : List InvalidLead

-- How the route ends: its answer, the id that it gave to `enqueueBatch`, and the database.
pub record Ending (T : Tables) : Type 0 where
  pub answer : Result CreationError BatchResponse
  pub queued : Option ℕ
  pub db : Db T

-- What the route takes from its surroundings: the platform, the digests, `basename`, whether
-- `enqueueBatch` succeeds, the random UUIDs, the time, and what other requests do to the database
-- before `createEmailBatch` and between its statements, with whether its transaction conflicts.
pub record Surroundings (T : Tables) : Type 0 where
  pub platform : Platform
  pub printing : Printing
  pub basename : Text → Text
  pub enqueue_batch : ℕ → Bool
  pub new : Identifiers
  pub now : ℕ
  pub meanwhile : Db T → Db T
  pub before : Db T → Db T
  pub after : Db T → Db T
  pub conflicts : Bool

abbrev pub day_milliseconds : ℕ
day_milliseconds = 24 * 60 * 60 * 1000

abbrev pub file_name : Option UploadedFile → Text
file_name none = codes "leads.txt"
file_name (some file) = file.original_name

abbrev pub create_input :
    (Text → Text)
    → ℕ
    → Text
    → Option UploadedFile
    → ScheduleInput
    → LeadParseResult
    → CreateBatchInput
create_input basename user key file input leads = record {
  user_id = user;
  sender_id = input.sender_id;
  idempotency_key = key;
  subject = input.subject;
  body_text = input.body;
  start_at = input.start_at;
  hourly_limit = input.hourly_limit;
  minimum_delay_ms = input.minimum_delay_ms;
  source_filename = basename (file_name file);
  parsed_leads = leads;
}

module _ (T : Tables) (config : EmailApiConfig) (S : Surroundings T) where
  abbrev pub refuse : ℕ → Text → Db T → Ending T
  refuse status code db = record { answer = http_error status code; queued = none; db = db }

  -- The end of both paths: the batch is queued, and the answer sent.
  unfoldable pub enqueue_and_respond : Batch → Bool → List InvalidLead → Db T → Ending T
  enqueue_and_respond batch replayed invalid_rows db = record {
    answer =
        if S.enqueue_batch batch.id
        then ok (record {
          status = if replayed then 200 else 201;
          replayed = replayed;
          batch = batch;
          invalid_rows = invalid_rows;
        })
        else http_error 503 (codes "QUEUE_UNAVAILABLE");
    queued = some batch.id;
    db = db;
  }

  abbrev pub finish_creation :
      LeadParseResult → Result CreationError CreatedBatchResult × Db T → Ending T
  finish_creation leads (err e, db) = record { answer = err e; queued = none; db = db }
  finish_creation leads (ok created, db) =
      enqueue_and_respond created.batch created.replayed
        (if created.replayed then [] else leads.invalid_rows) db

  -- From the checked upload on.
  unfoldable pub schedule_leads :
      ℕ → Text → Option UploadedFile → ScheduleInput → LeadParseResult → Db T → Ending T
  schedule_leads user key file input leads db =
      let horizon = S.now + config.max_schedule_horizon_days * day_milliseconds in
      if ltb horizon (input.start_at + (length leads.leads - 1) * input.minimum_delay_ms)
      then refuse 422 (codes "SCHEDULE_EXCEEDS_HORIZON") db
      else finish_creation leads (
          create_email_batch T S.printing (create_input S.basename user key file input leads) S.new
            S.before S.after S.conflicts (S.meanwhile db))

  -- From the checked key on, when no batch has it.
  unfoldable pub schedule_new : ℕ → Text → BatchRequest → Db T → Ending T
  schedule_new user key request db = elim (schedule_schema config request.body) [
    | none ↦ refuse 400 (codes "VALIDATION_ERROR") db
    | some input ↦
        let horizon = S.now + config.max_schedule_horizon_days * day_milliseconds in
        if ltb input.start_at S.now || ltb horizon input.start_at
        then refuse 422 (codes "INVALID_START_TIME") db
        else elim (parse_file_or_throw S.platform config request.file) [
          | err e ↦ record { answer = err e; queued = none; db = db }
          | ok leads ↦ schedule_leads user key request.file input leads db
        ]
  ]

  -- `POST /email-batches`.
  unfoldable pub post_email_batches : BatchRequest → Db T → Ending T
  post_email_batches request db = elim request.user [
    | none ↦ refuse 401 (codes "AUTHENTICATION_REQUIRED") db
    | some user ↦ elim (idempotency_key_schema request.idempotency_key) [
      | none ↦ refuse 400 (codes "VALIDATION_ERROR") db
      | some key ↦ elim (find_existing_batch T user key db) [
        | some existing ↦ enqueue_and_respond existing true [] db
        | none ↦ schedule_new user key request db
      ]
    ]
  ]
