-- ===== src/Scheduling.antt =====
-- apps/backend/src/email/scheduling-service.ts and identifiers.ts. The random UUIDs, the printing of
-- UUIDs and the SHA-256 digest are parameters, and so is what other requests do to the database
-- between the statements of `createEmailBatch`; its transaction is serializable, so it runs at
-- once, or is refused as conflicting with another one, which is a parameter too.
pub mod Creation
pub mod Replay
pub mod Rows
pub mod Later
mod Examples
use abhishek_bhat2005_reachi.Base.{
  ℕ, zero, suc, ◌+◌, ◌*◌, Bool, true, false, ◌&&◌, Option, none, some, List, [], ◌∷◌, ◌++◌, Text,
  codes, text_eq, ◌==◌, find, length, take, drop, Result, ok, err, HttpError, if◌then◌else◌,
}
use abhishek_bhat2005_reachi.Schema.{Tables, Db, Email, Batch, Sender, EmailStatus, BatchStatus}
use abhishek_bhat2005_reachi.Leads.{LeadParseResult, ParsedLead}

pub record CreateBatchInput : Type 0 where
  pub user_id : ℕ
  pub sender_id : ℕ
  pub idempotency_key : Text
  pub subject : Text
  pub body_text : Text
  pub start_at : ℕ
  pub hourly_limit : ℕ
  pub minimum_delay_ms : ℕ
  pub source_filename : Text
  pub parsed_leads : LeadParseResult

pub record CreatedBatchResult : Type 0 where
  pub batch : Batch
  pub replayed : Bool

-- The UUIDs of one call: that of the batch, and those of the emails by their sequence numbers.
pub record Identifiers : Type 0 where
  pub batch_id : ℕ
  pub email_id : ℕ → ℕ

pub record Printing : Type 0 where
  pub uuid_text : ℕ → Text
  pub sha256_hex : Text → Text

-- What is thrown: an `HttpError`, or the database's P2002 or P2034.
pub data CreationError : Type 0 where
  http : HttpError → CreationError
  unique_violation write_conflict : CreationError

-- The loop of `chunks`, on fuel.
unfoldable pub chunks_from {ℓ} : {A : Type ℓ} → ℕ → List A → ℕ → List (List A)
chunks_from zero values size = []
chunks_from (suc fuel) [] size = []
chunks_from (suc fuel) (v ∷ vs) size =
    take size (v ∷ vs) ∷ chunks_from fuel (drop size (v ∷ vs)) size

unfoldable pub chunks {ℓ} : {A : Type ℓ} → List A → ℕ → List (List A)
unfolding chunks_from
chunks values size = chunks_from (length values) values size

abbrev pub insertion_chunk_size : ℕ
insertion_chunk_size = 250

unfoldable pub create_bull_job_id : Printing → ℕ → Text
create_bull_job_id P id = codes "email_" ++ P.uuid_text id

unfoldable pub create_recipient_idempotency_key : Printing → ℕ → Text → Text
create_recipient_idempotency_key P batch_id recipient =
    codes "recipient_" ++ P.sha256_hex (P.uuid_text batch_id ++ 0 ∷ recipient)

-- One row of `emailRows`; the columns that it leaves out have their defaults.
abbrev pub email_row : Printing → CreateBatchInput → Identifiers → ℕ → ParsedLead → Email
email_row P input new sequence lead =
    let scheduled_at = input.start_at + sequence * input.minimum_delay_ms in
    record {
      id = new.email_id sequence;
      batch_id = new.batch_id;
      sender_id = input.sender_id;
      recipient_email = lead.email;
      normalized_recipient_email = lead.normalized_email;
      sequence_number = sequence;
      scheduled_at = scheduled_at;
      next_attempt_at = scheduled_at;
      sent_at = none;
      status = EmailStatus.scheduled;
      bull_job_id = create_bull_job_id P (new.email_id sequence);
      idempotency_key = create_recipient_idempotency_key P new.batch_id lead.normalized_email;
      attempt_count = 0;
      processing_token = none;
      processing_started_at = none;
      smtp_message_id = none;
      ethereal_preview_url = none;
      last_error_code = none;
      last_error_message = none;
      rate_limited_until = none;
    }

-- `leads.map((lead, sequenceNumber) => …)`, from a sequence number on.
unfoldable pub email_rows :
    Printing → CreateBatchInput → Identifiers → ℕ → List ParsedLead → List Email
email_rows P input new sequence [] = []
email_rows P input new sequence (lead ∷ leads) =
    email_row P input new sequence lead ∷ email_rows P input new (sequence + 1) leads

abbrev pub new_batch : CreateBatchInput → Identifiers → Batch
new_batch input new = record {
  id = new.batch_id;
  user_id = input.user_id;
  sender_id = input.sender_id;
  idempotency_key = input.idempotency_key;
  subject = input.subject;
  body_text = input.body_text;
  start_at = input.start_at;
  requested_hourly_limit = input.hourly_limit;
  requested_minimum_delay_ms = input.minimum_delay_ms;
  source_filename = input.source_filename;
  total_rows = input.parsed_leads.total_rows;
  valid_recipient_count = length input.parsed_leads.leads;
  invalid_recipient_count = input.parsed_leads.invalid_count;
  duplicate_recipient_count = input.parsed_leads.duplicate_count;
  status = BatchStatus.scheduled;
}

-- The batch of a user with a key, and the sender that the input names.
abbrev pub has_key : ℕ → Text → Batch → Bool
has_key user_id key b = user_id == b.user_id && text_eq key b.idempotency_key

abbrev pub is_wanted : CreateBatchInput → Sender → Bool
is_wanted input s = s.id == input.sender_id && s.user_id == input.user_id && s.is_active

module _ (T : Tables) where
  abbrev pub find_existing_batch : ℕ → Text → Db T → Option Batch
  find_existing_batch user_id key db = find (has_key user_id key) (T.batches.rows db.batches)

  -- `createMany`: all the rows, or none if one violates a constraint.
  unfoldable pub create_many : List Email → T.emails.State → Option T.emails.State
  create_many [] s = some s
  create_many (e ∷ es) s = elim (T.emails.create e s) [ none ↦ none | some t ↦ create_many es t ]

  unfoldable pub create_chunks : List (List Email) → T.emails.State → Option T.emails.State
  create_chunks [] s = some s
  create_chunks (c ∷ cs) s = elim (create_many c s) [ none ↦ none | some t ↦ create_chunks cs t ]

  -- The policy of the request becomes that of its sender.
  unfoldable pub with_limits : CreateBatchInput → ℕ → Db T → Db T
  with_limits input sender_id db = record db {
    senders =
        T.senders.update_many (λ s. s.id == sender_id)
          (λ s. record s {
            hourly_limit = input.hourly_limit;
            minimum_delay_ms = input.minimum_delay_ms;
          })
          db.senders;
  }

module _ (T : Tables) (P : Printing) where
  -- The inserts of the transaction.
  unfoldable pub insert_batch : CreateBatchInput → Identifiers → Db T → Option (Batch × Db T)
  unfolding email_rows chunks
  insert_batch input new db = elim (T.batches.create (new_batch input new) db.batches) [
    | none ↦ none
    | some batches ↦
        elim (create_chunks T
          (chunks (email_rows P input new 0 input.parsed_leads.leads) insertion_chunk_size)
          db.emails) [
            | none ↦ none
            | some emails ↦
                some (new_batch input new, record db { batches = batches; emails = emails })
          ]
  ]

  -- The transaction; one that throws leaves the database as it was. The database may find that it
  -- conflicts with another one.
  unfoldable pub creation_transaction :
      CreateBatchInput
      → Identifiers
      → (conflicts : Bool) → Db T
      → Result CreationError (Batch × Db T)
  creation_transaction input new true db = err write_conflict
  creation_transaction input new false db =
      elim (find (is_wanted input) (T.senders.rows db.senders)) [
        | none ↦ err (http (record { status = 404; code = codes "SENDER_NOT_FOUND" }))
        | some sender ↦ elim (insert_batch input new (with_limits T input sender.id db)) [
          | none ↦ err unique_violation
          | some created ↦ ok created
        ]
      ]

  -- The handler of the exceptions of the transaction.
  unfoldable pub replay_or_throw :
      CreateBatchInput → CreationError → Db T → Result CreationError CreatedBatchResult
  replay_or_throw input (http e) db = err (http e)
  replay_or_throw input write_conflict db = err write_conflict
  replay_or_throw input unique_violation db =
      elim (find_existing_batch T input.user_id input.idempotency_key db) [
        | none ↦ err unique_violation
        | some raced ↦ ok (record { batch = raced; replayed = true })
      ]

  -- `createEmailBatch`. Other requests do `before` to the database ahead of the transaction, and
  -- `after` behind it; `conflicts` says whether the transaction is refused because of them.
  unfoldable pub create_email_batch :
      CreateBatchInput
      → Identifiers
      → (before after : Db T → Db T) (conflicts : Bool) → Db T
      → Result CreationError CreatedBatchResult × Db T
  create_email_batch input new before after conflicts db =
      elim (find_existing_batch T input.user_id input.idempotency_key db) [
        | some existing ↦ (ok (record { batch = existing; replayed = true }), db)
        | none ↦
            if length input.parsed_leads.leads == 0
            then (err (http (record { status = 422; code = codes "NO_VALID_RECIPIENTS" })), db)
            else elim (creation_transaction input new conflicts (before db)) [
              | ok (batch, db') ↦ (ok (record { batch = batch; replayed = false }), db')
              | err e ↦ (replay_or_throw input e (after (before db)), after (before db))
            ]
      ]
