-- ===== src/Worker/Statements.antt =====
-- apps/backend/src/worker/email-processor.ts, lines 66 to 248: the transactions of the worker. A
-- transaction that throws is rolled back; it is `none`. `randomUUID()` is an argument, `token`.
use abhishek_bhat2005_reachi.Base.{
  ℕ, ◌+◌, Bool, true, false, not, ◌&&◌, ◌||◌, Option, none, some, List, [], ◌∷◌, map, Text, ◌==◌,
  some_is, is_none, if◌then◌else◌, count, keep, any,
}
use abhishek_bhat2005_reachi.Schema.{
  Tables, Db, Email, Attempt, EmailStatus, AttemptOutcome, BatchStatus,
}
use abhishek_bhat2005_reachi.Worker.Delivery.{Classification, Thrown, safe_error}

-- `status: { in: ["SCHEDULED", "RATE_LIMITED", "RETRYABLE"] }`.
abbrev pub is_queueable : EmailStatus → Bool
is_queueable EmailStatus.scheduled = true
is_queueable EmailStatus.rate_limited = true
is_queueable EmailStatus.retryable = true
is_queueable _ = false

abbrev pub is_processing : EmailStatus → Bool
is_processing EmailStatus.processing = true
is_processing _ = false

-- `terminalStatuses`.
abbrev pub is_terminal : EmailStatus → Bool
is_terminal EmailStatus.sent = true
is_terminal EmailStatus.failed = true
is_terminal EmailStatus.delivery_unknown = true
is_terminal EmailStatus.cancelled = true
is_terminal _ = false

-- `status: { in: ["FAILED", "DELIVERY_UNKNOWN", "CANCELLED"] }`.
abbrev pub is_unsuccessful : EmailStatus → Bool
is_unsuccessful EmailStatus.failed = true
is_unsuccessful EmailStatus.delivery_unknown = true
is_unsuccessful EmailStatus.cancelled = true
is_unsuccessful _ = false

-- `status: { in: ["SCHEDULED", "RATE_LIMITED", "PROCESSING", "RETRYABLE"] }`.
abbrev pub is_remaining : EmailStatus → Bool
is_remaining s = is_queueable s || is_processing s

pub record Claim : Type 0 where
  pub id : ℕ
  pub batch_id : ℕ
  pub attempt_count : ℕ
  pub token : ℕ

pub record DeliveryReceipt : Type 0 where
  pub message_id : Text
  pub preview_url : Option Text
  pub accepted_count : ℕ
  pub rejected_count : ℕ

pub data FailureResult : Type 0 where
  failed retryable unknown : FailureResult

abbrev pub head? {ℓ} : {A : Type ℓ} → List A → Option A
head? [] = none
head? (x ∷ xs) = some x

-- What the updates write into a row.
abbrev pub mark_rate_limited : ℕ → Email → Email
mark_rate_limited next e = record e {
  status = EmailStatus.rate_limited;
  next_attempt_at = next;
  rate_limited_until = some next;
  attempt_count = e.attempt_count + 1;
}

abbrev pub mark_processing : ℕ → ℕ → Email → Email
mark_processing token now e = record e {
  status = EmailStatus.processing;
  processing_token = some token;
  processing_started_at = some now;
  rate_limited_until = none;
  attempt_count = e.attempt_count + 1;
}

abbrev pub mark_sent : DeliveryReceipt → ℕ → Email → Email
mark_sent receipt now e = record e {
  status = EmailStatus.sent;
  sent_at = some now;
  next_attempt_at = now;
  processing_token = none;
  processing_started_at = none;
  smtp_message_id = some receipt.message_id;
  ethereal_preview_url = receipt.preview_url;
  last_error_code = none;
  last_error_message = none;
}

-- The `where` of `claimEmail`.
abbrev pub claims_row : ℕ → Email → Bool
claims_row id e = e.id == id && is_none e.processing_token && is_queueable e.status

-- `where: { id, status: "PROCESSING", processingToken }`.
abbrev pub is_claimed_by : Claim → Email → Bool
is_claimed_by c e = e.id == c.id && is_processing e.status && some_is e.processing_token c.token

module _ (T : Tables) where
  unfoldable pub update_batch_completion : ℕ → Db T → Db T
  update_batch_completion batch_id db =
      let rows = T.emails.rows db.emails in
      let remaining = count (λ e. e.batch_id == batch_id && is_remaining e.status) rows in
      let unsuccessful = count (λ e. e.batch_id == batch_id && is_unsuccessful e.status) rows in
      if not (remaining == 0) then db else record db {
        batches =
            T.batches.update_many (λ b. b.id == batch_id)
              (λ b. record b {
                status =
                    if unsuccessful == 0
                    then BatchStatus.completed
                    else BatchStatus.partially_failed;
              })
              db.batches;
      }

  -- `transaction.sendAttempt.create`, as the last statement of a transaction over `db`.
  abbrev pub with_attempt {ℓ} : {A : Type ℓ} → A → Attempt → Db T → Option (A × Db T)
  with_attempt a attempt db = elim (T.attempts.create attempt db.attempts) [
    | none ↦ none
    | some attempts ↦ some (a, record db { attempts = attempts })
  ]

  abbrev rate_limit_attempt : ℕ → ℕ → Email → Attempt
  rate_limit_attempt token now e = record {
    email_id = e.id;
    attempt_number = e.attempt_count;
    attempt_token = token;
    started_at = now;
    finished_at = some now;
    outcome = AttemptOutcome.rate_limited;
    response_metadata = none;
    error_code = none;
    error_message = none;
  }

  unfoldable pub record_rate_limit : ℕ → ℕ → ℕ → ℕ → Db T → Option (Unit {0} × Db T)
  record_rate_limit email_id next_available_at now token db =
      let selected = λ (e : Email). e.id == email_id && is_queueable e.status in
      let write = mark_rate_limited next_available_at in
      let db' = record db { emails = T.emails.update_many selected write db.emails } in
      elim (head? (map write (keep selected (T.emails.rows db.emails)))) [
        | none ↦ some (tt, db')
        | some e ↦ with_attempt tt (rate_limit_attempt token now e) db'
      ]

  abbrev pub claim_attempt : ℕ → ℕ → Email → Attempt
  claim_attempt token now e = record {
    email_id = e.id;
    attempt_number = e.attempt_count;
    attempt_token = token;
    started_at = now;
    finished_at = none;
    outcome = AttemptOutcome.claimed;
    response_metadata = none;
    error_code = none;
    error_message = none;
  }

  unfoldable pub claim_email : ℕ → ℕ → ℕ → Db T → Option (Option Claim × Db T)
  claim_email email_id now token db =
      let selected = claims_row email_id in
      let write = mark_processing token now in
      let db' = record db { emails = T.emails.update_many selected write db.emails } in
      elim (head? (map write (keep selected (T.emails.rows db.emails)))) [
        | none ↦ some (none, db')
        | some e ↦
            with_attempt
              (some (record {
                id = e.id;
                batch_id = e.batch_id;
                attempt_count = e.attempt_count;
                token = token;
              }))
              (claim_attempt token now e) db'
      ]

  -- `sendAttempt.update({ where: { attemptToken } })`, which throws if there is no such attempt.
  abbrev update_attempt : ℕ → (Attempt → Attempt) → Db T → Option (Db T)
  update_attempt token write db =
      if any (λ a. a.attempt_token == token) (T.attempts.rows db.attempts)
      then some (record db {
        attempts = T.attempts.update_many (λ a. a.attempt_token == token) write db.attempts;
      })
      else none

  -- The transaction of `recordAccepted`, which throws unless it finds exactly the claimed row.
  unfoldable pub accept_transaction : Claim → DeliveryReceipt → ℕ → Db T → Option (Db T)
  accept_transaction claim receipt now db =
      if count (is_claimed_by claim) (T.emails.rows db.emails) == 1
      then update_attempt claim.token
          (λ a. record a {
            finished_at = some now;
            outcome = AttemptOutcome.smtp_accepted;
            response_metadata = some (receipt.accepted_count, receipt.rejected_count);
          })
          (record db {
            emails = T.emails.update_many (is_claimed_by claim) (mark_sent receipt now) db.emails;
          })
      else none

  unfoldable pub record_accepted : Claim → DeliveryReceipt → ℕ → Db T → Option (Db T)
  record_accepted claim receipt now db = elim (accept_transaction claim receipt now db) [
    | none ↦ none
    | some db' ↦ some (update_batch_completion claim.batch_id db')
  ]

abbrev pub failure_result : Classification → Bool → FailureResult
failure_result Classification.transient false = FailureResult.retryable
failure_result Classification.transient true = FailureResult.failed
failure_result Classification.permanent final = FailureResult.failed
failure_result Classification.unknown final = FailureResult.unknown

abbrev pub status_of : FailureResult → EmailStatus
status_of FailureResult.retryable = EmailStatus.retryable
status_of FailureResult.unknown = EmailStatus.delivery_unknown
status_of FailureResult.failed = EmailStatus.failed

abbrev pub outcome_of : FailureResult → AttemptOutcome
outcome_of FailureResult.retryable = AttemptOutcome.transient_failure
outcome_of FailureResult.unknown = AttemptOutcome.delivery_unknown
outcome_of FailureResult.failed = AttemptOutcome.definite_failure

abbrev pub is_retryable : FailureResult → Bool
is_retryable FailureResult.retryable = true
is_retryable _ = false

abbrev pub mark_failed : FailureResult → ℕ → Text → Text → ℕ → Email → Email
mark_failed result backoff code message now e = record e {
  status = status_of result;
  next_attempt_at = if is_retryable result then now + backoff else now;
  processing_token = none;
  processing_started_at = none;
  last_error_code = some code;
  last_error_message = some message;
}

module _ (T : Tables) where
  -- The transaction of `recordFailure`.
  unfoldable pub failure_transaction :
      Claim → FailureResult → ℕ → Text → Text → ℕ → Db T → Option (Db T)
  failure_transaction claim result backoff code message now db =
      update_attempt T claim.token
        (λ a. record a {
          finished_at = some now;
          outcome = outcome_of result;
          error_code = some code;
          error_message = some message;
        })
        (record db {
          emails =
              T.emails.update_many (is_claimed_by claim)
                (mark_failed result backoff code message now) db.emails;
        })

  unfoldable pub record_failure :
      Claim → Classification → Bool → ℕ → Thrown → ℕ → Db T → Option (FailureResult × Db T)
  record_failure claim classification final_retry backoff error now db =
      let sanitized = safe_error classification error in
      let result = failure_result classification final_retry in
      elim (failure_transaction claim result backoff sanitized.code sanitized.message now db) [
        | none ↦ none
        | some db' ↦ some (
          result,
          if is_retryable result then db' else update_batch_completion T claim.batch_id db',
        )
      ]
