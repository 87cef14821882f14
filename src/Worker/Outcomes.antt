-- ===== src/Worker/Outcomes.antt =====
-- How a run of the processor ends, and what it leaves in the database.
use abhishek_bhat2005_reachi.Base.{
  ℕ, ◌+◌, ◌≡◌, ◌<◌, refl, ◌⊎◌, inl, inr, Bool, true, false, not, ◌&&◌, Option, none, List, [], ◌∷◌,
  arith, Result, ok, err, ◌==◌, any, if◌then◌else◌, Bool-cases, Option-cases, update_where, count,
  ◌∙◌, ap, Text, map,
}
use abhishek_bhat2005_reachi.Schema.{Tables, Db, Email, Batch, EmailStatus, BatchStatus}
use abhishek_bhat2005_reachi.Worker.Delivery.{
  Thrown, Classification, safe_error, classify_delivery_error,
}
use abhishek_bhat2005_reachi.Worker.Statements.{
  Claim, DeliveryReceipt, FailureResult, is_remaining, is_unsuccessful, is_claimed_by, is_retryable,
  mark_sent, mark_failed, failure_result, update_batch_completion, accept_transaction,
  record_accepted, failure_transaction, record_failure,
}
use abhishek_bhat2005_reachi.Worker.Effects.{
  emails_of, emails-accept_transaction, emails-failure_transaction, emails-update_batch_completion,
}
use abhishek_bhat2005_reachi.Worker.{Job, JobOutcome, fail, finish, is_final_retry}

abbrev pub is_sent : EmailStatus → Bool
is_sent EmailStatus.sent = true
is_sent _ = false

module _ (T : Tables) where
  abbrev pub batches_of : Db T → List Batch
  batches_of db = T.batches.rows db.batches

  -- The claim is still good: one row carries it, and its attempt is there.
  pub record IsHeld (c : Claim) (db : Db T) : Type 0 where
    pub row : count (is_claimed_by c) (emails_of T db) ≡ 1
    pub attempt : any (λ a. a.attempt_token == c.token) (T.attempts.rows db.attempts) ≡ true

  abbrev pub remaining_in : ℕ → Db T → ℕ
  remaining_in batch_id db =
      count (λ e. e.batch_id == batch_id && is_remaining e.status) (emails_of T db)

  abbrev pub unsent_in : ℕ → Db T → ℕ
  unsent_in batch_id db =
      count (λ e. e.batch_id == batch_id && not (is_sent e.status)) (emails_of T db)

  abbrev pub unsuccessful_in : ℕ → Db T → ℕ
  unsuccessful_in batch_id db =
      count (λ e. e.batch_id == batch_id && is_unsuccessful e.status) (emails_of T db)

  unsent-split :
      (batch_id : ℕ) (rows : List Email)
      → count (λ e. e.batch_id == batch_id && not (is_sent e.status)) rows
        ≡ count (λ e. e.batch_id == batch_id && is_remaining e.status) rows
          + count (λ e. e.batch_id == batch_id && is_unsuccessful e.status) rows
  unsent-split batch_id [] = omega arith
  unsent-split batch_id (x ∷ xs) = ground (arith, unsent-split batch_id xs)

  -- The batch's rows, with another status.
  abbrev pub with_status : ℕ → BatchStatus → List Batch → List Batch
  with_status batch_id status =
      update_where (λ b. b.id == batch_id) (λ b. record b { status = status })

  -- The three things that can become of a batch.
  abbrev pub Completes : ℕ → Db T → Db T → Type 0
  Completes batch_id db db' =
      ((0 < remaining_in batch_id db) × (batches_of db' ≡ batches_of db))
      ⊎ ((unsent_in batch_id db ≡ 0)
          × (batches_of db' ≡ with_status batch_id BatchStatus.completed (batches_of db)))
      ⊎ ((remaining_in batch_id db ≡ 0)
          × (0 < unsent_in batch_id db)
          × (batches_of db' ≡ with_status batch_id BatchStatus.partially_failed (batches_of db)))

  -- A batch stays as it is while one of its emails is still to be sent; it is completed when every
  -- one of them was sent, and partially failed when none is left and some were not sent.
  pub update_batch_completion-cases :
      (batch_id : ℕ) (db : Db T) → Completes batch_id db (update_batch_completion T batch_id db)
  unfolding update_batch_completion
  update_batch_completion-cases batch_id db = elim (Bool-cases (remaining_in batch_id db == 0)) [
    | inr more ↦ inl (ground arith, rw (more, update_batch_completion))
    | inl none_left ↦ elim (Bool-cases (unsuccessful_in batch_id db == 0)) [
      | inl good ↦ inr (
          inl (
            ground (arith, unsent-split batch_id (emails_of T db)),
            rw (none_left, update_batch_completion)
                (T.batches.rows-update_many _ _ db.batches ∙ rw good),
          ))
      | inr bad ↦ inr (
          inr (
            ground arith,
            ground (arith, unsent-split batch_id (emails_of T db)),
            rw (none_left, update_batch_completion)
                (T.batches.rows-update_many _ _ db.batches ∙ rw bad),
          ))
    ]
  ]

  module _ (backoff : ℕ) (job : Job) (c : Claim) (now : ℕ) (db : Db T) (h : IsHeld c db) where
    finish-accepted :
        (receipt : DeliveryReceipt)
        → ((finish T backoff job c (ok receipt) now db).0 ≡ JobOutcome.returned)
          × (emails_of T (finish T backoff job c (ok receipt) now db).1
              ≡ update_where (is_claimed_by c) (mark_sent receipt now) (emails_of T db))
    unfolding finish record_accepted
    finish-accepted receipt = elim (Option-cases (accept_transaction T c receipt now db)) [
      | inl thrown ↦ absurd (unfold accept_transaction in ground arith)
      | inr (db', done) ↦
          rw (done, finish, record_accepted)
            (
              refl,
              rw emails-update_batch_completion (
                  ap T.emails.rows (emails-accept_transaction T c receipt now db db' done)
                  ∙ T.emails.rows-update_many _ _ db.emails),
            )
    ]

    finish-failed :
        (error : Thrown)
        → let safe = safe_error (classify_delivery_error error) error in
          let result = failure_result (classify_delivery_error error) (is_final_retry job) in
          ((fail T backoff job c error now db).0 ≡ (
            if is_retryable result
            then JobOutcome.transient_failure
            else JobOutcome.unrecoverable result))
          × (emails_of T (fail T backoff job c error now db).1
              ≡ update_where
                  (is_claimed_by c)
                  (mark_failed result backoff safe.code safe.message now)
                  (emails_of T db))
    unfolding fail record_failure
    finish-failed error =
        let safe = safe_error (classify_delivery_error error) error in
        let result = failure_result (classify_delivery_error error) (is_final_retry job) in
        elim (Option-cases (failure_transaction T c result backoff safe.code safe.message now db)) [
          | inl thrown ↦ absurd (unfold failure_transaction in ground arith)
          | inr (db', done) ↦
              rw (done, fail, record_failure)
                (
                  refl,
                  ground (arith, emails-update_batch_completion T c.batch_id db')
                      ∙ (ap T.emails.rows (
                            emails-failure_transaction T c result backoff safe.code safe.message now
                              db db' done)
                          ∙ T.emails.rows-update_many _ _ db.emails),
                )
        ]

-- How the run of a claimed email ends, by what the mailer answered and by whether the job may be
-- tried again: what BullMQ is told, and the status that the email gets.
abbrev pub ending_of : Classification → Bool → JobOutcome × EmailStatus
ending_of Classification.permanent final =
    (JobOutcome.unrecoverable FailureResult.failed, EmailStatus.failed)
ending_of Classification.unknown final =
    (JobOutcome.unrecoverable FailureResult.unknown, EmailStatus.delivery_unknown)
ending_of Classification.transient true =
    (JobOutcome.unrecoverable FailureResult.failed, EmailStatus.failed)
ending_of Classification.transient false = (JobOutcome.transient_failure, EmailStatus.retryable)

abbrev pub ending : Result Thrown DeliveryReceipt → Bool → JobOutcome × EmailStatus
ending (ok receipt) final = (JobOutcome.returned, EmailStatus.sent)
ending (err error) final = ending_of (classify_delivery_error error) final

-- The statuses, tokens and times of the rows, in order.
abbrev pub Row : Type 0
Row = ℕ × EmailStatus × Option ℕ × ℕ

abbrev pub view : Email → Row
view e = (e.id, e.status, e.processing_token, e.next_attempt_at)

abbrev pub settled_row : Claim → EmailStatus → ℕ → Email → Row
settled_row c status next e = if is_claimed_by c e then (e.id, status, none, next) else view e

settled-views :
    (c : Claim) (write : Email → Email) (status : EmailStatus) (next : ℕ) (rows : List Email)
    → ((e : Email) → view (write e) ≡ (e.id, status, none, next))
    → map view (update_where (is_claimed_by c) write rows) ≡ map (settled_row c status next) rows
settled-views c write status next [] h = refl
settled-views c write status next (x ∷ xs) h = elim (Bool-cases (is_claimed_by c x)) [
  | inl mine ↦
      rw mine
        (rw (h x) (ap (◌∷◌ (x.id, status, none, next)) (settled-views c write status next xs h)))
  | inr other ↦ rw other (ap (◌∷◌ (view x)) (settled-views c write status next xs h))
]

-- The time of the next attempt: a retry waits for the backoff.
abbrev pub next_time : ℕ → ℕ → EmailStatus → ℕ
next_time now backoff EmailStatus.retryable = now + backoff
next_time now backoff _ = now

failed-outcome :
    (k : Classification) (final : Bool)
    → (if is_retryable (failure_result k final)
        then JobOutcome.transient_failure
        else JobOutcome.unrecoverable (failure_result k final))
      ≡ (ending_of k final).0
failed-outcome Classification.permanent final = refl
failed-outcome Classification.unknown final = refl
failed-outcome Classification.transient true = refl
failed-outcome Classification.transient false = refl

failed-views :
    (c : Claim) (k : Classification) (final : Bool) (backoff now : ℕ) (code message : Text)
    (rows : List Email)
    → map view (
        update_where
          (is_claimed_by c)
          (mark_failed (failure_result k final) backoff code message now)
          rows)
      ≡ map (settled_row c (ending_of k final).1 (next_time now backoff (ending_of k final).1)) rows
failed-views c Classification.permanent final b now code m rows =
    settled-views c (mark_failed FailureResult.failed b code m now) EmailStatus.failed now rows
      (λ e. refl)
failed-views c Classification.unknown final b now code m rows =
    settled-views c (mark_failed FailureResult.unknown b code m now) EmailStatus.delivery_unknown
      now rows (λ e. refl)
failed-views c Classification.transient true b now code m rows =
    settled-views c (mark_failed FailureResult.failed b code m now) EmailStatus.failed now rows
      (λ e. refl)
failed-views c Classification.transient false b now code m rows =
    settled-views c (mark_failed FailureResult.retryable b code m now) EmailStatus.retryable
      (now + b) rows (λ e. refl)

-- A claim that is still good is always settled: whatever the mailer answered, the run ends as `ending`
-- says, exactly the claimed row gets the status that it names, without a token and with the time of
-- the next attempt, and the status, token and time of every other row stay.
pub finish_settles :
    (T : Tables) (backoff : ℕ) (job : Job) (c : Claim) (now : ℕ) (db : Db T)
    (answer : Result Thrown DeliveryReceipt)
    → IsHeld T c db
    → let (outcome, status) = ending answer (is_final_retry job) in
      ((finish T backoff job c answer now db).0 ≡ outcome)
      × (map view (emails_of T (finish T backoff job c answer now db).1)
          ≡ map (settled_row c status (next_time now backoff status)) (emails_of T db))
unfolding finish
finish_settles T backoff job c now db (ok receipt) h =
    let (outcome, rows) = finish-accepted T backoff job c now db h receipt in
    (
      outcome,
      rw rows (
          settled-views c (mark_sent receipt now) EmailStatus.sent now (emails_of T db)
            (λ e. refl)),
    )
finish_settles T backoff job c now db (err error) h =
    let (outcome, rows) = finish-failed T backoff job c now db h error in
    let kind = classify_delivery_error error in
    let safe = safe_error kind error in
    (
      outcome ∙ failed-outcome kind (is_final_retry job),
      rw rows (
          failed-views c kind (is_final_retry job) backoff now safe.code safe.message
            (emails_of T db)),
    )
