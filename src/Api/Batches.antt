-- ===== src/Api/Batches.antt =====
-- What a request for a batch leaves behind.
use abhishek_bhat2005_reachi.Base.{
  ℕ, ◌+◌, ◌-◌, ◌*◌, ◌≤◌, ◌<◌, ◌≡◌, refl, true, false, ◌||◌, Option, some, List, [], ◌∷◌, ◌++◌, Text,
  ltb, All, length, Result, ok, err, arith, Bool-cases, Option-cases, Result-cases, inl, inr,
}
use native.Mathlib.Nat.{mul-le-mul_right}
use abhishek_bhat2005_reachi.Schema.{Tables, Db, Email, Batch}
use abhishek_bhat2005_reachi.Leads.{LeadParseResult, ParsedLead}
use abhishek_bhat2005_reachi.Scheduling.{
  CreateBatchInput, CreatedBatchResult, CreationError, Identifiers, Printing, find_existing_batch,
  create_email_batch, email_rows,
}
use abhishek_bhat2005_reachi.Scheduling.Creation.{rows_of}
use abhishek_bhat2005_reachi.Scheduling.Rows.{length-email_rows}
use abhishek_bhat2005_reachi.Scheduling.Replay.{create_email_batch-Inserted}
use abhishek_bhat2005_reachi.Api.{
  EmailApiConfig, ScheduleInput, UploadedFile, BatchRequest, BatchResponse, Ending, Surroundings,
  create_input, day_milliseconds, enqueue_and_respond, finish_creation, schedule_leads,
  schedule_new, post_email_batches, schedule_schema, parse_file_or_throw, idempotency_key_schema,
}

-- The times of the rows from a sequence number on.
email_rows-times :
    (P : Printing) (input : CreateBatchInput) (new : Identifiers) (sequence bound : ℕ)
    (leads : List ParsedLead)
    → sequence + length leads ≤ bound + 1
    → All
        (λ e.
          (input.start_at ≤ e.scheduled_at)
          × (e.scheduled_at ≤ input.start_at + bound * input.minimum_delay_ms))
        (email_rows P input new sequence leads)
unfolding email_rows
email_rows-times P input new sequence bound [] h = tt
email_rows-times P input new sequence bound (lead ∷ leads) h = (
  (
    omega arith,
    omega (arith, mul-le-mul_right {m = sequence} {n = bound} input.minimum_delay_ms (omega arith)),
  ),
  email_rows-times P input new (sequence + 1) bound leads (omega arith),
)

All-weaken :
    {A : Type 0} (P Q : A → Type 0) (xs : List A) → ((x : A) → P x → Q x) → All P xs → All Q xs
All-weaken P Q [] f h = tt
All-weaken P Q (x ∷ xs) f h = (f x h.0, All-weaken P Q xs f h.1)

module _ (T : Tables) (config : EmailApiConfig) (S : Surroundings T) where
  abbrev pub horizon : ℕ
  horizon = S.now + config.max_schedule_horizon_days * day_milliseconds

  -- A batch was created, in time.
  record IsCreation (db : Db T) (ending : Ending T) (r : BatchResponse) : Type 0 where
    input : CreateBatchInput
    created :
        create_email_batch T S.printing input S.new S.before S.after S.conflicts (S.meanwhile db)
        ≡ (ok (record { batch = r.batch; replayed = false }), ending.db)
    queued : ending.queued ≡ some r.batch.id
    first : S.now ≤ input.start_at
    last : input.start_at + (length input.parsed_leads.leads - 1) * input.minimum_delay_ms ≤ horizon

  finish_creation-made :
      (leads : LeadParseResult) (made : Result CreationError CreatedBatchResult × Db T)
      (r : BatchResponse)
      → (finish_creation T config S leads made).answer ≡ ok r
      → r.replayed ≡ false
      → (made ≡ (
        ok (record { batch = r.batch; replayed = false }),
        (finish_creation T config S leads made).db,
      ))
        × ((finish_creation T config S leads made).queued ≡ some r.batch.id)
  unfolding enqueue_and_respond
  finish_creation-made leads (err e, db) r h new = absurd (ground arith)
  finish_creation-made leads (ok created, db) r h new =
      elim (Bool-cases (S.enqueue_batch created.batch.id)) [
        | inr down ↦ absurd (ground (arith, down))
        | inl up ↦
            let same : (created.batch ≡ r.batch) × (created.replayed ≡ r.replayed) =
              ground (arith, up) in
            (rw (← same.0, ← new, ← same.1) refl, rw same.0 refl)
      ]

  schedule_leads-IsCreation :
      (user : ℕ) (key : Text) (file : Option UploadedFile) (input : ScheduleInput)
      (leads : LeadParseResult) (db : Db T) (r : BatchResponse)
      → S.now ≤ input.start_at
      → (schedule_leads T config S user key file input leads db).answer ≡ ok r
      → r.replayed ≡ false
      → IsCreation db (schedule_leads T config S user key file input leads db) r
  unfolding schedule_leads
  schedule_leads-IsCreation user key file input leads db r time h new =
      elim (Bool-cases
        (ltb horizon (input.start_at + (length leads.leads - 1) * input.minimum_delay_ms))) [
          | inl late ↦ absurd (ground (arith, late))
          | inr within ↦
              let made =
                create_email_batch T S.printing (create_input S.basename user key file input leads)
                  S.new S.before S.after S.conflicts (S.meanwhile db) in
              let answered : (finish_creation T config S leads made).answer ≡ ok r =
                rw within at h in
              let (created, queued) = finish_creation-made leads made r answered new in
              rw (within, schedule_leads)
                (record {
                  input = create_input S.basename user key file input leads;
                  created = created;
                  queued = queued;
                  first = time;
                  last = ground arith;
                })
        ]

  schedule_new-IsCreation :
      (user : ℕ) (key : Text) (request : BatchRequest) (db : Db T) (r : BatchResponse)
      → (schedule_new T config S user key request db).answer ≡ ok r
      → r.replayed ≡ false
      → IsCreation db (schedule_new T config S user key request db) r
  unfolding schedule_new
  schedule_new-IsCreation user key request db r h new =
      elim (Option-cases (schedule_schema config request.body)) [
        | inl bad ↦ absurd (ground (arith, bad))
        | inr (input, valid) ↦
            elim (Bool-cases (ltb input.start_at S.now || ltb horizon input.start_at)) [
              | inl outside ↦ absurd (ground (arith, valid, outside))
              | inr inside ↦
                  elim (Result-cases (parse_file_or_throw S.platform config request.file)) [
                    | inr (e, thrown) ↦ absurd (ground (arith, valid, inside, thrown))
                    | inl (leads, parsed) ↦
                        let answered : (schedule_leads T config S user key request.file input leads
                              db).answer
                            ≡ ok r =
                          rw (valid, inside, parsed, schedule_new) at h in
                        rw (valid, schedule_new)
                          (rw (inside, parsed)
                            (schedule_leads-IsCreation user key request.file input leads db r
                              (ground arith) answered new))
                  ]
            ]
      ]

  replays :
      (b : Batch) (db : Db T) (r : BatchResponse)
      → (enqueue_and_respond T config S b true [] db).answer ≡ ok r
      → r.replayed ≡ true
  unfolding enqueue_and_respond
  replays b db r h = elim (Bool-cases (S.enqueue_batch b.id)) [
    | inr down ↦ absurd (ground (arith, down))
    | inl up ↦ ground (arith, up)
  ]

  post-IsCreation :
      (request : BatchRequest) (db : Db T) (r : BatchResponse)
      → (post_email_batches T config S request db).answer ≡ ok r
      → r.replayed ≡ false
      → IsCreation db (post_email_batches T config S request db) r
  unfolding post_email_batches
  post-IsCreation request db r h new = elim (Option-cases request.user) [
    | inl nobody ↦ absurd (ground (arith, nobody))
    | inr (user, known) ↦ elim (Option-cases (idempotency_key_schema request.idempotency_key)) [
      | inl bad ↦ absurd (ground (arith, known, bad))
      | inr (key, valid) ↦ elim (Option-cases (find_existing_batch T user key db)) [
        | inr (existing, found) ↦
            let answered : (enqueue_and_respond T config S existing true [] db).answer ≡ ok r =
              rw (known, valid, found, post_email_batches) at h in
            absurd (ground (arith, replays existing db r answered))
        | inl fresh ↦
            let answered : (schedule_new T config S user key request db).answer ≡ ok r =
              rw (known, valid, fresh, post_email_batches) at h in
            rw (known, post_email_batches)
              (rw (valid, fresh) (schedule_new-IsCreation user key request db r answered new))
      ]
    ]
  ]

-- A request that is answered with a new batch has put a row for each of its leads, at least one,
-- behind the rows that were there; every row is scheduled within the configured days from now, and
-- not before now; and the batch was handed to the queue.
pub post_email_batches-times :
    (T : Tables) (config : EmailApiConfig) (S : Surroundings T) (request : BatchRequest) (db : Db T)
    (r : BatchResponse)
    → (post_email_batches T config S request db).answer ≡ ok r
    → r.replayed ≡ false
    → (es : List Email) × (T.emails.rows (post_email_batches T config S request db).db.emails
        ≡ T.emails.rows (S.before (S.meanwhile db)).emails ++ es)
      × All (λ e. (S.now ≤ e.scheduled_at) × (e.scheduled_at ≤ horizon T config S)) es
      × (length es ≡ r.batch.valid_recipient_count)
      × (0 < length es)
      × ((post_email_batches T config S request db).queued ≡ some r.batch.id)
post_email_batches-times T config S request db r h new =
    let c = post-IsCreation T config S request db r h new in
    let (inserted, _, leads) =
      create_email_batch-Inserted T S.printing c.input S.new S.before S.after S.conflicts
        (S.meanwhile db) (post_email_batches T config S request db).db r.batch c.created in
    let bound = length c.input.parsed_leads.leads - 1 in
    (
      rows_of T S.printing c.input S.new,
      inserted.emails,
      All-weaken _ _ (rows_of T S.printing c.input S.new)
          (λ e h. (omega (arith, h.0, c.first), omega (arith, h.1, c.last)))
          (email_rows-times S.printing c.input S.new 0 bound c.input.parsed_leads.leads
            (omega arith)),
      rw inserted.batch (length-email_rows S.printing c.input S.new 0 c.input.parsed_leads.leads),
      rw (length-email_rows S.printing c.input S.new 0 c.input.parsed_leads.leads) leads,
      c.queued,
    )
