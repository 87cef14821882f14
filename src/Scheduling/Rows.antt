-- ===== src/Scheduling/Rows.antt =====
-- What `createEmailBatch` inserts, said without its own functions.
use abhishek_bhat2005_reachi.Base.{
  ℕ, zero, suc, ◌+◌, ◌*◌, ◌≡◌, ◌<◌, refl, ap, sym, ◌∙◌, Bool, true, false, Option, none, some, List,
  [], ◌∷◌, ◌++◌, any, length, ok, arith, codes, ◌==◌, ◌&&◌,
}
use abhishek_bhat2005_reachi.Schema.{Tables, Db, Email, Batch, EmailStatus, BatchStatus}
use abhishek_bhat2005_reachi.Leads.{ParsedLead}
use abhishek_bhat2005_reachi.Scheduling.{
  CreateBatchInput, Identifiers, Printing, has_key, email_row, email_rows, create_email_batch,
  create_bull_job_id,
}
use abhishek_bhat2005_reachi.Scheduling.Creation.{rows_of}
use abhishek_bhat2005_reachi.Scheduling.Replay.{create_email_batch-Inserted}

abbrev pub get_elem? {ℓ} : {A : Type ℓ} → List A → ℕ → Option A
get_elem? [] n = none
get_elem? (x ∷ xs) zero = some x
get_elem? (x ∷ xs) (suc n) = get_elem? xs n

-- The row of the lead at position `i`, not tried yet.
pub record IsRowOf (P : Printing) (input : CreateBatchInput) (b : Batch) (i : ℕ) (lead : ParsedLead)
    (e : Email) : Type 0 where
  pub batch : e.batch_id ≡ b.id
  pub sender : e.sender_id ≡ input.sender_id
  pub recipient : e.recipient_email ≡ lead.email
  pub normalized : e.normalized_recipient_email ≡ lead.normalized_email
  pub sequence : e.sequence_number ≡ i
  pub scheduled : e.scheduled_at ≡ input.start_at + i * input.minimum_delay_ms
  pub next : e.next_attempt_at ≡ input.start_at + i * input.minimum_delay_ms
  pub status : e.status ≡ EmailStatus.scheduled
  pub job : e.bull_job_id ≡ codes "email_" ++ P.uuid_text e.id
  pub attempts : e.attempt_count ≡ 0
  pub token : e.processing_token ≡ none

-- The batch of a request.
pub record IsBatchOf (input : CreateBatchInput) (b : Batch) : Type 0 where
  pub user : b.user_id ≡ input.user_id
  pub sender : b.sender_id ≡ input.sender_id
  pub key : b.idempotency_key ≡ input.idempotency_key
  pub subject : b.subject ≡ input.subject
  pub body : b.body_text ≡ input.body_text
  pub recipients : b.valid_recipient_count ≡ length input.parsed_leads.leads
  pub status : b.status ≡ BatchStatus.scheduled

row_at :
    (P : Printing) (input : CreateBatchInput) (new : Identifiers) (sequence : ℕ)
    (leads : List ParsedLead) (i : ℕ) (lead : ParsedLead)
    → get_elem? leads i ≡ some lead
    → get_elem? (email_rows P input new sequence leads) i
      ≡ some (email_row P input new (sequence + i) lead)
unfolding email_rows
row_at P input new sequence [] i lead h = absurd (cc)
row_at P input new sequence (x ∷ xs) zero lead h =
    let same : x ≡ lead = cc in
    let here : sequence ≡ sequence + 0 = omega arith in rw (same, ← here) refl
row_at P input new sequence (x ∷ xs) (suc i) lead h =
    let there : sequence + 1 + i ≡ sequence + suc i = omega arith in
    rw (← there) (row_at P input new (sequence + 1) xs i lead h)

first_row_at :
    (P : Printing) (input : CreateBatchInput) (new : Identifiers) (leads : List ParsedLead) (i : ℕ)
    (lead : ParsedLead)
    → get_elem? leads i ≡ some lead
    → get_elem? (email_rows P input new 0 leads) i ≡ some (email_row P input new i lead)
first_row_at P input new leads i lead h =
    let same : i ≡ 0 + i = omega arith in
    row_at P input new 0 leads i lead h ∙ ap (λ j. some (email_row P input new j lead)) (sym same)

pub length-email_rows :
    (P : Printing) (input : CreateBatchInput) (new : Identifiers) (sequence : ℕ)
    (leads : List ParsedLead)
    → length (email_rows P input new sequence leads) ≡ length leads
unfolding email_rows
length-email_rows P input new sequence [] = refl
length-email_rows P input new sequence (lead ∷ leads) =
    ap suc (length-email_rows P input new (sequence + 1) leads)

-- A request that creates a batch names an active sender of its user, has at least one lead, and has a
-- key that its user had not used. It adds one batch, with the request's sender, key, subject, body and
-- number of leads, and as many rows as it has leads, behind those that are there: the row at
-- each position is addressed to the lead at that position, belongs to the batch and the sender, is
-- due as many times the delay after the start as leads come before it, and waits for its first
-- attempt.
pub create_email_batch_creates :
    (T : Tables) (P : Printing) (input : CreateBatchInput) (new : Identifiers)
    (before after : Db T → Db T) (conflicts : Bool) (db db' : Db T) (b : Batch)
    → create_email_batch T P input new before after conflicts db
      ≡ (ok (record { batch = b; replayed = false }), db')
    → (any
          (λ s. s.id == input.sender_id && s.user_id == input.user_id && s.is_active)
          (T.senders.rows (before db).senders)
        ≡ true)
      × (0 < length input.parsed_leads.leads)
      × (any (has_key input.user_id input.idempotency_key) (T.batches.rows (before db).batches)
          ≡ false)
      × IsBatchOf input b
      × (T.batches.rows db'.batches ≡ T.batches.rows (before db).batches ++ b ∷ [])
      × (es : List Email) × (T.emails.rows db'.emails ≡ T.emails.rows (before db).emails ++ es)
      × (length es ≡ length input.parsed_leads.leads)
      × ((i : ℕ) (lead : ParsedLead)
          → get_elem? input.parsed_leads.leads i ≡ some lead
          → (e : Email) × (get_elem? es i ≡ some e) × IsRowOf P input b i lead e)
unfolding create_bull_job_id
create_email_batch_creates T P input new before after conflicts db db' b h =
    let (inserted, there, some_lead) =
      create_email_batch-Inserted T P input new before after conflicts db db' b h in
    let leads = input.parsed_leads.leads in
    (
      there,
      some_lead,
      inserted.fresh,
      rw inserted.batch (record {
        user = refl;
        sender = refl;
        key = refl;
        subject = refl;
        body = refl;
        recipients = refl;
        status = refl;
      }),
      inserted.batches,
      rows_of T P input new,
      inserted.emails,
      length-email_rows P input new 0 leads,
      λ i lead at. (
        email_row P input new i lead,
        first_row_at P input new leads i lead at,
        rw inserted.batch (record {
          batch = refl;
          sender = refl;
          recipient = refl;
          normalized = refl;
          sequence = refl;
          scheduled = refl;
          next = refl;
          status = refl;
          job = refl;
          attempts = refl;
          token = refl;
        }),
      ),
    )
