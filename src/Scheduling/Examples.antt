-- ===== src/Scheduling/Examples.antt =====
-- A request, its repetition and a race, over a database of lists.
use abhishek_bhat2005_reachi.Base.{
  ℕ, List, any, length, some, err, ◌==◌, ◌&&◌, ◌+◌, ◌++◌, ◌≡◌, ◌<◌, refl, true, false, [], ◌∷◌, ok,
  codes, Text, text_eq, arith,
}
use abhishek_bhat2005_reachi.Schema.{
  Email, BatchStatus, Db, list_tables, batch_conflict, email_conflict,
}
use abhishek_bhat2005_reachi.Samples.{db_of}
use abhishek_bhat2005_reachi.Leads.{LeadParseResult, ParsedLead}
use abhishek_bhat2005_reachi.Scheduling.{
  with_limits, CreateBatchInput, Identifiers, Printing, new_batch, has_key, create_email_batch,
  insert_batch, creation_transaction, create_many, create_chunks, create_bull_job_id,
  create_recipient_idempotency_key,
}
use abhishek_bhat2005_reachi.Worker.Statements.{update_batch_completion}
use abhishek_bhat2005_reachi.Scheduling.Rows.{
  IsRowOf, IsBatchOf, get_elem?, create_email_batch_creates,
}
use abhishek_bhat2005_reachi.Scheduling.Later.{Write, Later, create_email_batch_again}
use abhishek_bhat2005_reachi.Scheduling.Replay.{create_email_batch_race}

abbrev lead : Text → ParsedLead
lead s = record { email = s; normalized_email = s }

abbrev leads : LeadParseResult
leads = record {
  leads = lead (codes "a@b") ∷ lead (codes "c@d") ∷ [];
  total_rows = 2;
  invalid_count = 0;
  duplicate_count = 0;
  invalid_rows = [];
}

abbrev input : CreateBatchInput
input = record {
  user_id = 1;
  sender_id = 7;
  idempotency_key = codes "key-0001";
  subject = codes "Hello";
  body_text = codes "Hello";
  start_at = 1000;
  hourly_limit = 10;
  minimum_delay_ms = 500;
  source_filename = codes "leads.csv";
  parsed_leads = leads;
}

abbrev ids : Identifiers
ids = record { batch_id = 20; email_id = λ n. 30 + n }

abbrev printing : Printing
printing = record { uuid_text = λ id. id ∷ []; sha256_hex = λ s. s }

abbrev db : Db list_tables
db = db_of []

abbrev unchanged : Db list_tables → Db list_tables
unchanged d = d

abbrev created : Db list_tables
created = (create_email_batch list_tables printing input ids unchanged unchanged false db).1

creates :
    create_email_batch list_tables printing input ids unchanged unchanged false db
    ≡ (ok (record { batch = new_batch input ids; replayed = false }), created)
unfolding create_email_batch text_eq creation_transaction insert_batch with_limits batch_conflict
    create_chunks create_many email_conflict create_bull_job_id create_recipient_idempotency_key
creates = refl

create_email_batch_creates_example :
    (any (λ s. s.id == 7 && s.user_id == 1 && s.is_active) db.senders ≡ true)
    × (0 < 2)
    × (any (has_key 1 (codes "key-0001")) db.batches ≡ false)
    × IsBatchOf input (new_batch input ids)
    × (created.batches ≡ db.batches ++ new_batch input ids ∷ [])
    × (es : List Email) × (created.emails ≡ es)
    × (length es ≡ 2)
    × ((i : ℕ) (l : ParsedLead)
        → get_elem? leads.leads i ≡ some l
        → (e : Email) × (get_elem? es i ≡ some e)
          × IsRowOf printing input (new_batch input ids) i l e)
create_email_batch_creates_example =
    create_email_batch_creates list_tables printing input ids unchanged unchanged false db created
      (new_batch input ids) creates

-- Another request of the user, with another key, and the completion of the first batch.
abbrev other : CreateBatchInput
other = record input { idempotency_key = codes "key-0002" }

abbrev other_ids : Identifiers
other_ids = record { batch_id = 21; email_id = λ n. 40 + n }

abbrev both : Db list_tables
both = elim (creation_transaction list_tables printing other other_ids false created) [
  | ok made ↦ made.1
  | err e ↦ created
]

second :
    creation_transaction list_tables printing other other_ids false created
    ≡ ok (new_batch other other_ids, both)
unfolding create_email_batch text_eq creation_transaction insert_batch with_limits batch_conflict
    create_chunks create_many email_conflict create_bull_job_id create_recipient_idempotency_key
second = refl

abbrev completed : Db list_tables
completed = update_batch_completion list_tables 20 both

since : Later list_tables printing created completed
since =
    Later.next
      (Later.next Later.here
        (Write.created other other_ids created both (new_batch other other_ids) second))
      (Write.completed 20 both)

-- The first key for another subject, and while the database refuses transactions.
create_email_batch_again_example :
    (s : BatchStatus) × (create_email_batch list_tables printing
        (record input { subject = codes "Other" })
        ids
        unchanged
        unchanged
        true
        completed
      ≡ (
        ok (record { batch = record (new_batch input ids) { status = s }; replayed = true }),
        completed,
      ))
create_email_batch_again_example =
    create_email_batch_again list_tables printing input ids unchanged unchanged false db created
      completed (new_batch input ids) (record input { subject = codes "Other" }) ids unchanged
      unchanged true creates since refl refl

-- Another request creates the batch before the transaction.
abbrev raced : Db list_tables → Db list_tables
raced d = record d { batches = d.batches ++ new_batch input ids ∷ [] }

create_email_batch_race_example :
    create_email_batch list_tables printing input
      (record ids { batch_id = 21 })
      raced
      unchanged
      false
      db
    ≡ (ok (record { batch = new_batch input ids; replayed = true }), raced db)
unfolding text_eq
create_email_batch_race_example =
    create_email_batch_race list_tables printing input (record ids { batch_id = 21 }) raced
      unchanged false db (new_batch input ids) refl (omega arith) refl refl refl
