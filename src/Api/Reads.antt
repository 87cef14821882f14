-- ===== src/Api/Reads.antt =====
-- apps/backend/src/email/router.ts: the answers of the routes that only read. Times stay numbers, and
-- statuses keep their constructors, where the code prints them.
use abhishek_bhat2005_reachi.Base.{
  ℕ, ◌+◌, ◌≡◌, refl, ◌∙◌, Bool, true, false, not, ◌&&◌, ◌||◌, Option, none, some, List, [], ◌∷◌,
  map, Text, codes, ◌==◌, ltb, find, count, keep, Result, ok, err, arith, Option-cases, inl, inr,
  find-any,
}
use abhishek_bhat2005_reachi.Base.Order.{sort_by}
use abhishek_bhat2005_reachi.Schema.{Tables, Db, Email, EmailStatus, Batch, Sender}
use abhishek_bhat2005_reachi.Scheduling.{CreationError}
use abhishek_bhat2005_reachi.Api.{EmailApiConfig, http_error}
use abhishek_bhat2005_reachi.Api.Lists.{CursorPlatform, ListQuery, Dashboard, Page, list_emails}

-- The sender of an item, which the foreign keys guarantee.
pub record SenderName : Type 0 where
  pub display_name : Text
  pub email : Text

pub record ScheduledItem : Type 0 where
  pub id : ℕ
  pub recipient_email : Text
  pub subject : Text
  pub scheduled_at : ℕ
  pub next_attempt_at : ℕ
  pub status : EmailStatus
  pub sender : SenderName

pub record SentItem : Type 0 where
  pub id : ℕ
  pub recipient_email : Text
  pub subject : Text
  pub sent_at : Option ℕ
  pub completed_at : ℕ
  pub status : EmailStatus
  pub ethereal_preview_url : Option Text
  pub error : Option Text
  pub sender : SenderName

module _ (T : Tables) (db : Db T) where
  abbrev pub subject_of : Email → Text
  subject_of e = elim (find (λ b. b.id == e.batch_id) (T.batches.rows db.batches)) [
    | none ↦ []
    | some b ↦ b.subject
  ]

  abbrev pub sender_name : ℕ → SenderName
  sender_name id = elim (find (λ s. s.id == id) (T.senders.rows db.senders)) [
    | none ↦ record { display_name = []; email = [] }
    | some s ↦ record { display_name = s.display_name; email = s.email }
  ]

  abbrev pub scheduled_item : Email → ScheduledItem
  scheduled_item e = record {
    id = e.id;
    recipient_email = e.recipient_email;
    subject = subject_of e;
    scheduled_at = e.scheduled_at;
    next_attempt_at = e.next_attempt_at;
    status = e.status;
    sender = sender_name e.sender_id;
  }

  abbrev pub sent_item : (Email → ℕ) → Email → SentItem
  sent_item updated_at e = record {
    id = e.id;
    recipient_email = e.recipient_email;
    subject = subject_of e;
    sent_at = e.sent_at;
    completed_at = updated_at e;
    status = e.status;
    ethereal_preview_url = e.ethereal_preview_url;
    error = e.last_error_message;
    sender = sender_name e.sender_id;
  }

abbrev pub map_page :
    {A B : Type 0} → (A → B) → Result CreationError (Page A) → Result CreationError (Page B)
map_page f (err e) = err e
map_page f (ok p) = ok (record { items = map f p.items; next_cursor = p.next_cursor })

module _ (T : Tables) (C : CursorPlatform) (updated_at : Email → ℕ) (user : ℕ)
    (config : EmailApiConfig) where
  -- `GET /emails/scheduled` and `GET /emails/sent`.
  pub get_scheduled : Option ListQuery → Db T → Result CreationError (Page ScheduledItem)
  get_scheduled query db =
      map_page (scheduled_item T db)
        (list_emails T C Dashboard.scheduled updated_at user config query db)

  pub get_sent : Option ListQuery → Db T → Result CreationError (Page SentItem)
  get_sent query db =
      map_page (sent_item T db updated_at)
        (list_emails T C Dashboard.sent updated_at user config query db)

-- `GET /config/compose`.
pub record ComposeConfig : Type 0 where
  pub default_hourly_limit : ℕ
  pub default_minimum_delay_ms : ℕ
  pub page_size : ℕ
  pub hourly_limit_min : ℕ
  pub hourly_limit_max : ℕ
  pub minimum_delay_ms_min : ℕ
  pub minimum_delay_ms_max : ℕ
  pub max_body_length : ℕ
  pub max_leads_per_batch : ℕ
  pub max_schedule_horizon_days : ℕ
  pub max_subject_length : ℕ
  pub max_upload_bytes : ℕ

abbrev pub get_compose_config : EmailApiConfig → ComposeConfig
get_compose_config config = record {
  default_hourly_limit = config.default_emails_per_hour;
  default_minimum_delay_ms = config.default_min_send_delay_ms;
  page_size = config.api_page_size;
  hourly_limit_min = 1;
  hourly_limit_max = config.max_emails_per_hour;
  minimum_delay_ms_min = config.min_send_delay_ms;
  minimum_delay_ms_max = config.max_send_delay_ms;
  max_body_length = config.max_body_length;
  max_leads_per_batch = config.max_leads_per_batch;
  max_schedule_horizon_days = config.max_schedule_horizon_days;
  max_subject_length = config.max_subject_length;
  max_upload_bytes = config.max_upload_bytes;
}

-- `orderBy: [{ isDefault: "desc" }, { createdAt: "asc" }]`.
abbrev pub lists_before : (created_at : Sender → ℕ) → Sender → Sender → Bool
lists_before created_at s t =
    (s.is_default && not t.is_default)
    || (not (s.is_default && not t.is_default)
        && not (t.is_default && not s.is_default)
        && ltb (created_at s) (created_at t))

-- `GET /senders`.
unfoldable pub get_senders : (T : Tables) → (created_at : Sender → ℕ) → ℕ → Db T → List Sender
get_senders T created_at user db =
    sort_by (lists_before created_at) (keep (λ s. s.user_id == user) (T.senders.rows db.senders))

-- The statuses, and `groupBy` with its counts: the statuses that occur.
abbrev pub status_number : EmailStatus → ℕ
status_number EmailStatus.scheduled = 0
status_number EmailStatus.rate_limited = 1
status_number EmailStatus.processing = 2
status_number EmailStatus.retryable = 3
status_number EmailStatus.sent = 4
status_number EmailStatus.failed = 5
status_number EmailStatus.delivery_unknown = 6
status_number EmailStatus.cancelled = 7

abbrev pub statuses : List EmailStatus
statuses =
    EmailStatus.scheduled ∷ EmailStatus.rate_limited ∷ EmailStatus.processing
    ∷ EmailStatus.retryable ∷ EmailStatus.sent ∷ EmailStatus.failed ∷ EmailStatus.delivery_unknown
    ∷ EmailStatus.cancelled ∷ []

abbrev pub in_status : ℕ → EmailStatus → Email → Bool
in_status batch_id s e = e.batch_id == batch_id && status_number e.status == status_number s

abbrev pub counted : ℕ → List Email → EmailStatus → EmailStatus × ℕ
counted batch_id rows s = (s, count (in_status batch_id s) rows)

unfoldable pub group_by_status : ℕ → List Email → List (EmailStatus × ℕ)
group_by_status batch_id rows = keep (λ p. ltb 0 p.1) (map (counted batch_id rows) statuses)

pub record BatchSummary : Type 0 where
  pub batch : Batch
  pub by_status : List (EmailStatus × ℕ)
  pub sender : SenderName

-- `GET /email-batches/:batchId`, for an id that is a UUID.
unfoldable pub get_batch :
    (T : Tables) → (user batch_id : ℕ) → Db T → Result CreationError BatchSummary
get_batch T user batch_id db =
    elim (find (λ b. b.id == batch_id && b.user_id == user) (T.batches.rows db.batches)) [
      | none ↦ http_error 404 (codes "BATCH_NOT_FOUND")
      | some b ↦ ok (record {
        batch = b;
        by_status = group_by_status b.id (T.emails.rows db.emails);
        sender = sender_name T db b.sender_id;
      })
    ]

abbrev pub total : List (EmailStatus × ℕ) → ℕ
total [] = 0
total ((s, n) ∷ xs) = n + total xs

total-kept : (xs : List (EmailStatus × ℕ)) → total (keep (λ p. ltb 0 p.1) xs) ≡ total xs
total-kept [] = refl
total-kept ((s, n) ∷ xs) = ground (arith, total-kept xs)

abbrev one : Bool → ℕ
one true = 1
one false = 0

count-cons :
    (p : Email → Bool) (x : Email) (xs : List Email) → count p (x ∷ xs) ≡ one (p x) + count p xs
count-cons p x xs = ground arith

-- A row has one status.
abbrev ones : Bool → EmailStatus → List EmailStatus → ℕ
ones mine s [] = 0
ones mine s (t ∷ ts) = one (mine && status_number s == status_number t) + ones mine s ts

ones-statuses : (mine : Bool) (s : EmailStatus) → ones mine s statuses ≡ one mine
ones-statuses false s = refl
ones-statuses true EmailStatus.scheduled = refl
ones-statuses true EmailStatus.rate_limited = refl
ones-statuses true EmailStatus.processing = refl
ones-statuses true EmailStatus.retryable = refl
ones-statuses true EmailStatus.sent = refl
ones-statuses true EmailStatus.failed = refl
ones-statuses true EmailStatus.delivery_unknown = refl
ones-statuses true EmailStatus.cancelled = refl

total-cons :
    (batch_id : ℕ) (x : Email) (xs : List Email) (ts : List EmailStatus)
    → total (map (counted batch_id (x ∷ xs)) ts)
      ≡ ones (x.batch_id == batch_id) x.status ts + total (map (counted batch_id xs) ts)
total-cons batch_id x xs [] = refl
total-cons batch_id x xs (t ∷ ts) =
    omega (arith, count-cons (in_status batch_id t) x xs, total-cons batch_id x xs ts)

total-statuses :
    (batch_id : ℕ) (rows : List Email)
    → total (map (counted batch_id rows) statuses) ≡ count (λ e. e.batch_id == batch_id) rows
total-statuses batch_id [] = refl
total-statuses batch_id (x ∷ xs) = omega (
  arith,
  total-cons batch_id x xs statuses,
  ones-statuses (x.batch_id == batch_id) x.status,
  count-cons (λ e. e.batch_id == batch_id) x xs,
  total-statuses batch_id xs,
)

-- The summary of a batch is given to its user alone, and the counts by status that it shows add up
-- to the number of the batch's emails.
pub get_batch_lem :
    (T : Tables) (user batch_id : ℕ) (db : Db T) (summary : BatchSummary)
    → get_batch T user batch_id db ≡ ok summary
    → ((summary.batch.id == batch_id && summary.batch.user_id == user) ≡ true)
      × (total summary.by_status
          ≡ count (λ e. e.batch_id == summary.batch.id) (T.emails.rows db.emails))
unfolding get_batch group_by_status
get_batch_lem T user batch_id db summary h =
    elim (Option-cases
      (find (λ b. b.id == batch_id && b.user_id == user) (T.batches.rows db.batches))) [
        | inl gone ↦ absurd (ground (arith, gone))
        | inr (b, found) ↦
            let same : record {
              batch = b;
              by_status = group_by_status b.id (T.emails.rows db.emails);
              sender = sender_name T db b.sender_id;
            }
                ≡ summary =
              ground (arith, found) in
            rw (← same) (
              (find-any (λ b. b.id == batch_id && b.user_id == user) (T.batches.rows db.batches) b
                  found).0,
              total-kept (map (counted b.id (T.emails.rows db.emails)) statuses)
                  ∙ total-statuses b.id (T.emails.rows db.emails),
            )
      ]
