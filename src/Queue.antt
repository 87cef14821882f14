-- ===== src/Queue.antt =====
-- apps/backend/src/queue: email-queue.ts and reconcile.ts. What a call adds to the BullMQ queue is
-- the list of the jobs that it hands to `addBulk`, in order.
pub mod Sorting
pub mod Paging
pub mod Reconciliation
mod Examples
use abhishek_bhat2005_reachi.Base.{
  ℕ, zero, suc, ◌+◌, ◌-◌, ◌≤◌, Bool, true, false, ◌&&◌, Option, none, some, List, [], ◌∷◌, ◌++◌,
  map, Text, codes, ◌==◌, ltb, leb, if◌then◌else◌, length, take, drop, get_last?, keep, count,
}
use abhishek_bhat2005_reachi.Schema.{Tables, Db, Email, EmailStatus}
use abhishek_bhat2005_reachi.Worker.Statements.{is_queueable, is_processing}

pub record QueueableEmail : Type 0 where
  pub id : ℕ
  pub bull_job_id : Text
  pub next_attempt_at : ℕ

pub record JobsOptions : Type 0 where
  pub job_id : Text
  pub delay : ℕ

pub record QueuedJob : Type 0 where
  pub name : Text
  pub scheduled_email_id : ℕ
  pub opts : JobsOptions

-- `Math.max(0, next - now)`: subtraction stops at 0.
unfoldable pub job_options : QueueableEmail → ℕ → JobsOptions
job_options email now = record { job_id = email.bull_job_id; delay = email.next_attempt_at - now }

unfoldable pub enqueue_email_rows : List QueueableEmail → ℕ → List QueuedJob
enqueue_email_rows emails now =
    map
      (λ email. record {
        name = codes "send-email";
        scheduled_email_id = email.id;
        opts = job_options email now;
      })
      emails

-- `orderBy: { id: "asc" }`.
unfoldable pub insert_by_id : Email → List Email → List Email
insert_by_id e [] = e ∷ []
insert_by_id e (x ∷ xs) = if leb e.id x.id then e ∷ x ∷ xs else x ∷ insert_by_id e xs

unfoldable pub sort_by_id : List Email → List Email
unfolding insert_by_id
sort_by_id [] = []
sort_by_id (e ∷ es) = insert_by_id e (sort_by_id es)

abbrev pub select : Email → QueueableEmail
select e = record { id = e.id; bull_job_id = e.bull_job_id; next_attempt_at = e.next_attempt_at }

-- `cursor: { id }, skip: 1`: the rows from the cursor's id on, without the first.
abbrev pub after_cursor : Option ℕ → List Email → List Email
after_cursor none rows = rows
after_cursor (some id) rows = drop 1 (keep (λ e. leb id e.id) rows)

-- One `findMany` of the loops: the rows that `wanted` selects, by id, a page of them.
unfoldable pub find_page : (Email → Bool) → Option ℕ → ℕ → List Email → List QueueableEmail
unfolding sort_by_id
find_page wanted cursor size rows =
    map select (take size (after_cursor cursor (sort_by_id (keep wanted rows))))

-- The `while (true)` of both files, on fuel: the jobs of each page, in order, and how many rows were
-- examined; `none` means that the fuel ran out. `clock` is the time at which the page behind a cursor
-- is queued. The rows do not change while it runs.
unfoldable pub enqueue_pages_at :
    (Email → Bool)
    → ℕ
    → List Email
    → (clock : Option ℕ → ℕ) → ℕ
    → Option ℕ
    → Option (List QueuedJob × ℕ)
enqueue_pages_at wanted size rows clock zero cursor = none
enqueue_pages_at wanted size rows clock (suc fuel) cursor =
    let emails = find_page wanted cursor size rows in
    let jobs = enqueue_email_rows emails (clock cursor) in
    elim (get_last? emails) [
      | none ↦ some (jobs, length emails)
      | some last ↦ elim (ltb (length emails) size) [
        | true ↦ some (jobs, length emails)
        | false ↦ elim (enqueue_pages_at wanted size rows clock fuel (some last.id)) [
          | none ↦ none
          | some (more, examined) ↦ some (jobs ++ more, length emails + examined)
        ]
      ]
    ]

-- The loop of the reconciliation, which reads the time once.
unfoldable pub enqueue_pages :
    (Email → Bool) → ℕ → List Email → ℕ → ℕ → Option ℕ → Option (List QueuedJob × ℕ)
unfolding enqueue_pages_at
enqueue_pages wanted size rows now fuel cursor =
    enqueue_pages_at wanted size rows (λ c. now) fuel cursor

-- `enqueueEmailBatch`: what is queued of a batch. Each page is queued at a time of its own.
abbrev pub in_batch : ℕ → Email → Bool
in_batch batch_id e = e.batch_id == batch_id && is_queueable e.status

unfoldable pub enqueue_email_batch :
    ℕ → List Email → ℕ → (clock : Option ℕ → ℕ) → ℕ → Option (List QueuedJob × ℕ)
unfolding enqueue_pages_at
enqueue_email_batch size rows batch_id clock fuel =
    enqueue_pages_at (in_batch batch_id) size rows clock fuel none

-- The stale rows of `reconcileEmailQueue`, and what it writes into them.
abbrev pub is_before : Option ℕ → ℕ → Bool
is_before none time = false
is_before (some t) time = ltb t time

abbrev pub is_stale : ℕ → Email → Bool
is_stale stale_before e = is_processing e.status && is_before e.processing_started_at stale_before

abbrev pub mark_unknown : Email → Email
mark_unknown e = record e {
  status = EmailStatus.delivery_unknown;
  processing_token = none;
  last_error_code = some (codes "STALE_PROCESSING_LEASE");
  last_error_message = some (codes "Delivery outcome is unknown after worker interruption");
}

pub record ReconciliationResult : Type 0 where
  pub delivery_unknown : ℕ
  pub examined : ℕ
  pub jobs : List QueuedJob

module _ (T : Tables) where
  -- The first statement of `reconcileEmailQueue`.
  unfoldable pub release_stale : ℕ → ℕ → Db T → Db T
  release_stale now lease db = record db {
    emails = T.emails.update_many (is_stale (now - lease)) mark_unknown db.emails;
  }

  -- `reconcileEmailQueue`, with the jobs that it queued.
  unfoldable pub reconcile_email_queue : ℕ → ℕ → ℕ → ℕ → Db T → Option (ReconciliationResult × Db T)
  unfolding release_stale enqueue_pages
  reconcile_email_queue size lease now fuel db =
      let stale = count (is_stale (now - lease)) (T.emails.rows db.emails) in
      let db' = release_stale now lease db in
      elim (enqueue_pages (λ e. is_queueable e.status) size (T.emails.rows db'.emails) now fuel
        none) [
          | none ↦ none
          | some (jobs, examined) ↦
              some (record { delivery_unknown = stale; examined = examined; jobs = jobs }, db')
        ]
