-- ===== src/Queue/Examples.antt =====
-- The loop over the pages at concrete rows.
use abhishek_bhat2005_reachi.Base.{
  ℕ, Option, map, count, ◌≡◌, refl, none, some, List, [], ◌∷◌, arith, keep,
}
use abhishek_bhat2005_reachi.Schema.{Email, EmailStatus, list_tables}
use abhishek_bhat2005_reachi.Samples.{db_of, email, sent_email}
use abhishek_bhat2005_reachi.Queue.{
  reconcile_email_queue, release_stale, is_stale, QueuedJob, enqueue_pages_at, enqueue_pages,
  in_batch, enqueue_email_rows, select, sort_by_id,
}
use abhishek_bhat2005_reachi.Queue.Reconciliation.{queueable, reconcile_email_queue_lem}
use abhishek_bhat2005_reachi.Queue.Paging.{untimed, enqueue_pages_lem}

abbrev rows : List Email
rows = email 4 ∷ email 2 ∷ sent_email 3 ∷ email 9 ∷ []

-- Pages of two rows: 2 and 4, then 9 a little later.
abbrev clock : Option ℕ → ℕ
clock none = 600
clock (some id) = 700

enqueue_pages_lem_example :
    (enqueue_pages (in_batch 5) 2 rows 600 4 none
      ≡ some
          (enqueue_email_rows (select (email 2) ∷ select (email 4) ∷ select (email 9) ∷ []) 600, 3))
    × (jobs : List QueuedJob) × (enqueue_pages_at (in_batch 5) 2 rows clock 4 none ≡ some (jobs, 3))
    × (map untimed jobs
        ≡ map untimed
            (enqueue_email_rows (select (email 2) ∷ select (email 4) ∷ select (email 9) ∷ []) 600))
unfolding sort_by_id
enqueue_pages_lem_example =
    enqueue_pages_lem (in_batch 5) 2 rows clock 600 4 (refl, (refl, (refl, (refl, tt))))
      (omega arith) (omega arith)

-- Email 8 has been in processing for longer than its lease.
abbrev leased : List Email
leased =
    email 4
    ∷ record (email 8) { status = EmailStatus.processing; processing_started_at = some 100 }
    ∷ []

reconcile_email_queue_lem_example :
    (reconcile_email_queue list_tables 2 300 600 4 (db_of leased)
      ≡ some (
        record {
          delivery_unknown = 1;
          examined = 1;
          jobs = enqueue_email_rows (select (email 4) ∷ []) 600;
        },
        release_stale list_tables 600 300 (db_of leased),
      ))
    × (count (is_stale 300) (release_stale list_tables 600 300 (db_of leased)).emails ≡ 0)
    × (keep queueable (release_stale list_tables 600 300 (db_of leased)).emails ≡ email 4 ∷ [])
unfolding sort_by_id
reconcile_email_queue_lem_example =
    reconcile_email_queue_lem list_tables 2 300 600 4 (db_of leased) (refl, (refl, tt))
      (omega arith) (omega arith)
