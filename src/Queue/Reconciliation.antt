-- ===== src/Queue/Reconciliation.antt =====
-- What reconcile.ts leaves in the table and in the queue.
use abhishek_bhat2005_reachi.Base.{
  ℕ, ◌-◌, ◌<◌, ◌≡◌, refl, ◌∙◌, Bool, true, false, List, [], ◌∷◌, none, some, map, arith, length,
  keep, count, any, update_where, ◌==◌, Bool-cases, inl, inr,
}
use abhishek_bhat2005_reachi.Schema.{Tables, Db, Email, EmailStatus}
use abhishek_bhat2005_reachi.Worker.Statements.{is_queueable, is_processing}
use abhishek_bhat2005_reachi.Queue.Sorting.{DistinctIds}
use abhishek_bhat2005_reachi.Queue.Paging.{enqueue_pages_lem}
use abhishek_bhat2005_reachi.Queue.{
  select, enqueue_email_rows, enqueue_pages, sort_by_id, is_stale, mark_unknown, release_stale,
  reconcile_email_queue,
}

abbrev pub queueable : Email → Bool
queueable e = is_queueable e.status

processing_apart : (s : EmailStatus) → is_processing s ≡ true → is_queueable s ≡ false
processing_apart EmailStatus.processing h = refl
processing_apart EmailStatus.scheduled h = cc
processing_apart EmailStatus.rate_limited h = cc
processing_apart EmailStatus.retryable h = cc
processing_apart EmailStatus.sent h = refl
processing_apart EmailStatus.failed h = refl
processing_apart EmailStatus.delivery_unknown h = refl
processing_apart EmailStatus.cancelled h = refl

module _ (stale_before : ℕ) where
  abbrev released : List Email → List Email
  released rows = update_where (is_stale stale_before) mark_unknown rows

  -- The released rows were not to be queued, and are not.
  keep-released : (rows : List Email) → keep queueable (released rows) ≡ keep queueable rows
  keep-released [] = refl
  keep-released (x ∷ xs) = elim (Bool-cases (is_stale stale_before x)) [
    | inl old ↦
        let apart = processing_apart x.status (ground arith) in rw old (rw apart (keep-released xs))
    | inr young ↦ rw young (ground (arith, keep-released xs))
  ]

  none_stale : (rows : List Email) → count (is_stale stale_before) (released rows) ≡ 0
  none_stale [] = refl
  none_stale (x ∷ xs) = elim (Bool-cases (is_stale stale_before x)) [
    | inl old ↦ rw old (none_stale xs)
    | inr young ↦ rw young (rw young (none_stale xs))
  ]

  any-released :
      (id : ℕ) (rows : List Email)
      → any (λ x. x.id == id) (released rows) ≡ any (λ x. x.id == id) rows
  any-released id [] = refl
  any-released id (x ∷ xs) = elim (Bool-cases (is_stale stale_before x)) [
    | inl old ↦ rw old (rw (any-released id xs) refl)
    | inr young ↦ rw young (rw (any-released id xs) refl)
  ]

  released-DistinctIds : (rows : List Email) → DistinctIds rows → DistinctIds (released rows)
  released-DistinctIds [] h = tt
  released-DistinctIds (x ∷ xs) h = elim (Bool-cases (is_stale stale_before x)) [
    | inl old ↦ rw old (any-released x.id xs ∙ h.0, released-DistinctIds xs h.1)
    | inr young ↦ rw young (any-released x.id xs ∙ h.0, released-DistinctIds xs h.1)
  ]

-- With distinct ids, pages of at least one row and more rounds than there are queueable rows, the
-- reconciliation ends. It reports how many leases were stale, and leaves none; and it has queued one
-- job for each queueable row, by id, and counted them. It takes no row out of the queueable ones.
pub reconcile_email_queue_lem :
    (T : Tables) (size lease now fuel : ℕ) (db : Db T)
    → DistinctIds (T.emails.rows db.emails)
    → 0 < size
    → length (sort_by_id (keep queueable (T.emails.rows db.emails))) < fuel
    → (reconcile_email_queue T size lease now fuel db
        ≡ some (
          record {
            delivery_unknown = count (is_stale (now - lease)) (T.emails.rows db.emails);
            examined = length (sort_by_id (keep queueable (T.emails.rows db.emails)));
            jobs =
                enqueue_email_rows
                  (map select (sort_by_id (keep queueable (T.emails.rows db.emails))))
                  now;
          },
          release_stale T now lease db,
        ))
      × (count (is_stale (now - lease)) (T.emails.rows (release_stale T now lease db).emails) ≡ 0)
      × (keep queueable (T.emails.rows (release_stale T now lease db).emails)
          ≡ keep queueable (T.emails.rows db.emails))
unfolding reconcile_email_queue
reconcile_email_queue_lem T size lease now fuel db distinct pos enough =
    let rows = T.emails.rows db.emails in
    let same = keep-released (now - lease) rows in
    let updated : T.emails.rows (release_stale T now lease db).emails
        ≡ released (now - lease) rows =
      unfold release_stale in T.emails.rows-update_many _ _ db.emails in
    let sorted = sort_by_id (keep queueable rows) in
    let pages : enqueue_pages queueable size (T.emails.rows (release_stale T now lease db).emails)
          now fuel none
        ≡ some (enqueue_email_rows (map select sorted) now, length sorted) =
      rw (updated, ← same)
        (enqueue_pages_lem queueable size (released (now - lease) rows) (λ c. now) now fuel
          (released-DistinctIds (now - lease) rows distinct) pos (rw same enough)).0 in
    (
      rw (pages, reconcile_email_queue) refl,
      rw updated (none_stale (now - lease) rows),
      rw updated same,
    )
