-- ===== src/Scheduling/Later.antt =====
-- What becomes of a batch while other requests and the workers write to the database.
use abhishek_bhat2005_reachi.Base.{
  ℕ, ◌≡◌, refl, ap, Bool, true, false, ◌==◌, some, List, [], ◌∷◌, ◌++◌, update_where, find, ok,
  arith, text_eq_refl, Bool-cases, count, ◌&&◌, inl, inr,
}
use abhishek_bhat2005_reachi.Schema.{Tables, Db, Batch, BatchStatus}
use abhishek_bhat2005_reachi.Worker.Statements.{update_batch_completion, is_remaining}
use abhishek_bhat2005_reachi.Scheduling.{
  CreateBatchInput, Identifiers, Printing, has_key, find_existing_batch, creation_transaction,
  create_email_batch,
}
use abhishek_bhat2005_reachi.Scheduling.Creation.{find-append}
use abhishek_bhat2005_reachi.Scheduling.Replay.{transaction-Inserted, create_email_batch-Inserted}

module _ (T : Tables) (P : Printing) where
  -- The writes to the table of batches, and those to the other tables.
  pub data Write : Db T → Db T → Type 0 where
    created :
        (input : CreateBatchInput) (new : Identifiers) (db db' : Db T) (b : Batch)
        → creation_transaction T P input new false db ≡ ok (b, db')
        → Write db db'
    completed : (batch_id : ℕ) (db : Db T) → Write db (update_batch_completion T batch_id db)
    elsewhere :
        (db db' : Db T) → T.batches.rows db'.batches ≡ T.batches.rows db.batches → Write db db'

  -- Any number of them.
  pub data Later (db : Db T) : Db T → Type 0 where
    here : Later db db
    next : {d e : Db T} → Later db d → Write d e → Later db e

pub find-longer :
    {A : Type 0} (p : A → Bool) (xs ys : List A) (x : A)
    → find p xs ≡ some x
    → find p (xs ++ ys) ≡ some x
find-longer p [] ys x h = absurd (cc)
find-longer p (z ∷ zs) ys x h = ground (arith, find-longer p zs ys x)

abbrev with_status : Batch → BatchStatus → Batch
with_status b s = record b { status = s }

abbrev HasBatch : (T : Tables) → ℕ → List ℕ → Batch → Db T → Type 0
HasBatch T user key b db =
    (s : BatchStatus) × (find_existing_batch T user key db ≡ some (with_status b s))

find-status :
    (user : ℕ) (key : List ℕ) (q : Batch → Bool) (status : BatchStatus) (rows : List Batch)
    (b : Batch) (s : BatchStatus)
    → find (has_key user key) rows ≡ some (with_status b s)
    → (t : BatchStatus) × (find (has_key user key) (update_where q (λ c. with_status c status) rows)
        ≡ some (with_status b t))
find-status user key q status [] b s h = absurd (cc)
find-status user key q status (x ∷ xs) b s h = elim (Bool-cases (has_key user key x)) [
  | inl mine ↦
      let same : x ≡ with_status b s = ground (arith, mine) in
      elim (Bool-cases (q x)) [
        | inl taken ↦ (status, rw taken (rw mine (ap (λ c. some (with_status c status)) same)))
        | inr left ↦ (s, rw left (rw mine (ap (λ c. some c) same)))
      ]
  | inr other ↦
      let rest : find (has_key user key) xs ≡ some (with_status b s) = ground (arith, other) in
      let (t, found) = find-status user key q status xs b s rest in
      elim (Bool-cases (q x)) [
        | inl taken ↦ (t, rw taken (rw other found))
        | inr left ↦ (t, rw left (rw other found))
      ]
]

module _ (T : Tables) (P : Printing) (user : ℕ) (key : List ℕ) (b : Batch) where
  completion-HasBatch :
      (batch_id : ℕ) (db : Db T)
      → HasBatch T user key b db
      → HasBatch T user key b (update_batch_completion T batch_id db)
  unfolding update_batch_completion
  completion-HasBatch batch_id db (s, found) =
      let waits =
        count (λ e. e.batch_id == batch_id && is_remaining e.status) (T.emails.rows db.emails)
        == 0 in
      elim (Bool-cases waits) [
        | inr more ↦ rw (more, update_batch_completion) (s, found)
        | inl finished ↦
            rw (finished, update_batch_completion)
              (rw T.batches.rows-update_many (
                find-status user key (λ c. c.id == batch_id) _ (T.batches.rows db.batches) b s
                  found))
      ]

  Write-HasBatch : {d e : Db T} → Write T P d e → HasBatch T user key b d → HasBatch T user key b e
  Write-HasBatch (created input new db db' c done) (s, found) =
      let inserted = (transaction-Inserted T P input new db db' c done).0 in
      (s, rw inserted.batches (find-longer (has_key user key) _ (c ∷ []) _ found))
  Write-HasBatch (completed batch_id db) h = completion-HasBatch batch_id db h
  Write-HasBatch (elsewhere db db' same) (s, found) = (s, rw same found)

  Later-HasBatch : {d e : Db T} → Later T P d e → HasBatch T user key b d → HasBatch T user key b e
  Later-HasBatch here h = h
  Later-HasBatch (next l w) h = Write-HasBatch w (Later-HasBatch l h)

-- A batch is created once for a key. After a request that created it and any writes since, of other
-- requests that create batches, of workers that complete them, and of anybody who writes to no
-- batch, a request of the same user with the same key, whatever else it asks for and whatever other
-- requests do meanwhile, is answered with that batch as a replay, in which at most the status has
-- changed, and writes nothing.
pub create_email_batch_again :
    (T : Tables) (P : Printing) (input : CreateBatchInput) (new : Identifiers)
    (before after : Db T → Db T) (conflicts : Bool) (db db' later : Db T) (b : Batch)
    (input' : CreateBatchInput) (new' : Identifiers) (before' after' : Db T → Db T)
    (conflicts' : Bool)
    → create_email_batch T P input new before after conflicts db
      ≡ (ok (record { batch = b; replayed = false }), db')
    → Later T P db' later
    → input'.user_id ≡ input.user_id
    → input'.idempotency_key ≡ input.idempotency_key
    → (s : BatchStatus) × (create_email_batch T P input' new' before' after' conflicts' later
        ≡ (ok (record { batch = record b { status = s }; replayed = true }), later))
unfolding create_email_batch
create_email_batch_again T P input new before after conflicts db db' later b input' new' before'
      after' conflicts' h since u k =
    let i = (create_email_batch-Inserted T P input new before after conflicts db db' b h).0 in
    let mine : has_key input.user_id input.idempotency_key b ≡ true =
      rw i.batch (ground (arith, text_eq_refl input.idempotency_key)) in
    let found : find_existing_batch T input.user_id input.idempotency_key db' ≡ some b =
      rw i.batches (
        find-append (has_key input.user_id input.idempotency_key)
          (T.batches.rows (before db).batches) b i.fresh mine) in
    let (s, still) =
      Later-HasBatch T P input.user_id input.idempotency_key b since (b.status, found) in
    let asked : find_existing_batch T input'.user_id input'.idempotency_key later
        ≡ some (with_status b s) =
      rw (u, k) still in
    (s, rw (asked, create_email_batch) refl)
