-- ===== src/Scheduling/Replay.antt =====
-- How `createEmailBatch` answers a first request, a repeated one and one that loses a race.
use abhishek_bhat2005_reachi.Base.{
  if◌then◌else◌, ◌<◌, ◌≡◌, refl, Bool, true, false, none, some, List, [], ◌∷◌, ◌==◌, find, any,
  length, ok, err, arith, Bool-cases, Option-cases, inl, inr, find-any, ◌≢◌, Result-cases,
}
use abhishek_bhat2005_reachi.Schema.{Tables, Db, Batch}
use abhishek_bhat2005_reachi.Scheduling.{
  CreateBatchInput, CreationError, Identifiers, Printing, is_wanted, find_existing_batch,
  insert_batch, creation_transaction, replay_or_throw, create_email_batch, with_limits,
}
use abhishek_bhat2005_reachi.Scheduling.Creation.{
  Inserted, has_batch, insert_batch-Inserted, insert_batch-refused,
}

pub any-find : {A : Type 0} (p : A → Bool) (xs : List A) → find p xs ≡ none → any p xs ≡ false
any-find p [] h = refl
any-find p (y ∷ ys) h = ground (arith, any-find p ys)

module _ (T : Tables) (P : Printing) (input : CreateBatchInput) (new : Identifiers) where
  abbrev pub sender_there : Db T → Bool
  sender_there db = any (is_wanted input) (T.senders.rows db.senders)

  pub transaction-Inserted :
      (db db' : Db T) (b : Batch)
      → creation_transaction T P input new false db ≡ ok (b, db')
      → Inserted T P input new db db' b × (sender_there db ≡ true)
  unfolding creation_transaction with_limits
  transaction-Inserted db db' b h =
      elim (Option-cases (find (is_wanted input) (T.senders.rows db.senders))) [
        | inl gone ↦ absurd (ground (arith, gone))
        | inr (sender, there) ↦
            elim (Option-cases (insert_batch T P input new (with_limits T input sender.id db))) [
              | inl refused ↦ absurd (ground (arith, there, refused))
              | inr ((c, d), done) ↦
                  let same : (c ≡ b) × (d ≡ db') = ground (arith, there, done) in
                  let i =
                    insert_batch-Inserted T P input new (with_limits T input sender.id db) d c
                      done in
                  (
                    rw (← same.0, ← same.1)
                        (record {
                          batch = i.batch;
                          fresh = i.fresh;
                          batches = i.batches;
                          emails = i.emails;
                        }),
                    (find-any (is_wanted input) (T.senders.rows db.senders) sender there).1,
                  )
            ]
      ]

  transaction-taken :
      (db : Db T)
      → has_batch T P input new db ≡ true
      → sender_there db ≡ true
      → creation_transaction T P input new false db ≡ err CreationError.unique_violation
  unfolding creation_transaction with_limits
  transaction-taken db taken there =
      elim (Option-cases (find (is_wanted input) (T.senders.rows db.senders))) [
        | inl gone ↦
            absurd (ground (arith, any-find (is_wanted input) (T.senders.rows db.senders) gone))
        | inr (sender, found) ↦
            rw (found, creation_transaction)
              (rw (insert_batch-refused T P input new (with_limits T input sender.id db) taken)
                refl)
      ]

  replay_creates_nothing :
      (e : CreationError) (db : Db T) (b : Batch)
      → replay_or_throw T P input e db ≢ ok (record { batch = b; replayed = false })
  unfolding replay_or_throw
  replay_creates_nothing (CreationError.http e) db b h = cc
  replay_creates_nothing CreationError.write_conflict db b h = cc
  replay_creates_nothing CreationError.unique_violation db b h =
      elim (Option-cases (find_existing_batch T input.user_id input.idempotency_key db)) [
        | inl gone ↦ ground (arith, gone)
        | inr (raced, found) ↦ ground (arith, found)
      ]

  not_in_conflict :
      (conflicts : Bool) (db db' : Db T) (b : Batch)
      → creation_transaction T P input new conflicts db ≡ ok (b, db')
      → creation_transaction T P input new false db ≡ ok (b, db')
  unfolding creation_transaction
  not_in_conflict true db db' b h = absurd (cc)
  not_in_conflict false db db' b h = h

-- What a request that creates a batch has found and leaves.
pub create_email_batch-Inserted :
    (T : Tables) (P : Printing) (input : CreateBatchInput) (new : Identifiers)
    (before after : Db T → Db T) (conflicts : Bool) (db db' : Db T) (b : Batch)
    → create_email_batch T P input new before after conflicts db
      ≡ (ok (record { batch = b; replayed = false }), db')
    → Inserted T P input new (before db) db' b
      × (sender_there T P input new (before db) ≡ true)
      × (0 < length input.parsed_leads.leads)
unfolding create_email_batch
create_email_batch-Inserted T P input new before after conflicts db db' b h =
    elim (Option-cases (find_existing_batch T input.user_id input.idempotency_key db)) [
      | inr (existing, found) ↦ absurd (ground (arith, found))
      | inl gone ↦ elim (Bool-cases (length input.parsed_leads.leads == 0)) [
        | inl empty ↦ absurd (ground (arith, gone, empty))
        | inr leads ↦
            elim (Result-cases (creation_transaction T P input new conflicts (before db))) [
              | inr (e, thrown) ↦ absurd (
                  ground (
                    arith,
                    gone,
                    leads,
                    thrown,
                    replay_creates_nothing T P input new e (after (before db)) b,
                  ))
              | inl ((c, d), done) ↦
                  let same : (c ≡ b) × (d ≡ db') = ground (arith, gone, leads, done) in
                  let (inserted, there) =
                    transaction-Inserted T P input new (before db) d c
                      (not_in_conflict T P input new conflicts (before db) d c done) in
                  (rw (← same.0, ← same.1) inserted, there, ground arith)
            ]
      ]
    ]

-- A request with at least one lead and a key that its user had not used when it began, while another
-- request creates a batch with that key before the transaction runs, adds nothing: if the sender is
-- still there and active, then it returns the other's batch as a replay, where that is still there
-- behind the transaction, unless the database refuses the transaction as conflicting with another
-- one, when it fails with that error.
pub create_email_batch_race :
    (T : Tables) (P : Printing) (input : CreateBatchInput) (new : Identifiers)
    (before after : Db T → Db T) (conflicts : Bool) (db : Db T) (b : Batch)
    → find_existing_batch T input.user_id input.idempotency_key db ≡ none
    → 0 < length input.parsed_leads.leads
    → sender_there T P input new (before db) ≡ true
    → has_batch T P input new (before db) ≡ true
    → find_existing_batch T input.user_id input.idempotency_key (after (before db)) ≡ some b
    → create_email_batch T P input new before after conflicts db ≡ (
      if conflicts
          then err CreationError.write_conflict
          else ok (record { batch = b; replayed = true }),
      after (before db),
    )
unfolding create_email_batch replay_or_throw creation_transaction
create_email_batch_race T P input new before after conflicts db b h l s taken later =
    let nonempty : (length input.parsed_leads.leads == 0) ≡ false = ground arith in
    elim (Bool-cases conflicts) [
      | inl refused ↦ rw (h, create_email_batch) (rw (nonempty, refused) refl)
      | inr runs ↦
          rw (h, create_email_batch)
            (rw (nonempty, runs)
              (rw (transaction-taken T P input new (before db) taken s)
                (rw (later, replay_or_throw) refl)))
    ]
