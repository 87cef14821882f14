-- ===== src/Scheduling/Creation.antt =====
-- What `createEmailBatch` inserts, and how a repeated request is answered.
use abhishek_bhat2005_reachi.Base.{
  ℕ, zero, suc, ◌≤◌, ◌<◌, ◌≡◌, refl, sym, ◌∙◌, Bool, true, false, none, some, List, [], ◌∷◌, ◌++◌,
  find, any, length, take, drop, take-append-drop, length-drop, arith, Option-cases, append_assoc,
  append-nil, inl, inr,
}
use abhishek_bhat2005_reachi.Base.Table.{create-cases}
use abhishek_bhat2005_reachi.Schema.{Tables, Db, Email, Batch, batch_conflict}
use abhishek_bhat2005_reachi.Scheduling.{
  CreateBatchInput, Identifiers, Printing, chunks, chunks_from, email_rows, new_batch, has_key,
  create_many, create_chunks, insert_batch, insertion_chunk_size,
}

pub find-append :
    {A : Type 0} (p : A → Bool) (xs : List A) (x : A)
    → any p xs ≡ false
    → p x ≡ true
    → find p (xs ++ x ∷ []) ≡ some x
find-append p [] x h k = rw k refl
find-append p (y ∷ ys) x h k = ground (arith, find-append p ys x)

pub find-none : {A : Type 0} (p : A → Bool) (xs : List A) → any p xs ≡ false → find p xs ≡ none
find-none p [] h = refl
find-none p (y ∷ ys) h = ground (arith, find-none p ys)

-- A row with the key of a new batch is in its way.
key_conflict :
    (b : Batch) (rows : List Batch)
    → any (batch_conflict b) rows ≡ false
    → any (has_key b.user_id b.idempotency_key) rows ≡ false
unfolding batch_conflict
key_conflict b [] h = refl
key_conflict b (x ∷ xs) h = ground (arith, key_conflict b xs)

module _ (T : Tables) where
  create_many-append :
      (xs ys : List Email) (s : T.emails.State)
      → create_many T (xs ++ ys) s
        ≡ elim (create_many T xs s) [ none ↦ none | some t ↦ create_many T ys t ]
  unfolding create_many
  create_many-append [] ys s = refl
  create_many-append (x ∷ xs) ys s = elim (Option-cases (T.emails.create x s)) [
    | inl refused ↦ rw (refused, create_many) refl
    | inr (t, done) ↦ rw (done, create_many) (create_many-append xs ys t)
  ]

  -- The chunks are inserted as the whole list would be.
  create_chunks-from :
      (fuel : ℕ) (values : List Email) (size : ℕ) (s : T.emails.State)
      → 0 < size
      → length values ≤ fuel
      → create_chunks T (chunks_from fuel values size) s ≡ create_many T values s
  unfolding create_chunks chunks_from
  create_chunks-from zero [] size s pos h = unfold create_many in refl
  create_chunks-from zero (v ∷ vs) size s pos h = absurd (omega arith)
  create_chunks-from (suc fuel) [] size s pos h = unfold create_many in refl
  create_chunks-from (suc fuel) (v ∷ vs) size s pos h =
      let whole = create_many-append (take size (v ∷ vs)) (drop size (v ∷ vs)) s in
      let parts : create_many T (v ∷ vs) s ≡ (elim (create_many T (take size (v ∷ vs)) s) [
        | none ↦ none
        | some t ↦ create_many T (drop size (v ∷ vs)) t
      ]) =
        rw (take-append-drop size (v ∷ vs)) at whole in
      elim (Option-cases (create_many T (take size (v ∷ vs)) s)) [
        | inl refused ↦ rw (parts, refused, create_chunks) refl
        | inr (t, done) ↦
            rw (parts, done, create_chunks)
              (create_chunks-from fuel (drop size (v ∷ vs)) size t pos
                (omega (arith, length-drop size (v ∷ vs))))
      ]

  create_many-rows :
      (es : List Email) (s t : T.emails.State)
      → create_many T es s ≡ some t
      → T.emails.rows t ≡ T.emails.rows s ++ es
  unfolding create_many
  create_many-rows [] s t h = ground (arith, append-nil (T.emails.rows s))
  create_many-rows (e ∷ es) s t h = elim (create-cases T.emails e s) [
    | inl (refused, _) ↦ absurd (ground (arith, refused))
    | inr (u, done, rows, _) ↦
        let later : create_many T es u ≡ some t = ground (arith, done) in
        create_many-rows es u t later ∙ (rw rows (append_assoc (T.emails.rows s) (e ∷ []) es))
  ]

module _ (T : Tables) (P : Printing) (input : CreateBatchInput) (new : Identifiers) where
  -- The rows that the transaction adds.
  abbrev pub rows_of : List Email
  rows_of = email_rows P input new 0 input.parsed_leads.leads

  abbrev pub has_batch : Db T → Bool
  has_batch db = any (has_key input.user_id input.idempotency_key) (T.batches.rows db.batches)

  -- What a created batch leaves in the database.
  pub record Inserted (db db' : Db T) (b : Batch) : Type 0 where
    pub batch : b ≡ new_batch input new
    pub fresh : has_batch db ≡ false
    pub batches : T.batches.rows db'.batches ≡ T.batches.rows db.batches ++ b ∷ []
    pub emails : T.emails.rows db'.emails ≡ T.emails.rows db.emails ++ rows_of

  insert_chunks-rows :
      (s t : T.emails.State)
      → create_chunks T (chunks rows_of insertion_chunk_size) s ≡ some t
      → T.emails.rows t ≡ T.emails.rows s ++ rows_of
  unfolding chunks
  insert_chunks-rows s t h = create_many-rows T rows_of s t (
      sym (
        create_chunks-from T (length rows_of) rows_of insertion_chunk_size s (omega arith)
          (omega arith))
      ∙ h)

  pub insert_batch-Inserted :
      (db db' : Db T) (b : Batch)
      → insert_batch T P input new db ≡ some (b, db')
      → Inserted db db' b
  unfolding insert_batch
  insert_batch-Inserted db db' b h =
      elim (create-cases T.batches (new_batch input new) db.batches) [
        | inl (refused, _) ↦ absurd (ground (arith, refused))
        | inr (batches, done, rows, apart) ↦
            elim (Option-cases (create_chunks T (chunks rows_of insertion_chunk_size) db.emails)) [
              | inl refused ↦ absurd (ground (arith, done, refused))
              | inr (emails, inserted) ↦
                  let same : (new_batch input new ≡ b)
                      × (record db { batches = batches; emails = emails } ≡ db') =
                    ground (arith, done, inserted) in
                  rw (← same.0, ← same.1)
                    (record {
                      batch = refl;
                      fresh = key_conflict (new_batch input new) (T.batches.rows db.batches) apart;
                      batches = rows;
                      emails = insert_chunks-rows db.emails emails inserted;
                    })
            ]
      ]

  -- A taken key.
  pub insert_batch-refused :
      (db : Db T) → has_batch db ≡ true → insert_batch T P input new db ≡ none
  unfolding insert_batch
  insert_batch-refused db taken = elim (create-cases T.batches (new_batch input new) db.batches) [
    | inl (refused, _) ↦ rw (refused, insert_batch) refl
    | inr (batches, done, rows, apart) ↦
        absurd (ground (arith, key_conflict (new_batch input new) (T.batches.rows db.batches)))
  ]
