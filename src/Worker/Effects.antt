-- ===== src/Worker/Effects.antt =====
-- Each statement of the worker, as the writes that it makes to the rows of the emails.
use abhishek_bhat2005_reachi.Base.{
  ℕ, ◌≡◌, refl, ◌⊎◌, inl, inr, Bool, true, false, ◌&&◌, Option, none, some, List, [], ◌∷◌, Text,
  arith, ◌==◌, any, update_where, map, keep, Result, ok, err, ap, Option-cases, ◌∙◌, sym,
}
use abhishek_bhat2005_reachi.Schema.{Tables, Db, Email, Attempt}
use abhishek_bhat2005_reachi.Worker.Delivery.{Thrown, safe_error}
use abhishek_bhat2005_reachi.Worker.Statements.{
  Claim, DeliveryReceipt, FailureResult, is_queueable, is_claimed_by, mark_rate_limited,
  mark_processing, mark_sent, mark_failed, with_attempt, claim_email, record_rate_limit,
  accept_transaction, record_accepted, failure_transaction, record_failure, update_batch_completion,
  head?, failure_result, claims_row,
}
use abhishek_bhat2005_reachi.Worker.Rows.{RowStep, Moves}
use abhishek_bhat2005_reachi.Worker.{
  Job, finish, fail, Classification, classify_delivery_error, plain_error, is_final_retry,
}
use abhishek_bhat2005_reachi.Queue.{mark_unknown, release_stale, is_stale}

update_where-none : (rows : List Email) → update_where (λ _. false) (λ e. e) rows ≡ rows
update_where-none [] = refl
update_where-none (x ∷ xs) = ap (◌∷◌ x) (update_where-none xs)

module _ (T : Tables) where
  abbrev pub emails_of : Db T → List Email
  emails_of db = T.emails.rows db.emails

  with_attempt-emails {ℓ} :
      {A : Type ℓ} (a a' : A) (attempt : Attempt) (db db' : Db T)
      → with_attempt T a attempt db ≡ some (a', db')
      → (a' ≡ a) × (db'.emails ≡ db.emails)
  with_attempt-emails a a' attempt db db' e = ground arith

  pub emails-update_batch_completion :
      (batch_id : ℕ) (db : Db T) → (update_batch_completion T batch_id db).emails ≡ db.emails
  unfolding update_batch_completion
  emails-update_batch_completion batch_id db = ground arith

  emails-record_rate_limit :
      (id next now token : ℕ) (db db' : Db T) (u : Unit {0})
      → record_rate_limit T id next now token db ≡ some (u, db')
      → db'.emails
        ≡ T.emails.update_many
            (λ r. r.id == id && is_queueable r.status)
            (mark_rate_limited next)
            db.emails
  unfolding record_rate_limit
  emails-record_rate_limit id next now token db db' u e = ground arith

  pub record_rate_limit-Moves :
      (id next now token : ℕ) (db db' : Db T) (u : Unit {0})
      → record_rate_limit T id next now token db ≡ some (u, db')
      → Moves none (emails_of db) (emails_of db')
  record_rate_limit-Moves id next now token db db' u e = record {
    selects = λ r. r.id == id && is_queueable r.status;
    writes = mark_rate_limited next;
    after =
        ap T.emails.rows (emails-record_rate_limit id next now token db db' u e)
        ∙ T.emails.rows-update_many _ _ db.emails;
    moved = λ r p. RowStep.postponed r next (ground arith);
  }

  pub release_stale-Moves :
      (now lease : ℕ) (db : Db T)
      → Moves none (emails_of db) (emails_of (release_stale T now lease db))
  unfolding release_stale
  release_stale-Moves now lease db = record {
    selects = is_stale _;
    writes = mark_unknown;
    after = T.emails.rows-update_many _ _ db.emails;
    moved = λ r p. RowStep.lost r (ground arith);
  }

  -- What a committed claim does, whether it claims a row or finds none.
  pub record ClaimEffect (id now token : ℕ) (db db' : Db T) (r : Option Claim) : Type 0 where
    pub emails :
        db'.emails ≡ T.emails.update_many (claims_row id) (mark_processing token now) db.emails
    pub found :
        (r ≡ none)
        ⊎ ((c : Claim) × (r ≡ some c)
            × (c.id ≡ id)
            × (c.token ≡ token)
            × (any (claims_row id) (emails_of db) ≡ true))

  abbrev claim_of : ℕ → Email → Claim
  claim_of token e = record {
    id = e.id;
    batch_id = e.batch_id;
    attempt_count = e.attempt_count;
    token = token;
  }

  claimed_row :
      (id now token : ℕ) (rows : List Email) (e : Email)
      → head? (map (mark_processing token now) (keep (claims_row id) rows)) ≡ some e
      → (e.id ≡ id) × (any (claims_row id) rows ≡ true)
  claimed_row id now token [] e h = cc
  claimed_row id now token (x ∷ xs) e h = ground (arith, claimed_row id now token xs e)

  pub claim_email-effect :
      (id now token : ℕ) (db db' : Db T) (r : Option Claim)
      → claim_email T id now token db ≡ some (r, db')
      → ClaimEffect id now token db db' r
  unfolding claim_email
  claim_email-effect id now token db db' r e = record {
    emails = ground arith;
    found =
        elim (Option-cases
          (head? (map (mark_processing token now) (keep (claims_row id) (emails_of db))))) [
            | inl nothing ↦ inl (ground arith)
            | inr (row, found) ↦
                let (same, there) = claimed_row id now token (emails_of db) row found in
                inr (claim_of token row, ground arith, same, refl, there)
          ];
  }

  pub ClaimEffect-Moves :
      (id now token : ℕ) (db db' : Db T) (r : Option Claim)
      → ClaimEffect id now token db db' r
      → Moves none (emails_of db) (emails_of db')
  ClaimEffect-Moves id now token db db' r e = record {
    selects = claims_row id;
    writes = mark_processing token now;
    after = ap T.emails.rows e.emails ∙ T.emails.rows-update_many _ _ db.emails;
    moved = λ x p. RowStep.claimed x token now (ground arith) (ground arith);
  }

  pub emails-accept_transaction :
      (c : Claim) (receipt : DeliveryReceipt) (now : ℕ) (db db' : Db T)
      → accept_transaction T c receipt now db ≡ some db'
      → db'.emails ≡ T.emails.update_many (is_claimed_by c) (mark_sent receipt now) db.emails
  unfolding accept_transaction
  emails-accept_transaction c receipt now db db' e = ground arith

  pub emails-failure_transaction :
      (c : Claim) (result : FailureResult) (backoff : ℕ) (code message : Text) (now : ℕ)
      (db db' : Db T)
      → failure_transaction T c result backoff code message now db ≡ some db'
      → db'.emails
        ≡ T.emails.update_many
            (is_claimed_by c)
            (mark_failed result backoff code message now)
            db.emails
  unfolding failure_transaction
  emails-failure_transaction c result backoff code message now db db' e = ground arith

  pub accepted-Moves :
      (c : Claim) (receipt : DeliveryReceipt) (now : ℕ) (db db' : Db T)
      → db'.emails ≡ T.emails.update_many (is_claimed_by c) (mark_sent receipt now) db.emails
      → Moves (some c.id) (emails_of db) (emails_of db')
  accepted-Moves c receipt now db db' e = record {
    selects = is_claimed_by c;
    writes = mark_sent receipt now;
    after = ap T.emails.rows e ∙ T.emails.rows-update_many _ _ db.emails;
    moved = λ x p. RowStep.sent x receipt now (ground arith) (ground arith);
  }

  pub failed-Moves :
      (c : Claim) (result : FailureResult) (backoff : ℕ) (code message : Text) (now : ℕ)
      (db db' : Db T)
      → db'.emails
        ≡ T.emails.update_many
            (is_claimed_by c)
            (mark_failed result backoff code message now)
            db.emails
      → Moves (some c.id) (emails_of db) (emails_of db')
  failed-Moves c result backoff code message now db db' e = record {
    selects = is_claimed_by c;
    writes = mark_failed result backoff code message now;
    after = ap T.emails.rows e ∙ T.emails.rows-update_many _ _ db.emails;
    moved = λ x p. RowStep.failed x result backoff code message now (ground arith) (ground arith);
  }

  pub idle-Moves : (settled : Option ℕ) (rows : List Email) → Moves settled rows rows
  idle-Moves settled rows = record {
    selects = λ _. false;
    writes = λ e. e;
    after = sym (update_where-none rows);
    moved = λ e p. cc;
  }

  record_accepted-Moves :
      (c : Claim) (receipt : DeliveryReceipt) (now : ℕ) (db db' : Db T)
      → record_accepted T c receipt now db ≡ some db'
      → Moves (some c.id) (emails_of db) (emails_of db')
  unfolding record_accepted
  record_accepted-Moves c receipt now db db' e =
      elim (Option-cases (accept_transaction T c receipt now db)) [
        | inl thrown ↦ absurd (ground arith)
        | inr (done, committed) ↦ accepted-Moves c receipt now db db' (
            ground (
              arith,
              emails-accept_transaction c receipt now db done committed,
              emails-update_batch_completion c.batch_id done,
            ))
      ]

  record_failure-Moves :
      (c : Claim) (kind : Classification) (final : Bool) (backoff : ℕ) (error : Thrown) (now : ℕ)
      (db db' : Db T) (r : FailureResult)
      → record_failure T c kind final backoff error now db ≡ some (r, db')
      → Moves (some c.id) (emails_of db) (emails_of db')
  unfolding record_failure
  record_failure-Moves c kind final backoff error now db db' r e =
      let safe = safe_error kind error in
      let result = failure_result kind final in
      elim (Option-cases (failure_transaction T c result backoff safe.code safe.message now db)) [
        | inl thrown ↦ absurd (ground arith)
        | inr (done, committed) ↦ failed-Moves c result backoff safe.code safe.message now db db' (
            ground (
              arith,
              emails-failure_transaction c result backoff safe.code safe.message now db done
                  committed,
              emails-update_batch_completion c.batch_id done,
            ))
      ]

  module _ (backoff : ℕ) (job : Job) (c : Claim) (now : ℕ) (db : Db T) where
    fail-Moves :
        (error : Thrown)
        → Moves (some c.id) (emails_of db) (emails_of (fail T backoff job c error now db).1)
    unfolding fail
    fail-Moves error =
        elim (Option-cases (
          record_failure T c (classify_delivery_error error) (is_final_retry job) backoff error now
            db)) [
              | inl thrown ↦ rw (thrown, fail) (idle-Moves (some c.id) (emails_of db))
              | inr ((r, db'), committed) ↦
                  rw (committed, fail)
                    (record_failure-Moves c _ _ backoff error now db db' r committed)
            ]

    -- Whatever the mailer answered, the settlement of a claim touches no email but its own.
    pub finish-Moves :
        (answer : Result Thrown DeliveryReceipt)
        → Moves (some c.id) (emails_of db) (emails_of (finish T backoff job c answer now db).1)
    unfolding finish
    finish-Moves (err error) = fail-Moves error
    finish-Moves (ok receipt) = elim (Option-cases (record_accepted T c receipt now db)) [
      | inl thrown ↦ rw (thrown, finish) (fail-Moves plain_error)
      | inr (db', committed) ↦
          rw (committed, finish) (record_accepted-Moves c receipt now db db' committed)
    ]
