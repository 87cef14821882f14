-- ===== src/Worker/Sending.antt =====
-- A due email whose sender may send is sent, or its failure is recorded, in one run.
use abhishek_bhat2005_reachi.Base.{
  ℕ, ◌+◌, ◌≡◌, ◌≤◌, refl, sym, ap, ◌∙◌, Bool, true, false, not, ◌&&◌, ◌||◌, some, List, [], ◌∷◌,
  ◌++◌, map, any, any-append, find, find-any, count, ◌==◌, ==_iff, ==_refl, ltb, arith,
  Option-cases, inl, inr,
}
use abhishek_bhat2005_reachi.Base.Table.{create-cases}
use abhishek_bhat2005_reachi.Schema.{Tables, Db, Email, attempt_conflict}
use abhishek_bhat2005_reachi.RateLimit.Server.{Redis}
use abhishek_bhat2005_reachi.RateLimit.{RateConfig, RateLimitDecision, reserve}
use abhishek_bhat2005_reachi.RateLimit.Decisions.{IsOpen, reserve-Decides}
use abhishek_bhat2005_reachi.Worker.Statements.{
  Claim, claims_row, is_claimed_by, is_processing, is_terminal, mark_processing, claim_email,
  claim_attempt, with_attempt,
}
use abhishek_bhat2005_reachi.Worker.Effects.{emails_of}
use abhishek_bhat2005_reachi.Worker.Outcomes.{
  IsHeld, ending, next_time, view, settled_row, finish_settles,
}
use abhishek_bhat2005_reachi.Worker.{
  World, Job, Run, Loaded, Mailer, load, finish, process, admit, claim_and_send, accepted,
  message_of, sender_policy, is_final_retry,
}
use abhishek_bhat2005_reachi.Worker.OneRow.{
  has_id, Alone, find-Alone, sent_row, claim, marked, claimed_rows, kept_rows, held_row,
  settled_rows,
}

-- No attempt stands in the way of the one that a claim records.
abbrev pub is_new_attempt : (T : Tables) → Email → (token : ℕ) → Db T → Bool
is_new_attempt T e token db = not (
    any
      (λ a.
        token == a.attempt_token || (e.id == a.email_id && e.attempt_count + 1 == a.attempt_number))
      (T.attempts.rows db.attempts))

record Claimed (T : Tables) (e : Email) (rows : List Email) (a : Alone e.id e rows)
    (free : claims_row e.id e ≡ true) (token now : ℕ) (db : Db T) : Type 0 where
  left : Db T
  committed : claim_email T e.id now token db ≡ some (some (claim e rows a free token now), left)
  emails : emails_of T left ≡ a.before ++ marked e rows a free token now ∷ a.after
  held : IsHeld T (claim e rows a free token now) left

claim_email-Claimed :
    (T : Tables) (e : Email) (db : Db T) (a : Alone e.id e (emails_of T db))
    (free : claims_row e.id e ≡ true) (token now : ℕ)
    → is_new_attempt T e token db ≡ true
    → Claimed T e (emails_of T db) a free token now db
unfolding claim_email
claim_email-Claimed T e db a free token now new =
    let attempt = claim_attempt T token now (marked e (emails_of T db) a free token now) in
    elim (create-cases T.attempts attempt db.attempts) [
      | inl (thrown, conflict) ↦ absurd (unfold attempt_conflict in ground (arith, conflict))
      | inr (attempts, made, rows, fresh) ↦ record {
        left = record db {
          emails = T.emails.update_many (claims_row e.id) (mark_processing token now) db.emails;
          attempts = attempts;
        };
        committed =
            rw (kept_rows e (emails_of T db) a free token now, claim_email)
              (rw (made, with_attempt) refl);
        emails =
            T.emails.rows-update_many _ _ db.emails
            ∙ claimed_rows e (emails_of T db) a free token now;
        held = record {
          row =
              ap (count (is_claimed_by (claim e (emails_of T db) a free token now))) (
                T.emails.rows-update_many _ _ db.emails
                ∙ claimed_rows e (emails_of T db) a free token now)
              ∙ held_row e (emails_of T db) a free token now;
          attempt =
              ap (any (λ r. r.attempt_token == token)) rows
              ∙ any-append (λ r. r.attempt_token == token) (T.attempts.rows db.attempts)
                  (attempt ∷ [])
              ∙ ground (arith, ==_refl token);
        };
      }
    ]

loaded_email :
    (T : Tables) (id : ℕ) (db : Db T) (l : Loaded)
    → load T id db ≡ some l
    → find (has_id l.email.id) (emails_of T db) ≡ some l.email
unfolding load
loaded_email T id db l h = elim (Option-cases (find (has_id id) (emails_of T db))) [
  | inl gone ↦ absurd (ground (arith, gone))
  | inr (e, found) ↦
      let same : e ≡ l.email = ground (arith, found) in
      let mine : l.email.id ≡ id =
        ap (λ x. x.id) (sym same)
        ∙ (==_iff e.id id).0 (find-any (has_id id) (emails_of T db) e found).0 in
      ap (λ i. find (has_id i) (emails_of T db)) mine ∙ (found ∙ ap some same)
]

-- A run that is admitted goes on to the claim.
admitted_run :
    (T : Tables) (R : Redis) (config : RateConfig) (backoff : ℕ) (mailer : Mailer) (job : Job)
    (run : Run) (w : World T R) (l : Loaded) (d : RateLimitDecision)
    → load T job.scheduled_email_id w.db ≡ some l
    → claims_row l.email.id l.email ≡ true
    → l.email.next_attempt_at ≤ run.now
    → (reserve R config (sender_policy l) l.email.id run.now run.clock w.store).0 ≡ some d
    → d.admitted ≡ true
    → process T R config backoff mailer job run w
      ≡ claim_and_send T R config backoff mailer job run l (record w {
        store = (reserve R config (sender_policy l) l.email.id run.now run.clock w.store).1;
      })
unfolding process admit
admitted_run T R config backoff mailer job run w l d loaded free due returned admitted =
    let waits : (is_terminal l.email.status || is_processing l.email.status) ≡ false =
      ground arith in
    let ready : ltb run.now l.email.next_attempt_at ≡ false = ground arith in
    rw (loaded, process) (rw waits (rw ready (rw (returned, admit) (rw admitted refl))))

claimed_run :
    (T : Tables) (R : Redis) (config : RateConfig) (backoff : ℕ) (mailer : Mailer) (job : Job)
    (run : Run) (w : World T R) (l : Loaded) (c : Claim) (left : Db T)
    → claim_email T l.email.id run.now run.claim_token w.db ≡ some (some c, left)
    → claim_and_send T R config backoff mailer job run l w ≡ (
        let (outcome, db) =
          finish T backoff job c (accepted (mailer (message_of l))) run.finished left in
        (outcome, record w { db = db }))
unfolding claim_and_send
claimed_run T R config backoff mailer job run w l c left committed =
    rw (committed, claim_and_send) refl

-- A run that finds its email in a status that may be sent, due and alone with its id, while the sender's
-- limit is open and the claim's attempt is new, ends as `ending` says for the mailer's answer: no error of
-- the code's own is possible, the email's row gets the status that it names, without a token and with
-- the time of the next attempt, and the status, token and time of every other row stay. In
-- particular, a message that the mailer accepts is sent.
pub process_sends :
    (T : Tables) (R : Redis) (config : RateConfig) (backoff : ℕ) (mailer : Mailer) (job : Job)
    (run : Run) (w : World T R) (l : Loaded)
    → load T job.scheduled_email_id w.db ≡ some l
    → claims_row l.email.id l.email ≡ true
    → l.email.next_attempt_at ≤ run.now
    → count (has_id l.email.id) (emails_of T w.db) ≡ 1
    → is_new_attempt T l.email run.claim_token w.db ≡ true
    → IsOpen R config (sender_policy l) l.email.id run.now run.clock w.store
    → let (outcome, status) = ending (accepted (mailer (message_of l))) (is_final_retry job) in
      ((process T R config backoff mailer job run w).0 ≡ outcome)
      × (map view (emails_of T (process T R config backoff mailer job run w).1.db)
          ≡ map
              (sent_row l.email.id status (next_time run.finished backoff status))
              (emails_of T w.db))
unfolding process admit claim_and_send
process_sends T R config backoff mailer job run w l loaded free due single new may_send =
    let found : find (has_id l.email.id) (emails_of T w.db) ≡ some l.email =
      loaded_email T job.scheduled_email_id w.db l loaded in
    let a = find-Alone l.email.id l.email (emails_of T w.db) found single in
    let c = claim_email-Claimed T l.email w.db a free run.claim_token run.now new in
    let (d, returned, cases) =
      reserve-Decides R config (sender_policy l) l.email.id run.now run.clock w.store in
    elim cases [
      | inr (refused, shut, same, later) ↦ absurd (shut may_send)
      | inl (admitted, opened) ↦
          let start =
            admitted_run T R config backoff mailer job run w l d loaded free due returned
              admitted in
          let ends =
            finish_settles T backoff job
              (claim l.email (emails_of T w.db) a free run.claim_token run.now) run.finished c.left
              (accepted (mailer (message_of l))) c.held in
          let result = ending (accepted (mailer (message_of l))) (is_final_retry job) in
          rw (start ∙ claimed_run T R config backoff mailer job run _ l _ c.left c.committed) (
            ends.0,
            ends.1
                ∙ ap
                    (map (
                      settled_row (claim l.email (emails_of T w.db) a free run.claim_token run.now)
                        result.1 (next_time run.finished backoff result.1)))
                    c.emails
                ∙ settled_rows l.email (emails_of T w.db) a free run.claim_token run.now result.1
                    (next_time run.finished backoff result.1),
          )
    ]
