-- ===== src/Workers/Exclusion.antt =====
-- What holds after every history of the workers, the reconciliation and the API.
use abhishek_bhat2005_reachi.Base.{
  ℕ, ◌≡◌, refl, inl, inr, true, false, not, ◌&&◌, none, some, List, [], ◌∷◌, ◌++◌, arith, Result,
  ◌==◌, ==_iff, any, Bool-cases, Option-cases, any-append, count, ◌∙◌,
}
use abhishek_bhat2005_reachi.Base.Table.{create-cases}
use abhishek_bhat2005_reachi.Schema.{Tables, Email}
use abhishek_bhat2005_reachi.RateLimit.Server.{Redis}
use abhishek_bhat2005_reachi.RateLimit.{RateConfig}
use abhishek_bhat2005_reachi.Worker.Delivery.{Thrown}
use abhishek_bhat2005_reachi.Worker.Statements.{
  Claim, is_terminal, record_rate_limit, claim_email, claims_row, DeliveryReceipt,
}
use abhishek_bhat2005_reachi.Worker.Rows.{
  AreConsistent, Final, Kept, Moves-Kept, rows_with, rows_with,
}
use abhishek_bhat2005_reachi.Worker.Effects.{
  record_rate_limit-Moves, release_stale-Moves, ClaimEffect-Moves, claim_email-effect, finish-Moves,
}
use abhishek_bhat2005_reachi.Worker.{Job, Run, Loaded}
use abhishek_bhat2005_reachi.Workers.{
  System, Phase, Event, held, as_new, after_read, after_refused, after_admitted, advance, start,
  answer, settle, insert_email, step, run_events,
}
use abhishek_bhat2005_reachi.Workers.Invariant.{rows_of, run_events-Inv, new_id, effect_claim}

-- An email in a final status is selected by no claim.
final_unclaimable :
    (id : ℕ) (rows : List Email)
    → any (λ e. e.id == id && not (is_terminal e.status)) rows ≡ false
    → any (claims_row id) rows ≡ false
final_unclaimable id [] h = refl
final_unclaimable id (x ∷ xs) h = ground (arith, final_unclaimable id xs)

keep-append :
    (id : ℕ) (rows : List Email) (x : Email)
    → (x.id == id) ≡ false
    → rows_with id (rows ++ x ∷ []) ≡ rows_with id rows
keep-append id [] x h = rw h refl
keep-append id (y ∷ ys) x h = ground (arith, keep-append id ys x h)

module _ (T : Tables) (R : Redis) where
  -- How often the email's message was handed to the mail server.
  abbrev pub times_sent : ℕ → System T R → ℕ
  times_sent id s = count (λ x. x == id) s.sends

  -- The email's rows stay as they are, in a final status, and no message of it is sent.
  abbrev pub Rests : ℕ → System T R → System T R → Type 0
  Rests id s s' = Kept id (rows_of T R s) (rows_of T R s') × (times_sent id s' ≡ times_sent id s)

module _ (T : Tables) (R : Redis) (config : RateConfig) (backoff : ℕ) (id : ℕ) where
  -- A row of another email that is added.
  appended :
      (e : Email) (rows : List Email)
      → (e.id == id) ≡ false
      → Final id rows
      → Kept id rows (rows ++ e ∷ [])
  appended e rows new h =
      ((rw any-append (rw h.0 refl), rw any-append (rw (h.1, new) refl)), keep-append id rows e new)

  after_read-Rests :
      (job : Job) (run : Run) (l : Loaded) (w : ℕ) (s : System T R)
      → Final id (rows_of T R s)
      → Rests T R id s (after_read T R config backoff job run l w s)
  unfolding after_read
  after_read-Rests job run l w s h = ((h, refl), refl)

  after_refused-Rests :
      (run : Run) (email_id next w : ℕ) (s : System T R)
      → Final id (rows_of T R s)
      → Rests T R id s (after_refused T R config backoff run email_id next w s)
  unfolding after_refused
  after_refused-Rests run email_id next w s h =
      elim (Option-cases (record_rate_limit T email_id next run.now run.attempt_token s.world.db)) [
        | inl thrown ↦ rw (thrown, after_refused) ((h, refl), refl)
        | inr ((u, db), done) ↦
            rw (done, after_refused)
              (
                Moves-Kept
                    (record_rate_limit-Moves T email_id next run.now run.attempt_token s.world.db db
                      u done)
                    id h,
                refl,
              )
      ]

  other_email :
      (c : Claim) (email_id : ℕ) (rows : List Email)
      → c.id ≡ email_id
      → any (claims_row email_id) rows ≡ true
      → any (λ e. e.id == id && not (is_terminal e.status)) rows ≡ false
      → (c.id == id) ≡ false
  other_email c email_id rows same there shut = elim (Bool-cases (c.id == id)) [
    | inl mine ↦
        let here : id ≡ email_id = omega (arith, (==_iff c.id id).0 mine) in
        absurd (ground (arith, final_unclaimable email_id rows (rw here at shut)))
    | inr other ↦ other
  ]

  after_admitted-Rests :
      (job : Job) (run : Run) (l : Loaded) (w : ℕ) (s : System T R)
      → Final id (rows_of T R s)
      → Rests T R id s (after_admitted T R config backoff job run l w s)
  unfolding after_admitted
  after_admitted-Rests job run l w s h =
      elim (Option-cases (claim_email T l.email.id run.now run.claim_token s.world.db)) [
        | inl thrown ↦ rw (thrown, after_admitted) ((h, refl), refl)
        | inr ((none, db), done) ↦
            rw (done, after_admitted)
              (
                Moves-Kept
                    (ClaimEffect-Moves T l.email.id run.now run.claim_token s.world.db db none
                      (claim_email-effect T _ _ _ s.world.db db none done))
                    id h,
                refl,
              )
        | inr ((some c, db), done) ↦
            let effect =
              claim_email-effect T l.email.id run.now run.claim_token s.world.db db (some c) done in
            let (same, there) = effect_claim T R config backoff l run s db c effect in
            rw (done, after_admitted)
              (
                Moves-Kept (ClaimEffect-Moves T _ _ _ s.world.db db (some c) effect) id h,
                rw (other_email c l.email.id (rows_of T R s) same there h.1) refl,
              )
      ]

  advance-Rests :
      (p : Phase) (w : ℕ) (s : System T R)
      → Final id (rows_of T R s)
      → Rests T R id s (advance T R config backoff p w s)
  unfolding advance
  advance-Rests (Phase.read job run l) w s h = after_read-Rests job run l w s h
  advance-Rests (Phase.refused run email_id next) w s h =
      after_refused-Rests run email_id next w s h
  advance-Rests (Phase.admitted job run l) w s h = after_admitted-Rests job run l w s h
  advance-Rests _ w s h = ((h, refl), refl)

  start-Rests :
      (p : Phase) (w : ℕ) (job : Job) (run : Run) (s : System T R)
      → Final id (rows_of T R s)
      → Rests T R id s (start T R config backoff p w job run s)
  unfolding start
  start-Rests Phase.idle w job run s h = ((h, refl), refl)
  start-Rests _ w job run s h = ((h, refl), refl)

  answer-Rests :
      (p : Phase) (w : ℕ) (result : Result Thrown DeliveryReceipt) (s : System T R)
      → Final id (rows_of T R s)
      → Rests T R id s (answer T R config backoff p w result s)
  unfolding answer
  answer-Rests (Phase.sending job c message) w result s h = ((h, refl), refl)
  answer-Rests _ w result s h = ((h, refl), refl)

  settle-Rests :
      (p : Phase) (w time : ℕ) (s : System T R)
      → Final id (rows_of T R s)
      → Rests T R id s (settle T R config backoff p w time s)
  unfolding settle
  settle-Rests (Phase.answered job c result) w time s h =
      (Moves-Kept (finish-Moves T backoff job c time s.world.db result) id h, refl)
  settle-Rests _ w time s h = ((h, refl), refl)

  insert_email-Rests :
      (e : Email) (s : System T R)
      → Final id (rows_of T R s)
      → Rests T R id s (insert_email T R config backoff e s)
  unfolding insert_email
  insert_email-Rests e s h = elim (create-cases T.emails (as_new e) s.world.db.emails) [
    | inl (refused, _) ↦ rw (refused, insert_email) ((h, refl), refl)
    | inr (emails, done, rows, new) ↦
        rw (done, insert_email)
          (
            rw rows (
                appended (as_new e) (rows_of T R s) (new_id (as_new e) id (rows_of T R s) new h.0)
                  h),
            refl,
          )
  ]

  step-Rests :
      (e : Event) (s : System T R)
      → Final id (rows_of T R s)
      → Rests T R id s (step T R config backoff e s)
  unfolding step
  step-Rests (Event.takes w job run) s h = start-Rests (s.phase w) w job run s h
  step-Rests (Event.advances w) s h = advance-Rests (s.phase w) w s h
  step-Rests (Event.answers w result) s h = answer-Rests (s.phase w) w result s h
  step-Rests (Event.finishes w time) s h = settle-Rests (s.phase w) w time s h
  step-Rests (Event.dies w) s h = ((h, refl), refl)
  step-Rests (Event.reconciles now lease) s h =
      (Moves-Kept (release_stale-Moves T now lease s.world.db) id h, refl)
  step-Rests (Event.schedules e) s h = insert_email-Rests e s h

  run_events-Rests :
      (es : List Event) (s : System T R)
      → Final id (rows_of T R s)
      → Rests T R id s (run_events T R config backoff es s)
  unfolding run_events
  run_events-Rests [] s h = ((h, refl), refl)
  run_events-Rests (e ∷ es) s h =
      let now = step-Rests e s h in
      let later = run_events-Rests es (step T R config backoff e s) now.0.0 in
      ((later.0.0, later.0.1 ∙ now.0.1), later.1 ∙ now.1)

-- From a database in which tokens are set exactly on the emails in processing, and with no claim
-- held, after any history two workers that hold claims on the same email are one worker: a message is
-- in the hands of one worker at most.
pub one_worker_per_email :
    (T : Tables) (R : Redis) (config : RateConfig) (backoff : ℕ) (s : System T R) (es : List Event)
    (v w : ℕ) (c d : Claim)
    → AreConsistent (rows_of T R s)
    → ((u : ℕ) → held (s.phase u) ≡ none)
    → held ((run_events T R config backoff es s).phase v) ≡ some c
    → held ((run_events T R config backoff es s).phase w) ≡ some d
    → c.id ≡ d.id
    → v ≡ w
one_worker_per_email T R config backoff s es v w c d consistent nobody =
    (run_events-Inv T R config backoff es s (record {
      consistent = consistent;
      locked = λ u b h. absurd (ground (arith, nobody u));
      apart = λ u x b a h k e. absurd (ground (arith, nobody u));
    })).apart
      v w c d

-- An email that is there and has only rows in a final status (sent, failed, unknown or cancelled) is
-- left alone by any history: its rows stay exactly as they are, so it keeps that status, and its
-- message is never handed to the mail server again.
pub run_events-Final :
    (T : Tables) (R : Redis) (config : RateConfig) (backoff : ℕ) (id : ℕ) (s : System T R)
    (es : List Event)
    → Final id (rows_of T R s)
    → Rests T R id s (run_events T R config backoff es s)
run_events-Final T R config backoff id s es = run_events-Rests T R config backoff id es s
