-- ===== src/Workers/Lifecycle.antt =====
-- The life of an email as an abstract state machine, and the workers as an implementation of it: of a
-- row it sees the id and the status.
use abhishek_bhat2005_reachi.Base.{
  ℕ, Bool, ◌≡◌, refl, inl, inr, true, Option, none, some, List, [], ◌∷◌, ◌++◌, map, map-append,
  Result, Bool-cases, Option-cases, update_where, ◌∙◌,
}
use abhishek_bhat2005_reachi.Base.Table.{create-cases}
use abhishek_bhat2005_reachi.Schema.{Tables, Email, EmailStatus}
use abhishek_bhat2005_reachi.RateLimit.Server.{Redis}
use abhishek_bhat2005_reachi.RateLimit.{RateConfig}
use abhishek_bhat2005_reachi.Worker.Delivery.{Thrown}
use abhishek_bhat2005_reachi.Worker.Statements.{
  FailureResult, DeliveryReceipt, is_queueable, is_processing, status_of, record_rate_limit,
  claim_email,
}
use abhishek_bhat2005_reachi.Worker.Rows.{RowStep, Moves, RowStep-id}
use abhishek_bhat2005_reachi.Worker.Effects.{
  record_rate_limit-Moves, release_stale-Moves, ClaimEffect-Moves, claim_email-effect, finish-Moves,
}
use abhishek_bhat2005_reachi.Worker.{Job, Run, Loaded}
use abhishek_bhat2005_reachi.Workers.{
  System, Phase, Event, as_new, after_read, after_refused, after_admitted, advance, start, answer,
  settle, insert_email, step, run_events,
}
use abhishek_bhat2005_reachi.Workers.Invariant.{rows_of}

-- A change of the status of an email.
pub data Change : EmailStatus → EmailStatus → Type 0 where
  postponed : (s : EmailStatus) → is_queueable s ≡ true → Change s EmailStatus.rate_limited
  claimed : (s : EmailStatus) → is_queueable s ≡ true → Change s EmailStatus.processing
  accepted : (s : EmailStatus) → is_processing s ≡ true → Change s EmailStatus.sent
  rejected : (s : EmailStatus) → is_processing s ≡ true → Change s EmailStatus.failed
  unanswered : (s : EmailStatus) → is_processing s ≡ true → Change s EmailStatus.delivery_unknown
  put_back : (s : EmailStatus) → is_processing s ≡ true → Change s EmailStatus.retryable

-- Any number of changes.
pub data Lives : EmailStatus → EmailStatus → Type 0 where
  rests : (s : EmailStatus) → Lives s s
  changes : {s t u : EmailStatus} → Change s t → Lives t u → Lives s u

Lives-trans : {s t u : EmailStatus} → Lives s t → Lives t u → Lives s u
Lives-trans (rests s) k = k
Lives-trans (changes c h) k = changes c (Lives-trans h k)

-- What is left of a row, and the rows of two moments: each keeps its place and its id and lives on,
-- and the new ones began as scheduled.
abbrev pub Entry : Type 0
Entry = ℕ × EmailStatus

abbrev pub entry : Email → Entry
entry e = (e.id, e.status)

abbrev pub Evolves : List Entry → List Entry → Type 0
Evolves [] [] = Unit
Evolves [] (y ∷ ys) = Lives EmailStatus.scheduled y.1 × Evolves [] ys
Evolves (x ∷ xs) [] = x ∷ xs ≡ []
Evolves (x ∷ xs) (y ∷ ys) = ((y.0 ≡ x.0) × Lives x.1 y.1) × Evolves xs ys

Evolves-refl : (xs : List Entry) → Evolves xs xs
Evolves-refl [] = tt
Evolves-refl (x ∷ xs) = ((refl, rests x.1), Evolves-refl xs)

Evolves-trans : (xs ys zs : List Entry) → Evolves xs ys → Evolves ys zs → Evolves xs zs
Evolves-trans [] [] zs h k = k
Evolves-trans [] (y ∷ ys) [] h k = absurd (cc)
Evolves-trans [] (y ∷ ys) (z ∷ zs) h k = (Lives-trans h.0 k.0.1, Evolves-trans [] ys zs h.1 k.1)
Evolves-trans (x ∷ xs) [] zs h k = absurd (cc)
Evolves-trans (x ∷ xs) (y ∷ ys) [] h k = absurd (cc)
Evolves-trans (x ∷ xs) (y ∷ ys) (z ∷ zs) h k =
    ((k.0.0 ∙ h.0.0, Lives-trans h.0.1 k.0.1), Evolves-trans xs ys zs h.1 k.1)

Evolves-new : (xs : List Entry) (id : ℕ) → Evolves xs (xs ++ (id, EmailStatus.scheduled) ∷ [])
Evolves-new [] id = (rests EmailStatus.scheduled, tt)
Evolves-new (x ∷ xs) id = ((refl, rests x.1), Evolves-new xs id)

-- Every write of the workers is a change.
change_failed :
    (s : EmailStatus) (result : FailureResult)
    → is_processing s ≡ true
    → Change s (status_of result)
change_failed s FailureResult.failed p = Change.rejected s p
change_failed s FailureResult.unknown p = Change.unanswered s p
change_failed s FailureResult.retryable p = Change.put_back s p

change_of : {settled : Option ℕ} {e e' : Email} → RowStep settled e e' → Change e.status e'.status
change_of (RowStep.postponed e next q) = Change.postponed e.status q
change_of (RowStep.claimed e token now t q) = Change.claimed e.status q
change_of (RowStep.sent e receipt now p s) = Change.accepted e.status p
change_of (RowStep.failed e result backoff code message now p s) = change_failed e.status result p
change_of (RowStep.lost e p) = Change.unanswered e.status p

step_Lives : {settled : Option ℕ} {e e' : Email} → RowStep settled e e' → Lives e.status e'.status
step_Lives {settled} {e} {e'} step = changes (change_of step) (rests e'.status)

update_where-Evolves :
    {settled : Option ℕ} (selects : Email → Bool) (writes : Email → Email)
    → ((e : Email) → selects e ≡ true → RowStep settled e (writes e))
    → (rows : List Email) → Evolves (map entry rows) (map entry (update_where selects writes rows))
update_where-Evolves selects writes moved [] = tt
update_where-Evolves selects writes moved (x ∷ xs) = elim (Bool-cases (selects x)) [
  | inl chosen ↦ rw chosen (
    (RowStep-id (moved x chosen), step_Lives (moved x chosen)),
    update_where-Evolves selects writes moved xs,
  )
  | inr left ↦ rw left ((refl, rests x.status), update_where-Evolves selects writes moved xs)
]

Moves-Evolves :
    {settled : Option ℕ} {rows rows' : List Email}
    → Moves settled rows rows'
    → Evolves (map entry rows) (map entry rows')
Moves-Evolves {settled} {rows} {rows'} m =
    rw m.after (update_where-Evolves m.selects m.writes m.moved rows)

module _ (T : Tables) (R : Redis) where
  -- What the abstract machine sees of a system.
  abbrev pub board : System T R → List Entry
  board s = map entry (rows_of T R s)

module _ (T : Tables) (R : Redis) (config : RateConfig) (backoff : ℕ) where
  after_refused-Evolves :
      (run : Run) (email_id next w : ℕ) (s : System T R)
      → Evolves (board T R s) (board T R (after_refused T R config backoff run email_id next w s))
  unfolding after_refused
  after_refused-Evolves run email_id next w s =
      elim (Option-cases (record_rate_limit T email_id next run.now run.attempt_token s.world.db)) [
        | inl thrown ↦ rw (thrown, after_refused) (Evolves-refl (board T R s))
        | inr ((u, db), done) ↦
            rw (done, after_refused)
              (Moves-Evolves (
                record_rate_limit-Moves T email_id next run.now run.attempt_token s.world.db db u
                  done))
      ]

  after_admitted-Evolves :
      (job : Job) (run : Run) (l : Loaded) (w : ℕ) (s : System T R)
      → Evolves (board T R s) (board T R (after_admitted T R config backoff job run l w s))
  unfolding after_admitted
  after_admitted-Evolves job run l w s =
      elim (Option-cases (claim_email T l.email.id run.now run.claim_token s.world.db)) [
        | inl thrown ↦ rw (thrown, after_admitted) (Evolves-refl (board T R s))
        | inr ((none, db), done) ↦
            rw (done, after_admitted)
              (Moves-Evolves (
                ClaimEffect-Moves T _ _ _ s.world.db db none
                  (claim_email-effect T _ _ _ s.world.db db none done)))
        | inr ((some c, db), done) ↦
            rw (done, after_admitted)
              (Moves-Evolves (
                ClaimEffect-Moves T _ _ _ s.world.db db (some c)
                  (claim_email-effect T _ _ _ s.world.db db (some c) done)))
      ]

  advance-Evolves :
      (p : Phase) (w : ℕ) (s : System T R)
      → Evolves (board T R s) (board T R (advance T R config backoff p w s))
  unfolding advance after_read
  advance-Evolves (Phase.read job run l) w s = Evolves-refl (board T R s)
  advance-Evolves (Phase.refused run email_id next) w s =
      after_refused-Evolves run email_id next w s
  advance-Evolves (Phase.admitted job run l) w s = after_admitted-Evolves job run l w s
  advance-Evolves _ w s = Evolves-refl (board T R s)

  start-Evolves :
      (p : Phase) (w : ℕ) (job : Job) (run : Run) (s : System T R)
      → Evolves (board T R s) (board T R (start T R config backoff p w job run s))
  unfolding start
  start-Evolves Phase.idle w job run s = Evolves-refl (board T R s)
  start-Evolves _ w job run s = Evolves-refl (board T R s)

  answer-Evolves :
      (p : Phase) (w : ℕ) (result : Result Thrown DeliveryReceipt) (s : System T R)
      → Evolves (board T R s) (board T R (answer T R config backoff p w result s))
  unfolding answer
  answer-Evolves (Phase.sending job c message) w result s = Evolves-refl (board T R s)
  answer-Evolves _ w result s = Evolves-refl (board T R s)

  settle-Evolves :
      (p : Phase) (w time : ℕ) (s : System T R)
      → Evolves (board T R s) (board T R (settle T R config backoff p w time s))
  unfolding settle
  settle-Evolves (Phase.answered job c result) w time s =
      Moves-Evolves (finish-Moves T backoff job c time s.world.db result)
  settle-Evolves _ w time s = Evolves-refl (board T R s)

  insert_email-Evolves :
      (e : Email) (s : System T R)
      → Evolves (board T R s) (board T R (insert_email T R config backoff e s))
  unfolding insert_email
  insert_email-Evolves e s = elim (create-cases T.emails (as_new e) s.world.db.emails) [
    | inl (refused, _) ↦ rw (refused, insert_email) (Evolves-refl (board T R s))
    | inr (emails, done, rows, new) ↦
        rw (done, insert_email) (rw (rows, map-append) (Evolves-new (board T R s) e.id))
  ]

  step-Evolves :
      (e : Event) (s : System T R) → Evolves (board T R s) (board T R (step T R config backoff e s))
  unfolding step
  step-Evolves (Event.takes w job run) s = start-Evolves (s.phase w) w job run s
  step-Evolves (Event.advances w) s = advance-Evolves (s.phase w) w s
  step-Evolves (Event.answers w result) s = answer-Evolves (s.phase w) w result s
  step-Evolves (Event.finishes w time) s = settle-Evolves (s.phase w) w time s
  step-Evolves (Event.dies w) s = Evolves-refl (board T R s)
  step-Evolves (Event.reconciles now lease) s =
      Moves-Evolves (release_stale-Moves T now lease s.world.db)
  step-Evolves (Event.schedules e) s = insert_email-Evolves e s

-- The workers, the reconciliation and the API, in any number and any order, implement the abstract
-- life of an email: after any history each email keeps its place and its id, its status has
-- changed only along `Change` (a waiting email is postponed or claimed, a claimed one is sent, fails, is
-- put back or stays unanswered, and the other statuses are never left), and every new email began
-- as scheduled.
pub run_events-Evolves :
    (T : Tables) (R : Redis) (config : RateConfig) (backoff : ℕ) (es : List Event) (s : System T R)
    → Evolves (board T R s) (board T R (run_events T R config backoff es s))
unfolding run_events
run_events-Evolves T R config backoff [] s = Evolves-refl (board T R s)
run_events-Evolves T R config backoff (e ∷ es) s =
    let next = step T R config backoff e s in
    Evolves-trans (board T R s) (board T R next) (board T R (run_events T R config backoff es next))
      (step-Evolves T R config backoff e s) (run_events-Evolves T R config backoff es next)
