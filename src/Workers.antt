-- ===== src/Workers.antt =====
-- Any number of workers over one database, one Redis server and one mail server: the processor of
-- apps/backend/src/worker/email-processor.ts cut at its waits, the reconciliation that a starting
-- worker runs (apps/backend/src/queue/reconcile.ts) and the emails that the API adds. A history is
-- a list of events in any order; an event that does not fit the worker's phase does nothing.
mod Invariant
pub mod Exclusion
pub mod Lifecycle
mod Examples
use abhishek_bhat2005_reachi.Base.{
  ℕ, zero, suc, ◌+◌, ◌≡◌, Bool, true, false, not, ◌&&◌, ◌||◌, Option, none, some, List, [], ◌∷◌,
  ◌++◌, Text, Result, ok, err, ◌==◌, ltb, any, if◌then◌else◌,
}
use abhishek_bhat2005_reachi.Base.Table.{Table}
use abhishek_bhat2005_reachi.Schema.{Tables, Db, Email, EmailStatus}
use abhishek_bhat2005_reachi.RateLimit.Server.{Redis}
use abhishek_bhat2005_reachi.RateLimit.{RateConfig, reserve}
use abhishek_bhat2005_reachi.Worker.Delivery.{Thrown}
use abhishek_bhat2005_reachi.Worker.Statements.{
  Claim, DeliveryReceipt, is_terminal, is_processing, is_queueable, record_rate_limit, claim_email,
}
use abhishek_bhat2005_reachi.Worker.{
  World, Job, Run, Loaded, load, finish, accepted, sender_policy, EmailMessage, message_of,
}
use abhishek_bhat2005_reachi.Queue.{release_stale}

-- Where a worker is in a run: before it, after the row was read and is due, after the reservation
-- was refused or admitted, with a message at the mail server, and with its answer.
pub data Phase : Type 0 where
  idle : Phase
  read : Job → Run → Loaded → Phase
  refused : Run → (email_id next : ℕ) → Phase
  admitted : Job → Run → Loaded → Phase
  sending : Job → Claim → EmailMessage → Phase
  answered : Job → Claim → Result Thrown DeliveryReceipt → Phase

-- The claim that a worker holds.
abbrev pub held : Phase → Option Claim
held (sending job claim message) = some claim
held (answered job claim answer) = some claim
held _ = none

-- `sends` are the ids of the emails whose messages were handed to the mail server, newest first.
pub record System (T : Tables) (R : Redis) : Type 0 where
  pub world : World T R
  pub phase : ℕ → Phase
  pub sends : List ℕ

pub data Event : Type 0 where
  takes : (worker : ℕ) → Job → Run → Event
  advances : (worker : ℕ) → Event
  answers : (worker : ℕ) → Result Thrown DeliveryReceipt → Event
  finishes : (worker time : ℕ) → Event
  dies : (worker : ℕ) → Event
  reconciles : (now lease : ℕ) → Event
  schedules : Email → Event

abbrev pub set_phase : (ℕ → Phase) → ℕ → Phase → ℕ → Phase
set_phase f w p v = if v == w then p else f v

abbrev pub as_new : Email → Email
as_new e = record e {
  sent_at = none;
  status = EmailStatus.scheduled;
  attempt_count = 0;
  processing_token = none;
  processing_started_at = none;
  smtp_message_id = none;
  ethereal_preview_url = none;
  last_error_code = none;
  last_error_message = none;
  rate_limited_until = none;
}

module _ (T : Tables) (R : Redis) (config : RateConfig) (backoff : ℕ) where
  -- The first wait of the processor: the row is read, and the run goes on if it is due.
  taken : Job → Run → Option Loaded → Phase
  taken job run none = Phase.idle
  taken job run (some l) =
      if is_terminal l.email.status
        || is_processing l.email.status
        || ltb run.now l.email.next_attempt_at
      then Phase.idle
      else Phase.read job run l

  -- The reservation.
  after_read : Job → Run → Loaded → ℕ → System T R → System T R
  after_read job run l w s =
      let (decision, store) =
        reserve R config (sender_policy l) l.email.id run.now run.clock s.world.store in
      record s {
        world = record s.world { store = store };
        phase = set_phase s.phase w (elim decision [
          | none ↦ Phase.idle
          | some d ↦
              if d.admitted
              then Phase.admitted job run l
              else Phase.refused run l.email.id d.next_available_at
        ]);
      }

  after_refused : Run → ℕ → ℕ → ℕ → System T R → System T R
  after_refused run email_id next w s =
      elim (record_rate_limit T email_id next run.now run.attempt_token s.world.db) [
        | none ↦ record s { phase = set_phase s.phase w Phase.idle }
        | some (_, db) ↦ record s {
          world = record s.world { db = db };
          phase = set_phase s.phase w Phase.idle;
        }
      ]

  -- The claim; the message of a claimed email goes to the mail server at once.
  after_admitted : Job → Run → Loaded → ℕ → System T R → System T R
  after_admitted job run l w s =
      elim (claim_email T l.email.id run.now run.claim_token s.world.db) [
        | none ↦ record s { phase = set_phase s.phase w Phase.idle }
        | some (none, db) ↦ record s {
          world = record s.world { db = db };
          phase = set_phase s.phase w Phase.idle;
        }
        | some (some claim, db) ↦ record s {
          world = record s.world { db = db };
          phase = set_phase s.phase w (Phase.sending job claim (message_of l));
          sends = claim.id ∷ s.sends;
        }
      ]

  advance : Phase → ℕ → System T R → System T R
  advance (Phase.read job run l) w s = after_read job run l w s
  advance (Phase.refused run email_id next) w s = after_refused run email_id next w s
  advance (Phase.admitted job run l) w s = after_admitted job run l w s
  advance _ w s = s

  start : Phase → ℕ → Job → Run → System T R → System T R
  unfolding taken
  start Phase.idle w job run s = record s {
    phase = set_phase s.phase w (taken job run (load T job.scheduled_email_id s.world.db));
  }
  start _ w job run s = s

  answer : Phase → ℕ → Result Thrown DeliveryReceipt → System T R → System T R
  answer (Phase.sending job claim message) w result s = record s {
    phase = set_phase s.phase w (Phase.answered job claim (accepted result));
  }
  answer _ w result s = s

  settle : Phase → ℕ → ℕ → System T R → System T R
  settle (Phase.answered job claim result) w time s = record s {
    world = record s.world { db = (finish T backoff job claim result time s.world.db).1 };
    phase = set_phase s.phase w Phase.idle;
  }
  settle _ w time s = s

  -- A new email of the API, unless it violates a constraint; the columns that `createMany` leaves out
  -- have their defaults.
  insert_email : Email → System T R → System T R
  insert_email e s = elim (T.emails.create (as_new e) s.world.db.emails) [
    | none ↦ s
    | some emails ↦ record s {
      world = record s.world { db = record s.world.db { emails = emails } };
    }
  ]

  pub step : Event → System T R → System T R
  step (takes w job run) s = start (s.phase w) w job run s
  step (advances w) s = advance (s.phase w) w s
  step (answers w result) s = answer (s.phase w) w result s
  step (finishes w time) s = settle (s.phase w) w time s
  step (dies w) s = record s { phase = set_phase s.phase w Phase.idle }
  step (reconciles now lease) s = record s {
    world = record s.world { db = release_stale T now lease s.world.db };
  }
  step (schedules e) s = insert_email e s

  pub run_events : List Event → System T R → System T R
  run_events [] s = s
  run_events (e ∷ es) s = run_events es (step e s)
