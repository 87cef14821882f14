-- ===== src/Worker/Examples.antt =====
-- The theorems about the processor at concrete rows.
use abhishek_bhat2005_reachi.Worker.Sending.{process_sends}
use abhishek_bhat2005_reachi.Base.{
  ◌≡◌, refl, none, some, [], ◌∷◌, inr, err, codes, map, text_eq, arith, ok,
}
use abhishek_bhat2005_reachi.Schema.{Db, list_tables, EmailStatus}
use abhishek_bhat2005_reachi.RateLimit.Server.{function_redis}
use abhishek_bhat2005_reachi.Samples.{
  rate_config, email, sent_email, batch, sender, db_of, world_of, job, run,
}
use abhishek_bhat2005_reachi.Worker.Delivery.{Thrown, Property, classify_delivery_error}
use abhishek_bhat2005_reachi.Worker.Statements.{Claim, claim_email, update_batch_completion}
use abhishek_bhat2005_reachi.Worker.Outcomes.{
  IsHeld, Completes, update_batch_completion-cases, finish_settles, view,
}
use abhishek_bhat2005_reachi.Worker.Effects.{emails_of}
use abhishek_bhat2005_reachi.Worker.{JobOutcome, Mailer, finish, load, process, Loaded}

abbrev claim : Claim
claim = record { id = 1; batch_id = 5; attempt_count = 1; token = 90 }

-- The database after the first email is claimed.
abbrev claimed : Db list_tables
claimed = elim (claim_email list_tables 1 2000 90 (db_of (email 1 ∷ email 2 ∷ []))) [
  | none ↦ db_of []
  | some (c, db) ↦ db
]

claimed-IsHeld : IsHeld list_tables claim claimed
unfolding claim_email
claimed-IsHeld = record { row = refl; attempt = refl }

update_batch_completion-cases_example :
    Completes list_tables 5
      (db_of (sent_email 1 ∷ []))
      (update_batch_completion list_tables 5 (db_of (sent_email 1 ∷ [])))
update_batch_completion-cases_example =
    update_batch_completion-cases list_tables 5 (db_of (sent_email 1 ∷ []))

abbrev timeout : Thrown
timeout = Thrown.object (Property.string (codes "EDNS")) Property.other

finish_settles_example :
    ((finish list_tables 500 (job 1) claim (err timeout) 2100 claimed).0
      ≡ JobOutcome.transient_failure)
    × (map view (
          emails_of list_tables (finish list_tables 500 (job 1) claim (err timeout) 2100 claimed).1)
        ≡ (1, EmailStatus.retryable, none, 2600) ∷ (2, EmailStatus.scheduled, none, 1000) ∷ [])
unfolding claim_email classify_delivery_error text_eq
finish_settles_example =
    finish_settles list_tables 500 (job 1) claim 2100 claimed (err timeout) claimed-IsHeld

-- The limiter has no keys yet, and the mailer accepts the message.
abbrev good_mailer : Mailer
good_mailer message =
    ok (record {
      message_id = codes "m";
      preview_url = none;
      accepted_count = 1;
      rejected_count = 0;
    })

abbrev loaded : Loaded
loaded = record { email = email 1; batch = batch; sender = sender }

process_sends_example :
    ((process list_tables function_redis rate_config 500 good_mailer
        (job 1)
        (run 2000 90)
        (world_of (email 1 ∷ email 2 ∷ []))).0
      ≡ JobOutcome.returned)
    × (map view (
          emails_of list_tables
            (process list_tables function_redis rate_config 500 good_mailer
              (job 1)
              (run 2000 90)
              (world_of (email 1 ∷ email 2 ∷ []))).1.db)
        ≡ (1, EmailStatus.sent, none, 2000) ∷ (2, EmailStatus.scheduled, none, 1000) ∷ [])
process_sends_example =
    process_sends list_tables function_redis rate_config 500 good_mailer (job 1) (run 2000 90)
      (world_of (email 1 ∷ email 2 ∷ [])) loaded (unfold load in refl) refl (omega arith) refl refl
      (inr (ground arith), ground arith)
