-- ===== src/Workers/Examples.antt =====
-- Two workers at one email.
use abhishek_bhat2005_reachi.Workers.Lifecycle.{Evolves, board, run_events-Evolves}
use abhishek_bhat2005_reachi.Base.{ℕ, ◌≡◌, refl, some, List, [], ◌∷◌}
use abhishek_bhat2005_reachi.Schema.{list_tables}
use abhishek_bhat2005_reachi.RateLimit.Server.{function_redis}
use abhishek_bhat2005_reachi.RateLimit.{reserve, keys}
use abhishek_bhat2005_reachi.Samples.{rate_config, email, sent_email, world_of, job, run}
use abhishek_bhat2005_reachi.Worker.Statements.{Claim, claim_email}
use abhishek_bhat2005_reachi.Worker.{load}
use abhishek_bhat2005_reachi.Workers.{
  System, Phase, Event, held, run_events, step, start, advance, after_read, after_admitted,
}
use abhishek_bhat2005_reachi.Workers.Exclusion.{one_worker_per_email, run_events-Final, Rests}

abbrev system : System list_tables function_redis
system = record {
  world = world_of (email 1 ∷ sent_email 2 ∷ []);
  phase = λ w. Phase.idle;
  sends = [];
}

-- Both workers read the email, both reserve, and the second one claims it first.
abbrev history : List Event
history =
    Event.takes 0 (job 1) (run 2000 90)
    ∷ Event.takes 1 (job 1) (run 2000 91)
    ∷ Event.advances 0
    ∷ Event.advances 1
    ∷ Event.advances 1
    ∷ Event.advances 0
    ∷ []

abbrev claim : Claim
claim = record { id = 1; batch_id = 5; attempt_count = 1; token = 90 }

abbrev final_state : System list_tables function_redis
final_state =
    run_events list_tables function_redis rate_config 500
      (Event.takes 0 (job 1) (run 2000 90) ∷ Event.advances 0 ∷ Event.advances 0 ∷ []) system

holds_claim : held (final_state.phase 0) ≡ some claim
unfolding run_events load reserve keys claim_email step advance start after_read after_admitted
holds_claim = refl

one_worker_per_email_example : ◌≡◌ {A = ℕ} 0 0
one_worker_per_email_example =
    one_worker_per_email list_tables function_redis rate_config 500 system
      (Event.takes 0 (job 1) (run 2000 90) ∷ Event.advances 0 ∷ Event.advances 0 ∷ []) 0 0 claim
      claim refl (λ u. refl) holds_claim holds_claim refl

run_events-Final_example :
    Rests list_tables function_redis 2 system
      (run_events list_tables function_redis rate_config 500 history system)
run_events-Final_example =
    run_events-Final list_tables function_redis rate_config 500 2 system history (refl, refl)

run_events-Evolves_example : Evolves (board list_tables function_redis system) (
    board list_tables function_redis
      (run_events list_tables function_redis rate_config 500 history system))
run_events-Evolves_example =
    run_events-Evolves list_tables function_redis rate_config 500 history system
