-- ===== src/RateSeed/Examples.antt =====
-- One email of the hour is sent, and the keys are gone.
use abhishek_bhat2005_reachi.Base.{◌+◌, ◌≤◌, refl, none, List, [], ◌∷◌, arith}
use abhishek_bhat2005_reachi.Schema.{list_tables}
use abhishek_bhat2005_reachi.Samples.{rate_config, sender, email, sent_email, db_of}
use abhishek_bhat2005_reachi.RateLimit.Server.{function_redis}
use abhishek_bhat2005_reachi.RateLimit.Runs.{Call, fresh_admissions}
use abhishek_bhat2005_reachi.RateLimit.{hour_window, current_hour_start}
use abhishek_bhat2005_reachi.RateSeed.{seed_sender, seed_sender-quota}

abbrev calls : List Call
calls =
    record { hourly_limit = 2; minimum_delay_ms = 1000; email_id = 1; now = 9000; clock = 9000 }
    ∷ record { hourly_limit = 2; minimum_delay_ms = 1000; email_id = 3; now = 12000; clock = 12000 }
    ∷ []

seed_sender-quota_example :
    fresh_admissions function_redis rate_config 7 calls (
        seed_sender list_tables function_redis rate_config
          (db_of (email 1 ∷ sent_email 2 ∷ []))
          8000
          8000
          sender
          (λ k. none))
      + 1
    ≤ 2
unfolding hour_window current_hour_start
seed_sender-quota_example =
    seed_sender-quota list_tables function_redis rate_config (db_of (email 1 ∷ sent_email 2 ∷ []))
      sender 8000 2 (λ k. none) calls refl (omega arith)
      (
        record { window = refl; limited = omega arith; in_time = omega arith },
        (record { window = refl; limited = omega arith; in_time = omega arith }, tt),
      )
