-- ===== src/RateLimit/Examples.antt =====
-- The theorems about the rate limiter at concrete calls, and runs of it.
use abhishek_bhat2005_reachi.Base.{
  ℕ, ◌+◌, ◌≤◌, ◌≡◌, refl, true, List, [], ◌∷◌, none, some, arith, All, text_eq,
}
use abhishek_bhat2005_reachi.RateLimit.Server.{function_redis, exists, get}
use abhishek_bhat2005_reachi.RateLimit.Decisions.{Decides, reserve-Decides, reserve_again, keys_of}
use abhishek_bhat2005_reachi.RateLimit.Seeding.{Seeds, seed-keys}
use abhishek_bhat2005_reachi.RateLimit.Runs.{
  Call, fresh_admissions, admitted_times, reserve_call, quota_respected, spacing_respected,
}
use abhishek_bhat2005_reachi.RateLimit.{
  RateConfig, SenderPolicy, hour_window, keys, reserve, or_zero,
}

abbrev config : RateConfig
config = record {
  bullmq_prefix = 98 ∷ [];
  rate_limit_reservation_ttl_ms = 3600000;
  uuid_text = λ id. id ∷ [];
  number_text = λ n. n ∷ [];
}

abbrev policy : SenderPolicy
policy = record { sender_id = 7; hourly_limit = 2; minimum_delay_ms = 1000 }

abbrev empty : function_redis.Store
empty = λ key. none

abbrev call : ℕ → ℕ → Call
call email_id time = record {
  hourly_limit = 2;
  minimum_delay_ms = 1000;
  email_id = email_id;
  now = time;
  clock = time;
}

-- The second call is too early, the third is admitted, and the fourth is over the quota.
abbrev calls : List Call
calls = call 1 5000 ∷ call 2 5500 ∷ call 2 6000 ∷ call 3 9000 ∷ []

calls_admit : fresh_admissions function_redis config 7 calls empty ≡ 2
unfolding fresh_admissions reserve keys text_eq
calls_admit = refl

calls_admitted : admitted_times function_redis config 7 calls empty ≡ 5000 ∷ 6000 ∷ []
unfolding admitted_times reserve keys text_eq
calls_admitted = refl

abbrev after_first : function_redis.Store
after_first = (reserve_call function_redis config 7 (call 1 5000) empty).1

reserve-Decides_example : Decides function_redis config policy 2 5500 5500 after_first
reserve-Decides_example = reserve-Decides function_redis config policy 2 5500 5500 after_first

first_holds :
    exists function_redis (keys_of function_redis config policy 1 6000).reservation 6000 after_first
    ≡ true
unfolding reserve keys text_eq hour_window
first_holds = refl

first_due :
    or_zero (get function_redis (keys_of function_redis config policy 1 6000).next 6000 after_first)
    ≤ 6000
unfolding reserve keys text_eq hour_window
first_due = omega arith

reserve_again_example :
    (reserve function_redis config policy 1 6000 6000 after_first).0
    ≡ some (record { admitted = true; next_available_at = 6000; existing_reservation = true })
reserve_again_example =
    (reserve_again function_redis config policy 1 6000 6000 after_first first_holds first_due).0

quota_respected_example : fresh_admissions function_redis config 7 calls empty + 0 ≤ 2
unfolding hour_window
quota_respected_example =
    quota_respected function_redis config 7 0 2 calls empty 0 (omega arith)
      (record { at = λ t q. refl }) (omega arith)

spacing_respected_example :
    All
      (◌≤◌ (5000 + 1000))
      (admitted_times function_redis config 7 (call 2 5500 ∷ call 2 6000 ∷ []) after_first)
unfolding reserve keys text_eq
spacing_respected_example =
    spacing_respected function_redis config 7 (call 1 5000) (call 2 5500 ∷ call 2 6000 ∷ []) empty
      refl (omega arith)

seed-keys_example : Seeds function_redis config policy 1 (some 4000) 6000 6000 empty
seed-keys_example = seed-keys function_redis config policy 1 (some 4000) 6000 6000 empty
