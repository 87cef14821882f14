-- ===== src/RateLimit.antt =====
-- apps/backend/src/rate-limit/sender-rate-limiter.ts. The values under the keys are numbers: the
-- scripts write and read them by `tostring` and `tonumber`, which are exact below 14 digits.
pub mod Server
pub mod Keys
mod Script
pub mod Decisions
pub mod Runs
pub mod Seeding
mod Examples
use abhishek_bhat2005_reachi.Base.{
  ℕ, ◌+◌, ◌-◌, ◌*◌, ◌/◌, Bool, true, false, not, ◌&&◌, ◌==◌, ltb, leb, if◌then◌else◌, Option, none,
  some, List, [], ◌∷◌, ◌++◌, Text, codes,
}
use Server.{Redis, get, exists}

-- What the code takes from its configuration and from the printing of numbers and UUIDs.
pub record RateConfig : Type 0 where
  pub bullmq_prefix : Text
  pub rate_limit_reservation_ttl_ms : ℕ
  pub uuid_text : ℕ → Text
  pub number_text : ℕ → Text

pub record SenderPolicy : Type 0 where
  pub sender_id : ℕ
  pub hourly_limit : ℕ
  pub minimum_delay_ms : ℕ

pub record RateLimitDecision : Type 0 where
  pub admitted : Bool
  pub next_available_at : ℕ
  pub existing_reservation : Bool

abbrev pub hour_milliseconds : ℕ
hour_milliseconds = 3600000

pub record HourWindow : Type 0 where
  pub start : ℕ
  pub end : ℕ

unfoldable pub hour_window : ℕ → HourWindow
hour_window now =
    let start = now / hour_milliseconds * hour_milliseconds in
    record { start = start; end = start + hour_milliseconds }

pub record RateKeys : Type 0 where
  pub count : Text
  pub next : Text
  pub reservation : Text

-- A scheduled email's id is a UUID; `seed` passes the word instead.
unfoldable pub keys : RateConfig → ℕ → Text → ℕ → RateKeys
keys config sender_id email_text hour_start =
    let base =
      config.bullmq_prefix
      ++ (codes ":email-rate:v1:" ++ (codes "{" ++ (config.uuid_text sender_id ++ codes "}"))) in
    record {
      count = base ++ (codes ":hour:" ++ config.number_text hour_start);
      next = base ++ codes ":next";
      reservation = base ++ (codes ":reservation:" ++ email_text);
    }

-- `tonumber(redis.call('GET', …) or '0')`.
abbrev pub or_zero : Option ℕ → ℕ
or_zero none = 0
or_zero (some n) = n

-- `b and 1 or 0`.
abbrev pub flag : Bool → ℕ
flag true = 1
flag false = 0

module _ (R : Redis) where
  -- The first write of an admission: the reservation, and one more in the count of the hour.
  pub take_reservation : RateKeys → ℕ → ℕ → ℕ → ℕ → R.Store → R.Store
  take_reservation k now hour_end ttl clock s =
      R.pexpireat k.count (hour_end + ttl) clock
        (R.incr k.count clock (R.set_px k.reservation now ttl clock s))

  -- `reserveScript`, run when the server's time is `clock`: its reply and the keys after it.
  pub reserve_script : RateKeys → ℕ → ℕ → ℕ → ℕ → ℕ → ℕ → R.Store → List ℕ × R.Store
  unfolding take_reservation
  reserve_script k now hour_end limit minimum_delay ttl clock s =
      let count = or_zero (get R k.count clock s) in
      let next_at = or_zero (get R k.next clock s) in
      let has_reservation = exists R k.reservation clock s in
      if not has_reservation && leb limit count
      then (0 ∷ (if ltb hour_end next_at then next_at else hour_end) ∷ 0 ∷ [], s)
      else if ltb now next_at
      then (0 ∷ next_at ∷ flag has_reservation ∷ [], s)
      else (
        1 ∷ now ∷ flag has_reservation ∷ [],
        R.set_px k.next (now + minimum_delay) ttl clock
            (if has_reservation then s else take_reservation k now hour_end ttl clock s),
      )

  -- The two writes of `seedScript`, each only where the key is missing.
  unfoldable pub seed_count : RateKeys → ℕ → ℕ → ℕ → R.Store → R.Store
  seed_count k accepted ttl clock s =
      if exists R k.count clock s then s else R.set_px k.count accepted ttl clock s

  unfoldable pub seed_next : RateKeys → ℕ → ℕ → ℕ → ℕ → R.Store → R.Store
  seed_next k last minimum_delay ttl clock s =
      if ltb 0 last && not (exists R k.next clock s)
      then R.set_px k.next (last + minimum_delay) ttl clock s
      else s

  -- `seedScript`; it replies 1.
  unfoldable pub seed_script : RateKeys → ℕ → ℕ → ℕ → ℕ → ℕ → R.Store → R.Store
  seed_script k accepted last minimum_delay ttl clock s =
      seed_next k last minimum_delay ttl clock (seed_count k accepted ttl clock s)

-- `numberResult`: the entry at an index, or the exception if it is no number.
abbrev pub number_result : List ℕ → ℕ → Option ℕ
number_result [] i = none
number_result (x ∷ xs) ℕ.zero = some x
number_result (x ∷ xs) (ℕ.suc i) = number_result xs i

abbrev decision : Option ℕ → Option ℕ → Option ℕ → Option RateLimitDecision
decision (some a) (some at) (some e) =
    some (record { admitted = a == 1; next_available_at = at; existing_reservation = e == 1 })
decision _ _ _ = none

module _ (R : Redis) (config : RateConfig) where
  -- `SenderRateLimiter.reserve`; `none` is an exception.
  unfoldable pub reserve : SenderPolicy → ℕ → ℕ → ℕ → R.Store → Option RateLimitDecision × R.Store
  unfolding hour_window reserve_script
  reserve policy email_id now clock s =
      let window = hour_window now in
      let rate_keys = keys config policy.sender_id (config.uuid_text email_id) window.start in
      let (result, t) =
        reserve_script R rate_keys now window.end policy.hourly_limit policy.minimum_delay_ms
          config.rate_limit_reservation_ttl_ms clock s in
      (decision (number_result result 0) (number_result result 1) (number_result result 2), t)

  -- `SenderRateLimiter.seed`.
  unfoldable pub seed : SenderPolicy → ℕ → Option ℕ → ℕ → ℕ → R.Store → R.Store
  unfolding hour_window seed_script
  seed policy accepted_count last_accepted_at now clock s =
      let window = hour_window now in
      let rate_keys = keys config policy.sender_id (codes "seed") window.start in
      let ttl = window.end - now + config.rate_limit_reservation_ttl_ms in
      seed_script R rate_keys accepted_count (or_zero last_accepted_at) policy.minimum_delay_ms ttl
        clock s

unfoldable pub current_hour_start : ℕ → ℕ
unfolding hour_window
current_hour_start now = (hour_window now).start
