-- ===== src/RateLimit/Decisions.antt =====
-- What one call of `SenderRateLimiter.reserve` decides.
use abhishek_bhat2005_reachi.Base.{
  ℕ, ◌+◌, ◌≤◌, ◌<◌, ◌≡◌, refl, true, false, Option, some, arith, if◌then◌else◌, inl, inr, ◌⊎◌, max,
}
use abhishek_bhat2005_reachi.RateLimit.Server.{Redis, get, exists}
use abhishek_bhat2005_reachi.RateLimit.Keys.{keys-AreApart}
use abhishek_bhat2005_reachi.RateLimit.Script.{reserve_script-cases}
use abhishek_bhat2005_reachi.RateLimit.{
  RateConfig, RateKeys, SenderPolicy, RateLimitDecision, or_zero, keys, hour_window, reserve,
  hour_milliseconds,
}

pub now-lt-window_end : (now : ℕ) → now < (hour_window now).end
unfolding hour_window
now-lt-window_end now = omega arith

pub window-end : (now : ℕ) → (hour_window now).end ≡ (hour_window now).start + hour_milliseconds
unfolding hour_window
window-end now = refl

module _ (R : Redis) (config : RateConfig) where
  -- The keys that a reservation at `now` reads and writes.
  abbrev pub keys_of : SenderPolicy → ℕ → ℕ → RateKeys
  keys_of policy email_id now =
      keys config policy.sender_id (config.uuid_text email_id) (hour_window now).start

  module _ (policy : SenderPolicy) (email_id now clock : ℕ) (s : R.Store) where
    abbrev k : RateKeys
    k = keys_of policy email_id now

    abbrev result : Option RateLimitDecision × R.Store
    result = reserve R config policy email_id now clock s

    -- The keys let the call through: it holds a reservation or the quota has room, and the sender's
    -- minimum delay has passed.
    abbrev pub IsOpen : Type 0
    IsOpen =
        ((exists R k.reservation clock s ≡ true)
          ⊎ (or_zero (get R k.count clock s) < policy.hourly_limit))
        × (or_zero (get R k.next clock s) ≤ now)

    pub record Refuses : Type 0 where
      pub decision : RateLimitDecision
      pub returned : result.0 ≡ some decision
      pub not_admitted : decision.admitted ≡ false
      pub later : now < decision.next_available_at
      pub unchanged : result.1 ≡ s
      pub shut : ¬ IsOpen

    pub record Admits : Type 0 where
      pub decision : RateLimitDecision
      pub returned : result.0 ≡ some decision
      pub admitted : decision.admitted ≡ true
      pub at_once : decision.next_available_at ≡ now
      pub existing : decision.existing_reservation ≡ exists R k.reservation clock s
      pub open_now : IsOpen
      pub next :
          R.entry result.1 k.next
          ≡ some (record {
            value = now + policy.minimum_delay_ms;
            expires_at = some (clock + config.rate_limit_reservation_ttl_ms);
          })
      pub count : R.entry result.1 k.count ≡ (
          if exists R k.reservation clock s
          then R.entry s k.count
          else some (record {
            value = or_zero (get R k.count clock s) + 1;
            expires_at = some ((hour_window now).end + config.rate_limit_reservation_ttl_ms);
          }))
      pub reservation : R.entry result.1 k.reservation ≡ (
          if exists R k.reservation clock s
          then R.entry s k.reservation
          else some (record {
            value = now;
            expires_at = some (clock + config.rate_limit_reservation_ttl_ms);
          }))

    pub reserve-cases : Refuses ⊎ Admits
    unfolding reserve
    reserve-cases =
        elim (reserve_script-cases R k (keys-AreApart config _ _ _) now (hour_window now).end
          policy.hourly_limit policy.minimum_delay_ms config.rate_limit_reservation_ttl_ms clock
          s) [
            | inl r ↦ inl (elim r.reply [
              | inl e ↦ record {
                decision = record {
                  admitted = false;
                  next_available_at = max (hour_window now).end (or_zero (get R k.next clock s));
                  existing_reservation = false;
                };
                returned = ground arith;
                not_admitted = refl;
                later = omega (arith, now-lt-window_end now);
                unchanged = r.unchanged;
                shut = ground arith;
              }
              | inr (e, early) ↦ record {
                decision = record {
                  admitted = false;
                  next_available_at = or_zero (get R k.next clock s);
                  existing_reservation = exists R k.reservation clock s;
                };
                returned = ground arith;
                not_admitted = refl;
                later = early;
                unchanged = r.unchanged;
                shut = ground arith;
              }
            ])
            | inr a ↦ inr (record {
              decision = record {
                admitted = true;
                next_available_at = now;
                existing_reservation = exists R k.reservation clock s;
              };
              returned = ground arith;
              admitted = refl;
              at_once = refl;
              existing = refl;
              open_now = (a.within, a.spaced);
              next = a.next;
              count = a.count;
              reservation = a.reservation;
            })
          ]

-- What `reserve-Decides` says of one call.
abbrev pub Decides :
    (R : Redis) → RateConfig → SenderPolicy → (email_id now clock : ℕ) → R.Store → Type 0
Decides R config policy email_id now clock s =
    let (result, after) = reserve R config policy email_id now clock s in
    (d : RateLimitDecision) × (result ≡ some d)
    × (((d.admitted ≡ true) × IsOpen R config policy email_id now clock s)
        ⊎ ((d.admitted ≡ false)
            × (¬ IsOpen R config policy email_id now clock s)
            × (after ≡ s)
            × (now < d.next_available_at)))

-- A call always returns a decision. Either it admits the email, and the email holds a reservation or
-- the hour's count is below the limit, and the time before which the sender may not send is not
-- ahead; or it does not, one of these fails, no key changes, and a later time is named.
pub reserve-Decides :
    (R : Redis) (config : RateConfig) (policy : SenderPolicy) (email_id now clock : ℕ) (s : R.Store)
    → Decides R config policy email_id now clock s
reserve-Decides R config policy email_id now clock s =
    elim (reserve-cases R config policy email_id now clock s) [
      | inl r ↦ (r.decision, r.returned, inr (r.not_admitted, r.shut, r.unchanged, r.later))
      | inr a ↦ (a.decision, a.returned, inl (a.admitted, a.open_now))
    ]

-- A retry is free: an email that holds a reservation, once the sender's delay has passed, is admitted
-- whatever the hour's count is, and neither that count nor the reservation changes.
pub reserve_again :
    (R : Redis) (config : RateConfig) (policy : SenderPolicy) (email_id now clock : ℕ) (s : R.Store)
    → exists R (keys_of R config policy email_id now).reservation clock s ≡ true
    → or_zero (get R (keys_of R config policy email_id now).next clock s) ≤ now
    → let (result, after) = reserve R config policy email_id now clock s in
      let k = keys_of R config policy email_id now in
      (result
        ≡ some (record { admitted = true; next_available_at = now; existing_reservation = true }))
      × (R.entry after k.count ≡ R.entry s k.count)
      × (R.entry after k.reservation ≡ R.entry s k.reservation)
reserve_again R config policy email_id now clock s held due =
    elim (reserve-cases R config policy email_id now clock s) [
      | inl r ↦ absurd (r.shut (inl held, due))
      | inr a ↦ (
        ground (arith, a.returned, a.admitted, a.at_once, a.existing, held),
        rw held at a.count,
        rw held at a.reservation,
      )
    ]
