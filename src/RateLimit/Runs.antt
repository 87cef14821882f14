-- ===== src/RateLimit/Runs.antt =====
-- Any sequence of reservations for one sender: how many emails an hour admits, and how far apart
-- two admissions are. Each call has the worker's time, `now`, and the server's, `clock`.
use abhishek_bhat2005_reachi.RateLimit.Decisions.{reserve-cases, keys_of, window-end, Admits}
use abhishek_bhat2005_reachi.RateLimit.Keys.{count_key, next_key, keys-count, keys-next}
use abhishek_bhat2005_reachi.Base.{
  ℕ, ◌+◌, ◌≤◌, ◌<◌, ◌≡◌, Bool, true, false, not, ◌&&◌, List, [], ◌∷◌, Option, none, some,
  if◌then◌else◌, inl, inr, Text, arith, ◌∙◌, ap, zero-add, Bool-cases, All, ◌⊎◌, refl,
}
use abhishek_bhat2005_reachi.RateLimit.Server.{Redis}
use abhishek_bhat2005_reachi.RateLimit.{
  RateConfig, SenderPolicy, RateLimitDecision, hour_window, reserve, hour_milliseconds, or_zero,
  get, exists,
}

pub record Call : Type 0 where
  pub hourly_limit : ℕ
  pub minimum_delay_ms : ℕ
  pub email_id : ℕ
  pub now : ℕ
  pub clock : ℕ

-- Admitted on a new reservation, or on one that the email already had.
abbrev pub is_fresh : Option RateLimitDecision → Bool
is_fresh none = false
is_fresh (some d) = d.admitted && not d.existing_reservation

abbrev pub is_admitted : Option RateLimitDecision → Bool
is_admitted none = false
is_admitted (some d) = d.admitted

module _ (R : Redis) (config : RateConfig) (sender_id : ℕ) where
  abbrev pub policy_of : Call → SenderPolicy
  policy_of c = record {
    sender_id = sender_id;
    hourly_limit = c.hourly_limit;
    minimum_delay_ms = c.minimum_delay_ms;
  }

  abbrev pub reserve_call : Call → R.Store → Option RateLimitDecision × R.Store
  reserve_call c s = reserve R config (policy_of c) c.email_id c.now c.clock s

  -- How many of the calls, made in order, are admitted on a new reservation.
  unfoldable pub fresh_admissions : List Call → R.Store → ℕ
  fresh_admissions [] s = 0
  fresh_admissions (c ∷ cs) s =
      (if is_fresh (reserve_call c s).0 then 1 else 0) + fresh_admissions cs (reserve_call c s).1

  -- The times of the calls that are admitted, of those made in order.
  unfoldable pub admitted_times : List Call → R.Store → List ℕ
  admitted_times [] s = []
  admitted_times (c ∷ cs) s =
      let rest = admitted_times cs (reserve_call c s).1 in
      if is_admitted (reserve_call c s).0 then c.now ∷ rest else rest

  -- A call in the hour that begins at `start`, with a limit of at most `limit`, made before the
  -- count of that hour expires.
  pub record InHour (start limit : ℕ) (c : Call) : Type 0 where
    pub window : (hour_window c.now).start ≡ start
    pub limited : c.hourly_limit ≤ limit
    pub in_time : c.clock < start + hour_milliseconds + config.rate_limit_reservation_ttl_ms

  -- The count of the hour is `n`, until it expires.
  pub record CountIs (start n : ℕ) (s : R.Store) : Type 0 where
    pub at :
        (t : ℕ)
        → t < start + hour_milliseconds + config.rate_limit_reservation_ttl_ms
        → or_zero (get R (count_key config sender_id start) t s) ≡ n

  -- The time before which the sender may not send is at least `bound`, from `since` until `until`.
  pub record NextFrom (bound since until : ℕ) (s : R.Store) : Type 0 where
    pub at :
        (t : ℕ) → since ≤ t → t < until → bound ≤ or_zero (get R (next_key config sender_id) t s)

  -- What a read finds of an entry that expires at `until`.
  read_before :
      (k : Text) (v until t : ℕ) (s : R.Store)
      → R.entry s k ≡ some (record { value = v; expires_at = some until })
      → t < until
      → or_zero (get R k t s) ≡ v
  read_before k v until t s e h = ground arith

  read_same :
      (k : Text) (t : ℕ) (s s' : R.Store)
      → R.entry s' k ≡ R.entry s k
      → or_zero (get R k t s') ≡ or_zero (get R k t s)
  read_same k t s s' e = rw e

  module _ (start limit n : ℕ) (c : Call) (s : R.Store) (h : InHour start limit c)
      (v : CountIs start n s) where
    abbrev count_now : Text
    count_now = (keys_of R config (policy_of c) c.email_id c.now).count

    count_now-eq : count_now ≡ count_key config sender_id start
    count_now-eq =
        keys-count config sender_id (config.uuid_text c.email_id) (hour_window c.now).start
        ∙ ap (count_key config sender_id) h.window

    count_before : or_zero (get R count_now c.clock s) ≡ n
    count_before = rw count_now-eq (v.at c.clock h.in_time)

    abbrev fresh : ℕ
    fresh = if is_fresh (reserve_call c s).0 then 1 else 0

    step-CountIs : n ≤ limit → CountIs start (fresh + n) (reserve_call c s).1 × (fresh + n ≤ limit)
    step-CountIs le = elim (reserve-cases R config (policy_of c) c.email_id c.now c.clock s) [
      | inl r ↦ rw (r.unchanged, r.returned, r.not_admitted) (rw zero-add (v, le))
      | inr a ↦
          elim (Bool-cases
            (exists R (keys_of R config (policy_of c) c.email_id c.now).reservation c.clock s)) [
              | inl held ↦
                  rw (a.returned, a.admitted, a.existing, held)
                    (rw zero-add (
                      record {
                        at = λ t q. rw (← count_now-eq) (
                            read_same count_now t s _ (rw held at a.count)
                            ∙ rw count_now-eq (v.at t q));
                      },
                      le,
                    ))
              | inr new ↦
                  rw (a.returned, a.admitted, a.existing, new)
                    (
                      record {
                        at = λ t q. rw (← count_now-eq) (
                            omega (
                              arith,
                              read_before count_now _ _ t (reserve_call c s).1 (rw new at a.count)
                                  (omega (arith, window-end c.now, h.window)),
                              count_before,
                            ));
                      },
                      ground (arith, count_before, h.limited),
                    )
            ]
    ]

  module _ (start limit : ℕ) where
    fresh_admissions-le :
        (cs : List Call) (s : R.Store) (n : ℕ)
        → All (InHour start limit) cs
        → CountIs start n s
        → n ≤ limit
        → fresh_admissions cs s + n ≤ limit
    unfolding fresh_admissions
    fresh_admissions-le [] s n h v le = omega arith
    fresh_admissions-le (c ∷ cs) s n h v le =
        let (v', le') = step-CountIs start limit n c s h.0 v le in
        omega (
          arith,
          fresh_admissions-le cs (reserve_call c s).1 (fresh start limit n c s h.0 v + n) h.1 v'
              le',
        )

  -- A call made in the time of the server from `since` on, before `until`.
  pub record IsWithin (since until : ℕ) (c : Call) : Type 0 where
    pub from : since ≤ c.clock
    pub before : c.clock < until

  module _ (bound since : ℕ) where
    abbrev until : ℕ
    until = since + config.rate_limit_reservation_ttl_ms

    module _ (c : Call) (s : R.Store) where
      abbrev next_now : Text
      next_now = (keys_of R config (policy_of c) c.email_id c.now).next

      next_now-eq : next_now ≡ next_key config sender_id
      next_now-eq =
          keys-next config sender_id (config.uuid_text c.email_id) (hour_window c.now).start

      next_before :
          NextFrom bound since until s
          → IsWithin since until c
          → bound ≤ or_zero (get R next_now c.clock s)
      next_before v h = rw next_now-eq (v.at c.clock h.from h.before)

      -- An admitted call moves the time on, and keeps it for as long as a reservation lasts.
      admitted-NextFrom :
          (b : ℕ)
          → Admits R config (policy_of c) c.email_id c.now c.clock s
          → b ≤ c.now + c.minimum_delay_ms
          → since ≤ c.clock
          → NextFrom b since until (reserve_call c s).1
      admitted-NextFrom b a le from = record {
        at = λ t _ q.
            rw (← next_now-eq)
              (omega (arith, read_before next_now _ _ t (reserve_call c s).1 a.next (omega arith)));
      }

      step-NextFrom :
          NextFrom bound since until s
          → IsWithin since until c
          → ((is_admitted (reserve_call c s).0 ≡ false) ⊎ (bound ≤ c.now))
            × NextFrom bound since until (reserve_call c s).1
      step-NextFrom v h = elim (reserve-cases R config (policy_of c) c.email_id c.now c.clock s) [
        | inl r ↦ rw (r.unchanged, r.returned, r.not_admitted) (inl refl, v)
        | inr a ↦
            let due : bound ≤ c.now = omega (arith, next_before v h, a.open_now.1) in
            (inr due, admitted-NextFrom bound a (omega arith) h.from)
      ]

    admitted_times-from :
        (cs : List Call) (s : R.Store)
        → NextFrom bound since until s
        → All (IsWithin since until) cs
        → All (◌≤◌ bound) (admitted_times cs s)
    unfolding admitted_times
    admitted_times-from [] s v h = tt
    admitted_times-from (c ∷ cs) s v h =
        let (due, v') = step-NextFrom c s v h.0 in
        ground (arith, due, admitted_times-from cs (reserve_call c s).1 v' h.1)

-- However many calls are made for one sender in one hour, each with at most `limit` as its hourly
-- limit, the emails that they newly admit and those already counted are no more than `limit`.
pub quota_respected :
    (R : Redis) (config : RateConfig) (sender_id start limit : ℕ) (cs : List Call) (s : R.Store)
    (n : ℕ)
    → All (InHour R config sender_id start limit) cs
    → CountIs R config sender_id start n s
    → n ≤ limit
    → fresh_admissions R config sender_id cs s + n ≤ limit
quota_respected R config sender_id start limit = fresh_admissions-le R config sender_id start limit

-- Once a call is admitted, every later call for the sender that is admitted while the reservation
-- lasts has a time of at least the admitted one's plus its minimum delay.
pub spacing_respected :
    (R : Redis) (config : RateConfig) (sender_id : ℕ) (c : Call) (cs : List Call) (s : R.Store)
    → is_admitted (reserve_call R config sender_id c s).0 ≡ true
    → All (IsWithin R config sender_id c.clock (c.clock + config.rate_limit_reservation_ttl_ms)) cs
    → All
        (◌≤◌ (c.now + c.minimum_delay_ms))
        (admitted_times R config sender_id cs (reserve_call R config sender_id c s).1)
spacing_respected R config sender_id c cs s e h =
    elim (reserve-cases R config (policy_of R config sender_id c) c.email_id c.now c.clock s) [
      | inl r ↦ absurd (ground arith)
      | inr a ↦
          admitted_times-from R config sender_id (c.now + c.minimum_delay_ms) c.clock cs _
            (admitted-NextFrom R config sender_id (c.now + c.minimum_delay_ms) c.clock c s
              (c.now + c.minimum_delay_ms) a (omega arith) (omega arith))
            h
    ]
