-- ===== src/RateLimit/Seeding.antt =====
-- `seed`, which the worker runs for every active sender when it starts: what it writes, and the
-- hourly limit after the keys were lost.
use abhishek_bhat2005_reachi.Base.{
  ℕ, ◌+◌, ◌-◌, ◌≤◌, ◌≡◌, false, not, ◌&&◌, List, Option, some, text_eq_refl, arith, ltb,
  if◌then◌else◌, Bool-cases, inl, inr, All, codes, refl, ◌∙◌,
}
use abhishek_bhat2005_reachi.RateLimit.Server.{Redis, exists}
use abhishek_bhat2005_reachi.RateLimit.Keys.{
  AreApart, keys-AreApart, count_key, next_key, keys-count, keys-next,
}
use abhishek_bhat2005_reachi.RateLimit.Decisions.{window-end}
use abhishek_bhat2005_reachi.RateLimit.Runs.{Call, InHour, fresh_admissions, quota_respected}
use abhishek_bhat2005_reachi.RateLimit.{
  RateConfig, RateKeys, SenderPolicy, keys, or_zero, seed, seed_count, seed_next, seed_script,
  hour_window, hour_milliseconds,
}

module _ (R : Redis) (k : RateKeys) (apart : AreApart k) (accepted last delay ttl clock : ℕ)
    (s : R.Store) where
  abbrev seeded : R.Store
  seeded = seed_script R k accepted last delay ttl clock s

  count-seed_next :
      (t : R.Store) → R.entry (seed_next R k last delay ttl clock t) k.count ≡ R.entry t k.count
  unfolding seed_next
  count-seed_next t = elim (Bool-cases (ltb 0 last && not (exists R k.next clock t))) [
    | inl missing ↦ rw (missing, seed_next) (simp (R.entry-set_px, apart.next_count))
    | inr there ↦ rw (there, seed_next) refl
  ]

  next-seed_next :
      (t : R.Store)
      → R.entry (seed_next R k last delay ttl clock t) k.next ≡ (
          if ltb 0 last && not (exists R k.next clock t)
          then some (record { value = last + delay; expires_at = some (clock + ttl) })
          else R.entry t k.next)
  unfolding seed_next
  next-seed_next t = elim (Bool-cases (ltb 0 last && not (exists R k.next clock t))) [
    | inl missing ↦ rw (missing, seed_next) (simp (R.entry-set_px, text_eq_refl))
    | inr there ↦ rw (there, seed_next) refl
  ]

  count-seed_count : R.entry (seed_count R k accepted ttl clock s) k.count ≡ (
      if exists R k.count clock s
      then R.entry s k.count
      else some (record { value = accepted; expires_at = some (clock + ttl) }))
  unfolding seed_count
  count-seed_count = elim (Bool-cases (exists R k.count clock s)) [
    | inr missing ↦ rw (missing, seed_count) (simp (R.entry-set_px, text_eq_refl))
    | inl there ↦ rw (there, seed_count) refl
  ]

  next-seed_count : R.entry (seed_count R k accepted ttl clock s) k.next ≡ R.entry s k.next
  unfolding seed_count
  next-seed_count = elim (Bool-cases (exists R k.count clock s)) [
    | inr missing ↦ rw (missing, seed_count) (simp (R.entry-set_px, apart.count_next))
    | inl there ↦ rw (there, seed_count) refl
  ]

  seed_script-count : R.entry seeded k.count ≡ (
      if exists R k.count clock s
      then R.entry s k.count
      else some (record { value = accepted; expires_at = some (clock + ttl) }))
  unfolding seed_script
  seed_script-count = count-seed_next (seed_count R k accepted ttl clock s) ∙ count-seed_count

  seed_script-next : R.entry seeded k.next ≡ (
      if ltb 0 last && not (exists R k.next clock s)
      then some (record { value = last + delay; expires_at = some (clock + ttl) })
      else R.entry s k.next)
  unfolding seed_script
  seed_script-next =
      rw (next-seed_next (seed_count R k accepted ttl clock s)) (rw next-seed_count refl)

-- The two keys after a seed.
abbrev pub Seeds :
    (R : Redis)
    → RateConfig
    → SenderPolicy
    → (accepted : ℕ) (last : Option ℕ) (now clock : ℕ) → R.Store
    → Type 0
Seeds R config policy accepted last now clock s =
    let hour = hour_window now in
    let expiry = clock + (hour.end - now + config.rate_limit_reservation_ttl_ms) in
    let count = count_key config policy.sender_id hour.start in
    let next = next_key config policy.sender_id in
    let t = seed R config policy accepted last now clock s in
    (R.entry t count ≡ (
      if exists R count clock s
      then R.entry s count
      else some (record { value = accepted; expires_at = some expiry })))
    × (R.entry t next ≡ (
        if ltb 0 (or_zero last) && not (exists R next clock s)
        then some
            (record { value = or_zero last + policy.minimum_delay_ms; expires_at = some expiry })
        else R.entry s next))

-- `seed` writes only what is missing: the count of the hour becomes the number of emails that were
-- accepted in it unless it is there, and the time of the next email becomes the last acceptance plus
-- the minimum delay, unless it is there or nothing was accepted.
pub seed-keys :
    (R : Redis) (config : RateConfig) (policy : SenderPolicy) (accepted : ℕ) (last : Option ℕ)
    (now clock : ℕ) (s : R.Store)
    → Seeds R config policy accepted last now clock s
unfolding seed
seed-keys R config policy accepted last now clock s =
    let hour = hour_window now in
    let k = keys config policy.sender_id (codes "seed") hour.start in
    let apart = keys-AreApart config policy.sender_id (codes "seed") hour.start in
    let ttl = hour.end - now + config.rate_limit_reservation_ttl_ms in
    (
      rw (← keys-count config policy.sender_id (codes "seed") hour.start)
          (seed_script-count R k apart accepted (or_zero last) policy.minimum_delay_ms ttl clock s),
      rw (← keys-next config policy.sender_id (codes "seed") hour.start)
          (seed_script-next R k apart accepted (or_zero last) policy.minimum_delay_ms ttl clock s),
    )

hour-contains : (now : ℕ) → now ≤ (hour_window now).start + hour_milliseconds
unfolding hour_window
hour-contains now = omega arith

-- After the keys were lost, a seed restores the limit: when the count of an hour is missing and a
-- worker whose clock agrees with the server's seeds it with the number of emails that were accepted
-- in the hour, those and the ones that later calls of the hour newly admit do not exceed the limit.
pub seeded_quota_respected :
    (R : Redis) (config : RateConfig) (policy : SenderPolicy) (accepted limit : ℕ) (last : Option ℕ)
    (now : ℕ) (s : R.Store) (cs : List Call)
    → exists R (count_key config policy.sender_id (hour_window now).start) now s ≡ false
    → accepted ≤ limit
    → All (InHour R config policy.sender_id (hour_window now).start limit) cs
    → fresh_admissions R config policy.sender_id cs (seed R config policy accepted last now now s)
        + accepted
      ≤ limit
seeded_quota_respected R config policy accepted limit last now s cs lost few calls =
    let entry = (seed-keys R config policy accepted last now now s).0 in
    quota_respected R config policy.sender_id (hour_window now).start limit cs _ accepted calls
      (record {
        at = λ t early. rw (entry, lost) (ground (arith, window-end now, hour-contains now));
      })
      few
