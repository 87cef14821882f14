-- ===== src/RateSeed.antt =====
-- apps/backend/src/worker/rate-seed.ts: a starting worker seeds the keys of every active sender with
-- what the database says of the current hour. `clock` is the server's time at each sender's turn.
mod Examples
use abhishek_bhat2005_reachi.Base.{
  ℕ, ◌+◌, ◌≤◌, ◌≡◌, Bool, true, false, ◌&&◌, Option, none, some, List, [], ◌∷◌, ◌==◌, leb, keep,
  count, length, if◌then◌else◌, max, All,
}
use abhishek_bhat2005_reachi.Schema.{Tables, Db, Email, Sender}
use abhishek_bhat2005_reachi.RateLimit.Server.{Redis, exists}
use abhishek_bhat2005_reachi.RateLimit.Keys.{count_key}
use abhishek_bhat2005_reachi.RateLimit.Runs.{Call, InHour, fresh_admissions}
use abhishek_bhat2005_reachi.RateLimit.Seeding.{seeded_quota_respected}
use abhishek_bhat2005_reachi.RateLimit.{
  RateConfig, SenderPolicy, seed, current_hour_start, hour_window,
}
use abhishek_bhat2005_reachi.Worker.Outcomes.{is_sent}

-- The `where` of the aggregate: sent by the sender between two times, both included.
abbrev pub sent_between : ℕ → ℕ → Option ℕ → Bool
sent_between from to none = false
sent_between from to (some t) = leb from t && leb t to

abbrev pub is_accepted : ℕ → ℕ → ℕ → Email → Bool
is_accepted sender_id from to e =
    e.sender_id == sender_id && is_sent e.status && sent_between from to e.sent_at

-- `_max: { sentAt: true }`: null if there is no row.
abbrev pub later : Option ℕ → Option ℕ → Option ℕ
later none o = o
later (some s) none = some s
later (some s) (some t) = some (max s t)

unfoldable pub last_sent : List Email → Option ℕ
last_sent [] = none
last_sent (e ∷ es) = later e.sent_at (last_sent es)

module _ (T : Tables) (R : Redis) (config : RateConfig) where
  abbrev pub accepted_rows : ℕ → ℕ → Db T → List Email
  accepted_rows sender_id now db =
      keep (is_accepted sender_id (current_hour_start now) now) (T.emails.rows db.emails)

  abbrev pub policy_of : Sender → SenderPolicy
  policy_of s = record {
    sender_id = s.id;
    hourly_limit = s.hourly_limit;
    minimum_delay_ms = s.minimum_delay_ms;
  }

  -- One turn of the loop.
  unfoldable pub seed_sender : Db T → ℕ → ℕ → Sender → R.Store → R.Store
  unfolding last_sent
  seed_sender db now clock sender store =
      let accepted = accepted_rows sender.id now db in
      seed R config (policy_of sender) (length accepted) (last_sent accepted) now clock store

  seed_senders : Db T → ℕ → (ℕ → ℕ) → List Sender → R.Store → R.Store
  unfolding seed_sender
  seed_senders db now clock [] store = store
  seed_senders db now clock (sender ∷ rest) store =
      seed_senders db now clock rest (seed_sender db now (clock sender.id) sender store)

  -- `seedSenderRateLimits`: how many senders there were, and the keys.
  unfoldable pub seed_sender_rate_limits : Db T → ℕ → (ℕ → ℕ) → R.Store → ℕ × R.Store
  unfolding seed_senders
  seed_sender_rate_limits db now clock store =
      let senders = keep (λ s. s.is_active) (T.senders.rows db.senders) in
      (length senders, seed_senders db now clock senders store)

-- The hourly limit survives the loss of the keys: when the count of a sender's hour is missing and
-- the sender's turn of the loop comes with clocks that agree, the emails that the database has as
-- sent in the hour, if they are within the limit, and those that later calls of the hour newly admit
-- do not exceed it together.
pub seed_sender-quota :
    (T : Tables) (R : Redis) (config : RateConfig) (db : Db T) (sender : Sender) (now limit : ℕ)
    (s : R.Store) (cs : List Call)
    → exists R (count_key config sender.id (hour_window now).start) now s ≡ false
    → length (accepted_rows T R config sender.id now db) ≤ limit
    → All (InHour R config sender.id (hour_window now).start limit) cs
    → fresh_admissions R config sender.id cs (seed_sender T R config db now now sender s)
        + length (accepted_rows T R config sender.id now db)
      ≤ limit
unfolding seed_sender
seed_sender-quota T R config db sender now limit s cs =
    seeded_quota_respected R config (policy_of T R config sender)
      (length (accepted_rows T R config sender.id now db)) limit
      (last_sent (accepted_rows T R config sender.id now db)) now s cs
