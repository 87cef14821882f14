-- ===== src/RateLimit/Server.antt =====
-- What apps/backend/src/rate-limit/sender-rate-limiter.ts uses of Redis, which is not part of this
-- repository: the effect of each command on the keys. A key has a value and a time from which it is
-- gone. A script runs at one time of the server, `clock`.
use abhishek_bhat2005_reachi.Base.{
  ℕ, ◌+◌, ◌≡◌, refl, Bool, Option, none, some, Text, text_eq, ltb, if◌then◌else◌, not, is_none,
}

pub record Entry : Type 0 where
  pub value : ℕ
  pub expires_at : Option ℕ

abbrev pub is_live : ℕ → Entry → Bool
is_live clock e = elim e.expires_at [ none ↦ Bool.true | some t ↦ ltb clock t ]

-- What a read at `clock` finds of an entry.
abbrev pub live : ℕ → Option Entry → Option Entry
live clock none = none
live clock (some e) = if is_live clock e then some e else none

-- The entry that `INCR` leaves: it starts from 0, and keeps the time of expiry.
abbrev pub incremented : Option Entry → Entry
incremented none = record { value = 1; expires_at = none }
incremented (some e) = record e { value = e.value + 1 }

-- The entry that `PEXPIREAT` leaves.
abbrev pub expiring : ℕ → Option Entry → Option Entry
expiring t none = none
expiring t (some e) = some (record e { expires_at = some t })

-- `entry` is the entry of a key, also if its time is over.
pub record Redis : Type 1 where
  pub Store : Type 0
  pub entry : Store → Text → Option Entry
  -- SET key value PX ttl
  pub set_px : Text → ℕ → ℕ → ℕ → Store → Store
  -- INCR key
  pub incr : Text → ℕ → Store → Store
  -- PEXPIREAT key time
  pub pexpireat : Text → ℕ → ℕ → Store → Store
  pub entry-set_px :
      (k : Text) (v ttl clock : ℕ) (s : Store) (j : Text)
      → entry (set_px k v ttl clock s) j ≡ (
          if text_eq k j
          then some (record { value = v; expires_at = some (clock + ttl) })
          else entry s j)
  pub entry-incr :
      (k : Text) (clock : ℕ) (s : Store) (j : Text)
      → entry (incr k clock s) j
        ≡ (if text_eq k j then some (incremented (live clock (entry s k))) else entry s j)
  pub entry-pexpireat :
      (k : Text) (t clock : ℕ) (s : Store) (j : Text)
      → entry (pexpireat k t clock s) j
        ≡ (if text_eq k j then expiring t (live clock (entry s k)) else entry s j)

abbrev pub value_of : Option Entry → Option ℕ
value_of none = none
value_of (some e) = some e.value

-- GET and EXISTS.
module _ (R : Redis) where
  abbrev pub get : Text → ℕ → R.Store → Option ℕ
  get k clock s = value_of (live clock (R.entry s k))

  abbrev pub exists : Text → ℕ → R.Store → Bool
  exists k clock s = not (is_none (live clock (R.entry s k)))

-- A server whose keys are a function.
abbrev pub function_redis : Redis
function_redis = record {
  Store = Text → Option Entry;
  entry = λ s k. s k;
  set_px = λ k v ttl clock s j.
      if text_eq k j then some (record { value = v; expires_at = some (clock + ttl) }) else s j;
  incr = λ k clock s j. if text_eq k j then some (incremented (live clock (s k))) else s j;
  pexpireat = λ k t clock s j. if text_eq k j then expiring t (live clock (s k)) else s j;
  entry-set_px = λ k v ttl clock s j. refl;
  entry-incr = λ k clock s j. refl;
  entry-pexpireat = λ k t clock s j. refl;
}
