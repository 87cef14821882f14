-- ===== src/Session.antt =====
-- apps/backend/src/auth: redis-session-store.ts, the callbacks of passport.ts and the routes of router.ts
-- that answer themselves. Redis keeps texts here; the JSON of a session, and what passport does at a
-- logout, are parameters.
pub mod Store
mod Examples
use abhishek_bhat2005_reachi.Base.{
  ℕ, ◌+◌, ◌-◌, ◌≡◌, refl, max, Bool, true, false, Option, none, some, List, ◌++◌, Text, codes,
  text_eq, ltb, Result, ok, err, if◌then◌else◌, [],
}
use abhishek_bhat2005_reachi.Schema.{Tables, Db}
use abhishek_bhat2005_reachi.GoogleUser.{
  AuthenticatedUser, Profile, SenderDefaults, find_authenticated_user, normalize_google_profile,
  upsert_google_user,
}
use abhishek_bhat2005_reachi.Http.{Failure, Answer, require_auth, error_handler}

pub record TextEntry : Type 0 where
  pub value : Text
  pub expires_at : ℕ

-- What a read at `clock` finds of an entry.
abbrev pub live_text : ℕ → Option TextEntry → Option Text
live_text clock none = none
live_text clock (some e) = if ltb clock e.expires_at then some e.value else none

-- The entry that `PEXPIRE` leaves.
abbrev pub renewed_entry : ℕ → ℕ → Option TextEntry → Option TextEntry
renewed_entry ttl clock none = none
renewed_entry ttl clock (some e) =
    if ltb clock e.expires_at then some (record e { expires_at = clock + ttl }) else none

-- The commands of Redis that the store uses; every key has a time of expiry.
pub record SessionRedis : Type 1 where
  pub Keys : Type 0
  pub entry : Keys → Text → Option TextEntry
  -- PSETEX key ttl value
  pub psetex : Text → ℕ → Text → ℕ → Keys → Keys
  -- DEL key
  pub del : Text → Keys → Keys
  -- PEXPIRE key ttl
  pub pexpire : Text → ℕ → ℕ → Keys → Keys
  pub entry-psetex :
      (k : Text) (ttl : ℕ) (v : Text) (clock : ℕ) (s : Keys) (j : Text)
      → entry (psetex k ttl v clock s) j
        ≡ (if text_eq k j then some (record { value = v; expires_at = clock + ttl }) else entry s j)
  pub entry-del :
      (k : Text) (s : Keys) (j : Text)
      → entry (del k s) j ≡ (if text_eq k j then none else entry s j)
  pub entry-pexpire :
      (k : Text) (ttl clock : ℕ) (s : Keys) (j : Text)
      → entry (pexpire k ttl clock s) j
        ≡ (if text_eq k j then renewed_entry ttl clock (entry s j) else entry s j)

-- The data of a session: the expiry of its cookie, the id of its user, and the rest.
pub record SessionData : Type 0 where
  pub expires : Option ℕ
  pub user : Option ℕ
  pub rest : Text

-- `JSON.stringify` of a session, and `JSON.parse` with `storedSessionSchema`.
pub record SessionJson : Type 0 where
  pub stringify : SessionData → Text
  pub parse : Text → Option SessionData

pub record StoreConfig : Type 0 where
  pub key_prefix : Text
  pub default_ttl_ms : ℕ

-- The ways in which a method of the store fails: Redis does, or the stored text is no session.
pub data StoreError : Type 0 where
  redis_failed invalid_session : StoreError

abbrev pub key : StoreConfig → Text → Text
key config session_id = config.key_prefix ++ session_id

abbrev pub ttl_ms : StoreConfig → SessionData → (now : ℕ) → ℕ
ttl_ms config session now = elim session.expires [
  | none ↦ config.default_ttl_ms
  | some t ↦ max (t - now) 1
]

-- The session of a stored text.
abbrev pub session_of : SessionJson → Option Text → Result StoreError (Option SessionData)
session_of J none = ok none
session_of J (some stored) = elim (J.parse stored) [
  | none ↦ err invalid_session
  | some session ↦ ok (some session)
]

-- The methods, at a time, with whether Redis answers.
module _ (R : SessionRedis) (J : SessionJson) (config : StoreConfig) where
  unfoldable pub get :
      (session_id : Text) (clock : ℕ) (answers : Bool)
      → R.Keys
      → Result StoreError (Option SessionData)
  get session_id clock false keys = err redis_failed
  get session_id clock true keys =
      session_of J (live_text clock (R.entry keys (key config session_id)))

  unfoldable pub set :
      (session_id : Text)
      → SessionData
      → (clock : ℕ) (answers : Bool) → R.Keys
      → Result StoreError Unit × R.Keys
  set session_id session clock false keys = (err redis_failed, keys)
  set session_id session clock true keys = (
    ok tt,
    R.psetex (key config session_id) (ttl_ms config session clock) (J.stringify session) clock keys,
  )

  unfoldable pub destroy :
      (session_id : Text) (answers : Bool) → R.Keys → Result StoreError Unit × R.Keys
  destroy session_id false keys = (err redis_failed, keys)
  destroy session_id true keys = (ok tt, R.del (key config session_id) keys)

  unfoldable pub touch :
      (session_id : Text)
      → SessionData
      → (clock : ℕ) (answers : Bool) → R.Keys
      → Result StoreError Unit × R.Keys
  touch session_id session clock false keys = (err redis_failed, keys)
  touch session_id session clock true keys =
      (ok tt, R.pexpire (key config session_id) (ttl_ms config session clock) clock keys)

-- `deserializeUser`; the lookup may fail.
unfoldable pub deserialize_user :
    (T : Tables) → (user_id : ℕ) (answers : Bool) → Db T → Result Failure (Option AuthenticatedUser)
deserialize_user T user_id false db =
    err (Failure.error_failure (codes "Error") (codes "Failed to deserialize user"))
deserialize_user T user_id true db = ok (find_authenticated_user T user_id db)

-- The callback of the Google strategy, with the ids of new rows; `none` is its error.
unfoldable pub verify_profile :
    (T : Tables)
    → Profile
    → SenderDefaults
    → (new_user new_sender now : ℕ) → Db T
    → Option (AuthenticatedUser × Db T)
verify_profile T profile defaults new_user new_sender now db =
    elim (normalize_google_profile profile) [
      | none ↦ none
      | some identity ↦ upsert_google_user T identity defaults new_user new_sender now db
    ]

-- `GET /me`.
unfoldable pub get_me : Option AuthenticatedUser → Answer AuthenticatedUser
get_me user = require_auth user (λ u. Answer.sent u)

-- `request.logout` of passport 0.7, which regenerates the session: whether it fails, the id that
-- `request.session` has then, and the keys after what it does to the store.
pub record LoggedOut (R : SessionRedis) : Type 0 where
  pub outcome : Result Failure Unit
  pub new_id : Text
  pub keys : R.Keys

abbrev pub Logout : SessionRedis → Type 0
Logout R = (session_id : Text) → R.Keys → LoggedOut R

-- `POST /logout`: the answer 204 or an error, and the keys after it.
module _ (R : SessionRedis) (J : SessionJson) (config : StoreConfig) where
  abbrev pub after_destroy : Result StoreError Unit × R.Keys → Answer ℕ × R.Keys
  after_destroy (ok done, keys) = (Answer.sent 204, keys)
  after_destroy (err e, keys) =
      (Answer.refused (error_handler (Failure.error_failure (codes "Error") [])), keys)

  -- `request.session.destroy`, of the session that `request` has then.
  abbrev pub after_logout : (answers : Bool) → LoggedOut R → Answer ℕ × R.Keys
  after_logout answers left = elim left.outcome [
    | err e ↦ (Answer.refused (error_handler e), left.keys)
    | ok done ↦ after_destroy (destroy R J config left.new_id answers left.keys)
  ]

  unfoldable pub post_logout :
      Option AuthenticatedUser
      → Logout R
      → (session_id : Text) (answers : Bool) → R.Keys
      → Answer ℕ × R.Keys
  post_logout none log_out session_id answers keys =
      (require_auth {User = AuthenticatedUser} none (λ u. Answer.sent 204), keys)
  post_logout (some user) log_out session_id answers keys =
      after_logout answers (log_out session_id keys)
