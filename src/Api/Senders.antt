-- ===== src/Api/Senders.antt =====
-- apps/backend/src/email/router.ts, lines 107 to 347: the routes that create and change a sender.
use abhishek_bhat2005_reachi.Base.{
  ℕ, Bool, true, false, not, ◌&&◌, ◌||◌, Option, none, some, List, Text, codes, text_eq, ◌==◌, leb,
  any, find, length, is_none, Result, ok, if◌then◌else◌,
}
use abhishek_bhat2005_reachi.Schema.{Tables, Db, Sender}
use abhishek_bhat2005_reachi.Leads.{Platform, ParsedLead, normalize_email}
use abhishek_bhat2005_reachi.Leads.Strings.{trim}
use abhishek_bhat2005_reachi.Scheduling.{CreationError}
use abhishek_bhat2005_reachi.Api.{EmailApiConfig, is_between, is_policy, http_error}

pub record CreateSenderInput : Type 0 where
  pub display_name : Text
  pub email : Text
  pub is_default : Bool
  pub hourly_limit : ℕ
  pub minimum_delay_ms : ℕ

pub record UpdateSenderInput : Type 0 where
  pub display_name : Option Text
  pub email : Option Text
  pub is_default : Option Bool
  pub is_active : Option Bool
  pub hourly_limit : Option ℕ
  pub minimum_delay_ms : Option ℕ

-- A bound on a field that may be absent.
abbrev pub if_given {ℓ} : {A : Type ℓ} → (A → Bool) → Option A → Bool
if_given p none = true
if_given p (some a) = p a

-- The value of a field, or the one that is there.
abbrev pub given_or {ℓ} : {A : Type ℓ} → Option A → A → A
given_or none a = a
given_or (some b) a = b

abbrev pub is_given_true : Option Bool → Bool
is_given_true none = false
is_given_true (some b) = b

abbrev pub is_given_false : Option Bool → Bool
is_given_false none = false
is_given_false (some b) = not b

module _ (P : Platform) (config : EmailApiConfig) where
  abbrev is_display_name : Text → Bool
  is_display_name name = is_between 1 200 (length name)

  abbrev is_address : Text → Bool
  is_address email = P.is_email email && leb (length email) 320

  -- `createSenderSchema`.
  unfoldable pub create_sender_schema : Option CreateSenderInput → Option CreateSenderInput
  create_sender_schema none = none
  create_sender_schema (some input) =
      let name = trim input.display_name in
      if is_display_name name
        && is_address input.email
        && is_policy config input.hourly_limit input.minimum_delay_ms
      then some (record input { display_name = name })
      else none

  abbrev trimmed : Option Text → Option Text
  trimmed none = none
  trimmed (some s) = some (trim s)

  -- `updateSenderSchema`.
  unfoldable pub update_sender_schema : Option UpdateSenderInput → Option UpdateSenderInput
  update_sender_schema none = none
  update_sender_schema (some input) =
      let name = trimmed input.display_name in
      if if_given is_display_name name
        && if_given is_address input.email
        && if_given (is_between 1 config.max_emails_per_hour) input.hourly_limit
        && if_given (is_between config.min_send_delay_ms config.max_send_delay_ms)
            input.minimum_delay_ms
        && not (
            is_none input.display_name
            && is_none input.email
            && is_none input.is_default
            && is_none input.is_active
            && is_none input.hourly_limit
            && is_none input.minimum_delay_ms)
      then some (record input { display_name = name })
      else none

abbrev pub sender_of : ℕ → ℕ → CreateSenderInput → ParsedLead → Sender
sender_of user new_id input normalized = record {
  id = new_id;
  user_id = user;
  display_name = input.display_name;
  email = normalized.email;
  normalized_email = normalized.normalized_email;
  is_default = input.is_default;
  is_active = true;
  hourly_limit = input.hourly_limit;
  minimum_delay_ms = input.minimum_delay_ms;
}

abbrev pub clear_default : Sender → Sender
clear_default s = record s { is_default = false }

-- What `update` writes: the given fields, and a new default is active.
abbrev pub change_sender : UpdateSenderInput → Option ParsedLead → Sender → Sender
change_sender input normalized s = record s {
  display_name = given_or input.display_name s.display_name;
  email = elim normalized [ none ↦ s.email | some n ↦ n.email ];
  normalized_email = elim normalized [ none ↦ s.normalized_email | some n ↦ n.normalized_email ];
  is_default = given_or input.is_default s.is_default;
  is_active = is_given_true input.is_default || given_or input.is_active s.is_active;
  hourly_limit = given_or input.hourly_limit s.hourly_limit;
  minimum_delay_ms = given_or input.minimum_delay_ms s.minimum_delay_ms;
}

-- The address of another sender of the user: `update` violates the unique constraint.
abbrev pub takes_address : ℕ → ℕ → Option ParsedLead → List Sender → Bool
takes_address user id none rows = false
takes_address user id (some n) rows =
    any
      (λ s. not (s.id == id) && s.user_id == user && text_eq s.normalized_email n.normalized_email)
      rows

module _ (T : Tables) where
  abbrev pub with_senders : T.senders.State → Db T → Db T
  with_senders senders db = record db { senders = senders }

  -- A new default takes the place of the others.
  unfoldable pub clear_for : Sender → Db T → T.senders.State
  clear_for s db =
      if s.is_default
      then T.senders.update_many (λ t. t.user_id == s.user_id) clear_default db.senders
      else db.senders

  -- The transaction of `POST /senders`.
  unfoldable pub create_sender : Sender → Db T → Result CreationError Sender × Db T
  create_sender s db = elim (T.senders.create s (clear_for s db)) [
    | none ↦ (http_error 409 (codes "SENDER_ALREADY_EXISTS"), db)
    | some senders ↦ (ok s, with_senders senders db)
  ]

  -- The writes of `PATCH /senders/:senderId`.
  unfoldable pub update_sender :
      ℕ
      → ℕ
      → UpdateSenderInput
      → Option ParsedLead
      → Sender
      → Db T
      → Result CreationError Sender × Db T
  update_sender user id input normalized current db =
      let cleared =
        if is_given_true input.is_default
        then T.senders.update_many (λ s. s.user_id == user && not (s.id == id)) clear_default
            db.senders
        else db.senders in
      if takes_address user id normalized (T.senders.rows db.senders)
      then (http_error 409 (codes "SENDER_ALREADY_EXISTS"), db)
      else (
        ok (change_sender input normalized current),
        with_senders
            (T.senders.update_many (λ s. s.id == id) (change_sender input normalized) cleared) db,
      )

module _ (T : Tables) (P : Platform) (config : EmailApiConfig) where
  -- `POST /senders`, for an authenticated user.
  unfoldable pub post_senders :
      ℕ → ℕ → Option CreateSenderInput → Db T → Result CreationError Sender × Db T
  post_senders user new_id body db = elim (create_sender_schema P config body) [
    | none ↦ (http_error 400 (codes "VALIDATION_ERROR"), db)
    | some input ↦ elim (normalize_email P input.email) [
      | none ↦ (http_error 400 (codes "VALIDATION_ERROR"), db)
      | some normalized ↦ create_sender T (sender_of user new_id input normalized) db
    ]
  ]

  -- From the checks on: the address is normalized, and the row written.
  unfoldable pub patch_current :
      ℕ → ℕ → UpdateSenderInput → Sender → Db T → Result CreationError Sender × Db T
  patch_current user id input current db =
      if current.is_default && (is_given_false input.is_active || is_given_false input.is_default)
      then (http_error 409 (codes "DEFAULT_SENDER_REQUIRED"), db)
      else if is_given_true input.is_default && is_given_false input.is_active
      then (http_error 400 (codes "VALIDATION_ERROR"), db)
      else elim input.email [
        | none ↦ update_sender T user id input none current db
        | some email ↦ elim (normalize_email P email) [
          | none ↦ (http_error 400 (codes "VALIDATION_ERROR"), db)
          | some normalized ↦ update_sender T user id input (some normalized) current db
        ]
      ]

  -- `PATCH /senders/:senderId`, for an authenticated user and an id that is a UUID.
  unfoldable pub patch_senders :
      ℕ → ℕ → Option UpdateSenderInput → Db T → Result CreationError Sender × Db T
  patch_senders user id body db = elim (update_sender_schema P config body) [
    | none ↦ (http_error 400 (codes "VALIDATION_ERROR"), db)
    | some input ↦ elim (find (λ s. s.id == id && s.user_id == user) (T.senders.rows db.senders)) [
      | none ↦ (http_error 404 (codes "SENDER_NOT_FOUND"), db)
      | some current ↦ patch_current user id input current db
    ]
  ]
