-- ===== src/GoogleUser.antt =====
-- apps/backend/src/auth: google-profile.ts and google-user.ts. What Google says of an account is the
-- argument; the random UUIDs of new rows are arguments too. An exception is
-- `none`. `to_lower_case` changes the ASCII letters alone.
pub mod Logins
pub mod Accounts
mod Examples
use abhishek_bhat2005_reachi.Base.{
  ℕ, ◌+◌, ◌≤◌, ◌≡◌, refl, Bool, true, false, not, ◌&&◌, ◌||◌, Option, none, some, List, [], ◌∷◌,
  ◌++◌, Text, text_eq, ◌==◌, any, find, count, length, if◌then◌else◌,
}
use abhishek_bhat2005_reachi.Schema.{Tables, Db, User, Sender}
use abhishek_bhat2005_reachi.Leads.Strings.{trim, to_lower_case, split_on}

-- An entry of `profile.emails`; `verified` may be absent.
pub record ProfileEmail : Type 0 where
  pub value : Text
  pub verified : Option Bool

pub record Profile : Type 0 where
  pub id : Text
  pub display_name : Text
  pub emails : List ProfileEmail
  pub photos : List Text

pub record GoogleIdentity : Type 0 where
  pub google_subject : Text
  pub email : Text
  pub name : Text
  pub avatar_url : Option Text

pub record AuthenticatedUser : Type 0 where
  pub id : ℕ
  pub email : Text
  pub name : Text
  pub avatar_url : Option Text

pub record SenderDefaults : Type 0 where
  pub default_emails_per_hour : ℕ
  pub default_min_send_delay_ms : ℕ

abbrev pub is_verified : Option Bool → Bool
is_verified none = true
is_verified (some b) = b

abbrev pub first {ℓ} : {A : Type ℓ} → List A → Option A
first [] = none
first (x ∷ xs) = some x

abbrev pub is_blank : Text → Bool
is_blank s = length s == 0

-- `a || b`, for strings.
abbrev pub or_else : Text → Text → Text
or_else s t = if is_blank s then t else s

abbrev pub local_part : Text → Text
local_part email = elim (split_on 64 email) [ [] ↦ [] | part ∷ parts ↦ part ]

unfoldable pub normalize_google_profile : Profile → Option GoogleIdentity
normalize_google_profile profile = elim (find (λ e. is_verified e.verified) profile.emails) [
  | none ↦ none
  | some entry ↦
      let email = to_lower_case (trim entry.value) in
      if is_blank (trim profile.id) || is_blank email
      then none
      else some (record {
        google_subject = profile.id;
        email = email;
        name = or_else (trim profile.display_name) (or_else (local_part email) email);
        avatar_url = first profile.photos;
      })
]

abbrev pub to_authenticated_user : User → AuthenticatedUser
to_authenticated_user u = record {
  id = u.id;
  email = u.email;
  name = u.name;
  avatar_url = u.avatar_url;
}

-- What the upserts create, and what they write into a row that is there.
abbrev pub new_user : GoogleIdentity → ℕ → ℕ → User
new_user identity id now = record {
  id = id;
  google_subject = identity.google_subject;
  email = identity.email;
  name = identity.name;
  avatar_url = identity.avatar_url;
  last_login_at = now;
}

abbrev pub renewed : GoogleIdentity → ℕ → User → User
renewed identity now u = record u {
  email = identity.email;
  name = identity.name;
  avatar_url = identity.avatar_url;
  last_login_at = now;
}

abbrev pub new_sender : GoogleIdentity → SenderDefaults → ℕ → ℕ → Sender
new_sender identity defaults user_id id = record {
  id = id;
  user_id = user_id;
  display_name = identity.name;
  email = identity.email;
  normalized_email = identity.email;
  is_default = true;
  is_active = true;
  hourly_limit = defaults.default_emails_per_hour;
  minimum_delay_ms = defaults.default_min_send_delay_ms;
}

abbrev pub has_subject : Text → User → Bool
has_subject subject u = text_eq subject u.google_subject

-- Another user has the address: the update violates the unique constraint.
abbrev pub is_email_taken : GoogleIdentity → List User → Bool
is_email_taken identity rows =
    any (λ u. not (has_subject identity.google_subject u) && text_eq u.email identity.email) rows

abbrev pub is_own_sender : ℕ → Text → Sender → Bool
is_own_sender user_id email s = s.user_id == user_id && text_eq s.normalized_email email

module _ (T : Tables) where
  -- `user.upsert`.
  unfoldable pub upsert_user : GoogleIdentity → ℕ → ℕ → Db T → Option (User × Db T)
  upsert_user identity new_id now db =
      elim (find (has_subject identity.google_subject) (T.users.rows db.users)) [
        | some u ↦
            if is_email_taken identity (T.users.rows db.users)
            then none
            else some (
              renewed identity now u,
              record db {
                users =
                    T.users.update_many (has_subject identity.google_subject) (renewed identity now)
                      db.users;
              },
            )
        | none ↦ elim (T.users.create (new_user identity new_id now) db.users) [
          | none ↦ none
          | some users ↦ some (new_user identity new_id now, record db { users = users })
        ]
      ]

  -- `emailSender.upsert`.
  unfoldable pub upsert_sender : GoogleIdentity → SenderDefaults → ℕ → ℕ → Db T → Option (Db T)
  upsert_sender identity defaults user_id new_id db =
      if any (is_own_sender user_id identity.email) (T.senders.rows db.senders)
      then some (record db {
        senders =
            T.senders.update_many (is_own_sender user_id identity.email)
              (λ s. record s { display_name = identity.name; email = identity.email }) db.senders;
      })
      else elim (T.senders.create (new_sender identity defaults user_id new_id) db.senders) [
        | none ↦ none
        | some senders ↦ some (record db { senders = senders })
      ]

  -- `upsertGoogleUser`, a transaction.
  unfoldable pub upsert_google_user :
      GoogleIdentity
      → SenderDefaults
      → (new_user new_sender now : ℕ) → Db T
      → Option (AuthenticatedUser × Db T)
  upsert_google_user identity defaults new_user new_sender now db =
      elim (upsert_user identity new_user now db) [
        | none ↦ none
        | some (u, db') ↦ elim (upsert_sender identity defaults u.id new_sender db') [
          | none ↦ none
          | some db'' ↦ some (to_authenticated_user u, db'')
        ]
      ]

  unfoldable pub find_authenticated_user : ℕ → Db T → Option AuthenticatedUser
  find_authenticated_user id db = elim (find (λ u. id == u.id) (T.users.rows db.users)) [
    | none ↦ none
    | some u ↦ some (to_authenticated_user u)
  ]
