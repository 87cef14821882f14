-- ===== src/GoogleUser/Examples.antt =====
-- Two logins of one account, the second with another address.
use abhishek_bhat2005_reachi.Base.{
  ℕ, ◌≡◌, refl, none, some, [], ◌∷◌, Text, codes, text_eq, count, ◌&&◌, ◌==◌,
}
use abhishek_bhat2005_reachi.Schema.{Db, list_tables, user_conflict, sender_conflict}
use abhishek_bhat2005_reachi.Samples.{db_of}
use abhishek_bhat2005_reachi.GoogleUser.{
  GoogleIdentity, AuthenticatedUser, SenderDefaults, upsert_google_user, upsert_user, upsert_sender,
}
use abhishek_bhat2005_reachi.GoogleUser.Accounts.{Login, log_in, log_ins, upsert_google_user_again}

abbrev identity : Text → GoogleIdentity
identity email = record {
  google_subject = codes "g1";
  email = email;
  name = codes "Eve";
  avatar_url = none;
}

abbrev defaults : SenderDefaults
defaults = record { default_emails_per_hour = 10; default_min_send_delay_ms = 500 }

abbrev user : Text → AuthenticatedUser
user email = record { id = 3; email = email; name = codes "Eve"; avatar_url = none }

abbrev login : ℕ → ℕ → Text → Login
login id sender email = record {
  identity = identity email;
  defaults = defaults;
  user_id = id;
  sender_id = sender;
  now = 50;
}

-- Another account, with its own address.
abbrev other : Login
other = record (login 8 18 (codes "bob@c")) {
  identity = record (identity (codes "bob@c")) { google_subject = codes "g2" };
}

abbrev after : Login → Db list_tables → Db list_tables
after l db = elim (log_in list_tables l db) [ none ↦ db | some (a, db') ↦ db' ]

abbrev once : Db list_tables
once = after (login 3 11 (codes "eve@a")) (db_of [])

abbrev twice : Db list_tables
twice = after (login 4 12 (codes "eve@b")) (log_ins list_tables (other ∷ []) once)

first_login :
    log_in list_tables (login 3 11 (codes "eve@a")) (db_of []) ≡ some (user (codes "eve@a"), once)
unfolding upsert_google_user upsert_user upsert_sender text_eq sender_conflict user_conflict
first_login = refl

second_login :
    log_in list_tables (login 4 12 (codes "eve@b")) (log_ins list_tables (other ∷ []) once)
    ≡ some (user (codes "eve@b"), twice)
unfolding upsert_google_user upsert_user upsert_sender text_eq sender_conflict user_conflict log_ins
second_login = refl

upsert_google_user_again_example : (user (codes "eve@b")).id ≡ (user (codes "eve@a")).id
upsert_google_user_again_example =
    upsert_google_user_again list_tables (login 3 11 (codes "eve@a")) (login 4 12 (codes "eve@b"))
      (other ∷ []) (db_of []) once twice (user (codes "eve@a")) (user (codes "eve@b")) first_login
      refl second_login

-- The user then has two default senders.
two_defaults : count (λ s. s.user_id == 3 && s.is_default) twice.senders ≡ 2
unfolding upsert_google_user upsert_user upsert_sender text_eq sender_conflict user_conflict log_ins
two_defaults = refl
