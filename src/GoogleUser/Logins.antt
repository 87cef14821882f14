-- ===== src/GoogleUser/Logins.antt =====
-- The row of an account after a login.
use abhishek_bhat2005_reachi.Base.{
  ℕ, ◌≡◌, refl, sym, ap, Bool, some, List, [], ◌∷◌, text_eq_refl, any, find, update_where, arith,
  Bool-cases, Option-cases, inl, inr,
}
use abhishek_bhat2005_reachi.Base.Table.{create-cases}
use abhishek_bhat2005_reachi.Schema.{Tables, Db, User}
use abhishek_bhat2005_reachi.Scheduling.Creation.{find-append}
use abhishek_bhat2005_reachi.Scheduling.Replay.{any-find}
use abhishek_bhat2005_reachi.GoogleUser.{
  new_sender, GoogleIdentity, AuthenticatedUser, SenderDefaults, to_authenticated_user, new_user,
  renewed, has_subject, is_email_taken, is_own_sender, upsert_user, upsert_sender,
  upsert_google_user,
}

find-update_where :
    {A : Type 0} (p : A → Bool) (f : A → A) (xs : List A) (x : A)
    → ((y : A) → p (f y) ≡ p y)
    → find p xs ≡ some x
    → find p (update_where p f xs) ≡ some (f x)
find-update_where p f [] x keep h = cc
find-update_where p f (y ∷ ys) x keep h = elim (Bool-cases (p y)) [
  | inl here ↦
      let same : y ≡ x = ground (arith, here) in
      rw here (rw (keep y, here) (ap (λ z. some (f z)) same))
  | inr other ↦
      let rest : find p ys ≡ some x = ground (arith, other) in
      rw other (rw other (find-update_where p f ys x keep rest))
]

module _ (T : Tables) where
  abbrev pub users_of : Db T → List User
  users_of db = T.users.rows db.users

  -- The row of the account after the login.
  upsert_user-subject :
      (identity : GoogleIdentity) (id now : ℕ) (db db' : Db T) (u : User)
      → upsert_user T identity id now db ≡ some (u, db')
      → find (has_subject identity.google_subject) (users_of db') ≡ some u
  unfolding upsert_user
  upsert_user-subject identity id now db db' u h =
      let mine = has_subject identity.google_subject in
      elim (Option-cases (find mine (users_of db))) [
        | inr (v, found) ↦ elim (Bool-cases (is_email_taken identity (users_of db))) [
          | inl taken ↦ absurd (ground (arith, found, taken))
          | inr free ↦
              let written = T.users.update_many mine (renewed identity now) db.users in
              let same : (renewed identity now v ≡ u) × (record db { users = written } ≡ db') =
                ground (arith, found, free) in
              rw (← same.0, ← same.1)
                (rw T.users.rows-update_many
                  (find-update_where mine (renewed identity now) (users_of db) v (λ y. refl) found))
        ]
        | inl gone ↦ elim (create-cases T.users (new_user identity id now) db.users) [
          | inl (refused, _) ↦ absurd (ground (arith, gone, refused))
          | inr (t, done, rows, _) ↦
              let same : (new_user identity id now ≡ u) × (record db { users = t } ≡ db') =
                ground (arith, gone, done) in
              rw (← same.0, ← same.1)
                (rw rows (
                  find-append mine (users_of db) (new_user identity id now)
                    (any-find mine (users_of db) gone) (text_eq_refl identity.google_subject)))
        ]
      ]

  pub users-upsert_sender :
      (identity : GoogleIdentity) (defaults : SenderDefaults) (user_id id : ℕ) (db db' : Db T)
      → upsert_sender T identity defaults user_id id db ≡ some db'
      → db.users ≡ db'.users
  unfolding upsert_sender
  users-upsert_sender identity defaults user_id id db db' h =
      elim (Bool-cases (any (is_own_sender user_id identity.email) (T.senders.rows db.senders))) [
        | inl there ↦
            let written : record db {
              senders =
                  T.senders.update_many (is_own_sender user_id identity.email)
                    (λ s. record s { display_name = identity.name; email = identity.email })
                    db.senders;
            }
                ≡ db' =
              ground (arith, there) in
            ap (λ (d : Db T). d.users) written
        | inr missing ↦
            elim (Option-cases
              (T.senders.create (new_sender identity defaults user_id id) db.senders)) [
                | inl refused ↦ absurd (ground (arith, missing, refused))
                | inr (t, done) ↦
                    let written : record db { senders = t } ≡ db' = ground (arith, missing, done) in
                    ap (λ (d : Db T). d.users) written
              ]
      ]

  -- What a login returns and leaves.
  pub login-row :
      (identity : GoogleIdentity) (defaults : SenderDefaults) (id sender now : ℕ) (db db' : Db T)
      (a : AuthenticatedUser)
      → upsert_google_user T identity defaults id sender now db ≡ some (a, db')
      → (u : User) × (a ≡ to_authenticated_user u)
        × (find (has_subject identity.google_subject) (users_of db') ≡ some u)
  unfolding upsert_google_user
  login-row identity defaults id sender now db db' a h =
      elim (Option-cases (upsert_user T identity id now db)) [
        | inl thrown ↦ absurd (ground (arith, thrown))
        | inr ((u, d), done) ↦
            elim (Option-cases (upsert_sender T identity defaults u.id sender d)) [
              | inl thrown ↦ absurd (ground (arith, done, thrown))
              | inr (e, added) ↦
                  let same : (to_authenticated_user u ≡ a) × (e ≡ db') =
                    ground (arith, done, added) in
                  (
                    u,
                    sym same.0,
                    rw (← same.1, ← users-upsert_sender identity defaults u.id sender d e added)
                        (upsert_user-subject identity id now db d u done),
                  )
            ]
      ]

  pub known_subject :
      (identity : GoogleIdentity) (id now : ℕ) (db db' : Db T) (u v : User)
      → find (has_subject identity.google_subject) (users_of db) ≡ some v
      → upsert_user T identity id now db ≡ some (u, db')
      → u.id ≡ v.id
  unfolding upsert_user
  known_subject identity id now db db' u v found h =
      elim (Bool-cases (is_email_taken identity (users_of db))) [
        | inl taken ↦ absurd (ground (arith, found, taken))
        | inr free ↦ ground (arith, found, free)
      ]
