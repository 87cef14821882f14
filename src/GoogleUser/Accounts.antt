-- ===== src/GoogleUser/Accounts.antt =====
-- Who is logged in, after one login and after others.
use abhishek_bhat2005_reachi.Base.{
  ℕ, ◌≡◌, refl, ap, Bool, Option, none, some, Text, ◌∙◌, List, [], ◌∷◌, find, update_where, arith,
  Bool-cases, Option-cases, inl, inr,
}
use abhishek_bhat2005_reachi.Base.Table.{create-cases}
use abhishek_bhat2005_reachi.Schema.{Tables, Db, User}
use abhishek_bhat2005_reachi.Scheduling.Later.{find-longer}
use abhishek_bhat2005_reachi.GoogleUser.{
  GoogleIdentity, AuthenticatedUser, SenderDefaults, to_authenticated_user, new_user, renewed,
  has_subject, is_email_taken, upsert_user, upsert_sender, upsert_google_user,
}
use abhishek_bhat2005_reachi.GoogleUser.Logins.{
  users_of, login-row, known_subject, users-upsert_sender,
}

-- A write to rows that keeps what `p` reads and the ids.
find-written :
    (p q : User → Bool) (f : User → User) (xs : List User) (x : User)
    → ((y : User) → p (f y) ≡ p y)
    → ((y : User) → (f y).id ≡ y.id)
    → find p xs ≡ some x
    → (y : User) × (find p (update_where q f xs) ≡ some y) × (y.id ≡ x.id)
find-written p q f [] x keep ids h = absurd (cc)
find-written p q f (z ∷ zs) x keep ids h = elim (Bool-cases (p z)) [
  | inl mine ↦
      let same : z ≡ x = ground (arith, mine) in
      elim (Bool-cases (q z)) [
        | inl taken ↦ (f z, rw taken (rw (keep z, mine) refl), ids z ∙ ap (λ w. w.id) same)
        | inr left ↦ (z, rw left (rw mine refl), ap (λ w. w.id) same)
      ]
  | inr other ↦
      let rest : find p zs ≡ some x = ground (arith, other) in
      let (y, found, id) = find-written p q f zs x keep ids rest in
      elim (Bool-cases (q z)) [
        | inl taken ↦ (y, rw taken (rw (keep z, other) found), id)
        | inr left ↦ (y, rw left (rw other found), id)
      ]
]

-- A login: what Google says of the account, and the ids and the time of the call.
pub record Login : Type 0 where
  pub identity : GoogleIdentity
  pub defaults : SenderDefaults
  pub user_id : ℕ
  pub sender_id : ℕ
  pub now : ℕ

module _ (T : Tables) where
  -- The account is known as the user with the id.
  abbrev pub IsKnown : Text → ℕ → Db T → Type 0
  IsKnown subject id db =
      (u : User) × (find (has_subject subject) (users_of T db) ≡ some u) × (u.id ≡ id)

  abbrev pub log_in : Login → Db T → Option (AuthenticatedUser × Db T)
  log_in l db = upsert_google_user T l.identity l.defaults l.user_id l.sender_id l.now db

  -- Logins one after another; one that fails leaves the database as it was.
  unfoldable pub log_ins : List Login → Db T → Db T
  log_ins [] db = db
  log_ins (l ∷ ls) db = log_ins ls (elim (log_in l db) [ none ↦ db | some (a, db') ↦ db' ])

  upsert_user-IsKnown :
      (subject : Text) (known : ℕ) (identity : GoogleIdentity) (id now : ℕ) (db db' : Db T)
      (u : User)
      → IsKnown subject known db
      → upsert_user T identity id now db ≡ some (u, db')
      → IsKnown subject known db'
  unfolding upsert_user
  upsert_user-IsKnown subject known identity id now db db' u (x, found, is_known) h =
      let mine = has_subject identity.google_subject in
      elim (Option-cases (find mine (users_of T db))) [
        | inr (v, there) ↦ elim (Bool-cases (is_email_taken identity (users_of T db))) [
          | inl taken ↦ absurd (ground (arith, there, taken))
          | inr free ↦
              let written = T.users.update_many mine (renewed identity now) db.users in
              let same : record db { users = written } ≡ db' = ground (arith, there, free) in
              let (y, still, id_kept) =
                find-written (has_subject subject) mine (renewed identity now) (users_of T db) x
                  (λ w. refl) (λ w. refl) found in
              rw (← same) (y, rw T.users.rows-update_many still, id_kept ∙ is_known)
        ]
        | inl gone ↦ elim (create-cases T.users (new_user identity id now) db.users) [
          | inl (refused, _) ↦ absurd (ground (arith, gone, refused))
          | inr (t, done, rows, _) ↦
              let same : record db { users = t } ≡ db' = ground (arith, gone, done) in
              rw (← same)
                (x, rw rows (find-longer (has_subject subject) (users_of T db) _ x found), is_known)
        ]
      ]

  log_in-IsKnown :
      (subject : Text) (known : ℕ) (l : Login) (db db' : Db T) (a : AuthenticatedUser)
      → IsKnown subject known db
      → log_in l db ≡ some (a, db')
      → IsKnown subject known db'
  unfolding upsert_google_user
  log_in-IsKnown subject known l db db' a k h =
      elim (Option-cases (upsert_user T l.identity l.user_id l.now db)) [
        | inl thrown ↦ absurd (ground (arith, thrown))
        | inr ((u, d), done) ↦
            elim (Option-cases (upsert_sender T l.identity l.defaults u.id l.sender_id d)) [
              | inl thrown ↦ absurd (ground (arith, done, thrown))
              | inr (e, added) ↦
                  let same : e ≡ db' = ground (arith, done, added) in
                  rw
                    (
                      ← same,
                      ← users-upsert_sender T l.identity l.defaults u.id l.sender_id d e added,
                    )
                    (upsert_user-IsKnown subject known l.identity l.user_id l.now db d u k done)
            ]
      ]

  log_ins-IsKnown :
      (subject : Text) (known : ℕ) (ls : List Login) (db : Db T)
      → IsKnown subject known db
      → IsKnown subject known (log_ins ls db)
  unfolding log_ins
  log_ins-IsKnown subject known [] db k = k
  log_ins-IsKnown subject known (l ∷ ls) db k = elim (Option-cases (log_in l db)) [
    | inl failed ↦ rw (failed, log_ins) (log_ins-IsKnown subject known ls db k)
    | inr ((a, db'), done) ↦
        rw (done, log_ins)
          (log_ins-IsKnown subject known ls db' (log_in-IsKnown subject known l db db' a k done))
  ]

-- A Google account stays one user: after a login that succeeds, and any number of others, of any
-- accounts, whether they succeed or not, a login with the subject of the first that succeeds,
-- whatever name, address or picture Google says of the account then, is the same user's.
pub upsert_google_user_again :
    (T : Tables) (first later : Login) (between : List Login) (db db' db'' : Db T)
    (a a' : AuthenticatedUser)
    → log_in T first db ≡ some (a, db')
    → later.identity.google_subject ≡ first.identity.google_subject
    → log_in T later (log_ins T between db') ≡ some (a', db'')
    → a'.id ≡ a.id
unfolding upsert_google_user
upsert_google_user_again T first later between db db' db'' a a' h same h' =
    let (v, av, found) =
      login-row T first.identity first.defaults first.user_id first.sender_id first.now db db' a
        h in
    let (w, still, id) =
      log_ins-IsKnown T first.identity.google_subject v.id between db' (v, found, refl) in
    let d = log_ins T between db' in
    elim (Option-cases (upsert_user T later.identity later.user_id later.now d)) [
      | inl thrown ↦ absurd (ground (arith, thrown))
      | inr ((u, e), done) ↦
          elim (Option-cases
            (upsert_sender T later.identity later.defaults u.id later.sender_id e)) [
              | inl thrown ↦ absurd (ground (arith, done, thrown))
              | inr (f, added) ↦
                  let this : to_authenticated_user u ≡ a' = ground (arith, done, added) in
                  let known =
                    known_subject T later.identity later.user_id later.now d e u w (rw same still)
                      done in
                  rw (← this, av) (known ∙ id)
            ]
    ]
