-- ===== src/Api/Defaults.antt =====
-- The default sender of a user, under the routes that create and change senders.
use abhishek_bhat2005_reachi.Base.{
  ℕ, ◌+◌, ◌≤◌, ◌≡◌, refl, ap, ◌⊎◌, Bool, true, false, not, ◌&&◌, ◌||◌, Option, none, some, List, [],
  ◌∷◌, ◌==◌, find, count, count-append, update_where, if◌then◌else◌, arith, Bool-cases,
  Option-cases, inl, inr, find-any,
}
use abhishek_bhat2005_reachi.Base.Table.{create-cases}
use abhishek_bhat2005_reachi.Schema.{Tables, Db, Sender}
use abhishek_bhat2005_reachi.Leads.{Platform, ParsedLead, normalize_email}
use abhishek_bhat2005_reachi.Api.{EmailApiConfig}
use abhishek_bhat2005_reachi.Api.Senders.{
  CreateSenderInput, UpdateSenderInput, create_sender_schema, update_sender_schema, clear_default,
  change_sender, create_sender, update_sender, post_senders, patch_current, patch_senders,
  sender_of, is_given_true, is_given_false, takes_address, clear_for,
}

abbrev pub is_default_of : ℕ → Sender → Bool
is_default_of user s = s.user_id == user && s.is_default

abbrev pub is_inactive_default : ℕ → Sender → Bool
is_inactive_default user s = is_default_of user s && not s.is_active

-- The user has one default sender, and it is active.
abbrev pub HasDefault : ℕ → List Sender → Type 0
HasDefault user rows =
    (count (is_default_of user) rows ≡ 1) × (count (is_inactive_default user) rows ≡ 0)

abbrev cleared : ℕ → List Sender → List Sender
cleared user rows = update_where (λ t. t.user_id == user) clear_default rows

cleared-none :
    (user : ℕ) (rows : List Sender)
    → (count (is_default_of user) (cleared user rows) ≡ 0)
      × (count (is_inactive_default user) (cleared user rows) ≡ 0)
cleared-none user [] = (refl, refl)
cleared-none user (x ∷ xs) = ground (arith, cleared-none user xs)

-- One row of an id at most, and what a test counts of it.
none_of :
    (p q : Sender → Bool) (rows : List Sender) → count p rows ≡ 0 → count (λ s. p s && q s) rows ≡ 0
none_of p q [] h = refl
none_of p q (x ∷ xs) h = ground (arith, none_of p q xs)

none_found :
    (p q : Sender → Bool) (rows : List Sender)
    → count p rows ≡ 0
    → find (λ s. p s && q s) rows ≡ none
none_found p q [] h = refl
none_found p q (x ∷ xs) h = ground (arith, none_found p q xs)

find_only :
    (id user : ℕ) (q : Sender → Bool) (rows : List Sender) (c : Sender)
    → find (λ s. s.id == id && s.user_id == user) rows ≡ some c
    → count (λ s. s.id == id) rows ≤ 1
    → count (λ s. s.id == id && q s) rows ≡ (if q c then 1 else 0)
find_only id user q [] c h one = cc
find_only id user q (x ∷ xs) c h one = elim (Bool-cases (x.id == id)) [
  | inr other ↦ ground (arith, find_only id user q xs c)
  | inl here ↦ elim (Bool-cases (x.user_id == user)) [
    | inl mine ↦
        let this : x ≡ c = ground (arith, here, mine) in
        ground (arith, none_of (λ s. s.id == id) q xs, ap q this)
    | inr theirs ↦
        absurd
          (ground (arith, here, theirs, none_found (λ s. s.id == id) (λ s. s.user_id == user) xs))
  ]
]

module _ (user id : ℕ) (input : UpdateSenderInput) (n : Option ParsedLead) where
  abbrev write : Sender → Sender
  write = change_sender input n

  abbrev written : List Sender → List Sender
  written rows = update_where (λ s. s.id == id) write rows

  abbrev others_cleared : List Sender → List Sender
  others_cleared rows = update_where (λ s. s.user_id == user && not (s.id == id)) clear_default rows

  new_default :
      (rows : List Sender)
      → input.is_default ≡ some true
      → (count (is_default_of user) (written (others_cleared rows))
          ≡ count (λ s. s.id == id && s.user_id == user) rows)
        × (count (is_inactive_default user) (written (others_cleared rows)) ≡ 0)
  new_default [] d = (refl, refl)
  new_default (x ∷ xs) d = ground (arith, new_default xs d, d)

  same_default :
      (rows : List Sender)
      → input.is_default ≡ none
      → (count (is_default_of user) (written rows) ≡ count (is_default_of user) rows)
        × (count (is_inactive_default user) (written rows)
            ≤ count (is_inactive_default user) rows
              + (if is_given_false input.is_active
                  then count (λ s. s.id == id && is_default_of user s) rows
                  else 0))
  same_default [] d = (refl, omega arith)
  same_default (x ∷ xs) d = ground (arith, same_default xs d, d)

  no_default :
      (rows : List Sender)
      → input.is_default ≡ some false
      → (count (is_default_of user) (written rows)
            + count (λ s. s.id == id && is_default_of user s) rows
          ≡ count (is_default_of user) rows)
        × (count (is_inactive_default user) (written rows) ≤ count (is_inactive_default user) rows)
  no_default [] d = (refl, omega arith)
  no_default (x ∷ xs) d = ground (arith, no_default xs d, d)

given_cases : (o : Option Bool) → (o ≡ none) ⊎ (o ≡ some true) ⊎ (o ≡ some false)
given_cases none = inl refl
given_cases (some true) = inr (inl refl)
given_cases (some false) = inr (inr refl)

module _ (T : Tables) where
  abbrev pub senders_of : Db T → List Sender
  senders_of db = T.senders.rows db.senders

  clear_for-counts :
      (s : Sender) (db : Db T)
      → HasDefault s.user_id (senders_of db)
      → (count (is_default_of s.user_id) (T.senders.rows (clear_for T s db))
          ≡ (if s.is_default then 0 else 1))
        × (count (is_inactive_default s.user_id) (T.senders.rows (clear_for T s db)) ≡ 0)
  unfolding clear_for
  clear_for-counts s db h = elim (Bool-cases s.is_default) [
    | inl default ↦
        rw (default, clear_for)
          (rw T.senders.rows-update_many (cleared-none s.user_id (senders_of db)))
    | inr plain ↦ rw (plain, clear_for) h
  ]

  create_sender-HasDefault :
      (s : Sender) (db : Db T)
      → s.is_active ≡ true
      → HasDefault s.user_id (senders_of db)
      → HasDefault s.user_id (senders_of (create_sender T s db).1)
  unfolding create_sender
  create_sender-HasDefault s db active h =
      let clear = T.senders.rows (clear_for T s db) in
      elim (create-cases T.senders s (clear_for T s db)) [
        | inl (refused, _) ↦ rw (refused, create_sender) h
        | inr (t, done, rows, _) ↦
            rw (done, create_sender)
              (rw rows (
                ground (
                  arith,
                  active,
                  clear_for-counts s db h,
                  count-append (is_default_of s.user_id) clear (s ∷ []),
                  count-append (is_inactive_default s.user_id) clear (s ∷ []),
                )))
      ]

  update_sender-HasDefault :
      (user id : ℕ) (input : UpdateSenderInput) (n : Option ParsedLead) (current : Sender)
      (db : Db T)
      → find (λ s. s.id == id && s.user_id == user) (senders_of db) ≡ some current
      → count (λ s. s.id == id) (senders_of db) ≤ 1
      → (current.is_default && (is_given_false input.is_active || is_given_false input.is_default))
        ≡ false
      → HasDefault user (senders_of db)
      → HasDefault user (senders_of (update_sender T user id input n current db).1)
  unfolding update_sender
  update_sender-HasDefault user id input n current db found one keeps h =
      let rows = senders_of db in
      let now = find_only id user (is_default_of user) rows current found one in
      elim (Bool-cases (takes_address user id n rows)) [
        | inl taken ↦ rw (taken, update_sender) h
        | inr free ↦ elim (given_cases input.is_default) [
          | inl same ↦
              let k = same_default user id input n rows same in
              rw (free, update_sender)
                (rw (same, T.senders.rows-update_many) (ground (arith, k, h, now, keeps)))
          | inr (inl new) ↦
              let k = new_default user id input n rows new in
              let mine = find_only id user (λ s. s.user_id == user) rows current found one in
              rw (free, update_sender)
                (rw (new, T.senders.rows-update_many)
                  (rw T.senders.rows-update_many (
                    ground (
                      arith,
                      k,
                      mine,
                      find-any (λ s. s.id == id && s.user_id == user) rows current found,
                    ))))
          | inr (inr old) ↦
              let k = no_default user id input n rows old in
              rw (free, update_sender)
                (rw (old, T.senders.rows-update_many) (ground (arith, k, h, now, keeps, old)))
        ]
      ]

-- A user with one default sender, an active one, still has one after `POST /senders`, however it is
-- answered.
pub post_senders-HasDefault :
    (T : Tables) (P : Platform) (config : EmailApiConfig) (user new_id : ℕ)
    (body : Option CreateSenderInput) (db : Db T)
    → HasDefault user (senders_of T db)
    → HasDefault user (senders_of T (post_senders T P config user new_id body db).1)
unfolding post_senders
post_senders-HasDefault T P config user new_id body db h =
    elim (Option-cases (create_sender_schema P config body)) [
      | inl bad ↦ rw (bad, post_senders) h
      | inr (input, valid) ↦ elim (Option-cases (normalize_email P input.email)) [
        | inl bad ↦ rw (valid, post_senders) (rw bad h)
        | inr (normalized, good) ↦
            rw (valid, post_senders)
              (rw good
                (create_sender-HasDefault T (sender_of user new_id input normalized) db refl h))
      ]
    ]

patch_current-HasDefault :
    (T : Tables) (P : Platform) (config : EmailApiConfig) (user id : ℕ) (input : UpdateSenderInput)
    (current : Sender) (db : Db T)
    → find (λ s. s.id == id && s.user_id == user) (senders_of T db) ≡ some current
    → count (λ s. s.id == id) (senders_of T db) ≤ 1
    → HasDefault user (senders_of T db)
    → HasDefault user (senders_of T (patch_current T P config user id input current db).1)
unfolding patch_current
patch_current-HasDefault T P config user id input current db found one h =
    elim (Bool-cases
      (current.is_default && (is_given_false input.is_active || is_given_false input.is_default))) [
        | inl loses ↦ rw (loses, patch_current) h
        | inr keeps ↦
            elim (Bool-cases (is_given_true input.is_default && is_given_false input.is_active)) [
              | inl inactive ↦ rw (keeps, patch_current) (rw inactive h)
              | inr fine ↦ elim (Option-cases input.email) [
                | inl same ↦
                    rw (keeps, patch_current)
                      (rw (fine, same)
                        (update_sender-HasDefault T user id input none current db found one keeps
                          h))
                | inr (email, given) ↦ elim (Option-cases (normalize_email P email)) [
                  | inl bad ↦ rw (keeps, patch_current) (rw (fine, given) (rw bad h))
                  | inr (normalized, good) ↦
                      rw (keeps, patch_current)
                        (rw (fine, given)
                          (rw good (
                            update_sender-HasDefault T user id input (some normalized) current db
                              found one keeps h)))
                ]
              ]
            ]
      ]

-- A user with one default sender, an active one, still has one after `PATCH /senders/:senderId`,
-- however it is answered, if at most one sender has the id of the request.
pub patch_senders-HasDefault :
    (T : Tables) (P : Platform) (config : EmailApiConfig) (user id : ℕ)
    (body : Option UpdateSenderInput) (db : Db T)
    → count (λ s. s.id == id) (senders_of T db) ≤ 1
    → HasDefault user (senders_of T db)
    → HasDefault user (senders_of T (patch_senders T P config user id body db).1)
unfolding patch_senders
patch_senders-HasDefault T P config user id body db one h =
    elim (Option-cases (update_sender_schema P config body)) [
      | inl bad ↦ rw (bad, patch_senders) h
      | inr (input, valid) ↦
          elim (Option-cases (find (λ s. s.id == id && s.user_id == user) (senders_of T db))) [
            | inl gone ↦ rw (valid, patch_senders) (rw gone h)
            | inr (current, found) ↦
                rw (valid, patch_senders)
                  (rw found
                    (patch_current-HasDefault T P config user id input current db found one h))
          ]
    ]
