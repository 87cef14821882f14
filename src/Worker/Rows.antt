-- ===== src/Worker/Rows.antt =====
-- What the worker's statements do to a row of an email: the state machine of its status.
use abhishek_bhat2005_reachi.Base.{
  ℕ, ◌≡◌, ◌≢◌, refl, inl, inr, Bool, true, false, not, ◌&&◌, ◌||◌, Option, some, List, [], ◌∷◌,
  Text, arith, ◌==◌, is_none, any, update_where, any-update_where-false, any-update_where-true,
  Bool-cases, ==_iff, ◌∙◌, ap, ◌∷◌, keep,
}
use abhishek_bhat2005_reachi.Schema.{Email}
use abhishek_bhat2005_reachi.Worker.Statements.{
  DeliveryReceipt, FailureResult, is_queueable, is_processing, is_terminal, mark_rate_limited,
  mark_processing, mark_sent, mark_failed,
}
use abhishek_bhat2005_reachi.Queue.{mark_unknown}

-- One write to a row. `settled` is the id of the email whose claim is being settled, if one is.
pub data RowStep (settled : Option ℕ) : Email → Email → Type 0 where
  postponed :
      (e : Email) (next : ℕ)
      → is_queueable e.status ≡ true
      → RowStep settled e (mark_rate_limited next e)
  claimed :
      (e : Email) (token now : ℕ)
      → is_none e.processing_token ≡ true
      → is_queueable e.status ≡ true
      → RowStep settled e (mark_processing token now e)
  sent :
      (e : Email) (receipt : DeliveryReceipt) (now : ℕ)
      → is_processing e.status ≡ true
      → settled ≡ some e.id
      → RowStep settled e (mark_sent receipt now e)
  failed :
      (e : Email) (result : FailureResult) (backoff : ℕ) (code message : Text) (now : ℕ)
      → is_processing e.status ≡ true
      → settled ≡ some e.id
      → RowStep settled e (mark_failed result backoff code message now e)
  lost : (e : Email) → is_processing e.status ≡ true → RowStep settled e (mark_unknown e)

-- A statement rewrites the rows that it selects, each by such a write.
pub record Moves (settled : Option ℕ) (rows rows' : List Email) : Type 0 where
  pub selects : Email → Bool
  pub writes : Email → Email
  pub after : rows' ≡ update_where selects writes rows
  pub moved : (e : Email) → selects e ≡ true → RowStep settled e (writes e)

-- A token is set exactly while the email is being processed.
abbrev pub is_consistent : Email → Bool
is_consistent e =
    not (is_none e.processing_token) && is_processing e.status
    || is_none e.processing_token && not (is_processing e.status)

abbrev pub AreConsistent : List Email → Type 0
AreConsistent rows = any (λ e. not (is_consistent e)) rows ≡ false

-- The email is there, and nobody may claim it.
abbrev pub Locked : ℕ → List Email → Type 0
Locked id rows =
    (any (λ e. e.id == id) rows ≡ true)
    × (any (λ e. e.id == id && is_queueable e.status) rows ≡ false)

-- Every row of the email is in a final status.
abbrev pub Final : ℕ → List Email → Type 0
Final id rows =
    (any (λ e. e.id == id) rows ≡ true)
    × (any (λ e. e.id == id && not (is_terminal e.status)) rows ≡ false)

module _ {settled : Option ℕ} where
  pub RowStep-id : {e e' : Email} → RowStep settled e e' → e'.id ≡ e.id
  RowStep-id (postponed e next q) = refl
  RowStep-id (claimed e token now t q) = refl
  RowStep-id (sent e receipt now p s) = refl
  RowStep-id (failed e result backoff code message now p s) = refl
  RowStep-id (lost e p) = refl

  RowStep-consistent :
      {e e' : Email} → RowStep settled e e' → is_consistent e ≡ true → is_consistent e' ≡ true
  RowStep-consistent (postponed e next q) h = ground arith
  RowStep-consistent (claimed e token now t q) h = ground arith
  RowStep-consistent (sent e receipt now p s) h = ground arith
  RowStep-consistent (failed e result backoff code message now p s) h = ground arith
  RowStep-consistent (lost e p) h = ground arith

  -- A final status is left by no write.
  RowStep-final : {e e' : Email} → RowStep settled e e' → is_terminal e.status ≡ false
  RowStep-final (postponed e next q) = ground arith
  RowStep-final (claimed e token now t q) = ground arith
  RowStep-final (sent e receipt now p s) = ground arith
  RowStep-final (failed e result backoff code message now p s) = ground arith
  RowStep-final (lost e p) = ground arith

  -- Only its own settlement makes an email claimable.
  RowStep-locked :
      {e e' : Email}
      → RowStep settled e e'
      → settled ≢ some e.id
      → is_queueable e.status ≡ false
      → is_queueable e'.status ≡ false
  RowStep-locked (postponed e next q) h k = cc
  RowStep-locked (claimed e token now t q) h k = refl
  RowStep-locked (sent e receipt now p s) h k = refl
  RowStep-locked (failed e result backoff code message now p s) h k = absurd (h s)
  RowStep-locked (lost e p) h k = refl

  still_locked :
      (id : ℕ) {e e' : Email}
      → RowStep settled e e'
      → settled ≢ some id
      → (e.id == id && is_queueable e.status) ≡ false
      → (e'.id == id && is_queueable e'.status) ≡ false
  still_locked id {e} {e'} step other h = elim (Bool-cases (e.id == id)) [
    | inl same ↦
        let mine : e.id ≡ id = (==_iff e.id id).0 same in
        ground (arith, RowStep-locked step (λ s. other (s ∙ ap some mine)))
    | inr differs ↦ ground (arith, RowStep-id step)
  ]

abbrev pub rows_with : ℕ → List Email → List Email
rows_with id rows = keep (λ e. e.id == id) rows

-- The email is in a final status, and its rows are the same as before.
abbrev pub Kept : ℕ → List Email → List Email → Type 0
Kept id rows rows' = Final id rows' × (rows_with id rows' ≡ rows_with id rows)

keep-update_where :
    {settled : Option ℕ} (id : ℕ) (selects : Email → Bool) (writes : Email → Email)
    → ((e : Email) → selects e ≡ true → RowStep settled e (writes e))
    → (rows : List Email) → any (λ e. e.id == id && not (is_terminal e.status)) rows ≡ false
    → rows_with id (update_where selects writes rows) ≡ rows_with id rows
keep-update_where id selects writes moved [] h = refl
keep-update_where id selects writes moved (x ∷ xs) h =
    let rest : rows_with id (update_where selects writes xs) ≡ rows_with id xs =
      keep-update_where id selects writes moved xs (ground arith) in
    elim (Bool-cases (selects x)) [
      | inr left ↦ rw left (elim (Bool-cases (x.id == id)) [
        | inl mine ↦ rw mine (ap (◌∷◌ x) rest)
        | inr other ↦ rw other rest
      ])
      | inl taken ↦
          let open_status = RowStep-final (moved x taken) in
          let other : (x.id == id) ≡ false = ground (arith, open_status) in
          let other' : ((writes x).id == id) ≡ false = rw (RowStep-id (moved x taken)) other in
          rw taken (rw (other, other') rest)
    ]

module _ {settled : Option ℕ} {rows rows' : List Email} (m : Moves settled rows rows') where
  pub Moves-AreConsistent : AreConsistent rows → AreConsistent rows'
  Moves-AreConsistent h = rw m.after (
      any-update_where-false (λ e. not (is_consistent e)) m.selects m.writes rows
        (λ e p k. ground (arith, RowStep-consistent (m.moved e p))) h)

  pub Moves-present :
      (id : ℕ) → any (λ e. e.id == id) rows ≡ true → any (λ e. e.id == id) rows' ≡ true
  Moves-present id h = rw m.after (
      any-update_where-true (λ e. e.id == id) m.selects m.writes rows
        (λ e p k. rw (RowStep-id (m.moved e p)) k) h)

  -- A statement unlocks only the email whose claim it settles.
  pub Moves-Locked : (id : ℕ) → settled ≢ some id → Locked id rows → Locked id rows'
  Moves-Locked id other h = (
    Moves-present id h.0,
    rw m.after (
        any-update_where-false (λ e. e.id == id && is_queueable e.status) m.selects m.writes rows
          (λ e p k. still_locked id (m.moved e p) other k) h.1),
  )

  -- No statement takes an email out of a final status.
  pub Moves-Final : (id : ℕ) → Final id rows → Final id rows'
  Moves-Final id h = (
    Moves-present id h.0,
    rw m.after (
        any-update_where-false (λ e. e.id == id && not (is_terminal e.status)) m.selects m.writes
          rows (λ e p k. ground (arith, RowStep-id (m.moved e p), RowStep-final (m.moved e p)))
          h.1),
  )

  -- Such an email's rows are left as they are.
  pub Moves-Kept : (id : ℕ) → Final id rows → Kept id rows rows'
  Moves-Kept id h =
      (Moves-Final id h, rw m.after (keep-update_where id m.selects m.writes m.moved rows h.1))
