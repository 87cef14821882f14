-- ===== src/Workers/Invariant.antt =====
-- What every history keeps: a worker that holds a claim keeps its email from all others.
use abhishek_bhat2005_reachi.Base.{
  ℕ, ◌≡◌, ◌≢◌, refl, ◌⊎◌, inl, inr, true, false, ◌&&◌, Option, none, some, List, [], ◌∷◌, arith,
  Result, ◌==◌, ==_iff, any, Bool-cases, Option-cases, update_where, any-append, sym, ◌∙◌, ap,
}
use abhishek_bhat2005_reachi.Base.Table.{create-cases}
use abhishek_bhat2005_reachi.Schema.{Tables, Db, Email, email_conflict}
use abhishek_bhat2005_reachi.RateLimit.Server.{Redis}
use abhishek_bhat2005_reachi.RateLimit.{RateConfig}
use abhishek_bhat2005_reachi.Worker.Statements.{
  Claim, is_queueable, mark_processing, record_rate_limit, claim_email, claims_row, DeliveryReceipt,
}
use abhishek_bhat2005_reachi.Worker.Rows.{
  Moves, AreConsistent, Locked, Moves-AreConsistent, Moves-Locked,
}
use abhishek_bhat2005_reachi.Worker.Effects.{
  emails_of, record_rate_limit-Moves, release_stale-Moves, ClaimEffect, ClaimEffect-Moves,
  claim_email-effect, finish-Moves, idle-Moves,
}
use abhishek_bhat2005_reachi.Worker.{World, Job, Run, Loaded, message_of, accepted}
use abhishek_bhat2005_reachi.Workers.{
  System, Phase, Event, held, set_phase, step, run_events, answer, insert_email, settle,
  after_refused, after_admitted, after_read, Thrown, as_new, advance, start, taken,
}

module _ (id now token : ℕ) where
  abbrev claimed_rows : List Email → List Email
  claimed_rows = update_where (claims_row id) (mark_processing token now)

  claimed_present :
      (rows : List Email)
      → any (claims_row id) rows ≡ true
      → any (λ e. e.id == id) (claimed_rows rows) ≡ true
  claimed_present [] k = cc
  claimed_present (x ∷ xs) k = ground (arith, claimed_present xs)

  claimed_shut :
      (rows : List Email)
      → AreConsistent rows
      → any (λ e. e.id == id && is_queueable e.status) (claimed_rows rows) ≡ false
  claimed_shut [] h = refl
  claimed_shut (x ∷ xs) h = ground (arith, claimed_shut xs)

idle_unheld : {d : Claim} → ¬ (held Phase.idle ≡ some d)
idle_unheld e = cc

none_is_not : {n : ℕ} → ◌≢◌ {A = Option ℕ} none (some n)
none_is_not e = cc

some_injective : {a b : ℕ} → some a ≡ some b → a ≡ b
some_injective e = cc

pub locked_unclaimable :
    (id : ℕ) (rows : List Email)
    → any (claims_row id) rows ≡ true
    → ¬ (any (λ e. e.id == id && is_queueable e.status) rows ≡ false)
locked_unclaimable id [] h k = cc
locked_unclaimable id (x ∷ xs) h k = ground (arith, locked_unclaimable id xs)

-- The primary key keeps the ids of a new email apart from those that are there.
pub new_id :
    (e : Email) (id : ℕ) (rows : List Email)
    → any (email_conflict e) rows ≡ false
    → any (λ x. x.id == id) rows ≡ true
    → (e.id == id) ≡ false
unfolding email_conflict
new_id e id [] h k = cc
new_id e id (x ∷ xs) h k = ground (arith, new_id e id xs)

module _ (T : Tables) (R : Redis) where
  abbrev pub rows_of : System T R → List Email
  rows_of s = emails_of T s.world.db

  pub record Inv (s : System T R) : Type 0 where
    pub consistent : AreConsistent (rows_of s)
    pub locked : (w : ℕ) (c : Claim) → held (s.phase w) ≡ some c → Locked c.id (rows_of s)
    pub apart :
        (v w : ℕ) (c d : Claim)
        → held (s.phase v) ≡ some c
        → held (s.phase w) ≡ some d
        → c.id ≡ d.id
        → v ≡ w

  -- A step that gives no claim: it settles the claim on one email at most, which nobody holds after.
  keep-Inv :
      (s s' : System T R) (settled : Option ℕ)
      → Moves settled (rows_of s) (rows_of s')
      → ((v : ℕ) (c : Claim)
          → held (s'.phase v) ≡ some c
          → (held (s.phase v) ≡ some c) × (settled ≢ some c.id))
      → Inv s
      → Inv s'
  keep-Inv s s' settled m sub i = record {
    consistent = Moves-AreConsistent m i.consistent;
    locked =
        λ w c h. let (before, other) = sub w c h in Moves-Locked m c.id other (i.locked w c before);
    apart = λ v w c d h k e. i.apart v w c d (sub v c h).0 (sub w d k).0 e;
  }

  -- Who holds a claim after one worker's phase has changed.
  held-set_phase :
      (f : ℕ → Phase) (w : ℕ) (p : Phase) (v : ℕ) (c : Claim)
      → held (set_phase f w p v) ≡ some c
      → ((v ≡ w) × (held p ≡ some c)) ⊎ ((v ≢ w) × (held (f v) ≡ some c))
  held-set_phase f w p v c h = elim (Bool-cases (v == w)) [
    | inl same ↦ inl ((==_iff v w).0 same, rw same at h)
    | inr other ↦ inr (ground arith, rw other at h)
  ]

  not_held :
      (f : ℕ → Phase) (w : ℕ) (p : Phase)
      → held p ≡ none
      → (v : ℕ) (c : Claim) → held (set_phase f w p v) ≡ some c
      → (held (f v) ≡ some c) × (◌≢◌ {A = Option ℕ} none (some c.id))
  not_held f w p e v c h = elim (held-set_phase f w p v c h) [
    | inl (_, k) ↦ absurd (ground arith)
    | inr (_, k) ↦ (k, none_is_not)
  ]

module _ (T : Tables) (R : Redis) (config : RateConfig) (backoff : ℕ) where
  -- A change of one worker's phase, to one without a claim.
  idle-Inv :
      (s : System T R) (world : World T R) (w : ℕ) (p : Phase)
      → world.db ≡ s.world.db
      → held p ≡ none
      → Inv T R s
      → Inv T R (record s { world = world; phase = set_phase s.phase w p })
  idle-Inv s world w p same e =
      keep-Inv T R s _ none (rw same (idle-Moves T none (rows_of T R s)))
        (not_held T R s.phase w p e)

  after_read-Inv :
      (job : Job) (run : Run) (l : Loaded) (w : ℕ) (s : System T R)
      → Inv T R s
      → Inv T R (after_read T R config backoff job run l w s)
  unfolding after_read
  after_read-Inv job run l w s i = idle-Inv s _ w _ refl (ground arith) i

  after_refused-Inv :
      (run : Run) (email_id next w : ℕ) (s : System T R)
      → Inv T R s
      → Inv T R (after_refused T R config backoff run email_id next w s)
  unfolding after_refused
  after_refused-Inv run email_id next w s i =
      elim (Option-cases (record_rate_limit T email_id next run.now run.attempt_token s.world.db)) [
        | inl thrown ↦ rw (thrown, after_refused) (idle-Inv s s.world w Phase.idle refl refl i)
        | inr ((u, db), done) ↦
            rw (done, after_refused)
              (keep-Inv T R s _ none
                (record_rate_limit-Moves T email_id next run.now run.attempt_token s.world.db db u
                  done)
                (not_held T R s.phase w Phase.idle refl) i)
      ]

  pub effect_claim :
      (l : Loaded) (run : Run) (s : System T R) (db : Db T) (c : Claim)
      → ClaimEffect T l.email.id run.now run.claim_token s.world.db db (some c)
      → (c.id ≡ l.email.id) × (any (claims_row l.email.id) (rows_of T R s) ≡ true)
  effect_claim l run s db c effect = elim effect.found [
    | inl nothing ↦ absurd (cc)
    | inr (d, same, id, token, there) ↦ (ground arith, there)
  ]

  module _ (run : Run) (l : Loaded) (s : System T R) (db : Db T) (c : Claim)
      (effect : ClaimEffect T l.email.id run.now run.claim_token s.world.db db (some c))
      (i : Inv T R s) where
    own_lock : Locked c.id (emails_of T db)
    own_lock =
        let (same, there) = effect_claim l run s db c effect in
        rw (ap T.emails.rows effect.emails, T.emails.rows-update_many, same)
          (
            claimed_present l.email.id run.now run.claim_token (rows_of T R s) there,
            claimed_shut l.email.id run.now run.claim_token (rows_of T R s) i.consistent,
          )

    nobody : (v : ℕ) (d : Claim) → held (s.phase v) ≡ some d → d.id ≢ c.id
    nobody v d h e =
        let (same, there) = effect_claim l run s db c effect in
        locked_unclaimable l.email.id (rows_of T R s) there (rw (e, same) at (i.locked v d h).1)

    claim-Inv :
        (job : Job) (w : ℕ)
        → Inv T R (record s {
          world = record s.world { db = db };
          phase = set_phase s.phase w (Phase.sending job c (message_of l));
          sends = c.id ∷ s.sends;
        })
    claim-Inv job w =
        let m =
          ClaimEffect-Moves T l.email.id run.now run.claim_token s.world.db db (some c) effect in
        let now_held = held-set_phase T R s.phase w (Phase.sending job c (message_of l)) in
        record {
          consistent = Moves-AreConsistent m i.consistent;
          locked = λ v d h. elim (now_held v d h) [
            | inl (_, k) ↦ let mine : d.id ≡ c.id = cc in rw mine own_lock
            | inr (_, k) ↦ Moves-Locked m d.id (none_is_not) (i.locked v d k)
          ];
          apart = λ v u x y h k e. elim (now_held v x h) [
            | inl (vw, xc) ↦ elim (now_held u y k) [
              | inl (uw, _) ↦ vw ∙ sym uw
              | inr (_, hy) ↦ absurd (nobody u y hy (cc))
            ]
            | inr (_, hx) ↦ elim (now_held u y k) [
              | inl (_, yc) ↦ absurd (nobody v x hx (cc))
              | inr (_, hy) ↦ i.apart v u x y hx hy e
            ]
          ];
        }

  after_admitted-Inv :
      (job : Job) (run : Run) (l : Loaded) (w : ℕ) (s : System T R)
      → Inv T R s
      → Inv T R (after_admitted T R config backoff job run l w s)
  unfolding after_admitted
  after_admitted-Inv job run l w s i =
      elim (Option-cases (claim_email T l.email.id run.now run.claim_token s.world.db)) [
        | inl thrown ↦ rw (thrown, after_admitted) (idle-Inv s s.world w Phase.idle refl refl i)
        | inr ((none, db), done) ↦
            rw (done, after_admitted)
              (keep-Inv T R s _ none
                (ClaimEffect-Moves T _ _ _ s.world.db db none
                  (claim_email-effect T _ _ _ s.world.db db none done))
                (not_held T R s.phase w Phase.idle refl) i)
        | inr ((some c, db), done) ↦
            rw (done, after_admitted)
              (claim-Inv run l s db c (claim_email-effect T _ _ _ s.world.db db (some c) done) i job
                w)
      ]

  settle-Inv :
      (p : Phase) (w time : ℕ) (s : System T R)
      → s.phase w ≡ p
      → Inv T R s
      → Inv T R (settle T R config backoff p w time s)
  unfolding settle
  settle-Inv (Phase.answered job c result) w time s e i =
      keep-Inv T R s _ (some c.id) (finish-Moves T backoff job c time s.world.db result)
        (λ v d h. elim (held-set_phase T R s.phase w Phase.idle v d h) [
          | inl (_, k) ↦ absurd (idle_unheld k)
          | inr (differ, k) ↦ (k, λ q. differ (i.apart v w d c k (rw e) (sym (some_injective q))))
        ])
        i
  settle-Inv _ w time s e i = i

  answer-Inv :
      (p : Phase) (w : ℕ) (result : Result Thrown DeliveryReceipt) (s : System T R)
      → s.phase w ≡ p
      → Inv T R s
      → Inv T R (answer T R config backoff p w result s)
  unfolding answer
  answer-Inv (Phase.sending job c message) w result s e i =
      keep-Inv T R s _ none (idle-Moves T none (rows_of T R s))
        (λ v d h.
          elim (held-set_phase T R s.phase w (Phase.answered job c (accepted result)) v d h) [
            | inl (same, k) ↦ (rw (same, e) k, none_is_not)
            | inr (_, k) ↦ (k, none_is_not)
          ])
        i
  answer-Inv _ w result s e i = i

  insert_email-Inv :
      (e : Email) (s : System T R) → Inv T R s → Inv T R (insert_email T R config backoff e s)
  unfolding insert_email
  insert_email-Inv e s i = elim (create-cases T.emails (as_new e) s.world.db.emails) [
    | inl (refused, _) ↦ rw (refused, insert_email) i
    | inr (emails, done, rows, new) ↦
        rw (done, insert_email)
          (record {
            consistent = rw (rows, any-append) (rw i.consistent refl);
            locked = λ w c h.
                let (there, shut) = i.locked w c h in
                (
                  rw (rows, any-append) (rw there refl),
                  rw (rows, any-append)
                      (rw (shut, new_id (as_new e) c.id (rows_of T R s) new there) refl),
                );
            apart = i.apart;
          })
  ]

  advance-Inv :
      (p : Phase) (w : ℕ) (s : System T R) → Inv T R s → Inv T R (advance T R config backoff p w s)
  unfolding advance
  advance-Inv (Phase.read job run l) w s i = after_read-Inv job run l w s i
  advance-Inv (Phase.refused run email_id next) w s i = after_refused-Inv run email_id next w s i
  advance-Inv (Phase.admitted job run l) w s i = after_admitted-Inv job run l w s i
  advance-Inv _ w s i = i

  held-taken :
      (job : Job) (run : Run) (o : Option Loaded) → held (taken T R config backoff job run o) ≡ none
  unfolding taken
  held-taken job run none = refl
  held-taken job run (some l) = ground arith

  start-Inv :
      (p : Phase) (w : ℕ) (job : Job) (run : Run) (s : System T R)
      → Inv T R s
      → Inv T R (start T R config backoff p w job run s)
  unfolding start
  start-Inv Phase.idle w job run s i = idle-Inv s s.world w _ refl (held-taken job run _) i
  start-Inv _ w job run s i = i

  pub step-Inv : (e : Event) (s : System T R) → Inv T R s → Inv T R (step T R config backoff e s)
  unfolding step
  step-Inv (Event.takes w job run) s i = start-Inv (s.phase w) w job run s i
  step-Inv (Event.advances w) s i = advance-Inv (s.phase w) w s i
  step-Inv (Event.answers w result) s i = answer-Inv (s.phase w) w result s refl i
  step-Inv (Event.finishes w time) s i = settle-Inv (s.phase w) w time s refl i
  step-Inv (Event.dies w) s i = idle-Inv s s.world w Phase.idle refl refl i
  step-Inv (Event.reconciles now lease) s i =
      keep-Inv T R s _ none (release_stale-Moves T now lease s.world.db) (λ v c h. (h, none_is_not))
        i
  step-Inv (Event.schedules e) s i = insert_email-Inv e s i

  pub run_events-Inv :
      (es : List Event) (s : System T R) → Inv T R s → Inv T R (run_events T R config backoff es s)
  unfolding run_events
  run_events-Inv [] s i = i
  run_events-Inv (e ∷ es) s i = run_events-Inv es (step T R config backoff e s) (step-Inv e s i)
