-- ===== src/Worker/OneRow.antt =====
-- Claiming and settling the one row that has an id.
use abhishek_bhat2005_reachi.Base.{
  ℕ, ◌+◌, ◌≡◌, refl, sym, ap, ◌∙◌, Bool, true, false, none, some, List, [], ◌∷◌, ◌++◌, map,
  map-append, any, find, count, count-append, keep, update_where, ◌==◌, ==_refl, arith, Bool-cases,
  inl, inr, if◌then◌else◌,
}
use abhishek_bhat2005_reachi.Schema.{Email, EmailStatus}
use abhishek_bhat2005_reachi.Worker.Statements.{Claim, claims_row, is_claimed_by, mark_processing}
use abhishek_bhat2005_reachi.Worker.Outcomes.{view, Row, settled_row}

abbrev pub has_id : ℕ → Email → Bool
has_id id e = e.id == id

-- A row, and no other with its id.
pub record Alone (id : ℕ) (e : Email) (rows : List Email) : Type 0 where
  pub before : List Email
  pub after : List Email
  pub split : rows ≡ before ++ e ∷ after
  pub none_before : any (has_id id) before ≡ false
  pub none_after : any (has_id id) after ≡ false
  pub found : has_id id e ≡ true

count-none :
    (id : ℕ) (rows : List Email) → count (has_id id) rows ≡ 0 → any (has_id id) rows ≡ false
count-none id [] h = refl
count-none id (x ∷ xs) h = ground (arith, count-none id xs)

pub find-Alone :
    (id : ℕ) (e : Email) (rows : List Email)
    → find (has_id id) rows ≡ some e
    → count (has_id id) rows ≡ 1
    → Alone id e rows
find-Alone id e [] f c = cc
find-Alone id e (x ∷ xs) f c = elim (Bool-cases (has_id id x)) [
  | inl here ↦
      let same : x ≡ e = ground (arith, here) in
      record {
        before = [];
        after = xs;
        split = ap (λ y. y ∷ xs) same;
        none_before = refl;
        none_after = count-none id xs (ground (arith, here));
        found = rw (← same) here;
      }
  | inr later ↦
      let rest = find-Alone id e xs (ground (arith, later)) (ground (arith, later)) in
      record {
        before = x ∷ rest.before;
        after = rest.after;
        split = ap (◌∷◌ x) rest.split;
        none_before = ground (arith, later, rest.none_before);
        none_after = rest.none_after;
        found = rest.found;
      }
]

update_where-append :
    (p : Email → Bool) (f : Email → Email) (xs ys : List Email)
    → update_where p f (xs ++ ys) ≡ update_where p f xs ++ update_where p f ys
update_where-append p f [] ys = refl
update_where-append p f (x ∷ xs) ys =
    ap (◌∷◌ (if p x then f x else x)) (update_where-append p f xs ys)

keep-append : (p : Email → Bool) (xs ys : List Email) → keep p (xs ++ ys) ≡ keep p xs ++ keep p ys
keep-append p [] ys = refl
keep-append p (x ∷ xs) ys = ground (arith, keep-append p xs ys)

-- The rows with other ids.
module _ (id : ℕ) where
  update_where-others :
      (f : Email → Email) (rows : List Email)
      → any (has_id id) rows ≡ false
      → update_where (claims_row id) f rows ≡ rows
  update_where-others f [] h = refl
  update_where-others f (x ∷ xs) h =
      let other : claims_row id x ≡ false = ground arith in
      rw other (ap (◌∷◌ x) (update_where-others f xs (ground arith)))

  keep-others : (rows : List Email) → any (has_id id) rows ≡ false → keep (claims_row id) rows ≡ []
  keep-others [] h = refl
  keep-others (x ∷ xs) h = ground (arith, keep-others xs)

  count-others :
      (c : Claim) (rows : List Email)
      → c.id ≡ id
      → any (has_id id) rows ≡ false
      → count (is_claimed_by c) rows ≡ 0
  count-others c [] same h = refl
  count-others c (x ∷ xs) same h = ground (arith, count-others c xs same)

-- What the run makes of the rows: only the row of the email changes.
abbrev pub sent_row : ℕ → EmailStatus → ℕ → Email → Row
sent_row id status next e = if e.id == id then (e.id, status, none, next) else view e

settled-others :
    (c : Claim) (status : EmailStatus) (next : ℕ) (rows : List Email)
    → any (has_id c.id) rows ≡ false
    → map (settled_row c status next) rows ≡ map (sent_row c.id status next) rows
settled-others c status next [] h = refl
settled-others c status next (x ∷ xs) h =
    let other : (x.id == c.id) ≡ false = ground arith in
    rw other (ap (◌∷◌ (view x)) (settled-others c status next xs (ground arith)))

module _ (e : Email) (rows : List Email) (a : Alone e.id e rows) (free : claims_row e.id e ≡ true)
    (token now : ℕ) where
  abbrev pub claim : Claim
  claim = record {
    id = e.id;
    batch_id = e.batch_id;
    attempt_count = e.attempt_count + 1;
    token = token;
  }

  abbrev pub marked : Email
  marked = mark_processing token now e

  pub claimed_rows :
      update_where (claims_row e.id) (mark_processing token now) rows ≡ a.before ++ marked ∷ a.after
  claimed_rows =
      ap (update_where (claims_row e.id) (mark_processing token now)) a.split
      ∙ update_where-append (claims_row e.id) (mark_processing token now) a.before (e ∷ a.after)
      ∙ rw
          (
            update_where-others e.id (mark_processing token now) a.before a.none_before,
            update_where-others e.id (mark_processing token now) a.after a.none_after,
            free,
          )
          refl

  pub kept_rows : keep (claims_row e.id) rows ≡ e ∷ []
  kept_rows =
      ap (keep (claims_row e.id)) a.split
      ∙ keep-append (claims_row e.id) a.before (e ∷ a.after)
      ∙ rw (keep-others e.id a.before a.none_before, free, keep-others e.id a.after a.none_after)
          refl

  pub held_row : count (is_claimed_by claim) (a.before ++ marked ∷ a.after) ≡ 1
  held_row =
      count-append (is_claimed_by claim) a.before (marked ∷ a.after)
      ∙ rw
          (
            count-others e.id claim a.before refl a.none_before,
            count-others e.id claim a.after refl a.none_after,
          )
          (ground (arith, ==_refl e.id, ==_refl token))

  pub settled_rows :
      (status : EmailStatus) (next : ℕ)
      → map (settled_row claim status next) (a.before ++ marked ∷ a.after)
        ≡ map (sent_row e.id status next) rows
  settled_rows status next =
      let mine : is_claimed_by claim marked ≡ true = ground (arith, ==_refl e.id, ==_refl token) in
      map-append (settled_row claim status next) a.before (marked ∷ a.after)
      ∙ rw
          (
            settled-others claim status next a.before a.none_before,
            mine,
            settled-others claim status next a.after a.none_after,
          )
          (sym (
            ap (map (sent_row e.id status next)) a.split
            ∙ map-append (sent_row e.id status next) a.before (e ∷ a.after)
            ∙ rw (==_refl e.id) refl))
