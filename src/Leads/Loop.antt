-- ===== src/Leads/Loop.antt =====
-- The loop of `parseLeadFile`: what one run of it adds.
use abhishek_bhat2005_reachi.Base.{
  ℕ, zero, ◌+◌, ◌≡◌, ◌≤◌, refl, sym, ◌∙◌, inl, inr, Bool, true, false, ◌||◌, List, [], ◌∷◌, ◌++◌,
  none, some, Text, text_eq, text_eq_iff, ltb, if◌then◌else◌, any, length, min, Result, ok, err,
  ◌>>=◌, arith, length-append, any-append, count, Bool-cases, Option-cases, is_none, take, map, ◌-◌,
  keep, suc, append_assoc, append-nil,
}
use abhishek_bhat2005_reachi.Leads.{
  Platform, ParsedLead, InvalidLead, LeadParseResult, LeadFileError, Candidate, normalize_email,
  add_invalid, parse_candidates, trim, start,
}

text_eq_sym : (s t : Text) → text_eq s t ≡ text_eq t s
text_eq_sym s t = elim (Bool-cases (text_eq s t)) [
  | inl same ↦ same ∙ sym ((text_eq_iff t s).1 (sym ((text_eq_iff s t).0 same)))
  | inr other ↦ elim (Bool-cases (text_eq t s)) [
    | inl same ↦ absurd (ground (arith, text_eq_iff s t, text_eq_iff t s))
    | inr other' ↦ other ∙ sym other'
  ]
]

-- The key is among the normalized addresses of the leads.
abbrev pub has_key : Text → List ParsedLead → Bool
has_key key = any (λ l. text_eq key l.normalized_email)

-- No two leads have the same normalized address.
abbrev pub AreDistinct : List ParsedLead → Type 0
AreDistinct [] = Unit {0}
AreDistinct (l ∷ ls) = (has_key l.normalized_email ls ≡ false) × AreDistinct ls

AreDistinct-append :
    (ls : List ParsedLead) (x : ParsedLead)
    → AreDistinct ls
    → has_key x.normalized_email ls ≡ false
    → AreDistinct (ls ++ x ∷ [])
AreDistinct-append [] x d h = (refl, tt)
AreDistinct-append (l ∷ ls) x d h = ground (
  arith,
  AreDistinct-append ls x d.1,
  any-append (λ (m : ParsedLead). text_eq l.normalized_email m.normalized_email) ls (x ∷ []),
  text_eq_sym l.normalized_email x.normalized_email,
)

module _ (P : Platform) where
  -- The address of the candidate is valid, and normalizes to the key.
  abbrev pub yields : Text → Candidate → Bool
  yields key c = elim (normalize_email P c.value) [
    | none ↦ false
    | some l ↦ text_eq key l.normalized_email
  ]

  abbrev pub is_invalid : Candidate → Bool
  is_invalid c = is_none (normalize_email P c.value)

  -- The set `seen` holds the keys of the leads.
  record Tracks (seen : List Text) (r : LeadParseResult) : Type 0 where
    keys : (key : Text) → any (text_eq key) seen ≡ has_key key r.leads
    distinct : AreDistinct r.leads
    detail : length r.invalid_rows ≡ min 25 r.invalid_count

  -- The number of a row, and the first 120 units of its value.
  abbrev pub shown : Candidate → InvalidLead
  shown c = record { row = c.row; value = take 120 (trim c.value) }

  -- The rows that are shown of the invalid ones.
  abbrev pub shown_rows : List Candidate → List InvalidLead
  shown_rows cs = map shown (keep is_invalid cs)

  -- What one run of the loop adds.
  pub record Adds (cs : List Candidate) (r r' : LeadParseResult) : Type 0 where
    pub total : r'.total_rows ≡ r.total_rows
    pub counts :
        length r'.leads + r'.invalid_count + r'.duplicate_count
        ≡ length r.leads + r.invalid_count + r.duplicate_count + length cs
    pub invalid : r'.invalid_count ≡ r.invalid_count + count is_invalid cs
    pub keys : (key : Text) → has_key key r'.leads ≡ (has_key key r.leads || any (yields key) cs)
    pub distinct : AreDistinct r'.leads
    pub detail : length r'.invalid_rows ≡ min 25 r'.invalid_count
    pub kept : r'.invalid_rows ≡ r.invalid_rows ++ take (25 - length r.invalid_rows) (shown_rows cs)

  or_false : (b : Bool) → b ≡ (b || false)
  or_false true = refl
  or_false false = refl

  -- The row that `add_invalid` adds is the first of those that are still to be shown.
  kept_step :
      (c : Candidate) (cs : List Candidate) (r : LeadParseResult)
      → normalize_email P c.value ≡ none
      → length r.invalid_rows ≤ 25
      → (add_invalid P c r).invalid_rows
          ++ take (25 - length (add_invalid P c r).invalid_rows) (shown_rows cs)
        ≡ r.invalid_rows ++ take (25 - length r.invalid_rows) (shown_rows (c ∷ cs))
  unfolding add_invalid
  kept_step c cs r bad bound = elim (Bool-cases (ltb (length r.invalid_rows) 25)) [
    | inl room ↦
        let left : 25 - length r.invalid_rows ≡ suc (25 - suc (length r.invalid_rows)) =
          ground arith in
        let longer : length (r.invalid_rows ++ shown c ∷ []) ≡ suc (length r.invalid_rows) =
          omega (arith, length-append r.invalid_rows (shown c ∷ [])) in
        rw room (rw (longer, left) (rw bad (append_assoc r.invalid_rows (shown c ∷ []) _)))
    | inr full ↦
        let none_left : 25 - length r.invalid_rows ≡ 0 = ground arith in rw full (rw none_left refl)
  ]

  add_invalid-Tracks :
      (c : Candidate) (seen : List Text) (r : LeadParseResult)
      → Tracks seen r
      → Tracks seen (add_invalid P c r)
  unfolding add_invalid
  add_invalid-Tracks c seen r t =
      let shown : InvalidLead = record { row = c.row; value = take 120 (trim c.value) } in
      record {
        keys = t.keys;
        distinct = t.distinct;
        detail = ground (arith, t.detail, length-append r.invalid_rows (shown ∷ []));
      }

  lead-Tracks :
      (l : ParsedLead) (seen : List Text) (r : LeadParseResult)
      → any (text_eq l.normalized_email) seen ≡ false
      → Tracks seen r
      → Tracks (l.normalized_email ∷ seen) (record r { leads = r.leads ++ l ∷ [] })
  lead-Tracks l seen r new t = record {
    keys = λ key. ground (
      arith,
      t.keys key,
      any-append (λ (m : ParsedLead). text_eq key m.normalized_email) r.leads (l ∷ []),
    );
    distinct = AreDistinct-append r.leads l t.distinct (sym (t.keys l.normalized_email) ∙ new);
    detail = t.detail;
  }

  invalid_step :
      (c : Candidate) (cs : List Candidate) (r r' : LeadParseResult)
      → normalize_email P c.value ≡ none
      → length r.invalid_rows ≤ 25
      → Adds cs (add_invalid P c r) r'
      → Adds (c ∷ cs) r r'
  unfolding add_invalid
  invalid_step c cs r r' bad bound a = record {
    total = a.total;
    counts = omega (arith, a.counts);
    invalid = ground (arith, a.invalid);
    keys = λ key. ground (arith, a.keys key);
    distinct = a.distinct;
    detail = a.detail;
    kept = a.kept ∙ kept_step c cs r bad bound;
  }

  lead_step :
      (c : Candidate) (cs : List Candidate) (l : ParsedLead) (r r' : LeadParseResult)
      → normalize_email P c.value ≡ some l
      → Adds cs (record r { leads = r.leads ++ l ∷ [] }) r'
      → Adds (c ∷ cs) r r'
  lead_step c cs l r r' good a = record {
    total = a.total;
    counts = omega (arith, a.counts, length-append r.leads (l ∷ []));
    invalid = ground (arith, a.invalid);
    keys = λ key. ground (
      arith,
      a.keys key,
      any-append (λ (m : ParsedLead). text_eq key m.normalized_email) r.leads (l ∷ []),
    );
    distinct = a.distinct;
    detail = a.detail;
    kept = rw good a.kept;
  }

  duplicate_step :
      (c : Candidate) (cs : List Candidate) (l : ParsedLead) (r r' : LeadParseResult)
      → normalize_email P c.value ≡ some l
      → has_key l.normalized_email r.leads ≡ true
      → Adds cs (record r { duplicate_count = r.duplicate_count + 1 }) r'
      → Adds (c ∷ cs) r r'
  duplicate_step c cs l r r' good old a = record {
    total = a.total;
    counts = omega (arith, a.counts);
    invalid = ground (arith, a.invalid);
    keys = λ key. elim (Bool-cases (text_eq key l.normalized_email)) [
      | inl same ↦
          let present : has_key key r.leads ≡ true =
            rw ((text_eq_iff key l.normalized_email).0 same) old in
          ground (arith, a.keys key, good)
      | inr other ↦ ground (arith, a.keys key, good)
    ];
    distinct = a.distinct;
    detail = a.detail;
    kept = rw good a.kept;
  }

  nothing_more : (n : ℕ) (rows : List InvalidLead) → rows ≡ rows ++ take n []
  nothing_more zero rows = sym (append-nil rows)
  nothing_more (suc n) rows = sym (append-nil rows)

  loop-Adds :
      (cs : List Candidate) (seen : List Text) (r : LeadParseResult)
      → Tracks seen r
      → Adds cs r (parse_candidates P cs seen r)
  unfolding parse_candidates
  loop-Adds [] seen r t = record {
    total = refl;
    counts = omega arith;
    invalid = omega arith;
    keys = λ key. or_false (has_key key r.leads);
    distinct = t.distinct;
    detail = t.detail;
    kept = nothing_more (25 - length r.invalid_rows) r.invalid_rows;
  }
  loop-Adds (c ∷ cs) seen r t = elim (Option-cases (normalize_email P c.value)) [
    | inl bad ↦
        rw (bad, parse_candidates)
          (invalid_step c cs r _ bad (omega (arith, t.detail))
            (loop-Adds cs seen (add_invalid P c r) (add_invalid-Tracks c seen r t)))
    | inr (l, good) ↦ elim (Bool-cases (any (text_eq l.normalized_email) seen)) [
      | inl old ↦
          rw (good, parse_candidates)
            (rw old (
              duplicate_step c cs l r _ good (sym (t.keys l.normalized_email) ∙ old) (
                loop-Adds cs seen (record r { duplicate_count = r.duplicate_count + 1 })
                  (record { keys = t.keys; distinct = t.distinct; detail = t.detail }))))
      | inr new ↦
          rw (good, parse_candidates)
            (rw new (
              lead_step c cs l r _ good (
                loop-Adds cs (l.normalized_email ∷ seen) (record r { leads = r.leads ++ l ∷ [] })
                  (lead-Tracks l seen r new t))))
    ]
  ]

module _ (P : Platform) (max_leads : ℕ) (r : LeadParseResult) where
  pub record Accepted (file : Result LeadFileError (List Candidate)) : Type 0 where
    pub candidates : List Candidate
    pub parsed : file ≡ ok candidates
    pub within : length candidates ≤ max_leads
    pub result : r ≡ parse_candidates P candidates [] (start P (length candidates))

  pub accepted :
      (file : Result LeadFileError (List Candidate))
      → (file >>= λ cs.
          if ltb max_leads (length cs)
          then err LeadFileError.too_many_leads
          else ok (parse_candidates P cs [] (start P (length cs))))
        ≡ ok r
      → Accepted file
  accepted (err e) h = absurd (cc)
  accepted (ok cs) h = record {
    candidates = cs;
    parsed = refl;
    within = ground arith;
    result = ground arith;
  }

  pub accepted-Adds :
      (cs : List Candidate)
      → r ≡ parse_candidates P cs [] (start P (length cs))
      → Adds P cs (start P (length cs)) r
  accepted-Adds cs e = rw e (
      loop-Adds P cs [] (start P (length cs))
        (record { keys = λ key. refl; distinct = tt; detail = refl }))
