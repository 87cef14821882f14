-- ===== src/Compose/Agreement.antt =====
-- The loops of the page's preview and of the API's parser, side by side.
use abhishek_bhat2005_reachi.Base.{
  ℕ, ◌+◌, ◌≡◌, ◌≤◌, refl, ap, true, false, none, some, List, [], ◌∷◌, ◌++◌, map, Text, text_eq,
  text_eq_iff, text_eq_refl, any, length, length-append, arith, Bool-cases, inl, inr, suc,
}
use abhishek_bhat2005_reachi.Leads.Strings.{trim, to_lower_case, split_address}
use abhishek_bhat2005_reachi.Leads.{
  Platform, ParsedLead, LeadParseResult, Candidate, normalize_email, is_control, is_seen,
  add_invalid, parse_candidates,
}
use abhishek_bhat2005_reachi.Compose.{WebPlatform, LeadPreview, count_value, count_values}
use abhishek_bhat2005_reachi.Compose.Texts.{is_at, value_of, lower-split_address}

-- The page and the API test addresses alike, and an address has an `@` and no control character.
pub record TestAlike (W : WebPlatform) (P : Platform) : Type 0 where
  pub same : (s : Text) → W.is_email s ≡ P.is_email s
  pub has_at : (s : Text) → P.is_email s ≡ true → any is_at s ≡ true
  pub no_control : (s : Text) → P.is_email s ≡ true → any is_control s ≡ false

module _ (W : WebPlatform) (P : Platform) (alike : TestAlike W P) where
  -- Every address that the API has seen is one that the page has seen, in small letters.
  abbrev Covers : List Text → List Text → Type 0
  Covers seen shown =
      (key : Text) → any (text_eq key) seen ≡ true → any (text_eq (to_lower_case key)) shown ≡ true

  pub record Agrees (n : ℕ) (r r' : LeadParseResult) (p p' : LeadPreview) : Type 0 where
    pub detected : p'.detected ≡ p.detected
    pub total : r'.total_rows ≡ r.total_rows
    pub invalid : r'.invalid_count + p.invalid ≡ r.invalid_count + p'.invalid
    pub valid : p'.valid + length r.leads ≤ p.valid + length r'.leads
    pub shown : p'.valid + p'.invalid + p'.duplicate ≡ p.valid + p.invalid + p.duplicate + n
    pub parsed :
        length r'.leads + r'.invalid_count + r'.duplicate_count
        ≡ length r.leads + r.invalid_count + r.duplicate_count + n

  normalized :
      (value : Text)
      → P.is_email (trim value) ≡ true
      → (l : ParsedLead) × (normalize_email P value ≡ some l)
        × (to_lower_case l.normalized_email ≡ to_lower_case (trim value))
  unfolding normalize_email
  normalized value h =
      let address =
        (split_address (trim value)).0 ++ 64 ∷ to_lower_case (split_address (trim value)).1 in
      (
        record { email = address; normalized_email = address },
        rw (alike.no_control (trim value) h) (rw h refl),
        lower-split_address (trim value) (alike.has_at (trim value) h),
      )

  refused : (value : Text) → P.is_email (trim value) ≡ false → normalize_email P value ≡ none
  unfolding normalize_email
  refused value h = elim (Bool-cases (any is_control (trim value))) [
    | inl bad ↦ rw bad refl
    | inr clean ↦ rw clean (rw h refl)
  ]

  -- One value of the page's loop, and one candidate of the parser's.
  count_step :
      (c : Candidate) (cs : List Candidate) (shown : List Text) (p : LeadPreview)
      (next : List Text × LeadPreview)
      → count_value W c.value shown p ≡ next
      → count_values W (map value_of (c ∷ cs)) shown p
        ≡ count_values W (map value_of cs) next.0 next.1
  unfolding count_values
  count_step c cs shown p next e = ap (λ x. count_values W (map value_of cs) x.0 x.1) e

  parse_refused :
      (c : Candidate) (cs : List Candidate) (seen : List Text) (r : LeadParseResult)
      → normalize_email P c.value ≡ none
      → parse_candidates P (c ∷ cs) seen r ≡ parse_candidates P cs seen (add_invalid P c r)
  unfolding parse_candidates
  parse_refused c cs seen r e = rw (e, parse_candidates) refl

  parse_repeated :
      (c : Candidate) (cs : List Candidate) (seen : List Text) (r : LeadParseResult)
      (l : ParsedLead)
      → normalize_email P c.value ≡ some l
      → is_seen P l.normalized_email seen ≡ true
      → parse_candidates P (c ∷ cs) seen r
        ≡ parse_candidates P cs seen (record r { duplicate_count = r.duplicate_count + 1 })
  unfolding parse_candidates
  parse_repeated c cs seen r l e old = rw (e, parse_candidates) (rw old refl)

  parse_new :
      (c : Candidate) (cs : List Candidate) (seen : List Text) (r : LeadParseResult)
      (l : ParsedLead)
      → normalize_email P c.value ≡ some l
      → is_seen P l.normalized_email seen ≡ false
      → parse_candidates P (c ∷ cs) seen r
        ≡ parse_candidates P cs (l.normalized_email ∷ seen) (record r { leads = r.leads ++ l ∷ [] })
  unfolding parse_candidates
  parse_new c cs seen r l e fresh = rw (e, parse_candidates) (rw fresh refl)

  -- The sets grow together.
  Covers-cons :
      (key small : Text) (seen shown : List Text)
      → to_lower_case key ≡ small
      → any (text_eq small) shown ≡ true
      → Covers seen shown
      → Covers (key ∷ seen) shown
  Covers-cons key small seen shown same there cover k h = elim (Bool-cases (text_eq k key)) [
    | inl equal ↦ rw ((text_eq_iff k key).0 equal, same) there
    | inr other ↦ cover k (ground (arith, other))
  ]

  Covers-shown :
      (small : Text) (seen shown : List Text) → Covers seen shown → Covers seen (small ∷ shown)
  Covers-shown small seen shown cover k h = ground (arith, cover k h)

  invalid_step :
      (n : ℕ) (c : Candidate) (r r' : LeadParseResult) (p p' : LeadPreview)
      → Agrees n (add_invalid P c r) r' (record p { invalid = p.invalid + 1 }) p'
      → Agrees (suc n) r r' p p'
  unfolding add_invalid
  invalid_step n c r r' p p' a = record {
    detected = a.detected;
    total = a.total;
    invalid = omega (arith, a.invalid);
    valid = a.valid;
    shown = omega (arith, a.shown);
    parsed = omega (arith, a.parsed);
  }

  repeated_step :
      (n : ℕ) (r r' : LeadParseResult) (p p' : LeadPreview)
      → Agrees n
          (record r { duplicate_count = r.duplicate_count + 1 })
          r'
          (record p { duplicate = p.duplicate + 1 })
          p'
      → Agrees (suc n) r r' p p'
  repeated_step n r r' p p' a = record {
    detected = a.detected;
    total = a.total;
    invalid = a.invalid;
    valid = a.valid;
    shown = omega (arith, a.shown);
    parsed = omega (arith, a.parsed);
  }

  -- The API sees a new address where the page sees one that differs in capital letters from another.
  hidden_step :
      (n : ℕ) (l : ParsedLead) (r r' : LeadParseResult) (p p' : LeadPreview)
      → Agrees n
          (record r { leads = r.leads ++ l ∷ [] })
          r'
          (record p { duplicate = p.duplicate + 1 })
          p'
      → Agrees (suc n) r r' p p'
  hidden_step n l r r' p p' a = record {
    detected = a.detected;
    total = a.total;
    invalid = a.invalid;
    valid = omega (arith, a.valid, length-append r.leads (l ∷ []));
    shown = omega (arith, a.shown);
    parsed = omega (arith, a.parsed, length-append r.leads (l ∷ []));
  }

  new_step :
      (n : ℕ) (l : ParsedLead) (r r' : LeadParseResult) (p p' : LeadPreview)
      → Agrees n (record r { leads = r.leads ++ l ∷ [] }) r' (record p { valid = p.valid + 1 }) p'
      → Agrees (suc n) r r' p p'
  new_step n l r r' p p' a = record {
    detected = a.detected;
    total = a.total;
    invalid = a.invalid;
    valid = omega (arith, a.valid, length-append r.leads (l ∷ []));
    shown = omega (arith, a.shown);
    parsed = omega (arith, a.parsed, length-append r.leads (l ∷ []));
  }

  pub agree :
      (cs : List Candidate) (seen shown : List Text) (r : LeadParseResult) (p : LeadPreview)
      → Covers seen shown
      → Agrees
          (length cs)
          r
          (parse_candidates P cs seen r)
          p
          (count_values W (map value_of cs) shown p)
  agree [] seen shown r p cover =
      unfold parse_candidates count_values in
      record {
        detected = refl;
        total = refl;
        invalid = refl;
        valid = omega arith;
        shown = omega arith;
        parsed = omega arith;
      }
  agree (c ∷ cs) seen shown r p cover = elim (Bool-cases (P.is_email (trim c.value))) [
    | inr bad ↦
        let p' : LeadPreview = record p { invalid = p.invalid + 1 } in
        let counted : count_value W c.value shown p ≡ (shown, p') =
          rw (alike.same (trim c.value)) (rw bad refl) in
        let a = agree cs seen shown (add_invalid P c r) p' cover in
        rw
          (
            parse_refused c cs seen r (refused c.value bad),
            count_step c cs shown p (shown, p') counted,
          )
          (invalid_step (length cs) c r _ p _ a)
    | inl good ↦
        let (l, found, small) = normalized c.value good in
        let key = to_lower_case (trim c.value) in
        elim (Bool-cases (any (text_eq key) shown)) [
          | inl old ↦
              let p' : LeadPreview = record p { duplicate = p.duplicate + 1 } in
              let counted : count_value W c.value shown p ≡ (shown, p') =
                rw (alike.same (trim c.value)) (rw good (rw old refl)) in
              elim (Bool-cases (is_seen P l.normalized_email seen)) [
                | inl known ↦
                    let a =
                      agree cs seen shown (record r { duplicate_count = r.duplicate_count + 1 }) p'
                        cover in
                    rw
                      (
                        parse_repeated c cs seen r l found known,
                        count_step c cs shown p (shown, p') counted,
                      )
                      (repeated_step (length cs) r _ p _ a)
                | inr unknown ↦
                    let a =
                      agree cs (l.normalized_email ∷ seen) shown
                        (record r { leads = r.leads ++ l ∷ [] }) p'
                        (Covers-cons l.normalized_email key seen shown small old cover) in
                    rw
                      (
                        parse_new c cs seen r l found unknown,
                        count_step c cs shown p (shown, p') counted,
                      )
                      (hidden_step (length cs) l r _ p _ a)
              ]
          | inr fresh ↦
              let p' : LeadPreview = record p { valid = p.valid + 1 } in
              let counted : count_value W c.value shown p ≡ (key ∷ shown, p') =
                rw (alike.same (trim c.value)) (rw good (rw fresh refl)) in
              elim (Bool-cases (is_seen P l.normalized_email seen)) [
                | inl known ↦
                    let there : any (text_eq (to_lower_case l.normalized_email)) shown ≡ true =
                      cover l.normalized_email known in
                    absurd (ground (arith, fresh, rw small at there))
                | inr unknown ↦
                    let here : any (text_eq key) (key ∷ shown) ≡ true =
                      rw (text_eq_refl key) refl in
                    let a =
                      agree cs (l.normalized_email ∷ seen) (key ∷ shown)
                        (record r { leads = r.leads ++ l ∷ [] }) p'
                        (Covers-cons l.normalized_email key seen (key ∷ shown) small here
                          (Covers-shown key seen shown cover)) in
                    rw
                      (
                        parse_new c cs seen r l found unknown,
                        count_step c cs shown p (key ∷ shown, p') counted,
                      )
                      (new_step (length cs) l r _ p _ a)
              ]
        ]
  ]
