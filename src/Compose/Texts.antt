-- ===== src/Compose/Texts.antt =====
-- Texts that are trimmed, split and changed to small letters.
use abhishek_bhat2005_reachi.Base.{
  ℕ, ◌+◌, ◌≡◌, refl, sym, ap, ◌∙◌, ◌⊎◌, ==_iff, if◌then◌else◌, Bool, true, false, not, none, some,
  List, [], ◌∷◌, ◌++◌, map, map-append, Text, ◌==◌, ltb, any, keep, length, arith, Bool-cases,
  Option-cases, inl, inr,
}
use abhishek_bhat2005_reachi.Leads.{Candidate, line_candidates, part_candidates, text_candidates}
use abhishek_bhat2005_reachi.Leads.Strings.{
  is_space, trim, trim_start, trim_end, lower, to_lower_case, at_last, split_address, split_on,
  split_lines,
}
use abhishek_bhat2005_reachi.Compose.{split_parts, text_values}

not-true : (b : Bool) → not b ≡ true → b ≡ false
not-true true h = cc
not-true false h = refl

List-cases : (s : Text) → (s ≡ []) ⊎ ((c : ℕ) × (r : Text) × (s ≡ c ∷ r))
List-cases [] = inl refl
List-cases (c ∷ r) = inr (c, r, refl)

-- A text that begins with no space.
abbrev begins : Text → Bool
begins [] = true
begins (c ∷ s) = not (is_space c)

trim_start-begins : (s : Text) → begins (trim_start s) ≡ true
unfolding trim_start
trim_start-begins [] = refl
trim_start-begins (c ∷ s) = elim (Bool-cases (is_space c)) [
  | inl space ↦ rw space (trim_start-begins s)
  | inr other ↦ rw other (rw other refl)
]

trim_start-done : (s : Text) → begins s ≡ true → trim_start s ≡ s
unfolding trim_start
trim_start-done [] h = refl
trim_start-done (c ∷ s) h = rw (not-true (is_space c) h) refl

-- What is left of a text before its spaces at the end.
trim_end-empty :
    (c : ℕ) (s : Text) → trim_end s ≡ [] → trim_end (c ∷ s) ≡ (if is_space c then [] else c ∷ [])
unfolding trim_end
trim_end-empty c s h = rw (h, trim_end) refl

trim_end-more : (c d : ℕ) (s r : Text) → trim_end s ≡ d ∷ r → trim_end (c ∷ s) ≡ c ∷ d ∷ r
unfolding trim_end
trim_end-more c d s r h = rw (h, trim_end) refl

trim_end-begins : (s : Text) → begins s ≡ true → begins (trim_end s) ≡ true
trim_end-begins [] h = unfold trim_end in refl
trim_end-begins (c ∷ s) h = elim (List-cases (trim_end s)) [
  | inl gone ↦ rw (trim_end-empty c s gone) (rw (not-true (is_space c) h) h)
  | inr (d, r, left) ↦ rw (trim_end-more c d s r left) h
]

trim_end_again : (s : Text) → trim_end (trim_end s) ≡ trim_end s
trim_end_again [] = unfold trim_end in refl
trim_end_again (c ∷ s) = elim (List-cases (trim_end s)) [
  | inr (d, r, left) ↦
      let again : trim_end (trim_end s) ≡ trim_end s = trim_end_again s in
      let rest : trim_end (d ∷ r) ≡ d ∷ r = rw left at again in
      rw (trim_end-more c d s r left) (trim_end-more c d (d ∷ r) r rest)
  | inl gone ↦ elim (Bool-cases (is_space c)) [
    | inl space ↦ rw (trim_end-empty c s gone) (rw space (unfold trim_end in refl))
    | inr other ↦ rw (trim_end-empty c s gone) (rw other (unfold trim_end in rw other refl))
  ]
]

pub trim_again : (s : Text) → trim (trim s) ≡ trim s
unfolding trim
trim_again s =
    ap trim_end (
      trim_start-done (trim_end (trim_start s))
        (trim_end-begins (trim_start s) (trim_start-begins s)))
    ∙ trim_end_again (trim_start s)

lower_again : (c : ℕ) → lower (lower c) ≡ lower c
lower_again c = ground arith

pub to_lower_case_again : (s : Text) → to_lower_case (to_lower_case s) ≡ to_lower_case s
to_lower_case_again [] = refl
to_lower_case_again (c ∷ s) = rw (lower_again c) (ap (◌∷◌ (lower c)) (to_lower_case_again s))

-- An address is its part before the last `@`, the `@` and the part after it.
at_last-parts :
    (sep : ℕ) (s before after : Text)
    → at_last sep s ≡ some (before, after)
    → s ≡ before ++ sep ∷ after
unfolding at_last
at_last-parts sep [] before after h = cc
at_last-parts sep (c ∷ s) before after h = elim (Option-cases (at_last sep s)) [
  | inr ((b, a), deeper) ↦
      let found : some (c ∷ b, a) ≡ some (before, after) = rw deeper at h in
      let first : c ∷ b ≡ before = cc in
      let second : a ≡ after = cc in
      rw (← first) (rw (← second) (ap (◌∷◌ c) (at_last-parts sep s b a deeper)))
  | inl gone ↦ elim (Bool-cases (c == sep)) [
    | inl here ↦
        let found : some ([], s) ≡ some (before, after) = rw here at (rw gone at h) in
        let first : [] ≡ before = cc in
        let second : s ≡ after = cc in
        rw (← first) (rw (← second) (ap (λ x. x ∷ s) ((==_iff c sep).0 here)))
    | inr other ↦ absurd (ground (arith, gone, other))
  ]
]

at_last-found : (sep : ℕ) (s : Text) → any (λ c. c == sep) s ≡ true → ¬ (at_last sep s ≡ none)
unfolding at_last
at_last-found sep [] h k = cc
at_last-found sep (c ∷ s) h k = elim (Option-cases (at_last sep s)) [
  | inr (parts, deeper) ↦ ground (arith, deeper)
  | inl gone ↦ ground (arith, gone, at_last-found sep s)
]

abbrev pub is_at : ℕ → Bool
is_at c = c == 64

-- The address that the parser makes of one with an `@` differs in capital letters alone.
pub lower-split_address :
    (s : Text)
    → any is_at s ≡ true
    → to_lower_case ((split_address s).0 ++ 64 ∷ to_lower_case (split_address s).1)
      ≡ to_lower_case s
unfolding split_address
lower-split_address s h = elim (Option-cases (at_last 64 s)) [
  | inl gone ↦ absurd (at_last-found 64 s h gone)
  | inr ((b, a), found) ↦
      let parts : split_address s ≡ (b, a) = rw (found, split_address) refl in
      rw parts (
        map-append lower b (64 ∷ to_lower_case a)
        ∙ ap (λ t. to_lower_case b ++ 64 ∷ t) (to_lower_case_again a)
        ∙ rw (at_last-parts 64 s b a found) (sym (map-append lower b (64 ∷ a))))
]

-- The candidates of a text, less their rows.
abbrev is_filled : Text → Bool
is_filled v = ltb 0 (length (trim v))

keep-append : (p : Text → Bool) (xs ys : List Text) → keep p (xs ++ ys) ≡ keep p xs ++ keep p ys
keep-append p [] ys = refl
keep-append p (x ∷ xs) ys = ground (arith, keep-append p xs ys)

abbrev pub value_of : Candidate → Text
value_of c = c.value

parts_values :
    (row : ℕ) (parts : List Text) → map value_of (part_candidates row parts) ≡ keep is_filled parts
parts_values row [] = refl
parts_values row (v ∷ vs) = elim (Bool-cases (length (trim v) == 0)) [
  | inl blank ↦
      let skipped : is_filled v ≡ false = ground arith in
      rw blank (rw skipped (parts_values row vs))
  | inr filled ↦
      let kept : is_filled v ≡ true = ground arith in
      rw filled (rw kept (ap (◌∷◌ v) (parts_values row vs)))
]

lines_values :
    (row : ℕ) (lines : List Text)
    → map value_of (line_candidates row lines) ≡ keep is_filled (split_parts lines)
unfolding line_candidates
lines_values row [] = refl
lines_values row (line ∷ lines) =
    map-append value_of (part_candidates row (split_on 44 line)) (line_candidates (row + 1) lines)
    ∙ rw (parts_values row (split_on 44 line), lines_values (row + 1) lines)
        (sym (keep-append is_filled (split_on 44 line) (split_parts lines)))

pub text_candidates-values : (text : Text) → map value_of (text_candidates text) ≡ text_values text
unfolding text_candidates text_values
text_candidates-values text = lines_values 1 (split_lines text)
