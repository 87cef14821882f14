-- ===== src/Compose/Preview.antt =====
-- The preview of a text file and what the API makes of it.
use abhishek_bhat2005_reachi.Base.{
  ℕ, ◌≡◌, ◌≤◌, ◌<◌, refl, sym, ap, ◌∙◌, false, none, some, List, [], ◌∷◌, map, Text, codes, length,
  ltb, ok, err, if◌then◌else◌, arith, Bool-cases, Result-cases, inl, inr,
}
use abhishek_bhat2005_reachi.Leads.Strings.{to_lower_case}
use abhishek_bhat2005_reachi.Leads.{
  Platform, LeadParseResult, Candidate, parse_candidates, parse_lead_file, file_candidates,
  text_candidates, start,
}
use abhishek_bhat2005_reachi.Api.{EmailApiConfig}
use abhishek_bhat2005_reachi.Api.Reads.{get_compose_config}
use abhishek_bhat2005_reachi.Compose.{
  select_file, WebPlatform, LeadFile, LeadPreview, FileError, count_values, empty_preview,
  preview_lead_file, preview_values, text_values, ends_with,
}
use abhishek_bhat2005_reachi.Compose.Texts.{value_of, text_candidates-values}
use abhishek_bhat2005_reachi.Compose.Agreement.{TestAlike, agree}

-- What the API makes of a text file that the page has previewed.
pub record Confirms (P : Platform) (buffer : List ℕ) (name mime : Text) (max_leads : ℕ)
    (p : LeadPreview) : Type 0 where
  pub parsed : LeadParseResult
  pub accepted : parse_lead_file P buffer name mime max_leads ≡ ok parsed
  pub total : parsed.total_rows ≡ p.detected
  pub invalid : parsed.invalid_count ≡ p.invalid
  pub valid : p.valid ≤ length parsed.leads
  pub duplicate : parsed.duplicate_count ≤ p.duplicate

length-value_of : (cs : List Candidate) → length (map value_of cs) ≡ length cs
length-value_of [] = refl
length-value_of (c ∷ cs) = omega (arith, length-value_of cs)

preview_lead_file-Confirms :
    (W : WebPlatform) (P : Platform) (file : LeadFile) (content : Text) (buffer : List ℕ)
    (mime : Text) (max_leads : ℕ) (p : LeadPreview)
    → TestAlike W P
    → file.text ≡ some content
    → ends_with (codes ".csv") (to_lower_case file.name) ≡ false
    → file_candidates P buffer file.name mime ≡ ok (text_candidates content)
    → preview_lead_file W file max_leads ≡ ok p
    → Confirms P buffer file.name mime max_leads p
unfolding preview_lead_file parse_lead_file
preview_lead_file-Confirms W P file content buffer mime max_leads p alike readable not_csv same_text
      h =
    let cs = text_candidates content in
    let values = text_candidates-values content in
    let n : length (text_values content) ≡ length cs =
      ap length (sym values) ∙ length-value_of cs in
    let shown : preview_values W max_leads (ok (text_values content)) ≡ ok p =
      rw not_csv at (rw readable at h) in
    let checked : (if ltb max_leads (length cs)
          then err FileError.too_many_leads
          else ok (count_values W (text_values content) [] (empty_preview (length cs))))
        ≡ ok p =
      rw n at shown in
    elim (Bool-cases (ltb max_leads (length cs))) [
      | inl more ↦ absurd (ground (arith, more, checked))
      | inr within ↦
          let r = parse_candidates P cs [] (start P (length cs)) in
          let same : count_values W (map value_of cs) [] (empty_preview (length cs)) ≡ p =
            ap (λ v. count_values W v [] (empty_preview (length cs))) values
            ∙ ground (arith, within, checked) in
          let a =
            agree W P alike cs [] [] (start P (length cs)) (empty_preview (length cs)) (λ k i. i) in
          record {
            parsed = r;
            accepted = rw same_text (rw within refl);
            total = rw (← same) (omega (arith, a.total, a.detected));
            invalid = rw (← same) (omega (arith, a.invalid));
            valid = rw (← same) (omega (arith, a.valid));
            duplicate = rw (← same) (omega (arith, a.valid, a.invalid, a.shown, a.parsed));
          }
    ]

-- A text file that the form keeps is not refused by the API for its content: when the API reads the same
-- text, under the limits that it has told the form, it parses the file, with as many rows and as
-- many invalid ones as the page has shown, at least as many leads, of which there is one, and at most
-- as many duplicates.
pub select_file-Confirms :
    (W : WebPlatform) (P : Platform) (config : EmailApiConfig) (file kept : LeadFile)
    (content : Text) (buffer : List ℕ) (mime : Text) (p : LeadPreview)
    → TestAlike W P
    → file.text ≡ some content
    → ends_with (codes ".csv") (to_lower_case file.name) ≡ false
    → file_candidates P buffer file.name mime ≡ ok (text_candidates content)
    → select_file W (get_compose_config config) (some file)
      ≡ record { file = some kept; preview = some p; file_error = none }
    → (0 < p.valid)
      × (file.size ≤ config.max_upload_bytes)
      × Confirms P buffer file.name mime config.max_leads_per_batch p
unfolding select_file
select_file-Confirms W P config file kept content buffer mime p alike readable not_csv same_text h =
    elim (Result-cases (preview_lead_file W file config.max_leads_per_batch)) [
      | inr (e, refused) ↦ absurd (ground (arith, refused))
      | inl (q, shown) ↦
          let same : q ≡ p = ground (arith, shown) in
          (
            ground (arith, shown),
            ground (arith, shown),
            preview_lead_file-Confirms W P file content buffer mime config.max_leads_per_batch p
                alike readable not_csv same_text (shown ∙ ap ok same),
          )
    ]
