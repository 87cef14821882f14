-- ===== src/Leads/Examples.antt =====
-- The parser on a small CSV file.
use abhishek_bhat2005_reachi.Base.{
  ◌≡◌, ◌≤◌, refl, some, List, [], ◌∷◌, ok, codes, text_eq, count, Text, any, length, min, ◌+◌, ◌==◌,
  take, map, keep, is_none,
}
use abhishek_bhat2005_reachi.Leads.{
  Platform, is_supported_mime, csv_candidates, row_candidates, parse_candidates, normalize_email,
  add_invalid, LeadParseResult, ParsedLead, Candidate, parse_lead_file, file_candidates,
}
use abhishek_bhat2005_reachi.Leads.Strings.{trim, split_address}
use abhishek_bhat2005_reachi.Leads.Counting.{parse_lead_file-counts, parse_lead_file-leads}
use abhishek_bhat2005_reachi.Leads.Loop.{has_key, AreDistinct, yields, is_invalid}

-- An address has an `@`, and the file has a heading and four rows.
abbrev platform : Platform
platform = record {
  is_email = λ s. any (λ c. c == 64) s;
  decode_utf8 = λ bytes. some bytes;
  parse_csv = λ s. some (
      (codes "Email" ∷ [])
      ∷ (codes "a@B" ∷ [])
      ∷ (codes "x" ∷ [])
      ∷ (codes " a@b" ∷ [])
      ∷ (codes "A@b" ∷ [])
      ∷ []);
  extname = λ name. codes ".csv";
}

abbrev lead : Text → ParsedLead
lead s = record { email = s; normalized_email = s }

abbrev result : LeadParseResult
result = record {
  leads = lead (codes "a@b") ∷ lead (codes "A@b") ∷ [];
  total_rows = 4;
  invalid_count = 1;
  duplicate_count = 1;
  invalid_rows = record { row = 3; value = codes "x" } ∷ [];
}

parsed : parse_lead_file platform [] (codes "leads.csv") (codes "text/csv") 10 ≡ ok result
unfolding parse_lead_file file_candidates is_supported_mime text_eq csv_candidates row_candidates
    trim parse_candidates normalize_email split_address add_invalid
parsed = refl

parse_lead_file-counts_example :
    (result.total_rows ≡ length result.leads + result.invalid_count + result.duplicate_count)
    × (result.total_rows ≤ 10)
    × (length result.invalid_rows ≡ min 25 result.invalid_count)
    × (cs : List Candidate) × (file_candidates platform [] (codes "leads.csv") (codes "text/csv")
        ≡ ok cs)
    × (result.invalid_rows
        ≡ take 25 (
            map
              (λ c. record { row = c.row; value = take 120 (trim c.value) })
              (keep (λ c. is_none (normalize_email platform c.value)) cs)))
parse_lead_file-counts_example =
    parse_lead_file-counts platform [] (codes "leads.csv") (codes "text/csv") 10 result parsed

parse_lead_file-leads_example :
    (cs : List Candidate) × (file_candidates platform [] (codes "leads.csv") (codes "text/csv")
      ≡ ok cs)
    × ((key : Text) → has_key key result.leads ≡ any (yields platform key) cs)
    × AreDistinct result.leads
    × (result.invalid_count ≡ count (is_invalid platform) cs)
parse_lead_file-leads_example =
    parse_lead_file-leads platform [] (codes "leads.csv") (codes "text/csv") 10 result parsed
