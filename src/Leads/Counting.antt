-- ===== src/Leads/Counting.antt =====
-- What `parseLeadFile` counts, keeps and drops.
use abhishek_bhat2005_reachi.Base.{
  ℕ, ◌+◌, ◌≡◌, ◌≤◌, List, Text, any, length, min, ok, arith, count, is_none, take, map, keep,
}
use abhishek_bhat2005_reachi.Leads.{
  Platform, LeadParseResult, Candidate, normalize_email, parse_lead_file, file_candidates, trim,
}
use abhishek_bhat2005_reachi.Leads.Loop.{
  has_key, AreDistinct, yields, is_invalid, accepted, accepted-Adds,
}

-- Every row of an accepted file is counted once: as a lead, as invalid or as a duplicate of an earlier
-- lead. There are no more rows than allowed; and what is reported of the invalid rows is, of the first
-- 25 of them in the order of the file and of no others, the number of the row and the first 120 units
-- of its trimmed value.
pub parse_lead_file-counts :
    (P : Platform) (buffer : List ℕ) (filename mime : Text) (max_leads : ℕ) (r : LeadParseResult)
    → parse_lead_file P buffer filename mime max_leads ≡ ok r
    → (r.total_rows ≡ length r.leads + r.invalid_count + r.duplicate_count)
      × (r.total_rows ≤ max_leads)
      × (length r.invalid_rows ≡ min 25 r.invalid_count)
      × (cs : List Candidate) × (file_candidates P buffer filename mime ≡ ok cs)
      × (r.invalid_rows
          ≡ take 25 (
              map
                (λ c. record { row = c.row; value = take 120 (trim c.value) })
                (keep (λ c. is_none (normalize_email P c.value)) cs)))
unfolding parse_lead_file
parse_lead_file-counts P buffer filename mime max_leads r h =
    let a = accepted P max_leads r (file_candidates P buffer filename mime) h in
    let b = accepted-Adds P max_leads r a.candidates a.result in
    (
      omega (arith, b.total, b.counts),
      omega (arith, b.total, a.within),
      b.detail,
      a.candidates,
      a.parsed,
      b.kept,
    )

-- The leads of an accepted file are the valid addresses among its candidates, each once: an address
-- is that of a lead exactly when some candidate normalizes to it, no two leads share one, and the
-- candidates that do not normalize are those counted as invalid.
pub parse_lead_file-leads :
    (P : Platform) (buffer : List ℕ) (filename mime : Text) (max_leads : ℕ) (r : LeadParseResult)
    → parse_lead_file P buffer filename mime max_leads ≡ ok r
    → (cs : List Candidate) × (file_candidates P buffer filename mime ≡ ok cs)
      × ((key : Text) → has_key key r.leads ≡ any (yields P key) cs)
      × AreDistinct r.leads
      × (r.invalid_count ≡ count (is_invalid P) cs)
unfolding parse_lead_file
parse_lead_file-leads P buffer filename mime max_leads r h =
    let a = accepted P max_leads r (file_candidates P buffer filename mime) h in
    let b = accepted-Adds P max_leads r a.candidates a.result in
    (a.candidates, a.parsed, b.keys, b.distinct, omega (arith, b.invalid))
