-- ===== src/Leads.antt =====
-- apps/backend/src/email/lead-parser.ts. The address test of zod, the CSV parser, the UTF-8 decoder
-- and `extname` are parameters.
pub mod Strings
pub mod Loop
pub mod Counting
mod Examples
use abhishek_bhat2005_reachi.Base.{
  ℕ, zero, suc, ◌+◌, Bool, true, false, not, ◌&&◌, ◌||◌, List, [], ◌∷◌, ◌++◌, map, Option, none,
  some, Text, codes, text_eq, ◌==◌, leb, ltb, if◌then◌else◌, any, length, take, drop, keep, Result,
  ok, err, ◌>>=◌,
}
use Strings.{trim, to_lower_case, split_on, split_lines, split_address}

pub record ParsedLead : Type 0 where
  pub email : Text
  pub normalized_email : Text

-- The reason of an invalid lead is always "invalid_email".
pub record InvalidLead : Type 0 where
  pub row : ℕ
  pub value : Text

pub record LeadParseResult : Type 0 where
  pub leads : List ParsedLead
  pub total_rows : ℕ
  pub invalid_count : ℕ
  pub duplicate_count : ℕ
  pub invalid_rows : List InvalidLead

pub data LeadFileError : Type 0 where
  invalid_file too_many_leads unsupported_file : LeadFileError

pub record Candidate : Type 0 where
  pub row : ℕ
  pub value : Text

-- What the parser takes from other packages and from the platform.
pub record Platform : Type 0 where
  pub is_email : Text → Bool
  pub decode_utf8 : List ℕ → Option Text
  pub parse_csv : Text → Option (List (List Text))
  pub extname : Text → Text

-- `/^\uFEFF/` is replaced by nothing.
strip_bom : Text → Text
strip_bom [] = []
strip_bom (c ∷ s) = if c == 65279 then s else c ∷ s

-- `findIndex`: `none` for -1.
unfoldable pub find_index : (Text → Bool) → List Text → Option ℕ
find_index p [] = none
find_index p (x ∷ xs) =
    if p x then some 0 else elim (find_index p xs) [ none ↦ none | some i ↦ some (i + 1) ]

-- `row[column] ?? ""`.
unfoldable pub cell : List Text → ℕ → Text
cell [] i = []
cell (x ∷ xs) zero = x
cell (x ∷ xs) (suc i) = cell xs i

-- The cells of a column, from a row number on.
column_candidates : ℕ → ℕ → List (List Text) → List Candidate
unfolding cell
column_candidates column row [] = []
column_candidates column row (r ∷ rs) =
    record { row = row; value = cell r column } ∷ column_candidates column (row + 1) rs

unfoldable pub is_supported_mime : Text → Bool
is_supported_mime mime = any (text_eq mime) (
    codes "application/csv"
    ∷ codes "application/octet-stream"
    ∷ codes "application/vnd.ms-excel"
    ∷ codes "text/csv"
    ∷ codes "text/plain"
    ∷ [])

-- The rows of a parsed CSV file.
unfoldable pub row_candidates : List (List Text) → Result LeadFileError (List Candidate)
unfolding find_index column_candidates
row_candidates [] = ok []
row_candidates (first ∷ rest) =
    elim (find_index (λ v. text_eq (to_lower_case (trim v)) (codes "email")) first) [
      | some column ↦ ok (column_candidates column 2 rest)
      | none ↦
          if any (λ r. not (length r == 1)) (first ∷ rest)
          then err LeadFileError.invalid_file
          else ok (column_candidates 0 1 (first ∷ rest))
    ]

-- The parts of one line that are not blank.
abbrev pub part_candidates : ℕ → List Text → List Candidate
part_candidates row parts =
    map (λ v. record { row = row; value = v }) (keep (λ v. not (length (trim v) == 0)) parts)

unfoldable pub line_candidates : ℕ → List Text → List Candidate
line_candidates row [] = []
line_candidates row (line ∷ lines) =
    part_candidates row (split_on 44 line) ++ line_candidates (row + 1) lines

unfoldable pub text_candidates : Text → List Candidate
unfolding line_candidates
text_candidates content = line_candidates 1 (split_lines content)

abbrev pub is_control : ℕ → Bool
is_control c = leb c 31 || c == 127

module _ (P : Platform) where
  unfoldable pub csv_candidates : Text → Result LeadFileError (List Candidate)
  csv_candidates content = elim (P.parse_csv content) [
    | none ↦ err LeadFileError.invalid_file
    | some rows ↦ row_candidates rows
  ]

  unfoldable pub normalize_email : Text → Option ParsedLead
  normalize_email value =
      let email = trim value in
      if any is_control email || not (P.is_email email)
      then none
      else let (local_part, domain) = split_address email in
        let address = local_part ++ 64 ∷ to_lower_case domain in
        some (record { email = address; normalized_email = address })

  -- One candidate, and the loop over them. `seen` is the list of the keys of the set.
  abbrev pub is_seen : Text → List Text → Bool
  is_seen key seen = any (text_eq key) seen

  abbrev pub start : ℕ → LeadParseResult
  start total = record {
    leads = [];
    total_rows = total;
    invalid_count = 0;
    duplicate_count = 0;
    invalid_rows = [];
  }

  unfoldable pub add_invalid : Candidate → LeadParseResult → LeadParseResult
  add_invalid candidate r = record r {
    invalid_count = r.invalid_count + 1;
    invalid_rows =
        if ltb (length r.invalid_rows) 25
        then r.invalid_rows
          ++ record { row = candidate.row; value = take 120 (trim candidate.value) } ∷ []
        else r.invalid_rows;
  }

  unfoldable pub parse_candidates : List Candidate → List Text → LeadParseResult → LeadParseResult
  parse_candidates [] seen r = r
  parse_candidates (candidate ∷ rest) seen r = elim (normalize_email candidate.value) [
    | none ↦ parse_candidates rest seen (add_invalid candidate r)
    | some lead ↦ elim (is_seen lead.normalized_email seen) [
      | true ↦ parse_candidates rest seen (record r { duplicate_count = r.duplicate_count + 1 })
      | false ↦
          parse_candidates rest (lead.normalized_email ∷ seen)
            (record r { leads = r.leads ++ lead ∷ [] })
    ]
  ]

  -- The candidates of a file, with the checks before them.
  unfoldable pub file_candidates : List ℕ → Text → Text → Result LeadFileError (List Candidate)
  unfolding strip_bom
  file_candidates buffer filename mime =
      let extension = to_lower_case (P.extname filename) in
      let is_csv = text_eq extension (codes ".csv") in
      if not (is_supported_mime mime) || (not is_csv && not (text_eq extension (codes ".txt")))
      then err LeadFileError.unsupported_file
      else elim (P.decode_utf8 buffer) [
        | none ↦ err LeadFileError.invalid_file
        | some decoded ↦
            let content = strip_bom decoded in
            if is_csv then csv_candidates content else ok (text_candidates content)
      ]

  unfoldable pub parse_lead_file : List ℕ → Text → Text → ℕ → Result LeadFileError LeadParseResult
  parse_lead_file buffer filename mime max_leads = do
    candidates ← file_candidates buffer filename mime
    if ltb max_leads (length candidates)
        then err LeadFileError.too_many_leads
        else ok (parse_candidates candidates [] (start (length candidates)))
