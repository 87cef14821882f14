-- ===== src/Compose/Examples.antt =====
-- A campaign with a file of three leads.
use abhishek_bhat2005_reachi.Base.{
  ◌≡◌, ◌==◌, length, leb, if◌then◌else◌, ◌≤◌, ◌<◌, refl, Bool, false, not, ◌&&◌, none, some, [],
  ◌∷◌, Text, codes, text_eq, any, ok, arith,
}
use abhishek_bhat2005_reachi.Leads.{
  Platform, is_control, file_candidates, text_candidates, is_supported_mime,
}
use abhishek_bhat2005_reachi.Leads.Strings.{trim, to_lower_case, split_lines, split_on}
use abhishek_bhat2005_reachi.Api.{ScheduleInput, schedule_schema}
use abhishek_bhat2005_reachi.Samples.{api_config}
use abhishek_bhat2005_reachi.Api.Reads.{get_compose_config}
use abhishek_bhat2005_reachi.Compose.{
  WebPlatform, LeadFile, LeadPreview, ComposeForm, select_file, compose_schema, form_data,
  preview_lead_file, count_values, text_values, ends_with,
}
use abhishek_bhat2005_reachi.Compose.Texts.{is_at}
use abhishek_bhat2005_reachi.Compose.Agreement.{TestAlike}
use abhishek_bhat2005_reachi.Compose.Preview.{Confirms, select_file-Confirms}
use abhishek_bhat2005_reachi.Compose.Form.{
  is_line_break, IsFormEncoding, compose_schema-schedule_schema,
}

abbrev is_email : Text → Bool
is_email s = any is_at s && not (any is_control s)

-- The encoding of a field whose line ends are LF, as those of a text area are.
abbrev line_ends : Text → Text
line_ends [] = []
line_ends (c ∷ s) = let rest = line_ends s in if c == 10 then 13 ∷ 10 ∷ rest else c ∷ rest

one_line : (s : Text) → any is_line_break s ≡ false → line_ends s ≡ s
one_line [] h = refl
one_line (c ∷ s) h = ground (arith, one_line s)

longer : (s : Text) → length s ≤ length (line_ends s)
longer [] = omega arith
longer (c ∷ s) = ground (arith, longer s)

abbrev web : WebPlatform
web = record {
  is_email = is_email;
  parse_csv = λ s. record { rows = []; errors = [] };
  parse_uuid = λ s. elim s [ [] ↦ none | c ∷ r ↦ some c ];
  parse_date = λ s. elim s [ [] ↦ none | c ∷ r ↦ some c ];
  field = line_ends;
}

abbrev server : Platform
server = record {
  is_email = is_email;
  decode_utf8 = λ bytes. some bytes;
  parse_csv = λ s. none;
  extname = λ name. codes ".txt";
}

alike : TestAlike web server
alike = record { same = λ s. refl; has_at = λ s h. ground arith; no_control = λ s h. ground arith }

-- The second address is the first one in capitals, which the page counts as a duplicate.
abbrev content : Text
content = codes "a@b,A@b,x"

abbrev file : LeadFile
file = record { name = codes "leads.txt"; size = 9; text = some content }

abbrev preview : LeadPreview
preview = record { detected = 3; valid = 1; invalid = 1; duplicate = 1 }

not_csv : ends_with (codes ".csv") (to_lower_case file.name) ≡ false
unfolding ends_with text_eq
not_csv = refl

same_text :
    file_candidates server content file.name (codes "text/plain") ≡ ok (text_candidates content)
unfolding file_candidates is_supported_mime text_eq
same_text = refl

kept :
    select_file web (get_compose_config api_config) (some file)
    ≡ record { file = some file; preview = some preview; file_error = none }
unfolding select_file split_on text_eq preview_lead_file ends_with text_values split_lines trim
    count_values
kept = refl

select_file-Confirms_example :
    (0 < 1) × (9 ≤ 100000) × Confirms server content file.name (codes "text/plain") 10 preview
select_file-Confirms_example =
    select_file-Confirms web server api_config file file content content (codes "text/plain")
      preview alike refl not_csv same_text kept

abbrev form : ComposeForm
form = record {
  sender_id = 7 ∷ [];
  subject = codes " Hi ";
  body = 72 ∷ 10 ∷ 73 ∷ [];
  start_at = 2000 ∷ [];
  minimum_delay_ms = 500;
  hourly_limit = 10;
}

abbrev values : ComposeForm
values = record form { subject = codes "Hi" }

valid : compose_schema web (get_compose_config api_config) form ≡ some values
unfolding compose_schema trim
valid = refl

encoding : IsFormEncoding web
encoding = record { one_line = one_line; longer = longer }

-- The line end of the body has become two characters.
abbrev input : ScheduleInput
input = record {
  sender_id = 7;
  subject = codes "Hi";
  body = 72 ∷ 13 ∷ 10 ∷ 73 ∷ [];
  start_at = 2000;
  hourly_limit = 10;
  minimum_delay_ms = 500;
}

compose_schema-schedule_schema_example :
    schedule_schema api_config (some input)
    ≡ (if leb 4 api_config.max_body_length then some input else none)
compose_schema-schedule_schema_example =
    compose_schema-schedule_schema web api_config form values input encoding valid refl
      (unfold form_data in refl)

-- A body at the limit that has a line end is accepted by the form and refused by the API.
refused :
    let short = record api_config { max_body_length = 3 } in
    (compose_schema web (get_compose_config short) form ≡ some values)
    × (form_data web values ≡ some input)
    × (schedule_schema short (some input) ≡ none)
unfolding compose_schema trim form_data schedule_schema
refused = (refl, refl, refl)
