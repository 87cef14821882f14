-- ===== src/Compose.antt =====
-- apps/frontend/src/components/ComposeModal.tsx: the form of a new campaign, with the preview of its file
-- of leads. The CSV parser and the tests of addresses, UUIDs and times are parameters, and so is what
-- the API reads of a text field of a form, which the browser encodes; an address test includes the
-- greatest length of an address. A message of an error is a constructor.
mod Texts
mod Agreement
pub mod Preview
pub mod Form
mod Examples
use abhishek_bhat2005_reachi.Base.{
  ℕ, zero, suc, ◌+◌, Bool, true, false, not, ◌&&◌, ◌||◌, Option, none, some, List, [], ◌∷◌, ◌++◌,
  map, Text, codes, text_eq, ◌==◌, ltb, leb, any, find, keep, length, get_last?, Result, ok, err,
  if◌then◌else◌,
}
use abhishek_bhat2005_reachi.Schema.{Sender}
use abhishek_bhat2005_reachi.Leads.{find_index, cell}
use abhishek_bhat2005_reachi.Leads.Strings.{trim, to_lower_case, split_on, split_lines}
use abhishek_bhat2005_reachi.Api.{ScheduleInput, is_between}
use abhishek_bhat2005_reachi.Api.Reads.{ComposeConfig}

pub record LeadPreview : Type 0 where
  pub detected : ℕ
  pub valid : ℕ
  pub invalid : ℕ
  pub duplicate : ℕ

pub data FileError : Type 0 where
  unparsed_csv no_email_header too_many_leads no_valid_address wrong_extension too_large unreadable
        upload_first :
      FileError

-- The result of `Papa.parse`: the rows, and the codes of the errors.
pub record CsvParse : Type 0 where
  pub rows : List (List Text)
  pub errors : List Text

pub record WebPlatform : Type 0 where
  pub is_email : Text → Bool
  pub parse_csv : Text → CsvParse
  pub parse_uuid : Text → Option ℕ
  pub parse_date : Text → Option ℕ
  pub field : Text → Text

-- A file that was chosen; `text` is `none` if it cannot be read.
pub record LeadFile : Type 0 where
  pub name : Text
  pub size : ℕ
  pub text : Option Text

-- `s.endsWith(suffix)`.
unfoldable pub ends_with : Text → Text → Bool
ends_with suffix [] = text_eq [] suffix
ends_with suffix (c ∷ s) = text_eq (c ∷ s) suffix || ends_with suffix s

abbrev pub first_row : List (List Text) → List Text
first_row [] = []
first_row (row ∷ rows) = row

abbrev pub rest_rows : List (List Text) → List (List Text)
rest_rows [] = []
rest_rows (row ∷ rows) = rows

-- The values of a CSV file: of the column with the heading, or of the only one.
unfoldable pub csv_values : CsvParse → Result FileError (List Text)
csv_values result =
    if any (λ code. not (text_eq code (codes "UndetectableDelimiter"))) result.errors
    then err unparsed_csv
    else elim (find_index (λ v. text_eq (to_lower_case (trim v)) (codes "email"))
        (first_row result.rows)) [
          | some column ↦ ok (map (λ row. cell row column) (rest_rows result.rows))
          | none ↦
              if any (λ row. not (length row == 1)) result.rows
              then err no_email_header
              else ok (map (λ row. cell row 0) result.rows)
        ]

abbrev pub split_parts : List Text → List Text
split_parts [] = []
split_parts (line ∷ lines) = split_on 44 line ++ split_parts lines

-- The values of a text file.
unfoldable pub text_values : Text → List Text
text_values text = keep (λ v. ltb 0 (length (trim v))) (split_parts (split_lines text))

abbrev pub empty_preview : ℕ → LeadPreview
empty_preview detected = record { detected = detected; valid = 0; invalid = 0; duplicate = 0 }

module _ (W : WebPlatform) where
  -- The loop over the values; `seen` is the list of the keys of the set.
  abbrev pub count_value : Text → List Text → LeadPreview → List Text × LeadPreview
  count_value value seen p =
      let email = trim value in
      if not (W.is_email email)
      then (seen, record p { invalid = p.invalid + 1 })
      else if any (text_eq (to_lower_case email)) seen
      then (seen, record p { duplicate = p.duplicate + 1 })
      else (to_lower_case email ∷ seen, record p { valid = p.valid + 1 })

  unfoldable pub count_values : List Text → List Text → LeadPreview → LeadPreview
  count_values [] seen p = p
  count_values (value ∷ values) seen p =
      let (seen', p') = count_value value seen p in count_values values seen' p'

  abbrev pub file_values : (text name : Text) → Result FileError (List Text)
  file_values text name =
      if ends_with (codes ".csv") (to_lower_case name)
      then csv_values (W.parse_csv text)
      else ok (text_values text)

  abbrev pub preview_values : ℕ → Result FileError (List Text) → Result FileError LeadPreview
  preview_values max_leads (err e) = err e
  preview_values max_leads (ok values) =
      if ltb max_leads (length values)
      then err too_many_leads
      else ok (count_values values [] (empty_preview (length values)))

  -- `previewLeadFile`.
  unfoldable pub preview_lead_file : LeadFile → (max_leads : ℕ) → Result FileError LeadPreview
  preview_lead_file file max_leads = elim file.text [
    | none ↦ err unreadable
    | some text ↦ preview_values max_leads (file_values text file.name)
  ]

-- What the form remembers of its file.
pub record FileState : Type 0 where
  pub file : Option LeadFile
  pub preview : Option LeadPreview
  pub file_error : Option FileError

abbrev pub failed : FileError → FileState
failed e = record { file = none; preview = none; file_error = some e }

abbrev pub is_extension : Text → Option Text → Bool
is_extension word none = false
is_extension word (some extension) = text_eq extension word

-- What `selectFile` makes of a preview.
abbrev pub previewed : LeadFile → Result FileError LeadPreview → FileState
previewed file (err e) = failed e
previewed file (ok p) =
    if p.valid == 0
    then failed no_valid_address
    else record { file = some file; preview = some p; file_error = none }

unfoldable pub select_file : WebPlatform → ComposeConfig → Option LeadFile → FileState
select_file W config none = record { file = none; preview = none; file_error = none }
select_file W config (some file) =
    let extension = get_last? (split_on 46 (to_lower_case file.name)) in
    if not (is_extension (codes "csv") extension) && not (is_extension (codes "txt") extension)
    then failed wrong_extension
    else if ltb config.max_upload_bytes file.size
    then failed too_large
    else previewed file (preview_lead_file W file config.max_leads_per_batch)

-- The values of the form.
pub record ComposeForm : Type 0 where
  pub sender_id : Text
  pub subject : Text
  pub body : Text
  pub start_at : Text
  pub minimum_delay_ms : ℕ
  pub hourly_limit : ℕ

-- The schema of the form, which trims the subject.
unfoldable pub compose_schema : WebPlatform → ComposeConfig → ComposeForm → Option ComposeForm
compose_schema W config form =
    let subject = trim form.subject in
    if not (elim (W.parse_uuid form.sender_id) [ none ↦ true | some id ↦ false ])
      && is_between 1 config.max_subject_length (length subject)
      && is_between 1 config.max_body_length (length form.body)
      && leb 1 (length form.start_at)
      && is_between config.minimum_delay_ms_min config.minimum_delay_ms_max form.minimum_delay_ms
      && is_between config.hourly_limit_min config.hourly_limit_max form.hourly_limit
    then some (record form { subject = subject })
    else none

-- `defaultSender` and `defaultValues`.
abbrev pub default_sender : List Sender → Option Sender
default_sender [] = none
default_sender (s ∷ senders) = elim (find (λ t. t.is_default) (s ∷ senders)) [
  | none ↦ some s
  | some t ↦ some t
]

abbrev pub default_values : (uuid_text : ℕ → Text) → ComposeConfig → List Sender → ComposeForm
default_values uuid_text config senders = record {
  sender_id = elim (default_sender senders) [ none ↦ [] | some s ↦ uuid_text s.id ];
  subject = [];
  body = [];
  start_at = [];
  minimum_delay_ms = config.default_minimum_delay_ms;
  hourly_limit = config.default_hourly_limit;
}

-- The fields of the request, as the API's schema reads them; `none` is the exception that
-- `toISOString` throws for a text that is no date.
unfoldable pub form_data : WebPlatform → ComposeForm → Option ScheduleInput
form_data W values = elim (W.parse_date values.start_at) [
  | none ↦ none
  | some start_at ↦ some (record {
    sender_id = elim (W.parse_uuid values.sender_id) [ none ↦ 0 | some id ↦ id ];
    subject = W.field values.subject;
    body = W.field values.body;
    start_at = start_at;
    hourly_limit = values.hourly_limit;
    minimum_delay_ms = values.minimum_delay_ms;
  })
]

-- The request of the mutation, if its values make one.
abbrev pub request_of : Option ScheduleInput → LeadFile → Option (ScheduleInput × LeadFile)
request_of none file = none
request_of (some input) file = some (input, file)

-- `submit`, for the values that the schema accepted: the request that is sent, if one is, and the file
-- state.
abbrev pub submit :
    WebPlatform → ComposeForm → FileState → Option (ScheduleInput × LeadFile) × FileState
submit W values s = elim s.file [
  | none ↦ (none, record s { file_error = some upload_first })
  | some file ↦ elim s.preview [
    | none ↦ (none, record s { file_error = some upload_first })
    | some p ↦ (request_of (form_data W values) file, s)
  ]
]
