-- ===== src/Compose/Form.antt =====
-- The form and the API's schema of a campaign.
use abhishek_bhat2005_reachi.Base.{
  ℕ, ◌==◌, ◌≤◌, ◌||◌, none, some, leb, length, if◌then◌else◌, any, Option-cases, ◌≡◌, ◌&&◌, arith,
  Bool-cases, inl, inr, Text, Bool, true, false,
}
use abhishek_bhat2005_reachi.Leads.Strings.{trim}
use abhishek_bhat2005_reachi.Api.{
  EmailApiConfig, schedule_schema, is_between, is_policy, ScheduleInput,
}
use abhishek_bhat2005_reachi.Api.Reads.{get_compose_config}
use abhishek_bhat2005_reachi.Compose.{WebPlatform, ComposeForm, compose_schema, form_data}
use abhishek_bhat2005_reachi.Compose.Texts.{trim_again}

abbrev pub is_line_break : ℕ → Bool
is_line_break c = c == 10 || c == 13

-- What a browser documents of its encoding of a text field: a text of one line stays as it is, and
-- each line end becomes CRLF, so no text becomes shorter.
pub record IsFormEncoding (W : WebPlatform) : Type 0 where
  pub one_line : (s : Text) → any is_line_break s ≡ false → W.field s ≡ s
  pub longer : (s : Text) → length s ≤ length (W.field s)

module _ (W : WebPlatform) (config : EmailApiConfig) (form values : ComposeForm)
    (input : ScheduleInput) where
  read :
      IsFormEncoding W
      → (is_between 1 config.max_subject_length (length (trim form.subject))
          && is_between 1 config.max_body_length (length form.body)
          && is_policy config form.hourly_limit form.minimum_delay_ms)
        ≡ true
      → record form { subject = trim form.subject } ≡ values
      → any is_line_break values.subject ≡ false
      → (t : ℕ)
      → record {
        sender_id = elim (W.parse_uuid values.sender_id) [ none ↦ 0 | some id ↦ id ];
        subject = W.field values.subject;
        body = W.field values.body;
        start_at = t;
        hourly_limit = values.hourly_limit;
        minimum_delay_ms = values.minimum_delay_ms;
      }
        ≡ input
      → schedule_schema config (some input)
        ≡ (if leb (length (W.field values.body)) config.max_body_length then some input else none)
  unfolding schedule_schema
  read encoding good made line t sent =
      let line' : any is_line_break (trim form.subject) ≡ false = rw (← made) at line in
      let subject = encoding.one_line (trim form.subject) line' in
      rw (← sent, ← made)
        (rw (subject, trim_again form.subject) (ground (arith, good, encoding.longer form.body)))

-- What the form accepts, under the limits that the API has told it, with a subject of one line and a
-- start time that is a date, the API's schema accepts and leaves as it is, unless the body is
-- longer than the limit once the browser has encoded its line ends; then the API refuses it.
pub compose_schema-schedule_schema :
    (W : WebPlatform) (config : EmailApiConfig) (form values : ComposeForm) (input : ScheduleInput)
    → IsFormEncoding W
    → compose_schema W (get_compose_config config) form ≡ some values
    → any is_line_break values.subject ≡ false
    → form_data W values ≡ some input
    → schedule_schema config (some input)
      ≡ (if leb (length (W.field values.body)) config.max_body_length then some input else none)
unfolding compose_schema schedule_schema form_data
compose_schema-schedule_schema W config form values input encoding h line sent =
    elim (Bool-cases (
      is_between 1 config.max_subject_length (length (trim form.subject))
      && is_between 1 config.max_body_length (length form.body)
      && is_policy config form.hourly_limit form.minimum_delay_ms)) [
        | inr bad ↦ absurd (ground (arith, bad))
        | inl good ↦ elim (Option-cases (W.parse_date values.start_at)) [
          | inl no_date ↦ absurd (ground (arith, no_date))
          | inr (t, date) ↦
              let made : record form { subject = trim form.subject } ≡ values =
                ground (arith, good) in
              read W config form values input encoding good made line t (ground (arith, date))
        ]
      ]
