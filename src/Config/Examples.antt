-- ===== src/Config/Examples.antt =====
-- A configuration that is accepted.
use abhishek_bhat2005_reachi.Base.{
  ◌≡◌, ◌≤◌, ◌==◌, refl, true, Option, none, some, List, [], ◌∷◌, Text, codes, text_eq,
  if◌then◌else◌, any,
}
use abhishek_bhat2005_reachi.Api.{is_policy}
use abhishek_bhat2005_reachi.Api.Lists.{is_limit}
use abhishek_bhat2005_reachi.Config.{
  EnvPlatform, Environment, Check, environment_schema, config_of, email_api_config, field_issues,
  load_config, passes, refine_issues, schema_fields, with_port,
}
use abhishek_bhat2005_reachi.Config.Accepted.{load_config_lem}

-- The numbers are texts of one character, its code.
abbrev platform : EnvPlatform
platform = record {
  coerce_number = λ s. elim s [ [] ↦ none | n ∷ rest ↦ some n ];
  is_url = λ s. true;
  is_email = λ s. any (λ c. c == 64) s;
}

abbrev value_for : Check → Text
value_for Check.positive = 10 ∷ []
value_for Check.non_negative = 10 ∷ []
value_for Check.boolean = codes "true"
value_for Check.url = codes "http://localhost"
value_for Check.email = codes "a@b"
value_for (Check.min_length n) = codes "a text of thirty-two characters or more"
value_for (Check.starts_with p) = p
value_for (Check.one_of []) = []
value_for (Check.one_of (w ∷ ws)) = w

abbrev lookup : Text → List (Text × Check) → Option Text
lookup name [] = none
lookup name ((key, check) ∷ fs) =
    let rest = lookup name fs in if text_eq name key then some (value_for check) else rest

-- `PORT` is given, beside the port of the file; an hour's reservations are kept for an hour.
abbrev environment : Environment
environment name =
    if text_eq name (codes "PORT")
    then some (80 ∷ [])
    else if text_eq name (codes "RATE_LIMIT_RESERVATION_TTL_MS")
    then some (3600000 ∷ [])
    else lookup name schema_fields

accepted : load_config platform environment ≡ some (config_of platform (with_port environment))
unfolding load_config environment_schema field_issues passes with_port text_eq refine_issues
    config_of
accepted = refl

load_config_lem_example :
    let c = config_of platform (with_port environment) in
    (is_policy (email_api_config c) c.default_emails_per_hour c.default_min_send_delay_ms ≡ true)
    × (is_limit (email_api_config c) (some c.api_page_size) ≡ true)
    × (1 ≤ c.reconciliation_batch_size)
    × (3600000 ≤ c.rate_limit_reservation_ttl_ms)
    × (some c.backend_port ≡ platform.coerce_number (80 ∷ []))
unfolding text_eq
load_config_lem_example =
    load_config_lem platform environment (config_of platform (with_port environment)) accepted
