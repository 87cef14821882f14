-- ===== src/Api/SenderExamples.antt =====
-- A second sender, and the first one given up as the default.
use abhishek_bhat2005_reachi.Base.{refl, true, false, none, some, [], ◌∷◌, any, codes, arith, ◌==◌}
use abhishek_bhat2005_reachi.Schema.{Db, list_tables}
use abhishek_bhat2005_reachi.Samples.{db_of, sender}
use abhishek_bhat2005_reachi.Leads.{Platform}
use abhishek_bhat2005_reachi.Api.{EmailApiConfig}
use abhishek_bhat2005_reachi.Api.Senders.{
  CreateSenderInput, UpdateSenderInput, post_senders, patch_senders,
}
use abhishek_bhat2005_reachi.Api.Defaults.{
  HasDefault, senders_of, post_senders-HasDefault, patch_senders-HasDefault,
}

abbrev platform : Platform
platform = record {
  is_email = λ s. any (λ c. c == 64) s;
  decode_utf8 = λ bytes. some bytes;
  parse_csv = λ s. none;
  extname = λ name. codes ".txt";
}

abbrev config : EmailApiConfig
config = record {
  api_max_page_size = 50;
  api_page_size = 20;
  default_emails_per_hour = 10;
  default_min_send_delay_ms = 500;
  max_upload_bytes = 100000;
  max_emails_per_hour = 100;
  min_send_delay_ms = 100;
  max_send_delay_ms = 60000;
  max_subject_length = 200;
  max_body_length = 1000;
  max_leads_per_batch = 10;
  max_schedule_horizon_days = 1;
}

abbrev second : CreateSenderInput
second = record {
  display_name = codes "Bob";
  email = codes "bob@x.org";
  is_default = true;
  hourly_limit = 10;
  minimum_delay_ms = 500;
}

post_senders-HasDefault_example : HasDefault 1 (
    senders_of list_tables
      (post_senders list_tables platform config 1 8 (some second) (db_of [])).1)
post_senders-HasDefault_example =
    post_senders-HasDefault list_tables platform config 1 8 (some second) (db_of []) (refl, refl)

abbrev two : Db list_tables
two = record (db_of []) {
  senders =
      sender
      ∷ record sender { id = 8; is_default = false; normalized_email = codes "bob@x.org" }
      ∷ [];
}

abbrev promote : UpdateSenderInput
promote = record {
  display_name = none;
  email = none;
  is_default = some true;
  is_active = none;
  hourly_limit = none;
  minimum_delay_ms = none;
}

patch_senders-HasDefault_example :
    HasDefault 1
      (senders_of list_tables (patch_senders list_tables platform config 1 8 (some promote) two).1)
patch_senders-HasDefault_example =
    patch_senders-HasDefault list_tables platform config 1 8 (some promote) two (omega arith)
      (refl, refl)
