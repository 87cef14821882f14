-- ===== src/Config.antt =====
-- apps/backend/src/config/env.ts: the configuration, read from the environment. The coercion of a
-- text to a number, and the tests of URLs and addresses, are zod's.
pub mod Accepted
mod Examples
use abhishek_bhat2005_reachi.Base.{
  ℕ, zero, suc, ◌+◌, ◌*◌, ◌≡◌, Bool, true, false, not, ◌&&◌, ◌||◌, Option, none, some, List, [],
  ◌∷◌, ◌++◌, map, Text, codes, text_eq, ◌==◌, leb, ltb, any, keep, length, Result, ok, err,
  if◌then◌else◌,
}
use abhishek_bhat2005_reachi.Api.{EmailApiConfig}

-- `coerce_number` is the number of a text that `z.coerce.number().int()` accepts and that is not negative.
pub record EnvPlatform : Type 0 where
  pub coerce_number : Text → Option ℕ
  pub is_url : Text → Bool
  pub is_email : Text → Bool

pub data LogLevel : Type 0 where
  trace debug info warn error fatal silent : LogLevel

abbrev pub Environment : Type 0
Environment = Text → Option Text

-- `z.infer<typeof environmentSchema>`.
pub record AppConfig : Type 0 where
  pub node_env : Text
  pub backend_host : Text
  pub backend_port : ℕ
  pub frontend_url : Text
  pub trust_proxy : Bool
  pub database_url : Text
  pub redis_url : Text
  pub redis_tls : Bool
  pub bullmq_prefix : Text
  pub email_queue_name : Text
  pub google_client_id : Text
  pub google_client_secret : Text
  pub google_callback_url : Text
  pub session_secret : Text
  pub session_cookie_name : Text
  pub session_redis_prefix : Text
  pub session_ttl_ms : ℕ
  pub smtp_host : Text
  pub smtp_port : ℕ
  pub smtp_secure : Bool
  pub smtp_user : Text
  pub smtp_password : Text
  pub smtp_default_from_name : Text
  pub smtp_default_from_email : Text
  pub smtp_connection_timeout_ms : ℕ
  pub smtp_socket_timeout_ms : ℕ
  pub worker_concurrency : ℕ
  pub default_min_send_delay_ms : ℕ
  pub min_send_delay_ms : ℕ
  pub max_send_delay_ms : ℕ
  pub default_emails_per_hour : ℕ
  pub max_emails_per_hour : ℕ
  pub smtp_max_attempts : ℕ
  pub smtp_backoff_ms : ℕ
  pub processing_lease_ms : ℕ
  pub job_retention_count : ℕ
  pub reconciliation_batch_size : ℕ
  pub rate_limit_reservation_ttl_ms : ℕ
  pub max_upload_bytes : ℕ
  pub max_leads_per_batch : ℕ
  pub max_subject_length : ℕ
  pub max_body_length : ℕ
  pub max_schedule_horizon_days : ℕ
  pub api_page_size : ℕ
  pub api_max_page_size : ℕ
  pub log_level : LogLevel

-- The kinds of check of the schema's fields.
pub data Check : Type 0 where
  positive non_negative boolean url email : Check
  min_length : ℕ → Check
  starts_with : Text → Check
  one_of : List Text → Check

abbrev node_environments : List Text
node_environments = codes "development" ∷ codes "test" ∷ codes "production" ∷ []

abbrev log_levels : List Text
log_levels =
    codes "fatal"
    ∷ codes "error"
    ∷ codes "warn"
    ∷ codes "info"
    ∷ codes "debug"
    ∷ codes "trace"
    ∷ codes "silent"
    ∷ []

unfoldable pub is_prefix : Text → Text → Bool
is_prefix [] s = true
is_prefix (x ∷ p) [] = false
is_prefix (x ∷ p) (y ∷ s) = x == y && is_prefix p s

-- The fields of `environmentSchema`.
abbrev pub schema_fields : List (Text × Check)
schema_fields =
    (codes "NODE_ENV", one_of node_environments)
    ∷ (codes "BACKEND_HOST", min_length 1)
    ∷ (codes "BACKEND_PORT", positive)
    ∷ (codes "FRONTEND_URL", url)
    ∷ (codes "TRUST_PROXY", boolean)
    ∷ (codes "DATABASE_URL", starts_with (codes "postgresql://"))
    ∷ (codes "REDIS_URL", starts_with (codes "redis://"))
    ∷ (codes "REDIS_TLS", boolean)
    ∷ (codes "BULLMQ_PREFIX", min_length 1)
    ∷ (codes "EMAIL_QUEUE_NAME", min_length 1)
    ∷ (codes "GOOGLE_CLIENT_ID", min_length 1)
    ∷ (codes "GOOGLE_CLIENT_SECRET", min_length 1)
    ∷ (codes "GOOGLE_CALLBACK_URL", url)
    ∷ (codes "SESSION_SECRET", min_length 32)
    ∷ (codes "SESSION_COOKIE_NAME", min_length 1)
    ∷ (codes "SESSION_REDIS_PREFIX", min_length 1)
    ∷ (codes "SESSION_TTL_MS", positive)
    ∷ (codes "SMTP_HOST", min_length 1)
    ∷ (codes "SMTP_PORT", positive)
    ∷ (codes "SMTP_SECURE", boolean)
    ∷ (codes "SMTP_USER", min_length 1)
    ∷ (codes "SMTP_PASSWORD", min_length 1)
    ∷ (codes "SMTP_DEFAULT_FROM_NAME", min_length 1)
    ∷ (codes "SMTP_DEFAULT_FROM_EMAIL", email)
    ∷ (codes "SMTP_CONNECTION_TIMEOUT_MS", positive)
    ∷ (codes "SMTP_SOCKET_TIMEOUT_MS", positive)
    ∷ (codes "WORKER_CONCURRENCY", positive)
    ∷ (codes "DEFAULT_MIN_SEND_DELAY_MS", non_negative)
    ∷ (codes "MIN_SEND_DELAY_MS", non_negative)
    ∷ (codes "MAX_SEND_DELAY_MS", positive)
    ∷ (codes "DEFAULT_EMAILS_PER_HOUR", positive)
    ∷ (codes "MAX_EMAILS_PER_HOUR", positive)
    ∷ (codes "SMTP_MAX_ATTEMPTS", positive)
    ∷ (codes "SMTP_BACKOFF_MS", positive)
    ∷ (codes "PROCESSING_LEASE_MS", positive)
    ∷ (codes "JOB_RETENTION_COUNT", positive)
    ∷ (codes "RECONCILIATION_BATCH_SIZE", positive)
    ∷ (codes "RATE_LIMIT_RESERVATION_TTL_MS", positive)
    ∷ (codes "MAX_UPLOAD_BYTES", positive)
    ∷ (codes "MAX_LEADS_PER_BATCH", positive)
    ∷ (codes "MAX_SUBJECT_LENGTH", positive)
    ∷ (codes "MAX_BODY_LENGTH", positive)
    ∷ (codes "MAX_SCHEDULE_HORIZON_DAYS", positive)
    ∷ (codes "API_PAGE_SIZE", positive)
    ∷ (codes "API_MAX_PAGE_SIZE", positive)
    ∷ (codes "LOG_LEVEL", one_of log_levels)
    ∷ []

module _ (P : EnvPlatform) where
  abbrev is_number : ℕ → Text → Bool
  is_number low s = elim (P.coerce_number s) [ none ↦ false | some n ↦ leb low n ]

  unfoldable pub passes : Check → Option Text → Bool
  unfolding is_prefix
  passes check none = false
  passes positive (some s) = is_number 1 s
  passes non_negative (some s) = is_number 0 s
  passes boolean (some s) = text_eq s (codes "true") || text_eq s (codes "false")
  passes url (some s) = P.is_url s
  passes email (some s) = P.is_email s
  passes (min_length n) (some s) = leb n (length s)
  passes (starts_with p) (some s) = is_prefix p s
  passes (one_of words) (some s) = any (text_eq s) words

  -- The paths of the issues of the fields.
  unfoldable pub field_issues : Environment → List Text
  field_issues env = map (λ f. f.0) (keep (λ f. not (passes f.1 (env f.0))) schema_fields)

  -- The value of a field that passed.
  abbrev pub text : Environment → Text → Text
  text env name = elim (env name) [ none ↦ [] | some s ↦ s ]

  abbrev pub number : Environment → Text → ℕ
  number env name = elim (P.coerce_number (text env name)) [ none ↦ 0 | some n ↦ n ]

  abbrev flag : Environment → Text → Bool
  flag env name = text_eq (text env name) (codes "true")

  abbrev level : Environment → Text → LogLevel
  level env name =
      if text_eq (text env name) (codes "fatal")
      then fatal
      else if text_eq (text env name) (codes "error")
      then error
      else if text_eq (text env name) (codes "warn")
      then warn
      else if text_eq (text env name) (codes "info")
      then info
      else if text_eq (text env name) (codes "debug")
      then debug
      else if text_eq (text env name) (codes "trace")
      then trace
      else silent

  unfoldable pub config_of : Environment → AppConfig
  config_of env = record {
    node_env = text env (codes "NODE_ENV");
    backend_host = text env (codes "BACKEND_HOST");
    backend_port = number env (codes "BACKEND_PORT");
    frontend_url = text env (codes "FRONTEND_URL");
    trust_proxy = flag env (codes "TRUST_PROXY");
    database_url = text env (codes "DATABASE_URL");
    redis_url = text env (codes "REDIS_URL");
    redis_tls = flag env (codes "REDIS_TLS");
    bullmq_prefix = text env (codes "BULLMQ_PREFIX");
    email_queue_name = text env (codes "EMAIL_QUEUE_NAME");
    google_client_id = text env (codes "GOOGLE_CLIENT_ID");
    google_client_secret = text env (codes "GOOGLE_CLIENT_SECRET");
    google_callback_url = text env (codes "GOOGLE_CALLBACK_URL");
    session_secret = text env (codes "SESSION_SECRET");
    session_cookie_name = text env (codes "SESSION_COOKIE_NAME");
    session_redis_prefix = text env (codes "SESSION_REDIS_PREFIX");
    session_ttl_ms = number env (codes "SESSION_TTL_MS");
    smtp_host = text env (codes "SMTP_HOST");
    smtp_port = number env (codes "SMTP_PORT");
    smtp_secure = flag env (codes "SMTP_SECURE");
    smtp_user = text env (codes "SMTP_USER");
    smtp_password = text env (codes "SMTP_PASSWORD");
    smtp_default_from_name = text env (codes "SMTP_DEFAULT_FROM_NAME");
    smtp_default_from_email = text env (codes "SMTP_DEFAULT_FROM_EMAIL");
    smtp_connection_timeout_ms = number env (codes "SMTP_CONNECTION_TIMEOUT_MS");
    smtp_socket_timeout_ms = number env (codes "SMTP_SOCKET_TIMEOUT_MS");
    worker_concurrency = number env (codes "WORKER_CONCURRENCY");
    default_min_send_delay_ms = number env (codes "DEFAULT_MIN_SEND_DELAY_MS");
    min_send_delay_ms = number env (codes "MIN_SEND_DELAY_MS");
    max_send_delay_ms = number env (codes "MAX_SEND_DELAY_MS");
    default_emails_per_hour = number env (codes "DEFAULT_EMAILS_PER_HOUR");
    max_emails_per_hour = number env (codes "MAX_EMAILS_PER_HOUR");
    smtp_max_attempts = number env (codes "SMTP_MAX_ATTEMPTS");
    smtp_backoff_ms = number env (codes "SMTP_BACKOFF_MS");
    processing_lease_ms = number env (codes "PROCESSING_LEASE_MS");
    job_retention_count = number env (codes "JOB_RETENTION_COUNT");
    reconciliation_batch_size = number env (codes "RECONCILIATION_BATCH_SIZE");
    rate_limit_reservation_ttl_ms = number env (codes "RATE_LIMIT_RESERVATION_TTL_MS");
    max_upload_bytes = number env (codes "MAX_UPLOAD_BYTES");
    max_leads_per_batch = number env (codes "MAX_LEADS_PER_BATCH");
    max_subject_length = number env (codes "MAX_SUBJECT_LENGTH");
    max_body_length = number env (codes "MAX_BODY_LENGTH");
    max_schedule_horizon_days = number env (codes "MAX_SCHEDULE_HORIZON_DAYS");
    api_page_size = number env (codes "API_PAGE_SIZE");
    api_max_page_size = number env (codes "API_MAX_PAGE_SIZE");
    log_level = level env (codes "LOG_LEVEL");
  }

-- `superRefine`: the path of each issue.
abbrev pub issue_if : Bool → Text → List Text
issue_if true path = path ∷ []
issue_if false path = []

unfoldable pub refine_issues : AppConfig → List Text
refine_issues config =
    issue_if (ltb config.default_min_send_delay_ms config.min_send_delay_ms)
      (codes "DEFAULT_MIN_SEND_DELAY_MS")
    ++ (issue_if (ltb config.max_send_delay_ms config.default_min_send_delay_ms)
          (codes "DEFAULT_MIN_SEND_DELAY_MS")
        ++ (issue_if (ltb config.max_emails_per_hour config.default_emails_per_hour)
              (codes "DEFAULT_EMAILS_PER_HOUR")
            ++ (issue_if (ltb config.api_max_page_size config.api_page_size) (codes "API_PAGE_SIZE")
                ++ issue_if (ltb config.rate_limit_reservation_ttl_ms (60 * 60 * 1000))
                    (codes "RATE_LIMIT_RESERVATION_TTL_MS"))))

abbrev pub accept_if_none : List Text → AppConfig → Option AppConfig
accept_if_none [] config = some config
accept_if_none (i ∷ is) config = none

-- `environmentSchema.parse`; `none` is its exception, less the issues that it lists.
unfoldable pub environment_schema : EnvPlatform → Environment → Option AppConfig
environment_schema P env =
    accept_if_none (field_issues P env ++ refine_issues (config_of P env)) (config_of P env)

-- `loadConfig`: the port is `PORT ?? BACKEND_PORT`.
abbrev pub or_other : Option Text → Option Text → Option Text
or_other none o = o
or_other (some s) o = some s

unfoldable pub with_port : Environment → Environment
with_port env name =
    if text_eq name (codes "BACKEND_PORT")
    then or_other (env (codes "PORT")) (env (codes "BACKEND_PORT"))
    else env name

unfoldable pub load_config : EnvPlatform → Environment → Option AppConfig
load_config P env = environment_schema P (with_port env)

-- `EmailApiConfig`, a part of the configuration.
abbrev pub email_api_config : AppConfig → EmailApiConfig
email_api_config c = record {
  api_max_page_size = c.api_max_page_size;
  api_page_size = c.api_page_size;
  default_emails_per_hour = c.default_emails_per_hour;
  default_min_send_delay_ms = c.default_min_send_delay_ms;
  max_upload_bytes = c.max_upload_bytes;
  max_emails_per_hour = c.max_emails_per_hour;
  min_send_delay_ms = c.min_send_delay_ms;
  max_send_delay_ms = c.max_send_delay_ms;
  max_subject_length = c.max_subject_length;
  max_body_length = c.max_body_length;
  max_leads_per_batch = c.max_leads_per_batch;
  max_schedule_horizon_days = c.max_schedule_horizon_days;
}
