-- ===== src/Http.antt =====
-- apps/backend/src/app.ts, http/http-error.ts, http/async-handler.ts and auth/require-auth.ts: what
-- answers a request, apart from its route. server.ts, lines 22 and 23, is what logs an error. The bodies of
-- answers keep the parts that are decided here.
pub mod Errors
mod Examples
use abhishek_bhat2005_reachi.Base.{
  ℕ, Bool, ◌&&◌, Option, none, some, [], ◌∷◌, Text, codes, text_eq, Result, ok, err, if◌then◌else◌,
}
use abhishek_bhat2005_reachi.Config.{LogLevel}
use abhishek_bhat2005_reachi.Logging.{LogValue, Line, emit}

-- What a handler throws: an `HttpError`, with the JSON of its details, a `MulterError` by its code, an
-- `Error` by its name and message, or another value.
pub data Failure : Type 0 where
  http_failure : (status : ℕ) (code message : Text) (details : Option Text) → Failure
  multer_failure : (code : Text) → Failure
  error_failure : (name message : Text) → Failure
  value_failure : Text → Failure

pub record ErrorResponse : Type 0 where
  pub status : ℕ
  pub code : Text
  pub message : Text
  pub details : Option Text

unfoldable pub error_handler : Failure → ErrorResponse
error_handler (http_failure status code message details) = record {
  status = status;
  code = code;
  message = message;
  details = details;
}
error_handler (multer_failure code) =
    if text_eq code (codes "LIMIT_FILE_SIZE")
    then record {
      status = 413;
      code = codes "UPLOAD_TOO_LARGE";
      message = codes "The uploaded file exceeds the configured size limit";
      details = none;
    }
    else record {
      status = 400;
      code = codes "INVALID_UPLOAD";
      message = codes "The multipart upload is invalid";
      details = none;
    }
error_handler _ = record {
  status = 500;
  code = codes "INTERNAL_SERVER_ERROR";
  message = codes "An unexpected error occurred";
  details = none;
}

-- `errorName` of the logger.
abbrev pub error_name : Failure → Text
error_name (http_failure status code message details) = codes "HttpError"
error_name (multer_failure code) = codes "MulterError"
error_name (error_failure name message) = name
error_name (value_failure v) = codes "UnknownError"

-- `onInternalError` as the server sets it: it is called where neither class fits.
unfoldable pub on_internal_error : (log_level : LogLevel) (timestamp : Text) → Failure → Option Line
on_internal_error log_level timestamp (http_failure status code message details) = none
on_internal_error log_level timestamp (multer_failure code) = none
on_internal_error log_level timestamp error =
    emit log_level (codes "api") timestamp LogLevel.error (codes "Unhandled API request error")
      ((codes "errorName", LogValue.text_value (error_name error)) ∷ [])

-- The answer to a request whose handler ended with a result: a rejection of an asynchronous handler goes to
-- `next`, that is, to the error handler.
pub data Answer (A : Type 0) : Type 0 where
  sent : A → Answer A
  refused : ErrorResponse → Answer A

abbrev pub async_handler : {A : Type 0} → Result Failure A → Answer A
async_handler (ok a) = sent a
async_handler (err error) = refused (error_handler error)

-- `requireAuth`, in front of a route; the user is what the session's deserialization left.
unfoldable pub require_auth : {User A : Type 0} → Option User → (User → Answer A) → Answer A
require_auth none next = refused (record {
  status = 401;
  code = codes "AUTHENTICATION_REQUIRED";
  message = codes "Authentication is required";
  details = none;
})
require_auth (some user) next = next user

-- `GET /api/health/live` and `GET /api/health/ready`, with whether each check succeeds.
abbrev pub health_live : ℕ × Text
health_live = (200, codes "alive")

unfoldable pub health_ready : (database redis : Bool) → ℕ × Text
health_ready database redis =
    if database && redis then (200, codes "ready") else (503, codes "not_ready")
