-- ===== src/Http/Errors.antt =====
-- What an unexpected error shows, in the answer and in the log.
use abhishek_bhat2005_reachi.Base.{◌≡◌, refl, false, some, [], ◌∷◌, Text, codes, any, err}
use abhishek_bhat2005_reachi.Config.{LogLevel}
use abhishek_bhat2005_reachi.Logging.{LogValue, Line}
use abhishek_bhat2005_reachi.Logging.Redaction.{leaks, emit_lem}
use abhishek_bhat2005_reachi.Http.{Failure, error_handler, on_internal_error, async_handler}

-- The same failure with another message.
abbrev pub with_message : Text → Failure → Failure
with_message t (Failure.http_failure status code message details) =
    Failure.http_failure status code message details
with_message t (Failure.multer_failure code) = Failure.multer_failure code
with_message t (Failure.error_failure name message) = Failure.error_failure name t
with_message t (Failure.value_failure v) = Failure.value_failure t

-- A failure that is logged is answered by 500 and its line of the log leaks nothing; neither the answer nor
-- the line depends on the message of the error or on the value that was thrown.
pub on_internal_error-async_handler :
    {A : Type 0} (log_level : LogLevel) (timestamp : Text) (f : Failure) (line : Line) (t : Text)
    → on_internal_error log_level timestamp f ≡ some line
    → ((error_handler f).status ≡ 500)
      × (any leaks line.fields ≡ false)
      × (async_handler {A = A} (err f) ≡ async_handler (err (with_message t f)))
      × (on_internal_error log_level timestamp (with_message t f) ≡ some line)
unfolding on_internal_error error_handler
on_internal_error-async_handler l time (Failure.http_failure status code message details) line t h =
    cc
on_internal_error-async_handler l time (Failure.multer_failure code) line t h = cc
on_internal_error-async_handler l time (Failure.error_failure name message) line t h = (
  refl,
  (emit_lem l (codes "api") time LogLevel.error (codes "Unhandled API request error")
      ((codes "errorName", LogValue.text_value name) ∷ []) line h).1,
  refl,
  h,
)
on_internal_error-async_handler l time (Failure.value_failure v) line t h = (
  refl,
  (emit_lem l (codes "api") time LogLevel.error (codes "Unhandled API request error")
      ((codes "errorName", LogValue.text_value (codes "UnknownError")) ∷ []) line h).1,
  refl,
  h,
)
