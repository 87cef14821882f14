-- ===== src/Http/Examples.antt =====
-- An error of the database.
use abhishek_bhat2005_reachi.Base.{ℕ, ◌≡◌, refl, false, some, [], ◌∷◌, codes, any, err, text_eq}
use abhishek_bhat2005_reachi.Config.{LogLevel}
use abhishek_bhat2005_reachi.Logging.{
  LogValue, Line, Console, emit, safe_context, is_sensitive, contains,
}
use abhishek_bhat2005_reachi.Logging.Redaction.{leaks}
use abhishek_bhat2005_reachi.Http.{Failure, error_handler, on_internal_error, async_handler}
use abhishek_bhat2005_reachi.Http.Errors.{with_message, on_internal_error-async_handler}

abbrev failure : Failure
failure = Failure.error_failure (codes "DbError") (codes "password of user")

abbrev line : Line
line = record {
  console = Console.console_error;
  fields =
      (codes "timestamp", LogValue.text_value (codes "now"))
      ∷ (codes "level", LogValue.text_value (codes "error"))
      ∷ (codes "component", LogValue.text_value (codes "api"))
      ∷ (codes "message", LogValue.text_value (codes "Unhandled API request error"))
      ∷ (codes "errorName", LogValue.text_value (codes "DbError"))
      ∷ [];
}

logged : on_internal_error LogLevel.info (codes "now") failure ≡ some line
unfolding on_internal_error emit safe_context text_eq is_sensitive contains
logged = refl

on_internal_error-async_handler_example :
    ((error_handler failure).status ≡ 500)
    × (any leaks line.fields ≡ false)
    × (async_handler {A = ℕ} (err failure)
        ≡ async_handler (err (with_message (codes "other") failure)))
    × (on_internal_error LogLevel.info (codes "now") (with_message (codes "other") failure)
        ≡ some line)
on_internal_error-async_handler_example =
    on_internal_error-async_handler LogLevel.info (codes "now") failure line (codes "other") logged
