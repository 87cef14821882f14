-- ===== src/Logging/Examples.antt =====
-- A line of the log that hides a password.
use abhishek_bhat2005_reachi.Base.{◌≡◌, ◌≤◌, refl, false, some, [], ◌∷◌, codes, any, text_eq}
use abhishek_bhat2005_reachi.Config.{LogLevel}
use abhishek_bhat2005_reachi.Logging.{
  LogValue, Line, Console, LogContext, emit, priorities, redacted, is_sensitive, safe_context,
  contains,
}
use abhishek_bhat2005_reachi.Logging.Redaction.{leaks, emit_lem}

abbrev context : LogContext
context =
    (codes "userPASSWORD", LogValue.text_value (codes "hunter2"))
    ∷ (codes "count", LogValue.number_value 3)
    ∷ (codes "jobId", LogValue.missing)
    ∷ []

abbrev line : Line
line = record {
  console = Console.console_warn;
  fields =
      (codes "timestamp", LogValue.text_value (codes "now"))
      ∷ (codes "level", LogValue.text_value (codes "warn"))
      ∷ (codes "component", LogValue.text_value (codes "api"))
      ∷ (codes "message", LogValue.text_value (codes "hello"))
      ∷ (codes "userPASSWORD", redacted)
      ∷ (codes "count", LogValue.number_value 3)
      ∷ [];
}

written :
    emit LogLevel.info (codes "api") (codes "now") LogLevel.warn (codes "hello") context ≡ some line
unfolding emit safe_context text_eq is_sensitive contains
written = refl

emit_lem_example :
    (priorities LogLevel.info ≤ priorities LogLevel.warn) × (any leaks line.fields ≡ false)
emit_lem_example =
    emit_lem LogLevel.info (codes "api") (codes "now") LogLevel.warn (codes "hello") context line
      written
