-- ===== src/Logging.antt =====
-- apps/backend/src/observability/logger.ts: the log. A context is the list of its entries; where the
-- order of the fields of a line is concerned, keys that are array indices, which JavaScript puts first, stay
-- in their place.
pub mod Redaction
mod Examples
use abhishek_bhat2005_reachi.Base.{
  ℕ, ◌≡◌, Bool, true, false, ◌&&◌, ◌||◌, ◌+◌, Option, none, some, List, [], ◌∷◌, map, keep, any,
  Text, codes, text_eq, ltb, leb, ◌==◌, if◌then◌else◌,
}
use abhishek_bhat2005_reachi.Config.{LogLevel, is_prefix}

-- `LogValue`; `undefined` is `missing`.
pub data LogValue : Type 0 where
  missing null_value : LogValue
  boolean_value : Bool → LogValue
  number_value : ℕ → LogValue
  text_value : Text → LogValue

abbrev pub LogContext : Type 0
LogContext = List (Text × LogValue)

abbrev pub priorities : LogLevel → ℕ
priorities LogLevel.trace = 10
priorities LogLevel.debug = 20
priorities LogLevel.info = 30
priorities LogLevel.warn = 40
priorities LogLevel.error = 50
priorities LogLevel.fatal = 60
priorities LogLevel.silent = 70

abbrev pub sensitive_words : List Text
sensitive_words =
    codes "authorization"
    ∷ codes "body"
    ∷ codes "cookie"
    ∷ codes "credential"
    ∷ codes "password"
    ∷ codes "secret"
    ∷ codes "token"
    ∷ []

-- The flags `i` and `u` compare by simple case folding: besides the capital letters, the long s and
-- the Kelvin sign fold to an ASCII letter.
abbrev pub fold_case : ℕ → ℕ
fold_case c =
    if leb 65 c && leb c 90 then c + 32 else if c == 383 then 115 else if c == 8490 then 107 else c

unfoldable pub contains : Text → Text → Bool
unfolding is_prefix
contains word [] = is_prefix word []
contains word (c ∷ s) = is_prefix word (c ∷ s) || contains word s

-- `sensitiveKey.test(key)`.
unfoldable pub is_sensitive : Text → Bool
is_sensitive key = any (λ word. contains word (map fold_case key)) sensitive_words

abbrev pub redacted : LogValue
redacted = text_value (codes "[REDACTED]")

abbrev pub is_defined : LogValue → Bool
is_defined missing = false
is_defined _ = true

abbrev pub safe_entry : Text × LogValue → Text × LogValue
safe_entry (key, value) = (key, if is_sensitive key then redacted else value)

unfoldable pub safe_context : LogContext → LogContext
safe_context context = map safe_entry (keep (λ entry. is_defined entry.1) context)

-- The spread of an object over the fields before it: a key that is there already takes the later value.
abbrev pub assign : LogContext → Text × LogValue → LogContext
assign [] entry = entry ∷ []
assign (field ∷ fields) entry =
    let rest = assign fields entry in
    if text_eq field.0 entry.0 then (field.0, entry.1) ∷ fields else field ∷ rest

abbrev pub spread : LogContext → LogContext → LogContext
spread fields [] = fields
spread fields (entry ∷ context) = spread (assign fields entry) context

abbrev pub level_name : LogLevel → Text
level_name LogLevel.trace = codes "trace"
level_name LogLevel.debug = codes "debug"
level_name LogLevel.info = codes "info"
level_name LogLevel.warn = codes "warn"
level_name LogLevel.error = codes "error"
level_name LogLevel.fatal = codes "fatal"
level_name LogLevel.silent = codes "silent"

-- The methods of the console.
pub data Console : Type 0 where
  console_error console_warn console_info : Console

abbrev pub console_of : LogLevel → Console
console_of LogLevel.fatal = console_error
console_of LogLevel.error = console_error
console_of LogLevel.warn = console_warn
console_of _ = console_info

pub record Line : Type 0 where
  pub console : Console
  pub fields : LogContext

-- The fields before the context's.
abbrev pub line_fields : (component timestamp : Text) → LogLevel → Text → LogContext
line_fields component timestamp level message =
    (codes "timestamp", text_value timestamp)
    ∷ (codes "level", text_value (level_name level))
    ∷ (codes "component", text_value component)
    ∷ (codes "message", text_value message)
    ∷ []

-- `emit` of a logger with a level and a component, with the time printed; `level` is not `silent` in a
-- call. `none` is no output, and a line is what is given to `JSON.stringify`.
unfoldable pub emit :
    (log_level : LogLevel) (component timestamp : Text) (level : LogLevel) (message : Text)
    → LogContext
    → Option Line
emit log_level component timestamp level message context =
    if ltb (priorities level) (priorities log_level)
    then none
    else some (record {
      console = console_of level;
      fields = spread (line_fields component timestamp level message) (safe_context context);
    })
