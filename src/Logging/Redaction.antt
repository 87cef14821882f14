-- ===== src/Logging/Redaction.antt =====
-- What a line of the log shows.
use abhishek_bhat2005_reachi.Base.{
  ◌≡◌, ◌≤◌, refl, Bool, true, false, not, ◌&&◌, ◌||◌, some, [], ◌∷◌, any, Text, codes, text_eq,
  text_eq_iff, ltb, arith, Bool-cases, inl, inr,
}
use abhishek_bhat2005_reachi.Config.{LogLevel}
use abhishek_bhat2005_reachi.Logging.{
  LogValue, LogContext, priorities, is_sensitive, is_defined, safe_entry, safe_context, assign,
  spread, Line, emit, console_of, line_fields, contains,
}

abbrev pub is_redacted : LogValue → Bool
is_redacted (LogValue.text_value s) = text_eq s (codes "[REDACTED]")
is_redacted _ = false

-- A field that a line must not show: a value under a sensitive key, or no value.
abbrev pub leaks : Text × LogValue → Bool
leaks (key, value) = (is_sensitive key && not (is_redacted value)) || not (is_defined value)

safe_entry_lem :
    (key : Text) (value : LogValue)
    → is_defined value ≡ true
    → leaks (safe_entry (key, value)) ≡ false
unfolding text_eq
safe_entry_lem key value h = elim (Bool-cases (is_sensitive key)) [
  | inl yes_sensitive ↦ rw yes_sensitive refl
  | inr no_sensitive ↦ rw no_sensitive (ground (arith, h))
]

safe_context_lem : (context : LogContext) → any leaks (safe_context context) ≡ false
unfolding safe_context
safe_context_lem [] = refl
safe_context_lem ((key, value) ∷ context) = elim (Bool-cases (is_defined value)) [
  | inl given ↦ rw given (rw (safe_entry_lem key value given) (safe_context_lem context))
  | inr gone ↦ rw gone (safe_context_lem context)
]

assign_lem :
    (fields : LogContext) (entry : Text × LogValue)
    → leaks entry ≡ false
    → any leaks fields ≡ false
    → any leaks (assign fields entry) ≡ false
assign_lem [] entry h k = rw h refl
assign_lem (field ∷ fields) entry h k = elim (Bool-cases (text_eq field.0 entry.0)) [
  | inl same ↦
      let key : field.0 ≡ entry.0 = (text_eq_iff field.0 entry.0).0 same in
      rw same (rw key (rw h (ground arith)))
  | inr other ↦ rw other (ground (arith, assign_lem fields entry h))
]

spread_lem :
    (fields context : LogContext)
    → any leaks fields ≡ false
    → any leaks context ≡ false
    → any leaks (spread fields context) ≡ false
spread_lem fields [] h k = h
spread_lem fields (entry ∷ context) h k =
    spread_lem (assign fields entry) context (assign_lem fields entry (ground arith) h)
      (ground arith)

line_fields_lem :
    (component timestamp : Text) (level : LogLevel) (message : Text)
    → any leaks (line_fields component timestamp level message) ≡ false
unfolding is_sensitive contains
line_fields_lem component timestamp level message = refl

-- A line is written only at the configured level or above, and nothing in it is secret: whatever the
-- context and the message are, each of its fields has a value, and a field whose key contains one
-- of the sensitive words, in capitals or not, shows the text `[REDACTED]`.
pub emit_lem :
    (log_level : LogLevel) (component timestamp : Text) (level : LogLevel) (message : Text)
    (context : LogContext) (line : Line)
    → emit log_level component timestamp level message context ≡ some line
    → (priorities log_level ≤ priorities level) × (any leaks line.fields ≡ false)
unfolding emit
emit_lem log_level component timestamp level message context line h =
    elim (Bool-cases (ltb (priorities level) (priorities log_level))) [
      | inl below ↦ absurd (ground (arith, below))
      | inr enough ↦
          let fields = line_fields component timestamp level message in
          let made : record {
            console = console_of level;
            fields = spread fields (safe_context context);
          }
              ≡ line =
            ground (arith, enough) in
          rw (← made) (
            ground arith,
            spread_lem fields (safe_context context)
                (line_fields_lem component timestamp level message) (safe_context_lem context),
          )
    ]
