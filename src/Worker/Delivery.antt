-- ===== src/Worker/Delivery.antt =====
-- apps/backend/src/worker/email-processor.ts, lines 11 to 64: what is read of a delivery error.
use abhishek_bhat2005_reachi.Base.{
  ℕ, Bool, false, ◌&&◌, ◌||◌, Option, none, some, Text, codes, text_eq, take, leb, ltb,
  if◌then◌else◌,
}

pub data Classification : Type 0 where
  permanent transient unknown : Classification

-- A property of the error: a string, a whole number that is not negative, or anything else.
pub data Property : Type 0 where
  string : Text → Property
  integer : ℕ → Property
  other : Property

-- What may be thrown: a `RejectedDeliveryError`, which has neither property, another object with its
-- `code` and `responseCode`, or a value that is no object.
pub data Thrown : Type 0 where
  rejected_delivery : Thrown
  object : (code response_code : Property) → Thrown
  primitive : Thrown

as_string : Property → Option Text
as_string (string s) = some s
as_string _ = none

as_integer : Property → Option ℕ
as_integer (integer n) = some n
as_integer _ = none

unfoldable pub smtp_code : Thrown → Option Text
unfolding as_string
smtp_code rejected_delivery = none
smtp_code (object code response_code) = as_string code
smtp_code primitive = none

unfoldable pub smtp_response_code : Thrown → Option ℕ
unfolding as_integer
smtp_response_code rejected_delivery = none
smtp_response_code (object code response_code) = as_integer response_code
smtp_response_code primitive = none

-- `code === name`.
abbrev pub code_is : Option Text → Text → Bool
code_is none name = false
code_is (some code) name = text_eq code name

-- `responseCode !== null && responseCode >= 500`, and the test for 400 to 499.
abbrev pub is_5xx : Option ℕ → Bool
is_5xx none = false
is_5xx (some n) = leb 500 n

abbrev pub is_4xx : Option ℕ → Bool
is_4xx none = false
is_4xx (some n) = leb 400 n && ltb n 500

abbrev classify : Option Text → Option ℕ → Classification
classify code response_code =
    if code_is code (codes "EAUTH") || code_is code (codes "EENVELOPE") || is_5xx response_code
    then permanent
    else if code_is code (codes "EDNS")
        || code_is code (codes "ECONNECTION")
        || is_4xx response_code
    then transient
    else unknown

unfoldable pub classify_delivery_error : Thrown → Classification
unfolding smtp_code smtp_response_code
classify_delivery_error rejected_delivery = permanent
classify_delivery_error error = classify (smtp_code error) (smtp_response_code error)

pub record SafeError : Type 0 where
  pub code : Text
  pub message : Text

abbrev or_default : Option Text → Text
or_default none = codes "SMTP_DELIVERY_ERROR"
or_default (some code) = code

abbrev message_of : Classification → Text
message_of permanent = codes "SMTP permanently rejected the message"
message_of transient = codes "SMTP was temporarily unavailable before accepting the message"
message_of unknown = codes "SMTP delivery outcome is unknown"

unfoldable pub safe_error : Classification → Thrown → SafeError
unfolding smtp_code
safe_error classification error = record {
  code = take 100 (or_default (smtp_code error));
  message = message_of classification;
}
