-- ===== src/Smtp.antt =====
-- apps/backend/src/email/mailer.ts, `createSmtpMailer`. The transporter of nodemailer is a function to what it
-- returns or throws, and the test of a preview URL is nodemailer's too.
pub mod MessageIds
mod Examples
use abhishek_bhat2005_reachi.Base.{
  ℕ, Bool, Option, none, some, List, [], ◌∷◌, ◌++◌, Text, codes, length, Result, ok, err,
}
use abhishek_bhat2005_reachi.Worker.Delivery.{Thrown}
use abhishek_bhat2005_reachi.Worker.Statements.{DeliveryReceipt}
use abhishek_bhat2005_reachi.Worker.{EmailMessage, Mailer}

-- The argument of `sendMail`, and what it returns.
pub record MailOptions : Type 0 where
  pub from_name : Text
  pub from_address : Text
  pub to : Text
  pub subject : Text
  pub text : Text
  pub message_id : Text

pub record SentMessageInfo : Type 0 where
  pub message_id : Text
  pub accepted : List Text
  pub rejected : List Text

-- `get_test_message_url` is `none` for `false`.
pub record Nodemailer : Type 0 where
  pub send_mail : MailOptions → Result Thrown SentMessageInfo
  pub get_test_message_url : SentMessageInfo → Option Text

unfoldable pub message_id : (uuid_text : ℕ → Text) → (scheduled_email_id : ℕ) → Text
message_id uuid_text id = codes "<scheduled-" ++ uuid_text id ++ codes "@reachinbox.local>"

abbrev pub mail_options : (uuid_text : ℕ → Text) → EmailMessage → MailOptions
mail_options uuid_text message = record {
  from_name = message.from_name;
  from_address = message.from_email;
  to = message.recipient_email;
  subject = message.subject;
  text = message.body_text;
  message_id = message_id uuid_text message.scheduled_email_id;
}

abbrev pub receipt_of : Nodemailer → Result Thrown SentMessageInfo → Result Thrown DeliveryReceipt
receipt_of N (err e) = err e
receipt_of N (ok info) = ok (record {
  message_id = info.message_id;
  preview_url = N.get_test_message_url info;
  accepted_count = length info.accepted;
  rejected_count = length info.rejected;
})

unfoldable pub create_smtp_mailer : (uuid_text : ℕ → Text) → Nodemailer → Mailer
create_smtp_mailer uuid_text N message = receipt_of N (N.send_mail (mail_options uuid_text message))
