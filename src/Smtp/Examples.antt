-- ===== src/Smtp/Examples.antt =====
-- Two attempts at one email.
use abhishek_bhat2005_reachi.Base.{ℕ, ◌≡◌, ◌↔◌, [], ◌∷◌, codes}
use abhishek_bhat2005_reachi.Worker.{EmailMessage}
use abhishek_bhat2005_reachi.Smtp.{mail_options}
use abhishek_bhat2005_reachi.Smtp.MessageIds.{mail_options-message_id}

abbrev first_attempt : EmailMessage
first_attempt = record {
  scheduled_email_id = 11;
  from_name = codes "Ada";
  from_email = codes "ada@example.org";
  recipient_email = codes "b@c";
  subject = codes "Hello";
  body_text = codes "Hello";
}

abbrev second_attempt : EmailMessage
second_attempt = record first_attempt { from_name = codes "Ada L." }

mail_options-message_id_example :
    ((mail_options (λ id. id ∷ []) first_attempt).message_id
      ≡ (mail_options (λ id. id ∷ []) second_attempt).message_id)
    ↔ (◌≡◌ {A = ℕ} 11 11)
mail_options-message_id_example =
    mail_options-message_id (λ id. id ∷ []) first_attempt second_attempt (λ i j h. cc)
