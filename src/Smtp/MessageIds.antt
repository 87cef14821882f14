-- ===== src/Smtp/MessageIds.antt =====
-- The ids of the messages.
use abhishek_bhat2005_reachi.Base.{
  ℕ, ◌≡◌, refl, ap, [], ◌∷◌, ◌++◌, Text, codes, length, length-append, arith, ◌↔◌,
}
use abhishek_bhat2005_reachi.Worker.{EmailMessage}
use abhishek_bhat2005_reachi.Smtp.{message_id, mail_options}

append-injective : (xs ys s : Text) → xs ++ s ≡ ys ++ s → xs ≡ ys
append-injective [] [] s h = refl
append-injective [] (y ∷ ys) s h =
    let longer : length s ≡ length ((y ∷ ys) ++ s) = ap length h in
    absurd (omega (arith, length-append ys s, longer))
append-injective (x ∷ xs) [] s h =
    let longer : length ((x ∷ xs) ++ s) ≡ length s = ap length h in
    absurd (omega (arith, length-append xs s, longer))
append-injective (x ∷ xs) (y ∷ ys) s h =
    let first : x ≡ y = cc in
    let rest : xs ++ s ≡ ys ++ s = cc in rw first (ap (◌∷◌ y) (append-injective xs ys s rest))

-- Two messages with the same id are of the same email: ids are printed apart. The other way round the id
-- of a message is the same at every attempt, whatever else has changed in it.
pub mail_options-message_id :
    (uuid_text : ℕ → Text) (m m' : EmailMessage)
    → ((id id' : ℕ) → uuid_text id ≡ uuid_text id' → id ≡ id')
    → ((mail_options uuid_text m).message_id ≡ (mail_options uuid_text m').message_id)
      ↔ (m.scheduled_email_id ≡ m'.scheduled_email_id)
unfolding message_id
mail_options-message_id uuid_text m m' apart = (
  λ h. apart m.scheduled_email_id m'.scheduled_email_id (
      append-injective (uuid_text m.scheduled_email_id) (uuid_text m'.scheduled_email_id)
        (codes "@reachinbox.local>") (cc)),
  λ e. rw e refl,
)
