-- ===== src/RateLimit/Keys.antt =====
-- The three keys of a sender in an hour are different keys, and no key of another sender.
use abhishek_bhat2005_reachi.Base.{ℕ, ◌≡◌, false, ◌++◌, Text, text_eq, codes, text_eq-append, refl}
use abhishek_bhat2005_reachi.RateLimit.{RateConfig, RateKeys, keys}

pub record AreApart (k : RateKeys) : Type 0 where
  pub count_next : text_eq k.count k.next ≡ false
  pub next_count : text_eq k.next k.count ≡ false
  pub count_reservation : text_eq k.count k.reservation ≡ false
  pub reservation_count : text_eq k.reservation k.count ≡ false
  pub next_reservation : text_eq k.next k.reservation ≡ false
  pub reservation_next : text_eq k.reservation k.next ≡ false

pub keys-AreApart :
    (config : RateConfig) (sender_id : ℕ) (email : Text) (hour : ℕ)
    → AreApart (keys config sender_id email hour)
unfolding keys text_eq
keys-AreApart config sender_id email hour =
    let base =
      config.bullmq_prefix
      ++ (codes ":email-rate:v1:" ++ (codes "{" ++ (config.uuid_text sender_id ++ codes "}"))) in
    record {
      count_next = rw (text_eq-append base);
      next_count = rw (text_eq-append base);
      count_reservation = rw (text_eq-append base);
      reservation_count = rw (text_eq-append base);
      next_reservation = rw (text_eq-append base);
      reservation_next = rw (text_eq-append base);
    }

-- The count and the next-send time are kept for the sender, whichever email is reserved.
pub count_key : RateConfig → ℕ → ℕ → Text
count_key config sender_id hour = (keys config sender_id (codes "seed") hour).count

pub next_key : RateConfig → ℕ → Text
next_key config sender_id = (keys config sender_id (codes "seed") 0).next

module _ (config : RateConfig) (sender_id : ℕ) (email : Text) (hour : ℕ) where
  pub keys-count : (keys config sender_id email hour).count ≡ count_key config sender_id hour
  unfolding keys count_key
  keys-count = refl

  pub keys-next : (keys config sender_id email hour).next ≡ next_key config sender_id
  unfolding keys next_key
  keys-next = refl
