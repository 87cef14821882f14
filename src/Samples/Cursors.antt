-- ===== src/Samples/Cursors.antt =====
-- Cursors of a simple encoding, and the rows of a small table.
use abhishek_bhat2005_reachi.Base.{
  ℕ, ◌≡◌, ◌++◌, refl, ap, none, some, List, [], ◌∷◌, Text, length, take, drop, arith, ◌==◌,
}
use abhishek_bhat2005_reachi.Base.Order.{AreUnlike}
use abhishek_bhat2005_reachi.Schema.{Email}
use abhishek_bhat2005_reachi.Samples.{email, sent_email}
use abhishek_bhat2005_reachi.Api.Lists.{CursorPlatform}
use abhishek_bhat2005_reachi.Api.Pages.{IsCodec, same_row}

abbrev first_code : Text → ℕ
first_code [] = 0
first_code (c ∷ cs) = c

-- The length of the first text comes first.
abbrev pub cursor_platform : CursorPlatform
cursor_platform = record {
  to_base64url = λ s. s;
  from_base64url = λ s. s;
  stringify = λ sort_at id. length sort_at ∷ sort_at ++ id;
  parse = λ s. elim s [ [] ↦ none | n ∷ rest ↦ some (take n rest, drop n rest) ];
  is_datetime = λ s. length s == 1;
  is_uuid = λ s. length s == 1;
  to_iso_string = λ t. t ∷ [];
  parse_date = first_code;
  uuid_text = λ id. id ∷ [];
  parse_uuid = first_code;
}

take-length : (s t : Text) → take (length s) (s ++ t) ≡ s
take-length [] t = refl
take-length (c ∷ s) t = ap (◌∷◌ c) (take-length s t)

drop-length : (s t : Text) → drop (length s) (s ++ t) ≡ t
drop-length [] t = refl
drop-length (c ∷ s) t = drop-length s t

pub codec : IsCodec cursor_platform
codec = record {
  base64url = λ s. refl;
  json = λ s t. rw (take-length s t, drop-length s t) refl;
  datetime = λ t h. refl;
  uuids = λ id. refl;
  date = λ t h. refl;
  uuid = λ id. refl;
  nonempty = λ s t. ground arith;
}

abbrev pub rows : List Email
rows = email 12 ∷ sent_email 14 ∷ email 11 ∷ email 13 ∷ []

pub distinct : AreUnlike same_row rows
distinct = (refl, (refl, (refl, (refl, tt))))

abbrev pub updated_at : Email → ℕ
updated_at e = 500
