-- ===== src/Api/Pages.antt =====
-- A client that follows the cursors of a list sees all of it.
use abhishek_bhat2005_reachi.Base.{
  ℕ, zero, suc, ◌≤◌, ◌<◌, ◌≡◌, refl, sym, ap, subst, any, ◌∙◌, Bool, true, false, ◌&&◌, Option,
  none, some, List, [], ◌∷◌, ◌++◌, append_assoc, Text, ◌==◌, leb, ltb, length, take, drop,
  length-take, length-drop, take-append-drop, get_last?, keep, ok, err, arith, Bool-cases, inl, inr,
}
use abhishek_bhat2005_reachi.Base.Order.{
  IsOrder, sort_by, AreUnlike, Ascends, keep-AreUnlike, keep-keep, keep-sort, keep_behind,
  sort-Ascends,
}
use abhishek_bhat2005_reachi.Schema.{Tables, Db, Email}
use abhishek_bhat2005_reachi.Api.{EmailApiConfig}
use abhishek_bhat2005_reachi.Api.Lists.{
  CursorPlatform, Position, encode_cursor, decode_cursor, ListQuery, limit_or_default, is_limit,
  list_query_schema, Dashboard, precedes, position, is_wanted, comes_first, find_rows, page_of,
  list_emails, is_cursor_text,
}

-- The first millisecond of the year 10000.
abbrev pub year_10000 : ℕ
year_10000 = 253402300800000

-- What the platform's encodings do: base64url and JSON give back the texts that they were made of, and
-- zod takes the texts of times and UUIDs for such, where `z.iso.datetime` wants a year of four digits.
pub record IsCodec (C : CursorPlatform) : Type 0 where
  pub base64url : (s : Text) → C.from_base64url (C.to_base64url s) ≡ s
  pub json : (sort_at id : Text) → C.parse (C.stringify sort_at id) ≡ some (sort_at, id)
  pub datetime : (t : ℕ) → t < year_10000 → C.is_datetime (C.to_iso_string t) ≡ true
  pub uuids : (id : ℕ) → C.is_uuid (C.uuid_text id) ≡ true
  pub date : (t : ℕ) → t < year_10000 → C.parse_date (C.to_iso_string t) ≡ t
  pub uuid : (id : ℕ) → C.parse_uuid (C.uuid_text id) ≡ id
  pub nonempty :
      (sort_at id : Text) → leb 1 (length (C.to_base64url (C.stringify sort_at id))) ≡ true

-- A cursor is read back as the position that it was made of.
pub decode-encode_cursor :
    (C : CursorPlatform) (p : Position)
    → IsCodec C
    → p.0 < year_10000
    → decode_cursor C (some (encode_cursor C p)) ≡ ok (some p)
unfolding encode_cursor decode_cursor
decode-encode_cursor C (t, id) codec early =
    rw (codec.base64url, codec.json, decode_cursor)
      (rw (codec.datetime t early, codec.uuids id) (rw (codec.date t early, codec.uuid) refl))

abbrev pub same_row : Email → Email → Bool
same_row e f = e.id == f.id

module _ (C : CursorPlatform) (user : ℕ) (updated_at : Email → ℕ) (T : Tables) where
  comes_first-IsOrder : (kind : Dashboard) → IsOrder (comes_first T C kind updated_at user) same_row
  unfolding precedes position
  comes_first-IsOrder Dashboard.scheduled = record {
    irrefl = λ a. ground arith;
    trans = λ a b c h k. ground arith;
    total = λ a b h k. ground arith;
  }
  comes_first-IsOrder Dashboard.sent = record {
    irrefl = λ a. ground arith;
    trans = λ a b c h k. ground arith;
    total = λ a b h k. ground arith;
  }

-- A list that is not empty, by its last element.
pub record HasLast {ℓ} {A : Type ℓ} (xs : List A) : Type ℓ where
  pub init : List A
  pub last : A
  pub split : xs ≡ init ++ last ∷ []
  pub found : get_last? xs ≡ some last

pub has_last {ℓ} : {A : Type ℓ} (x : A) (xs : List A) → HasLast (x ∷ xs)
has_last x [] = record { init = []; last = x; split = refl; found = refl }
has_last x (y ∷ ys) =
    let h = has_last y ys in
    record { init = x ∷ h.init; last = h.last; split = ap (◌∷◌ x) h.split; found = h.found }

pub nonempty-HasLast {ℓ} : {A : Type ℓ} (xs : List A) → 0 < length xs → HasLast xs
nonempty-HasLast [] h = absurd (omega arith)
nonempty-HasLast (x ∷ xs) h = has_last x xs

take-take {ℓ} : {A : Type ℓ} (n : ℕ) (xs : List A) → take n (take (suc n) xs) ≡ take n xs
take-take zero xs = refl
take-take (suc n) [] = refl
take-take (suc n) (x ∷ xs) = ap (◌∷◌ x) (take-take n xs)

pub take-whole {ℓ} : {A : Type ℓ} (n : ℕ) (xs : List A) → length xs ≤ n → take n xs ≡ xs
take-whole zero [] h = refl
take-whole zero (x ∷ xs) h = absurd (omega arith)
take-whole (suc n) [] h = refl
take-whole (suc n) (x ∷ xs) h = ap (◌∷◌ x) (take-whole n xs (omega arith))

keep-true : (p : Email → Bool) (rows : List Email) → keep (λ e. p e && true) rows ≡ keep p rows
keep-true p [] = refl
keep-true p (x ∷ xs) = ground (arith, keep-true p xs)

module _ (T : Tables) (C : CursorPlatform) (config : EmailApiConfig) (kind : Dashboard)
    (updated_at : Email → ℕ) (user : ℕ) (db : Db T) where
  -- A client that asks for the first page and follows the cursors, on fuel; `none` is an error, or
  -- the end of the fuel.
  unfoldable pub all_pages : ℕ → ListQuery → Option (List Email)
  all_pages zero query = none
  all_pages (suc fuel) query = elim (list_emails T C kind updated_at user config (some query) db) [
    | err e ↦ none
    | ok page ↦ elim page.next_cursor [
      | none ↦ some page.items
      | some cursor ↦ elim (all_pages fuel (record query { cursor = some cursor })) [
        | none ↦ none
        | some more ↦ some (page.items ++ more)
      ]
    ]
  ]

  -- The whole list.
  abbrev pub whole_list : Option ℕ → List Email
  whole_list sender_id =
      sort_by (comes_first T C kind updated_at user)
        (keep (is_wanted T C kind updated_at user db sender_id) (T.emails.rows db.emails))

  -- The times of the list are before the year 10000.
  abbrev pub AreDated : Option ℕ → Type 0
  AreDated sender_id =
      any (λ e. leb year_10000 (position kind updated_at e).0) (whole_list sender_id) ≡ false

  early_at :
      (pre rest : List Email) (e : Email)
      → any (λ f. leb year_10000 (position kind updated_at f).0) (pre ++ e ∷ rest) ≡ false
      → (position kind updated_at e).0 < year_10000
  early_at [] rest e h = ground arith
  early_at (x ∷ xs) rest e h = early_at xs rest e (ground arith)

  pub AreDated-at :
      (sender_id : Option ℕ) (pre rest : List Email) (e : Email)
      → AreDated sender_id
      → whole_list sender_id ≡ pre ++ e ∷ rest
      → (position kind updated_at e).0 < year_10000
  AreDated-at sender_id pre rest e dated split =
      early_at pre rest e (
        subst (λ l. any (λ f. leb year_10000 (position kind updated_at f).0) l ≡ false) split dated)

  module _ (codec : IsCodec C) (distinct : AreUnlike same_row (T.emails.rows db.emails))
      (sender_id : Option ℕ) where
    abbrev order : IsOrder (comes_first T C kind updated_at user) same_row
    order = comes_first-IsOrder C user updated_at T kind

    -- The rows behind a row of the list.
    pub rows_behind :
        (pre : List Email) (last : Email) (rest : List Email) (limit : ℕ)
        → whole_list sender_id ≡ pre ++ last ∷ rest
        → find_rows T C kind updated_at user db sender_id
            (some (position kind updated_at last))
            limit
          ≡ take (suc limit) rest
    unfolding find_rows
    rows_behind pre last rest limit split =
        let rows = T.emails.rows db.emails in
        let wanted = is_wanted T C kind updated_at user db sender_id in
        let first = comes_first T C kind updated_at user in
        let unlike = keep-AreUnlike same_row wanted rows distinct in
        let sorted : Ascends first (whole_list sender_id) =
          sort-Ascends order (keep wanted rows) unlike in
        let ascends : Ascends first (pre ++ last ∷ rest) = rw split at sorted in
        ap (take (suc limit)) (
          ap (sort_by first) (sym (keep-keep wanted (first last) rows))
          ∙ sym (keep-sort order (first last) (keep wanted rows) unlike)
          ∙ ap (keep (first last)) split
          ∙ keep_behind order pre last rest ascends)

    pub rows_first :
        (limit : ℕ)
        → find_rows T C kind updated_at user db sender_id none limit
          ≡ take (suc limit) (whole_list sender_id)
    unfolding find_rows
    rows_first limit =
        ap (λ rows. take (suc limit) (sort_by (comes_first T C kind updated_at user) rows))
          (keep-true (is_wanted T C kind updated_at user db sender_id) (T.emails.rows db.emails))

    -- The last page, and one that is followed by another.
    pub last_page :
        (limit : ℕ) (rest : List Email)
        → length rest ≤ limit
        → page_of T C kind updated_at user (take (suc limit) rest) limit
          ≡ record { items = rest; next_cursor = none }
    unfolding page_of
    last_page limit rest h =
        let short : ltb limit (length (take (suc limit) rest)) ≡ false =
          ground (arith, length-take (suc limit) rest) in
        rw (short, page_of) (rw (take-take limit rest, take-whole limit rest h) refl)

    pub full_page :
        (limit : ℕ) (rest : List Email) (last : Email)
        → limit < length rest
        → get_last? (take limit rest) ≡ some last
        → page_of T C kind updated_at user (take (suc limit) rest) limit ≡ record {
          items = take limit rest;
          next_cursor = some (encode_cursor C (position kind updated_at last));
        }
    unfolding page_of
    full_page limit rest last h found =
        let long : ltb limit (length (take (suc limit) rest)) ≡ true =
          ground (arith, length-take (suc limit) rest) in
        rw (long, page_of) (rw (take-take limit rest) (rw found refl))

    pub answered :
        (query : ListQuery) (cursor : Option Position) (rest : List Email)
        → is_cursor_text query.cursor ≡ true
        → is_limit config query.limit ≡ true
        → decode_cursor C query.cursor ≡ ok cursor
        → find_rows T C kind updated_at user db query.sender_id cursor
            (limit_or_default config query.limit)
          ≡ rest
        → list_emails T C kind updated_at user config (some query) db
          ≡ ok (page_of T C kind updated_at user rest (limit_or_default config query.limit))
    unfolding list_emails list_query_schema
    answered query cursor rest text lim decoded found =
        rw (text, list_emails) (rw lim (rw decoded (rw found refl)))

    pages_lem :
        (dated : AreDated sender_id) (fuel : ℕ) (query : ListQuery) (cursor : Option Position)
        (pre rest : List Email)
        → query.sender_id ≡ sender_id
        → is_limit config query.limit ≡ true
        → 0 < limit_or_default config query.limit
        → is_cursor_text query.cursor ≡ true
        → decode_cursor C query.cursor ≡ ok cursor
        → whole_list sender_id ≡ pre ++ rest
        → find_rows T C kind updated_at user db sender_id cursor
            (limit_or_default config query.limit)
          ≡ take (suc (limit_or_default config query.limit)) rest
        → length rest < fuel
        → all_pages fuel query ≡ some rest
    unfolding all_pages
    pages_lem dated zero query cursor pre rest sid lim pos text decoded split found h =
        absurd (omega arith)
    pages_lem dated (suc fuel) query cursor pre rest sid lim pos text decoded split found h =
        let limit = limit_or_default config query.limit in
        let answer =
          answered query cursor (take (suc limit) rest) text lim decoded (rw sid found) in
        elim (Bool-cases (ltb limit (length rest))) [
          | inr short ↦
              let fits : length rest ≤ limit = ground arith in
              rw (answer ∙ ap ok (last_page limit rest fits), all_pages) refl
          | inl long ↦
              let more : limit < length rest = ground arith in
              let end =
                nonempty-HasLast (take limit rest) (omega (arith, length-take limit rest)) in
              let next = drop limit rest in
              let parts : whole_list sender_id ≡ (pre ++ end.init) ++ end.last ∷ next =
                split
                ∙ ap (◌++◌ pre) (
                    sym (take-append-drop limit rest)
                    ∙ ap (λ xs. xs ++ next) end.split
                    ∙ append_assoc end.init (end.last ∷ []) next)
                ∙ sym (append_assoc pre end.init (end.last ∷ next)) in
              let position = position kind updated_at end.last in
              let later =
                pages_lem dated fuel (record query { cursor = some (encode_cursor C position) })
                  (some position) ((pre ++ end.init) ++ end.last ∷ []) next sid lim pos
                  (unfold encode_cursor in codec.nonempty _ _)
                  (decode-encode_cursor C position codec
                    (AreDated-at sender_id (pre ++ end.init) next end.last dated parts))
                  (parts ∙ sym (append_assoc (pre ++ end.init) (end.last ∷ []) next))
                  (rows_behind (pre ++ end.init) end.last next limit parts)
                  (omega (arith, length-drop limit rest)) in
              rw (answer ∙ ap ok (full_page limit rest end.last more end.found), all_pages)
                (rw later (ap some (take-append-drop limit rest)))
        ]

-- Whoever asks for the first page of a list and follows the cursors, with a page size that is allowed
-- and positive, sees the whole list, once and in its order: the emails of the user's batches with
-- the list's statuses, and of the asked sender, by time and id. As many requests as there are such
-- emails, and one more, are enough. The ids are distinct, the times are before the year 10000, and
-- the table does not change meanwhile.
pub all_pages-whole :
    (T : Tables) (C : CursorPlatform) (config : EmailApiConfig) (kind : Dashboard)
    (updated_at : Email → ℕ) (user : ℕ) (db : Db T) (limit sender_id : Option ℕ) (fuel : ℕ)
    → IsCodec C
    → AreUnlike same_row (T.emails.rows db.emails)
    → AreDated T C config kind updated_at user db sender_id
    → is_limit config limit ≡ true
    → 0 < limit_or_default config limit
    → length (whole_list T C config kind updated_at user db sender_id) < fuel
    → all_pages T C config kind updated_at user db fuel
        (record { cursor = none; limit = limit; sender_id = sender_id })
      ≡ some (whole_list T C config kind updated_at user db sender_id)
all_pages-whole T C config kind updated_at user db limit sender_id fuel codec distinct dated lim pos
      enough =
    pages_lem T C config kind updated_at user db codec distinct sender_id dated fuel
      (record { cursor = none; limit = limit; sender_id = sender_id }) none []
      (whole_list T C config kind updated_at user db sender_id) refl lim pos refl
      (unfold decode_cursor in refl) refl
      (rows_first T C config kind updated_at user db codec distinct sender_id
        (limit_or_default config limit))
      enough
