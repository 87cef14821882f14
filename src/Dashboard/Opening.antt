-- ===== src/Dashboard/Opening.antt =====
-- The cursors of the dashboard's pages, and the pages that they open.
use abhishek_bhat2005_reachi.Base.{
  ℕ, zero, suc, ◌+◌, ◌*◌, ◌-◌, ◌≤◌, ◌<◌, ◌≡◌, refl, sym, ap, subst, add-zero, ◌∙◌, true, Option,
  none, some, List, [], ◌∷◌, ◌++◌, append_assoc, Text, ltb, length, take, drop, length-take,
  take-append-drop, ok, arith, Bool-cases, inl, inr, add-zero,
}
use abhishek_bhat2005_reachi.Base.Order.{AreUnlike}
use abhishek_bhat2005_reachi.Schema.{Tables, Db, Email}
use abhishek_bhat2005_reachi.Api.{EmailApiConfig}
use abhishek_bhat2005_reachi.Api.Lists.{
  CursorPlatform, Position, encode_cursor, decode_cursor, Dashboard, position, find_rows, Page,
  list_emails, is_cursor_text,
}
use abhishek_bhat2005_reachi.Api.Pages.{
  IsCodec, AreDated, AreDated-at, decode-encode_cursor, same_row, whole_list, rows_behind,
  rows_first, last_page, full_page, answered, take-whole, HasLast, nonempty-HasLast,
}
use abhishek_bhat2005_reachi.Dashboard.{last_cursor, without_last_cursor, is_some}

drop-nil {ℓ} : {A : Type ℓ} (n : ℕ) → drop {A = A} n [] ≡ []
drop-nil zero = refl
drop-nil (suc n) = refl

drop-drop {ℓ} : {A : Type ℓ} (a b : ℕ) (xs : List A) → drop b (drop a xs) ≡ drop (a + b) xs
drop-drop zero b xs = ap (λ n. drop n xs) (omega arith)
drop-drop (suc a) b [] = drop-nil b ∙ sym (drop-nil (suc a + b))
drop-drop (suc a) b (x ∷ xs) =
    let same : suc (a + b) ≡ suc a + b = omega arith in
    drop-drop a b xs ∙ ap (λ n. drop n (x ∷ xs)) same

module _ (T : Tables) (C : CursorPlatform) (config : EmailApiConfig) (updated_at : Email → ℕ)
    (user : ℕ) (db : Db T) where
  -- The list of a tab, and its rows from a page on.
  abbrev pub list_of : Dashboard → List Email
  list_of kind = whole_list T C config kind updated_at user db none

  abbrev pub rows_from : Dashboard → ℕ → List Email
  rows_from kind k = drop (k * config.api_page_size) (list_of kind)

  -- A cursor that opens a page.
  pub record Opens (kind : Dashboard) (k : ℕ) (c : Option Text) : Type 0 where
    pub at : Option Position
    pub text : is_cursor_text c ≡ true
    pub decoded : decode_cursor C c ≡ ok at
    pub rows :
        find_rows T C kind updated_at user db none at config.api_page_size
        ≡ take (suc config.api_page_size) (rows_from kind k)

  abbrev pub Stack : Dashboard → ℕ → List (Option Text) → Type 0
  Stack kind k [] = Unit
  Stack kind k (c ∷ cs) = Opens kind k c × Stack kind (suc k) cs

  pub last-Opens :
      (kind : Dashboard) (k : ℕ) (c : Option Text) (cs : List (Option Text))
      → Stack kind k (c ∷ cs)
      → Opens kind (k + length cs) (last_cursor (c ∷ cs))
  last-Opens kind k c [] h = rw (add-zero k) h.0
  last-Opens kind k c (d ∷ cs) h =
      let same : suc k + length cs ≡ k + suc (length cs) = omega arith in
      subst (λ n. Opens kind n (last_cursor (d ∷ cs))) same (last-Opens kind (suc k) d cs h.1)

  pub push-Stack :
      (kind : Dashboard) (k : ℕ) (cs : List (Option Text)) (c : Option Text)
      → Stack kind k cs
      → Opens kind (k + length cs) c
      → Stack kind k (cs ++ c ∷ [])
  push-Stack kind k [] c h o =
      let same : k + 0 ≡ k = omega arith in (subst (λ n. Opens kind n c) same o, tt)
  push-Stack kind k (d ∷ cs) c h o =
      let same : k + suc (length cs) ≡ suc k + length cs = omega arith in
      (h.0, push-Stack kind (suc k) cs c h.1 (subst (λ n. Opens kind n c) same o))

  pub pop-Stack :
      (kind : Dashboard) (k : ℕ) (cs : List (Option Text))
      → Stack kind k cs
      → Stack kind k (without_last_cursor cs)
  pop-Stack kind k [] h = tt
  pop-Stack kind k (c ∷ []) h = tt
  pop-Stack kind k (c ∷ d ∷ cs) h = (h.0, pop-Stack kind (suc k) (d ∷ cs) h.1)

  pub length-without_last_cursor :
      (cs : List (Option Text)) → length (without_last_cursor cs) ≡ length cs - 1
  length-without_last_cursor [] = refl
  length-without_last_cursor (c ∷ []) = refl
  length-without_last_cursor (c ∷ d ∷ cs) = omega (arith, length-without_last_cursor (d ∷ cs))

  -- The page that a cursor opens.
  pub record IsPage (kind : Dashboard) (k : ℕ) (page : Page Email) : Type 0 where
    pub items : page.items ≡ take config.api_page_size (rows_from kind k)
    pub more : is_some page.next_cursor ≡ ltb config.api_page_size (length (rows_from kind k))

  pub record Opened (kind : Dashboard) (k : ℕ) (c : Option Text) : Type 0 where
    pub page : Page Email
    pub answer :
        list_emails T C kind updated_at user config
          (some (record { cursor = c; limit = none; sender_id = none }))
          db
        ≡ ok page
    pub is_page : IsPage kind k page
    pub next : (d : Text) → page.next_cursor ≡ some d → Opens kind (suc k) (some d)

  module _ (codec : IsCodec C) (distinct : AreUnlike same_row (T.emails.rows db.emails))
      (dated : (kind : Dashboard) → AreDated T C config kind updated_at user db none)
      (positive : 0 < config.api_page_size) where
    pub first-Opens : (kind : Dashboard) → Opens kind 0 none
    first-Opens kind = record {
      at = none;
      text = refl;
      decoded = unfold decode_cursor in refl;
      rows =
          let none_yet : 0 ≡ 0 * config.api_page_size = omega arith in
          rows_first T C config kind updated_at user db codec distinct none config.api_page_size
          ∙ ap (λ n. take (suc config.api_page_size) (drop n (list_of kind))) none_yet;
    }

    pub next-Opens :
        (kind : Dashboard) (k : ℕ) (h : HasLast (take config.api_page_size (rows_from kind k)))
        → Opens kind (suc k) (some (encode_cursor C (position kind updated_at h.last)))
    next-Opens kind k h =
        let size = config.api_page_size in
        let rest = rows_from kind k in
        let before = take (k * size) (list_of kind) in
        let next = drop size rest in
        let parts : list_of kind ≡ (before ++ h.init) ++ h.last ∷ next =
          sym (take-append-drop (k * size) (list_of kind))
          ∙ ap (◌++◌ before) (
              sym (take-append-drop size rest)
              ∙ ap (λ xs. xs ++ next) h.split
              ∙ append_assoc h.init (h.last ∷ []) next)
          ∙ sym (append_assoc before h.init (h.last ∷ next)) in
        let further : k * size + size ≡ suc k * size = omega arith in
        record {
          at = some (position kind updated_at h.last);
          text = unfold encode_cursor in codec.nonempty _ _;
          decoded = decode-encode_cursor C (position kind updated_at h.last) codec (
              AreDated-at T C config kind updated_at user db none (before ++ h.init) next h.last
                (dated kind) parts);
          rows =
              rows_behind T C config kind updated_at user db codec distinct none (before ++ h.init)
                h.last next size parts
              ∙ ap (take (suc size)) (
                  drop-drop (k * size) size (list_of kind)
                  ∙ ap (λ n. drop n (list_of kind)) further);
        }

    pub opened : (kind : Dashboard) (k : ℕ) (c : Option Text) → Opens kind k c → Opened kind k c
    opened kind k c o =
        let size = config.api_page_size in
        let rest = rows_from kind k in
        let answer =
          answered T C config kind updated_at user db codec distinct none
            (record { cursor = c; limit = none; sender_id = none }) o.at (take (suc size) rest)
            o.text refl o.decoded o.rows in
        elim (Bool-cases (ltb size (length rest))) [
          | inr short ↦
              let fits : length rest ≤ size = ground arith in
              record {
                page = record { items = rest; next_cursor = none };
                answer =
                    answer
                    ∙ ap ok (
                        last_page T C config kind updated_at user db codec distinct none size rest
                          fits);
                is_page = record { items = sym (take-whole size rest fits); more = sym short };
                next = λ d e. absurd (cc);
              }
          | inl long ↦
              let more : size < length rest = ground arith in
              let end = nonempty-HasLast (take size rest) (omega (arith, length-take size rest)) in
              record {
                page = record {
                  items = take size rest;
                  next_cursor = some (encode_cursor C (position kind updated_at end.last));
                };
                answer =
                    answer
                    ∙ ap ok (
                        full_page T C config kind updated_at user db codec distinct none size rest
                          end.last more end.found);
                is_page = record { items = refl; more = sym long };
                next = λ d e.
                    let same : encode_cursor C (position kind updated_at end.last) ≡ d = cc in
                    subst (λ t. Opens kind (suc k) (some t)) same (next-Opens kind k end);
              }
        ]
