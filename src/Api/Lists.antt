-- ===== src/Api/Lists.antt =====
-- apps/backend/src/email/router.ts, lines 48, 90 to 105 and 475 to 568, and the two lists at the end of
-- scheduling-service.ts: the paginated lists of emails. `updatedAt` is the column that Prisma sets at
-- each write. The encodings of a cursor belong to the platform.
use abhishek_bhat2005_reachi.Base.{
  ℕ, suc, Bool, true, false, ◌&&◌, ◌||◌, Option, none, some, List, Text, codes, ◌==◌, leb, ltb, any,
  length, take, get_last?, keep, Result, ok, err, if◌then◌else◌,
}
use abhishek_bhat2005_reachi.Base.Order.{sort_by}
use abhishek_bhat2005_reachi.Schema.{Tables, Db, Email, EmailStatus}
use abhishek_bhat2005_reachi.Worker.Statements.{is_remaining}
use abhishek_bhat2005_reachi.Scheduling.{CreationError}
use abhishek_bhat2005_reachi.Api.{EmailApiConfig, is_between, http_error}

-- What `encodeCursor` and `decodeCursor` take from the platform: base64url, the JSON of an object with
-- the two texts, the texts of times and of the UUIDs that the ids stand for, and zod's tests `z.iso.datetime` and `z.uuid`.
pub record CursorPlatform : Type 0 where
  pub to_base64url : Text → Text
  pub from_base64url : Text → Text
  pub stringify : (sort_at id : Text) → Text
  pub parse : Text → Option (Text × Text)
  pub is_datetime : Text → Bool
  pub is_uuid : Text → Bool
  pub to_iso_string : ℕ → Text
  pub parse_date : Text → ℕ
  pub uuid_text : ℕ → Text
  pub parse_uuid : Text → ℕ

-- A time and an id.
abbrev pub Position : Type 0
Position = ℕ × ℕ

unfoldable pub encode_cursor : CursorPlatform → Position → Text
encode_cursor C (sort_at, id) =
    C.to_base64url (C.stringify (C.to_iso_string sort_at) (C.uuid_text id))

-- `cursorSchema`.
abbrev pub cursor_schema : CursorPlatform → (sort_at id : Text) → Bool
cursor_schema C sort_at id = C.is_datetime sort_at && C.is_uuid id

unfoldable pub decode_cursor : CursorPlatform → Option Text → Result CreationError (Option Position)
decode_cursor C none = ok none
decode_cursor C (some value) = elim (C.parse (C.from_base64url value)) [
  | none ↦ http_error 400 (codes "INVALID_CURSOR")
  | some (sort_at, id) ↦
      if cursor_schema C sort_at id
      then ok (some (C.parse_date sort_at, C.parse_uuid id))
      else http_error 400 (codes "INVALID_CURSOR")
]

-- The query of a list, after zod's coercions.
pub record ListQuery : Type 0 where
  pub cursor : Option Text
  pub limit : Option ℕ
  pub sender_id : Option ℕ

pub record Listing : Type 0 where
  pub cursor : Option Text
  pub limit : ℕ
  pub sender_id : Option ℕ

abbrev pub limit_or_default : EmailApiConfig → Option ℕ → ℕ
limit_or_default config none = config.api_page_size
limit_or_default config (some n) = n

abbrev pub is_cursor_text : Option Text → Bool
is_cursor_text none = true
is_cursor_text (some s) = leb 1 (length s)

-- The bounds of a given limit; the default is not tested.
abbrev pub is_limit : EmailApiConfig → Option ℕ → Bool
is_limit config none = true
is_limit config (some n) = is_between 1 config.api_max_page_size n

-- `listQuerySchema`.
unfoldable pub list_query_schema : EmailApiConfig → Option ListQuery → Option Listing
list_query_schema config none = none
list_query_schema config (some q) =
    if is_cursor_text q.cursor && is_limit config q.limit
    then some (record {
      cursor = q.cursor;
      limit = limit_or_default config q.limit;
      sender_id = q.sender_id;
    })
    else none

-- The two lists, `scheduledDashboardStatuses` and `sentDashboardStatuses`.
pub data Dashboard : Type 0 where
  scheduled sent : Dashboard

abbrev pub is_sent_dashboard : EmailStatus → Bool
is_sent_dashboard EmailStatus.sent = true
is_sent_dashboard EmailStatus.failed = true
is_sent_dashboard EmailStatus.delivery_unknown = true
is_sent_dashboard _ = false

abbrev pub is_listed : Dashboard → EmailStatus → Bool
is_listed scheduled s = is_remaining s
is_listed sent s = is_sent_dashboard s

-- By the time, then by the id: ascending in one list, descending in the other.
abbrev pub earlier : Position → Position → Bool
earlier (t, i) (u, j) = ltb t u || (t == u && ltb i j)

unfoldable pub precedes : Dashboard → Position → Position → Bool
precedes scheduled p q = earlier p q
precedes sent p q = earlier q p

unfoldable pub position : Dashboard → (updated_at : Email → ℕ) → Email → Position
position scheduled updated_at e = (e.next_attempt_at, e.id)
position sent updated_at e = (updated_at e, e.id)

-- The `OR` of the cursor, and the condition on the sender.
abbrev pub is_behind : Dashboard → (Email → ℕ) → Option Position → Email → Bool
is_behind kind updated_at none e = true
is_behind kind updated_at (some c) e = precedes kind c (position kind updated_at e)

abbrev pub is_of_sender : Option ℕ → Email → Bool
is_of_sender none e = true
is_of_sender (some id) e = e.sender_id == id

pub record Page (Item : Type 0) : Type 0 where
  pub items : List Item
  pub next_cursor : Option Text

module _ (T : Tables) (C : CursorPlatform) (kind : Dashboard) (updated_at : Email → ℕ)
    (user : ℕ) where
  -- `batch: { userId: user.id }`, the statuses and the sender.
  unfoldable pub is_wanted : Db T → Option ℕ → Email → Bool
  is_wanted db sender_id e =
      any (λ b. b.id == e.batch_id && b.user_id == user) (T.batches.rows db.batches)
      && is_listed kind e.status
      && is_of_sender sender_id e

  abbrev pub comes_first : Email → Email → Bool
  comes_first e f = precedes kind (position kind updated_at e) (position kind updated_at f)

  -- `findMany`, one row more than the page has.
  unfoldable pub find_rows : Db T → Option ℕ → Option Position → ℕ → List Email
  find_rows db sender_id cursor limit = take (suc limit) (
      sort_by comes_first (
        keep (λ e. is_wanted db sender_id e && is_behind kind updated_at cursor e)
          (T.emails.rows db.emails)))

  abbrev pub next_cursor_of : Bool → Option Email → Option Text
  next_cursor_of false last = none
  next_cursor_of true none = none
  next_cursor_of true (some last) = some (encode_cursor C (position kind updated_at last))

  unfoldable pub page_of : List Email → ℕ → Page Email
  page_of rows limit =
      let page = take limit rows in
      record {
        items = page;
        next_cursor = next_cursor_of (ltb limit (length rows)) (get_last? page);
      }

  -- The rows of `GET /emails/scheduled` and `GET /emails/sent`.
  unfoldable pub list_emails :
      EmailApiConfig → Option ListQuery → Db T → Result CreationError (Page Email)
  list_emails config query db = elim (list_query_schema config query) [
    | none ↦ http_error 400 (codes "VALIDATION_ERROR")
    | some listing ↦ elim (decode_cursor C listing.cursor) [
      | err e ↦ err e
      | ok cursor ↦ ok (page_of (find_rows db listing.sender_id cursor listing.limit) listing.limit)
    ]
  ]
