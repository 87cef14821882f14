-- ===== src/Dashboard.antt =====
-- apps/frontend/src: pages/DashboardPage.tsx, the buttons of components/EmailTable.tsx, App.tsx and
-- `apiRequest` of api/client.ts. React Query is the caller of the requests; what a page draws is not
-- modelled beyond what its user can do there.
pub mod Opening
pub mod Browsing
mod Examples
use abhishek_bhat2005_reachi.Base.{
  ℕ, Bool, true, false, not, ◌&&◌, ◌||◌, Option, none, some, List, [], ◌∷◌, ◌++◌, Text, codes,
  text_eq, ◌==◌, leb, ltb, length, get_last?, Result, ok, err, if◌then◌else◌,
}
use abhishek_bhat2005_reachi.Api.Lists.{Dashboard, Page}

-- A reply of the API: its status, and its body if that is JSON.
pub record Reply : Type 0 where
  pub status : ℕ
  pub json : Option Text

-- What `apiRequest` throws: an `ApiError`, or the error of a reply that does not fit.
pub data ClientError : Type 0 where
  api_error : (status : ℕ) (code message : Text) → ClientError
  unexpected_reply : ClientError

-- The envelope of an error, by `errorEnvelopeSchema`.
pub record Envelope : Type 0 where
  pub code : Option Text
  pub message : Option Text

abbrev pub or_text : Option Text → Text → Text
or_text none s = s
or_text (some t) s = t

abbrev pub fallback : (status : ℕ) → Option Envelope → ClientError
fallback status none =
    api_error status (codes "REQUEST_FAILED") (codes "The request could not be completed")
fallback status (some e) =
    api_error status (or_text e.code (codes "REQUEST_FAILED"))
      (or_text e.message (codes "The request could not be completed"))

abbrev pub envelope_of : (Text → Option Envelope) → Option Text → Option Envelope
envelope_of parse none = none
envelope_of parse (some body) = parse body

abbrev pub checked : {A : Type 0} → Option A → Result ClientError A
checked none = err unexpected_reply
checked (some a) = ok a

-- `apiRequest`, on the reply; `schema none` is the schema on `undefined`.
unfoldable pub api_request :
    {A : Type 0}
    → (error_envelope : Text → Option Envelope) → (schema : Option Text → Option A) → Reply
    → Result ClientError A
api_request error_envelope schema reply =
    if not (leb 200 reply.status && leb reply.status 299)
    then err (fallback reply.status (envelope_of error_envelope reply.json))
    else if reply.status == 204
    then checked (schema none)
    else elim reply.json [ none ↦ err unexpected_reply | some body ↦ checked (schema (some body)) ]

-- What the query of the current user says, and the screen that `AppRoutes` shows for it at a path.
pub data AuthQuery (User : Type 0) : Type 0 where
  loading : AuthQuery User
  failed : ClientError → AuthQuery User
  loaded : User → AuthQuery User

pub data Screen (User : Type 0) : Type 0 where
  restoring unavailable to_login to_dashboard : Screen User
  login : Screen User
  dashboard : User → Screen User

abbrev pub is_unauthenticated : ClientError → Bool
is_unauthenticated (api_error status code message) = status == 401
is_unauthenticated unexpected_reply = false

abbrev pub routes : {User : Type 0} → Option User → Text → Screen User
routes none path = if text_eq path (codes "/login") then login else to_login
routes (some user) path = if text_eq path (codes "/dashboard") then dashboard user else to_dashboard

unfoldable pub app_routes : {User : Type 0} → AuthQuery User → (path : Text) → Screen User
app_routes loading path = restoring
app_routes (failed e) path = if is_unauthenticated e then routes none path else unavailable
app_routes (loaded user) path = routes (some user) path

-- The state of the page. A cursor is `none` on the first page of a list.
pub record DashboardState : Type 0 where
  pub active_tab : Dashboard
  pub scheduled_cursors : List (Option Text)
  pub sent_cursors : List (Option Text)
  pub compose_open : Bool
  pub toast : Option ℕ

abbrev pub active_tab_of : Option Text → Dashboard
active_tab_of none = Dashboard.scheduled
active_tab_of (some tab) =
    if text_eq tab (codes "sent") then Dashboard.sent else Dashboard.scheduled

abbrev pub initial : Option Text → DashboardState
initial tab = record {
  active_tab = active_tab_of tab;
  scheduled_cursors = none ∷ [];
  sent_cursors = none ∷ [];
  compose_open = false;
  toast = none;
}

abbrev pub cursors_of : Dashboard → DashboardState → List (Option Text)
cursors_of Dashboard.scheduled s = s.scheduled_cursors
cursors_of Dashboard.sent s = s.sent_cursors

abbrev pub with_cursors : Dashboard → List (Option Text) → DashboardState → DashboardState
with_cursors Dashboard.scheduled cursors s = record s { scheduled_cursors = cursors }
with_cursors Dashboard.sent cursors s = record s { sent_cursors = cursors }

-- `cursors.at(-1)`, where `undefined` is also that of no cursor.
abbrev pub last_cursor : List (Option Text) → Option Text
last_cursor [] = none
last_cursor (c ∷ []) = c
last_cursor (c ∷ d ∷ cs) = last_cursor (d ∷ cs)

-- `values.slice(0, -1)`.
abbrev pub without_last_cursor : List (Option Text) → List (Option Text)
without_last_cursor [] = []
without_last_cursor (c ∷ []) = []
without_last_cursor (c ∷ d ∷ cs) = c ∷ without_last_cursor (d ∷ cs)

abbrev pub cursor : DashboardState → Option Text
cursor s = last_cursor (cursors_of s.active_tab s)

-- `data` of the current query has a cursor of the next page.
unfoldable pub next_page : (next : Option Text) → DashboardState → DashboardState
next_page none s = s
next_page (some c) s = with_cursors s.active_tab (cursors_of s.active_tab s ++ some c ∷ []) s

unfoldable pub previous_page : DashboardState → DashboardState
previous_page s = with_cursors s.active_tab (without_last_cursor (cursors_of s.active_tab s)) s

abbrev pub switch_tab : Dashboard → DashboardState → DashboardState
switch_tab tab s = record s { active_tab = tab; toast = none }

-- `scheduled`, with the number of recipients of the response.
abbrev pub on_scheduled : ℕ → DashboardState → DashboardState
on_scheduled recipients s = record s {
  compose_open = false;
  toast = some recipients;
  active_tab = Dashboard.scheduled;
  scheduled_cursors = none ∷ [];
}

-- What the table lets its user do: only a table with rows has the two buttons.
pub record Buttons : Type 0 where
  pub back : Bool
  pub forward : Bool

unfoldable pub email_table :
    {Item : Type 0}
    → (loading : Bool) → (error : Option Text) → List Item
    → (can_go_back can_go_forward : Bool) → Buttons
email_table true error items back forward = record { back = false; forward = false }
email_table false (some e) items back forward = record { back = false; forward = false }
email_table false none [] back forward = record { back = false; forward = false }
email_table false none (item ∷ items) back forward = record { back = back; forward = forward }

abbrev pub is_some : Option Text → Bool
is_some none = false
is_some (some s) = true

-- The buttons under a page that is loaded.
unfoldable pub buttons : {Item : Type 0} → Page Item → DashboardState → Buttons
buttons page s =
    email_table false none page.items (ltb 1 (length (cursors_of s.active_tab s)))
      (is_some page.next_cursor)

-- What the user does, at a page that is loaded or (`none`) is not: a button that is off does nothing.
pub data Click : Type 0 where
  back forward : Click
  tab : Dashboard → Click

unfoldable pub click :
    {Item : Type 0} → Click → Option (Page Item) → DashboardState → DashboardState
click (tab t) page s = switch_tab t s
click back none s = s
click back (some page) s = if (buttons page s).back then previous_page s else s
click forward none s = s
click forward (some page) s = if (buttons page s).forward then next_page page.next_cursor s else s
