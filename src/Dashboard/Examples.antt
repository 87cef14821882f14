-- ===== src/Dashboard/Examples.antt =====
-- A user who looks at the second page, at the other tab and at the first page again.
use abhishek_bhat2005_reachi.Base.{ℕ, ◌≡◌, none, List, [], ◌∷◌, suc, length, ok, arith, refl}
use abhishek_bhat2005_reachi.Schema.{list_tables, Email}
use abhishek_bhat2005_reachi.Api.{EmailApiConfig}
use abhishek_bhat2005_reachi.Api.Lists.{Dashboard, Page, is_wanted, precedes, position}
use abhishek_bhat2005_reachi.Api.Pages.{AreDated}
use abhishek_bhat2005_reachi.Base.Order.{sort_by}
use abhishek_bhat2005_reachi.Samples.{db_of, api_config}
use abhishek_bhat2005_reachi.Samples.Cursors.{cursor_platform, codec, rows, distinct, updated_at}
use abhishek_bhat2005_reachi.Dashboard.{Click, DashboardState, initial, cursors_of}
use abhishek_bhat2005_reachi.Dashboard.Opening.{IsPage}
use abhishek_bhat2005_reachi.Dashboard.Browsing.{shown, browse, browse-IsPage}

-- Two rows on a page.
abbrev config : EmailApiConfig
config = record api_config { api_page_size = 2 }

abbrev clicks : List Click
clicks =
    Click.forward
    ∷ Click.forward
    ∷ Click.tab Dashboard.sent
    ∷ Click.back
    ∷ Click.tab Dashboard.scheduled
    ∷ []

abbrev reached : DashboardState
reached = browse list_tables cursor_platform config updated_at 1 (db_of rows) clicks (initial none)

dated :
    (kind : Dashboard)
    → AreDated list_tables cursor_platform config kind updated_at 1 (db_of rows) none
unfolding sort_by is_wanted precedes position
dated Dashboard.scheduled = refl
dated Dashboard.sent = refl

browse-IsPage_example :
    (k : ℕ) × (page : Page Email) × (length (cursors_of reached.active_tab reached) ≡ suc k)
    × (shown list_tables cursor_platform config updated_at 1 (db_of rows) reached ≡ ok page)
    × IsPage list_tables cursor_platform config updated_at 1 (db_of rows) reached.active_tab k page
browse-IsPage_example =
    browse-IsPage list_tables cursor_platform config updated_at 1 (db_of rows) none clicks codec
      distinct dated (omega arith)
