-- ===== src/Dashboard/Browsing.antt =====
-- The pages that a user of the dashboard sees, as windows of the whole list.
use abhishek_bhat2005_reachi.Base.{
  ℕ, suc, ◌+◌, ◌<◌, ◌≡◌, refl, sym, subst, Bool, true, false, Option, none, some, List, [], ◌∷◌,
  ◌++◌, Text, ltb, length, length-append, Result, ok, err, arith, Bool-cases, inl, inr,
  Option-cases,
}
use abhishek_bhat2005_reachi.Base.Order.{AreUnlike}
use abhishek_bhat2005_reachi.Schema.{Tables, Db, Email}
use abhishek_bhat2005_reachi.Scheduling.{CreationError}
use abhishek_bhat2005_reachi.Api.{EmailApiConfig}
use abhishek_bhat2005_reachi.Api.Lists.{CursorPlatform, Dashboard, Page, list_emails}
use abhishek_bhat2005_reachi.Api.Pages.{IsCodec, AreDated, same_row}
use abhishek_bhat2005_reachi.Dashboard.{
  DashboardState, Click, initial, cursors_of, with_cursors, last_cursor, without_last_cursor,
  cursor, next_page, previous_page, email_table, is_some, buttons, click, switch_tab,
}
use abhishek_bhat2005_reachi.Dashboard.Opening.{
  Opens, Opened, Stack, last-Opens, push-Stack, pop-Stack, length-without_last_cursor, IsPage,
  first-Opens, opened,
}

module _ (T : Tables) (C : CursorPlatform) (config : EmailApiConfig) (updated_at : Email → ℕ)
    (user : ℕ) (db : Db T) where
  -- The page that the API answers for the last cursor of the tab.
  unfoldable pub shown : DashboardState → Result CreationError (Page Email)
  shown s =
      list_emails T C s.active_tab updated_at user config
        (some (record { cursor = cursor s; limit = none; sender_id = none })) db

  abbrev page_shown : Result CreationError (Page Email) → Option (Page Email)
  page_shown (err e) = none
  page_shown (ok page) = some page

  -- The state after clicks.
  unfoldable pub browse : List Click → DashboardState → DashboardState
  browse [] s = s
  browse (c ∷ cs) s = browse cs (click c (page_shown (shown s)) s)

  module _ (codec : IsCodec C) (distinct : AreUnlike same_row (T.emails.rows db.emails))
      (dated : (kind : Dashboard) → AreDated T C config kind updated_at user db none)
      (positive : 0 < config.api_page_size) where
    -- Both tabs have cursors, and each of them opens its page.
    Inv : DashboardState → Type 0
    Inv s =
        (kind : Dashboard)
        → Stack T C config updated_at user db kind 0 (cursors_of kind s)
          × (0 < length (cursors_of kind s))

    with_cursors-Inv :
        (j kind : Dashboard) (cs : List (Option Text)) (s : DashboardState)
        → Inv s
        → Stack T C config updated_at user db j 0 cs
        → 0 < length cs
        → Stack T C config updated_at user db kind 0 (cursors_of kind (with_cursors j cs s))
          × (0 < length (cursors_of kind (with_cursors j cs s)))
    unfolding Inv
    with_cursors-Inv Dashboard.scheduled Dashboard.scheduled cs s i st p = (st, p)
    with_cursors-Inv Dashboard.scheduled Dashboard.sent cs s i st p = i Dashboard.sent
    with_cursors-Inv Dashboard.sent Dashboard.scheduled cs s i st p = i Dashboard.scheduled
    with_cursors-Inv Dashboard.sent Dashboard.sent cs s i st p = (st, p)

    current :
        (kind : Dashboard) (cs : List (Option Text))
        → Stack T C config updated_at user db kind 0 cs
        → 0 < length cs
        → (k : ℕ) × (length cs ≡ suc k)
          × Opens T C config updated_at user db kind k (last_cursor cs)
    current kind [] st p = absurd (omega arith)
    current kind (c ∷ cs) st p =
        let same : 0 + length cs ≡ length cs = omega arith in
        (
          length cs,
          refl,
          subst (λ n. Opens T C config updated_at user db kind n (last_cursor (c ∷ cs))) same
              (last-Opens T C config updated_at user db kind 0 c cs st),
        )

    back_of :
        (items : List Email) (b f : Bool)
        → (email_table false none items b f).back ≡ true
        → b ≡ true
    unfolding email_table
    back_of [] b f h = cc
    back_of (e ∷ es) b f h = h

    back_more :
        (page : Page Email) (s : DashboardState)
        → (buttons page s).back ≡ true
        → 1 < length (cursors_of s.active_tab s)
    unfolding buttons
    back_more page s h =
        let many =
          back_of page.items (ltb 1 (length (cursors_of s.active_tab s))) (is_some page.next_cursor)
            h in
        ground arith

    previous-Inv :
        (page : Page Email) (s : DashboardState) → Inv s → Inv (click Click.back (some page) s)
    unfolding Inv click previous_page
    previous-Inv page s i kind = elim (Bool-cases ((buttons page s).back)) [
      | inr off ↦ rw off (i kind)
      | inl on ↦
          let cs = cursors_of s.active_tab s in
          rw on (
            with_cursors-Inv s.active_tab kind (without_last_cursor cs) s i
              (pop-Stack T C config updated_at user db s.active_tab 0 cs (i s.active_tab).0)
              (omega (
                arith,
                back_more page s on,
                length-without_last_cursor T C config updated_at user db cs,
              )))
    ]

    next-Inv :
        (k : ℕ) (page : Page Email) (s : DashboardState)
        → length (cursors_of s.active_tab s) ≡ suc k
        → ((d : Text)
            → page.next_cursor ≡ some d
            → Opens T C config updated_at user db s.active_tab (suc k) (some d))
        → Inv s
        → Inv (click Click.forward (some page) s)
    unfolding Inv click next_page
    next-Inv k page s n o i kind = elim (Bool-cases ((buttons page s).forward)) [
      | inr off ↦ rw off (i kind)
      | inl on ↦ elim (Option-cases page.next_cursor) [
        | inl last ↦ rw on (rw last (i kind))
        | inr (d, more) ↦
            let cs = cursors_of s.active_tab s in
            let same : suc k ≡ 0 + length cs = omega (arith, n) in
            rw on (
              rw more (
                with_cursors-Inv s.active_tab kind (cs ++ some d ∷ []) s i
                  (push-Stack T C config updated_at user db s.active_tab 0 cs (some d)
                    (i s.active_tab).0
                    (subst (λ m. Opens T C config updated_at user db s.active_tab m (some d)) same
                      (o d more)))
                  (omega (arith, length-append cs (some d ∷ [])))))
      ]
    ]

    tab-Inv :
        (t kind : Dashboard) (s : DashboardState)
        → Inv s
        → Stack T C config updated_at user db kind 0 (cursors_of kind (switch_tab t s))
          × (0 < length (cursors_of kind (switch_tab t s)))
    unfolding Inv
    tab-Inv t Dashboard.scheduled s i = i Dashboard.scheduled
    tab-Inv t Dashboard.sent s i = i Dashboard.sent

    record Reads (s : DashboardState) : Type 0 where
      index : ℕ
      depth : length (cursors_of s.active_tab s) ≡ suc index
      here : Opened T C config updated_at user db s.active_tab index (cursor s)

    reads : (s : DashboardState) → Inv s → Reads s
    unfolding Inv
    reads s i =
        let (k, n, o) =
          current s.active_tab (cursors_of s.active_tab s) (i s.active_tab).0 (i s.active_tab).1 in
        record {
          index = k;
          depth = n;
          here =
              opened T C config updated_at user db codec distinct dated positive s.active_tab k
                (cursor s) o;
        }

    shown_lem : (s : DashboardState) (r : Reads s) → shown s ≡ ok r.here.page
    unfolding shown
    shown_lem s r = r.here.answer

    click-Inv : (c : Click) (s : DashboardState) → Inv s → Inv (click c (page_shown (shown s)) s)
    click-Inv (Click.tab t) s i = unfold Inv click in λ kind. tab-Inv t kind s i
    click-Inv Click.back s i =
        let r = reads s i in
        subst (λ x. Inv (click Click.back (page_shown x) s)) (sym (shown_lem s r))
          (previous-Inv r.here.page s i)
    click-Inv Click.forward s i =
        let r = reads s i in
        subst (λ x. Inv (click Click.forward (page_shown x) s)) (sym (shown_lem s r))
          (next-Inv r.index r.here.page s r.depth r.here.next i)

    browse-Inv : (clicks : List Click) (s : DashboardState) → Inv s → Inv (browse clicks s)
    unfolding browse
    browse-Inv [] s i = i
    browse-Inv (c ∷ cs) s i = browse-Inv cs (click c (page_shown (shown s)) s) (click-Inv c s i)

    initial-Inv : (t : Option Text) → Inv (initial t)
    unfolding Inv
    initial-Inv t Dashboard.scheduled = (
      (
        first-Opens T C config updated_at user db codec distinct dated positive Dashboard.scheduled,
        tt,
      ),
      omega arith,
    )
    initial-Inv t Dashboard.sent = (
      (first-Opens T C config updated_at user db codec distinct dated positive Dashboard.sent, tt),
      omega arith,
    )

-- Whatever a user clicks, the page that the dashboard shows is a window of the whole list of its tab: with
-- `k` pages before it in its stack of cursors, it has the rows from `k` times the page size on, as
-- many as fit, and a cursor of a next page exactly when there are more. The ids are distinct, the
-- times in the two lists are before the year 10000, and the table does not change meanwhile.
pub browse-IsPage :
    (T : Tables) (C : CursorPlatform) (config : EmailApiConfig) (updated_at : Email → ℕ) (user : ℕ)
    (db : Db T) (tab : Option Text) (clicks : List Click)
    → IsCodec C
    → AreUnlike same_row (T.emails.rows db.emails)
    → ((kind : Dashboard) → AreDated T C config kind updated_at user db none)
    → 0 < config.api_page_size
    → let s = browse T C config updated_at user db clicks (initial tab) in
      (k : ℕ) × (page : Page Email) × (length (cursors_of s.active_tab s) ≡ suc k)
      × (shown T C config updated_at user db s ≡ ok page)
      × IsPage T C config updated_at user db s.active_tab k page
browse-IsPage T C config updated_at user db tab clicks codec distinct dated positive =
    let s = browse T C config updated_at user db clicks (initial tab) in
    let i =
      browse-Inv T C config updated_at user db codec distinct dated positive clicks (initial tab)
        (initial-Inv T C config updated_at user db codec distinct dated positive tab) in
    let r = reads T C config updated_at user db codec distinct dated positive s i in
    (
      r.index,
      r.here.page,
      r.depth,
      shown_lem T C config updated_at user db codec distinct dated positive s r,
      r.here.is_page,
    )
