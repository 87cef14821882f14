-- ===== src/Api/ListExamples.antt =====
-- The lists and the batch of a small database.
use abhishek_bhat2005_reachi.Base.{
  ◌≡◌, ◌==◌, refl, true, none, some, [], ◌∷◌, ok, count, ◌&&◌, arith,
}
use abhishek_bhat2005_reachi.Base.Order.{sort_by}
use abhishek_bhat2005_reachi.Schema.{list_tables}
use abhishek_bhat2005_reachi.Samples.Cursors.{cursor_platform, codec, rows, distinct, updated_at}
use abhishek_bhat2005_reachi.Samples.{api_config, db_of, email, batch}
use abhishek_bhat2005_reachi.Api.Lists.{Dashboard, is_wanted, precedes, position}
use abhishek_bhat2005_reachi.Api.Pages.{all_pages, whole_list, AreDated, all_pages-whole}
use abhishek_bhat2005_reachi.Api.Reads.{
  get_batch, get_batch_lem, group_by_status, total, BatchSummary, sender_name,
}

-- Three rows of four, by two pages.
listed :
    whole_list list_tables cursor_platform api_config Dashboard.scheduled updated_at 1
      (db_of rows)
      none
    ≡ email 11 ∷ email 12 ∷ email 13 ∷ []
unfolding sort_by is_wanted precedes position
listed = refl

dated :
    AreDated list_tables cursor_platform api_config Dashboard.scheduled updated_at 1
      (db_of rows)
      none
unfolding sort_by is_wanted precedes position
dated = refl

all_pages-whole_example :
    all_pages list_tables cursor_platform api_config Dashboard.scheduled updated_at 1
      (db_of rows)
      4
      (record { cursor = none; limit = some 2; sender_id = none })
    ≡ some (
        whole_list list_tables cursor_platform api_config Dashboard.scheduled updated_at 1
          (db_of rows)
          none)
all_pages-whole_example =
    all_pages-whole list_tables cursor_platform api_config Dashboard.scheduled updated_at 1
      (db_of rows) (some 2) none 4 codec distinct dated refl (ground arith)
      (rw listed (ground arith))

abbrev summary : BatchSummary
summary = record {
  batch = batch;
  by_status = group_by_status 5 rows;
  sender = sender_name list_tables (db_of rows) 7;
}

found : get_batch list_tables 1 5 (db_of rows) ≡ ok summary
unfolding get_batch
found = refl

get_batch_lem_example :
    ((batch.id == 5 && batch.user_id == 1) ≡ true)
    × (total (group_by_status 5 rows) ≡ count (λ e. e.batch_id == 5) rows)
get_batch_lem_example = get_batch_lem list_tables 1 5 (db_of rows) summary found
