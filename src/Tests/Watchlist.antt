-- ===== src/Tests/Watchlist.antt =====
-- The buyer watches the lamp.
use ufsc_dso2_trabalho1_merc.Prelude.{◌≡◌, refl}
use ufsc_dso2_trabalho1_merc.Result.{ok}
use ufsc_dso2_trabalho1_merc.Tenants.{resolve_tenant}
use ufsc_dso2_trabalho1_merc.Database.{Db}
use ufsc_dso2_trabalho1_merc.Products.{find_by_id, map_product_row}
use ufsc_dso2_trabalho1_merc.Watchlist.{
  WatchedProduct, with_product, entry_row, add, remove, add_watchlist,
}
use ufsc_dso2_trabalho1_merc.Watchlist.Entries.{add_watchlist_again, remove-add_watchlist}
use ufsc_dso2_trabalho1_merc.Tests.Fixtures.{tenant, buyer, market, quoted_lamp}

-- What a run of the watchlist computes with.
unfoldable watch_run : Unit {0}
unfolding find_by_id map_product_row resolve_tenant add remove add_watchlist
watch_run = tt

abbrev watched_db : Db
watched_db = (add_watchlist 45 800 buyer tenant 10 market).1

abbrev watched : WatchedProduct
watched = with_product (entry_row 45 tenant buyer 10 800) quoted_lamp

add_watchlist_again_example :
    add_watchlist 46 900 buyer tenant 10 watched_db ≡ (ok watched, watched_db)
unfolding watch_run
add_watchlist_again_example = add_watchlist_again buyer tenant 10 45 46 800 900 market refl

remove-add_watchlist_example : remove tenant buyer 10 watched_db ≡ market
unfolding watch_run
remove-add_watchlist_example =
    remove-add_watchlist buyer tenant 10 45 800 market {watched = watched} refl refl
