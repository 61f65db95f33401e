-- ===== src/Datafeed/Bars.antt =====
-- datafeed/dbservice.cpp: getBar with its three forms, and deleteBar. `none` is a call of qFatal.
use bftrader.Prelude.{
  ℕ, Bool, not, ◌&&◌, ◌||◌, Option, some, List, [], ◌++◌, lit, if◌then◌else◌, ◌>>=◌,
}
use bftrader.Datafeed.Messages.{BfBarData, BfGetBarReq, BfDeleteBarReq}
use bftrader.Datafeed.Store.{Leveldb, Codec}
use bftrader.Datafeed.Keys.{bar_key, first_bar_key, last_bar_key, bar_tail, bar_mark}
use bftrader.Datafeed.Insert.{is_empty, is_unknown}
use bftrader.Datafeed.Scan.{scan_to, scan_count, scan_back, write_each, scan_deletes, reversed}

module _ {Db : Type 0} (ldb : Leveldb Db) where
  module _ (bars : Codec BfBarData) (accepts : ℕ → Bool) where
    unfoldable pub get_bar_count_to : BfGetBarReq → Db → Option (List BfBarData)
    get_bar_count_to req db = do
      found ←
          scan_back bars.parse (first_bar_key req.symbol req.exchange req.period)
            (last_bar_key req.symbol req.exchange req.period) req.count 0
            (ldb.seek_prev (bar_key req.symbol req.exchange req.period req.todate req.totime) db)
      some (write_each accepts 0 (reversed found))

    unfoldable pub get_bar_from_count : BfGetBarReq → Db → Option (List BfBarData)
    get_bar_from_count req db =
        scan_count bars.parse accepts (first_bar_key req.symbol req.exchange req.period)
          (last_bar_key req.symbol req.exchange req.period) req.count 0
          (ldb.seek_next (bar_key req.symbol req.exchange req.period req.fromdate req.fromtime) db)

    unfoldable pub get_bar_from_to : BfGetBarReq → Db → Option (List BfBarData)
    get_bar_from_to req db =
        scan_to bars.parse accepts (first_bar_key req.symbol req.exchange req.period)
          (last_bar_key req.symbol req.exchange req.period)
          (bar_key req.symbol req.exchange req.period req.todate req.totime) 0
          (ldb.seek_next (bar_key req.symbol req.exchange req.period req.fromdate req.fromtime) db)

    unfoldable pub get_bar : BfGetBarReq → Db → Option (List BfBarData)
    get_bar req db =
        if is_empty req.symbol || (is_empty req.exchange || is_unknown req.period)
        then some []
        else if not (is_empty req.todate) && not (is_empty req.fromdate)
        then get_bar_from_to req db
        else if not (is_empty req.todate)
        then get_bar_count_to req db
        else if not (is_empty req.fromdate)
        then get_bar_from_count req db
        else some []

  -- deleteBar builds its four keys with the word "tick-".
  unfoldable pub delete_bar : BfDeleteBarReq → Db → Db
  delete_bar req db =
      if is_empty req.symbol
        || (is_empty req.exchange
            || (is_empty req.todate
                || (is_empty req.totime
                    || (is_empty req.fromdate
                        || (is_empty req.fromtime || is_unknown req.period)))))
      then db
      else let key = bar_tail req.symbol req.exchange req.period in
        ldb.write
          (scan_deletes (lit "tick-" ++ bar_mark req.symbol req.exchange req.period (lit "+"))
            (lit "tick-" ++ bar_mark req.symbol req.exchange req.period (lit "="))
            (lit "tick-" ++ key req.todate req.totime)
            (ldb.seek_next (lit "tick-" ++ key req.fromdate req.fromtime) db))
          db
