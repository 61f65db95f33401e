-- ===== src/Datafeed/Ticks.antt =====
-- datafeed/dbservice.cpp: getTick with its three forms, and deleteTick. `none` is a call of qFatal.
use bftrader.Prelude.{ℕ, Bool, not, ◌&&◌, ◌||◌, Option, some, List, [], if◌then◌else◌, ◌>>=◌}
use bftrader.Proto.{BfTickData, BfGetTickReq}
use bftrader.Datafeed.Messages.{BfDeleteTickReq}
use bftrader.Datafeed.Store.{Leveldb, Codec}
use bftrader.Datafeed.Keys.{tick_key, first_tick_key, last_tick_key}
use bftrader.Datafeed.Insert.{is_empty}
use bftrader.Datafeed.Scan.{scan_to, scan_count, scan_back, write_until, scan_deletes, reversed}

unfoldable pub incomplete : BfDeleteTickReq → Bool
incomplete req =
    is_empty req.symbol
    || (is_empty req.exchange
        || (is_empty req.todate
            || (is_empty req.totime || (is_empty req.fromdate || is_empty req.fromtime))))

module _ {Db : Type 0} (ldb : Leveldb Db) where
  module _ (ticks : Codec BfTickData) (accepts : ℕ → Bool) where
    unfoldable pub get_tick_count_to : BfGetTickReq → Db → Option (List BfTickData)
    get_tick_count_to req db = do
      found ←
          scan_back ticks.parse (first_tick_key req.symbol req.exchange)
            (last_tick_key req.symbol req.exchange) req.count 0
            (ldb.seek_prev (tick_key req.symbol req.exchange req.todate req.totime) db)
      some (write_until accepts 0 (reversed found))

    unfoldable pub get_tick_from_count : BfGetTickReq → Db → Option (List BfTickData)
    get_tick_from_count req db =
        scan_count ticks.parse accepts (first_tick_key req.symbol req.exchange)
          (last_tick_key req.symbol req.exchange) req.count 0
          (ldb.seek_next (tick_key req.symbol req.exchange req.fromdate req.fromtime) db)

    unfoldable pub get_tick_from_to : BfGetTickReq → Db → Option (List BfTickData)
    get_tick_from_to req db =
        scan_to ticks.parse accepts (first_tick_key req.symbol req.exchange)
          (last_tick_key req.symbol req.exchange)
          (tick_key req.symbol req.exchange req.todate req.totime) 0
          (ldb.seek_next (tick_key req.symbol req.exchange req.fromdate req.fromtime) db)

    unfoldable pub get_tick : BfGetTickReq → Db → Option (List BfTickData)
    get_tick req db =
        if is_empty req.symbol || is_empty req.exchange
        then some []
        else if not (is_empty req.todate) && not (is_empty req.fromdate)
        then get_tick_from_to req db
        else if not (is_empty req.todate)
        then get_tick_count_to req db
        else if not (is_empty req.fromdate)
        then get_tick_from_count req db
        else some []

  unfoldable pub delete_tick : BfDeleteTickReq → Db → Db
  delete_tick req db =
      if incomplete req
      then db
      else ldb.write
          (scan_deletes (first_tick_key req.symbol req.exchange)
            (last_tick_key req.symbol req.exchange)
            (tick_key req.symbol req.exchange req.todate req.totime)
            (ldb.seek_next (tick_key req.symbol req.exchange req.fromdate req.fromtime) db))
          db
