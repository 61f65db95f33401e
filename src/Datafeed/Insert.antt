-- ===== src/Datafeed/Insert.antt =====
-- datafeed/dbservice.cpp: dbInit and the three inserts. `none` is a call of qFatal.
use bftrader.Prelude.{
  Bool, true, false, not, ◌||◌, Option, none, some, List, [], ◌∷◌, ◌==◌, Text, lit, length,
  if◌then◌else◌,
}
use bftrader.Proto.{BfTickData, product_unknown}
use bftrader.ProtoUtils.{
  BfBarPeriod, period_unknown, period_s01, period_s03, period_s05, period_s10, period_s15,
  period_s30, period_m01, period_m03, period_m05, period_m10, period_m15, period_m30, period_h01,
  period_h02, period_h03, period_h04, period_d01, period_w01, period_x01,
}
use bftrader.Datafeed.Messages.{BfBarData, BfContractData}
use bftrader.Datafeed.Store.{Leveldb, Codec, Change, put}
use bftrader.Datafeed.Keys.{
  tick_key, first_tick_key, last_tick_key, bar_key, first_bar_key, last_bar_key, contract_key,
}

abbrev pub is_empty : Text → Bool
is_empty s = length s == 0

abbrev pub is_unknown : BfBarPeriod → Bool
is_unknown period_unknown = true
is_unknown p = false

-- Messages that have just been built.
abbrev pub null_tick : BfTickData
null_tick = record {
  symbol = [];
  exchange = [];
  actiondate = [];
  ticktime = [];
  lastprice = 0;
  volume = 0;
  openinterest = 0;
  lastvolume = 0;
  openprice = 0;
  highprice = 0;
  lowprice = 0;
  precloseprice = 0;
  upperlimit = 0;
  lowerlimit = 0;
  bidprice1 = 0;
  askprice1 = 0;
  bidvolume1 = 0;
  askvolume1 = 0;
}

abbrev pub null_bar : BfBarData
null_bar = record {
  symbol = [];
  exchange = [];
  period = period_unknown;
  actiondate = [];
  bartime = [];
  volume = 0;
  openinterest = 0;
  lastvolume = 0;
  openprice = 0;
  highprice = 0;
  lowprice = 0;
  closeprice = 0;
}

abbrev pub null_contract : BfContractData
null_contract = record {
  symbol = [];
  exchange = [];
  name = [];
  productclass = product_unknown;
  volumemultiple = 0;
  pricetick = 0;
  maxlimit = 0;
  minlimit = 0;
  maxmarket = 0;
  minmarket = 0;
}

-- From BfBarPeriod_MIN to BfBarPeriod_MAX.
abbrev pub all_periods : List BfBarPeriod
all_periods =
    period_unknown ∷ period_s01 ∷ period_s03 ∷ period_s05 ∷ period_s10 ∷ period_s15 ∷ period_s30
    ∷ period_m01 ∷ period_m03 ∷ period_m05 ∷ period_m10 ∷ period_m15 ∷ period_m30 ∷ period_h01
    ∷ period_h02 ∷ period_h03 ∷ period_h04 ∷ period_d01 ∷ period_w01 ∷ period_x01 ∷ []

unfoldable pub invalid_tick : BfTickData → Bool
invalid_tick t =
    is_empty t.symbol || (is_empty t.exchange || (is_empty t.actiondate || is_empty t.ticktime))

unfoldable pub invalid_bar : BfBarData → Bool
invalid_bar b =
    is_empty b.symbol
    || (is_empty b.exchange
        || (is_empty b.actiondate || (is_empty b.bartime || is_unknown b.period)))

unfoldable pub invalid_contract : BfContractData → Bool
invalid_contract c = is_empty c.symbol || (is_empty c.exchange || is_empty c.name)

module _ (ticks : Codec BfTickData) (bars : Codec BfBarData)
    (contracts : Codec BfContractData) where
  -- The loop over the periods of insertContract.
  unfoldable pub bar_marks : Text → Text → List BfBarPeriod → List Change
  bar_marks symbol exchange [] = []
  bar_marks symbol exchange (p ∷ ps) =
      put (first_bar_key symbol exchange p) (bars.bytes null_bar)
      ∷ put (last_bar_key symbol exchange p) (bars.bytes null_bar)
      ∷ bar_marks symbol exchange ps

  unfoldable pub contract_batch : BfContractData → List Change
  contract_batch c =
      put (contract_key c.symbol c.exchange) (contracts.bytes c)
      ∷ put (first_tick_key c.symbol c.exchange) (ticks.bytes null_tick)
      ∷ put (last_tick_key c.symbol c.exchange) (ticks.bytes null_tick)
      ∷ bar_marks c.symbol c.exchange all_periods

  module _ {Db : Type 0} (ldb : Leveldb Db) where
    unfoldable pub db_init : Db → Db
    db_init db =
        ldb.write
          (put (lit "contract+") (contracts.bytes null_contract)
            ∷ put (lit "contract=") (contracts.bytes null_contract)
            ∷ [])
          db

    unfoldable pub insert_tick : BfTickData → Db → Option Db
    insert_tick t db =
        if invalid_tick t
        then some db
        else if not (ticks.serializes t)
        then none
        else some (
            ldb.write
              (put (tick_key t.symbol t.exchange t.actiondate t.ticktime) (ticks.bytes t) ∷ []) db)

    unfoldable pub insert_bar : BfBarData → Db → Option Db
    insert_bar b db =
        if invalid_bar b
        then some db
        else if not (bars.serializes b)
        then none
        else some (
            ldb.write
              (put (bar_key b.symbol b.exchange b.period b.actiondate b.bartime) (bars.bytes b)
                ∷ [])
              db)

    unfoldable pub insert_contract : BfContractData → Db → Option Db
    insert_contract c db =
        if invalid_contract c
        then some db
        else if not (contracts.serializes c)
        then none
        else some (ldb.write (contract_batch c) db)
