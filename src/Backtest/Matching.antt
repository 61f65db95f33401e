-- ===== src/Backtest/Matching.antt =====
-- btgateway/gatewaymgr.cpp: onGotTick and the four ways in which a tick fills an order.
use bftrader.Prelude.{
  not, ◌&&◌, ◌||◌, Option, none, some, [], ◌∷◌, Text, QMap, find, modify, insert, add32, sub32,
  slt32, if◌then◌else◌, ◌==◌, text_eq, ◌>>=◌,
}
use bftrader.Proto.{
  status_alltraded, BfOrderData, BfTradeData, BfPositionData, BfTickData, Fpu, is_long, is_short,
  is_net, is_open, is_close, is_alltraded, is_cancelled,
}
use bftrader.Backtest.State.{
  Gateway, Now, got_order, got_trade, emit, long_key, short_key, gen_trade_id,
}
use bftrader.Backtest.Orders.{cancelled}

abbrev pub filled : BfOrderData → BfOrderData
filled order = record order { tradedvolume = order.totalvolume; status = status_alltraded }

unfoldable pub new_trade : Text → BfOrderData → BfTickData → Now → BfTradeData
new_trade tradeid order tick now = record {
  symbol = order.symbol;
  exchange = order.exchange;
  tradeid = tradeid;
  bforderid = order.bforderid;
  direction = order.direction;
  offset = order.offset;
  price = tick.lastprice;
  volume = order.totalvolume;
  tradedate = now.date;
  tradetime = now.time;
}

module _ (fpu : Fpu) where
  -- The position after an opening trade: the average price, the volume, and the frozen volume.
  unfoldable pub opened : BfTradeData → BfPositionData → BfPositionData
  opened trade p =
      let new_pos = add32 p.position trade.volume in
      record p {
        price =
            fpu.div
              (fpu.add (fpu.mul (fpu.of_int p.position) p.price)
                (fpu.mul (fpu.of_int trade.volume) trade.price))
              (fpu.of_int new_pos);
        position = new_pos;
        frozen = sub32 p.frozen trade.volume;
      }

  -- The position after a closing trade; an emptied position has price 0.
  unfoldable pub closed : BfTradeData → BfPositionData → BfPositionData
  closed trade p =
      let new_pos = sub32 p.position trade.volume in
      record p {
        price =
            if new_pos == 0
            then 0
            else fpu.div
                (fpu.sub (fpu.mul (fpu.of_int p.position) p.price)
                  (fpu.mul (fpu.of_int trade.volume) trade.price))
                (fpu.of_int new_pos);
        position = new_pos;
      }

  -- The trade, the write to the position at `key`, and the two signals. The order that comes back
  -- is written through the pointer that the loop holds.
  unfoldable pub settle :
      (BfTradeData → BfPositionData → BfPositionData)
      → Text
      → BfOrderData
      → BfTickData
      → Now
      → Gateway
      → BfOrderData × Gateway
  settle update key order tick now g =
      let (tradeid, g') = gen_trade_id g in
      let trade = new_trade tradeid order tick now in
      (
        filled order,
        emit (got_order (filled order)) (
            emit (got_trade trade) (record g' {
              trades = insert tradeid trade g'.trades;
              positions = modify key (update trade) g'.positions;
            })),
      )

  -- An opening fill at the position with the given key.
  unfoldable pub fill_open :
      Text → BfOrderData → BfTickData → Now → Gateway → Option (BfOrderData × Gateway)
  fill_open key order tick now g = elim (find key g.positions) [
    | none ↦ none
    | some p ↦ some (settle opened key order tick now g)
  ]

  unfoldable pub on_long_open :
      BfOrderData → BfTickData → Now → Gateway → Option (BfOrderData × Gateway)
  on_long_open order = fill_open (long_key order.symbol order.exchange) order

  unfoldable pub on_short_open :
      BfOrderData → BfTickData → Now → Gateway → Option (BfOrderData × Gateway)
  on_short_open order = fill_open (short_key order.symbol order.exchange) order

  -- A closing fill: the position is checked again when the tick comes.
  unfoldable pub fill_close :
      Text → BfOrderData → BfTickData → Now → Gateway → Option (BfOrderData × Gateway)
  fill_close key order tick now g = elim (find key g.positions) [
    | none ↦ none
    | some p ↦ some (
        if slt32 p.position order.totalvolume
        then (cancelled now order, emit (got_order (cancelled now order)) g)
        else settle closed key order tick now g)
  ]

  unfoldable pub on_long_close :
      BfOrderData → BfTickData → Now → Gateway → Option (BfOrderData × Gateway)
  on_long_close order = fill_close (short_key order.symbol order.exchange) order

  unfoldable pub on_short_close :
      BfOrderData → BfTickData → Now → Gateway → Option (BfOrderData × Gateway)
  on_short_close order = fill_close (long_key order.symbol order.exchange) order

  -- One round of the loop of onGotTick. Of its four tests at most one applies to an order.
  unfoldable pub match_order :
      BfOrderData → BfTickData → Now → Gateway → Option (BfOrderData × Gateway)
  match_order order tick now g =
      if is_alltraded order.status || is_cancelled order.status
      then some (order, g)
      else if not (text_eq order.symbol tick.symbol) || not (text_eq order.exchange tick.exchange)
      then some (order, g)
      else if (is_long order.direction || is_net order.direction)
          && (is_open order.offset && fpu.le tick.lastprice order.price)
      then on_long_open order tick now g
      else if is_short order.direction
          && (is_open order.offset && fpu.le order.price tick.lastprice)
      then on_short_open order tick now g
      else if (is_long order.direction || is_net order.direction)
          && (is_close order.offset && fpu.le tick.lastprice order.price)
      then on_long_close order tick now g
      else if is_short order.direction
          && (is_close order.offset && fpu.le order.price tick.lastprice)
      then on_short_close order tick now g
      else some (order, g)

  -- The loop over orders_, which changes the orders in place.
  unfoldable pub match_orders :
      QMap BfOrderData → BfTickData → Now → Gateway → Option (QMap BfOrderData × Gateway)
  match_orders [] tick now g = some ([], g)
  match_orders ((id, order) ∷ rest) tick now g = do
    (order', g') ← match_order order tick now g
    (rest', g'') ← match_orders rest tick now g'
    some ((id, order') ∷ rest', g'')

  unfoldable pub on_got_tick : BfTickData → Now → Gateway → Option Gateway
  on_got_tick tick now g = do
    (orders, g') ← match_orders g.orders tick now g
    some (record g' { orders = orders })
