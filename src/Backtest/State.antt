-- ===== src/Backtest/State.antt =====
-- btgateway/gatewaymgr.h and the session part of btgateway/gatewaymgr.cpp: the state of the
-- simulated exchange, its identifiers, start, stop and the queries.
use bftrader.Prelude.{ℕ, ◌++◌, List, [], ◌∷◌, Text, lit, QMap, insert, add32, format_d}
use bftrader.Proto.{
  BfDirection, direction_long, direction_short, BfNotificationType, notification_beginqueryorders,
  notification_endqueryorders, notification_beginqueryposition, notification_endqueryposition,
  BfOrderData, BfTradeData, BfPositionData, BfAccountData, BfGetTickReq,
}

-- What the manager emits.
pub data Signal : Type 0 where
  trade_will_begin : BfGetTickReq → Signal
  trade_stopped : Signal
  got_account : BfAccountData → Signal
  got_order : BfOrderData → Signal
  got_trade : BfTradeData → Signal
  got_position : BfPositionData → Signal
  got_notification : BfNotificationType → Signal

-- `sent` holds every signal emitted so far, the newest first.
pub record Gateway : Type 0 where
  pub order_id : ℕ
  pub trade_id : ℕ
  pub account : BfAccountData
  pub positions : QMap BfPositionData
  pub orders : QMap BfOrderData
  pub trades : QMap BfTradeData
  pub sent : List Signal

-- The local time when a call is handled, as yyyyMMdd and hh:mm:ss.
pub record Now : Type 0 where
  pub date : Text
  pub time : Text

abbrev pub emit : Signal → Gateway → Gateway
emit x g = record g { sent = x ∷ g.sent }

-- sprintf("%s-%s-long", symbol, exchange) and its like for the short side.
unfoldable pub long_key : Text → Text → Text
long_key symbol exchange = symbol ++ (lit "-" ++ (exchange ++ lit "-long"))

unfoldable pub short_key : Text → Text → Text
short_key symbol exchange = symbol ++ (lit "-" ++ (exchange ++ lit "-short"))

unfoldable pub gen_order_id : Gateway → Text × Gateway
unfolding format_d
gen_order_id g = let n = add32 g.order_id 1 in (format_d n, record g { order_id = n })

unfoldable pub gen_trade_id : Gateway → Text × Gateway
unfolding format_d
gen_trade_id g = let n = add32 g.trade_id 1 in (format_d n, record g { trade_id = n })

-- 100000000.00 as a double.
abbrev pub initial_balance : ℕ
initial_balance = 0x4197d78400000000

abbrev pub demo_account : BfAccountData
demo_account = record {
  accountid = lit "demo";
  prebalance = 0;
  balance = initial_balance;
  available = initial_balance;
  commission = 0;
  frozenmargin = 0;
  closeprofit = 0;
  positionprofit = 0;
}

unfoldable pub reset_data : Gateway → Gateway
reset_data g = record {
  order_id = 0;
  trade_id = 0;
  account = demo_account;
  positions = [];
  orders = [];
  trades = [];
  sent = g.sent;
}

abbrev pub empty_position : Text → Text → BfDirection → BfPositionData
empty_position symbol exchange direction = record {
  symbol = symbol;
  exchange = exchange;
  direction = direction;
  position = 0;
  frozen = 0;
  price = 0;
  ydposition = 0;
}

unfoldable pub start : BfGetTickReq → Gateway → Gateway
unfolding reset_data
start req g =
    let g' = emit (trade_will_begin req) (reset_data g) in
    record g' {
      positions =
          insert (short_key req.symbol req.exchange)
            (empty_position req.symbol req.exchange direction_short)
            (insert (long_key req.symbol req.exchange)
              (empty_position req.symbol req.exchange direction_long) g'.positions);
    }

unfoldable pub stop : Gateway → Gateway
unfolding reset_data
stop g = emit trade_stopped (reset_data g)

unfoldable pub query_account : Gateway → Gateway
query_account g = emit (got_account g.account) g

-- One signal for each value of a map, in its order.
unfoldable pub emit_all : {V : Type 0} → (V → Signal) → QMap V → Gateway → Gateway
emit_all signal [] g = g
emit_all signal ((k, v) ∷ m) g = emit_all signal m (emit (signal v) g)

unfoldable pub query_position : Gateway → Gateway
query_position g =
    emit (got_notification notification_endqueryposition) (
      emit_all got_position g.positions (emit (got_notification notification_beginqueryposition) g))

unfoldable pub query_orders : Gateway → Gateway
query_orders g =
    emit (got_notification notification_endqueryorders)
      (emit_all got_order g.orders (emit (got_notification notification_beginqueryorders) g))
