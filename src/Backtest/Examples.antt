-- ===== src/Backtest/Examples.antt =====
-- Runs of the simulated exchange of btgateway/gatewaymgr.cpp, and its theorems at them.
use bftrader.Prelude.{
  ℕ, ◌+◌, ◌-◌, ◌*◌, ◌/◌, ◌≡◌, refl, true, false, Option, none, some, [], Text, lit, AllValues, find,
  insert, modify, text_eq, text_ltb, leb, format_d, digits, Returns, arith,
}
use bftrader.Proto.{
  BfGetTickReq, BfSendOrderReq, BfCancelOrderReq, BfOrderData, BfTickData, Fpu, direction_long,
  offset_open, pricetype_limitprice,
}
use bftrader.Backtest.State.{
  Gateway, Now, start, reset_data, long_key, short_key, gen_order_id, gen_trade_id,
}
use bftrader.Backtest.Orders.{
  send_order, send_order_with_id, cancel_order, update_frozen, is_refused, lacks_position,
  new_order,
}
use bftrader.Backtest.Matching.{
  on_got_tick, match_orders, match_order, on_long_open, fill_open, settle, opened, new_trade,
}
use bftrader.Backtest.Fills.{is_done}
use bftrader.Backtest.Invariant.{Inv, start-Inv}
use bftrader.Backtest.Session.{
  step, step-Inv, Reachable, at_start, after, Reachable-Inv, initial, starts, sends, ticks,
}
use bftrader.Backtest.Outcomes.{is_crossed, on_got_tick-not_crossed, on_got_tick_done, cancel-send}

-- Whole numbers in place of doubles.
abbrev whole : Fpu
whole = record { le = leb; add = ◌+◌; sub = ◌-◌; mul = ◌*◌; div = ◌/◌; of_int = λ n. n }

abbrev noon : Now
noon = record { date = lit "20160801"; time = lit "12:00:00" }

abbrev replay : BfGetTickReq
replay = record {
  symbol = lit "rb";
  exchange = lit "SHFE";
  fromdate = lit "20160801";
  fromtime = lit "09:00:00";
  todate = lit "20160801";
  count = 0;
  totime = lit "15:00:00";
}

abbrev buy : BfSendOrderReq
buy = record {
  symbol = lit "rb";
  exchange = lit "SHFE";
  price = 2500;
  volume = 3;
  pricetype = pricetype_limitprice;
  direction = direction_long;
  offset = offset_open;
}

abbrev withdraw : BfCancelOrderReq
withdraw = record { symbol = lit "rb"; exchange = lit "SHFE"; bforderid = lit "1" }

abbrev at_2490 : BfTickData
at_2490 = record {
  symbol = lit "rb";
  exchange = lit "SHFE";
  actiondate = lit "20160801";
  ticktime = lit "12:00:00.500";
  lastprice = 2490;
  volume = 10;
  openinterest = 0;
  lastvolume = 1;
  openprice = 0;
  highprice = 0;
  lowprice = 0;
  precloseprice = 0;
  upperlimit = 0;
  lowerlimit = 0;
  bidprice1 = 0;
  askprice1 = 0;
  bidvolume1 = 0;
  askvolume1 = 0;
}

abbrev session : Gateway
session = start replay initial

abbrev or_initial : Option Gateway → Gateway
or_initial none = initial
or_initial (some g) = g

-- The state after the order, and after the tick that fills it.
abbrev bought : Gateway
bought = or_initial (step whole session (sends buy noon))

abbrev held : Gateway
held = or_initial (step whole bought (ticks at_2490 noon))

abbrev volumes : Gateway → Option (ℕ × ℕ)
volumes g = elim (find (lit "rb-SHFE-long") g.positions) [
  | none ↦ none
  | some p ↦ some (p.position, p.frozen)
]

buy_returns : step whole session (sends buy noon) ≡ some bought
unfolding step start reset_data send_order send_order_with_id update_frozen is_refused
    lacks_position new_order insert modify text_eq text_ltb find long_key short_key gen_order_id
    format_d digits
buy_returns = refl

tick_returns : step whole bought (ticks at_2490 noon) ≡ some held
unfolding step start reset_data send_order send_order_with_id update_frozen is_refused
    lacks_position new_order insert modify text_eq text_ltb find long_key short_key gen_order_id
    gen_trade_id format_d digits on_got_tick match_orders match_order on_long_open fill_open settle
    opened new_trade
tick_returns = refl

-- The order freezes three lots, and the tick turns them into a position.
buy_volumes : (volumes bought ≡ some (0, 3)) × (volumes held ≡ some (3, 0))
unfolding step start reset_data send_order send_order_with_id update_frozen is_refused
    lacks_position new_order insert modify text_eq text_ltb find long_key short_key gen_order_id
    gen_trade_id format_d digits on_got_tick match_orders match_order on_long_open fill_open settle
    opened new_trade
buy_volumes = (refl, refl)

buy_is_fresh : find (gen_order_id session).0 session.orders ≡ none
unfolding start reset_data find
buy_is_fresh = refl

session-Reachable : Reachable whole session
unfolding step
session-Reachable = after (starts replay) at_start tt refl

bought-Reachable : Reachable whole bought
bought-Reachable = after (sends buy noon) session-Reachable (buy_is_fresh, omega arith) buy_returns

held-Reachable : Reachable whole held
held-Reachable = after (ticks at_2490 noon) bought-Reachable tt tick_returns

step-Inv_example : Returns Inv (step whole session (sends buy noon))
step-Inv_example =
    step-Inv whole session (sends buy noon) (buy_is_fresh, omega arith) (start-Inv replay initial)

Reachable-Inv_example : Inv held
Reachable-Inv_example = Reachable-Inv held-Reachable

on_got_tick-not_crossed_example :
    Returns
      (λ g. AllValues (λ o. is_crossed whole at_2490 o ≡ false) g.orders)
      (on_got_tick whole at_2490 noon bought)
on_got_tick-not_crossed_example =
    on_got_tick-not_crossed whole at_2490 noon bought (Reachable-Inv bought-Reachable)

no_such_order : find withdraw.bforderid session.orders ≡ none
unfolding start reset_data find
no_such_order = refl

cancel-send_example :
    (g' g'' : Gateway) × (send_order_with_id withdraw.bforderid buy noon session ≡ some g')
    × (cancel_order withdraw noon g' ≡ some g'')
    × ((k : Text) → find k g''.positions ≡ find k session.positions)
cancel-send_example =
    cancel-send buy withdraw noon noon session no_such_order (omega arith)
      (start-Inv replay initial)

abbrev filled_buy : BfOrderData
filled_buy = elim (find (lit "1") held.orders) [ none ↦ new_order [] buy noon | some o ↦ o ]

order_is_held : find (lit "1") held.orders ≡ some filled_buy
unfolding step start reset_data send_order send_order_with_id update_frozen is_refused
    lacks_position new_order insert modify text_eq text_ltb find long_key short_key gen_order_id
    gen_trade_id format_d digits on_got_tick match_orders match_order on_long_open fill_open settle
    opened new_trade
order_is_held = refl

order_is_done : is_done filled_buy.status ≡ true
unfolding step start reset_data send_order send_order_with_id update_frozen is_refused
    lacks_position new_order insert modify text_eq text_ltb find long_key short_key gen_order_id
    gen_trade_id format_d digits on_got_tick match_orders match_order on_long_open fill_open settle
    opened new_trade
order_is_done = refl

on_got_tick_done_example :
    Returns (λ g. find (lit "1") g.orders ≡ some filled_buy) (on_got_tick whole at_2490 noon held)
on_got_tick_done_example =
    on_got_tick_done whole at_2490 noon (lit "1") filled_buy held (Reachable-Inv held-Reachable)
      order_is_held order_is_done
