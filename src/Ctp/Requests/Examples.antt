-- ===== src/Ctp/Requests/Examples.antt =====
-- Orders that are sent and cancelled through the trading session.
use bftrader.Prelude.{◌≡◌, refl, none, [], lit, arith, Returns, format_d, digits}
use bftrader.Proto.{
  BfSendOrderReq, direction_long, direction_net, offset_open, pricetype_limitprice,
}
use bftrader.Ctp.OrderId.{format_bf_order_id}
use bftrader.Ctp.Reports.{OrderField, order_of, gen_bf_order_id}
use bftrader.Ctp.Requests.{TdSm, input_order, input_order_action, gen_order}
use bftrader.Ctp.Requests.Orders.{echo, Matches, input_order-Placed, input_order_action-order_of}

abbrev session : TdSm
session = record {
  user_id = lit "8001";
  password = lit "secret";
  broker_id = lit "9999";
  front_td = lit "tcp";
  flow_path_td = lit "td";
  symbol_prefixes = lit "rb";
  spi = record {
    order_ref = 4;
    front_id = 1;
    session_id = 77;
    sysid2bfid = [];
    query_position_req_id = 0;
    query_orders_req_id = 0;
    sent = [];
  };
}

abbrev buy : BfSendOrderReq
buy = record {
  symbol = lit "rb1610";
  exchange = lit "SHFE";
  price = 2400;
  volume = 3;
  pricetype = pricetype_limitprice;
  direction = direction_long;
  offset = offset_open;
}

abbrev reported : OrderField
reported = record {
  order_ref = lit "5";
  front_id = 1;
  session_id = 77;
  order_sys_id = lit "123";
  exchange_id = lit "SHFE";
  instrument_id = lit "rb1610";
  direction = b'0';
  comb_offset_flag = b'0';
  order_status = b'3';
  limit_price = 2400;
  volume_total_original = 3;
  volume_traded = 0;
  insert_date = [];
  insert_time = [];
  cancel_time = [];
}

input_order-Placed_example :
    Returns
      (λ f. Matches (lit "1.77.5") buy (order_of (echo 1 77 f reported)))
      (input_order session (lit "1.77.5") buy)
unfolding gen_order gen_bf_order_id format_bf_order_id format_d digits
input_order-Placed_example =
    input_order-Placed session buy reported (omega arith) (omega arith) (omega arith)

-- A direction that CTP does not have.
net_refused : input_order session (lit "1.77.5") (record buy { direction = direction_net }) ≡ none
unfolding gen_order gen_bf_order_id format_bf_order_id format_d digits
net_refused =
    input_order-Placed session (record buy { direction = direction_net }) reported (omega arith)
      (omega arith) (omega arith)

input_order_action-order_of_example :
    let order = order_of reported in
    let f =
      input_order_action session (record {
        symbol = order.symbol;
        exchange = order.exchange;
        bforderid = order.bforderid;
      }) in
    (f.order_ref ≡ lit "5")
    × (f.front_id ≡ 1)
    × (f.session_id ≡ 77)
    × (f.instrument_id ≡ lit "rb1610")
    × (f.exchange_id ≡ lit "SHFE")
    × (f.order_sys_id ≡ [])
unfolding format_d digits
input_order_action-order_of_example =
    input_order_action-order_of session reported 5 refl (omega arith) (omega arith) (omega arith)
      (omega arith) (omega arith)
