-- ===== src/Ctp/Reports/Examples.antt =====
-- ctpgateway/tdsm.cpp: reports of CTP at concrete values.
use bftrader.Prelude.{
  ◌≡◌, refl, true, false, none, some, List, [], ◌∷◌, lit, text_eq, leb, ◌+◌, ◌-◌, ◌*◌, ◌/◌,
}
use bftrader.Proto.{notification_beginqueryposition, notification_endqueryposition, Fpu}
use bftrader.Ctp.Reports.{
  RspInfo, OrderField, TradeField, InvestorPositionField, TdSmSpi, report, got_error, got_trade,
  got_position, got_notification, position_data, trade_of, bf_order_id, is_blank, on_rtn_order,
  on_rtn_trade, on_rsp_user_login,
}
use bftrader.Ctp.Reports.Known.{
  on_rtn_trade-on_rtn_order, on_rtn_orders, OrderEvent, answered, ordered, traded, order_events,
  on_rtn_trade-order_events,
}
use bftrader.Ctp.Reports.Brackets.{Answer, onto, bracketed, told_all, answer_all, answer_all-sent}

abbrev logged_in : TdSmSpi
logged_in = record {
  order_ref = 0;
  front_id = 1;
  session_id = 42;
  sysid2bfid = [];
  query_position_req_id = 0;
  query_orders_req_id = 0;
  sent = [];
}

abbrev order : OrderField
order = record {
  order_ref = lit "1";
  front_id = 1;
  session_id = 42;
  order_sys_id = lit "77";
  exchange_id = lit "SHFE";
  instrument_id = lit "rb";
  direction = b'0';
  comb_offset_flag = b'0';
  order_status = b'3';
  limit_price = 2500;
  volume_total_original = 3;
  volume_traded = 0;
  insert_date = lit "20160801";
  insert_time = lit "09:00:00";
  cancel_time = [];
}

abbrev trade : TradeField
trade = record {
  exchange_id = lit "SHFE";
  order_sys_id = lit "77";
  instrument_id = lit "rb";
  trade_id = lit "5";
  direction = b'0';
  offset_flag = b'0';
  price = 2490;
  volume = 3;
  trade_date = lit "20160801";
  trade_time = lit "09:00:01";
}

abbrev other : OrderField
other = record order { order_sys_id = lit "78"; order_ref = lit "2" }

on_rtn_trade-on_rtn_order_example :
    on_rtn_trade trade (on_rtn_orders (other ∷ []) (on_rtn_order order logged_in))
    ≡ report
        (got_trade (trade_of (bf_order_id order) trade))
        (on_rtn_orders (other ∷ []) (on_rtn_order order logged_in))
unfolding is_blank text_eq
on_rtn_trade-on_rtn_order_example =
    on_rtn_trade-on_rtn_order order (other ∷ []) trade logged_in refl refl (refl, tt) refl

-- The query that follows a login answers with the order that is known and with another, the last
-- one marked; then the other order is reported and traded.
abbrev evening : List OrderEvent
evening =
    answered (some order) none 9 false
    ∷ answered (some other) none 9 true
    ∷ ordered other
    ∷ traded (record trade { order_sys_id = lit "78" })
    ∷ []

on_rtn_trade-order_events_example :
    let now =
      order_events
        (λ s. s)
        evening
        (on_rsp_user_login (λ s. s) 1 43 none 8 true (on_rtn_order order logged_in)) in
    on_rtn_trade trade now ≡ now
unfolding text_eq
on_rtn_trade-order_events_example =
    on_rtn_trade-order_events (λ s. s) 1 43 8 evening trade (on_rtn_order order logged_in)
      ((refl, (refl, tt)), ((refl, (refl, tt)), (refl, (tt, tt))))

abbrev whole : Fpu
whole = record { le = leb; add = ◌+◌; sub = ◌-◌; mul = ◌*◌; div = ◌/◌; of_int = λ n. n }

abbrev position : InvestorPositionField
position = record {
  instrument_id = lit "rb";
  posi_direction = b'2';
  long_frozen = 1;
  short_frozen = 0;
  position = 3;
  today_position = 3;
  position_cost = 7470;
}

abbrev busy : RspInfo
busy = record { error_id = 90; error_msg = lit "busy" }

-- An error, two positions, and a null answer at the end.
abbrev answers : List Answer
answers =
    record { position = none; info = some busy }
    ∷ record { position = some position; info = none }
    ∷ record {
      position = some (record position { posi_direction = b'3' });
      info = some (record busy { error_id = 0 });
    }
    ∷ record { position = none; info = none }
    ∷ []

answer_all-sent_example :
    ((answer_all (λ s. s) whole 5 answers logged_in).sent
      ≡ onto (bracketed (told_all (λ s. s) whole 5 answers)) [])
    × ((answer_all (λ s. s) whole 5 answers logged_in).query_position_req_id ≡ 0)
answer_all-sent_example = answer_all-sent (λ s. s) whole 5 answers logged_in refl refl

-- What is told of them, the oldest first.
told_run :
    bracketed (told_all (λ s. s) whole 5 answers)
    ≡ got_error 90 (lit "busy") 5
      ∷ got_notification notification_beginqueryposition
      ∷ got_position (position_data whole position)
      ∷ got_position (position_data whole (record position { posi_direction = b'3' }))
      ∷ got_notification notification_endqueryposition
      ∷ []
told_run = refl

-- Without positions there are no notifications.
none_run : bracketed (told_all (λ s. s) whole 5 (record { position = none; info = none } ∷ [])) ≡ []
none_run = refl
