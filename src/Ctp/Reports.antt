-- ===== src/Ctp/Reports.antt =====
-- ctpgateway/tdsm.cpp: TdSmSpi, the reports of CTP on logins, positions, orders and trades.
pub mod Brackets
pub mod Known
pub mod Account
pub mod Examples
use bftrader.Prelude.{
  ℕ, Bool, true, false, not, ◌&&◌, ◌||◌, Option, none, some, List, [], ◌∷◌, ◌++◌, Text, lit, QMap,
  find, insert, add32, sub32, slt32, leb, ◌==◌, if◌then◌else◌,
}
use bftrader.Proto.{
  BfDirection, direction_unknown, direction_long, direction_short, direction_net, BfOrderData,
  BfTradeData, BfPositionData, BfAccountData, BfNotificationType, notification_beginqueryorders,
  notification_endqueryorders, notification_beginqueryposition, notification_endqueryposition, Fpu,
}
use bftrader.Ctp.Translate.{
  offset_of_char, direction_of_char, translate_posi_direction, translate_status,
}
use bftrader.Ctp.OrderId.{is_space, format_bf_order_id, to_int}

-- CThostFtdcRspInfoField
pub record RspInfo : Type 0 where
  pub error_id : ℕ
  pub error_msg : Text

-- CThostFtdcOrderField, the fields that are read.
pub record OrderField : Type 0 where
  pub order_ref : Text
  pub front_id : ℕ
  pub session_id : ℕ
  pub order_sys_id : Text
  pub exchange_id : Text
  pub instrument_id : Text
  pub direction : ℕ
  pub comb_offset_flag : ℕ
  pub order_status : ℕ
  pub limit_price : ℕ
  pub volume_total_original : ℕ
  pub volume_traded : ℕ
  pub insert_date : Text
  pub insert_time : Text
  pub cancel_time : Text

-- CThostFtdcTradeField, the fields that are read.
pub record TradeField : Type 0 where
  pub exchange_id : Text
  pub order_sys_id : Text
  pub instrument_id : Text
  pub trade_id : Text
  pub direction : ℕ
  pub offset_flag : ℕ
  pub price : ℕ
  pub volume : ℕ
  pub trade_date : Text
  pub trade_time : Text

-- CThostFtdcInvestorPositionField, the fields that are read.
pub record InvestorPositionField : Type 0 where
  pub instrument_id : Text
  pub posi_direction : ℕ
  pub long_frozen : ℕ
  pub short_frozen : ℕ
  pub position : ℕ
  pub today_position : ℕ
  pub position_cost : ℕ

pub data Report : Type 0 where
  logined loginfail : Report
  got_error : ℕ → Text → ℕ → Report
  got_order : BfOrderData → Report
  got_trade : BfTradeData → Report
  got_position : BfPositionData → Report
  got_account : BfAccountData → Report
  got_notification : BfNotificationType → Report

-- `sent` lists what was emitted, the newest first.
pub record TdSmSpi : Type 0 where
  pub order_ref : ℕ
  pub front_id : ℕ
  pub session_id : ℕ
  pub sysid2bfid : QMap Text
  pub query_position_req_id : ℕ
  pub query_orders_req_id : ℕ
  pub sent : List Report

abbrev pub report : Report → TdSmSpi → TdSmSpi
report r spi = record spi { sent = r ∷ spi.sent }

-- `none` is a null pointer.
abbrev pub failed : Option RspInfo → Bool
failed none = false
failed (some info) = not (info.error_id == 0)

-- gbk2utf16 is the decoder of Qt.
-- What isErrorRsp emits.
abbrev pub report_error : (Text → Text) → Option RspInfo → ℕ → TdSmSpi → TdSmSpi
report_error gbk2utf16 none req_id spi = spi
report_error gbk2utf16 (some info) req_id spi =
    if info.error_id == 0
    then spi
    else report (got_error info.error_id (gbk2utf16 info.error_msg) req_id) spi

-- The arguments `front_id` and `session_id` are the fields of pRspUserLogin.
unfoldable pub on_rsp_user_login :
    (Text → Text) → ℕ → ℕ → Option RspInfo → ℕ → Bool → TdSmSpi → TdSmSpi
on_rsp_user_login gbk2utf16 front_id session_id info req_id is_last spi =
    if not is_last
    then spi
    else if failed info
    then report loginfail (report_error gbk2utf16 info req_id spi)
    else report logined (record spi {
      order_ref = 0;
      front_id = front_id;
      session_id = session_id;
      sysid2bfid = [];
    })

unfoldable pub gen_bf_order_id : TdSmSpi → Text × TdSmSpi
gen_bf_order_id spi =
    let n = add32 spi.order_ref 1 in
    (format_bf_order_id spi.front_id spi.session_id n, record spi { order_ref = n })

-- Whether trimmed() leaves nothing.
unfoldable pub is_blank : Text → Bool
is_blank [] = true
is_blank (c ∷ s) = is_space c && is_blank s

abbrev pub bf_order_id : OrderField → Text
bf_order_id o = format_bf_order_id o.front_id o.session_id (to_int o.order_ref)

abbrev pub sys_order_id : Text → Text → Text
sys_order_id exchange_id order_sys_id = exchange_id ++ (lit "." ++ order_sys_id)

unfoldable pub order_of : OrderField → BfOrderData
order_of o = record {
  symbol = o.instrument_id;
  exchange = o.exchange_id;
  bforderid = bf_order_id o;
  direction = direction_of_char o.direction;
  offset = offset_of_char o.comb_offset_flag;
  price = o.limit_price;
  totalvolume = o.volume_total_original;
  tradedvolume = o.volume_traded;
  status = translate_status o.order_status;
  insertdate = o.insert_date;
  inserttime = o.insert_time;
  canceltime = o.cancel_time;
}

-- The identifier is kept under the given key once the exchange has numbered the order.
unfoldable pub remembered : Text → OrderField → TdSmSpi → TdSmSpi
remembered key o spi =
    if not (is_blank o.order_sys_id) && not (is_blank o.exchange_id)
    then record spi { sysid2bfid = insert key (bf_order_id o) spi.sysid2bfid }
    else spi

unfoldable pub begin_orders : ℕ → TdSmSpi → TdSmSpi
begin_orders req_id spi =
    if spi.query_orders_req_id == 0
    then report (got_notification notification_beginqueryorders)
        (record spi { query_orders_req_id = req_id })
    else spi

unfoldable pub end_orders : Bool → TdSmSpi → TdSmSpi
end_orders is_last spi =
    if is_last && not (spi.query_orders_req_id == 0)
    then report (got_notification notification_endqueryorders)
        (record spi { query_orders_req_id = 0 })
    else spi

-- The part of OnRspQryOrder for an order; the key is the number of the exchange alone.
unfoldable pub query_order : OrderField → ℕ → TdSmSpi → TdSmSpi
query_order o req_id spi =
    report (got_order (order_of o)) (begin_orders req_id (remembered o.order_sys_id o spi))

abbrev pub query_order_of : Bool → Option OrderField → ℕ → TdSmSpi → TdSmSpi
query_order_of true o req_id spi = spi
query_order_of false none req_id spi = spi
query_order_of false (some o) req_id spi = query_order o req_id spi

unfoldable pub on_rsp_qry_order :
    (Text → Text) → Option OrderField → Option RspInfo → ℕ → Bool → TdSmSpi → TdSmSpi
on_rsp_qry_order gbk2utf16 o info req_id is_last spi =
    end_orders is_last
      (query_order_of (failed info) o req_id (report_error gbk2utf16 info req_id spi))

unfoldable pub on_rtn_order : OrderField → TdSmSpi → TdSmSpi
on_rtn_order o spi =
    report (got_order (order_of o)) (remembered (sys_order_id o.exchange_id o.order_sys_id) o spi)

unfoldable pub trade_of : Text → TradeField → BfTradeData
trade_of bforderid t = record {
  symbol = t.instrument_id;
  exchange = t.exchange_id;
  tradeid = t.trade_id;
  bforderid = bforderid;
  direction = direction_of_char t.direction;
  offset = offset_of_char t.offset_flag;
  price = t.price;
  volume = t.volume;
  tradedate = t.trade_date;
  tradetime = t.trade_time;
}

unfoldable pub on_rtn_trade : TradeField → TdSmSpi → TdSmSpi
on_rtn_trade t spi = elim (find (sys_order_id t.exchange_id t.order_sys_id) spi.sysid2bfid) [
  | none ↦ spi
  | some bforderid ↦ report (got_trade (trade_of bforderid t)) spi
]

abbrev pub frozen_of : BfDirection → InvestorPositionField → ℕ
frozen_of direction_long p = p.long_frozen
frozen_of direction_net p = p.long_frozen
frozen_of direction_short p = p.short_frozen
frozen_of direction_unknown p = 0

unfoldable pub position_data : Fpu → InvestorPositionField → BfPositionData
position_data fpu p =
    let direction = translate_posi_direction p.posi_direction in
    record {
      symbol = p.instrument_id;
      exchange = [];
      direction = direction;
      position = p.position;
      frozen = frozen_of direction p;
      price = if slt32 0 p.position then fpu.div p.position_cost (fpu.of_int p.position) else 0;
      ydposition = sub32 p.position p.today_position;
    }

unfoldable pub begin_position : ℕ → TdSmSpi → TdSmSpi
begin_position req_id spi =
    if spi.query_position_req_id == 0
    then report (got_notification notification_beginqueryposition)
        (record spi { query_position_req_id = req_id })
    else spi

unfoldable pub end_position : Bool → TdSmSpi → TdSmSpi
end_position is_last spi =
    if is_last && not (spi.query_position_req_id == 0)
    then report (got_notification notification_endqueryposition)
        (record spi { query_position_req_id = 0 })
    else spi

abbrev pub query_position_of : Fpu → Bool → Option InvestorPositionField → ℕ → TdSmSpi → TdSmSpi
query_position_of fpu true p req_id spi = spi
query_position_of fpu false none req_id spi = spi
query_position_of fpu false (some p) req_id spi =
    report (got_position (position_data fpu p)) (begin_position req_id spi)

unfoldable pub on_rsp_qry_investor_position :
    (Text → Text)
    → Fpu
    → Option InvestorPositionField
    → Option RspInfo
    → ℕ
    → Bool
    → TdSmSpi
    → TdSmSpi
on_rsp_qry_investor_position gbk2utf16 fpu p info req_id is_last spi =
    end_position is_last
      (query_position_of fpu (failed info) p req_id (report_error gbk2utf16 info req_id spi))
