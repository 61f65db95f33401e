-- ===== src/Ctp/Requests.antt =====
-- ctpgateway/tdsm.cpp and ctpgateway/mdsm.cpp: the requests that the two sessions make of CTP, and
-- the slots of ctpgateway/gatewaymgr.cpp that pass a call on to the trading session.
pub mod Codes
pub mod Orders
mod Fields
pub use Fields.{
  ReqUserLoginField, Account, InputOrderField, InputOrderActionField, TdRequest, TdSm, MdSm,
  user_login, user_logout, qry_trading_account, settlement_info_confirm, qry_investor_position,
  qry_order, qry_instrument, order_insert, order_action,
}
pub mod Examples
use bftrader.Prelude.{
  ℕ, zero, suc, Bool, true, false, not, ◌&&◌, Option, none, some, List, [], ◌∷◌, ◌++◌, map, Text,
  lit, if◌then◌else◌, ◌>>=◌, ◌==◌, format_d,
}
use bftrader.Proto.{BfSendOrderReq, BfCancelOrderReq}
use bftrader.Ctp.Translate.{translate_direction, translate_offset, translate_price_type}
use bftrader.Ctp.OrderId.{translate_bf_order_id}
use bftrader.Ctp.Reports.{TdSmSpi, gen_bf_order_id}
use bftrader.Ctp.Contracts.{Contracts, reset_data}

unfoldable pub take : ℕ → Text → Text
take zero s = []
take (suc n) [] = []
take (suc n) (c ∷ s) = c ∷ take n s

unfoldable pub drop : ℕ → Text → Text
drop zero s = s
drop (suc n) [] = []
drop (suc n) (c ∷ s) = drop n s

-- strncpy into a char array of this size that was cleared, with the bound one below the size. A
-- text holds no zero.
unfoldable pub copied : ℕ → Text → Text
unfolding take
copied zero s = []
copied (suc n) s = take n s

abbrev pub given : Text → Bool
given [] = false
given (c ∷ s) = true

-- init() stores its arguments; the Boolean is its result.
unfoldable pub td_init : Text → Text → Text → Text → Text → Text → TdSm → Bool × TdSm
td_init user_id password broker_id front_td flow_path_td symbol_prefixes sm = (
  given user_id
      && (given password
          && (given broker_id
              && (given front_td && (given flow_path_td && given symbol_prefixes)))),
  record {
    user_id = user_id;
    password = password;
    broker_id = broker_id;
    front_td = front_td;
    flow_path_td = flow_path_td;
    symbol_prefixes = symbol_prefixes;
    spi = sm.spi;
  },
)

unfoldable pub md_init : Text → Text → Text → Text → Text → MdSm → Bool × MdSm
md_init user_id password broker_id front_md flow_path_md sm = (
  given user_id && (given password && (given broker_id && (given front_md && given flow_path_md))),
  record {
    user_id = user_id;
    password = password;
    broker_id = broker_id;
    front_md = front_md;
    flow_path_md = flow_path_md;
  },
)

unfoldable pub gen_order : TdSm → Text × TdSm
gen_order sm = let (id, spi) = gen_bf_order_id sm.spi in (id, record sm { spi = spi })

-- The calls whose requests go through the queue.
pub data TdCall : Type 0 where
  logs_in logs_out queries_instrument queries_account confirms_settlement : TdCall
  queries_position queries_orders : TdCall
  sends_order : Text → BfSendOrderReq → TdCall
  cancels_order : BfCancelOrderReq → TdCall

abbrev pub investor : TdSm → Account
investor sm = record { broker_id = copied 11 sm.broker_id; owner_id = copied 13 sm.user_id }

-- `none` is a call of qFatal: a direction, an offset or a kind of price that CTP does not have.
unfoldable pub input_order : TdSm → Text → BfSendOrderReq → Option InputOrderField
unfolding copied
input_order sm bf_order_id req = do
  direction ← translate_direction req.direction
  offset ← translate_offset req.offset
  price_type ← translate_price_type req.pricetype
  let (_, _, order_ref) = translate_bf_order_id bf_order_id
  some (record {
    account = investor sm;
    order_ref = copied 13 (format_d order_ref);
    instrument_id = copied 31 req.symbol;
    direction = direction;
    comb_offset_flag = offset;
    order_price_type = price_type;
    limit_price = req.price;
    volume_total_original = req.volume;
    comb_hedge_flag = b'1';
    contingent_condition = b'1';
    force_close_reason = b'0';
    is_auto_suspend = 0;
    time_condition = b'3';
    volume_condition = b'1';
    min_volume = 1;
  })

-- The exchange is copied with the bound of InstrumentID, 30, over ExchangeID and OrderSysID, which
-- have 9 and 21 chars.
unfoldable pub input_order_action : TdSm → BfCancelOrderReq → InputOrderActionField
unfolding copied take drop
input_order_action sm req =
    let (front_id, session_id, order_ref) = translate_bf_order_id req.bforderid in
    record {
      account = investor sm;
      order_ref = copied 13 (format_d order_ref);
      front_id = front_id;
      session_id = session_id;
      exchange_id = take 9 req.exchange;
      order_sys_id = take 21 (drop 9 req.exchange);
      action_flag = b'0';
      instrument_id = copied 31 req.symbol;
    }

-- The request that the closure of a call makes.
unfoldable pub td_request : TdSm → TdCall → Option TdRequest
unfolding copied input_order input_order_action
td_request sm logs_in = some (
    user_login (record {
      broker_id = copied 11 sm.broker_id;
      user_id = copied 16 sm.user_id;
      password = copied 41 sm.password;
    }))
td_request sm logs_out =
    some
      (user_logout (record { broker_id = copied 11 sm.broker_id; owner_id = copied 16 sm.user_id }))
td_request sm queries_instrument = some qry_instrument
td_request sm queries_account = some (qry_trading_account (investor sm))
td_request sm confirms_settlement = some (settlement_info_confirm (investor sm))
td_request sm queries_position = some (qry_investor_position (investor sm))
td_request sm queries_orders = some (qry_order (investor sm))
td_request sm (sends_order bf_order_id req) = do
  field ← input_order sm bf_order_id req
  some (order_insert field)
td_request sm (cancels_order req) = some (order_action (input_order_action sm req))

-- What CTP was asked, each with the identifier of the request, and the emitted requestSent, the
-- newest first.
pub record Api : Type 0 where
  pub asked : List (TdRequest × ℕ)
  pub request_sent : List ℕ
  pub contracts : Contracts

abbrev pub prepared : TdCall → Contracts → Contracts
prepared queries_instrument c = reset_data c
prepared _ c = c

-- The closure of a call at the identifier `req_id`; `answer` is the interface, and the first result
-- is that of the closure.
unfoldable pub run_td : (TdRequest → ℕ → ℕ) → TdSm → TdCall → ℕ → Api → Option (ℕ × Api)
unfolding td_request
run_td answer sm call req_id api = do
  req ← td_request sm call
  let result = answer req req_id
  some (
    result,
    record {
      asked = (req, req_id) ∷ api.asked;
      request_sent = if result == 0 then req_id ∷ api.request_sent else api.request_sent;
      contracts = prepared call api.contracts;
    },
  )

-- The requests of the market data session.
pub data MdRequest : Type 0 where
  md_user_login : ReqUserLoginField → MdRequest
  subscribe_market_data : List Text → MdRequest

unfoldable pub md_login : MdSm → MdRequest
unfolding copied
md_login sm = md_user_login (record {
  broker_id = copied 11 sm.broker_id;
  user_id = copied 16 sm.user_id;
  password = copied 41 sm.password;
})

unfoldable pub subscrible : List Text → MdRequest
subscrible symbols = subscribe_market_data symbols

-- The part of the manager that its slots use: tdsm_, and the calls passed to runCmd without delay,
-- the newest first.
pub record Desk : Type 0 where
  pub tdsm : Option TdSm
  pub posted : List TdCall

abbrev pub post : TdCall → Desk → Desk
post call s = elim s.tdsm [ none ↦ s | some sm ↦ record s { posted = call ∷ s.posted } ]

unfoldable pub gen_order_id : Desk → Text × Desk
unfolding gen_order
gen_order_id s = elim s.tdsm [
  | none ↦ (lit "888.888.888", s)
  | some sm ↦ let (id, sm') = gen_order sm in (id, record s { tdsm = some sm' })
]

unfoldable pub send_order : BfSendOrderReq → Desk → Desk
unfolding gen_order
send_order req s = elim s.tdsm [
  | none ↦ s
  | some sm ↦
      let (id, sm') = gen_order sm in
      record { tdsm = some sm'; posted = sends_order id req ∷ s.posted }
]

unfoldable pub send_order_with_id : Text → BfSendOrderReq → Desk → Desk
send_order_with_id bf_order_id req = post (sends_order bf_order_id req)

unfoldable pub cancel_order : BfCancelOrderReq → Desk → Desk
cancel_order req = post (cancels_order req)

unfoldable pub query_account : Desk → Desk
query_account = post queries_account

unfoldable pub query_position : Desk → Desk
query_position = post queries_position

unfoldable pub query_orders : Desk → Desk
query_orders = post queries_orders
