-- ===== src/Proto.antt =====
-- The enumerations and messages of sdk/bfgateway.proto that the gateways exchange. Strings are
-- texts, an int32 is its bit pattern, a double is its 64-bit pattern. A value of an enumeration
-- outside its declared names is not represented.
use bftrader.Prelude.{ℕ, Bool, true, false, Text}

pub data BfDirection : Type 0 where
  direction_unknown direction_long direction_short direction_net : BfDirection

pub data BfOffset : Type 0 where
  offset_unknown offset_open offset_close offset_closetoday offset_closeyesterday : BfOffset

pub data BfStatus : Type 0 where
  status_unknown status_nottraded status_parttraded status_alltraded status_cancelled : BfStatus

pub data BfPriceType : Type 0 where
  pricetype_unkonwn pricetype_limitprice pricetype_marketprice : BfPriceType

pub data BfProduct : Type 0 where
  product_unknown product_equity product_futures : BfProduct

pub data BfNotificationType : Type 0 where
  notification_unknown notification_tradewillbegin notification_gotcontracts : BfNotificationType
  notification_beginqueryorders notification_endqueryorders : BfNotificationType
  notification_beginqueryposition notification_endqueryposition : BfNotificationType

pub record BfSendOrderReq : Type 0 where
  pub symbol : Text
  pub exchange : Text
  pub price : ℕ
  pub volume : ℕ
  pub pricetype : BfPriceType
  pub direction : BfDirection
  pub offset : BfOffset

pub record BfCancelOrderReq : Type 0 where
  pub symbol : Text
  pub exchange : Text
  pub bforderid : Text

pub record BfOrderData : Type 0 where
  pub symbol : Text
  pub exchange : Text
  pub bforderid : Text
  pub direction : BfDirection
  pub offset : BfOffset
  pub price : ℕ
  pub totalvolume : ℕ
  pub tradedvolume : ℕ
  pub status : BfStatus
  pub insertdate : Text
  pub inserttime : Text
  pub canceltime : Text

pub record BfTradeData : Type 0 where
  pub symbol : Text
  pub exchange : Text
  pub tradeid : Text
  pub bforderid : Text
  pub direction : BfDirection
  pub offset : BfOffset
  pub price : ℕ
  pub volume : ℕ
  pub tradedate : Text
  pub tradetime : Text

pub record BfPositionData : Type 0 where
  pub symbol : Text
  pub exchange : Text
  pub direction : BfDirection
  pub position : ℕ
  pub frozen : ℕ
  pub price : ℕ
  pub ydposition : ℕ

pub record BfAccountData : Type 0 where
  pub accountid : Text
  pub prebalance : ℕ
  pub balance : ℕ
  pub available : ℕ
  pub commission : ℕ
  pub frozenmargin : ℕ
  pub closeprofit : ℕ
  pub positionprofit : ℕ

pub record BfTickData : Type 0 where
  pub symbol : Text
  pub exchange : Text
  pub actiondate : Text
  pub ticktime : Text
  pub lastprice : ℕ
  pub volume : ℕ
  pub openinterest : ℕ
  pub lastvolume : ℕ
  pub openprice : ℕ
  pub highprice : ℕ
  pub lowprice : ℕ
  pub precloseprice : ℕ
  pub upperlimit : ℕ
  pub lowerlimit : ℕ
  pub bidprice1 : ℕ
  pub askprice1 : ℕ
  pub bidvolume1 : ℕ
  pub askvolume1 : ℕ

-- The request for stored ticks, which also starts a session of the simulated exchange.
pub record BfGetTickReq : Type 0 where
  pub symbol : Text
  pub exchange : Text
  pub todate : Text
  pub totime : Text
  pub count : ℕ
  pub fromdate : Text
  pub fromtime : Text

-- The arithmetic of doubles on their 64-bit patterns, which the processor does: `le a b` is
-- `a <= b`, and `of_int` converts an int32.
pub record Fpu : Type 0 where
  pub le : ℕ → ℕ → Bool
  pub add : ℕ → ℕ → ℕ
  pub sub : ℕ → ℕ → ℕ
  pub mul : ℕ → ℕ → ℕ
  pub div : ℕ → ℕ → ℕ
  pub of_int : ℕ → ℕ

-- The tests that the code writes as comparisons with one constant.
abbrev pub is_long : BfDirection → Bool
is_long direction_long = true
is_long _ = false

abbrev pub is_short : BfDirection → Bool
is_short direction_short = true
is_short _ = false

abbrev pub is_net : BfDirection → Bool
is_net direction_net = true
is_net _ = false

abbrev pub is_open : BfOffset → Bool
is_open offset_open = true
is_open _ = false

abbrev pub is_close : BfOffset → Bool
is_close offset_close = true
is_close _ = false

abbrev pub is_limitprice : BfPriceType → Bool
is_limitprice pricetype_limitprice = true
is_limitprice _ = false

abbrev pub is_nottraded : BfStatus → Bool
is_nottraded status_nottraded = true
is_nottraded _ = false

abbrev pub is_alltraded : BfStatus → Bool
is_alltraded status_alltraded = true
is_alltraded _ = false

abbrev pub is_cancelled : BfStatus → Bool
is_cancelled status_cancelled = true
is_cancelled _ = false
