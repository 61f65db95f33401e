-- ===== src/Ctp/Translate.antt =====
-- ctpgateway/ctputils.cpp: the translations between the codes and records of CTP and the messages
-- of the gateway. A char is its code unit.
use bftrader.Prelude.{
  ℕ, ◌≡◌, ◌≢◌, Option, none, some, ◌++◌, Text, lit, sub32, ltb, ◌==◌, if◌then◌else◌, format_d,
  arith,
}
use bftrader.Proto.{
  BfDirection, direction_unknown, direction_long, direction_short, direction_net, BfOffset,
  offset_unknown, offset_open, offset_close, offset_closetoday, offset_closeyesterday, BfStatus,
  status_unknown, status_nottraded, status_parttraded, status_alltraded, status_cancelled,
  BfPriceType, pricetype_unkonwn, pricetype_limitprice, pricetype_marketprice, BfProduct,
  product_unknown, product_futures, BfTickData,
}
use bftrader.Datafeed.Messages.{BfContractData}

-- The codes of CTP; `none` is a call of qFatal.
unfoldable pub translate_price_type : BfPriceType → Option ℕ
translate_price_type pricetype_limitprice = some b'2'
translate_price_type pricetype_marketprice = some b'1'
translate_price_type pricetype_unkonwn = none

unfoldable pub translate_offset : BfOffset → Option ℕ
translate_offset offset_open = some b'0'
translate_offset offset_close = some b'1'
translate_offset offset_closetoday = some b'3'
translate_offset offset_closeyesterday = some b'4'
translate_offset offset_unknown = none

unfoldable pub translate_direction : BfDirection → Option ℕ
translate_direction direction_long = some b'0'
translate_direction direction_short = some b'1'
translate_direction direction_unknown = none
translate_direction direction_net = none

unfoldable pub price_type_of_char : ℕ → Option BfPriceType
price_type_of_char c =
    if c == b'2'
    then some pricetype_limitprice
    else if c == b'1'
    then some pricetype_marketprice
    else none

-- An unknown code is logged only.
unfoldable pub offset_of_char : ℕ → BfOffset
offset_of_char c =
    if c == b'0'
    then offset_open
    else if c == b'1'
    then offset_close
    else if c == b'3'
    then offset_closetoday
    else if c == b'4'
    then offset_closeyesterday
    else offset_unknown

unfoldable pub direction_of_char : ℕ → BfDirection
direction_of_char c =
    if c == b'0' then direction_long else if c == b'1' then direction_short else direction_unknown

unfoldable pub translate_posi_direction : ℕ → BfDirection
translate_posi_direction c =
    if c == b'1'
    then direction_net
    else if c == b'2'
    then direction_long
    else if c == b'3'
    then direction_short
    else direction_unknown

unfoldable pub translate_status : ℕ → BfStatus
translate_status c =
    if c == b'0'
    then status_alltraded
    else if c == b'1'
    then status_parttraded
    else if c == b'3'
    then status_nottraded
    else if c == b'5'
    then status_cancelled
    else status_unknown

unfoldable pub translate_product : ℕ → BfProduct
translate_product c = if c == b'1' then product_futures else product_unknown

-- CThostFtdcInstrumentField, the fields that are read.
pub record InstrumentField : Type 0 where
  pub instrument_id : Text
  pub exchange_id : Text
  pub instrument_name : Text
  pub product_class : ℕ
  pub max_market_order_volume : ℕ
  pub min_market_order_volume : ℕ
  pub max_limit_order_volume : ℕ
  pub min_limit_order_volume : ℕ
  pub volume_multiple : ℕ
  pub price_tick : ℕ

-- `gbk2utf16` is the decoder of Qt.
unfoldable pub translate_contract : (Text → Text) → InstrumentField → BfContractData
translate_contract gbk2utf16 field = record {
  symbol = field.instrument_id;
  exchange = field.exchange_id;
  name = gbk2utf16 field.instrument_name;
  productclass = translate_product field.product_class;
  volumemultiple = field.volume_multiple;
  pricetick = field.price_tick;
  maxlimit = field.max_limit_order_volume;
  minlimit = field.min_limit_order_volume;
  maxmarket = field.max_market_order_volume;
  minmarket = field.min_market_order_volume;
}

-- CThostFtdcDepthMarketDataField, the fields that are read.
pub record DepthMarketDataField : Type 0 where
  pub instrument_id : Text
  pub exchange_id : Text
  pub action_day : Text
  pub update_time : Text
  pub update_millisec : ℕ
  pub last_price : ℕ
  pub volume : ℕ
  pub open_interest : ℕ
  pub open_price : ℕ
  pub highest_price : ℕ
  pub lowest_price : ℕ
  pub pre_close_price : ℕ
  pub upper_limit_price : ℕ
  pub lower_limit_price : ℕ
  pub bid_price1 : ℕ
  pub ask_price1 : ℕ
  pub bid_volume1 : ℕ
  pub ask_volume1 : ℕ

-- sprintf("%03d", n) of a number that is not negative.
unfoldable pub format_03d : ℕ → Text
format_03d n =
    if ltb n 10
    then lit "00" ++ format_d n
    else if ltb n 100
    then lit "0" ++ format_d n
    else format_d n

-- `none` stands for the null pointer of a contract without an earlier tick.
unfoldable pub translate_tick : DepthMarketDataField → Option DepthMarketDataField → BfTickData
translate_tick field pre = record {
  symbol = field.instrument_id;
  exchange = field.exchange_id;
  actiondate = field.action_day;
  ticktime = field.update_time ++ (lit "." ++ format_03d field.update_millisec);
  lastprice = field.last_price;
  volume = field.volume;
  openinterest = field.open_interest;
  lastvolume = elim pre [ none ↦ 1 | some p ↦ sub32 field.volume p.volume ];
  openprice = field.open_price;
  highprice = field.highest_price;
  lowprice = field.lowest_price;
  precloseprice = field.pre_close_price;
  upperlimit = field.upper_limit_price;
  lowerlimit = field.lower_limit_price;
  bidprice1 = field.bid_price1;
  askprice1 = field.ask_price1;
  bidvolume1 = field.bid_volume1;
  askvolume1 = field.ask_volume1;
}

offset_codes :
    (o : BfOffset) (c : ℕ)
    → (translate_offset o ≡ some c → offset_of_char c ≡ o)
      × (offset_of_char c ≡ o → o ≢ offset_unknown → translate_offset o ≡ some c)
unfolding translate_offset offset_of_char
offset_codes offset_unknown c = (λ e. cc, λ e u. ground arith)
offset_codes offset_open c = (λ e. ground arith, λ e u. ground arith)
offset_codes offset_close c = (λ e. ground arith, λ e u. ground arith)
offset_codes offset_closetoday c = (λ e. ground arith, λ e u. ground arith)
offset_codes offset_closeyesterday c = (λ e. ground arith, λ e u. ground arith)

direction_codes :
    (d : BfDirection) (c : ℕ)
    → (translate_direction d ≡ some c → direction_of_char c ≡ d)
      × (direction_of_char c ≡ d → d ≢ direction_unknown → translate_direction d ≡ some c)
unfolding translate_direction direction_of_char
direction_codes direction_unknown c = (λ e. cc, λ e u. ground arith)
direction_codes direction_long c = (λ e. ground arith, λ e u. ground arith)
direction_codes direction_short c = (λ e. ground arith, λ e u. ground arith)
direction_codes direction_net c = (λ e. cc, λ e u. ground arith)

price_type_codes :
    (p : BfPriceType) (c : ℕ)
    → (translate_price_type p ≡ some c → price_type_of_char c ≡ some p)
      × (price_type_of_char c ≡ some p → translate_price_type p ≡ some c)
unfolding translate_price_type price_type_of_char
price_type_codes pricetype_unkonwn c = (λ e. cc, λ e. ground arith)
price_type_codes pricetype_limitprice c = (λ e. ground arith, λ e. ground arith)
price_type_codes pricetype_marketprice c = (λ e. ground arith, λ e. ground arith)

-- A code that is sent for an offset, a direction or a kind of price is read back as the same, and a
-- code that is read as a known one is the code that is sent for it.
pub translate_codes :
    ((o : BfOffset) (c : ℕ)
      → (translate_offset o ≡ some c → offset_of_char c ≡ o)
        × (offset_of_char c ≡ o → o ≢ offset_unknown → translate_offset o ≡ some c))
    × ((d : BfDirection) (c : ℕ)
        → (translate_direction d ≡ some c → direction_of_char c ≡ d)
          × (direction_of_char c ≡ d → d ≢ direction_unknown → translate_direction d ≡ some c))
    × ((p : BfPriceType) (c : ℕ)
        → (translate_price_type p ≡ some c → price_type_of_char c ≡ some p)
          × (price_type_of_char c ≡ some p → translate_price_type p ≡ some c))
translate_codes = (offset_codes, direction_codes, price_type_codes)
