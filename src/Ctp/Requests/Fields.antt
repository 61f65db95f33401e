-- ===== src/Ctp/Requests/Fields.antt =====
-- ctpgateway/tdsm.h, ctpgateway/mdsm.h and the records of CTP that the requests fill.
use bftrader.Prelude.{ℕ, Text}
use bftrader.Ctp.Reports.{TdSmSpi}

-- CThostFtdcReqUserLoginField, the fields that are set.
pub record ReqUserLoginField : Type 0 where
  pub broker_id : Text
  pub user_id : Text
  pub password : Text

-- The account in the other requests, whose second field is UserID or InvestorID.
pub record Account : Type 0 where
  pub broker_id : Text
  pub owner_id : Text

-- CThostFtdcInputOrderField, the fields that are set.
pub record InputOrderField : Type 0 where
  pub account : Account
  pub order_ref : Text
  pub instrument_id : Text
  pub direction : ℕ
  pub comb_offset_flag : ℕ
  pub order_price_type : ℕ
  pub limit_price : ℕ
  pub volume_total_original : ℕ
  pub comb_hedge_flag : ℕ
  pub contingent_condition : ℕ
  pub force_close_reason : ℕ
  pub is_auto_suspend : ℕ
  pub time_condition : ℕ
  pub volume_condition : ℕ
  pub min_volume : ℕ

-- CThostFtdcInputOrderActionField, the fields that are set; the array OrderSysID stands behind
-- ExchangeID, and a text that fills its array has no zero at its end.
pub record InputOrderActionField : Type 0 where
  pub account : Account
  pub order_ref : Text
  pub front_id : ℕ
  pub session_id : ℕ
  pub exchange_id : Text
  pub order_sys_id : Text
  pub action_flag : ℕ
  pub instrument_id : Text

pub data TdRequest : Type 0 where
  user_login : ReqUserLoginField → TdRequest
  user_logout qry_trading_account settlement_info_confirm : Account → TdRequest
  qry_investor_position qry_order : Account → TdRequest
  qry_instrument : TdRequest
  order_insert : InputOrderField → TdRequest
  order_action : InputOrderActionField → TdRequest

-- The fields of TdSm; `spi` is tdspi_.
pub record TdSm : Type 0 where
  pub user_id : Text
  pub password : Text
  pub broker_id : Text
  pub front_td : Text
  pub flow_path_td : Text
  pub symbol_prefixes : Text
  pub spi : TdSmSpi

pub record MdSm : Type 0 where
  pub user_id : Text
  pub password : Text
  pub broker_id : Text
  pub front_md : Text
  pub flow_path_md : Text
