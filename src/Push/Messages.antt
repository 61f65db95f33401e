-- ===== src/Push/Messages.antt =====
-- The messages of sdk/bfgateway.proto that are pushed, and google.protobuf.Any as the union of them.
use bftrader.Prelude.{ℕ, Bool, Text}
use bftrader.Proto.{
  BfNotificationType, BfOrderData, BfTradeData, BfPositionData, BfAccountData, BfTickData,
}

pub record BfConnectPushReq : Type 0 where
  pub clientid : Text
  pub tickhandler : Bool
  pub tradehandler : Bool
  pub loghandler : Bool
  pub symbol : Text
  pub exchange : Text
  pub int_param : ℕ
  pub str_param : Text

pub record BfPingData : Type 0 where
  pub message : Text

pub record BfErrorData : Type 0 where
  pub code : ℕ
  pub message : Text
  pub message_ex : Text

pub record BfLogData : Type 0 where
  pub when : Text
  pub message : Text

pub record BfNotificationData : Type 0 where
  pub type : BfNotificationType
  pub code : ℕ
  pub message : Text
  pub message_ex : Text

-- PackFrom stores the message with the name of its type, so a constructor is a PackFrom; `other` is
-- a message of a type that no gateway pushes.
pub data Any : Type 0 where
  tick : BfTickData → Any
  ping : BfPingData → Any
  order : BfOrderData → Any
  account : BfAccountData → Any
  position : BfPositionData → Any
  trade : BfTradeData → Any
  error : BfErrorData → Any
  log : BfLogData → Any
  notification : BfNotificationData → Any
  other : Text → Any
