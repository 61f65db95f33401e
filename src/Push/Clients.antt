-- ===== src/Push/Clients.antt =====
-- GatewayClient of ctpgateway/pushservice.cpp, and of its copy in btgateway: one connected client,
-- its subscription and its queue.
use bftrader.Prelude.{Bool, true, false, Text, lit, text_eq, if◌then◌else◌}
use bftrader.Proto.{BfOrderData, BfTradeData, BfPositionData, BfAccountData, BfTickData}
use bftrader.SafeQueue.{SafeQueue, enqueue}
use bftrader.SafeQueue
use bftrader.Push.Messages.{
  BfConnectPushReq, BfPingData, BfErrorData, BfLogData, BfNotificationData, Any, tick, ping, order,
  account, position, trade, error, log, notification,
}

pub record GatewayClient : Type 0 where
  pub queue : SafeQueue Any
  pub gateway_id : Text
  pub req : BfConnectPushReq

abbrev pub push : Any → GatewayClient → GatewayClient
push any c = record c { queue = enqueue any c.queue }

unfoldable pub on_notification : BfNotificationData → GatewayClient → GatewayClient
on_notification data' = push (notification data')

unfoldable pub on_ping : BfPingData → GatewayClient → GatewayClient
on_ping data' = push (ping data')

unfoldable pub on_tick : BfTickData → GatewayClient → GatewayClient
on_tick data' = push (tick data')

unfoldable pub on_error : BfErrorData → GatewayClient → GatewayClient
on_error data' = push (error data')

unfoldable pub on_log : BfLogData → GatewayClient → GatewayClient
on_log data' = push (log data')

unfoldable pub on_trade : BfTradeData → GatewayClient → GatewayClient
on_trade data' = push (trade data')

unfoldable pub on_order : BfOrderData → GatewayClient → GatewayClient
on_order data' = push (order data')

unfoldable pub on_position : BfPositionData → GatewayClient → GatewayClient
on_position data' = push (position data')

unfoldable pub on_account : BfAccountData → GatewayClient → GatewayClient
on_account data' = push (account data')

-- The exchange is not looked at.
unfoldable pub subscribled : Text → Text → GatewayClient → Bool
subscribled symbol exchange c =
    if text_eq c.req.symbol (lit "*")
    then true
    else if text_eq symbol c.req.symbol
    then true
    else false

-- The destructor shuts the queue down.
unfoldable pub free : GatewayClient → GatewayClient
free c = record c { queue = SafeQueue.shutdown c.queue }
