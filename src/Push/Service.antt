-- ===== src/Push/Service.antt =====
-- ctpgateway/pushservice.cpp and its copy in btgateway: the clients by their id, and the slots that
-- the two share. All of them run in the push thread.
use bftrader.Prelude.{
  ℕ, Bool, true, false, none, some, List, [], ◌∷◌, ◌++◌, map, if◌then◌else◌, Text, QMap, find,
  insert, remove,
}
use bftrader.Proto.{
  BfNotificationType, notification_tradewillbegin, notification_gotcontracts,
  notification_beginqueryorders, notification_endqueryorders, notification_beginqueryposition,
  notification_endqueryposition, BfOrderData, BfTradeData, BfPositionData, BfAccountData,
  BfTickData,
}
use bftrader.SafeQueue.{SafeQueue}
use bftrader.Push.Messages.{BfConnectPushReq, BfNotificationData, Any}
use bftrader.Push.Clients.{
  GatewayClient, on_notification, on_ping, on_tick, on_error, on_log, on_trade, on_order,
  on_position, on_account, subscribled, free,
}

-- `freed` lists the deleted clients, whose queues the threads of their streams still hold.
pub record PushService : Type 0 where
  pub clients : QMap GatewayClient
  pub freed : List GatewayClient

-- The loop over clients_ with one statement under a test.
abbrev pub for_each {ℓ} : {V : Type ℓ} → (V → Bool) → (V → V) → QMap V → QMap V
for_each test f [] = []
for_each test f ((k, v) ∷ m) = (k, if test v then f v else v) ∷ for_each test f m

abbrev pub always {ℓ} : {V : Type ℓ} → V → Bool
always v = true

unfoldable pub values {ℓ} : {V : Type ℓ} → QMap V → List V
values [] = []
values ((k, v) ∷ m) = v ∷ values m

unfoldable pub erase_client : Text → PushService → PushService
unfolding free
erase_client k s = elim (find k s.clients) [
  | none ↦ s
  | some c ↦ record { clients = remove k s.clients; freed = s.freed ++ free c ∷ [] }
]

unfoldable pub connect_client : Text → BfConnectPushReq → SafeQueue Any → PushService → PushService
unfolding erase_client
connect_client gateway_id req queue s =
    let s' = erase_client req.clientid s in
    record s' {
      clients =
          insert req.clientid (record { queue = queue; gateway_id = gateway_id; req = req })
            s'.clients;
    }

unfoldable pub disconnect_client : Text → PushService → PushService
unfolding erase_client
disconnect_client client_id s = erase_client client_id s

-- The body of shutdown() and of onGatewayClosed().
unfoldable pub on_gateway_closed : PushService → PushService
unfolding values free
on_gateway_closed s = record { clients = []; freed = s.freed ++ map free (values s.clients) }

abbrev pub update : (QMap GatewayClient → QMap GatewayClient) → PushService → PushService
update f s = record s { clients = f s.clients }

abbrev pub trade_handler : GatewayClient → Bool
trade_handler c = c.req.tradehandler

abbrev pub log_handler : GatewayClient → Bool
log_handler c = c.req.loghandler

unfoldable pub on_got_order : BfOrderData → PushService → PushService
unfolding on_order
on_got_order data' = update (for_each trade_handler (on_order data'))

unfoldable pub on_got_trade : BfTradeData → PushService → PushService
unfolding on_trade
on_got_trade data' = update (for_each trade_handler (on_trade data'))

unfoldable pub on_got_position : BfPositionData → PushService → PushService
unfolding on_position
on_got_position data' = update (for_each trade_handler (on_position data'))

unfoldable pub on_got_account : BfAccountData → PushService → PushService
unfolding on_account
on_got_account data' = update (for_each trade_handler (on_account data'))

-- The loop of onGotTick, which the two gateways share.
unfoldable pub push_tick : BfTickData → PushService → PushService
unfolding on_tick subscribled
push_tick data' = update (
    for_each
      (λ (c : GatewayClient).
        if c.req.tickhandler then subscribled data'.symbol data'.exchange c else false)
      (on_tick data'))

abbrev pub note_of : BfNotificationType → BfNotificationData
note_of type = record { type = type; code = 0; message = []; message_ex = [] }

unfoldable pub on_trade_will_begin : PushService → PushService
unfolding on_notification
on_trade_will_begin =
    update (for_each always (on_notification (note_of notification_tradewillbegin)))

unfoldable pub on_got_contracts : PushService → PushService
unfolding on_notification
on_got_contracts = update (for_each always (on_notification (note_of notification_gotcontracts)))

unfoldable pub on_logged : Text → Text → PushService → PushService
unfolding on_log
on_logged when msg = update (for_each log_handler (on_log (record { when = when; message = msg })))

-- The name is that of the process.
unfoldable pub on_ping_timer : Text → PushService → PushService
unfolding on_ping
on_ping_timer name = update (for_each always (on_ping (record { message = name })))

unfoldable pub on_gateway_error : ℕ → Text → Text → PushService → PushService
unfolding on_error
on_gateway_error code msg msg_ex =
    update
      (for_each log_handler (on_error (record { code = code; message = msg; message_ex = msg_ex })))

abbrev pub is_query : BfNotificationType → Bool
is_query notification_beginqueryorders = true
is_query notification_beginqueryposition = true
is_query notification_endqueryorders = true
is_query notification_endqueryposition = true
is_query _ = false

-- Any other type is logged only.
unfoldable pub on_got_notification : BfNotificationData → PushService → PushService
unfolding on_notification
on_got_notification note s =
    if is_query note.type then update (for_each trade_handler (on_notification note)) s else s
