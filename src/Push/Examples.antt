-- ===== src/Push/Examples.antt =====
-- The push services at concrete clients.
use bftrader.Prelude.{
  ◌+◌, ◌≡◌, refl, true, false, some, List, [], ◌∷◌, length, All, Text, lit, find, insert, remove,
  text_eq, text_ltb, total, AllValues, ◌==◌, Returns,
}
use bftrader.Datafeed.Examples
use bftrader.Proto.{
  BfTickData, BfTradeData, BfOrderData, BfPositionData, direction_long, direction_unknown,
  offset_unknown, status_unknown, notification_beginqueryorders,
}
use bftrader.Backtest.State.{Gateway, demo_account, query_position, query_orders}
use bftrader.SafeQueue.{empty_queue}
use bftrader.Push.Messages.{BfConnectPushReq, tick, ping, notification, log, position}
use bftrader.Push.Clients.{GatewayClient}
use bftrader.Push.Service.{
  PushService, note_of, values, connect_client, disconnect_client, erase_client, on_ping_timer,
  on_gateway_closed,
}
use bftrader.Push.Gateways.{
  CtpEvent, pinged, notified, logged, ctp_events, bt_ping, bt_events, bt_event,
}
use bftrader.Push.Subscriptions.{received, asked_of, received-asked, with_messages, Gets}
use bftrader.Push.Received.{ctp_events-Pushes}
use bftrader.Push.Queries.{events_of, silent, query-Gets}
use bftrader.Push.Lifetimes.{
  Call, connects, disconnects, slots, call_all, new_service, one, IsOpen, IsShut,
  on_gateway_closed-call_all, call,
}
use bftrader.Push.Cta.{CtaClient, CtaPushService, on_got_trade, on_got_order, on_got_trade-others}

abbrev trader : BfConnectPushReq
trader = record {
  clientid = lit "trader";
  tickhandler = false;
  tradehandler = true;
  loghandler = false;
  symbol = [];
  exchange = [];
  int_param = 0;
  str_param = [];
}

abbrev client : GatewayClient
client = record { queue = empty_queue; gateway_id = lit "ctpgateway"; req = trader }

abbrev service : PushService
service = record { clients = (lit "trader", client) ∷ []; freed = [] }

abbrev events : List CtpEvent
events =
    pinged
    ∷ logged (lit "now") (lit "hello")
    ∷ notified (note_of notification_beginqueryorders)
    ∷ []

ctp_events-Pushes_example :
    Returns
      (Gets
        (lit "trader")
        client
        (ping (record { message = lit "ctpgateway" })
          ∷ log (record { when = lit "now"; message = lit "hello" })
          ∷ notification (note_of notification_beginqueryorders)
          ∷ [])
        service)
      (ctp_events (λ c. c == b' ') [] events service)
unfolding find text_eq
ctp_events-Pushes_example =
    ctp_events-Pushes (λ c. c == b' ') [] events (lit "trader") service client refl

received_run :
    received trader (
      ping (record { message = lit "ctpgateway" })
      ∷ log (record { when = lit "now"; message = lit "hello" })
      ∷ notification (note_of notification_beginqueryorders)
      ∷ [])
    ≡ ping (record { message = lit "ctpgateway" })
      ∷ notification (note_of notification_beginqueryorders)
      ∷ []
received_run = refl

abbrev a_tick : BfTickData
a_tick = Examples.tick

-- Both changes to the rules at a client that asks for a contract of another exchange, without trades.
abbrev elsewhere : BfConnectPushReq
elsewhere = record trader {
  tickhandler = true;
  tradehandler = false;
  symbol = a_tick.symbol;
  exchange = lit "elsewhere";
}

changes_run :
    (received elsewhere (tick a_tick ∷ notification (note_of notification_beginqueryorders) ∷ [])
      ≡ tick a_tick ∷ [])
    × (asked_of elsewhere (tick a_tick ∷ notification (note_of notification_beginqueryorders) ∷ [])
        ≡ notification (note_of notification_beginqueryorders) ∷ [])
unfolding text_eq
changes_run = (refl, refl)

-- Where the exchange is the one asked for, the rules hold.
rules_run :
    received (record elsewhere { exchange = a_tick.exchange }) (tick a_tick ∷ [])
    ≡ asked_of (record elsewhere { exchange = a_tick.exchange }) (tick a_tick ∷ [])
unfolding text_eq
rules_run =
    received-asked (record elsewhere { exchange = a_tick.exchange }) (tick a_tick ∷ [])
      ((refl, λ e. refl), tt)

abbrev long_rb : BfPositionData
long_rb = record {
  symbol = lit "rb";
  exchange = lit "SHFE";
  direction = direction_long;
  position = 1;
  frozen = 0;
  price = 0;
  ydposition = 0;
}

abbrev holding : Gateway
holding = record {
  order_id = 0;
  trade_id = 0;
  account = demo_account;
  positions = (lit "rb-SHFE-long", long_rb) ∷ [];
  orders = [];
  trades = [];
  sent = [];
}

query-Gets_example :
    (find (lit "trader") (bt_events (events_of (query_position (silent holding))) service).clients
      ≡ some (with_messages (position long_rb ∷ []) client))
    × (find (lit "trader") (bt_events (events_of (query_orders (silent holding))) service).clients
        ≡ some (with_messages [] client))
unfolding find values text_eq
query-Gets_example = query-Gets holding (lit "trader") service client refl refl

abbrev history : List Call
history =
    connects (lit "btgateway") trader
    ∷ slots bt_ping
    ∷ connects (lit "btgateway") trader
    ∷ disconnects (lit "nobody")
    ∷ []

on_gateway_closed-call_all_example :
    let s = call_all history new_service in
    (total one s.clients + length s.freed ≡ 2)
    × AllValues IsOpen s.clients
    × All IsShut s.freed
    × ((on_gateway_closed s).clients ≡ [])
    × (length (on_gateway_closed s).freed ≡ 2)
    × All IsShut (on_gateway_closed s).freed
on_gateway_closed-call_all_example = on_gateway_closed-call_all history

-- The second connect of a client shuts the queue of the first.
history_run : length (call_all history new_service).freed ≡ 1
unfolding call connect_client disconnect_client erase_client find insert remove text_eq bt_event
    on_ping_timer
history_run = refl

-- A client connects again, and then the failed write of its first stream asks for its disconnect: the
-- new connection is gone.
stale_disconnect :
    let s =
      call_all
        (connects (lit "btgateway") trader
          ∷ connects (lit "btgateway") trader
          ∷ disconnects (lit "trader")
          ∷ [])
        new_service in
    (s.clients ≡ []) × (length s.freed ≡ 2)
unfolding call connect_client disconnect_client erase_client find insert remove text_eq
stale_disconnect = (refl, refl)

abbrev cta_client : Text → CtaClient
cta_client id = record { queue = empty_queue; req = record trader { clientid = id } }

abbrev two_clients : CtaPushService
two_clients = record {
  clients = (lit "a", cta_client (lit "a")) ∷ (lit "b", cta_client (lit "b")) ∷ [];
  freed = [];
}

abbrev some_trade : BfTradeData
some_trade = record {
  symbol = lit "rb";
  exchange = lit "SHFE";
  tradeid = lit "1";
  bforderid = lit "1.1.1";
  direction = direction_unknown;
  offset = offset_unknown;
  price = 0;
  volume = 1;
  tradedate = [];
  tradetime = [];
}

abbrev some_order : BfOrderData
some_order = record {
  symbol = lit "rb";
  exchange = lit "SHFE";
  bforderid = lit "1.1.1";
  direction = direction_unknown;
  offset = offset_unknown;
  price = 0;
  totalvolume = 1;
  tradedvolume = 0;
  status = status_unknown;
  insertdate = [];
  inserttime = [];
  canceltime = [];
}

second_gets_nothing :
    (find (lit "b") (on_got_trade some_trade two_clients).clients ≡ some (cta_client (lit "b")))
    × (find (lit "b") (on_got_order some_order two_clients).clients ≡ some (cta_client (lit "b")))
unfolding find text_ltb text_eq
second_gets_nothing =
    on_got_trade-others two_clients (lit "a") (lit "b") some_trade some_order ((refl, tt), (tt, tt))
      refl refl refl
