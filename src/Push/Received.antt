-- ===== src/Push/Received.antt =====
-- What a client gets: the messages that its subscription asks for, each once and in order.
use bftrader.Prelude.{
  ℕ, ◌≡◌, refl, Bool, true, false, Option, none, some, List, [], ◌∷◌, ◌++◌, if◌then◌else◌, ◌>>=◌,
  Text, lit, QMap, find, Returns, Option-cases, inl, inr, arith,
}
use bftrader.Proto.{notification_tradewillbegin, notification_gotcontracts}
use bftrader.Backtest.State.{
  trade_will_begin, trade_stopped, got_account, got_order, got_trade, got_position,
  got_notification,
}
use bftrader.Ctp.Translate.{InstrumentField, DepthMarketDataField}
use bftrader.Push.Messages.{
  BfNotificationData, BfErrorData, Any, tick, ping, order, account, position, trade, error, log,
  notification,
}
use bftrader.Push.Clients.{
  GatewayClient, on_notification, on_ping, on_error, on_log, on_trade, on_order, on_position,
  on_account,
}
use bftrader.Push.Service.{
  PushService, always, trade_handler, log_handler, note_of, is_query, on_got_order, on_got_trade,
  on_got_position, on_got_account, push_tick, on_trade_will_begin, on_got_contracts, on_logged,
  on_ping_timer, on_gateway_error, on_got_notification,
}
use bftrader.Push.Gateways.{
  CtpEvent, will_begin, contracts_got, pinged, tick_got, order_got, trade_got, position_got,
  account_got, gateway_error, notified, logged, complete_tick, on_got_tick, ctp_event, ctp_events,
  BtEvent, manager, bt_tick, bt_contracts, bt_ping, bt_logged, bt_signal, bt_event, bt_events,
}
use bftrader.Push.Subscriptions.{
  received, with_messages, Gets, slot-Gets, nothing-Gets, then-Gets, push_tick-Gets,
}

-- What a slot of btgateway pushes.
abbrev pub bt_messages_of : BtEvent → List Any
bt_messages_of (manager (trade_will_begin req)) =
    notification (note_of notification_tradewillbegin) ∷ []
bt_messages_of (manager trade_stopped) = []
bt_messages_of (manager (got_account data')) = account data' ∷ []
bt_messages_of (manager (got_order data')) = order data' ∷ []
bt_messages_of (manager (got_trade data')) = trade data' ∷ []
bt_messages_of (manager (got_position data')) = position data' ∷ []
bt_messages_of (manager (got_notification type)) = []
bt_messages_of (bt_tick data') = tick data' ∷ []
bt_messages_of bt_contracts = notification (note_of notification_gotcontracts) ∷ []
bt_messages_of bt_ping = ping (record { message = lit "btgateway" }) ∷ []
bt_messages_of (bt_logged when msg) = log (record { when = when; message = msg }) ∷ []

abbrev pub bt_messages : List BtEvent → List Any
bt_messages [] = []
bt_messages (e ∷ es) = bt_messages_of e ++ bt_messages es

bt_event-Gets :
    (k : Text) (s : PushService) (c : GatewayClient) (e : BtEvent)
    → find k s.clients ≡ some c
    → Gets k c (bt_messages_of e) s (bt_event e s)
unfolding bt_event bt_signal on_trade_will_begin on_got_account on_got_order on_got_trade
    on_got_position on_got_contracts on_ping_timer on_logged on_notification on_account on_order
    on_trade on_position on_ping on_log
bt_event-Gets k s c (manager (trade_will_begin req)) =
    slot-Gets always (notification (note_of notification_tradewillbegin)) k s c refl
bt_event-Gets k s c (manager trade_stopped) = nothing-Gets k s c
bt_event-Gets k s c (manager (got_account data')) =
    slot-Gets trade_handler (account data') k s c refl
bt_event-Gets k s c (manager (got_order data')) = slot-Gets trade_handler (order data') k s c refl
bt_event-Gets k s c (manager (got_trade data')) = slot-Gets trade_handler (trade data') k s c refl
bt_event-Gets k s c (manager (got_position data')) =
    slot-Gets trade_handler (position data') k s c refl
bt_event-Gets k s c (manager (got_notification type)) = nothing-Gets k s c
bt_event-Gets k s c (bt_tick data') = push_tick-Gets k s c data'
bt_event-Gets k s c bt_contracts =
    slot-Gets always (notification (note_of notification_gotcontracts)) k s c refl
bt_event-Gets k s c bt_ping =
    slot-Gets always (ping (record { message = lit "btgateway" })) k s c refl
bt_event-Gets k s c (bt_logged when msg) =
    slot-Gets log_handler (log (record { when = when; message = msg })) k s c refl

-- Events of the simulated exchange leave a connected client with the messages that it receives of
-- those pushed.
pub bt_events-Gets :
    (es : List BtEvent) (k : Text) (s : PushService) (c : GatewayClient)
    → find k s.clients ≡ some c
    → Gets k c (bt_messages es) s (bt_events es s)
bt_events-Gets [] k s c f = nothing-Gets k s c f
bt_events-Gets (e ∷ es) k s c f =
    let first = bt_event-Gets k s c e f in
    then-Gets k c (bt_messages_of e) (bt_messages es) s (bt_event e s) (bt_events es (bt_event e s))
      first
      (bt_events-Gets es k (bt_event e s) (with_messages (received c.req (bt_messages_of e)) c)
        first.0)

module _ (is_space : ℕ → Bool) (contracts : QMap InstrumentField) where
  -- What a slot of ctpgateway pushes; `none` where it stops the program.
  abbrev pub ctp_messages_of : CtpEvent → Option (List Any)
  ctp_messages_of will_begin = some (notification (note_of notification_tradewillbegin) ∷ [])
  ctp_messages_of contracts_got = some (notification (note_of notification_gotcontracts) ∷ [])
  ctp_messages_of pinged = some (ping (record { message = lit "ctpgateway" }) ∷ [])
  ctp_messages_of (tick_got cur pre) = do
    data' ← complete_tick is_space contracts cur pre
    some (tick data' ∷ [])
  ctp_messages_of (order_got data') = some (order data' ∷ [])
  ctp_messages_of (trade_got data') = some (trade data' ∷ [])
  ctp_messages_of (position_got data') = some (position data' ∷ [])
  ctp_messages_of (account_got data') = some (account data' ∷ [])
  ctp_messages_of (gateway_error code msg msg_ex) =
      some (error (record { code = code; message = msg; message_ex = msg_ex }) ∷ [])
  ctp_messages_of (notified note) = some (if is_query note.type then notification note ∷ [] else [])
  ctp_messages_of (logged when msg) = some (log (record { when = when; message = msg }) ∷ [])

  abbrev pub ctp_messages : List CtpEvent → Option (List Any)
  ctp_messages [] = some []
  ctp_messages (e ∷ es) = do ms ← ctp_messages_of e; ns ← ctp_messages es; some (ms ++ ns)

  note-Gets :
      (b : Bool) (k : Text) (s : PushService) (c : GatewayClient) (note : BfNotificationData)
      → is_query note.type ≡ b
      → find k s.clients ≡ some c
      → Gets k c (if b then notification note ∷ [] else []) s (on_got_notification note s)
  unfolding on_got_notification on_notification
  note-Gets true k s c note e f =
      let asked = slot-Gets trade_handler (notification note) k s c (ground (arith, e)) f in
      rw (e, on_got_notification) (rw e at asked)
  note-Gets false k s c note e f = rw (e, on_got_notification) (nothing-Gets k s c f)

  -- The program stops, or the client gets the messages.
  abbrev pub Pushes :
      Text → GatewayClient → PushService → Option (List Any) → Option PushService → Type 0
  Pushes k c s none r = r ≡ none
  Pushes k c s (some ms) r = Returns (Gets k c ms s) r

  tick-Pushes :
      (k : Text) (s : PushService) (c : GatewayClient) (cur : DepthMarketDataField)
      (pre : Option DepthMarketDataField)
      → find k s.clients ≡ some c
      → Pushes k c s (ctp_messages_of (tick_got cur pre)) (on_got_tick is_space contracts cur pre s)
  unfolding on_got_tick
  tick-Pushes k s c cur pre f = elim (Option-cases (complete_tick is_space contracts cur pre)) [
    | inl e ↦ rw e refl
    | inr (data', e) ↦ rw e (push_tick data' s, refl, push_tick-Gets k s c data' f)
  ]

  ctp_event-Pushes :
      (e : CtpEvent) (k : Text) (s : PushService) (c : GatewayClient)
      → find k s.clients ≡ some c
      → Pushes k c s (ctp_messages_of e) (ctp_event is_space contracts e s)
  unfolding ctp_event on_trade_will_begin on_got_account on_got_order on_got_trade on_got_position
      on_got_contracts on_ping_timer on_logged on_gateway_error on_notification on_account on_order
      on_trade on_position on_ping on_log on_error
  ctp_event-Pushes will_begin k s c f =
      (_, refl, slot-Gets always (notification (note_of notification_tradewillbegin)) k s c refl f)
  ctp_event-Pushes contracts_got k s c f =
      (_, refl, slot-Gets always (notification (note_of notification_gotcontracts)) k s c refl f)
  ctp_event-Pushes pinged k s c f =
      (_, refl, slot-Gets always (ping (record { message = lit "ctpgateway" })) k s c refl f)
  ctp_event-Pushes (tick_got cur pre) k s c f = tick-Pushes k s c cur pre f
  ctp_event-Pushes (order_got data') k s c f =
      (_, refl, slot-Gets trade_handler (order data') k s c refl f)
  ctp_event-Pushes (trade_got data') k s c f =
      (_, refl, slot-Gets trade_handler (trade data') k s c refl f)
  ctp_event-Pushes (position_got data') k s c f =
      (_, refl, slot-Gets trade_handler (position data') k s c refl f)
  ctp_event-Pushes (account_got data') k s c f =
      (_, refl, slot-Gets trade_handler (account data') k s c refl f)
  ctp_event-Pushes (gateway_error code msg msg_ex) k s c f =
      let e : BfErrorData = record { code = code; message = msg; message_ex = msg_ex } in
      (_, refl, slot-Gets log_handler (error e) k s c refl f)
  ctp_event-Pushes (notified note) k s c f =
      (_, refl, note-Gets (is_query note.type) k s c note refl f)
  ctp_event-Pushes (logged when msg) k s c f =
      (_, refl, slot-Gets log_handler (log (record { when = when; message = msg })) k s c refl f)

  chain-Pushes :
      (k : Text) (c : GatewayClient) (s : PushService) (m n : Option (List Any))
      (r : Option PushService) (next : PushService → Option PushService)
      → Pushes k c s m r
      → ((ms : List Any) (s' : PushService)
          → Gets k c ms s s'
          → Pushes k (with_messages (received c.req ms) c) s' n (next s'))
      → Pushes k c s (m >>= λ ms. n >>= λ ns. some (ms ++ ns)) (r >>= next)
  chain-Pushes k c s none n r next h g = rw h refl
  chain-Pushes k c s (some ms) none r next (s', e, v) g = rw e (g ms s' v)
  chain-Pushes k c s (some ms) (some ns) r next (s', e, v) g =
      let (s'', e', v') = g ms s' v in (s'', rw e e', then-Gets k c ms ns s s' s'' v v')

  -- When the push service of ctpgateway handles any list of events, it stops at a tick without
  -- exchange whose contract is unknown, and otherwise leaves a connected client with its queue
  -- followed by exactly the messages that the rules at BfConnectPushReq in sdk/bfgateway.proto give
  -- to its subscription, each once and in order, with two changes to the rules: a tick whose symbol
  -- suits is sent whatever its exchange, and a notification of a query is kept from a client that
  -- does not handle trades. It then frees no client.
  pub ctp_events-Pushes :
      (es : List CtpEvent) (k : Text) (s : PushService) (c : GatewayClient)
      → find k s.clients ≡ some c
      → Pushes k c s (ctp_messages es) (ctp_events is_space contracts es s)
  ctp_events-Pushes [] k s c f = (s, refl, nothing-Gets k s c f)
  ctp_events-Pushes (e ∷ es) k s c f =
      chain-Pushes k c s (ctp_messages_of e) (ctp_messages es) (ctp_event is_space contracts e s)
        (ctp_events is_space contracts es) (ctp_event-Pushes e k s c f)
        (λ ms s' v. ctp_events-Pushes es k s' (with_messages (received c.req ms) c) v.0)
