-- ===== src/Push/Gateways.antt =====
-- What reaches the push service of each gateway: the signals that init() connects to its slots, in
-- ctpgateway/pushservice.cpp and in btgateway/pushservice.cpp.
use bftrader.Prelude.{
  ℕ, Bool, true, ◌&&◌, Option, none, some, List, [], ◌∷◌, if◌then◌else◌, ◌>>=◌, Text, lit, QMap,
}
use bftrader.Proto.{BfOrderData, BfTradeData, BfPositionData, BfAccountData, BfTickData}
use bftrader.Backtest.State.{
  Signal, trade_will_begin, trade_stopped, got_account, got_order, got_trade, got_position,
  got_notification,
}
use bftrader.Ctp.Contracts.{get_contract}
use bftrader.Ctp.Translate.{InstrumentField, DepthMarketDataField, translate_tick}
use bftrader.Push.Messages.{BfNotificationData}
use bftrader.Push.Service.{
  PushService, on_got_order, on_got_trade, on_got_position, on_got_account, push_tick,
  on_trade_will_begin, on_got_contracts, on_logged, on_ping_timer, on_gateway_error,
  on_got_notification,
}

pub data CtpEvent : Type 0 where
  will_begin contracts_got pinged : CtpEvent
  tick_got : DepthMarketDataField → Option DepthMarketDataField → CtpEvent
  order_got : BfOrderData → CtpEvent
  trade_got : BfTradeData → CtpEvent
  position_got : BfPositionData → CtpEvent
  account_got : BfAccountData → CtpEvent
  gateway_error : ℕ → Text → Text → CtpEvent
  notified : BfNotificationData → CtpEvent
  logged : Text → Text → CtpEvent

-- `is_space` is QChar::isSpace.
unfoldable pub is_blank_text : (ℕ → Bool) → Text → Bool
is_blank_text is_space [] = true
is_blank_text is_space (c ∷ cs) = is_space c && is_blank_text is_space cs

module _ (is_space : ℕ → Bool) (contracts : QMap InstrumentField) where
  -- The tick that onGotTick pushes: it takes the exchange of the contract if it has none.
  unfoldable pub complete_tick :
      DepthMarketDataField → Option DepthMarketDataField → Option BfTickData
  unfolding is_blank_text
  complete_tick cur pre =
      let data' = translate_tick cur pre in
      if is_blank_text is_space data'.exchange
      then elim (get_contract data'.symbol contracts) [
        | none ↦ none
        | some contract ↦ some (record data' { exchange = contract.exchange_id })
      ]
      else some data'

  unfoldable pub on_got_tick :
      DepthMarketDataField → Option DepthMarketDataField → PushService → Option PushService
  unfolding complete_tick
  on_got_tick cur pre s = do tick ← complete_tick cur pre; some (push_tick tick s)

  unfoldable pub ctp_event : CtpEvent → PushService → Option PushService
  ctp_event will_begin s = some (on_trade_will_begin s)
  ctp_event contracts_got s = some (on_got_contracts s)
  ctp_event pinged s = some (on_ping_timer (lit "ctpgateway") s)
  ctp_event (tick_got cur pre) s = on_got_tick cur pre s
  ctp_event (order_got data') s = some (on_got_order data' s)
  ctp_event (trade_got data') s = some (on_got_trade data' s)
  ctp_event (position_got data') s = some (on_got_position data' s)
  ctp_event (account_got data') s = some (on_got_account data' s)
  ctp_event (gateway_error code msg msg_ex) s = some (on_gateway_error code msg msg_ex s)
  ctp_event (notified note) s = some (on_got_notification note s)
  ctp_event (logged when msg) s = some (on_logged when msg s)

  abbrev pub ctp_events : List CtpEvent → PushService → Option PushService
  ctp_events [] s = some s
  ctp_events (e ∷ es) s = do s' ← ctp_event e s; ctp_events es s'

-- The signals of the simulated exchange, of its DbService, of the logger and of the timer.
pub data BtEvent : Type 0 where
  manager : Signal → BtEvent
  bt_tick : BfTickData → BtEvent
  bt_contracts bt_ping : BtEvent
  bt_logged : Text → Text → BtEvent

-- init() connects neither tradeStopped nor gotNotification.
unfoldable pub bt_signal : Signal → PushService → PushService
bt_signal (trade_will_begin req) s = on_trade_will_begin s
bt_signal trade_stopped s = s
bt_signal (got_account data') s = on_got_account data' s
bt_signal (got_order data') s = on_got_order data' s
bt_signal (got_trade data') s = on_got_trade data' s
bt_signal (got_position data') s = on_got_position data' s
bt_signal (got_notification type) s = s

unfoldable pub bt_event : BtEvent → PushService → PushService
unfolding bt_signal
bt_event (manager signal) s = bt_signal signal s
bt_event (bt_tick tick) s = push_tick tick s
bt_event bt_contracts s = on_got_contracts s
bt_event bt_ping s = on_ping_timer (lit "btgateway") s
bt_event (bt_logged when msg) s = on_logged when msg s

abbrev pub bt_events : List BtEvent → PushService → PushService
bt_events [] s = s
bt_events (e ∷ es) s = bt_events es (bt_event e s)
