-- ===== src/Ctp/Runs.antt =====
-- ctpgateway: the sessions, an arriving tick and the identifier of an order at concrete values.
use bftrader.Prelude.{
  text_eq, ◌≡◌, refl, true, false, some, none, List, [], ◌∷◌, lit, arith, Returns, find,
}
use bftrader.Ctp.Sessions.{
  Sessions, md_changes, td_changes, mdsm_connected, mdsm_logined, tdsm_connected, tdsm_logined,
  tdsm_logouted, changes, change_all, start, stop, starts_md, starts_td, trade_will_begin,
  queries_instrument, logs_in_md, logs_in_td, start_td_sm, start_md_sm, on_md_sm_state_changed,
  on_td_sm_state_changed, try_start_subscrible, begin_trade,
}
use bftrader.Ctp.Sessions.Quiet.{IsLinked, changes-IsLinked, change_all-stop, logins}
use bftrader.Ctp.Callbacks.{
  Callback, td, td_front_disconnected, td_front_connected, td_rsp_user_login, changes_of,
  change_all-changes_of,
}
use bftrader.Ctp.OrderId.{format_bf_order_id, translate_bf_order_id}
use bftrader.Ctp.OrderId.RoundTrip.{translate_bf_order_id-format_bf_order_id}
use bftrader.Ctp.RingBuffer.{RingBuffer}
use bftrader.Ctp.Translate.{DepthMarketDataField}
use bftrader.Ctp.MarketData.{
  Ticks, on_rtn_depth_market_data, Arrived, is_valid_tick, on_rtn_depth_market_data-latest,
}

abbrev idle : Sessions
idle = record {
  mdsm = false;
  md_logined = false;
  tdsm = false;
  td_logined = false;
  auto_login_td = true;
  auto_login_md = true;
  done = [];
}

-- Both sessions have connected and logged in.
abbrev trading : Sessions
trading = record {
  mdsm = true;
  md_logined = true;
  tdsm = true;
  td_logined = true;
  auto_login_td = true;
  auto_login_md = true;
  done =
      queries_instrument 1000
      ∷ trade_will_begin
      ∷ logs_in_td 1000
      ∷ logs_in_md 1000
      ∷ starts_td
      ∷ starts_md
      ∷ [];
}

login_test :
    change_all true
      (md_changes mdsm_connected
        ∷ td_changes tdsm_connected
        ∷ md_changes mdsm_logined
        ∷ td_changes tdsm_logined
        ∷ [])
      (start true true idle)
    ≡ some trading
unfolding start start_td_sm start_md_sm changes on_md_sm_state_changed on_td_sm_state_changed
    try_start_subscrible begin_trade
login_test = refl

trading-IsLinked : IsLinked trading
trading-IsLinked = (λ e. refl, λ e. refl)

logged_in_twice : Returns IsLinked (changes true (td_changes tdsm_logined) trading)
logged_in_twice = changes-IsLinked (td_changes tdsm_logined) trading trading-IsLinked

-- The trading session is cut, and its first login fails.
abbrev cut : List Callback
cut =
    td td_front_disconnected
    ∷ td td_front_connected
    ∷ td (
        td_rsp_user_login 1 78 (record {
          info = some (record { error_id = 7; error_msg = [] });
          req_id = 5;
          is_last = true;
        }))
    ∷ td (td_rsp_user_login 1 78 (record { info = none; req_id = 6; is_last = true }))
    ∷ []

change_all-changes_of_example : Returns IsLinked (change_all true (changes_of cut) trading)
change_all-changes_of_example = change_all-changes_of cut trading trading-IsLinked

-- A login that is answered late, and the logout.
change_all-stop_example :
    Returns
      (λ s. (logins s.done ≡ 2) × (s.mdsm ≡ false))
      (change_all true
        (td_changes tdsm_logined ∷ md_changes mdsm_logined ∷ td_changes tdsm_logouted ∷ [])
        (stop trading))
change_all-stop_example =
    change_all-stop true
      (td_changes tdsm_logined ∷ md_changes mdsm_logined ∷ td_changes tdsm_logouted ∷ []) trading
      trading-IsLinked

-- A negative session number, as its bit pattern.
negative_session :
    translate_bf_order_id (format_bf_order_id 1 4294967295 120) ≡ (1, 4294967295, 120)
negative_session =
    translate_bf_order_id-format_bf_order_id 1 4294967295 120 (omega arith) (omega arith)
      (omega arith)

abbrev quote : DepthMarketDataField
quote = record {
  instrument_id = lit "rb";
  exchange_id = lit "SHFE";
  action_day = lit "20160801";
  update_time = lit "09:00:00";
  update_millisec = 500;
  last_price = 2490;
  volume = 10;
  open_interest = 0;
  open_price = 0;
  highest_price = 0;
  lowest_price = 0;
  pre_close_price = 0;
  upper_limit_price = 0;
  lower_limit_price = 0;
  bid_price1 = 0;
  ask_price1 = 0;
  bid_volume1 = 0;
  ask_volume1 = 0;
}

abbrev buffer : RingBuffer DepthMarketDataField
buffer = record { item_count = 2; head = some 1; items = none ∷ some quote ∷ [] }

abbrev subscribed : Ticks
subscribed = record { rbs = (lit "rb", buffer) ∷ []; got = (quote, none) ∷ [] }

on_rtn_depth_market_data-latest_example :
    Returns
      (Arrived true
        (λ t. 0)
        (is_valid_tick true (λ t. 0) buffer (record quote { volume = 12 }))
        (record quote { volume = 12 })
        buffer
        subscribed)
      (on_rtn_depth_market_data true (λ t. 0) (record quote { volume = 12 }) subscribed)
unfolding find text_eq
on_rtn_depth_market_data-latest_example =
    on_rtn_depth_market_data-latest true (λ t. 0) (record quote { volume = 12 }) subscribed buffer
      refl (omega arith, refl, omega arith) (omega arith)
