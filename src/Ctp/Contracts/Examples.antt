-- ===== src/Ctp/Contracts/Examples.antt =====
-- An answer of CTP with two instruments, one of them subscribed; and one that repeats an instrument.
use bftrader.Prelude.{
  ◌≡◌, refl, Bool, true, false, none, some, List, [], ◌∷◌, Text, lit, Returns, text_eq,
}
use bftrader.Ctp.Translate.{InstrumentField}
use bftrader.Ctp.Contracts.{
  Contracts, InstrumentRsp, reset_data, answer_instruments, is_my, any_prefix,
}
use bftrader.Ctp.Contracts.Reported.{select}
use bftrader.Ctp.Contracts.Subscribed.{my, Complete, answer_instruments-Answered}

abbrev field : Text → InstrumentField
field id = record {
  instrument_id = id;
  exchange_id = lit "SHFE";
  instrument_name = id;
  product_class = b'1';
  max_market_order_volume = 30;
  min_market_order_volume = 1;
  max_limit_order_volume = 500;
  min_limit_order_volume = 1;
  volume_multiple = 10;
  price_tick = 0;
}

abbrev rsp : Text → Bool → InstrumentRsp
rsp id last = record { is_error = false; instrument = some (field id); is_last = last }

abbrev nothing_known : Contracts
nothing_known = record {
  contracts = [];
  rbs = [];
  prefixes = [];
  got_my = [];
  got_all = [];
  symbols_my = [];
  symbols_all = [];
  subscribed = [];
  confirmed = 0;
  errors = 0;
}

abbrev two : List Text
two = lit "rb1610" ∷ lit "cu1610" ∷ []

answer_instruments-Answered_example : Returns (Complete (λ s. s) (lit "rb" ∷ []) 300 two) (
    answer_instruments
      (λ s. s)
      (lit "rb" ∷ [])
      300
      (rsp (lit "rb1610") false ∷ rsp (lit "cu1610") true ∷ [])
      (reset_data nothing_known))
unfolding text_eq
answer_instruments-Answered_example =
    answer_instruments-Answered (λ s. s) (lit "rb" ∷ []) 300 (rsp (lit "rb1610") false ∷ [])
      (rsp (lit "cu1610") true) nothing_known refl (refl, tt) refl

-- Of the two, the first is subscribed.
two_subscribed : select (my (λ s. s) (lit "rb" ∷ [])) two ≡ lit "rb1610" ∷ []
unfolding is_my any_prefix
two_subscribed = refl

repeated :
    answer_instruments
      (λ s. s)
      (lit "rb" ∷ [])
      300
      (rsp (lit "rb1610") false ∷ rsp (lit "rb1610") true ∷ [])
      (reset_data nothing_known)
    ≡ none
unfolding text_eq
repeated =
    answer_instruments-Answered (λ s. s) (lit "rb" ∷ []) 300 (rsp (lit "rb1610") false ∷ [])
      (rsp (lit "rb1610") true) nothing_known refl (refl, tt) refl
