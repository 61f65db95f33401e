-- ===== src/Ctp/MarketData.antt =====
-- ctpgateway/mdsm.cpp: a tick arrives, is filtered and put into the ring buffer of its contract.
use bftrader.Prelude.{
  ℕ, ◌*◌, ◌≤◌, ◌≡◌, refl, Bool, true, false, not, Option, none, some, List, ◌∷◌, Text, QMap, find,
  find-modify, modify, text_eq, text_eq_refl, leb, ◌==◌, if◌then◌else◌, Returns, Bool-cases, inl,
  inr,
}
use bftrader.Ctp.RingBuffer.{RingBuffer, put_item, get_latest_tick, get_pre_latest_tick}
use bftrader.Ctp.RingBuffer.Latest.{IsAllocated, latest-put_item, pre_latest-put_item}
use bftrader.Ctp.Translate.{DepthMarketDataField}

-- `rbs` are the ring buffers by symbol, `got` the emitted ticks, each with the one before it, the
-- newest first.
pub record Ticks : Type 0 where
  pub rbs : QMap (RingBuffer DepthMarketDataField)
  pub got : List (DepthMarketDataField × Option DepthMarketDataField)

find-stored :
    (tick : DepthMarketDataField) (ticks : Ticks) (rb : RingBuffer DepthMarketDataField)
    → find tick.instrument_id ticks.rbs ≡ some rb
    → find tick.instrument_id (modify tick.instrument_id (put_item tick) ticks.rbs)
      ≡ some (put_item tick rb)
find-stored tick ticks rb e =
    rw (find-modify tick.instrument_id tick.instrument_id (put_item tick) ticks.rbs)
      (rw (text_eq_refl tick.instrument_id) (rw e refl))

-- `distance` is the time in milliseconds between the clock and the time of a tick.
module _ (filter_tick : Bool) (distance : DepthMarketDataField → ℕ) where
  abbrev pub same_volume : Option DepthMarketDataField → DepthMarketDataField → Bool
  same_volume none tick = true
  same_volume (some pre) tick = pre.volume == tick.volume

  unfoldable pub is_valid_tick : RingBuffer DepthMarketDataField → DepthMarketDataField → Bool
  is_valid_tick rb tick =
      if not filter_tick
      then true
      else if same_volume (get_latest_tick rb) tick
      then not (leb (5 * 60 * 1000) (distance tick))
      else true

  -- `none` is a call of qFatal: a symbol without a ring buffer.
  unfoldable pub on_rtn_depth_market_data : DepthMarketDataField → Ticks → Option Ticks
  on_rtn_depth_market_data tick ticks = elim (find tick.instrument_id ticks.rbs) [
    | none ↦ none
    | some rb ↦ some (
        if not (is_valid_tick rb tick) then ticks else record {
          rbs = modify tick.instrument_id (put_item tick) ticks.rbs;
          got = (tick, get_latest_tick rb) ∷ ticks.got;
        })
  ]

  abbrev accepted : DepthMarketDataField → RingBuffer DepthMarketDataField → Ticks → Ticks
  accepted tick rb ticks = record {
    rbs = modify tick.instrument_id (put_item tick) ticks.rbs;
    got = (tick, get_latest_tick rb) ∷ ticks.got;
  }

  on_rtn_depth_market_data_valid :
      (tick : DepthMarketDataField) (ticks : Ticks) (rb : RingBuffer DepthMarketDataField)
      → find tick.instrument_id ticks.rbs ≡ some rb
      → is_valid_tick rb tick ≡ true
      → on_rtn_depth_market_data tick ticks ≡ some (accepted tick rb ticks)
  unfolding on_rtn_depth_market_data
  on_rtn_depth_market_data_valid tick ticks rb e v = rw (e, on_rtn_depth_market_data) (rw v refl)

  on_rtn_depth_market_data_invalid :
      (tick : DepthMarketDataField) (ticks : Ticks) (rb : RingBuffer DepthMarketDataField)
      → find tick.instrument_id ticks.rbs ≡ some rb
      → is_valid_tick rb tick ≡ false
      → on_rtn_depth_market_data tick ticks ≡ some ticks
  unfolding on_rtn_depth_market_data
  on_rtn_depth_market_data_invalid tick ticks rb e v = rw (e, on_rtn_depth_market_data) (rw v refl)

  -- What the arrival of a tick leaves, if it is valid and if it is not.
  abbrev pub Arrived :
      Bool → DepthMarketDataField → RingBuffer DepthMarketDataField → Ticks → Ticks → Type 0
  Arrived false tick rb ticks ticks' = ticks' ≡ ticks
  Arrived true tick rb ticks ticks' =
      (ticks'.got ≡ (tick, get_latest_tick rb) ∷ ticks.got)
      × ((rb' : RingBuffer DepthMarketDataField) × (find tick.instrument_id ticks'.rbs ≡ some rb')
          × (get_latest_tick rb' ≡ some tick)
          × (get_pre_latest_tick rb' ≡ get_latest_tick rb))
      × ((k : Text) → text_eq tick.instrument_id k ≡ false → find k ticks'.rbs ≡ find k ticks.rbs)

  -- A tick of a symbol whose buffer has two slots or more is handled to the end: a valid one is
  -- emitted with the latest tick so far and becomes the latest in its buffer, with the former
  -- latest before it, and other buffers stay as they are; an invalid one changes nothing.
  pub on_rtn_depth_market_data-latest :
      (tick : DepthMarketDataField) (ticks : Ticks) (rb : RingBuffer DepthMarketDataField)
      → find tick.instrument_id ticks.rbs ≡ some rb
      → IsAllocated rb
      → 2 ≤ rb.item_count
      → Returns
          (Arrived (is_valid_tick rb tick) tick rb ticks)
          (on_rtn_depth_market_data tick ticks)
  on_rtn_depth_market_data-latest tick ticks rb e w two =
      elim (Bool-cases (is_valid_tick rb tick)) [
        | inl v ↦ (
          accepted tick rb ticks,
          on_rtn_depth_market_data_valid tick ticks rb e v,
          rw v (
            refl,
            (
              put_item tick rb,
              find-stored tick ticks rb e,
              latest-put_item tick rb w,
              pre_latest-put_item tick rb w two,
            ),
            λ k other.
                rw (find-modify tick.instrument_id k (put_item tick) ticks.rbs) (rw other refl),
          ),
        )
        | inr v ↦ (ticks, on_rtn_depth_market_data_invalid tick ticks rb e v, rw v refl)
      ]
