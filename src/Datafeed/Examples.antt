-- ===== src/Datafeed/Examples.antt =====
-- Runs of the database of datafeed/dbservice.cpp in memory, and the theorems at concrete messages.
use bftrader.Prelude.{
  ℕ, Bool, true, none, some, [], ◌∷◌, map, ◌≡◌, refl, lit, find, text_eq, text_ltb, values_within,
  Returns, Returns_at, from_key,
}
use bftrader.Proto.{BfTickData, product_futures}
use bftrader.ProtoUtils.{period_m05, format_period}
use bftrader.Datafeed.Messages.{
  BfBarData, BfContractData, BfGetBarReq, BfDeleteTickReq, BfDeleteBarReq,
}
use bftrader.Datafeed.Store.{put}
use bftrader.Datafeed.Keys.{
  tick_key, bar_key, first_tick_key, last_tick_key, first_bar_key, last_bar_key,
}
use bftrader.Datafeed.Insert.{
  insert_tick, insert_bar, insert_contract, invalid_bar, null_tick, null_bar, null_contract,
  invalid_tick, invalid_contract,
}
use bftrader.Datafeed.Contents.{IsTyped, handle-IsTyped, handle, inserts_tick, inserts_bar}
use bftrader.Datafeed.Ticks.{get_tick_from_to, get_tick, delete_tick, incomplete}
use bftrader.Datafeed.Bars.{get_bar_from_to, get_bar, delete_bar}
use bftrader.Datafeed.Queries.{get_tick-values_within, get_bar-values_within, find-delete_tick}
use bftrader.Datafeed.Outcomes.{
  get_tick-insert_tick, get_tick-delete_tick, get_contract-insert_contract, find-delete_bar,
  exactly, same_range,
}
use bftrader.Datafeed.Contracts.{get_contract}
use bftrader.Datafeed.Scan.{scan_to}
use bftrader.Datafeed.Memory.{place, Memory, memory, memory_laws}
use bftrader.Datafeed.Encoding.{ticks, bars, contracts, ticks_law, bars_law, contracts_law}

abbrev pub empty : Memory
empty = ([], tt)

pub empty-IsTyped : IsTyped ticks bars contracts (memory_laws.entries empty)
unfolding find
empty-IsTyped k v e = cc

abbrev pub tick : BfTickData
tick = record null_tick {
  symbol = lit "rb";
  exchange = lit "SHFE";
  actiondate = lit "20160801";
  ticktime = lit "09:00:00.500";
  lastprice = 2490;
}

abbrev pub all_open : ℕ → Bool
all_open n = true

stored_tick :
    Returns
      (λ db. IsTyped ticks bars contracts (memory_laws.entries db))
      (handle ticks bars contracts memory (inserts_tick tick) empty)
stored_tick =
    handle-IsTyped ticks bars contracts memory memory_laws ticks_law bars_law contracts_law
      (inserts_tick tick) empty empty-IsTyped

abbrev bar : BfBarData
bar = record null_bar {
  symbol = lit "rb";
  exchange = lit "SHFE";
  period = period_m05;
  actiondate = lit "20160801";
  bartime = lit "09:05:00";
  closeprice = 2495;
}

abbrev pub contract : BfContractData
contract = record null_contract {
  symbol = lit "rb";
  exchange = lit "SHFE";
  name = lit "steel";
  productclass = product_futures;
}

-- A tick and then a bar are stored.
abbrev with_tick : Memory
with_tick =
    memory.write
      (put (tick_key (lit "rb") (lit "SHFE") (lit "20160801") (lit "09:00:00.500"))
          (ticks.bytes tick)
        ∷ [])
      empty

abbrev pub held : Memory
held =
    memory.write
      (put (bar_key (lit "rb") (lit "SHFE") period_m05 (lit "20160801") (lit "09:05:00"))
          (bars.bytes bar)
        ∷ [])
      with_tick

pub held-IsTyped : IsTyped ticks bars contracts (memory_laws.entries held)
unfolding handle insert_tick insert_bar invalid_tick invalid_bar
held-IsTyped =
    let law =
      handle-IsTyped ticks bars contracts memory memory_laws ticks_law bars_law contracts_law in
    Returns_at _ _
      (law (inserts_bar bar) with_tick
        (Returns_at _ _ (law (inserts_tick tick) empty empty-IsTyped) refl))
      refl

abbrev pub whole_day : BfDeleteTickReq
whole_day = record {
  symbol = lit "rb";
  exchange = lit "SHFE";
  todate = lit "20160801";
  totime = lit "23:59:59.999";
  fromdate = lit "20160801";
  fromtime = lit "00:00:00.000";
}

abbrev bars_of_day : BfGetBarReq
bars_of_day = record {
  symbol = lit "rb";
  exchange = lit "SHFE";
  period = period_m05;
  todate = lit "20160801";
  totime = lit "23:59:59";
  count = 0;
  fromdate = lit "20160801";
  fromtime = lit "00:00:00";
}

abbrev delete_bars_of_day : BfDeleteBarReq
delete_bars_of_day = record {
  symbol = lit "rb";
  exchange = lit "SHFE";
  period = period_m05;
  todate = lit "20160801";
  totime = lit "23:59:59";
  fromdate = lit "20160801";
  fromtime = lit "00:00:00";
}

-- The tick and the bar are found.
pub get_tick_test : get_tick memory ticks all_open (same_range whole_day) held ≡ some (tick ∷ [])
unfolding place get_tick get_tick_from_to scan_to tick_key first_tick_key last_tick_key from_key
    text_ltb text_eq bar_key
get_tick_test = refl

get_bar_test : get_bar memory bars all_open bars_of_day held ≡ some (bar ∷ [])
unfolding place get_bar get_bar_from_to scan_to bar_key tick_key first_bar_key last_bar_key from_key
    text_ltb text_eq format_period
get_bar_test = refl

get_tick-values_within_example :
    Returns
      (λ ts.
        map ticks.bytes ts
        ≡ values_within
            (tick_key (lit "rb") (lit "SHFE") (lit "20160801") (lit "00:00:00.000"))
            (tick_key (lit "rb") (lit "SHFE") (lit "20160801") (lit "23:59:59.999"))
            (memory_laws.entries held))
      (get_tick memory ticks all_open (same_range whole_day) held)
get_tick-values_within_example =
    get_tick-values_within memory memory_laws ticks bars contracts all_open (λ n. refl) ticks_law
      (same_range whole_day) held refl refl refl held-IsTyped

get_bar-values_within_example :
    Returns
      (λ bs.
        map bars.bytes bs
        ≡ values_within
            (bar_key (lit "rb") (lit "SHFE") period_m05 (lit "20160801") (lit "00:00:00"))
            (bar_key (lit "rb") (lit "SHFE") period_m05 (lit "20160801") (lit "23:59:59"))
            (memory_laws.entries held))
      (get_bar memory bars all_open bars_of_day held)
get_bar-values_within_example =
    get_bar-values_within memory memory_laws ticks bars contracts all_open (λ n. refl) bars_law
      bars_of_day held refl refl refl held-IsTyped

find-delete_tick_example :
    find
      (tick_key (lit "rb") (lit "SHFE") (lit "20160801") (lit "09:00:00.500"))
      (memory_laws.entries (delete_tick memory whole_day held))
    ≡ none
unfolding incomplete tick_key text_ltb
find-delete_tick_example =
    find-delete_tick memory memory_laws whole_day held
      (tick_key (lit "rb") (lit "SHFE") (lit "20160801") (lit "09:00:00.500")) refl

get_tick-insert_tick_example :
    (db : Memory) × (insert_tick ticks bars contracts memory tick held ≡ some db)
    × (get_tick memory ticks all_open (exactly tick) db ≡ some (tick ∷ []))
unfolding invalid_tick
get_tick-insert_tick_example =
    get_tick-insert_tick memory memory_laws ticks bars contracts ticks_law bars_law contracts_law
      all_open (λ n. refl) tick held refl held-IsTyped

deleted_run :
    get_tick memory ticks all_open (same_range whole_day) (delete_tick memory whole_day held)
    ≡ some []
unfolding incomplete
deleted_run =
    get_tick-delete_tick memory memory_laws ticks bars contracts ticks_law bars_law contracts_law
      all_open (λ n. refl) whole_day held refl held-IsTyped

get_contract-insert_contract_example :
    (db : Memory) × (insert_contract ticks bars contracts memory contract held ≡ some db)
    × (get_contract contracts all_open memory
          (record { symbol = lit "rb"; exchange = lit "SHFE" })
          db
        ≡ some (contract ∷ []))
unfolding invalid_contract text_eq
get_contract-insert_contract_example =
    get_contract-insert_contract memory memory_laws ticks bars contracts ticks_law bars_law
      contracts_law all_open (λ n. refl) contract held refl refl

find-delete_bar_example :
    find
      (lit "bar-rb-SHFE-m05-20160801-09:05:00")
      (memory_laws.entries (delete_bar memory delete_bars_of_day held))
    ≡ find (lit "bar-rb-SHFE-m05-20160801-09:05:00") (memory_laws.entries held)
find-delete_bar_example =
    find-delete_bar memory memory_laws delete_bars_of_day held (lit "rb-SHFE-m05-20160801-09:05:00")
