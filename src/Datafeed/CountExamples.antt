-- ===== src/Datafeed/CountExamples.antt =====
-- datafeed/dbservice.cpp: a query for a number of ticks after the contract has been inserted.
use bftrader.Prelude.{
  [], ◌∷◌, map, ◌≡◌, refl, lit, find, text_eq, text_ltb, from_key, Returns, Returns_at, arith,
}
use bftrader.Proto.{BfGetTickReq}
use bftrader.Datafeed.Store.{put}
use bftrader.Datafeed.Keys.{
  tick_key, first_tick_key, last_tick_key, first_bar_key, last_bar_key, contract_key,
}
use bftrader.ProtoUtils.{format_period}
use bftrader.Datafeed.Insert.{
  insert_tick, invalid_tick, null_tick, invalid_contract, insert_contract, contract_batch,
  bar_marks,
}
use bftrader.Datafeed.Contents.{IsTyped, handle-IsTyped, handle, inserts_contract, inserts_tick}
use bftrader.Datafeed.Ticks.{get_tick}
use bftrader.Datafeed.Counts.{get_tick-values_before, values_before}
use bftrader.Datafeed.Memory.{Memory, memory, memory_laws, place}
use bftrader.Datafeed.Encoding.{ticks, bars, contracts, ticks_law, bars_law, contracts_law}
use bftrader.Datafeed.Examples.{tick, empty, empty-IsTyped, contract, all_open}

abbrev listed : Memory
listed = memory.write (contract_batch ticks bars contracts contract) empty

listed-IsTyped : IsTyped ticks bars contracts (memory_laws.entries listed)
unfolding handle insert_contract invalid_contract
listed-IsTyped =
    Returns_at _ _
      (handle-IsTyped ticks bars contracts memory memory_laws ticks_law bars_law contracts_law
        (inserts_contract contract) empty empty-IsTyped)
      refl

-- And a tick of the contract.
abbrev stocked : Memory
stocked =
    memory.write
      (put (tick_key (lit "rb") (lit "SHFE") (lit "20160801") (lit "09:00:00.500"))
          (ticks.bytes tick)
        ∷ [])
      listed

stocked-IsTyped : IsTyped ticks bars contracts (memory_laws.entries stocked)
unfolding handle insert_tick invalid_tick
stocked-IsTyped =
    Returns_at _ _
      (handle-IsTyped ticks bars contracts memory memory_laws ticks_law bars_law contracts_law
        (inserts_tick tick) listed listed-IsTyped)
      refl

abbrev two_from_nine : BfGetTickReq
two_from_nine = record {
  symbol = lit "rb";
  exchange = lit "SHFE";
  todate = [];
  totime = [];
  count = 2;
  fromdate = lit "20160801";
  fromtime = lit "09:00:00.000";
}

get_tick-values_before_example :
    Returns
      (λ ts.
        map ticks.bytes ts
        ≡ values_before 2 (last_tick_key (lit "rb") (lit "SHFE")) (
            from_key
              (tick_key (lit "rb") (lit "SHFE") (lit "20160801") (lit "09:00:00.000"))
              (memory_laws.entries stocked)))
      (get_tick memory ticks all_open two_from_nine stocked)
unfolding contract_batch bar_marks place find text_eq text_ltb first_tick_key last_tick_key
    first_bar_key last_bar_key contract_key format_period tick_key
get_tick-values_before_example =
    get_tick-values_before memory memory_laws ticks bars contracts all_open (λ n. refl) ticks_law
      two_from_nine stocked (ticks.bytes null_tick) refl refl refl (omega arith) refl
      stocked-IsTyped
