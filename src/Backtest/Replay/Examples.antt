-- ===== src/Backtest/Replay/Examples.antt =====
-- Replays that are stopped, and one that is started twice.
use bftrader.Prelude.{
  ◌+◌, ◌≤◌, ◌≡◌, refl, true, false, none, List, [], ◌∷◌, ◌++◌, map, length, lit, ◌⊎◌, values_within,
}
use bftrader.Proto.{BfTickData}
use bftrader.Datafeed.Keys.{tick_key}
use bftrader.Datafeed.Memory.{memory, memory_laws}
use bftrader.Datafeed.Encoding.{ticks, bars, contracts, ticks_law}
use bftrader.Datafeed.Examples.{tick, all_open, held, held-IsTyped, whole_day, get_tick_test}
use bftrader.Datafeed.Outcomes.{same_range}
use bftrader.Backtest.Replay.{
  Reader, new_reader, round, set_flag, new_db_service, shutdown, on_trade_will_begin, free_client,
  stopped, connect_datafeed, push_tick,
}
use bftrader.Backtest.Replay.Threads.{
  Call, connects, begins, stops, call, call_all, held as kept, shutdown-call_all-apart,
}
use bftrader.Backtest.Replay.Reading.{Reachable, start, later, reads, sets, Reachable-get_tick}

abbrev two_replays : List Call
two_replays = connects (lit "bt") ∷ begins true ∷ stops ∷ begins true ∷ []

shutdown-call_all-apart_example :
    let s = call_all two_replays new_db_service in
    (s.started ≡ s.joined + kept s.client)
    × ((shutdown s).started ≡ (shutdown s).joined)
    × ((shutdown s).client ≡ none)
shutdown-call_all-apart_example = shutdown-call_all-apart two_replays refl

-- The second start loses the first thread.
second_start :
    let s =
      shutdown (call_all (connects (lit "bt") ∷ begins true ∷ begins true ∷ []) new_db_service) in
    (s.started ≡ 2) × (s.joined ≡ 1) × (s.lost ≡ 1)
unfolding call shutdown free_client stopped connect_datafeed on_trade_will_begin push_tick
second_start = (refl, refl, refl)

abbrev stopped_reader : Reader
stopped_reader = round (set_flag (new_reader (tick ∷ [])))

stopped_reader-Reachable : Reachable (tick ∷ []) stopped_reader
unfolding set_flag
stopped_reader-Reachable = later (later start sets) (reads refl)

-- The tick is read after the stop, and not emitted.
Reachable-get_tick_example :
    (skipped : List BfTickData) × (values_within
        (tick_key (lit "rb") (lit "SHFE") (lit "20160801") (lit "00:00:00.000"))
        (tick_key (lit "rb") (lit "SHFE") (lit "20160801") (lit "23:59:59.999"))
        (memory_laws.entries held)
      ≡ map ticks.bytes (stopped_reader.got ++ (skipped ++ stopped_reader.rest)))
    × (length skipped ≤ 1)
    × (((stopped_reader.flag ≡ true) × ((skipped ≡ []) ⊎ (stopped_reader.ended ≡ true)))
        ⊎ ((skipped ≡ []) × ((stopped_reader.ended ≡ false) ⊎ (stopped_reader.rest ≡ []))))
Reachable-get_tick_example =
    Reachable-get_tick memory memory_laws ticks bars contracts all_open (λ n. refl) ticks_law
      (same_range whole_day) held refl refl refl held-IsTyped (tick ∷ []) get_tick_test
      stopped_reader-Reachable
