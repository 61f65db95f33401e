-- ===== src/Datafeed/Rpc/Examples.antt =====
-- A datafeed that stores a tick, is cleaned and stores it again.
use bftrader.Prelude.{refl, none, some, [], ◌∷◌, Returns}
use bftrader.Datafeed.Memory.{Memory, memory, memory_laws}
use bftrader.Datafeed.Encoding.{ticks, bars, contracts, ticks_law, bars_law, contracts_law}
use bftrader.Datafeed.Contents.{inserts_tick}
use bftrader.Datafeed.Examples.{empty, empty-IsTyped, tick}
use bftrader.Datafeed.Lifecycle.{DbService}
use bftrader.Datafeed.Rpc.{writes, cleans, run_all, IsServing, run_all-IsServing}

abbrev opened_empty : DbService Memory
opened_empty = record { db = some empty; disk = none; opens = 1 }

run_all-IsServing_example :
    Returns
      (IsServing ticks bars contracts memory empty memory_laws ticks_law bars_law contracts_law
        empty-IsTyped)
      (run_all ticks bars contracts memory empty
        (writes (inserts_tick tick) ∷ cleans ∷ writes (inserts_tick tick) ∷ [])
        opened_empty)
run_all-IsServing_example =
    run_all-IsServing ticks bars contracts memory empty memory_laws ticks_law bars_law contracts_law
      empty-IsTyped (writes (inserts_tick tick) ∷ cleans ∷ writes (inserts_tick tick) ∷ [])
      opened_empty (empty, refl, empty-IsTyped)
