-- ===== src/Datafeed/Rpc.antt =====
-- datafeed/rpcservice.cpp: the calls of clients. Those that write are posted to the slots of DbService,
-- the others read the database at once, in a thread of grpc.
pub mod Examples
use bftrader.Prelude.{
  ℕ, ◌≡◌, refl, ◌∙◌, Bool, true, false, Option, none, some, List, [], ◌∷◌, ◌++◌, ◌>>=◌, Returns,
  if◌then◌else◌,
}
use bftrader.Proto.{BfTickData, BfGetTickReq}
use bftrader.Datafeed.Messages.{
  BfBarData, BfContractData, BfDeleteTickReq, BfDeleteBarReq, BfDeleteContractReq, BfGetBarReq,
  BfGetContractReq,
}
use bftrader.Datafeed.Store.{Leveldb, IsLeveldb, Codec, IsCodec}
use bftrader.Datafeed.Insert.{db_init}
use bftrader.Datafeed.Ticks.{get_tick}
use bftrader.Datafeed.Bars.{get_bar}
use bftrader.Datafeed.Contracts.{get_contract}
use bftrader.Datafeed.Contents.{
  Request, initializes, inserts_tick, inserts_bar, inserts_contract, deletes_tick, deletes_bar,
  deletes_contract, handle, IsTyped, handle-IsTyped,
}
use bftrader.Datafeed.Lifecycle.{DbService, clean_all, clean_all-db_init, get_db}

-- A slot that is posted.
pub data Posted : Type 0 where
  writes : Request → Posted
  cleans : Posted

-- The service and the slots posted to it, the oldest first.
pub record Feed (Db : Type 0) : Type 0 where
  pub service : DbService Db
  pub posted : List Posted

module _ {Db : Type 0} where
  abbrev pub invoke : Posted → Feed Db → Feed Db
  invoke x f = record f { posted = f.posted ++ x ∷ [] }

  unfoldable pub rpc_insert_tick : BfTickData → Feed Db → Feed Db
  rpc_insert_tick request = invoke (writes (inserts_tick request))

  unfoldable pub rpc_insert_bar : BfBarData → Feed Db → Feed Db
  rpc_insert_bar request = invoke (writes (inserts_bar request))

  unfoldable pub rpc_insert_contract : BfContractData → Feed Db → Feed Db
  rpc_insert_contract request = invoke (writes (inserts_contract request))

  unfoldable pub rpc_delete_tick : BfDeleteTickReq → Feed Db → Feed Db
  rpc_delete_tick request = invoke (writes (deletes_tick request))

  unfoldable pub rpc_delete_bar : BfDeleteBarReq → Feed Db → Feed Db
  rpc_delete_bar request = invoke (writes (deletes_bar request))

  unfoldable pub rpc_delete_contract : BfDeleteContractReq → Feed Db → Feed Db
  rpc_delete_contract request = invoke (writes (deletes_contract request))

  unfoldable pub rpc_clean_all : Feed Db → Feed Db
  rpc_clean_all = invoke cleans

module _ {Db : Type 0} (ticks : Codec BfTickData) (bars : Codec BfBarData)
    (contracts : Codec BfContractData) (ldb : Leveldb Db) (fresh : Db) where
  -- The calls that read; `none` is a call of qFatal, or a null pointer.
  unfoldable pub rpc_get_tick : (ℕ → Bool) → BfGetTickReq → Feed Db → Option (List BfTickData)
  rpc_get_tick accepts request f = do x ← f.service.db; get_tick ldb ticks accepts request x

  unfoldable pub rpc_get_bar : (ℕ → Bool) → BfGetBarReq → Feed Db → Option (List BfBarData)
  rpc_get_bar accepts request f = do x ← f.service.db; get_bar ldb bars accepts request x

  unfoldable pub rpc_get_contract :
      (ℕ → Bool) → BfGetContractReq → Feed Db → Option (List BfContractData)
  rpc_get_contract accepts request f = do
    x ← f.service.db
    get_contract contracts accepts ldb request x

  -- The database thread runs a slot; leveldb opens and destroys without an error.
  unfoldable pub run : Posted → DbService Db → Option (DbService Db)
  run (writes request) s = do
    x ← s.db
    x' ← handle ticks bars contracts ldb request x
    some (record s { db = some x' })
  run cleans s = clean_all ticks bars contracts ldb fresh true true s

  abbrev pub run_all : List Posted → DbService Db → Option (DbService Db)
  run_all [] s = some s
  run_all (p ∷ ps) s = do s' ← run p s; run_all ps s'

  module _ (law : IsLeveldb ldb) (tl : IsCodec ticks) (bl : IsCodec bars) (cl : IsCodec contracts)
      (new_typed : IsTyped ticks bars contracts (law.entries fresh)) where
    -- The service has its database open, with values that their keys promise.
    abbrev pub IsServing : DbService Db → Type 0
    IsServing s = Returns (λ x. IsTyped ticks bars contracts (law.entries x)) s.db

    initialized :
        (x : Option Db)
        → x ≡ some (db_init ticks bars contracts ldb fresh)
        → Returns (λ x. IsTyped ticks bars contracts (law.entries x)) x
    unfolding handle
    initialized x d =
        let (y, e, t) =
          handle-IsTyped ticks bars contracts ldb law tl bl cl initializes fresh new_typed in
        (y, d ∙ e, t)

    run-IsServing : (p : Posted) (s : DbService Db) → IsServing s → Returns IsServing (run p s)
    unfolding run
    run-IsServing (writes request) s (x, e, t) =
        let (x', e', t') = handle-IsTyped ticks bars contracts ldb law tl bl cl request x t in
        (record s { db = some x' }, rw e (rw e' refl), (x', refl, t'))
    run-IsServing cleans s v =
        let (s', e, (d, _)) = clean_all-db_init ticks bars contracts ldb fresh s in
        (s', e, initialized s'.db d)

    -- When the database is open and each value in it is the message that its key promises (a tick
    -- under "tick-", a bar under "bar-", a contract under "contract"), any posted inserts, deletes,
    -- dbInit and cleanAll run to the end, and leave the database open and its values so; a database
    -- that leveldb creates must be so too. The calls of leveldb that open and remove the database
    -- succeed.
    pub run_all-IsServing :
        (ps : List Posted) (s : DbService Db) → IsServing s → Returns IsServing (run_all ps s)
    run_all-IsServing [] s v = (s, refl, v)
    run_all-IsServing (p ∷ ps) s v =
        let (s1, e, v1) = run-IsServing p s v in
        let (s2, e', v2) = run_all-IsServing ps s1 v1 in (s2, rw e e', v2)
