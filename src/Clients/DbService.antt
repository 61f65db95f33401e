-- ===== src/Clients/DbService.antt =====
-- cta/dbservice.cpp: the database and the datafeed client of the strategy process, with the thread
-- checks of its slots.
use bftrader.Prelude.{
  ℕ, ◌+◌, ◌≡◌, refl, Bool, true, false, Option, none, some, List, if◌then◌else◌, ◌>>=◌, Text, lit,
  QMap, insert, arith, Returns,
}
use bftrader.Datafeed.Messages.{BfContractData, BfBarData, BfGetContractReq, BfGetBarReq}
use bftrader.Proto.{BfTickData, BfGetTickReq}
use bftrader.Services.{ServiceMgr, Threads, db, push, main, is_current_on, check_current_on}
use bftrader.Services.Current.{IsUp, Distinct, is_current_on-type_of}
use bftrader.Clients.{Answer, read_all}

-- `database` is db_, by the contents of leveldb; `client` is client_, by the id of the client, and
-- `timer` tells whether pingTimer_ is set; `pings` counts the calls of Ping.
pub record DbService : Type 0 where
  pub database : Option (QMap Text)
  pub client : Option Text
  pub timer : Bool
  pub pings : ℕ

-- `none` is a call of qFatal, here and below.
unfoldable pub get_db : DbService → Option (QMap Text)
get_db s = s.database

-- `status` is the result of leveldb::DB::Open.
unfoldable pub db_open : Option (QMap Text) → DbService → Option DbService
db_open status s = elim s.database [
  | some m ↦ some s
  | none ↦ elim status [ none ↦ none | some m ↦ some (record s { database = some m }) ]
]

unfoldable pub db_close : DbService → DbService
db_close s = record s { database = none }

-- The messages of an empty order and of an empty trade, as protobuf writes them, are given.
module _ (null_order null_trade : Text) where
  unfoldable pub db_init : DbService → Option DbService
  db_init s = do
    m ← s.database
    let orders = insert (lit "order=") null_order (insert (lit "order+") null_order m)
    some (record s {
      database = some (insert (lit "trade=") null_trade (insert (lit "trade+") null_trade orders));
    })

  -- `cur` is the current thread.
  unfoldable pub init : ℕ → ServiceMgr → Option (QMap Text) → DbService → Option DbService
  unfolding db_open db_init
  init cur mgr status s = do
    _ ← check_current_on db cur mgr
    s' ← db_open status s
    s'' ← db_init s'
    some (record s'' { timer = true })

unfoldable pub shutdown : ℕ → ServiceMgr → DbService → Option DbService
unfolding db_close
shutdown cur mgr s = do
  _ ← check_current_on db cur mgr
  some (db_close (record s { timer = false; client = none }))

unfoldable pub connect_datafeed : ℕ → ServiceMgr → Text → DbService → Option DbService
connect_datafeed cur mgr client_id s = do
  _ ← check_current_on push cur mgr
  some (record s { client = some client_id })

unfoldable pub disconnect_datafeed : ℕ → ServiceMgr → DbService → Option DbService
disconnect_datafeed cur mgr s = do
  _ ← check_current_on push cur mgr
  some (record s { client = none })

unfoldable pub on_ping : ℕ → ServiceMgr → DbService → Option DbService
on_ping cur mgr s = do
  _ ← check_current_on push cur mgr
  some (elim s.client [ none ↦ s | some id ↦ record s { pings = 1 + s.pings } ])

-- A query of the datafeed with a stream; it is not for the main thread.
abbrev pub query :
    {R A : Type 0}
    → (R → Answer A)
    → ℕ
    → ServiceMgr
    → R
    → DbService
    → List A
    → Option (Bool × List A)
query answer cur mgr req s resps = do
  on_main ← is_current_on main cur mgr
  if on_main
      then none
      else some (elim s.client [
        | none ↦ (false, resps)
        | some id ↦ let a = answer req in (a.is_ok, read_all a.items resps)
      ])

module _ (cur : ℕ) (mgr : ServiceMgr) where
  unfoldable pub get_tick :
      (BfGetTickReq → Answer BfTickData)
      → BfGetTickReq
      → DbService
      → List BfTickData
      → Option (Bool × List BfTickData)
  unfolding read_all
  get_tick answer req s resps = query answer cur mgr req s resps

  unfoldable pub get_bar :
      (BfGetBarReq → Answer BfBarData)
      → BfGetBarReq
      → DbService
      → List BfBarData
      → Option (Bool × List BfBarData)
  unfolding read_all
  get_bar answer req s resps = query answer cur mgr req s resps

  unfoldable pub get_contract :
      (BfGetContractReq → Answer BfContractData)
      → BfGetContractReq
      → DbService
      → List BfContractData
      → Option (Bool × List BfContractData)
  unfolding read_all
  get_contract answer req s resps = query answer cur mgr req s resps

abbrev pub new_db_service : DbService
new_db_service = record { database = none; client = none; timer = false; pings = 0 }

check_db-db_thread :
    (t : Threads) (mgr : ServiceMgr)
    → IsUp t mgr
    → Distinct t
    → check_current_on db t.for_db mgr ≡ some tt
unfolding check_current_on
check_db-db_thread t mgr u d = rw (is_current_on-type_of t db t.for_db mgr u d) (ground arith)

-- The thread check of a slot that wants the push thread fails in the database thread.
check_push-db_thread :
    (t : Threads) (mgr : ServiceMgr)
    → IsUp t mgr
    → Distinct t
    → check_current_on push t.for_db mgr ≡ none
unfolding check_current_on
check_push-db_thread t mgr u d = rw (is_current_on-type_of t push t.for_db mgr u d) (ground arith)

slots-db_thread :
    (t : Threads) (mgr : ServiceMgr) (client_id : Text) (s : DbService)
    → IsUp t mgr
    → Distinct t
    → (on_ping t.for_db mgr s ≡ none)
      × (connect_datafeed t.for_db mgr client_id s ≡ none)
      × (disconnect_datafeed t.for_db mgr s ≡ none)
unfolding on_ping connect_datafeed disconnect_datafeed
slots-db_thread t mgr client_id s u d = let e = check_push-db_thread t mgr u d in (rw e, rw e, rw e)

-- In a running process with distinct threads, init() of the strategy database succeeds in the
-- database thread and starts the timer, and then the ping of that timer and the two slots of the
-- datafeed, which run in the same thread, stop the program.
pub slots-init :
    (null_order null_trade : Text) (t : Threads) (mgr : ServiceMgr) (stored : QMap Text)
    (client_id : Text)
    → IsUp t mgr
    → Distinct t
    → Returns
        (λ s.
          (s.timer ≡ true)
          × (on_ping t.for_db mgr s ≡ none)
          × (connect_datafeed t.for_db mgr client_id s ≡ none)
          × (disconnect_datafeed t.for_db mgr s ≡ none))
        (init null_order null_trade t.for_db mgr (some stored) new_db_service)
unfolding init db_open db_init
slots-init null_order null_trade t mgr stored client_id u d =
    let s : DbService = record {
      database = some (
          insert (lit "trade=") null_trade (
            insert (lit "trade+") null_trade
              (insert (lit "order=") null_order (insert (lit "order+") null_order stored))));
      client = none;
      timer = true;
      pings = 0;
    } in
    let (a, b, c) = slots-db_thread t mgr client_id s u d in
    (s, rw (check_db-db_thread t mgr u d) refl, (refl, a, b, c))
