-- ===== src/Backtest/Replay.antt =====
-- btgateway/dbservice.cpp: the datafeed client of the simulated exchange and the thread that replays
-- stored ticks. The slots run in the database thread, one after another.
pub mod Threads
pub mod Reading
pub mod Examples
use bftrader.Prelude.{
  ℕ, suc, Bool, true, false, not, ◌&&◌, Option, none, some, List, [], ◌∷◌, ◌++◌, if◌then◌else◌,
  Text, lit,
}
use bftrader.Proto.{BfTickData}
use bftrader.Datafeed.Messages.{BfContractData, BfGetContractReq}

-- DatafeedClient; `reading` tells whether reader_thread_ is set.
pub record DatafeedClient : Type 0 where
  pub client_id : Text
  pub reading : Bool
  pub stop_push_tick : Bool

-- `client` is client_, `timer` tells whether pingTimer_ is set, and `got_contracts` counts the
-- emitted signals. The reader threads are counted as they start, as they are joined, and as the
-- pointer to one is lost.
pub record DbService : Type 0 where
  pub client : Option DatafeedClient
  pub timer : Bool
  pub got_contracts : ℕ
  pub pings : ℕ
  pub started : ℕ
  pub joined : ℕ
  pub lost : ℕ

abbrev pub new_db_service : DbService
new_db_service = record {
  client = none;
  timer = false;
  got_contracts = 0;
  pings = 0;
  started = 0;
  joined = 0;
  lost = 0;
}

-- stopPushTick(), on the client and on the counts.
unfoldable pub stopped : DatafeedClient → DbService → DatafeedClient × DbService
stopped c s =
    if c.reading
    then (record c { reading = false; stop_push_tick = true }, record s { joined = suc s.joined })
    else (record c { stop_push_tick = true }, s)

-- The delete of client_, whose destructor stops the reader, and the reset of the pointer.
unfoldable pub free_client : DbService → DbService
unfolding stopped
free_client s = elim s.client [
  | none ↦ s
  | some c ↦ let (_, s') = stopped c s in record s' { client = none }
]

-- A new thread, whatever reader_thread_ is.
unfoldable pub push_tick : DatafeedClient → DbService → DbService
push_tick c s = record s {
  client = some (record c { reading = true; stop_push_tick = false });
  started = suc s.started;
  lost = if c.reading then suc s.lost else s.lost;
}

unfoldable pub init : DbService → DbService
init s = record s { timer = true }

unfoldable pub shutdown : DbService → DbService
unfolding free_client
shutdown s = free_client (record s { timer = false })

unfoldable pub connect_datafeed : Text → DbService → DbService
unfolding free_client
connect_datafeed client_id s =
    let client : DatafeedClient = record {
      client_id = client_id;
      reading = false;
      stop_push_tick = false;
    } in
    record (free_client s) { client = some client }

unfoldable pub disconnect_datafeed : DbService → DbService
unfolding free_client
disconnect_datafeed s = free_client s

unfoldable pub on_ping : DbService → DbService
on_ping s = elim s.client [ none ↦ s | some c ↦ record s { pings = suc s.pings } ]

-- `ok` is the result of the call for all contracts.
unfoldable pub on_trade_will_begin : Bool → DbService → DbService
unfolding push_tick
on_trade_will_begin ok s = elim s.client [
  | none ↦ s
  | some c ↦ if ok then push_tick c (record s { got_contracts = suc s.got_contracts }) else s
]

unfoldable pub on_trade_stopped : DbService → DbService
unfolding stopped
on_trade_stopped s = elim s.client [
  | none ↦ s
  | some c ↦ let (c', s') = stopped c s in record s' { client = some c' }
]

-- The thread check of this one is in Services; `answer` is the datafeed.
unfoldable pub get_contract :
    (BfGetContractReq → Bool × List BfContractData)
    → BfGetContractReq
    → List BfContractData
    → DbService
    → Bool × List BfContractData
get_contract answer req resp s = elim s.client [
  | none ↦ (false, resp)
  | some c ↦ let (ok, found) = answer req in (ok, resp ++ found)
]

-- The reader thread against the flag that another thread sets: what the stream has left, whether
-- the flag is set, what was emitted by gotTick, and whether the loop has ended.
pub record Reader : Type 0 where
  pub rest : List BfTickData
  pub flag : Bool
  pub got : List BfTickData
  pub ended : Bool

abbrev pub new_reader : List BfTickData → Reader
new_reader ticks = record { rest = ticks; flag = false; got = []; ended = false }

-- One round of the loop; an empty list is a Read that fails.
unfoldable pub read_next : List BfTickData → Reader → Reader
read_next [] r = record r { ended = true }
read_next (tick ∷ rest) r =
    if not r.flag
    then record r { rest = rest; got = r.got ++ tick ∷ [] }
    else record r { rest = rest; ended = true }

unfoldable pub round : Reader → Reader
unfolding read_next
round r = read_next r.rest r

unfoldable pub set_flag : Reader → Reader
set_flag r = record r { flag = true }
