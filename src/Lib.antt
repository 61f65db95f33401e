-- ===== src/Lib.antt =====
-- bftrader: trading gateways for the Chinese futures market, a simulated exchange that replays
-- stored ticks, a datafeed that stores them, and a runner for strategies. The programs speak the
-- messages of sdk/bfgateway.proto and sdk/bfdatafeed.proto with each other; inside each program
-- a manager object lives in one thread and handles signals and slots one at a time. A manager is
-- a record here, a slot is a function from the arguments and the state to the new state, and
-- what it emits is appended to the state; a result none is a stop of the program (a null pointer
-- that is read, or a call of qFatal).
--
-- - Prelude.antt: Boolean tests, options, lists, texts (lists of code units), 32-bit words with
--   their wrap-around, maps with a text as key (QMap of Qt) and the decimal text of an int.
-- - Proto.antt: the enumerations and messages of sdk/bfgateway.proto.
-- - ProtoUtils.antt: cta/protoutils.cpp and its copy datafeed/protoutils.cpp, the texts of the
--   enumerations.
-- - Datafeed.antt: DbService of datafeed/dbservice.cpp, the database of ticks, bars and
--   contracts. Store.antt has the interfaces of leveldb, protobuf and grpc with their laws;
--   Messages.antt the messages of sdk/bfdatafeed.proto; Keys.antt the keys; Insert.antt dbInit
--   and the inserts; Scan.antt the loops over an iterator; Ticks.antt, Bars.antt and
--   Contracts.antt the queries and deletes; Lifecycle.antt opens, closes and removes the
--   database; Rpc.antt has the calls of clients in datafeed/rpcservice.cpp. Ranges.antt,
--   Contents.antt, Queries.antt, Counts.antt and Outcomes.antt carry the proofs; Memory.antt,
--   Numbers.antt and Encoding.antt are a database in memory and an encoding that satisfy the
--   laws, and Examples.antt and CountExamples.antt run them.
-- - Backtest.antt: GatewayMgr of btgateway/gatewaymgr.cpp, the simulated exchange. State.antt
--   has its fields, its identifiers, start, stop and the queries; Orders.antt sendOrder,
--   sendOrderWithId and cancelOrder; Matching.antt onGotTick with onLongOpen, onShortOpen,
--   onLongClose and onShortClose. Fills.antt, Frozen.antt, Ticks.antt, Traded.antt, Keys.antt,
--   Safety.antt and Invariant.antt carry the proofs, Session.antt the calls one after another,
--   Outcomes.antt what a tick and a cancel leave, Examples.antt a session with concrete orders.
--   Replay.antt is btgateway/dbservice.cpp, the thread that replays stored ticks, with proofs in
--   its child modules.
-- - Ctp.antt: the gateway to the trading interface CTP. RingBuffer.antt is base/ringbuffer.h
--   with the reads of ctpgateway/gatewaymgr.cpp, Commands.antt the queue of requests and
--   Sessions.antt the state machines of the two sessions in ctpgateway/gatewaymgr.cpp,
--   MarketData.antt the arrival of a tick in ctpgateway/mdsm.cpp, Reports.antt the reports on
--   orders, trades and positions in ctpgateway/tdsm.cpp, Contracts.antt the contracts and ring
--   buffers that the answer to a query for instruments fills, Requests.antt the requests of
--   ctpgateway/tdsm.cpp and ctpgateway/mdsm.cpp and the slots that pass a call on to them,
--   Callbacks.antt the callbacks on connections, logins and errors, Rpc.antt the calls of
--   clients in ctpgateway/rpcservice.cpp, Reports/Account.antt the account, Translate.antt and
--   OrderId.antt ctpgateway/ctputils.cpp; the proofs are in their child modules, Examples.antt
--   and Runs.antt run them.
-- - SafeQueue.antt: base/safequeue.h, the queue between a push service and the thread of one
--   stream. Streams.antt is that thread, ConnectPush of ctpgateway/rpcservice.cpp, against
--   pushes and shutdowns as a step relation; Invariant.antt and Delivery.antt have the proofs.
-- - Push.antt: the push services. Messages.antt has what is pushed, Clients.antt and
--   Service.antt are ctpgateway/pushservice.cpp and its copy in btgateway, Gateways.antt what
--   init() connects in each of the two, Cta.antt is cta/pushservice.cpp. Subscriptions.antt,
--   Received.antt, Queries.antt and Lifetimes.antt carry the proofs.
-- - Services.antt: servicemgr.cpp, the same file in the five programs: the threads and their
--   services. Current.antt and Shutdown.antt carry the proofs.
-- - Clients.antt: GatewayMgr of cta/gatewaymgr.cpp and its copy in datarecorder, the clients of
--   the gateways. Dispatch.antt is the reader thread of a client, DbService.antt is
--   cta/dbservice.cpp and Recorder.antt datarecorder/pushservice.cpp; Threads.antt carries
--   proofs.
-- - Profile.antt: the settings of a program in profile.cpp.
--
-- The programs meet in the messages: what Datafeed answers to a query is what Backtest.Replay
-- emits to the exchange. A slot of Push.Service enqueues in a queue of SafeQueue, whose stream
-- SafeQueue.Streams writes; what is delivered is read in Clients.Dispatch, and of that
-- Clients.Recorder sends to the slots of Datafeed. The slots of Backtest reach Push.Gateways as
-- signals.
--
-- Third-party code: leveldb is a record of its operations with the laws of its documentation
-- (entries in the order of their keys, Seek at the first key at or past the target, a batch
-- applied in its order); a message of protobuf reads back from its text; the grpc stream answers
-- each write with true while it is open. The interface of CTP answers a request with an int, the
-- clock and the decoder of Chinese text are arguments.
--
-- Qt is modelled as a standard library: QString as its code units, QMap in the order of its
-- keys, sprintf of %s and %d, split, trimmed and toInt with the white space of ASCII.
--
-- Numbers: an int32 is its bit pattern below 2 ^ 32 and every sum or difference wraps as the
-- machine does. A double is its 64-bit pattern, and the arithmetic of doubles is the parameter
-- Fpu, of which no law is used: the theorems hold whatever the rounding. The decimal text of an
-- int takes ten rounds, which is the number of digits of 2 ^ 31; every other loop is structural
-- recursion. The local time is an argument.
--
-- Concurrency: the slots of one thread run one after another, so a manager is a sequence of
-- steps; the threads of a stream interleave in SafeQueue.Streams, where one step is what holds
-- the mutex. A client that is deleted waits a second before it frees its queue; the free itself
-- is not modelled.
--
-- Not modelled: the widgets, the log, the grpc server with its threads, the paths and files of
-- the operating system, and the third-party libraries.
pub mod Prelude
pub mod Proto
pub mod Backtest
pub mod ProtoUtils
pub mod Datafeed
pub mod Ctp
pub mod SafeQueue
pub mod Push
pub mod Services
pub mod Clients
pub mod Profile
