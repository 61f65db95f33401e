-- ===== src/Ctp/Rpc.antt =====
-- ctpgateway/rpcservice.cpp: the calls of clients, which run in threads of grpc and post to the slots
-- of the manager, and the thread that serves them. ConnectPush is in SafeQueue.Streams.
pub mod Identifiers
use bftrader.Prelude.{
  ℕ, suc, ◌+◌, ◌<◌, ◌^◌, ◌%◌, ◌≡◌, ◌≢◌, refl, sym, ap, ◌∙◌, Bool, true, false, ◌&&◌, Option, none,
  some, List, [], ◌∷◌, ◌++◌, length, if◌then◌else◌, ◌>>=◌, Text, lit, text_eq, All, add32, arith,
  Returns, QMap, find, contains,
}
use bftrader.Proto.{BfSendOrderReq, BfCancelOrderReq}
use bftrader.Datafeed.Messages.{BfContractData, BfGetContractReq}
use bftrader.Push.Messages.{BfPingData}
use bftrader.Ctp.Translate.{InstrumentField, translate_contract}
use bftrader.Ctp.Contracts.{get_contract}
use bftrader.Ctp.OrderId.{format_bf_order_id, translate_bf_order_id}
use bftrader.Ctp.OrderId.RoundTrip.{translate_bf_order_id-format_bf_order_id}
use bftrader.Ctp.Reports.{TdSmSpi, gen_bf_order_id}
use bftrader.Ctp.Requests.{
  Desk, TdSm, gen_order, gen_order_id, send_order_with_id, cancel_order, query_account,
  query_position, query_orders,
}

-- The slots of the manager that are posted to.
pub data Slot : Type 0 where
  sends_order_with_id : Text → BfSendOrderReq → Slot
  cancels_order : BfCancelOrderReq → Slot
  queries_account queries_position queries_orders : Slot

-- The manager and the slots posted to it, the oldest first.
pub record Gate : Type 0 where
  pub desk : Desk
  pub slots : List Slot

abbrev pub invoke : Slot → Gate → Gate
invoke x g = record g { slots = g.slots ++ x ∷ [] }

unfoldable pub ping : BfPingData → BfPingData
ping request = request

-- The identifier is generated at once, the first result is the answer.
unfoldable pub rpc_send_order : BfSendOrderReq → Gate → Text × Gate
unfolding gen_order_id
rpc_send_order request g =
    let (id, desk) = gen_order_id g.desk in
    (id, invoke (sends_order_with_id id request) (record g { desk = desk }))

unfoldable pub rpc_cancel_order : BfCancelOrderReq → Gate → Gate
rpc_cancel_order request = invoke (cancels_order request)

unfoldable pub rpc_query_account : Gate → Gate
rpc_query_account = invoke queries_account

unfoldable pub rpc_query_position : Gate → Gate
rpc_query_position = invoke queries_position

unfoldable pub rpc_query_orders : Gate → Gate
rpc_query_orders = invoke queries_orders

-- The manager runs a slot that was posted.
unfoldable pub run_slot : Slot → Desk → Desk
unfolding send_order_with_id cancel_order query_account query_position query_orders
run_slot (sends_order_with_id id request) = send_order_with_id id request
run_slot (cancels_order request) = cancel_order request
run_slot queries_account = query_account
run_slot queries_position = query_position
run_slot queries_orders = query_orders

module _ (gbk2utf16 : Text → Text) (contracts : QMap InstrumentField) where
  unfoldable pub write_contracts : List Text → Option (List BfContractData)
  write_contracts [] = some []
  write_contracts (symbol ∷ ids) = do
    contract ← get_contract symbol contracts
    rest ← write_contracts ids
    some (translate_contract gbk2utf16 contract ∷ rest)

  -- What is written to the stream; `ids` is symbols_my_, and `none` a call of qFatal.
  unfoldable pub rpc_get_contract : List Text → BfGetContractReq → Option (List BfContractData)
  unfolding write_contracts
  rpc_get_contract ids request =
      if text_eq request.symbol (lit "*") && text_eq request.exchange (lit "*")
      then write_contracts ids
      else write_contracts (request.symbol ∷ [])

  -- A client that asks for an unknown symbol stops the program.
  pub rpc_get_contract_unknown :
      (ids : List Text) (request : BfGetContractReq)
      → text_eq request.symbol (lit "*") ≡ false
      → find request.symbol contracts ≡ none
      → rpc_get_contract ids request ≡ none
  unfolding rpc_get_contract write_contracts get_contract
  rpc_get_contract_unknown ids request e n = ground (arith, e, n)

-- The answers to orders of clients, in the order in which they reach the manager.
abbrev pub send_all : List BfSendOrderReq → Gate → List Text × Gate
send_all [] g = ([], g)
send_all (r ∷ rs) g =
    let (id, g') = rpc_send_order r g in let (ids, g'') = send_all rs g' in (id ∷ ids, g'')

-- Actions of the thread that serves: onGatewayClosed is posted, the server is shut down, the thread
-- is started and joined.
pub data Served : Type 0 where
  posts_closed shuts_server starts_thread joins_thread : Served

-- `serving` tells whether gatewayThread_ is set; `done` lists the actions, the newest first.
pub record RpcService : Type 0 where
  pub serving : Bool
  pub done : List Served

unfoldable pub start : RpcService → RpcService
start s = if s.serving then s else record { serving = true; done = starts_thread ∷ s.done }

unfoldable pub stop : RpcService → RpcService
stop s =
    if s.serving
    then record { serving = false; done = joins_thread ∷ shuts_server ∷ posts_closed ∷ s.done }
    else s

unfoldable pub shutdown : RpcService → RpcService
unfolding stop
shutdown s = stop s
