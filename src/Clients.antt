-- ===== src/Clients.antt =====
-- cta/gatewaymgr.cpp and its copy in datarecorder: the clients of the gateways, which read what is
-- pushed in a thread each and pass calls on. The thread checks of its slots are in Services.
pub mod Threads
pub mod Dispatch
pub mod DbService
pub mod Recorder
pub mod Examples
use bftrader.Prelude.{
  ℕ, suc, Bool, true, false, not, ◌&&◌, Option, none, some, List, [], ◌∷◌, ◌++◌, if◌then◌else◌,
  Text, lit, QMap, find, insert, remove,
}
use bftrader.Proto.{BfSendOrderReq, BfCancelOrderReq}
use bftrader.Datafeed.Messages.{BfContractData, BfGetContractReq}
use bftrader.Push.Messages.{BfConnectPushReq}

-- `reading` tells whether reader_thread_ is set.
pub record GatewayClient : Type 0 where
  pub gateway_id : Text
  pub req : BfConnectPushReq
  pub reading : Bool

-- The calls that are made of a gateway, by its id.
pub data Rpc : Type 0 where
  pings : Text → Rpc
  connects_push : Text → BfConnectPushReq → Rpc
  disconnects_push : Text → Rpc
  gets_contract : Text → BfGetContractReq → Rpc
  sends_order : Text → BfSendOrderReq → Rpc
  cancels_order : Text → BfCancelOrderReq → Rpc
  queries_account queries_position queries_orders : Text → Rpc

-- What the clients share: the calls made, the newest first, and counts of the reader threads that
-- were started and joined, and of the clients that were created and deleted.
pub record World : Type 0 where
  pub calls : List Rpc
  pub started : ℕ
  pub joined : ℕ
  pub created : ℕ
  pub deleted : ℕ

pub record GatewayMgr : Type 0 where
  pub clients : QMap GatewayClient
  pub world : World

abbrev pub rpc : Rpc → World → World
rpc x w = record w { calls = x ∷ w.calls }

unfoldable pub connected : GatewayClient → Bool
connected c = c.reading

unfoldable pub connect : GatewayClient → World → GatewayClient × World
connect c w = (
  record c { reading = true },
  record (rpc (connects_push c.gateway_id c.req) w) { started = suc w.started },
)

unfoldable pub disconnect : GatewayClient → World → World
disconnect c w = rpc (disconnects_push c.gateway_id) w

unfoldable pub free_reader_thread : GatewayClient → World → GatewayClient × World
unfolding disconnect
free_reader_thread c w =
    if c.reading
    then (
      record c { reading = false },
      let w' = disconnect c w in record w' { joined = suc w'.joined },
    )
    else (c, w)

-- The destructor.
unfoldable pub delete_client : GatewayClient → World → World
unfolding free_reader_thread
delete_client c w = let w' = (free_reader_thread c w).1 in record w' { deleted = suc w'.deleted }

-- The status of the answer is logged only.
unfoldable pub ping : GatewayClient → World → World
ping c w = rpc (pings c.gateway_id) w

abbrev pub new_mgr : GatewayMgr
new_mgr = record {
  clients = [];
  world = record { calls = []; started = 0; joined = 0; created = 0; deleted = 0 };
}

unfoldable pub erase_gateway : Text → GatewayMgr → GatewayMgr
unfolding delete_client
erase_gateway k s = elim (find k s.clients) [
  | none ↦ s
  | some c ↦ record { clients = remove k s.clients; world = delete_client c s.world }
]

-- The new client is made before the old one is deleted.
unfoldable pub connect_gateway : Text → BfConnectPushReq → GatewayMgr → GatewayMgr
unfolding erase_gateway
connect_gateway gateway_id req s =
    let client : GatewayClient = record { gateway_id = gateway_id; req = req; reading = false } in
    let s' =
      erase_gateway gateway_id
        (record s { world = record s.world { created = suc s.world.created } }) in
    record s' { clients = insert gateway_id client s'.clients }

unfoldable pub disconnect_gateway : Text → GatewayMgr → GatewayMgr
unfolding erase_gateway
disconnect_gateway gateway_id s = erase_gateway gateway_id s

-- The write through the pointer in the map is an insert under its key.
unfoldable pub on_gateway_disconnected : Text → GatewayMgr → GatewayMgr
unfolding free_reader_thread
on_gateway_disconnected gateway_id s = elim (find gateway_id s.clients) [
  | none ↦ s
  | some c ↦
      let (c', w) = free_reader_thread c s.world in
      record { clients = insert gateway_id c' s.clients; world = w }
]

-- `ready` is what the channel of a client says about its state.
unfoldable pub ping_client : (Text → Bool) → GatewayClient → World → GatewayClient × World
unfolding ping connect connected
ping_client ready c w =
    let w' = ping c w in if not (connected c) && ready c.gateway_id then connect c w' else (c, w')

unfoldable pub ping_all : (Text → Bool) → QMap GatewayClient → World → QMap GatewayClient × World
unfolding ping_client
ping_all ready [] w = ([], w)
ping_all ready ((k, c) ∷ m) w =
    let (c', w') = ping_client ready c w in
    let (m', w'') = ping_all ready m w' in ((k, c') ∷ m', w'')

unfoldable pub on_ping : (Text → Bool) → GatewayMgr → GatewayMgr
unfolding ping_all
on_ping ready s = let (m, w) = ping_all ready s.clients s.world in record { clients = m; world = w }

unfoldable pub delete_all : QMap GatewayClient → World → World
unfolding delete_client
delete_all [] w = w
delete_all ((k, c) ∷ m) w = delete_all m (delete_client c w)

unfoldable pub shutdown : GatewayMgr → GatewayMgr
unfolding delete_all
shutdown s = record { clients = []; world = delete_all s.clients s.world }

-- A call through the client of a gateway, if there is one.
abbrev pub through : (Text → Rpc) → Text → GatewayMgr → GatewayMgr
through call gateway_id s = elim (find gateway_id s.clients) [
  | none ↦ s
  | some c ↦ record s { world = rpc (call c.gateway_id) s.world }
]

unfoldable pub cancel_order : Text → BfCancelOrderReq → GatewayMgr → GatewayMgr
cancel_order gateway_id req = through (λ id. cancels_order id req) gateway_id

unfoldable pub query_account : Text → GatewayMgr → GatewayMgr
query_account = through queries_account

unfoldable pub query_position : Text → GatewayMgr → GatewayMgr
query_position = through queries_position

unfoldable pub query_orders : Text → GatewayMgr → GatewayMgr
query_orders = through queries_orders

-- In datarecorder the slot calls QueryPosition of the client.
unfoldable pub recorder_query_orders : Text → GatewayMgr → GatewayMgr
recorder_query_orders = through queries_position

-- The answer of a gateway to a request with a stream: what is read, and the final status.
pub record Answer (A : Type 0) : Type 0 where
  pub items : List A
  pub is_ok : Bool

-- The loop over reader->Read, which appends to the result.
unfoldable pub read_all : {A : Type 0} → List A → List A → List A
read_all [] resps = resps
read_all (x ∷ xs) resps = read_all xs (resps ++ x ∷ [])

-- `answer` and `reply` are what the gateways return; the Boolean is the result of the call.
unfoldable pub get_contract :
    (Text → BfGetContractReq → Answer BfContractData)
    → Text
    → BfGetContractReq
    → GatewayMgr
    → List BfContractData
    → Bool × List BfContractData × GatewayMgr
unfolding read_all
get_contract answer gateway_id req s resps = elim (find gateway_id s.clients) [
  | none ↦ (false, resps, s)
  | some c ↦
      let a = answer c.gateway_id req in
      (
        a.is_ok,
        read_all a.items resps,
        record s { world = rpc (gets_contract c.gateway_id req) s.world },
      )
]

unfoldable pub send_order :
    (Text → BfSendOrderReq → Option Text)
    → Text
    → BfSendOrderReq
    → GatewayMgr
    → Option Text × GatewayMgr
send_order reply gateway_id req s = elim (find gateway_id s.clients) [
  | none ↦ (none, s)
  | some c ↦
      (reply c.gateway_id req, record s { world = rpc (sends_order c.gateway_id req) s.world })
]

-- The empty text stands for no gateway.
unfoldable pub default_gateway : GatewayMgr → Text
default_gateway s = elim s.clients [ [] ↦ [] | e ∷ m ↦ e.1.gateway_id ]
