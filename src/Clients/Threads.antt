-- ===== src/Clients/Threads.antt =====
-- Every reader thread that is started is joined once or belongs to one client, and every client
-- that is created is deleted once or registered; shutdown() leaves none.
use bftrader.Prelude.{
  ℕ, suc, ◌+◌, ◌≡◌, refl, Bool, false, Option, none, some, List, [], ◌∷◌, if◌then◌else◌, Text, QMap,
  find, insert, remove, total, total-insert, total-modify, IsSorted, Above, insert-IsSorted,
  remove-IsSorted, total-remove, find-remove, text_eq_refl, arith, Option-cases, inl, inr,
}
use bftrader.Proto.{BfSendOrderReq, BfCancelOrderReq}
use bftrader.Push.Messages.{BfConnectPushReq}
use bftrader.Clients.{
  GatewayClient, World, GatewayMgr, Rpc, connected, connect, disconnect, free_reader_thread,
  delete_client, ping, new_mgr, erase_gateway, connect_gateway, disconnect_gateway,
  on_gateway_disconnected, ping_client, ping_all, on_ping, delete_all, shutdown, through,
  cancel_order, query_account, query_position, query_orders, send_order,
}

-- The slots; `ready` is the state of the channels at the time of a ping.
pub data Call : Type 0 where
  connects : Text → BfConnectPushReq → Call
  disconnects disconnected : Text → Call
  pings : (Text → Bool) → Call
  shuts : Call
  cancels : Text → BfCancelOrderReq → Call
  queries_account queries_position queries_orders : Text → Call
  sends : (Text → BfSendOrderReq → Option Text) → Text → BfSendOrderReq → Call

unfoldable pub call : Call → GatewayMgr → GatewayMgr
call (connects gateway_id req) s = connect_gateway gateway_id req s
call (disconnects gateway_id) s = disconnect_gateway gateway_id s
call (disconnected gateway_id) s = on_gateway_disconnected gateway_id s
call (pings ready) s = on_ping ready s
call shuts s = shutdown s
call (cancels gateway_id req) s = cancel_order gateway_id req s
call (queries_account gateway_id) s = query_account gateway_id s
call (queries_position gateway_id) s = query_position gateway_id s
call (queries_orders gateway_id) s = query_orders gateway_id s
call (sends reply gateway_id req) s = (send_order reply gateway_id req s).1

abbrev pub call_all : List Call → GatewayMgr → GatewayMgr
call_all [] s = s
call_all (c ∷ cs) s = call_all cs (call c s)

abbrev pub one : GatewayClient → ℕ
one c = 1

-- The reader threads of a client.
abbrev pub readers : GatewayClient → ℕ
readers c = if c.reading then 1 else 0

-- `extra` clients are created and not yet registered.
pub record Inv (extra : ℕ) (s : GatewayMgr) : Type 0 where
  pub sorted : IsSorted s.clients
  pub threads : s.world.started ≡ s.world.joined + total readers s.clients
  pub counted : s.world.created ≡ extra + s.world.deleted + total one s.clients

-- A world against the reader threads and the clients of some map.
abbrev Balanced : ℕ → ℕ → World → Type 0
Balanced n m w = (w.started ≡ w.joined + n) × (w.created ≡ w.deleted + m)

delete_client-Balanced :
    (c : GatewayClient) (w : World) (n m : ℕ)
    → Balanced (readers c + n) (suc m) w
    → Balanced n m (delete_client c w)
unfolding delete_client free_reader_thread disconnect
delete_client-Balanced c w n m b = ground arith

erase_gateway-Inv : (x : ℕ) (k : Text) (s : GatewayMgr) → Inv x s → Inv x (erase_gateway k s)
unfolding erase_gateway
erase_gateway-Inv x k s i = elim (Option-cases (find k s.clients)) [
  | inl e ↦ rw (e, erase_gateway) i
  | inr (c, e) ↦
      let b =
        delete_client-Balanced c s.world (total readers (remove k s.clients))
          (x + total one (remove k s.clients))
          (
            omega (arith, i.threads, total-remove readers k s.clients i.sorted e),
            omega (arith, i.counted, total-remove one k s.clients i.sorted e),
          ) in
      rw (e, erase_gateway)
        (record {
          sorted = remove-IsSorted k s.clients i.sorted;
          threads = b.0;
          counted = omega (arith, b.1);
        })
]

find-erase_gateway : (k : Text) (s : GatewayMgr) → find k (erase_gateway k s).clients ≡ none
unfolding erase_gateway
find-erase_gateway k s = ground (arith, find-remove k k s.clients, text_eq_refl k)

connect_gateway-Inv :
    (k : Text) (req : BfConnectPushReq) (s : GatewayMgr) → Inv 0 s → Inv 0 (connect_gateway k req s)
unfolding connect_gateway
connect_gateway-Inv k req s i =
    let s1 : GatewayMgr = record s { world = record s.world { created = suc s.world.created } } in
    let i1 : Inv 1 s1 = record {
      sorted = i.sorted;
      threads = i.threads;
      counted = omega (arith, i.counted);
    } in
    let i2 = erase_gateway-Inv 1 k s1 i1 in
    let c : GatewayClient = record { gateway_id = k; req = req; reading = false } in
    let m = (erase_gateway k s1).clients in
    record {
      sorted = insert-IsSorted k c m i2.sorted;
      threads = omega (arith, i2.threads, total-insert readers k c m (find-erase_gateway k s1));
      counted = omega (arith, i2.counted, total-insert one k c m (find-erase_gateway k s1));
    }

-- An insert under a key that is there changes one value.
total-replaced :
    (w : GatewayClient → ℕ) (k : Text) (v : GatewayClient) (m : QMap GatewayClient)
    {u : GatewayClient}
    → find k m ≡ some u
    → total w (insert k v m) + w u ≡ total w m + w v
unfolding insert
total-replaced w k v m {u} e = ground (arith, total-modify w k (λ _. v) m {v = u})

on_gateway_disconnected-Inv :
    (k : Text) (s : GatewayMgr) → Inv 0 s → Inv 0 (on_gateway_disconnected k s)
unfolding on_gateway_disconnected free_reader_thread disconnect
on_gateway_disconnected-Inv k s i = elim (Option-cases (find k s.clients)) [
  | inl e ↦ rw (e, on_gateway_disconnected) i
  | inr (c, e) ↦
      let c' = (free_reader_thread c s.world).0 in
      rw (e, on_gateway_disconnected)
        (record {
          sorted = insert-IsSorted k c' s.clients i.sorted;
          threads = ground (arith, i.threads, total-replaced readers k c' s.clients e);
          counted = ground (arith, i.counted, total-replaced one k c' s.clients e);
        })
]

ping_client-Balanced :
    (ready : Text → Bool) (c : GatewayClient) (w : World) (n m : ℕ)
    → Balanced (readers c + n) m w
    → Balanced (readers (ping_client ready c w).0 + n) m (ping_client ready c w).1
unfolding ping_client ping connect connected
ping_client-Balanced ready c w n m b = ground arith

ping_all-Balanced :
    (ready : Text → Bool) (m : QMap GatewayClient) (w : World) (n k : ℕ)
    → Balanced (total readers m + n) (total one m + k) w
    → let (m', w') = ping_all ready m w in Balanced (total readers m' + n) (total one m' + k) w'
unfolding ping_all total
ping_all-Balanced ready [] w n k b = b
ping_all-Balanced ready ((j, c) ∷ m) w n k b =
    let (c1, w1) = ping_client ready c w in
    let step =
      ping_client-Balanced ready c w (total readers m + n) (1 + total one m + k)
        (omega (arith, b.0), omega (arith, b.1)) in
    let rest =
      ping_all-Balanced ready m w1 (readers c1 + n) (1 + k)
        (omega (arith, step.0), omega (arith, step.1)) in
    (omega (arith, rest.0), omega (arith, rest.1))

ping_all-Above :
    (ready : Text → Bool) (k : Text) (m : QMap GatewayClient) (w : World)
    → Above k m
    → Above k (ping_all ready m w).0
unfolding ping_all
ping_all-Above ready k [] w a = tt
ping_all-Above ready k ((j, c) ∷ m) w a =
    (a.0, ping_all-Above ready k m (ping_client ready c w).1 a.1)

ping_all-IsSorted :
    (ready : Text → Bool) (m : QMap GatewayClient) (w : World)
    → IsSorted m
    → IsSorted (ping_all ready m w).0
unfolding ping_all
ping_all-IsSorted ready [] w s = tt
ping_all-IsSorted ready ((j, c) ∷ m) w s =
    let w1 = (ping_client ready c w).1 in
    (ping_all-Above ready j m w1 s.0, ping_all-IsSorted ready m w1 s.1)

on_ping-Inv : (ready : Text → Bool) (s : GatewayMgr) → Inv 0 s → Inv 0 (on_ping ready s)
unfolding on_ping
on_ping-Inv ready s i =
    let b =
      ping_all-Balanced ready s.clients s.world 0 0
        (omega (arith, i.threads), omega (arith, i.counted)) in
    record {
      sorted = ping_all-IsSorted ready s.clients s.world i.sorted;
      threads = omega (arith, b.0);
      counted = omega (arith, b.1);
    }

delete_all-Balanced :
    (m : QMap GatewayClient) (w : World)
    → Balanced (total readers m) (total one m) w
    → Balanced 0 0 (delete_all m w)
unfolding delete_all total
delete_all-Balanced [] w b = b
delete_all-Balanced ((j, c) ∷ m) w b =
    delete_all-Balanced m (delete_client c w)
      (delete_client-Balanced c w (total readers m) (total one m) (b.0, omega (arith, b.1)))

shutdown-Inv : (s : GatewayMgr) → Inv 0 s → Inv 0 (shutdown s)
unfolding shutdown total
shutdown-Inv s i =
    let b =
      delete_all-Balanced s.clients s.world (omega (arith, i.threads), omega (arith, i.counted)) in
    record { sorted = tt; threads = omega (arith, b.0); counted = omega (arith, b.1) }

through-Inv : (x : Text → Rpc) (k : Text) (s : GatewayMgr) → Inv 0 s → Inv 0 (through x k s)
through-Inv x k s i = elim (Option-cases (find k s.clients)) [
  | inl e ↦ rw (e, through) i
  | inr (c, e) ↦
      rw (e, through) (record { sorted = i.sorted; threads = i.threads; counted = i.counted })
]

send_order-Inv :
    (reply : Text → BfSendOrderReq → Option Text) (k : Text) (req : BfSendOrderReq) (s : GatewayMgr)
    → Inv 0 s
    → Inv 0 (send_order reply k req s).1
unfolding send_order
send_order-Inv reply k req s i = elim (Option-cases (find k s.clients)) [
  | inl e ↦ rw (e, send_order) i
  | inr (c, e) ↦
      rw (e, send_order) (record { sorted = i.sorted; threads = i.threads; counted = i.counted })
]

call-Inv : (c : Call) (s : GatewayMgr) → Inv 0 s → Inv 0 (call c s)
unfolding call disconnect_gateway cancel_order query_account query_position query_orders
call-Inv (connects k req) s i = connect_gateway-Inv k req s i
call-Inv (disconnects k) s i = erase_gateway-Inv 0 k s i
call-Inv (disconnected k) s i = on_gateway_disconnected-Inv k s i
call-Inv (pings ready) s i = on_ping-Inv ready s i
call-Inv shuts s i = shutdown-Inv s i
call-Inv (cancels k req) s i = through-Inv (λ id. Rpc.cancels_order id req) k s i
call-Inv (queries_account k) s i = through-Inv Rpc.queries_account k s i
call-Inv (queries_position k) s i = through-Inv Rpc.queries_position k s i
call-Inv (queries_orders k) s i = through-Inv Rpc.queries_orders k s i
call-Inv (sends reply k req) s i = send_order-Inv reply k req s i

call_all-Inv : (cs : List Call) (s : GatewayMgr) → Inv 0 s → Inv 0 (call_all cs s)
call_all-Inv [] s i = i
call_all-Inv (c ∷ cs) s i = call_all-Inv cs (call c s) (call-Inv c s i)

-- After any slots of a new gateway manager, the reader threads that were started are those joined
-- and one for each client that reads, and the clients that were created are those deleted and those
-- registered; after shutdown() every thread is joined, every client is deleted and the map is
-- empty.
pub shutdown-call_all :
    (cs : List Call)
    → let s = call_all cs new_mgr in
      let w = (shutdown s).world in
      (s.world.started ≡ s.world.joined + total readers s.clients)
      × (s.world.created ≡ s.world.deleted + total one s.clients)
      × ((shutdown s).clients ≡ [])
      × (w.started ≡ w.joined)
      × (w.created ≡ w.deleted)
unfolding shutdown total
shutdown-call_all cs =
    let i = call_all-Inv cs new_mgr (record { sorted = tt; threads = refl; counted = refl }) in
    let s = call_all cs new_mgr in
    let b =
      delete_all-Balanced s.clients s.world (omega (arith, i.threads), omega (arith, i.counted)) in
    (i.threads, omega (arith, i.counted), refl, omega (arith, b.0), omega (arith, b.1))
