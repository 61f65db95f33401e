-- ===== src/Push/Lifetimes.antt =====
-- Every queue that a stream hands to the push service of btgateway stands in one client, or has
-- been shut down; after onGatewayClosed all of them have.
use native.Mathlib.Nat.{add-zero, add-suc, suc-add}
use bftrader.Prelude.{
  ℕ, suc, ◌+◌, ◌≡◌, refl, Bool, true, false, none, List, [], ◌∷◌, ◌++◌, map, length, length-append,
  All, Text, lit, QMap, find, total, total-insert, arith, IsSorted, Above, AllValues,
  AllValues-insert, AllValues-remove, insert-IsSorted, remove-IsSorted, total-remove, find-remove,
  text_eq_refl, Option-cases, inl, inr,
}
use bftrader.Proto.{notification_tradewillbegin, notification_gotcontracts}
use bftrader.Backtest.State.{
  trade_will_begin, trade_stopped, got_account, got_order, got_trade, got_position,
  got_notification,
}
use bftrader.SafeQueue.{empty_queue, enqueue}
use bftrader.SafeQueue
use bftrader.Push.Messages.{BfConnectPushReq, Any, notification, ping}
use bftrader.Push.Clients.{
  GatewayClient, push, on_notification, on_ping, on_tick, on_log, on_trade, on_order, on_position,
  on_account, free,
}
use bftrader.Push.Service.{
  PushService, for_each, always, note_of, values, erase_client, connect_client, disconnect_client,
  on_gateway_closed, on_got_order, on_got_trade, on_got_position, on_got_account, push_tick,
  on_trade_will_begin, on_got_contracts, on_logged, on_ping_timer,
}
use bftrader.Push.Gateways.{
  BtEvent, manager, bt_tick, bt_contracts, bt_ping, bt_logged, bt_signal, bt_event,
}

-- What other threads ask of the push service; a stream comes with a new queue.
pub data Call : Type 0 where
  connects : Text → BfConnectPushReq → Call
  disconnects : Text → Call
  closes : Call
  slots : BtEvent → Call

unfoldable pub call : Call → PushService → PushService
call (connects gateway_id req) s = connect_client gateway_id req empty_queue s
call (disconnects client_id) s = disconnect_client client_id s
call closes s = on_gateway_closed s
call (slots e) s = bt_event e s

-- The calls in their order.
abbrev pub call_all : List Call → PushService → PushService
call_all [] s = s
call_all (c ∷ cs) s = call_all cs (call c s)

abbrev pub new_service : PushService
new_service = record { clients = []; freed = [] }

abbrev pub connected : List Call → ℕ
connected [] = 0
connected (connects g r ∷ cs) = suc (connected cs)
connected (c ∷ cs) = connected cs

abbrev pub one : GatewayClient → ℕ
one c = 1

abbrev pub IsOpen : GatewayClient → Type 0
IsOpen c = c.queue.is_shutdown ≡ false

abbrev pub IsShut : GatewayClient → Type 0
IsShut c = c.queue.is_shutdown ≡ true

pub record Inv (n : ℕ) (s : PushService) : Type 0 where
  pub sorted : IsSorted s.clients
  pub counted : total one s.clients + length s.freed ≡ n
  pub still_open : AllValues IsOpen s.clients
  pub shut : All IsShut s.freed

All-append {ℓ κ} :
    {A : Type ℓ} (P : A → Type κ) (xs ys : List A) → All P xs → All P ys → All P (xs ++ ys)
All-append P [] ys a b = b
All-append P (x ∷ xs) ys a b = (a.0, All-append P xs ys a.1 b)

-- A slot.
for_each-Above :
    (test : GatewayClient → Bool) (f : GatewayClient → GatewayClient) (k : Text)
    (m : QMap GatewayClient)
    → Above k m
    → Above k (for_each test f m)
for_each-Above test f k [] a = tt
for_each-Above test f k ((j, v) ∷ m) a = (a.0, for_each-Above test f k m a.1)

for_each-IsSorted :
    (test : GatewayClient → Bool) (f : GatewayClient → GatewayClient) (m : QMap GatewayClient)
    → IsSorted m
    → IsSorted (for_each test f m)
for_each-IsSorted test f [] s = tt
for_each-IsSorted test f ((j, v) ∷ m) s =
    (for_each-Above test f j m s.0, for_each-IsSorted test f m s.1)

total-for_each :
    (test : GatewayClient → Bool) (f : GatewayClient → GatewayClient) (m : QMap GatewayClient)
    → total one (for_each test f m) ≡ total one m
unfolding total
total-for_each test f [] = refl
total-for_each test f ((j, v) ∷ m) = omega (arith, total-for_each test f m)

push-IsOpen :
    (test : GatewayClient → Bool) (m : Any) (cs : QMap GatewayClient)
    → AllValues IsOpen cs
    → AllValues IsOpen (for_each test (push m) cs)
unfolding enqueue
push-IsOpen test m [] a = tt
push-IsOpen test m ((j, v) ∷ cs) a = (ground (arith, a.0), push-IsOpen test m cs a.1)

slot-Inv :
    (test : GatewayClient → Bool) (m : Any) (s : PushService) {n : ℕ}
    → Inv n s
    → Inv n (record s { clients = for_each test (push m) s.clients })
slot-Inv test m s i = record {
  sorted = for_each-IsSorted test (push m) s.clients i.sorted;
  counted = omega (arith, i.counted, total-for_each test (push m) s.clients);
  still_open = push-IsOpen test m s.clients i.still_open;
  shut = i.shut;
}

bt_event-Inv : (e : BtEvent) (s : PushService) {n : ℕ} → Inv n s → Inv n (bt_event e s)
unfolding bt_event bt_signal on_trade_will_begin on_got_account on_got_order on_got_trade
    on_got_position on_got_contracts on_ping_timer on_logged push_tick on_notification on_account
    on_order on_trade on_position on_ping on_log on_tick
bt_event-Inv (manager (trade_will_begin req)) s i =
    slot-Inv always (notification (note_of notification_tradewillbegin)) s i
bt_event-Inv (manager trade_stopped) s i = i
bt_event-Inv (manager (got_account data')) s i = slot-Inv _ _ s i
bt_event-Inv (manager (got_order data')) s i = slot-Inv _ _ s i
bt_event-Inv (manager (got_trade data')) s i = slot-Inv _ _ s i
bt_event-Inv (manager (got_position data')) s i = slot-Inv _ _ s i
bt_event-Inv (manager (got_notification type)) s i = i
bt_event-Inv (bt_tick data') s i = slot-Inv _ _ s i
bt_event-Inv bt_contracts s i =
    slot-Inv always (notification (note_of notification_gotcontracts)) s i
bt_event-Inv bt_ping s i = slot-Inv always (ping (record { message = lit "btgateway" })) s i
bt_event-Inv (bt_logged when msg) s i = slot-Inv _ _ s i

erase_client-Inv : (k : Text) (s : PushService) {n : ℕ} → Inv n s → Inv n (erase_client k s)
unfolding erase_client free SafeQueue.shutdown
erase_client-Inv k s i = elim (Option-cases (find k s.clients)) [
  | inl e ↦ rw (e, erase_client) i
  | inr (c, e) ↦
      rw (e, erase_client)
        (record {
          sorted = remove-IsSorted k s.clients i.sorted;
          counted = omega (
            arith,
            i.counted,
            total-remove one k s.clients i.sorted e,
            length-append s.freed (free c ∷ []),
          );
          still_open = AllValues-remove IsOpen k s.clients i.still_open;
          shut = All-append IsShut s.freed (free c ∷ []) i.shut (refl, tt);
        })
]

-- An erased client is not found.
find-erase_client : (k : Text) (s : PushService) → find k (erase_client k s).clients ≡ none
unfolding erase_client
find-erase_client k s = ground (arith, find-remove k k s.clients, text_eq_refl k)

connect_client-Inv :
    (gateway_id : Text) (req : BfConnectPushReq) (s : PushService) {n : ℕ}
    → Inv n s
    → Inv (suc n) (connect_client gateway_id req empty_queue s)
unfolding connect_client
connect_client-Inv gateway_id req s i =
    let s' = erase_client req.clientid s in
    let i' = erase_client-Inv req.clientid s i in
    let c : GatewayClient = record { queue = empty_queue; gateway_id = gateway_id; req = req } in
    record {
      sorted = insert-IsSorted req.clientid c s'.clients i'.sorted;
      counted = omega (
        arith,
        i'.counted,
        total-insert one req.clientid c s'.clients (find-erase_client req.clientid s),
      );
      still_open = AllValues-insert IsOpen req.clientid c s'.clients refl i'.still_open;
      shut = i'.shut;
    }

length-values : (m : QMap GatewayClient) → length (values m) ≡ total one m
unfolding values total
length-values [] = refl
length-values ((k, v) ∷ m) = omega (arith, length-values m)

length-map-free : (cs : List GatewayClient) → length (map free cs) ≡ length cs
length-map-free [] = refl
length-map-free (c ∷ cs) = omega (arith, length-map-free cs)

map-free-IsShut : (cs : List GatewayClient) → All IsShut (map free cs)
unfolding free SafeQueue.shutdown
map-free-IsShut [] = tt
map-free-IsShut (c ∷ cs) = (refl, map-free-IsShut cs)

on_gateway_closed-Inv : (s : PushService) {n : ℕ} → Inv n s → Inv n (on_gateway_closed s)
unfolding on_gateway_closed total
on_gateway_closed-Inv s i = record {
  sorted = tt;
  counted = omega (
    arith,
    i.counted,
    length-append s.freed (map free (values s.clients)),
    length-map-free (values s.clients),
    length-values s.clients,
  );
  still_open = tt;
  shut = All-append IsShut s.freed (map free (values s.clients)) i.shut (map-free-IsShut _);
}

call_all-Inv :
    (cs : List Call) (s : PushService) (n : ℕ) → Inv n s → Inv (n + connected cs) (call_all cs s)
unfolding call disconnect_client
call_all-Inv [] s n i = rw add-zero i
call_all-Inv (connects g r ∷ cs) s n i =
    rw (add-suc n (connected cs), ← suc-add n (connected cs))
      (call_all-Inv cs (connect_client g r empty_queue s) (suc n) (connect_client-Inv g r s i))
call_all-Inv (disconnects k ∷ cs) s n i =
    call_all-Inv cs (disconnect_client k s) n (erase_client-Inv k s i)
call_all-Inv (closes ∷ cs) s n i =
    call_all-Inv cs (on_gateway_closed s) n (on_gateway_closed-Inv s i)
call_all-Inv (slots e ∷ cs) s n i = call_all-Inv cs (bt_event e s) n (bt_event-Inv e s i)

new_service-Inv : Inv 0 new_service
unfolding total
new_service-Inv = record { sorted = tt; counted = refl; still_open = tt; shut = tt }

-- After any connects, disconnects, closes and events of the push service of btgateway, the clients
-- registered and those freed add up to the streams that connected, the queues of the first are open
-- and those of the latter are shut down; after a close every stream that connected has its queue
-- shut down and no client is left.
pub on_gateway_closed-call_all :
    (cs : List Call)
    → let s = call_all cs new_service in
      (total one s.clients + length s.freed ≡ connected cs)
      × AllValues IsOpen s.clients
      × All IsShut s.freed
      × ((on_gateway_closed s).clients ≡ [])
      × (length (on_gateway_closed s).freed ≡ connected cs)
      × All IsShut (on_gateway_closed s).freed
unfolding on_gateway_closed total
on_gateway_closed-call_all cs =
    let s = call_all cs new_service in
    let i = call_all-Inv cs new_service 0 new_service-Inv in
    let j = on_gateway_closed-Inv s i in
    (ground (arith, i.counted), i.still_open, i.shut, refl, ground (arith, j.counted), j.shut)
