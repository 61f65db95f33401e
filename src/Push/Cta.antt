-- ===== src/Push/Cta.antt =====
-- cta/pushservice.cpp: the clients of the strategy process.
use bftrader.Prelude.{
  ◌≡◌, Bool, true, none, some, List, [], ◌∷◌, ◌++◌, map, if◌then◌else◌, Text, lit, text_eq_iff,
  text_ltb, text_ltb-eq, text_ltb_asym, find_past, QMap, find, insert, remove, IsSorted, arith,
}
use bftrader.Proto.{BfOrderData, BfTradeData}
use bftrader.SafeQueue.{SafeQueue, enqueue}
use bftrader.SafeQueue
use bftrader.Push.Messages.{BfConnectPushReq, BfPingData, Any, ping, order, trade}
use bftrader.Push.Service.{for_each, always, values}

pub record CtaClient : Type 0 where
  pub queue : SafeQueue Any
  pub req : BfConnectPushReq

unfoldable pub on_ping : BfPingData → CtaClient → CtaClient
on_ping data' c = record c { queue = enqueue (ping data') c.queue }

unfoldable pub on_trade : BfTradeData → CtaClient → CtaClient
on_trade data' c = record c { queue = enqueue (trade data') c.queue }

unfoldable pub on_order : BfOrderData → CtaClient → CtaClient
on_order data' c = record c { queue = enqueue (order data') c.queue }

unfoldable pub free : CtaClient → CtaClient
free c = record c { queue = SafeQueue.shutdown c.queue }

pub record CtaPushService : Type 0 where
  pub clients : QMap CtaClient
  pub freed : List CtaClient

unfoldable pub erase_client : Text → CtaPushService → CtaPushService
unfolding free
erase_client k s = elim (find k s.clients) [
  | none ↦ s
  | some c ↦ record { clients = remove k s.clients; freed = s.freed ++ free c ∷ [] }
]

unfoldable pub connect_client : BfConnectPushReq → SafeQueue Any → CtaPushService → CtaPushService
unfolding erase_client
connect_client req queue s =
    let s' = erase_client req.clientid s in
    record s' { clients = insert req.clientid (record { queue = queue; req = req }) s'.clients }

unfoldable pub disconnect_client : Text → CtaPushService → CtaPushService
unfolding erase_client
disconnect_client client_id s = erase_client client_id s

-- The body of shutdown() and of onCtaClosed().
unfoldable pub on_cta_closed : CtaPushService → CtaPushService
unfolding values free
on_cta_closed s = record { clients = []; freed = s.freed ++ map free (values s.clients) }

unfoldable pub on_ping_timer : CtaPushService → CtaPushService
unfolding on_ping
on_ping_timer s = record s {
  clients = for_each always (on_ping (record { message = lit "cta" })) s.clients;
}

abbrev pub trade_handler : CtaClient → Bool
trade_handler c = c.req.tradehandler

-- The loop of the next two slots returns at the end of its first round.
unfoldable pub for_first :
    (CtaClient → Bool) → (CtaClient → CtaClient) → QMap CtaClient → QMap CtaClient
for_first test f [] = []
for_first test f ((k, v) ∷ m) = (k, if test v then f v else v) ∷ m

unfoldable pub on_got_trade : BfTradeData → CtaPushService → CtaPushService
unfolding for_first on_trade
on_got_trade data' s = record s { clients = for_first trade_handler (on_trade data') s.clients }

unfoldable pub on_got_order : BfOrderData → CtaPushService → CtaPushService
unfolding for_first on_order
on_got_order data' s = record s { clients = for_first trade_handler (on_order data') s.clients }

find-for_first :
    (test : CtaClient → Bool) (f : CtaClient → CtaClient) (j k : Text) (m : QMap CtaClient)
    {c d : CtaClient}
    → IsSorted m
    → find j m ≡ some d
    → find k m ≡ some c
    → text_ltb j k ≡ true
    → find k (for_first test f m) ≡ some c
unfolding for_first find
find-for_first test f j k [] s e e' h = cc
find-for_first test f j k ((i, v) ∷ m) s e e' h = ground (
  arith,
  find_past j i m,
  text_eq_iff i k,
  text_eq_iff i j,
  text_ltb-eq j k,
  text_ltb_asym j k,
  s.0,
)

-- Trades and orders change no client but the first.
pub on_got_trade-others :
    (s : CtaPushService) (j k : Text) {c d : CtaClient} (data' : BfTradeData) (data'' : BfOrderData)
    → IsSorted s.clients
    → find j s.clients ≡ some d
    → find k s.clients ≡ some c
    → text_ltb j k ≡ true
    → (find k (on_got_trade data' s).clients ≡ some c)
      × (find k (on_got_order data'' s).clients ≡ some c)
unfolding on_got_trade on_got_order
on_got_trade-others s j k data' data'' o e e' h = (
  find-for_first trade_handler (on_trade data') j k s.clients o e e' h,
  find-for_first trade_handler (on_order data'') j k s.clients o e e' h,
)
