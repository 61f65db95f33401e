-- ===== src/Push/Subscriptions.antt =====
-- What a subscription asks for, and that a slot of a push service gives it to a client.
use mathlib.Core.List.{append_assoc, append-nil}
use bftrader.Prelude.{
  ◌≡◌, refl, ◌∙◌, Bool, true, false, ◌&&◌, ◌||◌, some, List, [], ◌∷◌, ◌++◌, if◌then◌else◌, Text,
  lit, text_eq, QMap, find, arith, Bool-cases, inl, inr, not, All,
}
use bftrader.Proto.{BfTickData}
use bftrader.SafeQueue.{enqueue}
use bftrader.Push.Messages.{
  BfConnectPushReq, Any, tick, ping, order, account, position, trade, error, log, notification,
  other,
}
use bftrader.Push.Clients.{GatewayClient, push, on_tick, subscribled}
use bftrader.Push.Service.{PushService, for_each, is_query, push_tick}

-- The rules of sdk/bfgateway.proto at BfConnectPushReq: notifications and pings for every client, and
-- the ticks of the requested contract of the requested exchange, or all where both are "*".
abbrev pub asked : BfConnectPushReq → Any → Bool
asked r (tick data') =
    r.tickhandler
    && (text_eq r.symbol (lit "*") && text_eq r.exchange (lit "*")
        || text_eq data'.symbol r.symbol && text_eq data'.exchange r.exchange)
asked r (ping _) = true
asked r (order _) = r.tradehandler
asked r (account _) = r.tradehandler
asked r (position _) = r.tradehandler
asked r (trade _) = r.tradehandler
asked r (error _) = r.loghandler
asked r (log _) = r.loghandler
asked r (notification _) = true
asked r (other _) = false

-- What the service adds to the rules: ticks are chosen by the symbol alone, whatever the exchange.
abbrev pub by_symbol : BfConnectPushReq → Any → Bool
by_symbol r (tick data') =
    r.tickhandler && (text_eq r.symbol (lit "*") || text_eq data'.symbol r.symbol)
by_symbol r _ = false

-- What the service takes from the rules: notifications of queries, for a client without trades.
abbrev pub withheld : BfConnectPushReq → Any → Bool
withheld r (notification note) = is_query note.type && not r.tradehandler
withheld r _ = false

-- The rules with these two changes.
abbrev pub receives : BfConnectPushReq → Any → Bool
receives r m = not (withheld r m) && (by_symbol r m || asked r m)

-- The messages of the list that a client with this subscription receives.
abbrev pub received : BfConnectPushReq → List Any → List Any
received r [] = []
received r (m ∷ ms) = if receives r m then m ∷ received r ms else received r ms

-- The messages of the list that the rules give to a client.
abbrev pub asked_of : BfConnectPushReq → List Any → List Any
asked_of r [] = []
asked_of r (m ∷ ms) = if asked r m then m ∷ asked_of r ms else asked_of r ms

-- Where neither change applies to a message of the list, the client receives what the rules say.
pub received-asked :
    (r : BfConnectPushReq) (ms : List Any)
    → All (λ m. (withheld r m ≡ false) × (by_symbol r m ≡ true → asked r m ≡ true)) ms
    → received r ms ≡ asked_of r ms
received-asked r [] h = refl
received-asked r (m ∷ ms) ((w, b), h) = rw (same, received-asked r ms h) refl
  where
    same : receives r m ≡ asked r m
    same = elim (Bool-cases (by_symbol r m)) [
      | inl e ↦ rw (w, e, b e) refl
      | inr e ↦ rw (w, e) refl
    ]

received-append :
    (r : BfConnectPushReq) (xs ys : List Any)
    → received r (xs ++ ys) ≡ received r xs ++ received r ys
received-append r [] ys = refl
received-append r (x ∷ xs) ys = ground (arith, received-append r xs ys)

-- The client with these messages behind those of its queue.
abbrev pub with_messages : List Any → GatewayClient → GatewayClient
with_messages ms c = record c { queue = record c.queue { items = c.queue.items ++ ms } }

find-for_each {ℓ} :
    {V : Type ℓ} (test : V → Bool) (f : V → V) (k : Text) (m : QMap V) {v : V}
    → find k m ≡ some v
    → find k (for_each test f m) ≡ some (if test v then f v else v)
unfolding find
find-for_each test f k [] e = cc
find-for_each test f k ((j, w) ∷ m) {v} e = ground (arith, find-for_each test f k m {v = v})

-- `s'` has the client under `k` with the messages that it receives of `ms`, and has freed none.
abbrev pub Gets : Text → GatewayClient → List Any → PushService → PushService → Type 0
Gets k c ms s s' =
    (find k s'.clients ≡ some (with_messages (received c.req ms) c)) × (s'.freed ≡ s.freed)

pub slot-Gets :
    (test : GatewayClient → Bool) (m : Any) (k : Text) (s : PushService) (c : GatewayClient)
    → test c ≡ receives c.req m
    → find k s.clients ≡ some c
    → Gets k c (m ∷ []) s (record s { clients = for_each test (push m) s.clients })
unfolding enqueue
slot-Gets test m k s c same e = (find-for_each test (push m) k s.clients e ∙ got, refl)
  where
    got :
        some (if test c then push m c else c)
        ≡ some (with_messages (if receives c.req m then m ∷ [] else []) c)
    got = elim (Bool-cases (receives c.req m)) [
      | inl t ↦ rw (same ∙ t, t)
      | inr f ↦ rw (same ∙ f, f, append-nil c.queue.items)
    ]

pub nothing-Gets :
    (k : Text) (s : PushService) (c : GatewayClient) → find k s.clients ≡ some c → Gets k c [] s s
nothing-Gets k s c e = (rw (append-nil c.queue.items) e, refl)

pub then-Gets :
    (k : Text) (c : GatewayClient) (ms ns : List Any) (s s' s'' : PushService)
    → Gets k c ms s s'
    → Gets k (with_messages (received c.req ms) c) ns s' s''
    → Gets k c (ms ++ ns) s s''
then-Gets k c ms ns s s' s'' (a, b) (a', b') = (
  rw
      (
        received-append c.req ms ns,
        ← append_assoc c.queue.items (received c.req ms) (received c.req ns),
      )
      a',
  b' ∙ b,
)

pub push_tick-Gets :
    (k : Text) (s : PushService) (c : GatewayClient) (data' : BfTickData)
    → find k s.clients ≡ some c
    → Gets k c (tick data' ∷ []) s (push_tick data' s)
unfolding push_tick on_tick subscribled
push_tick-Gets k s c data' = slot-Gets _ (tick data') k s c (ground arith)
