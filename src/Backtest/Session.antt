-- ===== src/Backtest/Session.antt =====
-- The calls that the thread of btgateway/gatewaymgr.cpp handles, one after another, from the state
-- that the constructor leaves.
use bftrader.Prelude.{
  ◌^◌, ◌<◌, ◌≡◌, refl, Option, none, some, [], ◌∷◌, Text, QMap, find, Returns, Returns_at,
}
use bftrader.Proto.{BfGetTickReq, BfSendOrderReq, BfCancelOrderReq, BfTickData, BfAccountData, Fpu}
use bftrader.Backtest.State.{
  Gateway, Now, Signal, got_order, got_position, start, stop, query_account, query_position,
  query_orders, emit_all, emit, gen_order_id,
}
use bftrader.Backtest.Orders.{send_order_with_id, send_order, cancel_order}
use bftrader.Backtest.Matching.{on_got_tick}
use bftrader.Backtest.Traded.{reported}
use bftrader.Backtest.Invariant.{
  Inv, send_order_with_id-Inv, cancel_order-Inv, on_got_tick-Inv, start-Inv, stop-Inv,
}

-- The signals, slots and direct calls.
pub data Call : Type 0 where
  starts : BfGetTickReq → Call
  stops queries_account queries_position queries_orders : Call
  takes_id : Call
  sends_with_id : Text → BfSendOrderReq → Now → Call
  sends : BfSendOrderReq → Now → Call
  cancels : BfCancelOrderReq → Now → Call
  ticks : BfTickData → Now → Call

unfoldable pub step : Fpu → Gateway → Call → Option Gateway
step fpu g (starts req) = some (start req g)
step fpu g stops = some (stop g)
step fpu g queries_account = some (query_account g)
step fpu g queries_position = some (query_position g)
step fpu g queries_orders = some (query_orders g)
step fpu g takes_id = some (gen_order_id g).1
step fpu g (sends_with_id id req now) = send_order_with_id id req now g
step fpu g (sends req now) = send_order req now g
step fpu g (cancels req now) = cancel_order req now g
step fpu g (ticks tick now) = on_got_tick fpu tick now g

-- What the callers keep to: an order gets an identifier that no order has, and a volume is an
-- int32.
abbrev pub IsProper : Gateway → Call → Type 0
IsProper g (sends_with_id id req now) = (find id g.orders ≡ none) × (req.volume < 2 ^ 32)
IsProper g (sends req now) = (find (gen_order_id g).0 g.orders ≡ none) × (req.volume < 2 ^ 32)
IsProper g c = Unit {0}

-- A signal that is no trade and starts or ends no session keeps the invariant.
emit_all-Inv :
    {V : Type 0} (signal : V → Signal) (m : QMap V) (g : Gateway)
    → ((v : V) (h : Gateway) → Inv h → Inv (emit (signal v) h))
    → Inv g
    → Inv (emit_all signal m g)
unfolding emit_all
emit_all-Inv signal [] g keep v = v
emit_all-Inv signal ((k, x) ∷ m) g keep v =
    emit_all-Inv signal m (emit (signal x) g) keep (keep x g v)

emit-Inv :
    (x : Signal) (g : Gateway)
    → ((k : Text) → reported k (x ∷ g.sent) ≡ reported k g.sent)
    → Inv g
    → Inv (emit x g)
emit-Inv x g same v = record {
  balanced = v.balanced;
  traded = λ k. rw (same k) (v.traded k);
  paired = v.paired;
  orders_ok = v.orders_ok;
}

query_position-Inv : (g : Gateway) → Inv g → Inv (query_position g)
unfolding query_position reported
query_position-Inv g v =
    emit-Inv _ _ (λ k. refl)
      (emit_all-Inv got_position g.positions _ (λ p h. emit-Inv (got_position p) h (λ k. refl))
        (emit-Inv _ g (λ k. refl) v))

query_orders-Inv : (g : Gateway) → Inv g → Inv (query_orders g)
unfolding query_orders reported
query_orders-Inv g v =
    emit-Inv _ _ (λ k. refl)
      (emit_all-Inv got_order g.orders _ (λ p h. emit-Inv (got_order p) h (λ k. refl))
        (emit-Inv _ g (λ k. refl) v))

gen_order_id-Inv : (g : Gateway) → Inv g → Inv (gen_order_id g).1
unfolding gen_order_id
gen_order_id-Inv g v = record {
  balanced = v.balanced;
  traded = v.traded;
  paired = v.paired;
  orders_ok = v.orders_ok;
}

fresh_after :
    (g : Gateway) (id : Text) → find id g.orders ≡ none → find id (gen_order_id g).1.orders ≡ none
unfolding gen_order_id
fresh_after g id h = h

-- Every proper call (an order under a new identifier, an int32 volume) on a state that satisfies
-- the invariant returns and keeps the invariant: frozen volumes are what the working opening orders
-- add up to and positions are what the reported trades add up to, modulo 2 ^ 32.
pub step-Inv :
    (fpu : Fpu) (g : Gateway) (c : Call) → IsProper g c → Inv g → Returns Inv (step fpu g c)
unfolding step query_account send_order reported
step-Inv fpu g (starts req) p v = (start req g, refl, start-Inv req g)
step-Inv fpu g stops p v = (stop g, refl, stop-Inv g)
step-Inv fpu g queries_account p v = (query_account g, refl, emit-Inv _ g (λ k. refl) v)
step-Inv fpu g queries_position p v = (query_position g, refl, query_position-Inv g v)
step-Inv fpu g queries_orders p v = (query_orders g, refl, query_orders-Inv g v)
step-Inv fpu g takes_id p v = ((gen_order_id g).1, refl, gen_order_id-Inv g v)
step-Inv fpu g (sends_with_id id req now) p v = send_order_with_id-Inv id req now g p.0 p.1 v
step-Inv fpu g (sends req now) p v =
    send_order_with_id-Inv (gen_order_id g).0 req now (gen_order_id g).1
      (fresh_after g (gen_order_id g).0 p.0) p.1 (gen_order_id-Inv g v)
step-Inv fpu g (cancels req now) p v = cancel_order-Inv req now g v
step-Inv fpu g (ticks tick now) p v = on_got_tick-Inv fpu tick now g v

abbrev pub no_account : BfAccountData
no_account = record {
  accountid = [];
  prebalance = 0;
  balance = 0;
  available = 0;
  commission = 0;
  frozenmargin = 0;
  closeprofit = 0;
  positionprofit = 0;
}

-- The state of a new manager.
abbrev pub initial : Gateway
initial = record {
  order_id = 0;
  trade_id = 0;
  account = no_account;
  positions = [];
  orders = [];
  trades = [];
  sent = [];
}

-- The states that proper calls lead to.
pub data Reachable (fpu : Fpu) : Gateway → Type 0 where
  at_start : Reachable fpu initial
  after :
      {g g' : Gateway} (c : Call)
      → Reachable fpu g
      → IsProper g c
      → step fpu g c ≡ some g'
      → Reachable fpu g'

initial-Inv : Inv initial
unfolding find
initial-Inv = record { balanced = λ k. tt; traded = λ k. tt; paired = λ s e. refl; orders_ok = tt }

-- Every state that proper calls lead to from a new manager satisfies the invariant: frozen volumes
-- are what the working opening orders add up to and positions are what the reported trades add up
-- to, modulo 2 ^ 32.
pub Reachable-Inv : {fpu : Fpu} {g : Gateway} → Reachable fpu g → Inv g
Reachable-Inv at_start = initial-Inv
Reachable-Inv {fpu} (after {g = h} c r p e) =
    Returns_at Inv (step fpu h c) (step-Inv fpu h c p (Reachable-Inv r)) e
