-- ===== src/Backtest/Orders.antt =====
-- btgateway/gatewaymgr.cpp: sending and cancelling an order.
use bftrader.Prelude.{
  ℕ, Bool, true, false, not, ◌&&◌, ◌||◌, Option, none, some, [], Text, QMap, find, contains, modify,
  insert, add32, sub32, slt32, if◌then◌else◌, ◌>>=◌, ◌≡◌, ◌⊎◌, inl, inr,
}
use bftrader.Proto.{
  status_nottraded, status_cancelled, BfSendOrderReq, BfCancelOrderReq, BfOrderData, BfPositionData,
  is_long, is_short, is_net, is_open, is_close, is_limitprice, is_nottraded, is_alltraded,
  is_cancelled,
}
use bftrader.Backtest.State.{Gateway, Now, got_order, emit, long_key, short_key, gen_order_id}

-- A read through the pointer that positions_.value(key) returns; `none` if it is null.
abbrev pub position_of : Text → QMap BfPositionData → Option ℕ
position_of key ps = elim (find key ps) [ none ↦ none | some p ↦ some p.position ]

-- The two checks of a closing order against the position that it closes.
unfoldable pub lacks_position : BfSendOrderReq → QMap BfPositionData → Option Bool
lacks_position req ps =
    if is_close req.offset && is_short req.direction
    then (do held ← position_of (long_key req.symbol req.exchange) ps; some (slt32 held req.volume))
    else if is_close req.offset && (is_long req.direction || is_net req.direction)
    then (do
      held ← position_of (short_key req.symbol req.exchange) ps
      some (slt32 held req.volume))
    else some false

-- Whether the order is cancelled at once: the checks of sendOrderWithId in their order.
unfoldable pub is_refused : BfSendOrderReq → QMap BfPositionData → Option Bool
is_refused req ps =
    if not (contains (long_key req.symbol req.exchange) ps)
    then some true
    else if not (is_limitprice req.pricetype)
    then some true
    else if slt32 req.volume 1 || slt32 500 req.volume
    then some true
    else if not (is_open req.offset) && not (is_close req.offset)
    then some true
    else lacks_position req ps

-- An update of the frozen volume through a pointer into the map.
abbrev pub set_frozen : (ℕ → ℕ → ℕ) → Text → ℕ → QMap BfPositionData → Option (QMap BfPositionData)
set_frozen op key volume ps = elim (find key ps) [
  | none ↦ none
  | some p ↦ some (modify key (λ q. record q { frozen = op q.frozen volume }) ps)
]

-- The volume of an opening order is frozen on its side while the order works.
unfoldable pub update_frozen :
    (ℕ → ℕ → ℕ) → BfOrderData → QMap BfPositionData → Option (QMap BfPositionData)
update_frozen op order ps =
    if is_nottraded order.status && (is_open order.offset && is_short order.direction)
    then set_frozen op (short_key order.symbol order.exchange) order.totalvolume ps
    else if is_nottraded order.status
        && (is_open order.offset && (is_long order.direction || is_net order.direction))
    then set_frozen op (long_key order.symbol order.exchange) order.totalvolume ps
    else some ps

unfoldable pub new_order : Text → BfSendOrderReq → Now → BfOrderData
new_order bforderid req now = record {
  symbol = req.symbol;
  exchange = req.exchange;
  bforderid = bforderid;
  direction = req.direction;
  offset = req.offset;
  price = req.price;
  totalvolume = req.volume;
  tradedvolume = 0;
  status = status_nottraded;
  insertdate = now.date;
  inserttime = now.time;
  canceltime = [];
}

abbrev pub cancelled : Now → BfOrderData → BfOrderData
cancelled now order = record order { status = status_cancelled; canceltime = now.time }

-- The order once the checks have run: a refused one is cancelled at once.
abbrev pub checked_order : Bool → Text → BfSendOrderReq → Now → BfOrderData
checked_order refused bforderid req now =
    if refused then cancelled now (new_order bforderid req now) else new_order bforderid req now

-- The state once the order is stored and sent.
abbrev pub stored : Text → BfOrderData → QMap BfPositionData → Gateway → Gateway
stored bforderid order positions g =
    emit (got_order order)
      (record g { positions = positions; orders = insert bforderid order g.orders })

unfoldable pub send_order_with_id : Text → BfSendOrderReq → Now → Gateway → Option Gateway
send_order_with_id bforderid req now g = do
  refused ← is_refused req g.positions
  let order = checked_order refused bforderid req now
  positions ← update_frozen add32 order g.positions
  some (stored bforderid order positions g)

unfoldable pub send_order : BfSendOrderReq → Now → Gateway → Option Gateway
send_order req now g =
    let (bforderid, g') = gen_order_id g in send_order_with_id bforderid req now g'

abbrev pub withdrawn : Text → BfOrderData → Now → QMap BfPositionData → Gateway → Gateway
withdrawn bforderid order now positions g =
    emit (got_order (cancelled now order))
      (record g { positions = positions; orders = modify bforderid (cancelled now) g.orders })

-- cancelOrder once the order has been found.
unfoldable pub cancel_found : Text → BfOrderData → Now → Gateway → Option Gateway
cancel_found bforderid order now g =
    if is_alltraded order.status || is_cancelled order.status then some g else (do
      positions ← update_frozen sub32 order g.positions
      some (withdrawn bforderid order now positions g))

unfoldable pub cancel_order : BfCancelOrderReq → Now → Gateway → Option Gateway
cancel_order req now g = elim (find req.bforderid g.orders) [
  | none ↦ some g
  | some order ↦ cancel_found req.bforderid order now g
]

-- The results of the two calls, when nothing stops them.
pub send_order_with_id-eq-stored :
    (id : Text) (req : BfSendOrderReq) (now : Now) (g : Gateway) (refused : Bool)
    (ps : QMap BfPositionData)
    → is_refused req g.positions ≡ some refused
    → update_frozen add32 (checked_order refused id req now) g.positions ≡ some ps
    → send_order_with_id id req now g ≡ some (stored id (checked_order refused id req now) ps g)
unfolding send_order_with_id
send_order_with_id-eq-stored id req now g refused ps e e' = rw (e, e')

pub cancel_order-eq-withdrawn :
    (req : BfCancelOrderReq) (now : Now) (g : Gateway) (o : BfOrderData) (ps : QMap BfPositionData)
    → find req.bforderid g.orders ≡ some o
    → is_alltraded o.status || is_cancelled o.status ≡ false
    → update_frozen sub32 o g.positions ≡ some ps
    → cancel_order req now g ≡ some (withdrawn req.bforderid o now ps g)
unfolding cancel_order cancel_found
cancel_order-eq-withdrawn req now g o ps e live e' = rw (e, cancel_order) (rw (live, e'))

-- Without a working order of that id a cancel does nothing.
pub cancel_order_idle :
    (req : BfCancelOrderReq) (now : Now) (g : Gateway)
    → (find req.bforderid g.orders ≡ none)
      ⊎ ((o : BfOrderData) × (find req.bforderid g.orders ≡ some o)
          × (is_alltraded o.status || is_cancelled o.status ≡ true))
    → cancel_order req now g ≡ some g
unfolding cancel_order cancel_found
cancel_order_idle req now g (inl e) = rw (e, cancel_order)
cancel_order_idle req now g (inr (o, e, dead)) = rw (e, cancel_order) (rw dead)
