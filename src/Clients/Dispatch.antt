-- ===== src/Clients/Dispatch.antt =====
-- The reader thread of a gateway client, cta/gatewaymgr.cpp and its copy in datarecorder: what is
-- pushed becomes signals. The other end of the stream is in Push and SafeQueue.
use mathlib.Core.Path.{subst}
use mathlib.Core.List.{append_assoc}
use bftrader.Prelude.{
  ◌≡◌, ◌≤◌, refl, sym, ap, ◌∙◌, true, Option, none, some, List, [], ◌∷◌, ◌++◌, map, length, Text,
  ◌>>=◌, arith, Returns, All, Bool-cases, inl, inr,
}
use bftrader.Proto.{BfOrderData, BfTradeData, BfPositionData, BfAccountData, BfTickData}
use bftrader.SafeQueue.Streams.{Stream, Reachable}
use bftrader.SafeQueue.Delivery.{Reachable-accounts, Reachable-delivered}
use bftrader.Push.Messages.{
  BfConnectPushReq, BfPingData, BfErrorData, BfLogData, BfNotificationData, Any, tick, ping, order,
  account, position, trade, error, log, notification, other,
}
use bftrader.Push.Subscriptions.{receives, received}

-- The signals of GatewayMgr, with the id of the gateway.
pub data Got : Type 0 where
  got_tick : Text → BfTickData → Got
  got_ping : Text → BfPingData → Got
  got_order : Text → BfOrderData → Got
  got_account : Text → BfAccountData → Got
  got_position : Text → BfPositionData → Got
  got_trade : Text → BfTradeData → Got
  got_error : Text → BfErrorData → Got
  got_log : Text → BfLogData → Got
  got_notification : Text → BfNotificationData → Got

-- `none` is a call of qFatal.
unfoldable pub dispatch_push : Text → Any → Option Got
dispatch_push id (tick data') = some (got_tick id data')
dispatch_push id (ping data') = some (got_ping id data')
dispatch_push id (order data') = some (got_order id data')
dispatch_push id (account data') = some (got_account id data')
dispatch_push id (position data') = some (got_position id data')
dispatch_push id (trade data') = some (got_trade id data')
dispatch_push id (error data') = some (got_error id data')
dispatch_push id (log data') = some (got_log id data')
dispatch_push id (notification data') = some (got_notification id data')
dispatch_push id (other name) = none

-- What the thread does: the signals, then the posted call of onGatewayDisconnected.
pub record Read : Type 0 where
  pub emitted : List Got
  pub disconnected : Text

-- The loop of the thread, on the messages that are read before the stream ends.
unfoldable pub read_push : Text → List Any → Option Read
unfolding dispatch_push
read_push id [] = some (record { emitted = []; disconnected = id })
read_push id (any ∷ rest) = do
  got ← dispatch_push id any
  r ← read_push id rest
  some (record r { emitted = got ∷ r.emitted })

-- The gateway that a signal names, and the message in it.
abbrev pub source : Got → Text
source (got_tick id _) = id
source (got_ping id _) = id
source (got_order id _) = id
source (got_account id _) = id
source (got_position id _) = id
source (got_trade id _) = id
source (got_error id _) = id
source (got_log id _) = id
source (got_notification id _) = id

abbrev pub content : Got → Any
content (got_tick _ data') = tick data'
content (got_ping _ data') = ping data'
content (got_order _ data') = order data'
content (got_account _ data') = account data'
content (got_position _ data') = position data'
content (got_trade _ data') = trade data'
content (got_error _ data') = error data'
content (got_log _ data') = log data'
content (got_notification _ data') = notification data'

abbrev IsKnown : Any → Type 0
IsKnown (other name) = ⊥
IsKnown any = Unit {0}

abbrev pub Carries : Text → List Any → Read → Type 0
Carries id ms r =
    (map content r.emitted ≡ ms) × All (λ g. source g ≡ id) r.emitted × (r.disconnected ≡ id)

dispatch_push-known :
    (id : Text) (m : Any)
    → IsKnown m
    → Returns (λ g. (content g ≡ m) × (source g ≡ id)) (dispatch_push id m)
unfolding dispatch_push
dispatch_push-known id (other name) k = absurd k
dispatch_push-known id (tick data') k = (_, refl, (refl, refl))
dispatch_push-known id (ping data') k = (_, refl, (refl, refl))
dispatch_push-known id (order data') k = (_, refl, (refl, refl))
dispatch_push-known id (account data') k = (_, refl, (refl, refl))
dispatch_push-known id (position data') k = (_, refl, (refl, refl))
dispatch_push-known id (trade data') k = (_, refl, (refl, refl))
dispatch_push-known id (error data') k = (_, refl, (refl, refl))
dispatch_push-known id (log data') k = (_, refl, (refl, refl))
dispatch_push-known id (notification data') k = (_, refl, (refl, refl))

-- Known messages are all dispatched.
read_push-known :
    (id : Text) (ms : List Any) → All IsKnown ms → Returns (Carries id ms) (read_push id ms)
unfolding read_push
read_push-known id [] k = (_, refl, (refl, tt, refl))
read_push-known id (m ∷ ms) k =
    let (g, e, (c, s)) = dispatch_push-known id m k.0 in
    let (r, e', (cs, ss, d)) = read_push-known id ms k.1 in
    (record r { emitted = g ∷ r.emitted }, rw e (rw e'), (ground (arith, c, cs), (s, ss), d))

All-front {ℓ κ} : {A : Type ℓ} (P : A → Type κ) (xs ys : List A) → All P (xs ++ ys) → All P xs
All-front P [] ys a = tt
All-front P (x ∷ xs) ys a = (a.0, All-front P xs ys a.1)

receives-IsKnown : (r : BfConnectPushReq) (m : Any) → receives r m ≡ true → IsKnown m
receives-IsKnown r (other name) e = cc
receives-IsKnown r (tick data') e = tt
receives-IsKnown r (ping data') e = tt
receives-IsKnown r (order data') e = tt
receives-IsKnown r (account data') e = tt
receives-IsKnown r (position data') e = tt
receives-IsKnown r (trade data') e = tt
receives-IsKnown r (error data') e = tt
receives-IsKnown r (log data') e = tt
receives-IsKnown r (notification data') e = tt

received-IsKnown : (r : BfConnectPushReq) (ms : List Any) → All IsKnown (received r ms)
received-IsKnown r [] = tt
received-IsKnown r (m ∷ ms) = elim (Bool-cases (receives r m)) [
  | inl e ↦ rw e (receives-IsKnown r m e, received-IsKnown r ms)
  | inr e ↦ rw e (received-IsKnown r ms)
]

All-received :
    (P : Any → Type 0) (s : Stream Any) (read unread : List Any)
    → Reachable s
    → s.delivered ≡ read ++ unread
    → All P s.sent
    → All P read
All-received P s read unread reach e a =
    let (sent, _) = Reachable-accounts reach in
    let (written, _, _) = Reachable-delivered reach in
    All-front P read unread (
      subst (All P) e (
        All-front P s.delivered s.lost
          (subst (All P) written (All-front P s.written _ (subst (All P) sent a)))))

-- When the messages enqueued for a reachable stream are those its client receives of some list, and
-- the client reads the first of those whose write succeeded, its reader thread returns and emits
-- one signal for each message read, with the id of its gateway: the contents of the signals,
-- followed by what was delivered but not read, by what a failed write lost, and by what was deleted
-- or is still queued, are those messages in their order. Then it reports the disconnect of that
-- gateway. One message at most is lost, and only where the stream asked for the disconnect of the
-- client.
pub read_push-received :
    (id : Text) (r : BfConnectPushReq) (ms read unread : List Any) (s : Stream Any)
    → Reachable s
    → s.sent ≡ received r ms
    → s.delivered ≡ read ++ unread
    → Returns
        (λ rd.
          ((map content rd.emitted ++ unread) ++ (s.lost ++ (s.queue.deleted ++ s.queue.items))
            ≡ received r ms)
          × All (λ g. source g ≡ id) rd.emitted
          × (rd.disconnected ≡ id)
          × (length s.lost ≡ s.disconnects)
          × (s.disconnects ≤ 1))
        (read_push id read)
read_push-received id r ms read unread s reach e part =
    let (sent, _) = Reachable-accounts reach in
    let (written, losses, one) = Reachable-delivered reach in
    let rest = s.queue.deleted ++ s.queue.items in
    let known : All IsKnown s.sent = subst (All IsKnown) (sym e) (received-IsKnown r ms) in
    let (rd, e', (c, src, d)) =
      read_push-known id read (All-received IsKnown s read unread reach part known) in
    let all =
      ap (λ (xs : List Any). (xs ++ unread) ++ (s.lost ++ rest)) c
      ∙ ap (λ (xs : List Any). xs ++ (s.lost ++ rest)) (sym part)
      ∙ sym (append_assoc s.delivered s.lost rest)
      ∙ ap (λ (xs : List Any). xs ++ rest) (sym written)
      ∙ sym sent
      ∙ e in
    (rd, e', (all, src, d, losses, one))
