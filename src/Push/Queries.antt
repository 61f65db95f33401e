-- ===== src/Push/Queries.antt =====
-- The answers to the two queries of the simulated exchange, as they reach a client of btgateway.
use mathlib.Core.List.{append_assoc, append-nil, reverse, reverse-cons, map-append}
use bftrader.Prelude.{
  ◌≡◌, refl, sym, ap, ◌∙◌, true, List, [], ◌∷◌, ◌++◌, map, some, Text, QMap, find, arith,
}
use bftrader.Proto.{
  BfNotificationType, notification_beginqueryposition, notification_endqueryposition,
  notification_beginqueryorders, notification_endqueryorders,
}
use bftrader.Backtest.State.{
  Signal, Gateway, got_order, got_position, got_notification, emit, emit_all, query_position,
  query_orders,
}
use bftrader.Push.Messages.{Any, order, position}
use bftrader.Push.Clients.{GatewayClient}
use bftrader.Push.Service.{PushService, values}
use bftrader.Push.Gateways.{BtEvent, manager, bt_events}
use bftrader.Push.Subscriptions.{received, with_messages}
use bftrader.Push.Received.{bt_messages, bt_messages_of, bt_events-Gets}

-- The signals that were emitted, the oldest first, as the push service gets them.
abbrev pub events_of : Gateway → List BtEvent
events_of g = map manager (reverse g.sent)

abbrev pub silent : Gateway → Gateway
silent g = record g { sent = [] }

bt_messages-append :
    (xs ys : List BtEvent) → bt_messages (xs ++ ys) ≡ bt_messages xs ++ bt_messages ys
bt_messages-append [] ys = refl
bt_messages-append (x ∷ xs) ys =
    rw (bt_messages-append xs ys)
      (sym (append_assoc (bt_messages_of x) (bt_messages xs) (bt_messages ys)))

messages-emit :
    (x : Signal) (g : Gateway)
    → bt_messages (events_of (emit x g)) ≡ bt_messages (events_of g) ++ bt_messages_of (manager x)
messages-emit x g = rw (
  reverse-cons x g.sent,
  map-append manager (reverse g.sent) (x ∷ []),
  bt_messages-append (map manager (reverse g.sent)) (manager x ∷ []),
  append-nil (bt_messages_of (manager x)),
)

module _ {V : Type 0} (signal : V → Signal) (message : V → Any)
    (same : (v : V) → bt_messages_of (manager (signal v)) ≡ message v ∷ []) where
  messages-emit_all :
      (m : QMap V) (g : Gateway)
      → bt_messages (events_of (emit_all signal m g))
        ≡ bt_messages (events_of g) ++ map message (values m)
  unfolding emit_all values
  messages-emit_all [] g = sym (append-nil (bt_messages (events_of g)))
  messages-emit_all ((k, v) ∷ m) g =
      messages-emit_all m (emit (signal v) g)
      ∙ rw (messages-emit (signal v) g, same v)
          (append_assoc (bt_messages (events_of g)) (message v ∷ []) (map message (values m)))

  messages-bracket :
      (first last : BfNotificationType) (m : QMap V) (g : Gateway)
      → bt_messages (
          events_of (
            emit
              (got_notification last)
              (emit_all signal m (emit (got_notification first) (silent g)))))
        ≡ map message (values m)
  messages-bracket first last m g =
      let g' : Gateway = emit_all signal m (emit (got_notification first) (silent g)) in
      messages-emit (got_notification last) g'
      ∙ append-nil (bt_messages (events_of g'))
      ∙ messages-emit_all m (emit (got_notification first) (silent g))

received_all :
    {V : Type 0} (message : V → Any) (c : GatewayClient) (vs : List V)
    → ((v : V) → received c.req (message v ∷ []) ≡ message v ∷ [])
    → received c.req (map message vs) ≡ map message vs
received_all message c [] h = refl
received_all message c (v ∷ vs) h = ground (arith, h v, received_all message c vs h)

module _ (g : Gateway) where
  messages-query_position :
      bt_messages (events_of (query_position (silent g))) ≡ map position (values g.positions)
  unfolding query_position
  messages-query_position =
      messages-bracket got_position position (λ v. refl) notification_beginqueryposition
        notification_endqueryposition g.positions g

  messages-query_orders :
      bt_messages (events_of (query_orders (silent g))) ≡ map order (values g.orders)
  unfolding query_orders
  messages-query_orders =
      messages-bracket got_order order (λ v. refl) notification_beginqueryorders
        notification_endqueryorders g.orders g

  -- After queryPosition (queryOrders) of the simulated exchange, once the push service of btgateway
  -- has handled the signals, a client that handles trades has its queue followed by one message for
  -- each position (order), in the order of their keys, and none of the two notifications around
  -- them.
  pub query-Gets :
      (k : Text) (s : PushService) (c : GatewayClient)
      → find k s.clients ≡ some c
      → c.req.tradehandler ≡ true
      → (find k (bt_events (events_of (query_position (silent g))) s).clients
          ≡ some (with_messages (map position (values g.positions)) c))
        × (find k (bt_events (events_of (query_orders (silent g))) s).clients
            ≡ some (with_messages (map order (values g.orders)) c))
  query-Gets k s c f t = (
    (bt_events-Gets (events_of (query_position (silent g))) k s c f).0
        ∙ ap (λ ms. some (with_messages ms c))
            (ap (received c.req) messages-query_position
              ∙ received_all position c (values g.positions) (λ v. rw t)),
    (bt_events-Gets (events_of (query_orders (silent g))) k s c f).0
        ∙ ap (λ ms. some (with_messages ms c))
            (ap (received c.req) messages-query_orders
              ∙ received_all order c (values g.orders) (λ v. rw t)),
  )
