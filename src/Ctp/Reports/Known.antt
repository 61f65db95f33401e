-- ===== src/Ctp/Reports/Known.antt =====
-- Which trades are reported: those of orders that the exchange reported in this login.
use bftrader.Prelude.{
  ℕ, ◌≡◌, refl, ◌∙◌, Bool, true, false, not, ◌&&◌, Option, none, some, List, [], ◌∷◌, Text, find,
  insert, find-insert, text_eq, text_eq_refl, ◌==◌, All, arith, if_both, Option-cases, inl, inr,
}
use bftrader.Proto.{notification_beginqueryorders, notification_endqueryorders}
use bftrader.Ctp.Reports.{
  RspInfo, OrderField, TradeField, got_error, got_trade, got_notification, TdSmSpi, report, failed,
  report_error, on_rsp_user_login, is_blank, bf_order_id, sys_order_id, remembered, begin_orders,
  end_orders, query_order, query_order_of, on_rsp_qry_order, on_rtn_order, trade_of, on_rtn_trade,
}

abbrev pub order_key : OrderField → Text
order_key o = sys_order_id o.exchange_id o.order_sys_id

find-on_rtn_order :
    (o : OrderField) (spi : TdSmSpi)
    → is_blank o.order_sys_id ≡ false
    → is_blank o.exchange_id ≡ false
    → find (order_key o) (on_rtn_order o spi).sysid2bfid ≡ some (bf_order_id o)
unfolding on_rtn_order remembered
find-on_rtn_order o spi n x =
    rw (n, x)
      (rw (find-insert (order_key o) (order_key o) (bf_order_id o) spi.sysid2bfid)
        (rw (text_eq_refl (order_key o)) refl))

find-on_rtn_order_other :
    (o : OrderField) (k : Text) (spi : TdSmSpi)
    → text_eq (order_key o) k ≡ false
    → find k (on_rtn_order o spi).sysid2bfid ≡ find k spi.sysid2bfid
unfolding on_rtn_order remembered
find-on_rtn_order_other o k spi other =
    if_both (λ s. find k s.sysid2bfid ≡ find k spi.sysid2bfid)
      (not (is_blank o.order_sys_id) && not (is_blank o.exchange_id))
      (record spi { sysid2bfid = insert (order_key o) (bf_order_id o) spi.sysid2bfid }) spi
      (rw (find-insert (order_key o) k (bf_order_id o) spi.sysid2bfid) (rw other refl)) refl

-- Reports on orders, the last of the list first.
abbrev pub on_rtn_orders : List OrderField → TdSmSpi → TdSmSpi
on_rtn_orders [] spi = spi
on_rtn_orders (o ∷ os) spi = on_rtn_order o (on_rtn_orders os spi)

find-on_rtn_orders :
    (k : Text) (os : List OrderField) (spi : TdSmSpi)
    → All (λ o. text_eq (order_key o) k ≡ false) os
    → find k (on_rtn_orders os spi).sysid2bfid ≡ find k spi.sysid2bfid
find-on_rtn_orders k [] spi others = refl
find-on_rtn_orders k (o ∷ os) spi others =
    find-on_rtn_order_other o k (on_rtn_orders os spi) others.0
    ∙ find-on_rtn_orders k os spi others.1

on_rtn_trade_known :
    (t : TradeField) (id : Text) (spi : TdSmSpi)
    → find (sys_order_id t.exchange_id t.order_sys_id) spi.sysid2bfid ≡ some id
    → on_rtn_trade t spi ≡ report (got_trade (trade_of id t)) spi
unfolding on_rtn_trade
on_rtn_trade_known t id spi e = rw (e, on_rtn_trade) refl

on_rtn_trade_unknown :
    (t : TradeField) (spi : TdSmSpi)
    → find (sys_order_id t.exchange_id t.order_sys_id) spi.sysid2bfid ≡ none
    → on_rtn_trade t spi ≡ spi
unfolding on_rtn_trade
on_rtn_trade_unknown t spi e = rw (e, on_rtn_trade) refl

-- After a report on a numbered order and any reports on orders with other numbers, a trade of that
-- order is reported under its identifier.
pub on_rtn_trade-on_rtn_order :
    (o : OrderField) (os : List OrderField) (t : TradeField) (spi : TdSmSpi)
    → is_blank o.order_sys_id ≡ false
    → is_blank o.exchange_id ≡ false
    → All (λ x. text_eq (order_key x) (order_key o) ≡ false) os
    → sys_order_id t.exchange_id t.order_sys_id ≡ order_key o
    → on_rtn_trade t (on_rtn_orders os (on_rtn_order o spi))
      ≡ report (got_trade (trade_of (bf_order_id o) t)) (on_rtn_orders os (on_rtn_order o spi))
on_rtn_trade-on_rtn_order o os t spi n x others e =
    on_rtn_trade_known t (bf_order_id o) (on_rtn_orders os (on_rtn_order o spi)) (
      rw e (
        find-on_rtn_orders (order_key o) os (on_rtn_order o spi) others
        ∙ find-on_rtn_order o spi n x))

-- What CTP reports on orders and trades: an answer to a query of the orders, with what it says of an
-- error, the identifier of the query and whether it is the last one; a report on an order; one on a
-- trade.
pub data OrderEvent : Type 0 where
  answered : Option OrderField → Option RspInfo → ℕ → Bool → OrderEvent
  ordered : OrderField → OrderEvent
  traded : TradeField → OrderEvent

abbrev order_event : (Text → Text) → OrderEvent → TdSmSpi → TdSmSpi
order_event gbk2utf16 (answered o info req_id is_last) spi =
    on_rsp_qry_order gbk2utf16 o info req_id is_last spi
order_event gbk2utf16 (ordered o) spi = on_rtn_order o spi
order_event gbk2utf16 (traded t) spi = on_rtn_trade t spi

abbrev pub order_events : (Text → Text) → List OrderEvent → TdSmSpi → TdSmSpi
order_events gbk2utf16 [] spi = spi
order_events gbk2utf16 (e ∷ es) spi = order_events gbk2utf16 es (order_event gbk2utf16 e spi)

abbrev pub IsUndotted : Text → Type 0
IsUndotted = All (λ c. (c == b'.') ≡ false)

undotted-ne : (k a b : Text) → IsUndotted k → text_eq k (sys_order_id a b) ≡ false
unfolding text_eq
undotted-ne [] [] b h = refl
undotted-ne [] (y ∷ a) b h = refl
undotted-ne (x ∷ k) [] b h = ground (arith, h.0)
undotted-ne (x ∷ k) (y ∷ a) b h = ground (arith, undotted-ne k a b h.1)

-- No report on the order with this key, and no order in an answer whose number holds a dot.
abbrev pub Leaves : Text → OrderEvent → Type 0
Leaves k (answered none info req_id is_last) = Unit
Leaves k (answered (some o) info req_id is_last) = IsUndotted o.order_sys_id
Leaves k (ordered o) = text_eq (order_key o) k ≡ false
Leaves k (traded t) = Unit

module _ (gbk2utf16 : Text → Text) (a b : Text) where
  abbrev Unknown : TdSmSpi → Type 0
  Unknown spi = find (sys_order_id a b) spi.sysid2bfid ≡ none

  remembered-Unknown :
      (key : Text) (o : OrderField) (spi : TdSmSpi)
      → IsUndotted key
      → Unknown spi
      → Unknown (remembered key o spi)
  unfolding remembered
  remembered-Unknown key o spi u h =
      if_both Unknown (not (is_blank o.order_sys_id) && not (is_blank o.exchange_id))
        (record spi { sysid2bfid = insert key (bf_order_id o) spi.sysid2bfid }) spi
        (rw (find-insert key (sys_order_id a b) (bf_order_id o) spi.sysid2bfid)
          (rw (undotted-ne key a b u) h))
        h

  begin_orders-Unknown :
      (req_id : ℕ) (spi : TdSmSpi) → Unknown spi → Unknown (begin_orders req_id spi)
  unfolding begin_orders
  begin_orders-Unknown req_id spi h =
      if_both Unknown (spi.query_orders_req_id == 0)
        (report (got_notification notification_beginqueryorders)
          (record spi { query_orders_req_id = req_id }))
        spi h h

  end_orders-Unknown :
      (is_last : Bool) (spi : TdSmSpi) → Unknown spi → Unknown (end_orders is_last spi)
  unfolding end_orders
  end_orders-Unknown is_last spi h =
      if_both Unknown (is_last && not (spi.query_orders_req_id == 0))
        (report (got_notification notification_endqueryorders)
          (record spi { query_orders_req_id = 0 }))
        spi h h

  report_error-Unknown :
      (info : Option RspInfo) (req_id : ℕ) (spi : TdSmSpi)
      → Unknown spi
      → Unknown (report_error gbk2utf16 info req_id spi)
  report_error-Unknown none req_id spi h = h
  report_error-Unknown (some info) req_id spi h =
      if_both Unknown (info.error_id == 0) spi
        (report (got_error info.error_id (gbk2utf16 info.error_msg) req_id) spi) h h

  query_order_of-Unknown :
      (failed : Bool) (o : Option OrderField) (info : Option RspInfo) (req_id : ℕ) (is_last : Bool)
      (spi : TdSmSpi)
      → Leaves (sys_order_id a b) (answered o info req_id is_last)
      → Unknown spi
      → Unknown (query_order_of failed o req_id spi)
  unfolding query_order
  query_order_of-Unknown true o info req_id is_last spi u h = h
  query_order_of-Unknown false none info req_id is_last spi u h = h
  query_order_of-Unknown false (some o) info req_id is_last spi u h =
      begin_orders-Unknown req_id (remembered o.order_sys_id o spi)
        (remembered-Unknown o.order_sys_id o spi u h)

  on_rtn_trade-Unknown :
      (t : TradeField) (spi : TdSmSpi) → Unknown spi → Unknown (on_rtn_trade t spi)
  unfolding on_rtn_trade
  on_rtn_trade-Unknown t spi h =
      elim (Option-cases (find (sys_order_id t.exchange_id t.order_sys_id) spi.sysid2bfid)) [
        | inl e ↦ rw (e, on_rtn_trade) h
        | inr (id, e) ↦ rw (e, on_rtn_trade) h
      ]

  order_event-Unknown :
      (e : OrderEvent) (spi : TdSmSpi)
      → Leaves (sys_order_id a b) e
      → Unknown spi
      → Unknown (order_event gbk2utf16 e spi)
  unfolding on_rsp_qry_order
  order_event-Unknown (answered o info req_id is_last) spi u h =
      end_orders-Unknown is_last
        (query_order_of (failed info) o req_id (report_error gbk2utf16 info req_id spi))
        (query_order_of-Unknown (failed info) o info req_id is_last
          (report_error gbk2utf16 info req_id spi) u (report_error-Unknown info req_id spi h))
  order_event-Unknown (ordered o) spi u h = find-on_rtn_order_other o (sys_order_id a b) spi u ∙ h
  order_event-Unknown (traded t) spi u h = on_rtn_trade-Unknown t spi h

  order_events-Unknown :
      (es : List OrderEvent) (spi : TdSmSpi)
      → All (Leaves (sys_order_id a b)) es
      → Unknown spi
      → Unknown (order_events gbk2utf16 es spi)
  order_events-Unknown [] spi u h = h
  order_events-Unknown (e ∷ es) spi u h =
      order_events-Unknown es (order_event gbk2utf16 e spi) u.1 (order_event-Unknown e spi u.0 h)

-- After a successful login, whatever answers to queries of the orders come in, with errors or
-- without and the last one marked or not, and whatever reports on other orders and on trades, in
-- any order, a trade is ignored until the report on its own order, if no number that the exchange
-- gave to an order of an answer holds a dot.
pub on_rtn_trade-order_events :
    (gbk2utf16 : Text → Text) (front session req_id : ℕ) (es : List OrderEvent) (t : TradeField)
    (spi : TdSmSpi)
    → All (Leaves (sys_order_id t.exchange_id t.order_sys_id)) es
    → let now =
        order_events gbk2utf16 es
          (on_rsp_user_login gbk2utf16 front session none req_id true spi) in
      on_rtn_trade t now ≡ now
unfolding on_rsp_user_login find
on_rtn_trade-order_events gbk front session req_id es t spi u =
    on_rtn_trade_unknown t _ (order_events-Unknown gbk t.exchange_id t.order_sys_id es _ u refl)
