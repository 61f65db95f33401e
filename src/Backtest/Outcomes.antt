-- ===== src/Backtest/Outcomes.antt =====
-- What a tick leaves, what a cancel undoes, and what no call reopens.
use bftrader.Prelude.{
  ℕ, ◌≡◌, Bool, true, false, ◌&&◌, ◌||◌, none, some, [], ◌∷◌, Text, QMap, AllValues, AllValues-find,
  find, find-insert, text_eq_refl, find-replace, ◌++◌, ◌<◌, ◌^◌, find-modify, add32, sub32,
  if◌then◌else◌, text_eq, arith, Ensures, Returns, Returns-of, result_of, Option-cases, Bool-cases,
  inl, inr,
}
use bftrader.Proto.{
  BfOrderData, BfPositionData, BfSendOrderReq, BfCancelOrderReq, BfTickData, Fpu, is_open, is_close,
  is_nottraded, is_short,
}
use bftrader.Backtest.State.{Gateway, Now}
use bftrader.Backtest.Orders.{
  update_frozen, send_order_with_id, cancel_order, checked_order, stored, withdrawn,
  send_order_with_id-eq-stored, cancel_order-eq-withdrawn, cancel_order_idle,
}
use bftrader.Backtest.Safety.{order_ok, update_frozen-ne-none}
use bftrader.Backtest.Matching.{
  settle, fill_open, fill_close, on_long_open, on_short_open, on_long_close, on_short_close,
  match_order, match_orders, on_got_tick,
}
use bftrader.Backtest.Fills.{open_key, is_sided, is_done, match_orders_rule}
use bftrader.Backtest.Frozen.{IsFrozen, pending}
use bftrader.Backtest.Invariant.{Inv, stored-Inv, sending_returns, on_got_tick-Inv}

-- A working order that the tick's price reaches.
abbrev pub is_crossed : Fpu → BfTickData → BfOrderData → Bool
is_crossed fpu tick o =
    is_nottraded o.status
    && (text_eq o.symbol tick.symbol
        && (text_eq o.exchange tick.exchange
            && (is_sided o.direction
                && ((is_open o.offset || is_close o.offset)
                    && (if is_short o.direction
                        then fpu.le o.price tick.lastprice
                        else fpu.le tick.lastprice o.price)))))

module _ (fpu : Fpu) (tick : BfTickData) (now : Now) where
  match_order-not_crossed :
      (o : BfOrderData) (g : Gateway)
      → Ensures (λ r. is_crossed fpu tick r.0 ≡ false) (match_order fpu o tick now g)
  unfolding match_order on_long_open on_short_open on_long_close on_short_close fill_open fill_close
      settle
  match_order-not_crossed o g = ground arith

  match_orders-not_crossed :
      (os : QMap BfOrderData) (g : Gateway)
      → Ensures
          (λ r. AllValues (λ o. is_crossed fpu tick o ≡ false) r.0)
          (match_orders fpu os tick now g)
  unfolding match_orders
  match_orders-not_crossed [] g = tt
  match_orders-not_crossed ((id, o) ∷ os) g = elim (Option-cases (match_order fpu o tick now g)) [
    | inl e ↦ rw e tt
    | inr ((o', g'), e) ↦ rw e (elim (Option-cases (match_orders fpu os tick now g')) [
      | inl e' ↦ rw e' tt
      | inr ((os', g''), e') ↦ rw e' (
        result_of _ _ e (match_order-not_crossed o g),
        result_of _ _ e' (match_orders-not_crossed os g'),
      )
    ])
  ]

  tick_leaves_none :
      (g : Gateway)
      → Ensures
          (λ g'. AllValues (λ o. is_crossed fpu tick o ≡ false) g'.orders)
          (on_got_tick fpu tick now g)
  unfolding on_got_tick
  tick_leaves_none g = elim (Option-cases (match_orders fpu g.orders tick now g)) [
    | inl e ↦ rw e tt
    | inr ((os, g'), e) ↦ rw e (result_of _ _ e (match_orders-not_crossed g.orders g))
  ]

  -- In a state that satisfies the invariant a tick is handled to the end and leaves no working
  -- order that its price reaches.
  pub on_got_tick-not_crossed :
      (g : Gateway)
      → Inv g
      → Returns
          (λ g'. AllValues (λ o. is_crossed fpu tick o ≡ false) g'.orders)
          (on_got_tick fpu tick now g)
  on_got_tick-not_crossed g v =
      let (g', e, _) = on_got_tick-Inv fpu tick now g v in
      Returns-of _ _ (g', e) (tick_leaves_none g)

-- Releasing what an order froze gives the positions back.
update_frozen-undo :
    (o : BfOrderData) (ps ps' ps'' : QMap BfPositionData) (volume : Text → ℕ) (k : Text)
    → IsFrozen ps volume
    → update_frozen add32 o ps ≡ some ps'
    → update_frozen sub32 o ps' ≡ some ps''
    → find k ps'' ≡ find k ps
unfolding update_frozen
update_frozen-undo o ps ps' ps'' volume k f e e' = ground (
  arith,
  f k,
  find-modify (open_key o) k (λ q. record q { frozen = add32 q.frozen o.totalvolume }) ps,
  find-modify (open_key o) k (λ q. record q { frozen = sub32 q.frozen o.totalvolume }) ps',
)

-- A done order freezes nothing.
update_frozen_done :
    (op : ℕ → ℕ → ℕ) (o : BfOrderData) (ps ps' : QMap BfPositionData) (k : Text)
    → is_done o.status ≡ true
    → update_frozen op o ps ≡ some ps'
    → find k ps' ≡ find k ps
unfolding update_frozen
update_frozen_done op o ps ps' k done e = ground arith

-- In a state that satisfies the invariant, sending an order under a new identifier with an int32
-- volume and cancelling it at once both return and give every position back as it was.
pub cancel-send :
    (req : BfSendOrderReq) (cancel : BfCancelOrderReq) (now later : Now) (g : Gateway)
    → find cancel.bforderid g.orders ≡ none
    → req.volume < 2 ^ 32
    → Inv g
    → (g' g'' : Gateway) × (send_order_with_id cancel.bforderid req now g ≡ some g')
      × (cancel_order cancel later g' ≡ some g'')
      × ((k : Text) → find k g''.positions ≡ find k g.positions)
cancel-send req cancel now later g fresh w v =
    let id = cancel.bforderid in
    let (refused, ps, e, u) = sending_returns id req now g fresh w v in
    let o = checked_order refused id req now in
    let g' = stored id o ps g in
    let v' = stored-Inv id req now g fresh w v refused ps e u in
    let sent = send_order_with_id-eq-stored id req now g refused ps e u in
    let found : find id g'.orders ≡ some o = rw (find-insert, text_eq_refl) in
    let ok = AllValues-find (λ x. order_ok ps x ≡ true) id g'.orders v'.orders_ok found in
    elim (Bool-cases (is_done o.status)) [
      | inl dead ↦ (
        g',
        g',
        sent,
        cancel_order_idle cancel later g' (inr (o, found, dead)),
        λ k. update_frozen_done add32 o g.positions ps k dead u,
      )
      | inr live ↦ elim (Option-cases (update_frozen sub32 o ps)) [
        | inl z ↦ absurd (update_frozen-ne-none sub32 o ps v'.paired ok z)
        | inr (ps', u') ↦ (
          g',
          withdrawn id o later ps' g',
          sent,
          cancel_order-eq-withdrawn cancel later g' o ps' found live u',
          λ k. update_frozen-undo o g.positions ps ps' (λ j. pending j g.orders) k v.balanced u u',
        )
      ]
    ]

module _ (fpu : Fpu) (tick : BfTickData) (now : Now) (id : Text) (o : BfOrderData) where
  match_order_done :
      (u : BfOrderData) (g : Gateway)
      → is_done u.status ≡ true
      → match_order fpu u tick now g ≡ some (u, g)
  unfolding match_order
  match_order_done u g done = ground arith

  match_order-keeps_done :
      is_done o.status ≡ true
      → (done rest : QMap BfOrderData) → (j : Text) → (u : BfOrderData) → (g : Gateway)
      → find id (done ++ (j, u) ∷ rest) ≡ some o
      → Ensures (λ r. find id (done ++ (j, r.0) ∷ rest) ≡ some o) (match_order fpu u tick now g)
  match_order-keeps_done dead done rest j u g h =
      elim (Option-cases (match_order fpu u tick now g)) [
        | inl e ↦ rw e tt
        | inr ((u', g'), e) ↦ rw e (
            find-replace done rest id j u u' (λ (q : u ≡ o). ground (arith, match_order_done u g))
              h)
      ]

  tick_keeps_done :
      (g : Gateway)
      → find id g.orders ≡ some o
      → is_done o.status ≡ true
      → Ensures (λ g'. find id g'.orders ≡ some o) (on_got_tick fpu tick now g)
  unfolding on_got_tick
  tick_keeps_done g h dead = elim (Option-cases (match_orders fpu g.orders tick now g)) [
    | inl e ↦ rw e tt
    | inr ((os, g'), e) ↦ rw e (
        result_of _ _ e (
          match_orders_rule fpu tick now (λ os _. find id os ≡ some o) (match_order-keeps_done dead)
            [] g.orders g h))
  ]

  -- In a state that satisfies the invariant a tick is handled to the end and an order that is
  -- traded or cancelled is afterwards what it was.
  pub on_got_tick_done :
      (g : Gateway)
      → Inv g
      → find id g.orders ≡ some o
      → is_done o.status ≡ true
      → Returns (λ g'. find id g'.orders ≡ some o) (on_got_tick fpu tick now g)
  on_got_tick_done g v h dead =
      let (g', e, _) = on_got_tick-Inv fpu tick now g v in
      Returns-of _ _ (g', e) (tick_keeps_done g h dead)
