-- ===== src/Backtest/Invariant.antt =====
-- The invariant of the simulated exchange, and the calls that its thread handles.
use bftrader.Prelude.{
  ◌+◌, ◌^◌, ◌<◌, ◌≡◌, refl, sym, ◌∙◌, ◌≢◌, Bool, true, false, ◌||◌, none, some, [], ◌∷◌, ◌++◌, Text,
  QMap, AllValues, AllValues-modify, AllValues-insert, AllValues-find, AllValues-replace,
  AllValues-middle, AllValues-mono, total, total-append, find, contains, insert, find-insert, add32,
  sub32, if◌then◌else◌, text_eq, arith, Ensures, Returns, result_of, Option-cases, Bool-cases, inl,
  inr,
}
use bftrader.Proto.{
  BfGetTickReq, BfOrderData, BfPositionData, BfSendOrderReq, BfCancelOrderReq, BfTickData, Fpu,
  direction_long, direction_short, is_alltraded, is_cancelled,
}
use bftrader.Backtest.State.{
  Gateway, Now, long_key, short_key, reset_data, empty_position, start, stop,
}
use bftrader.Backtest.Orders.{
  is_refused, update_frozen, checked_order, cancelled, send_order_with_id, stored, withdrawn,
  send_order_with_id-eq-stored, cancel_order-eq-withdrawn, cancel_order_idle, cancel_order,
}
use bftrader.Backtest.Matching.{match_order, match_orders, on_got_tick}
use bftrader.Backtest.Fills.{match_orders_rule, match_orders_returns}
use bftrader.Backtest.Frozen.{freezes, pending, Balanced, stored-Balanced, withdrawn-Balanced}
use bftrader.Backtest.Ticks.{is_known, match_order-Settled}
use bftrader.Backtest.Traded.{
  reported, reported-got_order, IsTraded, update_frozen-IsTraded, match_order-IsTraded,
}
use bftrader.Backtest.Keys.{text_eq-long-short, text_eq-short-long, text_eq-keys}
use bftrader.Backtest.Safety.{
  IsPaired, order_ok, order_ok_mono, is_refused-ne-none, checked_order_ok, contains-update_frozen,
  update_frozen-ne-none, match_order-ne-none, match_order-Keeps,
}

-- `balanced`: a position freezes the volume of the working orders that will grow it. `traded`: its
-- volume is the one that the reported trades add up to. Both are modulo 2 ^ 32.
pub record Inv (g : Gateway) : Type 0 where
  pub balanced : Balanced g
  pub traded : IsTraded g.positions g.sent
  pub paired : IsPaired g.positions
  pub orders_ok : AllValues (λ o. order_ok g.positions o ≡ true) g.orders

-- The loop over the orders: `os` is the list as changed so far.
abbrev Along : QMap BfOrderData → Gateway → Type 0
Along os g = Inv (record g { orders = os })

known_of_ok :
    (ps : QMap BfPositionData) (o : BfOrderData) → order_ok ps o ≡ true → is_known o.status ≡ true
known_of_ok ps o h = ground arith

IsPaired-of :
    (ps ps' : QMap BfPositionData)
    → ((k : Text) → contains k ps' ≡ contains k ps)
    → IsPaired ps
    → IsPaired ps'
IsPaired-of ps ps' same paired s e = same (long_key s e) ∙ paired s e ∙ sym (same (short_key s e))

-- What freezes in the whole list, with one order taken out.
pending-middle :
    (k id : Text) (o : BfOrderData) (done rest : QMap BfOrderData)
    → pending k (done ++ (id, o) ∷ rest) ≡ pending k done + pending k rest + freezes k o
unfolding pending total
pending-middle k id o done rest = omega (arith, total-append (freezes k) done ((id, o) ∷ rest))

module _ (fpu : Fpu) (tick : BfTickData) (now : Now) where
  match_order-Along :
      (done rest : QMap BfOrderData) (id : Text) (o : BfOrderData) (g : Gateway)
      → Along (done ++ (id, o) ∷ rest) g
      → Ensures (λ r. Along (done ++ (id, r.0) ∷ rest) r.1) (match_order fpu o tick now g)
  match_order-Along done rest id o g v = elim (Option-cases (match_order fpu o tick now g)) [
    | inl e ↦ rw e tt
    | inr ((o', g'), e) ↦ rw e (after o' g' e)
  ]
    where
      ok : order_ok g.positions o ≡ true
      ok = AllValues-middle (λ x. order_ok g.positions x ≡ true) done rest id o v.orders_ok

      after :
          (o' : BfOrderData) (g' : Gateway)
          → match_order fpu o tick now g ≡ some (o', g')
          → Along (done ++ (id, o') ∷ rest) g'
      after o' g' e =
          let keeps = result_of _ _ e (match_order-Keeps fpu tick now g o) in
          record {
            balanced = λ k. rw (pending-middle k id o' done rest) (
                result_of _ _ e
                  (match_order-Settled fpu tick now (λ k. pending k done + pending k rest) o g
                    (known_of_ok g.positions o ok)
                    (λ k. rw (← pending-middle k id o done rest) (v.balanced k)))
                  k);
            traded = result_of _ _ e (match_order-IsTraded fpu tick now o g v.traded);
            paired = IsPaired-of g.positions g'.positions keeps.0 v.paired;
            orders_ok = AllValues-mono _ _ _ (order_ok_mono g.positions g'.positions keeps.0) (
                AllValues-replace (λ x. order_ok g.positions x ≡ true) done rest id o o'
                  (keeps.1 g.positions) v.orders_ok);
          }

  match_order-live :
      (done rest : QMap BfOrderData) (id : Text) (o : BfOrderData) (g : Gateway)
      → Along (done ++ (id, o) ∷ rest) g
      → match_order fpu o tick now g ≢ none
  match_order-live done rest id o g v =
      match_order-ne-none fpu o tick now g v.paired
        (AllValues-middle (λ x. order_ok g.positions x ≡ true) done rest id o v.orders_ok)

  pub on_got_tick-Inv : (g : Gateway) → Inv g → Returns Inv (on_got_tick fpu tick now g)
  unfolding on_got_tick
  on_got_tick-Inv g v = elim (Option-cases (match_orders fpu g.orders tick now g)) [
    | inl e ↦ absurd (
        match_orders_returns fpu tick now Along match_order-Along match_order-live [] g.orders g v
          e)
    | inr ((os, g'), e) ↦ (
      record g' { orders = os },
      rw e refl,
      result_of _ _ e (match_orders_rule fpu tick now Along match_order-Along [] g.orders g v),
    )
  ]

module _ (id : Text) (req : BfSendOrderReq) (now : Now) (g : Gateway)
    (fresh : find id g.orders ≡ none) (w : req.volume < 2 ^ 32) (v : Inv g) where
  pub stored-Inv :
      (refused : Bool) (ps : QMap BfPositionData)
      → is_refused req g.positions ≡ some refused
      → update_frozen add32 (checked_order refused id req now) g.positions ≡ some ps
      → Inv (stored id (checked_order refused id req now) ps g)
  stored-Inv refused ps e u =
      let o = checked_order refused id req now in
      let ok = checked_order_ok refused id req now g.positions w e in
      let keys = λ (k : Text). contains-update_frozen add32 o g.positions ps k u in
      record {
        balanced = stored-Balanced id o g ps fresh u v.balanced;
        traded = λ k.
            rw reported-got_order
              (update_frozen-IsTraded add32 o g.positions ps g.sent u v.traded k);
        paired = IsPaired-of g.positions ps keys v.paired;
        orders_ok =
            AllValues-insert _ id o g.orders (order_ok_mono g.positions ps keys o ok)
              (AllValues-mono _ _ _ (order_ok_mono g.positions ps keys) v.orders_ok);
      }

  -- The checks and the freezing of a new order return.
  pub sending_returns :
      (refused : Bool) × (ps : QMap BfPositionData) × (is_refused req g.positions ≡ some refused)
      × (update_frozen add32 (checked_order refused id req now) g.positions ≡ some ps)
  sending_returns = elim (Option-cases (is_refused req g.positions)) [
    | inl e ↦ absurd (is_refused-ne-none req g.positions v.paired e)
    | inr (refused, e) ↦
        let o = checked_order refused id req now in
        elim (Option-cases (update_frozen add32 o g.positions)) [
          | inl u ↦ absurd (
              update_frozen-ne-none add32 o g.positions v.paired
                (checked_order_ok refused id req now g.positions w e) u)
          | inr (ps, u) ↦ (refused, ps, e, u)
        ]
  ]

  pub send_order_with_id-Inv : Returns Inv (send_order_with_id id req now g)
  send_order_with_id-Inv =
      let (refused, ps, e, u) = sending_returns in
      (
        stored id (checked_order refused id req now) ps g,
        send_order_with_id-eq-stored id req now g refused ps e u,
        stored-Inv refused ps e u,
      )

pub cancel_order-Inv :
    (req : BfCancelOrderReq) (now : Now) (g : Gateway)
    → Inv g
    → Returns Inv (cancel_order req now g)
cancel_order-Inv req now g v = elim (Option-cases (find req.bforderid g.orders)) [
  | inl e ↦ (g, cancel_order_idle req now g (inl e), v)
  | inr (o, e) ↦ elim (Bool-cases (is_alltraded o.status || is_cancelled o.status)) [
    | inl dead ↦ (g, cancel_order_idle req now g (inr (o, e, dead)), v)
    | inr live ↦ found o e live
  ]
]
  where
    found :
        (o : BfOrderData)
        → find req.bforderid g.orders ≡ some o
        → is_alltraded o.status || is_cancelled o.status ≡ false
        → Returns Inv (cancel_order req now g)
    found o e live =
        let ok =
          AllValues-find (λ x. order_ok g.positions x ≡ true) req.bforderid g.orders v.orders_ok
            e in
        elim (Option-cases (update_frozen sub32 o g.positions)) [
          | inl u ↦ absurd (update_frozen-ne-none sub32 o g.positions v.paired ok u)
          | inr (ps, u) ↦
              let keys = λ (k : Text). contains-update_frozen sub32 o g.positions ps k u in
              (
                withdrawn req.bforderid o now ps g,
                cancel_order-eq-withdrawn req now g o ps e live u,
                record {
                  balanced = withdrawn-Balanced req.bforderid o now g ps e u v.balanced;
                  traded = λ k.
                      rw reported-got_order
                        (update_frozen-IsTraded sub32 o g.positions ps g.sent u v.traded k);
                  paired = IsPaired-of g.positions ps keys v.paired;
                  orders_ok =
                      AllValues-modify _ req.bforderid (cancelled now) g.orders (λ x h. refl)
                        (AllValues-mono _ _ _ (order_ok_mono g.positions ps keys) v.orders_ok);
                },
              )
        ]

-- The positions of a new session, at any key.
find-start :
    (req : BfGetTickReq) (g : Gateway) (k : Text)
    → find k (start req g).positions ≡ (
        if text_eq (short_key req.symbol req.exchange) k
        then some (empty_position req.symbol req.exchange direction_short)
        else if text_eq (long_key req.symbol req.exchange) k
        then some (empty_position req.symbol req.exchange direction_long)
        else none)
unfolding start reset_data find
find-start req g k = ground (
  arith,
  find-insert (short_key req.symbol req.exchange) k
      (empty_position req.symbol req.exchange direction_short)
      (insert (long_key req.symbol req.exchange)
        (empty_position req.symbol req.exchange direction_long) []),
  find-insert (long_key req.symbol req.exchange) k
      (empty_position req.symbol req.exchange direction_long) [],
)

pub start-Inv : (req : BfGetTickReq) (g : Gateway) → Inv (start req g)
unfolding start reset_data pending total reported
start-Inv req g = record {
  balanced = λ k. ground (arith, find-start req g k);
  traded = λ k. ground (arith, find-start req g k);
  paired = λ s e. ground (
    arith,
    find-start req g (long_key s e),
    find-start req g (short_key s e),
    text_eq-long-short req.symbol req.exchange s e,
    text_eq-short-long req.symbol req.exchange s e,
    text_eq-keys req.symbol req.exchange s e,
  );
  orders_ok = tt;
}

pub stop-Inv : (g : Gateway) → Inv (stop g)
unfolding stop reset_data find
stop-Inv g = record { balanced = λ k. tt; traded = λ k. tt; paired = λ s e. refl; orders_ok = tt }
