-- ===== src/Backtest/Fills.antt =====
-- The cases of onGotTick (btgateway/gatewaymgr.cpp) for one order: kept, an opening fill, or a
-- closing fill.
use mathlib.Core.List.{append_assoc}
use bftrader.Prelude.{
  ◌≡◌, Bool, true, false, ◌||◌, none, [], ◌∷◌, Text, QMap, result_of, ◌++◌, ◌≢◌, if◌then◌else◌,
  arith, Ensures, inl, inr, Option-cases,
}
use bftrader.Proto.{
  BfDirection, BfStatus, BfOrderData, BfTickData, Fpu, is_long, is_short, is_net, is_open, is_close,
  is_alltraded, is_cancelled,
}
use bftrader.Backtest.State.{Gateway, Now, long_key, short_key}
use bftrader.Backtest.Matching.{
  fill_open, fill_close, on_long_open, on_short_open, on_long_close, on_short_close, match_order,
  match_orders,
}

abbrev pub is_sided : BfDirection → Bool
is_sided d = is_short d || (is_long d || is_net d)

abbrev pub is_done : BfStatus → Bool
is_done s = is_alltraded s || is_cancelled s

-- The key of the position that an opening order grows, and of the one that a closing order shrinks.
abbrev pub grown_key : BfDirection → Text → Text → Text
grown_key d symbol exchange =
    if is_short d then short_key symbol exchange else long_key symbol exchange

abbrev pub shrunk_key : BfDirection → Text → Text → Text
shrunk_key d symbol exchange =
    if is_short d then long_key symbol exchange else short_key symbol exchange

abbrev pub open_key : BfOrderData → Text
open_key o = grown_key o.direction o.symbol o.exchange

abbrev pub close_key : BfOrderData → Text
close_key o = shrunk_key o.direction o.symbol o.exchange

module _ (fpu : Fpu) (tick : BfTickData) (now : Now) (P : BfOrderData × Gateway → Type 0) where
  -- What holds of an order that is kept and of one that is filled holds after onGotTick's tests.
  pub match_order_cases :
      (o : BfOrderData) (g : Gateway)
      → P (o, g)
      → (is_done o.status ≡ false
          → is_open o.offset ≡ true
          → is_sided o.direction ≡ true
          → Ensures P (fill_open fpu (open_key o) o tick now g))
      → (is_done o.status ≡ false
          → is_close o.offset ≡ true
          → is_sided o.direction ≡ true
          → Ensures P (fill_close fpu (close_key o) o tick now g))
      → Ensures P (match_order fpu o tick now g)
  unfolding match_order on_long_open on_short_open on_long_close on_short_close
  match_order_cases o g kept opens closes = ground arith

-- The loop over the orders: `P` relates the whole list, changed so far, to the state.
module _ (fpu : Fpu) (tick : BfTickData) (now : Now) (P : QMap BfOrderData → Gateway → Type 0)
    (step : (done rest : QMap BfOrderData)
      → (id : Text) → (o : BfOrderData) → (g : Gateway) → P (done ++ (id, o) ∷ rest) g
      → Ensures (λ r. P (done ++ (id, r.0) ∷ rest) r.1) (match_order fpu o tick now g)) where
  pub match_orders_rule :
      (done os : QMap BfOrderData) (g : Gateway)
      → P (done ++ os) g
      → Ensures (λ r. P (done ++ r.0) r.1) (match_orders fpu os tick now g)
  unfolding match_orders
  match_orders_rule done [] g h = h
  match_orders_rule done ((id, o) ∷ os) g h = elim (Option-cases (match_order fpu o tick now g)) [
    | inl e ↦ rw e tt
    | inr ((o', g'), e) ↦
        let next = result_of _ _ e (step done os id o g h) in
        let ih = match_orders_rule (done ++ (id, o') ∷ []) os g' (rw append_assoc next) in
        rw e (elim (Option-cases (match_orders fpu os tick now g')) [
          | inl e' ↦ rw e' tt
          | inr ((os', g''), e') ↦ rw e' (rw append_assoc at (result_of _ _ e' ih))
        ])
  ]

  -- If no round stops the program, the loop does not.
  pub match_orders_returns :
      ((done rest : QMap BfOrderData)
        → (id : Text) → (o : BfOrderData) → (g : Gateway) → P (done ++ (id, o) ∷ rest) g
        → match_order fpu o tick now g ≢ none)
      → (done os : QMap BfOrderData) (g : Gateway) → P (done ++ os) g
      → match_orders fpu os tick now g ≢ none
  unfolding match_orders
  match_orders_returns live done [] g h = λ e. cc
  match_orders_returns live done ((id, o) ∷ os) g h =
      elim (Option-cases (match_order fpu o tick now g)) [
        | inl e ↦ absurd (live done os id o g h e)
        | inr ((o', g'), e) ↦
            let next = result_of _ _ e (step done os id o g h) in
            let ih =
              match_orders_returns live (done ++ (id, o') ∷ []) os g' (rw append_assoc next) in
            rw e (elim (Option-cases (match_orders fpu os tick now g')) [
              | inl e' ↦ absurd (ih e')
              | inr ((os', g''), e') ↦ rw e' (λ z. cc)
            ])
      ]
