-- ===== src/Backtest/Ticks.antt =====
-- A tick keeps the frozen volumes in step with the working orders.
use bftrader.Prelude.{
  ℕ, ◌+◌, ◌≡◌, Bool, true, false, ◌||◌, Text, find, slt32, text_eq_iff, find-modify, arith, Ensures,
  Option-cases, Bool-cases, inl, inr,
}
use bftrader.Proto.{BfOrderData, BfTickData, BfStatus, Fpu, is_open, is_close, is_nottraded}
use bftrader.Backtest.State.{Gateway, Now, gen_trade_id}
use bftrader.Backtest.Matching.{
  opened, closed, new_trade, settle, fill_open, fill_close, match_order,
}
use bftrader.Backtest.Fills.{open_key, close_key, is_sided, is_done, match_order_cases}
use bftrader.Backtest.Frozen.{freezes, IsFrozen}

-- An order that the exchange holds works, or is done.
abbrev pub is_known : BfStatus → Bool
is_known s = is_nottraded s || is_done s

module _ (fpu : Fpu) (tick : BfTickData) (now : Now) (volume : Text → ℕ) where
  -- The frozen volumes are those of `volume` and of the order at hand.
  abbrev pub Settled : BfOrderData × Gateway → Type 0
  Settled (o, g) = IsFrozen g.positions (λ k. volume k + freezes k o)

  fill_open-Settled :
      (o : BfOrderData) (g : Gateway)
      → is_known o.status ≡ true
      → is_done o.status ≡ false
      → is_open o.offset ≡ true
      → is_sided o.direction ≡ true
      → Settled (o, g)
      → Ensures Settled (fill_open fpu (open_key o) o tick now g)
  unfolding fill_open settle opened new_trade freezes gen_trade_id
  fill_open-Settled o g known live opens sided f =
      elim (Option-cases (find (open_key o) g.positions)) [
        | inl e ↦ rw (e, fill_open) tt
        | inr (p, e) ↦
            rw (e, fill_open)
              λ k. ground (
                arith,
                f k,
                find-modify (open_key o) k (opened fpu (new_trade (gen_trade_id g).0 o tick now))
                    g.positions,
                text_eq_iff (open_key o) k,
              )
      ]

  fill_close-Settled :
      (o : BfOrderData) (g : Gateway)
      → is_close o.offset ≡ true
      → Settled (o, g)
      → Ensures Settled (fill_close fpu (close_key o) o tick now g)
  unfolding fill_close settle closed new_trade freezes gen_trade_id
  fill_close-Settled o g closes f = elim (Option-cases (find (close_key o) g.positions)) [
    | inl e ↦ rw (e, fill_close) tt
    | inr (p, e) ↦
        rw (e, fill_close)
          (elim (Bool-cases (slt32 p.position o.totalvolume)) [
            | inl lack ↦ rw lack λ k. ground (arith, f k)
            | inr enough ↦ rw enough λ k. ground (
              arith,
              f k,
              find-modify (close_key o) k (closed fpu (new_trade (gen_trade_id g).0 o tick now))
                  g.positions,
            )
          ])
  ]

  pub match_order-Settled :
      (o : BfOrderData) (g : Gateway)
      → is_known o.status ≡ true
      → Settled (o, g)
      → Ensures Settled (match_order fpu o tick now g)
  match_order-Settled o g known f =
      match_order_cases fpu tick now Settled o g f
        (λ live opens sided. fill_open-Settled o g known live opens sided f)
        (λ live closes sided. fill_close-Settled o g closes f)
