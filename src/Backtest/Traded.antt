-- ===== src/Backtest/Traded.antt =====
-- The volume of a position, against the trades that have been reported since the session began.
use bftrader.Prelude.{
  ℕ, ◌≡◌, refl, true, ◌&&◌, Option, none, some, List, [], ◌∷◌, Text, QMap, find, add32, sub32,
  slt32, if◌then◌else◌, text_eq, text_eq_iff, find-modify, arith, Ensures, Option-cases, Bool-cases,
  inl, inr,
}
use bftrader.Proto.{BfOrderData, BfTradeData, BfPositionData, BfTickData, Fpu, is_open, is_close}
use bftrader.Backtest.State.{
  Gateway, Now, Signal, trade_will_begin, trade_stopped, got_trade, got_order, gen_trade_id,
}
use bftrader.Backtest.Orders.{update_frozen}
use bftrader.Backtest.Matching.{
  opened, closed, new_trade, settle, fill_open, fill_close, match_order,
}
use bftrader.Backtest.Fills.{open_key, close_key, grown_key, shrunk_key, match_order_cases}

-- What a trade does to the volume at a key.
unfoldable pub trade_effect : Text → BfTradeData → ℕ → ℕ
trade_effect k t n =
    if is_open t.offset && text_eq (grown_key t.direction t.symbol t.exchange) k
    then add32 n t.volume
    else if is_close t.offset && text_eq (shrunk_key t.direction t.symbol t.exchange) k
    then sub32 n t.volume
    else n

-- The volume at a key that the signals report, opened less closed; a session starts at 0.
unfoldable pub reported : Text → List Signal → ℕ
unfolding trade_effect
reported k [] = 0
reported k (got_trade t ∷ r) = trade_effect k t (reported k r)
reported k (trade_will_begin req ∷ r) = 0
reported k (trade_stopped ∷ r) = 0
reported k (x ∷ r) = reported k r

abbrev pub TradedAt : ℕ → Option BfPositionData → Type 0
TradedAt n none = Unit {0}
TradedAt n (some p) = p.position ≡ n

-- Every position has the volume that the signals report.
abbrev pub IsTraded : QMap BfPositionData → List Signal → Type 0
IsTraded ps sent = (k : Text) → TradedAt (reported k sent) (find k ps)

-- A report of an order moves no volume.
pub reported-got_order :
    (k : Text) (o : BfOrderData) (sent : List Signal)
    → reported k (got_order o ∷ sent) ≡ reported k sent
unfolding reported
reported-got_order k o sent = refl

-- Freezing leaves the volumes alone.
pub update_frozen-IsTraded :
    (op : ℕ → ℕ → ℕ) (o : BfOrderData) (ps ps' : QMap BfPositionData) (sent : List Signal)
    → update_frozen op o ps ≡ some ps'
    → IsTraded ps sent
    → IsTraded ps' sent
unfolding update_frozen
update_frozen-IsTraded op o ps ps' sent h f k = ground (
  arith,
  f k,
  find-modify (open_key o) k (λ q. record q { frozen = op q.frozen o.totalvolume }) ps,
)

module _ (fpu : Fpu) (tick : BfTickData) (now : Now) where
  abbrev Reported : BfOrderData × Gateway → Type 0
  Reported (o, g) = IsTraded g.positions g.sent

  fill_open-Reported :
      (o : BfOrderData) (g : Gateway)
      → is_open o.offset ≡ true
      → Reported (o, g)
      → Ensures Reported (fill_open fpu (open_key o) o tick now g)
  unfolding fill_open settle opened new_trade reported gen_trade_id
  fill_open-Reported o g opens f = elim (Option-cases (find (open_key o) g.positions)) [
    | inl e ↦ rw (e, fill_open) tt
    | inr (p, e) ↦
        rw (e, fill_open)
          λ k. ground (
            arith,
            f k,
            find-modify (open_key o) k (opened fpu (new_trade (gen_trade_id g).0 o tick now))
                g.positions,
            text_eq_iff (open_key o) k,
          )
  ]

  fill_close-Reported :
      (o : BfOrderData) (g : Gateway)
      → is_close o.offset ≡ true
      → Reported (o, g)
      → Ensures Reported (fill_close fpu (close_key o) o tick now g)
  unfolding fill_close settle closed new_trade reported gen_trade_id
  fill_close-Reported o g closes f = elim (Option-cases (find (close_key o) g.positions)) [
    | inl e ↦ rw (e, fill_close) tt
    | inr (p, e) ↦
        rw (e, fill_close)
          (elim (Bool-cases (slt32 p.position o.totalvolume)) [
            | inl lack ↦ rw lack f
            | inr enough ↦ rw enough λ k. ground (
              arith,
              f k,
              find-modify (close_key o) k (closed fpu (new_trade (gen_trade_id g).0 o tick now))
                  g.positions,
              text_eq_iff (close_key o) k,
            )
          ])
  ]

  pub match_order-IsTraded :
      (o : BfOrderData) (g : Gateway)
      → IsTraded g.positions g.sent
      → Ensures (λ r. IsTraded r.1.positions r.1.sent) (match_order fpu o tick now g)
  match_order-IsTraded o g f =
      match_order_cases fpu tick now Reported o g f
        (λ live opens sided. fill_open-Reported o g opens f)
        (λ live closes sided. fill_close-Reported o g closes f)
