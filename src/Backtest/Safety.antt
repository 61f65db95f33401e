-- ===== src/Backtest/Safety.antt =====
-- No handler reads through a null pointer: the positions that the orders name are there.
use bftrader.Prelude.{
  ℕ, ◌^◌, ◌≤◌, ◌<◌, ◌≡◌, refl, ◌≢◌, Bool, true, false, ◌&&◌, ◌||◌, none, some, Text, QMap, find,
  contains, contains-modify, slt32, leb, arith, Ensures, Option-cases, Bool-cases, inl, inr,
}
use bftrader.Proto.{BfOrderData, BfPositionData, BfSendOrderReq, BfTickData, Fpu, is_nottraded}
use bftrader.Backtest.State.{Gateway, Now, long_key, short_key, gen_trade_id}
use bftrader.Backtest.Orders.{lacks_position, is_refused, update_frozen, checked_order, new_order}
use bftrader.Backtest.Matching.{
  opened, closed, new_trade, settle, fill_open, fill_close, on_long_open, on_short_open,
  on_long_close, on_short_close, match_order,
}
use bftrader.Backtest.Fills.{open_key, close_key, is_done, match_order_cases}

-- The two positions of an instrument come together.
abbrev pub IsPaired : QMap BfPositionData → Type 0
IsPaired ps = (s e : Text) → contains (long_key s e) ps ≡ contains (short_key s e) ps

-- An order is done, or it works on the instrument of the session with an accepted volume.
abbrev pub order_ok : QMap BfPositionData → BfOrderData → Bool
order_ok ps o =
    is_done o.status
    || (is_nottraded o.status
        && (contains (long_key o.symbol o.exchange) ps
            && (leb 1 o.totalvolume && leb o.totalvolume 500)))

-- An order stays acceptable if its instrument stays.
pub order_ok_mono :
    (ps ps' : QMap BfPositionData)
    → ((k : Text) → contains k ps' ≡ contains k ps)
    → (o : BfOrderData) → order_ok ps o ≡ true
    → order_ok ps' o ≡ true
order_ok_mono ps ps' same o ok = ground (arith, same (long_key o.symbol o.exchange))

pub is_refused-ne-none :
    (req : BfSendOrderReq) (ps : QMap BfPositionData) → IsPaired ps → is_refused req ps ≢ none
unfolding is_refused lacks_position
is_refused-ne-none req ps paired = ground (arith, paired req.symbol req.exchange)

-- An accepted request names the instrument of the session and a volume from 1 to 500.
pub is_refused-false :
    (req : BfSendOrderReq) (ps : QMap BfPositionData)
    → req.volume < 2 ^ 32
    → is_refused req ps ≡ some false
    → (contains (long_key req.symbol req.exchange) ps ≡ true)
      × (1 ≤ req.volume)
      × (req.volume ≤ 500)
unfolding is_refused
is_refused-false req ps w h = ground arith

pub checked_order_ok :
    (refused : Bool) (id : Text) (req : BfSendOrderReq) (now : Now) (ps : QMap BfPositionData)
    → req.volume < 2 ^ 32
    → is_refused req ps ≡ some refused
    → order_ok ps (checked_order refused id req now) ≡ true
unfolding new_order
checked_order_ok false id req now ps w h = ground (arith, is_refused-false req ps w h)
checked_order_ok true id req now ps w h = refl

pub contains-update_frozen :
    (op : ℕ → ℕ → ℕ) (o : BfOrderData) (ps ps' : QMap BfPositionData) (k : Text)
    → update_frozen op o ps ≡ some ps'
    → contains k ps' ≡ contains k ps
unfolding update_frozen
contains-update_frozen op o ps ps' k h = ground (
  arith,
  contains-modify (open_key o) k (λ q. record q { frozen = op q.frozen o.totalvolume }) ps,
)

pub update_frozen-ne-none :
    (op : ℕ → ℕ → ℕ) (o : BfOrderData) (ps : QMap BfPositionData)
    → IsPaired ps
    → order_ok ps o ≡ true
    → update_frozen op o ps ≢ none
unfolding update_frozen
update_frozen-ne-none op o ps paired ok = ground (arith, paired o.symbol o.exchange)

pub match_order-ne-none :
    (fpu : Fpu) (o : BfOrderData) (tick : BfTickData) (now : Now) (g : Gateway)
    → IsPaired g.positions
    → order_ok g.positions o ≡ true
    → match_order fpu o tick now g ≢ none
unfolding match_order on_long_open on_short_open on_long_close on_short_close fill_open fill_close
match_order-ne-none fpu o tick now g paired ok = ground (arith, paired o.symbol o.exchange)

-- A fill keeps the keys of the positions, and leaves an order that is done.
module _ (fpu : Fpu) (tick : BfTickData) (now : Now) (g : Gateway) (o : BfOrderData) where
  abbrev pub Keeps : BfOrderData × Gateway → Type 0
  Keeps (o', g') =
      ((k : Text) → contains k g'.positions ≡ contains k g.positions)
      × ((ps : QMap BfPositionData) → order_ok ps o ≡ true → order_ok ps o' ≡ true)

  fill_open-Keeps : (key : Text) → Ensures Keeps (fill_open fpu key o tick now g)
  unfolding fill_open settle gen_trade_id
  fill_open-Keeps key = elim (Option-cases (find key g.positions)) [
    | inl e ↦ rw (e, fill_open) tt
    | inr (p, e) ↦
        rw (e, fill_open)
          (
            (λ k.
                contains-modify key k (opened fpu (new_trade (gen_trade_id g).0 o tick now))
                  g.positions),
            λ ps ok. refl,
          )
  ]

  fill_close-Keeps : (key : Text) → Ensures Keeps (fill_close fpu key o tick now g)
  unfolding fill_close settle gen_trade_id
  fill_close-Keeps key = elim (Option-cases (find key g.positions)) [
    | inl e ↦ rw (e, fill_close) tt
    | inr (p, e) ↦
        rw (e, fill_close)
          (elim (Bool-cases (slt32 p.position o.totalvolume)) [
            | inl lack ↦ rw lack ((λ k. refl), λ ps ok. refl)
            | inr enough ↦ rw enough (
              (λ k.
                  contains-modify key k (closed fpu (new_trade (gen_trade_id g).0 o tick now))
                    g.positions),
              λ ps ok. refl,
            )
          ])
  ]

  pub match_order-Keeps : Ensures Keeps (match_order fpu o tick now g)
  match_order-Keeps =
      match_order_cases fpu tick now Keeps o g ((λ k. refl), λ ps ok. ok)
        (λ _ _ _. fill_open-Keeps (open_key o)) (λ _ _ _. fill_close-Keeps (close_key o))
