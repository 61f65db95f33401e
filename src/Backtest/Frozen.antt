-- ===== src/Backtest/Frozen.antt =====
-- The frozen volume of a position, against the working orders.
use bftrader.Prelude.{
  ℕ, ◌+◌, ◌%◌, ◌≡◌, refl, ◌^◌, ◌&&◌, Option, none, some, Text, QMap, find, modify, insert, total,
  add32, sub32, if◌then◌else◌, text_eq, text_eq_iff, find-modify, total-insert, total-modify, arith,
}
use bftrader.Proto.{BfOrderData, BfPositionData, is_open, is_nottraded}
use bftrader.Backtest.Fills.{open_key, is_sided}
use bftrader.Backtest.State.{Gateway, Now}
use bftrader.Backtest.Orders.{update_frozen, cancelled, stored, withdrawn}

-- What an order freezes at a key.
unfoldable pub freezes : Text → BfOrderData → ℕ
freezes k o =
    if is_nottraded o.status
      && (is_open o.offset && (is_sided o.direction && text_eq (open_key o) k))
    then o.totalvolume
    else 0

-- The volume that the working opening orders of a map freeze at a key.
unfoldable pub pending : Text → QMap BfOrderData → ℕ
unfolding total freezes
pending k = total (freezes k)

abbrev pub FrozenAt : ℕ → Option BfPositionData → Type 0
FrozenAt n none = Unit {0}
FrozenAt n (some p) = p.frozen ≡ n % 2 ^ 32

-- Every position has the frozen volume that `volume` gives at its key.
abbrev pub IsFrozen : QMap BfPositionData → (Text → ℕ) → Type 0
IsFrozen ps volume = (k : Text) → FrozenAt (volume k) (find k ps)

pub update_frozen-add :
    (o : BfOrderData) (ps ps' : QMap BfPositionData) (volume : Text → ℕ)
    → update_frozen add32 o ps ≡ some ps'
    → IsFrozen ps volume
    → IsFrozen ps' (λ k. volume k + freezes k o)
unfolding update_frozen freezes
update_frozen-add o ps ps' volume h f k = ground (
  arith,
  f k,
  find-modify (open_key o) k (λ q. record q { frozen = add32 q.frozen o.totalvolume }) ps,
  text_eq_iff (open_key o) k,
)

pub update_frozen-sub :
    (o : BfOrderData) (ps ps' : QMap BfPositionData) (volume : Text → ℕ)
    → update_frozen sub32 o ps ≡ some ps'
    → IsFrozen ps (λ k. volume k + freezes k o)
    → IsFrozen ps' volume
unfolding update_frozen freezes
update_frozen-sub o ps ps' volume h f k = ground (
  arith,
  f k,
  find-modify (open_key o) k (λ q. record q { frozen = sub32 q.frozen o.totalvolume }) ps,
  text_eq_iff (open_key o) k,
)

-- A new order adds what it freezes.
pub pending-insert :
    (k id : Text) (o : BfOrderData) (m : QMap BfOrderData)
    → find id m ≡ none
    → pending k (insert id o m) ≡ pending k m + freezes k o
unfolding pending
pending-insert k id o m h = omega (arith, total-insert (freezes k) id o m h)

-- A change of one order moves the difference.
pub pending-modify :
    (k id : Text) (f : BfOrderData → BfOrderData) (m : QMap BfOrderData) (o : BfOrderData)
    → find id m ≡ some o
    → pending k (modify id f m) + freezes k o ≡ pending k m + freezes k (f o)
unfolding pending
pending-modify k id f m o h = total-modify (freezes k) id f m h

-- The frozen volumes of a state agree with its working orders.
abbrev pub Balanced : Gateway → Type 0
Balanced g = IsFrozen g.positions (λ k. pending k g.orders)

pub stored-Balanced :
    (id : Text) (o : BfOrderData) (g : Gateway) (ps : QMap BfPositionData)
    → find id g.orders ≡ none
    → update_frozen add32 o g.positions ≡ some ps
    → Balanced g
    → Balanced (stored id o ps g)
stored-Balanced id o g ps fresh e f k =
    rw (pending-insert k id o g.orders fresh)
      (update_frozen-add o g.positions ps (λ j. pending j g.orders) e f k)

-- A cancelled order freezes nothing.
freezes-cancelled : (k : Text) (now : Now) (o : BfOrderData) → freezes k (cancelled now o) ≡ 0
unfolding freezes
freezes-cancelled k now o = refl

pending-cancelled :
    (id : Text) (o : BfOrderData) (now : Now) (m : QMap BfOrderData) (k : Text)
    → find id m ≡ some o
    → pending k m ≡ pending k (modify id (cancelled now) m) + freezes k o
pending-cancelled id o now m k at =
    omega (arith, pending-modify k id (cancelled now) m o at, freezes-cancelled k now o)

pub withdrawn-Balanced :
    (id : Text) (o : BfOrderData) (now : Now) (g : Gateway) (ps : QMap BfPositionData)
    → find id g.orders ≡ some o
    → update_frozen sub32 o g.positions ≡ some ps
    → Balanced g
    → Balanced (withdrawn id o now ps g)
withdrawn-Balanced id o now g ps at e f =
    update_frozen-sub o g.positions ps (λ k. pending k (modify id (cancelled now) g.orders)) e
      (λ k. rw (← pending-cancelled id o now g.orders k at) (f k))
