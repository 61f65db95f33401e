-- ===== src/Backtest/Replay/Reading.antt =====
-- What a replay emits: the stored ticks from the first on, in order, and none once it is stopped.
use mathlib.Core.List.{append_assoc}
use bftrader.Prelude.{
  ℕ, ◌≤◌, ◌≡◌, refl, ap, sym, ◌∙◌, Bool, true, false, ◌||◌, some, List, [], ◌∷◌, ◌++◌, map, length,
  arith, ◌⊎◌, inl, inr, some_injective, values_within,
}
use bftrader.Proto.{BfTickData, BfGetTickReq}
use bftrader.Datafeed.Messages.{BfBarData, BfContractData}
use bftrader.Datafeed.Store.{Leveldb, IsLeveldb, Codec, IsCodec}
use bftrader.Datafeed.Keys.{tick_key}
use bftrader.Datafeed.Insert.{is_empty}
use bftrader.Datafeed.Ticks.{get_tick}
use bftrader.Datafeed.Contents.{IsTyped}
use bftrader.Datafeed.Queries.{get_tick-values_within}
use bftrader.Backtest.Replay.{Reader, new_reader, read_next, round, set_flag}

pub data Step (r : Reader) : Reader → Type 0 where
  reads : r.ended ≡ false → Step r (round r)
  sets : Step r (set_flag r)

pub data Reachable (ticks : List BfTickData) : Reader → Type 0 where
  start : Reachable ticks (new_reader ticks)
  later : {r s : Reader} → Reachable ticks r → Step r s → Reachable ticks s

-- At most one tick is read and not emitted, and that when the reader is stopped; a reader ends at
-- the end of the stream or when it is stopped.
abbrev pub Emits : List BfTickData → Reader → Type 0
Emits ticks r =
    (skipped : List BfTickData) × (ticks ≡ r.got ++ (skipped ++ r.rest))
    × (length skipped ≤ 1)
    × (((r.flag ≡ true) × ((skipped ≡ []) ⊎ (r.ended ≡ true)))
        ⊎ ((skipped ≡ []) × ((r.ended ≡ false) ⊎ (r.rest ≡ []))))

read_next-Emits :
    (ticks rest got : List BfTickData) (f : Bool)
    → ticks ≡ got ++ rest
    → Emits ticks (read_next rest (record { rest = rest; flag = f; got = got; ended = false }))
unfolding read_next
read_next-Emits ticks [] got f e = ([], e, omega arith, inr (refl, inr refl))
read_next-Emits ticks (t ∷ rest) got true e = (t ∷ [], e, omega arith, inl (refl, inr refl))
read_next-Emits ticks (t ∷ rest) got false e =
    ([], e ∙ sym (append_assoc got (t ∷ []) rest), omega arith, inr (refl, inl refl))

read_next_silent :
    (rest got : List BfTickData) (f d : Bool)
    → f ≡ true
    → (read_next rest (record { rest = rest; flag = f; got = got; ended = d })).got ≡ got
unfolding read_next
read_next_silent [] got f d h = refl
read_next_silent (t ∷ rest) got true d h = refl
read_next_silent (t ∷ rest) got false d h = cc

-- A reader that is stopped emits nothing more.
pub round_silent : (r : Reader) → r.flag ≡ true → (round r).got ≡ r.got
unfolding round
round_silent r h = read_next_silent r.rest r.got r.flag r.ended h

round-Emits :
    (ticks rest got : List BfTickData) (f d : Bool)
    → d ≡ false
    → let r : Reader = record { rest = rest; flag = f; got = got; ended = d } in
      Emits ticks r → Emits ticks (round r)
unfolding round
round-Emits ticks rest got f true h e = cc
round-Emits ticks rest got f false h ([], e, l, c) = read_next-Emits ticks rest got f e
round-Emits ticks rest got f false h (t ∷ ts, e, l, c) = ground arith

set_flag-Emits :
    (ticks rest got : List BfTickData) (f d : Bool)
    → let r : Reader = record { rest = rest; flag = f; got = got; ended = d } in
      Emits ticks r → Emits ticks (set_flag r)
unfolding set_flag
set_flag-Emits ticks rest got f d (k, e, l, inl (h, c)) = (k, e, l, inl (refl, c))
set_flag-Emits ticks rest got f d (k, e, l, inr (h, c)) = (k, e, l, inl (refl, inl h))

Reachable-Emits : (ticks : List BfTickData) {r : Reader} → Reachable ticks r → Emits ticks r
Reachable-Emits ticks start = ([], refl, omega arith, inr (refl, inl refl))
Reachable-Emits ticks (later {r = r} x (reads h)) =
    round-Emits ticks r.rest r.got r.flag r.ended h (Reachable-Emits ticks x)
Reachable-Emits ticks (later {r = r} x sets) =
    set_flag-Emits ticks r.rest r.got r.flag r.ended (Reachable-Emits ticks x)

module _ {Db : Type 0} (ldb : Leveldb Db) (law : IsLeveldb ldb) (ticks : Codec BfTickData)
    (bars : Codec BfBarData) (contracts : Codec BfContractData) (accepts : ℕ → Bool)
    (writable : (n : ℕ) → accepts n ≡ true) where
  -- For a typed database and a query with symbol, exchange and both dates, while the stream can be
  -- written: in every state of a replay of what getTick returns, under any order of rounds and
  -- stops, the stored ticks between the two bounds, in the order of their keys, are those emitted,
  -- then at most one that was read and not emitted, then those still to read; one is left out only
  -- when the replay is stopped, and a replay that is not stopped ends only at the end of the
  -- stream.
  pub Reachable-get_tick :
      IsCodec ticks
      → (req : BfGetTickReq) (db : Db) → is_empty req.symbol || is_empty req.exchange ≡ false
      → is_empty req.todate ≡ false
      → is_empty req.fromdate ≡ false
      → IsTyped ticks bars contracts (law.entries db)
      → (ts : List BfTickData) {r : Reader} → get_tick ldb ticks accepts req db ≡ some ts
      → Reachable ts r
      → (skipped : List BfTickData) × (values_within
            (tick_key req.symbol req.exchange req.fromdate req.fromtime)
            (tick_key req.symbol req.exchange req.todate req.totime)
            (law.entries db)
          ≡ map ticks.bytes (r.got ++ (skipped ++ r.rest)))
        × (length skipped ≤ 1)
        × (((r.flag ≡ true) × ((skipped ≡ []) ⊎ (r.ended ≡ true)))
            ⊎ ((skipped ≡ []) × ((r.ended ≡ false) ⊎ (r.rest ≡ []))))
  Reachable-get_tick cl req db named to from typed ts {r} e x =
      let (ts', e', v) =
        get_tick-values_within ldb law ticks bars contracts accepts writable cl req db named to from
          typed in
      let (k, same, l, c) = Reachable-Emits ts x in
      (k, sym v ∙ ap (map ticks.bytes) (some_injective (sym e' ∙ e) ∙ same), l, c)
