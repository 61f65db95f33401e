-- ===== src/Datafeed/Counts.antt =====
-- datafeed/dbservice.cpp: the queries for a number of records from a time on.
use bftrader.Prelude.{
  ℕ, zero, suc, ◌+◌, ◌^◌, ◌<◌, Bool, true, false, ◌||◌, some, List, [], ◌∷◌, ◌++◌, map, ◌≡◌, refl,
  ◌∙◌, Text, lit, QMap, All, find, text_eq, text_eq_iff, text_ltb, text_ltb_irrefl, text_ltb_trans,
  starts_between, text_ltb_asym, slt32, starts, IsSorted, AtLeast, Above, from_key,
  from_key-IsSorted, from_key-AtLeast, find-from_key, All-find, All-from_key, arith, Returns,
  Bool-cases, inl, inr, if◌then◌else◌,
}
use bftrader.Proto.{BfTickData, BfGetTickReq}
use bftrader.Datafeed.Messages.{BfBarData, BfContractData}
use bftrader.Datafeed.Store.{Leveldb, IsLeveldb, Codec, IsCodec}
use bftrader.Datafeed.Keys.{tick_key, tick_tail, last_tick_key}
use bftrader.Datafeed.Insert.{is_empty}
use bftrader.Datafeed.Scan.{scan_count}
use bftrader.Datafeed.Ticks.{get_tick, get_tick_from_count}
use bftrader.Datafeed.Contents.{IsTyped}
use bftrader.Datafeed.Queries.{first_tick-key, tick-last_key}
use bftrader.Datafeed.Ranges.{IsEncoded}

-- At most so many of the values in front of a key.
abbrev pub values_before : ℕ → Text → QMap Text → List Text
values_before n last [] = []
values_before zero last ((k, v) ∷ es) = []
values_before (suc n) last ((k, v) ∷ es) =
    if text_ltb k last then v ∷ values_before n last es else []

-- What is found among greater keys is greater.
found-Above :
    (k j : Text) (es : QMap Text) (v : Text) → Above k es → find j es ≡ some v → text_ltb k j ≡ true
unfolding find
found-Above k j [] v a e = cc
found-Above k j ((i, u) ∷ es) v a e = ground (arith, text_eq_iff i j, a.0, found-Above k j es v a.1)

module _ (first last lo : Text) (before : text_ltb first lo ≡ true) where
  module _ {M : Type 0} (c : Codec M) (law : IsCodec c) (accepts : ℕ → Bool) where
    pub scan_count-values_before :
        ((n : ℕ) → accepts n ≡ true)
        → (limit left n : ℕ) (es : QMap Text) → limit < 2 ^ 31
        → n + left ≡ limit
        → IsSorted es
        → AtLeast lo es
        → All (λ e. text_ltb e.0 last ≡ true → IsEncoded c e.1) es
        → (v : Text) → find last es ≡ some v
        → Returns
            (λ ms. map c.bytes ms ≡ values_before left last es)
            (scan_count c.parse accepts first last limit n es)
    unfolding scan_count find
    scan_count-values_before writable limit left n [] w sum s a enc v e = cc
    scan_count-values_before writable limit zero n ((k, u) ∷ es) w sum s a enc v e =
        let full : slt32 n limit ≡ false = ground arith in ([], rw full refl, refl)
    scan_count-values_before writable limit (suc left) n ((k, u) ∷ es) w sum s a enc v e =
        let room : slt32 n limit ≡ true = ground arith in
        let not_first : text_eq k first ≡ false =
          ground (arith, text_eq_iff k first, before, a.0) in
        elim (Bool-cases (text_eq k last)) [
          | inl m ↦ (
            [],
            rw room (rw not_first (rw m refl)),
            ground (arith, text_eq_iff k last, text_ltb_irrefl last),
          )
          | inr m ↦
              let e' : find last es ≡ some v = rw m at e in
              let low = found-Above k last es v s.0 e' in
              let (x, encoded) = enc.0 low in
              let (ms, done, same) =
                scan_count-values_before writable limit left (suc n) es w (omega (arith, sum)) s.1
                  a.1 enc.1 v e' in
              (
                x ∷ ms,
                rw room (
                    rw not_first
                      (rw m (rw (encoded, law.parse_law x) (rw (writable n, done) refl)))),
                rw low (rw (encoded, same) refl),
              )
        ]

-- Between a key of one kind and a mark of that kind there are only keys of that kind.
IsEncoded-before :
    {M : Type 0} (c : Codec M) (word a mark : Text) (es : QMap Text)
    → AtLeast (word ++ a) es
    → All (λ e. starts word e.0 ≡ true → IsEncoded c e.1) es
    → All (λ e. text_ltb e.0 (word ++ mark) ≡ true → IsEncoded c e.1) es
IsEncoded-before c word a mark [] low h = tt
IsEncoded-before c word a mark ((k, v) ∷ es) low h = (
  λ e. h.0 (
      starts_between word a mark k low.0
        (ground (arith, text_ltb_trans k (word ++ mark) k, text_ltb_irrefl k))),
  IsEncoded-before c word a mark es low.1 h.1,
)

module _ {Db : Type 0} (ldb : Leveldb Db) (law : IsLeveldb ldb) where
  count_query :
      {M : Type 0} (c : Codec M) (cl : IsCodec c) (accepts : ℕ → Bool)
      → ((n : ℕ) → accepts n ≡ true)
      → (word a first mark : Text) → text_ltb first (word ++ a) ≡ true
      → text_ltb (word ++ mark) (word ++ a) ≡ false
      → (limit : ℕ) (db : Db) (v : Text) → limit < 2 ^ 31
      → find (word ++ mark) (law.entries db) ≡ some v
      → ((k w : Text) → find k (law.entries db) ≡ some w → starts word k ≡ true → IsEncoded c w)
      → Returns
          (λ ms.
            map c.bytes ms
            ≡ values_before limit (word ++ mark) (from_key (word ++ a) (law.entries db)))
          (scan_count c.parse accepts first (word ++ mark) limit 0 (ldb.seek_next (word ++ a) db))
  count_query c cl accepts writable word a first mark before after limit db v w marked typed =
      let m = law.entries db in
      let lo = word ++ a in
      rw (law.seek_next_law lo db) (
        scan_count-values_before first (word ++ mark) lo before c cl accepts writable limit limit 0
          (from_key lo m) w (omega arith) (from_key-IsSorted lo m (law.sorted db))
          (from_key-AtLeast lo m (law.sorted db))
          (IsEncoded-before c word a mark (from_key lo m) (from_key-AtLeast lo m (law.sorted db))
            (All-from_key _ lo m (All-find _ m (law.sorted db) typed)))
          v (find-from_key (word ++ mark) lo m after ∙ marked))

  -- On a database in which each value is the message that its key promises, with symbol, exchange,
  -- a first date and a count that is not negative, but no last date, while the stream is open and
  -- once the mark behind the ticks of the contract is stored, getTick returns and writes the ticks
  -- from the first time on in the order of their keys, at most as many as the count.
  pub get_tick-values_before :
      (ticks : Codec BfTickData) (bars : Codec BfBarData) (contracts : Codec BfContractData)
      (accepts : ℕ → Bool)
      → ((n : ℕ) → accepts n ≡ true)
      → IsCodec ticks
      → (req : BfGetTickReq) (db : Db) (v : Text)
      → is_empty req.symbol || is_empty req.exchange ≡ false
      → is_empty req.todate ≡ true
      → is_empty req.fromdate ≡ false
      → req.count < 2 ^ 31
      → find (last_tick_key req.symbol req.exchange) (law.entries db) ≡ some v
      → IsTyped ticks bars contracts (law.entries db)
      → Returns
          (λ ts.
            map ticks.bytes ts
            ≡ values_before req.count (last_tick_key req.symbol req.exchange) (
                from_key
                  (tick_key req.symbol req.exchange req.fromdate req.fromtime)
                  (law.entries db)))
          (get_tick ldb ticks accepts req db)
  unfolding get_tick get_tick_from_count tick_key last_tick_key
  get_tick-values_before ticks bars contracts accepts writable cl req db v named to from w marked
        typed =
      rw named (
        rw (to, from)
          (count_query ticks cl accepts writable (lit "tick-")
            (tick_tail req.symbol req.exchange req.fromdate req.fromtime) _
            (req.symbol ++ (lit "-" ++ (req.exchange ++ lit "="))) (first_tick-key _ _ _ _)
            (text_ltb_asym _ _ (tick-last_key req.symbol req.exchange req.fromdate req.fromtime))
            req.count db v w marked (λ k u e. (typed k u e).0)))
