-- ===== src/Datafeed/Queries.antt =====
-- datafeed/dbservice.cpp: what the queries for a range and the deletes of a range answer.
use bftrader.Prelude.{
  ℕ, Bool, true, false, ◌&&◌, ◌||◌, none, some, [], ◌∷◌, ◌++◌, map, ◌≡◌, refl, sym, Text, lit, QMap,
  All, find, text_ltb, text_leb, starts, starts_between, text_ltb-append, from_key,
  from_key-IsSorted, from_key-AtLeast, find-from_key, All-find, All-from_key, find_low, AtLeast,
  values_within, values_within-from_key, arith, Returns, if◌then◌else◌,
}
use bftrader.Proto.{BfTickData, BfGetTickReq}
use bftrader.Datafeed.Messages.{BfBarData, BfContractData, BfGetBarReq, BfDeleteTickReq}
use bftrader.Datafeed.Store.{Leveldb, IsLeveldb, Codec, IsCodec}
use bftrader.Datafeed.Keys.{
  tick_key, tick_tail, first_tick_key, last_tick_key, bar_key, first_bar_key, last_bar_key,
  bar_tail, bar_mark,
}
use bftrader.ProtoUtils.{BfBarPeriod, format_period}
use bftrader.Datafeed.Insert.{is_empty, is_unknown}
use bftrader.Datafeed.Scan.{scan_to, scan_deletes}
use bftrader.Datafeed.Ticks.{get_tick_from_to, get_tick, delete_tick, incomplete}
use bftrader.Datafeed.Bars.{get_bar_from_to, get_bar}
use bftrader.Datafeed.Contents.{IsTyped}
use bftrader.Datafeed.Ranges.{IsEncoded, scan_to-values_within, changed-scan_deletes}

pub first_tick-key :
    (s x date time : Text) → text_ltb (first_tick_key s x) (tick_key s x date time) ≡ true
unfolding first_tick_key tick_key text_ltb
first_tick-key s x date time = rw (text_ltb-append s _ _) (rw (text_ltb-append x _ _) refl)

pub tick-last_key :
    (s x date time : Text) → text_ltb (tick_key s x date time) (last_tick_key s x) ≡ true
unfolding last_tick_key tick_key text_ltb
tick-last_key s x date time = rw (text_ltb-append s _ _) (rw (text_ltb-append x _ _) refl)

-- What follows the word of a bar key lies between the two marks.
pub first-bar_tail :
    (s x : Text) (p : BfBarPeriod) (date time : Text)
    → text_ltb (bar_mark s x p (lit "+")) (bar_tail s x p date time) ≡ true
unfolding text_ltb
first-bar_tail s x p date time =
    rw (text_ltb-append s _ _)
      (rw (text_ltb-append x _ _) (rw (text_ltb-append (format_period p) _ _) refl))

pub bar_tail-last :
    (s x : Text) (p : BfBarPeriod) (date time : Text)
    → text_ltb (bar_tail s x p date time) (bar_mark s x p (lit "=")) ≡ true
unfolding text_ltb
bar_tail-last s x p date time =
    rw (text_ltb-append s _ _)
      (rw (text_ltb-append x _ _) (rw (text_ltb-append (format_period p) _ _) refl))

-- Between two keys of one kind there are only keys of that kind.
IsEncoded-between :
    {M : Type 0} (c : Codec M) (word a b : Text) (es : QMap Text)
    → AtLeast (word ++ a) es
    → All (λ e. starts word e.0 ≡ true → IsEncoded c e.1) es
    → All (λ e. text_leb e.0 (word ++ b) ≡ true → IsEncoded c e.1) es
IsEncoded-between c word a b [] low h = tt
IsEncoded-between c word a b ((k, v) ∷ es) low h = (
  λ e. h.0 (starts_between word a b k low.0 (ground arith)),
  IsEncoded-between c word a b es low.1 h.1,
)

module _ {Db : Type 0} (ldb : Leveldb Db) (law : IsLeveldb ldb) where
  module _ {M : Type 0} (c : Codec M) (cl : IsCodec c) (accepts : ℕ → Bool)
      (writable : (n : ℕ) → accepts n ≡ true) where
    -- A scan from one key of a kind to another.
    range_query :
        (word a b first last : Text)
        → text_ltb first (word ++ a) ≡ true
        → text_ltb (word ++ b) last ≡ true
        → (db : Db)
        → ((k v : Text) → find k (law.entries db) ≡ some v → starts word k ≡ true → IsEncoded c v)
        → Returns
            (λ ms. map c.bytes ms ≡ values_within (word ++ a) (word ++ b) (law.entries db))
            (scan_to c.parse accepts first last (word ++ b) 0 (ldb.seek_next (word ++ a) db))
    range_query word a b first last before after db typed =
        let m = law.entries db in
        rw (law.seek_next_law (word ++ a) db) (
          rw (sym (values_within-from_key (word ++ a) (word ++ b) m)) (
            scan_to-values_within first last (word ++ a) (word ++ b) before after c cl accepts
              writable 0 (from_key (word ++ a) m) (from_key-IsSorted (word ++ a) m (law.sorted db))
              (from_key-AtLeast (word ++ a) m (law.sorted db))
              (IsEncoded-between c word a b (from_key (word ++ a) m)
                (from_key-AtLeast (word ++ a) m (law.sorted db))
                (All-from_key _ (word ++ a) m (All-find _ m (law.sorted db) typed)))))

  -- Deleting a range of keys of one kind.
  pub range_delete :
      (lo to first last : Text)
      → text_ltb first lo ≡ true
      → text_ltb to last ≡ true
      → (db : Db) (k : Text)
      → find k (law.entries (ldb.write (scan_deletes first last to (ldb.seek_next lo db)) db))
        ≡ (if text_leb lo k && text_leb k to then none else find k (law.entries db))
  range_delete lo to first last before after db k =
      let m = law.entries db in
      rw (law.write_law (scan_deletes first last to (ldb.seek_next lo db)) db k) (
        rw (law.seek_next_law lo db) (
          rw
            (changed-scan_deletes first last lo to before after k (from_key lo m) (find k m)
              (from_key-IsSorted lo m (law.sorted db)) (from_key-AtLeast lo m (law.sorted db)))
            ground
            (
              arith,
              find-from_key k lo m,
              find_low k lo (from_key lo m),
              from_key-AtLeast lo m (law.sorted db),
            )))

  -- A complete request to delete the ticks of a range removes the keys between the two bounds,
  -- those included, and changes nothing else.
  pub find-delete_tick :
      (req : BfDeleteTickReq) (db : Db) (k : Text)
      → incomplete req ≡ false
      → find k (law.entries (delete_tick ldb req db)) ≡ (
          if text_leb (tick_key req.symbol req.exchange req.fromdate req.fromtime) k
            && text_leb k (tick_key req.symbol req.exchange req.todate req.totime)
          then none
          else find k (law.entries db))
  unfolding delete_tick
  find-delete_tick req db k full = rw full (
      range_delete (tick_key req.symbol req.exchange req.fromdate req.fromtime)
        (tick_key req.symbol req.exchange req.todate req.totime) _ _ (first_tick-key _ _ _ _)
        (tick-last_key _ _ _ _) db k)

  module _ (ticks : Codec BfTickData) (bars : Codec BfBarData) (contracts : Codec BfContractData)
      (accepts : ℕ → Bool) (writable : (n : ℕ) → accepts n ≡ true) where
    -- On a database in which each value is the message that its key promises, with symbol, exchange
    -- and both dates given and while the stream is open, getTick returns and writes exactly the
    -- ticks whose keys lie between the two bounds, those included, in the order of the keys.
    pub get_tick-values_within :
        IsCodec ticks
        → (req : BfGetTickReq) (db : Db) → is_empty req.symbol || is_empty req.exchange ≡ false
        → is_empty req.todate ≡ false
        → is_empty req.fromdate ≡ false
        → IsTyped ticks bars contracts (law.entries db)
        → Returns
            (λ ts.
              map ticks.bytes ts
              ≡ values_within
                  (tick_key req.symbol req.exchange req.fromdate req.fromtime)
                  (tick_key req.symbol req.exchange req.todate req.totime)
                  (law.entries db))
            (get_tick ldb ticks accepts req db)
    unfolding get_tick get_tick_from_to tick_key
    get_tick-values_within cl req db named to from typed = rw named (
        rw (to, from)
          (range_query ticks cl accepts writable (lit "tick-")
            (tick_tail req.symbol req.exchange req.fromdate req.fromtime)
            (tick_tail req.symbol req.exchange req.todate req.totime) _ _ (first_tick-key _ _ _ _)
            (tick-last_key _ _ _ _) db (λ k v e. (typed k v e).0)))

    -- On a database in which each value is the message that its key promises, with symbol,
    -- exchange, period and both dates given and while the stream is open, getBar returns and writes
    -- exactly the bars whose keys lie between the two bounds, those included, in the order of the
    -- keys.
    pub get_bar-values_within :
        IsCodec bars
        → (req : BfGetBarReq) (db : Db)
        → is_empty req.symbol || (is_empty req.exchange || is_unknown req.period) ≡ false
        → is_empty req.todate ≡ false
        → is_empty req.fromdate ≡ false
        → IsTyped ticks bars contracts (law.entries db)
        → Returns
            (λ bs.
              map bars.bytes bs
              ≡ values_within
                  (bar_key req.symbol req.exchange req.period req.fromdate req.fromtime)
                  (bar_key req.symbol req.exchange req.period req.todate req.totime)
                  (law.entries db))
            (get_bar ldb bars accepts req db)
    unfolding get_bar get_bar_from_to bar_key first_bar_key last_bar_key text_ltb
    get_bar-values_within cl req db named to from typed = rw named (
        rw (to, from)
          (range_query bars cl accepts writable (lit "bar-")
            (bar_tail req.symbol req.exchange req.period req.fromdate req.fromtime)
            (bar_tail req.symbol req.exchange req.period req.todate req.totime) _ _
            (first-bar_tail req.symbol req.exchange req.period _ _)
            (bar_tail-last req.symbol req.exchange req.period _ _) db (λ k v e. (typed k v e).1)))
