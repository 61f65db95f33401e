-- ===== src/Datafeed/Outcomes.antt =====
-- datafeed/dbservice.cpp: what a query answers after an insert or a delete.
use bftrader.Prelude.{
  ℕ, Bool, true, false, Option, some, List, [], ◌∷◌, ◌++◌, map, ◌≡◌, refl, ◌∙◌, ap, Text, lit, find,
  text_eq, text_eq_refl, text_ltb, values_within, values_within_single, values_within_empty, arith,
  Returns_at, if_both,
}
use bftrader.ProtoUtils.{BfBarPeriod}
use bftrader.Proto.{BfTickData, BfGetTickReq}
use bftrader.Datafeed.Messages.{BfBarData, BfContractData, BfDeleteTickReq, BfDeleteBarReq}
use bftrader.Datafeed.Store.{Leveldb, IsLeveldb, Codec, IsCodec, changed, put}
use bftrader.Datafeed.Keys.{
  bar_tail, first_bar_key, last_bar_key, first_tick_key, last_tick_key, tick_key, contract_key,
}
use bftrader.Datafeed.Insert.{
  is_empty, invalid_tick, invalid_contract, bar_marks, contract_batch, all_periods, insert_tick,
  insert_contract,
}
use bftrader.Datafeed.Ticks.{get_tick, delete_tick, incomplete}
use bftrader.Datafeed.Bars.{delete_bar}
use bftrader.Datafeed.Contracts.{get_contract, is_all}
use bftrader.Datafeed.Contents.{IsTyped, handle-IsTyped, inserts_tick, deletes_tick, handle}
use bftrader.Datafeed.Queries.{
  range_delete, first-bar_tail, bar_tail-last, get_tick-values_within, find-delete_tick,
}

-- A message is known by its text.
map-single :
    {M : Type 0} (c : Codec M) (cl : IsCodec c) (m : M) (ms : List M)
    → map c.bytes ms ≡ c.bytes m ∷ []
    → ms ≡ m ∷ []
map-single c cl m [] h = cc
map-single c cl m (x ∷ []) h = ground (arith, cl.parse_law x, cl.parse_law m)
map-single c cl m (x ∷ y ∷ ms) h = cc

map_empty : {A B : Type 0} (f : A → B) (xs : List A) → map f xs ≡ [] → xs ≡ []
map_empty f [] h = refl
map_empty f (x ∷ xs) h = cc

-- The request for the ticks of exactly the time of a tick.
abbrev pub exactly : BfTickData → BfGetTickReq
exactly t = record {
  symbol = t.symbol;
  exchange = t.exchange;
  todate = t.actiondate;
  totime = t.ticktime;
  count = 0;
  fromdate = t.actiondate;
  fromtime = t.ticktime;
}

-- The request for the ticks of the range that a delete names.
abbrev pub same_range : BfDeleteTickReq → BfGetTickReq
same_range req = record {
  symbol = req.symbol;
  exchange = req.exchange;
  todate = req.todate;
  totime = req.totime;
  count = 0;
  fromdate = req.fromdate;
  fromtime = req.fromtime;
}

module _ {Db : Type 0} (ldb : Leveldb Db) (law : IsLeveldb ldb) where
  -- A request to delete bars removes no bar: every key that begins with "bar-" keeps its value.
  pub find-delete_bar :
      (req : BfDeleteBarReq) (db : Db) (s : Text)
      → find (lit "bar-" ++ s) (law.entries (delete_bar ldb req db))
        ≡ find (lit "bar-" ++ s) (law.entries db)
  unfolding delete_bar text_ltb
  find-delete_bar req db s =
      let k = lit "bar-" ++ s in
      let tail = bar_tail req.symbol req.exchange req.period in
      if_both (λ x. find k (law.entries x) ≡ find k (law.entries db)) _ db _ refl
        (range_delete ldb law (lit "tick-" ++ tail req.fromdate req.fromtime)
          (lit "tick-" ++ tail req.todate req.totime) _ _
          (first-bar_tail req.symbol req.exchange req.period _ _)
          (bar_tail-last req.symbol req.exchange req.period _ _) db k)

module _ {Db : Type 0} (ldb : Leveldb Db) (law : IsLeveldb ldb) (ticks : Codec BfTickData)
    (bars : Codec BfBarData) (contracts : Codec BfContractData) (tl : IsCodec ticks)
    (bl : IsCodec bars) (cl : IsCodec contracts) (accepts : ℕ → Bool)
    (writable : (n : ℕ) → accepts n ≡ true) where
  abbrev tick_stored : BfTickData → Db → Db
  tick_stored t =
      ldb.write (put (tick_key t.symbol t.exchange t.actiondate t.ticktime) (ticks.bytes t) ∷ [])

  insert_tick-eq-tick_stored :
      (t : BfTickData) (db : Db)
      → invalid_tick t ≡ false
      → insert_tick ticks bars contracts ldb t db ≡ some (tick_stored t db)
  unfolding insert_tick
  insert_tick-eq-tick_stored t db valid = rw valid (rw (tl.serializes_law t) refl)

  -- The range that is the key of a stored tick holds its text alone.
  values_within-tick_stored :
      (t : BfTickData) (db : Db)
      → values_within
          (tick_key t.symbol t.exchange t.actiondate t.ticktime)
          (tick_key t.symbol t.exchange t.actiondate t.ticktime)
          (law.entries (tick_stored t db))
        ≡ ticks.bytes t ∷ []
  unfolding changed
  values_within-tick_stored t db =
      let k = tick_key t.symbol t.exchange t.actiondate t.ticktime in
      rw (values_within_single k (law.entries (tick_stored t db)) (law.sorted _))
        (rw (law.write_law (put k (ticks.bytes t) ∷ []) db k) (rw (text_eq_refl k) refl))

  -- On a database in which each value is the message that its key promises, a valid tick that is
  -- inserted is what a query for exactly its time returns, and nothing else, while the stream is
  -- open.
  pub get_tick-insert_tick :
      (t : BfTickData) (db : Db)
      → invalid_tick t ≡ false
      → IsTyped ticks bars contracts (law.entries db)
      → (db' : Db) × (insert_tick ticks bars contracts ldb t db ≡ some db')
        × (get_tick ldb ticks accepts (exactly t) db' ≡ some (t ∷ []))
  unfolding invalid_tick handle
  get_tick-insert_tick t db valid typed =
      let e = insert_tick-eq-tick_stored t db valid in
      let typed' =
        Returns_at _ _
          (handle-IsTyped ticks bars contracts ldb law tl bl cl (inserts_tick t) db typed) e in
      let (ts, e', same) =
        get_tick-values_within ldb law ticks bars contracts accepts writable tl (exactly t)
          (tick_stored t db) (ground arith) (ground arith) (ground arith) typed' in
      (
        tick_stored t db,
        e,
        e' ∙ ap some (map-single ticks tl t ts (same ∙ values_within-tick_stored t db)),
      )

  -- On a database in which each value is the message that its key promises, after a complete delete
  -- of a range a query for that range returns and writes nothing, while the stream is open.
  pub get_tick-delete_tick :
      (req : BfDeleteTickReq) (db : Db)
      → incomplete req ≡ false
      → IsTyped ticks bars contracts (law.entries db)
      → get_tick ldb ticks accepts (same_range req) (delete_tick ldb req db) ≡ some []
  unfolding incomplete handle
  get_tick-delete_tick req db full typed =
      let typed' =
        Returns_at _ _
          (handle-IsTyped ticks bars contracts ldb law tl bl cl (deletes_tick req) db typed) refl in
      let (ts, e', same) =
        get_tick-values_within ldb law ticks bars contracts accepts writable tl (same_range req)
          (delete_tick ldb req db) (ground arith) (ground arith) (ground arith) typed' in
      e'
      ∙ ap some (
          map_empty ticks.bytes ts (
            same
            ∙ values_within_empty _ _ _ (law.sorted _)
                (λ k within. ground (arith, find-delete_tick ldb law req db k full, within))))

  -- The marks of the bars leave the key of a contract alone.
  changed-bar_marks :
      (s symbol exchange : Text) (ps : List BfBarPeriod) (old : Option Text)
      → changed (lit "contract-" ++ s) (bar_marks ticks bars contracts symbol exchange ps) old ≡ old
  unfolding changed bar_marks first_bar_key last_bar_key text_eq
  changed-bar_marks s symbol exchange [] old = refl
  changed-bar_marks s symbol exchange (p ∷ ps) old = changed-bar_marks s symbol exchange ps old

  changed-contract_batch :
      (c : BfContractData) (old : Option Text)
      → changed (contract_key c.symbol c.exchange) (contract_batch ticks bars contracts c) old
        ≡ some (contracts.bytes c)
  unfolding changed contract_batch contract_key first_tick_key last_tick_key text_eq
  changed-contract_batch c old =
      changed-bar_marks (c.symbol ++ (lit "-" ++ c.exchange)) c.symbol c.exchange all_periods _
      ∙ (rw (text_eq_refl (c.symbol ++ (lit "-" ++ c.exchange))) refl)

  insert_contract-eq-write :
      (c : BfContractData) (db : Db)
      → invalid_contract c ≡ false
      → insert_contract ticks bars contracts ldb c db
        ≡ some (ldb.write (contract_batch ticks bars contracts c) db)
  unfolding insert_contract
  insert_contract-eq-write c db valid = rw valid (rw (cl.serializes_law c) refl)

  -- A query for one contract whose key holds a contract with a symbol.
  get_contract_found :
      (c : BfContractData) (db : Db)
      → is_empty c.symbol ≡ false
      → is_empty c.exchange ≡ false
      → is_all c.symbol c.exchange ≡ false
      → find (contract_key c.symbol c.exchange) (law.entries db) ≡ some (contracts.bytes c)
      → get_contract contracts accepts ldb (record { symbol = c.symbol; exchange = c.exchange }) db
        ≡ some (c ∷ [])
  unfolding get_contract
  get_contract_found c db symbol exchange one held =
      rw (symbol, exchange)
        (rw one (
          rw (law.get_law (contract_key c.symbol c.exchange) db)
            (rw held (rw (cl.parse_law c) (rw (symbol, writable 0) refl)))))

  -- A valid contract that is inserted is what a query for it returns, while the stream is open and
  -- unless its symbol and its exchange are both "*".
  pub get_contract-insert_contract :
      (c : BfContractData) (db : Db)
      → invalid_contract c ≡ false
      → is_all c.symbol c.exchange ≡ false
      → (db' : Db) × (insert_contract ticks bars contracts ldb c db ≡ some db')
        × (get_contract contracts accepts ldb
              (record { symbol = c.symbol; exchange = c.exchange })
              db'
            ≡ some (c ∷ []))
  unfolding invalid_contract
  get_contract-insert_contract c db valid one = (
    ldb.write (contract_batch ticks bars contracts c) db,
    insert_contract-eq-write c db valid,
    get_contract_found c _ (ground arith) (ground arith) one (
        law.write_law (contract_batch ticks bars contracts c) db (contract_key c.symbol c.exchange)
        ∙ changed-contract_batch c _),
  )
