-- ===== src/Datafeed/Contents.antt =====
-- datafeed/dbservice.cpp: what the database holds under each kind of key, and that the calls that
-- write keep to it.
use mathlib.Core.Path.{subst}
use bftrader.Prelude.{
  true, Option, some, List, [], ◌∷◌, ◌++◌, ◌≡◌, refl, Text, lit, QMap, All, find, text_eq,
  text_eq_iff, starts, text_leb, if_both, some_injective, Returns, Bool-cases, inl, inr, sym,
}
use bftrader.Proto.{BfTickData}
use bftrader.ProtoUtils.{BfBarPeriod}
use bftrader.Datafeed.Messages.{
  BfBarData, BfContractData, BfDeleteTickReq, BfDeleteBarReq, BfDeleteContractReq,
}
use bftrader.Datafeed.Store.{Leveldb, IsLeveldb, Codec, IsCodec, Change, put, delete, changed}
use bftrader.Datafeed.Keys.{
  tick_key, first_tick_key, last_tick_key, bar_key, first_bar_key, last_bar_key, contract_key,
  bar_mark, bar_tail,
}
use bftrader.Datafeed.Insert.{
  null_tick, null_bar, null_contract, all_periods, invalid_tick, invalid_bar, invalid_contract,
  bar_marks, contract_batch, db_init, insert_tick, insert_bar, insert_contract,
}
use bftrader.Datafeed.Scan.{scan_deletes}
use bftrader.Datafeed.Ticks.{delete_tick}
use bftrader.Datafeed.Bars.{delete_bar}
use bftrader.Datafeed.Contracts.{scan_contract_deletes, delete_contract}
use bftrader.Datafeed.Ranges.{IsEncoded}

-- The slots that write.
pub data Request : Type 0 where
  initializes : Request
  inserts_tick : BfTickData → Request
  inserts_bar : BfBarData → Request
  inserts_contract : BfContractData → Request
  deletes_tick : BfDeleteTickReq → Request
  deletes_bar : BfDeleteBarReq → Request
  deletes_contract : BfDeleteContractReq → Request

module _ (ticks : Codec BfTickData) (bars : Codec BfBarData)
    (contracts : Codec BfContractData) where
  -- A value is the message that its key promises.
  abbrev pub HasKind : Text → Text → Type 0
  HasKind k v =
      (starts (lit "tick-") k ≡ true → IsEncoded ticks v)
      × (starts (lit "bar-") k ≡ true → IsEncoded bars v)
      × (starts (lit "contract") k ≡ true → IsEncoded contracts v)

  abbrev pub IsTyped : QMap Text → Type 0
  IsTyped m = (k v : Text) → find k m ≡ some v → HasKind k v

  abbrev IsKept : Change → Type 0
  IsKept (put k v) = HasKind k v
  IsKept (delete k) = Unit

  changed-HasKind :
      (k v : Text) (cs : List Change) (old : Option Text)
      → All IsKept cs
      → (old ≡ some v → HasKind k v)
      → changed k cs old ≡ some v
      → HasKind k v
  unfolding changed
  changed-HasKind k v [] old a h e = h e
  changed-HasKind k v (put j w ∷ cs) old a h e =
      changed-HasKind k v cs _ a.1
        (elim (Bool-cases (text_eq j k)) [
          | inl m ↦ rw m (λ g.
              subst (λ x. HasKind x v) ((text_eq_iff j k).0 m)
                (subst (λ y. HasKind j y) (some_injective g) a.0))
          | inr m ↦ rw m h
        ])
        e
  changed-HasKind k v (delete j ∷ cs) old a h e =
      changed-HasKind k v cs _ a.1
        (elim (Bool-cases (text_eq j k)) [ inl m ↦ rw m (λ g. cc) | inr m ↦ rw m h ]) e

  tick-HasKind : (s : Text) (t : BfTickData) → HasKind (lit "tick-" ++ s) (ticks.bytes t)
  tick-HasKind s t = (λ _. (t, refl), λ h. cc, λ h. cc)

  bar-HasKind : (s : Text) (b : BfBarData) → HasKind (lit "bar-" ++ s) (bars.bytes b)
  bar-HasKind s b = (λ h. cc, λ _. (b, refl), λ h. cc)

  contract-HasKind :
      (s : Text) (c : BfContractData) → HasKind (lit "contract" ++ s) (contracts.bytes c)
  contract-HasKind s c = (λ h. cc, λ h. cc, λ _. (c, refl))

  bar_marks-IsKept :
      (symbol exchange : Text) (ps : List BfBarPeriod)
      → All IsKept (bar_marks ticks bars contracts symbol exchange ps)
  unfolding bar_marks first_bar_key last_bar_key
  bar_marks-IsKept symbol exchange [] = tt
  bar_marks-IsKept symbol exchange (p ∷ ps) = (
    bar-HasKind (bar_mark symbol exchange p (lit "+")) null_bar,
    (
      bar-HasKind (bar_mark symbol exchange p (lit "=")) null_bar,
      bar_marks-IsKept symbol exchange ps,
    ),
  )

  contract_batch-IsKept : (c : BfContractData) → All IsKept (contract_batch ticks bars contracts c)
  unfolding contract_batch contract_key first_tick_key last_tick_key
  contract_batch-IsKept c = (
    contract-HasKind (lit "-" ++ (c.symbol ++ (lit "-" ++ c.exchange))) c,
    (
      tick-HasKind (c.symbol ++ (lit "-" ++ (c.exchange ++ lit "+"))) null_tick,
      (
        tick-HasKind (c.symbol ++ (lit "-" ++ (c.exchange ++ lit "="))) null_tick,
        bar_marks-IsKept c.symbol c.exchange all_periods,
      ),
    ),
  )

  -- A batch of deletes puts nothing.
  scan_deletes-IsKept :
      (first last to : Text) (es : QMap Text) → All IsKept (scan_deletes first last to es)
  unfolding scan_deletes
  scan_deletes-IsKept first last to [] = tt
  scan_deletes-IsKept first last to ((k, v) ∷ es) =
      let rest = scan_deletes-IsKept first last to es in
      elim (Bool-cases (text_eq k first)) [
        | inl e ↦ rw e rest
        | inr e ↦ rw e (elim (Bool-cases (text_eq k last)) [
          | inl l ↦ rw l tt
          | inr l ↦
              rw l (elim (Bool-cases (text_leb k to)) [ inl b ↦ rw b (tt, rest) | inr b ↦ rw b tt ])
        ])
      ]

  scan_contract_deletes-IsKept : (es : QMap Text) → All IsKept (scan_contract_deletes es)
  unfolding scan_contract_deletes
  scan_contract_deletes-IsKept [] = tt
  scan_contract_deletes-IsKept ((k, v) ∷ es) =
      let rest = scan_contract_deletes-IsKept es in
      elim (Bool-cases (text_eq k (lit "contract+"))) [
        | inl e ↦ rw e rest
        | inr e ↦ rw e (elim (Bool-cases (text_eq k (lit "contract="))) [
          | inl l ↦ rw l tt
          | inr l ↦ rw l (tt, rest)
        ])
      ]

  module _ {Db : Type 0} (ldb : Leveldb Db) where
    unfoldable pub handle : Request → Db → Option Db
    handle initializes db = some (db_init ticks bars contracts ldb db)
    handle (inserts_tick t) db = insert_tick ticks bars contracts ldb t db
    handle (inserts_bar b) db = insert_bar ticks bars contracts ldb b db
    handle (inserts_contract c) db = insert_contract ticks bars contracts ldb c db
    handle (deletes_tick req) db = some (delete_tick ldb req db)
    handle (deletes_bar req) db = some (delete_bar ldb req db)
    handle (deletes_contract req) db = some (delete_contract ldb req db)

    module _ (law : IsLeveldb ldb) (tl : IsCodec ticks) (bl : IsCodec bars)
        (cl : IsCodec contracts) where
      write-IsTyped :
          (cs : List Change) (db : Db)
          → All IsKept cs
          → IsTyped (law.entries db)
          → IsTyped (law.entries (ldb.write cs db))
      write-IsTyped cs db a t k v e =
          changed-HasKind k v cs (find k (law.entries db)) a (t k v)
            (rw (sym (law.write_law cs db k)) e)

      -- Every slot that writes to a database in which each value is the message that its key
      -- promises (a tick under "tick-", a bar under "bar-", a contract under "contract") returns
      -- and keeps it so.
      pub handle-IsTyped :
          (r : Request) (db : Db)
          → IsTyped (law.entries db)
          → Returns (λ db'. IsTyped (law.entries db')) (handle r db)
      unfolding handle db_init insert_tick insert_bar insert_contract delete_tick delete_bar
          delete_contract tick_key bar_key
      handle-IsTyped initializes db t = (
        _,
        refl,
        write-IsTyped _ db
            (
              contract-HasKind (lit "+") null_contract,
              (contract-HasKind (lit "=") null_contract, tt),
            )
            t,
      )
      handle-IsTyped (inserts_tick m) db t = elim (Bool-cases (invalid_tick m)) [
        | inl e ↦ rw e (db, refl, t)
        | inr e ↦ rw e (
            rw (tl.serializes_law m) (
              _,
              refl,
              write-IsTyped _ db
                  (
                    tick-HasKind
                        (m.symbol
                          ++ (lit "-"
                              ++ (m.exchange
                                  ++ (lit "-" ++ (m.actiondate ++ (lit "-" ++ m.ticktime))))))
                        m,
                    tt,
                  )
                  t,
            ))
      ]
      handle-IsTyped (inserts_bar m) db t = elim (Bool-cases (invalid_bar m)) [
        | inl e ↦ rw e (db, refl, t)
        | inr e ↦ rw e (
            rw (bl.serializes_law m) (
              _,
              refl,
              write-IsTyped _ db
                  (bar-HasKind (bar_tail m.symbol m.exchange m.period m.actiondate m.bartime) m, tt)
                  t,
            ))
      ]
      handle-IsTyped (inserts_contract m) db t = elim (Bool-cases (invalid_contract m)) [
        | inl e ↦ rw e (db, refl, t)
        | inr e ↦
            rw e
              (rw (cl.serializes_law m) (_, refl, write-IsTyped _ db (contract_batch-IsKept m) t))
      ]
      handle-IsTyped (deletes_tick req) db t = (
        _,
        refl,
        if_both (λ x. IsTyped (law.entries x)) _ db _ t
            (write-IsTyped _ db (scan_deletes-IsKept _ _ _ _) t),
      )
      handle-IsTyped (deletes_bar req) db t = (
        _,
        refl,
        if_both (λ x. IsTyped (law.entries x)) _ db _ t
            (write-IsTyped _ db (scan_deletes-IsKept _ _ _ _) t),
      )
      handle-IsTyped (deletes_contract req) db t = (
        _,
        refl,
        if_both (λ x. IsTyped (law.entries x)) _ db _ t
            (if_both (λ x. IsTyped (law.entries x)) _ _ _
              (write-IsTyped _ db (scan_contract_deletes-IsKept _) t)
              (write-IsTyped _ db (tt, tt) t)),
      )
