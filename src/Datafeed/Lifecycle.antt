-- ===== src/Datafeed/Lifecycle.antt =====
-- datafeed/dbservice.cpp: the database is opened, closed, removed and made anew. The thread checks of
-- the slots are in Services.
use bftrader.Prelude.{
  ℕ, suc, ◌≡◌, refl, Bool, true, not, Option, none, some, if◌then◌else◌, ◌>>=◌, Returns,
}
use bftrader.Datafeed.Messages.{BfBarData, BfContractData}
use bftrader.Proto.{BfTickData}
use bftrader.Datafeed.Store.{Leveldb, Codec}
use bftrader.Datafeed.Insert.{db_init}

-- `db` is db_, `disk` what is stored at the path while the database is closed, `opens` counts the
-- emitted signals.
pub record DbService (Db : Type 0) : Type 0 where
  pub db : Option Db
  pub disk : Option Db
  pub opens : ℕ

module _ {Db : Type 0} (ticks : Codec BfTickData) (bars : Codec BfBarData)
    (contracts : Codec BfContractData) (ldb : Leveldb Db) (fresh : Db) where
  -- `fresh` is a database that Open has created; `ok` is the status of the call of leveldb, and
  -- `none` is a call of qFatal.
  unfoldable pub db_open : Bool → DbService Db → Option (DbService Db)
  db_open ok s = elim s.db [
    | some x ↦ some s
    | none ↦
        if not ok
        then none
        else some (record s { db = some (elim s.disk [ none ↦ fresh | some x ↦ x ]); disk = none })
  ]

  unfoldable pub db_close : DbService Db → DbService Db
  db_close s = elim s.db [ none ↦ s | some x ↦ record s { db = none; disk = some x } ]

  unfoldable pub init_db : DbService Db → Option (DbService Db)
  init_db s = do x ← s.db; some (record s { db = some (db_init ticks bars contracts ldb x) })

  unfoldable pub db_reset : Bool → DbService Db → Option (DbService Db)
  db_reset ok s = elim s.db [
    | some x ↦ none
    | none ↦ if not ok then none else some (record s { disk = none })
  ]

  abbrev pub emit_opened : DbService Db → DbService Db
  emit_opened s = record s { opens = suc s.opens }

  unfoldable pub init : Bool → DbService Db → Option (DbService Db)
  unfolding db_open init_db
  init ok s = do s1 ← db_open ok s; s2 ← init_db s1; some (emit_opened s2)

  unfoldable pub shutdown : DbService Db → DbService Db
  unfolding db_close
  shutdown s = db_close s

  unfoldable pub clean_all : (destroyed ok : Bool) → DbService Db → Option (DbService Db)
  unfolding db_close db_reset db_open init_db
  clean_all destroyed ok s = do
    s1 ← db_reset destroyed (db_close s)
    s2 ← db_open ok s1
    s3 ← init_db s2
    some (emit_opened s3)

  unfoldable pub get_db : DbService Db → Option Db
  get_db s = s.db

  -- Nothing of the old database is left after cleanAll, whether it was open or not.
  pub clean_all-db_init :
      (s : DbService Db)
      → Returns
          (λ s'. (s'.db ≡ some (db_init ticks bars contracts ldb fresh)) × (s'.opens ≡ suc s.opens))
          (clean_all true true s)
  unfolding clean_all db_close db_reset db_open init_db
  clean_all-db_init s = by_fields s.db s.disk s.opens
    where
      by_fields :
          (x y : Option Db) (n : ℕ)
          → Returns
              (λ s'. (s'.db ≡ some (db_init ticks bars contracts ldb fresh)) × (s'.opens ≡ suc n))
              (clean_all true true (record { db = x; disk = y; opens = n }))
      by_fields none y n = (_, refl, (refl, refl))
      by_fields (some x) y n = (_, refl, (refl, refl))

  -- A service that was shut down with an open database comes up again with what it had stored.
  pub init-shutdown :
      (x : Db) (n : ℕ)
      → init true (shutdown (record { db = some x; disk = none; opens = n }))
        ≡ some
            (record { db = some (db_init ticks bars contracts ldb x); disk = none; opens = suc n })
  unfolding init shutdown db_close db_open init_db
  init-shutdown x n = refl
