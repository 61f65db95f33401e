-- ===== src/Datafeed/Contracts.antt =====
-- datafeed/dbservice.cpp: getContract and deleteContract. `none` is a call of qFatal.
use bftrader.Prelude.{
  ℕ, suc, Bool, ◌&&◌, ◌||◌, Option, none, some, List, [], ◌∷◌, Text, lit, QMap, text_eq,
  if◌then◌else◌, ◌>>=◌,
}
use bftrader.Datafeed.Messages.{BfContractData, BfGetContractReq, BfDeleteContractReq}
use bftrader.Datafeed.Store.{Leveldb, Codec, Change, delete}
use bftrader.Datafeed.Keys.{contract_key}
use bftrader.Datafeed.Insert.{is_empty}

-- `if (it->Valid()) it->Next()`
abbrev pub skipped : QMap Text → QMap Text
skipped [] = []
skipped (e ∷ es) = es

abbrev pub is_all : Text → Text → Bool
is_all symbol exchange = text_eq symbol (lit "*") && text_eq exchange (lit "*")

module _ (contracts : Codec BfContractData) (accepts : ℕ → Bool) where
  -- The loop over all contracts ends at one without a symbol.
  unfoldable pub scan_contracts : ℕ → QMap Text → Option (List BfContractData)
  scan_contracts n [] = some []
  scan_contracts n ((k, v) ∷ es) = do
    c ← contracts.parse v
    if is_empty c.symbol then some [] else (do
      rest ← if accepts n then scan_contracts (suc n) es else some []
      some (if accepts n then c ∷ rest else []))

  abbrev pub written : BfContractData → List BfContractData
  written c = if is_empty c.symbol then [] else if accepts 0 then c ∷ [] else []

  unfoldable pub get_contract :
      {Db : Type 0} → Leveldb Db → BfGetContractReq → Db → Option (List BfContractData)
  get_contract ldb req db =
      if is_empty req.symbol || is_empty req.exchange
      then some []
      else if is_all req.symbol req.exchange
      then scan_contracts 0 (skipped (ldb.seek_next (lit "contract+") db))
      else elim (ldb.get (contract_key req.symbol req.exchange) db) [
        | none ↦ some []
        | some v ↦ (do c ← contracts.parse v; some (written c))
      ]

-- The loop of deleteContract over all contracts.
unfoldable pub scan_contract_deletes : QMap Text → List Change
scan_contract_deletes [] = []
scan_contract_deletes ((k, v) ∷ es) =
    let rest = scan_contract_deletes es in
    if text_eq k (lit "contract+")
    then rest
    else if text_eq k (lit "contract=")
    then []
    else delete k ∷ rest

unfoldable pub delete_contract : {Db : Type 0} → Leveldb Db → BfDeleteContractReq → Db → Db
delete_contract ldb req db =
    if is_empty req.symbol || is_empty req.exchange
    then db
    else if is_all req.symbol req.exchange
    then ldb.write (scan_contract_deletes (skipped (ldb.seek_next (lit "contract+") db))) db
    else ldb.write (delete (contract_key req.symbol req.exchange) ∷ []) db
