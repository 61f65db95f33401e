-- ===== src/Ctp/Contracts.antt =====
-- The contracts and ring buffers of ctpgateway/gatewaymgr.cpp, and how ctpgateway/tdsm.cpp and
-- ctpgateway/mdsm.cpp fill and reset them: the answer of CTP to a query for instruments.
pub mod Reported
pub mod Subscribed
pub mod Examples
use bftrader.Prelude.{
  ℕ, suc, Bool, true, false, ◌||◌, Option, none, some, List, [], ◌∷◌, ◌++◌, length, leb,
  if◌then◌else◌, ◌>>=◌, Text, QMap, find, insert, starts,
}
use bftrader.Ctp.RingBuffer.{RingBuffer, init}
use bftrader.Ctp.Translate.{InstrumentField, DepthMarketDataField}

-- The fields of GatewayMgr, TdSmSpi and MdSmSpi that hold the contracts: `got_my` and `got_all` are
-- the lists that TdSmSpi collects, `symbols_my` and `symbols_all` those that the manager keeps.
-- `subscribed` lists the requests for market data, `errors` counts the emitted errors, `confirmed`
-- the requests to confirm the settlement.
pub record Contracts : Type 0 where
  pub contracts : QMap InstrumentField
  pub rbs : QMap (RingBuffer DepthMarketDataField)
  pub prefixes : List Text
  pub got_my : List Text
  pub got_all : List Text
  pub symbols_my : List Text
  pub symbols_all : List Text
  pub subscribed : List (List Text)
  pub confirmed : ℕ
  pub errors : ℕ

-- `none` is a call of qFatal, here and below.
unfoldable pub get_contract : Text → QMap InstrumentField → Option InstrumentField
get_contract symbol contracts = find symbol contracts

unfoldable pub insert_contract : InstrumentField → Contracts → Option Contracts
insert_contract contract s = elim (find contract.instrument_id s.contracts) [
  | some old ↦ none
  | none ↦ some (record s { contracts = insert contract.instrument_id contract s.contracts })
]

unfoldable pub free_contracts : Contracts → Contracts
free_contracts s = record s { contracts = [] }

unfoldable pub free_ring_buffer : Contracts → Contracts
free_ring_buffer s = record s { rbs = [] }

-- ringBufferLen_ is 256.
abbrev pub ring_buffer_len : ℕ
ring_buffer_len = 256

unfoldable pub add_ring_buffers :
    ℕ
    → List Text
    → QMap (RingBuffer DepthMarketDataField)
    → Option (QMap (RingBuffer DepthMarketDataField))
add_ring_buffers item_len [] rbs = some rbs
add_ring_buffers item_len (symbol ∷ ids) rbs = do
  rb ← init item_len ring_buffer_len
  add_ring_buffers item_len ids (insert symbol rb rbs)

unfoldable pub init_ring_buffer : ℕ → List Text → Contracts → Option Contracts
unfolding add_ring_buffers
init_ring_buffer item_len ids s = elim s.rbs [
  | [] ↦ do rbs ← add_ring_buffers item_len ids []; some (record s { rbs = rbs })
  | e ∷ m ↦ none
]

-- resetData of TdSmSpi, of MdSmSpi, and of the manager, which queryInstrument calls when its
-- request goes out.
unfoldable pub reset_td : Contracts → Contracts
unfolding free_contracts
reset_td s = free_contracts (record s { got_my = []; got_all = []; prefixes = [] })

unfoldable pub reset_md : Contracts → Contracts
unfolding free_ring_buffer
reset_md s = free_ring_buffer s

unfoldable pub reset_data : Contracts → Contracts
unfolding reset_td reset_md
reset_data s = reset_md (reset_td (record s { symbols_my = []; symbols_all = [] }))

-- One answer of CTP, whose `instrument` is `none` for the null pointer.
pub record InstrumentRsp : Type 0 where
  pub is_error : Bool
  pub instrument : Option InstrumentField
  pub is_last : Bool

unfoldable pub any_prefix : List Text → Text → Bool
any_prefix [] s = false
any_prefix (p ∷ ps) s = if starts p s then true else any_prefix ps s

-- `all_prefixes` is symbolPrefixes_ split at ";".
unfoldable pub take_prefixes : List Text → Contracts → Contracts
take_prefixes all_prefixes s = elim s.prefixes [
  | [] ↦ record s { prefixes = all_prefixes }
  | p ∷ ps ↦ s
]

-- The slot onGotContracts of the manager; `sort` is that of Qt.
unfoldable pub on_got_contracts :
    (List Text → List Text) → List Text → List Text → Contracts → Contracts
on_got_contracts sort my all s = record s {
  symbols_my = sort my;
  symbols_all = sort all;
  subscribed = s.subscribed ++ my ∷ [];
  confirmed = suc s.confirmed;
}

-- `to_lower` is that of Qt.
module _ (to_lower : Text → Text) where
  unfoldable pub is_my : List Text → Text → Bool
  unfolding any_prefix
  is_my prefixes symbol =
      if leb (length symbol) 6 then any_prefix prefixes (to_lower symbol) else false

  unfoldable pub add_instrument : InstrumentField → Contracts → Option Contracts
  unfolding is_my insert_contract
  add_instrument contract s = do
    s' ← insert_contract contract s
    some (record s' {
      got_all = s'.got_all ++ contract.instrument_id ∷ [];
      got_my =
          if is_my s'.prefixes contract.instrument_id
          then s'.got_my ++ contract.instrument_id ∷ []
          else s'.got_my;
    })

  unfoldable pub got_instrument : InstrumentRsp → Contracts → Option Contracts
  unfolding add_instrument
  got_instrument rsp s =
      if rsp.is_error
      then some (record s { errors = suc s.errors })
      else elim rsp.instrument [ none ↦ some s | some contract ↦ add_instrument contract s ]

  -- `item_len` is the size of a tick. The signal gotContracts is queued to the manager.
  module _ (all_prefixes : List Text) (item_len : ℕ) where
    unfoldable pub on_rsp_qry_instrument : InstrumentRsp → Contracts → Option Contracts
    unfolding got_instrument take_prefixes init_ring_buffer
    on_rsp_qry_instrument rsp s = do
      s' ← got_instrument rsp (take_prefixes all_prefixes s)
      if rsp.is_last then init_ring_buffer item_len s'.got_my s' else some s'

    -- The answers in their order.
    abbrev pub answer_instruments : List InstrumentRsp → Contracts → Option Contracts
    answer_instruments [] s = some s
    answer_instruments (rsp ∷ rest) s = do
      s' ← on_rsp_qry_instrument rsp s
      answer_instruments rest s'
