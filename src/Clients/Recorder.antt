-- ===== src/Clients/Recorder.antt =====
-- datarecorder/pushservice.cpp: ticks and contracts that a gateway pushes go to the datafeed, whose
-- datafeed/rpcservice.cpp posts each call to the slot of DbService with the same name.
use mathlib.Core.List.{append_assoc}
use bftrader.Prelude.{
  ℕ, suc, ◌≡◌, refl, Bool, true, false, Option, none, some, List, [], ◌∷◌, ◌++◌, map, if◌then◌else◌,
  ◌>>=◌, Text, lit, Returns, Option-cases, inl, inr, sym, arith,
}
use bftrader.Proto.{BfTickData, BfNotificationType, notification_gotcontracts}
use bftrader.Datafeed.Messages.{BfContractData, BfBarData, BfGetContractReq}
use bftrader.Datafeed.Store.{Leveldb, IsLeveldb, Codec, IsCodec}
use bftrader.Datafeed.Insert.{invalid_tick}
use bftrader.Datafeed.Ticks.{get_tick}
use bftrader.Datafeed.Contents.{
  Request, inserts_tick, inserts_contract, handle, IsTyped, handle-IsTyped,
}
use bftrader.Datafeed.Outcomes.{get_tick-insert_tick, exactly}
use bftrader.Push.Messages.{BfNotificationData}
use bftrader.Clients.{Answer, GatewayMgr, get_contract}
use bftrader.Clients.Dispatch.{Got, got_tick, got_notification}

-- `client` is client_, by the id of the client; `pings` counts the calls of Ping.
pub record Recorder : Type 0 where
  pub client : Option Text
  pub pings : ℕ

unfoldable pub connect_datafeed : Text → Recorder → Recorder
connect_datafeed client_id r = record r { client = some client_id }

unfoldable pub disconnect_datafeed : Recorder → Recorder
disconnect_datafeed r = record r { client = none }

unfoldable pub on_ping : Recorder → Recorder
on_ping r = elim r.client [ none ↦ r | some id ↦ record r { pings = suc r.pings } ]

-- The calls of the datafeed that a slot makes; a call that fails is logged only.
unfoldable pub on_got_tick : Text → BfTickData → Recorder → List Request
on_got_tick gateway_id data' r = elim r.client [ none ↦ [] | some id ↦ inserts_tick data' ∷ [] ]

abbrev pub is_gotcontracts : BfNotificationType → Bool
is_gotcontracts notification_gotcontracts = true
is_gotcontracts _ = false

abbrev pub every : BfGetContractReq
every = record { exchange = lit "*"; symbol = lit "*" }

module _ (answer : Text → BfGetContractReq → Answer BfContractData) (mgr : GatewayMgr) where
  unfoldable pub on_got_notification : Text → BfNotificationData → Recorder → List Request
  on_got_notification gateway_id data' r = elim r.client [
    | none ↦ []
    | some id ↦
        if is_gotcontracts data'.type
        then map inserts_contract (get_contract answer gateway_id every mgr []).1
        else []
  ]

  -- init() connects two signals of the gateway manager.
  unfoldable pub recorded : Recorder → Got → List Request
  unfolding on_got_tick on_got_notification
  recorded r (got_tick gateway_id data') = on_got_tick gateway_id data' r
  recorded r (got_notification gateway_id data') = on_got_notification gateway_id data' r
  recorded r _ = []

  unfoldable pub recorded_all : Recorder → List Got → List Request
  unfolding recorded
  recorded_all r [] = []
  recorded_all r (g ∷ gs) = recorded r g ++ recorded_all r gs

module _ {Db : Type 0} (ticks : Codec BfTickData) (bars : Codec BfBarData)
    (contracts : Codec BfContractData) (ldb : Leveldb Db) where
  -- The posted calls in their order.
  abbrev pub handle_all : List Request → Db → Option Db
  handle_all [] x = some x
  handle_all (r ∷ rs) x = do x' ← handle ticks bars contracts ldb r x; handle_all rs x'

  handle_all-append :
      (rs qs : List Request) (x : Db)
      → handle_all (rs ++ qs) x ≡ (handle_all rs x >>= handle_all qs)
  handle_all-append [] qs x = refl
  handle_all-append (r ∷ rs) qs x = elim (Option-cases (handle ticks bars contracts ldb r x)) [
    | inl e ↦ rw e refl
    | inr (x', e) ↦ rw e (handle_all-append rs qs x')
  ]

  module _ (law : IsLeveldb ldb) (tl : IsCodec ticks) (bl : IsCodec bars)
      (cl : IsCodec contracts) where
    handle_all-IsTyped :
        (rs : List Request) (x : Db)
        → IsTyped ticks bars contracts (law.entries x)
        → Returns (λ x'. IsTyped ticks bars contracts (law.entries x')) (handle_all rs x)
    handle_all-IsTyped [] x t = (x, refl, t)
    handle_all-IsTyped (r ∷ rs) x t =
        let (x1, e, t1) = handle-IsTyped ticks bars contracts ldb law tl bl cl r x t in
        let (x2, e', t2) = handle_all-IsTyped rs x1 t1 in (x2, rw e e', t2)

    module _ (answer : Text → BfGetContractReq → Answer BfContractData) (mgr : GatewayMgr)
        (accepts : ℕ → Bool) (writable : (n : ℕ) → accepts n ≡ true) where
      recorded_all-append :
          (r : Recorder) (gs hs : List Got)
          → recorded_all answer mgr r (gs ++ hs)
            ≡ recorded_all answer mgr r gs ++ recorded_all answer mgr r hs
      unfolding recorded_all
      recorded_all-append r [] hs = refl
      recorded_all-append r (g ∷ gs) hs = rw (recorded_all-append r gs hs) (
          sym (
            append_assoc (recorded answer mgr r g) (recorded_all answer mgr r gs)
              (recorded_all answer mgr r hs)))

      recorded_tick :
          (r : Recorder) (id gateway_id : Text) (t : BfTickData)
          → r.client ≡ some id
          → recorded_all answer mgr r (got_tick gateway_id t ∷ []) ≡ inserts_tick t ∷ []
      unfolding recorded_all recorded on_got_tick
      recorded_tick r id gateway_id t e = ground arith

      -- With a connected datafeed, a database in which each value is the message that its key
      -- promises and a stream that can be written, a valid tick that reaches the recorder after any
      -- other signals is stored: the posted calls return, and a query of the datafeed for exactly
      -- its time then returns that tick and nothing else.
      pub get_tick-recorded :
          (r : Recorder) (id gateway_id : Text) (gs : List Got) (t : BfTickData) (x : Db)
          → r.client ≡ some id
          → invalid_tick t ≡ false
          → IsTyped ticks bars contracts (law.entries x)
          → Returns
              (λ x'. get_tick ldb ticks accepts (exactly t) x' ≡ some (t ∷ []))
              (handle_all (recorded_all answer mgr r (gs ++ got_tick gateway_id t ∷ [])) x)
      unfolding handle
      get_tick-recorded r id gateway_id gs t x e valid typed =
          let (x1, e1, t1) = handle_all-IsTyped (recorded_all answer mgr r gs) x typed in
          let (x2, e2, found) =
            get_tick-insert_tick ldb law ticks bars contracts tl bl cl accepts writable t x1 valid
              t1 in
          (
            x2,
            rw
                (
                  recorded_all-append r gs (got_tick gateway_id t ∷ []),
                  recorded_tick r id gateway_id t e,
                  handle_all-append (recorded_all answer mgr r gs) (inserts_tick t ∷ []) x,
                  e1,
                )
                (rw e2 refl),
            found,
          )
