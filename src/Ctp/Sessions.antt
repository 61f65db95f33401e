-- ===== src/Ctp/Sessions.antt =====
-- ctpgateway/gatewaymgr.cpp: the manager starts, logs in, stops and restarts the session for market
-- data (MdSm) and the one for trading (TdSm).
pub mod Quiet
use bftrader.Prelude.{
  ℕ, ◌+◌, ◌*◌, Bool, true, false, not, ◌&&◌, ◌||◌, Option, none, some, List, [], ◌∷◌, if◌then◌else◌,
  ◌>>=◌,
}

pub data MdState : Type 0 where
  mdsm_disconnected mdsm_connected mdsm_logined mdsm_loginfail mdsm_stopped : MdState

pub data TdState : Type 0 where
  tdsm_disconnected tdsm_connected tdsm_logined tdsm_loginfail : TdState
  tdsm_logouted tdsm_logoutfail tdsm_stopped : TdState

-- What the manager asks of the two sessions and emits; a number is a delay in milliseconds.
pub data Action : Type 0 where
  starts_md starts_td releases_md releases_td resets_cmds trade_will_begin : Action
  logs_in_md logs_in_td logs_out_td queries_instrument : ℕ → Action

-- `mdsm` and `tdsm` tell whether the pointers are set; `done` lists the actions, the newest first.
pub record Sessions : Type 0 where
  pub mdsm : Bool
  pub md_logined : Bool
  pub tdsm : Bool
  pub td_logined : Bool
  pub auto_login_td : Bool
  pub auto_login_md : Bool
  pub done : List Action

abbrev pub act : Action → Sessions → Sessions
act a s = record s { done = a ∷ s.done }

-- The end of a session: the state change to MDSM_STOPPED or TDSM_STOPPED.
unfoldable pub md_stopped : Sessions → Sessions
md_stopped s = record s { mdsm = false; md_logined = false }

unfoldable pub td_stopped : Sessions → Sessions
td_stopped s = record (act resets_cmds s) { tdsm = false; td_logined = false }

-- stop() of a session releases the interface and emits the state change, which the manager handles
-- before the call returns, since both live in one thread.
unfoldable pub md_stop : Sessions → Sessions
md_stop s = md_stopped (act releases_md s)

unfoldable pub td_stop : Sessions → Sessions
td_stop s = td_stopped (act releases_td s)

unfoldable pub start_md_sm : Sessions → Sessions
start_md_sm s = act starts_md (record s { mdsm = true; auto_login_md = true })

unfoldable pub start_td_sm : Sessions → Sessions
start_td_sm s = act starts_td (record s { tdsm = true; auto_login_td = true })

-- `md_valid` and `td_valid` are the results of init() on the parameters of the profile.
unfoldable pub start : Bool → Bool → Sessions → Sessions
start md_valid td_valid s =
    if s.mdsm || s.tdsm
    then s
    else if not md_valid
    then s
    else if not td_valid
    then s
    else start_td_sm (start_md_sm s)

-- `none` is a call through a null pointer or of qFatal.
unfoldable pub begin_trade : Sessions → Option Sessions
begin_trade s =
    if s.md_logined && s.td_logined
    then (if s.tdsm then some (act (queries_instrument 1000) (act trade_will_begin s)) else none)
    else some s

unfoldable pub try_start_subscrible : Bool → Sessions → Option Sessions
try_start_subscrible td_valid s = do
  s' ← begin_trade s
  if s'.tdsm then some s' else if not td_valid then none else some (start_td_sm s')

unfoldable pub on_md_sm_state_changed : Bool → MdState → Sessions → Option Sessions
on_md_sm_state_changed td_valid mdsm_connected s =
    if not s.mdsm
    then some s
    else let s' = record s { md_logined = false } in
      some (if s.auto_login_md then act (logs_in_md 1000) s' else md_stop s')
on_md_sm_state_changed td_valid mdsm_disconnected s =
    if not s.mdsm
    then some s
    else let s' = record s { md_logined = false } in
      some (if not s.auto_login_md then md_stop s' else s')
on_md_sm_state_changed td_valid mdsm_logined s =
    if not s.mdsm then some s else try_start_subscrible td_valid (record s { md_logined = true })
on_md_sm_state_changed td_valid mdsm_loginfail s =
    if not s.mdsm
    then some s
    else some (if s.auto_login_md then act (logs_in_md (60 * 1000)) s else md_stop s)
on_md_sm_state_changed td_valid mdsm_stopped s = if not s.mdsm then some s else some (md_stopped s)

unfoldable pub on_td_sm_state_changed : Bool → TdState → Sessions → Option Sessions
on_td_sm_state_changed td_valid tdsm_connected s =
    if not s.tdsm
    then some s
    else let s' = record s { td_logined = false } in
      some (if s.auto_login_td then act (logs_in_td 1000) s' else td_stop s')
on_td_sm_state_changed td_valid tdsm_disconnected s =
    if not s.tdsm
    then some s
    else let s' = record (act resets_cmds s) { td_logined = false } in
      some (if not s.auto_login_td then td_stop s' else s')
on_td_sm_state_changed td_valid tdsm_logined s =
    if not s.tdsm then some s else try_start_subscrible td_valid (record s { td_logined = true })
on_td_sm_state_changed td_valid tdsm_loginfail s =
    if not s.tdsm
    then some s
    else some (if s.auto_login_td then act (logs_in_td (60 * 1000)) s else td_stop s)
on_td_sm_state_changed td_valid tdsm_logouted s =
    if not s.tdsm then some s else some (td_stop (record s { td_logined = false }))
on_td_sm_state_changed td_valid tdsm_logoutfail s =
    if not s.tdsm then some s else some (td_stop (record s { td_logined = false }))
on_td_sm_state_changed td_valid tdsm_stopped s = if not s.tdsm then some s else some (td_stopped s)

unfoldable pub stop_md_part : Sessions → Sessions
stop_md_part s = if s.mdsm then md_stop (record s { auto_login_md = false }) else s

unfoldable pub stop_td_part : Sessions → Sessions
stop_td_part s =
    if not s.tdsm
    then s
    else let s' = record s { auto_login_td = false } in
      if s.td_logined then act (logs_out_td 0) s' else td_stop s'

unfoldable pub stop : Sessions → Sessions
stop s = if not s.mdsm && not s.tdsm then s else stop_td_part (stop_md_part s)

unfoldable pub running : Sessions → Bool
running s = s.tdsm || s.mdsm

pub data Change : Type 0 where
  md_changes : MdState → Change
  td_changes : TdState → Change

unfoldable pub changes : Bool → Change → Sessions → Option Sessions
changes td_valid (md_changes state) s = on_md_sm_state_changed td_valid state s
changes td_valid (td_changes state) s = on_td_sm_state_changed td_valid state s

-- The state changes of the list, in its order.
abbrev pub change_all : Bool → List Change → Sessions → Option Sessions
change_all td_valid [] s = some s
change_all td_valid (c ∷ cs) s = do s' ← changes td_valid c s; change_all td_valid cs s'
