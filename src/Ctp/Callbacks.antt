-- ===== src/Ctp/Callbacks.antt =====
-- ctpgateway/tdsm.cpp and ctpgateway/mdsm.cpp: the callbacks of CTP on connections, logins and errors,
-- and the state changes that they emit for the manager.
use bftrader.Prelude.{
  ℕ, ◌==◌, refl, Bool, true, not, Option, none, some, List, [], ◌∷◌, ◌++◌, if◌then◌else◌, Text,
  Returns,
}
use bftrader.Ctp.Reports.{
  RspInfo, Report, got_error, TdSmSpi, report_error, failed, on_rsp_user_login,
}
use bftrader.Ctp.Sessions.{
  Sessions, Change, md_changes, td_changes, mdsm_connected, mdsm_disconnected, mdsm_logined,
  mdsm_loginfail, tdsm_connected, tdsm_disconnected, tdsm_logined, tdsm_loginfail, tdsm_logouted,
  tdsm_logoutfail, change_all,
}
use bftrader.Ctp.Sessions.Quiet.{IsLinked, changes-IsLinked}

-- An answer: what CTP says of an error, the identifier of the request, and whether it is the last.
pub record Rsp : Type 0 where
  pub info : Option RspInfo
  pub req_id : ℕ
  pub is_last : Bool

-- The numbers of a login are the front and the session.
pub data TdCallback : Type 0 where
  td_front_connected td_front_disconnected : TdCallback
  td_rsp_user_login : ℕ → ℕ → Rsp → TdCallback
  td_rsp_user_logout td_rsp_error rsp_settlement_info_confirm rsp_order_insert rsp_order_action :
      Rsp → TdCallback
  err_rtn_order_insert err_rtn_order_action : Option RspInfo → TdCallback

-- `gbk2utf16` is the decoder of Qt.
module _ (gbk2utf16 : Text → Text) where
  -- The callbacks that only report an error look at the last answer.
  abbrev pub report_last : Rsp → TdSmSpi → TdSmSpi
  report_last rsp spi = if rsp.is_last then report_error gbk2utf16 rsp.info rsp.req_id spi else spi

  unfoldable pub on_rsp_settlement_info_confirm : Rsp → TdSmSpi → TdSmSpi
  on_rsp_settlement_info_confirm rsp spi = report_last rsp spi

  unfoldable pub td_callback : TdCallback → TdSmSpi → TdSmSpi
  td_callback td_front_connected spi = spi
  td_callback td_front_disconnected spi = spi
  td_callback (td_rsp_user_login front_id session_id rsp) spi =
      on_rsp_user_login gbk2utf16 front_id session_id rsp.info rsp.req_id rsp.is_last spi
  td_callback (td_rsp_user_logout rsp) spi = report_last rsp spi
  td_callback (td_rsp_error rsp) spi = report_last rsp spi
  td_callback (rsp_settlement_info_confirm rsp) spi = on_rsp_settlement_info_confirm rsp spi
  td_callback (rsp_order_insert rsp) spi = report_last rsp spi
  td_callback (rsp_order_action rsp) spi = report_last rsp spi
  td_callback (err_rtn_order_insert info) spi = report_error gbk2utf16 info 0 spi
  td_callback (err_rtn_order_action info) spi = report_error gbk2utf16 info 0 spi

-- The state changes that a callback emits.
unfoldable pub td_change : TdCallback → List Change
td_change td_front_connected = td_changes tdsm_connected ∷ []
td_change td_front_disconnected = td_changes tdsm_disconnected ∷ []
td_change (td_rsp_user_login front_id session_id rsp) =
    if not rsp.is_last
    then []
    else if failed rsp.info
    then td_changes tdsm_loginfail ∷ []
    else td_changes tdsm_logined ∷ []
td_change (td_rsp_user_logout rsp) =
    if not rsp.is_last
    then []
    else if failed rsp.info
    then td_changes tdsm_logoutfail ∷ []
    else td_changes tdsm_logouted ∷ []
td_change _ = []

-- The symbol is that of an answer to a subscription, if there is one.
pub data MdCallback : Type 0 where
  md_front_connected md_front_disconnected : MdCallback
  md_rsp_user_login md_rsp_user_logout md_rsp_error : Rsp → MdCallback
  rsp_sub_market_data rsp_un_sub_market_data : Option Text → Rsp → MdCallback

unfoldable pub md_change : MdCallback → List Change
md_change md_front_connected = md_changes mdsm_connected ∷ []
md_change md_front_disconnected = md_changes mdsm_disconnected ∷ []
md_change (md_rsp_user_login rsp) =
    if not rsp.is_last
    then []
    else if failed rsp.info
    then md_changes mdsm_loginfail ∷ []
    else md_changes mdsm_logined ∷ []
md_change _ = []

-- What isErrorRsp emits in the market data session, the oldest first.
unfoldable pub md_error : (Text → Text) → Option RspInfo → ℕ → List Report
md_error gbk2utf16 none req_id = []
md_error gbk2utf16 (some info) req_id =
    if info.error_id == 0
    then []
    else got_error info.error_id (gbk2utf16 info.error_msg) req_id ∷ []

unfoldable pub md_callback : (Text → Text) → MdCallback → List Report
md_callback gbk2utf16 md_front_connected = []
md_callback gbk2utf16 md_front_disconnected = []
md_callback gbk2utf16 (md_rsp_user_login rsp) =
    if rsp.is_last then md_error gbk2utf16 rsp.info rsp.req_id else []
md_callback gbk2utf16 (md_rsp_user_logout rsp) = []
md_callback gbk2utf16 (md_rsp_error rsp) =
    if rsp.is_last then md_error gbk2utf16 rsp.info rsp.req_id else []
md_callback gbk2utf16 (rsp_sub_market_data symbol rsp) = md_error gbk2utf16 rsp.info rsp.req_id
md_callback gbk2utf16 (rsp_un_sub_market_data symbol rsp) = []

-- got_symbols_, which is logged only.
unfoldable pub rsp_sub_market_data_symbols : Option Text → Option RspInfo → List Text → List Text
rsp_sub_market_data_symbols none info got_symbols = got_symbols
rsp_sub_market_data_symbols (some symbol) info got_symbols =
    if failed info then got_symbols else got_symbols ++ symbol ∷ []

-- The callbacks of both sessions in the order of their state changes.
pub data Callback : Type 0 where
  td : TdCallback → Callback
  md : MdCallback → Callback

abbrev pub changes_of : List Callback → List Change
changes_of [] = []
changes_of (td c ∷ cs) = td_change c ++ changes_of cs
changes_of (md c ∷ cs) = md_change c ++ changes_of cs

change_all-IsLinked :
    (cs : List Change) (s : Sessions) → IsLinked s → Returns IsLinked (change_all true cs s)
change_all-IsLinked [] s l = (s, refl, l)
change_all-IsLinked (c ∷ cs) s l =
    let (s1, e, l1) = changes-IsLinked c s l in
    let (s2, e', l2) = change_all-IsLinked cs s1 l1 in (s2, rw e e', l2)

-- With valid parameters and each login flag bound to its session, whatever CTP calls back on
-- connections, logins, logouts and errors of the two sessions, in any order, the manager handles
-- the state changes to the end and the flags stay bound.
pub change_all-changes_of :
    (cs : List Callback) (s : Sessions)
    → IsLinked s
    → Returns IsLinked (change_all true (changes_of cs) s)
change_all-changes_of cs s l = change_all-IsLinked (changes_of cs) s l
