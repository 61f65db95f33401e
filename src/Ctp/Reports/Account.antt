-- ===== src/Ctp/Reports/Account.antt =====
-- ctpgateway/tdsm.cpp: OnRspQryTradingAccount, the answer to a query for the account.
use bftrader.Prelude.{ℕ, Bool, not, ◌&&◌, Option, some, Text, if◌then◌else◌, ◌>>=◌}
use bftrader.Proto.{BfAccountData, Fpu}
use bftrader.Ctp.Reports.{RspInfo, TdSmSpi, report, report_error, failed, got_account}

-- CThostFtdcTradingAccountField, the fields that are read.
pub record TradingAccountField : Type 0 where
  pub account_id : Text
  pub pre_balance : ℕ
  pub pre_credit : ℕ
  pub pre_mortgage : ℕ
  pub mortgage : ℕ
  pub withdraw : ℕ
  pub deposit : ℕ
  pub close_profit : ℕ
  pub position_profit : ℕ
  pub cash_in : ℕ
  pub commission : ℕ
  pub available : ℕ
  pub frozen_margin : ℕ

-- Whether a double is above 0, which NaN is not.
abbrev pub above_zero : Fpu → ℕ → Bool
above_zero fpu x = fpu.le 0 x && not (fpu.le x 0)

-- The pattern of 100.0.
abbrev pub hundred : ℕ
hundred = 4636737291354636288

-- The sum from left to right, as the expression is written.
unfoldable pub balance_of : Fpu → TradingAccountField → ℕ
balance_of fpu a =
    let own = fpu.sub (fpu.sub a.pre_balance a.pre_credit) a.pre_mortgage in
    let moved = fpu.add (fpu.sub (fpu.add own a.mortgage) a.withdraw) a.deposit in
    let earned = fpu.add (fpu.add moved a.close_profit) a.position_profit in
    fpu.sub (fpu.add earned a.cash_in) a.commission

unfoldable pub account_of : Fpu → TradingAccountField → BfAccountData
unfolding balance_of
account_of fpu a =
    let balance = balance_of fpu a in
    record {
      accountid = a.account_id;
      prebalance = a.pre_balance;
      balance = balance;
      available = a.available;
      commission = a.commission;
      frozenmargin =
          if above_zero fpu a.frozen_margin && above_zero fpu balance
          then fpu.div (fpu.mul a.frozen_margin hundred) balance
          else a.frozen_margin;
      closeprofit = a.close_profit;
      positionprofit = a.position_profit;
    }

-- `none` is a read through a null pointer.
unfoldable pub on_rsp_qry_trading_account :
    (Text → Text)
    → Fpu
    → Option TradingAccountField
    → Option RspInfo
    → ℕ
    → Bool
    → TdSmSpi
    → Option TdSmSpi
unfolding account_of
on_rsp_qry_trading_account gbk2utf16 fpu account info req_id is_last spi =
    if not is_last
    then some spi
    else if failed info
    then some (report_error gbk2utf16 info req_id spi)
    else do a ← account; some (report (got_account (account_of fpu a)) spi)
