-- ===== src/Datafeed/Messages.antt =====
-- The messages of sdk/bfdatafeed.proto and the contract of sdk/bfgateway.proto.
use bftrader.Prelude.{ℕ, Text}
use bftrader.Proto.{BfProduct}
use bftrader.ProtoUtils.{BfBarPeriod}

pub record BfBarData : Type 0 where
  pub symbol : Text
  pub exchange : Text
  pub period : BfBarPeriod
  pub actiondate : Text
  pub bartime : Text
  pub volume : ℕ
  pub openinterest : ℕ
  pub lastvolume : ℕ
  pub openprice : ℕ
  pub highprice : ℕ
  pub lowprice : ℕ
  pub closeprice : ℕ

pub record BfContractData : Type 0 where
  pub symbol : Text
  pub exchange : Text
  pub name : Text
  pub productclass : BfProduct
  pub volumemultiple : ℕ
  pub pricetick : ℕ
  pub maxlimit : ℕ
  pub minlimit : ℕ
  pub maxmarket : ℕ
  pub minmarket : ℕ

pub record BfGetBarReq : Type 0 where
  pub symbol : Text
  pub exchange : Text
  pub period : BfBarPeriod
  pub todate : Text
  pub totime : Text
  pub count : ℕ
  pub fromdate : Text
  pub fromtime : Text

pub record BfGetContractReq : Type 0 where
  pub symbol : Text
  pub exchange : Text

pub record BfDeleteTickReq : Type 0 where
  pub symbol : Text
  pub exchange : Text
  pub todate : Text
  pub totime : Text
  pub fromdate : Text
  pub fromtime : Text

pub record BfDeleteBarReq : Type 0 where
  pub symbol : Text
  pub exchange : Text
  pub period : BfBarPeriod
  pub todate : Text
  pub totime : Text
  pub fromdate : Text
  pub fromtime : Text

pub record BfDeleteContractReq : Type 0 where
  pub symbol : Text
  pub exchange : Text
