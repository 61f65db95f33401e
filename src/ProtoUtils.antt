-- ===== src/ProtoUtils.antt =====
-- cta/protoutils.cpp, which datafeed/protoutils.cpp repeats: the texts of enumerations, and the
-- bar periods of sdk/bfdatafeed.proto.
mod Examples
use bftrader.Prelude.{Option, none, some, Text, lit, text_eq, if◌then◌else◌, ◌≡◌, refl}
use bftrader.Proto.{
  BfDirection, direction_unknown, direction_long, direction_short, direction_net, BfOffset,
  offset_unknown, offset_open, offset_close, offset_closetoday, offset_closeyesterday, BfStatus,
  status_unknown, status_nottraded, status_parttraded, status_alltraded, status_cancelled,
  BfProduct, product_unknown, product_equity, product_futures,
}

pub data BfBarPeriod : Type 0 where
  period_unknown period_s01 period_s03 period_s05 period_s10 period_s15 period_s30 : BfBarPeriod
  period_m01 period_m03 period_m05 period_m10 period_m15 period_m30 : BfBarPeriod
  period_h01 period_h02 period_h03 period_h04 period_d01 period_w01 period_x01 : BfBarPeriod

-- `none` is a call of qFatal: formatDirection has no case for the net direction.
unfoldable pub format_direction : BfDirection → Option Text
format_direction direction_long = some (lit "long")
format_direction direction_short = some (lit "short")
format_direction direction_unknown = some (lit "unknown")
format_direction direction_net = none

unfoldable pub format_offset : BfOffset → Option Text
format_offset offset_close = some (lit "close")
format_offset offset_closetoday = some (lit "closetoday")
format_offset offset_closeyesterday = some (lit "closeyesterday")
format_offset offset_open = some (lit "open")
format_offset offset_unknown = some (lit "unknown")

unfoldable pub format_status : BfStatus → Option Text
format_status status_alltraded = some (lit "alltraded")
format_status status_cancelled = some (lit "cancelled")
format_status status_nottraded = some (lit "nottraced")
format_status status_parttraded = some (lit "parttraded")
format_status status_unknown = some (lit "unknown")

unfoldable pub format_product : BfProduct → Option Text
format_product product_equity = some (lit "equity")
format_product product_futures = some (lit "future")
format_product product_unknown = some (lit "unknown")

-- Every declared period has a text.
unfoldable pub format_period : BfBarPeriod → Text
format_period period_s01 = lit "s01"
format_period period_s03 = lit "s03"
format_period period_s05 = lit "s05"
format_period period_s10 = lit "s10"
format_period period_s15 = lit "s15"
format_period period_s30 = lit "s30"
format_period period_m01 = lit "m01"
format_period period_m03 = lit "m03"
format_period period_m05 = lit "m05"
format_period period_m10 = lit "m10"
format_period period_m15 = lit "m15"
format_period period_m30 = lit "m30"
format_period period_h01 = lit "h01"
format_period period_h02 = lit "h02"
format_period period_h03 = lit "h04"
format_period period_h04 = lit "h04"
format_period period_d01 = lit "d01"
format_period period_w01 = lit "w01"
format_period period_x01 = lit "x01"
format_period period_unknown = lit "unknown"

unfoldable pub translate_period : Text → Option BfBarPeriod
translate_period period =
    if text_eq period (lit "s01")
    then some period_s01
    else if text_eq period (lit "s03")
    then some period_s03
    else if text_eq period (lit "s05")
    then some period_s05
    else if text_eq period (lit "s10")
    then some period_s10
    else if text_eq period (lit "s15")
    then some period_s15
    else if text_eq period (lit "s30")
    then some period_s30
    else if text_eq period (lit "m01")
    then some period_m01
    else if text_eq period (lit "m03")
    then some period_m03
    else if text_eq period (lit "m05")
    then some period_m05
    else if text_eq period (lit "m10")
    then some period_m10
    else if text_eq period (lit "m15")
    then some period_m15
    else if text_eq period (lit "m30")
    then some period_m30
    else if text_eq period (lit "h01")
    then some period_h01
    else if text_eq period (lit "h02")
    then some period_h02
    else if text_eq period (lit "h03")
    then some period_h03
    else if text_eq period (lit "h04")
    then some period_h04
    else if text_eq period (lit "d01")
    then some period_d01
    else if text_eq period (lit "w01")
    then some period_w01
    else if text_eq period (lit "x01")
    then some period_x01
    else none

-- The period that comes back from a text that was formatted.
abbrev pub read_back : BfBarPeriod → Option BfBarPeriod
read_back period_unknown = none
read_back period_h03 = some period_h04
read_back p = some p

-- Reading the text of a period gives the period back, with two exceptions: three hours come back as
-- four hours, and the text of the unknown period stops the program.
pub translate_period-format_period :
    (p : BfBarPeriod) → translate_period (format_period p) ≡ read_back p
unfolding translate_period format_period text_eq
translate_period-format_period period_unknown = refl
translate_period-format_period period_s01 = refl
translate_period-format_period period_s03 = refl
translate_period-format_period period_s05 = refl
translate_period-format_period period_s10 = refl
translate_period-format_period period_s15 = refl
translate_period-format_period period_s30 = refl
translate_period-format_period period_m01 = refl
translate_period-format_period period_m03 = refl
translate_period-format_period period_m05 = refl
translate_period-format_period period_m10 = refl
translate_period-format_period period_m15 = refl
translate_period-format_period period_m30 = refl
translate_period-format_period period_h01 = refl
translate_period-format_period period_h02 = refl
translate_period-format_period period_h03 = refl
translate_period-format_period period_h04 = refl
translate_period-format_period period_d01 = refl
translate_period-format_period period_w01 = refl
translate_period-format_period period_x01 = refl
