-- ===== src/ProtoUtils/Examples.antt =====
-- cta/protoutils.cpp: the texts of periods at concrete values.
use bftrader.Prelude.{some, ◌≡◌}
use bftrader.ProtoUtils.{
  period_h03, period_h04, format_period, translate_period, translate_period-format_period,
}

translate_period-format_period_example :
    translate_period (format_period period_h03) ≡ some period_h04
translate_period-format_period_example = translate_period-format_period period_h03
