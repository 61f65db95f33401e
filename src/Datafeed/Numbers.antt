-- ===== src/Datafeed/Numbers.antt =====
-- Numbers for the enumerations of the datafeed, and back.
use bftrader.Prelude.{ℕ, ◌≡◌, refl, ◌==◌, if◌then◌else◌}
use bftrader.Proto.{BfProduct, product_unknown, product_equity, product_futures}
use bftrader.ProtoUtils.{
  BfBarPeriod, period_unknown, period_s01, period_s03, period_s05, period_s10, period_s15,
  period_s30, period_m01, period_m03, period_m05, period_m10, period_m15, period_m30, period_h01,
  period_h02, period_h03, period_h04, period_d01, period_w01, period_x01,
}

abbrev pub period_number : BfBarPeriod → ℕ
period_number period_unknown = 0
period_number period_s01 = 1
period_number period_s03 = 2
period_number period_s05 = 3
period_number period_s10 = 4
period_number period_s15 = 5
period_number period_s30 = 6
period_number period_m01 = 7
period_number period_m03 = 8
period_number period_m05 = 9
period_number period_m10 = 10
period_number period_m15 = 11
period_number period_m30 = 12
period_number period_h01 = 13
period_number period_h02 = 14
period_number period_h03 = 15
period_number period_h04 = 16
period_number period_d01 = 17
period_number period_w01 = 18
period_number period_x01 = 19

abbrev pub period_of_number : ℕ → BfBarPeriod
period_of_number n =
    if n == 1
    then period_s01
    else if n == 2
    then period_s03
    else if n == 3
    then period_s05
    else if n == 4
    then period_s10
    else if n == 5
    then period_s15
    else if n == 6
    then period_s30
    else if n == 7
    then period_m01
    else if n == 8
    then period_m03
    else if n == 9
    then period_m05
    else if n == 10
    then period_m10
    else if n == 11
    then period_m15
    else if n == 12
    then period_m30
    else if n == 13
    then period_h01
    else if n == 14
    then period_h02
    else if n == 15
    then period_h03
    else if n == 16
    then period_h04
    else if n == 17
    then period_d01
    else if n == 18
    then period_w01
    else if n == 19
    then period_x01
    else period_unknown

pub period_of_number-period_number : (p : BfBarPeriod) → period_of_number (period_number p) ≡ p
period_of_number-period_number period_unknown = refl
period_of_number-period_number period_s01 = refl
period_of_number-period_number period_s03 = refl
period_of_number-period_number period_s05 = refl
period_of_number-period_number period_s10 = refl
period_of_number-period_number period_s15 = refl
period_of_number-period_number period_s30 = refl
period_of_number-period_number period_m01 = refl
period_of_number-period_number period_m03 = refl
period_of_number-period_number period_m05 = refl
period_of_number-period_number period_m10 = refl
period_of_number-period_number period_m15 = refl
period_of_number-period_number period_m30 = refl
period_of_number-period_number period_h01 = refl
period_of_number-period_number period_h02 = refl
period_of_number-period_number period_h03 = refl
period_of_number-period_number period_h04 = refl
period_of_number-period_number period_d01 = refl
period_of_number-period_number period_w01 = refl
period_of_number-period_number period_x01 = refl

abbrev pub product_number : BfProduct → ℕ
product_number product_unknown = 0
product_number product_equity = 1
product_number product_futures = 2

abbrev pub product_of_number : ℕ → BfProduct
product_of_number n =
    if n == 1 then product_equity else if n == 2 then product_futures else product_unknown

pub product_of_number-product_number : (p : BfProduct) → product_of_number (product_number p) ≡ p
product_of_number-product_number product_unknown = refl
product_of_number-product_number product_equity = refl
product_of_number-product_number product_futures = refl
