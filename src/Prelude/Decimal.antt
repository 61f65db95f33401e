-- ===== src/Prelude/Decimal.antt =====
-- sprintf("%d", n): the decimal text of an int32_t.
use bftrader.Prelude.Tests.{ltb, if◌then◌else◌}
use bftrader.Prelude.Texts.{Text}
use Prim.Native.Nat.{ℕ, zero, suc, ◌+◌, ◌-◌, ◌/◌, ◌%◌, ◌^◌}
use mathlib.Core.List.{[], ◌∷◌, ◌++◌}

-- The digits of n; as many rounds as there are digits are enough.
unfoldable pub digits : ℕ → ℕ → Text
digits zero n = []
digits (suc f) n =
    let rest = digits f (n / 10) in if ltb n 10 then (48 + n) ∷ [] else rest ++ (48 + n % 10) ∷ []

unfoldable pub format_d : ℕ → Text
unfolding digits
format_d w = if ltb w (2 ^ 31) then digits 10 w else b'-' ∷ digits 10 (2 ^ 32 - w)
