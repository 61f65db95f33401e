-- ===== src/Ctp/OrderId.antt =====
-- ctpgateway/ctputils.cpp: the identifier of an order, its front, session and reference.
pub mod RoundTrip
use bftrader.Prelude.{
  ℕ, ◌+◌, ◌-◌, ◌*◌, ◌%◌, ◌^◌, ◌&&◌, ◌||◌, Bool, Option, none, some, List, [], ◌∷◌, ◌++◌, Text, lit,
  ltb, leb, ◌==◌, if◌then◌else◌, format_d,
}

-- QString::split with the separator ".".
unfoldable pub extended : ℕ → List Text → List Text
extended c [] = []
extended c (s ∷ ss) = (c ∷ s) ∷ ss

unfoldable pub split : Text → List Text
split [] = [] ∷ []
split (c ∷ s) = let rest = split s in if c == b'.' then [] ∷ rest else extended c rest

-- The value of decimal digits behind those already read.
unfoldable pub read_digits : ℕ → Text → Option ℕ
read_digits n [] = some n
read_digits n (c ∷ s) =
    if leb b'0' c && leb c b'9' then read_digits (n * 10 + (c - b'0')) s else none

-- A number that does not fit into an int reads as 0, like a text that is no number.
abbrev pub as_int : Option ℕ → ℕ
as_int none = 0
as_int (some n) = if ltb n (2 ^ 31) then n else 0

abbrev pub as_negative : Option ℕ → ℕ
as_negative none = 0
as_negative (some n) = if leb n (2 ^ 31) then (2 ^ 32 - n) % 2 ^ 32 else 0

-- White space among the ASCII characters.
abbrev pub is_space : ℕ → Bool
is_space c = c == b' ' || (leb 9 c && leb c 13)

unfoldable pub without_leading : Text → Text
without_leading [] = []
without_leading (c ∷ s) = let rest = without_leading s in if is_space c then rest else c ∷ s

abbrev pub put_before : ℕ → Text → Text
put_before c [] = if is_space c then [] else c ∷ []
put_before c (d ∷ s) = c ∷ d ∷ s

unfoldable pub without_trailing : Text → Text
without_trailing [] = []
without_trailing (c ∷ s) = put_before c (without_trailing s)

-- The int of a text without white space at its ends.
unfoldable pub signed_int : Text → ℕ
signed_int [] = 0
signed_int (c ∷ s) =
    if c == b'-'
    then as_negative (read_digits 0 s)
    else if c == b'+'
    then as_int (read_digits 0 s)
    else as_int (read_digits 0 (c ∷ s))

-- QString::toInt, which skips white space at both ends.
unfoldable pub to_int : Text → ℕ
to_int s = signed_int (without_trailing (without_leading s))

unfoldable pub format_bf_order_id : ℕ → ℕ → ℕ → Text
format_bf_order_id front session order_ref =
    format_d front ++ (lit "." ++ (format_d session ++ (lit "." ++ format_d order_ref)))

abbrev pub numbers : List Text → ℕ × ℕ × ℕ
numbers (a ∷ b ∷ c ∷ []) = (to_int a, to_int b, to_int c)
numbers _ = (0, 0, 0)

unfoldable pub translate_bf_order_id : Text → ℕ × ℕ × ℕ
translate_bf_order_id id = numbers (split id)
