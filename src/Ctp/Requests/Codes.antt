-- ===== src/Ctp/Requests/Codes.antt =====
-- Texts that fit their arrays are copied whole, and what CTP has a code for is read back from it.
use bftrader.Prelude.{
  ℕ, zero, suc, ◌+◌, ◌-◌, ◌/◌, ◌%◌, ◌^◌, ◌≤◌, ◌≡◌, refl, ap, Bool, true, false, ◌&&◌, none, [], ◌∷◌,
  length, length-append, Text, arith, Returns, digits, format_d,
}
use bftrader.Proto.{
  BfDirection, direction_unknown, direction_long, direction_short, direction_net, BfOffset,
  offset_unknown, offset_open, offset_close, offset_closetoday, offset_closeyesterday, BfPriceType,
  pricetype_unkonwn, pricetype_limitprice, pricetype_marketprice, BfSendOrderReq,
}
use bftrader.Ctp.Translate.{
  translate_direction, translate_offset, translate_price_type, direction_of_char, offset_of_char,
}
use bftrader.Ctp.Requests.{take, drop, copied}

pub take-whole : (n : ℕ) (s : Text) → length s ≤ n → take n s ≡ s
unfolding take
take-whole zero [] h = refl
take-whole zero (c ∷ s) h = ground arith
take-whole (suc n) [] h = refl
take-whole (suc n) (c ∷ s) h = ap (◌∷◌ c) (take-whole n s (omega (arith, h)))

pub drop-nil : (n : ℕ) (s : Text) → length s ≤ n → drop n s ≡ []
unfolding drop
drop-nil zero [] h = refl
drop-nil zero (c ∷ s) h = ground arith
drop-nil (suc n) [] h = refl
drop-nil (suc n) (c ∷ s) h = drop-nil n s (omega (arith, h))

pub copied_whole : (n : ℕ) (s : Text) → length s ≤ n → copied (suc n) s ≡ s
unfolding copied
copied_whole n s h = take-whole n s h

length-digits : (f n : ℕ) → length (digits f n) ≤ f
unfolding digits
length-digits zero n = omega arith
length-digits (suc f) n =
    ground (arith, length-digits f (n / 10), length-append (digits f (n / 10)) ((48 + n % 10) ∷ []))

pub length-format_d : (w : ℕ) → length (format_d w) ≤ 12
unfolding format_d
length-format_d w = ground (arith, length-digits 10 w, length-digits 10 (2 ^ 32 - w))

-- Whether CTP has codes for what the request asks.
abbrev pub known_direction : BfDirection → Bool
known_direction direction_long = true
known_direction direction_short = true
known_direction _ = false

abbrev pub known_offset : BfOffset → Bool
known_offset offset_unknown = false
known_offset _ = true

abbrev pub known_price_type : BfPriceType → Bool
known_price_type pricetype_unkonwn = false
known_price_type _ = true

abbrev pub known : BfSendOrderReq → Bool
known req =
    known_direction req.direction && (known_offset req.offset && known_price_type req.pricetype)

pub direction-Placed :
    (d : BfDirection)
    → known_direction d ≡ true
    → Returns (λ c. direction_of_char c ≡ d) (translate_direction d)
unfolding translate_direction direction_of_char
direction-Placed direction_unknown k = cc
direction-Placed direction_long k = (_, refl, refl)
direction-Placed direction_short k = (_, refl, refl)
direction-Placed direction_net k = cc

pub offset-Placed :
    (o : BfOffset)
    → known_offset o ≡ true
    → Returns (λ c. offset_of_char c ≡ o) (translate_offset o)
unfolding translate_offset offset_of_char
offset-Placed offset_unknown k = cc
offset-Placed offset_open k = (_, refl, refl)
offset-Placed offset_close k = (_, refl, refl)
offset-Placed offset_closetoday k = (_, refl, refl)
offset-Placed offset_closeyesterday k = (_, refl, refl)

pub price_type-Placed :
    (p : BfPriceType) → known_price_type p ≡ true → Returns (λ c. Unit {0}) (translate_price_type p)
unfolding translate_price_type
price_type-Placed pricetype_unkonwn k = cc
price_type-Placed pricetype_limitprice k = (_, refl, tt)
price_type-Placed pricetype_marketprice k = (_, refl, tt)

pub direction_without_code :
    (d : BfDirection) → known_direction d ≡ false → translate_direction d ≡ none
unfolding translate_direction
direction_without_code direction_unknown k = refl
direction_without_code direction_long k = cc
direction_without_code direction_short k = cc
direction_without_code direction_net k = refl

pub offset_without_code : (o : BfOffset) → known_offset o ≡ false → translate_offset o ≡ none
unfolding translate_offset
offset_without_code offset_unknown k = refl
offset_without_code offset_open k = cc
offset_without_code offset_close k = cc
offset_without_code offset_closetoday k = cc
offset_without_code offset_closeyesterday k = cc

pub price_type_without_code :
    (p : BfPriceType) → known_price_type p ≡ false → translate_price_type p ≡ none
unfolding translate_price_type
price_type_without_code pricetype_unkonwn k = refl
price_type_without_code pricetype_limitprice k = cc
price_type_without_code pricetype_marketprice k = cc
