-- ===== src/Ctp/Requests/Orders.antt =====
-- An order that is sent comes back in the reports of CTP as what the client sent, and a cancel names
-- the order that was reported.
use bftrader.Prelude.{
  ℕ, ◌^◌, ◌<◌, ◌≤◌, ◌≡◌, refl, ap, sym, ◌∙◌, Bool, true, false, Option, none, some, [], length,
  Text, add32, arith, Returns, Bool-cases, inl, inr, format_d,
}
use bftrader.Proto.{BfSendOrderReq, BfOrderData}
use bftrader.Ctp.Translate.{
  translate_direction, translate_offset, translate_price_type, direction_of_char, offset_of_char,
}
use bftrader.Ctp.OrderId.{translate_bf_order_id, format_bf_order_id, to_int}
use bftrader.Ctp.OrderId.RoundTrip.{translate_bf_order_id-format_bf_order_id, to_int-format_d}
use bftrader.Ctp.Reports.{OrderField, gen_bf_order_id, order_of}
use bftrader.Ctp.Requests.{
  take, copied, InputOrderField, TdSm, gen_order, investor, input_order, input_order_action,
}
use bftrader.Ctp.Requests.Codes.{
  take-whole, drop-nil, copied_whole, length-format_d, known_direction, known_offset,
  known_price_type, known, direction-Placed, offset-Placed, price_type-Placed,
  direction_without_code, offset_without_code, price_type_without_code,
}

-- A report with the fields of the request, and any other fields.
abbrev pub echo : ℕ → ℕ → InputOrderField → OrderField → OrderField
echo front_id session_id f o = record o {
  order_ref = f.order_ref;
  front_id = front_id;
  session_id = session_id;
  instrument_id = f.instrument_id;
  direction = f.direction;
  comb_offset_flag = f.comb_offset_flag;
  limit_price = f.limit_price;
  volume_total_original = f.volume_total_original;
}

-- What the client reads of an order with this identifier.
abbrev pub Matches : Text → BfSendOrderReq → BfOrderData → Type 0
Matches id req order =
    (order.bforderid ≡ id)
    × (order.symbol ≡ req.symbol)
    × (order.direction ≡ req.direction)
    × (order.offset ≡ req.offset)
    × (order.price ≡ req.price)
    × (order.totalvolume ≡ req.volume)

abbrev pub Placed :
    Bool → ℕ → ℕ → OrderField → Text → BfSendOrderReq → Option InputOrderField → Type 0
Placed true front_id session_id o id req r =
    Returns (λ f. Matches id req (order_of (echo front_id session_id f o))) r
Placed false front_id session_id o id req r = r ≡ none

module _ (sm : TdSm) (id : Text) (req : BfSendOrderReq) where
  input_order_unknown : known req ≡ false → input_order sm id req ≡ none
  unfolding input_order
  input_order_unknown k = elim (Bool-cases (known_direction req.direction)) [
    | inr d ↦ rw (direction_without_code req.direction d) refl
    | inl d ↦
        let (c, ec, _) = direction-Placed req.direction d in
        elim (Bool-cases (known_offset req.offset)) [
          | inr o ↦ rw ec (rw (offset_without_code req.offset o) refl)
          | inl o ↦
              let (c', ec', _) = offset-Placed req.offset o in
              rw (ec, ec', price_type_without_code req.pricetype (ground arith)) refl
        ]
  ]

  -- The request with these codes.
  abbrev field : ℕ → ℕ → ℕ → InputOrderField
  field d o p = record {
    account = investor sm;
    order_ref = copied 13 (format_d (translate_bf_order_id id).2);
    instrument_id = copied 31 req.symbol;
    direction = d;
    comb_offset_flag = o;
    order_price_type = p;
    limit_price = req.price;
    volume_total_original = req.volume;
    comb_hedge_flag = b'1';
    contingent_condition = b'1';
    force_close_reason = b'0';
    is_auto_suspend = 0;
    time_condition = b'3';
    volume_condition = b'1';
    min_volume = 1;
  }

  input_order_known :
      {d o p : ℕ}
      → translate_direction req.direction ≡ some d
      → translate_offset req.offset ≡ some o
      → translate_price_type req.pricetype ≡ some p
      → input_order sm id req ≡ some (field d o p)
  unfolding input_order
  input_order_known ed eo ep = rw (ed, eo, ep) refl

  known_parts :
      known req ≡ true
      → (known_direction req.direction ≡ true)
        × (known_offset req.offset ≡ true)
        × (known_price_type req.pricetype ≡ true)
  known_parts k = (ground arith, ground arith, ground arith)

module _ (sm : TdSm) (req : BfSendOrderReq) (o : OrderField) (front session n : ℕ)
    (lf : front < 2 ^ 32) (ls : session < 2 ^ 32) (ln : n < 2 ^ 32) where
  abbrev id : Text
  id = format_bf_order_id front session n

  reference : to_int (copied 13 (format_d (translate_bf_order_id id).2)) ≡ n
  reference = rw (
    translate_bf_order_id-format_bf_order_id front session n lf ls ln,
    copied_whole 12 (format_d n) (length-format_d n),
    to_int-format_d n ln,
  )

  field-Matches :
      (d c p : ℕ)
      → length req.symbol ≤ 30
      → direction_of_char d ≡ req.direction
      → offset_of_char c ≡ req.offset
      → Matches id req (order_of (echo front session (field sm id req d c p) o))
  unfolding order_of
  field-Matches d c p l ed ec = (
    ap (format_bf_order_id front session) reference,
    copied_whole 30 req.symbol l,
    ed,
    ec,
    refl,
    refl,
  )

  input_order_cases :
      (b : Bool)
      → length req.symbol ≤ 30
      → known req ≡ b
      → Placed b front session o id req (input_order sm id req)
  input_order_cases false l k = input_order_unknown sm id req k
  input_order_cases true l k =
      let (kd, ko, kp) = known_parts sm id req k in
      let (d, ed, hd) = direction-Placed req.direction kd in
      let (c, ec, hc) = offset-Placed req.offset ko in
      let (p, ep, _) = price_type-Placed req.pricetype kp in
      (field sm id req d c p, input_order_known sm id req ed ec ep, field-Matches d c p l hd hc)

-- For a session whose front and session are ints and a symbol of at most 30 characters, an order
-- whose direction, offset and kind of price CTP knows becomes a request, and any report with the
-- fields of that request carries the identifier that was generated for the order and the symbol,
-- direction, offset, price and volume the client sent; for any other order the program stops.
pub input_order-Placed :
    (sm : TdSm) (req : BfSendOrderReq) (o : OrderField)
    → sm.spi.front_id < 2 ^ 32
    → sm.spi.session_id < 2 ^ 32
    → length req.symbol ≤ 30
    → let id = (gen_order sm).0 in
      Placed (known req) sm.spi.front_id sm.spi.session_id o id req (input_order sm id req)
unfolding gen_order gen_bf_order_id
input_order-Placed sm req o lf ls l =
    input_order_cases sm req o sm.spi.front_id sm.spi.session_id (add32 sm.spi.order_ref 1) lf ls
      (omega arith) (known req) l refl

-- The request to cancel an order, built from what the client reads of the report, names the
-- reference, the front, the session, the instrument and the exchange of the reported order and
-- leaves the number of the exchange empty, when the reference is the text of an int, front and
-- session are ints, and instrument and exchange have at most 30 and 9 characters.
pub input_order_action-order_of :
    (sm : TdSm) (o : OrderField) (n : ℕ)
    → o.order_ref ≡ format_d n
    → n < 2 ^ 32
    → o.front_id < 2 ^ 32
    → o.session_id < 2 ^ 32
    → length o.instrument_id ≤ 30
    → length o.exchange_id ≤ 9
    → let order = order_of o in
      let f = input_order_action sm (record {
        symbol = order.symbol;
        exchange = order.exchange;
        bforderid = order.bforderid;
      }) in
      (f.order_ref ≡ o.order_ref)
      × (f.front_id ≡ o.front_id)
      × (f.session_id ≡ o.session_id)
      × (f.instrument_id ≡ o.instrument_id)
      × (f.exchange_id ≡ o.exchange_id)
      × (f.order_sys_id ≡ [])
unfolding order_of input_order_action
input_order_action-order_of sm o n e ln lf ls li le =
    let back : translate_bf_order_id
          (format_bf_order_id o.front_id o.session_id (to_int o.order_ref))
        ≡ (o.front_id, o.session_id, n) =
      rw (e, to_int-format_d n ln)
        (translate_bf_order_id-format_bf_order_id o.front_id o.session_id n lf ls ln) in
    (
      ap (λ (x : ℕ × ℕ × ℕ). copied 13 (format_d x.2)) back
          ∙ copied_whole 12 (format_d n) (length-format_d n)
          ∙ sym e,
      ap (λ (x : ℕ × ℕ × ℕ). x.0) back,
      ap (λ (x : ℕ × ℕ × ℕ). x.1) back,
      copied_whole 30 o.instrument_id li,
      take-whole 9 o.exchange_id le,
      ap (take 21) (drop-nil 9 o.exchange_id le),
    )
