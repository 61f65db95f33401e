-- ===== src/Ctp/Rpc/Identifiers.antt =====
-- Orders that clients send during one session get different identifiers.
use bftrader.Prelude.{
  ℕ, suc, ◌+◌, ◌<◌, ◌^◌, ◌≡◌, ◌≢◌, refl, sym, ap, ◌∙◌, some, List, [], ◌∷◌, ◌++◌, length, Text, All,
  add32, arith,
}
use bftrader.Proto.{BfSendOrderReq}
use bftrader.Ctp.OrderId.{format_bf_order_id, translate_bf_order_id}
use bftrader.Ctp.OrderId.RoundTrip.{translate_bf_order_id-format_bf_order_id}
use bftrader.Ctp.Reports.{gen_bf_order_id}
use bftrader.Ctp.Requests.{TdSm, TdCall, gen_order, gen_order_id}
use bftrader.Ctp.Rpc.{Gate, Slot, sends_order_with_id, rpc_send_order, send_all}

-- An identifier that was given out with a reference of the session after the n-th.
abbrev IsAfter : ℕ → ℕ → ℕ → Text → Type 0
IsAfter front session n id =
    (k : ℕ) × (n < k) × (k < 2 ^ 32) × (id ≡ format_bf_order_id front session k)

IsAfter-mono :
    (front session n m : ℕ) (ids : List Text)
    → n < m
    → All (IsAfter front session m) ids
    → All (IsAfter front session n) ids
IsAfter-mono f s n m [] h a = tt
IsAfter-mono f s n m (id ∷ ids) h ((k, l, b, e), a) =
    ((k, omega (arith, l), b, e), IsAfter-mono f s n m ids h a)

abbrev pub Distinct : List Text → Type 0
Distinct [] = Unit
Distinct (id ∷ ids) = All (λ other. other ≢ id) ids × Distinct ids

format_bf_order_id_injective :
    (front session n k : ℕ)
    → front < 2 ^ 32
    → session < 2 ^ 32
    → n < 2 ^ 32
    → k < 2 ^ 32
    → format_bf_order_id front session k ≡ format_bf_order_id front session n
    → k ≡ n
format_bf_order_id_injective f s n k lf ls ln lk same =
    ap (λ (x : ℕ × ℕ × ℕ). x.2)
      (sym (translate_bf_order_id-format_bf_order_id f s k lf ls lk)
        ∙ ap translate_bf_order_id same
        ∙ translate_bf_order_id-format_bf_order_id f s n lf ls ln)

IsAfter-apart :
    (front session n : ℕ) (ids : List Text)
    → front < 2 ^ 32
    → session < 2 ^ 32
    → n < 2 ^ 32
    → All (IsAfter front session n) ids
    → All (λ other. other ≢ format_bf_order_id front session n) ids
IsAfter-apart f s n [] lf ls ln a = tt
IsAfter-apart f s n (id ∷ ids) lf ls ln ((k, l, b, e), a) = (
  λ same. omega (arith, format_bf_order_id_injective f s n k lf ls ln b (sym e ∙ same), l),
  IsAfter-apart f s n ids lf ls ln a,
)

-- The session with this reference.
abbrev at : ℕ → TdSm → TdSm
at n sm = record sm { spi = record sm.spi { order_ref = n } }

abbrev gate : TdSm → List TdCall → List Slot → Gate
gate sm posted slots = record { desk = record { tdsm = some sm; posted = posted }; slots = slots }

rpc_send_order-lem :
    (r : BfSendOrderReq) (n : ℕ) (sm : TdSm) (posted : List TdCall) (slots : List Slot)
    → suc n < 2 ^ 32
    → let id = format_bf_order_id sm.spi.front_id sm.spi.session_id (suc n) in
      rpc_send_order r (gate (at n sm) posted slots)
      ≡ (id, gate (at (suc n) sm) posted (slots ++ sends_order_with_id id r ∷ []))
unfolding rpc_send_order gen_order_id gen_order gen_bf_order_id
rpc_send_order-lem r n sm posted slots low =
    let next : add32 n 1 ≡ suc n = omega (arith, low) in rw next refl

send_all-IsAfter :
    (rs : List BfSendOrderReq) (n : ℕ) (sm : TdSm) (posted : List TdCall) (slots : List Slot)
    → sm.spi.front_id < 2 ^ 32
    → sm.spi.session_id < 2 ^ 32
    → n + length rs < 2 ^ 32
    → let ids = (send_all rs (gate (at n sm) posted slots)).0 in
      All (IsAfter sm.spi.front_id sm.spi.session_id n) ids × Distinct ids
send_all-IsAfter [] n sm posted slots lf ls low = (tt, tt)
send_all-IsAfter (r ∷ rs) n sm posted slots lf ls low =
    let f = sm.spi.front_id in
    let s = sm.spi.session_id in
    let id = format_bf_order_id f s (suc n) in
    let slots' = slots ++ sends_order_with_id id r ∷ [] in
    let (a, d) = send_all-IsAfter rs (suc n) sm posted slots' lf ls (omega (arith, low)) in
    let ids = (send_all rs (gate (at (suc n) sm) posted slots')).0 in
    rw (rpc_send_order-lem r n sm posted slots (omega (arith, low))) (
      (
        (suc n, omega arith, omega (arith, low), refl),
        IsAfter-mono f s n (suc n) ids (omega arith) a,
      ),
      (IsAfter-apart f s (suc n) ids lf ls (omega (arith, low)) a, d),
    )

-- While the references of a session do not run out, no two orders get one identifier.
pub send_all-Distinct :
    (rs : List BfSendOrderReq) (sm : TdSm) (posted : List TdCall) (slots : List Slot)
    → sm.spi.front_id < 2 ^ 32
    → sm.spi.session_id < 2 ^ 32
    → sm.spi.order_ref + length rs < 2 ^ 32
    → Distinct (send_all rs (gate sm posted slots)).0
send_all-Distinct rs sm posted slots lf ls low =
    (send_all-IsAfter rs sm.spi.order_ref sm posted slots lf ls low).1
