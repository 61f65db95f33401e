-- ===== src/Ctp/Contracts/Reported.antt =====
-- The instruments that the answers report, and the ring buffers that are made for a list of them.
use bftrader.Prelude.{
  ℕ, ◌*◌, ◌≡◌, refl, Bool, true, false, not, ◌&&◌, ◌||◌, none, some, List, [], ◌∷◌, ◌++◌,
  if◌then◌else◌, Text, text_eq, QMap, insert, contains, find-insert, arith, Returns, slt32,
}
use bftrader.Ctp.RingBuffer.{RingBuffer, init, nulls}
use bftrader.Ctp.Translate.{DepthMarketDataField}
use bftrader.Ctp.Contracts.{ring_buffer_len, add_ring_buffers, InstrumentRsp}

abbrev pub elem : Text → List Text → Bool
elem k [] = false
elem k (x ∷ xs) = text_eq x k || elem k xs

-- The instruments of the answers that report one.
abbrev pub ids_of : InstrumentRsp → List Text
ids_of rsp =
    if rsp.is_error then [] else elim rsp.instrument [ none ↦ [] | some c ↦ c.instrument_id ∷ [] ]

abbrev pub ids : List InstrumentRsp → List Text
ids [] = []
ids (rsp ∷ rest) = ids_of rsp ++ ids rest

-- No instrument is reported twice, nor one that is among the first list.
abbrev pub all_new : List Text → List Text → Bool
all_new before [] = true
all_new before (x ∷ xs) = not (elem x before) && all_new (before ++ x ∷ []) xs

abbrev pub select {ℓ} : {A : Type ℓ} → (A → Bool) → List A → List A
select test [] = []
select test (x ∷ xs) = if test x then x ∷ select test xs else select test xs

pub elem-append : (k : Text) (xs ys : List Text) → elem k (xs ++ ys) ≡ (elem k xs || elem k ys)
elem-append k [] ys = refl
elem-append k (x ∷ xs) ys = ground (arith, elem-append k xs ys)

pub select-append {ℓ} :
    {A : Type ℓ} (test : A → Bool) (xs ys : List A)
    → select test (xs ++ ys) ≡ select test xs ++ select test ys
select-append test [] ys = refl
select-append test (x ∷ xs) ys = ground (arith, select-append test xs ys)

pub contains-insert {ℓ} :
    {V : Type ℓ} (k j : Text) (v : V) (m : QMap V)
    → contains j (insert k v m) ≡ (text_eq k j || contains j m)
contains-insert k j v m = ground (arith, find-insert k j v m)

-- initRingBuffer allocates a ring buffer for each symbol.
pub add_ring_buffers-contains :
    (item_len : ℕ) (xs : List Text) (rbs : QMap (RingBuffer DepthMarketDataField))
    → slt32 (4 * 1024 * 1024) (item_len * ring_buffer_len) ≡ false
    → Returns
        (λ rbs'. (k : Text) → contains k rbs' ≡ (elem k xs || contains k rbs))
        (add_ring_buffers item_len xs rbs)
unfolding add_ring_buffers init
add_ring_buffers-contains item_len [] rbs h = (rbs, refl, λ k. refl)
add_ring_buffers-contains item_len (x ∷ xs) rbs h =
    let rb : RingBuffer DepthMarketDataField = record {
      item_count = ring_buffer_len;
      head = none;
      items = nulls ring_buffer_len;
    } in
    let (rbs', e, same) = add_ring_buffers-contains item_len xs (insert x rb rbs) h in
    (rbs', rw h e, λ k. ground (arith, same k, contains-insert x k rb rbs))
