-- ===== src/Ctp/RingBuffer.antt =====
-- base/ringbuffer.h and its use in ctpgateway/gatewaymgr.cpp: the last ticks of a contract. A slot
-- holds what was copied into it last; a pointer that `get` returns reads the slot.
pub mod Latest
use bftrader.Prelude.{
  ℕ, zero, suc, ◌+◌, ◌-◌, ◌*◌, ◌%◌, Option, none, some, List, [], ◌∷◌, leb, slt32, if◌then◌else◌,
}

-- `head` is `none` for -1, before the first put.
pub record RingBuffer (A : Type 0) : Type 0 where
  pub item_count : ℕ
  pub head : Option ℕ
  pub items : List (Option A)

module _ {A : Type 0} where
  unfoldable pub nulls : ℕ → List (Option A)
  nulls zero = []
  nulls (suc n) = none ∷ nulls n

  unfoldable pub item_at : ℕ → List (Option A) → Option A
  item_at i [] = none
  item_at zero (x ∷ xs) = x
  item_at (suc i) (x ∷ xs) = item_at i xs

  unfoldable pub set_item : ℕ → A → List (Option A) → List (Option A)
  set_item i a [] = []
  set_item zero a (x ∷ xs) = some a ∷ xs
  set_item (suc i) a (x ∷ xs) = x ∷ set_item i a xs

  -- `none` is a call of qFatal: more than 4 MB.
  unfoldable pub init : ℕ → ℕ → Option (RingBuffer A)
  init item_len item_count =
      if slt32 (4 * 1024 * 1024) (item_len * item_count)
      then none
      else some (record { item_count = item_count; head = none; items = nulls item_count })

  unfoldable pub next_index : RingBuffer A → ℕ
  next_index rb = elim rb.head [ none ↦ 0 | some h ↦ (h + 1) % rb.item_count ]

  unfoldable pub put_item : A → RingBuffer A → RingBuffer A
  put_item a rb =
      let index = next_index rb in
      record rb { head = some index; items = set_item index a rb.items }

  -- The argument is `none` for a negative index.
  unfoldable pub get : Option ℕ → RingBuffer A → Option A
  get index rb = elim index [ none ↦ none | some i ↦ item_at (i % rb.item_count) rb.items ]

  unfoldable pub get_latest_tick : RingBuffer A → Option A
  get_latest_tick rb = get rb.head rb

  -- head() - 1, plus count() if that is negative.
  unfoldable pub pre_index : RingBuffer A → Option ℕ
  pre_index rb = elim rb.head [
    | none ↦ if leb 2 rb.item_count then some (rb.item_count - 2) else none
    | some h ↦ elim h [
      | zero ↦ if leb 1 rb.item_count then some (rb.item_count - 1) else none
      | suc i ↦ some i
    ]
  ]

  unfoldable pub get_pre_latest_tick : RingBuffer A → Option A
  get_pre_latest_tick rb = get (pre_index rb) rb
