-- ===== src/Ctp/RingBuffer/Latest.antt =====
-- The latest tick and the one before it, after any number of puts.
use mathlib.Core.Path.{subst}
use native.Mathlib.Nat.{mod-lt, mod-eq_of_lt, mod_self}
use bftrader.Prelude.{
  ◌∙◌, ap, true, Option-cases, Bool-cases, inl, inr, ltb, ◌⊎◌, ℕ, zero, suc, ◌+◌, ◌-◌, ◌%◌, ◌≤◌,
  ◌<◌, ◌≡◌, ◌≢◌, refl, Option, none, some, List, [], ◌∷◌, leb, if◌then◌else◌, arith, length,
}
use bftrader.Ctp.RingBuffer.{
  RingBuffer, nulls, item_at, set_item, init, next_index, put_item, get, get_latest_tick, pre_index,
  get_pre_latest_tick,
}

-- The index after h either follows h or is 0 behind the last one.
wrap_cases : (h c : ℕ) → h < c → ((h + 1) % c ≡ suc h) ⊎ (((h + 1) % c ≡ 0) × (c ≡ suc h))
wrap_cases h c w = elim (Bool-cases (ltb (suc h) c)) [
  | inl l ↦ inl (mod-eq_of_lt (ground arith) ∙ omega arith)
  | inr g ↦
      let e : c ≡ suc h = ground arith in
      inr (rw e (subst (λ x. (h + 1) % x ≡ 0) (omega arith) (mod_self (h + 1))), e)
]

length-nulls : (A : Type 0) (n : ℕ) → length (nulls {A = A} n) ≡ n
unfolding nulls
length-nulls A zero = refl
length-nulls A (suc n) = omega (arith, length-nulls A n)

item_at-nulls : (A : Type 0) (i n : ℕ) → item_at i (nulls {A = A} n) ≡ none
unfolding item_at nulls
item_at-nulls A i zero = refl
item_at-nulls A zero (suc n) = refl
item_at-nulls A (suc i) (suc n) = item_at-nulls A i n

module _ {A : Type 0} where
  item_at-set_item :
      (i : ℕ) (a : A) (xs : List (Option A)) → i < length xs → item_at i (set_item i a xs) ≡ some a
  unfolding item_at set_item
  item_at-set_item i a [] h = ground arith
  item_at-set_item zero a (x ∷ xs) h = refl
  item_at-set_item (suc i) a (x ∷ xs) h = item_at-set_item i a xs (omega arith)

  item_at_other :
      (i j : ℕ) (a : A) (xs : List (Option A)) → i ≢ j → item_at i (set_item j a xs) ≡ item_at i xs
  unfolding item_at set_item
  item_at_other i j a [] h = refl
  item_at_other zero zero a (x ∷ xs) h = ground arith
  item_at_other zero (suc j) a (x ∷ xs) h = refl
  item_at_other (suc i) zero a (x ∷ xs) h = refl
  item_at_other (suc i) (suc j) a (x ∷ xs) h = item_at_other i j a xs (ground arith)

  length-set_item : (i : ℕ) (a : A) (xs : List (Option A)) → length (set_item i a xs) ≡ length xs
  unfolding set_item
  length-set_item i a [] = refl
  length-set_item zero a (x ∷ xs) = refl
  length-set_item (suc i) a (x ∷ xs) = omega (arith, length-set_item i a xs)

  -- The puts in the order of the list, whose first item is put last.
  abbrev pub put_all : List A → RingBuffer A → RingBuffer A
  put_all [] rb = rb
  put_all (a ∷ rest) rb = put_item a (put_all rest rb)

  abbrev pub first_of : List A → Option A
  first_of [] = none
  first_of (a ∷ rest) = some a

  abbrev pub second_of : List A → Option A
  second_of [] = none
  second_of (a ∷ rest) = first_of rest

  abbrev pub HeadOk : RingBuffer A → Option ℕ → Type 0
  HeadOk rb none = (i : ℕ) → item_at i rb.items ≡ none
  HeadOk rb (some h) = h < rb.item_count

  -- The slots are allocated and the head is one of them.
  abbrev pub IsAllocated : RingBuffer A → Type 0
  IsAllocated rb = (1 ≤ rb.item_count) × (length rb.items ≡ rb.item_count) × HeadOk rb rb.head

  HeadOk-none :
      (rb : RingBuffer A) → IsAllocated rb → rb.head ≡ none → (i : ℕ) → item_at i rb.items ≡ none
  HeadOk-none rb w e = subst (HeadOk rb) e w.2

  HeadOk-some :
      (rb : RingBuffer A) → IsAllocated rb → (h : ℕ) → rb.head ≡ some h → h < rb.item_count
  HeadOk-some rb w h e = subst (HeadOk rb) e w.2

  next_index_bound : (rb : RingBuffer A) → IsAllocated rb → next_index rb < rb.item_count
  unfolding next_index
  next_index_bound rb w = elim (Option-cases rb.head) [
    | inl e ↦ rw e (omega (arith, w.0))
    | inr (h, e) ↦ rw e (mod-lt (h + 1) (omega (arith, w.0)))
  ]

  put_item-IsAllocated : (a : A) (rb : RingBuffer A) → IsAllocated rb → IsAllocated (put_item a rb)
  unfolding put_item
  put_item-IsAllocated a rb w =
      (w.0, rw (length-set_item (next_index rb) a rb.items) (w.1), next_index_bound rb w)

  pub latest-put_item :
      (a : A) (rb : RingBuffer A) → IsAllocated rb → get_latest_tick (put_item a rb) ≡ some a
  unfolding get_latest_tick put_item get
  latest-put_item a rb w =
      rw (mod-eq_of_lt (next_index_bound rb w))
        (item_at-set_item (next_index rb) a rb.items (omega (arith, next_index_bound rb w, w.1)))

  -- The index before 0 is that of the last slot, which a put at 0 leaves alone.
  get_last :
      (a : A) (n : ℕ) (xs : List (Option A))
      → 2 ≤ n
      → get
          (if leb 1 n then some (n - 1) else none)
          (record { item_count = n; head = some 0; items = set_item 0 a xs })
        ≡ item_at (n - 1) xs
  unfolding get
  get_last a n xs two =
      let one : leb 1 n ≡ true = ground arith in
      rw one (
        rw (mod-eq_of_lt {n = n - 1} {m = n} (omega arith))
          (item_at_other (n - 1) 0 a xs (omega arith)))

  -- With two slots or more, the tick before the latest is the one that was the latest.
  pub pre_latest-put_item :
      (a : A) (rb : RingBuffer A)
      → IsAllocated rb
      → 2 ≤ rb.item_count
      → get_pre_latest_tick (put_item a rb) ≡ get_latest_tick rb
  unfolding get_pre_latest_tick get_latest_tick put_item pre_index next_index get
  pre_latest-put_item a rb w two = elim (Option-cases rb.head) [
    | inl e ↦ rw e (get_last a rb.item_count rb.items two ∙ HeadOk-none rb w e (rb.item_count - 1))
    | inr (h, e) ↦
        let low = HeadOk-some rb w h e in
        elim (wrap_cases h rb.item_count low) [
          | inl n ↦ rw e (
              rw n (
                item_at_other (h % rb.item_count) (suc h) a rb.items
                  (rw (mod-eq_of_lt low) (omega arith))))
          | inr (n, c) ↦ rw e (
              rw n (
                get_last a rb.item_count rb.items two
                ∙ (rw (mod-eq_of_lt low) (ap (λ i. item_at i rb.items) (omega (arith, c))))))
        ]
  ]

  abbrev fresh : ℕ → RingBuffer A
  fresh n = record { item_count = n; head = none; items = nulls n }

  init-eq-fresh : (len n : ℕ) (rb : RingBuffer A) → init len n ≡ some rb → fresh n ≡ rb
  unfolding init
  init-eq-fresh len n rb e = ground arith

  fresh-IsAllocated : (n : ℕ) → 2 ≤ n → IsAllocated (fresh n)
  fresh-IsAllocated n two = (omega arith, length-nulls A n, λ i. item_at-nulls A i n)

  put_all-IsAllocated : (n : ℕ) (ticks : List A) → 2 ≤ n → IsAllocated (put_all ticks (fresh n))
  put_all-IsAllocated n [] two = fresh-IsAllocated n two
  put_all-IsAllocated n (t ∷ ts) two = put_item-IsAllocated t _ (put_all-IsAllocated n ts two)

  item_count-put_all : (n : ℕ) (ticks : List A) → (put_all ticks (fresh n)).item_count ≡ n
  unfolding put_item
  item_count-put_all n [] = refl
  item_count-put_all n (t ∷ ts) = item_count-put_all n ts

  latest_first :
      (n : ℕ) (ticks : List A) → 2 ≤ n → get_latest_tick (put_all ticks (fresh n)) ≡ first_of ticks
  unfolding get_latest_tick get
  latest_first n [] two = refl
  latest_first n (t ∷ ts) two = latest-put_item t _ (put_all-IsAllocated n ts two)

  pre_latest_second :
      (n : ℕ) (ticks : List A)
      → 2 ≤ n
      → get_pre_latest_tick (put_all ticks (fresh n)) ≡ second_of ticks
  unfolding get_pre_latest_tick pre_index get
  pre_latest_second n [] two =
      let enough : leb 2 n ≡ true = ground arith in rw enough (item_at-nulls A _ n)
  pre_latest_second n (t ∷ ts) two =
      pre_latest-put_item t _ (put_all-IsAllocated n ts two) (rw (item_count-put_all n ts) two)
      ∙ latest_first n ts two

  -- After any puts into a new buffer of two slots or more, the latest tick is what was put last and
  -- the one before it what was put before that, none where there was no such put.
  pub latest-put_all :
      (item_len item_count : ℕ) (rb : RingBuffer A) (ticks : List A)
      → 2 ≤ item_count
      → init item_len item_count ≡ some rb
      → (get_latest_tick (put_all ticks rb) ≡ first_of ticks)
        × (get_pre_latest_tick (put_all ticks rb) ≡ second_of ticks)
  latest-put_all len n rb ticks two e =
      subst
        (λ b.
          (get_latest_tick (put_all ticks b) ≡ first_of ticks)
          × (get_pre_latest_tick (put_all ticks b) ≡ second_of ticks))
        (init-eq-fresh len n rb e) (latest_first n ticks two, pre_latest_second n ticks two)
