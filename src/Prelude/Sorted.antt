-- ===== src/Prelude/Sorted.antt =====
-- Maps whose keys ascend strictly, as a database iterates over them.
use mathlib.Core.Path.{◌≡◌, refl}
use mathlib.Core.Bool.{true, false, ◌&&◌}
use mathlib.Core.Option.{none, some}
use mathlib.Core.Logic.{inl, inr}
use mathlib.Core.List.{List, [], ◌∷◌}
use native.Mathlib.Omega.{arith}
use bftrader.Prelude.Tests.{if_both, if◌then◌else◌, Bool-cases}
use bftrader.Prelude.Lists.{All}
use bftrader.Prelude.Texts.{Text, text_ltb, text_eq_iff, text_eq_refl}
use bftrader.Prelude.Maps.{QMap, find}
use bftrader.Prelude.Order.{
  text_leb, text_ltb_trans, text_ltb_irrefl, text_gtb-eq, text_ltb_antisym,
}

module _ {ℓ} {V : Type ℓ} where
  -- Every key is greater than the given one.
  abbrev pub Above : Text → QMap V → Type 0
  Above k m = All (λ e. text_ltb k e.0 ≡ true) m

  abbrev pub IsSorted : QMap V → Type 0
  IsSorted [] = Unit
  IsSorted ((k, v) ∷ m) = Above k m × IsSorted m

  -- No key is smaller than the given one.
  abbrev pub AtLeast : Text → QMap V → Type 0
  AtLeast k m = All (λ e. text_ltb e.0 k ≡ false) m

  -- The entries from the first key that is at or past the given one.
  unfoldable pub from_key : Text → QMap V → QMap V
  from_key k [] = []
  from_key k ((j, v) ∷ m) = if text_ltb j k then from_key k m else (j, v) ∷ m

  -- The values whose keys lie between two keys, those included.
  unfoldable pub values_within : Text → Text → QMap V → List V
  values_within lo hi [] = []
  values_within lo hi ((k, v) ∷ m) =
      if text_leb lo k && text_leb k hi then v ∷ values_within lo hi m else values_within lo hi m

  pub Above-trans : (j k : Text) (m : QMap V) → text_ltb j k ≡ true → Above k m → Above j m
  Above-trans j k [] h a = tt
  Above-trans j k ((i, v) ∷ m) h a = (text_ltb_trans j k i h a.0, Above-trans j k m h a.1)

  AtLeast-Above : (lo k : Text) (m : QMap V) → text_ltb k lo ≡ false → Above k m → AtLeast lo m
  AtLeast-Above lo k [] h a = tt
  AtLeast-Above lo k ((i, v) ∷ m) h a =
      (ground (arith, text_ltb_trans k i lo a.0), AtLeast-Above lo k m h a.1)

  pub from_key-AtLeast : (lo : Text) (m : QMap V) → IsSorted m → AtLeast lo (from_key lo m)
  unfolding from_key
  from_key-AtLeast lo [] s = tt
  from_key-AtLeast lo ((k, v) ∷ m) s = elim (Bool-cases (text_ltb k lo)) [
    | inl e ↦ rw e (from_key-AtLeast lo m s.1)
    | inr e ↦ rw e ((e, AtLeast-Above lo k m e s.0))
  ]

  pub from_key-IsSorted : (lo : Text) (m : QMap V) → IsSorted m → IsSorted (from_key lo m)
  unfolding from_key
  from_key-IsSorted lo [] s = tt
  from_key-IsSorted lo ((k, v) ∷ m) s = elim (Bool-cases (text_ltb k lo)) [
    | inl e ↦ rw e (from_key-IsSorted lo m s.1)
    | inr e ↦ rw e s
  ]

  -- Seeking to the lower bound loses no value of the range.
  pub values_within-from_key :
      (lo hi : Text) (m : QMap V) → values_within lo hi (from_key lo m) ≡ values_within lo hi m
  unfolding values_within from_key
  values_within-from_key lo hi [] = refl
  values_within-from_key lo hi ((k, v) ∷ m) = elim (Bool-cases (text_ltb k lo)) [
    | inl e ↦ rw e (values_within-from_key lo hi m)
    | inr e ↦ ground arith
  ]

  -- Past the upper bound there is nothing more.
  pub values_within-Above : (lo hi : Text) (m : QMap V) → Above hi m → values_within lo hi m ≡ []
  unfolding values_within
  values_within-Above lo hi [] a = refl
  values_within-Above lo hi ((i, v) ∷ m) a = ground (arith, a.0, values_within-Above lo hi m a.1)

  -- A key below all others is not among them.
  pub find-Above : (k : Text) (m : QMap V) → Above k m → find k m ≡ none
  unfolding find
  find-Above k [] a = refl
  find-Above k ((j, v) ∷ m) a = rw (text_gtb-eq j k a.0) (find-Above k m a.1)

  -- The values of a range that is one key.
  pub values_within_single :
      (k : Text) (m : QMap V)
      → IsSorted m
      → values_within k k m ≡ elim (find k m) [ none ↦ [] | some v ↦ v ∷ [] ]
  unfolding values_within find
  values_within_single k [] s = refl
  values_within_single k ((j, v) ∷ m) s = ground (
    arith,
    text_eq_iff j k,
    text_ltb_irrefl k,
    text_ltb_antisym j k,
    values_within-Above k k m,
    values_within_single k m s.1,
  )

  -- Past the upper bound no key of the range is found.
  pub find_past : (k hi : Text) (m : QMap V) → text_ltb hi k ≡ false → Above hi m → find k m ≡ none
  unfolding find
  find_past k hi [] h a = refl
  find_past k hi ((j, v) ∷ m) h a = ground (arith, text_eq_iff j k, a.0, find_past k hi m h a.1)

  -- Seeking to the lower bound loses no key of the range.
  pub find-from_key :
      (k lo : Text) (m : QMap V) → text_ltb k lo ≡ false → find k (from_key lo m) ≡ find k m
  unfolding find from_key
  find-from_key k lo [] h = refl
  find-from_key k lo ((j, v) ∷ m) h = ground (arith, text_eq_iff j k, find-from_key k lo m h)

  -- What holds of every key that is found holds of every entry.
  pub All-find {κ} :
      (P : Text × V → Type κ) (m : QMap V)
      → IsSorted m
      → ((k : Text) (v : V) → find k m ≡ some v → P (k, v))
      → All P m
  unfolding find
  All-find P [] s h = tt
  All-find P ((j, v) ∷ m) s h = (
    h j v (rw (text_eq_refl j) refl),
    All-find P m s.1 (λ k w e. h k w (ground (arith, find-Above j m s.0, text_eq_iff j k))),
  )

  pub All-from_key {κ} :
      (P : Text × V → Type κ) (lo : Text) (m : QMap V) → All P m → All P (from_key lo m)
  unfolding from_key
  All-from_key P lo [] h = tt
  All-from_key P lo ((j, v) ∷ m) h = if_both (All P) (text_ltb j lo) _ _ (All-from_key P lo m h.1) h

  -- A range in which no key is found is empty.
  pub values_within_empty :
      (lo hi : Text) (m : QMap V)
      → IsSorted m
      → ((k : Text) → text_leb lo k && text_leb k hi ≡ true → find k m ≡ none)
      → values_within lo hi m ≡ []
  unfolding values_within find
  values_within_empty lo hi [] s h = refl
  values_within_empty lo hi ((j, v) ∷ m) s h = ground (
    arith,
    h j,
    text_eq_refl j,
    values_within_empty lo hi m s.1 (λ k w. ground (arith, h k w, text_eq_iff j k)),
  )

  pub find_low : (k lo : Text) (m : QMap V) → text_ltb k lo ≡ true → AtLeast lo m → find k m ≡ none
  unfolding find
  find_low k lo [] h a = refl
  find_low k lo ((j, v) ∷ m) h a = ground (arith, text_eq_iff j k, a.0, find_low k lo m h a.1)
