-- ===== src/Prelude/Registry.antt =====
-- Maps whose entries come and go under unique keys.
use Prim.Native.Nat.{ℕ, ◌+◌}
use mathlib.Core.Path.{◌≡◌, refl}
use mathlib.Core.Bool.{true}
use mathlib.Core.Option.{none, some}
use mathlib.Core.Logic.{inl, inr}
use mathlib.Core.List.{[], ◌∷◌}
use native.Mathlib.Omega.{arith}
use bftrader.Prelude.Tests.{Bool-cases}
use bftrader.Prelude.Texts.{Text, text_eq, text_ltb, text_eq_iff}
use bftrader.Prelude.Maps.{QMap, find, add, modify, insert, remove, total, contains, AllValues}
use bftrader.Prelude.Order.{text_ltb_antisym}
use bftrader.Prelude.Sorted.{Above, IsSorted, Above-trans, find-Above}

module _ {ℓ} {V : Type ℓ} where
  add-Above :
      (i k : Text) (v : V) (m : QMap V) → text_ltb i k ≡ true → Above i m → Above i (add k v m)
  unfolding add
  add-Above i k v [] h a = (h, tt)
  add-Above i k v ((j, w) ∷ m) h a = elim (Bool-cases (text_ltb k j)) [
    | inl e ↦ rw e (h, a)
    | inr e ↦ rw e (a.0, add-Above i k v m h a.1)
  ]

  add-IsSorted :
      (k : Text) (v : V) (m : QMap V) → find k m ≡ none → IsSorted m → IsSorted (add k v m)
  unfolding add find
  add-IsSorted k v [] n s = (tt, tt)
  add-IsSorted k v ((j, w) ∷ m) n s = elim (Bool-cases (text_ltb k j)) [
    | inl e ↦ rw e ((e, Above-trans k j m e s.0), s)
    | inr e ↦ rw e (
      add-Above j k v m (ground (arith, text_ltb_antisym j k, text_eq_iff j k)) s.0,
      add-IsSorted k v m (ground arith) s.1,
    )
  ]

  modify-Above : (i k : Text) (f : V → V) (m : QMap V) → Above i m → Above i (modify k f m)
  unfolding modify
  modify-Above i k f [] a = tt
  modify-Above i k f ((j, w) ∷ m) a = elim (Bool-cases (text_eq j k)) [
    | inl e ↦ rw e a
    | inr e ↦ rw e (a.0, modify-Above i k f m a.1)
  ]

  modify-IsSorted : (k : Text) (f : V → V) (m : QMap V) → IsSorted m → IsSorted (modify k f m)
  unfolding modify
  modify-IsSorted k f [] s = tt
  modify-IsSorted k f ((j, w) ∷ m) s = elim (Bool-cases (text_eq j k)) [
    | inl e ↦ rw e s
    | inr e ↦ rw e (modify-Above j k f m s.0, modify-IsSorted k f m s.1)
  ]

  pub insert-IsSorted : (k : Text) (v : V) (m : QMap V) → IsSorted m → IsSorted (insert k v m)
  unfolding insert
  insert-IsSorted k v m s = elim (Bool-cases (contains k m)) [
    | inl e ↦ rw e (modify-IsSorted k (λ _. v) m s)
    | inr e ↦ rw e (add-IsSorted k v m (ground arith) s)
  ]

  remove-Above : (i k : Text) (m : QMap V) → Above i m → Above i (remove k m)
  unfolding remove
  remove-Above i k [] a = tt
  remove-Above i k ((j, w) ∷ m) a = elim (Bool-cases (text_eq j k)) [
    | inl e ↦ rw e (remove-Above i k m a.1)
    | inr e ↦ rw e (a.0, remove-Above i k m a.1)
  ]

  pub remove-IsSorted : (k : Text) (m : QMap V) → IsSorted m → IsSorted (remove k m)
  unfolding remove
  remove-IsSorted k [] s = tt
  remove-IsSorted k ((j, w) ∷ m) s = elim (Bool-cases (text_eq j k)) [
    | inl e ↦ rw e (remove-IsSorted k m s.1)
    | inr e ↦ rw e (remove-Above j k m s.0, remove-IsSorted k m s.1)
  ]

  total-remove-none :
      (w : V → ℕ) (k : Text) (m : QMap V) → find k m ≡ none → total w (remove k m) ≡ total w m
  unfolding total remove find
  total-remove-none w k [] n = refl
  total-remove-none w k ((j, u) ∷ m) n = ground (arith, total-remove-none w k m)

  -- An entry that is removed takes its weight along.
  pub total-remove :
      (w : V → ℕ) (k : Text) (m : QMap V) {v : V}
      → IsSorted m
      → find k m ≡ some v
      → total w (remove k m) + w v ≡ total w m
  unfolding total remove find
  total-remove w k [] s e = cc
  total-remove w k ((j, u) ∷ m) {v} s e = elim (Bool-cases (text_eq j k)) [
    | inl h ↦ ground (arith, total-remove-none w j m (find-Above j m s.0), text_eq_iff j k)
    | inr h ↦ ground (arith, total-remove w k m {v = v} s.1)
  ]

  pub AllValues-remove {κ} :
      (P : V → Type κ) (k : Text) (m : QMap V) → AllValues P m → AllValues P (remove k m)
  unfolding remove
  AllValues-remove P k [] a = tt
  AllValues-remove P k ((j, u) ∷ m) a = elim (Bool-cases (text_eq j k)) [
    | inl e ↦ rw e (AllValues-remove P k m a.1)
    | inr e ↦ rw e (a.0, AllValues-remove P k m a.1)
  ]
