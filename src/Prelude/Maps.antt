-- ===== src/Prelude/Maps.antt =====
-- QMap<QString, V>: an association list in the order of its keys, which is the order of iteration.
use Prim.Native.Nat.{ℕ, ◌+◌}
use mathlib.Core.Path.{◌≡◌, refl, subst}
use mathlib.Core.Logic.{◌⊎◌, inl, inr}
use mathlib.Core.Bool.{Bool, true, false}
use mathlib.Core.Option.{Option, none, some}
use mathlib.Core.List.{List, [], ◌∷◌, ◌++◌}
use native.Mathlib.Omega.{arith}
use bftrader.Prelude.Tests.{if◌then◌else◌, Option-cases, Bool-cases, some_injective}
use bftrader.Prelude.Lists.{All}
use bftrader.Prelude.Texts.{Text, text_eq, text_ltb, text_eq_iff}

abbrev pub QMap {ℓ} : Type ℓ → Type ℓ
QMap V = List (Text × V)

module _ {ℓ} {V : Type ℓ} where
  -- value(k); `none` is the null pointer of a key that is not there.
  unfoldable pub find : Text → QMap V → Option V
  find k [] = none
  find k ((j, v) ∷ m) = if text_eq j k then some v else find k m

  abbrev pub contains : Text → QMap V → Bool
  contains k m = elim (find k m) [ none ↦ false | some v ↦ true ]

  unfoldable pub add : Text → V → QMap V → QMap V
  add k v [] = (k, v) ∷ []
  add k v ((j, w) ∷ m) = if text_ltb k j then (k, v) ∷ (j, w) ∷ m else (j, w) ∷ add k v m

  -- A write through the pointer that value(k) returns.
  unfoldable pub modify : Text → (V → V) → QMap V → QMap V
  modify k f [] = []
  modify k f ((j, v) ∷ m) = if text_eq j k then (j, f v) ∷ m else (j, v) ∷ modify k f m

  -- insert(k, v), m[k] = v: an old value is replaced.
  unfoldable pub insert : Text → V → QMap V → QMap V
  unfolding add
  insert k v m = if contains k m then modify k (λ _. v) m else add k v m

  unfoldable pub remove : Text → QMap V → QMap V
  remove k [] = []
  remove k ((j, v) ∷ m) = if text_eq j k then remove k m else (j, v) ∷ remove k m

  -- The sum of a weight over the values.
  unfoldable pub total : (V → ℕ) → QMap V → ℕ
  total w [] = 0
  total w ((j, v) ∷ m) = w v + total w m

  pub Mapped-cases : (k : Text) (m : QMap V) → (find k m ≡ none) ⊎ ((v : V) × (find k m ≡ some v))
  Mapped-cases k m = Option-cases (find k m)

  find-add :
      (k j : Text) (v : V) (m : QMap V)
      → find k m ≡ none
      → find j (add k v m) ≡ (if text_eq k j then some v else find j m)
  unfolding find add
  find-add k j v [] h = ground arith
  find-add k j v ((i, w) ∷ m) h =
      ground (arith, find-add k j v m, text_eq_iff i k, text_eq_iff i j, text_eq_iff k j)

  pub find-modify :
      (k j : Text) (f : V → V) (m : QMap V)
      → find j (modify k f m)
        ≡ (if text_eq k j then elim (find j m) [ none ↦ none | some v ↦ some (f v) ] else find j m)
  unfolding find modify
  find-modify k j f [] = ground arith
  find-modify k j f ((i, w) ∷ m) =
      ground (arith, find-modify k j f m, text_eq_iff i k, text_eq_iff i j, text_eq_iff k j)

  pub find-insert :
      (k j : Text) (v : V) (m : QMap V)
      → find j (insert k v m) ≡ (if text_eq k j then some v else find j m)
  unfolding insert
  find-insert k j v m =
      ground (arith, find-modify k j (λ _. v) m, find-add k j v m, text_eq_iff k j)

  pub find-remove :
      (k j : Text) (m : QMap V) → find j (remove k m) ≡ (if text_eq k j then none else find j m)
  unfolding find remove
  find-remove k j [] = ground arith
  find-remove k j ((i, w) ∷ m) =
      ground (arith, find-remove k j m, text_eq_iff i k, text_eq_iff i j, text_eq_iff k j)

  total-add : (w : V → ℕ) (k : Text) (v : V) (m : QMap V) → total w (add k v m) ≡ w v + total w m
  unfolding total add
  total-add w k v [] = refl
  total-add w k v ((j, u) ∷ m) = ground (arith, total-add w k v m)

  pub total-modify :
      (w : V → ℕ) (k : Text) (f : V → V) (m : QMap V) {v : V}
      → find k m ≡ some v
      → total w (modify k f m) + w v ≡ total w m + w (f v)
  unfolding total modify find
  total-modify w k f [] h = cc
  total-modify w k f ((j, u) ∷ m) {v} h = ground (arith, total-modify w k f m {v = v})

  pub total-insert :
      (w : V → ℕ) (k : Text) (v : V) (m : QMap V)
      → find k m ≡ none
      → total w (insert k v m) ≡ w v + total w m
  unfolding insert
  total-insert w k v m h = ground (arith, total-add w k v m)

  pub total-append : (w : V → ℕ) (m n : QMap V) → total w (m ++ n) ≡ total w m + total w n
  unfolding total
  total-append w [] n = omega arith
  total-append w ((k, v) ∷ m) n = omega (arith, total-append w m n)

  -- A write through a pointer keeps the keys.
  pub contains-modify :
      (k j : Text) (f : V → V) (m : QMap V) → contains j (modify k f m) ≡ contains j m
  contains-modify k j f m = ground (arith, find-modify k j f m, text_eq_iff k j)

module _ {ℓ κ} {V : Type ℓ} (P : V → Type κ) where
  abbrev pub AllValues : QMap V → Type κ
  AllValues = All (λ e. P e.1)

  pub AllValues-modify :
      (k : Text) (f : V → V) (m : QMap V)
      → ((v : V) → P v → P (f v))
      → AllValues m
      → AllValues (modify k f m)
  unfolding modify
  AllValues-modify k f [] h all = all
  AllValues-modify k f ((j, v) ∷ m) h all = elim (Bool-cases (text_eq j k)) [
    | inl e ↦ rw e (h v all.0, all.1)
    | inr e ↦ rw e (all.0, AllValues-modify k f m h all.1)
  ]

  AllValues-add : (k : Text) (v : V) (m : QMap V) → P v → AllValues m → AllValues (add k v m)
  unfolding add
  AllValues-add k v [] h all = (h, tt)
  AllValues-add k v ((j, u) ∷ m) h all = elim (Bool-cases (text_ltb k j)) [
    | inl e ↦ rw e (h, all)
    | inr e ↦ rw e (all.0, AllValues-add k v m h all.1)
  ]

  pub AllValues-insert :
      (k : Text) (v : V) (m : QMap V) → P v → AllValues m → AllValues (insert k v m)
  unfolding insert
  AllValues-insert k v m h all = elim (Bool-cases (contains k m)) [
    | inl e ↦ rw e (AllValues-modify k (λ _. v) m (λ _ _. h) all)
    | inr e ↦ rw e (AllValues-add k v m h all)
  ]

  pub AllValues-find : (k : Text) (m : QMap V) {v : V} → AllValues m → find k m ≡ some v → P v
  unfolding find
  AllValues-find k [] all e = cc
  AllValues-find k ((j, u) ∷ m) all e = elim (Bool-cases (text_eq j k)) [
    | inl h ↦ subst P (some_injective (rw h at e)) all.0
    | inr h ↦ AllValues-find k m all.1 (rw h at e)
  ]

  pub AllValues-replace :
      (done rest : QMap V) (k : Text) (u v : V)
      → (P u → P v)
      → AllValues (done ++ (k, u) ∷ rest)
      → AllValues (done ++ (k, v) ∷ rest)
  AllValues-replace [] rest k u v h all = (h all.0, all.1)
  AllValues-replace (e ∷ done) rest k u v h all = (all.0, AllValues-replace done rest k u v h all.1)

  pub AllValues-middle :
      (done rest : QMap V) (k : Text) (u : V) → AllValues (done ++ (k, u) ∷ rest) → P u
  AllValues-middle [] rest k u all = all.0
  AllValues-middle (e ∷ done) rest k u all = AllValues-middle done rest k u all.1

pub AllValues-mono {ℓ κ μ} :
    {V : Type ℓ} (P : V → Type κ) (Q : V → Type μ) (m : QMap V)
    → ((v : V) → P v → Q v)
    → AllValues P m
    → AllValues Q m
AllValues-mono P Q [] h all = tt
AllValues-mono P Q ((k, v) ∷ m) h all = (h v all.0, AllValues-mono P Q m h all.1)

-- A change of one value in place keeps what a key finds, if it keeps that value.
pub find-replace {ℓ} :
    {V : Type ℓ} (done rest : QMap V) (k j : Text) (u v : V) {w : V}
    → (u ≡ w → v ≡ w)
    → find k (done ++ (j, u) ∷ rest) ≡ some w
    → find k (done ++ (j, v) ∷ rest) ≡ some w
unfolding find
find-replace [] rest k j u v h e = ground arith
find-replace ((i, x) ∷ done) rest k j u v h e = ground (arith, find-replace done rest k j u v h)
