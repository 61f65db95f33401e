-- ===== src/Prelude/Order.antt =====
-- The order of texts: lexicographic, total, and compatible with common prefixes.
use mathlib.Core.Path.{◌≡◌, refl}
use mathlib.Core.Bool.{Bool, true, false, not, ◌&&◌}
use mathlib.Core.List.{[], ◌∷◌, ◌++◌}
use native.Mathlib.Omega.{arith}
use bftrader.Prelude.Tests.{◌==◌}
use bftrader.Prelude.Texts.{Text, text_ltb, text_eq, text_eq_iff}

-- a <= b on std::string.
abbrev pub text_leb : Text → Text → Bool
text_leb a b = not (text_ltb b a)

-- The text begins with the given prefix.
abbrev pub starts : Text → Text → Bool
starts [] k = true
starts (x ∷ p) [] = false
starts (x ∷ p) (y ∷ k) = x == y && starts p k

pub starts-append : (p a : Text) → starts p (p ++ a) ≡ true
starts-append [] a = refl
starts-append (x ∷ p) a = ground (arith, starts-append p a)

pub text_ltb_irrefl : (a : Text) → text_ltb a a ≡ false
unfolding text_ltb
text_ltb_irrefl [] = refl
text_ltb_irrefl (x ∷ a) = ground (arith, text_ltb_irrefl a)

pub text_ltb_trans :
    (a b c : Text) → text_ltb a b ≡ true → text_ltb b c ≡ true → text_ltb a c ≡ true
unfolding text_ltb
text_ltb_trans [] [] c h h' = cc
text_ltb_trans [] (y ∷ b) [] h h' = cc
text_ltb_trans [] (y ∷ b) (z ∷ c) h h' = refl
text_ltb_trans (x ∷ a) [] c h h' = cc
text_ltb_trans (x ∷ a) (y ∷ b) [] h h' = cc
text_ltb_trans (x ∷ a) (y ∷ b) (z ∷ c) h h' = ground (arith, text_ltb_trans a b c)

pub text_ltb_antisym : (a b : Text) → text_ltb a b ≡ false → text_ltb b a ≡ false → a ≡ b
unfolding text_ltb
text_ltb_antisym [] [] h h' = refl
text_ltb_antisym [] (y ∷ b) h h' = cc
text_ltb_antisym (x ∷ a) [] h h' = cc
text_ltb_antisym (x ∷ a) (y ∷ b) h h' = ground (arith, text_ltb_antisym a b)

pub text_ltb_asym : (a b : Text) → text_ltb a b ≡ true → text_ltb b a ≡ false
text_ltb_asym a b h = ground (arith, text_ltb_trans a b a, text_ltb_irrefl a)

-- What is not smaller than something greater is greater.
pub text_ltb-leb : (a b c : Text) → text_ltb a b ≡ true → text_ltb c b ≡ false → text_ltb a c ≡ true
text_ltb-leb a b c h h' = ground (arith, text_ltb_trans a b c, text_ltb_antisym b c)

pub text_leb-ltb : (a b c : Text) → text_ltb b a ≡ false → text_ltb b c ≡ true → text_ltb a c ≡ true
text_leb-ltb a b c h h' = ground (arith, text_ltb_trans a b c, text_ltb_antisym a b)

pub text_ltb-eq : (a b : Text) → text_ltb a b ≡ true → text_eq a b ≡ false
text_ltb-eq a b h = ground (arith, text_eq_iff a b, text_ltb_irrefl a)

pub text_gtb-eq : (a b : Text) → text_ltb b a ≡ true → text_eq a b ≡ false
text_gtb-eq a b h = ground (arith, text_eq_iff a b, text_ltb_irrefl a)

-- Two texts with a common prefix compare as what follows it.
pub text_ltb-append : (p a b : Text) → text_ltb (p ++ a) (p ++ b) ≡ text_ltb a b
unfolding text_ltb
text_ltb-append [] a b = refl
text_ltb-append (x ∷ p) a b = ground (arith, text_ltb-append p a b)

-- What lies between two texts with a common prefix has that prefix.
pub starts_between :
    (p a b k : Text) → text_ltb k (p ++ a) ≡ false → text_ltb (p ++ b) k ≡ false → starts p k ≡ true
unfolding text_ltb
starts_between [] a b k h h' = refl
starts_between (x ∷ p) a b [] h h' = cc
starts_between (x ∷ p) a b (y ∷ k) h h' = ground (arith, starts_between p a b k)
