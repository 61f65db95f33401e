-- ===== src/Backtest/Keys.antt =====
-- The keys of positions_: the long and the short key of an instrument meet and differ together.
use mathlib.Core.List.{append_assoc, append_cancel_right, reverse, reverse-append}
use bftrader.Prelude.{
  ℕ, ◌≡◌, sym, ap, ◌∙◌, ◌≢◌, false, ◌∷◌, [], ◌++◌, Text, lit, text_eq, text_eq_iff, arith,
}
use bftrader.Backtest.State.{long_key, short_key}

-- Both keys are the same beginning with an ending of their own.
long_key_split : (s e : Text) → long_key s e ≡ (s ++ (lit "-" ++ e)) ++ lit "-long"
unfolding long_key
long_key_split s e = simp append_assoc

short_key_split : (s e : Text) → short_key s e ≡ (s ++ (lit "-" ++ e)) ++ lit "-short"
unfolding short_key
short_key_split s e = simp append_assoc

long-eq-short : (s e s' e' : Text) → long_key s e ≡ long_key s' e' → short_key s e ≡ short_key s' e'
long-eq-short s e s' e' h =
    let same =
      append_cancel_right (s ++ (lit "-" ++ e)) (s' ++ (lit "-" ++ e')) (lit "-long")
        (sym (long_key_split s e) ∙ h ∙ long_key_split s' e') in
    rw (short_key_split s e, short_key_split s' e', same)

short-eq-long : (s e s' e' : Text) → short_key s e ≡ short_key s' e' → long_key s e ≡ long_key s' e'
short-eq-long s e s' e' h =
    let same =
      append_cancel_right (s ++ (lit "-" ++ e)) (s' ++ (lit "-" ++ e')) (lit "-short")
        (sym (short_key_split s e) ∙ h ∙ short_key_split s' e') in
    rw (long_key_split s e, long_key_split s' e', same)

abbrev first_unit : Text → ℕ
first_unit [] = 0
first_unit (c ∷ cs) = c

endings_differ : (a b : Text) → (a ++ lit "-long") ≢ (b ++ lit "-short")
endings_differ a b h =
    let turned =
      sym (reverse-append a (lit "-long")) ∙ ap reverse h ∙ reverse-append b (lit "-short") in
    absurd (omega (arith, ap first_unit turned))

pub long-ne-short : (s e s' e' : Text) → long_key s e ≢ short_key s' e'
long-ne-short s e s' e' h =
    endings_differ _ _ (sym (long_key_split s e) ∙ h ∙ short_key_split s' e')

pub text_eq-long-short : (s e s' e' : Text) → text_eq (long_key s e) (short_key s' e') ≡ false
text_eq-long-short s e s' e' =
    ground (arith, text_eq_iff (long_key s e) (short_key s' e'), long-ne-short s e s' e')

pub text_eq-short-long : (s e s' e' : Text) → text_eq (short_key s e) (long_key s' e') ≡ false
text_eq-short-long s e s' e' = ground (
  arith,
  text_eq_iff (short_key s e) (long_key s' e'),
  λ (h : short_key s e ≡ long_key s' e'). long-ne-short s' e' s e (sym h),
)

pub text_eq-keys :
    (s e s' e' : Text)
    → text_eq (long_key s e) (long_key s' e') ≡ text_eq (short_key s e) (short_key s' e')
text_eq-keys s e s' e' = ground (
  arith,
  text_eq_iff (long_key s e) (long_key s' e'),
  text_eq_iff (short_key s e) (short_key s' e'),
  long-eq-short s e s' e',
  short-eq-long s e s' e',
)
