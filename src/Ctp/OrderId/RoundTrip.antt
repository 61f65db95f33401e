-- ===== src/Ctp/OrderId/RoundTrip.antt =====
-- The three numbers of an identifier are read back from its text.
use bftrader.Prelude.{
  ℕ, zero, suc, ◌+◌, ◌-◌, ◌*◌, ◌/◌, ◌%◌, ◌^◌, ◌<◌, ◌≤◌, ◌≡◌, refl, ◌∙◌, ap, false, some, List, [],
  ◌∷◌, ◌++◌, Text, All, ltb, ◌==◌, Bool-cases, inl, inr, digits, format_d, arith,
}
use bftrader.Ctp.OrderId.{
  split, extended, read_digits, as_int, to_int, signed_int, is_space, without_leading,
  without_trailing, format_bf_order_id, translate_bf_order_id,
}

abbrev IsDigit : ℕ → Type 0
IsDigit c = (b'0' ≤ c) × (c ≤ b'9')

-- Ten times itself for each round.
abbrev reach : ℕ → ℕ
reach zero = 1
reach (suc f) = 10 * reach f

All-append : {A : Type 0} (P : A → Type 0) (xs ys : List A) → All P xs → All P ys → All P (xs ++ ys)
All-append P [] ys h h' = h'
All-append P (x ∷ xs) ys h h' = (h.0, All-append P xs ys h.1 h')

digits-IsDigit : (f n : ℕ) → All IsDigit (digits f n)
unfolding digits
digits-IsDigit zero n = tt
digits-IsDigit (suc f) n = elim (Bool-cases (ltb n 10)) [
  | inl e ↦ rw e (ground arith, tt)
  | inr e ↦
      rw e (All-append IsDigit (digits f (n / 10)) _ (digits-IsDigit f (n / 10)) (omega arith, tt))
]

read_digits-append :
    (a v d : ℕ) (s : Text)
    → d < 10
    → read_digits a s ≡ some v
    → read_digits a (s ++ (48 + d) ∷ []) ≡ some (v * 10 + d)
unfolding read_digits
read_digits-append a v d [] low e = ground arith
read_digits-append a v d (c ∷ s) low e =
    ground (arith, read_digits-append (a * 10 + (c - 48)) v d s low)

read_digits-digits : (f n : ℕ) → n < reach (suc f) → read_digits 0 (digits (suc f) n) ≡ some n
unfolding digits read_digits
read_digits-digits zero n low = ground arith
read_digits-digits (suc f) n low = elim (Bool-cases (ltb n 10)) [
  | inl e ↦ rw e (ground arith)
  | inr e ↦ rw e (
      read_digits-append 0 (n / 10) (n % 10) (digits (suc f) (n / 10)) (omega arith)
        (read_digits-digits f (n / 10) (omega (arith, low)))
      ∙ ap some (omega arith))
]

abbrev IsNoDot : ℕ → Type 0
IsNoDot c = (c == b'.') ≡ false

All-IsNoDot : (s : Text) → All IsDigit s → All IsNoDot s
All-IsNoDot [] h = tt
All-IsNoDot (c ∷ s) h = (ground (arith, h.0.0), All-IsNoDot s h.1)

format_d-IsNoDot : (w : ℕ) → All IsNoDot (format_d w)
unfolding format_d
format_d-IsNoDot w = elim (Bool-cases (ltb w (2 ^ 31))) [
  | inl e ↦ rw e (All-IsNoDot (digits 10 w) (digits-IsDigit 10 w))
  | inr e ↦ rw e (refl, All-IsNoDot (digits 10 (2 ^ 32 - w)) (digits-IsDigit 10 (2 ^ 32 - w)))
]

split-dot : (s rest : Text) → All IsNoDot s → split (s ++ b'.' ∷ rest) ≡ s ∷ split rest
unfolding split extended
split-dot [] rest h = refl
split-dot (c ∷ s) rest h = rw (h.0) (rw (split-dot s rest h.1) refl)

split_single : (s : Text) → All IsNoDot s → split s ≡ s ∷ []
unfolding split extended
split_single [] h = refl
split_single (c ∷ s) h = rw (h.0) (rw (split_single s h.1) refl)

signed_int-digits : (s : Text) → All IsDigit s → signed_int s ≡ as_int (read_digits 0 s)
unfolding signed_int read_digits
signed_int-digits [] h = refl
signed_int-digits (c ∷ s) h =
    let no_minus : (c == b'-') ≡ false = ground (arith, h.0.0) in
    let no_plus : (c == b'+') ≡ false = ground (arith, h.0.0) in rw no_minus (rw no_plus refl)

signed_int-format_d : (w : ℕ) → w < 2 ^ 32 → signed_int (format_d w) ≡ w
unfolding format_d signed_int
signed_int-format_d w low = elim (Bool-cases (ltb w (2 ^ 31))) [
  | inl e ↦ rw e (
      signed_int-digits (digits 10 w) (digits-IsDigit 10 w)
      ∙ (rw (read_digits-digits 9 w (omega arith)) (rw e refl)))
  | inr e ↦ rw e (rw (read_digits-digits 9 (2 ^ 32 - w) (omega arith)) (ground arith))
]

abbrev IsInk : ℕ → Type 0
IsInk c = is_space c ≡ false

All-IsInk : (s : Text) → All IsDigit s → All IsInk s
All-IsInk [] h = tt
All-IsInk (c ∷ s) h = (ground (arith, h.0.0), All-IsInk s h.1)

format_d-IsInk : (w : ℕ) → All IsInk (format_d w)
unfolding format_d
format_d-IsInk w = elim (Bool-cases (ltb w (2 ^ 31))) [
  | inl e ↦ rw e (All-IsInk (digits 10 w) (digits-IsDigit 10 w))
  | inr e ↦ rw e (refl, All-IsInk (digits 10 (2 ^ 32 - w)) (digits-IsDigit 10 (2 ^ 32 - w)))
]

without_leading_ink : (s : Text) → All IsInk s → without_leading s ≡ s
unfolding without_leading
without_leading_ink [] h = refl
without_leading_ink (c ∷ s) h = rw (h.0) refl

without_trailing_ink : (s : Text) → All IsInk s → without_trailing s ≡ s
unfolding without_trailing
without_trailing_ink [] h = refl
without_trailing_ink (c ∷ []) h = rw (h.0) refl
without_trailing_ink (c ∷ d ∷ s) h = rw (without_trailing_ink (d ∷ s) h.1) refl

pub to_int-format_d : (w : ℕ) → w < 2 ^ 32 → to_int (format_d w) ≡ w
unfolding to_int
to_int-format_d w low =
    rw (without_leading_ink (format_d w) (format_d-IsInk w))
      (rw (without_trailing_ink (format_d w) (format_d-IsInk w)) (signed_int-format_d w low))

-- The identifier that is formatted from three ints is translated into the same three ints.
pub translate_bf_order_id-format_bf_order_id :
    (front session order_ref : ℕ)
    → front < 2 ^ 32
    → session < 2 ^ 32
    → order_ref < 2 ^ 32
    → translate_bf_order_id (format_bf_order_id front session order_ref)
      ≡ (front, session, order_ref)
unfolding translate_bf_order_id format_bf_order_id
translate_bf_order_id-format_bf_order_id f s r lf ls lr =
    rw (split-dot (format_d f) (format_d s ++ (b'.' ∷ format_d r)) (format_d-IsNoDot f)) (
      rw (split-dot (format_d s) (format_d r) (format_d-IsNoDot s)) (
        rw (split_single (format_d r) (format_d-IsNoDot r))
          (rw (to_int-format_d f lf) (rw (to_int-format_d s ls) (rw (to_int-format_d r lr) refl)))))
