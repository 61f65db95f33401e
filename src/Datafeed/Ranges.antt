-- ===== src/Datafeed/Ranges.antt =====
-- The loops of datafeed/dbservice.cpp over a sorted range that the two marks enclose.
use bftrader.Prelude.{
  ℕ, suc, Bool, true, false, ◌&&◌, Option, none, [], ◌∷◌, map, ◌≡◌, refl, Text, QMap, All, IsSorted,
  AtLeast, Above-trans, values_within, values_within-Above, find, find_past, find-Above, contains,
  text_leb, text_ltb, text_eq, text_eq_iff, arith, Returns, Bool-cases, inl, inr, if◌then◌else◌,
}
use bftrader.Datafeed.Store.{Codec, IsCodec, changed}
use bftrader.Datafeed.Scan.{scan_to, scan_deletes}

-- The value is the text of a message.
abbrev pub IsEncoded : {M : Type 0} → Codec M → Text → Type 0
IsEncoded {M} c v = (m : M) × (v ≡ c.bytes m)

module _ (first last lo to : Text) (before : text_ltb first lo ≡ true)
    (after : text_ltb to last ≡ true) where
  not_first : (k : Text) → text_ltb k lo ≡ false → text_eq k first ≡ false
  not_first k h = ground (arith, text_eq_iff k first, before)

  not_last : (k : Text) → text_leb k to ≡ true → text_eq k last ≡ false
  not_last k h = ground (arith, text_eq_iff k last, after)

  module _ {M : Type 0} (c : Codec M) (law : IsCodec c) (accepts : ℕ → Bool) where
    -- While the stream is open, the loop writes what the range holds, in its order.
    pub scan_to-values_within :
        ((n : ℕ) → accepts n ≡ true)
        → (n : ℕ) (es : QMap Text) → IsSorted es
        → AtLeast lo es
        → All (λ e. text_leb e.0 to ≡ true → IsEncoded c e.1) es
        → Returns
            (λ ms. map c.bytes ms ≡ values_within lo to es)
            (scan_to c.parse accepts first last to n es)
    unfolding scan_to values_within
    scan_to-values_within writable n [] s a enc = ([], refl, refl)
    scan_to-values_within writable n ((k, v) ∷ es) s a enc = elim (Bool-cases (text_leb k to)) [
      | inl e ↦
          let (m, w) = enc.0 e in
          let (ms, e', same) = scan_to-values_within writable (suc n) es s.1 a.1 enc.1 in
          (
            m ∷ ms,
            rw (not_first k a.0)
                (rw (not_last k e) (rw e (rw (w, law.parse_law m) (rw (writable n, e') refl)))),
            ground (arith, a.0, e, w, same),
          )
      | inr e ↦ (
        [],
        ground (arith, e, not_first k a.0),
        ground (arith, e, values_within-Above lo to es, Above-trans to k es, s.0),
      )
    ]

  -- The deletes remove the keys of the range that the entries hold.
  pub changed-scan_deletes :
      (k : Text) (es : QMap Text) (old : Option Text)
      → IsSorted es
      → AtLeast lo es
      → changed k (scan_deletes first last to es) old
        ≡ (if text_leb k to && contains k es then none else old)
  unfolding changed scan_deletes find
  changed-scan_deletes k [] old s a = ground arith
  changed-scan_deletes k ((j, v) ∷ es) old s a = ground (
    arith,
    changed-scan_deletes k es old s.1 a.1,
    changed-scan_deletes k es none s.1 a.1,
    text_eq_iff j first,
    text_eq_iff j last,
    text_eq_iff j k,
    a.0,
    find-Above j es s.0,
    find_past k to es,
    Above-trans to j es,
    s.0,
  )
