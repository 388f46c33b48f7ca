-- ===== src/Common/Bytes/Equal.antt =====
-- `timingSafeEqual` of src/common/bytes.ts and equality.
use fire_sync.Prelude.{
  ℕ, zero, suc, ◌/◌, ◌^◌, max, ◌<◌, ◌≤◌, ◌≡◌, ◌↔◌, refl, sym, true, List, [], ◌∷◌, All, length,
  arith,
}
use fire_sync.Common.Bytes.{
  IsByte, xor_bits, or_bits, first_or_zero, rest_of, diff_from, timing_safe_equal,
}

xor_bits-same : (w a : ℕ) → xor_bits w a a ≡ 0
unfolding xor_bits
xor_bits-same zero a = refl
xor_bits-same (suc w) a = omega (arith, xor_bits-same w (a / 2))

xor_bits-zero : (w a b : ℕ) → a < 2 ^ w → b < 2 ^ w → xor_bits w a b ≡ 0 → a ≡ b
unfolding xor_bits
xor_bits-zero zero a b la lb h = omega (arith, la, lb)
xor_bits-zero (suc w) a b la lb h =
    let half : a / 2 ≡ b / 2 =
      xor_bits-zero w (a / 2) (b / 2) (omega (arith, la)) (omega (arith, lb)) (omega (arith, h)) in
    omega (arith, half, h)

or_bits-zero : (w a b : ℕ) → a < 2 ^ w → b < 2 ^ w → or_bits w a b ≡ 0 → (a ≡ 0) × (b ≡ 0)
unfolding or_bits
or_bits-zero zero a b la lb h = (omega (arith, la), omega (arith, lb))
or_bits-zero (suc w) a b la lb h =
    let (za, zb) =
      or_bits-zero w (a / 2) (b / 2) (omega (arith, la)) (omega (arith, lb)) (omega (arith, h)) in
    (omega (arith, za, h), omega (arith, zb, h))

or_bits-none : (w a : ℕ) → a ≡ 0 → or_bits w a a ≡ 0
unfolding or_bits
or_bits-none zero a e = refl
or_bits-none (suc w) a e = omega (arith, e, or_bits-none w (a / 2) (omega (arith, e)))

xor_bits-low : (w a b : ℕ) → xor_bits w a b < 2 ^ w
unfolding xor_bits
xor_bits-low zero a b = omega arith
xor_bits-low (suc w) a b = omega (arith, xor_bits-low w (a / 2) (b / 2))

or_bits-low : (w a b : ℕ) → or_bits w a b < 2 ^ w
unfolding or_bits
or_bits-low zero a b = omega arith
or_bits-low (suc w) a b = omega (arith, or_bits-low w (a / 2) (b / 2))

-- A difference that is 0 in the end was 0 all along.
diff_from-start :
    (n : ℕ) (a b : List ℕ) (diff : ℕ) → diff < 2 ^ 32 → diff_from n a b diff ≡ 0 → diff ≡ 0
unfolding diff_from
diff_from-start zero a b diff low e = e
diff_from-start (suc n) a b diff low e =
    let x = xor_bits 32 (first_or_zero a) (first_or_zero b) in
    let z =
      diff_from-start n (rest_of a) (rest_of b) (or_bits 32 diff x) (or_bits-low 32 diff x) e in
    (or_bits-zero 32 diff x low (xor_bits-low 32 (first_or_zero a) (first_or_zero b)) z).0

length-nil : (b : List ℕ) → 0 ≡ length b → [] ≡ b
length-nil [] h = refl
length-nil (x ∷ xs) h = absurd (omega (arith, h))

diff_from-zero :
    (n : ℕ) (a b : List ℕ) (diff : ℕ)
    → diff < 2 ^ 32
    → All IsByte a
    → All IsByte b
    → length a ≤ n
    → length a ≡ length b
    → diff_from n a b diff ≡ 0
    → a ≡ b
unfolding diff_from
diff_from-zero n [] b diff low ha hb short lengths e = length-nil b lengths
diff_from-zero n (x ∷ a) [] diff low ha hb short lengths e = absurd (omega (arith, lengths))
diff_from-zero zero (x ∷ a) (y ∷ b) diff low ha hb short lengths e = absurd (omega (arith, short))
diff_from-zero (suc n) (x ∷ a) (y ∷ b) diff low (lx, ha) (ly, hb) short lengths e =
    let d = or_bits 32 diff (xor_bits 32 x y) in
    let low' = or_bits-low 32 diff (xor_bits 32 x y) in
    let zx =
      (or_bits-zero 32 diff (xor_bits 32 x y) low (xor_bits-low 32 x y)
        (diff_from-start n a b d low' e)).1 in
    let same = xor_bits-zero 32 x y (omega (arith, lx)) (omega (arith, ly)) zx in
    rw (same, diff_from-zero n a b d low' ha hb (omega (arith, short)) (omega (arith, lengths)) e)
      refl

diff_from-same : (n : ℕ) (a : List ℕ) → diff_from n a a 0 ≡ 0
unfolding diff_from
diff_from-same zero a = refl
diff_from-same (suc n) a =
    rw (xor_bits-same 32 (first_or_zero a), or_bits-none 32 0 refl) (diff_from-same n (rest_of a))

-- The comparison in constant time is equality, for lists of fewer than 2 ^ 32 bytes.
timing_safe_equal_iff :
    (a b : List ℕ)
    → All IsByte a
    → All IsByte b
    → length a < 2 ^ 32
    → length b < 2 ^ 32
    → (timing_safe_equal a b ≡ true) ↔ (a ≡ b)
unfolding timing_safe_equal
timing_safe_equal_iff a b ha hb short_a short_b = (forth, back)
  where
    forth : timing_safe_equal a b ≡ true → a ≡ b
    forth h =
        let start = xor_bits 32 (length a) (length b) in
        let low = xor_bits-low 32 (length a) (length b) in
        let zero_diff : diff_from (max (length a) (length b)) a b start ≡ 0 = ground (arith, h) in
        let lengths =
          xor_bits-zero 32 (length a) (length b) short_a short_b
            (diff_from-start (max (length a) (length b)) a b start low zero_diff) in
        diff_from-zero (max (length a) (length b)) a b start low ha hb (omega arith) lengths
          zero_diff

    back : a ≡ b → timing_safe_equal a b ≡ true
    back same =
        rw (sym same, xor_bits-same 32 (length a), diff_from-same (max (length a) (length a)) a)
          refl
