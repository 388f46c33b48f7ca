-- ===== src/Common/Bytes/Hex.antt =====
-- `fromHex` and `toHex` of src/common/bytes.ts.
use fire_sync.Prelude.{
  ℕ, ◌+◌, ◌*◌, ◌/◌, ◌%◌, ◌<◌, ◌≡◌, refl, ap, true, false, ◌||◌, some, List, [], ◌∷◌, All, length,
  eqb, arith,
}
use fire_sync.Prelude.Result.{ok}
use fire_sync.Common.Bytes.{
  hex_digit, to_hex, digit_value, is_space, parse_byte, from_pairs, from_hex, IsByte,
}

digit_value-hex_digit : (n : ℕ) → n < 16 → digit_value (hex_digit n) ≡ some n
digit_value-hex_digit n low = ground (arith, low)

hex_digit-plain :
    (n : ℕ)
    → n < 16
    → ((is_space (hex_digit n) || eqb (hex_digit n) 43) ≡ false) × (eqb (hex_digit n) 45 ≡ false)
hex_digit-plain n low = (ground (arith, low), ground (arith, low))

parse_byte-digits :
    (m n : ℕ) → m < 16 → n < 16 → parse_byte (hex_digit m) (hex_digit n) ≡ some (16 * m + n)
parse_byte-digits m n low_m low_n =
    let (plain, unsigned) = hex_digit-plain m low_m in
    rw (plain, unsigned, digit_value-hex_digit m low_m, digit_value-hex_digit n low_n) refl

from_pairs-to_hex :
    (offset : ℕ) (bytes : List ℕ) → All IsByte bytes → from_pairs offset (to_hex bytes) ≡ ok bytes
unfolding to_hex from_pairs
from_pairs-to_hex offset [] h = refl
from_pairs-to_hex offset (b ∷ bytes) (low, h) =
    rw
      (
        parse_byte-digits (b / 16) (b % 16) (omega (arith, low)) (omega arith),
        from_pairs-to_hex (offset + 2) bytes h,
      )
      (ap (λ x. ok (x ∷ bytes)) (omega arith))

length-to_hex : (bytes : List ℕ) → length (to_hex bytes) ≡ 2 * length bytes
unfolding to_hex
length-to_hex [] = omega arith
length-to_hex (b ∷ bytes) = omega (arith, length-to_hex bytes)

-- Decoding the hexadecimal text of bytes gives the bytes.
pub from_hex-to_hex : (bytes : List ℕ) → All IsByte bytes → from_hex (to_hex bytes) ≡ ok bytes
unfolding from_hex
from_hex-to_hex bytes h =
    let even : eqb (length (to_hex bytes) % 2) 0 ≡ true = ground (arith, length-to_hex bytes) in
    rw even (from_pairs-to_hex 0 bytes h)
