-- ===== src/Common/Bytes.antt =====
-- src/common/bytes.ts: hexadecimal texts, and comparison in constant time. A byte is a number, and a text the
-- list of its UTF-16 units.
pub mod Hex
pub mod Equal
use fire_sync.Prelude.{
  ℕ, zero, suc, ◌+◌, ◌-◌, ◌*◌, ◌/◌, ◌%◌, ◌^◌, max, ◌<◌, ◌≤◌, String, ◌≡◌, ◌↔◌, refl, sym, ap, Bool,
  true, false, ◌&&◌, ◌||◌, Option, none, some, List, [], ◌∷◌, All, length, any, ltb, leb, eqb,
  if◌then◌else◌, arith,
}
use fire_sync.Prelude.Result.{Result, ok, err}

-- `HEX_ALPHABET[n]`, for n below 16.
abbrev pub hex_digit : ℕ → ℕ
hex_digit n = if ltb n 10 then 48 + n else 87 + n

unfoldable pub to_hex : List ℕ → List ℕ
to_hex [] = []
to_hex (b ∷ bytes) = hex_digit (b / 16) ∷ hex_digit (b % 16) ∷ to_hex bytes

-- A digit in base 16, of either case.
abbrev pub digit_value : ℕ → Option ℕ
digit_value c =
    if leb 48 c && leb c 57
    then some (c - 48)
    else if leb 65 c && leb c 70
    then some (c - 55)
    else if leb 97 c && leb c 102
    then some (c - 87)
    else none

-- The white space that `parseInt` skips.
abbrev pub is_space : ℕ → Bool
is_space c =
    (leb 9 c && leb c 13)
    || eqb c 32
    || any (eqb c) (160 ∷ 5_760 ∷ 8_232 ∷ 8_233 ∷ 8_239 ∷ 8_287 ∷ 12_288 ∷ 65_279 ∷ [])
    || (leb 8_192 c && leb c 8_202)

-- A byte in two's complement, as an element of a `Uint8Array` takes it.
abbrev pub negated : Option ℕ → Option ℕ
negated none = none
negated (some v) = some ((256 - v) % 256)

-- `0x` is a prefix with no digits; any other second unit that is no digit ends the number.
abbrev pub with_second : ℕ → ℕ → ℕ → Option ℕ → Option ℕ
with_second c d v (some w) = some (16 * v + w)
with_second c d v none = if eqb c 48 && (eqb d 120 || eqb d 88) then none else some v

abbrev pub with_first : ℕ → ℕ → Option ℕ → Option ℕ
with_first c d none = none
with_first c d (some v) = with_second c d v (digit_value d)

-- `Number.parseInt` of two units in base 16, as a byte; `none` is not a number.
abbrev pub parse_byte : ℕ → ℕ → Option ℕ
parse_byte c d =
    if is_space c || eqb c 43
    then digit_value d
    else if eqb c 45
    then negated (digit_value d)
    else with_first c d (digit_value c)

pub data HexError : Type 0 where
  odd_length invalid_hex : ℕ → HexError

abbrev pub onto : ℕ → Result HexError (List ℕ) → Result HexError (List ℕ)
onto b (err e) = err e
onto b (ok bytes) = ok (b ∷ bytes)

abbrev pub onto_parsed : Option ℕ → ℕ → Result HexError (List ℕ) → Result HexError (List ℕ)
onto_parsed none offset rest = err (invalid_hex offset)
onto_parsed (some b) offset rest = onto b rest

-- The loop, from an offset; an odd unit at the end is refused before.
unfoldable pub from_pairs : ℕ → List ℕ → Result HexError (List ℕ)
from_pairs offset [] = ok []
from_pairs offset (c ∷ []) = ok []
from_pairs offset (c ∷ d ∷ hex) = onto_parsed (parse_byte c d) offset (from_pairs (offset + 2) hex)

unfoldable pub from_hex : List ℕ → Result HexError (List ℕ)
from_hex hex = if eqb (length hex % 2) 0 then from_pairs 0 hex else err (odd_length (length hex))

abbrev pub IsByte : ℕ → Type 0
IsByte b = b < 256

-- `a ^ b` and `a | b` on numbers of w bits.
unfoldable pub xor_bits : ℕ → ℕ → ℕ → ℕ
xor_bits zero a b = 0
xor_bits (suc w) a b = (a + b) % 2 + 2 * xor_bits w (a / 2) (b / 2)

unfoldable pub or_bits : ℕ → ℕ → ℕ → ℕ
or_bits zero a b = 0
or_bits (suc w) a b = max (a % 2) (b % 2) + 2 * or_bits w (a / 2) (b / 2)

-- `bytes[i] ?? 0`
abbrev pub first_or_zero : List ℕ → ℕ
first_or_zero [] = 0
first_or_zero (b ∷ bytes) = b

abbrev pub rest_of : List ℕ → List ℕ
rest_of [] = []
rest_of (b ∷ bytes) = bytes

-- The loop over the longer length.
unfoldable pub diff_from : ℕ → List ℕ → List ℕ → ℕ → ℕ
diff_from zero a b diff = diff
diff_from (suc n) a b diff =
    diff_from n (rest_of a) (rest_of b)
      (or_bits 32 diff (xor_bits 32 (first_or_zero a) (first_or_zero b)))

unfoldable pub timing_safe_equal : List ℕ → List ℕ → Bool
timing_safe_equal a b =
    eqb (diff_from (max (length a) (length b)) a b (xor_bits 32 (length a) (length b))) 0
