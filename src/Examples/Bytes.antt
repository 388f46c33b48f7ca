-- ===== src/Examples/Bytes.antt =====
-- Concrete bytes for src/common/bytes.ts.
use fire_sync.Prelude.{ℕ, ◌≡◌, refl, List, [], ◌∷◌, arith}
use fire_sync.Prelude.Result.{ok}
use fire_sync.Common.Bytes.{to_hex, from_hex, from_pairs}
use fire_sync.Common.Bytes.Hex.{from_hex-to_hex}

abbrev bytes : List ℕ
bytes = 0 ∷ 31 ∷ 255 ∷ []

from_hex-to_hex_example : from_hex (to_hex bytes) ≡ ok bytes
from_hex-to_hex_example = from_hex-to_hex bytes (omega arith, (omega arith, (omega arith, tt)))

-- "1g" is read as 1, and "-1" as 255.
bad_digit : from_hex (49 ∷ 103 ∷ []) ≡ ok (1 ∷ [])
unfolding from_hex from_pairs
bad_digit = refl

signed_digit : from_hex (45 ∷ 49 ∷ []) ≡ ok (255 ∷ [])
unfolding from_hex from_pairs
signed_digit = refl
