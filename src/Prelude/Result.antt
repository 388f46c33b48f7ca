-- ===== src/Prelude/Result.antt =====
-- A computation that may throw.
use mathlib.Core.Path.{◌≡◌}
use mathlib.Core.Bool.{Bool, true, false}

pub data Result (Error Value : Type 0) : Type 0 where
  err : Error → Result Error Value
  ok : Value → Result Error Value

-- `if (test) throw error;` before the rest of a function.
abbrev pub throw_if : {Error : Type 0} → Bool → Error → Result Error (Unit {0})
throw_if false error = ok tt
throw_if true error = err error

infixl 5 ◌>>◌
abbrev pub ◌>>◌ :
    {Error Next : Type 0} → Result Error (Unit {0}) → Result Error Next → Result Error Next
err error >> rest = err error
ok done >> rest = rest

-- A guarded function that returns has passed its guard.
pub passes_guard :
    {Error Next : Type 0} (guard : Result Error (Unit {0})) (rest : Result Error Next)
    {value : Next}
    → (guard >> rest) ≡ ok value
    → rest ≡ ok value
passes_guard (err error) rest returned = cc
passes_guard (ok done) rest returned = returned
