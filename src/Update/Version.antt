-- ===== src/Update/Version.antt =====
-- src/update/version.ts: extension versions and their order. `none` is the `InvalidVersionError`.
pub mod Order
use Prim.Native.Char.{Char, code}
use fire_sync.Prelude.{
  ℕ, zero, suc, ◌+◌, ◌-◌, ◌*◌, ◌^◌, ◌<◌, ◌≤◌, max, String, ◌≡◌, refl, sym, ◌∙◌, ap, ◌↔◌, ◌⊎◌, inl,
  inr, Bool, true, false, not, ◌&&◌, ◌||◌, Option, none, some, List, [], ◌∷◌, arith, ◌==◌, ltb, leb,
  if◌then◌else◌, length, is_some, Option-cases, Bool-cases, leb→le, ltb→le,
}
use fire_sync.Prelude.Text.{all_digits, number_from, split}

-- `/^\d+$/`
abbrev pub is_plain_integer : String → Bool
is_plain_integer s = not (s == "") && all_digits s

-- One component, as `Number` reads it; at most 65535.
unfoldable pub parse_component : String → Option ℕ
parse_component part =
    let number = number_from 0 part in
    if is_plain_integer part then (if ltb 65_535 number then none else some number) else none

abbrev pub prepend : Option ℕ → Option (List ℕ) → Option (List ℕ)
prepend none rest = none
prepend (some n) none = none
prepend (some n) (some ns) = some (n ∷ ns)

abbrev pub parse_components : List String → Option (List ℕ)
parse_components [] = some []
parse_components (part ∷ parts) = prepend (parse_component part) (parse_components parts)

unfoldable pub parse_version : String → Option (List ℕ)
parse_version value =
    if value == ""
    then none
    else if ltb 4 (length (split value))
    then none
    else parse_components (split value)

pub data Comparison : Type 0 where
  lower same higher : Comparison

-- `left[i] ?? 0`
abbrev pub first : List ℕ → ℕ
first [] = 0
first (n ∷ ns) = n

abbrev pub others : List ℕ → List ℕ
others [] = []
others (n ∷ ns) = ns

-- The loop of `compareVersions`, over what is left of both lists.
abbrev pub compare_parts : ℕ → List ℕ → List ℕ → Comparison
compare_parts zero left right = same
compare_parts (suc n) left right =
    let rest = compare_parts n (others left) (others right) in
    if ltb (first left) (first right)
    then lower
    else if ltb (first right) (first left)
    then higher
    else rest

abbrev pub compare_parsed : Option (List ℕ) → Option (List ℕ) → Option Comparison
compare_parsed none right = none
compare_parsed (some l) none = none
compare_parsed (some l) (some r) = some (compare_parts (max (length l) (length r)) l r)

unfoldable pub compare_versions : String → String → Option Comparison
compare_versions a b = compare_parsed (parse_version a) (parse_version b)

abbrev pub is_higher : Option Comparison → Bool
is_higher (some higher) = true
is_higher _ = false

unfoldable pub is_newer : String → String → Bool
is_newer candidate current = is_higher (compare_versions candidate current)

abbrev pub is_valid_version : String → Bool
is_valid_version value = is_some (parse_version value)
