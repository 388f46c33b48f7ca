-- ===== src/Prelude/Text.antt =====
-- Texts: cut at their dots, as `split('.')` and `join('.')` do, and read as numbers.
use Prim.Native.Nat.{ℕ, ◌+◌, ◌-◌, ◌*◌}
use Prim.Native.Char.{Char, char, code}
use Prim.Native.String.{String, ◌++◌}
use mathlib.Core.Path.{◌≡◌, subst, refl, sym, ap, ◌∙◌}
use mathlib.Core.Logic.{inl, inr}
use mathlib.Core.Bool.{Bool, true, false, not, ◌&&◌}
use mathlib.Core.List.{List, [], ◌∷◌}
use text.Mathlib.TextEquality.{Char-path}
use text.Mathlib.TextLemmas.{nil-append, cons-append}
use native.Mathlib.Omega.{arith}
use fire_sync.Prelude.Tests.{eqb, leb, if◌then◌else◌, Bool-cases}
use fire_sync.Prelude.Lists.{All}

abbrev pub full_stop : Char
full_stop = char 46 tt

abbrev pub is_dot : Char → Bool
is_dot c = eqb (code c) b'.'

abbrev pub onto_first : Char → List String → List String
onto_first c [] = []
onto_first c (part ∷ parts) = String.◌∷◌ c part ∷ parts

-- `s.split('.')`
unfoldable pub split : String → List String
split String.[] = String.[] ∷ []
split (String.◌∷◌ c s) =
    let parts = split s in if is_dot c then String.[] ∷ parts else onto_first c parts

-- `parts.join('.')`
unfoldable pub join : List String → String
join [] = String.[]
join (part ∷ []) = part
join (part ∷ (next ∷ parts)) = part ++ String.◌∷◌ full_stop (join (next ∷ parts))

abbrev pub is_digit : Char → Bool
is_digit c = leb b'0' (code c) && leb (code c) b'9'

abbrev pub all_digits : String → Bool
all_digits String.[] = true
all_digits (String.◌∷◌ c s) = is_digit c && all_digits s

-- `Number` of a text of digits that goes on from `n`.
abbrev pub number_from : ℕ → String → ℕ
number_from n String.[] = n
number_from n (String.◌∷◌ c s) = number_from (n * 10 + (code c - b'0')) s

abbrev is_empty : String → Bool
is_empty String.[] = true
is_empty (String.◌∷◌ c s) = false

-- `replace(/x$/, '')` for a character
abbrev pub without_last : ℕ → String → String
without_last x String.[] = String.[]
without_last x (String.◌∷◌ c s) =
    let rest = without_last x s in
    if is_empty s && eqb (code c) x then String.[] else String.◌∷◌ c rest

-- No dot is left in a part.
abbrev pub is_label : String → Bool
is_label String.[] = true
is_label (String.◌∷◌ c s) = not (is_dot c) && is_label s

abbrev pub IsLabel : String → Type 0
IsLabel s = is_label s ≡ true

pub split_cons : (s : String) → (part : String) × (parts : List String) × (split s ≡ part ∷ parts)
unfolding split
split_cons String.[] = (String.[], [], refl)
split_cons (String.◌∷◌ c s) =
    let (part, parts, e) = split_cons s in
    elim (Bool-cases (is_dot c)) [
      | inl dot ↦ (String.[], split s, rw dot refl)
      | inr other ↦ (String.◌∷◌ c part, parts, rw (other, e) refl)
    ]

pub split-IsLabel : (s : String) → All IsLabel (split s)
unfolding split
split-IsLabel String.[] = (refl, tt)
split-IsLabel (String.◌∷◌ c s) =
    let labels = split-IsLabel s in
    elim (Bool-cases (is_dot c)) [
      | inl dot ↦ rw dot (refl, labels)
      | inr other ↦
          let (part, parts, e) = split_cons s in
          let (one, rest) : IsLabel part × All IsLabel parts = subst (All IsLabel) e labels in
          rw (other, e) (rw (other, one) refl, rest)
    ]

join-cons :
    (part : String) (parts : List String) (c : Char)
    → join (String.◌∷◌ c part ∷ parts) ≡ String.◌∷◌ c (join (part ∷ parts))
unfolding join
join-cons part [] c = refl
join-cons part (next ∷ parts) c = cons-append c part _

pub join-split : (s : String) → join (split s) ≡ s
unfolding split join
join-split String.[] = refl
join-split (String.◌∷◌ c s) =
    let (part, parts, e) = split_cons s in
    let whole = join-split s in
    elim (Bool-cases (is_dot c)) [
      | inl dot ↦
          rw (dot, e) (nil-append _ ∙ cc (Char-path c full_stop (ground arith), sym e, whole))
      | inr other ↦ rw (other, e) (join-cons part parts c ∙ cc (sym e, whole))
    ]

cons-IsLabel : (c : Char) (s : String) → IsLabel (String.◌∷◌ c s) → (is_dot c ≡ false) × IsLabel s
cons-IsLabel c s h = ground arith

split-label : (part : String) → IsLabel part → split part ≡ part ∷ []
unfolding split
split-label String.[] h = refl
split-label (String.◌∷◌ c s) h =
    let (other, label) = cons-IsLabel c s h in rw (other, split-label s label) refl

split-append :
    (part s : String) → IsLabel part → split (part ++ String.◌∷◌ full_stop s) ≡ part ∷ split s
unfolding split
split-append String.[] s h = rw (nil-append (String.◌∷◌ full_stop s)) refl
split-append (String.◌∷◌ c part) s h =
    let (other, label) = cons-IsLabel c part h in
    rw (cons-append c part (String.◌∷◌ full_stop s), other, split-append part s label) refl

pub split-join :
    (part : String) (parts : List String)
    → All IsLabel (part ∷ parts)
    → split (join (part ∷ parts)) ≡ part ∷ parts
unfolding join
split-join part [] (one, rest) = split-label part one
split-join part (next ∷ parts) (one, rest) =
    split-append part _ one ∙ ap (λ x. part ∷ x) (split-join next parts rest)
