-- ===== src/Match/Psl.antt =====
-- src/match/psl.ts: public suffixes and registrable domains. A host is ASCII, as the URL parser
-- leaves it, so lower case is that of the letters A to Z.
pub mod Rules
pub mod Registrable
pub mod Agreement
use Prim.Native.Char.{Char, code}
use Prim.Native.String.{char_at, count}
use fire_sync.Prelude.{
  ℕ, suc, ◌+◌, ◌-◌, ◌*◌, String, Bool, true, false, not, ◌&&◌, ◌||◌, Option, none, some, List, [],
  ◌∷◌, ◌==◌, ltb, leb, eqb, if◌then◌else◌, length, all, or_default,
}
use fire_sync.Prelude.Text.{without_last, all_digits, number_from, split, join}
use fire_sync.Match.EquivalentDomains.{has}
use fire_sync.Match.Psl.Rules.{public_suffixes, wildcard_suffixes, suffix_exceptions}

-- White space of ASCII.
abbrev is_space : Char → Bool
is_space c = eqb (code c) 32 || leb 9 (code c) && leb (code c) 13

abbrev trim_start : String → String
trim_start String.[] = String.[]
trim_start (String.◌∷◌ c s) = let rest = trim_start s in if is_space c then rest else String.◌∷◌ c s

abbrev is_blank : String → Bool
is_blank String.[] = true
is_blank (String.◌∷◌ c s) = is_space c && is_blank s

abbrev trim_end : String → String
trim_end String.[] = String.[]
trim_end (String.◌∷◌ c s) =
    let rest = trim_end s in if is_space c && is_blank s then String.[] else String.◌∷◌ c rest

abbrev lower : Char → Char
lower c =
    if leb b'A' (code c) && leb (code c) b'Z'
    then char_at "abcdefghijklmnopqrstuvwxyz" (code c - b'A')
    else c

abbrev pub lower_case : String → String
lower_case String.[] = String.[]
lower_case (String.◌∷◌ c s) = String.◌∷◌ (lower c) (lower_case s)

abbrev without_first : ℕ → String → String
without_first x String.[] = String.[]
without_first x (String.◌∷◌ c s) = if eqb (code c) x then s else String.◌∷◌ c s

unfoldable pub normalize_host : String → String
normalize_host host =
    without_last b']'
      (without_first b'[' (without_last b'.' (lower_case (trim_end (trim_start host)))))

-- `\d{1,3}`
abbrev is_octet_text : String → Bool
is_octet_text s = leb 1 (count s) && leb (count s) 3 && all_digits s

abbrev has_colon : String → Bool
has_colon String.[] = false
has_colon (String.◌∷◌ c s) = eqb (code c) b':' || has_colon s

unfoldable pub is_ip_address : String → Bool
is_ip_address host =
    if eqb (length (split host)) 4 && all is_octet_text (split host)
    then all (λ octet. leb (number_from 0 octet) 255) (split host)
    else has_colon host

-- Membership in the three sets.
unfoldable pub is_exception : String → Bool
is_exception s = has suffix_exceptions s

unfoldable pub is_listed : String → Bool
is_listed s = has public_suffixes s

unfoldable pub is_wildcard : String → Bool
is_wildcard s = has wildcard_suffixes s

abbrev pub under_wildcard : List String → Bool
under_wildcard [] = false
under_wildcard (label ∷ []) = true
under_wildcard (label ∷ (next ∷ labels)) = is_wildcard (join (next ∷ labels))

-- `isPublicSuffix` after its normalisation.
unfoldable pub is_suffix : String → Bool
is_suffix normalized =
    if is_exception normalized
    then false
    else if is_listed normalized
    then true
    else under_wildcard (split normalized)

unfoldable pub is_public_suffix : String → Bool
is_public_suffix host =
    let normalized = normalize_host host in if normalized == "" then false else is_suffix normalized

abbrev pub joined : Option (List String) → Option String
joined none = none
joined (some labels) = some (join labels)

-- The loop over `i`, at `labels.slice(i)`, with `labels.slice(i - 1)` or none at the start. The result
-- is none where no rule matched, and else what the function returns.
abbrev pub match_rules : Option (List String) → List String → Option (Option String)
match_rules before [] = none
match_rules before (label ∷ labels) =
    let rest = match_rules (some (label ∷ labels)) labels in
    if is_exception (join (label ∷ labels))
    then some (some (join (label ∷ labels)))
    else if is_listed (join (label ∷ labels))
    then some (joined before)
    else if not (join labels == "") && is_wildcard (join labels)
    then some (joined before)
    else rest

-- `labels.slice(-2)`
abbrev pub last_two : List String → List String
last_two [] = []
last_two (x ∷ []) = x ∷ []
last_two (x ∷ (y ∷ [])) = x ∷ y ∷ []
last_two (x ∷ (y ∷ (z ∷ labels))) = last_two (y ∷ z ∷ labels)

abbrev pub domain_of_labels : List String → Option String
domain_of_labels labels =
    if ltb (length labels) 2
    then none
    else or_default (match_rules none labels) (some (join (last_two labels)))

unfoldable pub registrable_domain : String → Option String
registrable_domain host =
    let normalized = normalize_host host in
    if normalized == ""
    then none
    else if is_ip_address normalized
    then some normalized
    else domain_of_labels (split normalized)
