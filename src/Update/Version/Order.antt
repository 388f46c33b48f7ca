-- ===== src/Update/Version/Order.antt =====
-- The order of the versions, against an independent description of it.
use mathlib.Core.Path.{subst}
use native.Mathlib.Nat.{mul-le-mul_right}
use fire_sync.Prelude.{
  ℕ, zero, suc, ◌+◌, ◌*◌, ◌^◌, ◌<◌, ◌≤◌, max, String, ◌≡◌, refl, sym, ◌∙◌, ap, ◌↔◌, inl, inr, true,
  false, none, some, List, [], ◌∷◌, arith, ◌==◌, ltb, if◌then◌else◌, length, Option-cases,
  Bool-cases, ltb→le, ltb→lt, All,
}
use fire_sync.Prelude.Text.{split}
use fire_sync.Update.Version.{
  parse_component, prepend, parse_components, parse_version, Comparison, lower, same, higher, first,
  others, compare_parts, compare_parsed, compare_versions, is_higher, is_newer,
}

abbrev IsComponent : ℕ → Type 0
IsComponent n = n < 65_536

-- `n` components as the digits of one number in base 65536, those that are missing as 0.
abbrev pub weight : ℕ → List ℕ → ℕ
weight zero ns = 0
weight (suc n) ns = first ns * 65_536 ^ n + weight n (others ns)

parse_component-bound : (part : String) (n : ℕ) → parse_component part ≡ some n → IsComponent n
unfolding parse_component
parse_component-bound part n e = ground arith

parse_components-bound :
    (parts : List String) (ns : List ℕ)
    → parse_components parts ≡ some ns
    → All IsComponent ns × (length ns ≡ length parts)
parse_components-bound [] ns e = let is : ns ≡ [] = cc in rw is (tt, refl)
parse_components-bound (part ∷ parts) ns e = elim (Option-cases (parse_component part)) [
  | inl bad ↦ let it : prepend none (parse_components parts) ≡ some ns = rw bad at e in cc
  | inr (n, one) ↦ elim (Option-cases (parse_components parts)) [
    | inl bad ↦ let it : prepend (some n) none ≡ some ns = rw (one, bad) at e in cc
    | inr (rest, more) ↦
        let it : prepend (some n) (some rest) ≡ some ns = rw (one, more) at e in
        let is : ns ≡ n ∷ rest = cc in
        let (bounds, len) = parse_components-bound parts rest more in
        rw is ((parse_component-bound part n one, bounds), ap suc len)
  ]
]

parse_version-bound :
    (value : String) (ns : List ℕ)
    → parse_version value ≡ some ns
    → All IsComponent ns × (length ns ≤ 4)
unfolding parse_version
parse_version-bound value ns e = elim (Bool-cases (value == "")) [
  | inl empty ↦ let it : none ≡ some ns = rw empty at e in cc
  | inr there ↦ elim (Bool-cases (ltb 4 (length (split value)))) [
    | inl many ↦ let it : none ≡ some ns = rw (there, many) at e in cc
    | inr few ↦
        let it : parse_components (split value) ≡ some ns = rw (there, few) at e in
        let (bounds, len) = parse_components-bound (split value) ns it in (bounds, ground arith)
  ]
]

compare_parts-nil : (n : ℕ) → compare_parts n [] [] ≡ same
compare_parts-nil zero = refl
compare_parts-nil (suc n) = compare_parts-nil n

length-others : (ns : List ℕ) (n : ℕ) → length ns ≤ suc n → length (others ns) ≤ n
length-others [] n h = omega arith
length-others (x ∷ ns) n h = omega arith

-- Going on past the ends of both lists changes nothing.
compare_parts-longer :
    (n m : ℕ) (l r : List ℕ)
    → length l ≤ n
    → length r ≤ n
    → n ≤ m
    → compare_parts n l r ≡ compare_parts m l r
compare_parts-longer zero m [] [] hl hr h = sym (compare_parts-nil m)
compare_parts-longer zero m (x ∷ l) r hl hr h = absurd (omega arith)
compare_parts-longer zero m [] (x ∷ r) hl hr h = absurd (omega arith)
compare_parts-longer (suc n) zero l r hl hr h = absurd (omega arith)
compare_parts-longer (suc n) (suc m) l r hl hr h =
    rw
      (compare_parts-longer n m (others l) (others r) (length-others l n hl) (length-others r n hr)
        (omega arith))
      refl

first-bound : (ns : List ℕ) → All IsComponent ns → first ns < 65_536
first-bound [] h = omega arith
first-bound (n ∷ ns) h = h.0

others-bound : (ns : List ℕ) → All IsComponent ns → All IsComponent (others ns)
others-bound [] h = tt
others-bound (n ∷ ns) h = h.1

weight-bound : (n : ℕ) (ns : List ℕ) → All IsComponent ns → weight n ns < 65_536 ^ n
weight-bound zero ns h = omega arith
weight-bound (suc n) ns h =
    let rest = weight-bound n (others ns) (others-bound ns h) in
    let digit : suc (first ns) * 65_536 ^ n ≤ 65_536 * 65_536 ^ n =
      mul-le-mul_right (65_536 ^ n) (first-bound ns h) in
    omega arith

-- One digit more in front.
compare-digit :
    (x y b p q : ℕ) (rest : Comparison)
    → p < b
    → q < b
    → (rest ≡ higher) ↔ (q < p)
    → ((if ltb x y then lower else if ltb y x then higher else rest) ≡ higher)
      ↔ (y * b + q < x * b + p)
compare-digit x y b p q rest hp hq h = elim (Bool-cases (ltb x y)) [
  | inl less ↦
      let far : suc x * b ≤ y * b = mul-le-mul_right b (ltb→lt x y less) in
      ((λ e. absurd (let it : lower ≡ higher = rw less at e in cc)), λ k. absurd (omega arith))
  | inr ge ↦ elim (Bool-cases (ltb y x)) [
    | inl more ↦
        let far : suc y * b ≤ x * b = mul-le-mul_right b (ltb→lt y x more) in
        ((λ e. omega arith), λ k. rw (ge, more) refl)
    | inr le ↦
        let same_digit : x ≡ y = omega (arith, ltb→le x y ge, ltb→le y x le) in
        let equal : x * b ≡ y * b = ap (λ z. z * b) same_digit in
        rw (ge, le) ((λ e. let low = h.0 e in omega arith), λ k. h.1 (omega arith))
  ]
]

compare_parts-weight :
    (n : ℕ) (l r : List ℕ)
    → All IsComponent l
    → All IsComponent r
    → (compare_parts n l r ≡ higher) ↔ (weight n r < weight n l)
compare_parts-weight zero l r hl hr = ((λ e. cc), (λ k. absurd (omega arith)))
compare_parts-weight (suc n) l r hl hr =
    compare-digit (first l) (first r) (65_536 ^ n) (weight n (others l)) (weight n (others r)) _
      (weight-bound n (others l) (others-bound l hl))
      (weight-bound n (others r) (others-bound r hr))
      (compare_parts-weight n (others l) (others r) (others-bound l hl) (others-bound r hr))

parsed-weight :
    (l r : List ℕ)
    → All IsComponent l × (length l ≤ 4)
    → All IsComponent r × (length r ≤ 4)
    → (compare_parts (max (length l) (length r)) l r ≡ higher) ↔ (weight 4 r < weight 4 l)
parsed-weight l r (hl, ll) (hr, lr) =
    subst (λ x. (x ≡ higher) ↔ (weight 4 r < weight 4 l))
      (sym (
        compare_parts-longer (max (length l) (length r)) 4 l r (omega arith) (omega arith)
          (omega arith)))
      (compare_parts-weight 4 l r hl hr)

higher-of : (c : Comparison) → is_higher (some c) ≡ true → c ≡ higher
higher-of higher e = refl
higher-of lower e = cc
higher-of same e = cc

-- Both versions parse, and the first stands above the second.
abbrev pub Above : String → String → Type 0
Above candidate current =
    (l : List ℕ) × (r : List ℕ) × (parse_version candidate ≡ some l)
    × (parse_version current ≡ some r)
    × (weight 4 r < weight 4 l)

-- A version is an upgrade exactly when both are well formed and its four components, the missing
-- ones 0, make the larger number in base 65536. So a malformed version never is, and the test is a
-- strict order in which `1.2` and `1.2.0.0` are one version.
pub is_newer-Above :
    (candidate current : String) → (is_newer candidate current ≡ true) ↔ Above candidate current
unfolding is_newer compare_versions
is_newer-Above candidate current = (
  (λ e. elim (Option-cases (parse_version candidate)) [
    | inl bad ↦ let it : false ≡ true = sym (rw (bad, compare_parsed) refl) ∙ e in cc
    | inr (l, pl) ↦ elim (Option-cases (parse_version current)) [
      | inl bad ↦ let it : false ≡ true = sym (rw (pl, bad, compare_parsed) refl) ∙ e in cc
      | inr (r, pr) ↦
          let it : is_higher (some (compare_parts (max (length l) (length r)) l r)) ≡ true =
            rw (pl, pr) at e in
          (
            l,
            r,
            pl,
            pr,
            (parsed-weight l r (parse_version-bound candidate l pl)
                  (parse_version-bound current r pr)).0
                (higher-of _ it),
          )
    ]
  ]),
  λ (l, r, pl, pr, above).
      let it =
        (parsed-weight l r (parse_version-bound candidate l pl)
            (parse_version-bound current r pr)).1
          above in
      rw (pl, pr, compare_parsed, it) refl,
)
