-- ===== src/Match/Psl/Registrable.antt =====
-- What `registrableDomain` of src/match/psl.ts returns.
use mathlib.Core.Path.{subst}
use mathlib.Core.List.{append_assoc}
use fire_sync.Prelude.{
  String, ◌≡◌, refl, sym, ◌∙◌, ap, inl, inr, Bool, true, false, not, ◌&&◌, Option, none, some, List,
  [], ◌∷◌, ◌++◌, arith, ◌==◌, ltb, if◌then◌else◌, length, All, Bool-cases, Option-cases, eq_iff,
}
use fire_sync.Prelude.Text.{split, join, IsLabel, split-IsLabel, split-join}
use fire_sync.Match.Psl.{
  normalize_host, registrable_domain, match_rules, is_ip_address, is_exception, is_listed,
  is_wildcard, is_suffix, under_wildcard, joined, last_two, domain_of_labels,
}

-- `is_suffix` at the labels.
abbrev pub suffix_of : List String → Bool
suffix_of labels =
    if is_exception (join labels)
    then false
    else if is_listed (join labels)
    then true
    else under_wildcard labels

-- The labels end in these.
abbrev pub Ends : List String → List String → Type 0
Ends whole labels = (before : List String) × (whole ≡ before ++ labels)

Ends-one :
    (whole : List String) (label : String) (labels : List String)
    → Ends whole (label ∷ labels)
    → Ends whole labels
Ends-one whole label labels (before, e) =
    (before ++ (label ∷ []), e ∙ sym (append_assoc before (label ∷ []) labels))

-- The test of the loop for a wildcard rule is that of `isPublicSuffix`.
pub wildcard_test :
    (label next : String) (labels : List String)
    → not (join (next ∷ labels) == "") && is_wildcard (join (next ∷ labels))
      ≡ under_wildcard (label ∷ (next ∷ labels))
unfolding is_wildcard
wildcard_test label next labels = elim (Bool-cases (join (next ∷ labels) == "")) [
  | inr there ↦ rw there refl
  | inl empty ↦ let e = (eq_iff (join (next ∷ labels)) "").0 empty in rw e refl
]

-- A host or suffix of at least two labels, at which no rule matches, is no public suffix.
unmatched :
    (label next : String) (labels : List String)
    → is_exception (join (label ∷ (next ∷ labels))) ≡ false
    → is_listed (join (label ∷ (next ∷ labels))) ≡ false
    → not (join (next ∷ labels) == "") && is_wildcard (join (next ∷ labels)) ≡ false
    → suffix_of (label ∷ (next ∷ labels)) ≡ false
unmatched label next labels plain unlisted tame =
    rw (plain, unlisted) (sym (wildcard_test label next labels) ∙ tame)

-- The labels of a domain that the loop returns.
abbrev Registrable : List String → String → Type 0
Registrable whole d =
    (label : String) × (labels : List String) × (d ≡ join (label ∷ labels))
    × (suffix_of (label ∷ labels) ≡ false)
    × Ends whole (label ∷ labels)

abbrev Before : List String → Option (List String) → Type 0
Before whole none = Unit
Before whole (some []) = ⊥
Before whole (some (label ∷ labels)) =
    (suffix_of (label ∷ labels) ≡ false) × Ends whole (label ∷ labels)

joined-Registrable :
    (whole : List String) (before : Option (List String)) (d : String)
    → Before whole before
    → Path (Option (Option String)) (some (joined before)) (some (some d))
    → Registrable whole d
joined-Registrable whole none d good e = cc
joined-Registrable whole (some []) d good e = absurd good
joined-Registrable whole (some (label ∷ labels)) d (kept, end) e =
    (label, labels, (let it : join (label ∷ labels) ≡ d = cc in sym it), kept, end)

later-Registrable :
    (whole : List String) (label : String) (labels : List String) (d : String)
    → Ends whole (label ∷ labels)
    → is_exception (join (label ∷ labels)) ≡ false
    → is_listed (join (label ∷ labels)) ≡ false
    → not (join labels == "") && is_wildcard (join labels) ≡ false
    → (Before whole (some (label ∷ labels)) → Ends whole labels → Registrable whole d)
    → match_rules (some (label ∷ labels)) labels ≡ some (some d)
    → Registrable whole d
later-Registrable whole label [] d end plain unlisted tame later e = cc
later-Registrable whole label (next ∷ labels) d end plain unlisted tame later e =
    later (unmatched label next labels plain unlisted tame, end)
      (Ends-one whole label (next ∷ labels) end)

match_rules-Registrable :
    (whole : List String) (before : Option (List String)) (labels : List String) (d : String)
    → Before whole before
    → Ends whole labels
    → match_rules before labels ≡ some (some d)
    → Registrable whole d
match_rules-Registrable whole before [] d good end e = cc
match_rules-Registrable whole before (label ∷ labels) d good end e =
    elim (Bool-cases (is_exception (join (label ∷ labels)))) [
      | inl exception ↦
          let it : Path (Option (Option String)) (some (some (join (label ∷ labels))))
              (some (some d)) =
            rw exception at e in
          (
            label,
            labels,
            (let is : join (label ∷ labels) ≡ d = cc in sym is),
            rw exception refl,
            end,
          )
      | inr plain ↦ elim (Bool-cases (is_listed (join (label ∷ labels)))) [
        | inl listed ↦ joined-Registrable whole before d good (rw (plain, listed) at e)
        | inr unlisted ↦ elim (Bool-cases (not (join labels == "") && is_wildcard (join labels))) [
          | inl wild ↦ joined-Registrable whole before d good (rw (plain, unlisted, wild) at e)
          | inr tame ↦
              later-Registrable whole label labels d end plain unlisted tame
                (λ good' end'.
                  match_rules-Registrable whole (some (label ∷ labels)) labels d good' end'
                    (rw (plain, unlisted, tame) at e))
                (rw (plain, unlisted, tame) at e)
        ]
      ]
    ]

passed :
    (before : Option (List String)) (x y : String) (labels : List String)
    → match_rules before (x ∷ (y ∷ labels)) ≡ none
    → (suffix_of (x ∷ (y ∷ labels)) ≡ false)
      × (match_rules (some (x ∷ (y ∷ labels))) (y ∷ labels) ≡ none)
passed before x y labels e = elim (Bool-cases (is_exception (join (x ∷ (y ∷ labels))))) [
  | inl exception ↦
      let it : Path (Option (Option String)) (some (some (join (x ∷ (y ∷ labels))))) none =
        rw exception at e in
      cc
  | inr plain ↦ elim (Bool-cases (is_listed (join (x ∷ (y ∷ labels))))) [
    | inl listed ↦
        let it : Path (Option (Option String)) (some (joined before)) none =
          rw (plain, listed) at e in
        cc
    | inr unlisted ↦
        elim (Bool-cases (not (join (y ∷ labels) == "") && is_wildcard (join (y ∷ labels)))) [
          | inl wild ↦
              let it : Path (Option (Option String)) (some (joined before)) none =
                rw (plain, unlisted, wild) at e in
              cc
          | inr tame ↦ (unmatched x y labels plain unlisted tame, rw (plain, unlisted, tame) at e)
        ]
  ]
]

-- Where no rule matches, the last two labels are the domain.
match_rules-none :
    (before : Option (List String)) (x y : String) (labels : List String)
    → match_rules before (x ∷ (y ∷ labels)) ≡ none
    → suffix_of (last_two (x ∷ (y ∷ labels))) ≡ false
match_rules-none before x y [] e = (passed before x y [] e).0
match_rules-none before x y (z ∷ labels) e =
    match_rules-none (some (x ∷ (y ∷ (z ∷ labels)))) y z labels (passed before x y (z ∷ labels) e).1

last_two-Ends :
    (x y : String) (labels : List String)
    → (a : String) × (b : String) × (last_two (x ∷ (y ∷ labels)) ≡ a ∷ b ∷ [])
      × Ends (x ∷ (y ∷ labels)) (a ∷ b ∷ [])
last_two-Ends x y [] = (x, y, refl, ([], refl))
last_two-Ends x y (z ∷ labels) =
    let (a, b, e, (before, end)) = last_two-Ends y z labels in
    (a, b, e, (x ∷ before, ap (λ l. x ∷ l) end))

domain_of_labels-Registrable :
    (labels : List String) (d : String) → domain_of_labels labels ≡ some d → Registrable labels d
domain_of_labels-Registrable [] d e = cc
domain_of_labels-Registrable (x ∷ []) d e = cc
domain_of_labels-Registrable (x ∷ (y ∷ labels)) d e =
    let few : ltb (length (x ∷ (y ∷ labels))) 2 ≡ false = ground arith in
    elim (Option-cases (match_rules none (x ∷ (y ∷ labels)))) [
      | inr (r, found) ↦
          let it : r ≡ some d = rw (few, found) at e in
          match_rules-Registrable (x ∷ (y ∷ labels)) none (x ∷ (y ∷ labels)) d tt ([], refl)
            (found ∙ ap some it)
      | inl unfound ↦
          let it : some (join (last_two (x ∷ (y ∷ labels)))) ≡ some d = rw (few, unfound) at e in
          let (a, b, is, end) = last_two-Ends x y labels in
          let is_d : join (last_two (x ∷ (y ∷ labels))) ≡ d = cc in
          (
            a,
            b ∷ [],
            sym is_d ∙ ap join is,
            subst (λ l. suffix_of l ≡ false) is (match_rules-none none x y labels unfound),
            end,
          )
    ]

All-drop : (before labels : List String) → All IsLabel (before ++ labels) → All IsLabel labels
All-drop [] labels h = h
All-drop (b ∷ before) labels h = All-drop before labels h.1

All-end : (whole labels : List String) → Ends whole labels → All IsLabel whole → All IsLabel labels
All-end whole labels (before, e) h = All-drop before labels (subst (All IsLabel) e h)

pub is_suffix-join :
    (label : String) (labels : List String)
    → All IsLabel (label ∷ labels)
    → is_suffix (join (label ∷ labels)) ≡ suffix_of (label ∷ labels)
unfolding is_suffix
is_suffix-join label labels h = rw (split-join label labels h) refl

-- A registrable domain is made of the last labels of the normalised host, and it is itself no public
-- suffix, so that no two owners under one suffix share it. The host is no IP address.
pub registrable_domain-suffix :
    (host d : String)
    → is_ip_address (normalize_host host) ≡ false
    → registrable_domain host ≡ some d
    → (is_suffix d ≡ false) × Ends (split (normalize_host host)) (split d)
unfolding registrable_domain
registrable_domain-suffix host d name e = elim (Bool-cases (normalize_host host == "")) [
  | inl empty ↦ let it : none ≡ some d = rw empty at e in cc
  | inr there ↦
      let it : domain_of_labels (split (normalize_host host)) ≡ some d = rw (there, name) at e in
      let (label, labels, is, none_such, end) =
        domain_of_labels-Registrable (split (normalize_host host)) d it in
      let good =
        All-end (split (normalize_host host)) (label ∷ labels) end
          (split-IsLabel (normalize_host host)) in
      rw is (is_suffix-join label labels good ∙ none_such, rw (split-join label labels good) end)
]
