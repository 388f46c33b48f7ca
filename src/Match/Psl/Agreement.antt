-- ===== src/Match/Psl/Agreement.antt =====
-- `registrableDomain` and `isPublicSuffix` of src/match/psl.ts, side by side.
use mathlib.Core.Path.{subst}
use fire_sync.Prelude.{
  String, ◌≡◌, refl, sym, ◌∙◌, ap, ◌≢◌, ◌↔◌, inl, inr, true, false, not, ◌&&◌, Option, none, some,
  List, [], ◌∷◌, arith, ◌==◌, ltb, length, or_default, All, Bool-cases, eq_iff,
}
use fire_sync.Prelude.Text.{split, join, split_cons, IsLabel, split-IsLabel, join-split}
use fire_sync.Match.Psl.{
  normalize_host, registrable_domain, is_public_suffix, match_rules, is_ip_address, is_exception,
  is_listed, is_wildcard, is_suffix, domain_of_labels,
}
use fire_sync.Match.Psl.Registrable.{suffix_of, wildcard_test, is_suffix-join}

-- Past the first label the loop returns a domain or nothing.
match_rules-domain : (whole labels : List String) → match_rules (some whole) labels ≢ some none
match_rules-domain whole [] e = cc
match_rules-domain whole (label ∷ labels) e =
    elim (Bool-cases (is_exception (join (label ∷ labels)))) [
      | inl exception ↦
          let it : Path (Option (Option String)) (some (some (join (label ∷ labels)))) (some none) =
            rw exception at e in
          cc
      | inr plain ↦ elim (Bool-cases (is_listed (join (label ∷ labels)))) [
        | inl listed ↦
            let it : Path (Option (Option String)) (some (some (join whole))) (some none) =
              rw (plain, listed) at e in
            cc
        | inr unlisted ↦ elim (Bool-cases (not (join labels == "") && is_wildcard (join labels))) [
          | inl wild ↦
              let it : Path (Option (Option String)) (some (some (join whole))) (some none) =
                rw (plain, unlisted, wild) at e in
              cc
          | inr tame ↦ match_rules-domain (label ∷ labels) labels (rw (plain, unlisted, tame) at e)
        ]
      ]
    ]

or_default-some :
    (o : Option (Option String)) (d : String) → o ≢ some none → or_default o (some d) ≢ none
or_default-some none d not_none e = cc
or_default-some (some none) d not_none e = not_none refl
or_default-some (some (some x)) d not_none e = cc

-- At two labels or more.
domain_of_labels-suffix :
    (x y : String) (labels : List String)
    → (domain_of_labels (x ∷ (y ∷ labels)) ≡ none) ↔ (suffix_of (x ∷ (y ∷ labels)) ≡ true)
domain_of_labels-suffix x y labels =
    let few : ltb (length (x ∷ (y ∷ labels))) 2 ≡ false = ground arith in
    let test = wildcard_test x y labels in
    elim (Bool-cases (is_exception (join (x ∷ (y ∷ labels))))) [
      | inl exception ↦ rw (few, exception) ((λ e. cc), (λ e. cc))
      | inr plain ↦ elim (Bool-cases (is_listed (join (x ∷ (y ∷ labels))))) [
        | inl listed ↦ rw (few, plain, listed) ((λ e. refl), (λ e. refl))
        | inr unlisted ↦
            elim (Bool-cases (not (join (y ∷ labels) == "") && is_wildcard (join (y ∷ labels)))) [
              | inl wild ↦ rw (few, plain, unlisted, wild) ((λ e. sym test ∙ wild), (λ e. refl))
              | inr tame ↦
                  rw (few, plain, unlisted, tame)
                    (
                      (λ e. absurd (
                          or_default-some _ _ (match_rules-domain (x ∷ (y ∷ labels)) (y ∷ labels))
                            e)),
                      λ e. let it : false ≡ true = sym tame ∙ test ∙ e in cc,
                    )
            ]
      ]
    ]

is_exception-labels : (s label : String) → split s ≡ label ∷ [] → is_exception s ≡ false
unfolding is_exception split
is_exception-labels s label e = elim (Bool-cases (s == "www.ck")) [
  | inr other ↦ ground (arith, eq_iff "www.ck" s, eq_iff s "www.ck")
  | inl same ↦
      let is : s ≡ "www.ck" = (eq_iff s "www.ck").0 same in
      let it : "www" ∷ "ck" ∷ [] ≡ label ∷ [] = subst (λ x. split x ≡ label ∷ []) is e in cc
]

agree :
    (s : String) (labels : List String)
    → split s ≡ labels
    → (domain_of_labels labels ≡ none) ↔ (is_suffix s ≡ true)
unfolding is_suffix
agree s [] e =
    ((λ k. let (p, ps, c) = split_cons s in let it : [] ≡ p ∷ ps = sym e ∙ c in cc), (λ k. refl))
agree s (x ∷ []) e = (
  (λ k. elim (Bool-cases (is_listed s)) [
    | inl listed ↦ rw (is_exception-labels s x e, listed) refl
    | inr unlisted ↦ rw (is_exception-labels s x e, unlisted, e) refl
  ]),
  λ k. refl,
)
agree s (x ∷ (y ∷ labels)) e =
    let good = subst (λ l. All IsLabel l) e (split-IsLabel s) in
    let whole : s ≡ join (x ∷ (y ∷ labels)) = sym (join-split s) ∙ ap join e in
    let suffix : is_suffix s ≡ suffix_of (x ∷ (y ∷ labels)) =
      ap is_suffix whole ∙ is_suffix-join x (y ∷ labels) good in
    let (there, back) = domain_of_labels-suffix x y labels in
    ((λ k. suffix ∙ there k), λ k. back (sym suffix ∙ k))

-- A host that is no IP address has no registrable domain exactly if it is a public suffix itself.
registrable_domain-none :
    (host : String)
    → normalize_host host ≢ ""
    → is_ip_address (normalize_host host) ≡ false
    → (registrable_domain host ≡ none) ↔ (is_public_suffix host ≡ true)
unfolding registrable_domain is_public_suffix
registrable_domain-none host there name =
    let blank : normalize_host host == "" ≡ false =
      ground (arith, eq_iff (normalize_host host) "") in
    rw (blank, name) (agree (normalize_host host) (split (normalize_host host)) refl)
