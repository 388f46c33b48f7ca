-- ===== src/Match/EquivalentDomains/Related.antt =====
-- The equivalent domains, by the groups alone.
use fire_sync.Prelude.{
  String, ◌≡◌, refl, sym, ◌∙◌, ◌⊎◌, inl, inr, true, none, some, List, [], ◌∷◌, ◌==◌, eq_iff,
  Bool-cases, Option-cases, flat_map, In, In-flat_map, In-append,
}
use fire_sync.Match.EquivalentDomains.{
  has, equivalent_domain_groups, group_in, group_of, equivalent_domains,
}

has-In : (set : List String) (x : String) → has set x ≡ true → In x set
has-In [] x e = cc
has-In (y ∷ set) x e = elim (Bool-cases (y == x)) [
  | inl same ↦ inl (sym ((eq_iff y x).0 same))
  | inr other ↦ inr (has-In set x (rw other at e))
]

group_in-In :
    (gs : List (List String)) (domain : String) (g : List String)
    → group_in gs domain ≡ some g
    → In g gs × In domain g
group_in-In [] domain g e = cc
group_in-In (h ∷ gs) domain g e = elim (Option-cases (group_in gs domain)) [
  | inr (later, found) ↦
      let it : some later ≡ some g = rw found at e in
      let is : later ≡ g = cc in
      let (one, two) = group_in-In gs domain g (found ∙ it) in (inr one, two)
  | inl unfound ↦ elim (Bool-cases (has h domain)) [
    | inl there ↦
        let it : some h ≡ some g = rw (unfound, there) at e in
        let is : g ≡ h = cc in rw is (inl refl, has-In h domain there)
    | inr absent ↦ let it : none ≡ some g = rw (unfound, absent) at e in cc
  ]
]

-- `x` is `domain` or an extra one, or shares a group with one of these.
abbrev pub Related : String → List String → String → Type 0
Related domain extra x =
    (known : String) × In known (domain ∷ extra)
    × ((x ≡ known) ⊎ ((g : List String) × In g equivalent_domain_groups × In known g × In x g))

group_of-In :
    (known x : String)
    → In x (group_of known)
    → (g : List String) × In g equivalent_domain_groups × In known g × In x g
unfolding group_of
group_of-In known x h = elim (Option-cases (group_in equivalent_domain_groups known)) [
  | inl none_such ↦ (let it : In x [] = rw none_such at h in elim it [ ])
  | inr (g, found) ↦
      let (one, two) = group_in-In equivalent_domain_groups known g found in
      (g, one, two, rw found at h)
]

-- A domain counts as equivalent only if it is the stored one or an extra one, or shares one of the
-- groups with one of these: the groups are never joined to larger ones.
pub equivalent_domains-Related :
    (domain : String) (extra : List String) (x : String)
    → has (equivalent_domains domain extra) x ≡ true
    → Related domain extra x
unfolding equivalent_domains
equivalent_domains-Related domain extra x e =
    elim (In-append x (domain ∷ extra) (flat_map group_of (domain ∷ extra))
      (has-In (equivalent_domains domain extra) x e)) [
        | inl here ↦ (x, here, inl refl)
        | inr h ↦
            let (known, at, there) = In-flat_map group_of x (domain ∷ extra) h in
            (known, at, inr (group_of-In known x there))
      ]
