-- ===== src/Prefs/Merge.antt =====
-- What a merge of synced preferences keeps.
use fire_sync.Prelude.{
  String, ◌≡◌, refl, sym, ◌∙◌, ap, inl, inr, Bool, true, false, Option, none, some, [], ◌∷◌, ◌==◌,
  arith, leb, if◌then◌else◌, eq_iff, Bool-cases, leb→le,
}
use fire_sync.Prelude.Dict
use fire_sync.Prelude.Dict.{Dict, get-put, get-nil}
use fire_sync.Prelude.Dict.Entries.{NoDup}
use fire_sync.Prefs.{SitePreferences, Sites, PrefsRecord, local_is_newer, merge_sites, merge_prefs}

-- The version of a site that was set last, the first one of two of the same time.
abbrev pub newest : Option SitePreferences → Option SitePreferences → Option SitePreferences
newest none b = b
newest (some a) none = some a
newest (some a) (some b) = if leb b.updated_at a.updated_at then some a else some b

abbrev kept :
    Option SitePreferences
    → Option SitePreferences
    → Option SitePreferences
    → Option SitePreferences
kept none remote merged = merged
kept (some a) remote merged = if local_is_newer a remote then some a else merged

get-merged :
    (origin k : String) (site : SitePreferences) (test : Bool) (merged : Sites)
    → Dict.get k (if test then Dict.put origin site merged else merged)
      ≡ (if test then (if origin == k then some site else Dict.get k merged) else Dict.get k merged)
get-merged origin k site true merged = get-put origin k site merged
get-merged origin k site false merged = refl

same_branches : (b : Bool) (o : Option SitePreferences) → (if b then o else o) ≡ o
same_branches true o = refl
same_branches false o = refl

merge_sites-get :
    (local remote merged : Sites) (k : String)
    → NoDup local
    → Dict.get k (merge_sites local remote merged)
      ≡ kept (Dict.get k local) (Dict.get k remote) (Dict.get k merged)
unfolding merge_sites Dict.get
merge_sites-get [] remote merged k h = refl
merge_sites-get ((origin, site) ∷ local) remote merged k (fresh, h) =
    let merged' =
      if local_is_newer site (Dict.get origin remote)
      then Dict.put origin site merged
      else merged in
    let later = merge_sites-get local remote merged' k h in
    let step = get-merged origin k site (local_is_newer site (Dict.get origin remote)) merged in
    elim (Bool-cases (origin == k)) [
      | inl same ↦
          let is : origin ≡ k = (eq_iff origin k).0 same in
          let gone : Dict.get k local ≡ none = ap (λ i. Dict.get i local) (sym is) ∙ fresh in
          rw same (
            later
            ∙ ap (λ o. kept o (Dict.get k remote) (Dict.get k merged')) gone
            ∙ step
            ∙ rw same (
                ap
                  (λ i.
                    if local_is_newer site (Dict.get i remote)
                    then some site
                    else Dict.get k merged)
                  is))
      | inr other ↦ rw other (
          later
          ∙ ap (λ o. kept (Dict.get k local) (Dict.get k remote) o)
              (step
                ∙ rw other (
                    same_branches (local_is_newer site (Dict.get origin remote))
                      (Dict.get k merged))))
    ]

kept-newest : (a b : Option SitePreferences) → kept a b b ≡ newest a b
kept-newest none b = refl
kept-newest (some a) none = refl
kept-newest (some a) (some b) = refl

newest_comm :
    (a b : Option SitePreferences)
    → ((x y : SitePreferences) → a ≡ some x → b ≡ some y → x.updated_at ≡ y.updated_at → x ≡ y)
    → newest a b ≡ newest b a
newest_comm none none one = refl
newest_comm none (some b) one = refl
newest_comm (some a) none one = refl
newest_comm (some a) (some b) one = elim (Bool-cases (leb b.updated_at a.updated_at)) [
  | inl later ↦ elim (Bool-cases (leb a.updated_at b.updated_at)) [
    | inl earlier ↦
        rw (later, earlier)
          (ap some (
            one a b refl refl (
              omega (
                arith,
                leb→le b.updated_at a.updated_at later,
                leb→le a.updated_at b.updated_at earlier,
              ))))
    | inr not_earlier ↦ rw (later, not_earlier) refl
  ]
  | inr sooner ↦
      let earlier : leb a.updated_at b.updated_at ≡ true = ground arith in rw (sooner, earlier) refl
]

-- A merge keeps for each site the whole version that was set last, the local one of two of the same time,
-- and merges nothing of the other into it.
-- No site stands twice in a record.
pub merge_prefs-newest :
    (local remote : PrefsRecord) (k : String)
    → NoDup local.sites
    → Dict.get k (merge_prefs local remote).sites
      ≡ newest (Dict.get k local.sites) (Dict.get k remote.sites)
unfolding merge_prefs
merge_prefs-newest local remote k once =
    merge_sites-get local.sites remote.sites remote.sites k once
    ∙ kept-newest (Dict.get k local.sites) (Dict.get k remote.sites)

-- Two devices that merge each other's record end with the same settings of a site, if two versions of
-- it that were set at the same time are the same. No site stands twice in a record.
merge_prefs-converges :
    (local remote : PrefsRecord) (k : String)
    → NoDup local.sites
    → NoDup remote.sites
    → ((x y : SitePreferences)
        → Dict.get k local.sites ≡ some x
        → Dict.get k remote.sites ≡ some y
        → x.updated_at ≡ y.updated_at
        → x ≡ y)
    → Dict.get k (merge_prefs local remote).sites ≡ Dict.get k (merge_prefs remote local).sites
merge_prefs-converges local remote k hl hr one =
    merge_prefs-newest local remote k hl
    ∙ newest_comm (Dict.get k local.sites) (Dict.get k remote.sites) one
    ∙ sym (merge_prefs-newest remote local k hr)
