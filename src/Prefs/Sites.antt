-- ===== src/Prefs/Sites.antt =====
-- The settings of a site, as they are set and asked for.
use fire_sync.Prelude.{
  ℕ, String, ◌≡◌, refl, sym, ◌∙◌, ap, ◌≢◌, true, false, Option, none, some, eq_refl, eq_iff, ◌==◌,
  Bool-cases,
}
use mathlib.Core.Logic.{◌⊎◌, inl, inr}
use native.Mathlib.Omega.{arith}
use fire_sync.Prelude.Dict
use fire_sync.Prelude.Dict.{get-put, eq_of_ne}
use fire_sync.Prelude.Result.{Result, ok}
use fire_sync.Url.{UrlParser}
use fire_sync.Match.Uri.{origin_for_storage}
use fire_sync.Prefs.{
  SitePreferences, SitePatch, Sites, StoredGlobal, PrefsError, for_url, set_for_url, set_in,
  site_in, site_at, no_patch, patched_site, save_prompt_enabled, never_save_for,
}

set_in-ok :
    (page_url : String) (o : Option String) (patch : SitePatch) (now : ℕ) (sites : Sites)
    (next : SitePreferences) (sites' : Sites)
    → set_in page_url o patch now sites ≡ ok (next, sites')
    → (origin : String) × (o ≡ some origin)
      × (next ≡ patched_site (site_at origin (Dict.get origin sites)) patch origin now)
      × (sites' ≡ Dict.put origin next sites)
set_in-ok page_url none patch now sites next sites' e = cc
set_in-ok page_url (some origin) patch now sites next sites' e =
    let made = patched_site (site_at origin (Dict.get origin sites)) patch origin now in
    let it : Path (Result PrefsError (SitePreferences × Sites))
        (ok (made, Dict.put origin made sites)) (ok (next, sites')) =
      e in
    let is : Path (SitePreferences × Sites) (made, Dict.put origin made sites) (next, sites') =
      cc in
    (
      origin,
      refl,
      sym (ap (λ x. x.0) is),
      sym (ap (λ x. x.1) is) ∙ ap (λ m. Dict.put origin m sites) (ap (λ x. x.0) is),
    )

get-put_self :
    (origin : String) (next : SitePreferences) (sites : Sites)
    → Dict.get origin (Dict.put origin next sites) ≡ some next
get-put_self origin next sites = get-put origin origin next sites ∙ rw (eq_refl origin) refl

site_in-put :
    (origin : String) (o : Option String) (next : SitePreferences) (sites : Sites)
    → o ≢ some origin
    → site_in o (Dict.put origin next sites) ≡ site_in o sites
site_in-put origin none next sites other = refl
site_in-put origin (some p) next sites other =
    get-put origin p next sites ∙ rw (eq_of_ne origin p (λ e. other (ap some (sym e)))) refl

same_or_not : (a b : Option String) → (a ≡ b) ⊎ (a ≢ b)
same_or_not none none = inl refl
same_or_not none (some b) = inr (λ e. cc)
same_or_not (some a) none = inr (λ e. cc)
same_or_not (some a) (some b) = elim (Bool-cases (a == b)) [
  | inl same ↦ inl (ap some (ground (arith, eq_iff a b)))
  | inr other ↦ inr (λ e. let is : a ≡ b = cc in ground (arith, eq_iff a b))
]

module _ (parse_url : UrlParser) where
  set_for_url-pages :
      (page_url : String) (patch : SitePatch) (now : ℕ) (sites : Sites) (next : SitePreferences)
      (sites' : Sites)
      → set_for_url parse_url page_url patch now sites ≡ ok (next, sites')
      → (next.updated_at ≡ now)
        × ((other : String)
            → origin_for_storage parse_url other ≡ origin_for_storage parse_url page_url
            → for_url parse_url other sites' ≡ some next)
        × ((other : String)
            → origin_for_storage parse_url other ≢ origin_for_storage parse_url page_url
            → for_url parse_url other sites' ≡ for_url parse_url other sites)
  unfolding set_for_url for_url
  set_for_url-pages page_url patch now sites next sites' e =
      let (origin, at, made, stored) =
        set_in-ok page_url (origin_for_storage parse_url page_url) patch now sites next sites' e in
      (
        ap (λ s. s.updated_at) made,
        (λ other same.
            ap (λ o. site_in o sites') (same ∙ at)
            ∙ ap (Dict.get origin) stored
            ∙ get-put_self origin next sites),
        λ other differs. rw stored (
            site_in-put origin (origin_for_storage parse_url other) next sites
              (λ k. differs (k ∙ sym at))),
      )

  -- Settings that are stored for a page carry the time they were set at. They are the settings of
  -- every page of the same origin, and a page of another origin, or of none, keeps what it has.
  pub set_for_url-for_url :
      (page_url : String) (patch : SitePatch) (now : ℕ) (sites : Sites) (next : SitePreferences)
      (sites' : Sites) (other : String)
      → set_for_url parse_url page_url patch now sites ≡ ok (next, sites')
      → (next.updated_at ≡ now)
        × (((origin_for_storage parse_url other ≡ origin_for_storage parse_url page_url)
              × (for_url parse_url other sites' ≡ some next))
            ⊎ ((origin_for_storage parse_url other ≢ origin_for_storage parse_url page_url)
                × (for_url parse_url other sites' ≡ for_url parse_url other sites)))
  set_for_url-for_url page_url patch now sites next sites' other e =
      let (time, found, kept) = set_for_url-pages page_url patch now sites next sites' e in
      (
        time,
        elim (same_or_not (origin_for_storage parse_url other)
            (origin_for_storage parse_url page_url)) [
              | inl same ↦ inl (same, found other same)
              | inr differs ↦ inr (differs, kept other differs)
            ],
      )

  -- After "never for this site" no page of that origin is asked about saving, whatever the global
  -- settings are.
  never_save_for-save_prompt :
      (page_url : String) (now : ℕ) (sites : Sites) (next : SitePreferences) (sites' : Sites)
      (stored : Option StoredGlobal) (other : String)
      → never_save_for parse_url page_url now sites ≡ ok (next, sites')
      → origin_for_storage parse_url other ≡ origin_for_storage parse_url page_url
      → save_prompt_enabled parse_url other stored sites' ≡ false
  unfolding never_save_for save_prompt_enabled set_for_url
  never_save_for-save_prompt page_url now sites next sites' stored other e same =
      let patch = record no_patch { never_save = some true } in
      let (_, found, _) = set_for_url-pages page_url patch now sites next sites' e in
      let (origin, _, made, _) =
        set_in-ok page_url (origin_for_storage parse_url page_url) patch now sites next sites' e in
      rw (found other same) (rw (ap (λ s. s.never_save) made) refl)
