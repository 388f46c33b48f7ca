-- ===== src/Prefs.antt =====
-- src/prefs/store.ts and types.ts, and the synced record of src/sync15/engines/prefs.ts. What the area
-- stores is passed along. A field that a patch sets to `undefined` counts as not set.
pub mod Global
pub mod Merge
pub mod Sites
use fire_sync.Prelude.{
  ℕ, zero, max, String, Bool, true, false, Option, none, some, List, [], ◌∷◌, leb, if◌then◌else◌,
  or_default,
}
use fire_sync.Prelude.Dict
use fire_sync.Prelude.Dict.{Dict}
use fire_sync.Prelude.Result.{Result, ok, err}
use fire_sync.Url.{UrlParser}
use fire_sync.Match.Uri.{UriMatchStrategy, origin_for_storage}
use fire_sync.Prefs.Global.{InlineMenuMode, StoredGlobal, global}

pub record SitePreferences : Type 0 where
  pub origin : String
  pub never_save : Option Bool
  pub default_credential_id : Option String
  pub auto_fill_on_load : Option Bool
  pub inline_menu : Option InlineMenuMode
  pub match_strategy : Option UriMatchStrategy
  pub equivalent_domains : Option (List String)
  pub updated_at : ℕ

-- A `Partial<SitePreferences>`; the call sets `origin` and `updatedAt` itself.
pub record SitePatch : Type 0 where
  pub never_save : Option Bool
  pub default_credential_id : Option String
  pub auto_fill_on_load : Option Bool
  pub inline_menu : Option InlineMenuMode
  pub match_strategy : Option UriMatchStrategy
  pub equivalent_domains : Option (List String)

abbrev pub no_patch : SitePatch
no_patch = record {
  never_save = none;
  default_credential_id = none;
  auto_fill_on_load = none;
  inline_menu = none;
  match_strategy = none;
  equivalent_domains = none;
}

abbrev pub Sites : Type 0
Sites = Dict SitePreferences

pub data PrefsError : Type 0 where
  cannot_store_preferences : String → PrefsError

abbrev pub or_else {ℓ} : {A : Type ℓ} → Option A → Option A → Option A
or_else none b = b
or_else (some a) b = some a

abbrev pub site_at : String → Option SitePreferences → SitePreferences
site_at origin (some site) = site
site_at origin none = record {
  origin = origin;
  never_save = none;
  default_credential_id = none;
  auto_fill_on_load = none;
  inline_menu = none;
  match_strategy = none;
  equivalent_domains = none;
  updated_at = 0;
}

-- `{ ...(sites[origin] ?? { origin }), ...patch, origin, updatedAt }`
abbrev pub patched_site : SitePreferences → SitePatch → String → ℕ → SitePreferences
patched_site site patch origin now = record {
  origin = origin;
  never_save = or_else patch.never_save site.never_save;
  default_credential_id = or_else patch.default_credential_id site.default_credential_id;
  auto_fill_on_load = or_else patch.auto_fill_on_load site.auto_fill_on_load;
  inline_menu = or_else patch.inline_menu site.inline_menu;
  match_strategy = or_else patch.match_strategy site.match_strategy;
  equivalent_domains = or_else patch.equivalent_domains site.equivalent_domains;
  updated_at = now;
}

abbrev pub site_in : Option String → Sites → Option SitePreferences
site_in none sites = none
site_in (some origin) sites = Dict.get origin sites

abbrev pub set_in :
    String → Option String → SitePatch → ℕ → Sites → Result PrefsError (SitePreferences × Sites)
set_in page_url none patch now sites = err (cannot_store_preferences page_url)
set_in page_url (some origin) patch now sites =
    let next = patched_site (site_at origin (Dict.get origin sites)) patch origin now in
    ok (next, Dict.put origin next sites)

abbrev pub clear_in : Option String → Sites → Sites
clear_in none sites = sites
clear_in (some origin) sites = Dict.remove origin sites

-- `site?.neverSave`
abbrev pub never_saves : Option SitePreferences → Bool
never_saves none = false
never_saves (some site) = or_default site.never_save false

abbrev pub site_inline_menu : Option SitePreferences → Option InlineMenuMode
site_inline_menu none = none
site_inline_menu (some site) = site.inline_menu

abbrev pub site_match_strategy : Option SitePreferences → Option UriMatchStrategy
site_match_strategy none = none
site_match_strategy (some site) = site.match_strategy

abbrev pub site_auto_fill : Option SitePreferences → Option Bool
site_auto_fill none = none
site_auto_fill (some site) = site.auto_fill_on_load

module _ (parse_url : UrlParser) where
  unfoldable pub for_url : String → Sites → Option SitePreferences
  for_url page_url sites = site_in (origin_for_storage parse_url page_url) sites

  unfoldable pub set_for_url :
      String → SitePatch → ℕ → Sites → Result PrefsError (SitePreferences × Sites)
  set_for_url page_url patch now sites =
      set_in page_url (origin_for_storage parse_url page_url) patch now sites

  unfoldable pub clear_for_url : String → Sites → Sites
  clear_for_url page_url sites = clear_in (origin_for_storage parse_url page_url) sites

  unfoldable pub save_prompt_enabled : String → Option StoredGlobal → Sites → Bool
  save_prompt_enabled page_url stored sites =
      if never_saves (for_url page_url sites) then false else (global stored).save_prompt

  unfoldable pub inline_menu_mode : String → Option StoredGlobal → Sites → InlineMenuMode
  inline_menu_mode page_url stored sites =
      or_default (site_inline_menu (for_url page_url sites)) (global stored).inline_menu

  unfoldable pub match_strategy : String → Option StoredGlobal → Sites → UriMatchStrategy
  match_strategy page_url stored sites =
      or_default (site_match_strategy (for_url page_url sites))
        (global stored).default_match_strategy

  unfoldable pub auto_fill_enabled : String → Option StoredGlobal → Sites → Bool
  auto_fill_enabled page_url stored sites =
      or_default (site_auto_fill (for_url page_url sites)) (global stored).auto_fill_on_load

  unfoldable pub never_save_for : String → ℕ → Sites → Result PrefsError (SitePreferences × Sites)
  never_save_for page_url now sites =
      set_for_url page_url (record no_patch { never_save = some true }) now sites

pub record PrefsRecord : Type 0 where
  pub id : String
  pub version : ℕ
  pub updated_at : ℕ
  pub sites : Sites

-- `!remoteSite || localSite.updatedAt >= remoteSite.updatedAt`
abbrev pub local_is_newer : SitePreferences → Option SitePreferences → Bool
local_is_newer local none = true
local_is_newer local (some remote) = leb remote.updated_at local.updated_at

unfoldable pub merge_sites : Sites → Sites → Sites → Sites
merge_sites [] remote merged = merged
merge_sites ((origin, site) ∷ local) remote merged =
    merge_sites local remote
      (if local_is_newer site (Dict.get origin remote) then Dict.put origin site merged else merged)

unfoldable pub merge_prefs : PrefsRecord → PrefsRecord → PrefsRecord
merge_prefs local remote = record {
  id = "site-preferences";
  version = 1;
  updated_at = max local.updated_at remote.updated_at;
  sites = merge_sites local.sites remote.sites remote.sites;
}
