-- ===== src/Examples/Prefs.antt =====
-- Concrete settings, by src/prefs/store.ts, and logins found for a page, by src/vault/store.ts.
use mathlib.Core.Logic.{◌⊎◌}
use native.Mathlib.Omega.{arith}
use fire_sync.Prelude.{
  ap, ℕ, String, ◌≡◌, refl, ◌↔◌, ◌≢◌, Bool, true, false, none, some, [], ◌∷◌, ◌==◌, if◌then◌else◌,
  In,
}
use fire_sync.Prelude.Dict
use fire_sync.Url.{Url, UrlParser}
use fire_sync.Sync.Passwords.{PasswordRecord}
use fire_sync.Match.Psl.{normalize_host}
use fire_sync.Match.Uri.{
  MatchContext, RegExpEngine, origin_matches, origin_for_storage, parse_target,
}
use fire_sync.Sync.Reconcile.{LocalRecord}
use fire_sync.Vault.Contents.{VaultContents, empty_vault_contents, put_password, list_passwords}
use fire_sync.Vault.Contents.Find.{
  PasswordMatch, IsRanked, find_passwords_for_url, match_of, find_passwords_for_url-IsRanked,
}
use fire_sync.Prefs.{
  SitePreferences, no_patch, PrefsRecord, for_url, set_for_url, merge_prefs, site_at,
}
use fire_sync.Prefs.Merge.{newest, merge_prefs-newest}
use fire_sync.Prefs.Sites.{set_for_url-for_url}

abbrev bank : Url
bank = record {
  href = "https://bank.com/";
  protocol = "https:";
  hostname = "bank.com";
  origin = "https://bank.com";
  pathname = "/";
  search = "";
  hash = "";
}

abbrev one_site : UrlParser
one_site url = if url == "https://bank.com/" then some bank else none

abbrev no_regexp : RegExpEngine
no_regexp pattern = none

abbrev context : MatchContext
context = record { strategy = none; extra_equivalent_domains = none; pattern = none }

abbrev alphabetical : String → String → Bool
alphabetical a b = true

abbrev login_of : String → String → PasswordRecord
login_of id username = record {
  id = id;
  hostname = "https://bank.com/";
  form_submit_url = none;
  http_realm = none;
  username = username;
  password = "secret";
  username_field = none;
  password_field = none;
  time_created = none;
  time_password_changed = none;
  time_last_used = none;
  times_used = none;
}

abbrev stored_of : String → String → LocalRecord PasswordRecord
stored_of id username = record {
  id = id;
  content = some (login_of id username);
  deleted = false;
  authority_time = 5;
  synced_at = none;
  dirty = false;
}

abbrev two_logins : VaultContents
two_logins =
    put_password "{1}" (stored_of "{1}" "ada")
      (put_password "{2}" (stored_of "{2}" "bob") empty_vault_contents)

find_passwords_for_url-IsRanked_example :
    IsRanked alphabetical (
      find_passwords_for_url one_site no_regexp alphabetical "https://bank.com/" context two_logins)
    × ((m : PasswordMatch)
        → In m (
            find_passwords_for_url one_site no_regexp alphabetical "https://bank.com/" context
              two_logins)
          ↔ ((login : PasswordRecord) × In login (list_passwords two_logins)
              × (origin_matches one_site no_regexp login.hostname "https://bank.com/" context
                  ≡ true)
              × (m ≡ match_of one_site "https://bank.com/" login)))
find_passwords_for_url-IsRanked_example =
    find_passwords_for_url-IsRanked one_site no_regexp alphabetical "https://bank.com/" context
      two_logins

abbrev site_of : ℕ → SitePreferences
site_of now = record (site_at "https://bank.com" none) { never_save = some true; updated_at = now }

abbrev prefs_of : ℕ → PrefsRecord
prefs_of now = record {
  id = "site-preferences";
  version = 1;
  updated_at = now;
  sites = ("https://bank.com", site_of now) ∷ [];
}

merge_prefs-newest_example :
    Dict.get "https://bank.com" (merge_prefs (prefs_of 5) (prefs_of 9)).sites
    ≡ newest
        (Dict.get "https://bank.com" (prefs_of 5).sites)
        (Dict.get "https://bank.com" (prefs_of 9).sites)
unfolding Dict.get
merge_prefs-newest_example =
    merge_prefs-newest (prefs_of 5) (prefs_of 9) "https://bank.com" (refl, tt)

differing :
    (x y : SitePreferences)
    → Dict.get "https://bank.com" (prefs_of 5).sites ≡ some x
    → Dict.get "https://bank.com" (prefs_of 9).sites ≡ some y
    → x.updated_at ≡ y.updated_at
    → x ≡ y
unfolding Dict.get
differing x y ex ey same =
    let own : site_of 5 ≡ x = cc in
    let other : site_of 9 ≡ y = cc in
    let five : 5 ≡ x.updated_at = ap (λ s. s.updated_at) own in
    let nine : 9 ≡ y.updated_at = ap (λ s. s.updated_at) other in absurd (omega arith)

set_for_url-for_url_example :
    ((site_of 7).updated_at ≡ 7)
    × (((origin_for_storage one_site "x" ≡ origin_for_storage one_site "https://bank.com/")
          × (for_url one_site "x" (prefs_of 7).sites ≡ some (site_of 7)))
        ⊎ ((origin_for_storage one_site "x" ≢ origin_for_storage one_site "https://bank.com/")
            × (for_url one_site "x" (prefs_of 7).sites ≡ for_url one_site "x" [])))
unfolding set_for_url origin_for_storage parse_target normalize_host Dict.get Dict.put
set_for_url-for_url_example =
    set_for_url-for_url one_site "https://bank.com/" (record no_patch { never_save = some true }) 7
      [] (site_of 7) (prefs_of 7).sites "x" refl
