-- ===== src/Examples/Update.antt =====
-- Concrete checks for updates, by src/update.
use fire_sync.Prelude.{
  ◌≡◌, refl, ◌⊎◌, ◌↔◌, true, false, none, some, List, [], ◌∷◌, ◌==◌, if◌then◌else◌, arith,
}
use fire_sync.Prelude.Text.{split}
use fire_sync.Url.{Url, UrlParser}
use fire_sync.Update.Version.{parse_component, parse_version, is_newer, compare_versions}
use fire_sync.Update.Version.Order.{Above, is_newer-Above}
use fire_sync.Update.Checker.{
  UpdateSettings, UpdateState, Host, auto, off, rounds_to, state, check, checked, fetch_manifest,
  is_due,
}
use fire_sync.Update.Checker.Manifest.{
  UpdateManifest, RawManifest, object, text, absent, normalise_manifest,
}
use fire_sync.Update.Checker.Rules.{MayFetch, check-MayFetch, check-rests}
use fire_sync.Update.Checker.Notices.{
  Call, check_call, dismiss_call, reset_call, after_all, IsHonest, after_all-IsHonest,
}

is_newer-Above_example : (is_newer "1.10" "1.9.0.0" ≡ true) ↔ Above "1.10" "1.9.0.0"
is_newer-Above_example = is_newer-Above "1.10" "1.9.0.0"

newer_by_number : is_newer "1.10" "1.9.0.0" ≡ true
unfolding is_newer compare_versions parse_version parse_component split
newer_by_number = refl

trailing_zeros : is_newer "1.2.0.0" "1.2" ≡ false
unfolding is_newer compare_versions parse_version parse_component split
trailing_zeros = refl

abbrev feed : Url
feed = record {
  href = "https://feed.org/update.json";
  protocol = "https:";
  hostname = "feed.org";
  origin = "https://feed.org";
  pathname = "/update.json";
  search = "";
  hash = "";
}

abbrev one_feed : UrlParser
one_feed url = if url == "https://feed.org/update.json" then some feed else none

abbrev settings : UpdateSettings
settings = record {
  mode = auto;
  interval_hours = rounds_to 24;
  manifest_url = "https://feed.org/update.json";
}

abbrev raw : RawManifest
raw = record {
  version = text "1.10";
  crx = absent;
  zip = absent;
  release_url = absent;
  released_at = absent;
  minimum_chrome_version = absent;
  critical = absent;
  notes = none;
}

abbrev serving : Host
serving url =
    some (record { status_ok = true; status = 200; text_length = 20; parsed = some (object raw) })

abbrev release : UpdateManifest
release = record {
  version = "1.10";
  released_at = none;
  notes = none;
  crx = none;
  zip = none;
  release_url = none;
  minimum_chrome_version = none;
  critical = false;
}

abbrev after_check : UpdateState
after_check = record {
  last_checked_at = some 1_100;
  last_error = none;
  available = some release;
  dismissed_version = none;
}

first_check :
    check one_feed "1.9" settings serving 1_000 1_100 false none
    ≡ (some after_check, after_check, "https://feed.org/update.json" ∷ [])
unfolding check checked is_due fetch_manifest normalise_manifest is_newer compare_versions
    parse_version parse_component split
first_check = refl

check-MayFetch_example :
    (((check one_feed "1.9" settings serving 1_000 1_100 false none).2 ≡ [])
      ⊎ (((check one_feed "1.9" settings serving 1_000 1_100 false none).2
            ≡ settings.manifest_url ∷ [])
          × MayFetch one_feed settings 1_000 false none))
    × (settings.mode ≡ off
        → check one_feed "1.9" settings serving 1_000 1_100 false none ≡ (none, state none, []))
check-MayFetch_example = check-MayFetch one_feed "1.9" settings serving 1_000 1_100 false none

check-rests_example :
    check one_feed "1.9" settings serving 3_601_099 3_601_200 false (some after_check)
    ≡ (some after_check, after_check, [])
check-rests_example =
    check-rests one_feed "1.9" settings settings serving serving 1_000 1_100 3_601_099 3_601_200
      false none (some after_check) after_check ("https://feed.org/update.json" ∷ []) first_check
      (λ e. cc) (omega arith)

abbrev calls : List Call
calls =
    check_call settings serving 1_000 1_100 true
    ∷ dismiss_call "1.10"
    ∷ reset_call
    ∷ check_call settings serving 2_000 2_100 true
    ∷ []

after_all-IsHonest_example : IsHonest one_feed "1.9" (after_all one_feed "1.9" calls none)
after_all-IsHonest_example = after_all-IsHonest one_feed "1.9" calls
