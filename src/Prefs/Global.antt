-- ===== src/Prefs/Global.antt =====
-- The global preferences of src/prefs/types.ts, and `global` and `setGlobal` of src/prefs/store.ts.
-- What the area stores is passed along.
use fire_sync.Prelude.{ℕ, String, ◌≡◌, refl, Bool, true, false, Option, none, some, or_default}
use fire_sync.Match.Uri.{UriMatchStrategy, by_domain}
use fire_sync.Update.Checker.{UpdateMode, auto, Hours, rounds_to, UpdateSettings}

pub data InlineMenuMode : Type 0 where
  menu_on button_only menu_off : InlineMenuMode

pub data Theme : Type 0 where
  system light dark : Theme

pub record Engines : Type 0 where
  pub passwords_on : Bool
  pub addresses_on : Bool
  pub creditcards_on : Bool
  pub prefs_on : Bool

pub record GlobalPreferences : Type 0 where
  pub inline_menu : InlineMenuMode
  pub auto_fill_on_load : Bool
  pub save_prompt : Bool
  pub lock_timeout_minutes : ℕ
  pub lock_on_browser_close : Bool
  pub sync_interval_minutes : ℕ
  pub default_match_strategy : UriMatchStrategy
  pub engines : Engines
  pub sync_site_preferences : Bool
  pub updates : UpdateSettings
  pub theme : Theme

abbrev pub default_update_settings : UpdateSettings
default_update_settings = record {
  mode = auto;
  interval_hours = rounds_to 24;
  manifest_url = "https://dixonsolutions.github.io/FireSync/update.json";
}

abbrev pub default_global_preferences : GlobalPreferences
default_global_preferences = record {
  inline_menu = menu_on;
  auto_fill_on_load = false;
  save_prompt = true;
  lock_timeout_minutes = 15;
  lock_on_browser_close = true;
  sync_interval_minutes = 15;
  default_match_strategy = by_domain;
  engines = record {
    passwords_on = true;
    addresses_on = true;
    creditcards_on = false;
    prefs_on = true;
  };
  sync_site_preferences = true;
  updates = default_update_settings;
  theme = system;
}

-- The parts of `engines` and `updates` that are stored.
pub record StoredEngines : Type 0 where
  pub passwords_on : Option Bool
  pub addresses_on : Option Bool
  pub creditcards_on : Option Bool
  pub prefs_on : Option Bool

pub record StoredUpdates : Type 0 where
  pub mode : Option UpdateMode
  pub interval_hours : Option Hours
  pub manifest_url : Option String

-- `Partial<GlobalPreferences>` as an earlier version may have left it.
pub record StoredGlobal : Type 0 where
  pub inline_menu : Option InlineMenuMode
  pub auto_fill_on_load : Option Bool
  pub save_prompt : Option Bool
  pub lock_timeout_minutes : Option ℕ
  pub lock_on_browser_close : Option Bool
  pub sync_interval_minutes : Option ℕ
  pub default_match_strategy : Option UriMatchStrategy
  pub engines : Option StoredEngines
  pub sync_site_preferences : Option Bool
  pub updates : Option StoredUpdates
  pub theme : Option Theme

-- `Partial<GlobalPreferences>`, as a caller patches with.
pub record GlobalPatch : Type 0 where
  pub inline_menu : Option InlineMenuMode
  pub auto_fill_on_load : Option Bool
  pub save_prompt : Option Bool
  pub lock_timeout_minutes : Option ℕ
  pub lock_on_browser_close : Option Bool
  pub sync_interval_minutes : Option ℕ
  pub default_match_strategy : Option UriMatchStrategy
  pub engines : Option Engines
  pub sync_site_preferences : Option Bool
  pub updates : Option UpdateSettings
  pub theme : Option Theme

abbrev pub engines_of : Option StoredEngines → Engines
engines_of none = default_global_preferences.engines
engines_of (some stored) =
    let defaults = default_global_preferences.engines in
    record {
      passwords_on = or_default stored.passwords_on defaults.passwords_on;
      addresses_on = or_default stored.addresses_on defaults.addresses_on;
      creditcards_on = or_default stored.creditcards_on defaults.creditcards_on;
      prefs_on = or_default stored.prefs_on defaults.prefs_on;
    }

abbrev pub updates_of : Option StoredUpdates → UpdateSettings
updates_of none = default_update_settings
updates_of (some stored) = record {
  mode = or_default stored.mode default_update_settings.mode;
  interval_hours = or_default stored.interval_hours default_update_settings.interval_hours;
  manifest_url = or_default stored.manifest_url default_update_settings.manifest_url;
}

abbrev pub global_of : StoredGlobal → GlobalPreferences
global_of stored =
    let defaults = default_global_preferences in
    record {
      inline_menu = or_default stored.inline_menu defaults.inline_menu;
      auto_fill_on_load = or_default stored.auto_fill_on_load defaults.auto_fill_on_load;
      save_prompt = or_default stored.save_prompt defaults.save_prompt;
      lock_timeout_minutes = or_default stored.lock_timeout_minutes defaults.lock_timeout_minutes;
      lock_on_browser_close =
          or_default stored.lock_on_browser_close defaults.lock_on_browser_close;
      sync_interval_minutes =
          or_default stored.sync_interval_minutes defaults.sync_interval_minutes;
      default_match_strategy =
          or_default stored.default_match_strategy defaults.default_match_strategy;
      engines = engines_of stored.engines;
      sync_site_preferences =
          or_default stored.sync_site_preferences defaults.sync_site_preferences;
      updates = updates_of stored.updates;
      theme = or_default stored.theme defaults.theme;
    }

unfoldable pub global : Option StoredGlobal → GlobalPreferences
global none = default_global_preferences
global (some stored) = global_of stored

-- `{ ...(await this.global()), ...patch }`
abbrev pub patched_global : GlobalPreferences → GlobalPatch → GlobalPreferences
patched_global g patch = record {
  inline_menu = or_default patch.inline_menu g.inline_menu;
  auto_fill_on_load = or_default patch.auto_fill_on_load g.auto_fill_on_load;
  save_prompt = or_default patch.save_prompt g.save_prompt;
  lock_timeout_minutes = or_default patch.lock_timeout_minutes g.lock_timeout_minutes;
  lock_on_browser_close = or_default patch.lock_on_browser_close g.lock_on_browser_close;
  sync_interval_minutes = or_default patch.sync_interval_minutes g.sync_interval_minutes;
  default_match_strategy = or_default patch.default_match_strategy g.default_match_strategy;
  engines = or_default patch.engines g.engines;
  sync_site_preferences = or_default patch.sync_site_preferences g.sync_site_preferences;
  updates = or_default patch.updates g.updates;
  theme = or_default patch.theme g.theme;
}

-- The whole record, as it is stored.
abbrev pub stored_of : GlobalPreferences → StoredGlobal
stored_of g = record {
  inline_menu = some g.inline_menu;
  auto_fill_on_load = some g.auto_fill_on_load;
  save_prompt = some g.save_prompt;
  lock_timeout_minutes = some g.lock_timeout_minutes;
  lock_on_browser_close = some g.lock_on_browser_close;
  sync_interval_minutes = some g.sync_interval_minutes;
  default_match_strategy = some g.default_match_strategy;
  engines = some (record {
    passwords_on = some g.engines.passwords_on;
    addresses_on = some g.engines.addresses_on;
    creditcards_on = some g.engines.creditcards_on;
    prefs_on = some g.engines.prefs_on;
  });
  sync_site_preferences = some g.sync_site_preferences;
  updates = some (record {
    mode = some g.updates.mode;
    interval_hours = some g.updates.interval_hours;
    manifest_url = some g.updates.manifest_url;
  });
  theme = some g.theme;
}

-- The preferences returned, and what is stored.
unfoldable pub set_global :
    GlobalPatch → Option StoredGlobal → GlobalPreferences × Option StoredGlobal
set_global patch stored =
    let next = patched_global (global stored) patch in (next, some (stored_of next))

-- What `setGlobal` returns is what `global` reads from then on.
pub set_global-global :
    (patch : GlobalPatch) (stored : Option StoredGlobal)
    → global (set_global patch stored).1 ≡ (set_global patch stored).0
unfolding set_global global
set_global-global patch stored = refl
