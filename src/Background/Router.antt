-- ===== src/Background/Router.antt =====
-- src/background/router.ts: the handlers of the messages, and the alarms. Not the messages of the
-- sign-in, the sync and the native bridge, which it passes on. The vault, the preferences and the
-- update state are passed along; the platform and what a call draws anew are parameters.
pub mod Relayed
pub mod Handle
pub mod Sender
pub mod Quiet
pub mod Reveal
pub mod Locked
pub mod Offered
use text.Mathlib.Text.{starts_with}
use fire_sync.Prelude.{
  ℕ, ◌+◌, ◌*◌, String, Bool, true, false, not, ◌&&◌, Option, none, some, List, ◌∷◌, ltb, is_some,
  ◌==◌, if◌then◌else◌,
}
use fire_sync.Prelude.Result.{Result, ok, err}
use fire_sync.Url.{UrlParser}
use fire_sync.Match.Uri.{RegExpEngine}
use fire_sync.Sync.Session.{AccountTokens, SyncResult}
use fire_sync.Account.Connect.{Call, ConnectStep}
use fire_sync.Sync.Passwords.{PasswordRecord}
use fire_sync.Vault.Crypto.{VaultError, vault_locked}
use fire_sync.Vault.State.{VaultProtection, device, passphrase, Store, Op}
use fire_sync.Vault.Store.{protection}
use fire_sync.Prefs.{Sites, SitePreferences, PrefsError}
use fire_sync.Prefs.Global.{StoredGlobal, GlobalPreferences, global}
use fire_sync.Update.Checker.{UpdateState, auto, clamp_interval, Host, state, should_notify}
use fire_sync.Background.Messages.{
  MessageSender, CredentialSummary, VaultStatus, UpdateReport, Broadcast,
}

pub data RouterError : Type 0 where
  vault_failed : VaultError → RouterError
  prefs_failed : PrefsError → RouterError
  service_failed : String → RouterError
  no_sign_in : RouterError

-- The alarms that are set, each with its period or delay in minutes.
pub record Alarms : Type 0 where
  pub sync_alarm : Option ℕ
  pub auto_lock_alarm : Option ℕ
  pub update_alarm : Option (ℕ × ℕ)

-- The state behind the router. `sync_queued` is a pending `queueSync`; the broadcasts stand last first;
-- `connecting` is whether there is a `connectSession`.
pub record World (Key Text : Type 0) : Type 0 where
  pub store : Store Key Text
  pub sites : Sites
  pub stored_global : Option StoredGlobal
  pub update_state : Option UpdateState
  pub alarms : Alarms
  pub sync_queued : Bool
  pub broadcasts : List Broadcast
  pub connecting : Bool

abbrev pub Act : Type 0 → Type 0 → Type 0 → Type 0
Act Key Text A = World Key Text → Result RouterError A × World Key Text

-- What the sign-in coordinator and the bridge are asked.
pub data SignInCall : Type 0 where
  sign_in_progress sign_in_diagnostics sign_in_cancel : SignInCall
  sign_in_begin : Option String → SignInCall
  sign_in_navigated : Option ℕ → String → SignInCall

pub data BridgeCall : Type 0 where
  call_status : BridgeCall
  call_import : String → Option String → BridgeCall

-- The parts that the router passes messages on to: Background/SignIn, Account/Connect, the probe,
-- Sync/Session, and Bridge/Client with Background/Import. Each may change the state, or fail.
pub record Services (Key Text : Type 0) : Type 0 where
  pub sign_in : SignInCall → Act Key Text String
  pub connect : Call → Act Key Text (Option ConnectStep)
  pub auth_check : Act Key Text String
  pub sync : Act Key Text SyncResult
  pub bridge : BridgeCall → Act Key Text String

-- The parser of URLs, regular expressions, the order of names, and the update host with the version
-- that runs.
pub record Platform (Key Text : Type 0) : Type 0 where
  pub parse_url : UrlParser
  pub regexp : RegExpEngine
  pub comes_first : String → String → Bool
  pub update_host : Host
  pub current_version : String
  pub managed_by_browser : Bool
  pub services : Services Key Text

-- `sender.tab && sender.url`, then an extension page, then the rest.
abbrev pub url_by : Bool → Option String → String → String
url_by in_tab none claimed = claimed
url_by in_tab (some url) claimed =
    if in_tab && not (url == "")
    then url
    else if starts_with url "chrome-extension://"
    then claimed
    else url

unfoldable pub sender_url : MessageSender → String → String
sender_url sender claimed = url_by (is_some sender.tab) sender.url claimed

abbrev pub summarize : PasswordRecord → CredentialSummary
summarize r = record { id = r.id; username = r.username; origin = r.hostname; password = none }

abbrev pub locked_status : Bool → VaultProtection → VaultStatus
locked_status there p = record {
  initialized = there;
  is_unlocked = false;
  protection = p;
  connected = false;
  email = none;
  counts = none;
  last_sync_at = none;
  last_sync_error = none;
}

abbrev pub email_of : Option AccountTokens → Option String
email_of none = none
email_of (some t) = some t.email

-- `fail(error, error instanceof VaultLockedError ? 'locked' : undefined)`
abbrev pub is_locked_error : RouterError → Bool
is_locked_error (vault_failed vault_locked) = true
is_locked_error _ = false

abbrev pub sync_period : ℕ → Option ℕ
sync_period minutes = if ltb 0 minutes then some minutes else none

abbrev pub lock_delay : VaultProtection → ℕ → Option ℕ
lock_delay device minutes = none
lock_delay passphrase minutes = if ltb 0 minutes then some minutes else none

-- The period of the update checks and the delay of the first, by a random number below 10.
abbrev pub update_times : GlobalPreferences → ℕ → Option (ℕ × ℕ)
update_times g random = elim g.updates.mode [
  | auto ↦ some (clamp_interval g.updates.interval_hours * 60, 3 + random)
  | _ ↦ none
]

module _ {Key Text : Type 0} where
  abbrev pub bound :
      {A B : Type 0}
      → Result RouterError A × World Key Text
      → (A → Act Key Text B)
      → Result RouterError B × World Key Text
  bound (err e, w) f = (err e, w)
  bound (ok a, w) f = f a w

  infixl 5 ◌>>=◌ ◌>>◌
  abbrev pub ◌>>=◌ : {A B : Type 0} → Act Key Text A → (A → Act Key Text B) → Act Key Text B
  ◌>>=◌ m f w = bound (m w) f

  abbrev pub ◌>>◌ : {B : Type 0} → Act Key Text (Unit {0}) → Act Key Text B → Act Key Text B
  ◌>>◌ m f w = bound (m w) (λ _. f)

  abbrev pub reply : {A : Type 0} → A → Act Key Text A
  reply a w = (ok a, w)

  abbrev pub asks : {A : Type 0} → (World Key Text → A) → Act Key Text A
  asks f w = (ok (f w), w)

  abbrev pub change : (World Key Text → World Key Text) → Act Key Text (Unit {0})
  change f w = (ok tt, f w)

  abbrev pub vault_result :
      {A : Type 0}
      → World Key Text
      → Result VaultError A × Store Key Text
      → Result RouterError A × World Key Text
  vault_result w (err e, s) = (err (vault_failed e), record w { store = s })
  vault_result w (ok a, s) = (ok a, record w { store = s })

  -- A call of the vault.
  abbrev pub on_vault : {A : Type 0} → Op Key Text A → Act Key Text A
  on_vault m w = vault_result w (m w.store)

  abbrev pub sites_result :
      World Key Text
      → Result PrefsError (SitePreferences × Sites)
      → Result RouterError SitePreferences × World Key Text
  sites_result w (err e) = (err (prefs_failed e), w)
  sites_result w (ok (site, sites)) = (ok site, record w { sites = sites })

  -- A call that sets preferences of a site.
  abbrev pub on_sites :
      (Sites → Result PrefsError (SitePreferences × Sites)) → Act Key Text SitePreferences
  on_sites f w = sites_result w (f w.sites)

  abbrev pub broadcast : Broadcast → Act Key Text (Unit {0})
  broadcast b = change (λ w. record w { broadcasts = b ∷ w.broadcasts })

  abbrev pub queue_sync : Act Key Text (Unit {0})
  queue_sync = change (λ w. record w { sync_queued = true })

  abbrev pub read_global : Act Key Text GlobalPreferences
  read_global = asks (λ w. global w.stored_global)

  unfoldable pub schedule_periodic_sync : Act Key Text (Unit {0})
  schedule_periodic_sync = do
    g ← read_global
    change (λ w. record w {
      alarms = record w.alarms { sync_alarm = sync_period g.sync_interval_minutes };
    })

  unfoldable pub schedule_auto_lock : Act Key Text (Unit {0})
  schedule_auto_lock = do
    p ← on_vault protection
    g ← read_global
    change (λ w. record w {
      alarms = record w.alarms { auto_lock_alarm = lock_delay p g.lock_timeout_minutes };
    })

  unfoldable pub schedule_update_check : ℕ → Act Key Text (Unit {0})
  schedule_update_check random = do
    g ← read_global
    change (λ w. record w { alarms = record w.alarms { update_alarm = update_times g random } })

  unfoldable pub update_report : Platform Key Text → Act Key Text UpdateReport
  update_report platform = asks (λ w. record {
    current_version = platform.current_version;
    update_state = state w.update_state;
    notify = should_notify w.update_state;
    managed_by_browser = platform.managed_by_browser;
  })
