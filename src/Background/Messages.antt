-- ===== src/Background/Messages.antt =====
-- The messages and replies of src/common/messages.ts that the router answers from the vault, the
-- preferences and the update checker.
use fire_sync.Sync.Session.{SyncResult}
use fire_sync.Prelude.{ℕ, String, Bool, Option, List}
use fire_sync.Sync.Session.{SyncFailure}
use fire_sync.Sync.Passwords.{PasswordRecord}
use fire_sync.Vault.Contents.{PasswordPatch}
use fire_sync.Vault.State.{VaultProtection}
use fire_sync.Vault.Logins.{Stats}
use fire_sync.Prefs.{SitePreferences, SitePatch}
use fire_sync.Prefs.Global.{InlineMenuMode, GlobalPreferences, GlobalPatch}
use fire_sync.Update.Checker.{UpdateState}

-- Who sent a message: the tab, if it is a page in one, and its own URL.
pub record MessageSender : Type 0 where
  pub tab : Option ℕ
  pub url : Option String

pub record CredentialSummary : Type 0 where
  pub id : String
  pub username : String
  pub origin : String
  pub password : Option String

pub record VaultStatus : Type 0 where
  pub initialized : Bool
  pub is_unlocked : Bool
  pub protection : VaultProtection
  pub connected : Bool
  pub email : Option String
  pub counts : Option Stats
  pub last_sync_at : Option ℕ
  pub last_sync_error : Option SyncFailure

pub record CapturedCredential : Type 0 where
  pub page_url : String
  pub origin : String
  pub username : String
  pub password : String
  pub form_action_origin : Option String
  pub username_field : String
  pub password_field : String

pub record UpdateReport : Type 0 where
  pub current_version : String
  pub update_state : UpdateState
  pub notify : Bool
  pub managed_by_browser : Bool

-- The messages that are answered by another part: the sign-in, the connect session, the probe, the sync
-- engine and the bridge.
pub data Passed : Type 0 where
  account_sign_in_progress account_diagnostics account_auth_check account_cancel_sign_in : Passed
  account_resend_email_code sync_now bridge_status : Passed
  account_sign_in_hosted : Option String → Passed
  signin_redirect account_submit_totp account_submit_email_code : String → Passed
  account_connect : String → String → Option String → Passed
  bridge_import : String → Option String → Passed

pub data Message : Type 0 where
  passed_on : Passed → Message
  vault_status vault_lock vault_reset account_disconnect passwords_list prefs_global : Message
  updates_status updates_check menu_resize menu_close : Message
  vault_unlock : String → Message
  vault_set_passphrase : Option String → Option String → Message
  passwords_get passwords_delete autofill_query prefs_for_url prefs_never_save : String → Message
  updates_dismiss : String → Message
  passwords_update : String → PasswordPatch → Message
  autofill_reveal autofill_update_existing : String → String → Message
  autofill_captured autofill_save : CapturedCredential → Message
  prefs_set_global : GlobalPatch → Message
  prefs_set_for_url : String → SitePatch → Message

-- The payload of an answer; `text_is` is the answer of another part, as the text of its JSON.
pub data Payload : Type 0 where
  nothing : Payload
  status_is : VaultStatus → Payload
  summaries : List CredentialSummary → Payload
  record_is : Option PasswordRecord → Payload
  offered : List CredentialSummary → Bool → InlineMenuMode → Bool → Payload
  revealed : CredentialSummary → Payload
  prompts : Bool → Option String → Payload
  saved : String → Payload
  global_is : GlobalPreferences → Payload
  site_is : Option SitePreferences → Payload
  report_is : UpdateReport → Payload
  text_is : String → Payload
  connect_step : String → Option String → Payload
  sync_is : SyncResult → Payload

pub data Broadcast : Type 0 where
  state_locked state_unlocked : Broadcast
  state_synced : SyncResult → Broadcast
