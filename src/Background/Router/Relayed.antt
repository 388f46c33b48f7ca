-- ===== src/Background/Router/Relayed.antt =====
-- The messages that `handle` of src/background/router.ts passes on to another part.
pub mod Quiet
use fire_sync.Prelude.{
  ℕ, String, Bool, true, false, ◌&&◌, Option, none, some, List, [], map, is_some, ◌==◌,
  if◌then◌else◌, find?, or_default,
}
use fire_sync.Prelude.Result.{Result, ok, err}
use fire_sync.Match.Uri.{MatchContext, UriMatchStrategy, origin_matches}
use fire_sync.Sync.Session.{AccountTokens}
use fire_sync.Sync.Passwords.{PasswordRecord, NewPasswordInput}
use fire_sync.Vault.Contents.Find.{PasswordMatch}
use fire_sync.Vault.Crypto.{Cipher}
use fire_sync.Vault.Store.{
  Fresh, is_initialized, is_unlocked, protection, lock, reset, unlock, set_protection, read_tokens,
  write_tokens, ensure, read_sync_state, clear_tokens,
}
use fire_sync.Vault.Logins.{
  stats, list_logins, get_login, find_logins, add_login, update_login, patch_login, touch_login,
  delete_login,
}
use fire_sync.Prefs.{
  SitePreferences, for_url, set_for_url, never_save_for, save_prompt_enabled, inline_menu_mode,
  match_strategy, auto_fill_enabled,
}
use fire_sync.Prefs.Global.{set_global}
use fire_sync.Update.Checker.{check, dismiss}
use fire_sync.Background.Messages.{
  Passed, passed_on, account_sign_in_progress, account_diagnostics, account_auth_check,
  account_cancel_sign_in, account_resend_email_code, sync_now, bridge_status,
  account_sign_in_hosted, signin_redirect, account_submit_totp, account_submit_email_code,
  account_connect, bridge_import, text_is, connect_step, sync_is, state_synced, Message,
  vault_status, vault_lock, vault_reset, account_disconnect, passwords_list, prefs_global,
  updates_status, updates_check, menu_resize, menu_close, vault_unlock, vault_set_passphrase,
  passwords_get, passwords_delete, autofill_query, prefs_for_url, prefs_never_save, updates_dismiss,
  passwords_update, autofill_reveal, autofill_update_existing, autofill_captured, autofill_save,
  prefs_set_global, prefs_set_for_url, Payload, nothing, status_is, summaries, record_is, offered,
  revealed, prompts, saved, global_is, site_is, report_is, state_locked, state_unlocked,
  MessageSender, CapturedCredential, VaultStatus,
}
use fire_sync.Account.Connect.{
  Call, call_begin, call_totp, call_email_code, call_resend, ConnectStep, complete, needs_totp,
  needs_email_code, needs_unblock,
}
use fire_sync.Background.Router.{
  no_sign_in, sign_in_begin, sign_in_progress, sign_in_diagnostics, sign_in_cancel,
  sign_in_navigated, call_status, call_import, RouterError, World, Platform, Act, sender_url,
  summarize, locked_status, email_of, is_locked_error, ◌>>=◌, ◌>>◌, reply, asks, change, on_vault,
  on_sites, broadcast, queue_sync, read_global, schedule_periodic_sync, schedule_auto_lock,
  schedule_update_check, update_report,
}

module _ {Key Text : Type 0} (cipher : Cipher Key Text) (fresh : Fresh Key)
    (platform : Platform Key Text) (random : ℕ) where
  -- A step that completes the sign-in stores the account.
  abbrev pub finish_connect : Option ConnectStep → Act Key Text Payload
  finish_connect none = reply nothing
  finish_connect (some (complete account)) = do
    on_vault (write_tokens cipher fresh account)
    change (λ w. record w { connecting = false })
    queue_sync
    reply (connect_step "complete" (some account.email))
  finish_connect (some needs_totp) = reply (connect_step "needs-totp" none)
  finish_connect (some (needs_email_code email)) =
      reply (connect_step "needs-email-code" (some email))
  finish_connect (some (needs_unblock email)) =
      reply (connect_step "needs-unblock-code" (some email))

  abbrev pub connect_if : Bool → Call → Act Key Text (Option ConnectStep)
  connect_if false c w = (err no_sign_in, w)
  connect_if true c w = platform.services.connect c w

  -- `if (!connectSession) throw`
  abbrev pub connect_on : Call → Act Key Text (Option ConnectStep)
  connect_on c = do there ← asks (λ w. w.connecting); connect_if there c

  -- The messages that another part answers.
  abbrev pub relayed : MessageSender → Passed → Act Key Text Payload
  relayed sender (account_sign_in_hosted email) = do
    on_vault (ensure cipher fresh)
    a ← platform.services.sign_in (sign_in_begin email)
    reply (text_is a)
  relayed sender account_sign_in_progress = do
    a ← platform.services.sign_in sign_in_progress
    reply (text_is a)
  relayed sender account_diagnostics = do
    a ← platform.services.sign_in sign_in_diagnostics
    reply (text_is a)
  relayed sender account_auth_check = do a ← platform.services.auth_check; reply (text_is a)
  relayed sender (signin_redirect url) = do
    a ← platform.services.sign_in (sign_in_navigated sender.tab (or_default sender.url url))
    reply nothing
  relayed sender account_cancel_sign_in = do
    a ← platform.services.sign_in sign_in_cancel
    b ← platform.services.sign_in sign_in_progress
    reply (text_is b)
  relayed sender (account_connect email password code) = do
    on_vault (ensure cipher fresh)
    change (λ w. record w { connecting = true })
    s ← platform.services.connect (call_begin email password code)
    finish_connect s
  relayed sender (account_submit_totp code) = do s ← connect_on (call_totp code); finish_connect s
  relayed sender (account_submit_email_code code) = do
    s ← connect_on (call_email_code code)
    finish_connect s
  relayed sender account_resend_email_code = do s ← connect_on call_resend; reply nothing
  relayed sender sync_now = do
    r ← platform.services.sync
    broadcast (state_synced r)
    reply (sync_is r)
  relayed sender bridge_status = do a ← platform.services.bridge call_status; reply (text_is a)
  relayed sender (bridge_import path password) = do
    a ← platform.services.bridge (call_import path password)
    reply (text_is a)
