-- ===== src/Background/Router/Handle.antt =====
-- `handle` of src/background/router.ts, and the listener that `installRouter` adds.
use fire_sync.Prelude.{
  ℕ, String, Bool, true, false, ◌&&◌, Option, none, some, List, [], map, is_some, ◌==◌,
  if◌then◌else◌, find?,
}
use fire_sync.Prelude.Result.{Result, ok, err}
use fire_sync.Match.Uri.{MatchContext, UriMatchStrategy, origin_matches}
use fire_sync.Sync.Session.{AccountTokens}
use fire_sync.Sync.Passwords.{PasswordRecord, NewPasswordInput}
use fire_sync.Vault.Contents.Find.{PasswordMatch}
use fire_sync.Vault.Crypto.{Cipher}
use fire_sync.Vault.Store.{
  Fresh, is_initialized, is_unlocked, protection, lock, reset, unlock, set_protection, read_tokens,
  read_sync_state, clear_tokens,
}
use fire_sync.Vault.Logins.{
  stats, list_logins, get_login, find_logins, add_login, update_login, patch_login, touch_login,
  delete_login,
}
use fire_sync.Prefs.{
  SitePreferences, for_url, set_for_url, never_save_for, save_prompt_enabled, inline_menu_mode,
  match_strategy, auto_fill_enabled,
}
use fire_sync.Prefs.Global.{set_global}
use fire_sync.Update.Checker.{check, dismiss}
use fire_sync.Background.Messages.{
  passed_on, Message, vault_status, vault_lock, vault_reset, account_disconnect, passwords_list,
  prefs_global, updates_status, updates_check, menu_resize, menu_close, vault_unlock,
  vault_set_passphrase, passwords_get, passwords_delete, autofill_query, prefs_for_url,
  prefs_never_save, updates_dismiss, passwords_update, autofill_reveal, autofill_update_existing,
  autofill_captured, autofill_save, prefs_set_global, prefs_set_for_url, Payload, nothing,
  status_is, summaries, record_is, offered, revealed, prompts, saved, global_is, site_is, report_is,
  state_locked, state_unlocked, MessageSender, CapturedCredential, VaultStatus,
}
use fire_sync.Background.Router.Relayed.{relayed}
use fire_sync.Background.Router.{
  RouterError, World, Platform, Act, sender_url, summarize, locked_status, email_of,
  is_locked_error, ◌>>=◌, ◌>>◌, reply, asks, change, on_vault, on_sites, broadcast, queue_sync,
  read_global, schedule_periodic_sync, schedule_auto_lock, schedule_update_check, update_report,
}

-- `strategy`, with the site's extra domains where the call passes them on.
abbrev pub context_of : UriMatchStrategy → Option (List String) → MatchContext
context_of strategy extra = record {
  strategy = some strategy;
  extra_equivalent_domains = extra;
  pattern = none;
}

abbrev pub extra_of : Option SitePreferences → Option (List String)
extra_of none = none
extra_of (some site) = site.equivalent_domains

abbrev pub input_of : CapturedCredential → NewPasswordInput
input_of c = record {
  origin = c.origin;
  username = c.username;
  password = c.password;
  form_action_origin = c.form_action_origin;
  http_realm = none;
  username_field = some c.username_field;
  password_field = some c.password_field;
}

-- No record of the user name is there, or one with that password, or with another.
abbrev pub prompt_for : CapturedCredential → Option PasswordMatch → Payload
prompt_for c none = prompts true none
prompt_for c (some m) =
    if m.login.password == c.password then prompts false none else prompts true (some m.login.id)

module _ {Key Text : Type 0} (cipher : Cipher Key Text) (fresh : Fresh Key)
    (platform : Platform Key Text) (random : ℕ) where
  abbrev pub status_if : Bool → Bool → Act Key Text VaultStatus
  status_if there false = do p ← on_vault protection; reply (locked_status there p)
  status_if there true = do
    p ← on_vault protection
    tokens ← on_vault (read_tokens cipher fresh)
    counts ← on_vault (stats cipher fresh)
    sync ← on_vault (read_sync_state cipher fresh)
    reply (record {
      initialized = there;
      is_unlocked = true;
      protection = p;
      connected = is_some tokens;
      email = email_of tokens;
      counts = some counts;
      last_sync_at = sync.last_sync_at;
      last_sync_error = sync.last_sync_error;
    })

  unfoldable pub vault_status_now : Act Key Text Payload
  vault_status_now = do
    there ← on_vault is_initialized
    opened ← on_vault is_unlocked
    s ← status_if there (there && opened)
    reply (status_is s)

  abbrev pub strategy_for : String → Act Key Text UriMatchStrategy
  strategy_for page = asks (λ w. match_strategy platform.parse_url page w.stored_global w.sites)

  abbrev pub logins_for :
      String → Option (List String) → UriMatchStrategy → Act Key Text (List PasswordMatch)
  logins_for page extra strategy = on_vault (
      find_logins cipher fresh platform.parse_url platform.regexp platform.comes_first page
        (context_of strategy extra))

  abbrev pub offer : String → Bool → Act Key Text Payload
  offer page false = do
    mode ← asks (λ w. inline_menu_mode platform.parse_url page w.stored_global w.sites)
    reply (offered [] false mode false)
  offer page true = do
    mode ← asks (λ w. inline_menu_mode platform.parse_url page w.stored_global w.sites)
    auto_fill ← asks (λ w. auto_fill_enabled platform.parse_url page w.stored_global w.sites)
    strategy ← strategy_for page
    site ← asks (λ w. for_url platform.parse_url page w.sites)
    matches ← logins_for page (extra_of site) strategy
    reply (offered (map (λ m. summarize m.login) matches) true mode auto_fill)

  unfoldable pub query : String → Act Key Text Payload
  query page = do opened ← on_vault is_unlocked; offer page opened

  abbrev pub reveal_if : Bool → PasswordRecord → Act Key Text Payload
  reveal_if false r = reply nothing
  reveal_if true r = do
    on_vault (touch_login cipher fresh r.id)
    queue_sync
    reply (revealed (record (summarize r) { password = some r.password }))

  abbrev pub reveal_found : String → Option PasswordRecord → Act Key Text Payload
  reveal_found page none = reply nothing
  reveal_found page (some r) = do
    strategy ← strategy_for page
    reveal_if
        (origin_matches platform.parse_url platform.regexp r.hostname page
          (context_of strategy none))
        r

  -- The match is tested again: the tab may have navigated since the menu opened.
  unfoldable pub reveal : String → String → Act Key Text Payload
  reveal id page = do r ← on_vault (get_login cipher fresh id); reveal_found page r

  abbrev pub captured_open :
      CapturedCredential → String → Option AccountTokens → Act Key Text Payload
  captured_open c page none = reply (prompts false none)
  captured_open c page (some tokens) = do
    strategy ← strategy_for page
    existing ← logins_for page none strategy
    reply (prompt_for c (find? (λ m. m.login.username == c.username) existing))

  abbrev pub captured_if : CapturedCredential → String → Bool → Bool → Act Key Text Payload
  captured_if c page false opened = reply (prompts false none)
  captured_if c page true false = reply (prompts false none)
  captured_if c page true true = do
    tokens ← on_vault (read_tokens cipher fresh)
    captured_open c page tokens

  unfoldable pub captured : CapturedCredential → String → Act Key Text Payload
  captured c page = do
    asked ← asks (λ w. save_prompt_enabled platform.parse_url page w.stored_global w.sites)
    opened ← on_vault is_unlocked
    captured_if c page asked opened

  -- Revoking the token at Mozilla may fail, which changes nothing here.
  abbrev pub disconnect : Act Key Text Payload
  disconnect = do
    tokens ← on_vault (read_tokens cipher fresh)
    on_vault clear_tokens
    vault_status_now

  unfoldable pub handle : MessageSender → Message → Act Key Text Payload
  handle sender (passed_on m) = relayed cipher fresh platform random sender m
  handle sender vault_status = vault_status_now
  handle sender (vault_unlock p) = do
    on_vault (unlock cipher fresh p)
    schedule_auto_lock
    broadcast state_unlocked
    vault_status_now
  handle sender vault_lock = do on_vault lock; broadcast state_locked; vault_status_now
  handle sender (vault_set_passphrase p current) = do
    on_vault (set_protection cipher fresh (record { passphrase = p; iterations = none }) current)
    schedule_auto_lock
    broadcast state_unlocked
    vault_status_now
  handle sender vault_reset = do on_vault reset; broadcast state_locked; vault_status_now
  handle sender account_disconnect = disconnect
  handle sender passwords_list = do
    logins ← on_vault (list_logins cipher fresh)
    reply (summaries (map summarize logins))
  handle sender (passwords_get id) = do
    r ← on_vault (get_login cipher fresh id)
    reply (record_is r)
  handle sender (passwords_delete id) = do on_vault (delete_login cipher fresh id); reply nothing
  handle sender (passwords_update id patch) = do
    r ← on_vault (patch_login cipher fresh id patch)
    reply (record_is (some r))
  handle sender (autofill_query claimed) = query (sender_url sender claimed)
  handle sender (autofill_reveal id claimed) = reveal id (sender_url sender claimed)
  handle sender (autofill_captured c) = captured c (sender_url sender c.page_url)
  handle sender (autofill_save c) = do
    r ← on_vault (add_login cipher fresh platform.parse_url (input_of c))
    queue_sync
    reply (saved r.id)
  handle sender (autofill_update_existing id password) = do
    r ← on_vault (update_login cipher fresh id password)
    queue_sync
    reply (saved r.id)
  handle sender prefs_global = do g ← read_global; reply (global_is g)
  handle sender (prefs_set_global patch) = do
    next ← asks (λ w. (set_global patch w.stored_global).0)
    change (λ w. record w { stored_global = (set_global patch w.stored_global).1 })
    schedule_auto_lock
    schedule_periodic_sync
    schedule_update_check random
    reply (global_is next)
  handle sender (prefs_for_url claimed) = do
    site ← asks (λ w. for_url platform.parse_url (sender_url sender claimed) w.sites)
    reply (site_is site)
  handle sender (prefs_set_for_url claimed patch) = do
    site ← on_sites (set_for_url platform.parse_url (sender_url sender claimed) patch fresh.now)
    reply (site_is (some site))
  handle sender (prefs_never_save claimed) = do
    site ← on_sites (never_save_for platform.parse_url (sender_url sender claimed) fresh.now)
    reply (site_is (some site))
  handle sender updates_status = do r ← update_report platform; reply (report_is r)
  handle sender updates_check = do
    g ← read_global
    change (λ w. record w {
      update_state =
          (check platform.parse_url platform.current_version g.updates platform.update_host
            fresh.now fresh.now true w.update_state).0;
    })
    r ← update_report platform
    reply (report_is r)
  handle sender (updates_dismiss version) = do
    change (λ w. record w { update_state = dismiss version w.update_state })
    r ← update_report platform
    reply (report_is r)
  handle sender menu_resize = reply nothing
  handle sender menu_close = reply nothing

-- What the listener sends back: the payload, or the error and whether its code is `locked`.
pub data Reply : Type 0 where
  success : Payload → Reply
  failure : RouterError → Bool → Reply

abbrev pub reply_of : Result RouterError Payload → Reply
reply_of (ok payload) = success payload
reply_of (err e) = failure e (is_locked_error e)

module _ {Key Text : Type 0} (cipher : Cipher Key Text) (fresh : Fresh Key)
    (platform : Platform Key Text) (random : ℕ) where
  unfoldable pub on_message : MessageSender → Message → World Key Text → Reply × World Key Text
  on_message sender message w =
      let (result, w') = handle cipher fresh platform random sender message w in
      (reply_of result, w')
