-- ===== src/Background/Router/Reveal.antt =====
-- Which messages of src/background/router.ts are answered with a password.
use fire_sync.Prelude.{
  ℕ, String, ◌≡◌, refl, ap, ◌⊎◌, inl, inr, Bool, true, false, Option, none, some,
}
use fire_sync.Prelude.Result.{ok}
use fire_sync.Match.Uri.{origin_matches}
use fire_sync.Sync.Passwords.{PasswordRecord}
use fire_sync.Vault.Crypto.{Cipher}
use fire_sync.Vault.State.{Store}
use fire_sync.Vault.Store.{Fresh, read_tokens, unlock, set_protection}
use fire_sync.Vault.Logins.{
  get_login, touch_login, list_logins, delete_login, add_login, update_login,
}
use fire_sync.Prefs.{match_strategy, set_for_url, never_save_for}
use fire_sync.Background.Messages.{
  passed_on, Payload, nothing, revealed, MessageSender, Message, vault_status, vault_lock,
  vault_reset, account_disconnect, passwords_list, prefs_global, updates_status, updates_check,
  menu_resize, menu_close, vault_unlock, vault_set_passphrase, passwords_get, passwords_delete,
  autofill_query, prefs_for_url, prefs_never_save, updates_dismiss, passwords_update,
  autofill_reveal, autofill_update_existing, autofill_captured, autofill_save, prefs_set_global,
  prefs_set_for_url,
}
use fire_sync.Background.Router.{
  schedule_auto_lock, update_report, schedule_periodic_sync, schedule_update_check, World, Platform,
  sender_url, summarize,
}
use fire_sync.Background.Router.Handle.{
  input_of, context_of, reveal_if, reveal_found, reveal, handle,
}
use fire_sync.Background.Router.Relayed.Quiet.{relayed-Quiet}
use fire_sync.Background.Router.Quiet.{
  Hides, answered, after, summarize-Hides, status-Quiet, query-Quiet, captured_all-Quiet,
  site_set-Hides,
}

module _ {Key Text : Type 0} (cipher : Cipher Key Text) (fresh : Fresh Key)
    (platform : Platform Key Text) (random : ℕ) where
  -- The login of the id, revealed, where it matches the page by the strategy in force.
  abbrev pub IsMatched : World Key Text → String → String → Payload → Type 0
  IsMatched w id page payload =
      (r : PasswordRecord) × ((get_login cipher fresh id w.store).0 ≡ ok (some r))
      × (payload ≡ revealed (record (summarize r) { password = some r.password }))
      × (origin_matches platform.parse_url platform.regexp r.hostname page
            (context_of (match_strategy platform.parse_url page w.stored_global w.sites) none)
          ≡ true)

  -- What may answer a message. The two messages of the extension's own pages that name one login are
  -- answered with it.
  abbrev pub IsAllowed : World Key Text → MessageSender → Message → Payload → Type 0
  IsAllowed w sender (passwords_get id) payload = Unit
  IsAllowed w sender (passwords_update id patch) payload = Unit
  IsAllowed w sender (autofill_reveal id claimed) payload =
      (payload ≡ nothing) ⊎ IsMatched w id (sender_url sender claimed) payload
  IsAllowed w sender m payload = Hides payload

  reveal_if-IsMatched :
      (w0 w w' : World Key Text) (id page : String) (r : PasswordRecord) (b : Payload) (fits : Bool)
      → (get_login cipher fresh id w0.store).0 ≡ ok (some r)
      → origin_matches platform.parse_url platform.regexp r.hostname page
          (context_of (match_strategy platform.parse_url page w0.stored_global w0.sites) none)
        ≡ fits
      → reveal_if cipher fresh platform random fits r w ≡ (ok b, w')
      → (b ≡ nothing) ⊎ IsMatched w0 id page b
  reveal_if-IsMatched w0 w w' id page r b false found fits h =
      answered (λ x. (x ≡ nothing) ⊎ IsMatched w0 id page x) nothing b w w' h (inl refl)
  reveal_if-IsMatched w0 w w' id page r b true found fits h =
      after (λ x. (x ≡ nothing) ⊎ IsMatched w0 id page x) (touch_login cipher fresh r.id w.store) _
        w w' b h
        λ a s e rest.
          answered (λ x. (x ≡ nothing) ⊎ IsMatched w0 id page x) _ b _ w' rest
            (inr (r, found, refl, fits))

  reveal-IsMatched :
      (w w' : World Key Text) (id page : String) (b : Payload)
      → reveal cipher fresh platform random id page w ≡ (ok b, w')
      → (b ≡ nothing) ⊎ IsMatched w id page b
  unfolding reveal
  reveal-IsMatched w w' id page b h =
      after (λ x. (x ≡ nothing) ⊎ IsMatched w id page x) (get_login cipher fresh id w.store) _ w w'
        b h λ r s e rest. go r s (ap (λ x. x.0) e) rest
    where
      go :
          (r : Option PasswordRecord) (s : Store Key Text)
          → (get_login cipher fresh id w.store).0 ≡ ok r
          → reveal_found cipher fresh platform random page r (record w { store = s }) ≡ (ok b, w')
          → (b ≡ nothing) ⊎ IsMatched w id page b
      go none s found rest =
          answered (λ x. (x ≡ nothing) ⊎ IsMatched w id page x) nothing b (record w { store = s })
            w' rest (inl refl)
      go (some r) s found rest =
          reveal_if-IsMatched w (record w { store = s }) w' id page r b _ found refl rest

  -- Of the messages that the router answers itself, one is answered with a password only if it is
  -- `passwords/get` or `passwords/update`, or if it is `autofill/reveal`, for a login of that id whose
  -- origin matches the page by the site's strategy. No list of logins holds a password.
  pub handle-IsAllowed :
      (sender : MessageSender) (m : Message) (w w' : World Key Text) (payload : Payload)
      → handle cipher fresh platform random sender m w ≡ (ok payload, w')
      → IsAllowed w sender m payload
  unfolding handle schedule_auto_lock update_report schedule_periodic_sync schedule_update_check
  handle-IsAllowed sender (passed_on m) w w' b h =
      relayed-Quiet cipher fresh platform random sender m w w' b h
  handle-IsAllowed sender vault_status w w' b h = status-Quiet cipher fresh platform random w w' b h
  handle-IsAllowed sender (vault_unlock p) w w' b h =
      after Hides (unlock cipher fresh p w.store) _ w w' b h
        λ a s e rest. status-Quiet cipher fresh platform random _ w' b rest
  handle-IsAllowed sender vault_lock w w' b h = status-Quiet cipher fresh platform random _ w' b h
  handle-IsAllowed sender (vault_set_passphrase p current) w w' b h =
      after Hides
        (set_protection cipher fresh (record { passphrase = p; iterations = none }) current w.store)
        _ w w' b h λ a s e rest. status-Quiet cipher fresh platform random _ w' b rest
  handle-IsAllowed sender vault_reset w w' b h = status-Quiet cipher fresh platform random _ w' b h
  handle-IsAllowed sender account_disconnect w w' b h =
      after Hides (read_tokens cipher fresh w.store) _ w w' b h
        λ a s e rest. status-Quiet cipher fresh platform random _ w' b rest
  handle-IsAllowed sender passwords_list w w' b h =
      after Hides (list_logins cipher fresh w.store) _ w w' b h
        λ a s e rest. answered Hides _ b _ w' rest (summarize-Hides a)
  handle-IsAllowed sender (passwords_get id) w w' b h = tt
  handle-IsAllowed sender (passwords_delete id) w w' b h =
      after Hides (delete_login cipher fresh id w.store) _ w w' b h
        λ a s e rest. answered Hides _ b _ w' rest tt
  handle-IsAllowed sender (passwords_update id patch) w w' b h = tt
  handle-IsAllowed sender (autofill_query claimed) w w' b h =
      query-Quiet cipher fresh platform random (sender_url sender claimed) w w' b h
  handle-IsAllowed sender (autofill_reveal id claimed) w w' b h =
      reveal-IsMatched w w' id (sender_url sender claimed) b h
  handle-IsAllowed sender (autofill_captured c) w w' b h =
      captured_all-Quiet cipher fresh platform random c (sender_url sender c.page_url) w w' b h
  handle-IsAllowed sender (autofill_save c) w w' b h =
      after Hides (add_login cipher fresh platform.parse_url (input_of c) w.store) _ w w' b h
        λ a s e rest. answered Hides _ b _ w' rest tt
  handle-IsAllowed sender (autofill_update_existing id p) w w' b h =
      after Hides (update_login cipher fresh id p w.store) _ w w' b h
        λ a s e rest. answered Hides _ b _ w' rest tt
  handle-IsAllowed sender prefs_global w w' b h = answered Hides _ b _ w' h tt
  handle-IsAllowed sender (prefs_set_global patch) w w' b h = answered Hides _ b _ w' h tt
  handle-IsAllowed sender (prefs_for_url claimed) w w' b h = answered Hides _ b _ w' h tt
  handle-IsAllowed sender (prefs_set_for_url claimed patch) w w' b h =
      site_set-Hides cipher fresh platform random
        (set_for_url platform.parse_url (sender_url sender claimed) patch fresh.now w.sites) w w' b
        h
  handle-IsAllowed sender (prefs_never_save claimed) w w' b h =
      site_set-Hides cipher fresh platform random
        (never_save_for platform.parse_url (sender_url sender claimed) fresh.now w.sites) w w' b h
  handle-IsAllowed sender updates_status w w' b h = answered Hides _ b _ w' h tt
  handle-IsAllowed sender updates_check w w' b h = answered Hides _ b _ w' h tt
  handle-IsAllowed sender (updates_dismiss v) w w' b h = answered Hides _ b _ w' h tt
  handle-IsAllowed sender menu_resize w w' b h = answered Hides _ b _ w' h tt
  handle-IsAllowed sender menu_close w w' b h = answered Hides _ b _ w' h tt
