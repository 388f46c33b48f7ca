-- ===== src/Background/Router/Locked.antt =====
-- What src/background/router.ts answers while the vault is locked by a passphrase.
use mathlib.Core.Path.{subst}
use fire_sync.Prelude.{
  ℕ, String, ◌≡◌, refl, sym, ap, Bool, true, false, Option, none, some, [], ltb,
}
use fire_sync.Prelude.Result.{ok}
use fire_sync.Vault.Crypto.{Cipher, vault_locked}
use fire_sync.Vault.State.{Store}
use fire_sync.Vault.Store.{Fresh, read_contents, read_tokens}
use fire_sync.Vault.Store.Views.{passphrase_view, locked, Seals, Values, store_of}
use fire_sync.Prefs.{inline_menu_mode, save_prompt_enabled}
use fire_sync.Background.Messages.{
  passed_on, vault_status, vault_lock, vault_reset, account_disconnect, prefs_global,
  updates_status, updates_check, menu_resize, menu_close, vault_unlock, vault_set_passphrase,
  prefs_for_url, prefs_never_save, updates_dismiss, prefs_set_global, prefs_set_for_url,
  CapturedCredential, Message, passwords_list, passwords_get, passwords_delete, autofill_query,
  passwords_update, autofill_reveal, autofill_update_existing, autofill_captured, autofill_save,
  offered, prompts, MessageSender,
}
use fire_sync.Background.Router.{World, Platform, vault_failed, sender_url}
use fire_sync.Background.Router.Handle.{
  Reply, success, failure, query, reveal, captured, captured_if, handle, on_message,
}

same_answer :
    {W : Type 0} (v : W) (a b : Reply) → some a ≡ some b → ◌≡◌ {A = Reply × W} (a, v) (b, v)
same_answer v a b h = let is : a ≡ b = cc in ap (λ c. (c, v)) is

module _ {Key Text : Type 0} (cipher : Cipher Key Text) (fresh : Fresh Key)
    (platform : Platform Key Text) (random : ℕ) where
  -- A page is told which menu to show, and not to ask for saving; all else that is about logins fails
  -- with the code `locked`. Other messages are not about logins.
  abbrev pub locked_reply : MessageSender → Message → World Key Text → Option Reply
  locked_reply sender (autofill_query claimed) w = some (
      success (
        offered [] false
          (inline_menu_mode platform.parse_url (sender_url sender claimed) w.stored_global w.sites)
          false))
  locked_reply sender (autofill_captured c) w = some (success (prompts false none))
  locked_reply sender passwords_list w = some (failure (vault_failed vault_locked) true)
  locked_reply sender (passwords_get id) w = some (failure (vault_failed vault_locked) true)
  locked_reply sender (passwords_delete id) w = some (failure (vault_failed vault_locked) true)
  locked_reply sender (passwords_update id patch) w =
      some (failure (vault_failed vault_locked) true)
  locked_reply sender (autofill_reveal id claimed) w =
      some (failure (vault_failed vault_locked) true)
  locked_reply sender (autofill_save c) w = some (failure (vault_failed vault_locked) true)
  locked_reply sender (autofill_update_existing id p) w =
      some (failure (vault_failed vault_locked) true)
  locked_reply sender m w = none

  module _ (k : Option Key) (p : String) (n : ℕ) (salt : String) (e : ltb n 100_000 ≡ false)
      (seals : Seals) (x : Values) where
    abbrev closed_store : Store Key Text
    closed_store = store_of cipher (passphrase_view k p n salt e seals locked x)

    captured-closed :
        (c : CapturedCredential) (page : String) (asked : Bool) (w : World Key Text)
        → captured_if cipher fresh platform random c page asked false w
          ≡ (ok (prompts false none), w)
    captured-closed c page true w = refl
    captured-closed c page false w = refl

    on_closed :
        (sender : MessageSender) (m : Message) (w : World Key Text) (r : Reply)
        → locked_reply sender m (record w { store = closed_store }) ≡ some r
        → on_message cipher fresh platform random sender m (record w { store = closed_store })
          ≡ (r, record w { store = closed_store })
    unfolding on_message handle query reveal captured read_contents read_tokens
    on_closed sender (autofill_query claimed) w r h =
        same_answer (record w { store = closed_store }) _ r h
    on_closed sender passwords_list w r h = same_answer (record w { store = closed_store }) _ r h
    on_closed sender (passwords_get id) w r h =
        same_answer (record w { store = closed_store }) _ r h
    on_closed sender (passwords_delete id) w r h =
        same_answer (record w { store = closed_store }) _ r h
    on_closed sender (passwords_update id patch) w r h =
        same_answer (record w { store = closed_store }) _ r h
    on_closed sender (autofill_reveal id claimed) w r h =
        same_answer (record w { store = closed_store }) _ r h
    on_closed sender (autofill_save c) w r h = same_answer (record w { store = closed_store }) _ r h
    on_closed sender (autofill_update_existing id q) w r h =
        same_answer (record w { store = closed_store }) _ r h
    on_closed sender (autofill_captured c) w r h =
        rw
          (captured-closed c (sender_url sender c.page_url)
            (save_prompt_enabled platform.parse_url (sender_url sender c.page_url) w.stored_global
              w.sites)
            (record w { store = closed_store }))
          (same_answer (record w { store = closed_store }) _ r h)
    on_closed sender (passed_on m) w r h = cc
    on_closed sender vault_status w r h = cc
    on_closed sender vault_lock w r h = cc
    on_closed sender vault_reset w r h = cc
    on_closed sender account_disconnect w r h = cc
    on_closed sender prefs_global w r h = cc
    on_closed sender updates_status w r h = cc
    on_closed sender updates_check w r h = cc
    on_closed sender menu_resize w r h = cc
    on_closed sender menu_close w r h = cc
    on_closed sender (vault_unlock q) w r h = cc
    on_closed sender (vault_set_passphrase q c) w r h = cc
    on_closed sender (prefs_for_url u) w r h = cc
    on_closed sender (prefs_never_save u) w r h = cc
    on_closed sender (updates_dismiss v) w r h = cc
    on_closed sender (prefs_set_global patch) w r h = cc
    on_closed sender (prefs_set_for_url u patch) w r h = cc

    -- While the vault is locked by a passphrase, every message about logins is answered so, and nothing
    -- changes.
    pub on_message-locked :
        (sender : MessageSender) (m : Message) (w : World Key Text) (r : Reply)
        → w.store ≡ closed_store
        → locked_reply sender m w ≡ some r
        → on_message cipher fresh platform random sender m w ≡ (r, w)
    on_message-locked sender m w r at h =
        let own : w ≡ record w { store = closed_store } = ap (λ s. record w { store = s }) at in
        let there = on_closed sender m w r (subst (λ v. locked_reply sender m v ≡ some r) own h) in
        subst (λ v. on_message cipher fresh platform random sender m v ≡ (r, v)) (sym own) there
