-- ===== src/Background/Router/Sender.antt =====
-- Who may say which page a message of src/background/router.ts is about.
use fire_sync.Prelude.{ℕ, String, ◌≡◌, refl, sym, ◌∙◌, ap, ◌≢◌, some}
use fire_sync.Prelude.Dict.{eq_of_ne}
use fire_sync.Vault.Crypto.{Cipher}
use fire_sync.Vault.Store.{Fresh}
use fire_sync.Background.Messages.{
  passed_on, signin_redirect, MessageSender, Message, vault_status, vault_lock, vault_reset,
  account_disconnect, passwords_list, prefs_global, updates_status, updates_check, menu_resize,
  menu_close, vault_unlock, vault_set_passphrase, passwords_get, passwords_delete, autofill_query,
  prefs_for_url, prefs_never_save, updates_dismiss, passwords_update, autofill_reveal,
  autofill_update_existing, autofill_captured, autofill_save, prefs_set_global, prefs_set_for_url,
}
use fire_sync.Background.Router.{World, Platform, sender_url}
use fire_sync.Background.Router.Handle.{query, reveal, captured, handle}

-- The message with another URL of the page that it claims to stand on. The origin that `autofill/save`
-- stores a login under is another field, and is kept.
abbrev pub claiming : String → Message → Message
claiming page (autofill_query claimed) = autofill_query page
claiming page (autofill_reveal id claimed) = autofill_reveal id page
claiming page (autofill_captured c) = autofill_captured (record c { page_url = page })
claiming page (autofill_save c) = autofill_save (record c { page_url = page })
claiming page (prefs_for_url claimed) = prefs_for_url page
claiming page (prefs_set_for_url claimed patch) = prefs_set_for_url page patch
claiming page (prefs_never_save claimed) = prefs_never_save page
claiming page (passed_on (signin_redirect claimed)) = passed_on (signin_redirect page)
claiming page m = m

sender_url-tab :
    (sender : MessageSender) (tab : ℕ) (url a : String)
    → sender.tab ≡ some tab
    → sender.url ≡ some url
    → url ≢ ""
    → sender_url sender a ≡ url
unfolding sender_url
sender_url-tab sender tab url a in_tab at real = rw (in_tab, at, eq_of_ne url "" real) refl

module _ {Key Text : Type 0} (cipher : Cipher Key Text) (fresh : Fresh Key)
    (platform : Platform Key Text) (random : ℕ) where
  -- For a page in a tab that has a URL, a message is answered alike whatever URL of the page it carries,
  -- that of a login to save included; the origin that `autofill/save` stores is not such a URL.
  pub handle-claiming :
      (sender : MessageSender) (tab : ℕ) (url page : String) (m : Message) (w : World Key Text)
      → sender.tab ≡ some tab
      → sender.url ≡ some url
      → url ≢ ""
      → handle cipher fresh platform random sender (claiming page m) w
        ≡ handle cipher fresh platform random sender m w
  unfolding handle captured
  handle-claiming sender tab url page (autofill_query a) w in_tab at real =
      ap (λ p. query cipher fresh platform random p w)
        (sender_url-tab sender tab url page in_tab at real
          ∙ sym (sender_url-tab sender tab url a in_tab at real))
  handle-claiming sender tab url page (autofill_reveal id a) w in_tab at real =
      ap (λ p. reveal cipher fresh platform random id p w)
        (sender_url-tab sender tab url page in_tab at real
          ∙ sym (sender_url-tab sender tab url a in_tab at real))
  handle-claiming sender tab url page (autofill_captured c) w in_tab at real =
      ap (λ p. captured cipher fresh platform random c p w)
        (sender_url-tab sender tab url page in_tab at real
          ∙ sym (sender_url-tab sender tab url c.page_url in_tab at real))
  handle-claiming sender tab url page (prefs_for_url a) w in_tab at real =
      rw
        (sender_url-tab sender tab url page in_tab at real
          ∙ sym (sender_url-tab sender tab url a in_tab at real))
        refl
  handle-claiming sender tab url page (prefs_set_for_url a patch) w in_tab at real =
      rw
        (sender_url-tab sender tab url page in_tab at real
          ∙ sym (sender_url-tab sender tab url a in_tab at real))
        refl
  handle-claiming sender tab url page (prefs_never_save a) w in_tab at real =
      rw
        (sender_url-tab sender tab url page in_tab at real
          ∙ sym (sender_url-tab sender tab url a in_tab at real))
        refl
  handle-claiming sender tab url page (passed_on (signin_redirect a)) w in_tab at real = rw at refl
  handle-claiming sender tab url page (passed_on m) w in_tab at real = refl
  handle-claiming sender tab url page vault_status w in_tab at real = refl
  handle-claiming sender tab url page vault_lock w in_tab at real = refl
  handle-claiming sender tab url page vault_reset w in_tab at real = refl
  handle-claiming sender tab url page account_disconnect w in_tab at real = refl
  handle-claiming sender tab url page passwords_list w in_tab at real = refl
  handle-claiming sender tab url page prefs_global w in_tab at real = refl
  handle-claiming sender tab url page updates_status w in_tab at real = refl
  handle-claiming sender tab url page updates_check w in_tab at real = refl
  handle-claiming sender tab url page menu_resize w in_tab at real = refl
  handle-claiming sender tab url page menu_close w in_tab at real = refl
  handle-claiming sender tab url page (vault_unlock p) w in_tab at real = refl
  handle-claiming sender tab url page (vault_set_passphrase p c) w in_tab at real = refl
  handle-claiming sender tab url page (passwords_get id) w in_tab at real = refl
  handle-claiming sender tab url page (passwords_delete id) w in_tab at real = refl
  handle-claiming sender tab url page (updates_dismiss v) w in_tab at real = refl
  handle-claiming sender tab url page (passwords_update id patch) w in_tab at real = refl
  handle-claiming sender tab url page (autofill_update_existing id p) w in_tab at real = refl
  handle-claiming sender tab url page (autofill_save c) w in_tab at real = refl
  handle-claiming sender tab url page (prefs_set_global patch) w in_tab at real = refl
