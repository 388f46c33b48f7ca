-- ===== src/Background/Router/Relayed/Quiet.antt =====
-- What the messages that src/background/router.ts passes on are answered with.
use fire_sync.Prelude.{or_default, ℕ, String, ◌≡◌, true, Option, none, some}
use fire_sync.Prelude.Result.{Result, ok, err}
use fire_sync.Sync.Session.{SyncResult}
use fire_sync.Vault.Crypto.{Cipher}
use fire_sync.Account.Connect.{
  call_begin, call_totp, call_email_code, call_resend, ConnectStep, complete, needs_totp,
  needs_email_code, needs_unblock,
}
use fire_sync.Vault.Store.{Fresh, write_tokens, ensure}
use fire_sync.Background.Messages.{
  MessageSender, Passed, account_sign_in_progress, account_diagnostics, account_auth_check,
  account_cancel_sign_in, account_resend_email_code, sync_now, bridge_status,
  account_sign_in_hosted, signin_redirect, account_submit_totp, account_submit_email_code,
  account_connect, bridge_import, Payload, nothing, text_is, sync_is, state_synced,
}
use fire_sync.Background.Router.{
  broadcast, sign_in_begin, sign_in_progress, sign_in_diagnostics, sign_in_cancel,
  sign_in_navigated, call_status, call_import, RouterError, World, Platform, bound, reply,
}
use fire_sync.Background.Router.Quiet.{Hides, answered, after}
use fire_sync.Background.Router.Relayed.{finish_connect, connect_if, relayed}

module _ {Key Text : Type 0} (cipher : Cipher Key Text) (fresh : Fresh Key)
    (platform : Platform Key Text) (random : ℕ) where
  connect-Quiet :
      (s : Option ConnectStep) (w w' : World Key Text) (b : Payload)
      → finish_connect cipher fresh platform random s w ≡ (ok b, w')
      → Hides b
  connect-Quiet none w w' b h = answered Hides _ b _ w' h tt
  connect-Quiet (some (complete account)) w w' b h =
      after Hides (write_tokens cipher fresh account w.store) _ w w' b h
        λ a s e rest. answered Hides _ b _ w' rest tt
  connect-Quiet (some needs_totp) w w' b h = answered Hides _ b _ w' h tt
  connect-Quiet (some (needs_email_code email)) w w' b h = answered Hides _ b _ w' h tt
  connect-Quiet (some (needs_unblock email)) w w' b h = answered Hides _ b _ w' h tt

  text-Quiet :
      (x : Result RouterError String × World Key Text) (w' : World Key Text) (b : Payload)
      → bound x (λ a. reply (text_is a)) ≡ (ok b, w')
      → Hides b
  text-Quiet (err e, w) w' b h = cc
  text-Quiet (ok a, w) w' b h = answered Hides _ b _ w' h tt

  nothing-Quiet :
      {A : Type 0} (x : Result RouterError A × World Key Text) (w' : World Key Text) (b : Payload)
      → bound x (λ a. reply nothing) ≡ (ok b, w')
      → Hides b
  nothing-Quiet (err e, w) w' b h = cc
  nothing-Quiet (ok a, w) w' b h = answered Hides _ b _ w' h tt

  step-Quiet :
      (x : Result RouterError (Option ConnectStep) × World Key Text) (w' : World Key Text)
      (b : Payload)
      → bound x (finish_connect cipher fresh platform random) ≡ (ok b, w')
      → Hides b
  step-Quiet (err e, w) w' b h = cc
  step-Quiet (ok s, w) w' b h = connect-Quiet s w w' b h

  synced-Quiet :
      (x : Result RouterError SyncResult × World Key Text) (w' : World Key Text) (b : Payload)
      → bound x (λ r v. bound (broadcast (state_synced r) v) (λ u. reply (sync_is r))) ≡ (ok b, w')
      → Hides b
  synced-Quiet (err e, w) w' b h = cc
  synced-Quiet (ok r, w) w' b h = answered Hides _ b _ w' h tt

  cancelled-Quiet :
      (x : Result RouterError String × World Key Text) (w' : World Key Text) (b : Payload)
      → bound x
          (λ a v. bound (platform.services.sign_in sign_in_progress v) (λ p. reply (text_is p)))
        ≡ (ok b, w')
      → Hides b
  cancelled-Quiet (err e, w) w' b h = cc
  cancelled-Quiet (ok a, w) w' b h =
      text-Quiet (platform.services.sign_in sign_in_progress w) w' b h

  -- What another part answers is no login of the vault.
  pub relayed-Quiet :
      (sender : MessageSender) (m : Passed) (w w' : World Key Text) (b : Payload)
      → relayed cipher fresh platform random sender m w ≡ (ok b, w')
      → Hides b
  relayed-Quiet sender (account_sign_in_hosted email) w w' b h =
      after Hides (ensure cipher fresh w.store) _ w w' b h
        λ a s e rest. text-Quiet (platform.services.sign_in (sign_in_begin email) _) w' b rest
  relayed-Quiet sender account_sign_in_progress w w' b h =
      text-Quiet (platform.services.sign_in sign_in_progress w) w' b h
  relayed-Quiet sender account_diagnostics w w' b h =
      text-Quiet (platform.services.sign_in sign_in_diagnostics w) w' b h
  relayed-Quiet sender account_auth_check w w' b h =
      text-Quiet (platform.services.auth_check w) w' b h
  relayed-Quiet sender (signin_redirect url) w w' b h =
      nothing-Quiet
        (platform.services.sign_in (sign_in_navigated sender.tab (or_default sender.url url)) w) w'
        b h
  relayed-Quiet sender account_cancel_sign_in w w' b h =
      cancelled-Quiet (platform.services.sign_in sign_in_cancel w) w' b h
  relayed-Quiet sender (account_connect email password code) w w' b h =
      after Hides (ensure cipher fresh w.store) _ w w' b h λ a s e rest.
        step-Quiet
          (platform.services.connect (call_begin email password code)
            (record w { store = s; connecting = true }))
          w' b rest
  relayed-Quiet sender (account_submit_totp code) w w' b h =
      step-Quiet (connect_if cipher fresh platform random w.connecting (call_totp code) w) w' b h
  relayed-Quiet sender (account_submit_email_code code) w w' b h =
      step-Quiet (connect_if cipher fresh platform random w.connecting (call_email_code code) w) w'
        b h
  relayed-Quiet sender account_resend_email_code w w' b h =
      nothing-Quiet (connect_if cipher fresh platform random w.connecting call_resend w) w' b h
  relayed-Quiet sender sync_now w w' b h = synced-Quiet (platform.services.sync w) w' b h
  relayed-Quiet sender bridge_status w w' b h =
      text-Quiet (platform.services.bridge call_status w) w' b h
  relayed-Quiet sender (bridge_import path password) w w' b h =
      text-Quiet (platform.services.bridge (call_import path password) w) w' b h
