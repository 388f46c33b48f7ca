-- ===== src/Examples/Import.antt =====
-- An import by src/background/router.ts of three logins, one of them twice and one without a password.
use fire_sync.Prelude.{String, ◌≡◌, refl, inl, inr, true, false, none, List, [], ◌∷◌, In}
use fire_sync.Url.{UrlParser}
use fire_sync.Vault.Contents.{empty_vault_contents, list_passwords}
use fire_sync.Vault.State.{empty_sync_state}
use fire_sync.Vault.Store.Views.{View, device_view}
use fire_sync.Background.Import.{ImportedLogin}
use fire_sync.Background.Import.Chosen.{Drawn}
use fire_sync.Background.Import.Pairs.{has_nul, Imports, import_logins-Imports}
use fire_sync.Sync.Passwords.{PasswordRecord}
use fire_sync.Examples.Store.{toy, toy-IsIdeal, fresh}

abbrev no_urls : UrlParser
no_urls url = none

abbrev view : View String
view =
    device_view "device"
      (record { verifier_iv = "1"; vault_iv = "2"; tokens_iv = "3"; sync_iv = "4"; at = 1 }) true
      (record { contents = empty_vault_contents; tokens = none; sync = empty_sync_state })

abbrev login_of : String → String → ImportedLogin
login_of username password = record {
  origin = "https://a.org";
  form_action_origin = none;
  http_realm = none;
  username = username;
  password = password;
  username_field = "";
  password_field = "";
}

abbrev logins : List (Drawn String)
logins =
    (fresh, login_of "eve" "secret")
    ∷ (record fresh { new_id = "{2}" }, login_of "bob" "")
    ∷ (record fresh { new_id = "{3}" }, login_of "eve" "secret")
    ∷ (record fresh { new_id = "{4}" }, login_of "bob" "word")
    ∷ []

none_stored : (r : PasswordRecord) → In r [] → has_nul r.hostname ≡ false
none_stored r there = absurd there

no_nul : (x : Drawn String) → In x logins → has_nul x.1.origin ≡ false
no_nul x (inl e) = rw e refl
no_nul x (inr (inl e)) = rw e refl
no_nul x (inr (inr (inl e))) = rw e refl
no_nul x (inr (inr (inr (inl e)))) = rw e refl
no_nul x (inr (inr (inr (inr there)))) = absurd there

import_logins-Imports_example : Imports toy toy-IsIdeal no_urls fresh logins view
unfolding list_passwords
import_logins-Imports_example =
    import_logins-Imports toy toy-IsIdeal no_urls fresh logins view refl none_stored no_nul
