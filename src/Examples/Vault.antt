-- ===== src/Examples/Vault.antt =====
-- Concrete calls of the vault, by src/vault/store.ts.
use fire_sync.Prelude.{String, ◌≡◌, refl, true, false, none, some, List, [], ◌∷◌}
use fire_sync.Prelude.Dict
use fire_sync.Prelude.Dict.{Dict}
use fire_sync.Url.{UrlParser}
use fire_sync.Sync.Reconcile.{LocalRecord, expired_tombstones}
use fire_sync.Sync.Passwords.{
  PasswordRecord, NewPasswordInput, change_password, password_authority_time,
}
use fire_sync.Vault.Contents.{
  VaultContents, empty_vault_contents, existing_password, update_password, put_password,
  purge_records, live_contents,
}
use fire_sync.Vault.Contents.Invariant.{
  Call, add, update, touch, delete, mark, purge, run_calls, IsSound, IsSound-nil, IsSound-put,
  run_calls-IsSound,
}
use fire_sync.Vault.Contents.Passwords.{Stored, shown, update_password-Stored}
use fire_sync.Vault.Contents.Purge.{purge-IsSafe}

abbrev no_urls : UrlParser
no_urls text = none

abbrev form_input : NewPasswordInput
form_input = record {
  origin = "https://bank.com";
  username = "ada";
  password = "old";
  form_action_origin = none;
  http_realm = none;
  username_field = none;
  password_field = none;
}

abbrev login : PasswordRecord
login = record {
  id = "{1}";
  hostname = "https://bank.com";
  form_submit_url = some "https://bank.com";
  http_realm = none;
  username = "ada";
  password = "old";
  username_field = some "";
  password_field = some "";
  time_created = some 10;
  time_password_changed = some 10;
  time_last_used = some 10;
  times_used = some 1;
}

abbrev stored_login : LocalRecord PasswordRecord
stored_login = record {
  id = "{1}";
  content = some login;
  deleted = false;
  authority_time = 10;
  synced_at = some 4;
  dirty = false;
}

abbrev one_login : VaultContents
one_login = put_password "{1}" stored_login empty_vault_contents

one_login-IsSound : IsSound one_login.passwords
one_login-IsSound = IsSound-put "{1}" stored_login [] refl refl IsSound-nil

abbrev calls : List Call
calls =
    add "{1}" 10 form_input
    ∷ update "{1}" "new" 20
    ∷ touch "{1}" 30
    ∷ mark ("{1}" ∷ []) 5
    ∷ delete "{1}" 40
    ∷ purge ("{1}" ∷ [])
    ∷ []

run_calls-IsSound_example : IsSound (run_calls no_urls calls empty_vault_contents).passwords
run_calls-IsSound_example =
    run_calls-IsSound no_urls calls empty_vault_contents (tt, (tt, (tt, (tt, (tt, (tt, tt))))))
      IsSound-nil

abbrev renewed : PasswordRecord
renewed = record login {
  password = "new";
  time_password_changed = some 20;
  time_last_used = some 20;
}

abbrev renewed_login : LocalRecord PasswordRecord
renewed_login = record stored_login { content = some renewed; authority_time = 20; dirty = true }

abbrev after_update : VaultContents
after_update = record empty_vault_contents { passwords = ("{1}", renewed_login) ∷ [] }

update_password-Stored_example :
    (old : LocalRecord PasswordRecord) × (d : PasswordRecord) × (l : LocalRecord PasswordRecord)
    × (existing_password "{1}" one_login ≡ some (old, d))
    × Stored "{1}" l one_login after_update
    × (shown l ≡ some renewed)
    × (renewed.hostname ≡ d.hostname)
    × (renewed.username ≡ d.username)
    × (l.synced_at ≡ old.synced_at)
    × (renewed.password ≡ "new")
    × (l.authority_time ≡ 20)
    × (l.dirty ≡ true)
unfolding update_password existing_password change_password password_authority_time Dict.get
    Dict.put
update_password-Stored_example =
    update_password-Stored one_login "{1}" "new" 20 renewed after_update one_login-IsSound refl

abbrev after_touch : VaultContents
after_touch = record empty_vault_contents {
  passwords =
      (
        "{1}",
        record stored_login {
          content = some (record login { time_last_used = some 30; times_used = some 2 });
          dirty = true;
        },
      )
      ∷ [];
}

abbrev after_delete : VaultContents
after_delete = record empty_vault_contents {
  passwords =
      (
        "{1}",
        record {
          id = "{1}";
          content = none;
          deleted = true;
          authority_time = 40;
          synced_at = some 4;
          dirty = true;
        },
      )
      ∷ [];
}

-- One tombstone is old and sent, the other is not sent yet.
abbrev old_tombstone : LocalRecord PasswordRecord
old_tombstone = record {
  id = "{1}";
  content = none;
  deleted = true;
  authority_time = 40;
  synced_at = some 4;
  dirty = false;
}

abbrev unsent_tombstone : LocalRecord PasswordRecord
unsent_tombstone = record old_tombstone { id = "{2}"; dirty = true }

abbrev buried : Dict (LocalRecord PasswordRecord)
buried = ("{1}", old_tombstone) ∷ ("{2}", unsent_tombstone) ∷ []

buried-IsSound : IsSound buried
unfolding Dict.put
buried-IsSound =
    IsSound-put "{2}" unsent_tombstone (("{1}", old_tombstone) ∷ []) refl refl
      (IsSound-put "{1}" old_tombstone [] refl refl IsSound-nil)

purge-IsSafe_example :
    (live_contents
        (Dict.values (purge_records (expired_tombstones (Dict.values buried) 99 30) buried))
      ≡ live_contents (Dict.values buried))
    × ((k : String) (l : LocalRecord PasswordRecord)
        → Dict.get k buried ≡ some l
        → l.dirty ≡ true
        → Dict.get k (purge_records (expired_tombstones (Dict.values buried) 99 30) buried)
          ≡ some l)
purge-IsSafe_example = purge-IsSafe buried 99 30 buried-IsSound
