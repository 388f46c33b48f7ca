-- ===== src/Vault/Contents.antt =====
-- src/vault/types.ts and the operations of `VaultStore` (src/vault/store.ts) on the decrypted
-- contents: what each does between `readContents` and `writeContents`.
pub mod Invariant
pub mod Passwords
pub mod Purge
pub mod Find
use fire_sync.Prelude.{
  ℕ, zero, ◌+◌, String, Bool, true, false, not, ◌&&◌, Option, none, some, List, [], ◌∷◌, ◌++◌, map,
  filter, length, is_some, or_default, if◌then◌else◌,
}
use fire_sync.Prelude.Dict
use fire_sync.Prelude.Dict.{Dict}
use fire_sync.Prelude.Result.{Result, ok, err}
use fire_sync.Url.{UrlParser}
use fire_sync.Sync.Reconcile.{LocalRecord}
use fire_sync.Sync.Passwords.{
  PasswordRecord, NewPasswordInput, new_password_record, password_authority_time,
  mark_password_used, change_password,
}
use fire_sync.Sync.Addresses.{AddressRecord, CreditCardRecord}

pub data SyncCollectionName : Type 0 where
  passwords addresses creditcards : SyncCollectionName

abbrev pub vault_contents_version : ℕ
vault_contents_version = 1

pub record VaultContents : Type 0 where
  pub version : ℕ
  pub passwords : Dict (LocalRecord PasswordRecord)
  pub addresses : Dict (LocalRecord AddressRecord)
  pub creditcards : Dict (LocalRecord CreditCardRecord)

abbrev pub empty_vault_contents : VaultContents
empty_vault_contents = record {
  version = vault_contents_version;
  passwords = [];
  addresses = [];
  creditcards = [];
}

-- `contents.passwords[id]` has no data to work on.
pub data NoPassword : Type 0 where
  no_password_with_id : String → NoPassword

-- `.filter((record) => !record.deleted && record.data).map((record) => record.data)`
abbrev pub live_content : {T : Type 0} → LocalRecord T → List T
live_content l = elim l.content [ none ↦ [] | some d ↦ if not l.deleted then d ∷ [] else [] ]

abbrev pub live_contents : {T : Type 0} → List (LocalRecord T) → List T
live_contents [] = []
live_contents (l ∷ ls) = live_content l ++ live_contents ls

unfoldable pub list_passwords : VaultContents → List PasswordRecord
list_passwords contents = live_contents (Dict.values contents.passwords)

unfoldable pub get_password : String → VaultContents → Option PasswordRecord
get_password id contents = elim (Dict.get id contents.passwords) [
  | none ↦ none
  | some l ↦ if not l.deleted then l.content else none
]

abbrev pub put_password : String → LocalRecord PasswordRecord → VaultContents → VaultContents
put_password id l contents = record contents { passwords = Dict.put id l contents.passwords }

unfoldable pub add_password :
    UrlParser → String → ℕ → NewPasswordInput → VaultContents → PasswordRecord × VaultContents
add_password new_url new_id now input contents =
    let made = new_password_record new_url new_id now input in
    (
      made,
      put_password made.id
          (record {
            id = made.id;
            content = some made;
            deleted = false;
            authority_time = password_authority_time made;
            synced_at = none;
            dirty = true;
          })
          contents,
    )

-- `{ ...existing, data: updated, authorityTime: passwordAuthorityTime(updated), dirty: true }`
abbrev pub edited : LocalRecord PasswordRecord → PasswordRecord → LocalRecord PasswordRecord
edited existing updated = record existing {
  content = some updated;
  authority_time = password_authority_time updated;
  dirty = true;
}

-- The shared start of the edits: `if (!existing?.data) throw`.
unfoldable pub existing_password :
    String → VaultContents → Option (LocalRecord PasswordRecord × PasswordRecord)
existing_password id contents = elim (Dict.get id contents.passwords) [
  | none ↦ none
  | some l ↦ elim l.content [ none ↦ none | some d ↦ some (l, d) ]
]

unfoldable pub update_password :
    String → String → ℕ → VaultContents → Result NoPassword (PasswordRecord × VaultContents)
update_password id password now contents = elim (existing_password id contents) [
  | none ↦ err (no_password_with_id id)
  | some (existing, d) ↦
      (let updated = change_password d password now in
        ok (updated, put_password id (edited existing updated) contents))
]

-- A `Partial<PasswordRecord>`: the fields that it sets, each with its value.
pub record PasswordPatch : Type 0 where
  pub hostname : Option String
  pub form_submit_url : Option (Option String)
  pub http_realm : Option (Option String)
  pub username : Option String
  pub password : Option String
  pub username_field : Option (Option String)
  pub password_field : Option (Option String)
  pub time_created : Option (Option ℕ)
  pub time_password_changed : Option (Option ℕ)
  pub time_last_used : Option (Option ℕ)
  pub times_used : Option (Option ℕ)

-- `{ ...data, ...patch, id }`
unfoldable pub patched : PasswordRecord → PasswordPatch → String → PasswordRecord
patched d patch id = record {
  id = id;
  hostname = or_default patch.hostname d.hostname;
  form_submit_url = or_default patch.form_submit_url d.form_submit_url;
  http_realm = or_default patch.http_realm d.http_realm;
  username = or_default patch.username d.username;
  password = or_default patch.password d.password;
  username_field = or_default patch.username_field d.username_field;
  password_field = or_default patch.password_field d.password_field;
  time_created = or_default patch.time_created d.time_created;
  time_password_changed = or_default patch.time_password_changed d.time_password_changed;
  time_last_used = or_default patch.time_last_used d.time_last_used;
  times_used = or_default patch.times_used d.times_used;
}

unfoldable pub patch_password :
    String → PasswordPatch → VaultContents → Result NoPassword (PasswordRecord × VaultContents)
patch_password id patch contents = elim (existing_password id contents) [
  | none ↦ err (no_password_with_id id)
  | some (existing, d) ↦
      (let updated = patched d patch id in
        ok (updated, put_password id (edited existing updated) contents))
]

-- `none`: the method returns before it writes.
unfoldable pub touch_password : String → ℕ → VaultContents → Option VaultContents
touch_password id now contents = elim (existing_password id contents) [
  | none ↦ none
  | some (existing, d) ↦ some (
      put_password id (record existing { content = some (mark_password_used d now); dirty = true })
        contents)
]

unfoldable pub delete_password : String → ℕ → VaultContents → Option VaultContents
delete_password id now contents = elim (Dict.get id contents.passwords) [
  | none ↦ none
  | some existing ↦ some (
      put_password id
        (record {
          id = id;
          content = none;
          deleted = true;
          authority_time = now;
          synced_at = existing.synced_at;
          dirty = true;
        })
        contents)
]

-- The sync support works on one collection, whatever its payload.
module _ {T : Type 0} where
  unfoldable pub apply_remote : List (LocalRecord T) → Dict (LocalRecord T) → Dict (LocalRecord T)
  apply_remote [] target = target
  apply_remote (l ∷ records) target = apply_remote records (Dict.put l.id l target)

  abbrev pub synced : ℕ → LocalRecord T → LocalRecord T
  synced server_modified l = record l { dirty = false; synced_at = some server_modified }

  unfoldable pub mark_synced : List String → ℕ → Dict (LocalRecord T) → Dict (LocalRecord T)
  mark_synced [] server_modified target = target
  mark_synced (id ∷ ids) server_modified target =
      mark_synced ids server_modified (elim (Dict.get id target) [
        | none ↦ target
        | some l ↦ Dict.put id (synced server_modified l) target
      ])

  unfoldable pub purge_records : List String → Dict (LocalRecord T) → Dict (LocalRecord T)
  purge_records [] target = target
  purge_records (id ∷ ids) target = purge_records ids (Dict.remove id target)

pub record Stats : Type 0 where
  pub passwords : ℕ
  pub addresses : ℕ
  pub creditcards : ℕ
  pub pending_uploads : ℕ

abbrev pub dirty_count : {T : Type 0} → List (LocalRecord T) → ℕ
dirty_count ls = length (filter (λ l. l.dirty) ls)

abbrev pub live_count : {T : Type 0} → List (LocalRecord T) → ℕ
live_count ls = length (filter (λ l. not l.deleted) ls)

-- The three lists are counted one by one: a list of the model holds one payload type.
unfoldable pub stats : VaultContents → Stats
stats contents = record {
  passwords = live_count (Dict.values contents.passwords);
  addresses = live_count (Dict.values contents.addresses);
  creditcards = live_count (Dict.values contents.creditcards);
  pending_uploads =
      dirty_count (Dict.values contents.passwords)
      + dirty_count (Dict.values contents.addresses)
      + dirty_count (Dict.values contents.creditcards);
}
