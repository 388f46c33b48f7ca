-- ===== src/Vault/Logins.antt =====
-- The calls of `VaultStore` in src/vault/store.ts on its logins: each reads the contents, works on them
-- and writes them.
use fire_sync.Prelude.{ℕ, ◌+◌, String, Bool, not, Option, none, some, List, length, filter}
use fire_sync.Prelude.Dict
use fire_sync.Prelude.Dict.{Dict}
use fire_sync.Prelude.Result.{Result, ok, err}
use fire_sync.Url.{UrlParser}
use fire_sync.Match.Uri.{MatchContext, RegExpEngine}
use fire_sync.Sync.Passwords.{PasswordRecord, NewPasswordInput}
use fire_sync.Sync.Reconcile.{LocalRecord}
use fire_sync.Vault.Contents.{
  VaultContents, NoPassword, no_password_with_id, list_passwords, get_password, add_password,
  update_password, PasswordPatch, patch_password, touch_password, delete_password,
}
use fire_sync.Vault.Contents.Find.{PasswordMatch, find_passwords_for_url}
use fire_sync.Vault.Crypto.{missing_password, Cipher}
use fire_sync.Vault.State.{Op, ◌>>=◌, ◌>>◌, return, throw}
use fire_sync.Vault.Store.{Fresh, read_contents, write_contents}

-- The numbers that `stats` gives.
pub record Stats : Type 0 where
  pub password_count : ℕ
  pub address_count : ℕ
  pub creditcard_count : ℕ
  pub pending_uploads : ℕ

abbrev pub live_count : {T : Type 0} → List (LocalRecord T) → ℕ
live_count ls = length (filter (λ l. not l.deleted) ls)

abbrev pub dirty_count : {T : Type 0} → List (LocalRecord T) → ℕ
dirty_count ls = length (filter (λ l. l.dirty) ls)

unfoldable pub stats_of : VaultContents → Stats
stats_of contents = record {
  password_count = live_count (Dict.values contents.passwords);
  address_count = live_count (Dict.values contents.addresses);
  creditcard_count = live_count (Dict.values contents.creditcards);
  pending_uploads =
      dirty_count (Dict.values contents.passwords)
      + dirty_count (Dict.values contents.addresses)
      + dirty_count (Dict.values contents.creditcards);
}

module _ {Key Text : Type 0} (cipher : Cipher Key Text) (fresh : Fresh Key) where
  abbrev pub written : {A : Type 0} → A × VaultContents → Op Key Text A
  written (a, contents) = do write_contents cipher fresh contents; return a

  abbrev pub written_or_thrown :
      {A : Type 0} → Result NoPassword (A × VaultContents) → Op Key Text A
  written_or_thrown (err (no_password_with_id id)) = throw (missing_password id)
  written_or_thrown (ok made) = written made

  -- A method that returns early writes nothing.
  abbrev pub written_if : Option VaultContents → Op Key Text (Unit {0})
  written_if none = return tt
  written_if (some contents) = write_contents cipher fresh contents

  abbrev pub list_logins : Op Key Text (List PasswordRecord)
  list_logins = do c ← read_contents cipher fresh; return (list_passwords c)

  abbrev pub get_login : String → Op Key Text (Option PasswordRecord)
  get_login id = do c ← read_contents cipher fresh; return (get_password id c)

  abbrev pub find_logins :
      UrlParser
      → RegExpEngine
      → (String → String → Bool)
      → String
      → MatchContext
      → Op Key Text (List PasswordMatch)
  find_logins parse_url regexp comes_first page_url context = do
    c ← read_contents cipher fresh
    return (find_passwords_for_url parse_url regexp comes_first page_url context c)

  abbrev pub add_login : UrlParser → NewPasswordInput → Op Key Text PasswordRecord
  add_login new_url input = do
    c ← read_contents cipher fresh
    written (add_password new_url fresh.new_id fresh.now input c)

  abbrev pub update_login : String → String → Op Key Text PasswordRecord
  update_login id password = do
    c ← read_contents cipher fresh
    written_or_thrown (update_password id password fresh.now c)

  abbrev pub patch_login : String → PasswordPatch → Op Key Text PasswordRecord
  patch_login id patch = do
    c ← read_contents cipher fresh
    written_or_thrown (patch_password id patch c)

  abbrev pub touch_login : String → Op Key Text (Unit {0})
  touch_login id = do c ← read_contents cipher fresh; written_if (touch_password id fresh.now c)

  abbrev pub delete_login : String → Op Key Text (Unit {0})
  delete_login id = do c ← read_contents cipher fresh; written_if (delete_password id fresh.now c)

  abbrev pub stats : Op Key Text Stats
  stats = do c ← read_contents cipher fresh; return (stats_of c)
