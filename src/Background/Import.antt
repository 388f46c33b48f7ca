-- ===== src/Background/Import.antt =====
-- `importFromFirefox` of src/background/router.ts, with the logins that the bridge has read.
pub mod Chosen
pub mod Pairs
use Prim.Native.Char.{Char, char}
use Prim.Native.String
use Prim.Native.String.{◌++◌}
use fire_sync.Prelude.{
  ℕ, zero, suc, ◌+◌, String, Bool, true, false, ◌&&◌, not, Option, none, some, List, [], ◌∷◌, map,
  any, ◌==◌, if◌then◌else◌,
}
use fire_sync.Url.{UrlParser}
use fire_sync.Sync.Passwords.{PasswordRecord, NewPasswordInput}
use fire_sync.Vault.Crypto.{Cipher}
use fire_sync.Vault.State.{Op, ◌>>=◌, ◌>>◌, return}
use fire_sync.Vault.Store.{Fresh}
use fire_sync.Vault.Logins.{list_logins, add_login}

pub record ImportedLogin : Type 0 where
  pub origin : String
  pub form_action_origin : Option String
  pub http_realm : Option String
  pub username : String
  pub password : String
  pub username_field : String
  pub password_field : String

-- What has been imported so far, what was passed over, and the keys seen.
pub record Tally : Type 0 where
  pub imported : ℕ
  pub duplicates : ℕ
  pub seen : List String

-- The origin and the username, with a NUL between them.
abbrev pub key_of : String → String → String
key_of origin username = origin ++ String.◌∷◌ (char 0 tt) username

abbrev pub start_of : List PasswordRecord → Tally
start_of existing = record {
  imported = 0;
  duplicates = 0;
  seen = map (λ r. key_of r.hostname r.username) existing;
}

abbrev pub is_complete : ImportedLogin → Bool
is_complete login = not (login.origin == "") && not (login.password == "")

abbrev pub key : ImportedLogin → String
key login = key_of login.origin login.username

-- `seen.has(key)`
abbrev pub is_seen : List String → ImportedLogin → Bool
is_seen seen login = any (λ k. k == key login) seen

-- A login that lacks an origin or a password, or whose key was seen, is passed over.
abbrev pub is_wanted : Tally → ImportedLogin → Bool
is_wanted t login = is_complete login && not (is_seen t.seen login)

abbrev pub passed_over : Tally → Tally
passed_over t = record t { duplicates = suc t.duplicates }

abbrev pub taken : ImportedLogin → Tally → Tally
taken login t = record t { imported = suc t.imported; seen = key login ∷ t.seen }

abbrev pub input_of : ImportedLogin → NewPasswordInput
input_of login = record {
  origin = login.origin;
  username = login.username;
  password = login.password;
  form_action_origin = login.form_action_origin;
  http_realm = login.http_realm;
  username_field = some login.username_field;
  password_field = some login.password_field;
}

module _ {Key Text : Type 0} (cipher : Cipher Key Text) (parse_url : UrlParser) where
  -- One round of the loop; each draws its own id and nonce.
  abbrev pub import_if : Bool → Fresh Key → ImportedLogin → Tally → Op Key Text Tally
  import_if false fresh login t = return (passed_over t)
  import_if true fresh login t = do
    r ← add_login cipher fresh parse_url (input_of login)
    return (taken login t)

  unfoldable pub import_loop : List (Fresh Key × ImportedLogin) → Tally → Op Key Text Tally
  import_loop [] t = return t
  import_loop ((fresh, login) ∷ logins) t = do
    t' ← import_if (is_wanted t login) fresh login t
    import_loop logins t'

  unfoldable pub import_logins : Fresh Key → List (Fresh Key × ImportedLogin) → Op Key Text Tally
  import_logins fresh logins = do
    existing ← list_logins cipher fresh
    import_loop logins (start_of existing)
