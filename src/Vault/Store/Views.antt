-- ===== src/Vault/Store/Views.antt =====
-- The stores that `VaultStore` of src/vault/store.ts leaves behind, each with the box that it stands
-- for.
use fire_sync.Prelude.{ℕ, String, ◌≡◌, Bool, true, false, Option, none, some, ltb}
use fire_sync.Sync.Session.{AccountTokens, SyncState}
use fire_sync.Vault.Contents.{VaultContents}
use fire_sync.Vault.Crypto.{
  KdfParams, of_contents, of_sync, Cipher, vault_slot, seal, make_verifier,
}
use fire_sync.Vault.State.{device, passphrase, VaultMeta, Store}
use fire_sync.Vault.Store.{sealed_tokens}
use fire_sync.Vault.Store.Box.{Lock, by_device, by_passphrase, Held, Box}

-- The nonces of the blobs, and the time of the meta.
pub record Seals : Type 0 where
  pub verifier_iv : String
  pub vault_iv : String
  pub tokens_iv : String
  pub sync_iv : String
  pub at : ℕ

pub record Values : Type 0 where
  pub contents : VaultContents
  pub tokens : Option AccountTokens
  pub sync : SyncState

-- Whether the key is held, and the contents are cached.
pub data Access : Type 0 where
  locked : Access
  unlocked : Bool → Access

abbrev pub params_of : ℕ → String → KdfParams
params_of n salt = record { algorithm = "PBKDF2-SHA256"; iterations = n; salt = salt }

pub data View (Key : Type 0) : Type 0 where
  absent_view : Option Key → View Key
  device_view : Key → Seals → Bool → Values → View Key
  passphrase_view :
      Option Key
      → String
      → (n : ℕ) → String
      → ltb n 100_000 ≡ false
      → Seals
      → Access
      → Values
      → View Key

abbrev pub held_of : Lock → Values → Held
held_of l x = record { guard = l; contents = x.contents; tokens = x.tokens; sync = x.sync }

abbrev pub is_held : Access → Bool
is_held locked = false
is_held (unlocked cached) = true

abbrev pub box_of : {Key : Type 0} → View Key → Box
box_of (absent_view k) = none
box_of (device_view k seals cached x) = some (held_of by_device x)
box_of (passphrase_view k p n salt enough seals access x) =
    some (held_of (by_passphrase p (is_held access)) x)

abbrev pub cached_of : Bool → VaultContents → Option VaultContents
cached_of false c = none
cached_of true c = some c

abbrev pub cached_by : Access → VaultContents → Option VaultContents
cached_by locked c = none
cached_by (unlocked cached) c = cached_of cached c

module _ {Key Text : Type 0} (cipher : Cipher Key Text) where
  abbrev pub key_held : Key → Access → Option Key
  key_held key locked = none
  key_held key (unlocked cached) = some key

  abbrev pub sealed_store :
      VaultMeta
      → Option Key
      → Option Key
      → Key
      → Seals
      → Option VaultContents
      → Values
      → Store Key Text
  sealed_store meta session device_key key seals cached x = record {
    meta = some meta;
    verifier = some (make_verifier cipher key seals.verifier_iv);
    vault = some (seal cipher key seals.vault_iv (of_contents x.contents) vault_slot);
    tokens = sealed_tokens cipher key seals.tokens_iv x.tokens;
    sync = some (seal cipher key seals.sync_iv (of_sync x.sync) vault_slot);
    unlocked = session;
    device_key = device_key;
    cached_contents = cached;
  }

  abbrev pub store_of : View Key → Store Key Text
  store_of (absent_view k) = record {
    meta = none;
    verifier = none;
    vault = none;
    tokens = none;
    sync = none;
    unlocked = none;
    device_key = k;
    cached_contents = none;
  }
  store_of (device_view k seals cached x) =
      sealed_store (record { version = 1; protection = device; kdf = none; created_at = seals.at })
        none (some k) k seals (cached_of cached x.contents) x
  store_of (passphrase_view k p n salt enough seals access x) =
      let key = cipher.derive p (params_of n salt) in
      sealed_store
        (record {
          version = 1;
          protection = passphrase;
          kdf = some (params_of n salt);
          created_at = seals.at;
        })
        (key_held key access) k key seals (cached_by access x.contents) x
