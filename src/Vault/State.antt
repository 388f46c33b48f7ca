-- ===== src/Vault/State.antt =====
-- The state of `VaultStore` in src/vault/store.ts, and the calls that read and write it and may throw.
use fire_sync.Prelude.{ℕ, Option, none, some, []}
use fire_sync.Prelude.Result.{Result, ok, err}
use fire_sync.Sync.Session.{SyncState}
use fire_sync.Vault.Contents.{VaultContents}
use fire_sync.Vault.Crypto.{KdfParams, VaultError, SealedBlob}

pub data VaultProtection : Type 0 where
  device passphrase : VaultProtection

pub record VaultMeta : Type 0 where
  pub version : ℕ
  pub protection : VaultProtection
  pub kdf : Option KdfParams
  pub created_at : ℕ

abbrev pub empty_sync_state : SyncState
empty_sync_state = record {
  last_sync_at = none;
  last_sync_error = none;
  meta_global_sync_id = none;
  collections = [];
}

-- The stored values, the key of the session, the device key and the cached contents.
pub record Store (Key Text : Type 0) : Type 0 where
  pub meta : Option VaultMeta
  pub verifier : Option (SealedBlob Text)
  pub vault : Option (SealedBlob Text)
  pub tokens : Option (SealedBlob Text)
  pub sync : Option (SealedBlob Text)
  pub unlocked : Option Key
  pub device_key : Option Key
  pub cached_contents : Option VaultContents

-- A call that reads and writes the store, and may throw.
abbrev pub Op : Type 0 → Type 0 → Type 0 → Type 0
Op Key Text A = Store Key Text → Result VaultError A × Store Key Text

module _ {Key Text : Type 0} where
  abbrev pub bound :
      {A B : Type 0}
      → Result VaultError A × Store Key Text
      → (A → Op Key Text B)
      → Result VaultError B × Store Key Text
  bound (err e, s) f = (err e, s)
  bound (ok a, s) f = f a s

  infixl 5 ◌>>=◌ ◌>>◌
  abbrev pub ◌>>=◌ : {A B : Type 0} → Op Key Text A → (A → Op Key Text B) → Op Key Text B
  ◌>>=◌ m f s = bound (m s) f

  abbrev pub ◌>>◌ : {B : Type 0} → Op Key Text (Unit {0}) → Op Key Text B → Op Key Text B
  ◌>>◌ m f s = bound (m s) (λ _. f)

  abbrev pub return : {A : Type 0} → A → Op Key Text A
  return a s = (ok a, s)

  abbrev pub throw : {A : Type 0} → VaultError → Op Key Text A
  throw e s = (err e, s)

  abbrev pub lift : {A : Type 0} → Result VaultError A → Op Key Text A
  lift r s = (r, s)

  abbrev pub modify : (Store Key Text → Store Key Text) → Op Key Text (Unit {0})
  modify f s = (ok tt, f s)

  abbrev pub gets : {A : Type 0} → (Store Key Text → A) → Op Key Text A
  gets f s = (ok (f s), s)

  abbrev pub or_throw : {A : Type 0} → VaultError → Option A → Op Key Text A
  or_throw e none = throw e
  or_throw e (some a) = return a
