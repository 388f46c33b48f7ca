-- ===== src/Vault/Crypto.antt =====
-- src/vault/crypto.ts: sealing and unsealing, and the passphrase's key. The ciphers of WebCrypto are
-- a parameter, with what is relied on as `IsIdeal`.
use fire_sync.Prelude.{
  ℕ, String, ◌≡◌, ◌≢◌, Bool, true, false, not, Option, none, some, ltb, ◌==◌, if◌then◌else◌,
}
use fire_sync.Prelude.Result.{Result, ok, err}
use fire_sync.Sync.Session.{AccountTokens, SyncState}
use fire_sync.Vault.Contents.{VaultContents}

abbrev pub default_kdf_iterations : ℕ
default_kdf_iterations = 600_000

pub record KdfParams : Type 0 where
  pub algorithm : String
  pub iterations : ℕ
  pub salt : String

-- What is sealed: `JSON.stringify` of one of these, which `JSON.parse` undoes.
pub data Plain : Type 0 where
  of_contents : VaultContents → Plain
  of_tokens : AccountTokens → Plain
  of_sync : SyncState → Plain
  of_verifier : Bool → Plain

-- The errors of the vault. `misread` is a value of another kind than the caller reads it as.
pub data VaultError : Type 0 where
  vault_locked wrong_passphrase no_vault vault_exists not_by_passphrase no_verifier : VaultError
  current_required unsupported_blob misread : VaultError
  unsupported_kdf missing_password : String → VaultError
  too_few_iterations : ℕ → VaultError

pub record SealedBlob (Text : Type 0) : Type 0 where
  pub v : ℕ
  pub alg : String
  pub iv : String
  pub ct : Text

-- AES-GCM with the slot as additional data; `normalize('NFKC')`; and PBKDF2 with the import of the key.
-- PBKDF2 sees of a passphrase only the block that HMAC makes of its bytes, short ones filled up with
-- zeros and long ones hashed: `block` is that, and `derive` starts from it.
pub record Cipher (Key Text : Type 0) : Type 0 where
  pub encrypt : Key → String → Plain → String → Text
  pub decrypt : Key → String → Text → String → Option Plain
  pub normalize : String → String
  pub block : String → String
  pub derive : String → KdfParams → Key

-- What the key depends on: passphrases that agree in this are one passphrase.
abbrev pub canonical : {Key Text : Type 0} → Cipher Key Text → String → String
canonical cipher passphrase = cipher.block (cipher.normalize passphrase)

-- The authentication tag rejects another key, and other blocks give other keys.
pub record IsIdeal {Key Text : Type 0} (cipher : Cipher Key Text) : Type 0 where
  pub opens :
      (k : Key) (iv : String) (x : Plain) (slot : String)
      → cipher.decrypt k iv (cipher.encrypt k iv x slot) slot ≡ some x
  pub rejects_key :
      (k j : Key) (iv : String) (x : Plain) (slot : String)
      → j ≢ k
      → cipher.decrypt j iv (cipher.encrypt k iv x slot) slot ≡ none
  pub separates :
      (p q : String) (params : KdfParams) → p ≢ q → cipher.derive p params ≢ cipher.derive q params

abbrev pub vault_slot : String
vault_slot = "firesync.vault.v1"

abbrev pub tokens_slot : String
tokens_slot = "firesync.tokens.v1"

abbrev pub verifier_slot : String
verifier_slot = "firesync.verifier.v1"

abbrev pub iterations_of : Option ℕ → ℕ
iterations_of none = default_kdf_iterations
iterations_of (some n) = n

-- The salt is random.
abbrev pub new_kdf_params : String → Option ℕ → KdfParams
new_kdf_params salt iterations = record {
  algorithm = "PBKDF2-SHA256";
  iterations = iterations_of iterations;
  salt = salt;
}

abbrev pub plain_or_rejected : Option Plain → Result VaultError Plain
plain_or_rejected none = err wrong_passphrase
plain_or_rejected (some x) = ok x

-- `value.ok === true`, where unsealing did not throw
abbrev pub says_ok : Result VaultError Plain → Bool
says_ok (ok (of_verifier b)) = b
says_ok _ = false

module _ {Key Text : Type 0} (cipher : Cipher Key Text) where
  abbrev pub derive_vault_key : String → KdfParams → Result VaultError Key
  derive_vault_key passphrase params =
      if not (params.algorithm == "PBKDF2-SHA256")
      then err (unsupported_kdf params.algorithm)
      else if ltb params.iterations 100_000
      then err (too_few_iterations params.iterations)
      else ok (cipher.derive (canonical cipher passphrase) params)

  -- The nonce is random.
  abbrev pub seal : Key → String → Plain → String → SealedBlob Text
  seal key iv value slot = record {
    v = 1;
    alg = "A256GCM";
    iv = iv;
    ct = cipher.encrypt key iv value slot;
  }

  abbrev pub unseal : Key → SealedBlob Text → String → Result VaultError Plain
  unseal key blob slot =
      if not (blob.alg == "A256GCM")
      then err unsupported_blob
      else if ltb 1 blob.v
      then err unsupported_blob
      else plain_or_rejected (cipher.decrypt key blob.iv blob.ct slot)

  abbrev pub make_verifier : Key → String → SealedBlob Text
  make_verifier key iv = seal key iv (of_verifier true) verifier_slot

  abbrev pub check_verifier : Key → SealedBlob Text → Bool
  check_verifier key verifier = says_ok (unseal key verifier verifier_slot)
