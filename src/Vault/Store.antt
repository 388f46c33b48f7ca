-- ===== src/Vault/Store.antt =====
-- `VaultStore` of src/vault/store.ts from `create` to the sync state, and src/vault/device-key.ts:
-- the sealed blobs, the keys, and the cached contents. `chrome.storage` and the key store keep what
-- they are given; a call runs to its end before the next one begins.
pub mod Box
pub mod Views
pub mod Calls
pub mod Protection
pub mod Refinement
pub mod AtRest
pub mod Opened
use fire_sync.Prelude.{
  ℕ, String, Bool, true, false, not, ◌&&◌, Option, none, some, is_some, ◌==◌, if◌then◌else◌,
}
use fire_sync.Prelude.Result.{Result, ok, err}
use fire_sync.Sync.Session.{AccountTokens, SyncState}
use fire_sync.Vault.Contents.{VaultContents, empty_vault_contents}
use fire_sync.Vault.Crypto.{
  KdfParams, Plain, of_contents, of_tokens, of_sync, of_verifier, VaultError, vault_locked,
  wrong_passphrase, no_vault, vault_exists, not_by_passphrase, no_verifier, current_required,
  misread, SealedBlob, Cipher, vault_slot, tokens_slot, new_kdf_params, derive_vault_key, seal,
  unseal, make_verifier, check_verifier,
}
use fire_sync.Vault.State.{
  Store, VaultProtection, device, passphrase, VaultMeta, empty_sync_state, Store, Op, bound, ◌>>=◌,
  ◌>>◌, return, throw, lift, modify, gets, or_throw,
}

-- What a call draws anew: a device key, a salt, nonces, the id of a record, and the time.
pub record Fresh (Key : Type 0) : Type 0 where
  pub key : Key
  pub salt : String
  pub iv : String
  pub new_id : String
  pub now : ℕ

-- `if (passphrase)`: the empty text counts as none.
abbrev pub given : Option String → Option String
given none = none
given (some p) = if p == "" then none else some p

abbrev pub protection_in : Option VaultMeta → VaultProtection
protection_in none = device
protection_in (some m) = m.protection

abbrev pub is_open : Bool → VaultProtection → Bool → Bool
is_open false p has_key = false
is_open true device has_key = true
is_open true passphrase has_key = has_key

module _ {Key Text : Type 0} where
  abbrev pub is_initialized : Op Key Text Bool
  is_initialized = gets (λ s. is_some s.meta)

  abbrev pub protection : Op Key Text VaultProtection
  protection = gets (λ s. protection_in s.meta)

  abbrev pub require_meta : Op Key Text VaultMeta
  require_meta = do m ← gets (λ s. s.meta); or_throw no_vault m

  abbrev pub remember_session_key : Key → Op Key Text (Unit {0})
  remember_session_key key = modify (λ s. record s { unlocked = some key })

  -- `MemoryKeyStore.get` after `put` gives the key, so the check of the source passes.
  abbrev pub created_key : Key → Option Key → Op Key Text Key
  created_key new none = do modify (λ s. record s { device_key = some new }); return new
  created_key new (some key) = return key

  abbrev pub get_or_create_device_key : Fresh Key → Op Key Text Key
  get_or_create_device_key fresh = do k ← gets (λ s. s.device_key); created_key fresh.key k

  abbrev pub key_by : Fresh Key → VaultProtection → Op Key Text Key
  key_by fresh device = get_or_create_device_key fresh
  key_by fresh passphrase = do k ← gets (λ s. s.unlocked); or_throw vault_locked k

  abbrev pub require_key : Fresh Key → Op Key Text Key
  require_key fresh = do m ← require_meta; key_by fresh m.protection

  abbrev pub lock : Op Key Text (Unit {0})
  lock = modify (λ s. record s { cached_contents = none; unlocked = none })

  abbrev pub is_unlocked : Op Key Text Bool
  is_unlocked = gets (λ s. is_open (is_some s.meta) (protection_in s.meta) (is_some s.unlocked))

  abbrev pub reset : Op Key Text (Unit {0})
  reset = modify (λ s. record {
    meta = none;
    verifier = none;
    vault = none;
    tokens = none;
    sync = none;
    unlocked = none;
    device_key = none;
    cached_contents = none;
  })

  abbrev pub clear_tokens : Op Key Text (Unit {0})
  clear_tokens = modify (λ s. record s { tokens = none })

abbrev pub contents_of : Plain → Result VaultError VaultContents
contents_of (of_contents c) = ok c
contents_of _ = err misread

abbrev pub tokens_of : Plain → Result VaultError AccountTokens
tokens_of (of_tokens t) = ok t
tokens_of _ = err misread

abbrev pub sync_of : Plain → Result VaultError SyncState
sync_of (of_sync s) = ok s
sync_of _ = err misread

-- The protection that the options of `create` and `setProtection` ask for.
pub record Wanted : Type 0 where
  pub passphrase : Option String
  pub iterations : Option ℕ

module _ {Key Text : Type 0} (cipher : Cipher Key Text) where
  abbrev pub sealed_tokens : Key → String → Option AccountTokens → Option (SealedBlob Text)
  sealed_tokens key iv none = none
  sealed_tokens key iv (some tokens) = some (seal cipher key iv (of_tokens tokens) tokens_slot)

module _ {Key Text : Type 0} (cipher : Cipher Key Text) (fresh : Fresh Key) where
  -- The key and the meta of a new protection; a passphrase's key is held for the session.
  abbrev pub new_key : Option String → Option ℕ → Op Key Text (Key × VaultMeta)
  new_key none iterations = do
    key ← get_or_create_device_key fresh
    return (key, record { version = 1; protection = device; kdf = none; created_at = fresh.now })
  new_key (some p) iterations = do
    key ← lift (derive_vault_key cipher p (new_kdf_params fresh.salt iterations))
    remember_session_key key
    return (
      key,
      record {
        version = 1;
        protection = passphrase;
        kdf = some (new_kdf_params fresh.salt iterations);
        created_at = fresh.now;
      },
    )

  abbrev pub create_new : Option String → Option ℕ → Bool → Op Key Text (Unit {0})
  create_new o iterations true = throw vault_exists
  create_new o iterations false = do
    (key, meta) ← new_key o iterations
    modify (λ s. record s {
      meta = some meta;
      verifier = some (make_verifier cipher key fresh.iv);
      vault = some (seal cipher key fresh.iv (of_contents empty_vault_contents) vault_slot);
      sync = some (seal cipher key fresh.iv (of_sync empty_sync_state) vault_slot);
      cached_contents = some empty_vault_contents;
    })

  unfoldable pub create : Wanted → Op Key Text (Unit {0})
  create wanted = do
    there ← is_initialized
    create_new (given wanted.passphrase) wanted.iterations there

  abbrev pub create_missing : Bool → Op Key Text (Unit {0})
  create_missing true = return tt
  create_missing false = create (record { passphrase = none; iterations = none })

  unfoldable pub ensure : Op Key Text (Unit {0})
  ensure = do there ← is_initialized; create_missing there

  abbrev pub unlock_by : String → VaultProtection → Option KdfParams → Op Key Text (Unit {0})
  unlock_by p passphrase (some params) = do
    v ← gets (λ s. s.verifier)
    verifier ← or_throw no_verifier v
    key ← lift (derive_vault_key cipher p params)
    lift (if check_verifier cipher key verifier then ok tt else err wrong_passphrase)
    remember_session_key key
    modify (λ s. record s { cached_contents = none })
  unlock_by p passphrase none = throw not_by_passphrase
  unlock_by p device kdf = throw not_by_passphrase

  unfoldable pub unlock : String → Op Key Text (Unit {0})
  unlock p = do m ← require_meta; unlock_by p m.protection m.kdf

  abbrev pub contents_in : Key → Option (SealedBlob Text) → Op Key Text VaultContents
  contents_in key none = return empty_vault_contents
  contents_in key (some blob) = do
    x ← lift (unseal cipher key blob vault_slot)
    lift (contents_of x)

  abbrev pub contents_or_cached : Option VaultContents → Op Key Text VaultContents
  contents_or_cached (some contents) = return contents
  contents_or_cached none = do
    key ← require_key fresh
    blob ← gets (λ s. s.vault)
    contents ← contents_in key blob
    modify (λ s. record s { cached_contents = some contents })
    return contents

  unfoldable pub read_contents : Op Key Text VaultContents
  read_contents = do cached ← gets (λ s. s.cached_contents); contents_or_cached cached

  unfoldable pub write_contents : VaultContents → Op Key Text (Unit {0})
  write_contents contents = do
    key ← require_key fresh
    modify (λ s. record s {
      cached_contents = some contents;
      vault = some (seal cipher key fresh.iv (of_contents contents) vault_slot);
    })

  abbrev pub tokens_in : Key → Option (SealedBlob Text) → Op Key Text (Option AccountTokens)
  tokens_in key none = return none
  tokens_in key (some blob) = do
    x ← lift (unseal cipher key blob tokens_slot)
    tokens ← lift (tokens_of x)
    return (some tokens)

  unfoldable pub read_tokens : Op Key Text (Option AccountTokens)
  read_tokens = do key ← require_key fresh; blob ← gets (λ s. s.tokens); tokens_in key blob

  abbrev pub sync_in : Key → Option (SealedBlob Text) → Op Key Text SyncState
  sync_in key none = return empty_sync_state
  sync_in key (some blob) = do x ← lift (unseal cipher key blob vault_slot); lift (sync_of x)

  unfoldable pub read_sync_state : Op Key Text SyncState
  read_sync_state = do key ← require_key fresh; blob ← gets (λ s. s.sync); sync_in key blob

  unfoldable pub write_sync_state : SyncState → Op Key Text (Unit {0})
  write_sync_state state = do
    key ← require_key fresh
    modify (λ s. record s { sync = some (seal cipher key fresh.iv (of_sync state) vault_slot) })

  abbrev pub without_error : SyncState → Op Key Text (Unit {0})
  without_error state =
      if is_some state.last_sync_error
      then write_sync_state (record state { last_sync_error = none })
      else return tt

  -- Connecting an account clears the stored error of a sync.
  unfoldable pub write_tokens : AccountTokens → Op Key Text (Unit {0})
  write_tokens tokens = do
    key ← require_key fresh
    modify
        (λ s. record s { tokens = some (seal cipher key fresh.iv (of_tokens tokens) tokens_slot) })
    state ← read_sync_state
    without_error state

  abbrev pub unlock_current : VaultProtection → Option String → Op Key Text (Unit {0})
  unlock_current device current = return tt
  unlock_current passphrase none = throw current_required
  unlock_current passphrase (some p) = unlock p

  abbrev pub new_lock : Option String → Op Key Text (Unit {0})
  new_lock none = modify (λ s. record s { unlocked = none })
  new_lock (some p) = return tt

  -- The `Promise.all` of the three reads, in order.
  abbrev pub read_all : Op Key Text (VaultContents × Option AccountTokens × SyncState)
  read_all = do
    contents ← read_contents
    tokens ← read_tokens
    state ← read_sync_state
    return (contents, tokens, state)

  abbrev pub sealed_again :
      Key × VaultMeta
      → VaultContents × Option AccountTokens × SyncState
      → Store Key Text
      → Store Key Text
  sealed_again (key, meta) (contents, tokens, state) s = record s {
    meta = some meta;
    verifier = some (make_verifier cipher key fresh.iv);
    vault = some (seal cipher key fresh.iv (of_contents contents) vault_slot);
    sync = some (seal cipher key fresh.iv (of_sync state) vault_slot);
    tokens = sealed_tokens cipher key fresh.iv tokens;
    cached_contents = some contents;
  }

  -- Every blob is sealed again under the new key.
  abbrev pub reseal :
      Option String
      → Option ℕ
      → VaultContents × Option AccountTokens × SyncState
      → Op Key Text (Unit {0})
  reseal next iterations read = do
    made ← new_key next iterations
    new_lock next
    modify (sealed_again made read)

  unfoldable pub set_protection : Wanted → Option String → Op Key Text (Unit {0})
  set_protection next current = do
    meta ← require_meta
    unlock_current meta.protection (given current)
    read ← read_all
    reseal (given next.passphrase) next.iterations read
