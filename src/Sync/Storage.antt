-- ===== src/Sync/Storage.antt =====
-- src/sync15/storage.ts: the storage client.
pub mod Chunks
pub mod Batch
pub mod Pages
pub mod Transport
use fire_sync.Prelude.{ℕ, String, Option}
use fire_sync.Prelude.Dict.{Dict}

pub record BasicStorageObject : Type 0 where
  pub id : String
  pub modified : Option ℕ
  pub payload : String

pub record ServerConfiguration : Type 0 where
  pub max_post_records : Option ℕ
  pub max_post_bytes : Option ℕ

-- An error that a request throws.
pub data StorageError : Type 0 where
  storage_error : ℕ → StorageError
  conflict_error : Option ℕ → StorageError
  auth_error network_error malformed_body : StorageError
