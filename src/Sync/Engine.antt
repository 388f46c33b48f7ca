-- ===== src/Sync/Engine.antt =====
-- `syncCollection` and `decodeRecord` of src/sync15/engine.ts, for a collection of any payload.
-- The storage client is an interface, that of `getAllRecords` and `postRecordsBatched`; the
-- encryption and the payload's authority time are parameters.
pub mod Settled
pub mod Kept
pub mod Lookups
use fire_sync.Prelude.{
  ℕ, ◌+◌, ◌*◌, String, Bool, true, false, not, ◌&&◌, ◌||◌, Option, none, some, List, [], ◌∷◌, ◌++◌,
  map, ltb, if◌then◌else◌, length, or_default, is_some,
}
use fire_sync.Prelude.Dict
use fire_sync.Prelude.Dict.{Dict}
use fire_sync.Prelude.Result.{Result, ok, err}
use fire_sync.Sync.Reconcile.{LocalRecord, RemoteRecord, ReconcileResult, reconcile}
use fire_sync.Sync.Storage.{BasicStorageObject, StorageError, conflict_error}
use fire_sync.Sync.Storage.Batch.{Uploaded}
use fire_sync.Sync.Storage.Pages.{Gathered}
use fire_sync.Sync.Meta.{MetaGlobal, engine_was_reset, remote_sync_id}
use fire_sync.Vault.Contents.{apply_remote, mark_synced}

-- The plain text of a record: a tombstone, or a payload.
pub data Plain (T : Type 0) : Type 0 where
  tombstone : Plain T
  live : T → Plain T

-- What decryption makes of a record: nothing that can be read, an exception, or the plain text.
pub data Opened (T : Type 0) : Type 0 where
  unreadable crashed : Opened T
  opened : Plain T → Opened T

-- The storage client and the keys of a collection. `fetch_all` is given the time that only newer
-- records are wanted from; `post_all` the precondition.
pub record Remote (T : Type 0) : Type 0 where
  pub fetch_all : Option ℕ → Result StorageError Gathered
  pub post_all : Option ℕ → List BasicStorageObject → Result StorageError Uploaded
  pub open_record : BasicStorageObject → Opened T
  pub seal_record : String → Plain T → BasicStorageObject

pub record CollectionState : Type 0 where
  pub last_modified : Option ℕ
  pub sync_id : Option String

-- What `syncCollection` throws.
pub data Thrown : Type 0 where
  storage_failure : StorageError → Thrown
  decryption_crashed : Thrown

-- `stopped` is what an exception leaves in the result.
pub data EngineError : Type 0 where
  rejected_records : ℕ → EngineError
  changed_mid_sync : EngineError
  stopped : Thrown → EngineError

pub record EngineResult : Type 0 where
  pub collection : String
  pub pulled : ℕ
  pub pushed : ℕ
  pub conflicts : ℕ
  pub skipped : ℕ
  pub error : Option EngineError

-- `serverLastModified !== undefined && (state.lastModified === null || …)`
abbrev pub server_has_changes : Option ℕ → Option ℕ → Bool
server_has_changes none last = false
server_has_changes (some server) none = true
server_has_changes (some server) (some last) = ltb last server

abbrev pub newer_mark : Option ℕ → Option ℕ → Option ℕ
newer_mark mark none = mark
newer_mark mark (some t) = some t

abbrev pub rejection : ℕ → Option EngineError
rejection n = if ltb 0 n then some (rejected_records n) else none

module _ {T : Type 0} where
  abbrev pub with_decoded :
      Option (RemoteRecord T) → List (RemoteRecord T) × ℕ → List (RemoteRecord T) × ℕ
  with_decoded none (records, skipped) = (records, skipped + 1)
  with_decoded (some r) (records, skipped) = (r ∷ records, skipped)

  abbrev pub and_then :
      Result Thrown (Option (RemoteRecord T))
      → Result Thrown (List (RemoteRecord T) × ℕ)
      → Result Thrown (List (RemoteRecord T) × ℕ)
  and_then (err e) rest = err e
  and_then (ok r) (err e) = err e
  and_then (ok r) (ok pulled) = ok (with_decoded r pulled)

  abbrev pub local_of : RemoteRecord T → LocalRecord T
  local_of r = record {
    id = r.id;
    content = r.content;
    deleted = r.deleted;
    authority_time = r.authority_time;
    synced_at = some r.modified;
    dirty = false;
  }

  -- What is uploaded. A record of the vault that is no tombstone has data (`IsSound`), so that the
  -- middle case does not arise.
  abbrev pub plain_of : Bool → Option T → Plain T
  plain_of true content = tombstone
  plain_of false none = tombstone
  plain_of false (some value) = live value

module _ {T : Type 0} (authority : T → ℕ) (remote : Remote T) where
  -- Server times are hundredths of a second, authority times milliseconds.
  abbrev pub remote_of : BasicStorageObject → Plain T → RemoteRecord T
  remote_of bso tombstone = record {
    id = bso.id;
    content = none;
    deleted = true;
    modified = or_default bso.modified 0;
    authority_time = or_default bso.modified 0 * 10;
  }
  remote_of bso (live value) = record {
    id = bso.id;
    content = some value;
    deleted = false;
    modified = or_default bso.modified 0;
    authority_time = authority value;
  }

  abbrev pub decoded : BasicStorageObject → Opened T → Result Thrown (Option (RemoteRecord T))
  decoded bso unreadable = ok none
  decoded bso crashed = err decryption_crashed
  decoded bso (opened plain) = ok (some (remote_of bso plain))

  unfoldable pub decode_record : BasicStorageObject → Result Thrown (Option (RemoteRecord T))
  decode_record bso = decoded bso (remote.open_record bso)

  -- The loop over the records fetched: those that decode, and the number of those skipped.
  unfoldable pub decode_all : List BasicStorageObject → Result Thrown (List (RemoteRecord T) × ℕ)
  decode_all [] = ok ([], 0)
  decode_all (bso ∷ bsos) = let rest = decode_all bsos in and_then (decode_record bso) rest

  abbrev pub pulled_from :
      Option ℕ → Result StorageError Gathered → Result Thrown (List (RemoteRecord T) × ℕ × Option ℕ)
  pulled_from last (err e) = err (storage_failure e)
  pulled_from last (ok gathered) = elim (decode_all gathered.records) [
    | err e ↦ err e
    | ok (records, skipped) ↦ ok (records, skipped, newer_mark last gathered.last_modified)
  ]

  -- The records pulled, how many were skipped, and the high-water mark.
  unfoldable pub pull : Option ℕ → Option ℕ → Result Thrown (List (RemoteRecord T) × ℕ × Option ℕ)
  pull server_last_modified last =
      if server_has_changes server_last_modified last
      then pulled_from last (remote.fetch_all last)
      else ok ([], 0, last)

  abbrev pub bso_of : LocalRecord T → BasicStorageObject
  bso_of l = remote.seal_record l.id (plain_of l.deleted l.content)

  -- The outcome, the state of the collection, and its records in the vault.
  abbrev pub Outcome : Type 0
  Outcome = Result Thrown EngineResult × CollectionState × Dict (LocalRecord T)

  abbrev pub pushed_from :
      EngineResult
      → CollectionState
      → Option ℕ
      → Dict (LocalRecord T)
      → Result StorageError Uploaded
      → Outcome
  pushed_from result state mark vault (err (conflict_error t)) = (
    ok (record result { error = some changed_mid_sync }),
    record state { last_modified = none },
    vault,
  )
  pushed_from result state mark vault (err e) = (err (storage_failure e), state, vault)
  pushed_from result state mark vault (ok uploaded) = (
    ok (record result {
      pushed = length uploaded.success;
      error = rejection (length uploaded.failed);
    }),
    record state { last_modified = newer_mark mark uploaded.modified },
    mark_synced uploaded.success (or_default uploaded.modified 0) vault,
  )

  unfoldable pub push_all :
      EngineResult
      → CollectionState
      → Option ℕ
      → List (LocalRecord T)
      → Dict (LocalRecord T)
      → Outcome
  push_all result state mark [] vault = (ok result, record state { last_modified = mark }, vault)
  push_all result state mark (l ∷ uploads) vault =
      pushed_from result state mark vault (remote.post_all mark (map bso_of (l ∷ uploads)))

  -- `reconcile`, the records applied, and the push.
  abbrev pub settle :
      String
      → CollectionState
      → Dict (LocalRecord T)
      → List (RemoteRecord T) × ℕ × Option ℕ
      → Outcome
  settle name state vault (records, skipped, mark) =
      let plan = reconcile (Dict.values vault) records in
      push_all
        (record {
          collection = name;
          pulled = length plan.apply_locally;
          pushed = 0;
          conflicts = length plan.conflicts;
          skipped = skipped;
          error = none;
        })
        state mark plan.upload_remotely (apply_remote (map local_of plan.apply_locally) vault)

  abbrev pub settled_from :
      String
      → CollectionState
      → Dict (LocalRecord T)
      → Result Thrown (List (RemoteRecord T) × ℕ × Option ℕ)
      → Outcome
  settled_from name state vault (err e) = (err e, state, vault)
  settled_from name state vault (ok pulled) = settle name state vault pulled

  -- The state after the check of the sync id.
  abbrev pub checked_state : MetaGlobal → String → CollectionState → CollectionState
  checked_state meta name state = record {
    last_modified = if engine_was_reset meta name state.sync_id then none else state.last_modified;
    sync_id = remote_sync_id meta name;
  }

  unfoldable pub sync_collection :
      MetaGlobal → String → Option ℕ → CollectionState → Dict (LocalRecord T) → Outcome
  sync_collection meta name server_last_modified stored vault =
      let state = checked_state meta name stored in
      settled_from name state vault (pull server_last_modified state.last_modified)
