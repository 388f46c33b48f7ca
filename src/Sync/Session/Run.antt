-- ===== src/Sync/Session/Run.antt =====
-- `runSync` and `readMetaGlobal` of src/sync15/engine.ts: the loop over the collections, and both
-- `catch`es.
use fire_sync.Prelude.{
  ℕ, String, Bool, true, false, not, ◌&&◌, Option, none, some, List, [], ◌∷◌, ltb, eqb,
  if◌then◌else◌, or_default, is_some,
}
use fire_sync.Prelude.Dict
use fire_sync.Prelude.Dict.{Dict}
use fire_sync.Prelude.Result.{Result, ok, err}
use fire_sync.Sync.Reconcile.{LocalRecord}
use fire_sync.Sync.Storage.{StorageError, storage_error, auth_error}
use fire_sync.Sync.Storage.Transport.{ClientState}
use fire_sync.Sync.Meta.{
  MetaGlobal, RawMeta, MetaError, unsupported_storage_version, parse_meta_global,
}
use fire_sync.Sync.Engine.{
  CollectionState, EngineResult, EngineError, Thrown, stopped, sync_collection,
}
use fire_sync.Sync.Session.{
  AccountTokens, SyncFailure, SyncState, Session, SyncResult, Clock, Accounts, Node, SharedClient,
  SyncNodeCredentials, not_connected, never_enabled, unreadable_meta, unsupported_meta,
  storage_refused, engine_failed, storage_client,
}

abbrev pub meta_failure : MetaError → SyncFailure
meta_failure (unsupported_storage_version v) = unsupported_meta v
meta_failure _ = unreadable_meta

abbrev pub parsed_meta : Result MetaError MetaGlobal → Result SyncFailure MetaGlobal
parsed_meta (err e) = err (meta_failure e)
parsed_meta (ok meta) = ok meta

-- `none` of the answer is a payload that is no object, or no JSON.
unfoldable pub read_meta_global :
    Result StorageError (Option RawMeta) → Result SyncFailure MetaGlobal
read_meta_global (err (storage_error status)) =
    if eqb status 404 then err never_enabled else err (storage_refused (storage_error status))
read_meta_global (err e) = err (storage_refused e)
read_meta_global (ok raw) = parsed_meta (parse_meta_global raw)

abbrev pub fresh_state : CollectionState
fresh_state = record { last_modified = none; sync_id = none }

-- What the `catch` around one collection makes of an exception.
abbrev pub engine_result : String → Result Thrown EngineResult → EngineResult
engine_result name (ok result) = result
engine_result name (err thrown) = record {
  collection = name;
  pulled = 0;
  pushed = 0;
  conflicts = 0;
  skipped = 0;
  error = some (stopped thrown);
}

-- `engines.find((engine) => engine.error)?.error ?? null`
abbrev pub first_error : List EngineResult → Option EngineError
first_error [] = none
first_error (r ∷ rest) =
    let later = first_error rest in elim r.error [ none ↦ later | some e ↦ some e ]

-- `engines.every((engine) => !engine.error)`
abbrev pub every_ok : List EngineResult → Bool
every_ok [] = true
every_ok (r ∷ rest) = not (is_some r.error) && every_ok rest

abbrev pub engine_failure : Option EngineError → Option SyncFailure
engine_failure none = none
engine_failure (some e) = some (engine_failed e)

module _ {T : Type 0} (authority : String → T → ℕ) where
  abbrev pub Vault : Type 0
  Vault = Dict (Dict (LocalRecord T))

  module _ (shared : SharedClient T) (meta : MetaGlobal) (info : Dict ℕ) where
    abbrev pub state_of : String → Dict CollectionState → CollectionState
    state_of name states = or_default (Dict.get name states) fresh_state

    abbrev pub records_of : String → Vault → Dict (LocalRecord T)
    records_of name vault = or_default (Dict.get name vault) []

    -- One collection, from its state and its records as they are stored.
    abbrev pub one_of :
        String
        → ClientState
        → Dict CollectionState
        → Vault
        → Result Thrown EngineResult × CollectionState × Dict (LocalRecord T)
    one_of name client states vault =
        sync_collection (authority name) (shared.remote_at client name) meta name
          (Dict.get name info) (state_of name states) (records_of name vault)

    -- The client after one collection.
    abbrev pub client_after : String → ClientState → Dict CollectionState → Vault → ClientState
    client_after name client states vault =
        shared.left_by client name (state_of name states) (records_of name vault)

    -- The loop over the collections.
    unfoldable pub sync_collections :
        List String
        → ClientState
        → Dict CollectionState
        → Vault
        → List EngineResult × Dict CollectionState × Vault × ClientState
    sync_collections [] client states vault = ([], states, vault, client)
    sync_collections (name ∷ names) client states vault =
        let (outcome, state, records) = one_of name client states vault in
        let (results, states', vault', client') =
          sync_collections names (client_after name client states vault)
            (Dict.put name state states) (Dict.put name records vault) in
        (engine_result name outcome ∷ results, states', vault', client')

  abbrev pub Run : Type 0
  Run = SyncResult × Session × SyncState × Vault

  module _ (accounts : Accounts) (clock : Clock) (node_at : SyncNodeCredentials → Node T) where
    abbrev pub dropped_on : SyncFailure → Session → Session
    dropped_on (storage_refused auth_error) session = record session {
      access_token = none;
      node = none;
    }
    dropped_on _ session = session

    -- The outer `catch`: the stored state is read again, and only its error is replaced.
    unfoldable pub failed : SyncFailure → Session → SyncState → Vault → Run
    failed e session stored vault = (
      record {
        is_ok = false;
        started_at = clock.started;
        finished_at = clock.finished;
        engines = [];
        error = some e;
        backoff_until = none;
      },
      dropped_on e session,
      record stored { last_sync_error = some e },
      vault,
    )

    unfoldable pub finished :
        MetaGlobal
        → Session
        → SyncState
        → List EngineResult × Dict CollectionState × Vault × ClientState
        → Run
    finished meta session stored (results, states, vault, client) = (
      record {
        is_ok = every_ok results;
        started_at = clock.started;
        finished_at = clock.finished;
        engines = results;
        error = none;
        backoff_until =
            if ltb clock.last client.backoff_until then some client.backoff_until else none;
      },
      session,
      record {
        last_sync_at = some clock.synced;
        last_sync_error = engine_failure (first_error results);
        meta_global_sync_id = some meta.sync_id;
        collections = states;
      },
      vault,
    )

    abbrev pub run_keys :
        List String
        → ClientState
        → MetaGlobal
        → Dict ℕ
        → Session
        → SyncState
        → Vault
        → Result SyncFailure (SharedClient T)
        → Run
    run_keys names client meta info session stored vault (err e) = failed e session stored vault
    run_keys names client meta info session stored vault (ok shared) =
        finished meta session stored
          (sync_collections shared meta info names client stored.collections vault)

    abbrev pub run_meta :
        List String
        → AccountTokens
        → Node T
        → Dict ℕ
        → Session
        → SyncState
        → Vault
        → Result SyncFailure MetaGlobal
        → Run
    run_meta names tokens node info session stored vault (err e) = failed e session stored vault
    run_meta names tokens node info session stored vault (ok meta) =
        run_keys names node.client meta info (record session { has_config = true }) stored vault
          (node.open_keys tokens.k_sync)

    abbrev pub run_info :
        List String
        → AccountTokens
        → Node T
        → Session
        → SyncState
        → Vault
        → Result StorageError (Dict ℕ)
        → Run
    run_info names tokens node session stored vault (err e) =
        failed (storage_refused e) session stored vault
    run_info names tokens node session stored vault (ok info) =
        run_meta names tokens node info session stored vault (read_meta_global node.meta_global)

    abbrev pub run_client :
        List String
        → AccountTokens
        → SyncState
        → Vault
        → Result SyncFailure SyncNodeCredentials × Session
        → Run
    run_client names tokens stored vault (err e, session) = failed e session stored vault
    run_client names tokens stored vault (ok credentials, session) =
        let node = node_at credentials in
        run_info names tokens node session stored vault node.info_collections

    unfoldable pub run_sync : List String → Option AccountTokens → Session → SyncState → Vault → Run
    run_sync names none session stored vault = failed not_connected session stored vault
    run_sync names (some tokens) session stored vault =
        run_client names tokens stored vault (storage_client accounts clock (some tokens) session)
