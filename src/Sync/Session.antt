-- ===== src/Sync/Session.antt =====
-- `storageClient` of src/sync15/engine.ts and `areNodeCredentialsFresh` of src/sync15/tokenserver.ts,
-- with the state that `runSync` reads and stores. The accounts server, the token server and the
-- storage node are parameters; the vault is unlocked throughout. One type holds the payloads of all
-- collections.
pub mod Run
pub mod Isolation
pub mod Report
pub mod Credentials
use fire_sync.Prelude.{
  ℕ, ◌+◌, ◌*◌, ◌-◌, String, Bool, true, false, not, ◌&&◌, Option, none, some, List, [], ◌∷◌, ltb,
  leb, eqb, ◌==◌, if◌then◌else◌, or_default, is_some,
}
use fire_sync.Prelude.Dict
use fire_sync.Prelude.Dict.{Dict}
use fire_sync.Prelude.Result.{Result, ok, err}
use fire_sync.Sync.Reconcile.{LocalRecord}
use fire_sync.Sync.Storage.{StorageError, storage_error, auth_error}
use fire_sync.Sync.Storage.Transport.{ClientState}
use fire_sync.Sync.Meta.{
  MetaGlobal, RawMeta, MetaError, unsupported_storage_version, parse_meta_global,
}
use fire_sync.Sync.Engine.{
  Remote, CollectionState, EngineResult, EngineError, Thrown, stopped, sync_collection,
}

pub record AccessToken : Type 0 where
  pub token : String
  pub expires_at : ℕ

-- The credentials of a storage node.
pub record SyncNodeCredentials : Type 0 where
  pub api_endpoint : String
  pub id : String
  pub key : String
  pub expires_at : ℕ

pub record AccountTokens : Type 0 where
  pub uid : String
  pub email : String
  pub refresh_token : String
  pub kid : String
  pub k_sync : String
  pub client_id : Option String
  pub device_id : Option String
  pub connected_at : ℕ

-- What `sync` may fail with as a whole. `refused` is an error of a server of the accounts, or of the
-- keys, by its message.
pub data SyncFailure : Type 0 where
  not_connected never_enabled unreadable_meta : SyncFailure
  unsupported_meta : ℕ → SyncFailure
  refused : String → SyncFailure
  storage_refused : StorageError → SyncFailure
  engine_failed : EngineError → SyncFailure

pub record SyncState : Type 0 where
  pub last_sync_at : Option ℕ
  pub last_sync_error : Option SyncFailure
  pub meta_global_sync_id : Option String
  pub collections : Dict CollectionState

-- The fields of the engine that outlive a call. Only whether the configuration of the server has
-- been asked for is kept of it.
pub record Session : Type 0 where
  pub access_token : Option AccessToken
  pub node : Option SyncNodeCredentials
  pub has_config : Bool

pub record SyncResult : Type 0 where
  pub is_ok : Bool
  pub started_at : ℕ
  pub finished_at : ℕ
  pub engines : List EngineResult
  pub error : Option SyncFailure
  pub backoff_until : Option ℕ

-- The clock at each place that reads it, in the order of the reads.
pub record Clock : Type 0 where
  pub started : ℕ
  pub token_checked : ℕ
  pub refreshed : ℕ
  pub node_checked : ℕ
  pub synced : ℕ
  pub finished : ℕ
  pub last : ℕ

-- The accounts server and the token server. `refresh` answers with a token and the seconds it lasts.
pub record Accounts : Type 0 where
  pub refresh : String → Option String → Result String (String × ℕ)
  pub fetch_node : String → String → Result String SyncNodeCredentials

-- The one storage client that all collections of a run use: what the requests of a collection come to
-- while the client is in a state, with a pause in force or none, and the state that they leave it in, by
-- the state and the records that the collection starts from.
pub record SharedClient (T : Type 0) : Type 0 where
  pub remote_at : ClientState → String → Remote T
  pub left_by : ClientState → String → CollectionState → Dict (LocalRecord T) → ClientState

-- The storage node, for the credentials of a client. `client` is the state of the client when the keys
-- have been read.
pub record Node (T : Type 0) : Type 0 where
  pub info_collections : Result StorageError (Dict ℕ)
  pub meta_global : Result StorageError (Option RawMeta)
  pub open_keys : String → Result SyncFailure (SharedClient T)
  pub client : ClientState

-- `!!credentials && credentials.expiresAt > Date.now()`
abbrev pub are_node_credentials_fresh : ℕ → Option SyncNodeCredentials → Bool
are_node_credentials_fresh now none = false
are_node_credentials_fresh now (some credentials) = ltb now credentials.expires_at

abbrev pub is_expired : ℕ → Option AccessToken → Bool
is_expired now none = true
is_expired now (some t) = leb t.expires_at now

-- `tokens.clientId ? { clientId: tokens.clientId } : {}`
abbrev pub client_of : Option String → Option String
client_of none = none
client_of (some client) = if client == "" then none else some client

-- `expiresAt: this.now() + Math.max(0, refreshed.expires_in - 60) * 1000`
abbrev pub access_for : ℕ → String × ℕ → AccessToken
access_for now (token, expires_in) = record {
  token = token;
  expires_at = now + (expires_in - 60) * 1_000;
}

module _ (accounts : Accounts) (clock : Clock) where
  abbrev pub node_from :
      Session → Result String SyncNodeCredentials → Result SyncFailure SyncNodeCredentials × Session
  node_from session (err e) = (err (refused e), session)
  node_from session (ok node) = (ok node, record session { node = some node })

  abbrev pub cached_or_fetched :
      AccountTokens
      → AccessToken
      → Session
      → Option SyncNodeCredentials
      → Result SyncFailure SyncNodeCredentials × Session
  cached_or_fetched tokens access session none =
      node_from session (accounts.fetch_node access.token tokens.kid)
  cached_or_fetched tokens access session (some node) =
      if are_node_credentials_fresh clock.node_checked (some node)
      then (ok node, session)
      else node_from session (accounts.fetch_node access.token tokens.kid)

  -- The node of the session if it is fresh, or a new one for the access token.
  abbrev pub node_for :
      AccountTokens → AccessToken → Session → Result SyncFailure SyncNodeCredentials × Session
  node_for tokens access session = cached_or_fetched tokens access session session.node

  abbrev pub refreshed_from :
      AccountTokens
      → Session
      → Result String (String × ℕ)
      → Result SyncFailure SyncNodeCredentials × Session
  refreshed_from tokens session (err e) = (err (refused e), session)
  refreshed_from tokens session (ok granted) =
      let access = access_for clock.refreshed granted in
      node_for tokens access (record session { access_token = some access; node = none })

  abbrev pub held_or_refreshed :
      AccountTokens
      → Session
      → Option AccessToken
      → Result SyncFailure SyncNodeCredentials × Session
  held_or_refreshed tokens session none =
      refreshed_from tokens session
        (accounts.refresh tokens.refresh_token (client_of tokens.client_id))
  held_or_refreshed tokens session (some access) =
      if is_expired clock.token_checked (some access)
      then refreshed_from tokens session
          (accounts.refresh tokens.refresh_token (client_of tokens.client_id))
      else node_for tokens access session

  -- The credentials of the storage client, and the session.
  unfoldable pub storage_client :
      Option AccountTokens → Session → Result SyncFailure SyncNodeCredentials × Session
  storage_client none session = (err not_connected, session)
  storage_client (some tokens) session = held_or_refreshed tokens session session.access_token
