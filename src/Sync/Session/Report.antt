-- ===== src/Sync/Session/Report.antt =====
-- What a call of `runSync` in src/sync15/engine.ts reports, stores and keeps.
use fire_sync.Prelude.{ℕ, String, ◌≡◌, refl, not, ◌&&◌, Option, none, some, List, [], ◌∷◌, is_some}
use fire_sync.Prelude.Dict.{Dict}
use fire_sync.Prelude.Result.{Result, ok, err}
use fire_sync.Sync.Storage.{
  StorageError, storage_error, conflict_error, auth_error, network_error, malformed_body,
}
use fire_sync.Sync.Storage.Transport.{ClientState}
use fire_sync.Sync.Meta.{MetaGlobal}
use fire_sync.Sync.Engine.{EngineResult, CollectionState}
use fire_sync.Sync.Session.{
  AccountTokens, SyncFailure, storage_refused, not_connected, never_enabled, unreadable_meta,
  unsupported_meta, refused, engine_failed, SyncState, Session, Clock, Accounts, Node, SharedClient,
  SyncNodeCredentials, storage_client,
}
use fire_sync.Sync.Session.Run.{
  Vault, Run, every_ok, first_error, engine_failure, failed, finished, dropped_on, read_meta_global,
  run_keys, run_meta, run_info, run_client, run_sync,
}

every_ok-first_error :
    (results : List EngineResult)
    → every_ok results ≡ not (is_some (engine_failure (first_error results)))
every_ok-first_error [] = refl
every_ok-first_error (r ∷ results) =
    elim r.error
      as (λ o.
        (not (is_some o) && every_ok results)
        ≡ not
            (is_some (engine_failure (elim o [ none ↦ first_error results | some e ↦ some e ])))) [
              | none ↦ every_ok-first_error results
              | some e ↦ refl
            ]

module _ {T : Type 0} (authority : String → T → ℕ) (stored : SyncState)
    (vault : Vault authority) where
  -- After a 401 of the storage server that ends the run, no credentials are kept.
  abbrev pub IsDropped : SyncFailure → Session → Type 0
  IsDropped (storage_refused auth_error) session =
      (session.node ≡ none) × (session.access_token ≡ none)
  IsDropped _ session = Unit

  -- By the error of the run as a whole.
  abbrev pub IsKept :
      Option SyncFailure → List EngineResult → Session → SyncState → Vault authority → Type 0
  IsKept none engines session state vault' =
      state.last_sync_error ≡ engine_failure (first_error engines)
  IsKept (some e) engines session state vault' =
      (state ≡ record stored { last_sync_error = some e }) × (vault' ≡ vault) × IsDropped e session

  -- The run is reported as it went.
  unfoldable pub IsReported : Run authority → Type 0
  IsReported (result, session, state, vault') =
      (result.is_ok ≡ not (is_some state.last_sync_error))
      × IsKept result.error result.engines session state vault'

  dropped_on-IsDropped :
      (accounts : Accounts) (clock : Clock) (node_at : SyncNodeCredentials → Node T)
      (e : SyncFailure) (session : Session)
      → IsDropped e (dropped_on authority accounts clock node_at e session)
  dropped_on-IsDropped accounts clock node_at (storage_refused auth_error) session = (refl, refl)
  dropped_on-IsDropped accounts clock node_at (storage_refused (storage_error s)) session = tt
  dropped_on-IsDropped accounts clock node_at (storage_refused (conflict_error t)) session = tt
  dropped_on-IsDropped accounts clock node_at (storage_refused network_error) session = tt
  dropped_on-IsDropped accounts clock node_at (storage_refused malformed_body) session = tt
  dropped_on-IsDropped accounts clock node_at not_connected session = tt
  dropped_on-IsDropped accounts clock node_at never_enabled session = tt
  dropped_on-IsDropped accounts clock node_at unreadable_meta session = tt
  dropped_on-IsDropped accounts clock node_at (unsupported_meta v) session = tt
  dropped_on-IsDropped accounts clock node_at (refused m) session = tt
  dropped_on-IsDropped accounts clock node_at (engine_failed f) session = tt

  module _ (accounts : Accounts) (clock : Clock) (node_at : SyncNodeCredentials → Node T) where
    failed-IsReported :
        (e : SyncFailure) (session : Session)
        → IsReported (failed authority accounts clock node_at e session stored vault)
    unfolding IsReported failed
    failed-IsReported e session =
        (refl, (refl, refl, dropped_on-IsDropped accounts clock node_at e session))

    finished-IsReported :
        (meta : MetaGlobal) (session : Session)
        (all : List EngineResult × Dict CollectionState × Vault authority × ClientState)
        → IsReported (finished authority accounts clock node_at meta session stored all)
    unfolding IsReported finished
    finished-IsReported meta session (results, states, vault', client) =
        (every_ok-first_error results, refl)

    run_keys-IsReported :
        (names : List String) (client : ClientState) (meta : MetaGlobal) (info : Dict ℕ)
        (session : Session) (keys : Result SyncFailure (SharedClient T))
        → IsReported (
            run_keys authority accounts clock node_at names client meta info session stored vault
              keys)
    run_keys-IsReported names client meta info session (err e) = failed-IsReported e session
    run_keys-IsReported names client meta info session (ok shared) =
        finished-IsReported meta session _

    run_meta-IsReported :
        (names : List String) (tokens : AccountTokens) (node : Node T) (info : Dict ℕ)
        (session : Session) (meta : Result SyncFailure MetaGlobal)
        → IsReported (
            run_meta authority accounts clock node_at names tokens node info session stored vault
              meta)
    run_meta-IsReported names tokens node info session (err e) = failed-IsReported e session
    run_meta-IsReported names tokens node info session (ok meta) =
        run_keys-IsReported names node.client meta info _ (node.open_keys tokens.k_sync)

    run_info-IsReported :
        (names : List String) (tokens : AccountTokens) (node : Node T) (session : Session)
        (info : Result StorageError (Dict ℕ))
        → IsReported
            (run_info authority accounts clock node_at names tokens node session stored vault info)
    run_info-IsReported names tokens node session (err e) =
        failed-IsReported (storage_refused e) session
    run_info-IsReported names tokens node session (ok info) =
        run_meta-IsReported names tokens node info session (read_meta_global node.meta_global)

    run_client-IsReported :
        (names : List String) (tokens : AccountTokens)
        (client : Result SyncFailure SyncNodeCredentials × Session)
        → IsReported (run_client authority accounts clock node_at names tokens stored vault client)
    run_client-IsReported names tokens (err e, session) = failed-IsReported e session
    run_client-IsReported names tokens (ok credentials, session) =
        run_info-IsReported names tokens (node_at credentials) session _

    -- A sync is reported as good exactly if it leaves no error in the stored state. One that fails as a
    -- whole changes no record and no mark, only the error; if it fails as a whole by a 401 of the storage
    -- server, outside of the collections, no token and no node is kept.
    pub run_sync-IsReported :
        (names : List String) (tokens : Option AccountTokens) (session : Session)
        → IsReported (run_sync authority accounts clock node_at names tokens session stored vault)
    unfolding run_sync
    run_sync-IsReported names none session = failed-IsReported _ session
    run_sync-IsReported names (some tokens) session =
        run_client-IsReported names tokens (storage_client accounts clock (some tokens) session)
