-- ===== src/Examples/Session.antt =====
-- Concrete syncs of two collections, by src/sync15/engine.ts.
use mathlib.Core.Logic.{inl, inr}
use native.Mathlib.Omega.{arith}
use fire_sync.Prelude.{
  ℕ, String, refl, true, false, none, some, List, [], ◌∷◌, map, ◌==◌, if◌then◌else◌, eq_iff,
}
use fire_sync.Prelude.Dict.{Dict}
use fire_sync.Prelude.Result.{ok, err}
use fire_sync.Sync.Reconcile.{LocalRecord}
use fire_sync.Sync.Storage.{auth_error, network_error}
use fire_sync.Sync.Storage.Transport.{ClientState}
use fire_sync.Sync.Meta.{MetaGlobal}
use fire_sync.Sync.Engine.{unreadable, Remote}
use fire_sync.Sync.Session.{
  SyncNodeCredentials, AccountTokens, SyncState, Session, Clock, Accounts, Node, SharedClient,
  storage_client,
}
use fire_sync.Sync.Session.Run.{one_of, sync_collections, run_sync}
use fire_sync.Sync.Session.Isolation.{client_before, Has, sync_collections-alone}
use fire_sync.Sync.Session.Report.{IsReported, run_sync-IsReported}
use fire_sync.Sync.Session.Credentials.{IsUsable, storage_client-IsUsable}

abbrev meta : MetaGlobal
meta = record { storage_version = 5; sync_id = "m"; engines = []; declined = some [] }

abbrev edit : LocalRecord String
edit = record {
  id = "a";
  content = some "secret";
  deleted = false;
  authority_time = 5;
  synced_at = none;
  dirty = true;
}

-- The server takes passwords and cannot be reached for addresses.
abbrev remote_of : String → Remote String
remote_of name = record {
  fetch_all = λ newer.
      if name == "passwords"
      then ok (record { records = []; last_modified = some 6 })
      else err network_error;
  post_all =
      λ mark bsos. ok (record { success = map (λ b. b.id) bsos; failed = []; modified = some 7 });
  open_record = λ bso. unreadable;
  seal_record = λ id plain. record { id = id; modified = none; payload = "sealed" };
}

abbrev client : ClientState
client = record { backoff_until = 0; clock_offset = none; last_modified = [] }

-- Addresses are answered with a pause that is over when passwords begin.
abbrev shared : SharedClient String
shared = record {
  remote_at = λ c name. remote_of name;
  left_by =
      λ c name state records. if name == "addresses" then record c { backoff_until = 7 } else c;
}

abbrev authority : String → String → ℕ
authority name text = 5

abbrev info : Dict ℕ
info = ("addresses", 6) ∷ ("passwords", 6) ∷ []

abbrev vault : Dict (Dict (LocalRecord String))
vault = ("passwords", ("a", edit) ∷ []) ∷ []

abbrev names : List String
names = "addresses" ∷ "passwords" ∷ []

-- Addresses fail first, and passwords are synced all the same.
sync_collections-alone_example :
    let run = sync_collections authority shared meta info names client [] vault in
    Has authority shared meta info "passwords" run (
      one_of authority shared meta info "passwords"
        (client_before authority shared meta info names "passwords" client [] vault)
        []
        vault)
sync_collections-alone_example =
    sync_collections-alone authority shared meta info names client [] vault "passwords"
      (((λ e. ground (arith, eq_iff "passwords" "addresses")), tt), (tt, tt)) (inr (inl refl))

abbrev node : SyncNodeCredentials
node = record { api_endpoint = "https://node/"; id = "i"; key = "k"; expires_at = 90_000 }

abbrev accounts : Accounts
accounts = record { refresh = λ token client. ok ("new", 3_600); fetch_node = λ token kid. ok node }

abbrev clock : Clock
clock = record {
  started = 1_000;
  token_checked = 1_001;
  refreshed = 1_002;
  node_checked = 1_003;
  synced = 1_004;
  finished = 1_005;
  last = 1_006;
}

abbrev tokens : AccountTokens
tokens = record {
  uid = "u";
  email = "e";
  refresh_token = "r";
  kid = "1-f";
  k_sync = "s";
  client_id = none;
  device_id = none;
  connected_at = 0;
}

-- The access token has expired, and its node has not.
abbrev session : Session
session = record {
  access_token = some (record { token = "old"; expires_at = 1_001 });
  node = some (record node { id = "old" });
  has_config = false;
}

abbrev renewed : Session
renewed = record {
  access_token = some (record { token = "new"; expires_at = 3_541_002 });
  node = some node;
  has_config = false;
}

storage_client-IsUsable_example : IsUsable accounts clock tokens session node renewed
unfolding storage_client
storage_client-IsUsable_example =
    storage_client-IsUsable accounts clock tokens session renewed node refl

abbrev stored : SyncState
stored = record {
  last_sync_at = some 500;
  last_sync_error = none;
  meta_global_sync_id = some "m";
  collections = [];
}

-- A node that refuses the credentials.
abbrev refusing : SyncNodeCredentials → Node String
refusing credentials = record {
  info_collections = err auth_error;
  meta_global = err auth_error;
  open_keys = λ k_sync. ok shared;
  client = client;
}

run_sync-IsReported_example :
    IsReported authority stored vault
      (run_sync authority accounts clock refusing names (some tokens) session stored vault)
run_sync-IsReported_example =
    run_sync-IsReported authority stored vault accounts clock refusing names (some tokens) session
