-- ===== src/Examples/AuthCheck.antt =====
-- A probe by src/sync15/authcheck.ts of an account that has never synced.
use fire_sync.Prelude.{◌≡◌, true, some, none, [], length}
use fire_sync.Prelude.Result.{ok}
use fire_sync.Sync.Session.{AccountTokens, SyncNodeCredentials}
use fire_sync.Sync.AuthCheck.{Hops, IsProbe, all_stages, run_auth_check, run_auth_check-IsProbe}

abbrev tokens : AccountTokens
tokens = record {
  uid = "u";
  email = "a@b.org";
  refresh_token = "refresh";
  kid = "kid";
  k_sync = "k";
  client_id = none;
  device_id = none;
  connected_at = 1;
}

abbrev node : SyncNodeCredentials
node = record { api_endpoint = "https://node.example/1"; id = "id"; key = "key"; expires_at = 9 }

abbrev hops : Hops
hops = record {
  tokens = some tokens;
  refresh = λ token client. ok ("access", "oldsync");
  fetch_node = λ token kid. ok node;
  host_of = λ url. ok "node.example";
  info_collections = λ n. ok [];
}

run_auth_check-IsProbe_example :
    IsProbe all_stages (run_auth_check hops 4).steps
    × ((run_auth_check hops 4).is_ok ≡ true → length (run_auth_check hops 4).steps ≡ 5)
run_auth_check-IsProbe_example = run_auth_check-IsProbe hops 4
