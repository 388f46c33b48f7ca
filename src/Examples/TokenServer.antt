-- ===== src/Examples/TokenServer.antt =====
-- A concrete answer of the token server of src/sync15/tokenserver.ts.
use fire_sync.Prelude.{◌≡◌, refl, none, some}
use fire_sync.Prelude.Result.{ok}
use fire_sync.Sync.Session.{SyncNodeCredentials}
use fire_sync.Sync.TokenServer.{
  TokenServerResponse, TokenAnswer, TokenServer, IsServed, fetch_sync_node,
  fetch_sync_node-IsServed,
}

abbrev body : TokenServerResponse
body = record {
  id = "id";
  key = "key";
  api_endpoint = "https://node.example/1";
  duration = some 3_600;
  hashalg = some "sha256";
}

abbrev server : TokenServer
server token key_id = ok (record { status = 200; body = some body })

abbrev node : SyncNodeCredentials
node = record {
  api_endpoint = "https://node.example/1";
  id = "id";
  key = "key";
  expires_at = 3_300_007;
}

fetch_sync_node-IsServed_example :
    (a : TokenAnswer) × (server "token" "kid" ≡ ok a) × IsServed a none 7 node
unfolding fetch_sync_node
fetch_sync_node-IsServed_example = fetch_sync_node-IsServed server "token" "kid" none 7 node refl
