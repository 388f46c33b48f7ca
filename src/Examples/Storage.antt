-- ===== src/Examples/Storage.antt =====
-- Concrete exchanges with the storage server, by src/sync15/storage.ts.
use fire_sync.Prelude.{
  ℕ, ◌≤◌, String, ◌≡◌, refl, ◌≢◌, inl, inr, true, false, none, some, List, [], ◌∷◌, ◌++◌, arith,
  length, All,
}
use fire_sync.Prelude.Result.{ok, err}
use fire_sync.Sync.Storage.{BasicStorageObject, storage_error}
use fire_sync.Sync.Storage.Chunks.{push, flatten, IsAllowed}
use fire_sync.Sync.Storage.Batch.{
  Post, Server, post_records_batched, Sends, bodies, is_ok, post_records_batched-Sends,
  max_records_of, max_bytes_of,
}
use fire_sync.Sync.Storage.Pages.{
  CollectionPage, Gathered, PageServer, Serves, get_all_records, records_of, first_modified,
  get_all_records-Serves,
}
use fire_sync.Sync.Storage.Transport.{
  Response, ClientState, Request, Fetch, number, Timed, request, requests, request-backoff,
  note_response_metadata,
}

abbrev object_named : String → BasicStorageObject
object_named id = record { id = id; modified = none; payload = "sealed" }

abbrev three : List BasicStorageObject
three = object_named "a" ∷ object_named "b" ∷ object_named "c" ∷ []

abbrev ten_bytes : BasicStorageObject → ℕ
ten_bytes bso = 10

-- A server that gives the batch an id and takes everything.
abbrev taking : Server
taking = λ posts. ok (record { success = []; failed = []; batch = some "batch"; modified = some 7 })

post_records_batched-Sends_example :
    (chunks : List (List BasicStorageObject)) × (posts : List Post) × ((post_records_batched
        ten_bytes taking
        (some 4)
        none
        three
        []).1
      ≡ [] ++ posts)
    × Sends
        (some 4)
        true
        chunks
        posts
        (is_ok (post_records_batched ten_bytes taking (some 4) none three []).0)
    × All (IsAllowed ten_bytes (max_records_of none) (max_bytes_of none)) chunks
    × (flatten chunks ≡ three)
    × (is_ok (post_records_batched ten_bytes taking (some 4) none three []).0 ≡ true
        → flatten (bodies posts) ≡ three)
post_records_batched-Sends_example =
    post_records_batched-Sends ten_bytes taking (some 4) none three [] (omega arith) (λ e. cc)

-- A server of two pages.
abbrev two_pages : PageServer
two_pages (x ∷ []) =
    ok (record { records = object_named "a" ∷ []; last_modified = some 4; next_offset = some "1" })
two_pages _ =
    ok (record { records = object_named "b" ∷ []; last_modified = some 5; next_offset = none })

get_all_records-Serves_example :
    (length (get_all_records two_pages none).1 ≤ 501)
    × ((get_all_records two_pages none).0 ≢ none)
    × ((g : Gathered)
        → (get_all_records two_pages none).0 ≡ some (ok g)
        → (served : List CollectionPage) × Serves two_pages none [] served
            (get_all_records two_pages none).1
          × (length served ≤ 500)
          × (g.records ≡ records_of served)
          × (g.last_modified ≡ first_modified none served))
get_all_records-Serves_example = get_all_records-Serves two_pages none

abbrev busy : Response
busy = record {
  status = 503;
  weave_timestamp = none;
  weave_backoff = none;
  backoff = none;
  retry_after = some (number 3_000);
  last_modified = none;
  next_offset = none;
}

abbrev busy_server : Fetch
busy_server = λ asked. some busy

abbrev info : Request
info = record {
  method = "GET";
  path = "/info/collections";
  unmodified_since = none;
  collection = none;
  ignore_backoff = false;
}

abbrev new_client : ClientState
new_client = record { backoff_until = 0; clock_offset = none; last_modified = [] }

abbrev told : ClientState
told = record { backoff_until = 31_000; clock_offset = none; last_modified = [] }

abbrev second_try : List Timed
second_try = record { begun = 2_000; ended = 2_100; call = info } ∷ []

-- A 503 with a `Retry-After` of 30 seconds.
request-backoff_example :
    (requests busy_server second_try told (info ∷ []) ≡ (told, info ∷ []))
    × (info ∷ [] ≡ push [] info)
    × (0 ≤ 31_000)
unfolding request note_response_metadata
request-backoff_example =
    request-backoff busy_server 900 1_000 info new_client told [] (info ∷ []) busy
      (err (storage_error 503)) second_try 3_000 (inr (omega arith)) refl refl
      (inr (inr (refl, refl, inl refl, refl))) (omega arith) ((refl, omega arith), tt)
