-- ===== src/Sync/Storage/Batch.antt =====
-- The requests of `postRecordsBatched` (src/sync15/storage.ts). The server is a parameter: it answers
-- from all the requests so far, the present one last, so that it may keep any state.
use mathlib.Core.List.{append-nil, append_assoc}
use fire_sync.Prelude.{
  ℕ, ◌<◌, String, ◌≡◌, refl, sym, ◌∙◌, ap, ◌≢◌, ◌↔◌, Bool, true, false, Option, none, some, List,
  [], ◌∷◌, ◌++◌, arith, ◌==◌, if◌then◌else◌, or_default, All,
}
use fire_sync.Prelude.Dict
use fire_sync.Prelude.Dict.{Dict}
use fire_sync.Prelude.Result.{Result, ok, err}
use fire_sync.Sync.Storage.{BasicStorageObject, ServerConfiguration, StorageError}
use fire_sync.Sync.Storage.Chunks.{push, flatten, chunk, chunk-IsAllowed, IsAllowed}

-- `query['batch']`: absent, 'true', or the id that the server gave.
pub data BatchQuery : Type 0 where
  no_batch open_batch : BatchQuery
  append_to : String → BatchQuery

-- One `POST` of `postRecordsBatched`.
pub record Post : Type 0 where
  pub batch : BatchQuery
  pub commit : Bool
  pub body : List BasicStorageObject
  pub unmodified_since : Option ℕ

pub record PostResponse : Type 0 where
  pub success : List String
  pub failed : Dict String
  pub batch : Option String
  pub modified : Option ℕ

-- What the loop gathers, and at the end the value that `postRecordsBatched` returns.
pub record Uploaded : Type 0 where
  pub success : List String
  pub failed : Dict String
  pub modified : Option ℕ

abbrev pub nothing_uploaded : Uploaded
nothing_uploaded = record { success = []; failed = []; modified = none }

abbrev pub Server : Type 0
Server = List Post → Result StorageError PostResponse

-- `if (isFirst) … else if (batchId) …`: an empty id counts as none.
abbrev pub batch_query : Bool → Option String → BatchQuery
batch_query true batch_id = open_batch
batch_query false none = no_batch
batch_query false (some id) = if id == "" then no_batch else append_to id

-- `if (result.batch) batchId = result.batch`
abbrev pub next_batch : Option String → Option String → Option String
next_batch batch_id none = batch_id
next_batch batch_id (some id) = if id == "" then batch_id else some id

abbrev pub newer_of : Option ℕ → Option ℕ → Option ℕ
newer_of old none = old
newer_of old (some t) = some t

abbrev pub gather : Uploaded → PostResponse → Uploaded
gather u r = record {
  success = u.success ++ r.success;
  failed = Dict.put_all r.failed u.failed;
  modified = newer_of u.modified r.modified;
}

-- `i === chunks.length - 1`
abbrev pub is_last {ℓ} : {A : Type ℓ} → List A → Bool
is_last [] = true
is_last (_ ∷ _) = false

abbrev pub post_of : Option ℕ → Bool → Option String → List BasicStorageObject → Bool → Post
post_of since first batch_id body last = record {
  batch = batch_query first batch_id;
  commit = last;
  body = body;
  unmodified_since = since;
}

abbrev pub is_ok : {E A : Type 0} → Result E A → Bool
is_ok (ok a) = true
is_ok (err e) = false

module _ (server : Server) (since : Option ℕ) where
  -- The loop over the chunks. The log of requests comes back beside the result.
  unfoldable pub post_chunks :
      Bool
      → Option String
      → Uploaded
      → List (List BasicStorageObject)
      → List Post
      → Result StorageError Uploaded × List Post
  post_chunks first batch_id u [] log = (ok u, log)
  post_chunks first batch_id u (c ∷ chunks) log =
      let log' = push log (post_of since first batch_id c (is_last chunks)) in
      elim (server log') [
        | err e ↦ (err e, log')
        | ok r ↦ post_chunks false (next_batch batch_id r.batch) (gather u r) chunks log'
      ]

-- `options.config?.max_post_records ?? 100` and its kin
abbrev pub max_records_of : Option ServerConfiguration → ℕ
max_records_of none = 100
max_records_of (some config) = or_default config.max_post_records 100

abbrev pub max_bytes_of : Option ServerConfiguration → ℕ
max_bytes_of none = 1_000_000
max_bytes_of (some config) = or_default config.max_post_bytes 1_000_000

module _ (size : BasicStorageObject → ℕ) (server : Server) where
  unfoldable pub post_records_batched :
      Option ℕ
      → Option ServerConfiguration
      → List BasicStorageObject
      → List Post
      → Result StorageError Uploaded × List Post
  post_records_batched since config [] log = (ok nothing_uploaded, log)
  post_records_batched since config (bso ∷ bsos) log =
      post_chunks server since true none nothing_uploaded
        (chunk size (max_records_of config) (max_bytes_of config) (bso ∷ bsos)) log

-- A request carries one chunk and the precondition, opens the batch if it is the first one, and
-- commits it if it is the last.
abbrev pub Fits :
    Option ℕ → Bool → List BasicStorageObject → List (List BasicStorageObject) → Post → Type 0
Fits since first c chunks p =
    (p.body ≡ c)
    × (p.unmodified_since ≡ since)
    × (p.commit ≡ is_last chunks)
    × ((p.batch ≡ open_batch) ↔ (first ≡ true))

-- The requests for the chunks: one each and in order, either all of them, or up to one that the
-- server refused.
pub data Sends (since : Option ℕ)
    : Bool → List (List BasicStorageObject) → List Post → Bool → Type 0 where
  finished : {first : Bool} → Sends since first [] [] true
  refused :
      {first : Bool} {c : List BasicStorageObject} {chunks : List (List BasicStorageObject)}
      {p : Post}
      → Fits since first c chunks p
      → Sends since first (c ∷ chunks) (p ∷ []) false
  sent :
      {first complete : Bool} {c : List BasicStorageObject}
      {chunks : List (List BasicStorageObject)} {p : Post} {posts : List Post}
      → Fits since first c chunks p
      → Sends since false chunks posts complete
      → Sends since first (c ∷ chunks) (p ∷ posts) complete

post_of-Fits :
    (since : Option ℕ) (first : Bool) (batch_id : Option String) (c : List BasicStorageObject)
    (chunks : List (List BasicStorageObject))
    → Fits since first c chunks (post_of since first batch_id c (is_last chunks))
post_of-Fits since true batch_id c chunks = (refl, refl, refl, ((λ e. refl), (λ e. refl)))
post_of-Fits since false none c chunks = (refl, refl, refl, ((λ e. cc), (λ e. cc)))
post_of-Fits since false (some id) c chunks = (refl, refl, refl, ((λ e. ground arith), (λ e. cc)))

module _ (server : Server) (since : Option ℕ) where
  -- The claim about one run of the loop.
  abbrev Sending :
      Bool
      → List (List BasicStorageObject)
      → List Post
      → Result StorageError Uploaded × List Post
      → Type 0
  Sending first chunks log (result, log') =
      (posts : List Post) × (log' ≡ log ++ posts) × Sends since first chunks posts (is_ok result)

  post_chunks-step :
      (first : Bool) (batch_id : Option String) (u : Uploaded) (c : List BasicStorageObject)
      (chunks : List (List BasicStorageObject)) (log : List Post)
      → ((id : Option String) (u' : Uploaded) (l : List Post)
          → Sending false chunks l (post_chunks server since false id u' chunks l))
      → (r : Result StorageError PostResponse)
      → server (push log (post_of since first batch_id c (is_last chunks))) ≡ r
      → Sending first (c ∷ chunks) log (post_chunks server since first batch_id u (c ∷ chunks) log)
  unfolding post_chunks
  post_chunks-step first batch_id u c chunks log later (err e) at =
      rw (at, post_chunks)
        (
          post_of since first batch_id c (is_last chunks) ∷ [],
          refl,
          refused (post_of-Fits since first batch_id c chunks),
        )
  post_chunks-step first batch_id u c chunks log later (ok r) at =
      let p = post_of since first batch_id c (is_last chunks) in
      let (posts, grown, sends) = later (next_batch batch_id r.batch) (gather u r) (push log p) in
      rw (at, post_chunks)
        (
          p ∷ posts,
          grown ∙ append_assoc log (p ∷ []) posts,
          sent (post_of-Fits since first batch_id c chunks) sends,
        )

  post_chunks-Sends :
      (first : Bool) (batch_id : Option String) (u : Uploaded)
      (chunks : List (List BasicStorageObject)) (log : List Post)
      → Sending first chunks log (post_chunks server since first batch_id u chunks log)
  unfolding post_chunks
  post_chunks-Sends first batch_id u [] log = ([], sym (append-nil log), finished)
  post_chunks-Sends first batch_id u (c ∷ chunks) log =
      post_chunks-step first batch_id u c chunks log
        (λ id u' l. post_chunks-Sends false id u' chunks l) _ refl

abbrev pub bodies : List Post → List (List BasicStorageObject)
bodies [] = []
bodies (p ∷ posts) = p.body ∷ bodies posts

bodies-Sends :
    {since : Option ℕ} {first complete : Bool} {chunks : List (List BasicStorageObject)}
    {posts : List Post}
    → Sends since first chunks posts complete
    → complete ≡ true
    → bodies posts ≡ chunks
bodies-Sends finished e = refl
bodies-Sends (refused f) e = cc
bodies-Sends (sent f s) e = cc (f.0, bodies-Sends s e)

module _ (size : BasicStorageObject → ℕ) (server : Server) where
  -- Whatever the server answers, an upload makes one request for each chunk in order: the first
  -- alone opens the batch, the last alone commits it, all carry the precondition, and none follows a
  -- refused one. An upload that succeeds has sent exactly the records it was given, in their order.
  pub post_records_batched-Sends :
      (since : Option ℕ) (config : Option ServerConfiguration) (bsos : List BasicStorageObject)
      (log : List Post)
      → 0 < max_records_of config
      → bsos ≢ []
      → (chunks : List (List BasicStorageObject)) × (posts : List Post) × ((post_records_batched
            size server since config bsos log).1
          ≡ log ++ posts)
        × Sends since true chunks posts
            (is_ok (post_records_batched size server since config bsos log).0)
        × All (IsAllowed size (max_records_of config) (max_bytes_of config)) chunks
        × (flatten chunks ≡ bsos)
        × (is_ok (post_records_batched size server since config bsos log).0 ≡ true
            → flatten (bodies posts) ≡ bsos)
  unfolding post_records_batched
  post_records_batched-Sends since config [] log pos some_there = absurd (some_there refl)
  post_records_batched-Sends since config (bso ∷ bsos) log pos some_there =
      let chunks = chunk size (max_records_of config) (max_bytes_of config) (bso ∷ bsos) in
      let (whole, allowed) =
        chunk-IsAllowed size (max_records_of config) (max_bytes_of config) (bso ∷ bsos) pos in
      let (posts, grown, sends) =
        post_chunks-Sends server since true none nothing_uploaded chunks log in
      (
        chunks,
        posts,
        grown,
        sends,
        allowed,
        whole,
        λ complete. ap flatten (bodies-Sends sends complete) ∙ whole,
      )
