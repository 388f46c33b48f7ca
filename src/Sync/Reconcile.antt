-- ===== src/Sync/Reconcile.antt =====
-- src/sync15/reconcile.ts: two-way reconciliation of the vault with a Sync collection.
-- Server times (`modified`, `syncedAt`) are hundredths of a second, other times milliseconds.
pub mod Loops
pub mod Safety
use fire_sync.Prelude.{
  ℕ, ◌+◌, String, Bool, true, false, not, ◌&&◌, ◌||◌, Option, none, some, List, [], ◌∷◌, ◌++◌, map,
  ltb, eqb, if◌then◌else◌, filter, is_some,
}
use fire_sync.Prelude.Dict
use fire_sync.Prelude.Dict.{Dict}

-- `data` is a word of the language.
pub record LocalRecord (T : Type 0) : Type 0 where
  pub id : String
  pub content : Option T
  pub deleted : Bool
  pub authority_time : ℕ
  pub synced_at : Option ℕ
  pub dirty : Bool

pub record RemoteRecord (T : Type 0) : Type 0 where
  pub id : String
  pub content : Option T
  pub deleted : Bool
  pub modified : ℕ
  pub authority_time : ℕ

pub data Resolution : Type 0 where
  local_wins remote_wins : Resolution

-- The text of `reason` as its parts: which side won, and the two times in the order printed.
pub record Reason : Type 0 where
  pub winner : Resolution
  pub winning_time : ℕ
  pub losing_time : ℕ

pub record Conflict : Type 0 where
  pub id : String
  pub resolution : Resolution
  pub reason : Reason

pub record ReconcileResult (T : Type 0) : Type 0 where
  pub apply_locally : List (RemoteRecord T)
  pub upload_remotely : List (LocalRecord T)
  pub conflicts : List Conflict
  pub ignored_tombstones : List String

-- `localRecord.syncedAt === null || remoteRecord.modified > localRecord.syncedAt`
abbrev pub server_is_newer : Option ℕ → ℕ → Bool
server_is_newer none modified = true
server_is_newer (some at) modified = ltb at modified

abbrev pub beq : Bool → Bool → Bool
beq true b = b
beq false b = not b

module _ {T : Type 0} where
  unfoldable pub default_resolve : LocalRecord T → RemoteRecord T → Resolution
  default_resolve local remote =
      if not (eqb local.authority_time remote.authority_time)
      then (if ltb remote.authority_time local.authority_time then local_wins else remote_wins)
      else if not (beq local.deleted remote.deleted)
      then (if local.deleted then local_wins else remote_wins)
      else remote_wins

  abbrev pub reason_of : Resolution → LocalRecord T → RemoteRecord T → Reason
  reason_of local_wins l r = record {
    winner = local_wins;
    winning_time = l.authority_time;
    losing_time = r.authority_time;
  }
  reason_of remote_wins l r = record {
    winner = remote_wins;
    winning_time = r.authority_time;
    losing_time = l.authority_time;
  }

  -- `new Map(local.map((record) => [record.id, record]))`
  abbrev pub local_by_id : List (LocalRecord T) → Dict (LocalRecord T)
  local_by_id = Dict.by_key (λ record'. record'.id)

  abbrev pub remote_by_id : List (RemoteRecord T) → Dict (RemoteRecord T)
  remote_by_id = Dict.by_key (λ record'. record'.id)

  abbrev pub push_apply : ReconcileResult T → RemoteRecord T → ReconcileResult T
  push_apply result r = record result { apply_locally = result.apply_locally ++ r ∷ [] }

  abbrev pub push_upload : ReconcileResult T → LocalRecord T → ReconcileResult T
  push_upload result l = record result { upload_remotely = result.upload_remotely ++ l ∷ [] }

  abbrev pub push_conflict : ReconcileResult T → Conflict → ReconcileResult T
  push_conflict result c = record result { conflicts = result.conflicts ++ c ∷ [] }

  abbrev pub push_ignored : ReconcileResult T → String → ReconcileResult T
  push_ignored result id = record result {
    ignored_tombstones = result.ignored_tombstones ++ id ∷ [];
  }

  -- The end of a conflicting round: the side that won is pushed.
  abbrev pub push_winner :
      Resolution → LocalRecord T → RemoteRecord T → ReconcileResult T → ReconcileResult T
  push_winner local_wins l r result = push_upload result l
  push_winner remote_wins l r result = push_apply result r

module _ {T : Type 0} (resolve : LocalRecord T → RemoteRecord T → Resolution) where
  -- One round of the loop over the remote records.
  unfoldable pub remote_round :
      Option (LocalRecord T) → RemoteRecord T → ReconcileResult T → ReconcileResult T
  remote_round none r result = if r.deleted then push_ignored result r.id else push_apply result r
  remote_round (some l) r result =
      if not l.dirty
      then (if server_is_newer l.synced_at r.modified then push_apply result r else result)
      else (let resolution = resolve l r in
          push_winner resolution l r (
            push_conflict result
              (record { id = r.id; resolution = resolution; reason = reason_of resolution l r })))

  unfoldable pub remote_loop :
      Dict (LocalRecord T) → List (RemoteRecord T) → ReconcileResult T → ReconcileResult T
  remote_loop locals [] result = result
  remote_loop locals (r ∷ remote) result =
      remote_loop locals remote (remote_round (Dict.get r.id locals) r result)

module _ {T : Type 0} where
  -- One round of the loop over the local records; `remoteById.has`.
  unfoldable pub local_round :
      Dict (RemoteRecord T) → LocalRecord T → ReconcileResult T → ReconcileResult T
  local_round remotes l result =
      if not l.dirty
      then result
      else if is_some (Dict.get l.id remotes)
      then result
      else push_upload result l

  unfoldable pub local_loop :
      Dict (RemoteRecord T) → List (LocalRecord T) → ReconcileResult T → ReconcileResult T
  local_loop remotes [] result = result
  local_loop remotes (l ∷ local) result = local_loop remotes local (local_round remotes l result)

  abbrev pub empty_result : ReconcileResult T
  empty_result = record {
    apply_locally = [];
    upload_remotely = [];
    conflicts = [];
    ignored_tombstones = [];
  }

  unfoldable pub reconcile_with :
      (LocalRecord T → RemoteRecord T → Resolution)
      → List (LocalRecord T)
      → List (RemoteRecord T)
      → ReconcileResult T
  reconcile_with resolve local remote =
      local_loop (remote_by_id remote) local
        (remote_loop resolve (local_by_id local) remote empty_result)

  -- `reconcile` with no `options.resolve`, as the sync engine calls it.
  unfoldable pub reconcile : List (LocalRecord T) → List (RemoteRecord T) → ReconcileResult T
  reconcile = reconcile_with default_resolve

  -- `now - record.authorityTime > maxAgeMs`, for a `maxAgeMs` that is not negative.
  abbrev pub is_expired : ℕ → ℕ → LocalRecord T → Bool
  is_expired now max_age_ms l = l.deleted && not l.dirty && ltb (l.authority_time + max_age_ms) now

  unfoldable pub expired_tombstones : List (LocalRecord T) → ℕ → ℕ → List String
  expired_tombstones local now max_age_ms =
      map (λ l. l.id) (filter (is_expired now max_age_ms) local)
