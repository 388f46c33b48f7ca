-- ===== src/Examples/Reconcile.antt =====
-- Concrete runs of src/sync15/reconcile.ts.
use fire_sync.Prelude.{
  ℕ, String, ◌≡◌, refl, ◌≢◌, ◌⊎◌, inl, inr, true, false, none, some, List, [], ◌∷◌, In,
}
use fire_sync.Prelude.Dict
use fire_sync.Sync.Reconcile.{
  LocalRecord, RemoteRecord, reconcile, reconcile_with, remote_loop, remote_round, local_loop,
  local_round, default_resolve,
}
use fire_sync.Sync.Reconcile.Loops.{conflict_of}
use fire_sync.Sync.Reconcile.Safety.{RemoteBeats, apply-dirty, dirty-kept, apply-upload_disjoint}

abbrev local_edit : String → ℕ → LocalRecord String
local_edit id time = record {
  id = id;
  content = some "local";
  deleted = false;
  authority_time = time;
  synced_at = none;
  dirty = true;
}

abbrev remote_edit : String → ℕ → RemoteRecord String
remote_edit id time = record {
  id = id;
  content = some "remote";
  deleted = false;
  modified = 3;
  authority_time = time;
}

-- `a` is older than its remote version, `b` has none.
abbrev locals : List (LocalRecord String)
locals = local_edit "a" 5 ∷ local_edit "b" 6 ∷ []

abbrev remotes : List (RemoteRecord String)
remotes = remote_edit "a" 9 ∷ []

apply-dirty_example :
    RemoteBeats (local_edit "a" 5) (remote_edit "a" 9)
    × In
        (conflict_of default_resolve (local_edit "a" 5) (remote_edit "a" 9))
        (reconcile locals remotes).conflicts
unfolding reconcile reconcile_with remote_loop remote_round local_loop local_round default_resolve
    Dict.get Dict.put Dict.by_key Dict.put_all
apply-dirty_example =
    apply-dirty locals remotes (remote_edit "a" 9) (local_edit "a" 5) (inl refl) refl refl

dirty-kept_example :
    In (local_edit "b" 6) (reconcile locals remotes).upload_remotely
    ⊎ ((r : RemoteRecord String) × In r (reconcile locals remotes).apply_locally
        × (r.id ≡ "b")
        × RemoteBeats (local_edit "b" 6) r)
unfolding Dict.get Dict.put Dict.by_key Dict.put_all
dirty-kept_example = dirty-kept locals remotes (local_edit "b" 6) (inr (inl refl)) refl refl

apply-upload_disjoint_example : ◌≢◌ {A = String} "a" "b"
unfolding reconcile reconcile_with remote_loop remote_round local_loop local_round default_resolve
    Dict.get Dict.put Dict.by_key Dict.put_all
apply-upload_disjoint_example =
    apply-upload_disjoint locals remotes (remote_edit "a" 9) (local_edit "b" 6) (tt, tt) (inl refl)
      (inl refl)
