-- ===== src/Examples/Engine.antt =====
-- A concrete sync of a collection, by src/sync15/engine.ts.
use mathlib.Core.Path.{subst}
use fire_sync.Prelude.{ℕ, String, ◌≡◌, refl, true, false, none, some, List, [], ◌∷◌, map, In}
use fire_sync.Prelude.Dict
use fire_sync.Prelude.Dict.{Dict, get-put}
use fire_sync.Prelude.Result.{ok, err}
use fire_sync.Sync.Reconcile.{
  LocalRecord, reconcile, reconcile_with, remote_loop, remote_round, local_loop, local_round,
}
use fire_sync.Sync.Storage.{BasicStorageObject, conflict_error}
use fire_sync.Sync.Storage.Batch.{Uploaded}
use fire_sync.Sync.Meta.{MetaGlobal, engine_was_reset}
use fire_sync.Sync.Engine.{
  unreadable, Remote, CollectionState, EngineResult, pull, push_all, sync_collection,
}
use fire_sync.Sync.Engine.Settled.{IsReliable, map-In, sync_collection-clean}
use fire_sync.Sync.Engine.Kept.{Fate, sync_collection-Fate}
use fire_sync.Vault.Contents.{apply_remote, mark_synced}
use fire_sync.Vault.Contents.Invariant.{IsSound, IsSound-nil, IsSound-put}

abbrev meta : MetaGlobal
meta = record { storage_version = 5; sync_id = "m"; engines = []; declined = some [] }

abbrev stored : CollectionState
stored = record { last_modified = some 4; sync_id = none }

abbrev uploaded_of : List BasicStorageObject → Uploaded
uploaded_of bsos = record { success = map (λ b. b.id) bsos; failed = []; modified = some 7 }

-- A server that accepts all that it is sent, and has nothing new.
abbrev accepting : Remote String
accepting = record {
  fetch_all = λ newer. ok (record { records = []; last_modified = none });
  post_all = λ mark bsos. ok (uploaded_of bsos);
  open_record = λ bso. unreadable;
  seal_record = λ id plain. record { id = id; modified = none; payload = "sealed" };
}

-- A server that another client has written to meanwhile.
abbrev contested : Remote String
contested = record {
  fetch_all = λ newer. ok (record { records = []; last_modified = none });
  post_all = λ mark bsos. err (conflict_error none);
  open_record = λ bso. unreadable;
  seal_record = λ id plain. record { id = id; modified = none; payload = "sealed" };
}

abbrev edit : LocalRecord String
edit = record {
  id = "a";
  content = some "secret";
  deleted = false;
  authority_time = 5;
  synced_at = none;
  dirty = true;
}

abbrev vault : Dict (LocalRecord String)
vault = ("a", edit) ∷ []

abbrev sent : LocalRecord String
sent = record edit { synced_at = some 7; dirty = false }

abbrev authority : String → ℕ
authority text = 5

vault-IsSound : IsSound vault
unfolding Dict.put
vault-IsSound = IsSound-put "a" edit [] refl refl IsSound-nil

accepting-IsReliable : IsReliable accepting
accepting-IsReliable = record {
  reports = λ mark bsos uploaded e none_failed b there.
      let is : uploaded_of bsos ≡ uploaded = cc in
      subst (λ u. In b.id u.success) is (map-In (λ x. x.id) b bsos there);
  keeps_id = λ id plain. refl;
}

abbrev clean_result : EngineResult
clean_result = record {
  collection = "passwords";
  pulled = 0;
  pushed = 1;
  conflicts = 0;
  skipped = 0;
  error = none;
}

-- The edit is sent and no longer waits.
sync_collection-clean_example : sent.dirty ≡ false
unfolding sync_collection pull push_all reconcile reconcile_with remote_loop remote_round local_loop
    local_round Dict.get Dict.put Dict.by_key Dict.put_all mark_synced apply_remote engine_was_reset
sync_collection-clean_example =
    sync_collection-clean authority accepting accepting-IsReliable meta "passwords" none stored
      (record { last_modified = some 7; sync_id = none }) vault (("a", sent) ∷ []) clean_result
      vault-IsSound refl refl "a" sent refl

-- Refused with a 412, the edit still stands.
sync_collection-Fate_example :
    Fate authority contested
      (some 4)
      "a"
      edit
      (sync_collection authority contested meta "passwords" none stored vault).2
unfolding Dict.get
sync_collection-Fate_example =
    sync_collection-Fate authority contested meta "passwords" none stored vault "a" edit
      vault-IsSound refl refl
