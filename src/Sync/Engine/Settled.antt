-- ===== src/Sync/Engine/Settled.antt =====
-- What a sync of a collection leaves in the vault.
use mathlib.Core.Path.{subst}
use fire_sync.Prelude.{
  ℕ, String, ◌≡◌, refl, sym, ◌∙◌, ap, ◌⊎◌, inl, inr, true, false, Option, none, some, List, [], ◌∷◌,
  map, ltb, length, or_default, arith, In, Bool-cases,
}
use fire_sync.Prelude.Dict
use fire_sync.Prelude.Dict.{Dict}
use fire_sync.Prelude.Dict.Entries.{get-In}
use fire_sync.Prelude.Dict.Keyed.{get-by_key, by_key-has}
use fire_sync.Prelude.Result.{Result, ok, err}
use fire_sync.Sync.Reconcile.{LocalRecord, RemoteRecord, reconcile, local_by_id}
use fire_sync.Sync.Reconcile.Safety.{dirty-kept}
use fire_sync.Sync.Storage.{
  BasicStorageObject, StorageError, storage_error, conflict_error, auth_error, network_error,
  malformed_body,
}
use fire_sync.Sync.Storage.Batch.{Uploaded}
use fire_sync.Sync.Meta.{MetaGlobal}
use fire_sync.Sync.Engine.{
  Plain, Remote, CollectionState, EngineError, rejected_records, changed_mid_sync, EngineResult,
  Thrown, rejection, plain_of, local_of, bso_of, push_all, pushed_from, settled_from, checked_state,
  sync_collection,
}
use fire_sync.Sync.Engine.Lookups.{apply_remote-get, marked, mark_synced-get}
use fire_sync.Vault.Contents.{apply_remote, mark_synced, synced}
use fire_sync.Vault.Contents.Invariant.{IsSound, IsSound-at_id}

pub map-In : {A B : Type 0} (f : A → B) (a : A) (xs : List A) → In a xs → In (f a) (map f xs)
map-In f a [] h = elim h [ ]
map-In f a (x ∷ xs) (inl e) = inl (ap f e)
map-In f a (x ∷ xs) (inr h) = inr (map-In f a xs h)

pub In-map :
    {A B : Type 0} (f : A → B) (b : B) (xs : List A)
    → In b (map f xs)
    → (a : A) × In a xs × (b ≡ f a)
In-map f b [] h = elim h [ ]
In-map f b (x ∷ xs) (inl e) = (x, inl refl, e)
In-map f b (x ∷ xs) (inr h) = let (a, there, e) = In-map f b xs h in (a, inr there, e)

-- `reconcile` compares a remote record with the stored record of its id.
pub found-at :
    {T : Type 0} (vault : Dict (LocalRecord T)) (k : String) (l : LocalRecord T)
    → IsSound vault
    → Dict.get k vault ≡ some l
    → (l.id ≡ k)
      × In l (Dict.values vault)
      × (Dict.get l.id (local_by_id (Dict.values vault)) ≡ some l)
found-at vault k l sound at =
    let own = (sound.at_key k l at).0 in
    let there = get-In k l vault at in
    let (q, has) = by_key-has (λ (x : LocalRecord _). x.id) (Dict.values vault) l there in
    let (q_there, q_id) = get-by_key (λ (x : LocalRecord _). x.id) (Dict.values vault) l.id q has in
    let at_q = IsSound-at_id q vault sound q_there in
    let same : some q ≡ some l = sym at_q ∙ ap (λ i. Dict.get i vault) (q_id ∙ own) ∙ at in
    (own, there, has ∙ same)

rejection-none : (failed : Dict String) → rejection (length failed) ≡ none → failed ≡ []
rejection-none [] e = refl
rejection-none (x ∷ failed) e =
    let some_failed : ltb 0 (length (x ∷ failed)) ≡ true = ground arith in
    let it : Path (Option EngineError) (some (rejected_records (length (x ∷ failed)))) none =
      rw some_failed at e in
    cc

-- What the storage server documents: a record that it does not report as failed is reported as a
-- success. And sealing a record keeps its id.
pub record IsReliable {T : Type 0} (remote : Remote T) : Type 0 where
  pub reports :
      (mark : Option ℕ) (bsos : List BasicStorageObject) (uploaded : Uploaded)
      → remote.post_all mark bsos ≡ ok uploaded
      → uploaded.failed ≡ []
      → (b : BasicStorageObject) → In b bsos
      → In b.id uploaded.success
  pub keeps_id : (id : String) (plain : Plain T) → (remote.seal_record id plain).id ≡ id

failed_run :
    {A : Type 0} {thrown : Thrown} {result : EngineResult}
    → Path (Result Thrown EngineResult) (err thrown) (ok result)
    → A
failed_run e = cc

mark_none : {T : Type 0} (vault : Dict (LocalRecord T)) → vault ≡ mark_synced [] 0 vault
unfolding mark_synced
mark_none vault = refl

module _ {T : Type 0} (authority : T → ℕ) (remote : Remote T) where
  -- The records of the vault after the push.
  pub push_all-vault :
      (result : EngineResult) (state : CollectionState) (mark : Option ℕ)
      (uploads : List (LocalRecord T)) (vault : Dict (LocalRecord T))
      → ((push_all authority remote result state mark uploads vault).2 ≡ vault)
        ⊎ ((ids : List String) × (at : ℕ) × ((push_all authority remote result state mark uploads
                vault).2
              ≡ mark_synced ids at vault))
  unfolding push_all
  push_all-vault result state mark [] vault = inl refl
  push_all-vault result state mark (l ∷ uploads) vault = from _
    where
      from :
          (r : Result StorageError Uploaded)
          → ((pushed_from authority remote result state mark vault r).2 ≡ vault)
            ⊎ ((ids : List String) × (at : ℕ) × ((pushed_from authority remote result state mark
                    vault r).2
                  ≡ mark_synced ids at vault))
      from (err (conflict_error t)) = inl refl
      from (err (storage_error n)) = inl refl
      from (err auth_error) = inl refl
      from (err network_error) = inl refl
      from (err malformed_body) = inl refl
      from (ok uploaded) = inr (uploaded.success, or_default uploaded.modified 0, refl)

  -- A push that reports no error has had every record accepted.
  push_all-accepted :
      IsReliable remote
      → (result : EngineResult) (state : CollectionState) (mark : Option ℕ)
        (uploads : List (LocalRecord T)) (vault vault' : Dict (LocalRecord T))
        (result' : EngineResult) (state' : CollectionState)
      → push_all authority remote result state mark uploads vault ≡ (ok result', state', vault')
      → result'.error ≡ none
      → (ids : List String) × (at : ℕ) × (vault' ≡ mark_synced ids at vault)
        × ((l : LocalRecord T) → In l uploads → In l.id ids)
  unfolding push_all
  push_all-accepted reliable result state mark [] vault vault' result' state' run clean =
      ([], 0, sym (ap (λ x. x.2) run) ∙ mark_none vault, λ l h. elim h [ ])
  push_all-accepted reliable result state mark (l ∷ uploads) vault vault' result' state' run clean =
      from _ refl run
    where
      from :
          (r : Result StorageError Uploaded)
          → remote.post_all mark (map (bso_of authority remote) (l ∷ uploads)) ≡ r
          → pushed_from authority remote result state mark vault r ≡ (ok result', state', vault')
          → (ids : List String) × (at : ℕ) × (vault' ≡ mark_synced ids at vault)
            × ((k : LocalRecord T) → In k (l ∷ uploads) → In k.id ids)
      from (err (conflict_error t)) posted e =
          let same : ok (record result { error = some changed_mid_sync }) ≡ ok result' =
            ap (λ x. x.0) e in
          let is : record result { error = some changed_mid_sync } ≡ result' = cc in
          let it : some changed_mid_sync ≡ none = ap (λ x. x.error) is ∙ clean in cc
      from (err (storage_error n)) posted e = failed_run (ap (λ x. x.0) e)
      from (err auth_error) posted e = failed_run (ap (λ x. x.0) e)
      from (err network_error) posted e = failed_run (ap (λ x. x.0) e)
      from (err malformed_body) posted e = failed_run (ap (λ x. x.0) e)
      from (ok uploaded) posted e =
          let done : EngineResult = record result {
            pushed = length uploaded.success;
            error = rejection (length uploaded.failed);
          } in
          let same : ok done ≡ ok result' = ap (λ x. x.0) e in
          let is : done ≡ result' = cc in
          let none_failed : uploaded.failed ≡ [] =
            rejection-none uploaded.failed (ap (λ x. x.error) is ∙ clean) in
          (
            uploaded.success,
            or_default uploaded.modified 0,
            sym (ap (λ x. x.2) e),
            λ k h.
                subst (λ i. In i uploaded.success)
                  (reliable.keeps_id k.id (plain_of k.deleted k.content))
                  (reliable.reports mark _ uploaded posted none_failed (bso_of authority remote k)
                    (map-In (bso_of authority remote) k (l ∷ uploads) h)),
          )

module _ {T : Type 0} (authority : T → ℕ) (remote : Remote T) where
  -- The vault once the records of the plan are applied.
  abbrev pub applied_to : List (RemoteRecord T) → Dict (LocalRecord T) → Dict (LocalRecord T)
  applied_to records vault =
      apply_remote (map local_of (reconcile (Dict.values vault) records).apply_locally) vault

  settled_from-ok :
      (name : String) (state : CollectionState) (vault : Dict (LocalRecord T))
      (pulled : Result Thrown (List (RemoteRecord T) × ℕ × Option ℕ)) (result' : EngineResult)
      (state' : CollectionState) (vault' : Dict (LocalRecord T))
      → settled_from authority remote name state vault pulled ≡ (ok result', state', vault')
      → (records : List (RemoteRecord T)) × (result : EngineResult) × (mark : Option ℕ) × (push_all
            authority remote result state mark
            (reconcile (Dict.values vault) records).upload_remotely
            (applied_to records vault)
          ≡ (ok result', state', vault'))
  settled_from-ok name state vault (err e) result' state' vault' run =
      failed_run (ap (λ x. x.0) run)
  settled_from-ok name state vault (ok (records, skipped, mark)) result' state' vault' run =
      (records, _, mark, run)

  clean-marked :
      (at : ℕ) (o : Option (LocalRecord T)) (l : LocalRecord T)
      → marked at o ≡ some l
      → l.dirty ≡ false
  clean-marked at none l e = cc
  clean-marked at (some x) l e = let is : synced at x ≡ l = cc in sym (ap (λ y. y.dirty) is)

  unmarked-clean :
      (records : List (RemoteRecord T)) (vault : Dict (LocalRecord T)) (ids : List String)
      → IsSound vault
      → ((u : LocalRecord T)
          → In u (reconcile (Dict.values vault) records).upload_remotely
          → In u.id ids)
      → (k : String) (l : LocalRecord T) → (In k ids → ⊥)
      → Dict.get k (applied_to records vault) ≡ some l
      → l.dirty ≡ false
  unmarked-clean records vault ids sound accepted k l unmarked at =
      elim (apply_remote-get (map local_of (reconcile (Dict.values vault) records).apply_locally)
        vault k) [
          | inr (r, there, own, e) ↦
              let (q, _, is) = In-map local_of r _ there in
              let same : some r ≡ some l = sym e ∙ at in
              let is_l : r ≡ l = cc in sym (ap (λ x. x.dirty) is_l) ∙ ap (λ x. x.dirty) is
          | inl (e, none_applied) ↦ elim (Bool-cases l.dirty) [
            | inr clean ↦ clean
            | inl dirty ↦
                let (own, there, seen) = found-at vault k l sound (sym e ∙ at) in
                absurd (elim (dirty-kept (Dict.values vault) records l there seen dirty) [
                  | inl uploaded ↦ unmarked (subst (λ i. In i ids) own (accepted l uploaded))
                  | inr (r, applies, same, beats) ↦
                      none_applied (local_of r) (map-In local_of r _ applies) (same ∙ own)
                ])
          ]
        ]

  -- With a reliable server, a sync of a sound vault that reports no error leaves nothing to upload.
  pub sync_collection-clean :
      IsReliable remote
      → (meta : MetaGlobal) (name : String) (server_last_modified : Option ℕ)
        (stored state' : CollectionState) (vault vault' : Dict (LocalRecord T))
        (result' : EngineResult)
      → IsSound vault
      → sync_collection authority remote meta name server_last_modified stored vault
        ≡ (ok result', state', vault')
      → result'.error ≡ none
      → (k : String) (l : LocalRecord T) → Dict.get k vault' ≡ some l
      → l.dirty ≡ false
  unfolding sync_collection
  sync_collection-clean reliable meta name server_last_modified stored state' vault vault' result'
        sound run clean k l at =
      let (records, result, mark, pushed) =
        settled_from-ok name (checked_state authority remote meta name stored) vault _ result'
          state' vault' run in
      let (ids, time, is, accepted) =
        push_all-accepted authority remote reliable result _ mark _ (applied_to records vault)
          vault' result' state' pushed clean in
      let at' : Dict.get k (mark_synced ids time (applied_to records vault)) ≡ some l =
        rw (sym is) at in
      elim (mark_synced-get ids time (applied_to records vault) k) [
        | inl (marked_there, e) ↦ clean-marked time _ l (sym e ∙ at')
        | inr (unmarked, e) ↦
            unmarked-clean records vault ids sound accepted k l unmarked (sym e ∙ at')
      ]
