-- ===== src/Sync/Engine/Kept.antt =====
-- What becomes of an unsent edit in `syncCollection` of src/sync15/engine.ts.
use fire_sync.Prelude.{
  ℕ, String, ◌≡◌, refl, sym, ◌∙◌, ap, ◌⊎◌, inl, inr, true, Option, some, List, [], ◌∷◌, map, In,
  Bool-cases,
}
use mathlib.Core.Path.{subst}
use fire_sync.Prelude.Dict
use fire_sync.Prelude.Dict.{Dict}
use fire_sync.Prelude.Result.{Result, ok, err}
use fire_sync.Sync.Reconcile.{LocalRecord, RemoteRecord, reconcile, local_by_id}
use fire_sync.Sync.Reconcile.Safety.{apply-In, apply-dirty, RemoteBeats}
use fire_sync.Sync.Storage.{BasicStorageObject, StorageError}
use fire_sync.Sync.Storage.Pages.{Gathered}
use fire_sync.Sync.Meta.{MetaGlobal}
use fire_sync.Sync.Engine.{
  EngineResult, push_all, Remote, CollectionState, Thrown, local_of, settled_from, checked_state,
  sync_collection, Plain, Opened, unreadable, crashed, opened, decoded, decode_record, decode_all,
  and_then, remote_of, pull, pulled_from, newer_mark, server_has_changes,
}
use fire_sync.Sync.Engine.Lookups.{apply_remote-get, marked, mark_synced-get}
use fire_sync.Sync.Engine.Settled.{found-at, In-map, applied_to, push_all-vault}
use fire_sync.Vault.Contents.{mark_synced, synced}
use fire_sync.Vault.Contents.Invariant.{IsSound}

module _ {T : Type 0} (authority : T → ℕ) (remote : Remote T) where
  -- The edit still stands, sent or not.
  abbrev pub SameEdit : LocalRecord T → LocalRecord T → Type 0
  SameEdit l l' =
      (l'.content ≡ l.content) × (l'.deleted ≡ l.deleted) × (l'.authority_time ≡ l.authority_time)

  -- The record came from the server: the fetch of what is newer than `last` answered with it, and it was
  -- opened.
  abbrev pub Fetched : Option ℕ → RemoteRecord T → Type 0
  Fetched last r =
      (gathered : Gathered) × (bso : BasicStorageObject) × (plain : Plain T) × (remote.fetch_all
          last
        ≡ ok gathered)
      × In bso gathered.records
      × (remote.open_record bso ≡ opened plain)
      × (r ≡ remote_of authority remote bso plain)

  -- A version of the same id that the server answered with stands in its place, as it came, and beats it
  -- by rule.
  abbrev pub Beaten : Option ℕ → LocalRecord T → LocalRecord T → Type 0
  Beaten last l l' =
      (r : RemoteRecord T) × Fetched last r
      × (r.id ≡ l.id)
      × RemoteBeats l r
      × (l'.content ≡ r.content)
      × (l'.deleted ≡ r.deleted)
      × (l'.authority_time ≡ r.authority_time)

  abbrev pub Fate : Option ℕ → String → LocalRecord T → Dict (LocalRecord T) → Type 0
  Fate last k l vault =
      (l' : LocalRecord T) × (Dict.get k vault ≡ some l') × (SameEdit l l' ⊎ Beaten last l l')

  -- Of the first record and the others, one that decodes was fetched.
  decoded-Fetched :
      (last : Option ℕ) (gathered : Gathered) (bso : BasicStorageObject)
      (rest : Result Thrown (List (RemoteRecord T) × ℕ))
      → remote.fetch_all last ≡ ok gathered
      → In bso gathered.records
      → (r : RemoteRecord T)
      → ((rs : List (RemoteRecord T)) (n : ℕ) → rest ≡ ok (rs, n) → In r rs → Fetched last r)
      → (records : List (RemoteRecord T)) (skipped : ℕ) (o : Opened T) → remote.open_record bso ≡ o
      → and_then (decoded authority remote bso o) rest ≡ ok (records, skipped)
      → In r records
      → Fetched last r
  decoded-Fetched last gathered bso (ok (rs, n)) answer own r later records skipped unreadable at e
        there =
      let same : rs ≡ records = cc in later rs n refl (subst (In r) (sym same) there)
  decoded-Fetched last gathered bso (err x) answer own r later records skipped unreadable at e
        there =
      cc
  decoded-Fetched last gathered bso rest answer own r later records skipped crashed at e there = cc
  decoded-Fetched last gathered bso (err x) answer own r later records skipped (opened plain) at e
        there =
      cc
  decoded-Fetched last gathered bso (ok (rs, n)) answer own r later records skipped (opened plain)
        at e there =
      let same : remote_of authority remote bso plain ∷ rs ≡ records = cc in
      elim (subst (In r) (sym same) there) [
        | inl is ↦ (gathered, bso, plain, answer, own, at, is)
        | inr others ↦ later rs n refl others
      ]

  decode_all-Fetched :
      (last : Option ℕ) (gathered : Gathered)
      → remote.fetch_all last ≡ ok gathered
      → (bsos : List BasicStorageObject)
      → ((b : BasicStorageObject) → In b bsos → In b gathered.records)
      → (records : List (RemoteRecord T)) (skipped : ℕ)
      → decode_all authority remote bsos ≡ ok (records, skipped)
      → (r : RemoteRecord T) → In r records
      → Fetched last r
  unfolding decode_all decode_record
  decode_all-Fetched last gathered answer [] within records skipped e r there =
      let none_left : [] ≡ records = cc in absurd (subst (In r) (sym none_left) there)
  decode_all-Fetched last gathered answer (bso ∷ bsos) within records skipped e r there =
      decoded-Fetched last gathered bso (decode_all authority remote bsos) answer
        (within bso (inl refl)) r
        (λ rs n below later.
          decode_all-Fetched last gathered answer bsos (λ b i. within b (inr i)) rs n below r later)
        records skipped (remote.open_record bso) refl e there

  applied_to-Fate :
      (records : List (RemoteRecord T)) (vault : Dict (LocalRecord T)) (k : String)
      (l : LocalRecord T)
      → IsSound vault
      → Dict.get k vault ≡ some l
      → l.dirty ≡ true
      → (last : Option ℕ) → ((r : RemoteRecord T) → In r records → Fetched last r)
      → Fate last k l (applied_to authority remote records vault)
  applied_to-Fate records vault k l sound at dirty last came =
      elim (apply_remote-get (map local_of (reconcile (Dict.values vault) records).apply_locally)
        vault k) [
          | inl (e, _) ↦ (l, e ∙ at, inl (refl, refl, refl))
          | inr (x, there, own, e) ↦
              let (r, applies, is) = In-map local_of x _ there in
              let (own_l, _, seen) = found-at vault k l sound at in
              let same : r.id ≡ l.id = ap (λ y. y.id) (sym is) ∙ own ∙ sym own_l in
              let (from, _) = apply-In (Dict.values vault) records r applies in
              let (beats, _) =
                apply-dirty (Dict.values vault) records r l applies
                  (ap (λ i. Dict.get i (local_by_id (Dict.values vault))) same ∙ seen) dirty in
              (
                x,
                e,
                inr (
                  r,
                  came r from,
                  same,
                  beats,
                  ap (λ y. y.content) is,
                  ap (λ y. y.deleted) is,
                  ap (λ y. y.authority_time) is,
                ),
              )
        ]

  mark_synced-Fate :
      (last : Option ℕ) (ids : List String) (time : ℕ) (k : String) (l : LocalRecord T)
      (vault : Dict (LocalRecord T))
      → Fate last k l vault
      → Fate last k l (mark_synced ids time vault)
  mark_synced-Fate last ids time k l vault (l', at, fate) =
      elim (mark_synced-get ids time vault k) [
        | inr (_, e) ↦ (l', e ∙ at, fate)
        | inl (_, e) ↦ (synced time l', e ∙ ap (marked time) at, fate)
      ]

  push_all-Fate :
      (last : Option ℕ) (k : String) (l : LocalRecord T) (result : EngineResult)
      (state : CollectionState) (mark : Option ℕ) (uploads : List (LocalRecord T))
      (vault : Dict (LocalRecord T))
      → Fate last k l vault
      → Fate last k l (push_all authority remote result state mark uploads vault).2
  push_all-Fate last k l result state mark uploads vault fate =
      elim (push_all-vault authority remote result state mark uploads vault) [
        | inl e ↦ rw e fate
        | inr (ids, time, e) ↦ rw e (mark_synced-Fate last ids time k l vault fate)
      ]

  abbrev Came : Option ℕ → Result Thrown (List (RemoteRecord T) × ℕ × Option ℕ) → Type 0
  Came last (err e) = Unit
  Came last (ok (records, skipped, mark)) = (r : RemoteRecord T) → In r records → Fetched last r

  pulled_from-Came :
      (last : Option ℕ) (answer : Result StorageError Gathered)
      → remote.fetch_all last ≡ answer
      → Came last (pulled_from authority remote last answer)
  pulled_from-Came last (err e) at = tt
  pulled_from-Came last (ok gathered) at =
      decoded_all (decode_all authority remote gathered.records) refl
    where
      decoded_all :
          (d : Result Thrown (List (RemoteRecord T) × ℕ))
          → decode_all authority remote gathered.records ≡ d
          → Came last (elim d [
            | err e ↦ err e
            | ok (records, skipped) ↦ ok (records, skipped, newer_mark last gathered.last_modified)
          ])
      decoded_all (err e) is = tt
      decoded_all (ok (records, skipped)) is =
          decode_all-Fetched last gathered at gathered.records (λ b i. i) records skipped is

  pull-Came : (server last : Option ℕ) → Came last (pull authority remote server last)
  unfolding pull
  pull-Came server last = elim (Bool-cases (server_has_changes server last)) [
    | inl changed ↦ rw changed (pulled_from-Came last (remote.fetch_all last) refl)
    | inr same ↦ rw same (λ r there. absurd there)
  ]

  settled_from-Fate :
      (last : Option ℕ) (name : String) (state : CollectionState) (vault : Dict (LocalRecord T))
      (k : String) (l : LocalRecord T)
      → IsSound vault
      → Dict.get k vault ≡ some l
      → l.dirty ≡ true
      → (pulled : Result Thrown (List (RemoteRecord T) × ℕ × Option ℕ)) → Came last pulled
      → Fate last k l (settled_from authority remote name state vault pulled).2
  settled_from-Fate last name state vault k l sound at dirty (err e) came =
      (l, at, inl (refl, refl, refl))
  settled_from-Fate last name state vault k l sound at dirty (ok (records, skipped, mark)) came =
      push_all-Fate last k l _ state mark _ (applied_to authority remote records vault)
        (applied_to-Fate records vault k l sound at dirty last came)

  -- However a sync of a sound vault ends, by success, an error, a conflict or an exception, an unsent
  -- edit still stands in the vault, or a version of its id that the server answered with in this sync, and
  -- that beats it by rule, stands there as it came.
  pub sync_collection-Fate :
      (meta : MetaGlobal) (name : String) (server_last_modified : Option ℕ)
      (stored : CollectionState) (vault : Dict (LocalRecord T)) (k : String) (l : LocalRecord T)
      → IsSound vault
      → Dict.get k vault ≡ some l
      → l.dirty ≡ true
      → Fate
          (checked_state authority remote meta name stored).last_modified
          k
          l
          (sync_collection authority remote meta name server_last_modified stored vault).2
  unfolding sync_collection
  sync_collection-Fate meta name server_last_modified stored vault k l sound at dirty =
      let last = (checked_state authority remote meta name stored).last_modified in
      settled_from-Fate last name (checked_state authority remote meta name stored) vault k l sound
        at dirty _ (pull-Came server_last_modified last)
