-- ===== src/Sync/Reconcile/Loops.antt =====
-- The two loops of `reconcile` as equations: what each adds to the lists of the result.
use mathlib.Core.List.{append-nil, append_assoc}
use fire_sync.Prelude.{
  String, ◌≡◌, refl, sym, ◌∙◌, ap, Bool, true, false, not, ◌&&◌, Option, none, some, List, [], ◌∷◌,
  ◌++◌, arith, if◌then◌else◌, is_some, flat_map,
}
use fire_sync.Prelude.Dict
use fire_sync.Prelude.Dict.{Dict}
use fire_sync.Sync.Reconcile.{
  LocalRecord, RemoteRecord, Resolution, local_wins, remote_wins, Conflict, ReconcileResult,
  reason_of, server_is_newer, remote_round, remote_loop, local_round, local_loop, local_by_id,
  remote_by_id, empty_result, reconcile_with,
}

abbrev pub when {ℓ} : {A : Type ℓ} → Bool → A → List A
when true a = a ∷ []
when false a = []

abbrev pub is_remote : Resolution → Bool
is_remote local_wins = false
is_remote remote_wins = true

module _ {T : Type 0} (resolve : LocalRecord T → RemoteRecord T → Resolution) where
  -- What one remote record adds to each list, given the local record of its id.
  abbrev pub applied : Option (LocalRecord T) → RemoteRecord T → List (RemoteRecord T)
  applied none r = when (not r.deleted) r
  applied (some l) r =
      when (if l.dirty then is_remote (resolve l r) else server_is_newer l.synced_at r.modified) r

  abbrev pub uploaded : Option (LocalRecord T) → RemoteRecord T → List (LocalRecord T)
  uploaded none r = []
  uploaded (some l) r = when (l.dirty && not (is_remote (resolve l r))) l

  abbrev pub conflict_of : LocalRecord T → RemoteRecord T → Conflict
  conflict_of l r = record {
    id = r.id;
    resolution = resolve l r;
    reason = reason_of (resolve l r) l r;
  }

  abbrev pub conflicting : Option (LocalRecord T) → RemoteRecord T → List Conflict
  conflicting none r = []
  conflicting (some l) r = when l.dirty (conflict_of l r)

  abbrev pub ignored : Option (LocalRecord T) → RemoteRecord T → List String
  ignored none r = when r.deleted r.id
  ignored (some l) r = []

  -- A list of the result to which every round adds `f` of the record.
  remote_loop-appends :
      {A : Type 0} (part : ReconcileResult T → List A)
      (f : Option (LocalRecord T) → RemoteRecord T → List A)
      → ((o : Option (LocalRecord T)) (r : RemoteRecord T) (result : ReconcileResult T)
          → part (remote_round resolve o r result) ≡ part result ++ f o r)
      → (locals : Dict (LocalRecord T)) (remote : List (RemoteRecord T))
        (result : ReconcileResult T)
      → part (remote_loop resolve locals remote result)
        ≡ part result ++ flat_map (λ r. f (Dict.get r.id locals) r) remote
  unfolding remote_loop
  remote_loop-appends part f step locals [] result = sym (append-nil _)
  remote_loop-appends part f step locals (r ∷ remote) result =
      remote_loop-appends part f step locals remote
        (remote_round resolve (Dict.get r.id locals) r result)
      ∙ rw (step (Dict.get r.id locals) r result) (append_assoc (part result) _ _)

  remote_round-apply :
      (o : Option (LocalRecord T)) (r : RemoteRecord T) (result : ReconcileResult T)
      → (remote_round resolve o r result).apply_locally ≡ result.apply_locally ++ applied o r
  unfolding remote_round
  remote_round-apply none r result = ground (arith, append-nil result.apply_locally)
  remote_round-apply (some l) r result = ground (arith, append-nil result.apply_locally)

  remote_round-upload :
      (o : Option (LocalRecord T)) (r : RemoteRecord T) (result : ReconcileResult T)
      → (remote_round resolve o r result).upload_remotely ≡ result.upload_remotely ++ uploaded o r
  unfolding remote_round
  remote_round-upload none r result = ground (arith, append-nil result.upload_remotely)
  remote_round-upload (some l) r result = ground (arith, append-nil result.upload_remotely)

  remote_round-conflicts :
      (o : Option (LocalRecord T)) (r : RemoteRecord T) (result : ReconcileResult T)
      → (remote_round resolve o r result).conflicts ≡ result.conflicts ++ conflicting o r
  unfolding remote_round
  remote_round-conflicts none r result = ground (arith, append-nil result.conflicts)
  remote_round-conflicts (some l) r result = ground (arith, append-nil result.conflicts)

  remote_round-ignored :
      (o : Option (LocalRecord T)) (r : RemoteRecord T) (result : ReconcileResult T)
      → (remote_round resolve o r result).ignored_tombstones
        ≡ result.ignored_tombstones ++ ignored o r
  unfolding remote_round
  remote_round-ignored none r result = ground (arith, append-nil result.ignored_tombstones)
  remote_round-ignored (some l) r result = ground (arith, append-nil result.ignored_tombstones)

-- What one local record adds to the uploads, when no remote record has its id.
abbrev pub leftover : {T : Type 0} → Dict (RemoteRecord T) → LocalRecord T → List (LocalRecord T)
leftover remotes l = when (l.dirty && not (is_some (Dict.get l.id remotes))) l

module _ {T : Type 0} where
  local_loop-upload :
      (remotes : Dict (RemoteRecord T)) (local : List (LocalRecord T)) (result : ReconcileResult T)
      → (local_loop remotes local result).upload_remotely
        ≡ result.upload_remotely ++ flat_map (leftover remotes) local
  unfolding local_loop local_round
  local_loop-upload remotes [] result = sym (append-nil _)
  local_loop-upload remotes (l ∷ local) result =
      local_loop-upload remotes local (local_round remotes l result)
      ∙ rw (local_round-upload remotes l result) (append_assoc result.upload_remotely _ _)
    where
      local_round-upload :
          (remotes' : Dict (RemoteRecord T)) (l' : LocalRecord T) (result' : ReconcileResult T)
          → (local_round remotes' l' result').upload_remotely
            ≡ result'.upload_remotely ++ leftover remotes' l'
      local_round-upload remotes' l' result' = ground (arith, append-nil result'.upload_remotely)

  -- The second loop leaves the other lists alone.
  local_loop-keeps :
      (remotes : Dict (RemoteRecord T)) (local : List (LocalRecord T)) (result : ReconcileResult T)
      → ((local_loop remotes local result).apply_locally ≡ result.apply_locally)
        × ((local_loop remotes local result).conflicts ≡ result.conflicts)
        × ((local_loop remotes local result).ignored_tombstones ≡ result.ignored_tombstones)
  unfolding local_loop local_round
  local_loop-keeps remotes [] result = (refl, refl, refl)
  local_loop-keeps remotes (l ∷ local) result =
      ground (arith, local_loop-keeps remotes local (local_round remotes l result))

module _ {T : Type 0} (resolve : LocalRecord T → RemoteRecord T → Resolution) where
  module _ (local : List (LocalRecord T)) (remote : List (RemoteRecord T)) where
    pub reconcile_with-apply :
        (reconcile_with resolve local remote).apply_locally
        ≡ flat_map (λ r. applied resolve (Dict.get r.id (local_by_id local)) r) remote
    unfolding reconcile_with
    reconcile_with-apply =
        (local_loop-keeps (remote_by_id remote) local _).0
        ∙ remote_loop-appends resolve (λ result. result.apply_locally) (applied resolve)
            (remote_round-apply resolve) (local_by_id local) remote empty_result

    pub reconcile_with-upload :
        (reconcile_with resolve local remote).upload_remotely
        ≡ flat_map (λ r. uploaded resolve (Dict.get r.id (local_by_id local)) r) remote
          ++ flat_map (leftover (remote_by_id remote)) local
    unfolding reconcile_with
    reconcile_with-upload =
        local_loop-upload (remote_by_id remote) local _
        ∙ ap (λ xs. xs ++ flat_map (leftover (remote_by_id remote)) local)
            (remote_loop-appends resolve (λ result. result.upload_remotely) (uploaded resolve)
              (remote_round-upload resolve) (local_by_id local) remote empty_result)

    pub reconcile_with-conflicts :
        (reconcile_with resolve local remote).conflicts
        ≡ flat_map (λ r. conflicting resolve (Dict.get r.id (local_by_id local)) r) remote
    unfolding reconcile_with
    reconcile_with-conflicts =
        (local_loop-keeps (remote_by_id remote) local _).1
        ∙ remote_loop-appends resolve (λ result. result.conflicts) (conflicting resolve)
            (remote_round-conflicts resolve) (local_by_id local) remote empty_result

    pub reconcile_with-ignored :
        (reconcile_with resolve local remote).ignored_tombstones
        ≡ flat_map (λ r. ignored resolve (Dict.get r.id (local_by_id local)) r) remote
    unfolding reconcile_with
    reconcile_with-ignored =
        (local_loop-keeps (remote_by_id remote) local _).2
        ∙ remote_loop-appends resolve (λ result. result.ignored_tombstones) (ignored resolve)
            (remote_round-ignored resolve) (local_by_id local) remote empty_result
