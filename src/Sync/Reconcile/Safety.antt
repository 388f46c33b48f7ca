-- ===== src/Sync/Reconcile/Safety.antt =====
-- What `reconcile` of src/sync15/reconcile.ts does with unsent edits and with deletions.
use fire_sync.Prelude.{
  ◌↔◌, ◌<◌, String, ◌≡◌, refl, sym, ◌∙◌, ap, ◌≢◌, ◌⊎◌, inl, inr, Bool, true, false, Option, none,
  some, List, arith, In, In-flat_map, flat_map-In, In-append, In-append_left, In-append_right,
  Option-cases,
}
use mathlib.Core.Path.{subst}
use fire_sync.Prelude.Dict
use fire_sync.Prelude.Dict.{Dict}
use fire_sync.Prelude.Dict.Keyed.{get-by_key, by_key-has, Distinct, eq_of_Distinct}
use fire_sync.Sync.Reconcile.{
  LocalRecord, RemoteRecord, Resolution, local_wins, remote_wins, default_resolve, local_by_id,
  remote_by_id, reconcile,
}
use fire_sync.Sync.Reconcile.Loops.{
  when, applied, uploaded, conflicting, conflict_of, leftover, reconcile_with-apply,
  reconcile_with-upload, reconcile_with-conflicts,
}

pub Resolution-cases :
    (resolution : Resolution) → (resolution ≡ local_wins) ⊎ (resolution ≡ remote_wins)
Resolution-cases local_wins = inl refl
Resolution-cases remote_wins = inr refl

module _ {T : Type 0} where
  -- The remote version has the later authority time, or the same time and no deletion to lose.
  abbrev pub RemoteBeats : LocalRecord T → RemoteRecord T → Type 0
  RemoteBeats l r =
      (l.authority_time < r.authority_time)
      ⊎ ((l.authority_time ≡ r.authority_time) × ((r.deleted ≡ true) ⊎ (l.deleted ≡ false)))

  -- The local version has the later authority time, or is a deletion of the same time as an edit.
  abbrev pub LocalBeats : LocalRecord T → RemoteRecord T → Type 0
  LocalBeats l r =
      (r.authority_time < l.authority_time)
      ⊎ ((l.authority_time ≡ r.authority_time) × (l.deleted ≡ true) × (r.deleted ≡ false))

  pub default_resolve-remote :
      (l : LocalRecord T) (r : RemoteRecord T) → default_resolve l r ≡ remote_wins → RemoteBeats l r
  unfolding default_resolve
  default_resolve-remote l r h = ground arith

  pub default_resolve-local :
      (l : LocalRecord T) (r : RemoteRecord T) → default_resolve l r ≡ local_wins → LocalBeats l r
  unfolding default_resolve
  default_resolve-local l r h = ground arith

  pub LocalBeats-resolve :
      (l : LocalRecord T) (r : RemoteRecord T) → LocalBeats l r → default_resolve l r ≡ local_wins
  unfolding default_resolve
  LocalBeats-resolve l r h = ground arith

  In-when : (a b : LocalRecord T) (c : Bool) → In a (when c b) → (c ≡ true) × (a ≡ b)
  In-when a b true (inl e) = (refl, e)
  In-when a b true (inr h) = elim h [ ]
  In-when a b false h = elim h [ ]

  In-when_remote : (a b : RemoteRecord T) (c : Bool) → In a (when c b) → (c ≡ true) × (a ≡ b)
  In-when_remote a b true (inl e) = (refl, e)
  In-when_remote a b true (inr h) = elim h [ ]
  In-when_remote a b false h = elim h [ ]

module _ {T : Type 0} (local : List (LocalRecord T)) (remote : List (RemoteRecord T)) where
  -- The local record that `reconcile` compares a remote record of this id with.
  abbrev pub found : String → Option (LocalRecord T)
  found id = Dict.get id (local_by_id local)

  -- What is applied was received, and its local counterpart is applied over by rule.
  pub apply-In :
      (r : RemoteRecord T)
      → In r (reconcile local remote).apply_locally
      → In r remote × In r (applied default_resolve (found r.id) r)
  unfolding reconcile
  apply-In r h =
      let (q, there, by) =
        In-flat_map (λ q. applied default_resolve (found q.id) q) r remote
          (rw (reconcile_with-apply default_resolve local remote) at h) in
      subst (λ x. In x remote × In r (applied default_resolve (found x.id) x))
        (sym (applied-self q (found q.id) by)) (there, by)
    where
      applied-self :
          (q : RemoteRecord T) (o : Option (LocalRecord T))
          → In r (applied default_resolve o q)
          → r ≡ q
      applied-self q none k = (In-when_remote r q _ k).1
      applied-self q (some l) k = (In-when_remote r q _ k).1

  -- What is uploaded either won a conflict or has no remote record of its id.
  upload-In :
      (l : LocalRecord T)
      → In l (reconcile local remote).upload_remotely
      → ((r : RemoteRecord T) × In r remote
          × (found r.id ≡ some l)
          × (l.dirty ≡ true)
          × (default_resolve l r ≡ local_wins))
        ⊎ (In l local × (l.dirty ≡ true) × (Dict.get l.id (remote_by_id remote) ≡ none))
  unfolding reconcile
  upload-In l h =
      elim (In-append l _ _ (rw (reconcile_with-upload default_resolve local remote) at h)) [
        | inl won ↦
            let (r, there, by) =
              In-flat_map (λ q. uploaded default_resolve (found q.id) q) l remote won in
            let (same, dirty, resolved) = uploaded-self r (found r.id) by in
            inl (r, there, same, dirty, resolved)
        | inr left ↦
            let (k, there, by) = In-flat_map (leftover (remote_by_id remote)) l local left in
            inr (leftover-self k there by)
      ]
    where
      uploaded-self :
          (r : RemoteRecord T) (o : Option (LocalRecord T))
          → In l (uploaded default_resolve o r)
          → (o ≡ some l) × (l.dirty ≡ true) × (default_resolve l r ≡ local_wins)
      uploaded-self r none k = elim k [ ]
      uploaded-self r (some m) k =
          let (test, same) = In-when l m _ k in
          (ap some (sym same), ground arith, rw same (ground arith))

      leftover-self :
          (k : LocalRecord T)
          → In k local
          → In l (leftover (remote_by_id remote) k)
          → In l local × (l.dirty ≡ true) × (Dict.get l.id (remote_by_id remote) ≡ none)
      leftover-self k there by =
          let (test, same) = In-when l k _ by in
          (rw same there, ground arith, rw same (ground arith))

  -- A record that is applied over an unsent edit beats that edit: it is later, or of the same time and
  -- no edit over a deletion. And the conflict is reported.
  pub apply-dirty :
      (r : RemoteRecord T) (l : LocalRecord T)
      → In r (reconcile local remote).apply_locally
      → found r.id ≡ some l
      → l.dirty ≡ true
      → RemoteBeats l r × In (conflict_of default_resolve l r) (reconcile local remote).conflicts
  unfolding reconcile
  apply-dirty r l h at dirty =
      let (there, by) = apply-In r h in
      let (test, _) = In-when_remote r r _ (rw at at by) in
      (
        default_resolve-remote l r (ground arith),
        rw (reconcile_with-conflicts default_resolve local remote) (
            flat_map-In (λ q. conflicting default_resolve (found q.id) q)
              (conflict_of default_resolve l r) r remote there (simp (at, dirty) (inl refl))),
      )

  -- An unsent edit, which the map by id finds, is uploaded, or a version that beats it is applied in
  -- its place.
  pub dirty-kept :
      (l : LocalRecord T)
      → In l local
      → found l.id ≡ some l
      → l.dirty ≡ true
      → In l (reconcile local remote).upload_remotely
        ⊎ ((r : RemoteRecord T) × In r (reconcile local remote).apply_locally
            × (r.id ≡ l.id)
            × RemoteBeats l r)
  unfolding reconcile
  dirty-kept l here at dirty = elim (Option-cases (Dict.get l.id (remote_by_id remote))) [
    | inl absent ↦ inl (
        rw (reconcile_with-upload default_resolve local remote) (
          In-append_right l _ _ (
            flat_map-In (leftover (remote_by_id remote)) l l local here
              (simp (dirty, absent) (inl refl)))))
    | inr (r, present) ↦
        let (there, same) = get-by_key (λ (q : RemoteRecord T). q.id) remote l.id r present in
        let at' : found r.id ≡ some l = rw same at in
        elim (Resolution-cases (default_resolve l r)) [
          | inl won ↦ inl (
              rw (reconcile_with-upload default_resolve local remote) (
                In-append_left l _ _ (
                  flat_map-In (λ q. uploaded default_resolve (found q.id) q) l r remote there
                    (simp (at', dirty, won) (inl refl)))))
          | inr lost ↦ inr (
            r,
            rw (reconcile_with-apply default_resolve local remote) (
                flat_map-In (λ q. applied default_resolve (found q.id) q) r r remote there
                  (simp (at', dirty, lost) (inl refl))),
            same,
            default_resolve-remote l r lost,
          )
        ]
  ]

  -- No id is both applied and uploaded, when the server lists an id once.
  pub apply-upload_disjoint :
      (r : RemoteRecord T) (l : LocalRecord T)
      → Distinct (λ (q : RemoteRecord T). q.id) remote
      → In r (reconcile local remote).apply_locally
      → In l (reconcile local remote).upload_remotely
      → r.id ≢ l.id
  apply-upload_disjoint r l distinct applies uploads same =
      let (there, by) = apply-In r applies in
      elim (upload-In l uploads) [
        | inl (q, q_there, at, dirty, won) ↦
            let (_, q_id) = get-by_key (λ (k : LocalRecord T). k.id) local q.id l at in
            let one : r ≡ q =
              eq_of_Distinct (λ (k : RemoteRecord T). k.id) remote r q distinct there q_there
                (same ∙ q_id) in
            let at_r : found r.id ≡ some l = rw one at in
            let (test, _) = In-when_remote r r _ (rw at_r at by) in
            let won_r : default_resolve l r ≡ local_wins = rw one won in ground arith
        | inr (_, _, absent) ↦
            let (q, present) = by_key-has (λ (k : RemoteRecord T). k.id) remote r there in
            let absent_r : Dict.get r.id (remote_by_id remote) ≡ none = rw same absent in
            cc (present, absent_r)
      ]

module _ {T : Type 0} where
  -- Two devices, each meeting the other's version: unless time and deletion agree, one version wins
  -- on both, whichever was sent first.
  default_resolve_converges :
      (a b : LocalRecord T) (a' b' : RemoteRecord T)
      → a'.authority_time ≡ a.authority_time
      → b'.authority_time ≡ b.authority_time
      → a'.deleted ≡ a.deleted
      → b'.deleted ≡ b.deleted
      → (a.authority_time ≢ b.authority_time) ⊎ (a.deleted ≢ b.deleted)
      → (default_resolve a b' ≡ local_wins) ↔ (default_resolve b a' ≡ remote_wins)
  unfolding default_resolve
  default_resolve_converges a b a' b' ta tb da db h = ground arith
