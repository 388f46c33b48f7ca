-- ===== src/Vault/Contents/Purge.antt =====
-- `purgeRecords` of src/vault/store.ts with the ids of `expiredTombstones` (src/sync15/reconcile.ts).
use fire_sync.Prelude.{
  ℕ, String, ◌≡◌, refl, ◌∙◌, ap, inl, inr, true, false, none, some, List, [], ◌∷◌, ◌++◌, map, arith,
  ◌==◌, eq_iff, All, In, filter, Bool-cases,
}
use fire_sync.Prelude.Dict
use fire_sync.Prelude.Dict.{Dict, get-remove}
use fire_sync.Prelude.Dict.Entries.{NoDup, NoDup-remove}
use fire_sync.Sync.Reconcile.{LocalRecord, is_expired, expired_tombstones}
use fire_sync.Vault.Contents.{purge_records, live_content, live_contents}
use fire_sync.Vault.Contents.Invariant.{IsSound, IsSound-at_id}

module _ {T : Type 0} where
  remove-absent :
      (k : String) (d : Dict (LocalRecord T)) → Dict.get k d ≡ none → Dict.remove k d ≡ d
  unfolding Dict.get Dict.remove
  remove-absent k [] h = refl
  remove-absent k ((j, w) ∷ d) h = ground (arith, remove-absent k d)

  -- What is stored under the id, if anything, shows a reader nothing and is nothing to send.
  abbrev IsSpent : Dict (LocalRecord T) → String → Type 0
  IsSpent d k =
      (l : LocalRecord T) → Dict.get k d ≡ some l → (live_content l ≡ []) × (l.dirty ≡ false)

  live_contents-remove :
      (k : String) (d : Dict (LocalRecord T))
      → NoDup d
      → IsSpent d k
      → live_contents (Dict.values (Dict.remove k d)) ≡ live_contents (Dict.values d)
  unfolding Dict.get Dict.remove
  live_contents-remove k [] fresh h = refl
  live_contents-remove k ((j, w) ∷ d) (fresh, rest) h = elim (Bool-cases (j == k)) [
    | inl same ↦
        let gone : live_content w ≡ [] = (h w (rw same)).0 in
        let absent : Dict.get k d ≡ none = rw (← (eq_iff j k).0 same) fresh in
        rw (same, gone, remove-absent k d absent)
    | inr other ↦
        rw other (
          ap (λ ls. live_content w ++ ls) (live_contents-remove k d rest (λ l e. h l (rw other e))))
  ]

  purge_records-spent :
      (ids : List String) (d : Dict (LocalRecord T))
      → NoDup d
      → All (IsSpent d) ids
      → (live_contents (Dict.values (purge_records ids d)) ≡ live_contents (Dict.values d))
        × ((k : String) (l : LocalRecord T)
            → Dict.get k d ≡ some l
            → l.dirty ≡ true
            → Dict.get k (purge_records ids d) ≡ some l)
  unfolding purge_records
  purge_records-spent [] d fresh h = (refl, λ k l e _. e)
  purge_records-spent (id ∷ ids) d fresh (spent, h) =
      let later =
        purge_records-spent ids (Dict.remove id d) (NoDup-remove id d fresh) (weaken ids h) in
      (
        later.0 ∙ live_contents-remove id d fresh spent,
        λ k l e dirty. later.1 k l (kept k l e dirty) dirty,
      )
    where
      kept :
          (k : String) (l : LocalRecord T)
          → Dict.get k d ≡ some l
          → l.dirty ≡ true
          → Dict.get k (Dict.remove id d) ≡ some l
      kept k l e dirty = elim (Bool-cases (id == k)) [
        | inl same ↦ let clean = (spent l (rw ((eq_iff id k).0 same) e)).1 in absurd (ground arith)
        | inr other ↦ rw (get-remove id k d, other) e
      ]

      weaken : (js : List String) → All (IsSpent d) js → All (IsSpent (Dict.remove id d)) js
      weaken [] k = tt
      weaken (j ∷ js) (s, k) = (λ l e. s l (ground (arith, get-remove id j d)), weaken js k)

  expired-IsSpent :
      (d : Dict (LocalRecord T)) (now max_age : ℕ) (l : LocalRecord T)
      → IsSound d
      → In l (Dict.values d)
      → is_expired now max_age l ≡ true
      → IsSpent d l.id
  expired-IsSpent d now max_age l s there expired k e =
      let at = IsSound-at_id l d s there in
      let same : k ≡ l = ground arith in rw same (ground arith, ground arith)

  expired_ids-IsSpent :
      (d : Dict (LocalRecord T)) (now max_age : ℕ)
      → IsSound d
      → (ls : List (LocalRecord T)) → ((l : LocalRecord T) → In l ls → In l (Dict.values d))
      → All (IsSpent d) (map (λ l. l.id) (filter (is_expired now max_age) ls))
  expired_ids-IsSpent d now max_age s [] h = tt
  expired_ids-IsSpent d now max_age s (l ∷ ls) h = elim (Bool-cases (is_expired now max_age l)) [
    | inl expired ↦ rw expired (
      expired-IsSpent d now max_age l s (h l (inl refl)) expired,
      expired_ids-IsSpent d now max_age s ls (λ k there. h k (inr there)),
    )
    | inr other ↦ rw other (expired_ids-IsSpent d now max_age s ls (λ k there. h k (inr there)))
  ]

  -- Purging the expired tombstones of a sound collection changes nothing that a reader is shown, and
  -- drops no record that is still to be sent.
  pub purge-IsSafe :
      (d : Dict (LocalRecord T)) (now max_age : ℕ)
      → IsSound d
      → (live_contents
            (Dict.values (purge_records (expired_tombstones (Dict.values d) now max_age) d))
          ≡ live_contents (Dict.values d))
        × ((k : String) (l : LocalRecord T)
            → Dict.get k d ≡ some l
            → l.dirty ≡ true
            → Dict.get k (purge_records (expired_tombstones (Dict.values d) now max_age) d)
              ≡ some l)
  unfolding expired_tombstones
  purge-IsSafe d now max_age s =
      purge_records-spent _ d s.no_dup
        (expired_ids-IsSpent d now max_age s (Dict.values d) (λ l there. there))
