-- ===== src/Vault/Contents/Invariant.antt =====
-- The invariant of a stored collection, under the operations of src/vault/store.ts.
use mathlib.Core.Path.{subst}
use fire_sync.Prelude.{
  sym, In, ℕ, String, ◌≡◌, refl, ◌∙◌, inl, inr, true, false, not, Option, none, some, List, [], ◌∷◌,
  arith, eq_iff, is_some, All, Option-cases,
}
use fire_sync.Prelude.Dict
use fire_sync.Prelude.Dict.{Dict, get-put, get-remove, get-nil}
use fire_sync.Prelude.Dict.Entries.{NoDup, NoDup-put, NoDup-remove, In-get}
use fire_sync.Prelude.Result.{Result, ok, err}
use fire_sync.Url.{UrlParser}
use fire_sync.Sync.Reconcile.{LocalRecord}
use fire_sync.Sync.Passwords.{PasswordRecord, NewPasswordInput}
use fire_sync.Vault.Contents.{
  VaultContents, PasswordPatch, NoPassword, add_password, update_password, patch_password,
  touch_password, delete_password, apply_remote, mark_synced, purge_records, existing_password,
}

module _ {T : Type 0} where
  -- A record has data exactly when it is no tombstone.
  abbrev pub HasShape : LocalRecord T → Type 0
  HasShape l = is_some l.content ≡ not l.deleted

  -- No key is stored twice, a record stands under its own id, and only tombstones lack data.
  pub record IsSound (d : Dict (LocalRecord T)) : Type 0 where
    pub no_dup : NoDup d
    pub at_key : (k : String) (l : LocalRecord T) → Dict.get k d ≡ some l → (l.id ≡ k) × HasShape l

  -- A stored record is found under its own id.
  pub IsSound-at_id :
      (l : LocalRecord T) (d : Dict (LocalRecord T))
      → IsSound d
      → In l (Dict.values d)
      → Dict.get l.id d ≡ some l
  IsSound-at_id l d s there =
      let (k, found) = In-get l d s.no_dup there in
      subst (λ i. Dict.get i d ≡ some l) (sym (s.at_key k l found).0) found

  pub IsSound-nil : IsSound []
  IsSound-nil = record { no_dup = tt; at_key = λ k l h. cc (get-nil {V = LocalRecord T} k) }

  pub IsSound-put :
      (k : String) (l : LocalRecord T) (d : Dict (LocalRecord T))
      → l.id ≡ k
      → HasShape l
      → IsSound d
      → IsSound (Dict.put k l d)
  IsSound-put k l d own shape s = record {
    no_dup = NoDup-put k l d s.no_dup;
    at_key = λ j x h. ground (arith, get-put k j l d, eq_iff k j, s.at_key j x);
  }

  pub IsSound-remove :
      (k : String) (d : Dict (LocalRecord T)) → IsSound d → IsSound (Dict.remove k d)
  IsSound-remove k d s = record {
    no_dup = NoDup-remove k d s.no_dup;
    at_key = λ j x h. ground (arith, get-remove k j d, s.at_key j x);
  }

  pub apply_remote-IsSound :
      (records : List (LocalRecord T)) (d : Dict (LocalRecord T))
      → All HasShape records
      → IsSound d
      → IsSound (apply_remote records d)
  unfolding apply_remote
  apply_remote-IsSound [] d h s = s
  apply_remote-IsSound (l ∷ records) d (shape, h) s =
      apply_remote-IsSound records (Dict.put l.id l d) h (IsSound-put l.id l d refl shape s)

  pub mark_synced-IsSound :
      (ids : List String) (at : ℕ) (d : Dict (LocalRecord T))
      → IsSound d
      → IsSound (mark_synced ids at d)
  unfolding mark_synced
  mark_synced-IsSound [] at d s = s
  mark_synced-IsSound (id ∷ ids) at d s = elim (Option-cases (Dict.get id d)) [
    | inl absent ↦ rw absent (mark_synced-IsSound ids at d s)
    | inr (l, found) ↦
        let (own, shape) = s.at_key id l found in
        rw found (mark_synced-IsSound ids at _ (IsSound-put id _ d own shape s))
  ]

  pub purge_records-IsSound :
      (ids : List String) (d : Dict (LocalRecord T)) → IsSound d → IsSound (purge_records ids d)
  unfolding purge_records
  purge_records-IsSound [] d s = s
  purge_records-IsSound (id ∷ ids) d s =
      purge_records-IsSound ids (Dict.remove id d) (IsSound-remove id d s)

-- One call of the vault that changes the stored logins, with the random id and the clock it reads.
pub data Call : Type 0 where
  add : String → ℕ → NewPasswordInput → Call
  update : String → String → ℕ → Call
  patch : String → PasswordPatch → Call
  touch delete : String → ℕ → Call
  apply : List (LocalRecord PasswordRecord) → Call
  mark : List String → ℕ → Call
  purge : List String → Call

-- The contents that the call leaves; a call that throws or returns early leaves them as they were.
abbrev pub after : Option VaultContents → VaultContents → VaultContents
after none contents = contents
after (some contents') contents = contents'

abbrev pub after_edit :
    Result NoPassword (PasswordRecord × VaultContents) → VaultContents → VaultContents
after_edit (ok (_, contents')) contents = contents'
after_edit (err e) contents = contents

module _ (new_url : UrlParser) where
  unfoldable pub run_call : Call → VaultContents → VaultContents
  run_call (add new_id now input) contents = (add_password new_url new_id now input contents).1
  run_call (update id password now) contents =
      after_edit (update_password id password now contents) contents
  run_call (patch id p) contents = after_edit (patch_password id p contents) contents
  run_call (touch id now) contents = after (touch_password id now contents) contents
  run_call (delete id now) contents = after (delete_password id now contents) contents
  run_call (apply records) contents = record contents {
    passwords = apply_remote records contents.passwords;
  }
  run_call (mark ids at) contents = record contents {
    passwords = mark_synced ids at contents.passwords;
  }
  run_call (purge ids) contents = record contents {
    passwords = purge_records ids contents.passwords;
  }

  unfoldable pub run_calls : List Call → VaultContents → VaultContents
  run_calls [] contents = contents
  run_calls (c ∷ calls) contents = run_calls calls (run_call c contents)

  -- What the sync engine hands to `applyRemote` has data exactly when it is no tombstone.
  abbrev pub IsFit : Call → Type 0
  IsFit (apply records) = All HasShape records
  IsFit _ = Unit

  -- The record that an edit works on is no tombstone.
  pub existing-IsSound :
      (id : String) (contents : VaultContents) (l : LocalRecord PasswordRecord) (d : PasswordRecord)
      → IsSound contents.passwords
      → existing_password id contents ≡ some (l, d)
      → (l.id ≡ id) × (l.deleted ≡ false)
  unfolding existing_password
  existing-IsSound id contents l d s h = ground (arith, s.at_key id l)

  edit-IsSound :
      (id : String) (contents : VaultContents) (l l' : LocalRecord PasswordRecord)
      (d : PasswordRecord)
      → IsSound contents.passwords
      → existing_password id contents ≡ some (l, d)
      → l'.id ≡ l.id
      → l'.deleted ≡ l.deleted
      → is_some l'.content ≡ true
      → IsSound (Dict.put id l' contents.passwords)
  edit-IsSound id contents l l' d s found same_id same_deleted has =
      let (own, live) = existing-IsSound id contents l d s found in
      IsSound-put id l' contents.passwords (same_id ∙ own) (ground arith) s

  run_call-IsSound :
      (c : Call) (contents : VaultContents)
      → IsFit c
      → IsSound contents.passwords
      → IsSound (run_call c contents).passwords
  unfolding run_call add_password update_password patch_password touch_password delete_password
  run_call-IsSound (add new_id now input) contents fit s =
      IsSound-put _ _ contents.passwords refl refl s
  run_call-IsSound (update id password now) contents fit s =
      elim (Option-cases (existing_password id contents)) [
        | inl absent ↦ rw (absent, run_call, update_password) s
        | inr ((l, d), found) ↦
            rw (found, run_call, update_password)
              (edit-IsSound id contents l _ d s found refl refl refl)
      ]
  run_call-IsSound (patch id p) contents fit s =
      elim (Option-cases (existing_password id contents)) [
        | inl absent ↦ rw (absent, run_call, patch_password) s
        | inr ((l, d), found) ↦
            rw (found, run_call, patch_password)
              (edit-IsSound id contents l _ d s found refl refl refl)
      ]
  run_call-IsSound (touch id now) contents fit s =
      elim (Option-cases (existing_password id contents)) [
        | inl absent ↦ rw (absent, run_call, touch_password) s
        | inr ((l, d), found) ↦
            rw (found, run_call, touch_password)
              (edit-IsSound id contents l _ d s found refl refl refl)
      ]
  run_call-IsSound (delete id now) contents fit s =
      elim (Option-cases (Dict.get id contents.passwords)) [
        | inl absent ↦ rw (absent, run_call, delete_password) s
        | inr (l, found) ↦
            rw (found, run_call, delete_password) (IsSound-put id _ contents.passwords refl refl s)
      ]
  run_call-IsSound (apply records) contents fit s =
      apply_remote-IsSound records contents.passwords fit s
  run_call-IsSound (mark ids at) contents fit s = mark_synced-IsSound ids at contents.passwords s
  run_call-IsSound (purge ids) contents fit s = purge_records-IsSound ids contents.passwords s

  -- Whatever calls are made, logins that are sound stay so: no id is stored twice, every record stands
  -- under its own id, and a record lacks data exactly when it is a tombstone. The records that
  -- `applyRemote` is given lack data exactly when they are tombstones.
  pub run_calls-IsSound :
      (calls : List Call) (contents : VaultContents)
      → All IsFit calls
      → IsSound contents.passwords
      → IsSound (run_calls calls contents).passwords
  unfolding run_calls
  run_calls-IsSound [] contents fit s = s
  run_calls-IsSound (c ∷ calls) contents (fit, fits) s =
      run_calls-IsSound calls (run_call c contents) fits (run_call-IsSound c contents fit s)
