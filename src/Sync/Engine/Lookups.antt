-- ===== src/Sync/Engine/Lookups.antt =====
-- What stands in a collection after records are applied and ids are marked as synced.
use fire_sync.Prelude.{
  ℕ, String, ◌≡◌, refl, sym, ◌∙◌, ap, ◌≢◌, ◌⊎◌, inl, inr, Option, none, some, List, [], ◌∷◌, ◌==◌,
  arith, eq_iff, In, Bool-cases, Option-cases,
}
use fire_sync.Prelude.Dict
use fire_sync.Prelude.Dict.{Dict, get-put}
use fire_sync.Sync.Reconcile.{LocalRecord}
use fire_sync.Vault.Contents.{apply_remote, mark_synced, synced}

module _ {T : Type 0} where
  -- The record of this id that is applied last, or what stood there before.
  pub apply_remote-get :
      (records : List (LocalRecord T)) (d : Dict (LocalRecord T)) (k : String)
      → ((Dict.get k (apply_remote records d) ≡ Dict.get k d)
          × ((r : LocalRecord T) → In r records → r.id ≢ k))
        ⊎ ((r : LocalRecord T) × In r records
            × (r.id ≡ k)
            × (Dict.get k (apply_remote records d) ≡ some r))
  unfolding apply_remote
  apply_remote-get [] d k = inl (refl, λ r h. elim h [ ])
  apply_remote-get (x ∷ records) d k = elim (apply_remote-get records (Dict.put x.id x d) k) [
    | inr (r, there, own, at) ↦ inr (r, inr there, own, at)
    | inl (at, others) ↦ elim (Bool-cases (x.id == k)) [
      | inl same ↦ inr (
        x,
        inl refl,
        (eq_iff x.id k).0 same,
        at ∙ get-put x.id k x d ∙ ground (arith, eq_iff x.id k),
      )
      | inr differs ↦ inl (
        at ∙ get-put x.id k x d ∙ ground (arith, eq_iff x.id k),
        λ r h. elim h [ inl is ↦ ground (arith, eq_iff x.id k) | inr there ↦ others r there ],
      )
    ]
  ]

  abbrev pub marked : ℕ → Option (LocalRecord T) → Option (LocalRecord T)
  marked at none = none
  marked at (some l) = some (synced at l)

  marked-marked : (at : ℕ) (o : Option (LocalRecord T)) → marked at (marked at o) ≡ marked at o
  marked-marked at none = refl
  marked-marked at (some l) = refl

  -- One round of `markSynced`.
  abbrev mark_one : String → ℕ → Dict (LocalRecord T) → Dict (LocalRecord T)
  mark_one id at d = elim (Dict.get id d) [ none ↦ d | some l ↦ Dict.put id (synced at l) d ]

  mark_one-same :
      (id : String) (at : ℕ) (d : Dict (LocalRecord T)) (k : String)
      → id ≡ k
      → Dict.get k (mark_one id at d) ≡ marked at (Dict.get k d)
  mark_one-same id at d k same = rw (sym same) (elim (Option-cases (Dict.get id d)) [
    | inl absent ↦ rw (absent, mark_one) absent
    | inr (l, found) ↦
        rw (found, mark_one) (get-put id id (synced at l) d ∙ ground (arith, eq_iff id id))
  ])

  mark_one-get :
      (id : String) (at : ℕ) (d : Dict (LocalRecord T)) (k : String)
      → ((id ≡ k) × (Dict.get k (mark_one id at d) ≡ marked at (Dict.get k d)))
        ⊎ ((id ≢ k) × (Dict.get k (mark_one id at d) ≡ Dict.get k d))
  mark_one-get id at d k = elim (Bool-cases (id == k)) [
    | inl same ↦ inl ((eq_iff id k).0 same, mark_one-same id at d k ((eq_iff id k).0 same))
    | inr differs ↦ inr (
      ground (arith, eq_iff id k),
      elim (Option-cases (Dict.get id d)) [
        | inl absent ↦ rw (absent, mark_one) refl
        | inr (l, found) ↦
            rw (found, mark_one) (get-put id k (synced at l) d ∙ ground (arith, eq_iff id k))
      ],
    )
  ]

  pub mark_synced-get :
      (ids : List String) (at : ℕ) (d : Dict (LocalRecord T)) (k : String)
      → (In k ids × (Dict.get k (mark_synced ids at d) ≡ marked at (Dict.get k d)))
        ⊎ (((In k ids → ⊥)) × (Dict.get k (mark_synced ids at d) ≡ Dict.get k d))
  unfolding mark_synced
  mark_synced-get [] at d k = inr ((λ h. elim h [ ]), refl)
  mark_synced-get (id ∷ ids) at d k = elim (mark_one-get id at d k) [
    | inl (same, one) ↦ elim (mark_synced-get ids at (mark_one id at d) k) [
      | inl (there, rest) ↦
          inl (inl (sym same), rest ∙ ap (marked at) one ∙ marked-marked at (Dict.get k d))
      | inr (absent, rest) ↦ inl (inl (sym same), rest ∙ one)
    ]
    | inr (other, one) ↦ elim (mark_synced-get ids at (mark_one id at d) k) [
      | inl (there, rest) ↦ inl (inr there, rest ∙ ap (marked at) one)
      | inr (absent, rest) ↦
          inr ((λ h. elim h [ inl is ↦ other (sym is) | inr there ↦ absent there ]), rest ∙ one)
    ]
  ]
