-- ===== src/Prelude/Dict/Entries.antt =====
-- The entries of a dictionary whose keys are all different, as those of a JavaScript object are.
use fire_sync.Prelude.Tests.{Bool-cases}
use fire_sync.Prelude.Lists.{In}
use fire_sync.Prelude.Dict.{Dict, get, put, remove, values, get-put}
use Prim.Native.String.{String}
use mathlib.Core.Path.{◌≡◌, refl, ap}
use mathlib.Core.Logic.{inl, inr}
use mathlib.Core.Option.{none, some}
use mathlib.Core.List.{[], ◌∷◌}
use native.Mathlib.Omega.{arith}
use text.Mathlib.Text.{◌==◌}
use text.Mathlib.TextEquality.{eq_iff}

module _ {V : Type 0} where
  abbrev pub NoDup : Dict V → Type 0
  NoDup [] = Unit
  NoDup ((k, v) ∷ d) = (get k d ≡ none) × NoDup d

  pub NoDup-put : (k : String) (v : V) (d : Dict V) → NoDup d → NoDup (put k v d)
  unfolding put get
  NoDup-put k v [] h = (refl, tt)
  NoDup-put k v ((j, w) ∷ d) (fresh, h) = elim (Bool-cases (j == k)) [
    | inl same ↦ rw same (fresh, h)
    | inr other ↦
        rw other (ground (arith, get-put k j v d, eq_iff k j, eq_iff j k), NoDup-put k v d h)
  ]

  get-remove-none : (k j : String) (d : Dict V) → get j d ≡ none → get j (remove k d) ≡ none
  unfolding get remove
  get-remove-none k j [] h = refl
  get-remove-none k j ((i, w) ∷ d) h = ground (arith, get-remove-none k j d)

  pub NoDup-remove : (k : String) (d : Dict V) → NoDup d → NoDup (remove k d)
  unfolding remove
  NoDup-remove k [] h = tt
  NoDup-remove k ((j, w) ∷ d) (fresh, h) = elim (Bool-cases (j == k)) [
    | inl same ↦ rw same (NoDup-remove k d h)
    | inr other ↦ rw other (get-remove-none k j d fresh, NoDup-remove k d h)
  ]

  pub get-In : (k : String) (v : V) (d : Dict V) → get k d ≡ some v → In v (values d)
  unfolding get
  get-In k v [] h = cc
  get-In k v ((j, w) ∷ d) h = elim (Bool-cases (j == k)) [
    | inl same ↦ inl (ground arith)
    | inr other ↦ inr (get-In k v d (ground arith))
  ]

  pub In-get : (v : V) (d : Dict V) → NoDup d → In v (values d) → (k : String) × (get k d ≡ some v)
  unfolding get
  In-get v ((j, w) ∷ d) (fresh, h) (inl e) = (j, ground (arith, eq_iff j j))
  In-get v ((j, w) ∷ d) (fresh, h) (inr there) =
      let (k, found) = In-get v d h there in
      (k, ground (arith, eq_iff j k, ap (λ (i : String). get i d)))
  In-get v [] h there = elim there [ ]
