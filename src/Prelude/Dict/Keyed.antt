-- ===== src/Prelude/Dict/Keyed.antt =====
-- Looking up in a map that was built from a list by the key of its elements.
use fire_sync.Prelude.Tests.{Bool-cases}
use fire_sync.Prelude.Lists.{In, All}
use fire_sync.Prelude.Dict.{Dict, get, put, put_all, by_key, get-put, get-nil}
use Prim.Native.String.{String}
use mathlib.Core.Path.{◌≡◌, sym, ◌∙◌}
use mathlib.Core.Logic.{◌⊎◌, inl, inr, ◌≢◌}
use mathlib.Core.Option.{some}
use mathlib.Core.List.{List, [], ◌∷◌, map}
use native.Mathlib.Omega.{arith}
use text.Mathlib.Text.{◌==◌}
use text.Mathlib.TextEquality.{eq_iff}

module _ {V : Type 0} (key : V → String) where
  put_all-get :
      (xs : List V) (m : Dict V) (k : String) (a : V)
      → get k (put_all (map (λ b. (key b, b)) xs) m) ≡ some a
      → (In a xs × (key a ≡ k)) ⊎ (get k m ≡ some a)
  unfolding put_all
  put_all-get [] m k a h = inr h
  put_all-get (x ∷ xs) m k a h = elim (put_all-get xs (put (key x) x m) k a h) [
    | inl (there, same) ↦ inl (inr there, same)
    | inr found ↦ ground (arith, get-put (key x) k x m, eq_iff (key x) k)
  ]

  put_all-keeps :
      (xs : List V) (m : Dict V) (k : String) (a : V)
      → get k m ≡ some a
      → (b : V) × (get k (put_all (map (λ c. (key c, c)) xs) m) ≡ some b)
  unfolding put_all
  put_all-keeps [] m k a h = (a, h)
  put_all-keeps (x ∷ xs) m k a h = elim (Bool-cases (key x == k)) [
    | inl same ↦ put_all-keeps xs (put (key x) x m) k x (ground (arith, get-put (key x) k x m))
    | inr other ↦ put_all-keeps xs (put (key x) x m) k a (ground (arith, get-put (key x) k x m))
  ]

  put_all-has :
      (xs : List V) (m : Dict V) (a : V)
      → In a xs
      → (b : V) × (get (key a) (put_all (map (λ c. (key c, c)) xs) m) ≡ some b)
  unfolding put_all
  put_all-has (x ∷ xs) m a (inl e) =
      put_all-keeps xs (put (key x) x m) (key a) x
        (rw e (ground (arith, get-put (key x) (key x) x m, eq_iff (key x) (key x))))
  put_all-has (x ∷ xs) m a (inr h) = put_all-has xs (put (key x) x m) a h
  put_all-has [] m a h = elim h [ ]

  -- What is found has the key, and stands in the list.
  pub get-by_key :
      (xs : List V) (k : String) (a : V) → get k (by_key key xs) ≡ some a → In a xs × (key a ≡ k)
  unfolding by_key
  get-by_key xs k a h = elim (put_all-get xs [] k a h) [
    | inl found ↦ found
    | inr none_there ↦ absurd (ground (arith, get-nil {V = V} k))
  ]

  -- Every key of the list is found.
  pub by_key-has :
      (xs : List V) (a : V) → In a xs → (b : V) × (get (key a) (by_key key xs) ≡ some b)
  unfolding by_key
  by_key-has xs a h = put_all-has xs [] a h

  -- The keys of a list are all different.
  abbrev pub Distinct : List V → Type 0
  Distinct [] = Unit
  Distinct (x ∷ xs) = All (λ y. key y ≢ key x) xs × Distinct xs

  All-In : (x a : V) (xs : List V) → All (λ y. key y ≢ key x) xs → In a xs → key a ≢ key x
  All-In x a (y ∷ ys) (n, h) (inl e) = rw e n
  All-In x a (y ∷ ys) (n, h) (inr k) = All-In x a ys h k
  All-In x a [] h k = elim k [ ]

  pub eq_of_Distinct :
      (xs : List V) (a b : V) → Distinct xs → In a xs → In b xs → key a ≡ key b → a ≡ b
  eq_of_Distinct (x ∷ xs) a b (n, d) (inl e) (inl f) same = e ∙ sym f
  eq_of_Distinct (x ∷ xs) a b (n, d) (inl e) (inr k) same =
      absurd (All-In x b xs n k (sym (rw e at same)))
  eq_of_Distinct (x ∷ xs) a b (n, d) (inr h) (inl f) same =
      absurd (All-In x a xs n h (rw f at same))
  eq_of_Distinct (x ∷ xs) a b (n, d) (inr h) (inr k) same = eq_of_Distinct xs a b d h k same
  eq_of_Distinct [] a b d h k same = elim h [ ]
