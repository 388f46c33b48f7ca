-- ===== src/Prelude/Dict.antt =====
-- A JavaScript object or `Map` with string keys: its entries in the order of insertion. Writing a
-- key that is there keeps its place; a new key goes to the end. (An engine lists keys that are
-- array indices first; no theorem rests on the order of the entries.)
pub mod Keyed
pub mod Entries
use Prim.Native.String.{String}
use mathlib.Core.Path.{◌≡◌, refl}
use mathlib.Core.Logic.{◌≢◌}
use mathlib.Core.Bool.{false}
use mathlib.Core.Option.{Option, none, some}
use mathlib.Core.List.{List, [], ◌∷◌, map}
use native.Mathlib.Omega.{arith}
use text.Mathlib.Text.{◌==◌}
use text.Mathlib.TextEquality.{eq_iff}
use fire_sync.Prelude.Tests.{if◌then◌else◌}

abbrev pub Dict {ℓ} : Type ℓ → Type ℓ
Dict V = List (String × V)

module _ {ℓ} {V : Type ℓ} where
  unfoldable pub get : String → Dict V → Option V
  get k [] = none
  get k ((j, v) ∷ m) = if j == k then some v else get k m

  unfoldable pub put : String → V → Dict V → Dict V
  put k v [] = (k, v) ∷ []
  put k v ((j, w) ∷ m) = if j == k then (j, v) ∷ m else (j, w) ∷ put k v m

  -- `delete m[k]`
  unfoldable pub remove : String → Dict V → Dict V
  remove k [] = []
  remove k ((j, w) ∷ m) = let rest = remove k m in if j == k then rest else (j, w) ∷ rest

  -- `Object.values`
  abbrev pub values : Dict V → List V
  values [] = []
  values ((j, v) ∷ m) = v ∷ values m

  abbrev pub keys : Dict V → List String
  keys [] = []
  keys ((j, v) ∷ m) = j ∷ keys m

  -- One `put` for each entry, in order, so that the last entry of a key wins.
  unfoldable pub put_all : List (String × V) → Dict V → Dict V
  put_all [] m = m
  put_all ((k, v) ∷ rest) m = put_all rest (put k v m)

-- `new Map(list.map((a) => [key(a), a]))`
unfoldable pub by_key {ℓ} : {V : Type ℓ} → (V → String) → List V → Dict V
unfolding put_all
by_key key list = put_all (map (λ a. (key a, a)) list) []

module _ {ℓ} {V : Type ℓ} where
  pub get-put :
      (k j : String) (v : V) (m : Dict V) → get j (put k v m) ≡ (if k == j then some v else get j m)
  unfolding get put
  get-put k j v [] = refl
  get-put k j v ((i, w) ∷ m) = ground (arith, eq_iff k j, eq_iff i k, eq_iff i j, get-put k j v m)

  pub get-remove :
      (k j : String) (m : Dict V) → get j (remove k m) ≡ (if k == j then none else get j m)
  unfolding get remove
  get-remove k j [] = ground arith
  get-remove k j ((i, w) ∷ m) = ground (arith, eq_iff k j, eq_iff i k, eq_iff i j, get-remove k j m)

  pub get-nil : (k : String) → get {V = V} k [] ≡ none
  unfolding get
  get-nil k = refl

-- Texts are equal or not.
pub eq_of_ne : (k j : String) → k ≢ j → (k == j) ≡ false
eq_of_ne k j h = ground (arith, eq_iff k j)
