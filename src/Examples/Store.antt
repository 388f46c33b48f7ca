-- ===== src/Examples/Store.antt =====
-- Concrete calls on the vault of src/vault/store.ts, with a cipher that writes the key beside the text.
use fire_sync.Prelude.{
  String, ◌≡◌, refl, Option, none, some, List, [], ◌∷◌, ◌==◌, if◌then◌else◌, eq_iff, eq_refl, arith,
  map,
}
use fire_sync.Vault.Crypto.{Plain, canonical, Cipher, IsIdeal}
use fire_sync.Vault.Store.{Fresh}
use fire_sync.Vault.Store.Box.{
  Call, call_ensure, call_lock, call_unlock, call_read_contents, call_set_protection, run_all,
  spec_all,
}
use fire_sync.Vault.Store.Views.{absent_view, store_of}
use fire_sync.Vault.Store.Refinement.{run_all-refines}
use fire_sync.Vault.Store.AtRest.{IsBlind, run_all-IsBlind}

abbrev pub decrypt_with : String → String → String × String × Plain → String → Option Plain
decrypt_with j iv (k, s, x) slot = if j == k then (if slot == s then some x else none) else none

-- Two spellings of one passphrase.
abbrev spelled : String → String
spelled p = if p == "ﬁsh" then "fish" else p

abbrev pub toy : Cipher String (String × String × Plain)
toy = record {
  encrypt = λ k iv x slot. (k, slot, x);
  decrypt = decrypt_with;
  normalize = spelled;
  block = λ p. p;
  derive = λ p params. p;
}

pub toy-IsIdeal : IsIdeal toy
toy-IsIdeal = record {
  opens = λ k iv x slot. rw (eq_refl k, eq_refl slot) refl;
  rejects_key = λ k j iv x slot other. ground (arith, eq_iff j k);
  separates = λ p q params other. other;
}

abbrev pub fresh : Fresh String
fresh = record { key = "device"; salt = "salt"; iv = "iv"; new_id = "{n}"; now = 9 }

-- A vault is made, a passphrase set, and the vault locked, tried, opened and read.
abbrev calls : List (Fresh String × Call)
calls =
    (fresh, call_ensure)
    ∷ (fresh, call_set_protection (record { passphrase = some "ﬁsh"; iterations = none }) none)
    ∷ (fresh, call_lock)
    ∷ (fresh, call_read_contents)
    ∷ (fresh, call_unlock "guess")
    ∷ (fresh, call_unlock "fish")
    ∷ (fresh, call_read_contents)
    ∷ []

abbrev locking : List (Fresh String × Call)
locking =
    (fresh, call_ensure)
    ∷ (fresh, call_set_protection (record { passphrase = some "ﬁsh"; iterations = none }) none)
    ∷ (fresh, call_lock)
    ∷ []

run_all-refines_example :
    (run_all toy calls (store_of toy (absent_view none))).0
    ≡ (spec_all (canonical toy) (map (λ c. c.1) calls) none).0
run_all-refines_example = run_all-refines toy toy-IsIdeal calls none

run_all-IsBlind_example :
    IsBlind toy "device" (run_all toy locking (store_of toy (absent_view none))).1
unfolding spec_all
run_all-IsBlind_example =
    run_all-IsBlind toy toy-IsIdeal locking none "fish" "device"
      (λ params e. ground (arith, eq_iff "device" "fish")) refl
