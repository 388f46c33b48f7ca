-- ===== src/Vault/Store/AtRest.antt =====
-- What lies in the areas of `chrome.storage` while the vault of src/vault/store.ts is locked by a
-- passphrase.
use fire_sync.Prelude.{◌≡◌, refl, sym, ap, String, Option, none, some, List, map, false, ◌≢◌}
use mathlib.Core.Path.{subst}
use fire_sync.Prelude.Result.{err}
use fire_sync.Sync.Session.{AccountTokens}
use fire_sync.Vault.Crypto.{
  KdfParams, wrong_passphrase, of_contents, of_sync, SealedBlob, canonical, Cipher, IsIdeal,
  vault_slot, tokens_slot, Plain, unseal,
}
use fire_sync.Vault.State.{Store}
use fire_sync.Vault.Store.{Fresh, sealed_tokens}
use fire_sync.Vault.Store.Box.{Call, Lock, by_device, by_passphrase, Box, run_all, spec_all}
use fire_sync.Vault.Store.Views.{
  View, absent_view, device_view, passphrase_view, locked, unlocked, params_of, store_of, box_of,
}
use fire_sync.Vault.Store.Refinement.{run_all-view}

abbrev passphrase_of : Lock → String
passphrase_of by_device = ""
passphrase_of (by_passphrase p is_open) = p

module _ {Key Text : Type 0} (cipher : Cipher Key Text) where
  -- The key does not open what is stored.
  abbrev pub Refuses : Key → Option (SealedBlob Text) → String → Type 0
  Refuses j none slot = Unit
  Refuses j (some blob) slot = unseal cipher j blob slot ≡ err wrong_passphrase

  -- No key and no contents are at hand, and the key opens none of the three blobs.
  abbrev pub IsBlind : Key → Store Key Text → Type 0
  IsBlind j s =
      (s.unlocked ≡ none)
      × (s.cached_contents ≡ none)
      × Refuses j s.vault vault_slot
      × Refuses j s.tokens tokens_slot
      × Refuses j s.sync vault_slot

  abbrev pub IsLocked : String → Box → Type 0
  IsLocked p none = ⊥
  IsLocked p (some h) = h.guard ≡ by_passphrase p false

  module _ (ideal : IsIdeal cipher) where
    tokens-Refuses :
        (j k : Key) (iv : String) (t : Option AccountTokens)
        → j ≢ k
        → Refuses j (sealed_tokens cipher k iv t) tokens_slot
    tokens-Refuses j k iv none other = tt
    tokens-Refuses j k iv (some t) other = rw (ideal.rejects_key k j iv _ tokens_slot other) refl

    view-IsBlind :
        (j : Key) (p : String) (v : View Key)
        → ((params : KdfParams) → j ≢ cipher.derive p params)
        → IsLocked p (box_of v)
        → IsBlind j (store_of cipher v)
    view-IsBlind j p (absent_view k) other closed = elim closed [ ]
    view-IsBlind j p (device_view k seals c x) other closed = cc
    view-IsBlind j p (passphrase_view k q n salt e seals (unlocked c) x) other closed = cc
    view-IsBlind j p (passphrase_view k q n salt e seals locked x) other closed =
        let same : p ≡ q = sym (ap passphrase_of closed) in
        let apart : j ≢ cipher.derive q (params_of n salt) =
          subst (λ r. j ≢ cipher.derive r (params_of n salt)) same (other (params_of n salt)) in
        let shut = λ (iv : String) (y : Plain) (slot : String).
          ideal.rejects_key (cipher.derive q (params_of n salt)) j iv y slot apart in
        (
          refl,
          refl,
          rw (shut seals.vault_iv (of_contents x.contents) vault_slot) refl,
          tokens-Refuses j (cipher.derive q (params_of n salt)) seals.tokens_iv x.tokens apart,
          rw (shut seals.sync_iv (of_sync x.sync) vault_slot) refl,
        )

    -- After any calls that leave the vault locked by a passphrase, the session holds no key and the
    -- process no contents; a key that the passphrase does not give, such as the device key, opens
    -- neither the logins nor the tokens nor the sync state.
    pub run_all-IsBlind :
        (calls : List (Fresh Key × Call)) (device_key : Option Key) (p : String) (j : Key)
        → ((params : KdfParams) → j ≢ cipher.derive p params)
        → IsLocked p (spec_all (canonical cipher) (map (λ c. c.1) calls) none).1
        → IsBlind j (run_all cipher calls (store_of cipher (absent_view device_key))).1
    run_all-IsBlind calls device_key p j other closed =
        let (v, stored, boxed) = run_all-view cipher ideal calls (absent_view device_key) in
        rw stored (view-IsBlind j p v other (rw boxed at closed))
