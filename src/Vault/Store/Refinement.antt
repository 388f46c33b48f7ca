-- ===== src/Vault/Store/Refinement.antt =====
-- `VaultStore` of src/vault/store.ts against the box, over sequences of calls.
use fire_sync.Prelude.{◌≡◌, refl, ap, ◌∙◌, Option, none, List, [], ◌∷◌, map}
use fire_sync.Vault.Crypto.{canonical, Cipher, IsIdeal}
use fire_sync.Vault.Store.{Fresh}
use fire_sync.Vault.Store.Box.{
  Call, call_create, call_ensure, call_lock, call_is_unlocked, call_protection, call_reset,
  call_unlock, call_read_contents, call_read_tokens, call_read_sync_state, call_clear_tokens,
  call_write_contents, call_write_tokens, call_write_sync_state, call_set_protection, spec, run_all,
  spec_all,
}
use fire_sync.Vault.Store.Views.{View, absent_view, store_of, box_of}
use fire_sync.Vault.Store.Calls.{
  CallAgrees, read_contents-Agrees, lock-Agrees, is_unlocked-Agrees, protection-Agrees,
  reset-Agrees, clear_tokens-Agrees, write_contents-Agrees, write_sync_state-Agrees,
  read_sync_state-Agrees, read_tokens-Agrees, write_tokens-Agrees,
}
use fire_sync.Vault.Store.Protection.{
  unlock-Agrees, set_protection-Agrees, create-Agrees, ensure-Agrees,
}

module _ {Key Text : Type 0} (cipher : Cipher Key Text) (ideal : IsIdeal cipher) where
  call-Agrees : (fresh : Fresh Key) (c : Call) → CallAgrees cipher ideal fresh c
  call-Agrees fresh (call_create w) = create-Agrees cipher ideal fresh w
  call-Agrees fresh call_ensure = ensure-Agrees cipher ideal fresh
  call-Agrees fresh call_lock = lock-Agrees cipher ideal fresh
  call-Agrees fresh call_is_unlocked = is_unlocked-Agrees cipher ideal fresh
  call-Agrees fresh call_protection = protection-Agrees cipher ideal fresh
  call-Agrees fresh call_reset = reset-Agrees cipher ideal fresh
  call-Agrees fresh (call_unlock q) = unlock-Agrees cipher ideal fresh q
  call-Agrees fresh call_read_contents = read_contents-Agrees cipher ideal fresh
  call-Agrees fresh call_read_tokens = read_tokens-Agrees cipher ideal fresh
  call-Agrees fresh call_read_sync_state = read_sync_state-Agrees cipher ideal fresh
  call-Agrees fresh call_clear_tokens = clear_tokens-Agrees cipher ideal fresh
  call-Agrees fresh (call_write_contents c) = write_contents-Agrees cipher ideal fresh c
  call-Agrees fresh (call_write_tokens t) = write_tokens-Agrees cipher ideal fresh t
  call-Agrees fresh (call_write_sync_state s) = write_sync_state-Agrees cipher ideal fresh s
  call-Agrees fresh (call_set_protection w current) =
      set_protection-Agrees cipher ideal fresh w current

  run_all-from :
      (calls : List (Fresh Key × Call)) (v : View Key)
      → (run_all cipher calls (store_of cipher v)).0
        ≡ (spec_all (canonical cipher) (map (λ c. c.1) calls) (box_of v)).0
  unfolding run_all spec_all
  run_all-from [] v = refl
  run_all-from ((fresh, c) ∷ calls) v =
      let (same, (v', stored, boxed)) = call-Agrees fresh c v in
      rw (same, stored, boxed)
        (ap (λ l. (spec (canonical cipher) c (box_of v)).0 ∷ l) (run_all-from calls v'))

  -- With ideal ciphers, every sequence of calls on a profile that has no vault yet is answered as the
  -- box answers it, whatever keys, salts and nonces are drawn.
  pub run_all-refines :
      (calls : List (Fresh Key × Call)) (device_key : Option Key)
      → (run_all cipher calls (store_of cipher (absent_view device_key))).0
        ≡ (spec_all (canonical cipher) (map (λ c. c.1) calls) none).0
  run_all-refines calls device_key = run_all-from calls (absent_view device_key)

  -- The store at the end stands for the box at the end.
  pub run_all-view :
      (calls : List (Fresh Key × Call)) (v : View Key)
      → (v' : View Key) × ((run_all cipher calls (store_of cipher v)).1 ≡ store_of cipher v')
        × ((spec_all (canonical cipher) (map (λ c. c.1) calls) (box_of v)).1 ≡ box_of v')
  unfolding run_all spec_all
  run_all-view [] v = (v, refl, refl)
  run_all-view ((fresh, c) ∷ calls) v =
      let (same, (v', stored, boxed)) = call-Agrees fresh c v in
      let (w, reached, meant) = run_all-view calls v' in
      (
        w,
        ap (λ s. (run_all cipher calls s).1) stored ∙ reached,
        ap (λ b. (spec_all (canonical cipher) (map (λ c. c.1) calls) b).1) boxed ∙ meant,
      )
