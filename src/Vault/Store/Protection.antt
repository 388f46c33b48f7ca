-- ===== src/Vault/Store/Protection.antt =====
-- `create`, `unlock` and `setProtection` of `VaultStore` in src/vault/store.ts, against the box.
use fire_sync.Prelude.{
  ℕ, String, ◌≡◌, refl, Bool, true, false, Option, none, some, ltb, ◌==◌, if◌then◌else◌, Bool-cases,
  inl, inr, eq_iff, arith, ◌≢◌,
}
use fire_sync.Prelude.Result.{ok, err}
use fire_sync.Sync.Session.{AccountTokens}
use fire_sync.Vault.Contents.{empty_vault_contents}
use fire_sync.Vault.Crypto.{
  wrong_passphrase, canonical, Cipher, IsIdeal, iterations_of, verifier_slot, of_verifier,
  check_verifier, make_verifier,
}
use fire_sync.Vault.State.{empty_sync_state, passphrase, return, ◌>>=◌, ◌>>◌}
use fire_sync.Vault.Store.{
  Fresh, given, Wanted, create, ensure, unlock, read_contents, read_tokens, read_sync_state,
  set_protection, read_all, reseal, unlock_current, create_new,
}
use fire_sync.Vault.Store.Box.{
  done, Lock, by_device, by_passphrase, asked, locked_by, relocked, made, call_create, call_ensure,
  call_unlock, call_set_protection, spec, run_call,
}
use fire_sync.Vault.Store.Views.{
  is_held, View, absent_view, device_view, passphrase_view, unlocked, Seals, Values, Access,
  params_of, held_of, store_of, box_of,
}
use fire_sync.Vault.Store.Calls.{Agrees, CallAgrees}

module _ {Key Text : Type 0} (cipher : Cipher Key Text) (ideal : IsIdeal cipher)
    (fresh : Fresh Key) where
  -- The verifier tells the passphrase.
  check_verifier_lem :
      (p q : String) (n : ℕ) (salt iv : String)
      → check_verifier cipher
          (cipher.derive q (params_of n salt))
          (make_verifier cipher (cipher.derive p (params_of n salt)) iv)
        ≡ (q == p)
  check_verifier_lem p q n salt iv = elim (Bool-cases (q == p)) [
    | inl same ↦ let is : q ≡ p = ground (arith, eq_iff q p) in rw (same, is, ideal.opens) refl
    | inr other ↦
        let differs : p ≢ q = λ e. ground (arith, eq_iff q p) in
        let rejected =
          ideal.rejects_key (cipher.derive p (params_of n salt))
            (cipher.derive q (params_of n salt)) iv (of_verifier true) verifier_slot
            (ideal.separates q p (params_of n salt) (λ e. ground (arith, eq_iff q p))) in
        rw (other, rejected) refl
  ]

  unlock_lem :
      (k : Option Key) (p : String) (n : ℕ) (salt : String) (e : ltb n 100_000 ≡ false)
      (seals : Seals) (a : Access) (x : Values) (q : String)
      → unlock cipher fresh q (store_of cipher (passphrase_view k p n salt e seals a x)) ≡ (
          if canonical cipher q == p
          then (ok tt, store_of cipher (passphrase_view k p n salt e seals (unlocked false) x))
          else (err wrong_passphrase, store_of cipher (passphrase_view k p n salt e seals a x)))
  unfolding unlock
  unlock_lem k p n salt e seals a x q = elim (Bool-cases (canonical cipher q == p)) [
    | inl same ↦
        let is : canonical cipher q ≡ p = (eq_iff (canonical cipher q) p).0 same in
        rw (e, check_verifier_lem p (canonical cipher q) n salt seals.verifier_iv, same, is) refl
    | inr other ↦
        rw (e, check_verifier_lem p (canonical cipher q) n salt seals.verifier_iv, other) refl
  ]

  unlock_passphrase-Agrees :
      (q : String) (k : Option Key) (p : String) (n : ℕ) (salt : String) (e : ltb n 100_000 ≡ false)
      (seals : Seals) (a : Access) (x : Values)
      → Agrees cipher ideal fresh
          (run_call cipher fresh
            (call_unlock q)
            (store_of cipher (passphrase_view k p n salt e seals a x)))
          (spec
            (canonical cipher)
            (call_unlock q)
            (box_of (passphrase_view k p n salt e seals a x)))
  unlock_passphrase-Agrees q k p n salt e seals a x = elim (Bool-cases (canonical cipher q == p)) [
    | inl same ↦
        rw (unlock_lem k p n salt e seals a x q, same)
          (refl, (passphrase_view k p n salt e seals (unlocked false) x, refl, refl))
    | inr other ↦
        rw (unlock_lem k p n salt e seals a x q, other)
          (refl, (passphrase_view k p n salt e seals a x, refl, refl))
  ]

  pub unlock-Agrees : (q : String) → CallAgrees cipher ideal fresh (call_unlock q)
  unfolding unlock
  unlock-Agrees q (absent_view k) = (refl, (absent_view k, refl, refl))
  unlock-Agrees q (device_view k seals c x) = (refl, (device_view k seals c x, refl, refl))
  unlock-Agrees q (passphrase_view k p n salt e seals a x) =
      unlock_passphrase-Agrees q k p n salt e seals a x

  read_all_device :
      (t : Option AccountTokens) (k : Key) (seals : Seals) (c : Bool) (x : Values)
      → read_all cipher fresh (store_of cipher (device_view k seals c (record x { tokens = t })))
        ≡ (
          ok (x.contents, t, x.sync),
          store_of cipher (device_view k seals true (record x { tokens = t })),
        )
  unfolding read_contents read_tokens read_sync_state
  read_all_device none k seals true x = simp (ideal.opens)
  read_all_device none k seals false x = simp (ideal.opens)
  read_all_device (some t) k seals true x = simp (ideal.opens)
  read_all_device (some t) k seals false x = simp (ideal.opens)

  read_all_passphrase :
      (t : Option AccountTokens) (k : Option Key) (p : String) (n : ℕ) (salt : String)
      (e : ltb n 100_000 ≡ false) (seals : Seals) (c : Bool) (x : Values)
      → read_all cipher fresh (
          store_of cipher
            (passphrase_view k p n salt e seals (unlocked c) (record x { tokens = t })))
        ≡ (
          ok (x.contents, t, x.sync),
          store_of cipher
              (passphrase_view k p n salt e seals (unlocked true) (record x { tokens = t })),
        )
  unfolding read_contents read_tokens read_sync_state
  read_all_passphrase none k p n salt e seals true x = simp (ideal.opens)
  read_all_passphrase none k p n salt e seals false x = simp (ideal.opens)
  read_all_passphrase (some t) k p n salt e seals true x = simp (ideal.opens)
  read_all_passphrase (some t) k p n salt e seals false x = simp (ideal.opens)

  -- The nonces and the time of a sealing of all blobs.
  abbrev anew : Seals
  anew = record {
    verifier_iv = fresh.iv;
    vault_iv = fresh.iv;
    tokens_iv = fresh.iv;
    sync_iv = fresh.iv;
    at = fresh.now;
  }

  abbrev Resealed : Option String → Option ℕ → View Key → Lock → Values → Type 0
  Resealed o m v l x =
      Agrees cipher ideal fresh
        ((reseal cipher fresh o m (x.contents, x.tokens, x.sync) >> return done)
          (store_of cipher v))
        (locked_by (held_of l x) (asked (canonical cipher) o m))

  reseal_device :
      (o : Option String) (m : Option ℕ) (k : Key) (seals : Seals) (x : Values)
      → Resealed o m (device_view k seals true x) by_device x
  reseal_device none m k seals x = (refl, (device_view k anew true x, refl, refl))
  reseal_device (some p) m k seals x = elim (Bool-cases (ltb (iterations_of m) 100_000)) [
    | inl weak ↦ rw weak (refl, (device_view k seals true x, refl, refl))
    | inr e ↦ rw e (
      refl,
      (
        passphrase_view (some k) (canonical cipher p) (iterations_of m) fresh.salt e anew
            (unlocked true) x,
        refl,
        refl,
      ),
    )
  ]

  reseal_passphrase :
      (o : Option String) (m : Option ℕ) (k : Option Key) (p : String) (n : ℕ) (salt : String)
      (e : ltb n 100_000 ≡ false) (seals : Seals) (x : Values)
      → Resealed o m (passphrase_view k p n salt e seals (unlocked true) x) (by_passphrase p true) x
  reseal_passphrase none m none p n salt e seals x =
      (refl, (device_view fresh.key anew true x, refl, refl))
  reseal_passphrase none m (some k) p n salt e seals x =
      (refl, (device_view k anew true x, refl, refl))
  reseal_passphrase (some q) m k p n salt e seals x =
      elim (Bool-cases (ltb (iterations_of m) 100_000)) [
        | inl weak ↦
            rw weak (refl, (passphrase_view k p n salt e seals (unlocked true) x, refl, refl))
        | inr e' ↦ rw e' (
          refl,
          (
            passphrase_view k (canonical cipher q) (iterations_of m) fresh.salt e' anew
                (unlocked true) x,
            refl,
            refl,
          ),
        )
      ]

  set_protection_at :
      (w : Wanted) (current : Option String) (k : Option Key) (p : String) (n : ℕ) (salt : String)
      (e : ltb n 100_000 ≡ false) (seals : Seals) (a : Access) (x : Values)
      → Agrees cipher ideal fresh
          (((unlock_current cipher fresh passphrase current)
              >> (read_all cipher fresh >>= λ read.
                  reseal cipher fresh (given w.passphrase) w.iterations read)
              >> return done)
            (store_of cipher (passphrase_view k p n salt e seals a x)))
          (relocked
            (canonical cipher)
            (held_of (by_passphrase p (is_held a)) x)
            w
            (by_passphrase p (is_held a))
            current)
  set_protection_at w none k p n salt e seals a x =
      (refl, (passphrase_view k p n salt e seals a x, refl, refl))
  set_protection_at w (some q) k p n salt e seals a x =
      elim (Bool-cases (canonical cipher q == p)) [
        | inl same ↦
            rw
              (
                unlock_lem k p n salt e seals a x q,
                same,
                read_all_passphrase x.tokens k p n salt e seals false x,
              )
              (reseal_passphrase (given w.passphrase) w.iterations k p n salt e seals x)
        | inr other ↦
            rw (unlock_lem k p n salt e seals a x q, other)
              (refl, (passphrase_view k p n salt e seals a x, refl, refl))
      ]

  pub set_protection-Agrees :
      (w : Wanted) (current : Option String)
      → CallAgrees cipher ideal fresh (call_set_protection w current)
  unfolding set_protection
  set_protection-Agrees w current (absent_view k) = (refl, (absent_view k, refl, refl))
  set_protection-Agrees w current (device_view k seals c x) =
      rw (read_all_device x.tokens k seals c x)
        (reseal_device (given w.passphrase) w.iterations k seals x)
  set_protection-Agrees w current (passphrase_view k p n salt e seals a x) =
      set_protection_at w (given current) k p n salt e seals a x

  abbrev empty_values : Values
  empty_values = record { contents = empty_vault_contents; tokens = none; sync = empty_sync_state }

  create_at :
      (o : Option String) (m : Option ℕ) (k : Option Key)
      → Agrees cipher ideal fresh
          ((create_new cipher fresh o m false >> return done) (store_of cipher (absent_view k)))
          (made (asked (canonical cipher) o m))
  create_at none m none = (refl, (device_view fresh.key anew true empty_values, refl, refl))
  create_at none m (some k) = (refl, (device_view k anew true empty_values, refl, refl))
  create_at (some p) m k = elim (Bool-cases (ltb (iterations_of m) 100_000)) [
    | inl weak ↦ rw weak (refl, (absent_view k, refl, refl))
    | inr e ↦ rw e (
      refl,
      (
        passphrase_view k (canonical cipher p) (iterations_of m) fresh.salt e anew (unlocked true)
            empty_values,
        refl,
        refl,
      ),
    )
  ]

  pub create-Agrees : (w : Wanted) → CallAgrees cipher ideal fresh (call_create w)
  unfolding create
  create-Agrees w (absent_view k) = create_at (given w.passphrase) w.iterations k
  create-Agrees w (device_view k seals c x) = (refl, (device_view k seals c x, refl, refl))
  create-Agrees w (passphrase_view k p n salt e seals a x) =
      (refl, (passphrase_view k p n salt e seals a x, refl, refl))

  pub ensure-Agrees : CallAgrees cipher ideal fresh call_ensure
  unfolding ensure create
  ensure-Agrees (absent_view k) = create_at none none k
  ensure-Agrees (device_view k seals c x) = (refl, (device_view k seals c x, refl, refl))
  ensure-Agrees (passphrase_view k p n salt e seals a x) =
      (refl, (passphrase_view k p n salt e seals a x, refl, refl))
