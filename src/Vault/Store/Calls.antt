-- ===== src/Vault/Store/Calls.antt =====
-- The calls of `VaultStore` in src/vault/store.ts that read, write and lock, against the box.
use fire_sync.Prelude.{◌≡◌, refl, true, false, Option, none, some}
use fire_sync.Prelude.Result.{Result}
use fire_sync.Sync.Session.{SyncState, SyncFailure, AccountTokens}
use fire_sync.Vault.Contents.{VaultContents}
use fire_sync.Vault.Crypto.{VaultError, canonical, Cipher, IsIdeal}
use fire_sync.Vault.State.{Store}
use fire_sync.Vault.Store.{
  Fresh, read_contents, write_contents, read_tokens, write_tokens, read_sync_state,
  write_sync_state,
}
use fire_sync.Vault.Store.Box.{
  Answer, Outcome, Call, call_lock, call_is_unlocked, call_protection, call_reset,
  call_read_contents, call_read_tokens, call_read_sync_state, call_clear_tokens,
  call_write_contents, call_write_tokens, call_write_sync_state, spec, run_call,
}
use fire_sync.Vault.Store.Views.{
  View, absent_view, device_view, passphrase_view, locked, unlocked, store_of, box_of,
}

module _ {Key : Type 0} where
  abbrev with_tokens : Option AccountTokens → View Key → View Key
  with_tokens t (absent_view k) = absent_view k
  with_tokens t (device_view k seals c x) = device_view k seals c (record x { tokens = t })
  with_tokens t (passphrase_view k p n salt e seals a x) =
      passphrase_view k p n salt e seals a (record x { tokens = t })

  abbrev with_error : Option SyncFailure → View Key → View Key
  with_error o (absent_view k) = absent_view k
  with_error o (device_view k seals c x) =
      device_view k seals c (record x { sync = record x.sync { last_sync_error = o } })
  with_error o (passphrase_view k p n salt e seals a x) =
      passphrase_view k p n salt e seals a
        (record x { sync = record x.sync { last_sync_error = o } })

module _ {Key Text : Type 0} (cipher : Cipher Key Text) (ideal : IsIdeal cipher)
    (fresh : Fresh Key) where
  -- The store stands for the box that the outcome has, and the answers are the same.
  abbrev pub Agrees : Result VaultError Answer × Store Key Text → Outcome → Type 0
  Agrees (answer, s) (answer', b) =
      (answer ≡ answer') × ((v : View Key) × (s ≡ store_of cipher v) × (b ≡ box_of v))

  abbrev pub CallAgrees : Call → Type 0
  CallAgrees c =
      (v : View Key)
      → Agrees (run_call cipher fresh c (store_of cipher v)) (spec (canonical cipher) c (box_of v))

  pub read_contents-Agrees : CallAgrees call_read_contents
  unfolding read_contents
  read_contents-Agrees (absent_view k) = (refl, (absent_view k, refl, refl))
  read_contents-Agrees (device_view k seals true x) =
      (refl, (device_view k seals true x, refl, refl))
  read_contents-Agrees (passphrase_view k p n salt e seals locked x) =
      (refl, (passphrase_view k p n salt e seals locked x, refl, refl))
  read_contents-Agrees (passphrase_view k p n salt e seals (unlocked true) x) =
      (refl, (passphrase_view k p n salt e seals (unlocked true) x, refl, refl))
  read_contents-Agrees (device_view k seals false x) =
      rw (ideal.opens) (refl, (device_view k seals true x, refl, refl))
  read_contents-Agrees (passphrase_view k p n salt e seals (unlocked false) x) =
      rw (ideal.opens) (refl, (passphrase_view k p n salt e seals (unlocked true) x, refl, refl))

  pub lock-Agrees : CallAgrees call_lock
  lock-Agrees (absent_view k) = (refl, (absent_view k, refl, refl))
  lock-Agrees (device_view k seals c x) = (refl, (device_view k seals false x, refl, refl))
  lock-Agrees (passphrase_view k p n salt e seals locked x) =
      (refl, (passphrase_view k p n salt e seals locked x, refl, refl))
  lock-Agrees (passphrase_view k p n salt e seals (unlocked c) x) =
      (refl, (passphrase_view k p n salt e seals locked x, refl, refl))

  pub is_unlocked-Agrees : CallAgrees call_is_unlocked
  is_unlocked-Agrees (absent_view k) = (refl, (absent_view k, refl, refl))
  is_unlocked-Agrees (device_view k seals c x) = (refl, (device_view k seals c x, refl, refl))
  is_unlocked-Agrees (passphrase_view k p n salt e seals locked x) =
      (refl, (passphrase_view k p n salt e seals locked x, refl, refl))
  is_unlocked-Agrees (passphrase_view k p n salt e seals (unlocked c) x) =
      (refl, (passphrase_view k p n salt e seals (unlocked c) x, refl, refl))

  pub protection-Agrees : CallAgrees call_protection
  protection-Agrees (absent_view k) = (refl, (absent_view k, refl, refl))
  protection-Agrees (device_view k seals c x) = (refl, (device_view k seals c x, refl, refl))
  protection-Agrees (passphrase_view k p n salt e seals locked x) =
      (refl, (passphrase_view k p n salt e seals locked x, refl, refl))
  protection-Agrees (passphrase_view k p n salt e seals (unlocked c) x) =
      (refl, (passphrase_view k p n salt e seals (unlocked c) x, refl, refl))

  pub reset-Agrees : CallAgrees call_reset
  reset-Agrees (absent_view k) = (refl, (absent_view none, refl, refl))
  reset-Agrees (device_view k seals c x) = (refl, (absent_view none, refl, refl))
  reset-Agrees (passphrase_view k p n salt e seals a x) = (refl, (absent_view none, refl, refl))

  pub clear_tokens-Agrees : CallAgrees call_clear_tokens
  clear_tokens-Agrees (absent_view k) = (refl, (absent_view k, refl, refl))
  clear_tokens-Agrees (device_view k seals c x) =
      (refl, (device_view k seals c (record x { tokens = none }), refl, refl))
  clear_tokens-Agrees (passphrase_view k p n salt e seals a x) =
      (refl, (passphrase_view k p n salt e seals a (record x { tokens = none }), refl, refl))

  pub write_contents-Agrees : (w : VaultContents) → CallAgrees (call_write_contents w)
  unfolding write_contents
  write_contents-Agrees w (absent_view k) = (refl, (absent_view k, refl, refl))
  write_contents-Agrees w (device_view k seals c x) = (
    refl,
    (
      device_view k (record seals { vault_iv = fresh.iv }) true (record x { contents = w }),
      refl,
      refl,
    ),
  )
  write_contents-Agrees w (passphrase_view k p n salt e seals locked x) =
      (refl, (passphrase_view k p n salt e seals locked x, refl, refl))
  write_contents-Agrees w (passphrase_view k p n salt e seals (unlocked c) x) = (
    refl,
    (
      passphrase_view k p n salt e (record seals { vault_iv = fresh.iv }) (unlocked true)
          (record x { contents = w }),
      refl,
      refl,
    ),
  )

  pub write_sync_state-Agrees : (w : SyncState) → CallAgrees (call_write_sync_state w)
  unfolding write_sync_state
  write_sync_state-Agrees w (absent_view k) = (refl, (absent_view k, refl, refl))
  write_sync_state-Agrees w (device_view k seals c x) = (
    refl,
    (device_view k (record seals { sync_iv = fresh.iv }) c (record x { sync = w }), refl, refl),
  )
  write_sync_state-Agrees w (passphrase_view k p n salt e seals locked x) =
      (refl, (passphrase_view k p n salt e seals locked x, refl, refl))
  write_sync_state-Agrees w (passphrase_view k p n salt e seals (unlocked c) x) = (
    refl,
    (
      passphrase_view k p n salt e (record seals { sync_iv = fresh.iv }) (unlocked c)
          (record x { sync = w }),
      refl,
      refl,
    ),
  )

  pub read_sync_state-Agrees : CallAgrees call_read_sync_state
  unfolding read_sync_state
  read_sync_state-Agrees (absent_view k) = (refl, (absent_view k, refl, refl))
  read_sync_state-Agrees (device_view k seals c x) =
      rw (ideal.opens) (refl, (device_view k seals c x, refl, refl))
  read_sync_state-Agrees (passphrase_view k p n salt e seals locked x) =
      (refl, (passphrase_view k p n salt e seals locked x, refl, refl))
  read_sync_state-Agrees (passphrase_view k p n salt e seals (unlocked c) x) =
      rw (ideal.opens) (refl, (passphrase_view k p n salt e seals (unlocked c) x, refl, refl))

  read_tokens_at-Agrees :
      (t : Option AccountTokens) (v : View Key)
      → Agrees
          (run_call cipher fresh call_read_tokens (store_of cipher (with_tokens t v)))
          (spec (canonical cipher) call_read_tokens (box_of (with_tokens t v)))
  unfolding read_tokens
  read_tokens_at-Agrees t (absent_view k) = (refl, (absent_view k, refl, refl))
  read_tokens_at-Agrees none (device_view k seals c x) =
      (refl, (device_view k seals c (record x { tokens = none }), refl, refl))
  read_tokens_at-Agrees (some t) (device_view k seals c x) =
      rw (ideal.opens) (refl, (device_view k seals c (record x { tokens = some t }), refl, refl))
  read_tokens_at-Agrees t (passphrase_view k p n salt e seals locked x) =
      (refl, (passphrase_view k p n salt e seals locked (record x { tokens = t }), refl, refl))
  read_tokens_at-Agrees none (passphrase_view k p n salt e seals (unlocked c) x) = (
    refl,
    (passphrase_view k p n salt e seals (unlocked c) (record x { tokens = none }), refl, refl),
  )
  read_tokens_at-Agrees (some t) (passphrase_view k p n salt e seals (unlocked c) x) =
      rw (ideal.opens) (
        refl,
        (
          passphrase_view k p n salt e seals (unlocked c) (record x { tokens = some t }),
          refl,
          refl,
        ),
      )

  pub read_tokens-Agrees : CallAgrees call_read_tokens
  read_tokens-Agrees (absent_view k) = read_tokens_at-Agrees none (absent_view k)
  read_tokens-Agrees (device_view k seals c x) =
      read_tokens_at-Agrees x.tokens (device_view k seals c x)
  read_tokens-Agrees (passphrase_view k p n salt e seals a x) =
      read_tokens_at-Agrees x.tokens (passphrase_view k p n salt e seals a x)

  write_tokens_at-Agrees :
      (o : Option SyncFailure) (t : AccountTokens) (v : View Key)
      → Agrees
          (run_call cipher fresh (call_write_tokens t) (store_of cipher (with_error o v)))
          (spec (canonical cipher) (call_write_tokens t) (box_of (with_error o v)))
  unfolding write_tokens read_sync_state write_sync_state
  write_tokens_at-Agrees o t (absent_view k) = (refl, (absent_view k, refl, refl))
  write_tokens_at-Agrees none t (device_view k seals c x) = rw (ideal.opens) (
    refl,
    (
      device_view k (record seals { tokens_iv = fresh.iv }) c
          (record x { tokens = some t; sync = record x.sync { last_sync_error = none } }),
      refl,
      refl,
    ),
  )
  write_tokens_at-Agrees (some f) t (device_view k seals c x) = rw (ideal.opens) (
    refl,
    (
      device_view k (record seals { tokens_iv = fresh.iv; sync_iv = fresh.iv }) c
          (record x { tokens = some t; sync = record x.sync { last_sync_error = none } }),
      refl,
      refl,
    ),
  )
  write_tokens_at-Agrees o t (passphrase_view k p n salt e seals locked x) =
      (refl, (with_error o (passphrase_view k p n salt e seals locked x), refl, refl))
  write_tokens_at-Agrees none t (passphrase_view k p n salt e seals (unlocked c) x) =
      rw (ideal.opens) (
        refl,
        (
          passphrase_view k p n salt e (record seals { tokens_iv = fresh.iv }) (unlocked c)
              (record x { tokens = some t; sync = record x.sync { last_sync_error = none } }),
          refl,
          refl,
        ),
      )
  write_tokens_at-Agrees (some f) t (passphrase_view k p n salt e seals (unlocked c) x) =
      rw (ideal.opens) (
        refl,
        (
          passphrase_view k p n salt e (record seals { tokens_iv = fresh.iv; sync_iv = fresh.iv })
              (unlocked c)
              (record x { tokens = some t; sync = record x.sync { last_sync_error = none } }),
          refl,
          refl,
        ),
      )

  pub write_tokens-Agrees : (t : AccountTokens) → CallAgrees (call_write_tokens t)
  write_tokens-Agrees t (absent_view k) = write_tokens_at-Agrees none t (absent_view k)
  write_tokens-Agrees t (device_view k seals c x) =
      write_tokens_at-Agrees x.sync.last_sync_error t (device_view k seals c x)
  write_tokens-Agrees t (passphrase_view k p n salt e seals a x) =
      write_tokens_at-Agrees x.sync.last_sync_error t (passphrase_view k p n salt e seals a x)
