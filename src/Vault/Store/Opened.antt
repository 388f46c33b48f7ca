-- ===== src/Vault/Store/Opened.antt =====
-- Reading and writing the contents of an open vault, src/vault/store.ts.
use fire_sync.Prelude.{String, ◌≡◌, refl, Bool, true, false}
use fire_sync.Prelude.Result.{ok}
use fire_sync.Vault.Contents.{VaultContents, empty_vault_contents}
use fire_sync.Vault.Crypto.{Cipher, IsIdeal}
use fire_sync.Vault.State.{Store}
use fire_sync.Vault.Store.{Fresh, read_contents, write_contents}
use fire_sync.Vault.Store.Views.{
  View, absent_view, device_view, passphrase_view, locked, unlocked, store_of,
}

abbrev pub is_open_view : {Key : Type 0} → View Key → Bool
is_open_view (absent_view k) = false
is_open_view (device_view k seals c x) = true
is_open_view (passphrase_view k p n salt e seals locked x) = false
is_open_view (passphrase_view k p n salt e seals (unlocked c) x) = true

abbrev pub contents_in_view : {Key : Type 0} → View Key → VaultContents
contents_in_view (absent_view k) = empty_vault_contents
contents_in_view (device_view k seals c x) = x.contents
contents_in_view (passphrase_view k p n salt e seals a x) = x.contents

module _ {Key Text : Type 0} (cipher : Cipher Key Text) (ideal : IsIdeal cipher)
    (fresh : Fresh Key) where
  -- Contents that are read once are read again, and can be written.
  pub record Serves (s : Store Key Text) (c : VaultContents) : Type 0 where
    pub after_read : Store Key Text
    pub reads : read_contents cipher fresh s ≡ (ok c, after_read)
    pub reads_again : read_contents cipher fresh after_read ≡ (ok c, after_read)
    pub after_write : VaultContents → Store Key Text
    pub writes :
        (c' : VaultContents) → write_contents cipher fresh c' after_read ≡ (ok tt, after_write c')

  pub open-Serves :
      (v : View Key) → is_open_view v ≡ true → Serves (store_of cipher v) (contents_in_view v)
  unfolding read_contents write_contents
  open-Serves (absent_view k) o = cc
  open-Serves (device_view k seals true x) o = record {
    after_read = store_of cipher (device_view k seals true x);
    reads = refl;
    reads_again = refl;
    after_write = _;
    writes = λ c'. refl;
  }
  open-Serves (device_view k seals false x) o = record {
    after_read = store_of cipher (device_view k seals true x);
    reads = rw (ideal.opens) refl;
    reads_again = refl;
    after_write = _;
    writes = λ c'. refl;
  }
  open-Serves (passphrase_view k p n salt e seals locked x) o = cc
  open-Serves (passphrase_view k p n salt e seals (unlocked true) x) o = record {
    after_read = store_of cipher (passphrase_view k p n salt e seals (unlocked true) x);
    reads = refl;
    reads_again = refl;
    after_write = _;
    writes = λ c'. refl;
  }
  open-Serves (passphrase_view k p n salt e seals (unlocked false) x) o = record {
    after_read = store_of cipher (passphrase_view k p n salt e seals (unlocked true) x);
    reads = rw (ideal.opens) refl;
    reads_again = refl;
    after_write = _;
    writes = λ c'. refl;
  }

-- The view once its contents are read, and once new contents are written.
abbrev pub cached_view : {Key : Type 0} → View Key → View Key
cached_view (absent_view k) = absent_view k
cached_view (device_view k seals c x) = device_view k seals true x
cached_view (passphrase_view k p n salt e seals locked x) =
    passphrase_view k p n salt e seals locked x
cached_view (passphrase_view k p n salt e seals (unlocked c) x) =
    passphrase_view k p n salt e seals (unlocked true) x

abbrev pub written_view : {Key : Type 0} → String → VaultContents → View Key → View Key
written_view iv w (absent_view k) = absent_view k
written_view iv w (device_view k seals c x) =
    device_view k (record seals { vault_iv = iv }) true (record x { contents = w })
written_view iv w (passphrase_view k p n salt e seals locked x) =
    passphrase_view k p n salt e seals locked x
written_view iv w (passphrase_view k p n salt e seals (unlocked c) x) =
    passphrase_view k p n salt e (record seals { vault_iv = iv }) (unlocked true)
      (record x { contents = w })

module _ {Key : Type 0} where
  -- Both stay open, and hold the contents that they held or that were written.
  pub cached_view-opened :
      (v : View Key)
      → is_open_view v ≡ true
      → (is_open_view (cached_view v) ≡ true)
        × (contents_in_view (cached_view v) ≡ contents_in_view v)
  cached_view-opened (absent_view k) o = cc
  cached_view-opened (device_view k seals c x) o = (refl, refl)
  cached_view-opened (passphrase_view k p n salt e seals locked x) o = cc
  cached_view-opened (passphrase_view k p n salt e seals (unlocked c) x) o = (refl, refl)

  pub written_view-opened :
      (iv : String) (w : VaultContents) (v : View Key)
      → is_open_view v ≡ true
      → (is_open_view (written_view iv w v) ≡ true) × (contents_in_view (written_view iv w v) ≡ w)
  written_view-opened iv w (absent_view k) o = cc
  written_view-opened iv w (device_view k seals c x) o = (refl, refl)
  written_view-opened iv w (passphrase_view k p n salt e seals locked x) o = cc
  written_view-opened iv w (passphrase_view k p n salt e seals (unlocked c) x) o = (refl, refl)

module _ {Key Text : Type 0} (cipher : Cipher Key Text) (ideal : IsIdeal cipher)
    (fresh : Fresh Key) where
  pub read_contents-opened :
      (v : View Key)
      → is_open_view v ≡ true
      → read_contents cipher fresh (store_of cipher v)
        ≡ (ok (contents_in_view v), store_of cipher (cached_view v))
  unfolding read_contents
  read_contents-opened (absent_view k) o = cc
  read_contents-opened (device_view k seals true x) o = refl
  read_contents-opened (device_view k seals false x) o = rw (ideal.opens) refl
  read_contents-opened (passphrase_view k p n salt e seals locked x) o = cc
  read_contents-opened (passphrase_view k p n salt e seals (unlocked true) x) o = refl
  read_contents-opened (passphrase_view k p n salt e seals (unlocked false) x) o =
      rw (ideal.opens) refl

  pub write_contents-opened :
      (w : VaultContents) (v : View Key)
      → is_open_view v ≡ true
      → write_contents cipher fresh w (store_of cipher v)
        ≡ (ok tt, store_of cipher (written_view fresh.iv w v))
  unfolding write_contents
  write_contents-opened w (absent_view k) o = cc
  write_contents-opened w (device_view k seals c x) o = refl
  write_contents-opened w (passphrase_view k p n salt e seals locked x) o = cc
  write_contents-opened w (passphrase_view k p n salt e seals (unlocked c) x) o = refl
