-- ===== src/Lib.antt =====
-- FireSync is a browser extension that keeps logins, addresses and cards in an encrypted vault, syncs
-- them with Firefox through Mozilla's Sync 1.5 servers, and offers them on web pages. This library
-- models its core logic, and states and proves properties of it.
--
-- The parts, and how they work together. A sync asks the accounts and token servers for credentials of a
-- storage server, and then syncs one collection after another: it reads the records of the collection,
-- reconciles them with the vault's, applies the ones that won and uploads the others; the vault marks
-- what was sent. The matcher decides which login may be offered on a page, by the preferences of the
-- site. The vault store keeps the contents sealed, under a key of the device or of a passphrase. The
-- message router answers the pages and content scripts by calls on all of these. The sign-in coordinator
-- redeems the code of a hosted sign-in. The update checker looks for new releases. The native bridge
-- reads a local Firefox profile.
--
--   Sync/Reconcile       src/sync15/reconcile.ts: `reconcile`, `expiredTombstones`
--   Sync/Passwords       src/sync15/engines/passwords.ts
--   Sync/Addresses       src/sync15/engines/addresses.ts and creditcards.ts
--   Sync/Storage         src/sync15/storage.ts: Chunks and Batch for `postRecordsBatched`, Pages for
--                        `getAllRecords`, Transport for `request` and `noteResponseMetadata`
--   Sync/Meta            src/sync15/meta.ts
--   Sync/Engine          src/sync15/engine.ts: `syncCollection` and `decodeRecord`
--   Sync/TokenServer     src/sync15/tokenserver.ts: `fetchSyncNode`
--   Sync/AuthCheck       src/sync15/authcheck.ts
--   Sync/Session         src/sync15/engine.ts: `storageClient`; Run for `runSync`, `readMetaGlobal`
--   Vault/Crypto         src/vault/crypto.ts
--   Vault/State          the areas of storage that src/vault/store.ts uses, and the monad of its methods
--   Vault/Store          src/vault/store.ts: keys, slots, locking, the change of protection, and
--                        src/vault/device-key.ts; Box for what the store promises, Refinement for the
--                        proof that it keeps to it, AtRest for what is left in storage
--   Vault/Logins         src/vault/store.ts: the methods on logins, over the sealed slots
--   Vault/Contents       src/vault/store.ts and types.ts: the calls on the decrypted contents
--   Vault/Contents/Find  src/vault/store.ts: `findPasswordsForUrl`
--   Prefs/Global         src/prefs/store.ts and types.ts: the global settings
--   Prefs                src/prefs/store.ts and types.ts, src/sync15/engines/prefs.ts
--   Match/Psl            src/match/psl.ts
--   Match/EquivalentDomains  src/match/equivalent-domains.ts
--   Match/Uri            src/match/uri.ts
--   Background/SignIn    src/background/signin.ts
--   Background/Messages  src/common/messages.ts
--   Background/Router    src/background/router.ts: the sender's page, alarms; Relayed and Handle
--                        for `handle`
--   Account/Connect      src/fxa/connect.ts: Careful and Done for what it does with the tokens
--   Background/Import    src/background/router.ts: `importFromFirefox`; Chosen for what it takes by the
--                        keys, Pairs by origins and usernames
--   Autofill/Detector    src/autofill/detector.ts: inputs and forms; Filler for filler.ts
--   Bridge/Client        src/bridge/client.ts: the calls in flight
--   Update/Version       src/update/version.ts
--   Update/Checker       src/update/checker.ts and types.ts
--   Common/Bytes         src/common/bytes.ts: hexadecimal texts, `timingSafeEqual`
--   Url                  the platform's URL parser, a parameter
--   Prelude              shared names, lists, texts, results and dictionaries
--   Examples             tests, and concrete inputs for the theorems
--
-- Conventions. State is passed along explicitly: an operation takes the stored value and gives the new
-- one, and a call that throws gives `err`. Server times (`modified`, `syncedAt`, `lastModified`) are
-- whole numbers of hundredths of a second, as the server sends them; all other times are milliseconds.
-- `none` stands for `undefined` and for `null`, which the code tells apart nowhere here. A `Map` or an
-- object keyed by id is an association list in order of insertion (Prelude/Dict). Subtraction stops at
-- 0, which is noted where the source could go below. The clock and random ids are arguments.
--
-- Parameters. The account server is a function of the exchanges so far. The ciphers of the browser and the
-- random generator are a record `Cipher` and the values drawn, `Fresh`; `Vault.Crypto.IsIdeal` names what
-- AES-GCM and PBKDF2 promise: a blob opens with its key and slot to what was sealed, and not with another
-- key, and passphrases whose NFKC forms fill other blocks of HMAC give other keys. The box that the vault
-- store is compared with knows passphrases by these blocks only (`Vault.Crypto.canonical`). The URL
-- parser, regular expressions, the length of a record's JSON text, the servers, and
-- sealing and opening of records are arguments. A server is a function of the requests so far, so that
-- it may keep any state. The collections of a sync share one storage client, whose state (`backoffUntil`,
-- the clock offset) goes from one to the next: `Sync.Session.SharedClient`. What the storage server
-- documents is `Sync.Engine.Settled.IsReliable`: a record of a successful POST that is not reported as
-- failed is reported as a success.
--
-- Fuel. The loop of `getAllRecords` runs on 501 rounds, which are enough since it throws after the
-- 501st page. All other loops are by recursion on a list.
--
-- Not modelled: WebCrypto and Hawk, the text of the account client's requests, the code that works on
-- the DOM, and the wrappers of browser storage. The router takes the parts that it passes messages on to
-- as an interface, `Background.Router.Services`. A method of the vault store runs on its own: two that
-- overlap are not modelled.
pub mod Prelude
pub mod Url
pub mod Sync
pub mod Vault
pub mod Update
pub mod Match
pub mod Prefs
pub mod Background
pub mod Account
pub mod Autofill
pub mod Common
pub mod Bridge
mod Examples
