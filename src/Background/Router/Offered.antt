-- ===== src/Background/Router/Offered.antt =====
-- `autofill/query` and `autofill/reveal` of src/background/router.ts, side by side.
use mathlib.Core.Path.{subst}
use fire_sync.Prelude.{
  ℕ, String, ◌≡◌, refl, sym, ◌∙◌, ap, Bool, true, none, some, List, [], ◌∷◌, map, In, inl, inr,
  is_some, Option-cases,
}
use fire_sync.Prelude.Result.{Result, ok}
use fire_sync.Match.Uri.{origin_matches}
use fire_sync.Sync.Passwords.{PasswordRecord}
use fire_sync.Vault.Contents.{VaultContents, get_password, touch_password}
use fire_sync.Vault.Contents.Find.{
  PasswordMatch, find_passwords_for_url, find_passwords_for_url-IsRanked,
}
use fire_sync.Vault.Contents.Invariant.{IsSound}
use fire_sync.Vault.Contents.Passwords.{list_passwords-get_password}
use fire_sync.Vault.Crypto.{Cipher, IsIdeal}
use fire_sync.Vault.Store.{Fresh, is_open, protection_in}
use fire_sync.Vault.Store.Views.{
  View, absent_view, device_view, passphrase_view, locked, unlocked, store_of,
}
use fire_sync.Vault.Store.Opened.{is_open_view, contents_in_view, Serves, open-Serves}
use fire_sync.Prefs.{for_url, match_strategy, inline_menu_mode, auto_fill_enabled}
use fire_sync.Prefs.Global.{InlineMenuMode}
use fire_sync.Background.Messages.{Payload, offered, revealed, CredentialSummary}
use fire_sync.Background.Router.{RouterError, World, Platform, summarize}
use fire_sync.Background.Router.Handle.{context_of, extra_of, query, reveal}

is_unlocked_view :
    {Key Text : Type 0} (cipher : Cipher Key Text) (v : View Key)
    → is_open_view v ≡ true
    → is_open
        (is_some (store_of cipher v).meta)
        (protection_in (store_of cipher v).meta)
        (is_some (store_of cipher v).unlocked)
      ≡ true
is_unlocked_view cipher (absent_view k) o = cc
is_unlocked_view cipher (device_view k seals c x) o = refl
is_unlocked_view cipher (passphrase_view k p n salt e seals locked x) o = cc
is_unlocked_view cipher (passphrase_view k p n salt e seals (unlocked c) x) o = refl

summary-In :
    (c : CredentialSummary) (ms : List PasswordMatch)
    → In c (map (λ m. summarize m.login) ms)
    → (m : PasswordMatch) × In m ms × (c ≡ summarize m.login)
summary-In c [] h = elim h [ ]
summary-In c (m ∷ ms) (inl e) = (m, inl refl, e)
summary-In c (m ∷ ms) (inr h) = let (m', there, e) = summary-In c ms h in (m', inr there, e)

same_offer :
    (cs ds : List CredentialSummary) (a b : InlineMenuMode) (o f o' f' : Bool)
    → ◌≡◌ {A = Result RouterError Payload} (ok (offered cs o a f)) (ok (offered ds o' b f'))
    → cs ≡ ds
same_offer cs ds a b o f o' f' h = cc

module _ {Key Text : Type 0} (cipher : Cipher Key Text) (ideal : IsIdeal cipher) (fresh : Fresh Key)
    (platform : Platform Key Text) (random : ℕ) where
  -- A login that is there and matches is revealed.
  reveal-found :
      (w : World Key Text) (c : VaultContents) (page : String) (r : PasswordRecord)
      → Serves cipher ideal fresh w.store c
      → get_password r.id c ≡ some r
      → origin_matches platform.parse_url platform.regexp r.hostname page
          (context_of (match_strategy platform.parse_url page w.stored_global w.sites) none)
        ≡ true
      → (reveal cipher fresh platform random r.id page w).0
        ≡ ok (revealed (record (summarize r) { password = some r.password }))
  unfolding reveal
  reveal-found w c page r serves found fits =
      elim (Option-cases (touch_password r.id fresh.now c)) [
        | inl still ↦ rw (serves.reads, found, fits, serves.reads_again, still) refl
        | inr (c', touched) ↦
            rw (serves.reads, found, fits, serves.reads_again, touched, serves.writes c') refl
      ]

  found_for : World Key Text → String → VaultContents → List PasswordMatch
  found_for w page c =
      find_passwords_for_url platform.parse_url platform.regexp platform.comes_first page
        (context_of (match_strategy platform.parse_url page w.stored_global w.sites) none) c

  query_lem :
      (w : World Key Text) (c : VaultContents) (page : String)
      → Serves cipher ideal fresh w.store c
      → is_open (is_some w.store.meta) (protection_in w.store.meta) (is_some w.store.unlocked)
        ≡ true
      → extra_of (for_url platform.parse_url page w.sites) ≡ none
      → (query cipher fresh platform random page w).0
        ≡ ok (
            offered
              (map (λ m. summarize m.login) (found_for w page c))
              true
              (inline_menu_mode platform.parse_url page w.stored_global w.sites)
              (auto_fill_enabled platform.parse_url page w.stored_global w.sites))
  unfolding query found_for
  query_lem w c page serves opened plain = rw (opened, serves.reads, plain) refl

  -- On a page for whose site no extra domains are set, each login that the menu offers is revealed when
  -- it is asked for in the same state, where the vault is open and sound and every login stands under
  -- its own id.
  pub query-reveal :
      (v : View Key) (w w' : World Key Text) (page : String) (cs : List CredentialSummary)
      (o f : Bool) (mode : InlineMenuMode) (s : CredentialSummary)
      → w.store ≡ store_of cipher v
      → is_open_view v ≡ true
      → IsSound (contents_in_view v).passwords
      → ((id : String) (p : PasswordRecord)
          → get_password id (contents_in_view v) ≡ some p
          → p.id ≡ id)
      → extra_of (for_url platform.parse_url page w.sites) ≡ none
      → query cipher fresh platform random page w ≡ (ok (offered cs o mode f), w')
      → In s cs
      → (password : String) × ((reveal cipher fresh platform random s.id page w).0
          ≡ ok (revealed (record s { password = some password })))
  unfolding found_for
  query-reveal v w w' page cs o f mode s at opened sound own plain asked there =
      let c = contents_in_view v in
      let serves : Serves cipher ideal fresh w.store c =
        subst (λ st. Serves cipher ideal fresh st c) (sym at)
          (open-Serves cipher ideal fresh v opened) in
      let flag : is_open (is_some w.store.meta) (protection_in w.store.meta)
            (is_some w.store.unlocked)
          ≡ true =
        rw at (is_unlocked_view cipher v opened) in
      let listed =
        same_offer _ _ _ _ _ _ _ _
          (sym (query_lem w c page serves flag plain) ∙ ap (λ x. x.0) asked) in
      let (m, found, is) = summary-In s (found_for w page c) (rw listed there) in
      let (login, known, fits, e) =
        ((find_passwords_for_url-IsRanked platform.parse_url platform.regexp platform.comes_first
              page
              (context_of (match_strategy platform.parse_url page w.stored_global w.sites) none)
              c).1
            m).0
          found in
      let (id, got) = (list_passwords-get_password c login sound).0 known in
      let mine : get_password login.id c ≡ some login = rw (own id login got) got in
      let same : s ≡ summarize login = is ∙ ap (λ x. summarize x.login) e in
      (login.password, rw same (reveal-found w c page login serves mine fits))
