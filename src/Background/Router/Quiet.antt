-- ===== src/Background/Router/Quiet.antt =====
-- What the handlers of src/background/router.ts answer with, the logins of the vault apart.
use fire_sync.Prelude.{
  ℕ, String, ◌≡◌, refl, ap, inl, inr, Bool, true, false, Option, none, some, List, [], ◌∷◌, map,
  All, Bool-cases, is_some, ◌&&◌, ◌==◌,
}
use mathlib.Core.Path.{subst}
use fire_sync.Prelude.Result.{Result, ok, err}
use fire_sync.Sync.Session.{AccountTokens}
use fire_sync.Sync.Passwords.{PasswordRecord}
use fire_sync.Vault.Contents.Find.{PasswordMatch}
use fire_sync.Vault.Crypto.{VaultError, Cipher}
use fire_sync.Vault.State.{Store}
use fire_sync.Vault.Store.{Fresh, is_open, protection_in, read_tokens}
use fire_sync.Vault.Logins.{find_logins}
use fire_sync.Prefs.{
  match_strategy, for_url, save_prompt_enabled, SitePreferences, Sites, PrefsError,
}
use fire_sync.Background.Messages.{
  Payload, status_is, summaries, record_is, offered, revealed, site_is, CredentialSummary,
  CapturedCredential,
}
use fire_sync.Background.Router.{
  sites_result, RouterError, World, Platform, Act, bound, reply, vault_result, summarize,
}
use fire_sync.Background.Router.Handle.{
  extra_of, context_of, prompt_for, status_if, vault_status_now, offer, query, captured_open,
  captured_if, captured,
}

module _ {Key Text : Type 0} where
  bound_lem :
      {A B : Type 0} (x : Result RouterError A × World Key Text) (f : A → Act Key Text B) (b : B)
      (w' : World Key Text)
      → bound x f ≡ (ok b, w')
      → (a : A) × (w1 : World Key Text) × (x ≡ (ok a, w1)) × (f a w1 ≡ (ok b, w'))
  bound_lem (err e, w) f b w' h = cc
  bound_lem (ok a, w) f b w' h = (a, w, refl, h)

  -- What is answered has the property that the answer has.
  pub answered :
      {A : Type 0} (P : A → Type 0) (a b : A) (w w' : World Key Text)
      → ◌≡◌ {A = Result RouterError A × World Key Text} (ok a, w) (ok b, w')
      → P a
      → P b
  answered {A} P a b w w' h p =
      let same : Path (Result RouterError A) (ok a) (ok b) = ap (λ x. x.0) h in
      let is : a ≡ b = cc in subst P is p

  -- After a call of the vault that did not throw.
  pub after :
      {A B : Type 0} (P : B → Type 0) (x : Result VaultError A × Store Key Text)
      (k : A → Act Key Text B) (w w' : World Key Text) (b : B)
      → bound (vault_result w x) k ≡ (ok b, w')
      → ((a : A) (s : Store Key Text)
          → x ≡ (ok a, s)
          → k a (record w { store = s }) ≡ (ok b, w')
          → P b)
      → P b
  after P (err e, s) k w w' b h next = cc
  after P (ok a, s) k w w' b h next = next a s refl h

-- The payload tells no password: a summary without one.
abbrev pub HidesIn : CredentialSummary → Type 0
HidesIn c = c.password ≡ none

abbrev pub Hides : Payload → Type 0
Hides (summaries cs) = All HidesIn cs
Hides (offered cs opened mode auto_fill) = All HidesIn cs
Hides (revealed c) = HidesIn c
Hides (record_is r) = r ≡ none
Hides _ = Unit

pub summarize-Hides : (logins : List PasswordRecord) → All HidesIn (map summarize logins)
summarize-Hides [] = tt
summarize-Hides (r ∷ logins) = (refl, summarize-Hides logins)

matches-Hides : (ms : List PasswordMatch) → All HidesIn (map (λ m. summarize m.login) ms)
matches-Hides [] = tt
matches-Hides (m ∷ ms) = (refl, matches-Hides ms)

prompt_for-Hides : (c : CapturedCredential) (o : Option PasswordMatch) → Hides (prompt_for c o)
prompt_for-Hides c none = tt
prompt_for-Hides c (some m) = elim (Bool-cases (m.login.password == c.password)) [
  | inl same ↦ rw same tt
  | inr other ↦ rw other tt
]

module _ {Key Text : Type 0} (cipher : Cipher Key Text) (fresh : Fresh Key)
    (platform : Platform Key Text) (random : ℕ) where
  abbrev pub Quiet : Act Key Text Payload → Type 0
  Quiet m = (w w' : World Key Text) (b : Payload) → m w ≡ (ok b, w') → Hides b

  status_of-Hides :
      (there opened : Bool) (w w' : World Key Text) (b : Payload)
      → bound (status_if cipher fresh platform random there opened w) (λ s. reply (status_is s))
        ≡ (ok b, w')
      → Hides b
  status_of-Hides there opened w w' b h =
      let (s, w1, _, rest) =
        bound_lem (status_if cipher fresh platform random there opened w) (λ s. reply (status_is s))
          b w' h in
      answered Hides (status_is s) b w1 w' rest tt

  pub status-Quiet : Quiet (vault_status_now cipher fresh platform random)
  unfolding vault_status_now
  status-Quiet w w' b h =
      let there = is_some w.store.meta in
      status_of-Hides there
        (there && is_open there (protection_in w.store.meta) (is_some w.store.unlocked)) w w' b h

  find_in :
      World Key Text
      → String
      → Option (List String)
      → Result VaultError (List PasswordMatch) × Store Key Text
  find_in w page extra =
      find_logins cipher fresh platform.parse_url platform.regexp platform.comes_first page
        (context_of (match_strategy platform.parse_url page w.stored_global w.sites) extra) w.store

  offer-Quiet :
      (page : String) (opened : Bool) → Quiet (offer cipher fresh platform random page opened)
  unfolding find_in
  offer-Quiet page false w w' b h = answered Hides _ b w w' h tt
  offer-Quiet page true w w' b h =
      after Hides (find_in w page (extra_of (for_url platform.parse_url page w.sites))) _ w w' b h
        λ ms s e rest. answered Hides _ b _ w' rest (matches-Hides ms)

  pub query-Quiet : (page : String) → Quiet (query cipher fresh platform random page)
  unfolding query
  query-Quiet page w w' b h =
      offer-Quiet page
        (is_open (is_some w.store.meta) (protection_in w.store.meta) (is_some w.store.unlocked)) w
        w' b h

  captured-Quiet :
      (c : CapturedCredential) (page : String) (asked opened : Bool)
      → Quiet (captured_if cipher fresh platform random c page asked opened)
  unfolding find_in
  captured-Quiet c page false opened w w' b h = answered Hides _ b w w' h tt
  captured-Quiet c page true false w w' b h = answered Hides _ b w w' h tt
  captured-Quiet c page true true w w' b h =
      after Hides (read_tokens cipher fresh w.store) _ w w' b h λ t s e rest. go t s rest
    where
      go :
          (t : Option AccountTokens) (s : Store Key Text)
          → captured_open cipher fresh platform random c page t (record w { store = s })
            ≡ (ok b, w')
          → Hides b
      go none s rest = answered Hides _ b _ w' rest tt
      go (some t) s rest =
          after Hides (find_in (record w { store = s }) page none) _ (record w { store = s }) w' b
            rest λ ms s' e' rest'. answered Hides _ b _ w' rest' (prompt_for-Hides c _)

  pub captured_all-Quiet :
      (c : CapturedCredential) (page : String)
      → Quiet (captured cipher fresh platform random c page)
  unfolding captured
  captured_all-Quiet c page w w' b h =
      captured-Quiet c page (save_prompt_enabled platform.parse_url page w.stored_global w.sites)
        (is_open (is_some w.store.meta) (protection_in w.store.meta) (is_some w.store.unlocked)) w
        w' b h

  pub site_set-Hides :
      (x : Result PrefsError (SitePreferences × Sites)) (w w' : World Key Text) (b : Payload)
      → bound (sites_result w x) (λ site. reply (site_is (some site))) ≡ (ok b, w')
      → Hides b
  site_set-Hides (err e) w w' b h = cc
  site_set-Hides (ok (site, sites)) w w' b h = answered Hides (site_is (some site)) b _ w' h tt
