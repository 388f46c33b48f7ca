-- ===== src/Sync/Session/Credentials.antt =====
-- The credentials that `storageClient` of src/sync15/engine.ts gives to the storage client.
use fire_sync.Prelude.{ℕ, String, ◌≡◌, refl, ◌∙◌, Option, none, some, ltb, leb, Bool-cases, ltb→lt}
use Prim.Native.Nat.{◌<◌}
use mathlib.Core.Path.{subst}
use mathlib.Core.Logic.{◌⊎◌, inl, inr}
use native.Mathlib.Omega.{arith}
use fire_sync.Prelude.Result.{Result, ok, err}
use fire_sync.Sync.Session.{
  AccessToken, AccountTokens, SyncFailure, Session, Clock, Accounts, SyncNodeCredentials,
  access_for, client_of, node_from, cached_or_fetched, held_or_refreshed, refreshed_from,
  storage_client,
}

module _ (accounts : Accounts) (clock : Clock) (tokens : AccountTokens) where
  -- The node is the cached one, still fresh, or was fetched with the token for the account's key.
  abbrev pub IsNodeFor : AccessToken → Option SyncNodeCredentials → SyncNodeCredentials → Type 0
  IsNodeFor access cached node =
      ((cached ≡ some node) × (clock.node_checked < node.expires_at))
      ⊎ (accounts.fetch_node access.token tokens.kid ≡ ok node)

  -- The token of the session, unexpired, with its node; or a new one, and no node.
  abbrev pub IsIssued : Session → AccessToken → Option SyncNodeCredentials → Type 0
  IsIssued session access cached =
      ((session.access_token ≡ some access)
        × (clock.token_checked < access.expires_at)
        × (cached ≡ session.node))
      ⊎ (((granted : String × ℕ) × (accounts.refresh tokens.refresh_token
                (client_of tokens.client_id)
              ≡ ok granted)
            × (access ≡ access_for clock.refreshed granted))
          × (cached ≡ none))

  abbrev pub IsUsable : Session → SyncNodeCredentials → Session → Type 0
  IsUsable session node session' =
      (access : AccessToken) × (cached : Option SyncNodeCredentials) × (session'.access_token
        ≡ some access)
      × (session'.node ≡ some node)
      × IsIssued session access cached
      × IsNodeFor access cached node

  abbrev Answered :
      AccessToken → Session → Result SyncFailure SyncNodeCredentials × Session → Type 0
  Answered access session (err e, session') = Unit
  Answered access session (ok node, session') =
      (session'.access_token ≡ session.access_token)
      × (session'.node ≡ some node)
      × IsNodeFor access session.node node

  node_from-Answered :
      (access : AccessToken) (session : Session) (answer : Result String SyncNodeCredentials)
      → accounts.fetch_node access.token tokens.kid ≡ answer
      → Answered access session (node_from accounts clock session answer)
  node_from-Answered access session (err e) is = tt
  node_from-Answered access session (ok node) is = (refl, refl, inr is)

  cached_or_fetched-Answered :
      (access : AccessToken) (session : Session) (cached : Option SyncNodeCredentials)
      → session.node ≡ cached
      → Answered access session (cached_or_fetched accounts clock tokens access session cached)
  cached_or_fetched-Answered access session none is = node_from-Answered access session _ refl
  cached_or_fetched-Answered access session (some node) is =
      elim (Bool-cases (ltb clock.node_checked node.expires_at)) [
        | inl fresh ↦ rw fresh (refl, is, inl (is, ltb→lt clock.node_checked node.expires_at fresh))
        | inr stale ↦ rw stale (node_from-Answered access session _ refl)
      ]

  abbrev Issued : Session → Result SyncFailure SyncNodeCredentials × Session → Type 0
  Issued session (err e, session') = Unit
  Issued session (ok node, session') = IsUsable session node session'

  usable_of :
      (session between : Session) (access : AccessToken)
      (answer : Result SyncFailure SyncNodeCredentials × Session)
      → between.access_token ≡ some access
      → IsIssued session access between.node
      → Answered access between answer
      → Issued session answer
  usable_of session between access (err e, session') own issued answered = tt
  usable_of session between access (ok node, session') own issued (same, at, for) =
      (access, between.node, same ∙ own, at, issued, for)

  refreshed_from-Issued :
      (session : Session) (answer : Result String (String × ℕ))
      → accounts.refresh tokens.refresh_token (client_of tokens.client_id) ≡ answer
      → Issued session (refreshed_from accounts clock tokens session answer)
  refreshed_from-Issued session (err e) is = tt
  refreshed_from-Issued session (ok granted) is =
      let access = access_for clock.refreshed granted in
      let between = record session { access_token = some access; node = none } in
      usable_of session between access _ refl (inr ((granted, is, refl), refl))
        (cached_or_fetched-Answered access between none refl)

  held_or_refreshed-Issued :
      (session : Session) (held : Option AccessToken)
      → session.access_token ≡ held
      → Issued session (held_or_refreshed accounts clock tokens session held)
  held_or_refreshed-Issued session none is = refreshed_from-Issued session _ refl
  held_or_refreshed-Issued session (some access) is =
      elim (Bool-cases (leb access.expires_at clock.token_checked)) [
        | inl expired ↦ rw expired (refreshed_from-Issued session _ refl)
        | inr unexpired ↦ rw unexpired (
            usable_of session session access _ is (inl (is, ground arith, refl))
              (cached_or_fetched-Answered access session _ refl))
      ]

  -- The storage client is given the cached node, still fresh, together with the cached access token,
  -- unexpired; or else a node that was just fetched for the account's key with the access token that
  -- the session keeps, which is the cached one or just refreshed. No node outlives its access token.
  pub storage_client-IsUsable :
      (session session' : Session) (node : SyncNodeCredentials)
      → storage_client accounts clock (some tokens) session ≡ (ok node, session')
      → IsUsable session node session'
  unfolding storage_client
  storage_client-IsUsable session session' node run =
      subst (Issued session) run (held_or_refreshed-Issued session _ refl)
