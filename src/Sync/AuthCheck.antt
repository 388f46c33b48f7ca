-- ===== src/Sync/AuthCheck.antt =====
-- src/sync15/authcheck.ts: the probe of a connection, stage by stage. What each hop answers is a parameter.
use fire_sync.Prelude.{
  suc, ap, arith, ℕ, String, ◌≡◌, refl, ◌⊎◌, inl, inr, Bool, true, false, Option, none, some, List,
  [], ◌∷◌, length, all,
}
use fire_sync.Prelude.Dict
use fire_sync.Prelude.Dict.{Dict}
use fire_sync.Prelude.Result.{Result, ok, err}
use fire_sync.Sync.Session.{AccountTokens, SyncNodeCredentials, client_of}

pub data AuthCheckStage : Type 0 where
  account refresh_token token_server storage_credentials sync_data : AuthCheckStage

-- What was learned, or why it failed; the texts are put together from these, with the names of collections
-- sorted.
pub data Detail : Type 0 where
  no_account signature_accepted never_synced : Detail
  signed_in_as : String → Option String → Detail
  issued_for hop_failed node_at : String → Detail
  collections_are : List String → Detail

pub record AuthCheckStep : Type 0 where
  pub stage : AuthCheckStage
  pub is_ok : Bool
  pub detail : Detail

pub record AuthCheckReport : Type 0 where
  pub is_ok : Bool
  pub steps : List AuthCheckStep
  pub checked_at : ℕ

-- The hops. `tokens` is `none` where reading them throws; `refresh` gives a token with its scope.
pub record Hops : Type 0 where
  pub tokens : Option AccountTokens
  pub refresh : String → Option String → Result String (String × String)
  pub fetch_node : String → String → Result String SyncNodeCredentials
  pub host_of : String → Result String String
  pub info_collections : SyncNodeCredentials → Result String (Dict ℕ)

abbrev pub passed : AuthCheckStage → Detail → AuthCheckStep
passed s d = record { stage = s; is_ok = true; detail = d }

abbrev pub failed : AuthCheckStage → Detail → AuthCheckStep
failed s d = record { stage = s; is_ok = false; detail = d }

module _ (hops : Hops) where
  abbrev pub data_step : List String → AuthCheckStep
  data_step [] = failed sync_data never_synced
  data_step (name ∷ names) = passed sync_data (collections_are (name ∷ names))

  abbrev pub from_storage : Result String (Dict ℕ) → List AuthCheckStep
  from_storage (err e) = failed storage_credentials (hop_failed e) ∷ []
  from_storage (ok collections) =
      passed storage_credentials signature_accepted ∷ data_step (Dict.keys collections) ∷ []

  -- A node whose address is no URL fails the stage as well.
  abbrev pub from_host : SyncNodeCredentials → Result String String → List AuthCheckStep
  from_host node (err e) = failed token_server (hop_failed e) ∷ []
  from_host node (ok host) =
      passed token_server (node_at host) ∷ from_storage (hops.info_collections node)

  abbrev pub from_node : Result String SyncNodeCredentials → List AuthCheckStep
  from_node (err e) = failed token_server (hop_failed e) ∷ []
  from_node (ok node) = from_host node (hops.host_of node.api_endpoint)

  abbrev pub from_refresh : AccountTokens → Result String (String × String) → List AuthCheckStep
  from_refresh t (err e) = failed refresh_token (hop_failed e) ∷ []
  from_refresh t (ok (token, scope)) =
      passed refresh_token (issued_for scope) ∷ from_node (hops.fetch_node token t.kid)

  abbrev pub from_tokens : Option AccountTokens → List AuthCheckStep
  from_tokens none = failed account no_account ∷ []
  from_tokens (some t) =
      passed account (signed_in_as t.email t.client_id)
      ∷ from_refresh t (hops.refresh t.refresh_token (client_of t.client_id))

  unfoldable pub run_auth_check : ℕ → AuthCheckReport
  run_auth_check now =
      let steps = from_tokens hops.tokens in
      record { is_ok = all (λ s. s.is_ok) steps; steps = steps; checked_at = now }

abbrev pub all_stages : List AuthCheckStage
all_stages = account ∷ refresh_token ∷ token_server ∷ storage_credentials ∷ sync_data ∷ []

-- Steps of the stages in order: each but the last passed, and the last failed or ends the stages.
abbrev pub IsProbe : List AuthCheckStage → List AuthCheckStep → Type 0
IsProbe (s ∷ stages) (x ∷ []) = (x.stage ≡ s) × ((x.is_ok ≡ false) ⊎ (stages ≡ []))
IsProbe (s ∷ stages) (x ∷ y ∷ steps) = (x.stage ≡ s) × (x.is_ok ≡ true) × IsProbe stages (y ∷ steps)
IsProbe (s ∷ stages) [] = ⊥
IsProbe [] steps = ⊥

passed-IsProbe :
    (s : AuthCheckStage) (d : Detail) (stages : List AuthCheckStage) (steps : List AuthCheckStep)
    → IsProbe stages steps
    → IsProbe (s ∷ stages) (passed s d ∷ steps)
passed-IsProbe s d stages (y ∷ steps) h = (refl, refl, h)
passed-IsProbe s d (t ∷ stages) [] h = absurd h
passed-IsProbe s d [] [] h = absurd h

all-IsProbe :
    (stages : List AuthCheckStage) (steps : List AuthCheckStep)
    → IsProbe stages steps
    → all (λ s. s.is_ok) steps ≡ true
    → length steps ≡ length stages
all-IsProbe [] steps h good = absurd h
all-IsProbe (s ∷ stages) [] h good = absurd h
all-IsProbe (s ∷ stages) (x ∷ []) (at, last) good = elim last [
  | inl bad ↦ absurd (ground (arith, good, bad))
  | inr ended ↦ rw ended refl
]
all-IsProbe (s ∷ stages) (x ∷ y ∷ steps) (at, fine, h) good =
    ap suc (all-IsProbe stages (y ∷ steps) h (ground (arith, good)))

module _ (hops : Hops) where
  data_step-IsProbe : (names : List String) → IsProbe (sync_data ∷ []) (data_step hops names ∷ [])
  data_step-IsProbe [] = (refl, inl refl)
  data_step-IsProbe (name ∷ names) = (refl, inr refl)

  from_storage-IsProbe :
      (r : Result String (Dict ℕ))
      → IsProbe (storage_credentials ∷ sync_data ∷ []) (from_storage hops r)
  from_storage-IsProbe (err e) = (refl, inl refl)
  from_storage-IsProbe (ok collections) = (refl, refl, data_step-IsProbe (Dict.keys collections))

  from_host-IsProbe :
      (node : SyncNodeCredentials) (r : Result String String)
      → IsProbe (token_server ∷ storage_credentials ∷ sync_data ∷ []) (from_host hops node r)
  from_host-IsProbe node (err e) = (refl, inl refl)
  from_host-IsProbe node (ok host) =
      passed-IsProbe token_server (node_at host) _ (from_storage hops (hops.info_collections node))
        (from_storage-IsProbe (hops.info_collections node))

  from_node-IsProbe :
      (r : Result String SyncNodeCredentials)
      → IsProbe (token_server ∷ storage_credentials ∷ sync_data ∷ []) (from_node hops r)
  from_node-IsProbe (err e) = (refl, inl refl)
  from_node-IsProbe (ok node) = from_host-IsProbe node (hops.host_of node.api_endpoint)

  from_refresh-IsProbe :
      (t : AccountTokens) (r : Result String (String × String))
      → IsProbe
          (refresh_token ∷ token_server ∷ storage_credentials ∷ sync_data ∷ [])
          (from_refresh hops t r)
  from_refresh-IsProbe t (err e) = (refl, inl refl)
  from_refresh-IsProbe t (ok (token, scope)) =
      passed-IsProbe refresh_token (issued_for scope) _
        (from_node hops (hops.fetch_node token t.kid))
        (from_node-IsProbe (hops.fetch_node token t.kid))

  from_tokens-IsProbe : (t : Option AccountTokens) → IsProbe all_stages (from_tokens hops t)
  from_tokens-IsProbe none = (refl, inl refl)
  from_tokens-IsProbe (some t) =
      passed-IsProbe account (signed_in_as t.email t.client_id) _
        (from_refresh hops t (hops.refresh t.refresh_token (client_of t.client_id)))
        (from_refresh-IsProbe t (hops.refresh t.refresh_token (client_of t.client_id)))

  -- The probe reports the stages in order, stops at the first that fails, and is good only if all five
  -- stages were reached.
  pub run_auth_check-IsProbe :
      (now : ℕ)
      → IsProbe all_stages (run_auth_check hops now).steps
        × ((run_auth_check hops now).is_ok ≡ true → length (run_auth_check hops now).steps ≡ 5)
  unfolding run_auth_check
  run_auth_check-IsProbe now =
      let probe = from_tokens-IsProbe hops.tokens in
      (probe, all-IsProbe all_stages (from_tokens hops hops.tokens) probe)
