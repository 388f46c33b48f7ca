-- ===== src/Sync/TokenServer.antt =====
-- src/sync15/tokenserver.ts: the credentials of a storage node, from the answer of the token server.
use fire_sync.Prelude.{
  ℕ, ◌+◌, ◌-◌, ◌*◌, String, ◌≡◌, refl, Bool, true, ◌&&◌, not, Option, none, some, eqb, ◌==◌,
  if◌then◌else◌, or_default, Bool-cases, inl, inr, ap, ◌≢◌, ◌⊎◌, ◌↔◌, ◌<◌, ◌≤◌, eq_iff, arith,
  ltb→lt, lt→ltb,
}
use fire_sync.Prelude.Result.{Result, ok, err}
use fire_sync.Sync.Storage.Transport.{is_success}
use fire_sync.Sync.Session.{SyncNodeCredentials, are_node_credentials_fresh}

-- The body of the answer; a field that is missing and one that is empty are refused alike.
pub record TokenServerResponse : Type 0 where
  pub id : String
  pub key : String
  pub api_endpoint : String
  pub duration : Option ℕ
  pub hashalg : Option String

-- The answer: its status, and its body where that is JSON.
pub record TokenAnswer : Type 0 where
  pub status : ℕ
  pub body : Option TokenServerResponse

pub data TokenServerError : Type 0 where
  token_server_auth_error no_sync_account not_json incomplete : TokenServerError
  token_server_failed : ℕ → TokenServerError
  unsupported_hash : String → TokenServerError

abbrev pub default_duration : ℕ
default_duration = 3_600

abbrev pub default_margin : ℕ
default_margin = 300

abbrev pub is_complete : TokenServerResponse → Bool
is_complete b = not (b.api_endpoint == "") && not (b.id == "") && not (b.key == "")

-- The hash algorithm that is refused, if any.
abbrev pub refused_hash : Option String → Option String
refused_hash none = none
refused_hash (some h) = if h == "" then none else if h == "sha256" then none else some h

-- `Math.max(0, (body.duration ?? 3600) - margin)`
abbrev pub lifetime : Option ℕ → Option ℕ → ℕ
lifetime duration margin = or_default duration default_duration - or_default margin default_margin

abbrev pub credentials_of : TokenServerResponse → Option ℕ → ℕ → SyncNodeCredentials
credentials_of b margin now = record {
  api_endpoint = b.api_endpoint;
  id = b.id;
  key = b.key;
  expires_at = now + lifetime b.duration margin * 1_000;
}

abbrev pub node_of_body :
    TokenServerResponse → Option ℕ → ℕ → Result TokenServerError SyncNodeCredentials
node_of_body b margin now =
    if not (is_complete b) then err incomplete else elim (refused_hash b.hashalg) [
      | some h ↦ err (unsupported_hash h)
      | none ↦ ok (credentials_of b margin now)
    ]

-- `response.json()` throws where the body is not JSON.
abbrev pub node_of_json :
    Option TokenServerResponse → Option ℕ → ℕ → Result TokenServerError SyncNodeCredentials
node_of_json none margin now = err not_json
node_of_json (some b) margin now = node_of_body b margin now

abbrev pub node_of_answer : Option ℕ → ℕ → TokenAnswer → Result TokenServerError SyncNodeCredentials
node_of_answer margin now a =
    if eqb a.status 401
    then err token_server_auth_error
    else if eqb a.status 404
    then err no_sync_account
    else if not (is_success a.status)
    then err (token_server_failed a.status)
    else node_of_json a.body margin now

-- The token server, by the access token and the key id of the request; `fetch` itself may fail.
abbrev pub TokenServer : Type 0
TokenServer = String → String → Result TokenServerError TokenAnswer

unfoldable pub fetch_sync_node :
    TokenServer → String → String → Option ℕ → ℕ → Result TokenServerError SyncNodeCredentials
fetch_sync_node server access_token key_id margin now = elim (server access_token key_id) [
  | err e ↦ err e
  | ok a ↦ node_of_answer margin now a
]

-- The value of a field that may be left out.
abbrev pub Reads : Option ℕ → ℕ → ℕ → Type 0
Reads o default n = (o ≡ some n) ⊎ ((o ≡ none) × (n ≡ default))

Reads-or_default : (o : Option ℕ) (default : ℕ) → Reads o default (or_default o default)
Reads-or_default none default = inr (refl, refl)
Reads-or_default (some n) default = inl refl

-- What a usable node comes from: an answer of 200 to 299 whose body has an address, an id and a key, and
-- names no hash or SHA-256. The node is those three, and is fresh until the seconds that the answer names
-- (an hour if none), less the margin (five minutes if none), are over.
abbrev pub IsServed : TokenAnswer → Option ℕ → ℕ → SyncNodeCredentials → Type 0
IsServed a margin now node =
    (200 ≤ a.status)
    × (a.status < 300)
    × ((b : TokenServerResponse) × (a.body ≡ some b)
        × ((b.api_endpoint ≢ "") × (b.id ≢ "") × (b.key ≢ ""))
        × ((b.hashalg ≡ none) ⊎ (b.hashalg ≡ some "") ⊎ (b.hashalg ≡ some "sha256"))
        × ((node.api_endpoint ≡ b.api_endpoint) × (node.id ≡ b.id) × (node.key ≡ b.key))
        × ((seconds : ℕ) × (less : ℕ) × Reads b.duration 3_600 seconds
            × Reads margin 300 less
            × ((later : ℕ)
                → (are_node_credentials_fresh later (some node) ≡ true)
                  ↔ (later < now + (seconds - less) * 1_000))))

complete-given :
    (b : TokenServerResponse)
    → is_complete b ≡ true
    → (b.api_endpoint ≢ "") × (b.id ≢ "") × (b.key ≢ "")
complete-given b h = (
  λ e. ground (arith, h, (eq_iff b.api_endpoint "").1 e),
  λ e. ground (arith, h, (eq_iff b.id "").1 e),
  λ e. ground (arith, h, (eq_iff b.key "").1 e),
)

refused-named :
    (o : Option String) → refused_hash o ≡ none → (o ≡ none) ⊎ (o ≡ some "") ⊎ (o ≡ some "sha256")
refused-named none h = inl refl
refused-named (some g) h = elim (Bool-cases (g == "")) [
  | inl blank ↦ inr (inl (ap some ((eq_iff g "").0 blank)))
  | inr other ↦ elim (Bool-cases (g == "sha256")) [
    | inl same ↦ inr (inr (ap some ((eq_iff g "sha256").0 same)))
    | inr bad ↦ absurd (ground (arith, h, other, bad))
  ]
]

by_hash-IsServed :
    (status : ℕ) (b : TokenServerResponse) (h : Option String) (margin : Option ℕ) (now : ℕ)
    (node : SyncNodeCredentials)
    → refused_hash b.hashalg ≡ h
    → is_success status ≡ true
    → is_complete b ≡ true
    → (elim h [ some g ↦ err (unsupported_hash g) | none ↦ ok (credentials_of b margin now) ])
      ≡ ok node
    → IsServed (record { status = status; body = some b }) margin now node
by_hash-IsServed status b (some g) margin now node at good full e = cc
by_hash-IsServed status b none margin now node at good full e =
    let same : node ≡ credentials_of b margin now = cc in
    rw same (
      ground (arith, good),
      ground (arith, good),
      (
        b,
        refl,
        complete-given b full,
        refused-named b.hashalg at,
        (refl, refl, refl),
        (
          or_default b.duration default_duration,
          or_default margin default_margin,
          Reads-or_default b.duration 3_600,
          Reads-or_default margin 300,
          λ later. (λ h. ltb→lt _ _ h, λ h. lt→ltb _ _ h),
        ),
      ),
    )

node_of_json-IsServed :
    (status : ℕ) (body : Option TokenServerResponse) (margin : Option ℕ) (now : ℕ)
    (node : SyncNodeCredentials)
    → is_success status ≡ true
    → node_of_json body margin now ≡ ok node
    → IsServed (record { status = status; body = body }) margin now node
node_of_json-IsServed status none margin now node good e = cc
node_of_json-IsServed status (some b) margin now node good e = elim (Bool-cases (is_complete b)) [
  | inl full ↦
      by_hash-IsServed status b (refused_hash b.hashalg) margin now node refl good full
        (rw full at e)
  | inr other ↦ let wrong : err incomplete ≡ ok node = rw other at e in cc
]

node_of_answer-IsServed :
    (a : TokenAnswer) (margin : Option ℕ) (now : ℕ) (node : SyncNodeCredentials)
    → node_of_answer margin now a ≡ ok node
    → IsServed a margin now node
node_of_answer-IsServed a margin now node e = elim (Bool-cases (eqb a.status 401)) [
  | inl auth ↦ let wrong : err token_server_auth_error ≡ ok node = rw auth at e in cc
  | inr other ↦ elim (Bool-cases (eqb a.status 404)) [
    | inl missing ↦ let wrong : err no_sync_account ≡ ok node = rw (other, missing) at e in cc
    | inr found ↦ elim (Bool-cases (is_success a.status)) [
      | inl good ↦
          node_of_json-IsServed a.status a.body margin now node good (rw (other, found, good) at e)
      | inr bad ↦
          let wrong : err (token_server_failed a.status) ≡ ok node = rw (other, found, bad) at e in
          cc
    ]
  ]
]

-- A node that is fetched is the address, id and key, none of them empty, of the body of an answer of 200
-- to 299 that names no hash, an empty one or SHA-256; it counts as fresh exactly until the seconds that
-- the answer names (3600 if none), less the margin (300 if none), are over.
pub fetch_sync_node-IsServed :
    (server : TokenServer) (token key_id : String) (margin : Option ℕ) (now : ℕ)
    (node : SyncNodeCredentials)
    → fetch_sync_node server token key_id margin now ≡ ok node
    → (a : TokenAnswer) × (server token key_id ≡ ok a) × IsServed a margin now node
unfolding fetch_sync_node
fetch_sync_node-IsServed server token key_id margin now node e =
    answered (server token key_id) refl e
  where
    answered :
        (r : Result TokenServerError TokenAnswer)
        → server token key_id ≡ r
        → (elim r [ err e ↦ err e | ok a ↦ node_of_answer margin now a ]) ≡ ok node
        → (a : TokenAnswer) × (server token key_id ≡ ok a) × IsServed a margin now node
    answered (err f) at h = cc
    answered (ok a) at h = (a, at, node_of_answer-IsServed a margin now node h)
