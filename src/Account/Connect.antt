-- ===== src/Account/Connect.antt =====
-- src/fxa/connect.ts: the steps of a sign-in with a password. The account server, which src/fxa/client.ts
-- asks, is a function of what has been asked so far; what is asked and answered is kept as a log, last
-- first. The derivation of keys is a parameter.
pub mod Careful
pub mod Done
use fire_sync.Prelude.{
  ℕ, String, Bool, true, false, Option, none, some, List, [], ◌∷◌, eqb, if◌then◌else◌,
}
use fire_sync.Prelude.Dict.{Dict}
use fire_sync.Prelude.Dict
use fire_sync.Prelude.Result.{Result, ok, err}
use fire_sync.Sync.Session.{AccountTokens}
use fire_sync.Vault.Store.{given}

pub data VerificationMethod : Type 0 where
  email_link email_otp email_2fa email_captcha totp_2fa : VerificationMethod

pub record SignInResponse : Type 0 where
  pub uid : String
  pub session_token : String
  pub key_fetch_token : Option String
  pub verified : Bool
  pub verification_method : Option VerificationMethod

-- An answer that is an error, with its errno; a request that got none; an answer that cannot be used.
pub data FxaFailure : Type 0 where
  fxa_error : ℕ → Option ℕ → FxaFailure
  fxa_network_error fxa_client_error : FxaFailure

-- `FxAError.needsUnblockCode`
abbrev pub needs_unblock_code : FxaFailure → Bool
needs_unblock_code (fxa_error status (some errno)) = eqb errno 125
needs_unblock_code _ = false

-- What the client asks the account server.
pub data Request : Type 0 where
  sign_in : String → String → Option String → Request
  verify_totp verify_session_code : String → String → Request
  resend_session_code scoped_key_data create_oauth_token destroy_session : String → Request
  send_unblock_code : String → Request
  account_keys : String → String → Request
  register_device : String → String → Request

-- The answer to a sign-in comes with the key that unwraps kB; keys are texts of their bytes.
abbrev pub AnswerOf : Request → Type 0
AnswerOf (sign_in email password code) = SignInResponse × String
AnswerOf (verify_totp token code) = Bool
AnswerOf (account_keys token unwrap) = String
AnswerOf (scoped_key_data token) = Dict ℕ
AnswerOf (create_oauth_token token) = Option String
AnswerOf (register_device token name) = String
AnswerOf (send_unblock_code email) = Unit
AnswerOf (verify_session_code token code) = Unit
AnswerOf (resend_session_code token) = Unit
AnswerOf (destroy_session token) = Unit

abbrev pub Exchange : Type 0
Exchange = (r : Request) × Result FxaFailure (AnswerOf r)

abbrev pub AccountServer : Type 0
AccountServer = List Exchange → (r : Request) → Result FxaFailure (AnswerOf r)

pub data ConnectError : Type 0 where
  fxa_failed : FxaFailure → ConnectError
  no_key_fetch_token totp_refused missing_state not_authorised no_refresh_token : ConnectError
  no_active_sign_in : ConnectError

pub data ConnectStep : Type 0 where
  complete : AccountTokens → ConnectStep
  needs_totp : ConnectStep
  needs_email_code needs_unblock : String → ConnectStep

pub record ConnectSession : Type 0 where
  pub email : Option String
  pub session_token : Option String
  pub key_fetch_token : Option String
  pub unwrap_b_key : Option String
  pub uid : Option String

-- The session, and all that the server was asked.
pub record Flow : Type 0 where
  pub session : ConnectSession
  pub log : List Exchange

abbrev pub new_flow : Flow
new_flow = record {
  session = record {
    email = none;
    session_token = none;
    key_fetch_token = none;
    unwrap_b_key = none;
    uid = none;
  };
  log = [];
}

-- The options of a session, and the keys that src/fxa/onepw.ts derives from kB.
pub record ConnectOptions : Type 0 where
  pub device_name : String
  pub registers_device : Bool
  pub oauth_client_id : String
  pub now : ℕ
  pub derive_sync_key : String → String
  pub derive_key_id : String → ℕ → String

abbrev pub oldsync_scope : String
oldsync_scope = "https://identity.mozilla.com/apps/oldsync"

abbrev pub Act : Type 0 → Type 0
Act A = Flow → Result ConnectError A × Flow

abbrev pub bound :
    {A B : Type 0} → Result ConnectError A × Flow → (A → Act B) → Result ConnectError B × Flow
bound (err e, f) k = (err e, f)
bound (ok a, f) k = k a f

infixl 5 ◌>>=◌ ◌>>◌
abbrev pub ◌>>=◌ : {A B : Type 0} → Act A → (A → Act B) → Act B
◌>>=◌ m k f = bound (m f) k

abbrev pub ◌>>◌ : {B : Type 0} → Act (Unit {0}) → Act B → Act B
◌>>◌ m k f = bound (m f) (λ _. k)

abbrev pub return : {A : Type 0} → A → Act A
return a f = (ok a, f)

abbrev pub throw : {A : Type 0} → ConnectError → Act A
throw e f = (err e, f)

abbrev pub or_throw : {A : Type 0} → ConnectError → Option A → Act A
or_throw e none = throw e
or_throw e (some a) = return a

abbrev pub session_of : Act ConnectSession
session_of f = (ok f.session, f)

abbrev pub set_session : (ConnectSession → ConnectSession) → Act (Unit {0})
set_session change f = (ok tt, record f { session = change f.session })

abbrev pub answer_of : {A : Type 0} → Result FxaFailure A → Result ConnectError A
answer_of (err e) = err (fxa_failed e)
answer_of (ok a) = ok a

abbrev pub success_of : {A : Type 0} → Result FxaFailure A → Option A
success_of (err e) = none
success_of (ok a) = some a

abbrev pub logged : Flow → Exchange → Flow
logged f x = record f { log = x ∷ f.log }

-- The token that the keys are fetched with, the key that unwraps kB, and whose account it is.
pub record Ready : Type 0 where
  pub token : String
  pub unwrap : String
  pub uid : String
  pub email : String

abbrev pub ready_by : Option String → Option String → Option String → Option String → Option Ready
ready_by (some token) (some unwrap) (some uid) (some email) =
    some (record { token = token; unwrap = unwrap; uid = uid; email = email })
ready_by _ _ _ _ = none

-- An empty text counts as missing.
abbrev pub ready_in : ConnectSession → Option Ready
ready_in s = ready_by (given s.key_fetch_token) s.unwrap_b_key (given s.uid) (given s.email)

abbrev pub require_session_token : Act String
require_session_token = do s ← session_of; or_throw no_active_sign_in (given s.session_token)

abbrev pub require_ready : Act Ready
require_ready = do s ← session_of; or_throw missing_state (ready_in s)

module _ (server : AccountServer) where
  -- `await this.client.request(...)`, which throws what the client throws.
  abbrev pub ask : (r : Request) → Act (AnswerOf r)
  ask r f = let a = server f.log r in (answer_of a, logged f (r, a))

  -- The same with `.catch(() => undefined)`.
  abbrev pub ask_or_none : (r : Request) → Act (Option (AnswerOf r))
  ask_or_none r f = let a = server f.log r in (ok (success_of a), logged f (r, a))

  -- The answer or the failure, for a `catch` that looks at it.
  abbrev pub ask_either : (r : Request) → Act (Result FxaFailure (AnswerOf r))
  ask_either r f = let a = server f.log r in (ok a, logged f (r, a))

-- What a page may call.
pub data Call : Type 0 where
  call_begin : String → String → Option String → Call
  call_totp call_email_code : String → Call
  call_resend : Call

module _ (server : AccountServer) (options : ConnectOptions) where
  -- A device that is not registered costs an entry in a list, no more.
  abbrev pub registered : Bool → String → Act (Option String)
  registered false token = return none
  registered true token = ask_or_none server (register_device token options.device_name)

  abbrev pub account_of : Ready → String → ℕ → String → Option String → AccountTokens
  account_of r k_b rotated refresh device = record {
    uid = r.uid;
    email = r.email;
    refresh_token = refresh;
    kid = options.derive_key_id k_b rotated;
    k_sync = options.derive_sync_key k_b;
    client_id = some options.oauth_client_id;
    device_id = given device;
    connected_at = options.now;
  }

  -- The session token is destroyed at the server and forgotten.
  abbrev pub given_up : String → Ready → String → ℕ → String → Option String → Act ConnectStep
  given_up token r k_b rotated refresh device = do
    destroyed ← ask_or_none server (destroy_session token)
    set_session (λ s. record s { session_token = none; unwrap_b_key = none })
    return (complete (account_of r k_b rotated refresh device))

  abbrev pub with_keys : String → Ready → String → Act ConnectStep
  with_keys token r k_b = do
    entries ← ask server (scoped_key_data token)
    rotated ← or_throw not_authorised (Dict.get oldsync_scope entries)
    issued ← ask server (create_oauth_token token)
    refresh ← or_throw no_refresh_token (given issued)
    device ← registered options.registers_device token
    given_up token r k_b rotated refresh device

  -- The keys are fetched, and the token that fetched them is spent.
  abbrev pub fetched : String → Ready → Act ConnectStep
  fetched token r = do
    k_b ← ask server (account_keys r.token r.unwrap)
    set_session (λ s. record s { key_fetch_token = none })
    with_keys token r k_b

  abbrev pub finish : Act ConnectStep
  finish = do token ← require_session_token; r ← require_ready; fetched token r

  abbrev pub by_method : String → Option VerificationMethod → ConnectStep
  by_method email (some totp_2fa) = needs_totp
  by_method email _ = needs_email_code email

  abbrev pub next_step : String → SignInResponse → Act ConnectStep
  next_step email response =
      if response.verified then finish else return (by_method email response.verification_method)

  abbrev pub if_has_keys : String → SignInResponse → Option String → Act ConnectStep
  if_has_keys email response none = throw no_key_fetch_token
  if_has_keys email response (some token) = next_step email response

  abbrev pub signed_in : String → SignInResponse × String → Act ConnectStep
  signed_in email (response, unwrap) = do
    set_session (λ s. record s {
      session_token = some response.session_token;
      key_fetch_token = response.key_fetch_token;
      unwrap_b_key = some unwrap;
      uid = some response.uid;
    })
    if_has_keys email response (given response.key_fetch_token)

  abbrev pub blocked_if : Bool → String → FxaFailure → Act ConnectStep
  blocked_if false email e = throw (fxa_failed e)
  blocked_if true email e = do
    sent ← ask_or_none server (send_unblock_code email)
    return (needs_unblock email)

  abbrev pub after_sign_in : String → Result FxaFailure (SignInResponse × String) → Act ConnectStep
  after_sign_in email (err e) = blocked_if (needs_unblock_code e) email e
  after_sign_in email (ok a) = signed_in email a

  unfoldable pub begin : String → String → Option String → Act ConnectStep
  begin email password code = do
    set_session (λ s. record s { email = some email })
    a ← ask_either server (sign_in email password (given code))
    after_sign_in email a

  abbrev pub if_accepted : Bool → Act ConnectStep
  if_accepted false = throw totp_refused
  if_accepted true = finish

  unfoldable pub submit_totp : String → Act ConnectStep
  submit_totp code = do
    token ← require_session_token
    success ← ask server (verify_totp token code)
    if_accepted success

  unfoldable pub submit_email_code : String → Act ConnectStep
  submit_email_code code = do
    token ← require_session_token
    ask server (verify_session_code token code)
    finish

  unfoldable pub resend_email_code : Act (Unit {0})
  resend_email_code = do token ← require_session_token; ask server (resend_session_code token)

  -- One call, with the step that it answers.
  unfoldable pub on_call : Call → Act (Option ConnectStep)
  on_call (call_begin email password code) = do s ← begin email password code; return (some s)
  on_call (call_totp code) = do s ← submit_totp code; return (some s)
  on_call (call_email_code code) = do s ← submit_email_code code; return (some s)
  on_call call_resend = do resend_email_code; return none

  unfoldable pub run_calls : List Call → Flow → Flow
  run_calls [] f = f
  run_calls (c ∷ cs) f = run_calls cs (on_call c f).1
