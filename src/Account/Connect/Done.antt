-- ===== src/Account/Connect/Done.antt =====
-- src/fxa/connect.ts: what a completed sign-in leaves behind.
use fire_sync.Prelude.{
  String, ◌≡◌, refl, sym, ap, Bool, true, false, Option, none, some, List, ◌∷◌, In, inl, inr,
  Bool-cases, ◌∙◌,
}
use fire_sync.Prelude.Dict
use fire_sync.Prelude.Result.{Result, ok, err}
use fire_sync.Sync.Session.{AccountTokens}
use fire_sync.Vault.Store.{given}
use fire_sync.Account.Connect.{
  FxaFailure, sign_in, verify_totp, verify_session_code, account_keys, create_oauth_token,
  scoped_key_data, destroy_session, register_device, Exchange, AccountServer, ConnectError,
  ConnectStep, complete, VerificationMethod, email_link, email_otp, email_2fa, email_captcha,
  totp_2fa, needs_totp, needs_email_code, needs_unblock, ConnectOptions, oldsync_scope, Flow, Act,
  return, SignInResponse, Ready, ready_in, bound, answer_of, logged, or_throw, with_keys,
  registered, finish, begin, if_has_keys, by_method, blocked_if, needs_unblock_code, after_sign_in,
  if_accepted, submit_totp, submit_email_code, resend_email_code, Call, call_begin, call_totp,
  call_email_code, call_resend, on_call,
}
use fire_sync.Account.Connect.Careful.{given-some}

-- No secret of the session is left; its token was destroyed last, after it gave the refresh token.
abbrev pub IsForgotten : AccountTokens → Flow → Type 0
IsForgotten account f =
    (f.session.session_token ≡ none)
    × (f.session.key_fetch_token ≡ none)
    × (f.session.unwrap_b_key ≡ none)
    × ((token : String) × (a : Result FxaFailure Unit) × (log : List Exchange) × (f.log
          ≡ (destroy_session token, a) ∷ log)
        × In (create_oauth_token token, ok (some account.refresh_token)) log)

abbrev IsDone : Result ConnectError ConnectStep × Flow → Type 0
IsDone (ok (complete account), f) = IsForgotten account f
IsDone _ = Unit

or_throw-IsDone :
    {A : Type 0} (e : ConnectError) (o : Option A) (k : A → Act ConnectStep) (f : Flow)
    → ((a : A) → o ≡ some a → IsDone (k a f))
    → IsDone (bound (or_throw e o f) k)
or_throw-IsDone e none k f g = tt
or_throw-IsDone e (some a) k f g = g a refl

asked-IsDone :
    {A : Type 0} (a : Result FxaFailure A) (k : A → Act ConnectStep) (f : Flow)
    → ((b : A) → a ≡ ok b → IsDone (k b f))
    → IsDone (bound (answer_of a, f) k)
asked-IsDone (err e) k f g = tt
asked-IsDone (ok b) k f g = g b refl

module _ (server : AccountServer) (options : ConnectOptions) where
  registered-IsDone :
      (b : Bool) (token : String) (f : Flow) (k : Option String → Act ConnectStep) (x : Exchange)
      → f.session.key_fetch_token ≡ none
      → In x f.log
      → ((f' : Flow) (d : Option String)
          → f'.session.key_fetch_token ≡ none
          → In x f'.log
          → IsDone (k d f'))
      → IsDone (bound (registered server options b token f) k)
  registered-IsDone false token f k x spent there g = g f none spent there
  registered-IsDone true token f k x spent there g =
      let a = server f.log (register_device token options.device_name) in
      g (logged f (register_device token options.device_name, a)) _ spent (inr there)

  with_keys-IsDone :
      (token : String) (r : Ready) (k_b : String) (f : Flow)
      → f.session.key_fetch_token ≡ none
      → IsDone (with_keys server options token r k_b f)
  with_keys-IsDone token r k_b f spent =
      let f1 = logged f (scoped_key_data token, server f.log (scoped_key_data token)) in
      let a2 = server f1.log (create_oauth_token token) in
      let f2 = logged f1 (create_oauth_token token, a2) in
      let created : Result FxaFailure (Option String) → Exchange =
        λ b. (create_oauth_token token, b) in
      asked-IsDone (server f.log (scoped_key_data token)) _ f1 λ entries _.
        or_throw-IsDone _ (Dict.get oldsync_scope entries) _ f1 λ rotated _.
          asked-IsDone a2 _ f2 λ issued is_issued.
            or_throw-IsDone _ (given issued) _ f2 λ refresh is_given.
              registered-IsDone options.registers_device token f2 _
                (create_oauth_token token, ok (some refresh)) spent
                (inl
                  (ap created (ap ok (sym (given-some issued refresh is_given)) ∙ sym is_issued)))
                λ f' device spent' there. (
                  refl,
                  spent',
                  refl,
                  (token, server f'.log (destroy_session token), f'.log, refl, there),
                )

  finish-IsDone : (f : Flow) → IsDone (finish server options f)
  finish-IsDone f = or_throw-IsDone _ (given f.session.session_token) _ f λ token _.
      or_throw-IsDone _ (ready_in f.session) _ f λ r _.
        let x = account_keys r.token r.unwrap in
        asked-IsDone (server f.log x) _ (logged f (x, server f.log x)) λ k_b _.
          with_keys-IsDone token r k_b
            (record f {
              session = record f.session { key_fetch_token = none };
              log = (x, server f.log x) ∷ f.log;
            })
            refl

  by_method-IsDone :
      (email : String) (m : Option VerificationMethod) (f : Flow)
      → IsDone (ok (by_method server options email m), f)
  by_method-IsDone email none f = tt
  by_method-IsDone email (some m) f = by_case m
    where
      by_case : (m : VerificationMethod) → IsDone (ok (by_method server options email (some m)), f)
      by_case email_link = tt
      by_case email_otp = tt
      by_case email_2fa = tt
      by_case email_captcha = tt
      by_case totp_2fa = tt

  next_step-IsDone :
      (email : String) (response : SignInResponse) (token : Option String) (f : Flow)
      → IsDone (if_has_keys server options email response token f)
  next_step-IsDone email response none f = tt
  next_step-IsDone email response (some token) f = elim (Bool-cases response.verified) [
    | inl verified ↦ rw verified (finish-IsDone f)
    | inr other ↦ rw other (by_method-IsDone email response.verification_method f)
  ]

  blocked-IsDone :
      (b : Bool) (email : String) (e : FxaFailure) (f : Flow)
      → IsDone (blocked_if server options b email e f)
  blocked-IsDone false email e f = tt
  blocked-IsDone true email e f = tt

  signed_in-IsDone :
      (email : String) (a : Result FxaFailure (SignInResponse × String)) (f : Flow)
      → IsDone (after_sign_in server options email a f)
  signed_in-IsDone email (err e) f = blocked-IsDone (needs_unblock_code e) email e f
  signed_in-IsDone email (ok (response, unwrap)) f =
      next_step-IsDone email response (given response.key_fetch_token) _

  accepted-IsDone : (success : Bool) (f : Flow) → IsDone (if_accepted server options success f)
  accepted-IsDone false f = tt
  accepted-IsDone true f = finish-IsDone f

  answered-IsForgotten :
      (x : Result ConnectError ConnectStep × Flow) (f' : Flow) (account : AccountTokens)
      → IsDone x
      → bound x (λ s. return (some s)) ≡ (ok (some (complete account)), f')
      → IsForgotten account f'
  answered-IsForgotten (err e, f) f' account h at = cc
  answered-IsForgotten (ok (complete a), f) f' account h at =
      let same : account ≡ a = cc in let there : f' ≡ f = cc in rw (same, there) h
  answered-IsForgotten (ok needs_totp, f) f' account h at = cc
  answered-IsForgotten (ok (needs_email_code e), f) f' account h at = cc
  answered-IsForgotten (ok (needs_unblock e), f) f' account h at = cc

  resent-IsForgotten :
      (x : Result ConnectError Unit × Flow) (f' : Flow) (account : AccountTokens)
      → bound x (λ _. return {A = Option ConnectStep} none) ≡ (ok (some (complete account)), f')
      → IsForgotten account f'
  resent-IsForgotten (err e, f) f' account at = cc
  resent-IsForgotten (ok done, f) f' account at = cc

  -- When a call completes a sign-in, the session holds no token and no key; the last request destroyed
  -- its token, with which the refresh token of the account was issued before.
  pub on_call-IsForgotten :
      (c : Call) (f f' : Flow) (account : AccountTokens)
      → on_call server options c f ≡ (ok (some (complete account)), f')
      → IsForgotten account f'
  unfolding on_call begin submit_totp submit_email_code resend_email_code
  on_call-IsForgotten (call_begin email password code) f f' account at =
      let x = sign_in email password (given code) in
      answered-IsForgotten (begin server options email password code f) f' account
        (signed_in-IsDone email (server f.log x) (record f {
          session = record f.session { email = some email };
          log = (x, server f.log x) ∷ f.log;
        }))
        at
  on_call-IsForgotten (call_totp code) f f' account at =
      answered-IsForgotten (submit_totp server options code f) f' account
        (or_throw-IsDone _ (given f.session.session_token) _ f λ token _.
          asked-IsDone (server f.log (verify_totp token code)) _ _
            λ success _. accepted-IsDone success _)
        at
  on_call-IsForgotten (call_email_code code) f f' account at =
      answered-IsForgotten (submit_email_code server options code f) f' account
        (or_throw-IsDone _ (given f.session.session_token) _ f λ token _.
          asked-IsDone (server f.log (verify_session_code token code)) _ _ λ done _. finish-IsDone (
            logged f
              (verify_session_code token code, server f.log (verify_session_code token code))))
        at
  on_call-IsForgotten call_resend f f' account at =
      resent-IsForgotten (resend_email_code server options f) f' account at
