-- ===== src/Account/Connect/Careful.antt =====
-- src/fxa/connect.ts: the token that fetches the keys, over the calls of a sign-in.
use fire_sync.Prelude.{
  String, ◌≡◌, refl, sym, ◌∙◌, Bool, true, false, ◌||◌, Option, none, some, List, [], ◌∷◌, ◌==◌,
  arith, Bool-cases, inl, inr,
}
use fire_sync.Prelude.Dict
use fire_sync.Prelude.Result.{Result, ok, err}
use fire_sync.Vault.Store.{given}
use fire_sync.Account.Connect.{
  FxaFailure, Request, sign_in, verify_totp, verify_session_code, account_keys, create_oauth_token,
  scoped_key_data, AnswerOf, Exchange, AccountServer, ConnectError, ConnectOptions, oldsync_scope,
  Flow, new_flow, Act, return, SignInResponse, Ready, ready_by, ready_in, bound, answer_of, logged,
  or_throw, with_keys, registered, finish, begin, if_has_keys, blocked_if, needs_unblock_code,
  after_sign_in, if_accepted, submit_totp, submit_email_code, resend_email_code, Call, call_begin,
  call_totp, call_email_code, call_resend, on_call, run_calls,
}

-- Whether the session of the last sign-in is verified.
abbrev pub verified_after : (r : Request) → Result FxaFailure (AnswerOf r) → Bool → Bool
verified_after (sign_in email password code) (ok (response, unwrap)) before = response.verified
verified_after (verify_totp token code) (ok success) before = success || before
verified_after (verify_session_code token code) (ok done) before = true
verified_after r a before = before

abbrev pub verified_in : List Exchange → Bool
verified_in [] = false
verified_in ((r, a) ∷ log) = let before = verified_in log in verified_after r a before

-- The token of the last sign-in that has not fetched the keys yet.
abbrev pub held_after :
    (r : Request) → Result FxaFailure (AnswerOf r) → Option String → Option String
held_after (sign_in email password code) (ok (response, unwrap)) before = response.key_fetch_token
held_after (account_keys token unwrap) (ok keys) before = none
held_after r a before = before

abbrev pub held_in : List Exchange → Option String
held_in [] = none
held_in ((r, a) ∷ log) = let before = held_in log in held_after r a before

-- The keys are asked for with that token, and after the session is verified.
abbrev pub MayAsk : Request → List Exchange → Type 0
MayAsk (account_keys token unwrap) log = (verified_in log ≡ true) × (held_in log ≡ some token)
MayAsk _ log = Unit

abbrev pub IsCareful : List Exchange → Type 0
IsCareful [] = Unit
IsCareful ((r, a) ∷ log) = MayAsk r log × IsCareful log

pub given-some : (o : Option String) (t : String) → given o ≡ some t → o ≡ some t
given-some none t h = h
given-some (some s) t h = elim (Bool-cases (s == "")) [
  | inl empty ↦ ground arith
  | inr real ↦ ground arith
]

ready_by-token :
    (a b c d : Option String) (r : Ready) → ready_by a b c d ≡ some r → a ≡ some r.token
ready_by-token (some a) (some b) (some c) (some d) r h = cc
ready_by-token none b c d r h = cc
ready_by-token (some a) none c d r h = cc
ready_by-token (some a) (some b) none d r h = cc
ready_by-token (some a) (some b) (some c) none r h = cc

-- The session holds the token that the log says, and the log is careful.
abbrev Inv : Flow → Type 0
Inv f = IsCareful f.log × (f.session.key_fetch_token ≡ held_in f.log)

or_throw-Inv :
    {A B : Type 0} (e : ConnectError) (o : Option A) (k : A → Act B) (f : Flow)
    → Inv f
    → ((a : A) → o ≡ some a → Inv (k a f).1)
    → Inv (bound (or_throw e o f) k).1
or_throw-Inv e none k f h g = h
or_throw-Inv e (some a) k f h g = g a refl

asked-Inv :
    {A B : Type 0} (a : Result FxaFailure A) (k : A → Act B) (f : Flow)
    → Inv f
    → ((b : A) → a ≡ ok b → Inv (k b f).1)
    → Inv (bound (answer_of a, f) k).1
asked-Inv (err e) k f h g = h
asked-Inv (ok b) k f h g = g b refl

module _ (server : AccountServer) (options : ConnectOptions) where
  registered-Inv :
      (b : Bool) (token : String) (f : Flow) {B : Type 0} (k : Option String → Act B)
      → Inv f
      → ((f' : Flow) (d : Option String) → Inv f' → Inv (k d f').1)
      → Inv (bound (registered server options b token f) k).1
  registered-Inv false token f k h g = g f none h
  registered-Inv true token f k h g = g _ _ ((tt, h.0), h.1)

  with_keys-Inv :
      (token : String) (r : Ready) (k_b : String) (f : Flow)
      → Inv f
      → Inv (with_keys server options token r k_b f).1
  with_keys-Inv token r k_b f h =
      let f1 = logged f (scoped_key_data token, server f.log (scoped_key_data token)) in
      let h1 : Inv f1 = ((tt, h.0), h.1) in
      let f2 = logged f1 (create_oauth_token token, server f1.log (create_oauth_token token)) in
      let h2 : Inv f2 = ((tt, (tt, h.0)), h.1) in
      asked-Inv (server f.log (scoped_key_data token)) _ f1 h1 λ entries _.
        or_throw-Inv _ (Dict.get oldsync_scope entries) _ f1 h1 λ rotated _.
          asked-Inv (server f1.log (create_oauth_token token)) _ f2 h2 λ issued _.
            or_throw-Inv _ (given issued) _ f2 h2 λ refresh _.
              registered-Inv options.registers_device token f2 _ h2
                λ f' device h'. ((tt, h'.0), h'.1)

  fetched-Inv :
      (token : String) (r : Ready) (a : Result FxaFailure String) (f : Flow)
      → Inv f
      → verified_in f.log ≡ true
      → f.session.key_fetch_token ≡ some r.token
      → Inv
          (bound
            (answer_of a, logged f (account_keys r.token r.unwrap, a))
            (λ k_b g.
              with_keys server options token r k_b
                (record g { session = record g.session { key_fetch_token = none } }))).1
  fetched-Inv token r (err e) f h v held = (((v, sym h.1 ∙ held), h.0), h.1)
  fetched-Inv token r (ok k_b) f h v held =
      with_keys-Inv token r k_b _ (((v, sym h.1 ∙ held), h.0), refl)

  finish-Inv : (f : Flow) → Inv f → verified_in f.log ≡ true → Inv (finish server options f).1
  finish-Inv f h v = or_throw-Inv _ (given f.session.session_token) _ f h λ token _.
      or_throw-Inv _ (ready_in f.session) _ f h λ r ready.
        fetched-Inv token r (server f.log (account_keys r.token r.unwrap)) f h v (
          given-some f.session.key_fetch_token r.token (
            ready_by-token (given f.session.key_fetch_token) f.session.unwrap_b_key
              (given f.session.uid) (given f.session.email) r ready))

  accepted-Inv :
      (success : Bool) (f : Flow)
      → Inv f
      → (success ≡ true → verified_in f.log ≡ true)
      → Inv (if_accepted server options success f).1
  accepted-Inv false f h v = h
  accepted-Inv true f h v = finish-Inv f h (v refl)

  verified_by-Inv :
      (token code : String) (a : Result FxaFailure Bool) (f : Flow)
      → Inv f
      → Inv
          (bound (answer_of a, logged f (verify_totp token code, a)) (if_accepted server options)).1
  verified_by-Inv token code (err e) f h = ((tt, h.0), h.1)
  verified_by-Inv token code (ok success) f h =
      accepted-Inv success (logged f (verify_totp token code, ok success)) ((tt, h.0), h.1)
        (λ accepted. rw accepted refl)

  confirmed-Inv :
      (token code : String) (a : Result FxaFailure Unit) (f : Flow)
      → Inv f
      → Inv
          (bound
            (answer_of a, logged f (verify_session_code token code, a))
            (λ _. finish server options)).1
  confirmed-Inv token code (err e) f h = ((tt, h.0), h.1)
  confirmed-Inv token code (ok done) f h =
      finish-Inv (logged f (verify_session_code token code, ok done)) ((tt, h.0), h.1) refl

  next_step-Inv :
      (email : String) (response : SignInResponse) (token : Option String) (f : Flow)
      → Inv f
      → (response.verified ≡ true → verified_in f.log ≡ true)
      → Inv (if_has_keys server options email response token f).1
  next_step-Inv email response none f h v = h
  next_step-Inv email response (some token) f h v = elim (Bool-cases response.verified) [
    | inl verified ↦ rw verified (finish-Inv f h (v verified))
    | inr other ↦ rw other h
  ]

  blocked-Inv :
      (b : Bool) (email : String) (e : FxaFailure) (f : Flow)
      → Inv f
      → Inv (blocked_if server options b email e f).1
  blocked-Inv false email e f h = h
  blocked-Inv true email e f h = ((tt, h.0), h.1)

  signed_in-Inv :
      (email password : String) (code : Option String)
      (a : Result FxaFailure (SignInResponse × String)) (f : Flow)
      → Inv f
      → Inv (after_sign_in server options email a (logged f (sign_in email password code, a))).1
  signed_in-Inv email password code (err e) f h =
      blocked-Inv (needs_unblock_code e) email e (logged f (sign_in email password code, err e))
        ((tt, h.0), h.1)
  signed_in-Inv email password code (ok (response, unwrap)) f h =
      next_step-Inv email response (given response.key_fetch_token)
        (record f {
          session = record f.session {
            session_token = some response.session_token;
            key_fetch_token = response.key_fetch_token;
            unwrap_b_key = some unwrap;
            uid = some response.uid;
          };
          log = (sign_in email password code, ok (response, unwrap)) ∷ f.log;
        })
        ((tt, h.0), refl) (λ v. v)

  answered-Inv :
      {A B : Type 0} (b : A → B) (x : Result ConnectError A × Flow)
      → Inv x.1
      → Inv (bound x (λ s. return (b s))).1
  answered-Inv b (err e, f) h = h
  answered-Inv b (ok a, f) h = h

  on_call-Inv : (c : Call) (f : Flow) → Inv f → Inv (on_call server options c f).1
  unfolding on_call begin submit_totp submit_email_code resend_email_code
  on_call-Inv (call_begin email password code) f h =
      answered-Inv some (begin server options email password code f) (
        signed_in-Inv email password (given code)
          (server f.log (sign_in email password (given code)))
          (record f { session = record f.session { email = some email } }) h)
  on_call-Inv (call_totp code) f h = answered-Inv some (submit_totp server options code f) (
      or_throw-Inv _ (given f.session.session_token) _ f h
        λ token _. verified_by-Inv token code (server f.log (verify_totp token code)) f h)
  on_call-Inv (call_email_code code) f h =
      answered-Inv some (submit_email_code server options code f) (
        or_throw-Inv _ (given f.session.session_token) _ f h
          λ token _. confirmed-Inv token code (server f.log (verify_session_code token code)) f h)
  on_call-Inv call_resend f h =
      answered-Inv (λ _. none) (resend_email_code server options f)
        (or_throw-Inv _ (given f.session.session_token) _ f h λ token _. ((tt, h.0), h.1))

  run_calls-from : (cs : List Call) (f : Flow) → Inv f → Inv (run_calls server options cs f)
  unfolding run_calls
  run_calls-from [] f h = h
  run_calls-from (c ∷ cs) f h = run_calls-from cs (on_call server options c f).1 (on_call-Inv c f h)

  -- Whatever the account server answers and a page calls, the keys of an account are asked for only
  -- after the session of the last sign-in is verified, with the token which that sign-in gave, and not
  -- again once they came.
  pub run_calls-IsCareful : (cs : List Call) → IsCareful (run_calls server options cs new_flow).log
  run_calls-IsCareful cs = (run_calls-from cs new_flow (tt, refl)).0
