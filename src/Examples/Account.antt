-- ===== src/Examples/Account.antt =====
-- A sign-in by src/fxa/connect.ts that needs a code by mail.
use fire_sync.Prelude.{refl, true, false, none, some, List, [], ◌∷◌}
use fire_sync.Prelude.Dict
use fire_sync.Prelude.Result.{ok, err}
use fire_sync.Sync.Session.{AccountTokens}
use fire_sync.Account.Connect.{
  AccountServer, sign_in, verify_totp, verify_session_code, account_keys, create_oauth_token,
  scoped_key_data, send_unblock_code, resend_session_code, destroy_session, register_device,
  email_otp, oldsync_scope, fxa_error, fxa_network_error, ConnectOptions, Flow, new_flow, Call,
  call_begin, call_email_code, call_resend, on_call, run_calls, submit_email_code, begin,
}
use fire_sync.Account.Connect.Careful.{IsCareful, run_calls-IsCareful}
use fire_sync.Account.Connect.Done.{IsForgotten, on_call-IsForgotten}

abbrev server : AccountServer
server log (sign_in email password code) = ok (
  record {
    uid = "u";
    session_token = "s";
    key_fetch_token = some "k";
    verified = false;
    verification_method = some email_otp;
  },
  "unwrap",
)
server log (verify_totp token code) = ok false
server log (verify_session_code token code) = ok tt
server log (account_keys token unwrap) = ok "kB"
server log (scoped_key_data token) = ok ((oldsync_scope, 7) ∷ [])
server log (create_oauth_token token) = ok (some "refresh")
server log (register_device token name) = err (fxa_error 400 none)
server log (send_unblock_code email) = ok tt
server log (resend_session_code token) = ok tt
server log (destroy_session token) = err fxa_network_error

abbrev options : ConnectOptions
options = record {
  device_name = "FireSync";
  registers_device = true;
  oauth_client_id = "client";
  now = 5;
  derive_sync_key = λ k. k;
  derive_key_id = λ k rotated. k;
}

abbrev calls : List Call
calls =
    call_begin "a@b.org" "secret" none
    ∷ call_resend
    ∷ call_email_code "123"
    ∷ call_email_code "123"
    ∷ []

run_calls-IsCareful_example : IsCareful (run_calls server options calls new_flow).log
run_calls-IsCareful_example = run_calls-IsCareful server options calls

abbrev account : AccountTokens
account = record {
  uid = "u";
  email = "a@b.org";
  refresh_token = "refresh";
  kid = "kB";
  k_sync = "kB";
  client_id = some "client";
  device_id = none;
  connected_at = 5;
}

abbrev started : Flow
started = run_calls server options (call_begin "a@b.org" "secret" none ∷ []) new_flow

on_call-IsForgotten_example :
    IsForgotten account (on_call server options (call_email_code "123") started).1
unfolding on_call run_calls submit_email_code begin Dict.get
on_call-IsForgotten_example =
    on_call-IsForgotten server options (call_email_code "123") started
      (on_call server options (call_email_code "123") started).1 account refl
