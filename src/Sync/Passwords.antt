-- ===== src/Sync/Passwords.antt =====
-- src/sync15/engines/passwords.ts: the payload of the `passwords` collection.
-- An optional field that is `undefined` or `null` is `none`: the code tells the two apart nowhere.
use fire_sync.Prelude.{
  ℕ, ◌+◌, String, ◌≡◌, true, Option, none, some, ◌⊎◌, arith, if◌then◌else◌, is_some, or_default,
}
use fire_sync.Url.{UrlParser}

pub record PasswordRecord : Type 0 where
  pub id : String
  pub hostname : String
  pub form_submit_url : Option String
  pub http_realm : Option String
  pub username : String
  pub password : String
  pub username_field : Option String
  pub password_field : Option String
  pub time_created : Option ℕ
  pub time_password_changed : Option ℕ
  pub time_last_used : Option ℕ
  pub times_used : Option ℕ

pub record NewPasswordInput : Type 0 where
  pub origin : String
  pub username : String
  pub password : String
  pub form_action_origin : Option String
  pub http_realm : Option String
  pub username_field : Option String
  pub password_field : Option String

module _ (new_url : UrlParser) where
  unfoldable pub normalize_origin : String → String
  normalize_origin input = elim (new_url input) [ none ↦ input | some url ↦ url.origin ]

  -- `id` is the random record id and `now` the clock, which the code reads itself.
  unfoldable pub new_password_record : String → ℕ → NewPasswordInput → PasswordRecord
  new_password_record id now input =
      let is_http_auth = is_some input.http_realm in
      record {
        id = id;
        hostname = normalize_origin input.origin;
        form_submit_url =
            if is_http_auth
            then none
            else some (normalize_origin (or_default input.form_action_origin input.origin));
        http_realm = if is_http_auth then input.http_realm else none;
        username = input.username;
        password = input.password;
        username_field = some (or_default input.username_field "");
        password_field = some (or_default input.password_field "");
        time_created = some now;
        time_password_changed = some now;
        time_last_used = some now;
        times_used = some 1;
      }

  -- A new login has exactly one of a form URL and an HTTP realm, as Firefox demands of a login.
  new_password_record-one_target :
      (id : String) (now : ℕ) (input : NewPasswordInput)
      → ((is_some (new_password_record id now input).form_submit_url ≡ true)
          × ((new_password_record id now input).http_realm ≡ none))
        ⊎ (((new_password_record id now input).form_submit_url ≡ none)
            × (is_some (new_password_record id now input).http_realm ≡ true))
  unfolding new_password_record
  new_password_record-one_target id now input = ground arith

unfoldable pub password_authority_time : PasswordRecord → ℕ
password_authority_time r =
    or_default r.time_password_changed (or_default r.time_created (or_default r.time_last_used 0))

unfoldable pub mark_password_used : PasswordRecord → ℕ → PasswordRecord
mark_password_used r now = record r {
  time_last_used = some now;
  times_used = some (or_default r.times_used 0 + 1);
}

unfoldable pub change_password : PasswordRecord → String → ℕ → PasswordRecord
change_password r password now = record r {
  password = password;
  time_password_changed = some now;
  time_last_used = some now;
}
