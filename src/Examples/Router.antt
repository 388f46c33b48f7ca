-- ===== src/Examples/Router.antt =====
-- Concrete messages to the router of src/background/router.ts, with the cipher that writes the key
-- beside the text.
use fire_sync.Prelude.{
  String, ◌≡◌, refl, true, false, none, some, [], ◌∷◌, ◌==◌, if◌then◌else◌, eq_iff, arith, inl,
}
use fire_sync.Prelude.Dict
use fire_sync.Prelude.Result.{ok, err}
use fire_sync.Url.{Url, UrlParser}
use fire_sync.Match.Uri.{by_host, RegExpEngine, origin_matches, parse_target, origin_for_storage}
use fire_sync.Sync.Passwords.{PasswordRecord, mark_password_used}
use fire_sync.Sync.Reconcile.{LocalRecord}
use fire_sync.Vault.Contents.{
  empty_vault_contents, get_password, list_passwords, touch_password, existing_password,
}
use fire_sync.Vault.Contents.Find.{find_passwords_for_url, sort, insert}
use fire_sync.Vault.Contents.Invariant.{IsSound, IsSound-put, IsSound-nil}
use fire_sync.Vault.Crypto.{vault_locked, Plain}
use fire_sync.Vault.State.{empty_sync_state}
use fire_sync.Vault.Store.{read_contents, write_contents}
use fire_sync.Vault.Store.Views.{
  View, device_view, passphrase_view, locked, Seals, Values, store_of,
}
use fire_sync.Prefs.{match_strategy, for_url, inline_menu_mode, auto_fill_enabled}
use fire_sync.Prefs.Global.{menu_on, global, StoredGlobal}
use fire_sync.Background.Messages.{MessageSender, Payload, revealed, autofill_reveal, passwords_get}
use fire_sync.Match.Psl.{normalize_host}
use fire_sync.Background.Router.{sender_url, World, Platform, Services, no_sign_in, vault_failed}
use fire_sync.Background.Router.Handle.{failure, handle, on_message, query, reveal}
use fire_sync.Background.Router.Sender.{handle-claiming}
use fire_sync.Background.Router.Reveal.{IsAllowed, handle-IsAllowed}
use fire_sync.Background.Router.Locked.{on_message-locked}
use fire_sync.Background.Router.Offered.{query-reveal}
use fire_sync.Examples.Store.{toy, toy-IsIdeal, fresh}

abbrev bank : Url
bank = record {
  href = "https://bank.com/";
  protocol = "https:";
  hostname = "bank.com";
  origin = "https://bank.com";
  pathname = "/";
  search = "";
  hash = "";
}

abbrev one_site : UrlParser
one_site url = if url == "https://bank.com/" then some bank else none

abbrev no_regexp : RegExpEngine
no_regexp pattern = none

abbrev services : Services String (String × String × Plain)
services = record {
  sign_in = λ c w. (ok "", w);
  connect = λ c w. (ok none, w);
  auth_check = λ w. (ok "", w);
  sync = λ w. (err no_sign_in, w);
  bridge = λ c w. (ok "", w);
}

abbrev platform : Platform String (String × String × Plain)
platform = record {
  parse_url = one_site;
  regexp = no_regexp;
  comes_first = λ a b. true;
  update_host = λ url. none;
  current_version = "1.0.0";
  managed_by_browser = false;
  services = services;
}

abbrev login : PasswordRecord
login = record {
  id = "a";
  hostname = "https://bank.com/";
  form_submit_url = none;
  http_realm = none;
  username = "user";
  password = "secret";
  username_field = none;
  password_field = none;
  time_created = none;
  time_password_changed = none;
  time_last_used = none;
  times_used = none;
}

abbrev stored : LocalRecord PasswordRecord
stored = record {
  id = "a";
  content = some login;
  deleted = false;
  authority_time = 5;
  synced_at = none;
  dirty = false;
}

abbrev values : Values
values = record {
  contents = record empty_vault_contents { passwords = ("a", stored) ∷ [] };
  tokens = none;
  sync = empty_sync_state;
}

abbrev seals : Seals
seals = record { verifier_iv = "1"; vault_iv = "2"; tokens_iv = "3"; sync_iv = "4"; at = 5 }

abbrev opened : View String
opened = device_view "device" seals false values

abbrev closed : View String
closed = passphrase_view none "secret" 600_000 "salt" refl seals locked values

-- Only the host counts.
abbrev by_exact_host : StoredGlobal
by_exact_host = record {
  inline_menu = none;
  auto_fill_on_load = none;
  save_prompt = none;
  lock_timeout_minutes = none;
  lock_on_browser_close = none;
  sync_interval_minutes = none;
  default_match_strategy = some by_host;
  engines = none;
  sync_site_preferences = none;
  updates = none;
  theme = none;
}

abbrev world_of : View String → World String (String × String × Plain)
world_of v = record {
  store = store_of toy v;
  sites = [];
  stored_global = some by_exact_host;
  update_state = none;
  alarms = record { sync_alarm = none; auto_lock_alarm = none; update_alarm = none };
  sync_queued = false;
  broadcasts = [];
  connecting = false;
}

abbrev in_tab : MessageSender
in_tab = record { tab = some 7; url = some "https://bank.com/" }

-- A page of the bank may not claim to stand elsewhere.
handle-claiming_example :
    handle toy fresh platform 3 in_tab (autofill_reveal "a" "https://other.org/") (world_of opened)
    ≡ handle toy fresh platform 3 in_tab (autofill_reveal "a" "https://bank.com/") (world_of opened)
handle-claiming_example =
    handle-claiming toy fresh platform 3 in_tab 7 "https://bank.com/" "https://other.org/"
      (autofill_reveal "a" "https://bank.com/") (world_of opened) refl refl
      (λ e. ground (arith, eq_iff "https://bank.com/" ""))

on_message-locked_example :
    on_message toy fresh platform 3 in_tab (passwords_get "a") (world_of closed)
    ≡ (failure (vault_failed vault_locked) true, world_of closed)
on_message-locked_example =
    on_message-locked toy fresh platform 3 none "secret" 600_000 "salt" refl seals values in_tab
      (passwords_get "a") (world_of closed) (failure (vault_failed vault_locked) true) refl refl

abbrev shown : Payload
shown =
    revealed (record {
      id = "a";
      username = "user";
      origin = "https://bank.com/";
      password = some "secret";
    })

handle-IsAllowed_example :
    IsAllowed toy fresh platform 3 (world_of opened) in_tab (autofill_reveal "a" "x") shown
unfolding handle reveal read_contents write_contents get_password Dict.get Dict.put origin_matches
    parse_target normalize_host sender_url match_strategy for_url origin_for_storage global
    touch_password existing_password mark_password_used
handle-IsAllowed_example =
    handle-IsAllowed toy fresh platform 3 in_tab (autofill_reveal "a" "x") (world_of opened)
      (handle toy fresh platform 3 in_tab (autofill_reveal "a" "x") (world_of opened)).1 shown refl

values-IsSound : IsSound values.contents.passwords
unfolding Dict.put
values-IsSound = IsSound-put "a" stored [] refl refl IsSound-nil

own_ids : (id : String) (p : PasswordRecord) → get_password id values.contents ≡ some p → p.id ≡ id
unfolding get_password Dict.get
own_ids id p h = ground (arith, eq_iff "a" id)

query-reveal_example :
    (password : String) × ((reveal toy fresh platform 3 "a" "https://bank.com/" (world_of opened)).0
      ≡ ok (
          revealed (record {
            id = "a";
            username = "user";
            origin = "https://bank.com/";
            password = some password;
          })))
unfolding query read_contents find_passwords_for_url list_passwords sort insert Dict.get
    origin_matches parse_target normalize_host match_strategy for_url origin_for_storage global
    inline_menu_mode auto_fill_enabled
query-reveal_example =
    query-reveal toy toy-IsIdeal fresh platform 3 opened (world_of opened)
      (query toy fresh platform 3 "https://bank.com/" (world_of opened)).1 "https://bank.com/"
      (record { id = "a"; username = "user"; origin = "https://bank.com/"; password = none } ∷ [])
      true false menu_on
      (record { id = "a"; username = "user"; origin = "https://bank.com/"; password = none }) refl
      refl values-IsSound own_ids refl refl (inl refl)
