-- ===== src/Examples/Autofill.antt =====
-- A page with a search box and a login form, for src/autofill.
use fire_sync.Prelude.{ℕ, String, refl, false, Option, none, some, List, [], ◌∷◌, inl, inr}
use fire_sync.Autofill.Detector.{
  Input, TokenTest, DetectedForm, login_form, classify_field, best_from, find_username_for,
  groups_from, classify_form_kind, detect_forms,
}
use fire_sync.Autofill.Filler.{fill_login}
use fire_sync.Autofill.Filler.Writes.{IsRightful, fill_login-IsRightful}

abbrev tests : TokenTest
tests pattern text = false

abbrev input_of : ℕ → Option ℕ → String → String → Input
input_of id form type tokens = record {
  id = id;
  form = form;
  type_attribute = some type;
  autocomplete = some tokens;
  text = "";
  value = "";
  name = none;
}

abbrev user_input : Input
user_input = input_of 2 (some 7) "text" "username"

abbrev password_input : Input
password_input = input_of 3 (some 7) "password" "current-password"

abbrev inputs : List Input
inputs = input_of 1 none "search" "" ∷ user_input ∷ password_input ∷ []

abbrev form : DetectedForm tests
form = record {
  form = some 7;
  kind = login_form;
  username_field = some user_input;
  current_field = some password_input;
  new_field = none;
  confirm_field = none;
  totp_field = none;
}

fill_login-IsRightful_example :
    IsRightful tests inputs (some 7) "eve" "secret" (password_input, "secret")
unfolding detect_forms groups_from classify_field best_from find_username_for classify_form_kind
    fill_login
fill_login-IsRightful_example =
    fill_login-IsRightful tests inputs form "eve" "secret" (password_input, "secret") (inl refl)
      (inr (inl refl))
