-- ===== src/Autofill/Filler.antt =====
-- src/autofill/filler.ts: what is written into a form that was detected, as a list of writes, first to last.
pub mod Writes
use fire_sync.Prelude.{
  String, Bool, Option, none, some, List, [], ◌∷◌, ◌++◌, not, ◌==◌, if◌then◌else◌, or_default,
  false, is_some,
}
use fire_sync.Autofill.Detector.{Input, TokenTest, DetectedForm, or_else}

-- `setFieldValue`: the input, and the value it gets.
abbrev pub Write : Type 0
Write = Input × String

-- `if (field && value) setFieldValue(field, value)`
abbrev pub written : Option Input → String → List Write
written none value = []
written (some i) value = if value == "" then [] else (i, value) ∷ []

-- The same where the value is not tested.
abbrev pub always_written : Option Input → String → List Write
always_written none value = []
always_written (some i) value = (i, value) ∷ []

pub record Captured : Type 0 where
  pub username : String
  pub password : String
  pub username_field : String
  pub password_field : String

abbrev pub value_of : Option Input → String
value_of none = ""
value_of (some i) = i.value

abbrev pub name_of : Option Input → String
name_of none = ""
name_of (some i) = or_default i.name ""

abbrev pub captured_from : Option Input → Option Input → Option Captured
captured_from user none = none
captured_from user (some i) =
    if i.value == ""
    then none
    else some (record {
      username = value_of user;
      password = i.value;
      username_field = name_of user;
      password_field = name_of (some i);
    })

pub record FillReport : Type 0 where
  pub filled_username : Bool
  pub filled_password : Bool

-- `!!(field && value)`
abbrev pub is_written : Option Input → String → Bool
is_written none value = false
is_written (some i) value = not (value == "")

module _ (tests : TokenTest) where
  unfoldable pub fill_login : DetectedForm tests → String → String → FillReport × List Write
  fill_login form username password = (
    record {
      filled_username = is_written form.username_field username;
      filled_password = is_written form.current_field password;
    },
    written form.username_field username ++ written form.current_field password,
  )

  unfoldable pub fill_new_password : DetectedForm tests → String → FillReport × List Write
  fill_new_password form password =
      let target = or_else tests form.new_field form.current_field in
      (
        record { filled_username = false; filled_password = is_some target },
        always_written target password ++ always_written form.confirm_field password,
      )

  unfoldable pub read_credential : DetectedForm tests → Option Captured
  read_credential form =
      captured_from form.username_field (or_else tests form.current_field form.new_field)
