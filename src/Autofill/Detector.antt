-- ===== src/Autofill/Detector.antt =====
-- src/autofill/detector.ts: the classification of the inputs that a page shows, and of its forms. An input is
-- what the code reads of it; which inputs are fillable, and the text beside them, come from the DOM.
use text.Mathlib.Text.{starts_with}
use fire_sync.Prelude.{
  ℕ, ◌+◌, ◌-◌, String, Bool, true, false, not, ◌&&◌, ◌||◌, Option, none, some, List, [], ◌∷◌, map,
  filter, find?, any, length, ltb, leb, eqb, ◌==◌, if◌then◌else◌, or_default, is_some, ◌++◌,
}
use fire_sync.Match.Psl.{lower_case}

pub data FieldKind : Type 0 where
  username email current_password new_password confirm_password totp unknown : FieldKind

pub data FormKind : Type 0 where
  login_form signup_form change_password_form totp_form unknown_form : FormKind

-- `id` is the place of the input in the document, `form` that of its form.
pub record Input : Type 0 where
  pub id : ℕ
  pub form : Option ℕ
  pub type_attribute : Option String
  pub autocomplete : Option String
  pub text : String
  pub value : String
  pub name : Option String

-- A regular expression with the flag `i`, tested on a text.
abbrev pub TokenTest : Type 0
TokenTest = String → String → Bool

abbrev pub username_tokens : String
username_tokens =
    "(^|[^a-z])(user|username|login|log[-_]?in|email|e[-_]?mail|account|identifier|ident|userid|user[-_]?name|signin|benutzer|usuario|utilisateur|correo|courriel)([^a-z]|$)"

abbrev pub username_compounds : String
username_compounds =
    "(username|userid|loginname|benutzername|benutzerkennung|gebruikersnaam|nomeutente|nomdutilisateur|nombredeusuario|utilisateur|usuario|correo)"

abbrev pub negative_tokens : String
negative_tokens =
    "(search|query|q$|captcha|coupon|promo|voucher|discount|zip|postal|postcode|phone|tel|mobile|firstname|lastname|surname|given|family|street|address|city|state|country|company|organisation|organization|comment|message|subject|title|amount|quantity|card|cvv|cvc|expiry|expiration|otp[-_]?url|honeypot|bot[-_]?field)"

abbrev pub totp_tokens : String
totp_tokens =
    "(otp|2fa|two[-_]?factor|totp|auth[-_]?code|verification[-_]?code|security[-_]?code|one[-_]?time)"

abbrev pub new_password_tokens : String
new_password_tokens =
    "(new[-_]?pass|create[-_]?pass|set[-_]?pass|register|signup|sign[-_]?up|choose[-_]?pass)"

abbrev pub confirm_password_tokens : String
confirm_password_tokens = "(confirm|repeat|retype|re[-_]?enter|verify|again|_2$|2$)"

abbrev pub current_password_tokens : String
current_password_tokens = "(current[-_]?pass|old[-_]?pass|existing[-_]?pass)"

-- `s.includes(part)`
abbrev pub includes : String → String → Bool
includes String.[] part = part == ""
includes (String.◌∷◌ c s) part =
    let rest = includes s part in starts_with (String.◌∷◌ c s) part || rest

abbrev pub kind_code : FieldKind → ℕ
kind_code username = 0
kind_code email = 1
kind_code current_password = 2
kind_code new_password = 3
kind_code confirm_password = 4
kind_code totp = 5
kind_code unknown = 6

abbrev pub is_kind : FieldKind → FieldKind → Bool
is_kind k j = eqb (kind_code k) (kind_code j)

abbrev pub autocomplete_of : Input → String
autocomplete_of i = lower_case (or_default i.autocomplete "")

abbrev pub type_of : Input → String
type_of i = lower_case (or_default i.type_attribute "text")

abbrev pub is_textual : String → Bool
is_textual t = any (λ x. x == t) ("text" ∷ "email" ∷ "tel" ∷ "search" ∷ "url" ∷ "" ∷ [])

module _ (tests : TokenTest) where
  abbrev pub looks_like_username : String → Bool
  looks_like_username text = tests username_tokens text || tests username_compounds text

  abbrev pub classify_password : String → FieldKind × ℕ
  classify_password text =
      if tests confirm_password_tokens text
      then (confirm_password, 70)
      else if tests new_password_tokens text
      then (new_password, 70)
      else if tests current_password_tokens text
      then (current_password, 75)
      else (current_password, 50)

  abbrev pub classify_text : String → String → FieldKind × ℕ
  classify_text type text =
      if not (is_textual type)
      then (unknown, 0)
      else if tests totp_tokens text
      then (totp, 60)
      else if tests negative_tokens text && not (looks_like_username text)
      then (unknown, 0)
      else if type == "email"
      then (email, 65)
      else if looks_like_username text
      then (username, 60)
      else (unknown, 5)

  -- The tokens of `autocomplete` come first, then the type, then the text.
  unfoldable pub classify_field : Input → FieldKind × ℕ
  classify_field i =
      let tokens = autocomplete_of i in
      if includes tokens "current-password"
      then (current_password, 100)
      else if includes tokens "new-password"
      then (new_password, 100)
      else if includes tokens "one-time-code"
      then (totp, 100)
      else if includes tokens "username"
      then (username, 100)
      else if includes tokens "email"
      then (email, 90)
      else if type_of i == "password"
      then classify_password i.text
      else classify_text (type_of i) i.text

  abbrev pub has_kind : FieldKind → Input → Bool
  has_kind k i = is_kind (classify_field i).0 k

  abbrev pub count_kind : FieldKind → List Input → ℕ
  count_kind k is = length (filter (has_kind k) is)

  abbrev pub form_kind_by : ℕ → ℕ → ℕ → ℕ → Bool → FormKind
  form_kind_by count new confirm current has_totp =
      if eqb count 0
      then (if has_totp then totp_form else unknown_form)
      else if eqb count 1
      then (if eqb current 1 && eqb new 0 then login_form else signup_form)
      else if leb 1 current && (leb 1 new || leb 1 confirm)
      then change_password_form
      else if leb 1 new || leb 1 confirm
      then signup_form
      else login_form

  unfoldable pub classify_form_kind : List Input → Bool → FormKind
  classify_form_kind passwords has_totp =
      form_kind_by (length passwords) (count_kind new_password passwords)
        (count_kind confirm_password passwords) (count_kind current_password passwords) has_totp

abbrev pub eq_form : Option ℕ → Option ℕ → Bool
eq_form none none = true
eq_form (some m) (some n) = eqb m n
eq_form none (some n) = false
eq_form (some m) none = false

-- The best candidate so far, with its score.
abbrev pub Best : Type 0
Best = Option (Input × ℕ)

abbrev pub better : Best → Input → ℕ → Best
better none i score = some (i, score)
better (some (j, best)) i score = if ltb best score then some (i, score) else some (j, best)

abbrev pub element_of : Best → Option Input
element_of none = none
element_of (some (i, score)) = some i

module _ (tests : TokenTest) where
  abbrev pub is_username : Input → Bool
  is_username i = has_kind tests username i || has_kind tests email i

  -- A field after the password must beat one before it outright.
  abbrev pub adjusted : Input → Input → ℕ
  adjusted password i =
      let score = (classify_field tests i).1 in
      if ltb i.id password.id then score + 10 else score - 20

  abbrev pub is_candidate : Input → Input → Bool
  is_candidate password i = not (eqb i.id password.id) && is_username i

  unfoldable pub best_from : Input → List Input → Best → Best
  best_from password [] best = best
  best_from password (i ∷ pool) best =
      best_from password pool
        (if is_candidate password i then better best i (adjusted password i) else best)

  abbrev pub pool_of : Input → List Input → List Input
  pool_of password candidates =
      let of_form = filter (λ i. eq_form i.form password.form) candidates in
      if eqb (length of_form) 0 then candidates else of_form

  unfoldable pub find_username_for : Input → List Input → Option Input
  find_username_for password candidates =
      element_of (best_from password (pool_of password candidates) none)

  -- The inputs of each form, in the order of their first inputs.
  abbrev pub Group : Type 0
  Group = Option ℕ × List Input

  abbrev pub put_input : Input → List Group → List Group
  put_input i [] = (i.form, i ∷ []) ∷ []
  put_input i ((form, is) ∷ groups) =
      let rest = put_input i groups in
      if eq_form form i.form then (form, is ++ (i ∷ [])) ∷ groups else (form, is) ∷ rest

  unfoldable pub groups_from : List Input → List Group → List Group
  groups_from [] groups = groups
  groups_from (i ∷ is) groups = groups_from is (put_input i groups)

  -- Without the element that submits the form.
  pub record DetectedForm : Type 0 where
    pub form : Option ℕ
    pub kind : FormKind
    pub username_field : Option Input
    pub current_field : Option Input
    pub new_field : Option Input
    pub confirm_field : Option Input
    pub totp_field : Option Input

  abbrev pub is_password : Input → Bool
  is_password i = lower_case (or_default i.type_attribute "") == "password"

  abbrev pub or_else : Option Input → Option Input → Option Input
  or_else none b = b
  or_else (some a) b = some a

  abbrev pub username_by : Option Input → List Input → Option Input
  username_by none is = none
  username_by (some anchor) is = find_username_for anchor is

  abbrev pub detected : Group → DetectedForm
  detected (form, is) =
      let passwords = filter is_password is in
      let totp_found = find? (has_kind tests totp) is in
      let current = find? (has_kind tests current_password) is in
      let new = find? (has_kind tests new_password) is in
      record {
        form = form;
        kind = classify_form_kind tests passwords (is_some totp_found);
        username_field =
            username_by (or_else current (or_else new (find? (λ i. true) passwords))) is;
        current_field = current;
        new_field = new;
        confirm_field = find? (has_kind tests confirm_password) is;
        totp_field = totp_found;
      }

  -- A group with no password and no code is no form.
  abbrev pub is_form : Group → Bool
  is_form (form, is) = any is_password is || any (has_kind tests totp) is

  unfoldable pub detect_forms : List Input → List DetectedForm
  detect_forms inputs = map detected (filter is_form (groups_from inputs []))
