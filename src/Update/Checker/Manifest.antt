-- ===== src/Update/Checker/Manifest.antt =====
-- `normaliseManifest` of src/update/checker.ts: a value of JSON into an `UpdateManifest`.
use mathlib.Core.Path.{subst}
use fire_sync.Prelude.{
  ℕ, String, ◌≡◌, refl, sym, ◌⊎◌, inl, inr, Bool, true, false, Option, none, some, List, arith,
  ◌==◌, if◌then◌else◌, take, eq_iff, Bool-cases,
}
use fire_sync.Prelude.Result.{Result, ok, err}
use fire_sync.Url.{Url, UrlParser}
use fire_sync.Update.Version.{is_valid_version}

-- A field of the object, by the types that the code tells apart.
pub data JsonField : Type 0 where
  absent other : JsonField
  flag : Bool → JsonField
  text : String → JsonField

-- The notes are a list of code units, which `slice` cuts; `none` if they are no text.
pub record RawManifest : Type 0 where
  pub version : JsonField
  pub crx : JsonField
  pub zip : JsonField
  pub release_url : JsonField
  pub released_at : JsonField
  pub minimum_chrome_version : JsonField
  pub critical : JsonField
  pub notes : Option (List ℕ)

pub data JsonValue : Type 0 where
  not_an_object : JsonValue
  object : RawManifest → JsonValue

-- What the code throws on the way to a manifest; each has a message.
pub data UpdateError : Type 0 where
  invalid_url not_https network_failure not_json not_object no_usable_version : UpdateError
  bad_status too_large : ℕ → UpdateError

pub record UpdateManifest : Type 0 where
  pub version : String
  pub released_at : Option String
  pub notes : Option (List ℕ)
  pub crx : Option String
  pub zip : Option String
  pub release_url : Option String
  pub minimum_chrome_version : Option String
  pub critical : Bool

abbrev pub text_of : JsonField → Option String
text_of (text s) = some s
text_of _ = none

abbrev pub is_true : JsonField → Bool
is_true (flag true) = true
is_true _ = false

abbrev pub cut : Option (List ℕ) → Option (List ℕ)
cut none = none
cut (some notes) = some (take 2000 notes)

module _ (parse_url : UrlParser) where
  abbrev pub https_text : String → Option Url → Option String
  https_text candidate none = none
  https_text candidate (some url) =
      if url.protocol == "https:" then (if candidate == "" then none else some candidate) else none

  -- `httpsUrl`, and the test `if (crx)` on its result.
  abbrev pub https_url : JsonField → Option String
  https_url (text candidate) = https_text candidate (parse_url candidate)
  https_url _ = none

  abbrev pub manifest_of : RawManifest → String → UpdateManifest
  manifest_of raw version = record {
    version = version;
    released_at = text_of raw.released_at;
    notes = cut raw.notes;
    crx = https_url raw.crx;
    zip = https_url raw.zip;
    release_url = https_url raw.release_url;
    minimum_chrome_version = text_of raw.minimum_chrome_version;
    critical = is_true raw.critical;
  }

  abbrev pub usable : RawManifest → JsonField → Result UpdateError UpdateManifest
  usable raw (text version) =
      if is_valid_version version then ok (manifest_of raw version) else err no_usable_version
  usable raw _ = err no_usable_version

  unfoldable pub normalise_manifest : JsonValue → Result UpdateError UpdateManifest
  normalise_manifest not_an_object = err not_object
  normalise_manifest (object raw) = usable raw raw.version

  -- A link is absent, or it parses as an https URL.
  abbrev pub IsSecure : Option String → Type 0
  IsSecure link =
      (link ≡ none)
      ⊎ ((s : String) × (url : Url) × (link ≡ some s)
          × (parse_url s ≡ some url)
          × (url.protocol ≡ "https:"))

  abbrev pub IsTrusted : UpdateManifest → Type 0
  IsTrusted m =
      (is_valid_version m.version ≡ true) × IsSecure m.crx × IsSecure m.zip × IsSecure m.release_url

  https_text-IsSecure : (s : String) (o : Option Url) → parse_url s ≡ o → IsSecure (https_text s o)
  https_text-IsSecure s none e = inl refl
  https_text-IsSecure s (some url) e = elim (Bool-cases (url.protocol == "https:")) [
    | inr plain ↦ rw plain (inl refl)
    | inl https ↦ elim (Bool-cases (s == "")) [
      | inl blank ↦ rw (https, blank) (inl refl)
      | inr there ↦
          rw (https, there) (inr (s, url, refl, e, ground (arith, eq_iff url.protocol "https:")))
    ]
  ]

  https_url-IsSecure : (f : JsonField) → IsSecure (https_url f)
  https_url-IsSecure absent = inl refl
  https_url-IsSecure other = inl refl
  https_url-IsSecure (flag b) = inl refl
  https_url-IsSecure (text s) = https_text-IsSecure s _ refl

  usable-IsTrusted :
      (raw : RawManifest) (f : JsonField) (m : UpdateManifest) → usable raw f ≡ ok m → IsTrusted m
  usable-IsTrusted raw absent m e = cc
  usable-IsTrusted raw other m e = cc
  usable-IsTrusted raw (flag b) m e = cc
  usable-IsTrusted raw (text version) m e = elim (Bool-cases (is_valid_version version)) [
    | inr bad ↦ let it : err no_usable_version ≡ ok m = rw bad at e in cc
    | inl valid ↦
        let it : ok (manifest_of raw version) ≡ ok m = rw valid at e in
        let is : m ≡ manifest_of raw version = cc in
        subst IsTrusted (sym is) (
          valid,
          https_url-IsSecure raw.crx,
          https_url-IsSecure raw.zip,
          https_url-IsSecure raw.release_url,
        )
  ]

  pub normalise_manifest-IsTrusted :
      (json : JsonValue) (m : UpdateManifest) → normalise_manifest json ≡ ok m → IsTrusted m
  unfolding normalise_manifest
  normalise_manifest-IsTrusted not_an_object m e = cc
  normalise_manifest-IsTrusted (object raw) m e = usable-IsTrusted raw raw.version m e
