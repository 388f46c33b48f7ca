-- ===== src/Update/Checker/Notices.antt =====
-- What a check may leave behind, and when the user is told of a release.
use fire_sync.Prelude.{
  ℕ, String, ◌≡◌, refl, inl, inr, Bool, true, false, not, ◌&&◌, ltb, Option, none, some, List, [],
  ◌∷◌, ◌==◌, if◌then◌else◌, Bool-cases, Option-cases,
}
use fire_sync.Prelude.Result.{Result, ok, err, passes_guard, throw_if}
use fire_sync.Url.{UrlParser}
use fire_sync.Update.Version.{is_newer}
use fire_sync.Update.Checker.{
  UpdateSettings, UpdateState, Host, Answer, state, is_off, is_due, fetch_manifest, checked, check,
  dismiss, reset, should_notify, read_answer, manifest_in,
}
use fire_sync.Update.Checker.Manifest.{
  UpdateManifest, UpdateError, bad_status, too_large, IsTrusted, JsonValue,
  normalise_manifest-IsTrusted,
}

-- A call on the stored state.
pub data Call : Type 0 where
  check_call : UpdateSettings → Host → ℕ → ℕ → Bool → Call
  dismiss_call : String → Call
  reset_call : Call

module _ (parse_url : UrlParser) (version : String) where
  abbrev pub after : Call → Option UpdateState → Option UpdateState
  after (check_call settings host begun ended force) stored =
      (check parse_url version settings host begun ended force stored).0
  after (dismiss_call v) stored = dismiss v stored
  after reset_call stored = reset stored

  abbrev pub after_all : List Call → Option UpdateState → Option UpdateState
  after_all [] stored = stored
  after_all (c ∷ cs) stored = after_all cs (after c stored)

  -- A release on offer is newer than the running version, and its links are https.
  abbrev pub IsOffer : Option UpdateManifest → Type 0
  IsOffer none = Unit
  IsOffer (some m) = (is_newer m.version version ≡ true) × IsTrusted parse_url m

  abbrev pub IsHonest : Option UpdateState → Type 0
  IsHonest stored = IsOffer (state stored).available

  manifest_in-IsTrusted :
      (o : Option JsonValue) (m : UpdateManifest)
      → manifest_in parse_url o ≡ ok m
      → IsTrusted parse_url m
  manifest_in-IsTrusted none m e = cc
  manifest_in-IsTrusted (some json) m e = normalise_manifest-IsTrusted parse_url json m e

  read_answer-IsTrusted :
      (a : Option Answer) (m : UpdateManifest)
      → read_answer parse_url a ≡ ok m
      → IsTrusted parse_url m
  read_answer-IsTrusted none m e = cc
  read_answer-IsTrusted (some a) m e =
      let sized = passes_guard (throw_if (not a.status_ok) (bad_status a.status)) _ e in
      let parsed =
        passes_guard (throw_if (ltb 65_536 a.text_length) (too_large a.text_length)) _ sized in
      manifest_in-IsTrusted a.parsed m parsed

  fetch_manifest-IsTrusted :
      (host : Host) (text : String) (m : UpdateManifest)
      → (fetch_manifest parse_url host text).0 ≡ ok m
      → IsTrusted parse_url m
  unfolding fetch_manifest
  fetch_manifest-IsTrusted host text m e = elim (Option-cases (parse_url text)) [
    | inl bad ↦ let it : err _ ≡ ok m = rw (bad, fetch_manifest) at e in cc
    | inr (url, parsed) ↦ elim (Bool-cases (url.protocol == "https:")) [
      | inl https ↦ read_answer-IsTrusted (host text) m (rw (parsed, https, fetch_manifest) at e)
      | inr plain ↦ let it : err _ ≡ ok m = rw (parsed, plain, fetch_manifest) at e in cc
    ]
  ]

  checked-IsHonest :
      (now : ℕ) (s : UpdateState) (r : Result UpdateError UpdateManifest)
      → IsOffer s.available
      → ((m : UpdateManifest) → r ≡ ok m → IsTrusted parse_url m)
      → IsOffer (checked version now s r).available
  unfolding checked
  checked-IsHonest now s (err e) honest trusted = honest
  checked-IsHonest now s (ok m) honest trusted = elim (Bool-cases (is_newer m.version version)) [
    | inl newer ↦ rw newer (newer, trusted m refl)
    | inr old ↦ rw old tt
  ]

  check-IsHonest :
      (settings : UpdateSettings) (host : Host) (begun ended : ℕ) (force : Bool)
      (stored : Option UpdateState)
      → IsHonest stored
      → IsHonest (check parse_url version settings host begun ended force stored).0
  unfolding check
  check-IsHonest settings host begun ended force stored honest =
      elim (Bool-cases (is_off settings.mode)) [
        | inl off ↦ rw (off, check) honest
        | inr on ↦ elim (Bool-cases (not force && not (is_due begun settings stored))) [
          | inl wait ↦ rw (on, wait, check) honest
          | inr go ↦
              rw (on, go, check)
                (checked-IsHonest ended (state stored) _ honest
                  (λ m e. fetch_manifest-IsTrusted host settings.manifest_url m e))
        ]
      ]

  after_all-IsHonest-from :
      (calls : List Call) (stored : Option UpdateState)
      → IsHonest stored
      → IsHonest (after_all calls stored)
  after_all-IsHonest-from [] stored honest = honest
  after_all-IsHonest-from (check_call settings host begun ended force ∷ calls) stored honest =
      after_all-IsHonest-from calls _ (check-IsHonest settings host begun ended force stored honest)
  after_all-IsHonest-from (dismiss_call v ∷ calls) stored honest =
      after_all-IsHonest-from calls _ honest
  after_all-IsHonest-from (reset_call ∷ calls) stored honest = after_all-IsHonest-from calls _ tt

  -- Whatever the hosts answer, after any checks, dismissals and resets from an empty store, the
  -- release on offer, if there is one, is newer than the running version, its version is well formed,
  -- and each of its links is absent or an https URL.
  pub after_all-IsHonest : (calls : List Call) → IsHonest (after_all calls none)
  after_all-IsHonest calls = after_all-IsHonest-from calls none tt

-- What the user is told after a fetch that came out as `r`, with `v` dismissed before it.
abbrev pub is_told : String → String → Option UpdateState → Result UpdateError UpdateManifest → Bool
is_told version v stored (err e) = should_notify (dismiss v stored)
is_told version v stored (ok m) =
    if is_newer m.version version
    then (if m.critical then true else not (v == m.version))
    else false

-- A dismissal lasts for the release that was dismissed: after a later fetch the user is told of a
-- newer release exactly where it is critical or another version; and a failed fetch changes nothing
-- of what the user is told.
checked-is_told :
    (version v : String) (now : ℕ) (stored : Option UpdateState)
    (r : Result UpdateError UpdateManifest)
    → should_notify (some (checked version now (state (dismiss v stored)) r))
      ≡ is_told version v stored r
unfolding checked
checked-is_told version v now stored (err e) = refl
checked-is_told version v now stored (ok m) = elim (Bool-cases (is_newer m.version version)) [
  | inr old ↦ rw old refl
  | inl newer ↦ elim (Bool-cases (v == m.version)) [
    | inl seen ↦ rw (newer, seen) (rw seen refl)
    | inr other ↦ rw (newer, other) refl
  ]
]
