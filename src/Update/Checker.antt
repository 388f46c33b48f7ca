-- ===== src/Update/Checker.antt =====
-- src/update/checker.ts and src/update/types.ts: the update checks. The state in the storage area is
-- passed along; `now`, the URL parser, and the answer of `fetch` are parameters.
pub mod Manifest
pub mod Rules
pub mod Notices
use fire_sync.Prelude.{
  ℕ, ◌-◌, ◌*◌, max, min, String, Bool, true, false, not, ◌&&◌, Option, none, some, List, [], ◌∷◌,
  ◌==◌, ltb, leb, if◌then◌else◌, is_some,
}
use fire_sync.Prelude.Result.{Result, ok, err, ◌>>◌, throw_if}
use fire_sync.Url.{UrlParser}
use fire_sync.Update.Version.{is_newer}
use fire_sync.Update.Checker.Manifest.{
  UpdateManifest, JsonValue, UpdateError, normalise_manifest, invalid_url, not_https,
  network_failure, bad_status, too_large, not_json,
}

pub data UpdateMode : Type 0 where
  auto manual off : UpdateMode

-- A number of hours: no finite one, a negative one, or one by what `Math.round` makes of it.
pub data Hours : Type 0 where
  not_finite negative : Hours
  rounds_to : ℕ → Hours

pub record UpdateSettings : Type 0 where
  pub mode : UpdateMode
  pub interval_hours : Hours
  pub manifest_url : String

pub record UpdateState : Type 0 where
  pub last_checked_at : Option ℕ
  pub last_error : Option UpdateError
  pub available : Option UpdateManifest
  pub dismissed_version : Option String

abbrev pub empty_update_state : UpdateState
empty_update_state = record {
  last_checked_at = none;
  last_error = none;
  available = none;
  dismissed_version = none;
}

-- `(await this.area.get(UPDATE_STATE_KEY)) ?? emptyUpdateState()`
abbrev pub state : Option UpdateState → UpdateState
state none = empty_update_state
state (some s) = s

-- The default is 24, and the bounds 1 and 24 * 14.
abbrev pub clamp_interval : Hours → ℕ
clamp_interval not_finite = 24
clamp_interval negative = min 336 (max 1 0)
clamp_interval (rounds_to hours) = min 336 (max 1 hours)

abbrev is_auto : UpdateMode → Bool
is_auto auto = true
is_auto manual = false
is_auto off = false

abbrev is_off : UpdateMode → Bool
is_off off = true
is_off auto = false
is_off manual = false

abbrev pub wait_of : UpdateSettings → UpdateState → ℕ
wait_of settings s =
    let interval = clamp_interval settings.interval_hours * 3_600_000 in
    if is_some s.last_error then min interval 3_600_000 else interval

-- On numbers that stop at 0 the difference of the clock is 0 where it runs backwards, which is no
-- more than any wait, as the wait is at least an hour.
unfoldable pub is_due : ℕ → UpdateSettings → Option UpdateState → Bool
is_due now settings stored =
    let s = state stored in
    is_auto settings.mode
    && elim s.last_checked_at [ none ↦ true | some at ↦ leb (wait_of settings s) (now - at) ]

-- What the host answers: the status, the length of the text, and the value that `JSON.parse` makes
-- of it.
pub record Answer : Type 0 where
  pub status_ok : Bool
  pub status : ℕ
  pub text_length : ℕ
  pub parsed : Option JsonValue

-- The host, at each URL; `none` is a failure of the network.
abbrev pub Host : Type 0
Host = String → Option Answer

abbrev pub dismissed_after : Option UpdateManifest → Option String → Option String
dismissed_after none previous = previous
dismissed_after (some available) none = none
dismissed_after (some available) (some dismissed) =
    if dismissed == available.version then some dismissed else none

-- The state that a fetch leads to. `now` is the clock after it.
unfoldable pub checked : String → ℕ → UpdateState → Result UpdateError UpdateManifest → UpdateState
checked current_version now previous (err e) = record previous {
  last_checked_at = some now;
  last_error = some e;
}
checked current_version now previous (ok manifest) =
    let available = if is_newer manifest.version current_version then some manifest else none in
    record {
      last_checked_at = some now;
      last_error = none;
      available = available;
      dismissed_version = dismissed_after available previous.dismissed_version;
    }

module _ (parse_url : UrlParser) where
  abbrev pub manifest_in : Option JsonValue → Result UpdateError UpdateManifest
  manifest_in none = err not_json
  manifest_in (some json) = normalise_manifest parse_url json

  abbrev pub read_answer : Option Answer → Result UpdateError UpdateManifest
  read_answer none = err network_failure
  read_answer (some a) =
      throw_if (not a.status_ok) (bad_status a.status)
      >> (throw_if (ltb 65_536 a.text_length) (too_large a.text_length) >> manifest_in a.parsed)

  -- The manifest or the error, and the URLs that were fetched.
  unfoldable pub fetch_manifest : Host → String → Result UpdateError UpdateManifest × List String
  fetch_manifest host url = elim (parse_url url) [
    | none ↦ (err invalid_url, [])
    | some parsed ↦
        if parsed.protocol == "https:"
        then (read_answer (host url), url ∷ [])
        else (err not_https, [])
  ]

  -- The stored state, the state returned, and the URLs fetched.
  unfoldable pub check :
      String
      → UpdateSettings
      → Host
      → ℕ
      → ℕ
      → Bool
      → Option UpdateState
      → Option UpdateState × UpdateState × List String
  check current_version settings host begun ended force stored =
      if is_off settings.mode
      then (stored, state stored, [])
      else if not force && not (is_due begun settings stored)
      then (stored, state stored, [])
      else let (result, fetched) = fetch_manifest host settings.manifest_url in
        let next = checked current_version ended (state stored) result in (some next, next, fetched)

abbrev pub dismiss : String → Option UpdateState → Option UpdateState
dismiss version stored = some (record (state stored) { dismissed_version = some version })

abbrev pub is_version : Option String → String → Bool
is_version none v = false
is_version (some d) v = d == v

abbrev pub should_notify : Option UpdateState → Bool
should_notify stored = elim (state stored).available [
  | none ↦ false
  | some m ↦
      if m.critical then true else not (is_version (state stored).dismissed_version m.version)
]

abbrev pub reset : Option UpdateState → Option UpdateState
reset stored = some empty_update_state
