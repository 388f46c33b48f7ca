-- ===== src/Sync/Storage/Transport.antt =====
-- `noteResponseMetadata` and `request` of src/sync15/storage.ts. The server is a parameter: it answers
-- from all the requests so far, the present one last; `none` is a failure of the network. Signing
-- (`hawkHeader`) and the text of headers and bodies are left out: a header is the number it reads as.
use fire_sync.Prelude.{
  ℕ, ◌+◌, ◌*◌, ◌<◌, ◌≤◌, max, String, ◌≡◌, refl, sym, ◌∙◌, ap, ◌⊎◌, inl, inr, Bool, true, false,
  not, ◌&&◌, ◌||◌, Option, none, some, List, [], ◌∷◌, arith, ltb, leb, eqb, if◌then◌else◌, lt→ltb,
  All, All-map, Bool-cases, Option-cases,
}
use mathlib.Core.Path.{subst}
use fire_sync.Prelude.Dict
use fire_sync.Prelude.Dict.{Dict}
use fire_sync.Prelude.Result.{Result, ok, err}
use fire_sync.Sync.Storage.{StorageError, storage_error, conflict_error, auth_error, network_error}
use fire_sync.Sync.Storage.Chunks.{push}

-- The text of a header by what `Number` makes of it; numbers are hundredths of a second, and no
-- server sends a negative one.
pub data HeaderText : Type 0 where
  blank not_a_number : HeaderText
  number : ℕ → HeaderText

-- `backoff` is the header `x-backoff`.
pub record Response : Type 0 where
  pub status : ℕ
  pub weave_timestamp : Option HeaderText
  pub weave_backoff : Option HeaderText
  pub backoff : Option HeaderText
  pub retry_after : Option HeaderText
  pub last_modified : Option HeaderText
  pub next_offset : Option String

-- `clockOffsetSec` is the server's time less the local time at which it was read.
pub record ClockOffset : Type 0 where
  pub server_time : ℕ
  pub local_ms : ℕ

pub record ClientState : Type 0 where
  pub backoff_until : ℕ
  pub clock_offset : Option ClockOffset
  pub last_modified : Dict ℕ

pub record Request : Type 0 where
  pub method : String
  pub path : String
  pub unmodified_since : Option ℕ
  pub collection : Option String
  pub ignore_backoff : Bool

abbrev pub Fetch : Type 0
Fetch = List Request → Option Response

-- A header that is there, not empty, and a number. (A 412 whose header is no number carries `NaN`,
-- and `none` here; nothing reads it.)
abbrev pub valid_number : Option HeaderText → Option ℕ
valid_number (some (number n)) = some n
valid_number _ = none

abbrev pub first_header : Option HeaderText → Option HeaderText → Option HeaderText
first_header none h = h
first_header (some t) h = some t

-- The header that asks the client to stay away, with `??` between the three.
abbrev pub backoff_header : Response → Option HeaderText
backoff_header r =
    first_header r.weave_backoff (
      first_header r.backoff (if eqb r.status 503 || eqb r.status 429 then r.retry_after else none))

abbrev pub note_timestamp : ℕ → Response → ClientState → ClientState
note_timestamp now r s = elim (valid_number r.weave_timestamp) [
  | none ↦ s
  | some t ↦ record s { clock_offset = some (record { server_time = t; local_ms = now }) }
]

-- `Math.max(this.backoffUntil, Date.now() + seconds * 1000)`
abbrev pub note_backoff : ℕ → Response → ClientState → ClientState
note_backoff now r s = elim (valid_number (backoff_header r)) [
  | none ↦ s
  | some n ↦ if ltb 0 n then record s { backoff_until = max s.backoff_until (now + n * 10) } else s
]

abbrev pub note_modified : Option String → Response → ClientState → ClientState
note_modified none r s = s
note_modified (some collection) r s = elim (valid_number r.last_modified) [
  | none ↦ s
  | some t ↦ record s { last_modified = Dict.put collection t s.last_modified }
]

unfoldable pub note_response_metadata : ℕ → Response → Option String → ClientState → ClientState
note_response_metadata now r collection s =
    note_modified collection r (note_backoff now r (note_timestamp now r s))

-- `response.ok`
abbrev pub is_success : ℕ → Bool
is_success status = leb 200 status && ltb status 300

abbrev pub checked : Response → Result StorageError Response
checked r =
    if eqb r.status 401
    then err auth_error
    else if eqb r.status 412
    then err (conflict_error (valid_number r.last_modified))
    else if not (is_success r.status)
    then err (storage_error r.status)
    else ok r

-- The part after `fetch`.
abbrev pub received :
    ℕ
    → Request
    → ClientState
    → List Request
    → Option Response
    → Result StorageError Response × ClientState × List Request
received now q s log none = (err network_error, s, log)
received now q s log (some r) = (checked r, note_response_metadata now r q.collection s, log)

-- A request of a sequence, with the clock before and after it.
pub record Timed : Type 0 where
  pub begun : ℕ
  pub ended : ℕ
  pub call : Request

module _ (fetch : Fetch) where
  -- `begun` and `ended` are the clock before and after the exchange.
  unfoldable pub request :
      ℕ
      → ℕ
      → Request
      → ClientState
      → List Request
      → Result StorageError Response × ClientState × List Request
  request begun ended q s log =
      if not q.ignore_backoff && ltb begun s.backoff_until
      then (err (storage_error 503), s, log)
      else received ended q s (push log q) (fetch (push log q))

  unfoldable pub requests : List Timed → ClientState → List Request → ClientState × List Request
  requests [] s log = (s, log)
  requests (t ∷ ts) s log =
      let (_, s', log') = request t.begun t.ended t.call s log in requests ts s' log'

-- The time until which a response asks the client to stay away; 0 if it does not.
abbrev pub stay_away : ℕ → Response → ℕ
stay_away now r = elim (valid_number (backoff_header r)) [
  | none ↦ 0
  | some n ↦ if ltb 0 n then now + n * 10 else 0
]

note-backoff :
    (now : ℕ) (r : Response) (collection : Option String) (s : ClientState)
    → (note_response_metadata now r collection s).backoff_until
      ≡ max s.backoff_until (stay_away now r)
unfolding note_response_metadata
note-backoff now r none s = ground arith
note-backoff now r (some c) s = ground arith

-- A request that may not go out yet.
abbrev pub IsEarly : ℕ → Timed → Type 0
IsEarly until t = (t.call.ignore_backoff ≡ false) × (t.begun < until)

max-left : (a b c : ℕ) → c ≡ max a b → a ≤ c
max-left a b c e = omega arith

below : {a b c : ℕ} → a ≡ b → a ≤ c → b ≤ c
below e h = rw e at h

max-right : (a b c : ℕ) → c ≡ max a b → b ≤ c
max-right a b c e = omega arith

IsEarly-later :
    (until until' : ℕ) (ts : List Timed)
    → until ≤ until'
    → All (IsEarly until) ts
    → All (IsEarly until') ts
IsEarly-later until until' ts h early =
    All-map (IsEarly until) (IsEarly until') (λ t k. (k.0, omega arith)) ts early

-- An answer that asks the client to stay away for `n` hundredths of a second: the first that is there of
-- X-Weave-Backoff, X-Backoff and, of a 503 or a 429 only, Retry-After.
abbrev pub Asks : Response → ℕ → Type 0
Asks r n =
    (r.weave_backoff ≡ some (number n))
    ⊎ ((r.weave_backoff ≡ none) × (r.backoff ≡ some (number n)))
    ⊎ ((r.weave_backoff ≡ none)
        × (r.backoff ≡ none)
        × ((r.status ≡ 503) ⊎ (r.status ≡ 429))
        × (r.retry_after ≡ some (number n)))

away_from :
    (now n : ℕ) (r : Response)
    → backoff_header r ≡ some (number n)
    → 0 < n
    → stay_away now r ≡ now + n * 10
away_from now n r e some_time =
    subst
      (λ h.
        (elim (valid_number h) [ none ↦ 0 | some m ↦ if ltb 0 m then now + m * 10 else 0 ])
        ≡ now + n * 10)
      (sym e) (rw (lt→ltb 0 n some_time) refl)

Asks-stay_away : (now n : ℕ) (r : Response) → Asks r n → 0 < n → stay_away now r ≡ now + n * 10
Asks-stay_away now n r (inl weave) some_time = away_from now n r (rw weave refl) some_time
Asks-stay_away now n r (inr (inl (no_weave, own))) some_time =
    away_from now n r (rw (no_weave, own) refl) some_time
Asks-stay_away now n r (inr (inr (no_weave, no_own, inl busy, retry))) some_time =
    away_from now n r (rw (no_weave, no_own, busy, retry) refl) some_time
Asks-stay_away now n r (inr (inr (no_weave, no_own, inr busy, retry))) some_time =
    away_from now n r (rw (no_weave, no_own, busy, retry) refl) some_time

module _ (fetch : Fetch) where
  requests-early :
      (ts : List Timed) (s : ClientState) (log : List Request)
      → All (IsEarly s.backoff_until) ts
      → requests fetch ts s log ≡ (s, log)
  unfolding requests request
  requests-early [] s log h = refl
  requests-early (t ∷ ts) s log ((waits, early), h) =
      rw (waits, lt→ltb _ _ early) (requests-early ts s log h)

  -- Once a response has asked the client to stay away, by X-Weave-Backoff or X-Backoff, or as a 503 or a
  -- 429 by Retry-After, no request that heeds this leaves it before that time, however many are tried; and
  -- no such response shortens a wait that is in force.
  pub request-backoff :
      (begun ended : ℕ) (q : Request) (s s' : ClientState) (log log' : List Request) (r : Response)
      (result : Result StorageError Response) (ts : List Timed) (n : ℕ)
      → ((q.ignore_backoff ≡ true) ⊎ (s.backoff_until ≤ begun))
      → fetch (push log q) ≡ some r
      → request fetch begun ended q s log ≡ (result, s', log')
      → Asks r n
      → 0 < n
      → All (IsEarly (ended + n * 10)) ts
      → (requests fetch ts s' log' ≡ (s', log'))
        × (log' ≡ push log q)
        × (s.backoff_until ≤ s'.backoff_until)
  unfolding request
  request-backoff begun ended q s s' log log' r result ts n free answer run asks some_time early =
      let away = Asks-stay_away ended n r asks some_time in
      let go : not q.ignore_backoff && ltb begun s.backoff_until ≡ false = ground arith in
      let ran : (result, s', log')
          ≡ (checked r, note_response_metadata ended r q.collection s, push log q) =
        sym run ∙ rw (go, answer, received) refl in
      let state : s' ≡ note_response_metadata ended r q.collection s = ap (λ t. t.1) ran in
      let until : s'.backoff_until ≡ max s.backoff_until (stay_away ended r) =
        rw state (note-backoff ended r q.collection s) in
      (
        requests-early ts s' log' (
            IsEarly-later (ended + n * 10) s'.backoff_until ts
              (below away (max-right s.backoff_until (stay_away ended r) _ until)) early),
        ap (λ t. t.2) ran,
        max-left _ _ _ until,
      )

-- What the status of a response makes of it.
abbrev pub Outcome : Response → Result StorageError Response → Type 0
Outcome r result =
    ((result ≡ ok r) × (200 ≤ r.status) × (r.status < 300))
    ⊎ ((result ≡ err auth_error) × (r.status ≡ 401))
    ⊎ ((result ≡ err (conflict_error (valid_number r.last_modified))) × (r.status ≡ 412))
    ⊎ ((result ≡ err (storage_error r.status)) × ((r.status < 200) ⊎ (300 ≤ r.status)))

checked-Outcome : (r : Response) → Outcome r (checked r)
checked-Outcome r = ground arith

module _ (fetch : Fetch) where
  -- A request returns a response only for a status from 200 to 299; a 401 and a 412 are told apart from
  -- the other failures; within a backoff the error is a 503 and nothing is sent.
  request-Outcome :
      (begun ended : ℕ) (q : Request) (s : ClientState) (log : List Request)
      → ((q.ignore_backoff ≡ false)
          × (begun < s.backoff_until)
          × (request fetch begun ended q s log ≡ (err (storage_error 503), s, log)))
        ⊎ (((request fetch begun ended q s log).2 ≡ push log q)
            × (((fetch (push log q) ≡ none)
                  × ((request fetch begun ended q s log).0 ≡ err network_error))
                ⊎ ((r : Response) × (fetch (push log q) ≡ some r)
                    × Outcome r (request fetch begun ended q s log).0)))
  unfolding request
  request-Outcome begun ended q s log =
      elim (Bool-cases (not q.ignore_backoff && ltb begun s.backoff_until)) [
        | inl early ↦ inl (ground arith, ground arith, rw early refl)
        | inr free ↦ elim (Option-cases (fetch (push log q))) [
          | inl lost ↦
              inr (rw (free, lost, received) refl, inl (lost, rw (free, lost, received) refl))
          | inr (r, answer) ↦ inr (
            rw (free, answer, received) refl,
            inr (r, answer, rw (free, answer, received) (checked-Outcome r)),
          )
        ]
      ]
