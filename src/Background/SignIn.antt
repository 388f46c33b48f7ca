-- ===== src/Background/SignIn.antt =====
-- src/background/signin.ts: the coordinator of the hosted sign-in. A navigation is handled up to the
-- exchange of the code, which ends in a step of its own: other calls may come between the two. The
-- queue keeps further navigations back until then.
pub mod Claims
use text.Mathlib.Text.{find?}
use Prim.Native.String.{◌++◌ as ◌<>◌}
use fire_sync.Prelude.{
  ℕ, suc, ◌-◌, ◌≡◌, String, Bool, true, false, not, ◌&&◌, ◌||◌, Option, none, some, List, [], ◌∷◌,
  ◌++◌, ◌==◌, ltb, eqb, if◌then◌else◌, length, drop, is_some,
}
use fire_sync.Prelude.Result.{Result, ok, err}
use fire_sync.Url.{Url, UrlParser}

-- `flow_id` counts the sign-ins begun: each has a code verifier and a state text of its own.
pub record StoredPending : Type 0 where
  pub flow_id : ℕ
  pub state_text : String
  pub started_at : ℕ
  pub tab_id : Option ℕ
  pub trail : List String

pub data Status : Type 0 where
  complete error_status cancelled : Status

-- The version of the build, which `finish` adds, is left out.
pub record SignInResult : Type 0 where
  pub status : Status
  pub at : ℕ
  pub email : Option String
  pub message : Option String
  pub trail : List String
  pub no_sync_key : Bool

-- Session and local storage, the exchange in flight if there is one, and a log of the exchanges that
-- were started, by their flow.
pub record Coordinator : Type 0 where
  pub pending : Option StoredPending
  pub last_result : Option SignInResult
  pub exchanging : Option StoredPending
  pub begun : ℕ
  pub redeemed : List ℕ

-- The sign-in flow: whether a URL is the redirect of a pending flow, which may throw, and
-- `encodeURIComponent`.
pub record Flow : Type 0 where
  pub matches : String → StoredPending → Result String Bool
  pub encode : String → String

-- What the exchange comes to: an account, by its address, or an error.
pub record ExchangeError : Type 0 where
  pub message : String
  pub is_no_sync_key : Bool

abbrev pub failed : Status → ℕ → String → List String → SignInResult
failed status at message trail = record {
  status = status;
  at = at;
  email = none;
  message = some message;
  trail = trail;
  no_sync_key = false;
}

abbrev pub finish : SignInResult → Coordinator → Coordinator
finish result s = record s { pending = none; last_result = some result }

-- `slice(-TRAIL_LIMIT)`
abbrev pub last_twelve : List String → List String
last_twelve trail = drop (length trail - 12) trail

abbrev pub ends_with : List String → String → Bool
ends_with [] step = false
ends_with (x ∷ []) step = x == step
ends_with (x ∷ (y ∷ trail)) step = ends_with (y ∷ trail) step

abbrev pub with_step : String → StoredPending → StoredPending
with_step step p =
    if ends_with p.trail step then p else record p { trail = last_twelve (p.trail ++ step ∷ []) }

abbrev pub is_other_tab : Option ℕ → ℕ → Bool
is_other_tab none tab = false
is_other_tab (some own) tab = not (eqb tab own)

unfoldable pub begin : String → Option ℕ → ℕ → Coordinator → Coordinator
begin state_text tab now s = record s {
  pending = some (record {
    flow_id = s.begun;
    state_text = state_text;
    started_at = now;
    tab_id = tab;
    trail = [];
  });
  last_result = none;
  begun = suc s.begun;
}

abbrev pub cancel_pending : String → ℕ → Coordinator → Option StoredPending → Coordinator
cancel_pending reason now s none = s
cancel_pending reason now s (some p) = finish (failed cancelled now reason p.trail) s

unfoldable pub cancel : String → ℕ → Coordinator → Coordinator
cancel reason now s = cancel_pending reason now s s.pending

-- `pending.tabId !== tabId`
abbrev pub owns_tab : Option ℕ → ℕ → Bool
owns_tab none tab = false
owns_tab (some own) tab = eqb own tab

abbrev pub close_pending : ℕ → ℕ → Coordinator → Option StoredPending → Coordinator
close_pending tab now s none = s
close_pending tab now s (some p) =
    if not (owns_tab p.tab_id tab)
    then s
    else finish (failed cancelled now "the sign-in tab was closed before it finished" p.trail) s

unfoldable pub on_tab_closed : ℕ → ℕ → Coordinator → Coordinator
on_tab_closed tab now s = close_pending tab now s s.pending

module _ (parse_url : UrlParser) (flow : Flow) where
  unfoldable pub redact : String → String
  redact url = elim (parse_url url) [
    | none ↦ "(unparseable)"
    | some parsed ↦ parsed.origin <> parsed.pathname
  ]

  abbrev pub looks_like_our_redirect : String → StoredPending → Bool
  looks_like_our_redirect url p =
      is_some (find? url (flow.encode p.state_text)) || is_some (find? url p.state_text)

  -- What follows the entry in the trail, by what `matches` comes to. An age of more than an hour
  -- ends a flow only where the URL is not its redirect.
  abbrev pub decided : ℕ → StoredPending → Coordinator → Result String Bool → Coordinator
  decided now p s (err message) = finish (failed error_status now message p.trail) s
  decided now p s (ok false) =
      if ltb 3_600_000 (now - p.started_at)
      then finish (failed error_status now "sign-in took too long and was abandoned" p.trail) s
      else s
  decided now p s (ok true) = record s {
    pending = none;
    exchanging = some p;
    redeemed = p.flow_id ∷ s.redeemed;
  }

  abbrev pub handle_pending : ℕ → String → ℕ → StoredPending → Coordinator → Coordinator
  handle_pending tab url now p s =
      if is_other_tab p.tab_id tab && not (looks_like_our_redirect url p)
      then s
      else (let p' = with_step (redact url) p in
          decided now p' (record s { pending = some p' }) (flow.matches url p'))

  abbrev pub handle_any : ℕ → String → ℕ → Coordinator → Option StoredPending → Coordinator
  handle_any tab url now s none = s
  handle_any tab url now s (some p) = handle_pending tab url now p s

  unfoldable pub handle_navigation : ℕ → Option String → ℕ → Coordinator → Coordinator
  handle_navigation tab none now s = s
  handle_navigation tab (some url) now s =
      if url == "" then s else handle_any tab url now s s.pending

-- The end of the exchange.
abbrev pub finished : ℕ → StoredPending → Result ExchangeError String → SignInResult
finished now p (ok email) = record {
  status = complete;
  at = now;
  email = some email;
  message = none;
  trail = p.trail;
  no_sync_key = false;
}
finished now p (err e) = record {
  status = error_status;
  at = now;
  email = none;
  message = some e.message;
  trail = p.trail;
  no_sync_key = e.is_no_sync_key;
}

abbrev pub end_exchange :
    ℕ → Result ExchangeError String → Coordinator → Option StoredPending → Coordinator
end_exchange now outcome s none = s
end_exchange now outcome s (some p) =
    finish (finished now p outcome) (record s { exchanging = none })

unfoldable pub complete_exchange : ℕ → Result ExchangeError String → Coordinator → Coordinator
complete_exchange now outcome s = end_exchange now outcome s s.exchanging

-- The worker is torn down and starts again: what is in memory is gone, what is in storage stays.
abbrev pub restart : Coordinator → Coordinator
restart s = record s { exchanging = none }

abbrev pub fresh : Coordinator
fresh = record { pending = none; last_result = none; exchanging = none; begun = 0; redeemed = [] }

-- The steps of a worker. A navigation is handled when no exchange is in flight.
pub data Step (parse_url : UrlParser) (flow : Flow) : Coordinator → Coordinator → Type 0 where
  begins :
      {s : Coordinator} (state_text : String) (tab : Option ℕ) (now : ℕ)
      → Step parse_url flow s (begin state_text tab now s)
  cancels :
      {s : Coordinator} (reason : String) (now : ℕ) → Step parse_url flow s (cancel reason now s)
  closes_tab : {s : Coordinator} (tab now : ℕ) → Step parse_url flow s (on_tab_closed tab now s)
  navigates :
      {s : Coordinator} (tab : ℕ) (url : Option String) (now : ℕ)
      → s.exchanging ≡ none
      → Step parse_url flow s (handle_navigation parse_url flow tab url now s)
  exchanges :
      {s : Coordinator} (now : ℕ) (outcome : Result ExchangeError String)
      → Step parse_url flow s (complete_exchange now outcome s)
  restarts : {s : Coordinator} → Step parse_url flow s (restart s)

pub data Reachable (parse_url : UrlParser) (flow : Flow) : Coordinator → Type 0 where
  at_start : Reachable parse_url flow fresh
  after :
      {s s' : Coordinator}
      → Reachable parse_url flow s
      → Step parse_url flow s s'
      → Reachable parse_url flow s'
