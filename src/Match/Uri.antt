-- ===== src/Match/Uri.antt =====
-- src/match/uri.ts: which page a stored credential may be offered on. The URL parser and the engine
-- of regular expressions are parameters.
pub mod Boundary
use text.Mathlib.Text.{starts_with}
use fire_sync.Prelude.{
  ℕ, ◌+◌, String, Bool, true, false, not, ◌&&◌, ◌||◌, Option, none, some, List, [], ◌==◌,
  if◌then◌else◌, or_default,
}
use fire_sync.Prelude.Text.{without_last}
use fire_sync.Url.{Url, UrlParser}
use fire_sync.Match.EquivalentDomains.{has, equivalent_domains}
use fire_sync.Match.Psl.{normalize_host, registrable_domain}

-- `domain` is the default, so a missing strategy is `by_domain` too.
pub data UriMatchStrategy : Type 0 where
  by_domain by_host by_prefix exact by_regex never : UriMatchStrategy

pub record MatchContext : Type 0 where
  pub strategy : Option UriMatchStrategy
  pub extra_equivalent_domains : Option (List String)
  pub pattern : Option String

pub record ParsedTarget : Type 0 where
  pub url : Url
  pub host : String
  pub domain : Option String
  pub origin : String

-- `new RegExp(pattern)`, `none` where it throws, and its `test`.
abbrev pub RegExpEngine : Type 0
RegExpEngine = String → Option (String → Bool)

abbrev pub is_web : Url → Bool
is_web url = url.protocol == "https:" || url.protocol == "http:"

abbrev pub target_at : Url → ParsedTarget
target_at url =
    let host = normalize_host url.hostname in
    record { url = url; host = host; domain = registrable_domain host; origin = url.origin }

abbrev pub target_of : Option Url → Option ParsedTarget
target_of none = none
target_of (some url) =
    let host = normalize_host url.hostname in
    if not (is_web url) then none else if host == "" then none else some (target_at url)

abbrev pub scheme_is_acceptable : ParsedTarget → ParsedTarget → Bool
scheme_is_acceptable stored page =
    not (stored.url.protocol == "https:" && page.url.protocol == "http:")

abbrev pub same_host : ParsedTarget → ParsedTarget → Bool
same_host stored page = stored.host == page.host && scheme_is_acceptable stored page

abbrev pub same_domain :
    List String → ParsedTarget → ParsedTarget → Option String → Option String → Bool
same_domain extra stored page (some ds) (some dp) =
    if not (scheme_is_acceptable stored page) then false else has (equivalent_domains ds extra) dp
same_domain extra stored page (some ds) none = same_host stored page
same_domain extra stored page none dp = same_host stored page

module _ (regexp : RegExpEngine) where
  abbrev pub regex_matches : Option String → ParsedTarget → Bool
  regex_matches none page = false
  regex_matches (some pattern) page =
      if pattern == ""
      then false
      else elim (regexp pattern) [ none ↦ false | some test ↦ test page.url.href ]

  -- The `switch`.
  abbrev pub matches_by : UriMatchStrategy → MatchContext → ParsedTarget → ParsedTarget → Bool
  matches_by never context stored page = false
  matches_by exact context stored page =
      without_last b'/' stored.url.href == without_last b'/' page.url.href
  matches_by by_host context stored page = same_host stored page
  matches_by by_prefix context stored page =
      starts_with page.url.href (without_last b'/' stored.url.href)
      && scheme_is_acceptable stored page
  matches_by by_regex context stored page = regex_matches context.pattern page
  matches_by by_domain context stored page =
      same_domain (or_default context.extra_equivalent_domains []) stored page stored.domain
        page.domain

  abbrev pub matches_targets :
      UriMatchStrategy → MatchContext → Option ParsedTarget → Option ParsedTarget → Bool
  matches_targets strategy context none page = false
  matches_targets strategy context (some stored) none = false
  matches_targets strategy context (some stored) (some page) =
      matches_by strategy context stored page

abbrev same : Option String → Option String → Bool
same (some a) (some b) = a == b
same _ _ = false

abbrev points : Bool → ℕ → ℕ
points b n = if b then n else 0

abbrev pub score_of : Option ParsedTarget → Option ParsedTarget → ℕ
score_of none page = 0
score_of (some stored) none = 0
score_of (some stored) (some page) =
    points (same stored.domain page.domain) 10
    + points (stored.host == page.host) 20
    + points (stored.origin == page.origin) 30
    + points (stored.url.protocol == page.url.protocol) 5

module _ (parse_url : UrlParser) where
  unfoldable pub parse_target : String → Option ParsedTarget
  parse_target input = target_of (parse_url input)

  unfoldable pub match_score : String → String → ℕ
  match_score stored_origin page_url = score_of (parse_target stored_origin) (parse_target page_url)

  unfoldable pub origin_for_storage : String → Option String
  origin_for_storage page_url = elim (parse_target page_url) [
    | none ↦ none
    | some target ↦ some target.origin
  ]

  unfoldable pub origin_matches : RegExpEngine → String → String → MatchContext → Bool
  origin_matches regexp stored_origin page_url context =
      matches_targets regexp (or_default context.strategy by_domain) context
        (parse_target stored_origin) (parse_target page_url)
