-- ===== src/Match/EquivalentDomains.antt =====
-- src/match/equivalent-domains.ts: the domains that share a login.
pub mod Related
use fire_sync.Prelude.{
  String, Bool, Option, none, some, List, [], ◌∷◌, ◌++◌, ◌==◌, any, if◌then◌else◌, or_default,
  flat_map,
}

abbrev pub equivalent_domain_groups : List (List String)
equivalent_domain_groups =
    ("google.com" ∷ "youtube.com" ∷ "gmail.com" ∷ "googlemail.com" ∷ "google.co.uk" ∷ [])
    ∷ ("microsoft.com" ∷ "live.com" ∷ "outlook.com" ∷ "hotmail.com" ∷ "office.com"
        ∷ "microsoftonline.com" ∷ [])
    ∷ ("apple.com" ∷ "icloud.com" ∷ [])
    ∷ ("amazon.com" ∷ "amazon.co.uk" ∷ "amazon.de" ∷ "amazon.fr" ∷ "amazon.es" ∷ "amazon.it"
        ∷ "amazon.ca" ∷ "amazon.com.au" ∷ "amazon.co.jp" ∷ [])
    ∷ ("facebook.com" ∷ "messenger.com" ∷ [])
    ∷ ("ebay.com" ∷ "ebay.co.uk" ∷ "ebay.de" ∷ "ebay.com.au" ∷ [])
    ∷ ("paypal.com" ∷ "paypal.co.uk" ∷ [])
    ∷ ("atlassian.com" ∷ "atlassian.net" ∷ "jira.com" ∷ "bitbucket.org" ∷ "trello.com" ∷ [])
    ∷ ("github.com" ∷ "githubusercontent.com" ∷ [])
    ∷ ("zoom.us" ∷ "zoom.com" ∷ [])
    ∷ ("adobe.com" ∷ "adobelogin.com" ∷ [])
    ∷ ("steampowered.com" ∷ "steamcommunity.com" ∷ [])
    ∷ ("nytimes.com" ∷ "nyt.com" ∷ [])
    ∷ []

-- `set.has(x)`
abbrev pub has : List String → String → Bool
has set x = any (λ y. y == x) set

-- `DOMAIN_TO_GROUP.get(domain) ?? []`: a later group replaces an earlier one.
abbrev pub group_in : List (List String) → String → Option (List String)
group_in [] domain = none
group_in (g ∷ gs) domain = elim (group_in gs domain) [
  | none ↦ if has g domain then some g else none
  | some later ↦ some later
]

unfoldable pub group_of : String → List String
group_of domain = or_default (group_in equivalent_domain_groups domain) []

-- The set as a list.
unfoldable pub equivalent_domains : String → List String → List String
equivalent_domains domain extra = (domain ∷ extra) ++ flat_map group_of (domain ∷ extra)
