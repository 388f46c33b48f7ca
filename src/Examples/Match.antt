-- ===== src/Examples/Match.antt =====
-- Concrete pages and credentials, by src/match.
use fire_sync.Prelude.{String, ◌≡◌, refl, inl, false, none, some, [], ◌==◌, if◌then◌else◌}
use fire_sync.Prelude.Text.{split, join}
use fire_sync.Url.{Url, UrlParser}
use fire_sync.Match.EquivalentDomains.{equivalent_domains, group_of}
use fire_sync.Match.Psl.{
  normalize_host, registrable_domain, is_ip_address, is_exception, is_listed, is_wildcard,
  is_suffix,
}
use fire_sync.Match.Psl.Registrable.{Ends, registrable_domain-suffix}
use fire_sync.Match.Uri.{MatchContext, RegExpEngine, origin_matches, parse_target}
use fire_sync.Match.Uri.Boundary.{origin_matches-downgrade, origin_matches-SameOwner, SameOwner}

abbrev url_of : String → String → String → Url
url_of protocol host origin = record {
  href = origin;
  protocol = protocol;
  hostname = host;
  origin = origin;
  pathname = "/";
  search = "";
  hash = "";
}

abbrev secure : Url
secure = url_of "https:" "www.bank.co.uk" "https://www.bank.co.uk"

abbrev login_page : Url
login_page = url_of "https:" "login.bank.co.uk" "https://login.bank.co.uk"

abbrev plain_page : Url
plain_page = url_of "http:" "www.bank.co.uk" "http://www.bank.co.uk"

abbrev three_urls : UrlParser
three_urls text =
    if text == "https://www.bank.co.uk"
    then some secure
    else if text == "https://login.bank.co.uk"
    then some login_page
    else if text == "http://www.bank.co.uk"
    then some plain_page
    else none

abbrev no_regexp : RegExpEngine
no_regexp pattern = none

abbrev default_context : MatchContext
default_context = record { strategy = none; extra_equivalent_domains = none; pattern = none }

bank_domain : registrable_domain "Login.Bank.co.uk." ≡ some "bank.co.uk"
unfolding registrable_domain normalize_host is_ip_address split join is_exception is_listed
    is_wildcard
bank_domain = refl

registrable_domain-suffix_example :
    (is_suffix "bank.co.uk" ≡ false)
    × Ends (split (normalize_host "login.bank.co.uk")) (split "bank.co.uk")
unfolding registrable_domain normalize_host is_ip_address split join is_exception is_listed
    is_wildcard
registrable_domain-suffix_example =
    registrable_domain-suffix "login.bank.co.uk" "bank.co.uk" refl refl

origin_matches-downgrade_example :
    origin_matches three_urls no_regexp "https://www.bank.co.uk" "http://www.bank.co.uk"
      default_context
    ≡ false
origin_matches-downgrade_example =
    origin_matches-downgrade three_urls no_regexp "https://www.bank.co.uk" "http://www.bank.co.uk"
      default_context secure plain_page (inl refl) refl refl refl refl

origin_matches-SameOwner_example :
    (u : Url) × (v : Url) × (three_urls "https://www.bank.co.uk" ≡ some u)
    × (three_urls "https://login.bank.co.uk" ≡ some v)
    × SameOwner [] (normalize_host u.hostname) (normalize_host v.hostname)
unfolding origin_matches parse_target equivalent_domains group_of registrable_domain normalize_host
    is_ip_address split join is_exception is_listed is_wildcard
origin_matches-SameOwner_example =
    origin_matches-SameOwner three_urls no_regexp "https://www.bank.co.uk"
      "https://login.bank.co.uk" default_context refl refl
