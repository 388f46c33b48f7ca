-- ===== src/Match/Uri/Boundary.antt =====
-- `originMatches` of src/match/uri.ts: the scheme and the owner of the page, by strategy.
use mathlib.Core.Path.{subst}
use fire_sync.Prelude.{
  String, ◌≡◌, refl, sym, ◌∙◌, ap, ◌⊎◌, inl, inr, Bool, true, false, not, ◌&&◌, Option, none, some,
  List, [], ◌==◌, or_default, Bool-cases, eq_iff,
}
use fire_sync.Url.{Url, UrlParser}
use fire_sync.Match.EquivalentDomains.Related.{Related, equivalent_domains-Related}
use fire_sync.Match.Psl.{normalize_host, registrable_domain}
use fire_sync.Match.Uri.{
  UriMatchStrategy, MatchContext, ParsedTarget, RegExpEngine, is_web, target_at, target_of,
  scheme_is_acceptable, same_host, same_domain, matches_by, matches_targets, parse_target,
  origin_matches, by_domain, by_host, by_prefix,
}

-- The strategies that look at the scheme.
abbrev pub LooksAtScheme : UriMatchStrategy → Type 0
LooksAtScheme s = (s ≡ by_domain) ⊎ (s ≡ by_host) ⊎ (s ≡ by_prefix)

and_false : (b : Bool) → b && false ≡ false
and_false true = refl
and_false false = refl

same_host-scheme :
    (stored page : ParsedTarget)
    → scheme_is_acceptable stored page ≡ false
    → same_host stored page ≡ false
same_host-scheme stored page e = rw e (and_false (stored.host == page.host))

same_domain-scheme :
    (extra : List String) (stored page : ParsedTarget) (ds dp : Option String)
    → scheme_is_acceptable stored page ≡ false
    → same_domain extra stored page ds dp ≡ false
same_domain-scheme extra stored page (some ds) (some dp) e = rw e refl
same_domain-scheme extra stored page (some ds) none e = same_host-scheme stored page e
same_domain-scheme extra stored page none dp e = same_host-scheme stored page e

matches_by-scheme :
    (regexp : RegExpEngine) (s : UriMatchStrategy) (context : MatchContext)
    (stored page : ParsedTarget)
    → LooksAtScheme s
    → scheme_is_acceptable stored page ≡ false
    → matches_by regexp s context stored page ≡ false
matches_by-scheme regexp s context stored page (inl is) e =
    rw is (same_domain-scheme _ stored page stored.domain page.domain e)
matches_by-scheme regexp s context stored page (inr (inl is)) e =
    rw is (same_host-scheme stored page e)
matches_by-scheme regexp s context stored page (inr (inr is)) e = rw is (rw e (and_false _))

matches_targets-parts :
    (regexp : RegExpEngine) (s : UriMatchStrategy) (context : MatchContext)
    (o p : Option ParsedTarget)
    → matches_targets regexp s context o p ≡ true
    → (stored : ParsedTarget) × (page : ParsedTarget) × (o ≡ some stored)
      × (p ≡ some page)
      × (matches_by regexp s context stored page ≡ true)
matches_targets-parts regexp s context none p e = cc
matches_targets-parts regexp s context (some stored) none e = cc
matches_targets-parts regexp s context (some stored) (some page) e = (stored, page, refl, refl, e)

target_of-url :
    (o : Option Url) (url : Url) (t : ParsedTarget)
    → o ≡ some url
    → target_of o ≡ some t
    → (t.url ≡ url)
      × (t.host ≡ normalize_host url.hostname)
      × (t.domain ≡ registrable_domain t.host)
target_of-url o url t is e =
    let at : target_of (some url) ≡ some t = rw is at e in
    elim (Bool-cases (not (is_web url))) [
      | inl other ↦ let it : none ≡ some t = rw other at at in cc
      | inr web ↦ elim (Bool-cases (normalize_host url.hostname == "")) [
        | inl empty ↦ let it : none ≡ some t = rw (web, empty) at at in cc
        | inr there ↦
            let it : some (target_at url) ≡ some t = rw (web, there) at at in
            let is_t : t ≡ target_at url = cc in rw is_t (refl, refl, refl)
      ]
    ]

target_of-some :
    (o : Option Url) (t : ParsedTarget) → target_of o ≡ some t → (url : Url) × (o ≡ some url)
target_of-some none t e = cc
target_of-some (some url) t e = (url, refl)

and_true : (a b : Bool) → a && b ≡ true → a ≡ true
and_true true b e = refl
and_true false b e = cc

refused :
    (stored page : ParsedTarget)
    → stored.url.protocol ≡ "https:"
    → page.url.protocol ≡ "http:"
    → scheme_is_acceptable stored page ≡ false
refused stored page https http = rw (https, http) refl

module _ (parse_url : UrlParser) (regexp : RegExpEngine) where
  -- With the strategies `domain`, which is the default, `host` and `startsWith`, a credential that was
  -- stored for an https URL is never offered on an http page.
  pub origin_matches-downgrade :
      (stored_origin page_url : String) (context : MatchContext) (u v : Url)
      → LooksAtScheme (or_default context.strategy by_domain)
      → parse_url stored_origin ≡ some u
      → parse_url page_url ≡ some v
      → u.protocol ≡ "https:"
      → v.protocol ≡ "http:"
      → origin_matches parse_url regexp stored_origin page_url context ≡ false
  unfolding origin_matches parse_target
  origin_matches-downgrade stored_origin page_url context u v looks at_u at_v https http =
      elim (Bool-cases (origin_matches parse_url regexp stored_origin page_url context)) [
        | inr no_match ↦ no_match
        | inl match ↦
            let (stored, page, is_stored, is_page, matched) =
              matches_targets-parts regexp (or_default context.strategy by_domain) context
                (target_of (parse_url stored_origin)) (target_of (parse_url page_url)) match in
            let (su, _, _) = target_of-url (parse_url stored_origin) u stored at_u is_stored in
            let (pv, _, _) = target_of-url (parse_url page_url) v page at_v is_page in
            let bad =
              refused stored page (ap (λ x. x.protocol) su ∙ https)
                (ap (λ x. x.protocol) pv ∙ http) in
            let no_match =
              matches_by-scheme regexp (or_default context.strategy by_domain) context stored page
                looks bad in
            cc
      ]

-- The hosts are one, or their registrable domains are related.
abbrev pub SameOwner : List String → String → String → Type 0
SameOwner extra host host' =
    (host ≡ host')
    ⊎ ((ds : String) × (dp : String) × (registrable_domain host ≡ some ds)
        × (registrable_domain host' ≡ some dp)
        × Related ds extra dp)

same_domain-SameOwner :
    (extra : List String) (stored page : ParsedTarget) (ds dp : Option String)
    → registrable_domain stored.host ≡ ds
    → registrable_domain page.host ≡ dp
    → same_domain extra stored page ds dp ≡ true
    → SameOwner extra stored.host page.host
same_domain-SameOwner extra stored page (some ds) (some dp) at_s at_p e =
    elim (Bool-cases (scheme_is_acceptable stored page)) [
      | inl fine ↦ inr (ds, dp, at_s, at_p, equivalent_domains-Related ds extra dp (rw fine at e))
      | inr worse ↦ let it : false ≡ true = rw worse at e in cc
    ]
same_domain-SameOwner extra stored page (some ds) none at_s at_p e =
    inl ((eq_iff stored.host page.host).0 (and_true _ _ e))
same_domain-SameOwner extra stored page none dp at_s at_p e =
    inl ((eq_iff stored.host page.host).0 (and_true _ _ e))

module _ (parse_url : UrlParser) (regexp : RegExpEngine) where
  -- With the strategy `domain`, which is the default, a credential is offered only on a page of the
  -- same host, or of a registrable domain that is the stored one, is one that the user named, or
  -- shares a group of equivalent domains with one of these. Both URLs parse.
  pub origin_matches-SameOwner :
      (stored_origin page_url : String) (context : MatchContext)
      → or_default context.strategy by_domain ≡ by_domain
      → origin_matches parse_url regexp stored_origin page_url context ≡ true
      → (u : Url) × (v : Url) × (parse_url stored_origin ≡ some u)
        × (parse_url page_url ≡ some v)
        × SameOwner
            (or_default context.extra_equivalent_domains [])
            (normalize_host u.hostname)
            (normalize_host v.hostname)
  unfolding origin_matches parse_target
  origin_matches-SameOwner stored_origin page_url context strategy match =
      let (stored, page, is_stored, is_page, matched) =
        matches_targets-parts regexp (or_default context.strategy by_domain) context
          (target_of (parse_url stored_origin)) (target_of (parse_url page_url)) match in
      let (u, at_u) = target_of-some (parse_url stored_origin) stored is_stored in
      let (v, at_v) = target_of-some (parse_url page_url) page is_page in
      let (_, hu, du) = target_of-url (parse_url stored_origin) u stored at_u is_stored in
      let (_, hv, dv) = target_of-url (parse_url page_url) v page at_v is_page in
      let by = subst (λ t. matches_by regexp t context stored page ≡ true) strategy matched in
      let owner =
        same_domain-SameOwner _ stored page stored.domain page.domain (sym du) (sym dv) by in
      (u, v, at_u, at_v, rw (sym hu, sym hv) owner)
