-- ===== src/Examples/SignIn.antt =====
-- A concrete sign-in, by src/background/signin.ts.
use fire_sync.Prelude.{◌<◌, ◌≤◌, ◌≡◌, refl, none, some, [], ◌∷◌, ◌==◌, All, length}
use fire_sync.Prelude.Result.{ok}
use fire_sync.Url.{UrlParser}
use fire_sync.Background.SignIn.{
  StoredPending, SignInResult, Coordinator, Flow, fresh, begin, handle_navigation,
  complete_exchange, redact, Reachable, at_start, after, begins, navigates, exchanges,
}
use fire_sync.Background.SignIn.Claims.{NoRepeat, Reachable-once}

abbrev no_urls : UrlParser
no_urls text = none

abbrev one_redirect : Flow
one_redirect = record {
  matches = λ url pending. ok (url == "https://mozilla.org/success?code=1&state=s");
  encode = λ text. text;
}

abbrev begun : Coordinator
begun = begin "s" (some 3) 100 fresh

abbrev claimed : Coordinator
claimed =
    handle_navigation no_urls one_redirect 3 (some "https://mozilla.org/success?code=1&state=s") 200
      begun

abbrev signed_in : Coordinator
signed_in = complete_exchange 300 (ok "ada@mozilla.org") claimed

one_redeemed : signed_in.redeemed ≡ 0 ∷ []
unfolding begin handle_navigation complete_exchange redact
one_redeemed = refl

signed_in-Reachable : Reachable no_urls one_redirect signed_in
unfolding begin
signed_in-Reachable =
    after
      (after (after at_start (begins "s" (some 3) 100))
        (navigates 3 (some "https://mozilla.org/success?code=1&state=s") 200 refl))
      (exchanges 300 (ok "ada@mozilla.org"))

Reachable-once_example :
    NoRepeat signed_in.redeemed
    × All (λ r. r < signed_in.begun) signed_in.redeemed
    × ((p : StoredPending) → signed_in.pending ≡ some p → length p.trail ≤ 12)
    × ((r : SignInResult) → signed_in.last_result ≡ some r → length r.trail ≤ 12)
Reachable-once_example = Reachable-once no_urls one_redirect signed_in signed_in-Reachable
