-- ===== src/Update/Checker/Rules.antt =====
-- When a check goes out.
use mathlib.Core.Path.{subst}
use fire_sync.Prelude.{
  ℕ, ◌+◌, ◌-◌, ◌<◌, ◌≤◌, String, ◌≡◌, refl, sym, ap, ◌∙◌, ◌≢◌, ◌⊎◌, inl, inr, Bool, true, false,
  not, ◌&&◌, Option, some, List, [], ◌∷◌, arith, ◌==◌, leb, Bool-cases, Option-cases, eq_iff,
  is_some,
}
use fire_sync.Prelude.Result.{Result, ok, err}
use fire_sync.Url.{Url, UrlParser}
use fire_sync.Update.Checker.{
  UpdateMode, auto, off, manual, Hours, not_finite, negative, rounds_to, UpdateSettings,
  UpdateState, Host, state, is_auto, is_off, is_due, clamp_interval, wait_of, fetch_manifest,
  checked, check,
}
use fire_sync.Update.Checker.Manifest.{UpdateManifest, UpdateError}

is_off-off : (mode : UpdateMode) → is_off mode ≡ true → mode ≡ off
is_off-off off e = refl
is_off-off auto e = cc
is_off-off manual e = cc

off-is_off : (mode : UpdateMode) → is_off mode ≡ false → mode ≢ off
off-is_off mode e is = let it : true ≡ false = subst (λ m. is_off m ≡ false) is e in cc

one_of : (a b : Bool) → not a && not b ≡ false → (a ≡ true) ⊎ (b ≡ true)
one_of true b e = inl refl
one_of false true e = inr refl
one_of false false e = cc

is_https : (url : Url) → url.protocol == "https:" ≡ true → url.protocol ≡ "https:"
is_https url e = (eq_iff url.protocol "https:").0 e

module _ (parse_url : UrlParser) where
  -- The rules that a fetch has kept.
  abbrev pub MayFetch : UpdateSettings → ℕ → Bool → Option UpdateState → Type 0
  MayFetch settings now force stored =
      (settings.mode ≢ off)
      × ((force ≡ true) ⊎ (is_due now settings stored ≡ true))
      × ((url : Url) × (parse_url settings.manifest_url ≡ some url) × (url.protocol ≡ "https:"))

  fetch_manifest-https :
      (host : Host) (text : String)
      → ((fetch_manifest parse_url host text).1 ≡ [])
        ⊎ (((fetch_manifest parse_url host text).1 ≡ text ∷ [])
            × ((url : Url) × (parse_url text ≡ some url) × (url.protocol ≡ "https:")))
  unfolding fetch_manifest
  fetch_manifest-https host text = elim (Option-cases (parse_url text)) [
    | inl bad ↦ rw (bad, fetch_manifest) (inl refl)
    | inr (url, parsed) ↦ elim (Bool-cases (url.protocol == "https:")) [
      | inl https ↦ rw (parsed, https, fetch_manifest) (inr (refl, (url, refl, is_https url https)))
      | inr plain ↦ rw (parsed, plain, fetch_manifest) (inl refl)
    ]
  ]

module _ (parse_url : UrlParser) (version : String) where
  -- A check fetches nothing or the configured URL, once, and that only if it is an https URL, updates
  -- are not off, and the user asked or an automatic check is due. With updates off nothing changes,
  -- even where the user asks.
  pub check-MayFetch :
      (settings : UpdateSettings) (host : Host) (begun ended : ℕ) (force : Bool)
      (stored : Option UpdateState)
      → (((check parse_url version settings host begun ended force stored).2 ≡ [])
          ⊎ (((check parse_url version settings host begun ended force stored).2
                ≡ settings.manifest_url ∷ [])
              × MayFetch parse_url settings begun force stored))
        × (settings.mode ≡ off
            → check parse_url version settings host begun ended force stored
              ≡ (stored, state stored, []))
  unfolding check
  check-MayFetch settings host begun ended force stored = elim (Bool-cases (is_off settings.mode)) [
    | inl is_off' ↦ rw (is_off', check) (inl refl, λ e. refl)
    | inr on ↦
        let never : settings.mode ≢ off = off-is_off settings.mode on in
        elim (Bool-cases (not force && not (is_due begun settings stored))) [
          | inl wait ↦ rw (on, wait, check) (inl refl, λ e. absurd (never e))
          | inr go ↦
              let asked = one_of force (is_due begun settings stored) go in
              elim (fetch_manifest-https parse_url host settings.manifest_url) [
                | inl nothing ↦ rw (on, go, check) (inl nothing, λ e. absurd (never e))
                | inr (one, https) ↦
                    rw (on, go, check) (inr (one, (never, asked, https)), λ e. absurd (never e))
              ]
        ]
  ]

clamp_interval-bounds : (h : Hours) → (1 ≤ clamp_interval h) × (clamp_interval h ≤ 336)
clamp_interval-bounds not_finite = (omega arith, omega arith)
clamp_interval-bounds negative = (omega arith, omega arith)
clamp_interval-bounds (rounds_to n) = (omega arith, omega arith)

wait_of-bounds :
    (settings : UpdateSettings) (s : UpdateState)
    → (3_600_000 ≤ wait_of settings s) × (wait_of settings s ≤ 1_209_600_000)
wait_of-bounds settings s =
    let (least, most) = clamp_interval-bounds settings.interval_hours in
    elim (Bool-cases (is_some s.last_error)) [
      | inl failed ↦ rw failed (omega arith, omega arith)
      | inr fine ↦ rw fine (omega arith, omega arith)
    ]

checked-time :
    (version : String) (now : ℕ) (s : UpdateState) (r : Result UpdateError UpdateManifest)
    → (checked version now s r).last_checked_at ≡ some now
unfolding checked
checked-time version now s (ok m) = refl
checked-time version now s (err e) = refl

is_false : (b : Bool) → b && false ≡ false
is_false true = refl
is_false false = refl

is_due-early :
    (now at : ℕ) (settings : UpdateSettings) (s : UpdateState)
    → s.last_checked_at ≡ some at
    → now < at + 3_600_000
    → is_due now settings (some s) ≡ false
unfolding is_due
is_due-early now at settings s e early =
    let (least, most) = wait_of-bounds settings s in
    let wait : leb (wait_of settings s) (now - at) ≡ false = ground arith in
    rw (e, wait) (is_false (is_auto settings.mode))

module _ (parse_url : UrlParser) (version : String) where
  -- After a check that fetched, whether it failed or not, an automatic check fetches nothing for
  -- an hour at least and changes nothing, whatever the settings have become.
  pub check-rests :
      (settings settings' : UpdateSettings) (host host' : Host) (begun ended begun' ended' : ℕ)
      (force : Bool) (stored after : Option UpdateState) (shown : UpdateState)
      (fetched : List String)
      → check parse_url version settings host begun ended force stored ≡ (after, shown, fetched)
      → fetched ≢ []
      → begun' < ended + 3_600_000
      → check parse_url version settings' host' begun' ended' false after ≡ (after, shown, [])
  unfolding check
  check-rests settings settings' host host' begun ended begun' ended' force stored after shown
        fetched run some_fetched early =
      let next =
        checked version ended (state stored)
          (fetch_manifest parse_url host settings.manifest_url).0 in
      elim (Bool-cases (is_off settings.mode)) [
        | inl off' ↦
            let it : (stored, state stored, []) ≡ (after, shown, fetched) = rw off' at run in
            absurd (some_fetched (sym (ap (λ t. t.2) it)))
        | inr on ↦ elim (Bool-cases (not force && not (is_due begun settings stored))) [
          | inl wait ↦
              let it : (stored, state stored, []) ≡ (after, shown, fetched) =
                rw (on, wait) at run in
              absurd (some_fetched (sym (ap (λ t. t.2) it)))
          | inr go ↦
              let it : (some next, next, (fetch_manifest parse_url host settings.manifest_url).1)
                  ≡ (after, shown, fetched) =
                rw (on, go) at run in
              let kept : after ≡ some shown = sym (ap (λ t. t.0) it) ∙ ap (λ t. some t.1) it in
              let time : shown.last_checked_at ≡ some ended =
                sym (ap (λ t. t.1.last_checked_at) it)
                ∙ checked-time version ended (state stored) _ in
              let rest : is_due begun' settings' (some shown) ≡ false =
                is_due-early begun' ended settings' shown time early in
              rw kept (elim (Bool-cases (is_off settings'.mode)) [
                | inl off' ↦ rw off' refl
                | inr on' ↦ rw (on', rest) refl
              ])
        ]
      ]
