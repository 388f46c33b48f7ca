-- ===== src/Vault/Contents/Find.antt =====
-- `findPasswordsForUrl` of src/vault/store.ts. `comes_first` is the test `localeCompare(…) <= 0` on two
-- names, which is the platform's.
use fire_sync.Prelude.{
  ℕ, ◌≤◌, String, ◌≡◌, refl, sym, ◌↔◌, ◌⊎◌, ◌∙◌, inl, inr, Bool, true, false, List, [], ◌∷◌, map,
  arith, ltb, eqb, if◌then◌else◌, filter, All, All-map, In, Bool-cases,
}
use fire_sync.Url.{UrlParser}
use fire_sync.Sync.Passwords.{PasswordRecord}
use fire_sync.Match.Uri.{MatchContext, RegExpEngine, origin_matches, match_score}
use fire_sync.Vault.Contents.{VaultContents, list_passwords}

pub record PasswordMatch : Type 0 where
  pub login : PasswordRecord
  pub score : ℕ

module _ (comes_first : String → String → Bool) where
  -- `b.score - a.score || a.record.username.localeCompare(b.record.username)` is no more than 0.
  abbrev pub goes_before : PasswordMatch → PasswordMatch → Bool
  goes_before a b =
      if eqb a.score b.score
      then comes_first a.login.username b.login.username
      else ltb b.score a.score

  -- `Array.prototype.sort`, which is stable.
  unfoldable pub insert : PasswordMatch → List PasswordMatch → List PasswordMatch
  insert m [] = m ∷ []
  insert m (x ∷ xs) = let rest = insert m xs in if goes_before m x then m ∷ x ∷ xs else x ∷ rest

  unfoldable pub sort : List PasswordMatch → List PasswordMatch
  sort [] = []
  sort (x ∷ xs) = insert x (sort xs)

  -- Best match first.
  abbrev pub IsRanked : List PasswordMatch → Type 0
  IsRanked [] = Unit
  IsRanked (x ∷ xs) = All (λ y. y.score ≤ x.score) xs × IsRanked xs

  insert-In :
      (m a : PasswordMatch) (xs : List PasswordMatch) → In a (insert m xs) ↔ ((a ≡ m) ⊎ In a xs)
  unfolding insert
  insert-In m a [] = ((λ h. h), (λ h. h))
  insert-In m a (x ∷ xs) = elim (Bool-cases (goes_before m x)) [
    | inl before ↦ rw before ((λ h. h), (λ h. h))
    | inr later ↦
        let (there, back) = insert-In m a xs in
        rw later (
          (λ h. elim h [
            | inl e ↦ inr (inl e)
            | inr k ↦ elim (there k) [ inl e ↦ inl e | inr i ↦ inr (inr i) ]
          ]),
          λ h. elim h [
            | inl e ↦ inr (back (inl e))
            | inr k ↦ elim k [ inl e ↦ inl e | inr i ↦ inr (back (inr i)) ]
          ],
        )
  ]

  sort-In : (a : PasswordMatch) (xs : List PasswordMatch) → In a (sort xs) ↔ In a xs
  unfolding sort
  sort-In a [] = ((λ h. h), (λ h. h))
  sort-In a (x ∷ xs) =
      let (out, back) = insert-In x a (sort xs) in
      let (there, here) = sort-In a xs in
      (
        (λ h. elim (out h) [ inl e ↦ inl e | inr k ↦ inr (there k) ]),
        λ h. elim h [ inl e ↦ back (inl e) | inr k ↦ back (inr (here k)) ],
      )

  insert-All :
      (n : ℕ) (m : PasswordMatch) (xs : List PasswordMatch)
      → m.score ≤ n
      → All (λ y. y.score ≤ n) xs
      → All (λ y. y.score ≤ n) (insert m xs)
  unfolding insert
  insert-All n m [] low h = (low, tt)
  insert-All n m (x ∷ xs) low (k, h) = elim (Bool-cases (goes_before m x)) [
    | inl before ↦ rw before (low, (k, h))
    | inr later ↦ rw later (k, insert-All n m xs low h)
  ]

  insert-IsRanked :
      (m : PasswordMatch) (xs : List PasswordMatch) → IsRanked xs → IsRanked (insert m xs)
  unfolding insert
  insert-IsRanked m [] r = (tt, tt)
  insert-IsRanked m (x ∷ xs) (h, r) = elim (Bool-cases (goes_before m x)) [
    | inl before ↦
        let low : x.score ≤ m.score = ground arith in
        rw before (
          (
            low,
            All-map (λ y. y.score ≤ x.score) (λ y. y.score ≤ m.score) (λ y k. omega arith) xs h,
          ),
          (h, r),
        )
    | inr later ↦
        let low : m.score ≤ x.score = ground arith in
        rw later (insert-All x.score m xs low h, insert-IsRanked m xs r)
  ]

  sort-IsRanked : (xs : List PasswordMatch) → IsRanked (sort xs)
  unfolding sort
  sort-IsRanked [] = tt
  sort-IsRanked (x ∷ xs) = insert-IsRanked x (sort xs) (sort-IsRanked xs)

module _ (parse_url : UrlParser) where
  abbrev pub match_of : String → PasswordRecord → PasswordMatch
  match_of page_url login = record {
    login = login;
    score = match_score parse_url login.hostname page_url;
  }

module _ (parse_url : UrlParser) (regexp : RegExpEngine)
    (comes_first : String → String → Bool) where
  unfoldable pub find_passwords_for_url : String → MatchContext → VaultContents → List PasswordMatch
  find_passwords_for_url page_url context contents = sort comes_first (
      map (match_of parse_url page_url) (
        filter (λ login. origin_matches parse_url regexp login.hostname page_url context)
          (list_passwords contents)))

  matches-In :
      (page_url : String) (context : MatchContext) (m : PasswordMatch) (ls : List PasswordRecord)
      → In m (
          map
            (match_of parse_url page_url)
            (filter (λ login. origin_matches parse_url regexp login.hostname page_url context) ls))
        ↔ ((login : PasswordRecord) × In login ls
            × (origin_matches parse_url regexp login.hostname page_url context ≡ true)
            × (m ≡ match_of parse_url page_url login))
  matches-In page_url context m [] = ((λ h. elim h [ ]), λ (_, h, _, _). elim h [ ])
  matches-In page_url context m (l ∷ ls) =
      let (out, back) = matches-In page_url context m ls in
      elim (Bool-cases (origin_matches parse_url regexp l.hostname page_url context)) [
        | inl match ↦ rw match (
          (λ h. elim h [
            | inl e ↦ (l, inl refl, match, e)
            | inr k ↦ let (p, there, fits, e) = out k in (p, inr there, fits, e)
          ]),
          λ (p, there, fits, e). elim there [
            | inl same ↦ inl (rw (← same) e)
            | inr k ↦ inr (back (p, k, fits, e))
          ],
        )
        | inr differs ↦ rw differs (
          (λ h. let (p, there, fits, e) = out h in (p, inr there, fits, e)),
          λ (p, there, fits, e). elim there [
            | inl same ↦ absurd (let other : false ≡ true = sym differs ∙ rw (← same) fits in cc)
            | inr k ↦ back (p, k, fits, e)
          ],
        )
      ]

  -- The logins found for a page are exactly the listed ones whose origin matches it by the rule in
  -- force, each with its score, and the better score comes first.
  pub find_passwords_for_url-IsRanked :
      (page_url : String) (context : MatchContext) (contents : VaultContents)
      → IsRanked comes_first (find_passwords_for_url page_url context contents)
        × ((m : PasswordMatch)
            → In m (find_passwords_for_url page_url context contents) ↔ (
                (login : PasswordRecord) × In login (list_passwords contents)
                × (origin_matches parse_url regexp login.hostname page_url context ≡ true)
                × (m ≡ match_of parse_url page_url login)))
  unfolding find_passwords_for_url
  find_passwords_for_url-IsRanked page_url context contents = (
    sort-IsRanked comes_first _,
    λ m.
        let (out, back) = sort-In comes_first m _ in
        let (listed, found) = matches-In page_url context m (list_passwords contents) in
        ((λ h. listed (out h)), λ h. back (found h)),
  )
