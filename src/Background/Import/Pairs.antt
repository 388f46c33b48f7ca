-- ===== src/Background/Import/Pairs.antt =====
-- `importFromFirefox` of src/background/router.ts, by the origins and usernames of the logins.
use Prim.Native.Char.{Char, char, code}
use text.Mathlib.TextEquality.{Char-path}
use text.Mathlib.TextLemmas.{nil-append, cons-append}
use fire_sync.Prelude.{
  ◌+◌, String, ◌≡◌, ◌≢◌, refl, sym, ap, ◌∙◌, ◌⊎◌, inl, inr, Bool, true, false, ◌||◌, ℕ, List, [],
  ◌∷◌, ◌==◌, eqb, length, map, In, arith, eq_iff, Bool-cases,
}
use fire_sync.Prelude.Dict.{eq_of_ne}
use fire_sync.Prelude.Result.{ok}
use fire_sync.Url.{UrlParser}
use fire_sync.Sync.Passwords.{PasswordRecord}
use fire_sync.Vault.Crypto.{Cipher, IsIdeal}
use fire_sync.Vault.Contents.{list_passwords}
use fire_sync.Vault.Store.{Fresh}
use fire_sync.Vault.Store.Views.{View, store_of}
use fire_sync.Vault.Store.Opened.{is_open_view, contents_in_view}
use fire_sync.Background.Import.{
  ImportedLogin, Tally, key_of, start_of, is_complete, key, is_seen, import_logins,
}
use fire_sync.Background.Import.Chosen.{
  Drawn, IsDistinct, IsChosen, added, import_logins-IsImported,
}

-- ------------------------------------------------------- the key tells both

abbrev pub has_nul : String → Bool
has_nul String.[] = false
has_nul (String.◌∷◌ c s) = let rest = has_nul s in eqb (code c) 0 || rest

abbrev head_code : String → ℕ
head_code String.[] = 0
head_code (String.◌∷◌ c s) = code c

abbrev tail_of : String → String
tail_of String.[] = String.[]
tail_of (String.◌∷◌ c s) = s

key_of-nil : (u : String) → key_of String.[] u ≡ String.◌∷◌ (char 0 tt) u
key_of-nil u = nil-append (String.◌∷◌ (char 0 tt) u)

key_of-cons : (c : Char) (a u : String) → key_of (String.◌∷◌ c a) u ≡ String.◌∷◌ c (key_of a u)
key_of-cons c a u = cons-append c a (String.◌∷◌ (char 0 tt) u)

-- An origin without a NUL and a username can be read off their key.
key_of-pair :
    (a b u v : String)
    → has_nul a ≡ false
    → has_nul b ≡ false
    → key_of a u ≡ key_of b v
    → (a ≡ b) × (u ≡ v)
key_of-pair String.[] String.[] u v pure_a pure_b e =
    (refl, ap tail_of (sym (key_of-nil u) ∙ e ∙ key_of-nil v))
key_of-pair String.[] (String.◌∷◌ c b) u v pure_a pure_b e =
    let head : 0 ≡ code c = ap head_code (sym (key_of-nil u) ∙ e ∙ key_of-cons c b v) in
    absurd (ground (arith, pure_b, head))
key_of-pair (String.◌∷◌ c a) String.[] u v pure_a pure_b e =
    let head : code c ≡ 0 = ap head_code (sym (key_of-cons c a u) ∙ e ∙ key_of-nil v) in
    absurd (ground (arith, pure_a, head))
key_of-pair (String.◌∷◌ c a) (String.◌∷◌ d b) u v pure_a pure_b e =
    let whole = sym (key_of-cons c a u) ∙ e ∙ key_of-cons d b v in
    let (same, users) =
      key_of-pair a b u v (ground (arith, pure_a)) (ground (arith, pure_b)) (ap tail_of whole) in
    let heads : c ≡ d = Char-path c d (ap head_code whole) in
    (ap (λ x. String.◌∷◌ x a) heads ∙ ap (λ s. String.◌∷◌ d s) same, users)

-- --------------------------------------------------------------- the logins

-- The origin and the username are those of a login that was stored, or of another login of the list.
abbrev pub IsStored : PasswordRecord → ImportedLogin → Type 0
IsStored r login = (r.hostname ≡ login.origin) × (r.username ≡ login.username)

abbrev pub IsSame : ImportedLogin → ImportedLogin → Type 0
IsSame l m = (l.origin ≡ m.origin) × (l.username ≡ m.username)

abbrev pub HasBoth : ImportedLogin → Type 0
HasBoth login = (login.origin ≢ "") × (login.password ≢ "")

complete-HasBoth : (login : ImportedLogin) → is_complete login ≡ true → HasBoth login
complete-HasBoth login h = (
  λ e. ground (arith, h, (eq_iff login.origin "").1 e),
  λ e. ground (arith, h, (eq_iff login.password "").1 e),
)

HasBoth-complete : (login : ImportedLogin) → HasBoth login → is_complete login ≡ true
HasBoth-complete login (placed, secret) =
    rw (eq_of_ne login.origin "" placed, eq_of_ne login.password "" secret) refl

stored-is_seen :
    (existing : List PasswordRecord) (r : PasswordRecord) (login : ImportedLogin)
    → In r existing
    → IsStored r login
    → is_seen (map (λ r. key_of r.hostname r.username) existing) login ≡ true
stored-is_seen (q ∷ existing) r login (inl e) (origin, user) =
    let same : key_of q.hostname q.username ≡ key login = rw (← e, origin, user) refl in
    ground (arith, (eq_iff (key_of q.hostname q.username) (key login)).1 same)
stored-is_seen (q ∷ existing) r login (inr there) stored =
    ground (arith, stored-is_seen existing r login there stored)
stored-is_seen [] r login there stored = elim there [ ]

seen-IsStored :
    (existing : List PasswordRecord) (login : ImportedLogin)
    → has_nul login.origin ≡ false
    → ((r : PasswordRecord) → In r existing → has_nul r.hostname ≡ false)
    → is_seen (map (λ r. key_of r.hostname r.username) existing) login ≡ true
    → (r : PasswordRecord) × In r existing × IsStored r login
seen-IsStored (q ∷ existing) login pure all_pure h =
    elim (Bool-cases (key_of q.hostname q.username == key login)) [
      | inl same ↦ (
        q,
        inl refl,
        key_of-pair q.hostname login.origin q.username login.username (all_pure q (inl refl)) pure
            ((eq_iff (key_of q.hostname q.username) (key login)).0 same),
      )
      | inr other ↦
          let (r, there, stored) =
            seen-IsStored existing login pure (λ r i. all_pure r (inr i))
              (ground (arith, h, other)) in
          (r, inr there, stored)
    ]
seen-IsStored [] login pure all_pure h = absurd (ground (arith, h))

module _ {Key : Type 0} where
  -- No two of the logins have the same origin and username.
  abbrev pub AreApart : List (Drawn Key) → Type 0
  AreApart [] = Unit
  AreApart (x ∷ xs) = ((y : Drawn Key) → In y xs → ¬ (IsSame x.1 y.1)) × AreApart xs

  distinct-AreApart : (xs : List (Drawn Key)) → IsDistinct xs → AreApart xs
  distinct-AreApart [] h = tt
  distinct-AreApart (x ∷ xs) (apart, h) = (
    λ y there (origin, user).
        let same : key x.1 ≡ key y.1 = rw (origin, user) refl in
        ground (arith, apart y there, (eq_iff (key x.1) (key y.1)).1 same),
    distinct-AreApart xs h,
  )

  -- Which logins of a list an import chooses, by the logins that are stored: those with an origin and a
  -- password whose origin and username are new, each pair once.
  pub record Chooses (existing : List PasswordRecord) (logins chosen : List (Drawn Key))
      : Type 0 where
    pub are_new :
        (x : Drawn Key)
        → In x chosen
        → In x logins × HasBoth x.1 × ((r : PasswordRecord) → In r existing → ¬ (IsStored r x.1))
    pub are_apart : AreApart chosen
    pub cover :
        (x : Drawn Key)
        → In x logins
        → HasBoth x.1
        → ((r : PasswordRecord) × In r existing × IsStored r x.1)
          ⊎ ((y : Drawn Key) × In y chosen × IsSame y.1 x.1)

  IsChosen-Chooses :
      (existing : List PasswordRecord) (logins chosen : List (Drawn Key))
      → ((r : PasswordRecord) → In r existing → has_nul r.hostname ≡ false)
      → ((x : Drawn Key) → In x logins → has_nul x.1.origin ≡ false)
      → IsChosen (start_of existing).seen logins chosen
      → Chooses existing logins chosen
  IsChosen-Chooses existing logins chosen pure_stored pure h = record {
    are_new = λ x there.
        let (a, complete, unseen) = h.are_new x there in
        (
          a,
          complete-HasBoth x.1 complete,
          λ r i stored. ground (arith, unseen, stored-is_seen existing r x.1 i stored),
        );
    are_apart = distinct-AreApart chosen h.are_distinct;
    cover = λ x there both. elim (h.cover x there (HasBoth-complete x.1 both)) [
      | inl seen ↦ inl (seen-IsStored existing x.1 (pure x there) pure_stored seen)
      | inr (y, taken, same) ↦
          let (listed, _, _) = h.are_new y taken in
          inr (
            y,
            taken,
            key_of-pair y.1.origin x.1.origin y.1.username x.1.username (pure y listed)
                (pure x there) same,
          )
    ];
  }

module _ {Key Text : Type 0} (cipher : Cipher Key Text) (ideal : IsIdeal cipher)
    (parse_url : UrlParser) where
  -- The import succeeds; the logins chosen are added, one after another, and counted.
  abbrev pub Imports : Fresh Key → List (Drawn Key) → View Key → Type 0
  Imports fresh logins v =
      (chosen : List (Drawn Key)) × (t : Tally) × (v' : View Key) × (import_logins cipher parse_url
          fresh logins (store_of cipher v)
        ≡ (ok t, store_of cipher v'))
      × (contents_in_view v' ≡ added parse_url chosen (contents_in_view v))
      × Chooses (list_passwords (contents_in_view v)) logins chosen
      × (t.imported ≡ length chosen)
      × (t.imported + t.duplicates ≡ length logins)

  -- An import into an open vault succeeds. It adds, one after another, logins of the list that have an
  -- origin and a password, and whose origin and username are those of no stored login and of no other
  -- login that it adds; and of every login of the list that has an origin and a password, the origin and
  -- the username were stored before or are added. The counts are those of the logins added and of the
  -- others. No origin, stored or to import, has a NUL in it.
  pub import_logins-Imports :
      (fresh : Fresh Key) (logins : List (Drawn Key)) (v : View Key)
      → is_open_view v ≡ true
      → ((r : PasswordRecord)
          → In r (list_passwords (contents_in_view v))
          → has_nul r.hostname ≡ false)
      → ((x : Drawn Key) → In x logins → has_nul x.1.origin ≡ false)
      → Imports fresh logins v
  import_logins-Imports fresh logins v o pure_stored pure =
      let (chosen, t, v', runs, kept, is_chosen, counts, totals) =
        import_logins-IsImported cipher ideal parse_url fresh logins v o in
      (
        chosen,
        t,
        v',
        runs,
        kept,
        IsChosen-Chooses (list_passwords (contents_in_view v)) logins chosen pure_stored pure
            is_chosen,
        counts,
        totals,
      )
