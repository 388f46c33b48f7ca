-- ===== src/Background/Import/Chosen.antt =====
-- Which logins `importFromFirefox` of src/background/router.ts imports into an open vault.
use fire_sync.Prelude.{
  ◌+◌, String, ◌≡◌, refl, sym, ap, ◌∙◌, ◌⊎◌, inl, inr, true, false, some, List, [], ◌∷◌, ◌==◌,
  length, In, arith, eq_iff, Bool-cases,
}
use fire_sync.Prelude.Result.{ok}
use fire_sync.Url.{UrlParser}
use fire_sync.Vault.Crypto.{Cipher, IsIdeal}
use fire_sync.Vault.Contents.{VaultContents, add_password, list_passwords}
use fire_sync.Vault.Store.{Fresh}
use fire_sync.Vault.Store.Views.{View, store_of}
use fire_sync.Vault.Logins.{add_login}
use fire_sync.Sync.Passwords.{NewPasswordInput}
use fire_sync.Vault.Store.Opened.{
  is_open_view, contents_in_view, cached_view, written_view, cached_view-opened,
  written_view-opened, read_contents-opened, write_contents-opened,
}
use fire_sync.Background.Import.{
  ImportedLogin, Tally, start_of, is_complete, key, is_seen, is_wanted, passed_over, taken,
  input_of, import_loop, import_logins,
}

passed-seen :
    (t : Tally) (login : ImportedLogin)
    → is_complete login ≡ true
    → is_wanted t login ≡ false
    → is_seen t.seen login ≡ true
passed-seen t login complete other = ground (arith, complete, other)

wanted-new :
    (t : Tally) (login : ImportedLogin)
    → is_wanted t login ≡ true
    → (is_complete login ≡ true) × (is_seen t.seen login ≡ false)
wanted-new t login wanted = (ground (arith, wanted), ground (arith, wanted))

other_key :
    (seen : List String) (l m : ImportedLogin)
    → is_seen (key l ∷ seen) m ≡ false
    → ((key l == key m) ≡ false) × (is_seen seen m ≡ false)
other_key seen l m h = (ground (arith, h), ground (arith, h))

either_key :
    (seen : List String) (l m : ImportedLogin)
    → is_seen (key l ∷ seen) m ≡ true
    → (key l ≡ key m) ⊎ (is_seen seen m ≡ true)
either_key seen l m h = elim (Bool-cases (key l == key m)) [
  | inl same ↦ inl ((eq_iff (key l) (key m)).0 same)
  | inr other ↦ inr (ground (arith, h, other))
]

-- A login with what adding it draws.
abbrev pub Drawn : Type 0 → Type 0
Drawn Key = Fresh Key × ImportedLogin

-- What is asked to be added for a login.
abbrev pub input_for : ImportedLogin → NewPasswordInput
input_for login = record {
  origin = login.origin;
  username = login.username;
  password = login.password;
  form_action_origin = login.form_action_origin;
  http_realm = login.http_realm;
  username_field = some login.username_field;
  password_field = some login.password_field;
}

module _ {Key : Type 0} where
  -- The contents with the logins added, one after another.
  abbrev pub added : UrlParser → List (Drawn Key) → VaultContents → VaultContents
  added parse_url [] c = c
  added parse_url ((fresh, login) ∷ logins) c =
      added parse_url logins (add_password parse_url fresh.new_id fresh.now (input_for login) c).1

  abbrev pub IsDistinct : List (Drawn Key) → Type 0
  IsDistinct [] = Unit
  IsDistinct (x ∷ xs) = ((y : Drawn Key) → In y xs → (key x.1 == key y.1) ≡ false) × IsDistinct xs

  -- What an import does with keys seen before: it chooses complete logins of the list, of different
  -- keys that were not seen, so that every complete login's key was seen or is chosen.
  pub record IsChosen (seen : List String) (logins chosen : List (Drawn Key)) : Type 0 where
    pub are_new :
        (x : Drawn Key)
        → In x chosen
        → In x logins × (is_complete x.1 ≡ true) × (is_seen seen x.1 ≡ false)
    pub are_distinct : IsDistinct chosen
    pub cover :
        (x : Drawn Key)
        → In x logins
        → is_complete x.1 ≡ true
        → (is_seen seen x.1 ≡ true) ⊎ ((y : Drawn Key) × In y chosen × (key y.1 ≡ key x.1))

  pub record IsCounted (logins chosen : List (Drawn Key)) (t t' : Tally) : Type 0 where
    pub counts : t'.imported ≡ t.imported + length chosen
    pub totals : t'.imported + t'.duplicates ≡ t.imported + t.duplicates + length logins

  passed-IsChosen :
      (t : Tally) (x : Drawn Key) (logins chosen : List (Drawn Key))
      → is_wanted t x.1 ≡ false
      → IsChosen t.seen logins chosen
      → IsChosen t.seen (x ∷ logins) chosen
  passed-IsChosen t x logins chosen other h = record {
    are_new = λ y there. let (a, b, c) = h.are_new y there in (inr a, b, c);
    are_distinct = h.are_distinct;
    cover = λ y there complete. elim there [
      | inl same ↦ inl (rw same (passed-seen t x.1 (rw same at complete) other))
      | inr later ↦ h.cover y later complete
    ];
  }

  taken-IsChosen :
      (t : Tally) (x : Drawn Key) (logins chosen : List (Drawn Key))
      → is_wanted t x.1 ≡ true
      → IsChosen (taken x.1 t).seen logins chosen
      → IsChosen t.seen (x ∷ logins) (x ∷ chosen)
  taken-IsChosen t x logins chosen wanted h = record {
    are_new = λ y there. elim there [
      | inl same ↦ rw same (inl refl, (wanted-new t x.1 wanted).0, (wanted-new t x.1 wanted).1)
      | inr later ↦
          let (a, complete, unseen) = h.are_new y later in
          (inr a, complete, (other_key t.seen x.1 y.1 unseen).1)
    ];
    are_distinct = (
      λ y later. let (a, b, unseen) = h.are_new y later in (other_key t.seen x.1 y.1 unseen).0,
      h.are_distinct,
    );
    cover = λ y there complete. elim there [
      | inl same ↦ inr (x, inl refl, ap (λ z. key z.1) (sym same))
      | inr later ↦ elim (h.cover y later complete) [
        | inl seen ↦ elim (either_key t.seen x.1 y.1 seen) [
          | inl same ↦ inr (x, inl refl, same)
          | inr before ↦ inl before
        ]
        | inr (z, chosen_z, same) ↦ inr (z, inr chosen_z, same)
      ]
    ];
  }

module _ {Key Text : Type 0} (cipher : Cipher Key Text) (ideal : IsIdeal cipher)
    (parse_url : UrlParser) where
  add_login-opened :
      (fresh : Fresh Key) (input : NewPasswordInput) (v : View Key)
      → is_open_view v ≡ true
      → add_login cipher fresh parse_url input (store_of cipher v) ≡ (
        ok (add_password parse_url fresh.new_id fresh.now input (contents_in_view v)).0,
        store_of cipher (
            written_view fresh.iv
              (add_password parse_url fresh.new_id fresh.now input (contents_in_view v)).1
              (cached_view v)),
      )
  add_login-opened fresh input v o =
      let made = add_password parse_url fresh.new_id fresh.now input (contents_in_view v) in
      rw
        (
          read_contents-opened cipher ideal fresh v o,
          write_contents-opened cipher ideal fresh made.1 (cached_view v)
              (cached_view-opened v o).0,
        )
        refl

  -- The loop from any tally: what it chooses is added to an open vault.
  import_loop-from :
      (logins : List (Drawn Key)) (t : Tally) (v : View Key)
      → is_open_view v ≡ true
      → (chosen : List (Drawn Key)) × (t' : Tally) × (v' : View Key) × (import_loop cipher parse_url
            logins t
            (store_of cipher v)
          ≡ (ok t', store_of cipher v'))
        × (is_open_view v' ≡ true)
        × (contents_in_view v' ≡ added parse_url chosen (contents_in_view v))
        × IsChosen t.seen logins chosen
        × IsCounted logins chosen t t'
  unfolding import_loop
  import_loop-from [] t v o = (
    [],
    t,
    v,
    refl,
    o,
    refl,
    record { are_new = λ x h. absurd h; are_distinct = tt; cover = λ x h. absurd h },
    record { counts = omega arith; totals = omega arith },
  )
  import_loop-from ((fresh, login) ∷ logins) t v o = elim (Bool-cases (is_wanted t login)) [
    | inr other ↦
        let (chosen, t', v', runs, o', c', is_chosen, n) =
          import_loop-from logins (passed_over t) v o in
        (
          chosen,
          t',
          v',
          rw other runs,
          o',
          c',
          passed-IsChosen t (fresh, login) logins chosen other is_chosen,
          record { counts = n.counts; totals = omega (arith, n.totals) },
        )
    | inl wanted ↦
        let c1 =
          (add_password parse_url fresh.new_id fresh.now (input_of login) (contents_in_view v)).1 in
        let v1 = written_view fresh.iv c1 (cached_view v) in
        let (o1, at1) =
          written_view-opened fresh.iv c1 (cached_view v) (cached_view-opened v o).0 in
        let (chosen, t', v', runs, o', c', is_chosen, n) =
          import_loop-from logins (taken login t) v1 o1 in
        (
          (fresh, login) ∷ chosen,
          t',
          v',
          rw (wanted, add_login-opened fresh (input_of login) v o) runs,
          o',
          c' ∙ ap (added parse_url chosen) at1,
          taken-IsChosen t (fresh, login) logins chosen wanted is_chosen,
          record { counts = omega (arith, n.counts); totals = omega (arith, n.totals) },
        )
  ]

  -- The import succeeds; the logins chosen are added, one after another, and counted.
  abbrev pub IsImported : Fresh Key → List (Drawn Key) → View Key → Type 0
  IsImported fresh logins v =
      let before = start_of (list_passwords (contents_in_view v)) in
      (chosen : List (Drawn Key)) × (t : Tally) × (v' : View Key) × (import_logins cipher parse_url
          fresh logins (store_of cipher v)
        ≡ (ok t, store_of cipher v'))
      × (contents_in_view v' ≡ added parse_url chosen (contents_in_view v))
      × IsChosen before.seen logins chosen
      × (t.imported ≡ length chosen)
      × (t.imported + t.duplicates ≡ length logins)

  -- An import into an open vault succeeds, and what it chooses by the keys is added and counted.
  pub import_logins-IsImported :
      (fresh : Fresh Key) (logins : List (Drawn Key)) (v : View Key)
      → is_open_view v ≡ true
      → IsImported fresh logins v
  unfolding import_logins
  import_logins-IsImported fresh logins v o =
      let before = start_of (list_passwords (contents_in_view v)) in
      let (o1, at1) = cached_view-opened v o in
      let (chosen, t, v', runs, o', c', is_chosen, n) =
        import_loop-from logins before (cached_view v) o1 in
      (
        chosen,
        t,
        v',
        rw (read_contents-opened cipher ideal fresh v o) runs,
        c' ∙ ap (added parse_url chosen) at1,
        is_chosen,
        n.counts ∙ omega arith,
        n.totals ∙ omega arith,
      )
