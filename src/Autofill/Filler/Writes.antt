-- ===== src/Autofill/Filler/Writes.antt =====
-- What src/autofill writes into a page, and where.
use fire_sync.Prelude.{
  ℕ, ◌≡◌, refl, sym, ◌⊎◌, inl, inr, String, Bool, true, Option, none, some, List, [], ◌∷◌, map,
  filter, find?, length, ltb, eqb, ◌==◌, In, All, arith, Bool-cases, In-append,
}
use fire_sync.Autofill.Detector.{
  Input, TokenTest, DetectedForm, current_password, has_kind, eq_form, Best, better, element_of,
  is_username, adjusted, is_candidate, best_from, pool_of, find_username_for, Group, put_input,
  groups_from, username_by, detected, is_form, detect_forms,
}
use fire_sync.Autofill.Filler.{Write, written, fill_login}

eq_form-path : (a b : Option ℕ) → eq_form a b ≡ true → a ≡ b
eq_form-path none none e = refl
eq_form-path (some m) (some n) e = ground (arith, e)
eq_form-path none (some n) e = cc
eq_form-path (some m) none e = cc

module _ {A : Type 0} (p : A → Bool) where
  In-filter : (x : A) (xs : List A) → In x (filter p xs) → In x xs
  In-filter x [] h = h
  In-filter x (y ∷ ys) h = elim (Bool-cases (p y)) [
    | inl kept ↦
        let there : (x ≡ y) ⊎ In x (filter p ys) = rw kept at h in
        elim there [ inl same ↦ inl same | inr later ↦ inr (In-filter x ys later) ]
    | inr dropped ↦ inr (In-filter x ys (rw dropped at h))
  ]

  In-find? : (x : A) (xs : List A) → find? p xs ≡ some x → In x xs × (p x ≡ true)
  In-find? x [] h = cc
  In-find? x (y ∷ ys) h = elim (Bool-cases (p y)) [
    | inl found ↦
        let same : some y ≡ some x = rw found at h in
        let at : y ≡ x = cc in (inl (sym at), rw (sym at) found)
    | inr other ↦ let (there, holds) = In-find? x ys (rw other at h) in (inr there, holds)
  ]

module _ {A B : Type 0} (f : A → B) where
  In-map : (y : B) (xs : List A) → In y (map f xs) → (x : A) × In x xs × (y ≡ f x)
  In-map y (x ∷ xs) (inl same) = (x, inl refl, same)
  In-map y (x ∷ xs) (inr there) = let (z, later, same) = In-map y xs there in (z, inr later, same)
  In-map y [] h = absurd h

better-element :
    (best : Best) (j i : Input) (score : ℕ)
    → element_of (better best j score) ≡ some i
    → (i ≡ j) ⊎ (element_of best ≡ some i)
better-element none j i score e = inl cc
better-element (some (k, top)) j i score e = elim (Bool-cases (ltb top score)) [
  | inl higher ↦ let same : some j ≡ some i = rw higher at e in inl cc
  | inr other ↦ let same : some k ≡ some i = rw other at e in inr same
]

module _ (tests : TokenTest) where
  -- A best candidate that is found stands in the pool and takes a username, or was there before.
  best_from-In :
      (password : Input) (pool : List Input) (best : Best) (i : Input)
      → element_of (best_from tests password pool best) ≡ some i
      → (In i pool × (is_username tests i ≡ true)) ⊎ (element_of best ≡ some i)
  unfolding best_from
  best_from-In password [] best i e = inr e
  best_from-In password (j ∷ pool) best i e = elim (Bool-cases (is_candidate tests password j)) [
    | inl candidate ↦
        elim (best_from-In password pool (better best j (adjusted tests password j)) i
          (rw candidate at e)) [
            | inl (there, takes) ↦ inl (inr there, takes)
            | inr now ↦ elim (better-element best j i (adjusted tests password j) now) [
              | inl same ↦ inl (inl same, rw same (ground (arith, candidate)))
              | inr before ↦ inr before
            ]
          ]
    | inr other ↦ elim (best_from-In password pool best i (rw other at e)) [
      | inl (there, takes) ↦ inl (inr there, takes)
      | inr before ↦ inr before
    ]
  ]

  pool_of-In : (password i : Input) (is : List Input) → In i (pool_of tests password is) → In i is
  pool_of-In password i is h =
      elim (Bool-cases (eqb (length (filter (λ j. eq_form j.form password.form) is)) 0)) [
        | inl none_of_form ↦ rw none_of_form at h
        | inr some_of_form ↦
            In-filter (λ j. eq_form j.form password.form) i is (rw some_of_form at h)
      ]

  username_by-In :
      (anchor : Option Input) (is : List Input) (i : Input)
      → username_by tests anchor is ≡ some i
      → In i is × (is_username tests i ≡ true)
  unfolding find_username_for
  username_by-In none is i e = cc
  username_by-In (some a) is i e = elim (best_from-In a (pool_of tests a is) none i e) [
    | inl (there, takes) ↦ (pool_of-In a i is there, takes)
    | inr before ↦ cc
  ]

  -- A group holds inputs of one form.
  abbrev GroupOk : List Input → Group tests → Type 0
  GroupOk inputs (form, is) = (i : Input) → In i is → In i inputs × (i.form ≡ form)

  put_input-Ok :
      (inputs : List Input) (i : Input) (gs : List (Group tests))
      → In i inputs
      → All (GroupOk inputs) gs
      → All (GroupOk inputs) (put_input tests i gs)
  put_input-Ok inputs i [] here h = (
    (λ j there. elim there [ inl same ↦ rw same (here, refl) | inr none_left ↦ absurd none_left ]),
    tt,
  )
  put_input-Ok inputs i ((form, is) ∷ gs) here (g, h) = elim (Bool-cases (eq_form form i.form)) [
    | inl same ↦ rw same (
      (λ j there. elim (In-append j is (i ∷ []) there) [
        | inl before ↦ g j before
        | inr last ↦ elim last [
          | inl at ↦ rw at (here, sym (eq_form-path form i.form same))
          | inr none_left ↦ absurd none_left
        ]
      ]),
      h,
    )
    | inr other ↦ rw other (g, put_input-Ok inputs i gs here h)
  ]

  groups_from-Ok :
      (inputs is : List Input) (gs : List (Group tests))
      → ((i : Input) → In i is → In i inputs)
      → All (GroupOk inputs) gs
      → All (GroupOk inputs) (groups_from tests is gs)
  unfolding groups_from
  groups_from-Ok inputs [] gs all h = h
  groups_from-Ok inputs (i ∷ is) gs all h =
      groups_from-Ok inputs is (put_input tests i gs) (λ j there. all j (inr there))
        (put_input-Ok inputs i gs (all i (inl refl)) h)

  All-In :
      (inputs : List Input) (g : Group tests) (gs : List (Group tests))
      → All (GroupOk inputs) gs
      → In g gs
      → GroupOk inputs g
  All-In inputs g (k ∷ gs) (h, hs) (inl same) = rw same h
  All-In inputs g (k ∷ gs) (h, hs) (inr there) = All-In inputs g gs hs there
  All-In inputs g [] hs there = absurd there

  -- The write goes to an input of the form: the username to one that takes a username or an email, the
  -- password to one for the current password.
  abbrev pub IsRightful : List Input → Option ℕ → String → String → Write → Type 0
  IsRightful inputs form user password (i, value) =
      In i inputs
      × (i.form ≡ form)
      × (((value ≡ user) × (is_username tests i ≡ true))
          ⊎ ((value ≡ password) × (has_kind tests current_password i ≡ true)))

  written-In :
      (field : Option Input) (value : String) (w : Write)
      → In w (written field value)
      → (field ≡ some w.0) × (w.1 ≡ value)
  written-In none value w h = absurd h
  written-In (some i) value w h = elim (Bool-cases (value == "")) [
    | inl empty ↦ absurd (rw empty at h)
    | inr real ↦
        let there : (w ≡ (i, value)) ⊎ In w [] = rw real at h in
        elim there [ inl same ↦ (cc, cc) | inr none_left ↦ absurd none_left ]
  ]

  group-IsRightful :
      (inputs : List Input) (g : Group tests) (user password : String) (w : Write)
      → GroupOk inputs g
      → In w (fill_login tests (detected tests g) user password).1
      → IsRightful inputs (detected tests g).form user password w
  unfolding fill_login
  group-IsRightful inputs (form, is) user password w good write =
      let d = detected tests (form, is) in
      elim (In-append w (written d.username_field user) (written d.current_field password) write) [
        | inl first ↦
            let (at, value) = written-In d.username_field user w first in
            let (there, takes) = username_by-In _ is w.0 at in
            let (stands, of_form) = good w.0 there in (stands, of_form, inl (value, takes))
        | inr second ↦
            let (at, value) = written-In d.current_field password w second in
            let (there, current) = In-find? (has_kind tests current_password) w.0 is at in
            let (stands, of_form) = good w.0 there in (stands, of_form, inr (value, current))
      ]

  -- Filling a login form that was detected writes to inputs of that form only: the username to one that is
  -- classified as a username or an email, the password to one that is classified as the current password.
  pub fill_login-IsRightful :
      (inputs : List Input) (d : DetectedForm tests) (user password : String) (w : Write)
      → In d (detect_forms tests inputs)
      → In w (fill_login tests d user password).1
      → IsRightful inputs d.form user password w
  unfolding detect_forms fill_login
  fill_login-IsRightful inputs d user password w there write =
      let (g, kept, same) =
        In-map (detected tests) d (filter (is_form tests) (groups_from tests inputs [])) there in
      let in_groups = In-filter (is_form tests) g (groups_from tests inputs []) kept in
      let good =
        All-In inputs g (groups_from tests inputs [])
          (groups_from-Ok inputs inputs [] (λ i here. here) tt) in_groups in
      rw same (group-IsRightful inputs g user password w good (rw same at write))
