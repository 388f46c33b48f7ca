-- ===== src/Vault/Contents/Passwords.antt =====
-- What the calls of the vault do, as its readers see it.
use fire_sync.Prelude.{
  eq_refl, ℕ, String, ◌≡◌, refl, ◌≢◌, inl, inr, ◌↔◌, true, false, not, Option, none, some, List, [],
  ◌∷◌, arith, ◌==◌, if◌then◌else◌, In, Option-cases, In-append, In-append_left, In-append_right,
}
use fire_sync.Prelude.Dict
use fire_sync.Prelude.Dict.{Dict, get-put, get-remove, get-nil, eq_of_ne}
use fire_sync.Prelude.Dict.Entries.{In-get, get-In}
use fire_sync.Prelude.Result.{ok}
use fire_sync.Sync.Reconcile.{LocalRecord, RemoteRecord, default_resolve}
use fire_sync.Sync.Passwords.{
  PasswordRecord, change_password, mark_password_used, password_authority_time,
}
use fire_sync.Vault.Contents.{
  VaultContents, update_password, edited, touch_password, delete_password, existing_password,
  get_password, list_passwords, live_content, live_contents, put_password,
}
use fire_sync.Vault.Contents.Invariant.{IsSound, existing-IsSound}

-- ------------------------------------------------------------------- reading

In-live_contents :
    {T : Type 0} (p : T) (ls : List (LocalRecord T))
    → In p (live_contents ls)
    → (l : LocalRecord T) × In l ls × (l.content ≡ some p) × (l.deleted ≡ false)
In-live_contents p [] h = elim h [ ]
In-live_contents p (l ∷ ls) h = elim (In-append p (live_content l) (live_contents ls) h) [
  | inl here ↦ let (content, live) = of_one l here in (l, inl refl, content, live)
  | inr later ↦
      let (k, there, content, live) = In-live_contents p ls later in (k, inr there, content, live)
]
  where
    of_one :
        (k : LocalRecord _) → In p (live_content k) → (k.content ≡ some p) × (k.deleted ≡ false)
    of_one k here = ground arith

live_contents-In :
    {T : Type 0} (p : T) (l : LocalRecord T) (ls : List (LocalRecord T))
    → In l ls
    → l.content ≡ some p
    → l.deleted ≡ false
    → In p (live_contents ls)
live_contents-In p l (k ∷ ls) (inl e) content live =
    let only : live_content l ≡ p ∷ [] = ground arith in
    In-append_left p (live_content k) (live_contents ls) (rw (← e, only) (inl refl))
live_contents-In p l (k ∷ ls) (inr there) content live =
    In-append_right p (live_content k) (live_contents ls)
      (live_contents-In p l ls there content live)
live_contents-In p l [] there content live = elim there [ ]

-- In a sound vault a login is listed exactly when some id gets it.
pub list_passwords-get_password :
    (contents : VaultContents) (p : PasswordRecord)
    → IsSound contents.passwords
    → In p (list_passwords contents) ↔ ((id : String) × (get_password id contents ≡ some p))
unfolding list_passwords get_password
list_passwords-get_password contents p s = (listed, gotten)
  where
    listed : In p (list_passwords contents) → (id : String) × (get_password id contents ≡ some p)
    listed h =
        let (l, there, content, live) = In-live_contents p (Dict.values contents.passwords) h in
        let (id, found) = In-get l contents.passwords s.no_dup there in (id, ground arith)

    gotten : (id : String) × (get_password id contents ≡ some p) → In p (list_passwords contents)
    gotten (id, h) = elim (Option-cases (Dict.get id contents.passwords)) [
      | inl absent ↦ absurd (ground arith)
      | inr (l, found) ↦
          live_contents-In p l (Dict.values contents.passwords)
            (get-In id l contents.passwords found) (ground arith) (ground arith)
    ]

-- ------------------------------------------------------------------- edits

-- What a reader gets of one stored record.
abbrev pub shown : LocalRecord PasswordRecord → Option PasswordRecord
shown l = if not l.deleted then l.content else none

get_password-put :
    (id other : String) (l : LocalRecord PasswordRecord) (contents : VaultContents)
    → get_password other (put_password id l contents)
      ≡ (if id == other then shown l else get_password other contents)
unfolding get_password
get_password-put id other l contents = ground (arith, get-put id other l contents.passwords)

get-put_self :
    (id : String) (l : LocalRecord PasswordRecord) (d : Dict (LocalRecord PasswordRecord))
    → Dict.get id (Dict.put id l d) ≡ some l
get-put_self id l d = simp (get-put, eq_refl)

-- The part that the edits share: the new record is stored under the id, and nothing else of the vault is
-- touched, not the other records, sent or not, deleted or not, and not the addresses and cards.
abbrev pub Stored : String → LocalRecord PasswordRecord → VaultContents → VaultContents → Type 0
Stored id l contents contents' =
    (Dict.get id contents'.passwords ≡ some l)
    × (get_password id contents' ≡ shown l)
    × ((other : String)
        → id ≢ other
        → Dict.get other contents'.passwords ≡ Dict.get other contents.passwords)
    × (contents' ≡ record contents { passwords = contents'.passwords })

put_password-Stored :
    (id : String) (l : LocalRecord PasswordRecord) (contents : VaultContents)
    → Stored id l contents (put_password id l contents)
put_password-Stored id l contents = (
  get-put_self id l contents.passwords,
  simp (get_password-put, eq_refl),
  λ other ne. rw (get-put, eq_of_ne id other ne) refl,
  refl,
)

-- A password change of a sound vault that succeeds stores the login, with the new password and its origin
-- and username as they were, as an unsent edit whose authority is the time of the change; readers get it
-- under the id, and no other login, address or card is touched.
pub update_password-Stored :
    (contents : VaultContents) (id password : String) (now : ℕ) (p : PasswordRecord)
    (contents' : VaultContents)
    → IsSound contents.passwords
    → update_password id password now contents ≡ ok (p, contents')
    → (old : LocalRecord PasswordRecord) × (d : PasswordRecord) × (l : LocalRecord PasswordRecord)
      × (existing_password id contents ≡ some (old, d))
      × Stored id l contents contents'
      × (shown l ≡ some p)
      × (p.hostname ≡ d.hostname)
      × (p.username ≡ d.username)
      × (l.synced_at ≡ old.synced_at)
      × (p.password ≡ password)
      × (l.authority_time ≡ now)
      × (l.dirty ≡ true)
unfolding update_password change_password password_authority_time
update_password-Stored contents id password now p contents' s h =
    elim (Option-cases (existing_password id contents)) [
      | inl absent ↦ absurd (ground arith)
      | inr ((l, d), found) ↦
          let (own, live) = existing-IsSound (λ _. none) id contents l d s found in
          let l' = edited l (change_password d password now) in
          let same : contents' ≡ put_password id l' contents = ground arith in
          let is : p ≡ change_password d password now = ground arith in
          (
            l,
            d,
            l',
            found,
            rw same (put_password-Stored id l' contents),
            ground arith,
            rw is refl,
            rw is refl,
            refl,
            rw is refl,
            refl,
            refl,
          )
    ]

-- Recording a fill, where it writes at all, stores the usage as an unsent edit and leaves the password, the deletion mark and
-- the authority time as they were, so that every conflict is decided as before the fill.
touch_password-Stored :
    (contents : VaultContents) (id : String) (now : ℕ) (contents' : VaultContents)
    → touch_password id now contents ≡ some contents'
    → (old : LocalRecord PasswordRecord) × (d : PasswordRecord) × (l : LocalRecord PasswordRecord)
      × (existing_password id contents ≡ some (old, d))
      × Stored id l contents contents'
      × (l.content ≡ some (mark_password_used d now))
      × ((mark_password_used d now).password ≡ d.password)
      × (l.dirty ≡ true)
      × ((r : RemoteRecord PasswordRecord) → default_resolve l r ≡ default_resolve old r)
unfolding touch_password mark_password_used default_resolve
touch_password-Stored contents id now contents' h =
    elim (Option-cases (existing_password id contents)) [
      | inl absent ↦ absurd (ground arith)
      | inr ((l, d), found) ↦
          let l' : LocalRecord PasswordRecord = record l {
            content = some (mark_password_used d now);
            dirty = true;
          } in
          let same : contents' ≡ put_password id l' contents = ground arith in
          (
            l,
            d,
            l',
            found,
            rw same (put_password-Stored id l' contents),
            refl,
            refl,
            refl,
            λ r. refl,
          )
    ]

-- A deletion, where it writes at all, leaves an unsent tombstone that carries the time of the deletion: readers no longer get
-- the login, no other id is touched, and the server time that the record was confirmed at is kept.
delete_password-Stored :
    (contents : VaultContents) (id : String) (now : ℕ) (contents' : VaultContents)
    → delete_password id now contents ≡ some contents'
    → (old : LocalRecord PasswordRecord) × (l : LocalRecord PasswordRecord) × (Dict.get id
          contents.passwords
        ≡ some old)
      × Stored id l contents contents'
      × (get_password id contents' ≡ none)
      × (l.deleted ≡ true)
      × (l.dirty ≡ true)
      × (l.authority_time ≡ now)
      × (l.synced_at ≡ old.synced_at)
unfolding delete_password
delete_password-Stored contents id now contents' h =
    elim (Option-cases (Dict.get id contents.passwords)) [
      | inl absent ↦ absurd (ground arith)
      | inr (old, found) ↦
          let l : LocalRecord PasswordRecord = record {
            id = id;
            content = none;
            deleted = true;
            authority_time = now;
            synced_at = old.synced_at;
            dirty = true;
          } in
          let same : contents' ≡ put_password id l contents = ground arith in
          let kept = put_password-Stored id l contents in
          (old, l, found, rw same kept, rw same kept.1, refl, refl, refl, refl)
    ]
