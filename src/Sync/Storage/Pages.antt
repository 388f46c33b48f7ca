-- ===== src/Sync/Storage/Pages.antt =====
-- `getAllRecords` of src/sync15/storage.ts. The server is a parameter: it answers from the offsets of
-- all the requests so far, the present one last.
use mathlib.Core.List.{append-nil, append_assoc}
use fire_sync.Prelude.{
  ℕ, zero, suc, ◌+◌, ◌<◌, ◌≤◌, String, ◌≡◌, refl, sym, ◌∙◌, ap, ◌≢◌, false, Option, none, some,
  List, [], ◌∷◌, ◌++◌, arith, ◌==◌, eqb, ltb, if◌then◌else◌, length, flat_map, Option-cases,
  Bool-cases, inl, inr,
}
use fire_sync.Prelude.Result.{Result, ok, err}
use fire_sync.Sync.Storage.{BasicStorageObject, StorageError, storage_error}
use fire_sync.Sync.Storage.Chunks.{push}

pub record CollectionPage : Type 0 where
  pub records : List BasicStorageObject
  pub last_modified : Option ℕ
  pub next_offset : Option String

pub record Gathered : Type 0 where
  pub records : List BasicStorageObject
  pub last_modified : Option ℕ

abbrev pub Offsets : Type 0
Offsets = List (Option String)

abbrev pub PageServer : Type 0
PageServer = Offsets → Result StorageError CollectionPage

-- `while (offset)`: an empty offset ends the loop.
abbrev pub further : Option String → Option String
further none = none
further (some offset) = if offset == "" then none else some offset

abbrev pub with_page : ℕ → CollectionPage → Gathered → Gathered
with_page pages page g = record {
  records = g.records ++ page.records;
  last_modified = if eqb pages 0 then page.last_modified else g.last_modified;
}

abbrev pub Run : Type 0
Run = Option (Result StorageError Gathered) × Offsets

module _ (server : PageServer) where
  -- The `do … while` loop, on fuel; `none` is a run that the fuel does not last for.
  unfoldable pub get_pages : ℕ → ℕ → Option String → Gathered → Offsets → Run
  get_pages zero pages offset g log = (none, log)
  get_pages (suc fuel) pages offset g log =
      let log' = push log offset in
      elim (server log') [
        | err e ↦ (some (err e), log')
        | ok page ↦
            if ltb 500 (pages + 1)
            then (some (err (storage_error 500)), log')
            else elim (further page.next_offset) [
              | none ↦ (some (ok (with_page pages page g)), log')
              | some next ↦ get_pages fuel (pages + 1) (some next) (with_page pages page g) log'
            ]
      ]

  unfoldable pub get_all_records : Option String → Run
  get_all_records offset = get_pages 501 0 offset (record { records = []; last_modified = none }) []

  -- The server serves these pages in turn, each at the offset that the one before it names, and the
  -- last names none. The offsets asked stand in the log.
  pub data Serves : Option String → Offsets → List CollectionPage → Offsets → Type 0 where
    last_page :
        {offset : Option String} {log : Offsets} {page : CollectionPage}
        → server (push log offset) ≡ ok page
        → further page.next_offset ≡ none
        → Serves offset log (page ∷ []) (push log offset)
    page_then :
        {offset : Option String} {log log' : Offsets} {page : CollectionPage}
        {pages : List CollectionPage} {next : String}
        → server (push log offset) ≡ ok page
        → further page.next_offset ≡ some next
        → Serves (some next) (push log offset) pages log'
        → Serves offset log (page ∷ pages) log'

abbrev pub records_of : List CollectionPage → List BasicStorageObject
records_of = flat_map (λ page. page.records)

-- `lastModified` of the first of the pages; `t` if there is none.
abbrev pub first_modified : Option ℕ → List CollectionPage → Option ℕ
first_modified t [] = t
first_modified t (page ∷ pages) = page.last_modified

-- What a run from a state of the loop comes to.
abbrev Ends : PageServer → ℕ → ℕ → Option String → Gathered → Offsets → Run → Type 0
Ends server fuel pages offset g log (result, log') =
    (length log' ≤ length log + fuel)
    × (pages ≤ 500 → 500 < pages + fuel → result ≢ none)
    × ((g' : Gathered)
        → result ≡ some (ok g')
        → (served : List CollectionPage) × Serves server offset log served log'
          × (pages + length served ≤ 500)
          × (g'.records ≡ g.records ++ records_of served)
          × (g'.last_modified
              ≡ (if eqb pages 0 then first_modified none served else g.last_modified)))

length-push : {A : Type 0} (xs : List A) (x : A) → length (push xs x) ≡ suc (length xs)
length-push [] x = refl
length-push (y ∷ xs) x = omega (arith, length-push xs x)

module _ (server : PageServer) where
  -- The loop after a page that names a further offset.
  get_pages-further :
      (fuel pages : ℕ) (offset : Option String) (next : String) (g : Gathered) (log : Offsets)
      (page : CollectionPage)
      → pages < 500
      → server (push log offset) ≡ ok page
      → further page.next_offset ≡ some next
      → (run : Run)
      → Ends server fuel (pages + 1) (some next) (with_page pages page g) (push log offset) run
      → Ends server (suc fuel) pages offset g log run
  get_pages-further fuel pages offset next g log page few answer more (result, log')
        (short, done, right) =
      (
        omega (arith, length-push log offset),
        (λ few' fuelled. done (omega arith) (omega arith)),
        λ g' e.
            let (served, serves, bound, records, modified) = right g' e in
            (
              page ∷ served,
              page_then answer more serves,
              omega arith,
              records ∙ append_assoc g.records page.records (records_of served),
              modified ∙ (let past : eqb (pages + 1) 0 ≡ false = ground arith in rw past refl),
            ),
      )

  get_pages-step :
      (fuel pages : ℕ) (offset : Option String) (g : Gathered) (log : Offsets)
      → ((next : String) (g' : Gathered) (l : Offsets)
          → Ends server fuel
              (pages + 1)
              (some next)
              g'
              l
              (get_pages server fuel (pages + 1) (some next) g' l))
      → (r : Result StorageError CollectionPage) → server (push log offset) ≡ r
      → Ends server (suc fuel) pages offset g log (get_pages server (suc fuel) pages offset g log)
  unfolding get_pages
  get_pages-step fuel pages offset g log later (err e) at =
      rw (at, get_pages) (omega (arith, length-push log offset), (λ few fuelled e. cc), λ g' e. cc)
  get_pages-step fuel pages offset g log later (ok page) at =
      elim (Bool-cases (ltb 500 (pages + 1))) [
        | inl many ↦
            rw (at, get_pages, many)
              (omega (arith, length-push log offset), (λ few fuelled e. cc), λ g' e. cc)
        | inr few ↦ elim (Option-cases (further page.next_offset)) [
          | inl last ↦
              rw (at, get_pages, few, last)
                (
                  omega (arith, length-push log offset),
                  (λ few fuelled e. cc),
                  λ g' e.
                      let is : g' ≡ with_page pages page g = cc in
                      (
                        page ∷ [],
                        last_page at last,
                        ground arith,
                        ap (λ x. x.records) is
                            ∙ ap (λ x. g.records ++ x) (sym (append-nil page.records)),
                        ap (λ x. x.last_modified) is,
                      ),
                )
          | inr (next, more) ↦
              rw (at, get_pages, few, more)
                (get_pages-further fuel pages offset next g log page (ground arith) at more _
                  (later next (with_page pages page g) (push log offset)))
        ]
      ]

  get_pages-Ends :
      (fuel pages : ℕ) (offset : Option String) (g : Gathered) (log : Offsets)
      → Ends server fuel pages offset g log (get_pages server fuel pages offset g log)
  unfolding get_pages
  get_pages-Ends zero pages offset g log =
      (omega arith, (λ few fuelled. absurd (omega arith)), λ g' e. cc)
  get_pages-Ends (suc fuel) pages offset g log =
      get_pages-step fuel pages offset g log
        (λ next g' l. get_pages-Ends fuel (pages + 1) (some next) g' l) _ refl

  -- Fetching a collection always ends, after 501 requests at most. Where it succeeds, the result is
  -- the records of all the pages the server serves, from the offset given to the page that names no
  -- further one, in order; there are 1 to 500 of them, and `lastModified` is the first one's.
  pub get_all_records-Serves :
      (offset : Option String)
      → (length (get_all_records server offset).1 ≤ 501)
        × ((get_all_records server offset).0 ≢ none)
        × ((g : Gathered)
            → (get_all_records server offset).0 ≡ some (ok g)
            → (served : List CollectionPage) × Serves server offset [] served
                (get_all_records server offset).1
              × (length served ≤ 500)
              × (g.records ≡ records_of served)
              × (g.last_modified ≡ first_modified none served))
  unfolding get_all_records
  get_all_records-Serves offset =
      let (short, done, right) =
        get_pages-Ends 501 0 offset (record { records = []; last_modified = none }) [] in
      (
        short,
        done (omega arith) (omega arith),
        λ g e.
            let (served, serves, bound, records, modified) = right g e in
            (served, serves, omega arith, records, modified),
      )
