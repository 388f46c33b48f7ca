-- ===== src/Sync/Storage/Chunks.antt =====
-- The chunks of `postRecordsBatched` (src/sync15/storage.ts).
use mathlib.Core.List.{append-nil, append_assoc}
use fire_sync.Prelude.{
  ℕ, ◌+◌, ◌≤◌, ◌<◌, ◌≡◌, refl, sym, ◌∙◌, ◌⊎◌, inl, inr, Bool, true, false, ◌&&◌, ◌||◌, List, [],
  ◌∷◌, ◌++◌, arith, ltb, leb, if◌then◌else◌, length, length-append, All, All-append, Bool-cases,
}

-- `array.push(x)`
abbrev pub push {ℓ} : {A : Type ℓ} → List A → A → List A
push xs x = xs ++ x ∷ []

-- `if (current.length) chunks.push(current)`
abbrev pub push_unless_empty {ℓ} : {A : Type ℓ} → List (List A) → List A → List (List A)
push_unless_empty chunks [] = chunks
push_unless_empty chunks (x ∷ current) = push chunks (x ∷ current)

abbrev pub flatten {ℓ} : {A : Type ℓ} → List (List A) → List A
flatten [] = []
flatten (c ∷ cs) = c ++ flatten cs

-- `size` is the length of the JSON text of a record.
module _ {A : Type 0} (size : A → ℕ) (max_records max_bytes : ℕ) where
  -- `current.length >= maxRecords || (current.length > 0 && currentBytes + size > maxBytes)`
  abbrev pub is_full : List A → ℕ → ℕ → Bool
  is_full current current_bytes n =
      leb max_records (length current)
      || ltb 0 (length current) && ltb max_bytes (current_bytes + n)

  -- The loop over the records, and the last push.
  unfoldable pub chunk_from : List (List A) → List A → ℕ → List A → List (List A)
  chunk_from chunks current current_bytes [] = push_unless_empty chunks current
  chunk_from chunks current current_bytes (bso ∷ bsos) =
      let full = is_full current current_bytes (size bso) in
      chunk_from (if full then push chunks current else chunks)
        (if full then bso ∷ [] else push current bso)
        (if full then size bso else current_bytes + size bso) bsos

  unfoldable pub chunk : List A → List (List A)
  unfolding chunk_from
  chunk bsos = chunk_from [] [] 0 bsos

  abbrev pub total : List A → ℕ
  total [] = 0
  total (x ∷ xs) = size x + total xs

  total-push : (xs : List A) (x : A) → total (push xs x) ≡ total xs + size x
  total-push [] x = omega arith
  total-push (y ∷ xs) x = omega (arith, total-push xs x)

  flatten-push : (cs : List (List A)) (c : List A) → flatten (push cs c) ≡ flatten cs ++ c
  flatten-push [] c = append-nil c
  flatten-push (d ∷ cs) c = rw (flatten-push cs c) (sym (append_assoc d _ _))

  chunk_from-flatten :
      (chunks : List (List A)) (current : List A) (bytes : ℕ) (bsos : List A)
      → flatten (chunk_from chunks current bytes bsos) ≡ flatten chunks ++ current ++ bsos
  unfolding chunk_from
  chunk_from-flatten chunks [] bytes [] = simp append-nil
  chunk_from-flatten chunks (x ∷ current) bytes [] =
      rw (flatten-push chunks (x ∷ current)) (simp append-nil)
  chunk_from-flatten chunks current bytes (bso ∷ bsos) =
      elim (Bool-cases (is_full current bytes (size bso))) [
        | inl full ↦ rw full (
            chunk_from-flatten (push chunks current) (bso ∷ []) (size bso) bsos
            ∙ rw (flatten-push chunks current) (simp append_assoc))
        | inr room ↦ rw room (
            chunk_from-flatten chunks (push current bso) (bytes + size bso) bsos
            ∙ simp append_assoc)
      ]

  -- What the server allows in one request: so many records, and so many bytes unless a single
  -- record is longer by itself.
  abbrev pub IsAllowed : List A → Type 0
  IsAllowed c = (0 < length c) × (length c ≤ max_records) × ((total c ≤ max_bytes) ⊎ (length c ≡ 1))

  -- The chunk being filled.
  abbrev IsOpen : List A → Type 0
  IsOpen c = (length c ≤ max_records) × ((total c ≤ max_bytes) ⊎ (length c ≤ 1))

  full-IsAllowed :
      (current : List A) (bytes n : ℕ)
      → 0 < max_records
      → bytes ≡ total current
      → IsOpen current
      → is_full current bytes n ≡ true
      → IsAllowed current
  full-IsAllowed [] bytes n pos same o full = absurd (ground arith)
  full-IsAllowed (x ∷ current) bytes n pos same o full = (omega arith, o.0, omega arith)

  push-IsOpen :
      (current : List A) (bytes : ℕ) (x : A)
      → bytes ≡ total current
      → is_full current bytes (size x) ≡ false
      → IsOpen (push current x)
  push-IsOpen [] bytes x same room = (ground arith, inr (omega arith))
  push-IsOpen (y ∷ current) bytes x same room = (
    ground (arith, length-append (y ∷ current) (x ∷ [])),
    inl (ground (arith, total-push (y ∷ current) x)),
  )

  chunk_from-IsAllowed :
      (chunks : List (List A)) (current : List A) (bytes : ℕ) (bsos : List A)
      → 0 < max_records
      → bytes ≡ total current
      → All IsAllowed chunks
      → IsOpen current
      → All IsAllowed (chunk_from chunks current bytes bsos)
  unfolding chunk_from
  chunk_from-IsAllowed chunks [] bytes [] pos same h o = h
  chunk_from-IsAllowed chunks (x ∷ current) bytes [] pos same h o =
      All-append IsAllowed chunks ((x ∷ current) ∷ []) h ((omega arith, o.0, ground arith), tt)
  chunk_from-IsAllowed chunks current bytes (bso ∷ bsos) pos same h o =
      elim (Bool-cases (is_full current bytes (size bso))) [
        | inl full ↦ rw full (
            chunk_from-IsAllowed (push chunks current) (bso ∷ []) (size bso) bsos pos (omega arith)
              (All-append IsAllowed chunks (current ∷ []) h
                (full-IsAllowed current bytes (size bso) pos same o full, tt))
              (omega arith, inr (omega arith)))
        | inr room ↦ rw room (
            chunk_from-IsAllowed chunks (push current bso) (bytes + size bso) bsos pos
              (omega (arith, total-push current bso)) h (push-IsOpen current bytes bso same room))
      ]

  -- Where a chunk may hold one record at least, no record is lost, doubled or moved, and no chunk is
  -- more than the server allows.
  pub chunk-IsAllowed :
      (bsos : List A) → 0 < max_records → (flatten (chunk bsos) ≡ bsos) × All IsAllowed (chunk bsos)
  unfolding chunk
  chunk-IsAllowed bsos pos = (
    chunk_from-flatten [] [] 0 bsos,
    chunk_from-IsAllowed [] [] 0 bsos pos refl tt (omega arith, inr (omega arith)),
  )
