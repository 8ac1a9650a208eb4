-- ===== src/HashTable/Rows.antt =====
-- The array of buckets around one step of type_hash_grow's outer loop.
use misc_c.Base.{
  ℕ, zero, suc, ◌+◌, ◌-◌, ◌≤◌, ◌<◌, ◌≡◌, refl, ap, ◌&&◌, List, [], ◌∷◌, ◌++◌, arith, ltb, leb, ◌==◌,
  if◌then◌else◌, length, get_or, set, take, drop, length-set, length-take, length-drop,
  length-append,
}
use misc_c.Base.Memory.{
  copy_at, length-copy_at, get_or-copy_at, get_or-set, get_or-take, get_or-drop, get_or-append,
  eq_of_get_or,
}
use misc_c.HashTable.{Item}
use misc_c.HashTable.Resize.{cut_chain, spread}

pub length-spread : (shift delta n i : ℕ) (c : List Item) → length (spread shift delta n i c) ≡ n
length-spread shift delta zero i c = refl
length-spread shift delta (suc zero) i c = refl
length-spread shift delta (suc (suc n)) i c =
    ap suc (length-spread shift delta (suc n) (i + 1) (cut_chain shift delta i c).1)

-- A copy of a whole row at `i`, behind a write before it.
module _ (es : List (List Item)) (b i n : ℕ) (row : List (List Item)) (before : b ≤ i)
    (some_row : 0 < n) (fits : i + n ≤ length es) (whole : length row ≡ n) where
  abbrev pub written : List (List Item)
  written = copy_at (set es b []) i row

  entry :
      (j : ℕ)
      → get_or written j [] ≡ (
          if leb i j && ltb j (i + n)
          then get_or row (j - i) []
          else if b == j
          then []
          else get_or es j [])
  entry j =
      ground (
        arith,
        get_or-copy_at (set es b []) i row j [],
        get_or-set es b j [] [],
        length-set es b [],
      )

  pub take-written : take b written ≡ take b es
  take-written =
      eq_of_get_or _ _ []
        (omega (
          arith,
          length-take b written,
          length-take b es,
          length-copy_at (set es b []) i row,
          length-set es b [],
        ))
        (λ j p. ground (
          arith,
          length-take b written,
          get_or-take b written j [],
          get_or-take b es j [],
          entry j,
        ))

  pub drop-written : drop i written ≡ row ++ drop (i + n) es
  drop-written =
      eq_of_get_or _ _ []
        (omega (
          arith,
          length-drop i written,
          length-drop (i + n) es,
          length-append row (drop (i + n) es),
          length-copy_at (set es b []) i row,
          length-set es b [],
        ))
        (λ j p. ground (
          arith,
          length-drop i written,
          get_or-drop i written j [],
          get_or-append row (drop (i + n) es) j [],
          get_or-drop (i + n) es (j - n) [],
          entry (i + j),
        ))

pub take-suc :
    (es : List (List Item)) (b : ℕ)
    → b < length es
    → take (suc b) es ≡ take b es ++ (get_or es b [] ∷ [])
take-suc [] b h = absurd (omega arith)
take-suc (c ∷ es) zero h = refl
take-suc (c ∷ es) (suc b) h = ap (λ ys. c ∷ ys) (take-suc es b (omega arith))
