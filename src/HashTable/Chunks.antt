-- ===== src/HashTable/Chunks.antt =====
-- The array of buckets under the loop of type_hash_shrink.
use misc_c.Base.{
  ℕ, zero, suc, ◌+◌, ◌*◌, ◌^◌, ◌≤◌, ◌<◌, ◌≡◌, refl, sym, ◌∙◌, ap, ap₂, List, [], ◌∷◌, ◌++◌, arith,
  length, get_or, set, take, drop, length-set, length-drop, append-nil, append_assoc,
}
use misc_c.Base.Memory.{get_or-drop, eq_of_get_or}
use misc_c.Base.Bits.{pow_pos}
use misc_c.HashTable.{Item}
use misc_c.HashTable.Buckets.{concat}
use misc_c.HashTable.Resize.{join, shrink_loop}

-- The chains of the new buckets, each from `r` old ones.
abbrev pub chunks : (r n : ℕ) → List (List Item) → List (List Item)
chunks r zero cs = []
chunks r (suc n) cs = concat (take r cs) ∷ chunks r n (drop r cs)

drop-suc :
    (es : List (List Item)) (i : ℕ) → i < length es → drop i es ≡ get_or es i [] ∷ drop (i + 1) es
drop-suc [] i h = absurd (omega arith)
drop-suc (c ∷ es) zero h = refl
drop-suc (c ∷ es) (suc i) h =
    let next : suc i + 1 ≡ suc (i + 1) = omega arith in
    drop-suc es i (omega arith) ∙ ap (λ k. get_or es i [] ∷ drop k (c ∷ es)) (sym next)

join-concat :
    (n i : ℕ) (es : List (List Item))
    → i + n ≤ length es
    → join n i es ≡ concat (take n (drop i es))
join-concat zero i es h = refl
join-concat (suc n) i es h =
    rw (drop-suc es i (omega arith))
      (ap (λ xs. get_or es i [] ++ xs) (join-concat n (i + 1) es (omega arith)))

drop-drop : (es : List (List Item)) (m n : ℕ) → drop n (drop m es) ≡ drop (m + n) es
drop-drop es m n =
    eq_of_get_or _ _ []
      (omega (arith, length-drop n (drop m es), length-drop m es, length-drop (m + n) es))
      (λ j p.
        let assoc : m + (n + j) ≡ m + n + j = omega arith in
        get_or-drop n (drop m es) j []
        ∙ get_or-drop m es (n + j) []
        ∙ ap (λ k. get_or es k []) assoc
        ∙ sym (get_or-drop (m + n) es j []))

-- A write at `i` between what stands before it and what stands behind `k`.
drop-set :
    (es : List (List Item)) (i k : ℕ) (x : List Item) → i < k → drop k (set es i x) ≡ drop k es
drop-set [] i k x h = refl
drop-set (c ∷ es) i zero x h = absurd (omega arith)
drop-set (c ∷ es) zero (suc k) x h = refl
drop-set (c ∷ es) (suc i) (suc k) x h = drop-set es i k x (omega arith)

take-set :
    (es : List (List Item)) (i : ℕ) (x : List Item)
    → i < length es
    → take (i + 1) (set es i x) ≡ take i es ++ (x ∷ [])
take-set [] i x h = absurd (omega arith)
take-set (c ∷ es) zero x h = refl
take-set (c ∷ es) (suc i) x h =
    let next : suc i + 1 ≡ suc (i + 1) = omega arith in
    rw next (ap (λ ys. c ∷ ys) (take-set es i x (omega arith)))

pub shrink_loop-chunks :
    (delta n i : ℕ) (es : List (List Item))
    → (i + n) * 2 ^ delta ≤ length es
    → take (i + n) (shrink_loop delta n i es)
      ≡ take i es ++ chunks (2 ^ delta) n (drop (i * 2 ^ delta) es)
shrink_loop-chunks delta zero i es h =
    let z : i + 0 ≡ i = omega arith in ap (λ k. take k es) z ∙ sym (append-nil (take i es))
shrink_loop-chunks delta (suc n) i es h =
    let r = 2 ^ delta in
    let pos : 0 < r = pow_pos delta in
    let x = join r (i * r) es in
    let step : i + suc n ≡ i + 1 + n = omega arith in
    let past : i < (i + 1) * r = grind arith in
    let next : (i + 1) * r ≡ i * r + r = omega arith in
    let here : (i + 1) * r ≤ (i + suc n) * r = grind arith in
    let joined = join-concat r (i * r) es (omega arith) in
    let long = length-set es i x in
    ap (λ k. take k (shrink_loop delta n (i + 1) (set es i x))) step
    ∙ shrink_loop-chunks delta n (i + 1) (set es i x) (grind arith)
    ∙ ap₂ (λ xs ys. xs ++ chunks r n ys) (take-set es i x (omega arith))
        (drop-set es i ((i + 1) * r) x past)
    ∙ append_assoc (take i es) (x ∷ []) (chunks r n (drop ((i + 1) * r) es))
    ∙ ap₂ (λ y ys. take i es ++ y ∷ chunks r n ys) joined
        (ap (λ k. drop k es) next ∙ sym (drop-drop es (i * r) r))
