-- ===== src/JHash/Words.antt =====
-- jhash on the bytes of words against jhash2 on the words.
use misc_c.Base.{
  ℕ, zero, suc, ◌+◌, ◌-◌, ◌*◌, ◌/◌, ◌%◌, ◌^◌, ◌≤◌, ◌<◌, ◌≡◌, refl, ap, Bool, true, ◌&&◌, List, [],
  ◌∷◌, arith, ltb, length,
}
use misc_c.JHash.{Abc, add_u32, shl_u32, jhash_loop, jhash, jhash2_loop, jhash2}

-- The words in memory, the lowest byte of each first.
abbrev pub bytes : List ℕ → List ℕ
bytes [] = []
bytes (w ∷ ws) = w % 256 ∷ w / 256 % 256 ∷ w / 65536 % 256 ∷ w / 16777216 % 256 ∷ bytes ws

abbrev pub words_fit : List ℕ → Bool
words_fit [] = true
words_fit (w ∷ ws) = ltb w (2 ^ 32) && words_fit ws

-- The four bytes of a word make the word.
whole_word :
    (w : ℕ)
    → w < 2 ^ 32
    → add_u32
        (add_u32 (add_u32 (w % 256) (shl_u32 (w / 256 % 256) 8)) (shl_u32 (w / 65536 % 256) 16))
        (shl_u32 (w / 16777216 % 256) 24)
      ≡ w
whole_word w h = omega arith

-- Added one by one, from the highest down, they add the word.
added_word :
    (x w : ℕ)
    → w < 2 ^ 32
    → add_u32
        (add_u32
          (add_u32 (add_u32 x (shl_u32 (w / 16777216 % 256) 24)) (shl_u32 (w / 65536 % 256) 16))
          (shl_u32 (w / 256 % 256) 8))
        (w % 256)
      ≡ add_u32 x w
added_word x w h = omega arith

jhash_loop-jhash2_loop :
    (rounds : ℕ) (ws : List ℕ) (total : ℕ) (s : Abc)
    → length ws < 3 * rounds + 3
    → 3 * rounds ≤ length ws
    → words_fit ws ≡ true
    → total * 4 < 2 ^ 32
    → jhash_loop rounds (bytes ws) (4 * length ws) (4 * total) s
      ≡ jhash2_loop rounds ws (length ws) total s
unfolding jhash_loop jhash2_loop
jhash_loop-jhash2_loop zero [] total s lo hi f t =
    let same : total * 4 % 2 ^ 32 ≡ 4 * total = omega arith in rw same refl
jhash_loop-jhash2_loop zero (x ∷ []) total s lo hi f t =
    let same : total * 4 % 2 ^ 32 ≡ 4 * total = omega arith in
    rw (same, added_word s.a x (ground arith)) refl
jhash_loop-jhash2_loop zero (x ∷ y ∷ []) total s lo hi f t =
    let same : total * 4 % 2 ^ 32 ≡ 4 * total = omega arith in
    rw (same, added_word s.a x (ground arith), added_word s.b y (ground arith)) refl
jhash_loop-jhash2_loop zero (x ∷ y ∷ z ∷ ws) total s lo hi f t = absurd (omega arith)
jhash_loop-jhash2_loop (suc rounds) [] total s lo hi f t = absurd (omega arith)
jhash_loop-jhash2_loop (suc rounds) (x ∷ []) total s lo hi f t = absurd (omega arith)
jhash_loop-jhash2_loop (suc rounds) (x ∷ y ∷ []) total s lo hi f t = absurd (omega arith)
jhash_loop-jhash2_loop (suc rounds) (x ∷ y ∷ z ∷ ws) total s lo hi f t =
    let less : 4 * length (x ∷ y ∷ z ∷ ws) - 12 ≡ 4 * length ws = omega arith in
    let left : length (x ∷ y ∷ z ∷ ws) - 3 ≡ length ws = omega arith in
    rw
      (
        whole_word x (ground arith),
        whole_word y (ground arith),
        whole_word z (ground arith),
        less,
        left,
      )
      (jhash_loop-jhash2_loop rounds ws total _ (omega arith) (omega arith) (ground arith) t)

-- On fewer than 2^30 words of 32 bits, jhash2 gives what jhash gives on their bytes, the lowest byte
-- of each word first, from the same initial value.
pub jhash-jhash2 :
    (ws : List ℕ) (initval : ℕ)
    → words_fit ws ≡ true
    → length ws < 2 ^ 30
    → jhash (bytes ws) (4 * length ws) initval ≡ jhash2 ws (length ws) initval
unfolding jhash jhash2
jhash-jhash2 ws initval f short =
    let rounds : 4 * length ws / 12 ≡ length ws / 3 = omega arith in
    rw (jhash, rounds)
      (ap (λ s. s.c)
        (jhash_loop-jhash2_loop (length ws / 3) ws (length ws) _ (omega arith) (omega arith) f
          (omega arith)))
