-- ===== src/Fifo/Contents.antt =====
-- The bytes that a fifo_t holds, and where the two-part copies of fifo_write and fifo_read put them.
use misc_c.Base.{
  ℕ, zero, suc, ◌+◌, ◌-◌, ◌%◌, ◌^◌, ◌≤◌, ◌<◌, ◌≡◌, refl, ap, inl, inr, Bool-cases, List, [], ◌∷◌,
  arith, ltb, leb, if◌then◌else◌, length, get_or, take, drop, length-take, length-drop,
}
use misc_c.Base.Memory.{copy_at, length-copy_at, get_or-copy_at, get_or-take, get_or-drop}
use misc_c.Fifo.{Fifo, sub_size, put_bytes}

-- `n` bytes of the ring from the free-running position `h` on.
abbrev pub bytes : List ℕ → (size h n : ℕ) → List ℕ
bytes buffer size h zero = []
bytes buffer size h (suc n) = get_or buffer (h % size) 0 ∷ bytes buffer size (h + 1) n

abbrev pub contents : Fifo → List ℕ
contents f = bytes f.buffer f.size f.head (sub_size f.tail f.head)

pub length-bytes : (buffer : List ℕ) (size h n : ℕ) → length (bytes buffer size h n) ≡ n
length-bytes buffer size h zero = refl
length-bytes buffer size h (suc n) = ap suc (length-bytes buffer size (h + 1) n)

pub get_or-bytes :
    (buffer : List ℕ) (size h n i : ℕ)
    → i < n
    → get_or (bytes buffer size h n) i 0 ≡ get_or buffer ((h + i) % size) 0
get_or-bytes buffer size h zero i p = absurd (omega arith)
get_or-bytes buffer size h (suc n) zero p = ap (λ k. get_or buffer (k % size) 0) (omega arith)
get_or-bytes buffer size h (suc n) (suc i) p =
    let e : h + 1 + i ≡ h + suc i = omega arith in
    rw (get_or-bytes buffer size (h + 1) n i (omega arith), e)

-- How far `q` stands behind `t` on the ring.
abbrev pub behind : (size t q : ℕ) → ℕ
behind size t q = if leb t q then q - t else q + size - t

module _ (buffer : List ℕ) (size t n : ℕ) (src : List ℕ) (storage : length buffer ≡ size)
    (small : size ≤ 2 ^ 63) (ht : t < size) (hn : n ≤ size) (hs : n ≤ length src) where
  -- What the copies have put at `q`.
  abbrev Put : List ℕ → ℕ → Type 0
  Put b q =
      get_or b q 0
      ≡ (if ltb (behind size t q) n then get_or src (behind size t q) 0 else get_or buffer q 0)

  one_chunk : n ≤ size - t → (q : ℕ) → q < size → Put (copy_at buffer t (take n src)) q
  one_chunk h q hq = ground (
    arith,
    get_or-copy_at buffer t (take n src) q 0,
    length-take n src,
    get_or-take n src (q - t) 0,
  )

  two_chunks :
      size - t < n
      → (q : ℕ) → q < size
      → Put
          (copy_at
            (copy_at buffer t (take (size - t) src))
            0
            (take (n - (size - t)) (drop (size - t) src)))
          q
  two_chunks h q hq =
      let w = size - t in
      let rest = drop w src in
      ground (
        arith,
        get_or-copy_at (copy_at buffer t (take w src)) 0 (take (n - w) rest) q 0,
        get_or-copy_at buffer t (take w src) q 0,
        length-copy_at buffer t (take w src),
        length-take w src,
        length-take (n - w) rest,
        length-drop w src,
        get_or-take w src (q - t) 0,
        get_or-take (n - w) rest q 0,
        get_or-drop w src q 0,
      )

  chunk : sub_size size t ≡ size - t
  chunk = omega arith

  pub length-put_bytes : length (put_bytes buffer size t n src) ≡ size
  unfolding put_bytes
  length-put_bytes = rw chunk (
      ground (
        arith,
        length-copy_at buffer t (take n src),
        length-copy_at buffer t (take (size - t) src),
        length-copy_at (copy_at buffer t (take (size - t) src)) 0
            (take (n - (size - t)) (drop (size - t) src)),
      ))

  -- The two copies write byte `d` of the source `d` places behind `t`, round the end, and no other.
  pub get_or-put_bytes : (q : ℕ) → q < size → Put (put_bytes buffer size t n src) q
  unfolding put_bytes
  get_or-put_bytes q hq = rw chunk (elim (Bool-cases (leb n (size - t))) [
    | inl e ↦ rw e (one_chunk (ground arith) q hq)
    | inr e ↦ rw e (two_chunks (ground arith) q hq)
  ])
